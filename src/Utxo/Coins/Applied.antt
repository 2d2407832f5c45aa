-- ===== src/Utxo/Coins/Applied.antt =====
-- Outputs that are applied: none was unspent before, and all are afterwards.
use vcash.Prelude.{
  ℕ, suc, ◌<◌, ◌≡◌, ◌≢◌, refl, sym, ap, ◌∙◌, ◌↔◌, ◌⊎◌, inl, inr, true, false, not, List, [], ◌∷◌,
  length, map, All, All-weaken, All-Among, Among, none, some, some-injective, Result, ok, err,
  bind-ok, fail_if-ok, ok-injective, fail_if, ◌==◌, eq→==, ==→eq, Bool-cases, not_==→ne,
}
use mathlib.Core.Path.{subst}
use vcash.Prelude.Maps
use vcash.Pmmr.Tree.{PmmrError}
use vcash.Utxo.Mmr.{Mmr, IsLawful, IsWritten}
use vcash.Utxo.Coins.{
  Identifier, CommitPos, Coins, or_mmr_err, entry_data, with_data, clashes, different_sizes,
  different_pos, validate_output, apply_output, apply_outputs, save_output_pos_height,
}

pub or_mmr_err-ok : {A : Type 0} (x : Result PmmrError A) (a : A) → or_mmr_err x ≡ ok a → x ≡ ok a
or_mmr_err-ok (ok b) a e = ap ok (ok-injective b a e)
or_mmr_err-ok (err x) a e = absurd (cc)

-- No number stands twice in the list.
abbrev pub Distinct : List ℕ → Type 0
Distinct [] = Unit {0}
Distinct (c ∷ cs) = (Among c cs → ⊥) × Distinct cs

module _ {E : Type 0} (m : Mmr E) (r : Mmr ℕ) (ident : Identifier E) where
  -- The commitment is one of an unspent output.
  abbrev pub Has : ℕ → Coins m r → Type 0
  Has c s = (p : CommitPos) × (Maps.get c s.output_pos ≡ some p)

  abbrev pub commits : List (E × ℕ) → List ℕ
  commits outs = map (λ (x : E × ℕ). ident.commit x.0) outs

  module _ (law : IsLawful m) where
    -- There is room for so many outputs more, and every entry of the index is that of an output with
    -- that commitment, at a position from 1 on.
    pub record IsIndexed (k : ℕ) (s : Coins m r) : Type 0 where
      pub room : law.HasRoom k s.output_pmmr
      pub indexed :
          (c : ℕ) (p : CommitPos)
          → Maps.get c s.output_pos ≡ some p
          → (o : E) × ((m.get_data p.pos s.output_pmmr ≡ some o) × (ident.commit o ≡ c))
      pub positive : (c : ℕ) (p : CommitPos) → Maps.get c s.output_pos ≡ some p → 0 < p.pos

    -- An output passes the check only if its commitment is not unspent.
    pub validate_output-fresh :
        (k : ℕ) (out : E) (s : Coins m r)
        → IsIndexed k s
        → validate_output m r ident out s ≡ ok tt
        → Has (ident.commit out) s
        → ⊥
    unfolding validate_output
    validate_output-fresh k out s index e (p, at) =
        let (o, (there, same)) = index.indexed (ident.commit out) p at in
        let clash : clashes m r ident (ident.commit out) (entry_data m r ident (ident.commit out) s)
            ≡ true =
          ap (clashes m r ident (ident.commit out))
            (ap (with_data m r ident s.output_pmmr) at ∙ ap (λ z. some (p, z)) there)
          ∙ eq→== (ident.commit o) (ident.commit out) same in
        let free = fail_if-ok _ _ e in let wrong : true ≡ false = sym clash ∙ free in cc

    -- What an output that is applied does to the range.
    record IsPushed (k : ℕ) (out : E) (s : Coins m r) (s' : Coins m r) (pos : ℕ) : Type 0 where
      pub fresh : Has (ident.commit out) s → ⊥
      pub index_same : s'.output_pos ≡ s.output_pos
      pub room : law.HasRoom k s'.output_pmmr
      pub positive : 0 < pos
      pub free : m.get_data pos s.output_pmmr ≡ none
      pub written : IsWritten m pos (some out) s.output_pmmr s'.output_pmmr

    apply_output-IsPushed :
        (k : ℕ) (out : E) (proof : ℕ) (s s' : Coins m r) (pos : ℕ)
        → IsIndexed (suc k) s
        → apply_output m r ident out proof s ≡ ok (s', pos)
        → IsPushed k out s s' pos
    unfolding apply_output
    apply_output-IsPushed k out proof s s' pos index e =
        let (u1, (e1, k1)) = bind-ok (validate_output m r ident out s) _ (s', pos) e in
        let (x, (e2, k2)) = bind-ok (or_mmr_err (m.push out s.output_pmmr)) _ (s', pos) k1 in
        let (y, (e3, k3)) = bind-ok (or_mmr_err (r.push proof s.rproof_pmmr)) _ (s', pos) k2 in
        let (u4, (e4, k4)) =
          bind-ok (fail_if (not (m.unpruned_size x.0 == r.unpruned_size y.0)) different_sizes) _
            (s', pos) k3 in
        let (u5, (e5, k5)) = bind-ok (fail_if (not (x.1 == y.1)) different_pos) _ (s', pos) k4 in
        let same = ok-injective _ _ k5 in
        let pushed = or_mmr_err-ok (m.push out s.output_pmmr) x e2 in
        let fresh = validate_output-fresh (suc k) out s index e1 in
        subst (λ (z : Coins m r × ℕ). IsPushed k out s z.0 z.1) same
          (record {
            fresh = fresh;
            index_same = refl;
            room = law.push_room k out s.output_pmmr x.0 x.1 index.room pushed;
            positive = law.push_positive k out s.output_pmmr x.0 x.1 index.room pushed;
            free = law.push_free k out s.output_pmmr x.0 x.1 index.room pushed;
            written = law.push_written k out s.output_pmmr x.0 x.1 index.room pushed;
          })

    -- The index holds the new output, and the others as before.
    pub Has-save :
        (c commit pos height : ℕ) (s : Coins m r)
        → Has c (save_output_pos_height m r ident commit pos height s) ↔ (Has c s ⊎ (c ≡ commit))
    Has-save c commit pos height s = (forward, backward)
      where
        new : CommitPos
        new = record { pos = pos; height = height }

        forward :
            Has c (save_output_pos_height m r ident commit pos height s) → Has c s ⊎ (c ≡ commit)
        forward (p, e) = elim (Bool-cases (c == commit)) [
          | inl t ↦ inr (==→eq c commit t)
          | inr f ↦
              inl (p, sym (Maps.get-insert c commit new s.output_pos (not_==→ne c commit f)) ∙ e)
        ]

        backward :
            Has c s ⊎ (c ≡ commit) → Has c (save_output_pos_height m r ident commit pos height s)
        backward (inr e) = (new, Maps.get-insert_at c commit new s.output_pos e)
        backward (inl (p, e)) = elim (Bool-cases (c == commit)) [
          | inl t ↦ (new, Maps.get-insert_at c commit new s.output_pos (==→eq c commit t))
          | inr f ↦ (p, Maps.get-insert c commit new s.output_pos (not_==→ne c commit f) ∙ e)
        ]

    saved-IsIndexed :
        (k height : ℕ) (out : E) (s s' : Coins m r) (pos : ℕ)
        → IsIndexed (suc k) s
        → IsPushed k out s s' pos
        → IsIndexed k (save_output_pos_height m r ident (ident.commit out) pos height s')
    saved-IsIndexed k height out s s' pos index pushed = record {
      room = pushed.room;
      indexed = at;
      positive = λ c p e. elim (entry-cases c p e) [
        | inl same ↦ subst (λ (z : CommitPos). 0 < z.pos) same.1 pushed.positive
        | inr old ↦ index.positive c p old
      ];
    }
      where
        new : CommitPos
        new = record { pos = pos; height = height }

        entry-cases :
            (c : ℕ) (p : CommitPos)
            → Maps.get c (Maps.insert (ident.commit out) new s'.output_pos) ≡ some p
            → ((c ≡ ident.commit out) × (new ≡ p)) ⊎ (Maps.get c s.output_pos ≡ some p)
        entry-cases c p e = elim (Bool-cases (c == ident.commit out)) [
          | inl t ↦
              let here = ==→eq c (ident.commit out) t in
              inl (
                here,
                some-injective
                    (sym (Maps.get-insert_at c (ident.commit out) new s'.output_pos here) ∙ e),
              )
          | inr f ↦ inr (
              ap (Maps.get c) (sym pushed.index_same)
              ∙ (sym (
                    Maps.get-insert c (ident.commit out) new s'.output_pos
                      (not_==→ne c (ident.commit out) f))
                  ∙ e))
        ]

        at :
            (c : ℕ) (p : CommitPos)
            → Maps.get c (Maps.insert (ident.commit out) new s'.output_pos) ≡ some p
            → (o : E) × ((m.get_data p.pos s'.output_pmmr ≡ some o) × (ident.commit o ≡ c))
        at c p e = elim (entry-cases c p e) [
          | inl (here, same) ↦ (
            out,
            (
              ap (λ (z : CommitPos). m.get_data z.pos s'.output_pmmr) (sym same)
                  ∙ pushed.written.here,
              sym here,
            ),
          )
          | inr old ↦
              let (o, (there, same)) = index.indexed c p old in
              let apart : p.pos ≢ pos = λ (q : p.pos ≡ pos).
                let gone : some o ≡ none =
                  sym there ∙ (ap (λ z. m.get_data z s.output_pmmr) q ∙ pushed.free) in
                cc in
              (o, (pushed.written.elsewhere (p.pos) (index.positive c p old) apart ∙ there, same))
        ]

    -- What is true after a list of outputs was applied.
    pub record AreApplied (outs : List (E × ℕ)) (s : Coins m r) (s' : Coins m r) : Type 0 where
      pub after : IsIndexed 0 s'
      pub fresh : All (λ c. Has c s → ⊥) (commits outs)
      pub once : Distinct (commits outs)
      pub unspent : (c : ℕ) → Has c s' ↔ (Has c s ⊎ Among c (commits outs))

    pub apply_outputs-AreApplied :
        (height : ℕ) (outs : List (E × ℕ)) (s : Coins m r) (res : Coins m r × List ℕ)
        → IsIndexed (length outs) s
        → apply_outputs m r ident height outs s ≡ ok res
        → AreApplied outs s res.0
    unfolding apply_outputs
    apply_outputs-AreApplied height [] s res index e =
        subst (λ (z : Coins m r × List ℕ). AreApplied [] s z.0) (ok-injective _ _ e)
          (record {
            after = index;
            fresh = tt;
            once = tt;
            unspent = λ c. (λ h. inl h, λ h. elim h [ inl x ↦ x | inr y ↦ absurd (y.lower) ]);
          })
    apply_outputs-AreApplied height ((out, proof) ∷ outs) s res index e =
        let (x, (e1, k1)) = bind-ok (apply_output m r ident out proof s) _ res e in
        let pushed = apply_output-IsPushed (length outs) out proof s (x.0) (x.1) index e1 in
        let (y, (e2, k2)) =
          bind-ok
            (apply_outputs m r ident height outs
              (save_output_pos_height m r ident commit (x.1) height (x.0)))
            _ res k1 in
        let rest =
          apply_outputs-AreApplied height outs
            (save_output_pos_height m r ident commit (x.1) height (x.0)) y
            (saved-IsIndexed (length outs) height out s (x.0) (x.1) index pushed) e2 in
        subst (λ (z : Coins m r × List ℕ). AreApplied ((out, proof) ∷ outs) s z.0)
          (ok-injective _ _ k2) (one_more (x.1) (x.0) (y.0) pushed rest)
      where
        commit : ℕ
        commit = ident.commit out

        one_more :
            (pos : ℕ) (s1 s2 : Coins m r)
            → IsPushed (length outs) out s s1 pos
            → AreApplied outs (save_output_pos_height m r ident commit pos height s1) s2
            → AreApplied ((out, proof) ∷ outs) s s2
        one_more pos s1 s2 pushed rest = record {
          after = rest.after;
          fresh = (
            pushed.fresh,
            All-weaken _ (λ c. Has c s → ⊥) (commits outs)
                (λ c f h. f ((Has-save c commit pos height s1).1 (inl (kept c h)))) rest.fresh,
          );
          once = (
            (λ among.
                All-Among _ (commits outs) rest.fresh among
                  ((Has-save commit commit pos height s1).1 (inr refl))),
            rest.once,
          );
          unspent = λ c. (forward c, backward c);
        }
          where
            kept : (c : ℕ) → Has c s → Has c s1
            kept c (p, g) = (p, ap (Maps.get c) pushed.index_same ∙ g)

            back : (c : ℕ) → Has c s1 → Has c s
            back c (p, g) = (p, ap (Maps.get c) (sym pushed.index_same) ∙ g)

            forward : (c : ℕ) → Has c s2 → Has c s ⊎ Among c (commits ((out, proof) ∷ outs))
            forward c h = elim ((rest.unspent c).0 h) [
              | inr among ↦ inr (inr among)
              | inl g ↦ elim ((Has-save c commit pos height s1).0 g) [
                | inl old ↦ inl (back c old)
                | inr new ↦ inr (inl new)
              ]
            ]

            backward : (c : ℕ) → Has c s ⊎ Among c (commits ((out, proof) ∷ outs)) → Has c s2
            backward c (inl h) =
                (rest.unspent c).1 (inl ((Has-save c commit pos height s1).1 (inl (kept c h))))
            backward c (inr (inl e)) =
                (rest.unspent c).1 (inl ((Has-save c commit pos height s1).1 (inr e)))
            backward c (inr (inr among)) = (rest.unspent c).1 (inr among)
