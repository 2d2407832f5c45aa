-- ===== src/Utxo/Coins/Spent.antt =====
-- Inputs that are applied: each was unspent before, and none is afterwards.
use vcash.Prelude.{
  ℕ, ◌≡◌, ◌≢◌, refl, sym, ap, ◌∙◌, ◌↔◌, ◌⊎◌, inl, inr, Bool, true, false, not, List, [], ◌∷◌,
  length, map, All, All-weaken, All-Among, Among, Option, none, some, ok, bind-ok, fail_if-ok,
  ok-injective, fail_if, ◌==◌, ==→eq, Bool-cases, not_==→ne,
}
use mathlib.Core.Path.{subst}
use vcash.Prelude.Maps
use vcash.Utxo.Mmr.{Mmr, IsLawful, IsWritten}
use vcash.Utxo.Coins.{
  Identifier, CommitPos, Coins, or_mmr_err, mismatch, already_spent, output_pmmr_mismatch, spend_at,
  apply_input, apply_inputs, apply_outputs, delete_output_pos_height,
}
use vcash.Utxo.Coins.Applied.{
  or_mmr_err-ok, Has, Distinct, commits, IsIndexed, apply_outputs-AreApplied,
}

module _ {E : Type 0} (m : Mmr E) (r : Mmr ℕ) (ident : Identifier E) (law : IsLawful m) where
  abbrev pub input_commits : List E → List ℕ
  input_commits inputs = map ident.commit inputs

  un_negated : (b : Bool) → not b ≡ false → b ≡ true
  un_negated true e = refl
  un_negated false e = absurd (cc)

  -- What an input that is applied does: its output was there, with the same features, and is gone.
  record IsPruned (input : E) (s : Coins m r) (s' : Coins m r) : Type 0 where
    pub entry : CommitPos
    pub found : Maps.get (ident.commit input) s.output_pos ≡ some entry
    pub meant : (o : E) → m.get_data entry.pos s.output_pmmr ≡ some o → ident.same input o ≡ true
    pub index_same : s'.output_pos ≡ s.output_pos
    pub room : law.HasRoom 0 s'.output_pmmr
    pub written : IsWritten m entry.pos none s.output_pmmr s'.output_pmmr

  spend_at-IsPruned :
      (input : E) (s : Coins m r) (o : Option CommitPos) (res : Coins m r × CommitPos)
      → law.HasRoom 0 s.output_pmmr
      → Maps.get (ident.commit input) s.output_pos ≡ o
      → spend_at m r ident input s o ≡ ok res
      → IsPruned input s res.0
  spend_at-IsPruned input s none res room g e = absurd (cc)
  spend_at-IsPruned input s (some p) res room g e =
      let here = m.get_data p.pos s.output_pmmr in
      let (u1, (e1, k1)) =
        bind-ok (fail_if (mismatch m r ident input here) output_pmmr_mismatch) _ res e in
      let (x, (e2, k2)) = bind-ok (or_mmr_err (m.prune p.pos s.output_pmmr)) _ res k1 in
      let (u3, (e3, k3)) =
        bind-ok (fail_if (not (x.1)) (already_spent (ident.commit input))) _ res k2 in
      let (y, (e4, k4)) = bind-ok (or_mmr_err (r.prune p.pos s.rproof_pmmr)) _ res k3 in
      let done = un_negated (x.1) (fail_if-ok (not (x.1)) _ e3) in
      let pruned : m.prune p.pos s.output_pmmr ≡ ok (x.0, true) =
        or_mmr_err-ok (m.prune p.pos s.output_pmmr) x e2 ∙ ap (λ (b : Bool). ok (x.0, b)) done in
      subst (λ (z : Coins m r × CommitPos). IsPruned input s z.0) (ok-injective _ _ k4)
        (record {
          entry = p;
          found = g;
          meant = λ o there.
              un_negated (ident.same input o)
                (ap (mismatch m r ident input) (sym there) ∙ fail_if-ok _ output_pmmr_mismatch e1);
          index_same = refl;
          room = law.prune_room 0 p.pos s.output_pmmr (x.0) true room pruned;
          written = law.prune_written 0 p.pos s.output_pmmr (x.0) room pruned;
        })

  -- The index without a commitment.
  Has-delete :
      (c commit : ℕ) (s : Coins m r)
      → Has m r ident c (delete_output_pos_height m r ident commit s)
        ↔ (Has m r ident c s × (c ≢ commit))
  Has-delete c commit s = (forward, backward)
    where
      forward :
          Has m r ident c (delete_output_pos_height m r ident commit s)
          → Has m r ident c s × (c ≢ commit)
      forward (p, e) = elim (Bool-cases (c == commit)) [
        | inl t ↦
            let gone : Maps.get c (Maps.erase commit s.output_pos) ≡ none =
              ap (λ z. Maps.get z (Maps.erase commit s.output_pos)) (==→eq c commit t)
              ∙ Maps.get-erase_self commit s.output_pos in
            let wrong : none ≡ some p = sym gone ∙ e in absurd (cc)
        | inr f ↦
            let ne = not_==→ne c commit f in
            ((p, sym (Maps.get-erase c commit s.output_pos ne) ∙ e), ne)
      ]

      backward :
          Has m r ident c s × (c ≢ commit)
          → Has m r ident c (delete_output_pos_height m r ident commit s)
      backward ((p, e), ne) = (p, Maps.get-erase c commit s.output_pos ne ∙ e)

  deleted-IsIndexed :
      (input : E) (s s' : Coins m r)
      → IsIndexed m r ident law 0 s
      → IsPruned input s s'
      → IsIndexed m r ident law 0 (delete_output_pos_height m r ident (ident.commit input) s')
  deleted-IsIndexed input s s' index pruned = record {
    room = pruned.room;
    indexed = at;
    positive = λ c p e. index.positive c p (there c p e);
  }
    where
      there :
          (c : ℕ) (p : CommitPos)
          → Maps.get c (Maps.erase (ident.commit input) s'.output_pos) ≡ some p
          → Maps.get c s.output_pos ≡ some p
      there c p e =
          let (q, ne) = (Has-delete c (ident.commit input) s').0 (p, e) in
          ap (Maps.get c) (sym pruned.index_same)
          ∙ (sym (Maps.get-erase c (ident.commit input) s'.output_pos ne) ∙ e)

      at :
          (c : ℕ) (p : CommitPos)
          → Maps.get c (Maps.erase (ident.commit input) s'.output_pos) ≡ some p
          → (o : E) × ((m.get_data p.pos s'.output_pmmr ≡ some o) × (ident.commit o ≡ c))
      at c p e =
          let ((q, g), ne) = (Has-delete c (ident.commit input) s').0 (p, e) in
          let (o, (stored, same)) = index.indexed c p (there c p e) in
          let (o2, (stored2, same2)) =
            index.indexed (ident.commit input) pruned.entry pruned.found in
          let apart : p.pos ≢ pruned.entry.pos = λ (q : p.pos ≡ pruned.entry.pos).
            let one : some o ≡ some o2 =
              sym stored ∙ (ap (λ z. m.get_data z s.output_pmmr) q ∙ stored2) in
            let equal : o ≡ o2 = cc in ne (sym same ∙ (ap ident.commit equal ∙ same2)) in
          (
            o,
            (
              pruned.written.elsewhere (p.pos) (index.positive c p (there c p e)) apart ∙ stored,
              same,
            ),
          )

  -- What is true after a list of inputs was applied.
  record AreSpent (inputs : List E) (s : Coins m r) (s' : Coins m r) : Type 0 where
    pub after : IsIndexed m r ident law 0 s'
    pub were : All (λ c. Has m r ident c s) (input_commits inputs)
    pub once : Distinct (input_commits inputs)
    pub unspent :
        (c : ℕ) → Has m r ident c s' ↔ (Has m r ident c s × (Among c (input_commits inputs) → ⊥))

  apply_inputs-AreSpent :
      (inputs : List E) (s : Coins m r) (res : Coins m r × List CommitPos)
      → IsIndexed m r ident law 0 s
      → apply_inputs m r ident inputs s ≡ ok res
      → AreSpent inputs s res.0
  unfolding apply_inputs apply_input
  apply_inputs-AreSpent [] s res index e =
      subst (λ (z : Coins m r × List CommitPos). AreSpent [] s z.0) (ok-injective _ _ e)
        (record {
          after = index;
          were = tt;
          once = tt;
          unspent = λ c. (λ h. (h, λ y. y.lower), λ h. h.0);
        })
  apply_inputs-AreSpent (input ∷ inputs) s res index e =
      let at = Maps.get commit s.output_pos in
      let (x, (e1, k1)) = bind-ok (spend_at m r ident input s at) _ res e in
      let pruned = spend_at-IsPruned input s at x index.room refl e1 in
      let s2 = delete_output_pos_height m r ident commit (x.0) in
      let (y, (e2, k2)) = bind-ok (apply_inputs m r ident inputs s2) _ res k1 in
      let rest =
        apply_inputs-AreSpent inputs s2 y (deleted-IsIndexed input s (x.0) index pruned) e2 in
      subst (λ (z : Coins m r × List CommitPos). AreSpent (input ∷ inputs) s z.0)
        (ok-injective _ _ k2) (one_more (x.0) (y.0) pruned rest)
    where
      commit : ℕ
      commit = ident.commit input

      one_more :
          (s1 s2 : Coins m r)
          → IsPruned input s s1
          → AreSpent inputs (delete_output_pos_height m r ident commit s1) s2
          → AreSpent (input ∷ inputs) s s2
      one_more s1 s2 pruned rest = record {
        after = rest.after;
        were = (
          (pruned.entry, pruned.found),
          All-weaken _ _ (input_commits inputs) (λ c h. back c ((Has-delete c commit s1).0 h).0)
              rest.were,
        );
        once = (
          (λ among.
              let h = All-Among _ (input_commits inputs) rest.were among in
              ((Has-delete commit commit s1).0 h).1 refl),
          rest.once,
        );
        unspent = λ c. (forward c, backward c);
      }
        where
          kept : (c : ℕ) → Has m r ident c s → Has m r ident c s1
          kept c (p, g) = (p, ap (Maps.get c) pruned.index_same ∙ g)

          back : (c : ℕ) → Has m r ident c s1 → Has m r ident c s
          back c (p, g) = (p, ap (Maps.get c) (sym pruned.index_same) ∙ g)

          forward :
              (c : ℕ)
              → Has m r ident c s2
              → Has m r ident c s × (Among c (input_commits (input ∷ inputs)) → ⊥)
          forward c h =
              let (g, out) = (rest.unspent c).0 h in
              let (f, ne) = (Has-delete c commit s1).0 g in
              (back c f, λ y. elim y [ inl e ↦ ne e | inr z ↦ out z ])

          backward :
              (c : ℕ)
              → Has m r ident c s × (Among c (input_commits (input ∷ inputs)) → ⊥)
              → Has m r ident c s2
          backward c (h, out) =
              (rest.unspent c).1
                ((Has-delete c commit s1).1 (kept c h, λ e. out (inl e)), λ z. out (inr z))

  -- What applying the outputs and then the inputs of a block makes of the unspent outputs.
  pub record IsApplied (outs : List (E × ℕ)) (inputs : List E) (s : Coins m r) (s' : Coins m r)
      : Type 0 where
    pub after : IsIndexed m r ident law 0 s'
    -- Each new output has a commitment of its own, which was not unspent.
    pub fresh : All (λ c. Has m r ident c s → ⊥) (commits m r ident outs)
    pub outputs_once : Distinct (commits m r ident outs)
    -- Each input spends another output, one of the unspent or of the new ones.
    pub were :
        All (λ c. Has m r ident c s ⊎ Among c (commits m r ident outs)) (input_commits inputs)
    pub inputs_once : Distinct (input_commits inputs)
    -- Unspent are then those that were or are new, but for what the inputs spend.
    pub unspent :
        (c : ℕ)
        → Has m r ident c s' ↔ (
            (Has m r ident c s ⊎ Among c (commits m r ident outs))
            × (Among c (input_commits inputs) → ⊥))

  pub apply-IsApplied :
      (height : ℕ) (outs : List (E × ℕ)) (inputs : List E) (s : Coins m r) (x : Coins m r × List ℕ)
      (y : Coins m r × List CommitPos)
      → IsIndexed m r ident law (length outs) s
      → apply_outputs m r ident height outs s ≡ ok x
      → apply_inputs m r ident inputs x.0 ≡ ok y
      → IsApplied outs inputs s y.0
  apply-IsApplied height outs inputs s x y index e f =
      let made = apply_outputs-AreApplied m r ident law height outs s x index e in
      let spent = apply_inputs-AreSpent inputs (x.0) y made.after f in
      record {
        after = spent.after;
        fresh = made.fresh;
        outputs_once = made.once;
        were = All-weaken _ _ (input_commits inputs) (λ c h. (made.unspent c).0 h) spent.were;
        inputs_once = spent.once;
        unspent = λ c. (
          (λ h. let g = (spent.unspent c).0 h in ((made.unspent c).0 (g.0), g.1)),
          (λ h. (spent.unspent c).1 ((made.unspent c).1 (h.0), h.1)),
        );
      }
