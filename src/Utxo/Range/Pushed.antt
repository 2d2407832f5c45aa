-- ===== src/Utxo/Range/Pushed.antt =====
-- A push onto the mountain range: the new leaf, and what it leaves as it was.
use native.Mathlib.Decide.{dec_lt}
use vcash.Prelude.{
  ℕ, zero, suc, ◌+◌, ◌*◌, ◌≤◌, ◌<◌, ◌≡◌, ◌≢◌, refl, sym, ap, ◌∙◌, ◌⊎◌, not_==→ne, ==→eq, inl, inr,
  arith, u64_mod, false, ◌==◌, ne→not_==, eq→==, lt→ltb, Bool-cases, none, some, List, All,
  All-weaken, ok, ok-injective, if◌then◌else◌,
}
use mathlib.Core.Path.{subst}
use vcash.Pmmr.Position.Node.{node_pos}
use vcash.Pmmr.Position.Descent.{size_of}
use vcash.Pmmr.Backend
use vcash.Pmmr.Backend.{Hashing, new_backend}
use vcash.Pmmr.Tree
use vcash.Pmmr.Tree.{Pmmr}
use vcash.Pmmr.Tree.Spec.{IsRange}
use vcash.Pmmr.Tree.Grow.{push-IsRange, first_leaf, size_of_mono}
use vcash.Pmmr.Tree.Read.{get_data-IsRange}
use vcash.Pmmr.Tree.Same.{IsRange-same, push-removed, contains-beyond}
use vcash.Utxo.Mmr.{IsWritten}
use vcash.Utxo.Range.{tree_mmr, HasRoom}

module _ {T H : Type 0} (hs : Hashing T H) where
  -- The leaves with another one at a place.
  abbrev replaced : ℕ → T → (ℕ → T) → ℕ → T
  replaced n elmt leaf q = if q == n then elmt else leaf q

  -- What a push makes of the range.
  record IsPushed (k : ℕ) (elmt : T) (m : Pmmr T H) (m2 : Pmmr T H) (pos : ℕ) : Type 0 where
    pub room : HasRoom hs (suc k) m
    pub at : pos ≡ node_pos room.n 0
    pub range : IsRange hs (replaced room.n elmt room.leaf) m2 (room.n + 1)
    pub removed : m2.backend.removed ≡ m.backend.removed

  replaced-before :
      (n : ℕ) (elmt : T) (leaf : ℕ → T) (q : ℕ) → q < n → leaf q ≡ replaced n elmt leaf q
  replaced-before n elmt leaf q lt = rw (ne→not_== q n (omega arith)) refl

  replaced-at : (n : ℕ) (elmt : T) (leaf : ℕ → T) → replaced n elmt leaf n ≡ elmt
  replaced-at n elmt leaf = rw (eq→== n n refl) refl

  push-IsPushed :
      (k : ℕ) (elmt : T) (m m2 : Pmmr T H) (pos : ℕ)
      → HasRoom hs (suc k) m
      → Tree.push hs m elmt ≡ ok (m2, pos)
      → IsPushed k elmt m m2 pos
  push-IsPushed k elmt m m2 pos room e =
      let leaf2 = replaced room.n elmt room.leaf in
      let before =
        IsRange-same hs room.leaf leaf2 room.n (replaced-before room.n elmt room.leaf) m
          room.range in
      let (m3, pushed, after) = push-IsRange hs leaf2 m room.n (omega (arith, room.fits)) before in
      let same : (m3, node_pos room.n 0) ≡ (m2, pos) =
        ok-injective _ _
          (sym pushed ∙ (ap (Tree.push hs m) (replaced-at room.n elmt room.leaf) ∙ e)) in
      record {
        room = room;
        at = sym (ap (λ z. z.1) same);
        range = subst (λ (z : Pmmr T H × ℕ). IsRange hs leaf2 z.0 (room.n + 1)) same after;
        removed = push-removed hs m m2 elmt pos e;
      }

  pub push_room :
      (k : ℕ) (elmt : T) (m m2 : Pmmr T H) (pos : ℕ)
      → HasRoom hs (suc k) m
      → Tree.push hs m elmt ≡ ok (m2, pos)
      → HasRoom hs k m2
  push_room k elmt m m2 pos room e =
      let pushed = push-IsPushed k elmt m m2 pos room e in
      let next : 1 + pushed.room.n ≡ pushed.room.n + 1 = omega arith in
      let grown : size_of 64 pushed.room.n ≤ size_of 64 (pushed.room.n + 1) =
        rw next at (size_of_mono 1 pushed.room.n (omega (arith, pushed.room.fits))) in
      record {
        n = pushed.room.n + 1;
        leaf = replaced pushed.room.n elmt pushed.room.leaf;
        range = pushed.range;
        fits = omega (arith, pushed.room.fits);
        within = subst (All (λ (p : ℕ). p ≤ m2.last_pos)) (sym pushed.removed) (
            All-weaken _ _ m.backend.removed
              (λ p le. omega (arith, le, grown, pushed.range.size, pushed.room.range.size))
              pushed.room.within);
      }

  pub push_place :
      (k : ℕ) (elmt : T) (m m2 : Pmmr T H) (pos : ℕ)
      → HasRoom hs (suc k) m
      → Tree.push hs m elmt ≡ ok (m2, pos)
      → pos ≡ suc m.last_pos
  push_place k elmt m m2 pos room e =
      let pushed = push-IsPushed k elmt m m2 pos room e in
      pushed.at ∙ omega (arith, first_leaf pushed.room.n, pushed.room.range.size)

  pub push_free :
      (k : ℕ) (elmt : T) (m m2 : Pmmr T H) (pos : ℕ)
      → HasRoom hs (suc k) m
      → Tree.push hs m elmt ≡ ok (m2, pos)
      → Tree.get_data m pos ≡ none
  unfolding Tree.get_data
  push_free k elmt m m2 pos room e =
      rw (lt→ltb m.last_pos pos (omega (arith, push_place k elmt m m2 pos room e))) refl

  -- A position is that of one of the first leaves or of none of them.
  place-cases :
      (p n : ℕ) → ((q : ℕ) × ((q < n) × (p ≡ node_pos q 0))) ⊎ ((q : ℕ) → q < n → p ≢ node_pos q 0)
  place-cases p zero = inr (λ q lt. absurd (omega arith))
  place-cases p (suc n) = elim (place-cases p n) [
    | inl (q, (lt, e)) ↦ inl (q, (omega arith, e))
    | inr apart ↦ elim (Bool-cases (p == node_pos n 0)) [
      | inl here ↦ inl (n, (omega arith, ==→eq p (node_pos n 0) here))
      | inr other ↦ inr (λ q lt e. elim (dec_lt q n) [
        | yes below ↦ apart q below e
        | no last ↦
            let l : q ≡ n = omega arith in
            not_==→ne p (node_pos n 0) other (e ∙ ap (λ (t : ℕ). node_pos t 0) l)
      ])
    ]
  ]

  -- What a range with the first leaves gives at each position.
  record IsHeld (leaf : ℕ → T) (m : Pmmr T H) (n : ℕ) : Type 0 where
    pub at_leaf :
        (q : ℕ)
        → q < n
        → Tree.get_data m (node_pos q 0)
          ≡ (if Backend.contains (node_pos q 0) m.backend.removed then none else some (leaf q))
    pub at_other : (p : ℕ) → 0 < p → ((q : ℕ) → q < n → p ≢ node_pos q 0) → Tree.get_data m p ≡ none

  range-IsHeld :
      (leaf : ℕ → T) (m : Pmmr T H) (n : ℕ)
      → 2 * (n + 1) < u64_mod
      → IsRange hs leaf m n
      → IsHeld leaf m n
  range-IsHeld leaf m n fits range =
      let (leaves, others) = get_data-IsRange hs leaf m n fits range in
      record { at_leaf = leaves; at_other = others }

  -- Of two ranges with the same positions removed, of which the second has one leaf more, both give
  -- the same at each other position.
  held-elsewhere :
      (leaf leaf2 : ℕ → T) (m m2 : Pmmr T H) (n p : ℕ)
      → ((q : ℕ) → q < n → leaf q ≡ leaf2 q)
      → m2.backend.removed ≡ m.backend.removed
      → IsHeld leaf m n
      → IsHeld leaf2 m2 (n + 1)
      → 0 < p
      → p ≢ node_pos n 0
      → Tree.get_data m2 p ≡ Tree.get_data m p
  held-elsewhere leaf leaf2 m m2 n p agree removed before after positive ne =
      elim (place-cases p n) [
        | inl (q, (lt, at)) ↦
            ap (Tree.get_data m2) at
            ∙ (after.at_leaf q (omega arith)
                ∙ (ap
                      (λ (ys : List ℕ).
                        if Backend.contains (node_pos q 0) ys then none else some (leaf2 q))
                      removed
                    ∙ (ap
                          (λ (t : T).
                            if Backend.contains (node_pos q 0) m.backend.removed
                            then none
                            else some t)
                          (sym (agree q lt))
                        ∙ (sym (before.at_leaf q lt) ∙ ap (Tree.get_data m) (sym at)))))
        | inr apart ↦
            after.at_other p positive (λ q lt at. elim (dec_lt q n) [
              | yes below ↦ apart q below at
              | no last ↦ let l : q ≡ n = omega arith in ne (at ∙ ap (λ (t : ℕ). node_pos t 0) l)
            ])
            ∙ sym (before.at_other p positive apart)
      ]

  pub push-IsWritten :
      (k : ℕ) (elmt : T) (m m2 : Pmmr T H) (pos : ℕ)
      → HasRoom hs (suc k) m
      → Tree.push hs m elmt ≡ ok (m2, pos)
      → IsWritten (tree_mmr hs) pos (some elmt) m m2
  push-IsWritten k elmt m m2 pos room e = written (push-IsPushed k elmt m m2 pos room e)
    where
      written : IsPushed k elmt m m2 pos → IsWritten (tree_mmr hs) pos (some elmt) m m2
      written pushed =
          let n = pushed.room.n in
          let leaf = pushed.room.leaf in
          let leaf2 = replaced n elmt leaf in
          let before = range-IsHeld leaf m n (omega (arith, pushed.room.fits)) pushed.room.range in
          let after =
            range-IsHeld leaf2 m2 (n + 1) (omega (arith, pushed.room.fits)) pushed.range in
          let kept : Backend.contains (node_pos n 0) m2.backend.removed ≡ false =
            ap (Backend.contains (node_pos n 0)) pushed.removed
            ∙ contains-beyond (node_pos n 0) m.last_pos m.backend.removed pushed.room.within
                (omega (arith, first_leaf n, pushed.room.range.size)) in
          record {
            here =
                ap (Tree.get_data m2) pushed.at
                ∙ (after.at_leaf n (omega arith) ∙ rw (kept, replaced-at n elmt leaf) refl);
            elsewhere = λ p positive ne.
                held-elsewhere leaf leaf2 m m2 n p (replaced-before n elmt leaf) pushed.removed
                  before after positive (λ at. ne (at ∙ sym pushed.at));
          }
