-- ===== src/Store/LeafSet/Rewind.antt =====
-- What a leaf set includes after a rewind, and what `removed_pre_cutoff` gives for it.
use mathlib.Core.Path.{subst}
use vcash.Prelude.{
  ℕ, zero, suc, ◌+◌, ◌≤◌, ◌<◌, ◌≡◌, refl, sym, ap, ◌∙◌, inl, inr, Bool, true, false, not, ◌&&◌,
  ◌||◌, map, filter, ltb, leb, ◌==◌, ==→eq, not_==→ne, if◌then◌else◌, arith, Bool-cases, ◌^◌,
}
use vcash.Transaction.Features.{contains}
use vcash.Pmmr.Position.{is_leaf}
use vcash.Store.Bitmap.Listed.{contains-le_last, first_in, rest_in}
use vcash.Store.Bitmap.{Bitmaps, IsLawful, as_u32, unwrap_or, positions}
use vcash.Store.PruneList.{PruneList, is_pruned}
use vcash.Store.LeafSet.{
  LeafSet, unpruned_pre_cutoff, rewound, removed_pre_cutoff, rewind, includes,
}

module _ (m : Bitmaps) (laws : IsLawful m) where
  and_false : (b : Bool) → (b && false) ≡ false
  and_false true = refl
  and_false false = refl

  kept_range : (x c top : ℕ) → x ≤ top → not (leb (c + 1) x && leb x top) ≡ leb x c
  kept_range x c top le = ground arith

  range-has :
      (x c : ℕ) (b : m.Bitmap)
      → (not (leb (c + 1) x && leb x (unwrap_or 0 (m.maximum b))) && m.has x b)
        ≡ (leb x c && m.has x b)
  range-has x c b = elim (Bool-cases (m.has x b)) [
    | inl t ↦
        let le : x ≤ unwrap_or 0 (m.maximum b) =
          subst (λ o. x ≤ unwrap_or 0 o) (sym (laws.maximum-iter b))
            (contains-le_last x (m.iter b) (laws.iter-IsIncreasing b)
              (sym (laws.has-iter x b) ∙ t)) in
        ap (λ g. g && m.has x b) (kept_range x c (unwrap_or 0 (m.maximum b)) le)
    | inr f ↦ rw f (and_false _ ∙ sym (and_false _))
  ]

  -- What is left after the two steps of a rewind: what was there up to the cutoff, and what is added back.
  rewound-has :
      (c x : ℕ) (rm b : m.Bitmap)
      → c + 1 < 2 ^ 32
      → m.has x (rewound m c rm b) ≡ ((leb x c && m.has x b) || m.has x rm)
  unfolding rewound
  rewound-has c x rm b fits =
      let top = unwrap_or 0 (m.maximum b) in
      let u32 : as_u32 (c + 1) ≡ c + 1 = omega arith in
      laws.has-or x (m.remove_range_closed (as_u32 (c + 1)) top b) rm
      ∙ ap (λ t. t || m.has x rm)
          (ap (λ f. m.has x (m.remove_range_closed f top b)) u32
            ∙ laws.has-remove_range x (c + 1) top b
            ∙ range-has x c b)

  and_split :
      (lo lo' hi hi' t : Bool) → lo ≡ lo' → hi ≡ hi' → ((lo && hi) && t) ≡ ((lo' && hi') && t)
  and_split lo lo' hi hi' t e f = ap (λ a. a && t) (ap (λ a. a && hi) e ∙ ap (◌&&◌ lo') f)

  range_split :
      (t : ℕ → Bool) (x from n : ℕ)
      → from + n ≤ 2 ^ 32
      → contains x (map as_u32 (filter t (positions from n)))
        ≡ ((leb from x && ltb x (from + n)) && t x)
  range_split t x from zero fits = ap (λ g. g && t x) (no_range x from)
    where
      no_range : (x from : ℕ) → false ≡ (leb from x && ltb x (from + 0))
      no_range x from = ground arith
  range_split t x from (suc n) fits =
      let ih = range_split t x (suc from) n (omega arith) in
      let u32 : as_u32 from ≡ from = omega arith in
      elim (Bool-cases (x == from)) [
        | inl here ↦
            let e = ==→eq x from here in
            elim (Bool-cases (t from)) [
              | inl on ↦
                  rw (on, u32, here)
                    (sym (ap (λ g. g && t x) (first_in x from n e) ∙ (ap t e ∙ on)))
              | inr off ↦
                  let no = ap t e ∙ off in rw off (ih ∙ rw no (and_false _ ∙ sym (and_false _)))
            ]
        | inr later ↦
            let same = ap (λ g. g && t x) (rest_in x from n (not_==→ne x from later)) in
            elim (Bool-cases (t from)) [
              | inl on ↦ rw (on, u32, later) (ih ∙ same)
              | inr off ↦ rw off (ih ∙ same)
            ]
      ]

  -- After a rewind, a position is included if it was and is not beyond the cutoff, or if it is added
  -- back; for positions of 32 bits.
  pub rewind-includes :
      (cutoff_pos pos : ℕ) (rewind_rm_pos : m.Bitmap) (s : LeafSet m)
      → cutoff_pos + 1 < 2 ^ 32
      → pos < 2 ^ 32
      → includes m pos (rewind m cutoff_pos rewind_rm_pos s)
        ≡ ((leb pos cutoff_pos && includes m pos s) || m.has pos rewind_rm_pos)
  unfolding rewind
  rewind-includes cutoff_pos pos rewind_rm_pos s fits small =
      let u32 : as_u32 pos ≡ pos = omega arith in
      ap (λ x. m.has x (rewound m cutoff_pos rewind_rm_pos s.bitmap)) u32
      ∙ rewound-has cutoff_pos pos rewind_rm_pos s.bitmap fits
      ∙ ap (λ x. (leb pos cutoff_pos && m.has x s.bitmap) || m.has pos rewind_rm_pos) (sym u32)

  cut_above : (pos c : ℕ) → (leb 1 pos && ltb pos (c + 1)) ≡ (leb 1 pos && leb pos c)
  cut_above pos c = ground arith

  cut_below : (pos c : ℕ) → (leb 1 pos && ltb pos (1 + c)) ≡ (leb 1 pos && leb pos c)
  cut_below pos c = ground arith

  flip_and :
      (g h r leaf held : Bool)
      → g ≡ r
      → h ≡ r
      → ((if g then not held else held) && (h && leaf)) ≡ ((r && leaf) && not held)
  flip_and g h true leaf held e f = rw (e, f) (swap leaf held)
    where
      swap : (leaf held : Bool) → (not held && leaf) ≡ (leaf && not held)
      swap true true = refl
      swap true false = refl
      swap false true = refl
      swap false false = refl
  flip_and g h false leaf held e f = rw (e, f) (and_false held)

  -- `removed_pre_cutoff` gives the leaves up to the cutoff that are not pruned and that the leaf set, rewound
  -- in the same way, does not include; for positions of 32 bits.
  pub removed_pre_cutoff-rewind :
      (cutoff_pos pos : ℕ) (rewind_rm_pos : m.Bitmap) (prune_list : PruneList m) (s : LeafSet m)
      → cutoff_pos + 1 < 2 ^ 32
      → pos < 2 ^ 32
      → m.has pos (removed_pre_cutoff m cutoff_pos rewind_rm_pos prune_list s) ≡ (
          ((leb 1 pos && leb pos cutoff_pos) && (is_leaf pos && not (is_pruned m pos prune_list)))
          && not (includes m pos (rewind m cutoff_pos rewind_rm_pos s)))
  unfolding removed_pre_cutoff rewind unpruned_pre_cutoff
  removed_pre_cutoff-rewind cutoff_pos pos rewind_rm_pos prune_list s fits small =
      let u32 : as_u32 pos ≡ pos = omega arith in
      let kept = rewound m cutoff_pos rewind_rm_pos s.bitmap in
      let test : ℕ → Bool = λ x. is_leaf x && not (is_pruned m x prune_list) in
      let leaves = map as_u32 (filter test (positions 1 cutoff_pos)) in
      laws.has-and pos (m.flip 1 (cutoff_pos + 1) kept) (m.from_iter leaves)
      ∙ ap (λ g. g && m.has pos (m.from_iter leaves)) (laws.has-flip pos 1 (cutoff_pos + 1) kept)
      ∙ ap
          (λ g.
            (if leb 1 pos && ltb pos (cutoff_pos + 1) then not (m.has pos kept) else m.has pos kept)
            && g)
          (laws.has-from_iter pos leaves ∙ range_split test pos 1 cutoff_pos (omega arith))
      ∙ flip_and (leb 1 pos && ltb pos (cutoff_pos + 1)) (leb 1 pos && ltb pos (1 + cutoff_pos))
          (leb 1 pos && leb pos cutoff_pos) (test pos) (m.has pos kept) (cut_above pos cutoff_pos)
          (cut_below pos cutoff_pos)
      ∙ ap (λ x. ((leb 1 pos && leb pos cutoff_pos) && test pos) && not (m.has x kept)) (sym u32)
