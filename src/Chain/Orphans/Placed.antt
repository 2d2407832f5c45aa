-- ===== src/Chain/Orphans/Placed.antt =====
-- Orphans are indexed under their own height, and adding one leaves the heights above it alone.
use vcash.Prelude.{
  filter, ℕ, suc, ◌+◌, ◌≤◌, ◌<◌, ◌≡◌, refl, sym, ◌∙◌, inl, inr, Bool, true, false, not, List, [],
  ◌∷◌, length, All, All-weaken, All-filter, All-append, Option, none, some, some-injective, ltb,
  leb, ◌==◌, ==→eq, le→leb, lt→not_leb, leb→le, Bool-cases, u64_mod, arith,
}
use mathlib.Core.Path.{subst}
use vcash.Prelude.Maps
use vcash.Chain.Types.{BlockHeader}
use vcash.Chain.Orphans.{
  Orphan, OrphanBlockPool, max_orphan_size, or_empty, hashes_at, push_hash, remove_all, descending,
  evict_loop, retain_young, cleanup, evict, with_orphan, add, take_all, remove_by_height, found,
}

-- The number of heights from the given one on that have orphans.
abbrev pub above : ℕ → List (ℕ × List ℕ) → ℕ
above n idx = length (filter (λ (e : ℕ × List ℕ). leb n e.0) idx)

length-filter-filter {ℓ} :
    {A : Type ℓ} (p q : A → Bool) (xs : List A)
    → length (filter p (filter q xs)) ≤ length (filter p xs)
length-filter-filter p q [] = omega arith
length-filter-filter p q (x ∷ xs) = elim (Bool-cases (q x)) [
  | inl t ↦ elim (Bool-cases (p x)) [
    | inl u ↦ rw (t, u) (omega (arith, length-filter-filter p q xs))
    | inr v ↦ rw (t, v) (length-filter-filter p q xs)
  ]
  | inr f ↦ elim (Bool-cases (p x)) [
    | inl u ↦ rw (f, u) (omega (arith, length-filter-filter p q xs))
    | inr v ↦ rw (f, v) (length-filter-filter p q xs)
  ]
]

module _ (hash : BlockHeader → ℕ) where
  -- A header of that height has the hash.
  abbrev HashAt : ℕ → ℕ → Type 0
  HashAt height h = (x : BlockHeader) × ((hash x ≡ h) × (x.height ≡ height))

  abbrev EntryAt : ℕ × List ℕ → Type 0
  EntryAt e = (e.0 + 1 < u64_mod) × All (HashAt e.0) e.1

  abbrev Keyed : ℕ × Orphan → Type 0
  Keyed e = hash e.1.block.header ≡ e.0

  -- The hashes of a height are of headers of that height, which is no last 64-bit number; and an
  -- orphan stands under its hash.
  pub record IsPlaced (pool : OrphanBlockPool) : Type 0 where
    pub index : All EntryAt pool.height_idx
    pub keyed : All Keyed pool.orphans

  All-get {ℓ κ} :
      {V : Type ℓ} (P : ℕ × V → Type κ) (k : ℕ) (v : V) (m : List (ℕ × V))
      → Maps.get k m ≡ some v
      → All P m
      → P (k, v)
  All-get P k v [] e ps = absurd (cc)
  All-get P k v ((j, w) ∷ m) e (p, ps) = elim (Bool-cases (j == k)) [
    | inl here ↦
        let first : some w ≡ some v = rw here at e in
        subst (λ x. P (x, v)) (==→eq j k here) (subst (λ y. P (j, y)) (some-injective first) p)
    | inr past ↦ All-get P k v m (rw past at e) ps
  ]

  All-keep {ℓ κ} :
      {A : Type ℓ} (P : A → Type κ) (test : A → Bool) (xs : List A)
      → All P xs
      → All P (filter test xs)
  All-keep P test xs ps = All-weaken _ P (filter test xs) (λ x p. p.0) (All-filter P test xs ps)

  hashes_at-All :
      (height : ℕ) (idx : List (ℕ × List ℕ))
      → All EntryAt idx
      → All (HashAt height) (hashes_at height idx)
  hashes_at-All height idx ps = entry (Maps.get height idx) refl
    where
      entry : (o : Option (List ℕ)) → Maps.get height idx ≡ o → All (HashAt height) (or_empty o)
      entry none e = tt
      entry (some hs) e = (All-get EntryAt height hs idx e ps).1

  remove_all-Keyed :
      (hs : List ℕ) (orphans : List (ℕ × Orphan))
      → All Keyed orphans
      → All Keyed (remove_all hs orphans)
  unfolding remove_all
  remove_all-Keyed [] orphans ps = ps
  remove_all-Keyed (h ∷ hs) orphans ps =
      remove_all-Keyed hs (Maps.erase h orphans) (All-keep Keyed _ orphans ps)

  -- What is dropped in an eviction was placed before.
  Drops : ℕ → List (ℕ × List ℕ) → List (ℕ × Orphan) × List (ℕ × List ℕ) → Type 0
  Drops n idx left = All Keyed left.0 × (All EntryAt left.1 × (above n left.1 ≤ above n idx))

  evict_loop-Drops :
      (n : ℕ) (heights : List ℕ) (orphans : List (ℕ × Orphan)) (idx : List (ℕ × List ℕ))
      → All Keyed orphans
      → All EntryAt idx
      → Drops n idx (evict_loop heights orphans idx)
  unfolding evict_loop Drops
  evict_loop-Drops n [] orphans idx ps qs = (ps, (qs, omega arith))
  evict_loop-Drops n (h ∷ hs) orphans idx ps qs =
      let fewer = remove_all (hashes_at h idx) orphans in
      let kept = remove_all-Keyed (hashes_at h idx) orphans ps in
      let entries = All-keep EntryAt (λ (e : ℕ × List ℕ). not (e.0 == h)) idx qs in
      let less =
        length-filter-filter (λ (e : ℕ × List ℕ). leb n e.0) (λ (e : ℕ × List ℕ). not (e.0 == h))
          idx in
      elim (Bool-cases (ltb (length fewer) max_orphan_size)) [
        | inl few ↦ rw few (kept, (entries, less))
        | inr many ↦
            let rest = evict_loop-Drops n hs fewer (Maps.erase h idx) kept entries in
            rw many (rest.0, (rest.1.0, omega (arith, rest.1.1, less)))
      ]

  evict-IsPlaced :
      (n now : ℕ) (pool : OrphanBlockPool)
      → IsPlaced pool
      → IsPlaced (evict now pool) × (above n (evict now pool).height_idx ≤ above n pool.height_idx)
  unfolding evict retain_young cleanup Drops
  evict-IsPlaced n now pool placed =
      let young = retain_young now pool.orphans in
      let left = evict_loop (descending (Maps.keys pool.height_idx)) young pool.height_idx in
      let (kept, (entries, less)) =
        evict_loop-Drops n (descending (Maps.keys pool.height_idx)) young pool.height_idx
          (All-keep Keyed _ pool.orphans placed.keyed) placed.index in
      (
        record { index = All-keep EntryAt _ (left.1) entries; keyed = kept },
        omega (arith, less, length-filter-filter (λ (e : ℕ × List ℕ). leb n e.0) _ (left.1)),
      )

  with_orphan-IsPlaced :
      (orphan : Orphan) (pool : OrphanBlockPool)
      → orphan.block.header.height + 1 < u64_mod
      → IsPlaced pool
      → let n : ℕ = suc orphan.block.header.height in
        IsPlaced (with_orphan hash orphan pool)
        × (above n (with_orphan hash orphan pool).height_idx ≤ above n pool.height_idx)
  unfolding with_orphan push_hash
  with_orphan-IsPlaced orphan pool small placed =
      let height = orphan.block.header.height in
      let own : leb (suc height) height ≡ false = lt→not_leb (suc height) height (omega arith) in
      (
        record {
          index = (
            (
              small,
              All-append (HashAt height) (hashes_at height pool.height_idx) _
                  (hashes_at-All height pool.height_idx placed.index)
                  ((orphan.block.header, (refl, refl)), tt),
            ),
            All-keep EntryAt _ pool.height_idx placed.index,
          );
          keyed = (refl, All-keep Keyed _ pool.orphans placed.keyed);
        },
        rw own (length-filter-filter (λ (e : ℕ × List ℕ). leb (suc height) e.0) _ pool.height_idx),
      )

  pub add-IsPlaced :
      (now : ℕ) (orphan : Orphan) (pool : OrphanBlockPool)
      → orphan.block.header.height + 1 < u64_mod
      → IsPlaced pool
      → let n : ℕ = suc orphan.block.header.height in
        IsPlaced (add hash now orphan pool)
        × (above n (add hash now orphan pool).height_idx ≤ above n pool.height_idx)
  unfolding add
  add-IsPlaced now orphan pool small placed =
      let more = with_orphan hash orphan pool in
      let (there, less) = with_orphan-IsPlaced orphan pool small placed in
      let (left, lesser) = evict-IsPlaced (suc orphan.block.header.height) now more there in
      elim (Bool-cases (ltb max_orphan_size (length more.orphans))) [
        | inl over ↦ rw over (left, omega (arith, less, lesser))
        | inr within ↦ rw within (there, less)
      ]

  above-erase : (n : ℕ) (idx : List (ℕ × List ℕ)) → above (suc n) (Maps.erase n idx) ≤ above n idx
  above-erase n [] = omega arith
  above-erase n (e ∷ idx) = elim (Bool-cases (e.0 == n)) [
    | inl here ↦
        let own : leb n e.0 ≡ true = le→leb n (e.0) (omega (arith, ==→eq (e.0) n here)) in
        rw (here, own) (omega (arith, above-erase n idx))
    | inr other ↦ elim (Bool-cases (leb (suc n) e.0)) [
      | inl up ↦
          let also : leb n e.0 ≡ true = le→leb n (e.0) (omega (arith, leb→le (suc n) (e.0) up)) in
          rw (other, up, also) (omega (arith, above-erase n idx))
      | inr not_up ↦ elim (Bool-cases (leb n e.0)) [
        | inl at ↦ rw (other, not_up, at) (omega (arith, above-erase n idx))
        | inr below ↦ rw (other, not_up, below) (above-erase n idx)
      ]
    ]
  ]

  -- A height with orphans is one of those from it on.
  above-erase_found :
      (n : ℕ) (hs : List ℕ) (idx : List (ℕ × List ℕ))
      → Maps.get n idx ≡ some hs
      → above (suc n) (Maps.erase n idx) < above n idx
  above-erase_found n hs [] e = absurd (cc)
  above-erase_found n hs ((j, w) ∷ idx) e = elim (Bool-cases (j == n)) [
    | inl here ↦
        let own : leb n j ≡ true = le→leb n j (omega (arith, ==→eq j n here)) in
        rw (here, own) (omega (arith, above-erase n idx))
    | inr other ↦
        let rest = above-erase_found n hs idx (rw other at e) in
        elim (Bool-cases (leb (suc n) j)) [
          | inl up ↦
              let also : leb n j ≡ true = le→leb n j (omega (arith, leb→le (suc n) j up)) in
              rw (other, up, also) (omega (arith, rest))
          | inr not_up ↦ elim (Bool-cases (leb n j)) [
            | inl at ↦ rw (other, not_up, at) (omega (arith, rest))
            | inr below ↦ rw (other, not_up, below) rest
          ]
        ]
  ]

  -- The orphans that were taken out for a height, and the pool that is left.
  pub record IsTaken (n : ℕ) (pool : OrphanBlockPool) (t : List Orphan × OrphanBlockPool)
      : Type 0 where
    pub small : n + 1 < u64_mod
    pub level : All (λ (o : Orphan). o.block.header.height ≡ n) t.0
    pub placed : IsPlaced t.1
    pub fewer : above (suc n) t.1.height_idx < above n pool.height_idx

  module _ (collision_free : (x y : BlockHeader) → hash x ≡ hash y → x.height ≡ y.height) where
    take_all-level :
        (n : ℕ) (hs : List ℕ) (orphans : List (ℕ × Orphan))
        → All (HashAt n) hs
        → All Keyed orphans
        → All (λ (o : Orphan). o.block.header.height ≡ n) (take_all hs orphans).0
          × All Keyed (take_all hs orphans).1
    unfolding take_all
    take_all-level n [] orphans hs ks = (tt, ks)
    take_all-level n (h ∷ hs) orphans (at, ats) ks =
        let rest = take_all-level n hs (Maps.erase h orphans) ats (All-keep Keyed _ orphans ks) in
        (
          with_found _ (Maps.get h orphans)
              (λ o e.
                collision_free o.block.header at.0 (All-get Keyed h o orphans e ks ∙ sym (at.1.0))
                ∙ at.1.1)
              (rest.0),
          rest.1,
        )
      where
        with_found :
            (os : List Orphan) (o : Option Orphan)
            → ((x : Orphan) → o ≡ some x → x.block.header.height ≡ n)
            → All (λ (o : Orphan). o.block.header.height ≡ n) os
            → All (λ (o : Orphan). o.block.header.height ≡ n) (found o os)
        with_found os none f ps = ps
        with_found os (some x) f ps = (f x refl, ps)

    pub remove_by_height-IsTaken :
        (n : ℕ) (pool : OrphanBlockPool) (t : List Orphan × OrphanBlockPool)
        → remove_by_height n pool ≡ some t
        → IsPlaced pool
        → IsTaken n pool t
    unfolding remove_by_height
    remove_by_height-IsTaken n pool t e placed = entry (Maps.get n pool.height_idx) refl e
      where
        entry :
            (o : Option (List ℕ))
            → Maps.get n pool.height_idx ≡ o
            → (elim o as (λ _. Option (List Orphan × OrphanBlockPool)) [
              | none ↦ none
              | some hs ↦
                  let taken = take_all hs pool.orphans in
                  some (
                    taken.0,
                    record pool { orphans = taken.1; height_idx = Maps.erase n pool.height_idx },
                  )
            ])
              ≡ some t
            → IsTaken n pool t
        entry none g e = absurd (cc)
        entry (some hs) g e =
            let (small, hashes) = All-get EntryAt n hs pool.height_idx g placed.index in
            let (level, keyed) = take_all-level n hs pool.orphans hashes placed.keyed in
            subst (IsTaken n pool) (some-injective e) (record {
              small = small;
              level = level;
              placed = record {
                index = All-keep EntryAt _ pool.height_idx placed.index;
                keyed = keyed;
              };
              fewer = above-erase_found n hs pool.height_idx g;
            })
