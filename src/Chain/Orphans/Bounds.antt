-- ===== src/Chain/Orphans/Bounds.antt =====
-- The orphans stay within the limit, since every orphan is indexed.
use mathlib.Core.Path.{subst}
use vcash.Prelude.{
  length-filter, some-injective, ℕ, ◌≤◌, ◌<◌, ◌≡◌, ◌≢◌, refl, sym, ap, inl, inr, Bool, true, false,
  not, ◌||◌, List, [], ◌∷◌, length, All, All-weaken, All-filter, All-both, Among, Among-append_left,
  Among-append_last, Option, none, some, ltb, leb, ◌==◌, ltb→lt, not_ltb→le, ==→eq, eq→==,
  not_==→ne, Bool-cases, arith,
}
use vcash.Prelude.Maps
use vcash.Transaction.Features.{any}
use vcash.Chain.Types.{BlockHeader}
use vcash.Chain.Orphans.{
  Orphan, OrphanBlockPool, max_orphan_size, or_empty, hashes_at, push_hash, remove_all,
  insert_descending, descending, evict_loop, retain_young, cleanup, evict, with_orphan, add,
  take_all, remove_by_height,
}

abbrev Covered : List (ℕ × List ℕ) → ℕ → Type 0
Covered idx h = (k : ℕ) × Among h (hashes_at k idx)

-- Every orphan's hash is indexed under some height.
abbrev pub IsIndexed : OrphanBlockPool → Type 0
IsIndexed pool = All (λ (e : ℕ × Orphan). Covered pool.height_idx e.0) pool.orphans

Among-push :
    (k h x y : ℕ) (idx : List (ℕ × List ℕ))
    → Among x (hashes_at k idx)
    → Among x (hashes_at k (push_hash h y idx))
unfolding push_hash
Among-push k h x y idx m = elim (Bool-cases (h == k)) [
  | inl same ↦
      let e : k ≡ h = sym (==→eq h k same) in
      rw same (Among-append_left x (hashes_at h idx) (y ∷ []) (rw e at m))
  | inr other ↦
      let ne : k ≢ h = λ (e : k ≡ h). not_==→ne h k other (sym e) in
      rw (other, Maps.get-erase k h idx ne) m
]

Among-pushed : (h y : ℕ) (idx : List (ℕ × List ℕ)) → Among y (hashes_at h (push_hash h y idx))
unfolding push_hash
Among-pushed h y idx = rw (eq→== h h refl) (Among-append_last y (hashes_at h idx))

Among-insert_descending_self : (h : ℕ) (ks : List ℕ) → Among h (insert_descending h ks)
unfolding insert_descending
Among-insert_descending_self h [] = inl refl
Among-insert_descending_self h (k ∷ ks) = elim (Bool-cases (leb k h)) [
  | inl t ↦ rw t (inl refl)
  | inr f ↦ rw f (inr (Among-insert_descending_self h ks))
]

Among-insert_descending : (h x : ℕ) (ks : List ℕ) → Among x ks → Among x (insert_descending h ks)
unfolding insert_descending
Among-insert_descending h x [] m = absurd (m.lower)
Among-insert_descending h x (k ∷ ks) m = elim (Bool-cases (leb k h)) [
  | inl t ↦ rw t (inr m)
  | inr f ↦ rw f (elim m [ inl e ↦ inl e | inr n ↦ inr (Among-insert_descending h x ks n) ])
]

Among-descending : (x : ℕ) (ks : List ℕ) → Among x ks → Among x (descending ks)
unfolding descending
Among-descending x [] m = absurd (m.lower)
Among-descending x (k ∷ ks) (inl e) = rw e (Among-insert_descending_self k (descending ks))
Among-descending x (k ∷ ks) (inr m) =
    Among-insert_descending k x (descending ks) (Among-descending x ks m)

remove_all-All {ℓ} :
    (P : ℕ × Orphan → Type ℓ) (hs : List ℕ) (orphans : List (ℕ × Orphan))
    → All P orphans
    → All (λ e. P e × (Among e.0 hs → ⊥)) (remove_all hs orphans)
unfolding remove_all
remove_all-All P [] orphans ps = All-weaken P _ orphans (λ e p. (p, λ m. absurd (m.lower))) ps
remove_all-All P (h ∷ hs) orphans ps =
    All-weaken _ _ (remove_all hs (Maps.erase h orphans)) (λ e q. (q.0.0, λ m. outside e q m))
      (remove_all-All (λ e. P e × (not (e.0 == h) ≡ true)) hs (Maps.erase h orphans)
        (All-filter P _ orphans ps))
  where
    outside :
        (e : ℕ × Orphan)
        → (P e × (not (e.0 == h) ≡ true)) × (Among e.0 hs → ⊥)
        → Among e.0 (h ∷ hs)
        → ⊥
    outside e q (inl same) =
        let hit : e.0 == h ≡ true = eq→== (e.0) h same in
        let clash : false ≡ true = rw hit at (q.0.1) in cc
    outside e q (inr m) = q.1 m

-- Every orphan is indexed under a height that is still to be dropped.
abbrev Waiting : List ℕ → List (ℕ × List ℕ) → ℕ × Orphan → Type 0
Waiting heights idx e = (k : ℕ) × (Among k heights × Among e.0 (hashes_at k idx))

none-Waiting :
    (idx : List (ℕ × List ℕ)) (orphans : List (ℕ × Orphan))
    → All (Waiting [] idx) orphans
    → orphans ≡ []
none-Waiting idx [] ws = refl
none-Waiting idx (e ∷ es) (w, ws) = absurd (w.1.0.lower)

-- Who is not under the height that was dropped is under one of the others.
still-Waiting :
    (h : ℕ) (hs : List ℕ) (idx : List (ℕ × List ℕ)) (e : ℕ × Orphan)
    → Waiting (h ∷ hs) idx e × (Among e.0 (hashes_at h idx) → ⊥)
    → Waiting hs (Maps.erase h idx) e
still-Waiting h hs idx e ((k, (inl same, m)), out) = absurd (out (rw same at m))
still-Waiting h hs idx e ((k, (inr among, m)), out) =
    let other : k ≢ h = λ (same : k ≡ h). out (rw same at m) in
    (k, (among, rw (Maps.get-erase k h idx other) m))

-- The loop ends below the limit, with every orphan that is left still indexed.
evict_loop-IsIndexed :
    (heights : List ℕ) (orphans : List (ℕ × Orphan)) (idx : List (ℕ × List ℕ))
    → All (Waiting heights idx) orphans
    → let left = evict_loop heights orphans idx in
      (length left.0 < max_orphan_size) × All (λ (e : ℕ × Orphan). Covered left.1 e.0) left.0
unfolding evict_loop
evict_loop-IsIndexed [] orphans idx ws =
    let e = none-Waiting idx orphans ws in rw e (omega arith, tt)
evict_loop-IsIndexed (h ∷ hs) orphans idx ws =
    let fewer = remove_all (hashes_at h idx) orphans in
    let waiting : All (Waiting hs (Maps.erase h idx)) fewer =
      All-weaken _ _ fewer (still-Waiting h hs idx)
        (remove_all-All (Waiting (h ∷ hs) idx) (hashes_at h idx) orphans ws) in
    elim (Bool-cases (ltb (length fewer) max_orphan_size)) [
      | inl few ↦ rw few (
        ltb→lt (length fewer) max_orphan_size few,
        All-weaken _ _ fewer (λ e w. (w.0, w.1.1)) waiting,
      )
      | inr many ↦ rw many (evict_loop-IsIndexed hs fewer (Maps.erase h idx) waiting)
    ]

Among-any :
    (h : ℕ) (test : ℕ → Bool) (hs : List ℕ) → Among h hs → test h ≡ true → any test hs ≡ true
Among-any h test [] m t = absurd (m.lower)
Among-any h test (x ∷ hs) (inl e) t = rw (← e, t) refl
Among-any h test (x ∷ hs) (inr m) t = either (test x) (Among-any h test hs m t)
  where
    either : (b : Bool) {c : Bool} → c ≡ true → (b || c) ≡ true
    either true p = refl
    either false p = p

covered_key :
    (idx : List (ℕ × List ℕ)) (h k : ℕ)
    → Among h (hashes_at k idx)
    → (hs : List ℕ) × ((Maps.get k idx ≡ some hs) × Among h hs)
covered_key idx h k m = entry (Maps.get k idx) m
  where
    entry :
        (o : Option (List ℕ)) → Among h (or_empty o) → (hs : List ℕ) × ((o ≡ some hs) × Among h hs)
    entry none m = absurd (m.lower)
    entry (some hs) m = (hs, (refl, m))

cleanup-Covered :
    (orphans : List (ℕ × Orphan)) (idx : List (ℕ × List ℕ)) (h : ℕ)
    → Maps.contains_key h orphans ≡ true
    → Covered idx h
    → Covered (cleanup orphans idx) h
unfolding cleanup
cleanup-Covered orphans idx h live (k, m) =
    let (hs, (e, among)) = covered_key idx h k m in
    let kept =
      Maps.get-filter (λ (e : ℕ × List ℕ). any (λ x. Maps.contains_key x orphans) e.1) k hs idx e
        (Among-any h (λ x. Maps.contains_key x orphans) hs among live) in
    (k, rw kept among)

-- Every orphan is indexed, and there are at most 200.
abbrev pub IsBounded : OrphanBlockPool → Type 0
IsBounded pool = IsIndexed pool × (length pool.orphans ≤ max_orphan_size)

evict-IsBounded : (now : ℕ) (pool : OrphanBlockPool) → IsIndexed pool → IsBounded (evict now pool)
unfolding evict retain_young
evict-IsBounded now pool indexed =
    let heights = descending (Maps.keys pool.height_idx) in
    let young = retain_young now pool.orphans in
    let left = evict_loop heights young pool.height_idx in
    let (few, covered) = evict_loop-IsIndexed heights young pool.height_idx (
      All-weaken _ (Waiting heights pool.height_idx) young (λ e c. waiting e (c.0))
        (All-filter (λ (e : ℕ × Orphan). Covered pool.height_idx e.0) _ pool.orphans indexed)) in
    (
      All-weaken _ _ (left.0) (λ e c. cleanup-Covered (left.0) (left.1) (e.0) (c.0) (c.1))
          (All-both (λ (e : ℕ × Orphan). Maps.contains_key e.0 left.0 ≡ true)
            (λ (e : ℕ × Orphan). Covered left.1 e.0) (left.0) (Maps.All-contains_key (left.0))
            covered),
      omega (arith, few),
    )
  where
    waiting :
        (e : ℕ × Orphan)
        → Covered pool.height_idx e.0
        → Waiting (descending (Maps.keys pool.height_idx)) pool.height_idx e
    waiting e (k, m) =
        let (hs, (g, among)) = covered_key pool.height_idx (e.0) k m in
        (k, (Among-descending k _ (Maps.Among-keys k hs pool.height_idx g), m))

module _ (hash : BlockHeader → ℕ) where
  with_orphan-IsIndexed :
      (orphan : Orphan) (pool : OrphanBlockPool)
      → IsIndexed pool
      → IsIndexed (with_orphan hash orphan pool)
  unfolding with_orphan
  with_orphan-IsIndexed orphan pool indexed =
      let height = orphan.block.header.height in
      let h = hash orphan.block.header in
      (
        (height, Among-pushed height h pool.height_idx),
        All-weaken _ _ (Maps.erase h pool.orphans)
            (λ (e : ℕ × Orphan) c.
              (c.0.0, Among-push (c.0.0) height (e.0) h pool.height_idx (c.0.1)))
            (All-filter (λ (e : ℕ × Orphan). Covered pool.height_idx e.0) _ pool.orphans indexed),
      )

  -- Adding an orphan keeps every orphan indexed, and their number within the limit.
  pub add-IsBounded :
      (now : ℕ) (orphan : Orphan) (pool : OrphanBlockPool)
      → IsBounded pool
      → IsBounded (add hash now orphan pool)
  unfolding add
  add-IsBounded now orphan pool (indexed, few) =
      let more = with_orphan hash orphan pool in
      let there = with_orphan-IsIndexed orphan pool indexed in
      elim (Bool-cases (ltb max_orphan_size (length more.orphans))) [
        | inl over ↦ rw over (evict-IsBounded now more there)
        | inr within ↦ rw within (there, not_ltb→le max_orphan_size (length more.orphans) within)
      ]

take_all-rest :
    (hs : List ℕ) (orphans : List (ℕ × Orphan)) → (take_all hs orphans).1 ≡ remove_all hs orphans
unfolding take_all remove_all
take_all-rest [] orphans = refl
take_all-rest (h ∷ hs) orphans = take_all-rest hs (Maps.erase h orphans)

length-remove_all :
    (hs : List ℕ) (orphans : List (ℕ × Orphan)) → length (remove_all hs orphans) ≤ length orphans
unfolding remove_all
length-remove_all [] orphans = omega arith
length-remove_all (h ∷ hs) orphans = omega (
  arith,
  length-filter (λ (e : ℕ × Orphan). not (e.0 == h)) orphans,
  length-remove_all hs (Maps.erase h orphans),
)

pub remove_by_height-IsBounded :
    (height : ℕ) (pool : OrphanBlockPool) (r : List Orphan × OrphanBlockPool)
    → remove_by_height height pool ≡ some r
    → IsBounded pool
    → IsBounded (r.1)
unfolding remove_by_height
remove_by_height-IsBounded height pool r e (indexed, few) =
    taken (Maps.get height pool.height_idx) refl e
  where
    outside :
        (hs : List ℕ)
        → Maps.get height pool.height_idx ≡ some hs
        → (x : ℕ × Orphan) → Covered pool.height_idx x.0 × (Among x.0 hs → ⊥)
        → Covered (Maps.erase height pool.height_idx) (x.0)
    outside hs g x ((k, m), out) =
        let other : k ≢ height = λ (same : k ≡ height). out (rw g at (rw same at m)) in
        (k, rw (Maps.get-erase k height pool.height_idx other) m)

    taken :
        (o : Option (List ℕ))
        → Maps.get height pool.height_idx ≡ o
        → (elim o as (λ _. Option (List Orphan × OrphanBlockPool)) [
          | none ↦ none
          | some hs ↦
              let taken = take_all hs pool.orphans in
              some (
                taken.0,
                record pool { orphans = taken.1; height_idx = Maps.erase height pool.height_idx },
              )
        ])
          ≡ some r
        → IsBounded (r.1)
    taken none g e = absurd (cc)
    taken (some hs) g e =
        let p : OrphanBlockPool = record pool {
          orphans = (take_all hs pool.orphans).1;
          height_idx = Maps.erase height pool.height_idx;
        } in
        let same : p ≡ r.1 = ap (λ (x : List Orphan × OrphanBlockPool). x.1) (some-injective e) in
        subst IsBounded same (
          rw (take_all-rest hs pool.orphans) (
              All-weaken _ _ (remove_all hs pool.orphans) (outside hs g) (
                remove_all-All (λ (x : ℕ × Orphan). Covered pool.height_idx x.0) hs pool.orphans
                  indexed)),
          rw (take_all-rest hs pool.orphans) (omega (arith, length-remove_all hs pool.orphans)),
        )
