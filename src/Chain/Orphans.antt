-- ===== src/Chain/Orphans.antt =====
-- The pool of orphans of chain/src/chain.rs. A time is a number of nanoseconds.
pub mod Bounds
pub mod Placed
use vcash.Prelude.{
  filter, ℕ, ◌+◌, ◌-◌, ◌*◌, ◌^◌, Bool, List, [], ◌∷◌, ◌++◌, length, Option, none, some, ltb, leb,
  ◌==◌, if◌then◌else◌, wrap64,
}
use vcash.Prelude.Maps
use vcash.Transaction.Features.{any}
use vcash.Chain.Types.{BlockHeader, Block}

-- `Options`: the flags that a block is processed with.
pub record Options : Type 0 where
  pub skip_pow : Bool
  pub sync : Bool
  pub mine : Bool

pub record Orphan : Type 0 where
  pub block : Block
  pub opts : Options
  pub added : ℕ

-- The orphans by their hash, and the hashes by their height.
pub record OrphanBlockPool : Type 0 where
  pub orphans : List (ℕ × Orphan)
  pub height_idx : List (ℕ × List ℕ)
  pub evicted : ℕ

abbrev pub max_orphan_size : ℕ
max_orphan_size = 200

abbrev pub max_orphan_age : ℕ
max_orphan_age = 300 * 10 ^ 9

abbrev pub new : OrphanBlockPool
new = record { orphans = []; height_idx = []; evicted = 0 }

abbrev pub or_empty : Option (List ℕ) → List ℕ
or_empty none = []
or_empty (some hs) = hs

-- The hashes that are indexed under a height.
abbrev pub hashes_at : ℕ → List (ℕ × List ℕ) → List ℕ
hashes_at height idx = or_empty (Maps.get height idx)

-- `entry(height).or_insert(vec![]).push(hash)`.
unfoldable pub push_hash : ℕ → ℕ → List (ℕ × List ℕ) → List (ℕ × List ℕ)
push_hash height hash idx = Maps.insert height (hashes_at height idx ++ (hash ∷ [])) idx

unfoldable pub remove_all : List ℕ → List (ℕ × Orphan) → List (ℕ × Orphan)
remove_all [] orphans = orphans
remove_all (h ∷ hs) orphans = remove_all hs (Maps.erase h orphans)

-- `sort_unstable` and `rev`, for keys that occur once.
unfoldable pub insert_descending : ℕ → List ℕ → List ℕ
insert_descending h [] = h ∷ []
insert_descending h (k ∷ ks) =
    let rest = insert_descending h ks in if leb k h then h ∷ k ∷ ks else k ∷ rest

unfoldable pub descending : List ℕ → List ℕ
descending [] = []
descending (h ∷ hs) = insert_descending h (descending hs)

-- The heights are dropped one by one until the orphans are fewer than the limit.
unfoldable pub evict_loop :
    List ℕ → List (ℕ × Orphan) → List (ℕ × List ℕ) → List (ℕ × Orphan) × List (ℕ × List ℕ)
evict_loop [] orphans idx = (orphans, idx)
evict_loop (h ∷ hs) orphans idx =
    let fewer = remove_all (hashes_at h idx) orphans in
    let rest = evict_loop hs fewer (Maps.erase h idx) in
    if ltb (length fewer) max_orphan_size then (fewer, Maps.erase h idx) else rest

-- `retain` on the orphans, at the time `now`.
unfoldable pub retain_young : ℕ → List (ℕ × Orphan) → List (ℕ × Orphan)
retain_young now orphans = filter (λ (e : ℕ × Orphan). ltb (now - e.1.added) max_orphan_age) orphans

-- `retain` on the index: a height stays if one of its hashes is that of an orphan.
unfoldable pub cleanup : List (ℕ × Orphan) → List (ℕ × List ℕ) → List (ℕ × List ℕ)
cleanup orphans idx = filter (λ (e : ℕ × List ℕ). any (λ h. Maps.contains_key h orphans) e.1) idx

unfoldable pub evict : ℕ → OrphanBlockPool → OrphanBlockPool
evict now pool =
    let left =
      evict_loop (descending (Maps.keys pool.height_idx)) (retain_young now pool.orphans)
        pool.height_idx in
    record {
      orphans = left.0;
      height_idx = cleanup left.0 left.1;
      evicted = wrap64 (pool.evicted + (length pool.orphans - length left.0));
    }

module _ (hash : BlockHeader → ℕ) where
  unfoldable pub with_orphan : Orphan → OrphanBlockPool → OrphanBlockPool
  with_orphan orphan pool =
      let h = hash orphan.block.header in
      record pool {
        orphans = Maps.insert h orphan pool.orphans;
        height_idx = push_hash orphan.block.header.height h pool.height_idx;
      }

  unfoldable pub add : ℕ → Orphan → OrphanBlockPool → OrphanBlockPool
  add now orphan pool =
      let more = with_orphan orphan pool in
      if ltb max_orphan_size (length more.orphans) then evict now more else more

abbrev pub found : Option Orphan → List Orphan → List Orphan
found none orphans = orphans
found (some o) orphans = o ∷ orphans

-- `filter_map(|h| orphans.remove(h))`, with what is left.
unfoldable pub take_all : List ℕ → List (ℕ × Orphan) → List Orphan × List (ℕ × Orphan)
take_all [] orphans = ([], orphans)
take_all (h ∷ hs) orphans =
    let rest = take_all hs (Maps.erase h orphans) in (found (Maps.get h orphans) (rest.0), rest.1)

unfoldable pub remove_by_height : ℕ → OrphanBlockPool → Option (List Orphan × OrphanBlockPool)
remove_by_height height pool = elim (Maps.get height pool.height_idx) [
  | none ↦ none
  | some hs ↦
      let taken = take_all hs pool.orphans in
      some
        (taken.0, record pool { orphans = taken.1; height_idx = Maps.erase height pool.height_idx })
]

abbrev pub contains : ℕ → OrphanBlockPool → Bool
contains h pool = Maps.contains_key h pool.orphans
