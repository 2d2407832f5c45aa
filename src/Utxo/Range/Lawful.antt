-- ===== src/Utxo/Range/Lawful.antt =====
-- The mountain range has the laws of the interface.
use vcash.Prelude.{ℕ, ◌+◌, ◌*◌, ◌<◌, arith, u64_mod}
use vcash.Pmmr.Backend.{Hashing, new_backend}
use vcash.Pmmr.Tree
use vcash.Pmmr.Tree.{Pmmr}
use vcash.Pmmr.Tree.Grow.{empty-IsRange}
use vcash.Utxo.Mmr.{IsLawful}
use vcash.Utxo.Range.{tree_mmr, HasRoom}
use vcash.Utxo.Range.Pushed.{push_room, push_place, push_free, push-IsWritten}
use vcash.Utxo.Range.Pruned.{prune_room, prune-IsWritten}

module _ {T H : Type 0} (hs : Hashing T H) where
  new-HasRoom : (elmt : T) (k : ℕ) → 2 * (k + 1) < u64_mod → HasRoom hs k (Tree.new new_backend)
  new-HasRoom elmt k fits = record {
    n = 0;
    leaf = λ q. elmt;
    range = empty-IsRange hs (λ q. elmt);
    fits = omega arith;
    within = tt;
  }

  -- The mountain range of pmmr.rs has the laws of the interface: a push returns a position from 1 on
  -- that held nothing, the position then gives the element and every other position from 1 on what
  -- it gave, and a prune that returns true takes away the element of its position and no other; a
  -- push and a prune leave the room for the pushes that are still to come. The empty range has
  -- room for `k` elements if `2 * (k + 1)` is below 2^64.
  pub tree_mmr-IsLawful :
      (elmt : T) (k : ℕ)
      → 2 * (k + 1) < u64_mod
      → (law : IsLawful (tree_mmr hs)) × law.HasRoom k (Tree.new new_backend)
  tree_mmr-IsLawful elmt k fits = (
    record {
      HasRoom = HasRoom hs;
      push_room = push_room hs;
      push_positive = λ k e x y pos room h. omega (arith, push_place hs k e x y pos room h);
      push_free = push_free hs;
      push_written = push-IsWritten hs;
      prune_room = prune_room hs;
      prune_written = prune-IsWritten hs;
    },
    new-HasRoom elmt k fits,
  )
