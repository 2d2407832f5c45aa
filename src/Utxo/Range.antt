-- ===== src/Utxo/Range.antt =====
-- The mountain range of core/src/core/pmmr/pmmr.rs as the range that the extension works on.
pub mod Pushed
pub mod Pruned
pub mod Lawful
mod Runs
use native.Mathlib.Decide.{dec_lt}
use vcash.Prelude.{
  ℕ, zero, suc, ◌+◌, ◌-◌, ◌*◌, ◌^◌, ◌≤◌, ◌<◌, ◌≡◌, ◌≢◌, refl, sym, ap, ◌∙◌, ◌⊎◌, ltb, Result, err,
  get_elem?, not_==→ne, ==→eq, inl, inr, arith, u64_mod, Bool, true, false, not, ◌==◌, ne→not_==,
  eq→==, lt→ltb, Bool-cases, Option, none, some, List, [], ◌∷◌, length, All, All-weaken, ok,
  ok-injective, if◌then◌else◌,
}
use mathlib.Core.Path.{subst}
use vcash.Pmmr.Position.{is_leaf}
use vcash.Pmmr.Position.Node.{node_pos}
use vcash.Pmmr.Position.Descent.{size_of}
use vcash.Pmmr.Position.Bits.{ones_le}
use vcash.Pmmr.Backend
use vcash.Pmmr.Backend.{Hashing, new_backend}
use vcash.Pmmr.Tree
use vcash.Pmmr.Tree.{Pmmr}
use vcash.Pmmr.Tree.Spec.{IsRange}
use vcash.Pmmr.Tree.Grow.{empty-IsRange, push-IsRange, first_leaf, size_of_mono}
use vcash.Pmmr.Tree.Read.{get_data-IsRange}
use vcash.Pmmr.Tree.Same.{
  IsRange-same, get_elem?-lt, push-removed, contains-beyond, contains-insert, contains-insert_self,
  insert-All,
}
use vcash.Utxo.Mmr.{Mmr}

module _ {T H : Type 0} (hs : Hashing T H) where
  abbrev pub tree_mmr : Mmr T
  tree_mmr = record {
    M = Pmmr T H;
    push = λ elmt m. Tree.push hs m elmt;
    prune = λ pos m. Tree.prune m pos;
    get_data = λ pos m. Tree.get_data m pos;
    unpruned_size = Tree.unpruned_size;
  }

  -- The range holds some leaves, with room for so many more, and only positions of it are removed.
  pub record HasRoom (k : ℕ) (m : Pmmr T H) : Type 0 where
    pub n : ℕ
    pub leaf : ℕ → T
    pub range : IsRange hs leaf m n
    pub fits : 2 * (n + k + 1) < u64_mod
    pub within : All (λ (p : ℕ). p ≤ m.last_pos) m.backend.removed
