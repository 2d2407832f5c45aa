-- ===== src/Utxo/Range/Runs.antt =====
-- The mountain range over a toy hash, with its laws.
use vcash.Prelude.{ℕ, ◌+◌, ◌*◌, ◌<◌, arith, u64_mod}
use vcash.Pmmr.Backend.{Hashing, new_backend}
use vcash.Pmmr.Tree
use vcash.Pmmr.Tree.{Pmmr, PmmrError}
use vcash.Utxo.Mmr.{IsLawful}
use vcash.Utxo.Range.{tree_mmr}
use vcash.Utxo.Range.Lawful.{tree_mmr-IsLawful}

abbrev toy : Hashing ℕ ℕ
toy = record { leaf_hash = λ x i. x + i; node_hash = λ l r i. 3 * l + r + i; zero_hash = 0 }

room_for_million : 2 * (1000000 + 1) < u64_mod
room_for_million = omega arith

tree_mmr-IsLawful_example :
    (law : IsLawful (tree_mmr toy)) × law.HasRoom 1000000 (Tree.new new_backend)
tree_mmr-IsLawful_example = tree_mmr-IsLawful toy 7 1000000 room_for_million
