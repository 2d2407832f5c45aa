-- ===== src/Pool/Linked.antt =====
-- The pool over the operations on transactions of core/src/core/transaction.rs.
use vcash.Prelude.{ℕ, ◌≡◌, refl, true, List, [], ◌∷◌, ok, eq→==}
use vcash.Transaction.Types.{Transaction, Digests}
use vcash.Transaction.Aggregate.{Keys, aggregate, deaggregate, tx_eq, body_eq, same_hashes}
use vcash.Pool.Types.{Env}

unfoldable pub linked : Digests → Keys → Env → Env
linked d keys env = record env {
  tx_eq = tx_eq d;
  aggregate = aggregate d keys;
  deaggregate = deaggregate d keys;
}

pub aggregate-single :
    (d : Digests) (keys : Keys) (tx : Transaction) → aggregate d keys (tx ∷ []) ≡ ok tx
unfolding aggregate
aggregate-single d keys tx = refl

same_hashes-reflexive : (xs : List ℕ) → same_hashes xs xs ≡ true
same_hashes-reflexive [] = refl
same_hashes-reflexive (x ∷ xs) = rw (eq→== x x refl) (same_hashes-reflexive xs)

pub tx_eq-reflexive : (d : Digests) (tx : Transaction) → tx_eq d tx tx ≡ true
unfolding tx_eq body_eq
tx_eq-reflexive d tx = simp (same_hashes-reflexive, eq→== tx.offset tx.offset refl)
