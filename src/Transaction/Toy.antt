-- ===== src/Transaction/Toy.antt =====
-- Digests and keys that can be computed, and small transactions, for the tests.
use vcash.Prelude.{ℕ, ◌+◌, ◌-◌, List, [], ◌∷◌, some}
use vcash.Transaction.Types.{Transaction, Digests, plain}
use vcash.Transaction.Aggregate.{Keys}

abbrev pub toy : Digests
toy = record {
  coin = λ features commit. commit;
  token = λ features token_type commit. token_type + commit;
  kernel = λ k. k.excess;
  token_kernel = λ k. k.excess;
}

abbrev total : List ℕ → ℕ
total [] = 0
total (x ∷ xs) = x + total xs

abbrev pub toy_keys : Keys
toy_keys = record {
  secret_key = λ b. some b;
  blind_sum = λ positive negative. some (total positive - total negative);
}

-- A transaction that spends one output and makes another.
abbrev pub payment : ℕ → ℕ → ℕ → Transaction
payment spent made paid = record {
  offset = made;
  body = record {
    inputs = record { features = plain; commit = spent } ∷ [];
    token_inputs = [];
    outputs = record { features = plain; commit = made; proof = 0 } ∷ [];
    token_outputs = [];
    kernels = record { features = plain paid; excess = made; excess_sig = 0 } ∷ [];
    token_kernels = [];
  };
}
