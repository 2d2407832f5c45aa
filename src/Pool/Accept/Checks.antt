-- ===== src/Pool/Accept/Checks.antt =====
-- What is known of a transaction once `add_to_pool` of the pools has accepted it.
use vcash.Prelude.{◌*◌, ◌≤◌, ◌<◌, ◌≡◌, Bool, true, false, length, ok, ◌>>◌, wrap64}
use vcash.Consensus.Params.{ChainType}
use vcash.Transaction.Types.{Transaction, Digests}
use vcash.Transaction.Body.{as_transaction, fee, body_weight}
use vcash.Transaction.Features.{validate_token_height}
use vcash.Pool.Types.{Header, Env, lift_tx}
use vcash.Pool.Entries.{contains_tx}
use vcash.Pool.Accept.{TransactionPool}

module _ (env : Env) (d : Digests) where
  -- What the checks say of a transaction: it is not in the pool unless it is to be stemmed, it is stemmed
  -- only while the pool is within its size, and then it also pays for its weight; its tokens, the
  -- transaction itself, its lock height and the coinbase outputs that it spends are valid.
  pub record IsAdmissible (chain : ChainType) (tx : Transaction) (stem : Bool) (header : Header)
      (p : TransactionPool) : Type 0 where
    pub fresh : stem ≡ false → contains_tx env (env.tx_hash tx) p.txpool ≡ false
    pub stemmed : stem ≡ true → length p.txpool ≤ p.config.max_pool_size
    pub paid :
        length p.txpool ≤ p.config.max_pool_size
        → 0 < p.config.accept_fee_base
        → wrap64 (body_weight tx.body * p.config.accept_fee_base) ≤ fee tx.body
    pub token_height : lift_tx (validate_token_height chain header.height tx.body) ≡ ok tt
    pub valid : lift_tx (env.validate as_transaction tx) ≡ ok tt
    pub unlocked : env.verify_tx_lock_height tx ≡ ok tt
    pub mature : env.verify_coinbase_maturity tx ≡ ok tt
