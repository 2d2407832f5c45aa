-- ===== src/Utxo/View.antt =====
-- chain/src/txhashset/utxo_view.rs: checking a block or a transaction against the unspent outputs, and
-- that no coinbase is spent too early.
pub mod Validated
pub mod Mature
use vcash.Prelude.{
  find, ℕ, ◌+◌, ◌-◌, max, Bool, true, false, not, ◌&&◌, List, [], ◌∷◌, map, Option, none, some,
  Result, ok, err, fail_if, ◌>>=◌, ◌>>◌, ltb, ◌==◌, if◌then◌else◌, wrap64,
}
use vcash.Prelude.Maps
use vcash.Consensus.Params.{ChainType, coinbase_maturity}
use vcash.Transaction.Types.{
  OutputFeatures, coinbase, Input, TokenOutput, TransactionBody, Output, is_tokenissue,
}
use vcash.Pmmr.Position.{insertion_to_pmmr_index}
use vcash.Chain.Types.{BlockHeader}
use vcash.Utxo.Mmr.{Mmr}
use vcash.Utxo.Coins.{
  CommitPos, UtxoError, duplicate_token_key, immature_coinbase, header_not_found,
  rangeproof_not_found, output_not_found, validate_output, validate_input,
}
use vcash.Utxo.Extension.{
  OutputIdentifier, TokenOutputIdentifier, Mmrs, Extension, coin_ident, token_ident, of_input,
  of_output, of_token_input, of_token_output, issue_exists, same_features,
}

-- A check of each item in turn.
unfoldable pub check_all :
    {A : Type 0} → (A → Result UtxoError (Unit {0})) → List A → Result UtxoError (Unit {0})
check_all f [] = ok tt
check_all f (x ∷ xs) = f x >> check_all f xs

abbrev pub or_error : {A : Type 0} → Option A → UtxoError → Result UtxoError A
or_error none e = err e
or_error (some a) e = ok a

-- `.max().unwrap_or(0)`.
unfoldable pub greatest : List ℕ → ℕ
greatest [] = 0
greatest (x ∷ xs) = max x (greatest xs)

-- The view of the headers: their hashes in the header MMR, and the headers of the store.
module _ (headers : Mmr ℕ) (hash : BlockHeader → ℕ) where
  unfoldable pub get_header_by_height :
      ℕ → headers.M → List BlockHeader → Result UtxoError BlockHeader
  get_header_by_height height h store = do
    header_hash ←
        or_error (headers.get_data (insertion_to_pmmr_index (wrap64 (height + 1))) h)
          header_not_found
    or_error (find (λ (x : BlockHeader). hash x == header_hash) store) header_not_found

module _ (ms : Mmrs) where
  unfoldable pub validate_token_output : TokenOutput → Extension ms → Result UtxoError (Unit {0})
  validate_token_output out e = do
    validate_output ms.token_outputs ms.token_rproofs token_ident (of_token_output out) e.tokens
    fail_if (is_tokenissue out.features && issue_exists ms out.token_type e)
        (duplicate_token_key out.token_type)

  -- `validate_block` and `validate_tx`, which differ in where the body stands.
  unfoldable pub validate_body : TransactionBody → Extension ms → Result UtxoError (Unit {0})
  validate_body body e = do
    check_all (λ x. validate_output ms.outputs ms.rproofs coin_ident x e.coins)
        (map of_output body.outputs)
    check_all (λ x. validate_input ms.outputs ms.rproofs coin_ident x e.coins)
        (map of_input body.inputs)
    check_all (λ x. validate_token_output x e) body.token_outputs
    check_all (λ x. validate_input ms.token_outputs ms.token_rproofs token_ident x e.tokens)
        (map of_token_input body.token_inputs)

  -- An output with the range proof that stands at the same position.
  unfoldable pub get_unspent_output_at : ℕ → Extension ms → Result UtxoError Output
  get_unspent_output_at pos e = do
    out ← or_error (ms.outputs.get_data pos e.coins.output_pmmr) output_not_found
    rproof ← or_error (ms.rproofs.get_data pos e.coins.rproof_pmmr) rangeproof_not_found
    ok (record { features = out.features; commit = out.commit; proof = rproof })

  -- The positions of the coinbase outputs among those that are spent.
  abbrev pub spent_at : Input → Extension ms → List ℕ → List ℕ
  spent_at x e rest = elim (Maps.get x.commit e.coins.output_pos) [
    | none ↦ rest
    | some p ↦ p.pos ∷ rest
  ]

  unfoldable pub coinbase_positions : List Input → Extension ms → List ℕ
  coinbase_positions [] e = []
  coinbase_positions (x ∷ xs) e =
      let rest = coinbase_positions xs e in
      if same_features x.features coinbase then spent_at x e rest else rest

  module _ (headers : Mmr ℕ) (hash : BlockHeader → ℕ) where
    unfoldable pub verify_coinbase_maturity :
        ChainType
        → List Input
        → ℕ
        → Extension ms
        → headers.M
        → List BlockHeader
        → Result UtxoError (Unit {0})
    verify_coinbase_maturity chain inputs height e h store =
        let pos = greatest (coinbase_positions inputs e) in
        if ltb 0 pos
        then (do
          fail_if (ltb height (coinbase_maturity chain)) immature_coinbase
          cutoff_header ←
              get_header_by_height headers hash (height - coinbase_maturity chain) h store
          fail_if (ltb cutoff_header.output_mmr_size pos) immature_coinbase)
        else ok tt
