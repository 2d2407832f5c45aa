-- ===== src/Utxo/Coins.antt =====
-- Creating and spending outputs in an extension of chain/src/txhashset/txhashset.rs, for one kind of
-- coins: apply_output and apply_input for the coins, apply_token_output and apply_token_input for the
-- tokens, which are the same but for the types.
pub mod Applied
pub mod Spent
use vcash.Prelude.{
  ℕ, ◌+◌, Bool, true, false, not, List, [], ◌∷◌, Option, none, some, Result, ok, err, fail_if,
  ◌>>=◌, ◌>>◌, ◌==◌, if◌then◌else◌,
}
use vcash.Prelude.Maps
use vcash.Pmmr.Tree.{PmmrError}
use vcash.Utxo.Mmr.{Mmr}

pub data UtxoError : Type 0 where
  duplicate_commitment already_spent duplicate_token_key : ℕ → UtxoError
  output_pmmr_mismatch different_sizes different_pos not_a_token_issue : UtxoError
  immature_coinbase rangeproof_not_found output_not_found header_not_found : UtxoError
  tx_hash_set_err : PmmrError → UtxoError

-- What identifies an output: its commitment, and `==` of the identifiers.
pub record Identifier (E : Type 0) : Type 0 where
  pub commit : E → ℕ
  pub same : E → E → Bool

pub record CommitPos : Type 0 where
  pub pos : ℕ
  pub height : ℕ

-- The outputs, their range proofs, and the position and height of each unspent commitment.
pub record Coins {E : Type 0} (m : Mmr E) (r : Mmr ℕ) : Type 0 where
  pub output_pmmr : m.M
  pub rproof_pmmr : r.M
  pub output_pos : List (ℕ × CommitPos)

abbrev pub or_mmr_err : {A : Type 0} → Result PmmrError A → Result UtxoError A
or_mmr_err (ok a) = ok a
or_mmr_err (err e) = err (tx_hash_set_err e)

module _ {E : Type 0} (m : Mmr E) (r : Mmr ℕ) (ident : Identifier E) where
  -- The entry of the index, with the element at its position.
  abbrev pub with_data : m.M → Option CommitPos → Option (CommitPos × Option E)
  with_data outputs none = none
  with_data outputs (some p) = some (p, m.get_data p.pos outputs)

  abbrev pub entry_data : ℕ → Coins m r → Option (CommitPos × Option E)
  entry_data commit s = with_data s.output_pmmr (Maps.get commit s.output_pos)

  abbrev pub clashes : ℕ → Option (CommitPos × Option E) → Bool
  clashes commit none = false
  clashes commit (some (p, none)) = false
  clashes commit (some (p, some out)) = ident.commit out == commit

  -- The check of both `apply_output` and `validate_output`.
  unfoldable pub validate_output : E → Coins m r → Result UtxoError (Unit {0})
  validate_output out s =
      fail_if (clashes (ident.commit out) (entry_data (ident.commit out) s))
        (duplicate_commitment (ident.commit out))

  unfoldable pub apply_output : E → ℕ → Coins m r → Result UtxoError (Coins m r × ℕ)
  apply_output out proof s = do
    validate_output out s
    (outputs, pos) ← or_mmr_err (m.push out s.output_pmmr)
    (rproofs, rproof_pos) ← or_mmr_err (r.push proof s.rproof_pmmr)
    fail_if (not (m.unpruned_size outputs == r.unpruned_size rproofs)) different_sizes
    fail_if (not (pos == rproof_pos)) different_pos
    ok (record s { output_pmmr = outputs; rproof_pmmr = rproofs }, pos)

  -- An element that is there has to be the one that is spent.
  abbrev pub mismatch : E → Option E → Bool
  mismatch input none = false
  mismatch input (some out) = not (ident.same input out)

  abbrev pub prune_both : E → CommitPos → Coins m r → Result UtxoError (Coins m r × CommitPos)
  prune_both input p s = do
    (outputs, done) ← or_mmr_err (m.prune p.pos s.output_pmmr)
    fail_if (not done) (already_spent (ident.commit input))
    (rproofs, _) ← or_mmr_err (r.prune p.pos s.rproof_pmmr)
    ok (record s { output_pmmr = outputs; rproof_pmmr = rproofs }, p)

  abbrev pub spend_at : E → Coins m r → Option CommitPos → Result UtxoError (Coins m r × CommitPos)
  spend_at input s none = err (already_spent (ident.commit input))
  spend_at input s (some p) =
      fail_if (mismatch input (m.get_data p.pos s.output_pmmr)) output_pmmr_mismatch
      >> prune_both input p s

  unfoldable pub apply_input : E → Coins m r → Result UtxoError (Coins m r × CommitPos)
  apply_input input s = spend_at input s (Maps.get (ident.commit input) s.output_pos)

  abbrev pub save_output_pos_height : ℕ → ℕ → ℕ → Coins m r → Coins m r
  save_output_pos_height commit pos height s = record s {
    output_pos = Maps.insert commit (record { pos = pos; height = height }) s.output_pos;
  }

  abbrev pub delete_output_pos_height : ℕ → Coins m r → Coins m r
  delete_output_pos_height commit s = record s { output_pos = Maps.erase commit s.output_pos }

  -- The loop of `apply_block` over the outputs, with their range proofs: the positions, too.
  unfoldable pub apply_outputs :
      ℕ → List (E × ℕ) → Coins m r → Result UtxoError (Coins m r × List ℕ)
  apply_outputs height [] s = ok (s, [])
  apply_outputs height ((out, proof) ∷ outs) s = do
    (s1, pos) ← apply_output out proof s
    (s2, poss) ← apply_outputs height outs (save_output_pos_height (ident.commit out) pos height s1)
    ok (s2, pos ∷ poss)

  -- The loop over the inputs, with what was spent.
  unfoldable pub apply_inputs : List E → Coins m r → Result UtxoError (Coins m r × List CommitPos)
  apply_inputs [] s = ok (s, [])
  apply_inputs (input ∷ inputs) s = do
    (s1, p) ← apply_input input s
    (s2, ps) ← apply_inputs inputs (delete_output_pos_height (ident.commit input) s1)
    ok (s2, p ∷ ps)

  -- `validate_input` of the view: the output is there, and the one that is meant.
  abbrev pub spends : E → Option (CommitPos × Option E) → Bool
  spends input none = false
  spends input (some (p, none)) = false
  spends input (some (p, some out)) = ident.same input out

  unfoldable pub validate_input : E → Coins m r → Result UtxoError (Unit {0})
  validate_input input s =
      fail_if (not (spends input (entry_data (ident.commit input) s)))
        (already_spent (ident.commit input))
