-- ===== src/Utxo/Extension.antt =====
-- Applying a block to the extension: `apply_block` and what it calls, in
-- chain/src/txhashset/txhashset.rs, with the indices of chain/src/store.rs that it keeps.
pub mod Applied
use vcash.Prelude.{
  ℕ, ◌+◌, ◌-◌, Bool, true, false, not, ◌&&◌, List, [], ◌∷◌, ◌++◌, map, Option, none, some, Result,
  ok, err, fail_if, ◌>>=◌, ◌>>◌, ◌==◌, if◌then◌else◌,
}
use vcash.Prelude.Maps
use vcash.Transaction.Types.{
  OutputFeatures, plain, coinbase, token_issue, token, Input, TokenInput, Output, TokenOutput,
  TxKernel, TokenTxKernel, is_token, is_tokenissue,
}
use vcash.Pmmr.Position.{n_leaves}
use vcash.Chain.Types.{BlockHeader, Block, Tip}
use vcash.Utxo.Mmr.{Mmr}
use vcash.Utxo.Coins.{
  Identifier, CommitPos, Coins, UtxoError, or_mmr_err, duplicate_token_key, not_a_token_issue,
  apply_output, apply_outputs, apply_inputs, save_output_pos_height,
}

pub record OutputIdentifier : Type 0 where
  pub features : OutputFeatures
  pub commit : ℕ

pub record TokenOutputIdentifier : Type 0 where
  pub features : OutputFeatures
  pub token_type : ℕ
  pub commit : ℕ

pub record TokenIssueProof : Type 0 where
  pub token_type : ℕ
  pub commit : ℕ
  pub proof : ℕ

abbrev pub same_features : OutputFeatures → OutputFeatures → Bool
same_features plain plain = true
same_features coinbase coinbase = true
same_features token_issue token_issue = true
same_features token token = true
same_features f g = false

abbrev pub coin_ident : Identifier OutputIdentifier
coin_ident = record {
  commit = λ x. x.commit;
  same = λ x y. same_features x.features y.features && x.commit == y.commit;
}

abbrev pub token_ident : Identifier TokenOutputIdentifier
token_ident = record {
  commit = λ x. x.commit;
  same = λ x y.
      same_features x.features y.features && (x.token_type == y.token_type && x.commit == y.commit);
}

abbrev pub of_input : Input → OutputIdentifier
of_input x = record { features = x.features; commit = x.commit }

abbrev pub of_output : Output → OutputIdentifier
of_output x = record { features = x.features; commit = x.commit }

abbrev pub of_token_input : TokenInput → TokenOutputIdentifier
of_token_input x = record { features = x.features; token_type = x.token_type; commit = x.commit }

abbrev pub of_token_output : TokenOutput → TokenOutputIdentifier
of_token_output x = record { features = x.features; token_type = x.token_type; commit = x.commit }

abbrev pub from_token_output : TokenOutput → TokenIssueProof
from_token_output x = record { token_type = x.token_type; commit = x.commit; proof = x.proof }

-- The outputs with their range proofs, as they are pushed.
abbrev pub with_proofs : List Output → List (OutputIdentifier × ℕ)
with_proofs outs = map (λ (x : Output). (of_output x, x.proof)) outs

abbrev pub with_token_proofs : List TokenOutput → List (TokenOutputIdentifier × ℕ)
with_token_proofs outs = map (λ (x : TokenOutput). (of_token_output x, x.proof)) outs

-- The ranges of the extension, and the accumulator of chain/src/txhashset/bitmap_accumulator.rs, which
-- takes the indices of the leaves that were made or spent.
pub record Mmrs : Type 1 where
  pub outputs : Mmr OutputIdentifier
  pub rproofs : Mmr ℕ
  pub token_outputs : Mmr TokenOutputIdentifier
  pub token_rproofs : Mmr ℕ
  pub issue_proofs : Mmr TokenIssueProof
  pub kernels : Mmr TxKernel
  pub token_kernels : Mmr TokenTxKernel
  pub Accumulator : Type 0
  pub accumulate : List ℕ → outputs.M → Accumulator → Result UtxoError Accumulator

-- `Extension`, with the indices of the store that it writes.
pub record Extension (ms : Mmrs) : Type 0 where
  pub head : Tip
  pub coins : Coins ms.outputs ms.rproofs
  pub tokens : Coins ms.token_outputs ms.token_rproofs
  pub token_issue_proof_pmmr : ms.issue_proofs.M
  pub token_issue_proof_pos : List (ℕ × ℕ)
  pub kernel_pmmr : ms.kernels.M
  pub token_kernel_pmmr : ms.token_kernels.M
  pub bitmap_accumulator : ms.Accumulator
  pub spent_index : List (ℕ × List CommitPos)
  pub spent_token_index : List (ℕ × List CommitPos)

abbrev pub push_all : {E : Type 0} (m : Mmr E) → List E → m.M → Result UtxoError m.M
push_all m [] x = ok x
push_all m (e ∷ es) x = or_mmr_err (m.push e x) >>= λ y. push_all m es y.0

module _ (ms : Mmrs) where
  -- A key of an issued token that is in the range already.
  abbrev pub key_clashes : ℕ → Option TokenIssueProof → Bool
  key_clashes key none = false
  key_clashes key (some out) = out.token_type == key

  abbrev pub issue_data : Option ℕ → ms.issue_proofs.M → Option TokenIssueProof
  issue_data none x = none
  issue_data (some pos) x = ms.issue_proofs.get_data pos x

  abbrev pub issue_exists : ℕ → Extension ms → Bool
  issue_exists key e =
      key_clashes key (issue_data (Maps.get key e.token_issue_proof_pos) e.token_issue_proof_pmmr)

  -- `apply_token_issue_output`, and saving the position that it gives.
  unfoldable pub apply_token_issue_output :
      TokenOutput → Extension ms → Result UtxoError (Extension ms)
  apply_token_issue_output out e = do
    fail_if (is_token out.features) not_a_token_issue
    fail_if (issue_exists out.token_type e) (duplicate_token_key out.token_type)
    (issues, pos) ←
        or_mmr_err (ms.issue_proofs.push (from_token_output out) e.token_issue_proof_pmmr)
    ok (record e {
      token_issue_proof_pmmr = issues;
      token_issue_proof_pos = Maps.insert out.token_type pos e.token_issue_proof_pos;
    })

  -- The loop over the token outputs.
  unfoldable pub apply_token_outputs :
      ℕ → List TokenOutput → Extension ms → Result UtxoError (Extension ms)
  apply_token_outputs height [] e = ok e
  apply_token_outputs height (out ∷ outs) e = do
    (tokens, pos) ←
        apply_output ms.token_outputs ms.token_rproofs token_ident (of_token_output out) out.proof
          e.tokens
    let e1 = record e {
      tokens =
          save_output_pos_height ms.token_outputs ms.token_rproofs token_ident out.commit pos height
            tokens;
    }
    e2 ← (if is_tokenissue out.features then apply_token_issue_output out e1 else ok e1)
    apply_token_outputs height outs e2

  abbrev pub apply_to_bitmap_accumulator :
      List ℕ → ms.outputs.M → ms.Accumulator → Result UtxoError ms.Accumulator
  apply_to_bitmap_accumulator output_pos outputs acc =
      ms.accumulate (map (λ x. n_leaves x - 1) output_pos) outputs acc

  abbrev pub positions : List CommitPos → List ℕ
  positions spent = map (λ (p : CommitPos). p.pos) spent

  -- The coins of a block, the tokens, the kernels and what is left.
  unfoldable pub apply_coins : ℕ → Block → Extension ms → Result UtxoError (Extension ms × List ℕ)
  apply_coins h b e = do
    (made, new_pos) ←
        apply_outputs ms.outputs ms.rproofs coin_ident b.header.height (with_proofs b.body.outputs)
          e.coins
    (left, spent) ← apply_inputs ms.outputs ms.rproofs coin_ident (map of_input b.body.inputs) made
    ok (
      record e { coins = left; spent_index = Maps.insert h spent e.spent_index },
      new_pos ++ positions spent,
    )

  unfoldable pub apply_tokens : ℕ → Block → Extension ms → Result UtxoError (Extension ms)
  apply_tokens h b e = do
    e1 ← apply_token_outputs b.header.height b.body.token_outputs e
    (left, spent) ←
        apply_inputs ms.token_outputs ms.token_rproofs token_ident
          (map of_token_input b.body.token_inputs) e1.tokens
    ok (record e1 { tokens = left; spent_token_index = Maps.insert h spent e1.spent_token_index })

  unfoldable pub apply_kernels : Block → Extension ms → Result UtxoError (Extension ms)
  apply_kernels b e = do
    kernels ← push_all ms.kernels b.body.kernels e.kernel_pmmr
    token_kernels ← push_all ms.token_kernels b.body.token_kernels e.token_kernel_pmmr
    ok (record e { kernel_pmmr = kernels; token_kernel_pmmr = token_kernels })

  module _ (hash : BlockHeader → ℕ) where
    abbrev pub tip_of : BlockHeader → Tip
    tip_of header = record {
      height = header.height;
      last_block_h = hash header;
      prev_block_h = header.prev_hash;
      total_difficulty = header.total_difficulty;
    }

    unfoldable pub apply_block : Block → Extension ms → Result UtxoError (Extension ms)
    apply_block b e = do
      (e1, affected_pos) ← apply_coins (hash b.header) b e
      e2 ← apply_tokens (hash b.header) b e1
      e3 ← apply_kernels b e2
      acc ← apply_to_bitmap_accumulator affected_pos e3.coins.output_pmmr e3.bitmap_accumulator
      ok (record e3 { bitmap_accumulator = acc; head = tip_of b.header })
