-- ===== src/Chain/Process.antt =====
-- Processing a block, a header and a chunk of headers, in chain/src/pipe.rs. A call returns its result
-- and the context that it leaves, since one that fails may have changed the context before.
pub mod Linked
pub mod Head
use vcash.Prelude.{
  is_ok, ℕ, zero, suc, ◌+◌, Bool, true, false, not, ◌&&◌, ◌||◌, List, [], ◌∷◌, last, Option, none,
  some, Result, ok, err, fail_if, ◌>>=◌, ◌>>◌, ltb, ◌==◌, if◌then◌else◌,
}
use vcash.Consensus.Params.{ChainType, refactor_header_height}
use vcash.Chain.Types.{
  BlockHeader, Block, Tip, ChainError, Batch, Env, Context, get_block_header, get_previous_header,
  head, block_exists, from_header, save_block_header, save_block, save_body_tail, save_body_head,
  orphan, invalid_block_proof,
}
use vcash.Chain.Header.{
  has_more_work, prev_header_store, check_known, validate_block_auxdata, validate_pow_only,
  validate_header,
}
use vcash.Chain.Fork.{
  Action, then_try, after, header_head, header_extending, extending, rewind_and_apply_header_fork,
  rewind_and_apply_fork, verify_and_apply,
}

module _ (chain : ChainType) (env : Env) where
  -- Whether the header is in the store already and would not change the head of the headers.
  abbrev pub seen_header : BlockHeader → Tip → Batch → Bool
  seen_header header tip batch = elim (get_block_header env (env.hash header) batch) [
    | ok existing ↦ not (has_more_work existing tip)
    | err e ↦ false
  ]

  abbrev pub add_block_header : BlockHeader → Context env → Context env
  add_block_header header c = record c { batch = save_block_header env header c.batch }

  -- The body of the extension, with whether to roll it back.
  abbrev pub extend_header :
      BlockHeader → BlockHeader → Tip → env.H → Batch → Result ChainError (env.H × Bool)
  extend_header prev header tip h batch = do
    h1 ← rewind_and_apply_header_fork env prev batch h
    env.validate_root header h1
    h2 ← env.apply_header header h1
    ok (h2, not (has_more_work header tip))

  -- The header MMR is extended before the header is validated.
  abbrev pub accept_header : BlockHeader → Action env (Unit {0})
  accept_header header c =
      then_try env (validate_header chain env header c)
        (λ _ c'. (ok tt, add_block_header header c')) c

  unfoldable pub process_block_header : BlockHeader → Action env (Unit {0})
  process_block_header header c =
      then_try env (get_previous_header env header c.batch)
        (λ prev c.
          if not (is_ok (check_known chain env header c))
          then (ok tt, c)
          else then_try env (header_head env c)
              (λ tip c.
                if seen_header header tip c.batch
                then (ok tt, c)
                else after env (header_extending env (extend_header prev header tip) c)
                    (λ _. accept_header header))
              c)
        c

  abbrev pub not_orphan : Block → Tip → BlockHeader → Batch → Result ChainError (Unit {0})
  not_orphan b tip prev batch =
      fail_if
        (not (b.header.prev_hash == tip.last_block_h)
          && not (block_exists env (env.hash prev) batch))
        orphan

  -- Before the header has its own auxiliary data, those of the block are checked.
  abbrev pub validate_old_aux : Block → Context env → Result ChainError (Unit {0})
  validate_old_aux b c =
      if ltb b.header.height (refactor_header_height chain)
      then validate_block_auxdata chain env (record b.header { btc_pow = b.aux_data }) false c
      else ok tt

  abbrev pub validate_block : Block → Context env → Result ChainError (Unit {0})
  validate_block b c = do
    prev ← get_previous_header env b.header c.batch
    fail_if (not (env.validate_block b prev)) invalid_block_proof

  abbrev pub extend_block :
      Block → BlockHeader → env.H → Batch × env.T → Result ChainError ((Batch × env.T) × Bool)
  extend_block b prev h s = do
    (h', s1) ← rewind_and_apply_fork env prev h s
    s2 ← verify_and_apply env b h' s1
    tip ← head env (s2.0)
    ok (s2, not (has_more_work b.header tip))

  abbrev pub set_tail : Tip → Batch → Option Tip → Batch
  set_tail tip batch none = save_body_tail env tip batch
  set_tail tip batch (some t) = batch

  -- The block is saved, with the tail if there is none, and the head if it has more work.
  abbrev pub store_block : Block → Tip → Action env (Option Tip)
  store_block b tip c =
      let saved = save_block env b c.batch in
      let tailed = set_tail (from_header env b.header) saved saved.tail_tip in
      let new_head = from_header env b.header in
      if has_more_work b.header tip
      then (ok (some new_head), record c { batch = save_body_head env new_head tailed })
      else (ok none, record c { batch = tailed })

  -- What follows the checks that need only the store.
  abbrev pub process_checked : Block → Tip → BlockHeader → Action env (Option Tip)
  process_checked b tip prev c = after env (process_block_header b.header c) (λ _ c1.
      then_try env (validate_block b c1)
        (λ _ c2. after env (extending env (extend_block b prev) c2) (λ _. store_block b tip)) c1)

  -- The checks before the header is processed, with the head and the header before the block.
  abbrev pub admit_block : Block → Context env → Result ChainError (Tip × BlockHeader)
  admit_block b c = do
    check_known chain env b.header c
    validate_pow_only chain env b.header c
    tip ← head env c.batch
    prev ← prev_header_store chain env b.header c.batch
    not_orphan b tip prev c.batch
    validate_old_aux b c
    ok (tip, prev)

  unfoldable pub process_block : Block → Action env (Option Tip)
  process_block b c = then_try env (admit_block b c) (λ x. process_checked b x.0 x.1) c

  unfoldable pub store_headers : List BlockHeader → Action env (Unit {0})
  store_headers [] c = (ok tt, c)
  store_headers (header ∷ headers) c =
      then_try env (validate_header chain env header c)
        (λ _ c'. store_headers headers (add_block_header header c')) c

  abbrev pub sync_to : List BlockHeader → BlockHeader → Action env (Unit {0})
  sync_to headers last_header c =
      then_try env (header_head env c)
        (λ tip c.
          if seen_header last_header tip c.batch
          then (ok tt, c)
          else after env (store_headers headers c) (λ _. header_extending env (λ h batch.
            rewind_and_apply_header_fork env last_header batch h >>= λ h'. ok (h', false))))
        c

  unfoldable pub sync_block_headers : List BlockHeader → Action env (Unit {0})
  sync_block_headers headers c = elim (last headers) [
    | none ↦ (ok tt, c)
    | some last_header ↦ sync_to headers last_header c
  ]
