-- ===== src/Utxo/Extension/Applied.antt =====
-- What applying a block makes of the unspent coins and tokens.
use vcash.Prelude.{
  ℕ, ◌≡◌, refl, sym, ◌∙◌, Bool, true, false, List, [], ◌∷◌, length, map, ok, bind-ok, ok-injective,
  if◌then◌else◌, fail_if,
}
use mathlib.Core.Path.{subst}
use vcash.Transaction.Types.{TokenOutput, is_token, is_tokenissue}
use vcash.Chain.Types.{BlockHeader, Block}
use vcash.Utxo.Mmr.{IsLawful}
use vcash.Utxo.Coins.{
  Coins, or_mmr_err, not_a_token_issue, duplicate_token_key, apply_output, apply_outputs,
  apply_inputs, save_output_pos_height,
}
use vcash.Utxo.Coins.Applied.{IsIndexed}
use vcash.Utxo.Coins.Spent.{IsApplied, apply-IsApplied}
use vcash.Utxo.Extension.{
  Mmrs, Extension, coin_ident, token_ident, of_input, of_token_input, of_token_output,
  from_token_output, with_proofs, with_token_proofs, issue_exists, apply_token_issue_output,
  apply_token_outputs, apply_to_bitmap_accumulator, apply_coins, apply_tokens, apply_kernels,
  push_all, apply_block,
}

module _ (ms : Mmrs) where
  -- An extension with the same coins and tokens.
  record IsSameCoins (e : Extension ms) (e' : Extension ms) : Type 0 where
    pub coins : e'.coins ≡ e.coins
    pub tokens : e'.tokens ≡ e.tokens

  issue-IsSameCoins :
      (out : TokenOutput) (e e' : Extension ms)
      → apply_token_issue_output ms out e ≡ ok e'
      → IsSameCoins e e'
  unfolding apply_token_issue_output
  issue-IsSameCoins out e e' h =
      let (u1, (e1, k1)) = bind-ok (fail_if (is_token out.features) not_a_token_issue) _ e' h in
      let (u2, (e2, k2)) =
        bind-ok (fail_if (issue_exists ms out.token_type e) (duplicate_token_key out.token_type)) _
          e' k1 in
      let (x, (e3, k3)) =
        bind-ok (or_mmr_err (ms.issue_proofs.push (from_token_output out) e.token_issue_proof_pmmr))
          _ e' k2 in
      subst (IsSameCoins e) (ok-injective _ _ k3) (record { coins = refl; tokens = refl })

  issue_if-IsSameCoins :
      (b : Bool) (out : TokenOutput) (e e' : Extension ms)
      → (if b then apply_token_issue_output ms out e else ok e) ≡ ok e'
      → IsSameCoins e e'
  issue_if-IsSameCoins true out e e' h = issue-IsSameCoins out e e' h
  issue_if-IsSameCoins false out e e' h =
      subst (IsSameCoins e) (ok-injective _ _ h) (record { coins = refl; tokens = refl })

  -- The loop over token outputs is the one over outputs, with the issues beside it.
  record IsTokenLoop (height : ℕ) (outs : List TokenOutput) (e : Extension ms) (e' : Extension ms)
      : Type 0 where
    pub coins : e'.coins ≡ e.coins
    pub new_pos : List ℕ
    pub loop :
        apply_outputs ms.token_outputs ms.token_rproofs token_ident height
          (with_token_proofs outs)
          e.tokens
        ≡ ok (e'.tokens, new_pos)

  apply_token_outputs-IsTokenLoop :
      (height : ℕ) (outs : List TokenOutput) (e e' : Extension ms)
      → apply_token_outputs ms height outs e ≡ ok e'
      → IsTokenLoop height outs e e'
  unfolding apply_token_outputs apply_outputs
  apply_token_outputs-IsTokenLoop height [] e e' h =
      subst (IsTokenLoop height [] e) (ok-injective _ _ h)
        (record { coins = refl; new_pos = []; loop = refl })
  apply_token_outputs-IsTokenLoop height (out ∷ outs) e e' h =
      let first =
        apply_output ms.token_outputs ms.token_rproofs token_ident (of_token_output out) out.proof
          e.tokens in
      let (x, (e1, k1)) = bind-ok first _ e' h in
      let saved =
        save_output_pos_height ms.token_outputs ms.token_rproofs token_ident out.commit (x.1) height
          (x.0) in
      let d : Extension ms = record e { tokens = saved } in
      let (y, (e2, k2)) =
        bind-ok (if is_tokenissue out.features then apply_token_issue_output ms out d else ok d) _
          e' k1 in
      let same = issue_if-IsSameCoins (is_tokenissue out.features) out d y e2 in
      let rest = apply_token_outputs-IsTokenLoop height outs y e' k2 in
      record {
        coins = rest.coins ∙ same.coins;
        new_pos = x.1 ∷ rest.new_pos;
        loop = rw (e1, ← same.tokens, rest.loop) refl;
      }

  module _ (coin_law : IsLawful ms.outputs) (token_law : IsLawful ms.token_outputs) where
    -- The indices hold exactly what is unspent, and there is room for the outputs of a block.
    pub record IsReady (b : Block) (e : Extension ms) : Type 0 where
      pub coins :
          IsIndexed ms.outputs ms.rproofs coin_ident coin_law
            (length (with_proofs b.body.outputs))
            e.coins
      pub tokens :
          IsIndexed ms.token_outputs ms.token_rproofs token_ident token_law
            (length (with_token_proofs b.body.token_outputs))
            e.tokens

    abbrev pub CoinsApplied :
        Block → Coins ms.outputs ms.rproofs → Coins ms.outputs ms.rproofs → Type 0
    CoinsApplied b s s' =
        IsApplied ms.outputs ms.rproofs coin_ident coin_law (with_proofs b.body.outputs)
          (map of_input b.body.inputs) s s'

    abbrev pub TokensApplied :
        Block
        → Coins ms.token_outputs ms.token_rproofs
        → Coins ms.token_outputs ms.token_rproofs
        → Type 0
    TokensApplied b s s' =
        IsApplied ms.token_outputs ms.token_rproofs token_ident token_law
          (with_token_proofs b.body.token_outputs) (map of_token_input b.body.token_inputs) s s'

    apply_coins-CoinsApplied :
        (h : ℕ) (b : Block) (e : Extension ms) (x : Extension ms × List ℕ)
        → IsReady b e
        → apply_coins ms h b e ≡ ok x
        → CoinsApplied b e.coins x.0.coins × (x.0.tokens ≡ e.tokens)
    unfolding apply_coins
    apply_coins-CoinsApplied h b e x ready k =
        let (y, (e1, k1)) =
          bind-ok
            (apply_outputs ms.outputs ms.rproofs coin_ident b.header.height
              (with_proofs b.body.outputs) e.coins)
            _ x k in
        let (z, (e2, k2)) =
          bind-ok (apply_inputs ms.outputs ms.rproofs coin_ident (map of_input b.body.inputs) (y.0))
            _ x k1 in
        let applied =
          apply-IsApplied ms.outputs ms.rproofs coin_ident coin_law b.header.height
            (with_proofs b.body.outputs) (map of_input b.body.inputs) e.coins y z ready.coins e1
            e2 in
        subst
          (λ (w : Extension ms × List ℕ).
            CoinsApplied b e.coins w.0.coins × (w.0.tokens ≡ e.tokens))
          (ok-injective _ _ k2) (applied, refl)

    apply_tokens-TokensApplied :
        (h : ℕ) (b : Block) (e e' : Extension ms)
        → IsIndexed ms.token_outputs ms.token_rproofs token_ident token_law
            (length (with_token_proofs b.body.token_outputs))
            e.tokens
        → apply_tokens ms h b e ≡ ok e'
        → TokensApplied b e.tokens e'.tokens × (e'.coins ≡ e.coins)
    unfolding apply_tokens
    apply_tokens-TokensApplied h b e e' ready k =
        let (y, (e1, k1)) =
          bind-ok (apply_token_outputs ms b.header.height b.body.token_outputs e) _ e' k in
        let (z, (e2, k2)) =
          bind-ok
            (apply_inputs ms.token_outputs ms.token_rproofs token_ident
              (map of_token_input b.body.token_inputs) y.tokens)
            _ e' k1 in
        let loop = apply_token_outputs-IsTokenLoop b.header.height b.body.token_outputs e y e1 in
        let applied =
          apply-IsApplied ms.token_outputs ms.token_rproofs token_ident token_law b.header.height
            (with_token_proofs b.body.token_outputs) (map of_token_input b.body.token_inputs)
            e.tokens (y.tokens, loop.new_pos) z ready loop.loop e2 in
        subst (λ w. TokensApplied b e.tokens w.tokens × (w.coins ≡ e.coins)) (ok-injective _ _ k2)
          (applied, loop.coins)

    apply_kernels-IsSameCoins :
        (b : Block) (e e' : Extension ms) → apply_kernels ms b e ≡ ok e' → IsSameCoins e e'
    unfolding apply_kernels
    apply_kernels-IsSameCoins b e e' k =
        let (x, (e1, k1)) = bind-ok (push_all ms.kernels b.body.kernels e.kernel_pmmr) _ e' k in
        let (y, (e2, k2)) =
          bind-ok (push_all ms.token_kernels b.body.token_kernels e.token_kernel_pmmr) _ e' k1 in
        subst (IsSameCoins e) (ok-injective _ _ k2) (record { coins = refl; tokens = refl })

    -- A block that is applied spends only what was unspent or what it makes itself, nothing twice, and
    -- makes no commitment that is unspent or that it makes twice. Afterwards, exactly the outputs
    -- that were unspent or are new, and are not spent by the block, are in the index; of the coins and
    -- of the tokens.
    pub apply_block-IsApplied :
        (hash : BlockHeader → ℕ) (b : Block) (e e' : Extension ms)
        → IsReady b e
        → apply_block ms hash b e ≡ ok e'
        → CoinsApplied b e.coins e'.coins × TokensApplied b e.tokens e'.tokens
    unfolding apply_block
    apply_block-IsApplied hash b e e' ready k =
        let (x, (e1, k1)) = bind-ok (apply_coins ms (hash b.header) b e) _ e' k in
        let (y, (e2, k2)) = bind-ok (apply_tokens ms (hash b.header) b (x.0)) _ e' k1 in
        let (z, (e3, k3)) = bind-ok (apply_kernels ms b y) _ e' k2 in
        let (acc, (e4, k4)) =
          bind-ok (apply_to_bitmap_accumulator ms (x.1) z.coins.output_pmmr z.bitmap_accumulator) _
            e' k3 in
        let (coins, untouched) = apply_coins-CoinsApplied (hash b.header) b e x ready e1 in
        let (tokens, unmoved) =
          apply_tokens-TokensApplied (hash b.header) b (x.0) y
            (subst
              (IsIndexed ms.token_outputs ms.token_rproofs token_ident token_law
                (length (with_token_proofs b.body.token_outputs)))
              (sym untouched) ready.tokens)
            e2 in
        let same = apply_kernels-IsSameCoins b y z e3 in
        subst
          (λ (w : Extension ms). CoinsApplied b e.coins w.coins × TokensApplied b e.tokens w.tokens)
          (ok-injective _ _ k4)
          (
            subst (CoinsApplied b e.coins) (sym (same.coins ∙ unmoved)) coins,
            subst (TokensApplied b e.tokens) (sym same.tokens)
                (subst (λ s. TokensApplied b s y.tokens) untouched tokens),
          )
