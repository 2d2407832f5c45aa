-- ===== src/Chain/Header/Valid.antt =====
-- What holds of a header that `validate_header` accepts.
use vcash.Prelude.{
  ℕ, ◌+◌, ◌≤◌, ◌<◌, ◌≡◌, refl, sym, ap, ◌∙◌, Bool, true, false, not, ◌&&◌, Result, ok, fail_if,
  bind-ok, fail_if-ok, ltb, leb, not_ltb→le, ok-injective, ◌==◌, ==→eq, not_leb→lt, if◌then◌else◌,
  wrap64, Option, none, some,
}
use vcash.Consensus.Params.{ChainType, is_production_mode, min_bit_diff, refactor_header_height}
use vcash.Consensus.Difficulty.{valid_header_version, header_version, compact_to_biguint}
use vcash.Chain.Types.{
  BlockHeader, ChainError, Env, Context, bit_difficulty_too_low, invalid_coinbase,
  invalid_merklebranch, bad_bit_diffbits, invalid_block_height, invalid_block_version,
  invalid_block_time, wrong_total_difficulty,
}
use vcash.Chain.Header.{
  prev_header_store, or_too_low, fold_branch, validate_aux, expected_bits, validate_block_auxdata,
  validate_work, validate_header,
}

module _ (chain : ChainType) (env : Env) where
  -- A header continues its predecessor: by one height, with the version of that height, at a later
  -- time; on a chain in production its total difficulty is its height and one.
  pub record IsNext (prev : BlockHeader) (header : BlockHeader) : Type 0 where
    pub height : header.height ≡ wrap64 (prev.height + 1)
    pub version : header.version ≡ header_version chain header.height
    pub time : prev.timestamp < header.timestamp
    pub difficulty :
        is_production_mode chain ≡ true → header.total_difficulty ≡ wrap64 (header.height + 1)

  -- A Bitcoin header with enough work commits to the header, whose bits are those of the rule.
  pub record IsMined (prev : BlockHeader) (header : BlockHeader) (c : Context env) : Type 0 where
    pub target : ℕ
    pub target_read : compact_to_biguint header.bits ≡ some target
    pub work : header.btc_pow.dhash ≤ target
    pub committed : env.has_magic header.btc_pow.coinbase_tx (env.hash header) ≡ true
    pub branch :
        fold_branch chain env
          (env.dhash_coinbase header.btc_pow.coinbase_tx)
          header.btc_pow.merkle_branch
        ≡ header.btc_pow.merkle_root
    pub bits : expected_bits chain env prev c ≡ ok header.bits

  un_negated : (b : Bool) → not b ≡ false → b ≡ true
  un_negated true e = refl
  un_negated false e = absurd (cc)

  -- The middle one of three branches.
  chosen :
      (s n : Bool) (x y r : Result ChainError (Unit {0}))
      → s ≡ false
      → n ≡ true
      → (if s then ok tt else (if n then x else y)) ≡ r
      → x ≡ r
  chosen true n x y r e f h = absurd (cc)
  chosen false true x y r e f h = h
  chosen false false x y r e f h = absurd (cc)

  or_too_low-ok : (o : Option ℕ) (t : ℕ) → or_too_low o ≡ ok t → o ≡ some t
  or_too_low-ok none t e = absurd (cc)
  or_too_low-ok (some x) t e = let same : x ≡ t = cc in ap some same

  production_only : (p q : Bool) → (p && not q) ≡ false → p ≡ true → q ≡ true
  production_only true q e h = un_negated q e
  production_only false q e h = absurd (cc)

  validate_block_auxdata-IsMined :
      (prev header : BlockHeader) (c : Context env)
      → prev_header_store chain env header c.batch ≡ ok prev
      → validate_block_auxdata chain env header false c ≡ ok tt
      → IsMined prev header c
  unfolding validate_block_auxdata validate_aux
  validate_block_auxdata-IsMined prev header c p e =
      let (u1, (e1, k1)) = bind-ok (validate_aux chain env header) _ tt e in
      let (pre, (e2, k2)) = bind-ok (prev_header_store chain env header c.batch) _ tt k1 in
      let (nbits, (e3, k3)) = bind-ok (expected_bits chain env pre c) _ tt k2 in
      let (u2, (a1, m1)) =
        bind-ok (fail_if (ltb (min_bit_diff chain) header.bits) bit_difficulty_too_low) _ tt e1 in
      let (target, (a2, m2)) = bind-ok (or_too_low (compact_to_biguint header.bits)) _ tt m1 in
      let (u3, (a3, m3)) =
        bind-ok (fail_if (ltb target header.btc_pow.dhash) bit_difficulty_too_low) _ tt m2 in
      let (u4, (a4, m4)) =
        bind-ok
          (fail_if (not (env.has_magic header.btc_pow.coinbase_tx (env.hash header)))
            invalid_coinbase)
          _ tt m3 in
      let same_bits = ==→eq nbits header.bits (un_negated _ (fail_if-ok _ bad_bit_diffbits k3)) in
      let same_prev : pre ≡ prev = ok-injective pre prev (sym e2 ∙ p) in
      record {
        target = target;
        target_read = or_too_low-ok (compact_to_biguint header.bits) target a2;
        work = not_ltb→le target header.btc_pow.dhash (fail_if-ok _ bit_difficulty_too_low a3);
        committed = un_negated _ (fail_if-ok _ invalid_coinbase a4);
        branch =
            ==→eq _ header.btc_pow.merkle_root
              (un_negated _ (fail_if-ok _ invalid_merklebranch m4));
        bits = ap (λ x. expected_bits chain env x c) (sym same_prev) ∙ (e3 ∙ ap ok same_bits);
      }

  -- An accepted header continues a header of the store; and where work is checked, from the height of
  -- the new headers on, it is mined.
  pub validate_header-IsNext :
      (header : BlockHeader) (c : Context env)
      → validate_header chain env header c ≡ ok tt
      → (prev : BlockHeader) × ((prev_header_store chain env header c.batch ≡ ok prev)
          × (IsNext prev header
              × (env.skip_pow ≡ false
                  → leb (refactor_header_height chain) header.height ≡ true
                  → IsMined prev header c)))
  unfolding validate_header
  validate_header-IsNext header c e =
      let (prev, (e1, k1)) = bind-ok (prev_header_store chain env header c.batch) _ tt e in
      let (u2, (e2, k2)) =
        bind-ok (fail_if (not (header.height == wrap64 (prev.height + 1))) invalid_block_height) _
          tt k1 in
      let (u3, (e3, k3)) =
        bind-ok
          (fail_if (not (valid_header_version chain header.height header.version))
            (invalid_block_version header.version))
          _ tt k2 in
      let (u4, (e4, k4)) =
        bind-ok (fail_if (leb header.timestamp prev.timestamp) invalid_block_time) _ tt k3 in
      let (u5, (e5, k5)) =
        bind-ok
          (fail_if
            (is_production_mode chain
              && not (header.total_difficulty == wrap64 (header.height + 1)))
            wrong_total_difficulty)
          _ tt k4 in
      let worked : validate_work chain env header prev c ≡ ok tt = k5 in
      (
        prev,
        (
          e1,
          (
            record {
              height = ==→eq header.height _ (un_negated _ (fail_if-ok _ invalid_block_height e2));
              version =
                  ==→eq header.version _
                    (un_negated _ (fail_if-ok _ (invalid_block_version header.version) e3));
              time =
                  not_leb→lt header.timestamp prev.timestamp (fail_if-ok _ invalid_block_time e4);
              difficulty = λ p.
                  ==→eq header.total_difficulty _
                    (production_only _ _ (fail_if-ok _ wrong_total_difficulty e5) p);
            },
            λ checked new.
                validate_block_auxdata-IsMined prev header c e1
                  (chosen env.skip_pow _ _ _ (ok tt) checked new worked),
          ),
        ),
      )
