-- ===== src/Consensus/Difficulty/Runs.antt =====
-- The compact encoding at the values of the tests in core/src/pow/common.rs, and the theorems at a
-- concrete bit length.
use native.Mathlib.Decide.{dec_lt}
use mathlib.Core.Path.{subst}
use vcash.Prelude.{
  ℕ, zero, suc, ◌+◌, ◌*◌, ◌^◌, ◌≤◌, ◌<◌, ◌≡◌, ◌≢◌, refl, sym, ◌⊎◌, false, true, none, some, arith,
  ltb, lt→ltb, le→not_ltb, if◌then◌else◌, pow_suc,
}
use vcash.Consensus.Params.{mainnet, min_bit_diff}
use vcash.Consensus.Difficulty.{compact_to_biguint, biguint_to_compact, next_bit_difficulty}
use vcash.Consensus.Difficulty.Total.{ends_window, IsBitLength, next_bit_difficulty-total}

unfoldable bits_from : ℕ → ℕ → ℕ → ℕ
bits_from zero k n = k
bits_from (suc fuel) k n = let rest = bits_from fuel (k + 1) n in if ltb n (2 ^ k) then k else rest

unfoldable bit_length : ℕ → ℕ
bit_length n = bits_from n 0 n

lt-pow : (n : ℕ) → n < 2 ^ n
lt-pow zero = omega arith
lt-pow (suc n) = omega (arith, lt-pow n, pow_suc n)

bits_from-fits : (fuel k n : ℕ) → n < 2 ^ (k + fuel) → n < 2 ^ bits_from fuel k n
unfolding bits_from
bits_from-fits zero k n lt = let e : k + 0 ≡ k = omega arith in subst (λ j. n < 2 ^ j) e lt
bits_from-fits (suc fuel) k n lt =
    let e : k + suc fuel ≡ (k + 1) + fuel = omega arith in
    let ih = bits_from-fits fuel (k + 1) n (subst (λ j. n < 2 ^ j) e lt) in
    elim (dec_lt n (2 ^ k)) [
      | yes small ↦ rw (lt→ltb n (2 ^ k) small) small
      | no big ↦ rw (le→not_ltb n (2 ^ k) (omega arith)) ih
    ]

bits_from-fewest : (fuel k n j : ℕ) → n < 2 ^ j → k ≤ j → bits_from fuel k n ≤ j
unfolding bits_from
bits_from-fewest zero k n j lt le = le
bits_from-fewest (suc fuel) k n j lt le = elim (dec_lt n (2 ^ k)) [
  | yes small ↦ rw (lt→ltb n (2 ^ k) small) le
  | no big ↦
      let ne : k ≢ j = λ e. big (subst (λ i. n < 2 ^ i) (sym e) lt) in
      rw (le→not_ltb n (2 ^ k) (omega arith)) (bits_from-fewest fuel (k + 1) n j lt (omega arith))
]

bit_length-IsBitLength : IsBitLength bit_length
unfolding bit_length
bit_length-IsBitLength = record {
  fits = λ n. bits_from-fits n 0 n (let e : 0 + n ≡ n = omega arith in rw e (lt-pow n));
  fewest = λ n k lt. bits_from-fewest n 0 n k lt (omega arith);
}

decode_low : compact_to_biguint 0x02123456 ≡ some 0x1234
unfolding compact_to_biguint
decode_low = refl

decode_negative : compact_to_biguint 0x01fedcba ≡ none
unfolding compact_to_biguint
decode_negative = refl

decode_overflow : compact_to_biguint 0xff123456 ≡ none
unfolding compact_to_biguint
decode_overflow = refl

encode_low : biguint_to_compact (λ n. 13) 0x1234 false ≡ some 0x02123400
unfolding biguint_to_compact
encode_low = refl

encode_sign : biguint_to_compact (λ n. 32) 0x92340000 false ≡ some 0x05009234
unfolding biguint_to_compact
encode_sign = refl

-- The genesis difficulty of the main chain, at the end of the first window.
start_target : (target : ℕ) × (compact_to_biguint 0x18120f14 ≡ some target)
unfolding compact_to_biguint
start_target = (0x120f14 * 2 ^ 168, refl)

next_bit_difficulty-total_example :
    (r : ℕ) × ((next_bit_difficulty bit_length mainnet 2015 0x18120f14 1_590_000_000 1_589_000_000
        ≡ some r)
      × (((ends_window 2015 ≡ false) × (r ≡ 0x18120f14))
          ⊎ ((ends_window 2015 ≡ true) × (r ≤ min_bit_diff mainnet))))
next_bit_difficulty-total_example =
    next_bit_difficulty-total bit_length bit_length-IsBitLength mainnet 2015 0x18120f14
      1_590_000_000 1_589_000_000 start_target.0 start_target.1
