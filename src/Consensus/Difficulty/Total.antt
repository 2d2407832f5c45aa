-- ===== src/Consensus/Difficulty/Total.antt =====
-- The retargeting of `next_bit_difficulty` does not panic, and stays at or below the easiest target.
use mathlib.Core.Path.{subst}
use native.Mathlib.Decide.{dec_lt}
use native.Mathlib.Nat.{div-le_self, div-lt_iff_lt-mul, mod-eq_of_lt}
use vcash.Prelude.{
  ℕ, ◌+◌, ◌-◌, ◌*◌, ◌/◌, ◌%◌, ◌^◌, ◌≤◌, ◌<◌, ◌≡◌, refl, sym, ap, ◌∙◌, ◌⊎◌, inl, inr, min, Bool,
  true, false, not, ◌&&◌, ◌||◌, none, some, arith, pow-add, pow_mono, pow_pos, ltb, leb, ◌==◌,
  lt→ltb, not_ltb→le, le→leb, lt→not_leb, Bool-cases, wrap64, sub64, u64_mod, if◌then◌else◌, mul_le,
  not_==→ne, ==→eq,
}
use vcash.Consensus.Difficulty.{
  compact_to_biguint, biguint_to_compact, mantissa, shift_out_sign, pack, get_biguint_low64,
  adjust_time, next_bit_difficulty, and_then,
}
use vcash.Consensus.Params.{ChainType, min_bit_diff, block_time_window, difficulty_adjust_window}

-- `BigUint::bits`: the fewest bits that a number fits in.
pub record IsBitLength (bits : ℕ → ℕ) : Type 0 where
  pub fits : (n : ℕ) → n < 2 ^ bits n
  pub fewest : (n k : ℕ) → n < 2 ^ k → bits n ≤ k

low64-small : (n : ℕ) → n < 2 ^ 24 → get_biguint_low64 n ≡ some n
low64-small n lt =
    let e : n % 2 ^ 512 ≡ n = omega arith in rw (e, lt→ltb n u64_mod (omega arith)) refl

-- The mantissa that a number of `s` bytes has.
abbrev value : ℕ → ℕ → ℕ
value n s = if leb s 3 then n * 2 ^ (8 * (3 - s)) else n / 2 ^ (8 * (s - 3))

mantissa-small :
    (bits : ℕ → ℕ) (n s : ℕ)
    → s ≤ 3
    → n < 2 ^ (8 * s)
    → (c : ℕ) × ((mantissa bits n s ≡ some c) × (c < 2 ^ 24))
mantissa-small bits n s le lt =
    let p = 2 ^ (8 * (3 - s)) in
    let k : 8 * s + 8 * (3 - s) ≡ 24 = omega arith in
    let e : 2 ^ (8 * s) * p ≡ 2 ^ 24 =
      sym (pow-add (8 * s) (8 * (3 - s))) ∙ ap (λ (j : ℕ). 2 ^ j) k in
    let below : n * p < 2 ^ 24 = grind (arith, e, pow_pos (8 * (3 - s))) in
    let small : n < 2 ^ 24 = omega (arith, pow_mono (8 * s) 24 (omega arith)) in
    let w : wrap64 (n * p) % 2 ^ 32 ≡ n * p = omega arith in
    (n * p, (rw (le→leb s 3 le, low64-small n small) (ap some w), below))

mantissa-large :
    (bits : ℕ → ℕ) (n s : ℕ)
    → 3 < s
    → n < 2 ^ (8 * s)
    → (c : ℕ) × ((mantissa bits n s ≡ some c) × (c < 2 ^ 24))
mantissa-large bits n s lt fits =
    let p = 2 ^ (8 * (s - 3)) in
    let k : 24 + 8 * (s - 3) ≡ 8 * s = omega arith in
    let e : 2 ^ 24 * p ≡ 2 ^ (8 * s) = sym (pow-add 24 (8 * (s - 3))) ∙ ap (λ (j : ℕ). 2 ^ j) k in
    let below : n / p < 2 ^ 24 = (div-lt_iff_lt-mul (pow_pos (8 * (s - 3)))).1 (omega (arith, e)) in
    let w : (n / p) % 2 ^ 32 ≡ n / p = mod-eq_of_lt (omega arith) in
    (n / p, (rw (lt→not_leb s 3 lt, low64-small (n / p) below) (ap some w), below))

-- Packing a mantissa of three bytes meets both assertions.
pack-total : (c s : ℕ) → c < 2 ^ 24 → s < 255 → (r : ℕ) × (pack false (shift_out_sign c s) ≡ some r)
pack-total c s lt fits = elim (Bool-cases ((c / 2 ^ 23) % 2 == 1)) [
  | inl e ↦ (
    c / 2 ^ 8 + (s + 1) * 2 ^ 24 + 0,
    rw (e, lt→ltb (c / 2 ^ 8) (2 ^ 23) (omega arith), lt→ltb (s + 1) 256 (omega arith)) refl,
  )
  | inr e ↦
      let ne = not_==→ne ((c / 2 ^ 23) % 2) 1 e in
      (c + s * 2 ^ 24 + 0, rw (e, lt→ltb c (2 ^ 23) (omega arith), lt→ltb s 256 (omega arith)) refl)
]

-- Where `bits` is the fewest bits that a number fits in, a number below 2^2032 has a compact
-- encoding: no assertion fails.
pub biguint_to_compact-total :
    (bits : ℕ → ℕ)
    → IsBitLength bits
    → (n : ℕ) → n < 2 ^ 2032
    → (r : ℕ) × (biguint_to_compact bits n false ≡ some r)
unfolding biguint_to_compact
biguint_to_compact-total bits law n lt =
    let s = (bits n + 7) / 8 in
    let few = law.fewest n 2032 lt in
    let room : n < 2 ^ (8 * s) =
      omega (arith, law.fits n, pow_mono (bits n) (8 * s) (omega arith)) in
    let m : (c : ℕ) × ((mantissa bits n s ≡ some c) × (c < 2 ^ 24)) = elim (dec_lt 3 s) [
      | yes big ↦ mantissa-large bits n s big room
      | no small ↦ mantissa-small bits n s (omega arith) room
    ] in
    let (c, (e, below)) = m in
    let (r, p) = pack-total c s below (omega arith) in
    (r, ap (λ o. and_then o (λ compact. pack false (shift_out_sign compact s))) e ∙ p)

decoded :
    (negative overflow : Bool) (v target : ℕ)
    → (if negative then none else (if overflow then none else some v)) ≡ some target
    → (overflow ≡ false) × (v ≡ target)
decoded true overflow v target e = absurd (cc)
decoded false true v target e = absurd (cc)
decoded false false v target e = (refl, cc)

sized :
    (word size : ℕ) (rest : Bool)
    → (not (word == 0) && (ltb 34 size || rest)) ≡ false
    → (word ≡ 0) ⊎ (size ≤ 34)
sized word size rest e = elim (Bool-cases (word == 0)) [
  | inl z ↦ inl (==→eq word 0 z)
  | inr nz ↦ elim (Bool-cases (ltb 34 size)) [
    | inl big ↦ let clash : true ≡ false = sym (rw (nz, big) refl) ∙ e in absurd (cc)
    | inr fits ↦ inr (not_ltb→le 34 size fits)
  ]
]

shifted :
    (word size : ℕ)
    → word < 2 ^ 23
    → (word ≡ 0) ⊎ (size ≤ 34)
    → word * 2 ^ (8 * (size - 3)) < 2 ^ 272
shifted word size lt (inl z) = rw z (omega (arith, pow_pos 272))
shifted word size lt (inr le) =
    let p = 2 ^ (8 * (size - 3)) in
    let q = pow_mono (8 * (size - 3)) 248 (omega arith) in let a = mul_le word q in omega (arith, a)

-- What the compact encoding decodes to is below 2^272.
compact_to_biguint-below :
    (nbits target : ℕ) → compact_to_biguint nbits ≡ some target → target < 2 ^ 272
unfolding compact_to_biguint
compact_to_biguint-below nbits target e =
    let size = nbits / 2 ^ 24 in
    let low = nbits % 2 ^ 23 in
    let (fits, v) = decoded _ _ _ target e in
    elim (dec_lt 3 size) [
      | yes big ↦
          let g = lt→not_leb size 3 big in
          let below = shifted low size (omega arith) (sized low size _ (rw g at fits)) in
          subst (λ t. t < 2 ^ 272) (rw g at v) below
      | no small ↦
          let g = le→leb size 3 (omega arith) in
          let below = div-le_self low (2 ^ (8 * (3 - size))) in
          subst (λ t. t < 2 ^ 272) (rw g at v) (omega arith)
    ]

adjust_time-at_most : (ts : ℕ) → adjust_time ts ≤ block_time_window * 4
unfolding adjust_time
adjust_time-at_most ts = ground arith

scaled-below :
    (target time : ℕ)
    → target < 2 ^ 272
    → time ≤ block_time_window * 4
    → target * time / block_time_window < 2 ^ 2032
scaled-below target time low bound =
    let a = mul_le target bound in
    let b = div-le_self (target * time) block_time_window in
    let c = pow_mono 300 2032 (omega arith) in omega (arith, a, b, c)

-- The next block is the first of an adjustment window.
abbrev pub ends_window : ℕ → Bool
ends_window cur_height = wrap64 (cur_height + 1) % difficulty_adjust_window == 0

-- Where `bits` is the fewest bits that a number fits in, and the current difficulty decodes,
-- `next_bit_difficulty` does not panic. Inside an adjustment window the result is the current
-- difficulty; at its end the result is at most the `min_bit_diff` of the chain.
pub next_bit_difficulty-total :
    (bits : ℕ → ℕ)
    → IsBitLength bits
    → (chain : ChainType) (cur_height cur_bits cur_block_time first_block_time target : ℕ)
    → compact_to_biguint cur_bits ≡ some target
    → (r : ℕ) × ((next_bit_difficulty bits chain cur_height cur_bits cur_block_time first_block_time
          ≡ some r)
        × (((ends_window cur_height ≡ false) × (r ≡ cur_bits))
            ⊎ ((ends_window cur_height ≡ true) × (r ≤ min_bit_diff chain))))
unfolding next_bit_difficulty
next_bit_difficulty-total bits law chain cur_height cur_bits cur_block_time first_block_time target
      e =
    elim (Bool-cases (wrap64 (cur_height + 1) % difficulty_adjust_window == 0)) [
      | inr inside ↦ (cur_bits, (rw inside refl, inl (inside, refl)))
      | inl end ↦
          let low = compact_to_biguint-below cur_bits target e in
          let time = adjust_time (sub64 cur_block_time first_block_time) in
          let bound = adjust_time-at_most (sub64 cur_block_time first_block_time) in
          let next = target * time / block_time_window in
          let next_low : next < 2 ^ 2032 = scaled-below target time low bound in
          let (r, p) = biguint_to_compact-total bits law next next_low in
          (min (min_bit_diff chain) r, (rw (end, e, p) refl, inr (end, omega arith)))
    ]
