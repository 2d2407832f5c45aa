-- ===== src/Consensus/Difficulty.antt =====
-- Difficulty: the compact encoding of targets in core/src/pow/common.rs and the adjustment rules of
-- core/src/consensus.rs. A BigUint is a number; `bits`, its length in bits, is from the num crate and
-- an argument. `none` stands for a panic, in `compact_to_biguint` also for the code's own `None`.
pub mod Total
mod Runs
use vcash.Prelude.{
  ℕ, zero, suc, ◌+◌, ◌-◌, ◌*◌, ◌/◌, ◌%◌, ◌^◌, min, max, Bool, true, false, not, ◌&&◌, ◌||◌, List,
  [], ◌∷◌, map, Option, none, some, ltb, leb, ◌==◌, if◌then◌else◌, wrap64, sub64, u64_mod,
}
use vcash.Consensus.Params.{
  ChainType, min_bit_diff, support_token_height, block_time_window, difficulty_adjust_window,
  year_height,
}

abbrev pub header_version : ChainType → ℕ → ℕ
header_version chain height = if ltb height (support_token_height chain) then 1 else 2

abbrev pub valid_header_version : ChainType → ℕ → ℕ → Bool
valid_header_version chain height version = version == header_version chain height

abbrev pub then_if {ℓ} : {A : Type ℓ} → Bool → Option A → Option A
then_if true r = r
then_if false r = none

abbrev pub and_then {ℓ κ} : {A : Type ℓ} {B : Type κ} → Option A → (A → Option B) → Option B
and_then none k = none
and_then (some a) k = k a

-- The mantissa is the low 23 bits of the word, its sign the bit above, the size the highest byte.
unfoldable pub compact_to_biguint : ℕ → Option ℕ
compact_to_biguint nbits =
    let size = nbits / 2 ^ 24 in
    let low = nbits % 2 ^ 23 in
    let small = leb size 3 in
    let word = if small then low / 2 ^ (8 * (3 - size)) else low in
    let bignum = if small then word else word * 2 ^ (8 * (size - 3)) in
    let nonzero = not (word == 0) in
    let negative = nonzero && ((nbits / 2 ^ 23) % 2 == 1) in
    let overflow =
      nonzero
      && (ltb 34 size || ((ltb 0xff word && ltb 33 size) || (ltb 0xffff word && ltb 32 size))) in
    if negative then none else (if overflow then none else some bignum)

-- The low 64 bytes, which must fit a 64-bit word.
abbrev pub get_biguint_low64 : ℕ → Option ℕ
get_biguint_low64 bignum = let low = bignum % 2 ^ 512 in if ltb low u64_mod then some low else none

-- A mantissa with the bit of the sign set is cut by a byte.
abbrev pub shift_out_sign : ℕ → ℕ → ℕ × ℕ
shift_out_sign compact size =
    if (compact / 2 ^ 23) % 2 == 1 then (compact / 2 ^ 8, size + 1) else (compact, size)

-- The two assertions, and the word put together: its parts share no bit.
abbrev pub pack : Bool → ℕ × ℕ → Option ℕ
pack negative (compact, size) =
    then_if (ltb compact (2 ^ 23) && ltb size 256)
      (some (compact + size * 2 ^ 24 + (if negative && not (compact == 0) then 2 ^ 23 else 0)))

-- The time that a window took, held within a quarter of its aim and four times its aim.
unfoldable pub adjust_time : ℕ → ℕ
adjust_time ts_delta =
    if ltb (block_time_window * 4) ts_delta
    then block_time_window * 4
    else (if ltb ts_delta (block_time_window / 4) then block_time_window / 4 else ts_delta)

module _ (bits : ℕ → ℕ) where
  abbrev pub mantissa : ℕ → ℕ → Option ℕ
  mantissa bignum size =
      if leb size 3
      then and_then (get_biguint_low64 bignum)
          (λ low. some (wrap64 (low * 2 ^ (8 * (3 - size))) % 2 ^ 32))
      else and_then (get_biguint_low64 (bignum / 2 ^ (8 * (size - 3)))) (λ low. some (low % 2 ^ 32))

  unfoldable pub biguint_to_compact : ℕ → Bool → Option ℕ
  biguint_to_compact bignum negative =
      let size = (bits bignum + 7) / 8 in
      and_then (mantissa bignum size) (λ compact. pack negative (shift_out_sign compact size))

  -- The block times are signed 64-bit words in two's complement, and their difference is read as an
  -- unsigned word.
  unfoldable pub next_bit_difficulty : ChainType → ℕ → ℕ → ℕ → ℕ → Option ℕ
  next_bit_difficulty chain cur_height cur_bits cur_block_time first_block_time =
      if not (wrap64 (cur_height + 1) % difficulty_adjust_window == 0)
      then some cur_bits
      else and_then (compact_to_biguint cur_bits) (λ target.
        and_then
          (biguint_to_compact
            (target * adjust_time (sub64 cur_block_time first_block_time) / block_time_window)
            false)
          (λ compact. some (min (min_bit_diff chain) compact)))

pub record HeaderInfo : Type 0 where
  pub block_hash : ℕ
  pub timestamp : ℕ
  pub difficulty : ℕ
  pub secondary_scaling : ℕ
  pub is_secondary : Bool

abbrev pub from_diff_scaling : ℕ → ℕ → HeaderInfo
from_diff_scaling difficulty secondary_scaling = record {
  block_hash = 0;
  timestamp = 1;
  difficulty = difficulty;
  secondary_scaling = secondary_scaling;
  is_secondary = true;
}

-- The testing difficulty and a scaling of 1, whatever the height and the past blocks.
abbrev pub next_difficulty : ℕ → List HeaderInfo → HeaderInfo
next_difficulty height cursor = from_diff_scaling 1 1

abbrev pub secondary_pow_ratio : ℕ → ℕ
secondary_pow_ratio height = 90 - height / (2 * year_height / 90)

abbrev pub damp : ℕ → ℕ → ℕ → ℕ
damp actual goal damp_factor = wrap64 (actual + wrap64 ((damp_factor - 1) * goal)) / damp_factor

abbrev pub clamp : ℕ → ℕ → ℕ → ℕ
clamp actual goal clamp_factor =
    max (goal / clamp_factor) (min actual (wrap64 (goal * clamp_factor)))

abbrev pub count_secondary : List HeaderInfo → ℕ
count_secondary [] = 0
count_secondary (h ∷ hs) =
    let rest = count_secondary hs in if h.is_secondary then suc rest else rest

abbrev pub ar_count : ℕ → List HeaderInfo → ℕ
ar_count height diff_data = 100 * count_secondary diff_data

abbrev pub sum : List ℕ → ℕ
sum [] = 0
sum (x ∷ xs) = x + sum xs

unfoldable pub secondary_pow_scaling : ℕ → List HeaderInfo → ℕ
secondary_pow_scaling height diff_data =
    let scale_sum = sum (map (λ (h : HeaderInfo). h.secondary_scaling) diff_data) in
    let target_pct = secondary_pow_ratio height in
    let target_count = difficulty_adjust_window * target_pct in
    let adj_count = clamp (damp (ar_count height diff_data) target_count 13) target_count 2 in
    let scale = wrap64 (scale_sum * target_pct) / max 1 adj_count in max 13 scale % 2 ^ 32
