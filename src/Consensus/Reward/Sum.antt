-- ===== src/Consensus/Reward/Sum.antt =====
-- `total_reward` against the sum of the blocks' own rewards.
use vcash.Prelude.{
  ℕ, zero, suc, ◌+◌, ◌*◌, ◌/◌, ◌%◌, ◌^◌, ◌≤◌, ◌<◌, ◌≡◌, refl, ap, true, false, arith, wrap64, sub64,
  shr64, lt→not_leb, u64_mod, inl, inr, ◌⊎◌, ◌∙◌, sym, divide_unique, mul_le,
}
use vcash.Consensus.Params.{ChainType, automated_testing}
use vcash.Consensus.Params.{subsidy, halving_interval}
use native.Mathlib.Decide.{dec_lt}
use native.Mathlib.Nat.{
  mod-lt, div-eq_of_lt, mod-eq_of_lt, div-add-mod, pow-suc, div-div-eq-div-mul,
}
use vcash.Consensus.Reward.{reward, total_loop, total_reward, sum_rewards}

total_loop_snoc :
    (interval rounds i total : ℕ)
    → total_loop interval (suc rounds) i total
      ≡ wrap64 (total_loop interval rounds i total + wrap64 (interval * shr64 subsidy (i + rounds)))
unfolding total_loop
total_loop_snoc interval zero i total = let e : i + zero ≡ i = omega arith in rw e refl
total_loop_snoc interval (suc rounds) i total =
    let e : i + suc rounds ≡ i + 1 + rounds = omega arith in
    rw e (total_loop_snoc interval rounds (i + 1) _)

-- The subsidy `q k` of the period `k`, without the guard.
abbrev q : ℕ → ℕ
q k = subsidy / 2 ^ k

-- The exact sum over whole periods.
abbrev periods : ℕ → ℕ → ℕ
periods interval zero = 0
periods interval (suc n) = periods interval n + interval * q n

-- The exact sum up to and with a height.
abbrev exact : ℕ → ℕ → ℕ
exact interval h = periods interval (h / interval) + q (h / interval) * (h % interval + 1)

q-suc : (k : ℕ) → q (suc k) ≡ q k / 2
q-suc k = rw pow-suc (sym (div-div-eq-div-mul subsidy (2 ^ k) 2))

-- What is still to come is never more than what a period pays, twice.
periods_bound :
    (interval n : ℕ) → periods interval n + interval * (2 * q n) ≤ interval * (2 * subsidy)
periods_bound interval zero = omega arith
periods_bound interval (suc n) =
    let half : 2 * q (suc n) ≤ q n = rw (q-suc n) (omega arith) in
    omega (arith, periods_bound interval n, mul_le interval half)

mod64 : (k : ℕ) → k < 64 → k % 64 ≡ k
mod64 k h = omega arith

next_height :
    (interval h : ℕ)
    → 0 < interval
    → ((suc h / interval ≡ h / interval) × (suc h % interval ≡ h % interval + 1))
      ⊎ ((suc h / interval ≡ suc (h / interval))
          × (suc h % interval ≡ 0)
          × (h % interval + 1 ≡ interval))
next_height interval h p = elim (dec_lt (h % interval + 1) interval) [
  | yes lt ↦ inl (
      divide_unique interval (h / interval) (h % interval + 1) _ lt
        (omega (arith, div-add-mod h interval)))
  | no ge ↦
      let top : h % interval + 1 ≡ interval = omega (arith, mod-lt h p) in
      let (d, m) =
        divide_unique interval (suc (h / interval)) 0 (suc h) p
          (omega (arith, div-add-mod h interval)) in
      inr (d, m, top)
]

exact-suc :
    (interval h : ℕ)
    → 0 < interval
    → exact interval (suc h) ≡ exact interval h + q (suc h / interval)
exact-suc interval h p = elim (next_height interval h p) [
  | inl (d, m) ↦ rw (d, m) (omega arith)
  | inr (d, m, top) ↦ rw (d, m) (omega (arith, ap (λ (t : ℕ). q (h / interval) * t) top))
]

total_loop-eq-periods :
    (interval rounds : ℕ)
    → interval * (2 * subsidy) < u64_mod
    → rounds ≤ 64
    → total_loop interval rounds 0 0 ≡ periods interval rounds
total_loop-eq-periods interval zero fits h = unfold total_loop in refl
total_loop-eq-periods interval (suc n) fits h =
    let e : 0 + n ≡ n = omega arith in
    rw
      (
        total_loop_snoc interval n 0 0,
        total_loop-eq-periods interval n fits (omega arith),
        e,
        mod64 n h,
      )
      (omega (arith, periods_bound interval (suc n)))

interval_fits :
    (c : ChainType) → (0 < halving_interval c) × (halving_interval c * (2 * subsidy) < u64_mod)
unfolding halving_interval
interval_fits automated_testing = omega arith
interval_fits _ = omega arith

exact_bound :
    (interval h : ℕ)
    → 0 < interval
    → (exact interval h ≤ interval * (2 * subsidy))
      × (q (h / interval) * (h % interval + 1) ≤ interval * (2 * subsidy))
exact_bound interval h p =
    let n = h / interval in
    let le : q n * (h % interval + 1) ≤ q n * interval = mul_le (q n) (omega (arith, mod-lt h p)) in
    (omega (arith, periods_bound interval n, le), omega (arith, periods_bound interval n, le))

total_reward-eq-exact :
    (c : ChainType) (h : ℕ)
    → h / halving_interval c < 64
    → total_reward c h true ≡ exact (halving_interval c) h
unfolding total_reward
total_reward-eq-exact c h low =
    let interval = halving_interval c in
    let (pos, fits) = interval_fits c in
    let (whole, last) = exact_bound interval h pos in
    rw (total_loop-eq-periods interval (h / interval) fits (omega arith), mod64 _ low) (omega arith)

reward-eq-q :
    (c : ChainType) (h : ℕ)
    → h / halving_interval c < 64
    → reward c h 0 ≡ q (h / halving_interval c)
unfolding reward
reward-eq-q c h low = rw (lt→not_leb 64 _ low, mod64 _ low) (omega arith)

sum_rewards-eq-exact :
    (c : ChainType) (h : ℕ)
    → h / halving_interval c < 64
    → sum_rewards c h ≡ exact (halving_interval c) h
sum_rewards-eq-exact c zero low =
    let (pos, fits) = interval_fits c in
    let d : 0 / halving_interval c ≡ 0 = div-eq_of_lt pos in
    let m : 0 % halving_interval c ≡ 0 = mod-eq_of_lt pos in rw (reward-eq-q c 0 low, d, m) refl
sum_rewards-eq-exact c (suc h) low =
    let interval = halving_interval c in
    let (pos, fits) = interval_fits c in
    let low' : h / interval < 64 = elim (next_height interval h pos) [
      | inl (d, m) ↦ omega arith
      | inr (d, m, top) ↦ omega arith
    ] in
    rw (sum_rewards-eq-exact c h low', reward-eq-q c (suc h) low) (sym (exact-suc interval h pos))

first_reward : (c : ChainType) → reward c 0 0 ≡ subsidy
first_reward c =
    let (pos, fits) = interval_fits c in
    let d : 0 / halving_interval c ≡ 0 = div-eq_of_lt pos in
    reward-eq-q c 0 (omega arith) ∙ rw d refl

first_reward-le : (c : ChainType) (h : ℕ) → reward c 0 0 ≤ sum_rewards c h
first_reward-le c zero = omega arith
first_reward-le c (suc h) = omega (arith, first_reward-le c h)

without_genesis :
    (c : ChainType) (h : ℕ) → total_reward c h false ≡ sub64 (total_reward c h true) subsidy
unfolding total_reward
without_genesis c h = refl

-- Before the 64th halving (mainnet: below height 13,440,000) the total up to a height is the sum
-- of the rewards, at fee 0, of every block from the genesis block to that height; where the
-- genesis block had no reward, the first block's reward is taken off that sum.
pub total_reward-eq-sum_rewards :
    (c : ChainType) (h : ℕ)
    → h / halving_interval c < 64
    → (total_reward c h true ≡ sum_rewards c h)
      × (total_reward c h false + reward c 0 0 ≡ sum_rewards c h)
total_reward-eq-sum_rewards c h low =
    let interval = halving_interval c in
    let (pos, fits) = interval_fits c in
    let same : total_reward c h true ≡ sum_rewards c h =
      total_reward-eq-exact c h low ∙ sym (sum_rewards-eq-exact c h low) in
    let (bound, _) = exact_bound interval h pos in
    (
      same,
      rw (without_genesis c h, same)
          (omega (arith, first_reward-le c h, first_reward c, sum_rewards-eq-exact c h low)),
    )
