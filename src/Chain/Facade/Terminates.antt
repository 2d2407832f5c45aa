-- ===== src/Chain/Facade/Terminates.antt =====
-- Taking up orphans comes to an end.
use vcash.Prelude.{
  is_ok, ℕ, zero, suc, ◌+◌, ◌≤◌, ◌<◌, ◌≡◌, refl, inl, inr, Bool, true, false, List, [], ◌∷◌, length,
  length-filter, All, Option, none, some, Result, ok, err, arith, if◌then◌else◌, wrap64, u64_mod,
  Bool-cases, leb,
}
use mathlib.Core.Path.{subst}
use vcash.Consensus.Params.{ChainType}
use vcash.Chain.Types.{BlockHeader, Block, Tip, ChainError, Env, Context, head}
use vcash.Chain.Process
use vcash.Chain.Orphans.{Options, Orphan, OrphanBlockPool, remove_by_height}
use vcash.Chain.Orphans.Placed.{above, IsPlaced, add-IsPlaced, remove_by_height-IsTaken}
use vcash.Chain.Facade.{
  Chain, BlockError, with_opts, new_ctx, dropped, refuse, conclude, process_block_single,
  process_orphans, check_orphans, process_block,
}

module _ (chain : ChainType) (env : Env) (clock : ℕ → ℕ) where
  -- The orphans stay placed, and no more heights above the given one have any.
  record Keeps (n : ℕ) (before : OrphanBlockPool) (after : OrphanBlockPool) : Type 0 where
    pub placed : IsPlaced env.hash after
    pub no_more : above (suc n) after.height_idx ≤ above (suc n) before.height_idx

  refuse-Keeps :
      (n : ℕ) (b : Block) (opts : Options) (e : ChainError) (c : Chain env)
      → b.header.height ≡ n
      → n + 1 < u64_mod
      → IsPlaced env.hash c.orphans
      → Keeps n c.orphans (refuse chain env clock b opts e c).orphans
  unfolding refuse
  refuse-Keeps n b opts ChainError.orphan c level small placed =
      let o : Orphan = record { block = b; opts = opts; added = clock c.reads } in
      let (there, less) =
        add-IsPlaced env.hash (clock (suc c.reads)) o c.orphans (omega (arith, level)) placed in
      let after : OrphanBlockPool = (refuse chain env clock b opts ChainError.orphan c).orphans in
      record {
        placed = there;
        no_more =
            subst (λ m. above (suc m) after.height_idx ≤ above (suc m) c.orphans.height_idx) level
              less;
      }
  refuse-Keeps n b opts e c level small placed = record { placed = placed; no_more = omega arith }

  single-Keeps :
      (n : ℕ) (b : Block) (opts : Options) (c : Chain env)
      → b.header.height ≡ n
      → n + 1 < u64_mod
      → IsPlaced env.hash c.orphans
      → Keeps n c.orphans (process_block_single chain env clock b opts c).1.orphans
  unfolding process_block_single
  single-Keeps n b opts c level small placed = started (head env c.store)
    where
      concluded :
          (prev_head : Tip)
          (y : Result ChainError (Option Tip) × Context (with_opts chain env clock opts))
          → Keeps n c.orphans (conclude chain env clock b opts prev_head c y).1.orphans
      concluded prev_head (ok new_head, x) = record { placed = placed; no_more = omega arith }
      concluded prev_head (err e, x) =
          refuse-Keeps n b opts e (dropped chain env clock opts x c) level small placed

      started :
          (h : Result ChainError Tip)
          → Keeps n c.orphans
              (elim h as (λ _. Result BlockError (Option Tip) × Chain env) [
                | err e ↦ (err (BlockError.kept e), c)
                | ok prev_head ↦ conclude chain env clock b opts prev_head c (
                    Process.process_block chain
                      (with_opts chain env clock opts)
                      b
                      (new_ctx chain env clock opts c.header_pmmr c))
              ]).1.orphans
      started (err e) = record { placed = placed; no_more = omega arith }
      started (ok prev_head) = concluded prev_head _

  chosen :
      (b : Bool) (n h : ℕ) (a : ℕ × Bool) → h ≡ n → a.0 ≡ n → (if b then (h, true) else a).0 ≡ n
  chosen true n h a e f = e
  chosen false n h a e f = f

  orphans-Keeps :
      (n : ℕ) (os : List Orphan) (a : ℕ × Bool) (c : Chain env)
      → All (λ (o : Orphan). o.block.header.height ≡ n) os
      → a.0 ≡ n
      → n + 1 < u64_mod
      → IsPlaced env.hash c.orphans
      → ((process_orphans chain env clock os a c).0.0 ≡ n)
        × Keeps n c.orphans (process_orphans chain env clock os a c).1.orphans
  unfolding process_orphans
  orphans-Keeps n [] a c levels at small placed =
      (at, record { placed = placed; no_more = omega arith })
  orphans-Keeps n (o ∷ os) a c (level, levels) at small placed =
      let r = process_block_single chain env clock o.block o.opts c in
      let kept = single-Keeps n o.block o.opts c level small placed in
      let (there, rest) =
        orphans-Keeps n os (if is_ok r.0 then (o.block.header.height, true) else a) (r.1) levels
          (chosen (is_ok r.0) n o.block.header.height a level at) small kept.placed in
      (there, record { placed = rest.placed; no_more = omega (arith, kept.no_more, rest.no_more) })

  module _
      (collision_free : (x y : BlockHeader) → env.hash x ≡ env.hash y → x.height ≡ y.height) where
    Finishes : Option (Chain env) → Type 0
    Finishes o = (c : Chain env) × ((o ≡ some c) × IsPlaced env.hash c.orphans)

    -- Each round is one height higher, and leaves fewer heights with orphans from there on.
    check_orphans-ends :
        (fuel n : ℕ) (c : Chain env)
        → above n c.orphans.height_idx < fuel
        → IsPlaced env.hash c.orphans
        → Finishes (check_orphans chain env clock fuel n c)
    unfolding check_orphans Finishes
    check_orphans-ends zero n c lt placed = absurd (omega arith)
    check_orphans-ends (suc fuel) n c lt placed =
        popped (λ h d. check_orphans-ends fuel h d) (remove_by_height n c.orphans) refl
      where
        Again : Type 0
        Again =
            (h : ℕ) (d : Chain env)
            → above h d.orphans.height_idx < fuel
            → IsPlaced env.hash d.orphans
            → Finishes (check_orphans chain env clock fuel h d)

        went_on :
            Again
            → (r : (ℕ × Bool) × Chain env) (b : Bool) → wrap64 (r.0.0 + 1) ≡ suc n
            → IsPlaced env.hash r.1.orphans
            → above (suc n) r.1.orphans.height_idx < fuel
            → Finishes (elim b as (λ _. Option (Chain env)) [
              | true ↦ check_orphans chain env clock fuel (wrap64 (r.0.0 + 1)) r.1
              | false ↦ some r.1
            ])
        went_on again r true up p few = rw up (again (suc n) (r.1) few p)
        went_on again r false up p few = (r.1, (refl, p))

        popped :
            Again
            → (o : Option (List Orphan × OrphanBlockPool)) → remove_by_height n c.orphans ≡ o
            → Finishes (elim o as (λ _. Option (Chain env)) [
              | none ↦ some c
              | some taken ↦
                  let r =
                    process_orphans chain env clock taken.0
                      (n, false)
                      (record c { orphans = taken.1 }) in
                  elim (r.0.1) as (λ _. Option (Chain env)) [
                    | true ↦ check_orphans chain env clock fuel (wrap64 (r.0.0 + 1)) r.1
                    | false ↦ some r.1
                  ]
            ])
        popped again none g = (c, (refl, placed))
        popped again (some t) g =
            let d : Chain env = record c { orphans = t.1 } in
            let r = process_orphans chain env clock t.0 (n, false) d in
            let taken = remove_by_height-IsTaken env.hash collision_free n c.orphans t g placed in
            let (level, kept) =
              orphans-Keeps n (t.0) (n, false) d taken.level refl taken.small taken.placed in
            let up : wrap64 (r.0.0 + 1) ≡ suc n = rw level (omega (arith, taken.small)) in
            went_on again r (r.0.1) up kept.placed (omega (arith, lt, taken.fewer, kept.no_more))

    -- Processing a block comes to an end, whatever orphans it sets off: with as many rounds as there are
    -- heights with orphans and one more. The orphans are then placed again; if headers of one hash have
    -- one height, and the block's height is below 2^64 - 1.
    pub process_block-ends :
        (b : Block) (opts : Options) (c : Chain env)
        → b.header.height + 1 < u64_mod
        → IsPlaced env.hash c.orphans
        → (r : Result BlockError (Option Tip) × Chain env) × ((process_block chain env clock b opts
                c
              ≡ some r)
            × IsPlaced env.hash r.1.orphans)
    unfolding process_block Finishes
    process_block-ends b opts c small placed =
        let s = process_block_single chain env clock b opts c in
        let kept = (single-Keeps b.header.height b opts c refl small placed).placed in
        let height = wrap64 (b.header.height + 1) in
        elim (Bool-cases (is_ok s.0)) [
          | inl t ↦
              let (d, (e, p)) =
                check_orphans-ends (suc (length s.1.orphans.height_idx)) height (s.1)
                  (omega (
                    arith,
                    length-filter (λ (x : ℕ × List ℕ). leb height x.0) s.1.orphans.height_idx,
                  ))
                  kept in
              ((s.0, d), (rw (t, e) refl, p))
          | inr f ↦ (s, (rw f refl, kept))
        ]
