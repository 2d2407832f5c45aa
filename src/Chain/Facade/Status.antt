-- ===== src/Chain/Facade/Status.antt =====
-- What the adapter is told of a block that was accepted.
use vcash.Prelude.{
  ℕ, ◌+◌, ◌-◌, ◌≤◌, ◌<◌, ◌≡◌, ◌≢◌, refl, sym, ap, ◌∙◌, ◌⊎◌, inl, inr, ◌∷◌, Option, none, some,
  Result, ok, err, ok-injective, ◌==◌, ==→eq, not_==→ne, arith, wrap64, Bool-cases,
}
use mathlib.Core.Path.{subst}
use vcash.Consensus.Params.{ChainType}
use vcash.Chain.Types.{Block, Tip, ChainError, Env, Context}
use vcash.Chain.Process
use vcash.Chain.Process.Head.{IsMove, process_block-IsMove}
use vcash.Chain.Orphans.{Options}
use vcash.Chain.Facade.{
  Chain, BlockError, BlockStatus, next, fork, reorg, with_opts, new_ctx, conclude, determine_status,
  process_block_single,
}
use vcash.Chain.Facade.Progress.{process_block_single-at_head}

-- The status of a block that was accepted on the head `old`, with the new head if there is one.
abbrev pub IsNoted : Block → Tip → Option Tip → BlockStatus → Type 0
IsNoted b old none s = (s ≡ fork) × (b.header.height ≤ old.height)
IsNoted b old (some tip) s =
    ((b.header.prev_hash ≡ old.last_block_h) × (s ≡ next))
    ⊎ ((b.header.prev_hash ≢ old.last_block_h) × (s ≡ reorg 1))

-- The depth that is computed where the new head is the higher one.
depth_one : (old new : ℕ) → old < new → wrap64 (old - new + 1) ≡ 1
depth_one old new lt = let e : old - new + 1 ≡ 1 = omega arith in rw e refl

module _ (chain : ChainType) (env : Env) (clock : ℕ → ℕ) where
  head-IsNoted :
      (b : Block) (old tip : Tip)
      → tip.prev_block_h ≡ b.header.prev_hash
      → old.height < tip.height
      → IsNoted b old (some tip) (determine_status (some tip) old)
  unfolding determine_status
  head-IsNoted b old tip e lt = elim (Bool-cases (tip.prev_block_h == old.last_block_h)) [
    | inl same ↦ rw same (inl (sym e ∙ ==→eq tip.prev_block_h old.last_block_h same, refl))
    | inr other ↦
        rw (other, depth_one old.height tip.height lt)
          (inr ((λ same. not_==→ne tip.prev_block_h old.last_block_h other (e ∙ same)), refl))
  ]

  -- A block that is accepted is told to the adapter once: as a fork, and then it is no higher than the
  -- head; as the next block, if it is the child of the head; and else as a reorganisation, always of
  -- depth 1, however far back the two chains part.
  pub process_block_single-IsNoted :
      (b : Block) (opts : Options) (c : Chain env) (old : Tip) (o : Option Tip)
      → c.store.head_tip ≡ some old
      → (process_block_single chain env clock b opts c).0 ≡ ok o
      → (s : BlockStatus) × (((process_block_single chain env clock b opts c).1.accepted
            ≡ (b, s, opts) ∷ c.accepted)
          × IsNoted b old o s)
  unfolding determine_status
  process_block_single-IsNoted b opts c old o at_old e =
      subst Noted (sym single) (noted _ (process_block-IsMove chain env' b old x at_old)) e
    where
      env' : Env
      env' = with_opts chain env clock opts

      x : Context env'
      x = new_ctx chain env clock opts c.header_pmmr c

      single :
          process_block_single chain env clock b opts c
          ≡ conclude chain env clock b opts old c (Process.process_block chain env' b x)
      single = process_block_single-at_head chain env clock b opts c old at_old

      Noted : Result BlockError (Option Tip) × Chain env → Type 0
      Noted r =
          r.0 ≡ ok o
          → (s : BlockStatus) × ((r.1.accepted ≡ (b, s, opts) ∷ c.accepted) × IsNoted b old o s)

      noted :
          (y : Result ChainError (Option Tip) × Context env')
          → IsMove chain env' b old c.store y
          → Noted (conclude chain env clock b opts old c y)
      noted (err e, y) move f = absurd (cc)
      noted (ok none, y) move f =
          subst
            (λ (t : Option Tip).
              (s : BlockStatus) × (((b, fork, opts) ∷ c.accepted ≡ (b, s, opts) ∷ c.accepted)
                × IsNoted b old t s))
            (ok-injective _ _ f) (fork, (refl, (refl, move.1)))
      noted (ok (some tip), y) move f =
          subst
            (λ (t : Option Tip).
              (s : BlockStatus) × (((b, determine_status (some tip) old, opts) ∷ c.accepted
                  ≡ (b, s, opts) ∷ c.accepted)
                × IsNoted b old t s))
            (ok-injective _ _ f)
            (
              determine_status (some tip) old,
              (refl, head-IsNoted b old tip (ap (λ (t : Tip). t.prev_block_h) move.0) move.1.1),
            )
