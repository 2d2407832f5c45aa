-- ===== src/Chain/Facade/Progress.antt =====
-- What stays true of the chain while blocks and orphans are processed.
use vcash.Prelude.{
  is_ok, ℕ, zero, suc, ◌+◌, ◌≤◌, ◌≡◌, refl, sym, ◌∙◌, inl, inr, Bool, true, false, List, [], ◌∷◌,
  length, Option, none, some, some-injective, Result, ok, err, arith, if◌then◌else◌, wrap64,
  Bool-cases,
}
use mathlib.Core.Path.{subst}
use vcash.Consensus.Params.{ChainType}
use vcash.Chain.Types.{BlockHeader, Block, Tip, ChainError, Batch, Env, Context, head, or_not_found}
use vcash.Chain.Process
use vcash.Chain.Process.Head.{IsMove, process_block-IsMove}
use vcash.Chain.Process.Linked.{IsLinked, process-IsLinked}
use vcash.Chain.Orphans.{Options, Orphan, OrphanBlockPool, remove_by_height}
use vcash.Chain.Orphans.Bounds.{IsBounded, add-IsBounded, remove_by_height-IsBounded}
use vcash.Chain.Facade.{
  Chain, BlockError, with_opts, new_ctx, dropped, refuse, conclude, process_block_single,
  process_orphans, check_orphans, with_result, process_block,
}

module _ (env : Env) where
  -- The headers are linked, and there is a head, of at least the given height.
  pub record IsAhead (height : ℕ) (store : Batch) : Type 0 where
    pub linked : IsLinked env store.headers
    pub tip : Tip
    pub is_head : store.head_tip ≡ some tip
    pub above : height ≤ tip.height

module _ (chain : ChainType) (env : Env) (clock : ℕ → ℕ) where
  -- What one block keeps, and taking orphans out of the pool, is kept by a block and its orphans.
  module _ {ℓ} (P : Chain env → Type ℓ)
      (single : (b : Block) (opts : Options) (c : Chain env)
        → P c
        → P (process_block_single chain env clock b opts c).1)
      (taken : (height : ℕ) (c : Chain env) (t : List Orphan × OrphanBlockPool)
        → remove_by_height height c.orphans ≡ some t
        → P c
        → P (record c { orphans = t.1 })) where
    keep_orphans :
        (os : List Orphan) (a : ℕ × Bool) (c : Chain env)
        → P c
        → P (process_orphans chain env clock os a c).1
    unfolding process_orphans
    keep_orphans [] a c p = p
    keep_orphans (o ∷ os) a c p =
        let r = process_block_single chain env clock o.block o.opts c in
        keep_orphans os (if is_ok r.0 then (o.block.header.height, true) else a) r.1
          (single o.block o.opts c p)

    keep_check :
        (fuel height : ℕ) (c c' : Chain env)
        → check_orphans chain env clock fuel height c ≡ some c'
        → P c
        → P c'
    unfolding check_orphans
    keep_check zero height c c' e p = absurd (cc)
    keep_check (suc fuel) height c c' e p =
        popped (λ h d f q. keep_check fuel h d c' f q) (remove_by_height height c.orphans) refl e
      where
        Again : Type ℓ
        Again =
            (h : ℕ) (d : Chain env) → check_orphans chain env clock fuel h d ≡ some c' → P d → P c'

        went_on :
            Again
            → (r : (ℕ × Bool) × Chain env) (b : Bool) → P r.1
            → (elim b as (λ _. Option (Chain env)) [
              | true ↦ check_orphans chain env clock fuel (wrap64 (r.0.0 + 1)) r.1
              | false ↦ some r.1
            ])
              ≡ some c'
            → P c'
        went_on again r true q e = again (wrap64 (r.0.0 + 1)) r.1 e q
        went_on again r false q e = subst P (some-injective e) q

        popped :
            Again
            → (o : Option (List Orphan × OrphanBlockPool)) → remove_by_height height c.orphans ≡ o
            → (elim o as (λ _. Option (Chain env)) [
              | none ↦ some c
              | some taken ↦
                  let r =
                    process_orphans chain env clock taken.0
                      (height, false)
                      (record c { orphans = taken.1 }) in
                  elim (r.0.1) as (λ _. Option (Chain env)) [
                    | true ↦ check_orphans chain env clock fuel (wrap64 (r.0.0 + 1)) r.1
                    | false ↦ some r.1
                  ]
            ])
              ≡ some c'
            → P c'
        popped again none g e = subst P (some-injective e) p
        popped again (some t) g e =
            let d : Chain env = record c { orphans = t.1 } in
            let r = process_orphans chain env clock t.0 (height, false) d in
            went_on again r (r.0.1) (keep_orphans (t.0) (height, false) d (taken height c t g p)) e

    pub keep_block :
        (b : Block) (opts : Options) (c : Chain env)
        (r : Result BlockError (Option Tip) × Chain env)
        → process_block chain env clock b opts c ≡ some r
        → P c
        → P r.1
    unfolding process_block
    keep_block b opts c r e p =
        let s = process_block_single chain env clock b opts c in
        let q = single b opts c p in
        elim (Bool-cases (is_ok s.0)) [
          | inl t ↦ after (s.0) (s.1) q _ refl (rw t at e)
          | inr f ↦
              subst (λ (x : Result BlockError (Option Tip) × Chain env). P x.1)
                (some-injective (rw f at e)) q
        ]
      where
        after :
            (res : Result BlockError (Option Tip)) (d : Chain env)
            → P d
            → (o : Option (Chain env))
            → check_orphans chain env clock
                (suc (length d.orphans.height_idx))
                (wrap64 (b.header.height + 1))
                d
              ≡ o
            → with_result chain env clock res o ≡ some r
            → P r.1
        after res d q none g e = absurd (cc)
        after res d q (some x) g e =
            subst (λ (y : Result BlockError (Option Tip) × Chain env). P y.1) (some-injective e)
              (keep_check _ _ d x g q)

  refuse-IsBounded :
      (b : Block) (opts : Options) (e : ChainError) (c : Chain env)
      → IsBounded c.orphans
      → IsBounded (refuse chain env clock b opts e c).orphans
  unfolding refuse
  refuse-IsBounded b opts ChainError.orphan c p =
      add-IsBounded env.hash (clock (suc c.reads))
        (record { block = b; opts = opts; added = clock c.reads }) c.orphans p
  refuse-IsBounded b opts e c p = p

  single-IsBounded :
      (b : Block) (opts : Options) (c : Chain env)
      → IsBounded c.orphans
      → IsBounded (process_block_single chain env clock b opts c).1.orphans
  unfolding process_block_single
  single-IsBounded b opts c p = started (head env c.store)
    where
      concluded :
          (prev_head : Tip)
          (y : Result ChainError (Option Tip) × Context (with_opts chain env clock opts))
          → IsBounded (conclude chain env clock b opts prev_head c y).1.orphans
      concluded prev_head (ok new_head, x) = p
      concluded prev_head (err e, x) =
          refuse-IsBounded b opts e (dropped chain env clock opts x c) p

      started :
          (h : Result ChainError Tip)
          → IsBounded
              (elim h as (λ _. Result BlockError (Option Tip) × Chain env) [
                | err e ↦ (err (BlockError.kept e), c)
                | ok prev_head ↦ conclude chain env clock b opts prev_head c (
                    Process.process_block chain
                      (with_opts chain env clock opts)
                      b
                      (new_ctx chain env clock opts c.header_pmmr c))
              ]).1.orphans
      started (err e) = p
      started (ok prev_head) = concluded prev_head _

  -- However many orphans come in and are taken up again while a block is processed, the pool never
  -- ends up with more than 200 of them, and each stays indexed.
  pub process_block-IsBounded :
      (b : Block) (opts : Options) (c : Chain env) (r : Result BlockError (Option Tip) × Chain env)
      → process_block chain env clock b opts c ≡ some r
      → IsBounded c.orphans
      → IsBounded r.1.orphans
  process_block-IsBounded =
      keep_block (λ c. IsBounded c.orphans) single-IsBounded
        (λ height c t e p. remove_by_height-IsBounded height c.orphans t e p)

  refuse-store :
      (b : Block) (opts : Options) (e : ChainError) (c : Chain env)
      → (refuse chain env clock b opts e c).store ≡ c.store
  unfolding refuse
  refuse-store b opts ChainError.orphan c = refl
  refuse-store b opts e c = refl

  -- Where the store has a head, the block goes to the pipeline.
  pub process_block_single-at_head :
      (b : Block) (opts : Options) (c : Chain env) (tip : Tip)
      → c.store.head_tip ≡ some tip
      → process_block_single chain env clock b opts c
        ≡ conclude chain env clock b opts tip c (
            Process.process_block chain
              (with_opts chain env clock opts)
              b
              (new_ctx chain env clock opts c.header_pmmr c))
  unfolding process_block_single
  process_block_single-at_head b opts c tip e = started c.store.head_tip e
    where
      started :
          (o : Option Tip)
          → o ≡ some tip
          → (elim (or_not_found o) as (λ _. Result BlockError (Option Tip) × Chain env) [
            | err e ↦ (err (BlockError.kept e), c)
            | ok prev_head ↦ conclude chain env clock b opts prev_head c (
                Process.process_block chain
                  (with_opts chain env clock opts)
                  b
                  (new_ctx chain env clock opts c.header_pmmr c))
          ])
            ≡ conclude chain env clock b opts tip c (
                Process.process_block chain
                  (with_opts chain env clock opts)
                  b
                  (new_ctx chain env clock opts c.header_pmmr c))
      started none e = absurd (cc)
      started (some t) e = rw (some-injective e) refl

  module _
      (collision_free : (x y : BlockHeader) → env.hash x ≡ env.hash y → x.height ≡ y.height) where
    single-IsAhead :
        (least : ℕ) (b : Block) (opts : Options) (c : Chain env)
        → IsAhead env least c.store
        → IsAhead env least (process_block_single chain env clock b opts c).1.store
    unfolding IsLinked
    single-IsAhead least b opts c p =
        subst (λ (y : Result BlockError (Option Tip) × Chain env). IsAhead env least y.1.store)
          (sym (process_block_single-at_head b opts c p.tip p.is_head))
          (concluded (Process.process_block chain env' b x)
            (process_block-IsMove chain env' b p.tip x p.is_head)
            ((process-IsLinked env' collision_free chain b b.header [] x p.linked).0))
      where
        env' : Env
        env' = with_opts chain env clock opts

        x : Context env'
        x = new_ctx chain env clock opts c.header_pmmr c

        concluded :
            (y : Result ChainError (Option Tip) × Context env')
            → IsMove chain env' b p.tip c.store y
            → IsLinked env y.1.batch.headers
            → IsAhead env least (conclude chain env clock b opts p.tip c y).1.store
        concluded (ok (some tip), y) move linked = record {
          linked = linked;
          tip = tip;
          is_head = move.1.0;
          above = omega (arith, p.above, move.1.1);
        }
        concluded (ok none, y) move linked = record {
          linked = linked;
          tip = p.tip;
          is_head = move.0 ∙ p.is_head;
          above = p.above;
        }
        concluded (err e, y) move linked =
            let still : (refuse chain env clock b opts e d).store ≡ c.store =
              refuse-store b opts e d in
            rw still p
          where
            d : Chain env
            d = dropped chain env clock opts y c

    -- Through a block and all the orphans that follow it, accepted or not, the headers of the store
    -- stay linked and the head never falls below a height that it had reached; if headers of one hash
    -- have one height.
    pub process_block-IsAhead :
        (least : ℕ) (b : Block) (opts : Options) (c : Chain env)
        (r : Result BlockError (Option Tip) × Chain env)
        → process_block chain env clock b opts c ≡ some r
        → IsAhead env least c.store
        → IsAhead env least r.1.store
    process_block-IsAhead least =
        keep_block (λ c. IsAhead env least c.store) (single-IsAhead least) (λ height c t e p. p)
