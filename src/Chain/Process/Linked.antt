-- ===== src/Chain/Process/Linked.antt =====
-- The headers of the store are linked: each is one height above its predecessor, which is in the store.
use mathlib.Core.Path.{subst}
use vcash.Prelude.{
  find, ℕ, zero, suc, ◌+◌, ◌<◌, ◌≡◌, refl, sym, ap, ◌∙◌, ◌⊎◌, inl, inr, Bool, true, false, not,
  ◌&&◌, List, [], ◌∷◌, All, last, Result, ok, ◌>>=◌, ltb, ◌==◌, ==→eq, ltb→lt, not_ltb→le, lt→ltb,
  u64_mod, arith, Bool-cases, Option, none, some,
}
use vcash.Consensus.Params.{ChainType}
use vcash.Chain.Types.{
  BlockHeader, Block, Tip, ChainError, Batch, Env, Context, or_not_found, from_header, save_block,
}
use vcash.Chain.Header.{or_orphan, validate_header}
use vcash.Chain.Header.Valid.{validate_header-IsNext}
use vcash.Chain.Fork.{header_head, extending, rewind_and_apply_header_fork, fork_loop}
use vcash.Chain.Process.{
  seen_header, add_block_header, process_block_header, validate_block, extend_block, set_tail,
  store_block, admit_block, process_block, store_headers, sync_to, sync_block_headers,
}
use vcash.Chain.Process.Head.{
  IsHeaderStep, process_block_header-IsHeaderStep, then_try-either, after-either, extending-IsSame,
  extend_block-IsSame, header_extending-batch,
}

module _ (env : Env) where
  abbrev pub parent : BlockHeader → List BlockHeader → Option BlockHeader
  parent x all = find (λ (y : BlockHeader). env.hash y == x.prev_hash) all

  -- A header of height 0, or one with a predecessor among the headers, one height below.
  abbrev pub IsLinkedTo : List BlockHeader → BlockHeader → Type 0
  IsLinkedTo all x =
      (x.height < u64_mod)
      × ((x.height ≡ 0)
          ⊎ ((p : BlockHeader) × ((parent x all ≡ some p) × (x.height ≡ suc p.height))))

  unfoldable pub IsLinked : List BlockHeader → Type 0
  IsLinked all = All (IsLinkedTo all) all

  find-All {κ} :
      (P : BlockHeader → Type κ) (test : BlockHeader → Bool) (p : BlockHeader)
      (all : List BlockHeader)
      → find test all ≡ some p
      → All P all
      → (test p ≡ true) × P p
  find-All P test p [] e ps = absurd (cc)
  find-All P test p (x ∷ xs) e (q, ps) = elim (Bool-cases (test x)) [
    | inl t ↦
        let found : some x ≡ some p = rw t at e in
        let same : x ≡ p = cc in (ap test (sym same) ∙ t, subst P same q)
    | inr f ↦ find-All P test p xs (rw f at e) ps
  ]

  module _
      (collision_free : (x y : BlockHeader) → env.hash x ≡ env.hash y → x.height ≡ y.height) where
    unit_All : (all : List BlockHeader) → All (λ _. Unit {0}) all
    unit_All [] = tt
    unit_All (x ∷ xs) = (tt, unit_All xs)

    -- A new header may take the place of a predecessor, but not at another height.
    linked_after :
        (h : BlockHeader) (all : List BlockHeader) (x : BlockHeader)
        → IsLinkedTo all x
        → IsLinkedTo (h ∷ all) x
    linked_after h all x (fits, inl z) = (fits, inl z)
    linked_after h all x (fits, inr (p, (e, up))) = elim (Bool-cases (env.hash h == x.prev_hash)) [
      | inl t ↦
          let (hit, u) =
            find-All (λ _. Unit {0}) (λ y. env.hash y == x.prev_hash) p all e (unit_All all) in
          let level =
            collision_free h p
              (==→eq (env.hash h) x.prev_hash t ∙ sym (==→eq (env.hash p) x.prev_hash hit)) in
          (fits, inr (h, (rw t refl, omega (arith, up, level))))
      | inr f ↦ (fits, inr (p, (rw f e, up)))
    ]

    link_each :
        (h : BlockHeader) (all xs : List BlockHeader)
        → All (IsLinkedTo all) xs
        → All (IsLinkedTo (h ∷ all)) xs
    link_each h all [] ps = tt
    link_each h all (x ∷ xs) (p, ps) = (linked_after h all x p, link_each h all xs ps)

    with_header :
        (h : BlockHeader) (all : List BlockHeader)
        → IsLinkedTo all h
        → IsLinked all
        → IsLinked (h ∷ all)
    unfolding IsLinked
    with_header h all l ps = (linked_after h all h l, link_each h all all ps)

    or_orphan-ok :
        (chain : ChainType) (o : Option BlockHeader) (p : BlockHeader)
        → or_orphan chain env (or_not_found o) ≡ ok p
        → o ≡ some p
    or_orphan-ok chain none p e = absurd (cc)
    or_orphan-ok chain (some x) p e = let same : x ≡ p = cc in ap some same

    valid_linked :
        (chain : ChainType) (header : BlockHeader) (c : Context env)
        → validate_header chain env header c ≡ ok tt
        → IsLinked c.batch.headers
        → IsLinkedTo c.batch.headers header
    unfolding IsLinked
    valid_linked chain header c e linked =
        let (prev, (found, (next, mined))) = validate_header-IsNext chain env header c e in
        let hit = or_orphan-ok chain (parent header c.batch.headers) prev found in
        let (t, (small, rest)) =
          find-All (IsLinkedTo c.batch.headers) _ prev c.batch.headers hit linked in
        elim (Bool-cases (ltb (prev.height + 1) u64_mod)) [
          | inl fits ↦ (
            omega (arith, next.height, ltb→lt (prev.height + 1) u64_mod fits),
            inr (prev, (hit, omega (arith, next.height, ltb→lt (prev.height + 1) u64_mod fits))),
          )
          | inr over ↦ (
            omega (arith, next.height, small, not_ltb→le (prev.height + 1) u64_mod over),
            inl (omega (arith, next.height, small, not_ltb→le (prev.height + 1) u64_mod over)),
          )
        ]

    header_step-IsLinked :
        (chain : ChainType) (header : BlockHeader) (b b' : Batch)
        → IsHeaderStep chain env header b b'
        → IsLinked b.headers
        → IsLinked b'.headers
    header_step-IsLinked chain header b b' step linked = elim (step.headers) [
      | inl same ↦ subst IsLinked (sym same) linked
      | inr saved ↦
          let here = subst IsLinked (sym saved.same) linked in
          let to =
            subst (λ l. IsLinkedTo l header) saved.same
              (valid_linked chain header saved.context saved.valid here) in
          subst IsLinked (sym saved.headers) (with_header header b.headers to linked)
    ]

    module _ (chain : ChainType) where
      LinkedAfter : {A : Type 0} → Result ChainError A × Context env → Type 0
      LinkedAfter r = IsLinked r.1.batch.headers

      store_block-headers :
          (b : Block) (tip : Tip) (c : Context env)
          → (store_block chain env b tip c).1.batch.headers ≡ c.batch.headers
      store_block-headers b tip c =
          let kept =
            set_tail-headers (from_header env b.header) (save_block env b c.batch)
              c.batch.tail_tip in
          elim (Bool-cases (ltb tip.height b.header.height)) [
            | inl higher ↦ rw higher kept
            | inr lower ↦ rw lower kept
          ]
        where
          set_tail-headers :
              (tip : Tip) (batch : Batch) (o : Option Tip)
              → (set_tail chain env tip batch o).headers ≡ batch.headers
          set_tail-headers tip batch none = refl
          set_tail-headers tip batch (some t) = refl

      process_block-linked :
          (b : Block) (c : Context env)
          → IsLinked c.batch.headers
          → LinkedAfter (process_block chain env b c)
      unfolding process_block LinkedAfter
      process_block-linked b c linked =
          then_try-either env LinkedAfter (admit_block chain env b c) _ c (λ e. linked)
            (λ a e.
              let x = process_block_header chain env b.header c in
              let here =
                header_step-IsLinked chain b.header c.batch x.1.batch
                  (process_block_header-IsHeaderStep chain env b.header c) linked in
              after-either env LinkedAfter x _ (λ e. here)
                (λ u.
                  let c1 = x.1 in
                  then_try-either env LinkedAfter (validate_block chain env b c1) _ c1 (λ e. here)
                    (λ v f.
                      let y = extending env (extend_block chain env b a.1) c1 in
                      let kept =
                        (extending-IsSame env (extend_block chain env b a.1) c1
                          (extend_block-IsSame chain env b a.1)).headers in
                      let there = subst IsLinked (sym kept) here in
                      after-either env LinkedAfter y _ (λ e. there)
                        (λ w. subst IsLinked (sym (store_block-headers b a.0 y.1)) there))))

      store_headers-linked :
          (headers : List BlockHeader) (c : Context env)
          → IsLinked c.batch.headers
          → LinkedAfter (store_headers chain env headers c)
      unfolding store_headers LinkedAfter
      store_headers-linked [] c linked = linked
      store_headers-linked (header ∷ headers) c linked =
          then_try-either env LinkedAfter (validate_header chain env header c) _ c (λ e. linked)
            (λ u valid. store_headers-linked headers (add_block_header chain env header c) (
              with_header header c.batch.headers (valid_linked chain header c valid linked) linked))

      sync_block_headers-linked :
          (headers : List BlockHeader) (c : Context env)
          → IsLinked c.batch.headers
          → LinkedAfter (sync_block_headers chain env headers c)
      unfolding sync_block_headers LinkedAfter
      sync_block_headers-linked headers c linked = synced (last headers)
        where
          synced :
              (o : Option BlockHeader)
              → LinkedAfter (elim o as (λ _. Result ChainError (Unit {0}) × Context env) [
                | none ↦ (ok tt, c)
                | some last_header ↦ sync_to chain env headers last_header c
              ])
          synced none = linked
          synced (some l) =
              then_try-either env LinkedAfter (header_head env c) _ c (λ e. linked)
                (λ tip e. elim (Bool-cases (seen_header chain env l tip c.batch)) [
                  | inl seen ↦ rw seen linked
                  | inr unseen ↦
                      let x = store_headers chain env headers c in
                      let there = store_headers-linked headers c linked in
                      rw unseen (
                        after-either env LinkedAfter x _ (λ e. there)
                          (λ u.
                            subst IsLinked
                              (sym (
                                ap (λ (y : Batch). y.headers)
                                  (header_extending-batch env
                                    (λ h batch. rewind_and_apply_header_fork env l batch h >>= λ h'.
                                      ok (h', false))
                                    x.1)))
                              there))
                ])

      -- The headers of the store stay linked, whatever block, header or chunk of headers is processed and
      -- whether it is accepted or not; if headers of one hash have one height.
      pub process-IsLinked :
          (b : Block) (header : BlockHeader) (headers : List BlockHeader) (c : Context env)
          → IsLinked c.batch.headers
          → IsLinked (process_block chain env b c).1.batch.headers
            × (IsLinked (process_block_header chain env header c).1.batch.headers
                × IsLinked (sync_block_headers chain env headers c).1.batch.headers)
      unfolding LinkedAfter
      process-IsLinked b header headers c linked = (
        process_block-linked b c linked,
        (
          header_step-IsLinked chain header c.batch
              (process_block_header chain env header c).1.batch
              (process_block_header-IsHeaderStep chain env header c) linked,
          sync_block_headers-linked headers c linked,
        ),
      )

  -- Where a walk back ends: at height 0, or on the current chain.
  abbrev pub IsForkPoint : Batch → env.H → BlockHeader → Type 0
  IsForkPoint batch h x = (x.height ≡ 0) ⊎ (env.is_on_current_chain x batch h ≡ true)

  fork_point :
      (height : ℕ) (on : Bool) → (ltb 0 height && not on) ≡ false → (height ≡ 0) ⊎ (on ≡ true)
  fork_point height true e = inr refl
  fork_point zero false e = inl refl
  fork_point (suc n) false e =
      let up : ltb 0 (suc n) ≡ true = lt→ltb 0 (suc n) (omega arith) in
      let clash : true ≡ false = rw up at e in absurd (cc)

  and_cases : (a b : Bool) → (a && b) ≡ true → a ≡ true
  and_cases true b e = refl
  and_cases false b e = absurd (cc)

  fork_loop-ends :
      (fuel : ℕ) (current : BlockHeader) (hashes : List ℕ) (batch : Batch) (h : env.H)
      → current.height < fuel
      → IsLinkedTo batch.headers current
      → IsLinked batch.headers
      → (r : BlockHeader × List ℕ) × ((fork_loop env fuel current hashes batch h ≡ ok r)
          × IsForkPoint batch h r.0)
  unfolding fork_loop IsLinked
  fork_loop-ends zero current hashes batch h lt l linked = absurd (omega arith)
  fork_loop-ends (suc fuel) current hashes batch h lt (fits, l) linked =
      elim (Bool-cases (ltb 0 current.height && not (env.is_on_current_chain current batch h))) [
        | inl back ↦ elim l [
          | inl z ↦ absurd (omega (arith, ltb→lt 0 current.height (and_cases _ _ back)))
          | inr (p, (e, up)) ↦
              let (t, to) = find-All (IsLinkedTo batch.headers) _ p batch.headers e linked in
              let (r, (f, point)) =
                fork_loop-ends fuel p (env.hash current ∷ hashes) batch h (omega (arith, up)) to
                  linked in
              (r, (rw (back, e) f, point))
        ]
        | inr done ↦ (
          (current, hashes),
          (rw done refl, fork_point current.height (env.is_on_current_chain current batch h) done),
        )
      ]

  -- In a linked store, the walk back from a linked header ends within its height and one rounds, at a
  -- header of height 0 or one on the current chain.
  pub fork_loop-IsForkPoint :
      (current : BlockHeader) (hashes : List ℕ) (batch : Batch) (h : env.H)
      → IsLinkedTo batch.headers current
      → IsLinked batch.headers
      → (r : BlockHeader × List ℕ) × ((fork_loop env (suc current.height) current hashes batch h
            ≡ ok r)
          × IsForkPoint batch h r.0)
  fork_loop-IsForkPoint current hashes batch h l linked =
      fork_loop-ends (suc current.height) current hashes batch h (omega arith) l linked
