-- ===== src/Chain/Process/Head.antt =====
-- How a call of the pipeline changes the head and the headers of the store.
use mathlib.Core.Path.{subst}
use vcash.Prelude.{
  is_ok, ℕ, suc, ◌≤◌, ◌<◌, ◌≡◌, refl, sym, ap, ◌∙◌, ◌⊎◌, inl, inr, Bool, true, false, not, List, [],
  ◌∷◌, Result, ok, err, bind-ok, ok-injective, ltb, ltb→lt, not_ltb→le, Bool-cases, Option, none,
  some,
}
use vcash.Consensus.Params.{ChainType}
use vcash.Chain.Types.{
  BlockHeader, Block, Tip, ChainError, Batch, Env, Context, get_previous_header, get_block,
  get_sums, head, from_header, save_block, head_header, or_not_found,
}
use vcash.Chain.Header.{check_known, prev_header_store, validate_header, validate_pow_only}
use vcash.Chain.Fork.{
  Action, then_try, after, header_head, mmr_head, commit_headers, commit, header_extending,
  extending, rewind_and_apply_header_fork, rewind_and_apply_fork, verify_and_apply, apply_blocks,
  fork_loop, blocks_loop, verify_block_sums, verify_block_token_sums, apply_block_to_txhashset,
}
use vcash.Chain.Process.{
  seen_header, extend_header, accept_header, process_block_header, not_orphan, validate_old_aux,
  validate_block, extend_block, set_tail, store_block, admit_block, process_checked, process_block,
}

-- The head, the tail and the headers are the same.
pub record IsSame (b : Batch) (b' : Batch) : Type 0 where
  pub head_tip : b'.head_tip ≡ b.head_tip
  pub headers : b'.headers ≡ b.headers

IsSame-refl : (b : Batch) → IsSame b b
IsSame-refl b = record { head_tip = refl; headers = refl }

IsSame-trans : (b c d : Batch) → IsSame b c → IsSame c d → IsSame b d
IsSame-trans b c d s t = record {
  head_tip = t.head_tip ∙ s.head_tip;
  headers = t.headers ∙ s.headers;
}

module _ (env : Env) where
  verify_and_apply-IsSame :
      (b : Block) (h : env.H) (s s' : Batch × env.T)
      → verify_and_apply env b h s ≡ ok s'
      → IsSame s.0 s'.0
  unfolding verify_and_apply
  verify_and_apply-IsSame b h (batch, t) s' e =
      let (u1, (e1, k1)) = bind-ok (env.verify_coinbase_maturity b batch h t) _ s' e in
      let (u2, (e2, k2)) = bind-ok (env.validate_utxo b batch h t) _ s' k1 in
      let (batch1, (e3, k3)) = bind-ok (verify_block_sums env b batch) _ s' k2 in
      let (batch2, (e4, k4)) = bind-ok (verify_block_token_sums env b batch1) _ s' k3 in
      let (t', (e5, k5)) = bind-ok (apply_block_to_txhashset env b batch2 t) _ s' k4 in
      let (x, (f1, g1)) = bind-ok (get_sums b.header.prev_hash batch.block_sums) _ batch1 e3 in
      let (y, (f2, g2)) = bind-ok (env.verify_kernel_sums x b) _ batch1 g1 in
      let (z, (f3, g3)) =
        bind-ok (get_sums b.header.prev_hash batch1.block_token_sums) _ batch2 e4 in
      let (w, (f4, g4)) = bind-ok (env.verify_token_kernel_sum z b) _ batch2 g3 in
      let same1 =
        subst (λ d. IsSame batch d) (ok-injective _ _ g2)
          (record { head_tip = refl; headers = refl }) in
      let same2 =
        subst (λ d. IsSame batch1 d) (ok-injective _ _ g4)
          (record { head_tip = refl; headers = refl }) in
      subst (λ (d : Batch × env.T). IsSame batch d.0) (ok-injective _ _ k5)
        (IsSame-trans batch batch1 batch2 same1 same2)

  apply_blocks-IsSame :
      (hashes : List ℕ) (h : env.H) (s s' : Batch × env.T)
      → apply_blocks env hashes h s ≡ ok s'
      → IsSame s.0 s'.0
  unfolding apply_blocks
  apply_blocks-IsSame [] h s s' e =
      subst (λ (d : Batch × env.T). IsSame s.0 d.0) (ok-injective _ _ e) (IsSame-refl s.0)
  apply_blocks-IsSame (hash ∷ hashes) h s s' e =
      let (fb, (e1, k1)) = bind-ok (get_block env hash s.0) _ s' e in
      let (s1, (e2, k2)) = bind-ok (verify_and_apply env fb h s) _ s' k1 in
      IsSame-trans s.0 s1.0 s'.0 (verify_and_apply-IsSame fb h s s1 e2)
        (apply_blocks-IsSame hashes h s1 s' k2)

  rewind_and_apply_fork-IsSame :
      (header : BlockHeader) (h : env.H) (s : Batch × env.T) (r : env.H × (Batch × env.T))
      → rewind_and_apply_fork env header h s ≡ ok r
      → IsSame s.0 r.1.0
  unfolding rewind_and_apply_fork
  rewind_and_apply_fork-IsSame header h (batch, t) r e =
      let (h', (e1, k1)) = bind-ok (rewind_and_apply_header_fork env header batch h) _ r e in
      let (current, (e2, k2)) = bind-ok (head_header env batch) _ r k1 in
      let (point, (e3, k3)) =
        bind-ok (fork_loop env (suc current.height) current [] batch h') _ r k2 in
      let (t', (e4, k4)) = bind-ok (env.rewind point.0 batch t) _ r k3 in
      let (hashes, (e5, k5)) =
        bind-ok (blocks_loop env (suc header.height) point.0.height header [] batch) _ r k4 in
      let (s, (e6, k6)) = bind-ok (apply_blocks env hashes h' (batch, t')) _ r k5 in
      subst (λ (d : env.H × (Batch × env.T)). IsSame batch d.1.0) (ok-injective _ _ k6)
        (apply_blocks-IsSame hashes h' (batch, t') s e6)

  -- What holds after an error, and after what follows a success, holds in any case.
  pub then_try-either {κ} :
      {A B : Type 0} (P : Result ChainError B × Context env → Type κ) (r : Result ChainError A)
      (k : A → Action env B) (c : Context env)
      → ((e : ChainError) → P (err e, c))
      → ((a : A) → r ≡ ok a → P (k a c))
      → P (then_try env r k c)
  then_try-either P (ok a) k c failed next = next a refl
  then_try-either P (err e) k c failed next = failed e

  pub after-either {κ} :
      {A B : Type 0} (P : Result ChainError B × Context env → Type κ)
      (x : Result ChainError A × Context env) (k : A → Action env B)
      → ((e : ChainError) → P (err e, x.1))
      → ((a : A) → P (k a x.1))
      → P (after env x k)
  after-either P (ok a, c) k failed next = next a
  after-either P (err e, c) k failed next = failed e

  pub header_extending-batch :
      (inner : env.H → Batch → Result ChainError (env.H × Bool)) (c : Context env)
      → (header_extending env inner c).1.batch ≡ c.batch
  unfolding header_extending
  header_extending-batch inner c =
      then_try-either (λ r. r.1.batch ≡ c.batch) (mmr_head env c) _ c (λ e. refl)
        (λ u e. committed (inner c.header_pmmr c.batch))
    where
      committed :
          (r : Result ChainError (env.H × Bool)) → (commit_headers env r c).1.batch ≡ c.batch
      committed (err e) = refl
      committed (ok (h, true)) = refl
      committed (ok (h, false)) = refl

  pub extending-IsSame :
      (inner : env.H → Batch × env.T → Result ChainError ((Batch × env.T) × Bool)) (c : Context env)
      → ((h : env.H) (s : Batch × env.T) (r : (Batch × env.T) × Bool)
          → inner h s ≡ ok r
          → IsSame s.0 r.0.0)
      → IsSame c.batch (extending env inner c).1.batch
  unfolding extending
  extending-IsSame inner c same =
      then_try-either (λ r. IsSame c.batch r.1.batch) (head env c.batch) _ c
        (λ e. IsSame-refl c.batch)
        (λ u e.
          then_try-either (λ r. IsSame c.batch r.1.batch) (header_head env c) _ c
            (λ e. IsSame-refl c.batch)
            (λ v f.
              committed (inner c.header_pmmr (c.batch, c.txhashset))
                (same c.header_pmmr (c.batch, c.txhashset))))
    where
      committed :
          (r : Result ChainError ((Batch × env.T) × Bool))
          → ((x : (Batch × env.T) × Bool) → r ≡ ok x → IsSame c.batch x.0.0)
          → IsSame c.batch (commit env r c).1.batch
      committed (err e) h = IsSame-refl c.batch
      committed (ok (s, true)) h = IsSame-refl c.batch
      committed (ok ((batch, t), false)) h = h ((batch, t), false) refl

module _ (chain : ChainType) (env : Env) where
  -- A header was validated on the same store and saved.
  pub record IsSaved (header : BlockHeader) (b : Batch) (b' : Batch) : Type 0 where
    pub headers : b'.headers ≡ header ∷ b.headers
    pub context : Context env
    pub same : context.batch.headers ≡ b.headers
    pub valid : validate_header chain env header context ≡ ok tt

  pub record IsHeaderStep (header : BlockHeader) (b : Batch) (b' : Batch) : Type 0 where
    pub head_tip : b'.head_tip ≡ b.head_tip
    pub headers : (b'.headers ≡ b.headers) ⊎ IsSaved header b b'

  still : (header : BlockHeader) (b b' : Batch) → b' ≡ b → IsHeaderStep header b b'
  still header b b' e = record {
    head_tip = ap (λ (x : Batch). x.head_tip) e;
    headers = inl (ap (λ (x : Batch). x.headers) e);
  }

  extended :
      (header : BlockHeader) (c : Context env) (x : Result ChainError (Unit {0}) × Context env)
      → x.1.batch ≡ c.batch
      → IsHeaderStep header c.batch (after env x (λ _. accept_header chain env header)).1.batch
  extended header c (err e, c1) same = still header c.batch c1.batch same
  extended header c (ok u, c1) same =
      then_try-either env (λ r. IsHeaderStep header c.batch r.1.batch)
        (validate_header chain env header c1) _ c1 (λ e. still header c.batch c1.batch same)
        (λ v valid. record {
          head_tip = ap (λ (x : Batch). x.head_tip) same;
          headers = inr (record {
            headers = ap (λ (x : Batch). header ∷ x.headers) same;
            context = c1;
            same = ap (λ (x : Batch). x.headers) same;
            valid = valid;
          });
        })

  pub process_block_header-IsHeaderStep :
      (header : BlockHeader) (c : Context env)
      → IsHeaderStep header c.batch (process_block_header chain env header c).1.batch
  unfolding process_block_header
  process_block_header-IsHeaderStep header c =
      then_try-either env P (get_previous_header env header c.batch) _ c
        (λ e. still header c.batch c.batch refl)
        (λ prev e. elim (Bool-cases (not (is_ok (check_known chain env header c)))) [
          | inl known ↦ rw known (still header c.batch c.batch refl)
          | inr new ↦ rw new (
              then_try-either env P (header_head env c) _ c (λ e. still header c.batch c.batch refl)
                (λ tip f. elim (Bool-cases (seen_header chain env header tip c.batch)) [
                  | inl seen ↦ rw seen (still header c.batch c.batch refl)
                  | inr unseen ↦ rw unseen (
                      extended header c
                        (header_extending env (extend_header chain env prev header tip) c)
                        (header_extending-batch env (extend_header chain env prev header tip) c))
                ]))
        ])
    where
      P : Result ChainError (Unit {0}) × Context env → Type 0
      P r = IsHeaderStep header c.batch r.1.batch

  pub extend_block-IsSame :
      (b : Block) (prev : BlockHeader) (h : env.H) (s : Batch × env.T) (r : (Batch × env.T) × Bool)
      → extend_block chain env b prev h s ≡ ok r
      → IsSame s.0 r.0.0
  extend_block-IsSame b prev h s r e =
      let (x, (e1, k1)) = bind-ok (rewind_and_apply_fork env prev h s) _ r e in
      let (y, (e2, k2)) = bind-ok (verify_and_apply env b x.0 x.1) _ r k1 in
      let (tip, (e3, k3)) = bind-ok (head env y.0) _ r k2 in
      subst (λ (d : (Batch × env.T) × Bool). IsSame s.0 d.0.0) (ok-injective _ _ k3)
        (IsSame-trans s.0 x.1.0 y.0 (rewind_and_apply_fork-IsSame env prev h s x e1)
          (verify_and_apply-IsSame env b x.0 x.1 y e2))

  -- What processing a block makes of the head, which stood at `old`: a new head is that of the block,
  -- and higher than the old; the old one stays if the block is not higher, and on every error.
  abbrev pub IsMove : Block → Tip → Batch → Result ChainError (Option Tip) × Context env → Type 0
  IsMove b old batch (ok (some tip), c) =
      (tip ≡ from_header env b.header) × ((c.batch.head_tip ≡ some tip) × (old.height < tip.height))
  IsMove b old batch (ok none, c) =
      (c.batch.head_tip ≡ batch.head_tip) × (b.header.height ≤ old.height)
  IsMove b old batch (err e, c) = c.batch.head_tip ≡ batch.head_tip

  set_tail-head :
      (tip : Tip) (batch : Batch) (o : Option Tip)
      → (set_tail chain env tip batch o).head_tip ≡ batch.head_tip
  set_tail-head tip batch none = refl
  set_tail-head tip batch (some t) = refl

  store_block-IsMove :
      (b : Block) (tip : Tip) (batch : Batch) (c : Context env)
      → c.batch.head_tip ≡ batch.head_tip
      → IsMove b tip batch (store_block chain env b tip c)
  store_block-IsMove b tip batch c same = elim (Bool-cases (ltb tip.height b.header.height)) [
    | inl higher ↦ rw higher (refl, (refl, ltb→lt tip.height b.header.height higher))
    | inr lower ↦ rw lower (
      set_tail-head (from_header env b.header) (save_block env b c.batch) c.batch.tail_tip ∙ same,
      not_ltb→le tip.height b.header.height lower,
    )
  ]

  process_checked-IsMove :
      (b : Block) (tip : Tip) (prev : BlockHeader) (c : Context env)
      → IsMove b tip c.batch (process_checked chain env b tip prev c)
  process_checked-IsMove b tip prev c =
      let x = process_block_header chain env b.header c in
      let same = (process_block_header-IsHeaderStep b.header c).head_tip in
      after-either env (IsMove b tip c.batch) x _ (λ e. same)
        (λ u.
          let c1 = x.1 in
          then_try-either env (IsMove b tip c.batch) (validate_block chain env b c1) _ c1
            (λ e. same)
            (λ v f.
              let y = extending env (extend_block chain env b prev) c1 in
              let kept =
                (extending-IsSame env (extend_block chain env b prev) c1
                  (extend_block-IsSame b prev)).head_tip
                ∙ same in
              after-either env (IsMove b tip c.batch) y _ (λ e. kept)
                (λ w. store_block-IsMove b tip c.batch y.1 kept)))

  admit_block-head :
      (b : Block) (c : Context env) (x : Tip × BlockHeader)
      → admit_block chain env b c ≡ ok x
      → head env c.batch ≡ ok x.0
  admit_block-head b c x e =
      let (u1, (e1, k1)) = bind-ok (check_known chain env b.header c) _ x e in
      let (u2, (e2, k2)) = bind-ok (validate_pow_only chain env b.header c) _ x k1 in
      let (t, (e3, k3)) = bind-ok (head env c.batch) _ x k2 in
      let (p, (e4, k4)) = bind-ok (prev_header_store chain env b.header c.batch) _ x k3 in
      let (u5, (e5, k5)) = bind-ok (not_orphan chain env b t p c.batch) _ x k4 in
      let (u6, (e6, k6)) = bind-ok (validate_old_aux chain env b c) _ x k5 in
      let same : t ≡ x.0 = ap (λ (y : Tip × BlockHeader). y.0) (ok-injective (t, p) x k6) in
      e3 ∙ ap ok same

  -- Processing a block moves the head only to that block, and only to a greater height; otherwise, and
  -- on every error, the head stays.
  pub process_block-IsMove :
      (b : Block) (old : Tip) (c : Context env)
      → c.batch.head_tip ≡ some old
      → IsMove b old c.batch (process_block chain env b c)
  unfolding process_block
  process_block-IsMove b old c at_old =
      then_try-either env (IsMove b old c.batch) (admit_block chain env b c) _ c (λ e. refl)
        (λ x e.
          let found : old ≡ x.0 =
            ok-injective old x.0 (sym (ap or_not_found at_old) ∙ admit_block-head b c x e) in
          subst (λ t. IsMove b t c.batch (process_checked chain env b x.0 x.1 c)) (sym found)
            (process_checked-IsMove b x.0 x.1 c))
