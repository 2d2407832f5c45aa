-- ===== src/Pool/Entries/Reconcile.antt =====
-- What `reconcile_block` keeps.
use mathlib.Core.Path.{subst}
use vcash.Prelude.{
  filter, ℕ, ◌≡◌, refl, sym, ap, ◌∙◌, ◌↔◌, inl, inr, Bool, true, false, not, ◌&&◌, ◌||◌, List, [],
  ◌∷◌, map, ◌==◌, Bool-cases, Among,
}
use vcash.Transaction.Types.{TransactionBody, Digests, input_hash, token_input_hash}
use vcash.Transaction.Features.{any}
use vcash.Transaction.Sorting.Insert.{Holds}
use vcash.Transaction.Members.{any-Holds, Holds-any}
use vcash.Transaction.Sorting.Overlap.{AreDisjoint}
use vcash.Pool.Types.{PoolEntry}
use vcash.Pool.Entries.{Pool, shares, unspent_coins, unspent_tokens, reconcile_block}

module _ {ℓ} {A : Type ℓ} (hash : A → ℕ) where
  or_false : (a b : Bool) → (a || b) ≡ false → (a ≡ false) × (b ≡ false)
  or_false true b e = absurd (cc)
  or_false false b e = (refl, e)

  shares-AreDisjoint :
      (d : Digests) (xs ys : List A)
      → shares d hash xs ys ≡ false
      → AreDisjoint (map hash xs) (map hash ys)
  unfolding AreDisjoint Holds
  shares-AreDisjoint d [] ys e = λ h k m. elim k [ ]
  shares-AreDisjoint d (x ∷ xs) ys e =
      let (none_here, rest) = or_false (any (λ y. hash y == hash x) ys) _ e in
      λ h k m. elim k [
        | inl here ↦
            let hit = Holds-any hash (hash x) ys (subst (λ t. Holds t (map hash ys)) here m) in
            let clash : true ≡ false = sym hit ∙ none_here in absurd (cc)
        | inr later ↦ shares-AreDisjoint d xs ys rest h later m
      ]

  AreDisjoint-shares :
      (d : Digests) (xs ys : List A)
      → AreDisjoint (map hash xs) (map hash ys)
      → shares d hash xs ys ≡ false
  unfolding AreDisjoint Holds
  AreDisjoint-shares d [] ys apart = refl
  AreDisjoint-shares d (x ∷ xs) ys apart = elim (Bool-cases (any (λ y. hash y == hash x) ys)) [
    | inl hit ↦ absurd (apart (hash x) (inl refl) (any-Holds hash (hash x) ys hit))
    | inr none_here ↦ rw none_here (AreDisjoint-shares d xs ys (λ h k m. apart h (inr k) m))
  ]

filter-Among {ℓ} :
    {A : Type ℓ} (p : A → Bool) (a : A) (xs : List A)
    → Among a (filter p xs) ↔ (Among a xs × (p a ≡ true))
filter-Among p a [] = ((λ m. elim m.lower [ ]), (λ (m, e). m))
filter-Among p a (x ∷ xs) =
    let ih = filter-Among p a xs in
    elim (Bool-cases (p x)) [
      | inl t ↦ rw t (
        (elim [ inl e ↦ (inl e, ap p e ∙ t) | inr m ↦ (inr ((ih.0 m).0), (ih.0 m).1) ]),
        (λ (m, e). elim m [ inl here ↦ inl here | inr later ↦ inr (ih.1 (later, e)) ]),
      )
      | inr f ↦ rw f (
        (λ m. (inr ((ih.0 m).0), (ih.0 m).1)),
        (λ (m, e). elim m [
          | inl here ↦ let clash : true ≡ false = sym e ∙ (ap p here ∙ f) in absurd (cc)
          | inr later ↦ ih.1 (later, e)
        ]),
      )
    ]

module _ (d : Digests) where
  -- A body has no kernel and no input, of coins or of tokens, in common with another.
  pub record IsUntouched (block : TransactionBody) (body : TransactionBody) : Type 0 where
    pub kernels : AreDisjoint (map d.kernel body.kernels) (map d.kernel block.kernels)
    pub inputs : AreDisjoint (map (input_hash d) body.inputs) (map (input_hash d) block.inputs)
    pub token_kernels :
        AreDisjoint (map d.token_kernel body.token_kernels) (map d.token_kernel block.token_kernels)
    pub token_inputs :
        AreDisjoint
          (map (token_input_hash d) body.token_inputs)
          (map (token_input_hash d) block.token_inputs)

  neither : (a b : Bool) → (not a && not b) ≡ true → (a ≡ false) × (b ≡ false)
  neither true b e = absurd (cc)
  neither false true e = absurd (cc)
  neither false false e = (refl, refl)

  -- After a block, the pool holds exactly its entries that have no kernel and no input in common with
  -- the block, among the coins and among the tokens.
  pub reconcile_block_iff :
      (block : TransactionBody) (x : PoolEntry) (entries : Pool)
      → Among x (reconcile_block d block entries) ↔ (Among x entries × IsUntouched block x.tx.body)
  unfolding reconcile_block
  reconcile_block_iff block x entries =
      let body = x.tx.body in
      let coins = filter-Among (unspent_coins d block) x entries in
      let tokens =
        filter-Among (unspent_tokens d block) x (filter (unspent_coins d block) entries) in
      (
        (λ m.
            let (m1, e1) = tokens.0 m in
            let (m2, e2) = coins.0 m1 in
            let (k, i) = neither _ _ e2 in
            let (tk, ti) = neither _ _ e1 in
            (
              m2,
              record {
                kernels = shares-AreDisjoint d.kernel d body.kernels block.kernels k;
                inputs = shares-AreDisjoint (input_hash d) d body.inputs block.inputs i;
                token_kernels =
                    shares-AreDisjoint d.token_kernel d body.token_kernels block.token_kernels tk;
                token_inputs =
                    shares-AreDisjoint (token_input_hash d) d body.token_inputs block.token_inputs
                      ti;
              },
            )),
        (λ (m, u).
            let k = AreDisjoint-shares d.kernel d body.kernels block.kernels u.kernels in
            let i = AreDisjoint-shares (input_hash d) d body.inputs block.inputs u.inputs in
            let tk =
              AreDisjoint-shares d.token_kernel d body.token_kernels block.token_kernels
                u.token_kernels in
            let ti =
              AreDisjoint-shares (token_input_hash d) d body.token_inputs block.token_inputs
                u.token_inputs in
            tokens.1 (coins.1 (m, rw (k, i) refl), rw (tk, ti) refl)),
      )
