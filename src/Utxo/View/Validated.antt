-- ===== src/Utxo/View/Validated.antt =====
-- A block that passes the check against the unspent outputs, and is then applied.
use vcash.Prelude.{
  ℕ, ◌≡◌, refl, ap, ◌∙◌, ◌↔◌, ◌⊎◌, inl, inr, Bool, true, false, not, List, [], ◌∷◌, map, All,
  All-Among, Among, Option, none, some, Result, ok, bind-ok, fail_if-ok,
}
use vcash.Prelude.Maps
use vcash.Chain.Types.{BlockHeader, Block}
use vcash.Utxo.Mmr.{Mmr, IsLawful}
use vcash.Utxo.Coins.{
  Identifier, CommitPos, Coins, UtxoError, already_spent, with_data, spends, validate_output,
  validate_input,
}
use vcash.Utxo.Coins.Applied.{Has, commits}
use vcash.Utxo.Coins.Spent.{IsApplied}
use vcash.Utxo.Extension.{
  OutputIdentifier, TokenOutputIdentifier, Mmrs, Extension, coin_ident, token_ident, of_input,
  of_output, of_token_input, with_proofs, with_token_proofs, apply_block,
}
use vcash.Utxo.Extension.Applied.{IsReady, apply_block-IsApplied}
use vcash.Utxo.View.{check_all, validate_token_output, validate_body}

check_all-All :
    {A : Type 0} (f : A → Result UtxoError (Unit {0})) (xs : List A)
    → check_all f xs ≡ ok tt
    → All (λ x. f x ≡ ok tt) xs
unfolding check_all
check_all-All f [] e = tt
check_all-All f (x ∷ xs) e = let (u, (e1, k1)) = bind-ok (f x) _ tt e in (e1, check_all-All f xs k1)

module _ {E : Type 0} (m : Mmr E) (r : Mmr ℕ) (ident : Identifier E) where
  -- What is left where each input spends an output that was unspent before: those outputs but for the
  -- spent ones, and all the new ones.
  pub record IsUpdated (outs : List (E × ℕ)) (inputs : List E) (s : Coins m r) (s' : Coins m r)
      : Type 0 where
    pub were :
        (x : E)
        → Among x inputs
        → (p : CommitPos) × ((Maps.get (ident.commit x) s.output_pos ≡ some p)
            × ((o : E) × ((m.get_data p.pos s.output_pmmr ≡ some o) × (ident.same x o ≡ true))))
    pub unspent :
        (c : ℕ)
        → Has m r ident c s' ↔ (
            (Has m r ident c s × (Among c (map ident.commit inputs) → ⊥))
            ⊎ Among c (commits m r ident outs))

  un_negated : (b : Bool) → not b ≡ false → b ≡ true
  un_negated true e = refl
  un_negated false e = absurd (cc)

  validate_input-found :
      (x : E) (s : Coins m r)
      → validate_input m r ident x s ≡ ok tt
      → (p : CommitPos) × ((Maps.get (ident.commit x) s.output_pos ≡ some p)
          × ((o : E) × ((m.get_data p.pos s.output_pmmr ≡ some o) × (ident.same x o ≡ true))))
  unfolding validate_input
  validate_input-found x s e =
      entry (Maps.get (ident.commit x) s.output_pos) refl
        (un_negated _ (fail_if-ok _ (already_spent (ident.commit x)) e))
    where
      Found : Type 0
      Found =
          (p : CommitPos) × ((Maps.get (ident.commit x) s.output_pos ≡ some p)
            × ((o : E) × ((m.get_data p.pos s.output_pmmr ≡ some o) × (ident.same x o ≡ true))))

      data_at :
          (p : CommitPos)
          → Maps.get (ident.commit x) s.output_pos ≡ some p
          → (o : Option E) → m.get_data p.pos s.output_pmmr ≡ o
          → spends m r ident x (some (p, o)) ≡ true
          → Found
      data_at p g none h t = absurd (cc)
      data_at p g (some o) h t = (p, (g, (o, (h, t))))

      entry :
          (o : Option CommitPos)
          → Maps.get (ident.commit x) s.output_pos ≡ o
          → spends m r ident x (with_data m r ident s.output_pmmr o) ≡ true
          → Found
      entry none g t = absurd (cc)
      entry (some p) g t = data_at p g (m.get_data p.pos s.output_pmmr) refl t

  Among-map :
      (c : ℕ) (xs : List E)
      → Among c (map ident.commit xs)
      → (x : E) × (Among x xs × (c ≡ ident.commit x))
  Among-map c [] a = absurd (a.lower)
  Among-map c (x ∷ xs) (inl e) = (x, (inl refl, e))
  Among-map c (x ∷ xs) (inr a) = let (y, (b, e)) = Among-map c xs a in (y, (inr b, e))

  applied-IsUpdated :
      (law : IsLawful m) (outs : List (E × ℕ)) (inputs : List E) (s s' : Coins m r)
      → All (λ x. validate_input m r ident x s ≡ ok tt) inputs
      → IsApplied m r ident law outs inputs s s'
      → IsUpdated outs inputs s s'
  applied-IsUpdated law outs inputs s s' valid applied = record {
    were = were;
    unspent = λ c. (forward c, backward c);
  }
    where
      were :
          (x : E)
          → Among x inputs
          → (p : CommitPos) × ((Maps.get (ident.commit x) s.output_pos ≡ some p)
              × ((o : E) × ((m.get_data p.pos s.output_pmmr ≡ some o) × (ident.same x o ≡ true))))
      were x a = validate_input-found x s (All-Among _ inputs valid a)

      forward :
          (c : ℕ)
          → Has m r ident c s'
          → (Has m r ident c s × (Among c (map ident.commit inputs) → ⊥))
            ⊎ Among c (commits m r ident outs)
      forward c h =
          let (old_or_new, unspent) = (applied.unspent c).0 h in
          elim old_or_new [ inl old ↦ inl (old, unspent) | inr new ↦ inr new ]

      backward :
          (c : ℕ)
          → (Has m r ident c s × (Among c (map ident.commit inputs) → ⊥))
            ⊎ Among c (commits m r ident outs)
          → Has m r ident c s'
      backward c (inl (old, unspent)) = (applied.unspent c).1 (inl old, unspent)
      backward c (inr new) = (applied.unspent c).1 (
        inr new,
        λ a.
            let (x, (b, e)) = Among-map c inputs a in
            let (p, (g, rest)) = were x b in
            All-Among _ (commits m r ident outs) applied.fresh new
              (p, ap (λ z. Maps.get z s.output_pos) e ∙ g),
      )

module _ (ms : Mmrs) (coin_law : IsLawful ms.outputs) (token_law : IsLawful ms.token_outputs) where
  -- A block that was checked against the view and is then applied spends only outputs that were unspent
  -- before it, with the features (and the token) that they have; afterwards the unspent outputs are
  -- those that it does not spend, and all that it makes; of the coins and of the tokens.
  pub validate_body-apply_block :
      (hash : BlockHeader → ℕ) (b : Block) (e e' : Extension ms)
      → IsReady ms coin_law token_law b e
      → validate_body ms b.body e ≡ ok tt
      → apply_block ms hash b e ≡ ok e'
      → IsUpdated ms.outputs ms.rproofs coin_ident
          (with_proofs b.body.outputs)
          (map of_input b.body.inputs)
          e.coins
          e'.coins
        × IsUpdated ms.token_outputs ms.token_rproofs token_ident
            (with_token_proofs b.body.token_outputs)
            (map of_token_input b.body.token_inputs)
            e.tokens
            e'.tokens
  unfolding validate_body
  validate_body-apply_block hash b e e' ready v k =
      let coin_ok =
        λ (x : OutputIdentifier). validate_input ms.outputs ms.rproofs coin_ident x e.coins in
      let token_ok = λ (x : TokenOutputIdentifier).
        validate_input ms.token_outputs ms.token_rproofs token_ident x e.tokens in
      let (u1, (e1, k1)) =
        bind-ok
          (check_all (λ x. validate_output ms.outputs ms.rproofs coin_ident x e.coins)
            (map of_output b.body.outputs))
          _ tt v in
      let (u2, (e2, k2)) = bind-ok (check_all coin_ok (map of_input b.body.inputs)) _ tt k1 in
      let (u3, (e3, k3)) =
        bind-ok (check_all (λ x. validate_token_output ms x e) b.body.token_outputs) _ tt k2 in
      let (coins, tokens) = apply_block-IsApplied ms coin_law token_law hash b e e' ready k in
      (
        applied-IsUpdated ms.outputs ms.rproofs coin_ident coin_law (with_proofs b.body.outputs)
            (map of_input b.body.inputs) e.coins e'.coins
            (check_all-All coin_ok (map of_input b.body.inputs) e2) coins,
        applied-IsUpdated ms.token_outputs ms.token_rproofs token_ident token_law
            (with_token_proofs b.body.token_outputs) (map of_token_input b.body.token_inputs)
            e.tokens e'.tokens (check_all-All token_ok (map of_token_input b.body.token_inputs) k3)
            tokens,
      )
