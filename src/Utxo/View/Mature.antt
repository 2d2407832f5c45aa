-- ===== src/Utxo/View/Mature.antt =====
-- A coinbase output is spent only once it is old enough.
use vcash.Prelude.{
  ℕ, ◌-◌, ◌≤◌, ◌≡◌, sym, ap, ◌∙◌, ◌⊎◌, inl, inr, true, List, [], ◌∷◌, Among, Option, none, some, ok,
  bind-ok, fail_if-ok, fail_if, ltb, not_ltb→le, Bool-cases, arith,
}
use vcash.Prelude.Maps
use vcash.Consensus.Params.{ChainType, coinbase_maturity}
use vcash.Transaction.Types.{coinbase, Input}
use vcash.Chain.Types.{BlockHeader}
use vcash.Utxo.Mmr.{Mmr}
use vcash.Utxo.Coins.{CommitPos, immature_coinbase}
use vcash.Utxo.Extension.{Mmrs, Extension, same_features}
use vcash.Utxo.View.{
  spent_at, coinbase_positions, greatest, get_header_by_height, verify_coinbase_maturity,
}

le-greatest : (x : ℕ) (xs : List ℕ) → Among x xs → x ≤ greatest xs
unfolding greatest
le-greatest x [] m = absurd (m.lower)
le-greatest x (y ∷ xs) (inl e) = omega (arith, e)
le-greatest x (y ∷ xs) (inr m) = omega (arith, le-greatest x xs m)

module _ (ms : Mmrs) where
  Among-spent_at :
      (pos : ℕ) (y : Input) (e : Extension ms) (rest : List ℕ)
      → Among pos rest
      → Among pos (spent_at ms y e rest)
  Among-spent_at pos y e rest m = entry (Maps.get y.commit e.coins.output_pos)
    where
      entry :
          (o : Option CommitPos)
          → Among pos (elim o as (λ _. List ℕ) [ none ↦ rest | some p ↦ p.pos ∷ rest ])
      entry none = m
      entry (some p) = inr m

  Among-coinbase_positions :
      (x : Input) (p : CommitPos) (xs : List Input) (e : Extension ms)
      → Among x xs
      → same_features x.features coinbase ≡ true
      → Maps.get x.commit e.coins.output_pos ≡ some p
      → Among p.pos (coinbase_positions ms xs e)
  unfolding coinbase_positions
  Among-coinbase_positions x p [] e m c g = absurd (m.lower)
  Among-coinbase_positions x p (y ∷ xs) e (inl same) c g =
      let c' : same_features y.features coinbase ≡ true =
        ap (λ (z : Input). same_features z.features coinbase) (sym same) ∙ c in
      let g' : Maps.get y.commit e.coins.output_pos ≡ some p =
        ap (λ (z : Input). Maps.get z.commit e.coins.output_pos) (sym same) ∙ g in
      rw c' (entry _ (Maps.get y.commit e.coins.output_pos) g')
    where
      entry :
          (rest : List ℕ) (o : Option CommitPos)
          → o ≡ some p
          → Among p.pos (elim o as (λ _. List ℕ) [ none ↦ rest | some q ↦ q.pos ∷ rest ])
      entry rest none e = absurd (cc)
      entry rest (some q) e = inl (cc)
  Among-coinbase_positions x p (y ∷ xs) e (inr m) c g =
      let later = Among-coinbase_positions x p xs e m c g in
      elim (Bool-cases (same_features y.features coinbase)) [
        | inl t ↦ rw t (Among-spent_at p.pos y e (coinbase_positions ms xs e) later)
        | inr f ↦ rw f later
      ]

  module _ (headers : Mmr ℕ) (hash : BlockHeader → ℕ) where
    -- The position is not behind those of the outputs up to the header that is old enough.
    abbrev pub IsMature : ChainType → ℕ → ℕ → headers.M → List BlockHeader → Type 0
    IsMature chain height pos h store =
        (pos ≡ 0)
        ⊎ ((coinbase_maturity chain ≤ height)
            × ((x : BlockHeader) × ((get_header_by_height headers hash
                      (height - coinbase_maturity chain) h store
                    ≡ ok x)
                  × (pos ≤ x.output_mmr_size))))

    -- Where the check passes, each coinbase output that an input spends was made no later than the
    -- header that lies the maturity of the chain below the given height; so there is such a header.
    pub verify_coinbase_maturity-IsMature :
        (chain : ChainType) (inputs : List Input) (height : ℕ) (e : Extension ms) (h : headers.M)
        (store : List BlockHeader) (x : Input) (p : CommitPos)
        → verify_coinbase_maturity ms headers hash chain inputs height e h store ≡ ok tt
        → Among x inputs
        → same_features x.features coinbase ≡ true
        → Maps.get x.commit e.coins.output_pos ≡ some p
        → IsMature chain height p.pos h store
    unfolding verify_coinbase_maturity
    verify_coinbase_maturity-IsMature chain inputs height e h store x p k m c g =
        let top = greatest (coinbase_positions ms inputs e) in
        let below =
          le-greatest p.pos (coinbase_positions ms inputs e)
            (Among-coinbase_positions x p inputs e m c g) in
        elim (Bool-cases (ltb 0 top)) [
          | inl some_coinbase ↦
              let k0 = rw some_coinbase at k in
              let (u1, (e1, k1)) =
                bind-ok (fail_if (ltb height (coinbase_maturity chain)) immature_coinbase) _ tt
                  k0 in
              let (hd, (e2, k2)) =
                bind-ok
                  (get_header_by_height headers hash (height - coinbase_maturity chain) h store) _
                  tt k1 in
              let late = fail_if-ok (ltb hd.output_mmr_size top) immature_coinbase k2 in
              inr (
                not_ltb→le height (coinbase_maturity chain) (fail_if-ok _ immature_coinbase e1),
                (hd, (e2, omega (arith, below, not_ltb→le hd.output_mmr_size top late))),
              )
          | inr nothing ↦ inl (omega (arith, below, not_ltb→le 0 top nothing))
        ]
