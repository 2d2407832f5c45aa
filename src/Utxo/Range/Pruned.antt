-- ===== src/Utxo/Range/Pruned.antt =====
-- A pruning of the mountain range: the leaf taken away, and what it leaves as it was.
use vcash.Prelude.{
  ℕ, ◌-◌, ◌≤◌, ◌≡◌, refl, sym, ap, ◌⊎◌, ltb, Result, err, get_elem?, inl, inr, arith, Bool, true,
  false, Bool-cases, Option, none, some, length, ok, ok-injective,
}
use mathlib.Core.Path.{subst}
use vcash.Pmmr.Position.{is_leaf}
use vcash.Pmmr.Backend
use vcash.Pmmr.Backend.{Hashing, new_backend}
use vcash.Pmmr.Tree
use vcash.Pmmr.Tree.{Pmmr}
use vcash.Pmmr.Tree.Same.{get_elem?-lt, contains-insert, contains-insert_self, insert-All}
use vcash.Utxo.Mmr.{IsWritten}
use vcash.Utxo.Range.{tree_mmr, HasRoom}

module _ {T H : Type 0} (hs : Hashing T H) where
  hash-le :
      (pos : ℕ) (x : H) (m : Pmmr T H)
      → length m.backend.hashes ≡ m.last_pos
      → Backend.get_hash m.backend pos ≡ some x
      → pos ≤ m.last_pos
  hash-le pos x m stored e = elim (Bool-cases (Backend.contains pos m.backend.removed)) [
    | inl gone ↦ let wrong : none ≡ some x = rw gone at e in absurd (cc)
    | inr kept ↦
        let found : get_elem? m.backend.hashes (pos - 1) ≡ some x = rw kept at e in
        omega (arith, stored, get_elem?-lt m.backend.hashes (pos - 1) x found)
  ]

  -- A pruning that is refused changes nothing, and one that is done takes a leaf of the range.
  prune-cases :
      (k pos : ℕ) (m m2 : Pmmr T H) (b : Bool)
      → HasRoom hs k m
      → Tree.prune m pos ≡ ok (m2, b)
      → ((m ≡ m2) × (b ≡ false))
        ⊎ ((record m { backend = Backend.remove pos m.backend } ≡ m2) × (pos ≤ m.last_pos))
  unfolding Tree.prune
  prune-cases k pos m m2 b room e = elim (Bool-cases (is_leaf pos)) [
    | inl leafy ↦ by_hash (Backend.get_hash m.backend pos) refl (rw leafy at e)
    | inr other ↦ let wrong : err (Tree.not_a_leaf pos) ≡ ok (m2, b) = rw other at e in absurd (cc)
  ]
    where
      by_hash :
          (o : Option H)
          → Backend.get_hash m.backend pos ≡ o
          → elim o as (λ (x : Option H). Result Tree.PmmrError (Pmmr T H × Bool)) [
            | none ↦ ok (m, false)
            | some _ ↦ ok (record m { backend = Backend.remove pos m.backend }, true)
          ]
            ≡ ok (m2, b)
          → ((m ≡ m2) × (b ≡ false))
            ⊎ ((record m { backend = Backend.remove pos m.backend } ≡ m2) × (pos ≤ m.last_pos))
      by_hash none at done =
          let same = ok-injective _ _ done in
          inl (ap (λ (z : Pmmr T H × Bool). z.0) same, sym (ap (λ (z : Pmmr T H × Bool). z.1) same))
      by_hash (some x) at done =
          let same = ok-injective _ _ done in
          inr (ap (λ (z : Pmmr T H × Bool). z.0) same, hash-le pos x m room.range.stored at)

  pub prune_room :
      (k pos : ℕ) (m m2 : Pmmr T H) (b : Bool)
      → HasRoom hs k m
      → Tree.prune m pos ≡ ok (m2, b)
      → HasRoom hs k m2
  unfolding Backend.remove
  prune_room k pos m m2 b room e = elim (prune-cases k pos m m2 b room e) [
    | inl (same, refused) ↦ subst (HasRoom hs k) same room
    | inr (same, within) ↦ subst (HasRoom hs k) same (record {
      n = room.n;
      leaf = room.leaf;
      range = record {
        size = room.range.size;
        stored = room.range.stored;
        leaves = room.range.leaves;
        nodes = room.range.nodes;
      };
      fits = room.fits;
      within = insert-All _ pos m.backend.removed room.within within;
    })
  ]

  removed-IsWritten :
      (pos : ℕ) (m : Pmmr T H)
      → IsWritten (tree_mmr hs) pos none m (record m { backend = Backend.remove pos m.backend })
  unfolding Tree.get_data Backend.remove
  removed-IsWritten pos m = record {
    here = elim (Bool-cases (ltb m.last_pos pos)) [
      | inl past ↦ rw past refl
      | inr within ↦ elim (Bool-cases (is_leaf pos)) [
        | inl leafy ↦ rw (within, leafy, contains-insert_self pos m.backend.removed) refl
        | inr other ↦ rw (within, other) refl
      ]
    ];
    elsewhere = λ q positive ne. rw (contains-insert q pos m.backend.removed ne) refl;
  }

  pub prune-IsWritten :
      (k pos : ℕ) (m m2 : Pmmr T H)
      → HasRoom hs k m
      → Tree.prune m pos ≡ ok (m2, true)
      → IsWritten (tree_mmr hs) pos none m m2
  prune-IsWritten k pos m m2 room e = elim (prune-cases k pos m m2 true room e) [
    | inl (same, refused) ↦ absurd (cc)
    | inr (same, within) ↦ subst (IsWritten (tree_mmr hs) pos none m) same (removed-IsWritten pos m)
  ]
