-- ===== src/Prelude/Maps.antt =====
-- Rust's `HashMap` as an association list, in which a key is found where it stands first.
use Prim.Native.Nat.{ℕ}
use mathlib.Core.Bool.{Bool, true, false, not, ◌||◌}
use mathlib.Core.List.{List, [], ◌∷◌, map}
use mathlib.Core.Option.{Option, none, some}
use mathlib.Core.Path.{◌≡◌, refl, sym, ap, ◌∙◌}
use mathlib.Core.Logic.{◌≢◌, inl, inr}
use native.Mathlib.Omega.{arith}
use vcash.Prelude.Tests.{◌==◌, if◌then◌else◌, ==→eq, eq→==, ne→not_==, Bool-cases}
use vcash.Prelude.Lists.{filter, All, All-weaken, Among}

module _ {ℓ} {V : Type ℓ} where
  abbrev pub contains_key : ℕ → List (ℕ × V) → Bool
  contains_key k [] = false
  contains_key k ((j, v) ∷ m) = j == k || contains_key k m

  abbrev pub get : ℕ → List (ℕ × V) → Option V
  get k [] = none
  get k ((j, v) ∷ m) = let later = get k m in if j == k then some v else later

  abbrev pub erase : ℕ → List (ℕ × V) → List (ℕ × V)
  erase k m = filter (λ (e : ℕ × V). not (e.0 == k)) m

  abbrev pub insert : ℕ → V → List (ℕ × V) → List (ℕ × V)
  insert k v m = (k, v) ∷ erase k m

  abbrev pub keys : List (ℕ × V) → List ℕ
  keys m = map (λ (e : ℕ × V). e.0) m

  -- What a filter keeps is still found.
  pub get-filter :
      (test : ℕ × V → Bool) (k : ℕ) (v : V) (m : List (ℕ × V))
      → get k m ≡ some v
      → test (k, v) ≡ true
      → get k (filter test m) ≡ some v
  get-filter test k v [] e t = absurd (cc)
  get-filter test k v ((j, w) ∷ m) e t = elim (Bool-cases (j == k)) [
    | inl here ↦
        let first : some w ≡ some v = rw here at e in
        let same : w ≡ v = cc in
        let key : j ≡ k = ==→eq j k here in
        let kept : test (j, w) ≡ true = rw (key, same) t in rw (kept, here) (ap some same)
    | inr past ↦ elim (Bool-cases (test (j, w))) [
      | inl t' ↦ rw (t', past) (get-filter test k v m (rw past at e) t)
      | inr f' ↦ rw f' (get-filter test k v m (rw past at e) t)
    ]
  ]

  pub get-erase_self : (k : ℕ) (m : List (ℕ × V)) → get k (erase k m) ≡ none
  get-erase_self k [] = refl
  get-erase_self k ((j, w) ∷ m) = elim (Bool-cases (j == k)) [
    | inl here ↦ rw here (get-erase_self k m)
    | inr past ↦ rw (past, past) (get-erase_self k m)
  ]

  pub get-erase : (k h : ℕ) (m : List (ℕ × V)) → k ≢ h → get k (erase h m) ≡ get k m
  get-erase k h [] ne = refl
  get-erase k h ((j, w) ∷ m) ne = elim (Bool-cases (j == h)) [
    | inl gone ↦
        let past : j == k ≡ false = ground (arith, ==→eq j h gone) in
        rw (gone, past) (get-erase k h m ne)
    | inr stays ↦ elim (Bool-cases (j == k)) [
      | inl here ↦ rw (stays, here) refl
      | inr past ↦ rw (stays, past) (get-erase k h m ne)
    ]
  ]

  pub Among-keys : (k : ℕ) (v : V) (m : List (ℕ × V)) → get k m ≡ some v → Among k (keys m)
  Among-keys k v [] e = absurd (cc)
  Among-keys k v ((j, w) ∷ m) e = elim (Bool-cases (j == k)) [
    | inl here ↦ inl (sym (==→eq j k here))
    | inr past ↦ inr (Among-keys k v m (rw past at e))
  ]

  -- Every key is found.
  pub All-contains_key : (m : List (ℕ × V)) → All (λ (e : ℕ × V). contains_key e.0 m ≡ true) m
  All-contains_key [] = tt
  All-contains_key ((j, w) ∷ m) = (
    rw (eq→== j j refl) refl,
    All-weaken _ (λ (e : ℕ × V). contains_key e.0 ((j, w) ∷ m) ≡ true) m (λ e p. later (j == e.0) p)
        (All-contains_key m),
  )
    where
      later : (b : Bool) {c : Bool} → c ≡ true → (b || c) ≡ true
      later true p = refl
      later false p = p

  pub get-insert_self : (k : ℕ) (v : V) (m : List (ℕ × V)) → get k (insert k v m) ≡ some v
  get-insert_self k v m = rw (eq→== k k refl) refl

  pub get-insert : (k h : ℕ) (v : V) (m : List (ℕ × V)) → k ≢ h → get k (insert h v m) ≡ get k m
  get-insert k h v m ne =
      let past : h == k ≡ false = ne→not_== h k (λ e. ne (sym e)) in rw past (get-erase k h m ne)

  pub get-insert_at : (k h : ℕ) (v : V) (m : List (ℕ × V)) → k ≡ h → get k (insert h v m) ≡ some v
  get-insert_at k h v m e = ap (λ z. get z (insert h v m)) e ∙ get-insert_self h v m
