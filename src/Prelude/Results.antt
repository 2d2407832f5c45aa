-- ===== src/Prelude/Results.antt =====
-- Rust's `Result`, with its `?` as the bind of a `do` block.
use mathlib.Core.Path.{◌≡◌, refl}
use mathlib.Core.Bool.{Bool, true, false}

pub data Result {ℓ κ} (E : Type ℓ) (A : Type κ) : Type (ℓ ⊔ κ) where
  ok : A → Result E A
  err : E → Result E A

infixl 5 ◌>>=◌ ◌>>◌
abbrev pub ◌>>=◌ {ℓ κ ι} :
    {E : Type ℓ} {A : Type κ} {B : Type ι} → Result E A → (A → Result E B) → Result E B
ok a >>= f = f a
err e >>= f = err e

abbrev pub ◌>>◌ {ℓ ι} : {E : Type ℓ} {B : Type ι} → Result E (Unit {0}) → Result E B → Result E B
m >> k = m >>= λ _. k

-- `if b { return Err(e) }`.
abbrev pub fail_if {ℓ} : {E : Type ℓ} → Bool → E → Result E (Unit {0})
fail_if true e = err e
fail_if false e = ok tt

-- `.is_ok()`.
abbrev pub is_ok {ℓ κ} : {E : Type ℓ} {A : Type κ} → Result E A → Bool
is_ok (ok a) = true
is_ok (err e) = false

module _ {ℓ} {E : Type ℓ} where
  -- A chain that succeeds has a first step that succeeds.
  pub bind-ok {κ ι} :
      {A : Type κ} {B : Type ι} (r : Result E A) (k : A → Result E B) (b : B)
      → (r >>= k) ≡ ok b
      → (a : A) × ((r ≡ ok a) × (k a ≡ ok b))
  bind-ok (ok a) k b e = (a, (refl, e))
  bind-ok (err x) k b e = absurd (cc)

  pub ok-injective {κ} : {A : Type κ} (a b : A) → let r : Result E A = ok a in r ≡ ok b → a ≡ b
  ok-injective a b e = cc

  -- A guard that lets a chain go on.
  pub fail_if-ok : (b : Bool) (e : E) → fail_if b e ≡ ok tt → b ≡ false
  fail_if-ok true e h = absurd (cc)
  fail_if-ok false e h = refl
