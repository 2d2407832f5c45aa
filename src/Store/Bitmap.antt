-- ===== src/Store/Bitmap.antt =====
-- What store/src uses of the type `Bitmap` of croaring, from outside the repository: a set of 32-bit
-- numbers, with the operations that are called, and the documented behaviour of these.
pub mod Listed
use vcash.Prelude.{
  last, filter, ℕ, zero, suc, ◌+◌, ◌-◌, ◌≤◌, ◌<◌, ◌≡◌, Bool, true, false, not, ◌&&◌, ◌||◌, List, [],
  ◌∷◌, length, Option, none, some, ltb, leb, ◌==◌, if◌then◌else◌, ◌%◌, ◌^◌,
}
use vcash.Transaction.Features.{contains}
use vcash.Transaction.Sorting.Order.{IsIncreasing}

-- `as u32`.
abbrev pub as_u32 : ℕ → ℕ
as_u32 x = x % 2 ^ 32

abbrev pub unwrap_or : ℕ → Option ℕ → ℕ
unwrap_or y none = y
unwrap_or y (some x) = x

-- The numbers from `from` on.
abbrev pub positions : ℕ → ℕ → List ℕ
positions from zero = []
positions from (suc n) = from ∷ positions (suc from) n

pub record Bitmaps : Type 1 where
  pub Bitmap : Type 0
  pub create : Bitmap
  pub iter : Bitmap → List ℕ
  pub has : ℕ → Bitmap → Bool
  pub add : ℕ → Bitmap → Bitmap
  pub remove : ℕ → Bitmap → Bitmap
  pub rank : Bitmap → ℕ → ℕ
  pub maximum : Bitmap → Option ℕ
  pub remove_range_closed : ℕ → ℕ → Bitmap → Bitmap
  pub or_inplace : Bitmap → Bitmap → Bitmap
  pub and : Bitmap → Bitmap → Bitmap
  pub flip : ℕ → ℕ → Bitmap → Bitmap
  pub from_iter : List ℕ → Bitmap

-- A range is closed for `remove_range_closed`, and open above for `flip`.
pub record IsLawful (m : Bitmaps) : Type 0 where
  pub iter-IsIncreasing : (b : m.Bitmap) → IsIncreasing (m.iter b)
  pub has-iter : (x : ℕ) (b : m.Bitmap) → m.has x b ≡ contains x (m.iter b)
  pub has-create : (x : ℕ) → m.has x m.create ≡ false
  pub has-add : (x y : ℕ) (b : m.Bitmap) → m.has x (m.add y b) ≡ ((x == y) || m.has x b)
  pub has-remove : (x y : ℕ) (b : m.Bitmap) → m.has x (m.remove y b) ≡ (not (x == y) && m.has x b)
  pub rank-iter : (b : m.Bitmap) (x : ℕ) → m.rank b x ≡ length (filter (λ y. leb y x) (m.iter b))
  pub maximum-iter : (b : m.Bitmap) → m.maximum b ≡ last (m.iter b)
  pub has-remove_range :
      (x from to : ℕ) (b : m.Bitmap)
      → m.has x (m.remove_range_closed from to b) ≡ (not (leb from x && leb x to) && m.has x b)
  pub has-or : (x : ℕ) (a b : m.Bitmap) → m.has x (m.or_inplace a b) ≡ (m.has x a || m.has x b)
  pub has-and : (x : ℕ) (a b : m.Bitmap) → m.has x (m.and a b) ≡ (m.has x a && m.has x b)
  pub has-flip :
      (x from to : ℕ) (b : m.Bitmap)
      → m.has x (m.flip from to b) ≡ (if leb from x && ltb x to then not (m.has x b) else m.has x b)
  pub has-from_iter : (x : ℕ) (xs : List ℕ) → m.has x (m.from_iter xs) ≡ contains x xs
