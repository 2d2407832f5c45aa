-- ===== src/Utxo/Mmr.antt =====
-- What the extension uses of a mountain range of core/src/core/pmmr/pmmr.rs, as an interface: its
-- operations, and the laws that the theorems on unspent outputs rest on.
use vcash.Prelude.{ℕ, suc, ◌<◌, ◌≡◌, ◌≢◌, Bool, true, Option, none, some, Result, ok}
use vcash.Pmmr.Tree.{PmmrError}

-- A range whose elements are of type `E`.
pub record Mmr (E : Type 0) : Type 1 where
  pub M : Type 0
  pub push : E → M → Result PmmrError (M × ℕ)
  pub prune : ℕ → M → Result PmmrError (M × Bool)
  pub get_data : ℕ → M → Option E
  pub unpruned_size : M → ℕ

module _ {E : Type 0} (m : Mmr E) where
  -- The element of a position is `o`, and the other positions, from 1 on, read as before.
  pub record IsWritten (pos : ℕ) (o : Option E) (x : m.M) (y : m.M) : Type 0 where
    pub here : m.get_data pos y ≡ o
    pub elsewhere : (q : ℕ) → 0 < q → q ≢ pos → m.get_data q y ≡ m.get_data q x

  -- A range that has room for so many leaves more. A leaf is pushed at a position from 1 on where
  -- nothing was, and pruning takes one element away.
  pub record IsLawful : Type 1 where
    pub HasRoom : ℕ → m.M → Type 0
    pub push_room :
        (k : ℕ) (e : E) (x y : m.M) (pos : ℕ)
        → HasRoom (suc k) x
        → m.push e x ≡ ok (y, pos)
        → HasRoom k y
    pub push_positive :
        (k : ℕ) (e : E) (x y : m.M) (pos : ℕ)
        → HasRoom (suc k) x
        → m.push e x ≡ ok (y, pos)
        → 0 < pos
    pub push_free :
        (k : ℕ) (e : E) (x y : m.M) (pos : ℕ)
        → HasRoom (suc k) x
        → m.push e x ≡ ok (y, pos)
        → m.get_data pos x ≡ none
    pub push_written :
        (k : ℕ) (e : E) (x y : m.M) (pos : ℕ)
        → HasRoom (suc k) x
        → m.push e x ≡ ok (y, pos)
        → IsWritten pos (some e) x y
    pub prune_room :
        (k pos : ℕ) (x y : m.M) (b : Bool) → HasRoom k x → m.prune pos x ≡ ok (y, b) → HasRoom k y
    pub prune_written :
        (k pos : ℕ) (x y : m.M)
        → HasRoom k x
        → m.prune pos x ≡ ok (y, true)
        → IsWritten pos none x y
