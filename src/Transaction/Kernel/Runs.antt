-- ===== src/Transaction/Kernel/Runs.antt =====
-- The binary forms of kernel features at concrete values.
use vcash.Prelude.{◌≡◌, refl, false, [], ◌∷◌, ◌++◌, ok, err, arith}
use vcash.Transaction.Types.{plain, height_locked, height_locked_token}
use vcash.Transaction.Kernel.{
  corrupted_data, write, read, read_v1, write_v2, features_v1, write_bytes, read_bytes,
}
use vcash.Transaction.Kernel.RoundTrip.{InRange, TokenInRange, read-write}

plain_bytes : write_v2 (plain 258) ≡ 0 ∷ 0 ∷ 0 ∷ 0 ∷ 0 ∷ 0 ∷ 0 ∷ 1 ∷ 2 ∷ []
unfolding write_v2 write_bytes
plain_bytes = refl

unused_fee :
    read_v1 (1 ∷ 0 ∷ 0 ∷ 0 ∷ 0 ∷ 0 ∷ 0 ∷ 0 ∷ 7 ∷ 0 ∷ 0 ∷ 0 ∷ 0 ∷ 0 ∷ 0 ∷ 0 ∷ 0 ∷ [])
    ≡ err corrupted_data
unfolding read_v1 features_v1 read_bytes
unused_fee = refl

locked-InRange : InRange (height_locked 9 1440)
unfolding InRange
locked-InRange = (omega arith, omega arith)

read-write_example :
    read 1 (write false 1 (height_locked 9 1440) ++ (5 ∷ [])) ≡ ok (height_locked 9 1440, 5 ∷ [])
read-write_example = read-write 1 (height_locked 9 1440) (5 ∷ []) locked-InRange

token-InRange : TokenInRange (height_locked_token 1440)
unfolding TokenInRange
token-InRange = omega arith
