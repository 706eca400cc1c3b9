-- ===== src/Api/Auth.antt =====
-- api/auth.rs: the check of the administrator's token.
pub mod Tokens
use Prim.Native.Nat.{bit_or, bit_xor}
use peat_gateway.Base.{
  ℕ, Text, Bytes, codes, strip_prefix, Bool, false, not, Option, none, some, [], ◌∷◌, Result, ok,
  err, forbidden, unauthorized, length, nat_eq, if◌then◌else◌,
}
use peat_gateway.Api.Enroll.{Authorization}

-- `a.iter().zip(b.iter()).fold(acc, |acc, (x, y)| acc | (x ^ y))`
unfoldable pub fold_differences : ℕ → Bytes → Bytes → ℕ
fold_differences acc [] b = acc
fold_differences acc (x ∷ a) [] = acc
fold_differences acc (x ∷ a) (y ∷ b) = fold_differences (bit_or acc (bit_xor x y)) a b

unfoldable pub constant_time_eq : Bytes → Bytes → Bool
constant_time_eq a b =
    if not (nat_eq (length a) (length b)) then false else nat_eq (fold_differences 0 a b) 0

-- the header, if it is there, is text, and begins with `Bearer `
unfoldable pub bearer_of : Authorization → Option Text
bearer_of none = none
bearer_of (some none) = none
bearer_of (some (some v)) = strip_prefix v (codes "Bearer ")

abbrev pub check_token : Text → Option Text → Result (Unit {0})
check_token expected none = err unauthorized
check_token expected (some provided) =
    if constant_time_eq provided expected then ok tt else err forbidden

-- Whether the request reaches the handler, or the status of the refusal.
unfoldable pub require_admin_token : Option Text → Authorization → Result (Unit {0})
require_admin_token none header = ok tt
require_admin_token (some expected) header = check_token expected (bearer_of header)
