-- ===== src/Api/Auth/Tokens.antt =====
-- api/auth.rs: which requests pass.
use Prim.Native.Nat.{bit_or, bit_xor}
use peat_gateway.Base.{
  ℕ, Text, Bytes, codes, strip_prefix, strip_prefix-append, true, Option, none, some, [], ◌∷◌, ◌++◌,
  ok, length, ◌≡◌, ◌↔◌, ◌⊎◌, inl, inr, refl, ap, ap₂, subst, arith,
}
use peat_gateway.Base.Bits.{bit_or-zero, bit_xor-zero, bit_xor-same}
use peat_gateway.Api.Enroll.{Authorization}
use peat_gateway.Api.Auth.{
  fold_differences, constant_time_eq, bearer_of, check_token, require_admin_token,
}

fold_sound :
    (acc : ℕ) (a b : Bytes)
    → length a ≡ length b
    → fold_differences acc a b ≡ 0
    → (acc ≡ 0) × (a ≡ b)
unfolding fold_differences
fold_sound acc [] [] len h = (h, refl)
fold_sound acc [] (y ∷ b) len h = absurd (omega arith)
fold_sound acc (x ∷ a) [] len h = absurd (omega arith)
fold_sound acc (x ∷ a) (y ∷ b) len h =
    let (z, rest) = fold_sound (bit_or acc (bit_xor x y)) a b (omega arith) h in
    let (p, q) = bit_or-zero acc (bit_xor x y) z in (p, ap₂ ◌∷◌ (bit_xor-zero x y q) rest)

fold-same : (a : Bytes) → fold_differences 0 a a ≡ 0
unfolding fold_differences
fold-same [] = refl
fold-same (x ∷ a) = rw (bit_xor-same x) (fold-same a)

-- The comparison in constant time, a fold of exclusive ors, answers true exactly on equal byte
-- strings.
constant_time_eq_iff : (a b : Bytes) → (constant_time_eq a b ≡ true) ↔ (a ≡ b)
unfolding constant_time_eq
constant_time_eq_iff a b = (
  λ h. (fold_sound 0 a b (ground arith) (ground arith)).1,
  λ e. subst (λ x. constant_time_eq a x ≡ true) e (ground (arith, fold-same a)),
)

check_token-ok : (t : Text) (given : Option Text) → (check_token t given ≡ ok tt) ↔ (given ≡ some t)
check_token-ok t none = (λ h. absurd cc, λ h. absurd cc)
check_token-ok t (some u) = (
  λ h. ap some ((constant_time_eq_iff u t).0 (ground arith)),
  λ e. let same : u ≡ t = cc in rw ((constant_time_eq_iff u t).1 same) refl,
)

strip_prefix_sound : (s p t : Text) → strip_prefix s p ≡ some t → s ≡ p ++ t
unfolding strip_prefix
strip_prefix_sound s [] t h = ground arith
strip_prefix_sound [] (p ∷ ps) t h = ground arith
strip_prefix_sound (c ∷ s) (p ∷ ps) t h = ground (arith, strip_prefix_sound s ps t)

-- A request passes the administrator's check exactly if no administrator's token is configured,
-- or its authorization header is the word Bearer and a space followed by that token.
pub require_admin_token_iff :
    (expected : Option Text) (header : Authorization)
    → (require_admin_token expected header ≡ ok tt) ↔ (
        (expected ≡ none)
        ⊎ ((t : Text) × (expected ≡ some t) × (header ≡ some (some (codes "Bearer " ++ t)))))
unfolding require_admin_token bearer_of
require_admin_token_iff none header = (λ h. inl refl, λ h. refl)
require_admin_token_iff (some t) none =
    (λ h. absurd cc, λ h. absurd (elim h [ inl e ↦ cc | inr (x, p, q) ↦ cc ]))
require_admin_token_iff (some t) (some none) =
    (λ h. absurd cc, λ h. absurd (elim h [ inl e ↦ cc | inr (x, p, q) ↦ cc ]))
require_admin_token_iff (some t) (some (some v)) = (
  λ h. inr (
    t,
    refl,
    ap (λ s. some (some s)) (strip_prefix_sound v (codes "Bearer ") t ((check_token-ok t _).0 h)),
  ),
  λ h. elim h [
    | inl e ↦ absurd cc
    | inr (x, p, q) ↦
        let same_text : v ≡ codes "Bearer " ++ x = cc in
        let same_token : t ≡ x = cc in
        (check_token-ok t _).1
          (rw (same_text, same_token) (strip_prefix-append (codes "Bearer ") x))
  ],
)
