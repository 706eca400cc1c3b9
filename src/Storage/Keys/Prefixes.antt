-- ===== src/Storage/Keys/Prefixes.antt =====
-- Keys of an organisation whose identifier has no zero byte: told apart by their prefix.
use peat_gateway.Base.{true, Text, ◌==◌, starts_with, [], ◌∷◌, ◌++◌, ◌≡◌, ◌≢◌, refl, arith}

-- No byte is zero.
abbrev pub NulFree : Text → Type 0
NulFree [] = Unit {0}
NulFree (c ∷ s) = (c ≢ 0) × NulFree s

-- A key with the identifier `p` in front carries the prefix of `o` exactly if `o` is `p`.
pub starts_with-key :
    (o p rest : Text)
    → NulFree o
    → NulFree p
    → starts_with (p ++ (0 ∷ rest)) (o ++ (0 ∷ [])) ≡ (o == p)
unfolding starts_with ◌==◌
starts_with-key [] [] rest ho hp = refl
starts_with-key [] (d ∷ p) rest ho hp = ground (arith, hp.0)
starts_with-key (c ∷ o) [] rest ho hp = ground (arith, ho.0)
starts_with-key (c ∷ o) (d ∷ p) rest ho hp = ground (arith, starts_with-key o p rest ho.1 hp.1)

-- Such a key determines both of its parts.
pub key-injective :
    (o p a b : Text) → NulFree o → NulFree p → o ++ (0 ∷ a) ≡ p ++ (0 ∷ b) → (o ≡ p) × (a ≡ b)
key-injective [] [] a b ho hp e = ground arith
key-injective [] (d ∷ p) a b ho hp e = ground arith
key-injective (c ∷ o) [] a b ho hp e = ground arith
key-injective (c ∷ o) (d ∷ p) a b ho hp e = ground (arith, key-injective o p a b ho.1 hp.1)

-- A key carries the prefix of the identifier in front of it.
pub starts_with-prefix : (o rest : Text) → starts_with (o ++ (0 ∷ rest)) (o ++ (0 ∷ [])) ≡ true
unfolding starts_with
starts_with-prefix [] rest = refl
starts_with-prefix (c ∷ o) rest = ground (arith, starts_with-prefix o rest)
