-- ===== src/Config/Spaces.antt =====
-- `str::trim` and `str::split` on a byte, as config.rs uses them.
use mathlib.Core.List.{reverse}
use peat_gateway.Base.{
  ℕ, zero, suc, ◌-◌, Text, Bool, true, false, ◌&&◌, ◌||◌, not, List, [], ◌∷◌, filter, nat_eq, leb,
  if◌then◌else◌,
}

-- White space of one, two and three bytes in UTF-8.
abbrev one_byte : ℕ → Bool
one_byte a = (leb 9 a && leb a 13) || nat_eq a 32

abbrev two_bytes : ℕ → ℕ → Bool
two_bytes a b = nat_eq a 0xc2 && (nat_eq b 0x85 || nat_eq b 0xa0)

abbrev three_bytes : ℕ → ℕ → ℕ → Bool
three_bytes a b c =
    (nat_eq a 0xe1 && (nat_eq b 0x9a && nat_eq c 0x80))
    || ((nat_eq a 0xe2
          && (nat_eq b 0x80
              && ((leb 0x80 c && leb c 0x8a)
                  || (nat_eq c 0xa8 || (nat_eq c 0xa9 || nat_eq c 0xaf)))))
        || ((nat_eq a 0xe2 && (nat_eq b 0x81 && nat_eq c 0x9f))
            || (nat_eq a 0xe3 && (nat_eq b 0x80 && nat_eq c 0x80))))

-- How many bytes the white space at the front has, which is 0 if there is none.
abbrev width : Text → ℕ
width [] = 0
width (a ∷ []) = if one_byte a then 1 else 0
width (a ∷ b ∷ []) = if one_byte a then 1 else if two_bytes a b then 2 else 0
width (a ∷ b ∷ c ∷ s) =
    if one_byte a then 1 else if two_bytes a b then 2 else if three_bytes a b c then 3 else 0

-- The same for white space at the end, of the reversed text.
abbrev width_end : Text → ℕ
width_end [] = 0
width_end (a ∷ []) = if one_byte a then 1 else 0
width_end (b ∷ a ∷ []) = if one_byte b then 1 else if two_bytes a b then 2 else 0
width_end (c ∷ b ∷ a ∷ s) =
    if one_byte c then 1 else if two_bytes b c then 2 else if three_bytes a b c then 3 else 0

-- Drops white space from the front, after the bytes that are still to skip.
unfoldable pub skip : (Text → ℕ) → ℕ → Text → Text
skip measure n [] = []
skip measure (suc n) (a ∷ s) = skip measure n s
skip measure zero (a ∷ s) =
    let n = measure (a ∷ s) in
    let rest = skip measure (n - 1) s in if nat_eq n 0 then a ∷ s else rest

-- `str::trim`
unfoldable pub trim : Text → Text
unfolding skip
trim s = reverse (skip width_end 0 (reverse (skip width 0 s)))

abbrev pub before_first : ℕ → List Text → List Text
before_first c [] = (c ∷ []) ∷ []
before_first c (p ∷ ps) = (c ∷ p) ∷ ps

-- `s.split(c)`
unfoldable pub split : ℕ → Text → List Text
split c [] = [] ∷ []
split c (x ∷ s) = let rest = split c s in if nat_eq x c then [] ∷ rest else before_first x rest

abbrev pub is_blank : Text → Bool
is_blank [] = true
is_blank (c ∷ s) = false

-- `.filter(|s| !s.is_empty())`
abbrev pub nonempty : List Text → List Text
nonempty = filter λ s. not (is_blank s)
