-- ===== src/Examples/Formats.antt =====
-- A serialisation to run the development with: numbers as they are, texts with their length.
use peat_gateway.Base.{
  ℕ, zero, suc, Text, Bytes, Bool, true, false, Option, none, some, [], ◌∷◌, ◌++◌, ◌≡◌, refl, ap,
  ap₂, ◌∙◌, length, take, drop, take-append, drop-append,
}
use mathlib.Core.List.{append_assoc}
use peat_gateway.Storage.Redb.{Codec}

pub record Format (A : Type 0) : Type 0 where
  pub write : A → Bytes
  pub read : Bytes → Option (A × Bytes)
  pub read-write : (a : A) (rest : Bytes) → read (write a ++ rest) ≡ some (a, rest)

abbrev first : {A : Type 0} → Option (A × Bytes) → Option A
first none = none
first (some (a, rest)) = some a

abbrev pub codec_of : {A : Type 0} → Format A → Codec A
codec_of f = record {
  to_vec = λ a. f.write a ++ [];
  from_slice = λ b. first (f.read b);
  from_slice-to_vec = λ a. ap first (f.read-write a []);
}

abbrev read_number : Bytes → Option (ℕ × Bytes)
read_number [] = none
read_number (n ∷ rest) = some (n, rest)

abbrev pub number_format : Format ℕ
number_format = record { write = λ n. n ∷ []; read = read_number; read-write = λ n rest. refl }

abbrev read_text : Bytes → Option (Text × Bytes)
read_text [] = none
read_text (n ∷ rest) = some (take n rest, drop n rest)

abbrev pub text_format : Format Text
text_format = record {
  write = λ s. length s ∷ s;
  read = read_text;
  read-write =
      λ s rest. ap₂ (λ (a b : Bytes). some (a, b)) (take-append s rest) (drop-append s rest);
}

module _ {A B : Type 0} where
  abbrev read_then : (A → Bytes → Option (B × Bytes)) → Option (A × Bytes) → Option (B × Bytes)
  read_then f none = none
  read_then f (some (a, rest)) = f a rest

  abbrev with_first : A → Option (B × Bytes) → Option ((A × B) × Bytes)
  with_first a none = none
  with_first a (some (b, rest)) = some ((a, b), rest)

  abbrev through : (A → B) → Option (A × Bytes) → Option (B × Bytes)
  through f none = none
  through f (some (a, rest)) = some (f a, rest)

module _ {A B : Type 0} (f : Format A) (g : Format B) where
  abbrev read_pair : Bytes → Option ((A × B) × Bytes)
  read_pair b = read_then (λ a rest. with_first a (g.read rest)) (f.read b)

  pub read_pair-write :
      (p : A × B) (rest : Bytes) → read_pair ((f.write p.0 ++ g.write p.1) ++ rest) ≡ some (p, rest)
  read_pair-write (a, b) rest =
      ap read_pair (append_assoc (f.write a) (g.write b) rest)
      ∙ ap (read_then (λ a rest. with_first a (g.read rest))) (f.read-write a (g.write b ++ rest))
      ∙ ap (with_first a) (g.read-write b rest)

  abbrev pub pair_format : Format (A × B)
  pair_format = record {
    write = λ p. f.write p.0 ++ g.write p.1;
    read = read_pair;
    read-write = read_pair-write;
  }

-- A type that embeds into one with a format.
abbrev pub embedded :
    {A B : Type 0} (f : Format A) (to : B → A) (from : A → B)
    → ((b : B) → from (to b) ≡ b)
    → Format B
embedded f to from law = record {
  write = λ b. f.write (to b);
  read = λ bytes. through from (f.read bytes);
  read-write =
      λ b rest. ap (through from) (f.read-write (to b) rest) ∙ ap (λ x. some (x, rest)) (law b);
}

abbrev from_flag : ℕ → Bool
from_flag zero = false
from_flag (suc n) = true

abbrev to_flag : Bool → ℕ
to_flag false = 0
to_flag true = 1

pub from-to_flag : (b : Bool) → from_flag (to_flag b) ≡ b
from-to_flag false = refl
from-to_flag true = refl

abbrev pub flag_format : Format Bool
flag_format = embedded number_format to_flag from_flag from-to_flag

abbrev from_maybe : Text → Option ℕ
from_maybe [] = none
from_maybe (n ∷ rest) = some n

abbrev to_maybe : Option ℕ → Text
to_maybe none = []
to_maybe (some n) = n ∷ []

pub from-to_maybe : (o : Option ℕ) → from_maybe (to_maybe o) ≡ o
from-to_maybe none = refl
from-to_maybe (some n) = refl

abbrev pub maybe_format : Format (Option ℕ)
maybe_format = embedded text_format to_maybe from_maybe from-to_maybe
