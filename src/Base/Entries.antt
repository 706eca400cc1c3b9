-- ===== src/Base/Entries.antt =====
-- The entries of a table in key order: what iterating over an ordered key-value table yields.
use mathlib.Core.Path.{◌≡◌, refl}
use mathlib.Core.List.{List, [], ◌∷◌}
use mathlib.Core.Option.{Option, none, some}
use native.Mathlib.Omega.{arith}
use peat_gateway.Base.Tests.{if◌then◌else◌}
use peat_gateway.Base.Texts.{Text, Bytes, ◌==◌, ==_iff, text_lt}

abbrev pub Entries : Type 0
Entries = List (Text × Bytes)

unfoldable pub lookup : Text → Entries → Option Bytes
lookup k [] = none
lookup k ((j, v) ∷ m) = let rest = lookup k m in if j == k then some v else rest

unfoldable pub put : Text → Bytes → Entries → Entries
put k v [] = (k, v) ∷ []
put k v ((j, w) ∷ m) =
    let rest = put k v m in
    if j == k then (k, v) ∷ m else if text_lt k j then (k, v) ∷ (j, w) ∷ m else (j, w) ∷ rest

unfoldable pub erase : Text → Entries → Entries
erase k [] = []
erase k ((j, w) ∷ m) = let rest = erase k m in if j == k then rest else (j, w) ∷ rest

pub lookup-put :
    (k j : Text) (v : Bytes) (m : Entries)
    → lookup j (put k v m) ≡ (if k == j then some v else lookup j m)
unfolding lookup put
lookup-put k j v [] = refl
lookup-put k j v ((i, w) ∷ m) =
    ground (arith, ==_iff k j, ==_iff i k, ==_iff i j, lookup-put k j v m)

pub lookup-erase :
    (k j : Text) (m : Entries) → lookup j (erase k m) ≡ (if k == j then none else lookup j m)
unfolding lookup erase
lookup-erase k j [] = ground arith
lookup-erase k j ((i, w) ∷ m) =
    ground (arith, ==_iff k j, ==_iff i k, ==_iff i j, lookup-erase k j m)
