-- ===== src/Cdc/Documents.antt =====
-- cdc/watcher.rs: the documents of a mesh, and the hash of a change.
use peat_gateway.Base.{
  zero, suc, ℕ, ◌+◌, ◌/◌, ◌-◌, ◌%◌, Text, text_lt, Option, none, some, List, [], ◌∷◌, ◌++◌, ltb,
  if◌then◌else◌,
}
use peat_gateway.Api.Claims.{Value}

-- `HashMap<String, Value>`, as its entries in some order
abbrev pub Fields : Type 0
Fields = List (Text × Value)

-- What the watcher reads of a document of peat-mesh. The time is in milliseconds since 1970, and
-- is missing before.
pub record Document : Type 0 where
  pub id : Option Text
  pub fields : Fields
  pub updated_at : Option ℕ

-- `std::collections::hash_map::DefaultHasher`. Hashing a text or a number feeds it to the hasher.
pub record DefaultHasher : Type 1 where
  pub Hasher : Type 0
  pub start : Hasher
  pub hash_str : Text → Hasher → Hasher
  pub hash_u64 : ℕ → Hasher → Hasher
  pub finish : Hasher → ℕ

-- What is used of `serde_json`.
pub record Serde : Type 0 where
  pub to_string : Value → Option Text
  pub to_value : Fields → Option Value

-- `keys.sort()`, with the value of each key beside it
unfoldable pub insert_key : Text × Value → Fields → Fields
insert_key f [] = f ∷ []
insert_key f (g ∷ fs) =
    let rest = insert_key f fs in if text_lt g.0 f.0 then g ∷ rest else f ∷ g ∷ fs

unfoldable pub sort_keys : Fields → Fields
unfolding insert_key
sort_keys [] = []
sort_keys (f ∷ fs) = insert_key f (sort_keys fs)

module _ ⦃d : DefaultHasher⦄ ⦃s : Serde⦄ where
  -- `if let Ok(v) = serde_json::to_string(&fields[k]) { v.hash(&mut hasher); }`
  unfoldable pub hash_value : Option Text → d.Hasher → d.Hasher
  hash_value none h = h
  hash_value (some v) h = d.hash_str v h

  -- `for k in keys { … }`
  unfoldable pub hash_sorted : Fields → d.Hasher → d.Hasher
  unfolding hash_value
  hash_sorted [] h = h
  hash_sorted ((k, v) ∷ fs) h = hash_sorted fs (hash_value (s.to_string v) (d.hash_str k h))

  unfoldable pub hash_fields : Text → Fields → ℕ → ℕ
  unfolding hash_sorted sort_keys
  hash_fields doc_id fields timestamp_ms =
      d.finish
        (hash_sorted (sort_keys fields) (d.hash_u64 timestamp_ms (d.hash_str doc_id d.start)))

-- A digit below sixteen in lower case.
abbrev pub hex_digit : ℕ → ℕ
hex_digit n = if ltb n 10 then b'0' + n else b'a' + (n - 10)

-- `{:x}` of a number of `width` digits at most
unfoldable pub lower_hex : ℕ → ℕ → Text
lower_hex zero n = []
lower_hex (suc width) n =
    let high = lower_hex width (n / 16) in
    if ltb n 16 then hex_digit n ∷ [] else high ++ (hex_digit (n % 16) ∷ [])
