-- ===== src/Storage/Table.antt =====
-- storage/redb_backend.rs: the blocks that its methods repeat on one table.
pub mod Views
pub mod Fetch
pub mod Listing
use peat_gateway.Base.{
  Text, Bytes, starts_with, Option, none, some, List, [], ◌∷◌, filter, map, Result, ok, ok_or,
  and_then, corrupt_record,
}
use peat_gateway.Base.Entries.{Entries}
use peat_gateway.Storage.Redb.{Redb, Codec}

module _ {A : Type 0} where
  -- `Some(value) => Ok(Some(serde_json::from_slice(value)?)), None => Ok(None)`
  unfoldable pub decode_opt : Codec A → Option Bytes → Result (Option A)
  decode_opt c none = ok none
  decode_opt c (some v) = and_then (ok_or (c.from_slice v) corrupt_record) λ a. ok (some a)

  -- `for entry in … { let (_, value) = entry?; list.push(serde_json::from_slice(value)?) }`
  unfoldable pub decode_all : Codec A → Entries → Result (List A)
  decode_all c [] = ok []
  decode_all c ((k, v) ∷ m) =
      let rest = decode_all c m in
      and_then (ok_or (c.from_slice v) corrupt_record) λ a. and_then rest λ l. ok (a ∷ l)

-- the entries that pass `key.starts_with(&prefix)`
abbrev pub with_prefix : Text → Entries → Entries
with_prefix p = filter λ e. starts_with e.0 p

module _ {T : Type 0} ⦃r : Redb T⦄ where
  -- `for key in keys { table.remove(key)?; }`
  unfoldable pub remove_all : List Text → T → T
  remove_all [] t = t
  remove_all (k ∷ ks) t = remove_all ks (r.remove t k).1

  -- `keys_to_remove` and the loop over it
  unfoldable pub remove_prefix : Text → T → T
  unfolding remove_all
  remove_prefix p t = remove_all (map (λ e. e.0) (with_prefix p (r.iter t))) t
