-- ===== src/Storage/Table/Fetch.antt =====
-- Reading one record after a write: the map laws of a table of serialised records.
use peat_gateway.Base.{Text, ◌==◌, none, some, Option, ok, Result, ◌≡◌, arith, ap, if◌then◌else◌}
use peat_gateway.Base.Entries.{lookup, lookup-put, lookup-erase}
use peat_gateway.Storage.Redb.{Redb, Codec}
use peat_gateway.Storage.Table.{decode_opt}

module _ {A T : Type 0} ⦃r : Redb T⦄ (c : Codec A) where
  abbrev pub fetch : T → Text → Result (Option A)
  fetch t k = decode_opt c (r.get t k)

  pub fetch-insert :
      (t : T) (k i : Text) (a : A)
      → fetch (r.insert t k (c.to_vec a)) i ≡ (if k == i then ok (some a) else fetch t i)
  unfolding decode_opt
  fetch-insert t k i a = ground (
    arith,
    r.get_lem (r.insert t k (c.to_vec a)) i,
    r.get_lem t i,
    ap (lookup i) (r.iter-insert t k (c.to_vec a)),
    lookup-put k i (c.to_vec a) (r.iter t),
    c.from_slice-to_vec a,
  )

  pub fetch-remove :
      (t : T) (k i : Text) → fetch (r.remove t k).1 i ≡ (if k == i then ok none else fetch t i)
  unfolding decode_opt
  fetch-remove t k i = ground (
    arith,
    r.get_lem (r.remove t k).1 i,
    r.get_lem t i,
    ap (lookup i) (r.iter-remove t k),
    lookup-erase k i (r.iter t),
  )
