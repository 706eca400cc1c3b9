-- ===== src/Storage/Postgres/Statements.antt =====
-- storage/postgres.rs: a statement of the backend keeps the databases in agreement.
use peat_gateway.Base.{
  ==_iff, Bool-cases, ◌&&◌, Text, Bytes, true, Option, none, some, is_some, List, ◌≡◌, refl, ap,
  sym, ◌∙◌, arith, if◌then◌else◌, ltb, ok, inl, inr,
}
use peat_gateway.Storage.Redb.{Redb}
use peat_gateway.Storage.Backend.{Db}
use peat_gateway.Storage.Sql.{same_row, Sql, TableName, number_of}
use peat_gateway.Storage.Postgres.{executed}
use peat_gateway.Storage.Postgres.Columns.{same_columns_iff, joined, NulFreeColumns}
use peat_gateway.Storage.Postgres.Tables.{number_of-injective, table, set_table, Fits}
use peat_gateway.Storage.Postgres.Agrees.{Agree, written_agrees, get-insert, get-remove}

-- A statement that succeeds is the one that changes the database.
pub executed-some :
    {D : Type 0} (q : Option D) (d : D) → (executed q d).0 ≡ ok tt → q ≡ some (executed q d).1
executed-some none d h = absurd cc
executed-some (some d') d h = refl

above : (m : Option Bytes) → ltb 0 (if is_some m then 1 else 0) ≡ is_some m
above none = refl
above (some v) = refl

pub same_row_sound :
    (t u : TableName) (o p : Text) (cs ds : List Text)
    → same_row (t, (o, cs)) (u, (p, ds)) ≡ true
    → (t ≡ u) × (o ≡ p) × (cs ≡ ds)
same_row_sound t u o p cs ds h = (
  number_of-injective t u (ground (arith, h)),
  ground (arith, h, ==_iff o p),
  ground (arith, h, same_columns_iff cs ds),
)

module _ {T D : Type 0} ⦃r : Redb T⦄ ⦃sql : Sql D⦄ (t : TableName) (o : Text) (cs : List Text)
    (db : Db T) (d : D) (free : NulFreeColumns o cs) (agree : Agree db d) where
  abbrev after_insert : Bytes → Db T
  after_insert v = set_table t (r.insert (table t db) (joined o cs) v) db

  pub insert_agrees :
      (v : Bytes)
      → (executed (sql.insert t (o, cs) v d) d).0 ≡ ok tt
      → Agree (after_insert v) (executed (sql.insert t (o, cs) v d) d).1
  insert_agrees v h =
      written_agrees t o cs (some v) _ db d _ free agree
        (λ k. get-insert (table t db) (joined o cs) k v)
        (λ u p ds. (sql.select-insert t (o, cs) v d _ (executed-some _ d h)).1 u (p, ds))

  pub upsert_agrees :
      (v : Bytes)
      → (executed (sql.upsert t (o, cs) v d) d).0 ≡ ok tt
      → Agree (after_insert v) (executed (sql.upsert t (o, cs) v d) d).1
  upsert_agrees v h =
      written_agrees t o cs (some v) _ db d _ free agree
        (λ k. get-insert (table t db) (joined o cs) k v)
        (λ u p ds. sql.select-upsert t (o, cs) v d _ (executed-some _ d h) u (p, ds))

  guarded :
      (u : TableName) (p : Text) (ds : List Text) (v : Bytes)
      → is_some (sql.select d t (o, cs)) ≡ true
      → let same = same_row (t, (o, cs)) (u, (p, ds)) in
        let old = sql.select d u (p, ds) in
        (if same && is_some old then some v else old) ≡ (if same then some v else old)
  guarded u p ds v there = elim (Bool-cases (same_row (t, (o, cs)) (u, (p, ds)))) [
    | inl same ↦
        let (q, q_o, q_cs) = same_row_sound t u o p cs ds same in
        rw (same, sym q, sym q_o, sym q_cs, there) refl
    | inr other ↦ rw other refl
  ]

  pub update_agrees :
      (v : Bytes)
      → is_some (sql.select d t (o, cs)) ≡ true
      → Agree (after_insert v) (sql.update t (o, cs) v d)
  update_agrees v there =
      written_agrees t o cs (some v) _ db d _ free agree
        (λ k. get-insert (table t db) (joined o cs) k v)
        (λ u p ds. sql.select-update t (o, cs) v d u (p, ds) ∙ guarded u p ds v there)

  pub delete_agrees :
      ltb 0 (number_of t) ≡ true
      → Agree (set_table t (r.remove (table t db) (joined o cs)).1 db) (sql.delete t (o, cs) d).1
  delete_agrees refers =
      written_agrees t o cs none _ db d _ free agree (λ k. get-remove (table t db) (joined o cs) k)
        (λ u p ds. sql.select-delete t (o, cs) d u (p, ds) refers)

  pub deleted_agrees :
      Fits t cs → ltb 0 (sql.delete t (o, cs) d).0 ≡ is_some (r.remove (table t db) (joined o cs)).0
  unfolding Agree
  deleted_agrees fits =
      let k = joined o cs in
      let x = table t db in
      ap (ltb 0) (sql.deleted t (o, cs) d)
      ∙ above (sql.select d t (o, cs))
      ∙ ap is_some (sym (agree t o cs fits free) ∙ r.get_lem x k ∙ sym (r.removed x k))
