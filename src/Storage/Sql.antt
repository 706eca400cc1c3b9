-- ===== src/Storage/Sql.antt =====
-- What storage/postgres.rs uses of PostgreSQL through the crate `sqlx`: the statements that it sends,
-- on the tables that `connect` creates. The laws are what PostgreSQL documents of them: a primary
-- key is unique, a row refers to an organisation that is there, and the rows of an organisation go
-- with it.
use peat_gateway.Base.{
  nat_eq, ℕ, ◌-◌, ◌%◌, ◌^◌, ◌≤◌, Text, Bytes, ◌==◌, ◌&&◌, Bool, true, false, Option, none, some,
  is_some, List, [], ◌∷◌, length, ltb, if◌then◌else◌, ◌≡◌,
}

-- The tables but for the audit log.
pub data TableName : Type 0 where
  orgs formations enrollment_tokens cdc_sinks cdc_cursors idp_configs policy_rules genesis :
      TableName

abbrev pub number_of : TableName → ℕ
number_of orgs = 0
number_of formations = 1
number_of enrollment_tokens = 2
number_of cdc_sinks = 3
number_of cdc_cursors = 4
number_of idp_configs = 5
number_of policy_rules = 6
number_of genesis = 7

-- A primary key: the column org_id and the others.
abbrev pub PrimaryKey : Type 0
PrimaryKey = Text × List Text

unfoldable pub same_columns : List Text → List Text → Bool
same_columns [] [] = true
same_columns [] (d ∷ ds) = false
same_columns (c ∷ cs) [] = false
same_columns (c ∷ cs) (d ∷ ds) = c == d && same_columns cs ds

abbrev pub same_row : TableName × PrimaryKey → TableName × PrimaryKey → Bool
same_row (t, k) (u, j) = nat_eq (number_of t) (number_of u) && (k.0 == j.0 && same_columns k.1 j.1)

-- `BIGINT`
pub data Bigint : Type 0 where
  nonnegative : ℕ → Bigint
  negative : ℕ → Bigint

-- `x as i64` of a `u64` or `usize`
abbrev pub as_i64 : ℕ → Bigint
as_i64 n =
    if ltb (n % 2 ^ 64) (2 ^ 63) then nonnegative (n % 2 ^ 64) else negative (2 ^ 64 - n % 2 ^ 64)

-- A row of enrollment_audit.
pub record AuditRow : Type 0 where
  pub org_id : Text
  pub audit_id : Text
  pub app_id : Text
  pub timestamp_ms : Bigint
  pub stored : Bytes

-- A statement that violates a constraint changes nothing, which is `none` here.
pub record Sql (D : Type 0) : Type 0 where
  -- the database after `CREATE TABLE IF NOT EXISTS …`
  pub created : D
  -- SELECT … WHERE the columns of the primary key are given
  pub select : D → TableName → PrimaryKey → Option Bytes
  -- SELECT data FROM orgs ORDER BY org_id
  pub select_orgs : D → List Bytes
  -- SELECT data FROM … WHERE org_id = $1 ORDER BY the other column of the primary key
  pub select_of : D → TableName → Text → List Bytes
  -- INSERT INTO … VALUES …
  pub insert : TableName → PrimaryKey → Bytes → D → Option D
  -- INSERT INTO … VALUES … ON CONFLICT … DO UPDATE SET …
  pub upsert : TableName → PrimaryKey → Bytes → D → Option D
  -- UPDATE … SET data = … WHERE the columns of the primary key are given
  pub update : TableName → PrimaryKey → Bytes → D → D
  -- DELETE FROM … WHERE the columns of the primary key are given, with `rows_affected`
  pub delete : TableName → PrimaryKey → D → ℕ × D
  pub insert_audit : AuditRow → D → Option D
  -- SELECT data FROM enrollment_audit WHERE … ORDER BY timestamp_ms DESC LIMIT …
  pub select_audit : D → Text → Option Text → Bigint → Option (List Bytes)
  pub select-created : (t : TableName) (k : PrimaryKey) → select created t k ≡ none
  pub select-insert :
      (t : TableName) (k : PrimaryKey) (v : Bytes) (d d' : D)
      → insert t k v d ≡ some d'
      → (select d t k ≡ none)
        × ((u : TableName) (j : PrimaryKey)
            → select d' u j ≡ (if same_row (t, k) (u, j) then some v else select d u j))
  pub select-upsert :
      (t : TableName) (k : PrimaryKey) (v : Bytes) (d d' : D)
      → upsert t k v d ≡ some d'
      → (u : TableName) (j : PrimaryKey)
      → select d' u j ≡ (if same_row (t, k) (u, j) then some v else select d u j)
  pub select-update :
      (t : TableName) (k : PrimaryKey) (v : Bytes) (d : D) (u : TableName) (j : PrimaryKey)
      → select (update t k v d) u j
        ≡ (if same_row (t, k) (u, j) && is_some (select d u j) then some v else select d u j)
  -- the tables that refer to orgs
  pub select-delete :
      (t : TableName) (k : PrimaryKey) (d : D) (u : TableName) (j : PrimaryKey)
      → ltb 0 (number_of t) ≡ true
      → select (delete t k d).1 u j ≡ (if same_row (t, k) (u, j) then none else select d u j)
  -- ON DELETE CASCADE
  pub select-delete_org :
      (o : Text) (d : D) (u : TableName) (j : PrimaryKey)
      → select (delete orgs (o, []) d).1 u j ≡ (if o == j.0 then none else select d u j)
  pub deleted :
      (t : TableName) (k : PrimaryKey) (d : D)
      → (delete t k d).0 ≡ (if is_some (select d t k) then 1 else 0)
  pub length-select_audit :
      (d : D) (o : Text) (app : Option Text) (n : ℕ) (rows : List Bytes)
      → select_audit d o app (nonnegative n) ≡ some rows
      → length rows ≤ n
  pub select-insert_audit :
      (row : AuditRow) (d d' : D) (t : TableName) (k : PrimaryKey)
      → insert_audit row d ≡ some d'
      → select d' t k ≡ select d t k
