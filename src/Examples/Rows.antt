-- ===== src/Examples/Rows.antt =====
-- A database of rows held in memory, which keeps what is assumed of PostgreSQL.
use peat_gateway.Storage.Postgres.Columns.{joined, same_columns_iff}
use peat_gateway.Storage.Postgres.Statements.{same_row_sound}
use peat_gateway.Base.{
  length-take, Option-cases, if_cases, ==_refl, nat_eq_iff, subst, ℕ, ◌≤◌, Text, Bytes, ◌==◌,
  text_lt, ◌&&◌, ◌||◌, Bool, true, false, not, Option, none, some, is_some, List, [], ◌∷◌, map,
  filter, take, length, ltb, nat_eq, if◌then◌else◌, ◌≡◌, ◌↔◌, refl, ap, sym, ◌∙◌, arith, Bool-cases,
  inl, inr,
}
use peat_gateway.Storage.Sql.{
  Sql, TableName, PrimaryKey, orgs, number_of, same_row, Bigint, nonnegative, negative, AuditRow,
}

pub record Database : Type 0 where
  pub rows : List ((TableName × PrimaryKey) × Bytes)
  pub audit : List AuditRow

-- Rows found by a test of their places.
module _ {A : Type 0} (same : A → A → Bool) where
  unfoldable pub find : A → List (A × Bytes) → Option Bytes
  find p [] = none
  find p ((q, v) ∷ xs) = let rest = find p xs in if same q p then some v else rest

  -- The rows that are not at a place, and that are not told by a test.
  unfoldable pub without : A → List (A × Bytes) → List (A × Bytes)
  without p [] = []
  without p ((q, v) ∷ xs) = let rest = without p xs in if same q p then rest else (q, v) ∷ rest

  unfoldable pub without_any : (A → Bool) → List (A × Bytes) → List (A × Bytes)
  without_any gone [] = []
  without_any gone ((q, v) ∷ xs) =
      let rest = without_any gone xs in if gone q then rest else (q, v) ∷ rest

  module _ (same_iff : (p q : A) → (same p q ≡ true) ↔ (p ≡ q)) where
    pub find-without :
        (p q : A) (xs : List (A × Bytes))
        → find q (without p xs) ≡ (if same p q then none else find q xs)
    unfolding find without
    find-without p q [] = ground arith
    find-without p q ((x, v) ∷ xs) =
        ground (arith, same_iff p q, same_iff x p, same_iff x q, find-without p q xs)

    pub find-without_any :
        (gone : A → Bool) (q : A) (xs : List (A × Bytes))
        → find q (without_any gone xs) ≡ (if gone q then none else find q xs)
    unfolding find without_any
    find-without_any gone q [] = ground arith
    find-without_any gone q ((x, v) ∷ xs) = elim (Bool-cases (same x q)) [
      | inl here ↦
          let e : x ≡ q = (same_iff x q).0 here in
          elim (Bool-cases (gone q)) [
            | inl out ↦ rw (e, out, find-without_any gone q xs, out) refl
            | inr stays ↦ rw (e, stays, (same_iff q q).1 refl) refl
          ]
      | inr other ↦ ground (arith, other, find-without_any gone q xs)
    ]

same_row_refl : (p : TableName × PrimaryKey) → same_row p p ≡ true
same_row_refl (t, (o, cs)) =
    rw ((nat_eq_iff (number_of t) (number_of t)).1 refl, ==_refl o, (same_columns_iff cs cs).1 refl)
      refl

pub same_row_iff : (p q : TableName × PrimaryKey) → (same_row p q ≡ true) ↔ (p ≡ q)
same_row_iff (t, (o, cs)) (u, (p, ds)) = (
  λ h. let (q, q_o, q_cs) = same_row_sound t u o p cs ds h in λ i. (q i, (q_o i, q_cs i)),
  λ e. subst (λ x. same_row (t, (o, cs)) x ≡ true) e (same_row_refl (t, (o, cs))),
)

abbrev Place : Type 0
Place = TableName × PrimaryKey

abbrev row_at : Database → Place → Option Bytes
row_at d p = find same_row p d.rows

abbrev put_row : Place → Bytes → Database → Database
put_row p v d = record d { rows = (p, v) ∷ without same_row p d.rows }

row_at-put_row :
    (p q : Place) (v : Bytes) (d : Database)
    → row_at (put_row p v d) q ≡ (if same_row p q then some v else row_at d q)
unfolding find
row_at-put_row p q v d = elim (Bool-cases (same_row p q)) [
  | inl here ↦ rw here refl
  | inr other ↦ rw (other, find-without same_row same_row_iff p q d.rows, other) refl
]

-- The organisation that a row refers to is there.
abbrev has_org : Place → Database → Bool
has_org (t, k) d = nat_eq (number_of t) 0 || is_some (row_at d (orgs, (k.0, [])))

abbrev upsert_row : Place → Bytes → Database → Option Database
upsert_row p v d = if has_org p d then some (put_row p v d) else none

abbrev insert_row : Place → Bytes → Database → Option Database
insert_row p v d = if is_some (row_at d p) then none else upsert_row p v d

abbrev update_row : Place → Bytes → Database → Database
update_row p v d = if is_some (row_at d p) then put_row p v d else d

abbrev is_of : Text → Place → Bool
is_of o p = o == p.1.0

-- Deleting a row of orgs takes those that refer to it along.
abbrev delete_rows : Place → Database → Database
delete_rows (t, k) d = record d {
  rows =
      if nat_eq (number_of t) 0
      then without_any same_row (is_of k.0) d.rows
      else without same_row (t, k) d.rows;
  audit = if nat_eq (number_of t) 0 then filter (λ a. not (k.0 == a.org_id)) d.audit else d.audit;
}

-- The contents of the rows of a table that a test picks, in the order of their keys.
abbrev insert_ordered : Place × Bytes → List (Place × Bytes) → List (Place × Bytes)
insert_ordered x [] = x ∷ []
insert_ordered x (y ∷ ys) =
    let rest = insert_ordered x ys in
    if text_lt (joined y.0.1.0 y.0.1.1) (joined x.0.1.0 x.0.1.1) then y ∷ rest else x ∷ y ∷ ys

abbrev ordered : List (Place × Bytes) → List (Place × Bytes)
ordered [] = []
ordered (x ∷ xs) = insert_ordered x (ordered xs)

abbrev rows_of : (Place → Bool) → Database → List Bytes
rows_of picks d = map (λ x. x.1) (ordered (filter (λ x. picks x.0) d.rows))

abbrev earlier : Bigint → Bigint → Bool
earlier (nonnegative m) (nonnegative n) = ltb m n
earlier (nonnegative m) (negative n) = false
earlier (negative m) (nonnegative n) = true
earlier (negative m) (negative n) = ltb n m

abbrev insert_newest : AuditRow → List AuditRow → List AuditRow
insert_newest a [] = a ∷ []
insert_newest a (b ∷ bs) =
    let rest = insert_newest a bs in
    if earlier a.timestamp_ms b.timestamp_ms then b ∷ rest else a ∷ b ∷ bs

abbrev newest_first : List AuditRow → List AuditRow
newest_first [] = []
newest_first (a ∷ rest) = insert_newest a (newest_first rest)

abbrev of_app : Option Text → AuditRow → Bool
of_app none a = true
of_app (some app) a = a.app_id == app

abbrev audit_rows : Database → Text → Option Text → Bigint → Option (List Bytes)
audit_rows d o app (nonnegative n) = some (
    take n
      (map (λ a. a.stored) (newest_first (filter (λ a. a.org_id == o && of_app app a) d.audit))))
audit_rows d o app (negative n) = none

abbrev insert_audit_row : AuditRow → Database → Option Database
insert_audit_row a d =
    if is_some (row_at d (orgs, (a.org_id, [])))
    then some (record d { audit = a ∷ d.audit })
    else none

pub upserted :
    (p : Place) (v : Bytes) (d d' : Database)
    → upsert_row p v d ≡ some d'
    → (q : Place) → row_at d' q ≡ (if same_row p q then some v else row_at d q)
upserted p v d d' h q =
    if_cases (has_org p d)
      (λ m. m ≡ some d' → row_at d' q ≡ (if same_row p q then some v else row_at d q))
      (λ there same. let e : put_row p v d ≡ d' = cc in rw (sym e) (row_at-put_row p q v d))
      (λ missing same. absurd cc) h

pub inserted :
    (p : Place) (v : Bytes) (d d' : Database)
    → insert_row p v d ≡ some d'
    → (row_at d p ≡ none)
      × ((q : Place) → row_at d' q ≡ (if same_row p q then some v else row_at d q))
inserted p v d d' h = elim (Option-cases (row_at d p)) [
  | inl free ↦ (
    free,
    upserted p v d d' (sym (ap (λ m. if is_some m then none else upsert_row p v d) free) ∙ h),
  )
  | inr (w, taken) ↦ absurd (
      let e : none ≡ some d' =
        sym (ap (λ m. if is_some m then none else upsert_row p v d) taken) ∙ h in
      cc)
]

pub updated :
    (p : Place) (v : Bytes) (d : Database) (q : Place)
    → row_at (update_row p v d) q
      ≡ (if same_row p q && is_some (row_at d q) then some v else row_at d q)
updated p v d q = elim (Bool-cases (same_row p q)) [
  | inl here ↦
      let e : p ≡ q = (same_row_iff p q).0 here in
      if_cases (is_some (row_at d p))
        (λ x. row_at x q ≡ (if same_row p q && is_some (row_at d q) then some v else row_at d q))
        (λ there.
          row_at-put_row p q v d ∙ rw (here, subst (λ x. is_some (row_at d x) ≡ true) e there) refl)
        (λ missing. rw (here, subst (λ x. is_some (row_at d x) ≡ false) e missing) refl)
  | inr other ↦
      if_cases (is_some (row_at d p))
        (λ x. row_at x q ≡ (if same_row p q && is_some (row_at d q) then some v else row_at d q))
        (λ there. row_at-put_row p q v d ∙ rw other refl) (λ missing. rw other refl)
]

pub audit_within :
    (d : Database) (o : Text) (app : Option Text) (n : ℕ) (rows : List Bytes)
    → audit_rows d o app (nonnegative n) ≡ some rows
    → length rows ≤ n
audit_within d o app n rows h =
    let all_rows =
      map (λ a. a.stored) (newest_first (filter (λ a. a.org_id == o && of_app app a) d.audit)) in
    let e : take n all_rows ≡ rows = cc in
    subst (λ l. length l ≤ n) e (omega (arith, length-take n all_rows))

pub audit_kept :
    (row : AuditRow) (d d' : Database) (p : Place)
    → insert_audit_row row d ≡ some d'
    → row_at d' p ≡ row_at d p
audit_kept row d d' p h =
    if_cases (is_some (row_at d (orgs, (row.org_id, []))))
      (λ m. m ≡ some d' → row_at d' p ≡ row_at d p)
      (λ there same.
        let e : record d { audit = row ∷ d.audit } ≡ d' = cc in
        subst (λ x. row_at x p ≡ row_at d p) e refl)
      (λ missing same. absurd cc) h

pub deleted_rows :
    (t : TableName) (k : PrimaryKey) (d : Database) (q : Place)
    → ltb 0 (number_of t) ≡ true
    → row_at (delete_rows (t, k) d) q ≡ (if same_row (t, k) q then none else row_at d q)
deleted_rows t k d q refers =
    let n : nat_eq (number_of t) 0 ≡ false = ground (arith, refers) in
    rw n (find-without same_row same_row_iff (t, k) q d.rows)

instance unfoldable pub rows_sql : Sql Database
unfolding find
rows_sql = record {
  created = record { rows = []; audit = [] };
  select = λ d t k. row_at d (t, k);
  select_orgs = λ d. rows_of (λ p. nat_eq (number_of p.0) 0) d;
  select_of = λ d t o. rows_of (λ p. nat_eq (number_of p.0) (number_of t) && is_of o p) d;
  insert = λ t k v d. insert_row (t, k) v d;
  upsert = λ t k v d. upsert_row (t, k) v d;
  update = λ t k v d. update_row (t, k) v d;
  delete = λ t k d. (if is_some (row_at d (t, k)) then 1 else 0, delete_rows (t, k) d);
  insert_audit = insert_audit_row;
  select_audit = audit_rows;
  select-created = λ t k. refl;
  select-insert =
      λ t k v d d' h. let (free, reads) = inserted (t, k) v d d' h in (free, λ u j. reads (u, j));
  select-upsert = λ t k v d d' h u j. upserted (t, k) v d d' h (u, j);
  select-update = λ t k v d u j. updated (t, k) v d (u, j);
  select-delete = λ t k d u j refers. deleted_rows t k d (u, j) refers;
  select-delete_org = λ o d u j. find-without_any same_row same_row_iff (is_of o) (u, j) d.rows;
  deleted = λ t k d. refl;
  length-select_audit = audit_within;
  select-insert_audit = λ row d d' t k h. audit_kept row d d' (t, k) h;
}
