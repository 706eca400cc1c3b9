-- ===== src/Storage/Postgres/Agrees.antt =====
-- storage/postgres.rs against storage/redb_backend.rs: when the two databases hold the same rows.
use peat_gateway.Storage.Keys.{formation_prefix}
use peat_gateway.Storage.Isolation.{prefixes-Disjoint}
use peat_gateway.Storage.Keys.Prefixes.{starts_with-prefix, NulFree}
use peat_gateway.Base.{
  ==_iff, ==_sound, Text, Bytes, Option, none, some, List, [], ◌∷◌, ◌++◌, ◌==◌, ◌&&◌, ◌≡◌, refl, ap,
  sym, ◌∙◌, arith, if◌then◌else◌, nat_eq, Bool-cases, inl, inr,
}
use peat_gateway.Base.Entries.{lookup, lookup-put, lookup-erase}
use peat_gateway.Storage.Redb.{Redb}
use peat_gateway.Storage.Backend
use peat_gateway.Storage.Postgres.Tables.{
  table, set_table, table-set_table, number_of-injective, Fits,
}
use peat_gateway.Storage.Backend.{Db}
use peat_gateway.Storage.Table.{remove_prefix}
use peat_gateway.Storage.Table.Views.{
  lookup-with_prefix, with_prefix-remove_prefix, with_prefix-remove_prefix_outside,
}
use peat_gateway.Storage.Sql.{
  Sql, TableName, orgs, formations, enrollment_tokens, cdc_sinks, cdc_cursors, idp_configs,
  policy_rules, genesis, number_of, same_row, same_columns,
}
use peat_gateway.Storage.Postgres.Columns.{joined, NulFreeColumns, ==-joined}

pub lookup-nil : (k : Text) → lookup k [] ≡ none
unfolding lookup
lookup-nil k = refl

module _ {T : Type 0} ⦃r : Redb T⦄ where
  pub get-insert :
      (x : T) (k j : Text) (v : Bytes)
      → r.get (r.insert x k v) j ≡ (if k == j then some v else r.get x j)
  get-insert x k j v =
      r.get_lem (r.insert x k v) j
      ∙ ap (lookup j) (r.iter-insert x k v)
      ∙ lookup-put k j v (r.iter x)
      ∙ ap (λ o. if k == j then some v else o) (sym (r.get_lem x j))

  pub get-remove :
      (x : T) (k j : Text) → r.get (r.remove x k).1 j ≡ (if k == j then none else r.get x j)
  get-remove x k j =
      r.get_lem (r.remove x k).1 j
      ∙ ap (lookup j) (r.iter-remove x k)
      ∙ lookup-erase k j (r.iter x)
      ∙ ap (λ o. if k == j then none else o) (sym (r.get_lem x j))

  -- A key of another organisation stays, and those of the organisation go.
  get-remove_prefix :
      (x : T) (o p c : Text) (cs : List Text)
      → NulFree o
      → NulFree p
      → r.get (remove_prefix (o ++ (0 ∷ [])) x) (joined p (c ∷ cs))
        ≡ (if o == p then none else r.get x (joined p (c ∷ cs)))
  unfolding joined
  get-remove_prefix x o p c cs free_o free_p =
      let pre = λ (t : Text). t ++ (0 ∷ []) in
      let k = p ++ (0 ∷ joined c cs) in
      let y = remove_prefix (pre o) x in
      let under = λ (z : T).
        r.get_lem z k
        ∙ sym (lookup-with_prefix (pre p) k (r.iter z) (starts_with-prefix p (joined c cs))) in
      under y ∙ elim (Bool-cases (o == p)) [
        | inl same ↦
            rw (same, sym (==_sound o p same), with_prefix-remove_prefix (pre o) x) (lookup-nil _)
        | inr other ↦
            rw
              (
                other,
                with_prefix-remove_prefix_outside (pre o) (pre p) x (
                    prefixes-Disjoint p o free_p free_o
                      (λ q. absurd (ground (arith, other, q, ==_iff o p)))),
              )
              (sym (under x))
      ]

module _ {T D : Type 0} ⦃r : Redb T⦄ ⦃sql : Sql D⦄ where
  -- The two databases hold the same rows.
  unfoldable pub Agree : Db T → D → Type 0
  Agree db d =
      (t : TableName) (o : Text) (cs : List Text)
      → Fits t cs
      → NulFreeColumns o cs
      → r.get (table t db) (joined o cs) ≡ sql.select d t (o, cs)

  -- One table is written at one key, and the databases agree on what is there then.
  pub written_agrees :
      (t : TableName) (o : Text) (cs : List Text) (w : Option Bytes) (x : T) (db : Db T) (d d' : D)
      → NulFreeColumns o cs
      → Agree db d
      → ((k : Text) → r.get x k ≡ (if joined o cs == k then w else r.get (table t db) k))
      → ((u : TableName) (p : Text) (ds : List Text)
          → sql.select d' u (p, ds)
            ≡ (if same_row (t, (o, cs)) (u, (p, ds)) then w else sql.select d u (p, ds)))
      → Agree (set_table t x db) d'
  unfolding Agree
  written_agrees t o cs w x db d d' free agree wrote selects u p ds fits free' =
      ap (λ y. r.get y (joined p ds)) (table-set_table t u x db)
      ∙ elim (Bool-cases (nat_eq (number_of t) (number_of u))) [
        | inl same ↦
            let q : u ≡ t = sym (number_of-injective t u same) in
            rw (same, wrote (joined p ds), ==-joined o p cs ds free free', selects u p ds, same)
              (ap (λ m. if o == p && same_columns cs ds then w else m)
                (ap (λ y. r.get (table y db) (joined p ds)) (sym q) ∙ agree u p ds fits free'))
        | inr other ↦ rw (other, selects u p ds, other) (agree u p ds fits free')
      ]

  cascades :
      (o : Text) (db : Db T) (d : D) (t : TableName) (p c : Text) (cs : List Text)
      → NulFree o
      → Agree db d
      → Fits t (c ∷ cs)
      → NulFreeColumns p (c ∷ cs)
      → r.get (remove_prefix (o ++ (0 ∷ [])) (table t db)) (joined p (c ∷ cs))
        ≡ sql.select (sql.delete orgs (o, []) d).1 t (p, c ∷ cs)
  unfolding Agree
  cascades o db d t p c cs free agree fits free' =
      get-remove_prefix (table t db) o p c cs free free'.0
      ∙ ap (λ m. if o == p then none else m) (agree t p (c ∷ cs) fits free')
      ∙ sym (sql.select-delete_org o d t (p, c ∷ cs))

  pub deleted_org_agrees :
      (o : Text) (db : Db T) (d : D)
      → NulFree o
      → Agree db d
      → Agree (Backend.delete_org db o).1 (sql.delete orgs (o, []) d).1
  unfolding Agree table Backend.delete_org formation_prefix joined
  deleted_org_agrees o db d free agree orgs p [] fits free' =
      get-remove db.orgs o p
      ∙ ap (λ m. if o == p then none else m) (agree orgs p [] fits free')
      ∙ sym (sql.select-delete_org o d orgs (p, []))
  deleted_org_agrees o db d free agree orgs p (c ∷ cs) fits free' = absurd fits
  deleted_org_agrees o db d free agree formations p [] fits free' = absurd fits
  deleted_org_agrees o db d free agree formations p (c ∷ cs) fits free' =
      cascades o db d formations p c cs free agree fits free'
  deleted_org_agrees o db d free agree enrollment_tokens p [] fits free' = absurd fits
  deleted_org_agrees o db d free agree enrollment_tokens p (c ∷ cs) fits free' =
      cascades o db d enrollment_tokens p c cs free agree fits free'
  deleted_org_agrees o db d free agree cdc_sinks p [] fits free' = absurd fits
  deleted_org_agrees o db d free agree cdc_sinks p (c ∷ cs) fits free' =
      cascades o db d cdc_sinks p c cs free agree fits free'
  deleted_org_agrees o db d free agree cdc_cursors p [] fits free' = absurd fits
  deleted_org_agrees o db d free agree cdc_cursors p (c ∷ cs) fits free' =
      cascades o db d cdc_cursors p c cs free agree fits free'
  deleted_org_agrees o db d free agree idp_configs p [] fits free' = absurd fits
  deleted_org_agrees o db d free agree idp_configs p (c ∷ cs) fits free' =
      cascades o db d idp_configs p c cs free agree fits free'
  deleted_org_agrees o db d free agree policy_rules p [] fits free' = absurd fits
  deleted_org_agrees o db d free agree policy_rules p (c ∷ cs) fits free' =
      cascades o db d policy_rules p c cs free agree fits free'
  deleted_org_agrees o db d free agree genesis p [] fits free' = absurd fits
  deleted_org_agrees o db d free agree genesis p (c ∷ cs) fits free' =
      cascades o db d genesis p c cs free agree fits free'
