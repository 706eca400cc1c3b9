-- ===== src/Storage/Postgres/Tables.antt =====
-- storage/postgres.rs: the tables of `connect`, beside those of storage/redb_backend.rs.
use peat_gateway.Base.{
  ℕ, zero, suc, Text, List, [], ◌∷◌, ◌≡◌, refl, ap, sym, ◌∙◌, if◌then◌else◌, nat_eq, nat_eq_iff,
  true,
}
use peat_gateway.Storage.Backend.{Db}
use peat_gateway.Storage.Sql.{
  TableName, orgs, formations, enrollment_tokens, cdc_sinks, cdc_cursors, idp_configs, policy_rules,
  genesis, number_of,
}

pub by_table {ℓ} :
    (P : TableName → Type ℓ)
    → P orgs
    → P formations
    → P enrollment_tokens
    → P cdc_sinks
    → P cdc_cursors
    → P idp_configs
    → P policy_rules
    → P genesis
    → (t : TableName) → P t
by_table P o f t s c i r g orgs = o
by_table P o f t s c i r g formations = f
by_table P o f t s c i r g enrollment_tokens = t
by_table P o f t s c i r g cdc_sinks = s
by_table P o f t s c i r g cdc_cursors = c
by_table P o f t s c i r g idp_configs = i
by_table P o f t s c i r g policy_rules = r
by_table P o f t s c i r g genesis = g

module _ {T : Type 0} where
  unfoldable pub table : TableName → Db T → T
  table orgs db = db.orgs
  table formations db = db.formations
  table enrollment_tokens db = db.tokens
  table cdc_sinks db = db.sinks
  table cdc_cursors db = db.cursors
  table idp_configs db = db.idps
  table policy_rules db = db.policy_rules
  table genesis db = db.genesis

  unfoldable pub set_table : TableName → T → Db T → Db T
  set_table orgs x db = record db { orgs = x }
  set_table formations x db = record db { formations = x }
  set_table enrollment_tokens x db = record db { tokens = x }
  set_table cdc_sinks x db = record db { sinks = x }
  set_table cdc_cursors x db = record db { cursors = x }
  set_table idp_configs x db = record db { idps = x }
  set_table policy_rules x db = record db { policy_rules = x }
  set_table genesis x db = record db { genesis = x }

  abbrev IsWritten : TableName → T → Db T → TableName → Type 0
  IsWritten t x db u =
      table u (set_table t x db) ≡ (if nat_eq (number_of t) (number_of u) then x else table u db)

  pub table-set_table : (t u : TableName) (x : T) (db : Db T) → IsWritten t x db u
  unfolding table set_table by_table
  table-set_table orgs u x db =
      by_table (IsWritten orgs x db) refl refl refl refl refl refl refl refl u
  table-set_table formations u x db =
      by_table (IsWritten formations x db) refl refl refl refl refl refl refl refl u
  table-set_table enrollment_tokens u x db =
      by_table (IsWritten enrollment_tokens x db) refl refl refl refl refl refl refl refl u
  table-set_table cdc_sinks u x db =
      by_table (IsWritten cdc_sinks x db) refl refl refl refl refl refl refl refl u
  table-set_table cdc_cursors u x db =
      by_table (IsWritten cdc_cursors x db) refl refl refl refl refl refl refl refl u
  table-set_table idp_configs u x db =
      by_table (IsWritten idp_configs x db) refl refl refl refl refl refl refl refl u
  table-set_table policy_rules u x db =
      by_table (IsWritten policy_rules x db) refl refl refl refl refl refl refl refl u
  table-set_table genesis u x db =
      by_table (IsWritten genesis x db) refl refl refl refl refl refl refl refl u

-- The tables from their numbers.
numbered : ℕ → TableName
numbered zero = orgs
numbered (suc zero) = formations
numbered (suc (suc zero)) = enrollment_tokens
numbered (suc (suc (suc zero))) = cdc_sinks
numbered (suc (suc (suc (suc zero)))) = cdc_cursors
numbered (suc (suc (suc (suc (suc zero))))) = idp_configs
numbered (suc (suc (suc (suc (suc (suc zero)))))) = policy_rules
numbered (suc (suc (suc (suc (suc (suc (suc n))))))) = genesis

numbered-number_of : (t : TableName) → numbered (number_of t) ≡ t
unfolding numbered
numbered-number_of =
    by_table (λ t. numbered (number_of t) ≡ t) refl refl refl refl refl refl refl refl

pub number_of-injective : (t u : TableName) → nat_eq (number_of t) (number_of u) ≡ true → t ≡ u
number_of-injective t u h =
    sym (numbered-number_of t)
    ∙ ap numbered ((nat_eq_iff (number_of t) (number_of u)).0 h)
    ∙ numbered-number_of u

-- A key of orgs has no further column, and the others have one.
abbrev pub Fits : TableName → List Text → Type 0
Fits orgs [] = Unit
Fits orgs (c ∷ cs) = ⊥
Fits t [] = ⊥
Fits t (c ∷ cs) = Unit
