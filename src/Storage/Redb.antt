-- ===== src/Storage/Redb.antt =====
-- What storage/redb_backend.rs uses of the crates `redb` and `serde_json`, which are not part of
-- the repository: an ordered table from texts to bytes, and a pair of functions for each stored
-- type. The laws are what these crates document: `iter` yields the entries in key order, the
-- other operations act on them as on an ordered map, and a value survives serialisation.
use peat_gateway.Base.{Text, Bytes, Option, some, [], ◌≡◌}
use peat_gateway.Base.Entries.{Entries, lookup, put, erase}
use peat_gateway.Tenant.Models.{
  Organization, FormationConfig, EnrollmentToken, CdcSinkConfig, IdpConfig, PolicyRule,
  EnrollmentAuditEntry,
}

-- `T` is a table's type. `remove` also returns the value that was there.
pub record Redb (T : Type 0) : Type 0 where
  pub create : T
  pub get : T → Text → Option Bytes
  pub insert : T → Text → Bytes → T
  pub remove : T → Text → Option Bytes × T
  pub iter : T → Entries
  pub iter-create : iter create ≡ []
  pub get_lem : (t : T) (k : Text) → get t k ≡ lookup k (iter t)
  pub iter-insert : (t : T) (k : Text) (v : Bytes) → iter (insert t k v) ≡ put k v (iter t)
  pub removed : (t : T) (k : Text) → (remove t k).0 ≡ lookup k (iter t)
  pub iter-remove : (t : T) (k : Text) → iter (remove t k).1 ≡ erase k (iter t)

-- `serde_json::to_vec` and `from_slice` at one type.
pub record Codec (A : Type 0) : Type 0 where
  pub to_vec : A → Bytes
  pub from_slice : Bytes → Option A
  pub from_slice-to_vec : (a : A) → from_slice (to_vec a) ≡ some a

pub record Json : Type 0 where
  pub organization : Codec Organization
  pub formation : Codec FormationConfig
  pub token : Codec EnrollmentToken
  pub sink : Codec CdcSinkConfig
  pub idp : Codec IdpConfig
  pub policy_rule : Codec PolicyRule
  pub audit_entry : Codec EnrollmentAuditEntry
