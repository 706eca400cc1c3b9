-- ===== src/Api/Handlers/Orgs.antt =====
-- api/orgs.rs: the handlers of organisations and formations.
use peat_gateway.Base.{Text, Option, List, Exec, map_err, bad_request, not_found}
use peat_gateway.Storage.Redb.{Redb, Json}
use peat_gateway.Storage.Backend.{Db}
use peat_gateway.Crypto.Interfaces.{Aead}
use peat_gateway.Tenant.Mesh.{Mesh}
use peat_gateway.Tenant.Models.{
  Organization, OrgQuotas, FormationConfig, EnrollmentPolicy, controlled,
}
use peat_gateway.Tenant.Manager
use peat_gateway.Tenant.Manager.{TenantManager}
use peat_gateway.Api.Replies.{Ambient, StatusCode, created, returning, or_default}

pub record CreateOrgRequest : Type 0 where
  pub org_id : Text
  pub display_name : Text

pub record UpdateOrgRequest : Type 0 where
  pub display_name : Option Text
  pub quotas : Option OrgQuotas

pub record CreateFormationRequest : Type 0 where
  pub app_id : Text
  pub enrollment_policy : Option EnrollmentPolicy

abbrev pub default_enrollment_policy : EnrollmentPolicy
default_enrollment_policy = controlled

module _ {T : Type 0} ⦃r : Redb T⦄ ⦃j : Json⦄ where
  unfoldable pub create_org : Ambient → CreateOrgRequest → Exec (Db T) Organization
  create_org amb req = map_err bad_request (Manager.create_org amb.now req.org_id req.display_name)

  unfoldable pub list_orgs : Exec (Db T) (List Organization)
  list_orgs = map_err bad_request Manager.list_orgs

  unfoldable pub get_org : Text → Exec (Db T) Organization
  get_org org_id = map_err not_found (Manager.get_org org_id)

  unfoldable pub update_org : Text → UpdateOrgRequest → Exec (Db T) Organization
  update_org org_id req = map_err not_found (Manager.update_org org_id req.display_name req.quotas)

  unfoldable pub delete_org : Text → Exec (Db T) (Unit {0})
  delete_org org_id = map_err not_found (Manager.delete_org org_id)

  unfoldable pub create_formation :
      {G : Type 0} ⦃aead : Aead⦄
      → Mesh G
      → TenantManager
      → Ambient
      → Text
      → CreateFormationRequest
      → Exec (Db T) (StatusCode × FormationConfig)
  create_formation mesh mgr amb org_id req = map_err bad_request (
      returning (λ f. (created, f))
        (Manager.create_formation mesh mgr amb.genesis_rng amb.draws org_id req.app_id
          (or_default default_enrollment_policy req.enrollment_policy)))

  unfoldable pub list_formations : Text → Exec (Db T) (List FormationConfig)
  list_formations org_id = map_err not_found (Manager.list_formations org_id)

  unfoldable pub get_formation : Text → Text → Exec (Db T) FormationConfig
  get_formation org_id app_id = map_err not_found (Manager.get_formation org_id app_id)

  unfoldable pub delete_formation : TenantManager → Text → Text → Exec (Db T) (Unit {0})
  delete_formation mgr org_id app_id =
      map_err not_found (Manager.delete_formation mgr org_id app_id)
