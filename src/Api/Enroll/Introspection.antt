-- ===== src/Api/Enroll/Introspection.antt =====
-- api/enroll.rs: `introspect_oidc_token`, over what the requests to an identity provider come to.
use peat_gateway.Base.{
  Text, codes, trim_slashes, ◌++◌, Bool, true, false, not, Option, none, some, Result, ok, err,
  and_then, ok_or, idp_failed, token_inactive, if◌then◌else◌,
}
use peat_gateway.Api.Claims.{Claims, Value, Members, null, boolean, number, string, array, object}
use peat_gateway.Ingest.{member_of, value_at, text_in}

-- What `send` comes to: nothing, or a status, by whether it is a success, and a body, if it is JSON.
pub data Response : Type 0 where
  no_response : Response
  responds : Bool → Option Value → Response

-- The identity providers that `reqwest` reaches: a GET, a POST of a token under the credentials of
-- a client, and a GET with a bearer's token.
pub record Web : Type 0 where
  pub get : Text → Response
  pub post_token : Text → Text → Text → Text → Response
  pub get_bearing : Text → Text → Response

-- `.send().await?.json().await?`, whatever the status
abbrev pub json_of : Response → Result Value
json_of no_response = err idp_failed
json_of (responds success none) = err idp_failed
json_of (responds success (some v)) = ok v

-- a `serde_json::Map`
abbrev pub as_map : Value → Result Members
as_map (object ms) = ok ms
as_map null = err idp_failed
as_map (boolean b) = err idp_failed
as_map (number n) = err idp_failed
as_map (string s) = err idp_failed
as_map (array vs) = err idp_failed

abbrev pub map_in : Option Value → Result Members
map_in none = err idp_failed
map_in (some v) = as_map v

-- `.send().await?`, the check of the status, and `.json().await?` into a map
abbrev pub map_of : Response → Result Members
map_of no_response = err idp_failed
map_of (responds success body) = if not success then err idp_failed else map_in body

abbrev pub claims_in : Members → Claims
claims_in ms k = member_of k ms

-- `match body.get("active")`
abbrev pub if_active : Members → Option Value → Result Claims
if_active body none = err idp_failed
if_active body (some null) = err idp_failed
if_active body (some (boolean true)) = ok (claims_in body)
if_active body (some (boolean false)) = err token_inactive
if_active body (some (number n)) = err idp_failed
if_active body (some (string s)) = err idp_failed
if_active body (some (array vs)) = err idp_failed
if_active body (some (object ms)) = err idp_failed

abbrev pub discovery_url : Text → Text
discovery_url issuer_url = trim_slashes issuer_url ++ codes "/.well-known/openid-configuration"

module _ (web : Web) (client_id client_secret bearer : Text) where
  -- from the comment `Fall back to userinfo endpoint` to the end
  unfoldable pub from_userinfo : Value → Result Claims
  from_userinfo discovery =
      and_then (ok_or (text_in (value_at (codes "userinfo_endpoint") discovery)) idp_failed)
        λ url. and_then (map_of (web.get_bearing url bearer)) λ claims. ok (claims_in claims)

  -- `if let Some(introspection_url) = …`
  abbrev pub introspect_at : Value → Option Text → Result Claims
  introspect_at discovery none = from_userinfo discovery
  introspect_at discovery (some url) =
      and_then (map_of (web.post_token url client_id client_secret bearer))
        λ body. if_active body (member_of (codes "active") body)

  abbrev pub introspect_with : Result Value → Result Claims
  introspect_with (err e) = err e
  introspect_with (ok discovery) =
      introspect_at discovery (text_in (value_at (codes "introspection_endpoint") discovery))

unfoldable pub introspect_oidc_token : Web → Text → Text → Text → Text → Result Claims
unfolding from_userinfo
introspect_oidc_token web issuer_url client_id client_secret bearer =
    introspect_with web client_id client_secret bearer
      (json_of (web.get (discovery_url issuer_url)))
