-- ===== src/Server.antt =====
-- internal/server/server.go: the authentication middleware, the routes and the admin endpoint. The
-- pattern matching of chi and the signature check are parameters.
pub mod Access
pub mod Signed
pub mod Caps
pub mod Busy
use azs3_proxy.Prelude.{
  ℕ, Bool, true, false, not, ◌&&◌, ◌||◌, Option, none, some, List, [], ◌∷◌, Text, codes, eq_text,
  if◌then◌else◌,
}
use azs3_proxy.Limiter.{Floats}

pub data HttpMethod : Type 0 where
  get put delete head post : HttpMethod
  other_method : Text → HttpMethod

-- `query` is r.URL.Query(), the first value of each key
pub record Request : Type 0 where
  pub method : HttpMethod
  pub path : Text
  pub query : Text → Option Text
  pub admin_token : Text

-- Query().Get(key) != "", and Query().Has(key)
abbrev pub is_text : Option Text → Bool
is_text none = false
is_text (some []) = false
is_text (some (c ∷ s)) = true

abbrev pub gets : Request → Text → Bool
gets r key = is_text (r.query key)

abbrev pub is_some : Option Text → Bool
is_some none = false
is_some (some v) = true

abbrev pub has : Request → Text → Bool
has r key = is_some (r.query key)

-- the handlers that the routes call
pub data Handler : Type 0 where
  health put_caps list_buckets : Handler
  list_multipart_uploads get_versioning list_object_versions list_objects_v2 : Handler
  enable_versioning create_bucket delete_bucket head_bucket delete_objects : Handler
  list_parts get_object_version get_object upload_part put_object head_object : Handler
  abort_multipart_upload delete_object_version delete_object post_object : Handler
  not_allowed not_found : Handler

-- the pattern that chi finds for a method and a path
pub data Route : Type 0 where
  health_route caps_route root_route bucket_route object_route no_route : Route

unfoldable pub bucket_handler : Request → HttpMethod → Handler
bucket_handler r get =
    if gets r (codes "uploads")
    then list_multipart_uploads
    else if gets r (codes "versioning")
    then get_versioning
    else if gets r (codes "versions")
    then list_object_versions
    else list_objects_v2
bucket_handler r put = if gets r (codes "versioning") then enable_versioning else create_bucket
bucket_handler r delete = delete_bucket
bucket_handler r head = head_bucket
bucket_handler r post = if has r (codes "delete") then delete_objects else not_allowed
bucket_handler r (other_method m) = not_allowed

unfoldable pub object_handler : Request → HttpMethod → Handler
object_handler r get =
    if gets r (codes "uploadId")
    then list_parts
    else if gets r (codes "versionId")
    then get_object_version
    else get_object
object_handler r put =
    if gets r (codes "uploadId") && gets r (codes "partNumber") then upload_part else put_object
object_handler r delete =
    if gets r (codes "uploadId")
    then abort_multipart_upload
    else if gets r (codes "versionId")
    then delete_object_version
    else delete_object
object_handler r head = head_object
object_handler r post = post_object
object_handler r (other_method m) = not_allowed

-- registerRoutes: the handler for a request whose path has the given pattern. Only a GET has the
-- patterns of the health check and of the root, only a PUT that of the caps.
unfoldable pub route_handler : Request → Route → Handler
route_handler r health_route = health
route_handler r caps_route = put_caps
route_handler r root_route = list_buckets
route_handler r bucket_route = bucket_handler r r.method
route_handler r object_route = object_handler r r.method
route_handler r no_route = not_found

-- What authMiddleware does with a request: it calls the next handler, or answers 403 without a body
-- or with the XML of AccessDenied.
pub data Gate : Type 0 where
  passes : Gate
  forbidden access_denied : Gate

-- s.config.AdminToken, `[]` also for a nil config
abbrev pub admin_allowed : Text → Text → Bool
admin_allowed [] token = true
admin_allowed (c ∷ s) token = eq_text token (c ∷ s)

unfoldable pub auth_middleware : Text → (Request → Bool) → Request → Gate
auth_middleware admin_token verify_signature r =
    if eq_text r.path (codes "/health") || eq_text r.path (codes "/ping")
    then passes
    else if eq_text r.path (codes "/admin/caps")
    then (if admin_allowed admin_token r.admin_token then passes else forbidden)
    else if verify_signature r
    then passes
    else access_denied

pub data Reply : Type 0 where
  runs : Handler → Reply
  stopped : Gate → Reply

-- The signature check and the routes, one after the other, for a request that the limiter let
-- pass. `find_route` is the pattern that chi finds.
unfoldable pub serve : (HttpMethod → Text → Route) → Text → (Request → Bool) → Request → Reply
serve find_route admin_token verify_signature r =
    elim (auth_middleware admin_token verify_signature r) [
      | passes ↦ runs (route_handler r (find_route r.method r.path))
      | forbidden ↦ stopped forbidden
      | access_denied ↦ stopped access_denied
    ]

module _ (fl : Floats) where
  open fl use {F, ratio, less}

  -- the payload of PUT /admin/caps
  pub record BandwidthCaps : Type 0 where
    pub read_mbps : F
    pub write_mbps : F
    pub combined_mbps : F

  -- The status of PUT /admin/caps, and the caps that it sets in the backend. `payload` is the body
  -- that json decodes; `updater` says whether the backend is a BandwidthUpdater.
  unfoldable pub update_caps : Bool → Option BandwidthCaps → ℕ × Option BandwidthCaps
  update_caps updater none = (400, none)
  update_caps updater (some caps) =
      let zero = ratio 0 1 in
      if less caps.read_mbps zero || (less caps.write_mbps zero || less caps.combined_mbps zero)
      then (400, none)
      else if less zero caps.combined_mbps
          && (less zero caps.read_mbps || less zero caps.write_mbps)
      then (400, none)
      else if not updater
      then (501, none)
      else (200, some caps)
