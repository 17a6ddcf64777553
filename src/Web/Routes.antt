-- ===== src/Web/Routes.antt =====
-- server.go: `Routes`. The patterns of http.ServeMux are read for clean paths without escapes: a `GET`
-- pattern serves HEAD too, a wildcard is one segment that is not empty, the most specific pattern
-- wins, and a path that only a pattern with another method has is answered by 405.
pub mod Actions
pub mod Serving
pub mod Guarding
pub mod Deleting
use pf_media.Base.{
  Str, ℕ, Bool, true, false, not, ◌&&◌, ◌||◌, Option, none, some, List, [], ◌∷◌, if◌then◌else◌,
  ◌==◌, ◌/=◌, str_eq, codes,
}
use pf_media.Base.Text.{has_prefix}
use pf_media.Base.Split.{split, has_suffix}
use pf_media.Domain.{Result, ok, err}
use pf_media.Exec.{Exec, World}
use pf_media.Auth.{User, Identity, Cache, Middleware, authenticate, processor_token_ok}
use pf_media.Service.{Media}
use pf_media.Web.{
  Method, get, head, post, delete, other_method, Request, Decoders, Response, error, location, text,
  no_page, unauthorized, Handler, only,
}
use pf_media.Web.Handlers
use pf_media.Web.Handlers.{files_prefix, folders_prefix, links_prefix, jobs_prefix}

abbrev pub is_get : Method → Bool
is_get get = true
is_get _ = false

abbrev pub is_post : Method → Bool
is_post post = true
is_post _ = false

abbrev pub is_delete : Method → Bool
is_delete delete = true
is_delete _ = false

-- The methods that a `GET` pattern serves.
abbrev pub serves_get : Method → Bool
serves_get get = true
serves_get head = true
serves_get _ = false

-- The patterns of the mux.
pub data Route : Type 0 where
  health : Route
  share : Str → Route
  share_download : Str → Route
  signed_in : Route
  finish : Str → Route
  wrong_method : Route
  to_slash : Route
  nowhere : Route

-- Below "/v1/", for a method that a `GET` pattern serves: "/v1/s/{token}" and
-- "/v1/s/{token}/download" are more specific than "/v1/".
abbrev pub share_route : List Str → Route
share_route (_ ∷ _ ∷ s ∷ token ∷ []) =
    if s == codes "s" && token /= [] then share token else signed_in
share_route (_ ∷ _ ∷ s ∷ token ∷ last ∷ []) =
    if s == codes "s" && token /= [] && last == codes "download"
    then share_download token
    else signed_in
share_route _ = signed_in

-- "POST /internal/v1/jobs/{id}/finish"
abbrev pub finish_route : Bool → List Str → Route
finish_route posted (start ∷ internal ∷ version ∷ jobs ∷ id ∷ last ∷ []) =
    if start == []
      && internal == codes "internal"
      && version == codes "v1"
      && jobs == codes "jobs"
      && id /= []
      && last == codes "finish"
    then if posted then finish id else wrong_method
    else nowhere
finish_route posted _ = nowhere

unfoldable pub route : Method → Str → Route
route method path =
    if path == codes "/health"
    then if serves_get method then health else wrong_method
    else if has_prefix path (codes "/v1/")
    then if serves_get method then share_route (split path b'/') else signed_in
    else if path == codes "/v1"
    then to_slash
    else finish_route (is_post method) (split path b'/')

-- A server: the service behind the middleware, with the token of the image processor.
pub record Server (K D E : Type 0) : Type 0 where
  pub media : Media D E
  pub identity : Identity K E
  pub middleware : Middleware
  pub processor_token : Str
  pub decode : Decoders

-- The state of a server: the cache of the middleware, and the world of the service.
pub record Site (K D E : Type 0) : Type 0 where
  pub cache : Cache K
  pub world : World D E

module _ {K D E : Type 0} where
  -- An action of the middleware, which has the cache and the world outside.
  unfoldable pub in_auth :
      {A : Type 0} → Exec (World (Cache K) E) A → Site K D E → Result A × Site K D E
  in_auth m s =
      let (r, w) = m (record { db = s.cache; ext = s.world.ext }) in
      (r, record { cache = w.db; world = record s.world { ext = w.ext } })

  abbrev pub back : Cache K → Option (Response × World D E) → Option (Response × Site K D E)
  back cache none = none
  back cache (some (response, w)) = some (response, record { cache = cache; world = w })

  unfoldable pub in_service : Handler D E → Site K D E → Option (Response × Site K D E)
  in_service handle s = back s.cache (handle s.world)

module _ {K D E : Type 0} (server : Server K D E) (depth rounds : ℕ) where
  open server use {media, identity, middleware, processor_token, decode}

  -- The `switch` on the requests of signed-in users.
  unfoldable pub dispatch : User → Request → Handler D E
  dispatch u r =
      if is_post r.method && r.path == codes "/v1/uploads/presign"
      then Handlers.presign media decode u r
      else if is_post r.method && r.path == codes "/v1/uploads/complete"
      then Handlers.complete media decode u r
      else if is_get r.method && r.path == codes "/v1/files"
      then Handlers.list_files media decode u r
      else if is_get r.method && r.path == codes "/v1/quota"
      then Handlers.get_quota media decode u r
      else if is_post r.method && r.path == codes "/v1/folders"
      then Handlers.create_folder media decode u r
      else if is_get r.method && r.path == codes "/v1/folders"
      then Handlers.list_folders media decode u r
      else if is_delete r.method && has_prefix r.path folders_prefix
      then Handlers.delete_folder media decode depth rounds u r
      else if is_get r.method && has_prefix r.path folders_prefix
      then Handlers.get_folder media decode u r
      else if is_delete r.method && has_prefix r.path files_prefix
      then Handlers.delete_file media decode u r
      else if is_get r.method && has_prefix r.path files_prefix
      then Handlers.get_file media decode u r
      else if is_post r.method && r.path == codes "/v1/share-links"
      then Handlers.create_share media decode u r
      else if is_get r.method && r.path == codes "/v1/share-links"
      then Handlers.list_shares media decode u r
      else if is_delete r.method && has_prefix r.path links_prefix
      then Handlers.delete_share media decode u r
      else if is_get r.method && has_prefix r.path jobs_prefix
      then Handlers.get_job media decode u r
      else if is_post r.method
          && has_prefix r.path jobs_prefix
          && has_suffix r.path (codes "/retry")
      then Handlers.retry_job media decode u r
      else only no_page

  -- `mw.Handler` around the `switch`.
  unfoldable pub admit : Request → Result User × Site K D E → Option (Response × Site K D E)
  unfolding dispatch
  admit r (ok u, s) = in_service (dispatch u r) s
  admit r (err e, s) = some (unauthorized, s)

  unfoldable pub serve_signed_in : Request → Site K D E → Option (Response × Site K D E)
  unfolding admit
  serve_signed_in r s = admit r (in_auth (authenticate identity middleware r.header) s)

  -- `auth.ProcessorToken` around `finishJob`.
  unfoldable pub serve_finish : Str → Request → Site K D E → Option (Response × Site K D E)
  serve_finish id r s =
      if processor_token_ok processor_token r.header
      then in_service (Handlers.finish_job media decode id r) s
      else some (error (codes "forbidden") 403, s)

  unfoldable pub serve_route : Route → Request → Site K D E → Option (Response × Site K D E)
  unfolding serve_signed_in serve_finish
  serve_route health r s = some (record { status = 200; payload = text (codes "ok") }, s)
  serve_route (share token) r s = in_service (Handlers.get_share media decode token r) s
  serve_route (share_download token) r s =
      in_service (Handlers.download_share media decode token r) s
  serve_route signed_in r s = serve_signed_in r s
  serve_route (finish id) r s = serve_finish id r s
  serve_route wrong_method r s = some (error (codes "Method Not Allowed") 405, s)
  serve_route to_slash r s = some (record { status = 307; payload = location (codes "/v1/") }, s)
  serve_route nowhere r s = some (no_page, s)

  -- The handler of `Routes`.
  unfoldable pub serve : Request → Site K D E → Option (Response × Site K D E)
  unfolding serve_route
  serve r s = serve_route (route r.method r.path) r s
