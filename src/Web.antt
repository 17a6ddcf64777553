-- ===== src/Web.antt =====
-- apps/api/internal/web/server.go: requests, responses, and the status of an error. The handlers and
-- the routes are below.
pub mod Handlers
pub mod Acting
pub mod Routes
use pf_media.Base.{
  Str, ℕ, Bool, true, false, if◌then◌else◌, Option, none, some, List, [], ◌∷◌, codes,
}
use pf_media.Base.Dict.{Dict}
use pf_media.Base.Int.{ℤ, pos, mul64}
use pf_media.Domain.{
  Err, not_found, forbidden, conflict, quota_exceeded, invalid, too_large, expired,
  password_required, other, wrapped, Result, ok, err, Variants,
}
use pf_media.Exec.{Exec, World}
use pf_media.Auth.{Header}
use pf_media.Service.{FileView}
use pf_media.Service.Uploads.{PresignInput, PresignResult}
use pf_media.Service.Files.{QuotaView}
use pf_media.Service.Folders.{FolderView}
use pf_media.Service.Shares.{ShareLinkView, PublicFile}
use pf_media.Service.Jobs.{JobView}

pub data Method : Type 0 where
  get head post delete : Method
  other_method : Str → Method

-- An *http.Request with a clean path and no escapes in it. `header` is r.Header.Get, and `query` is
-- r.URL.Query().Get.
pub record Request : Type 0 where
  pub method : Method
  pub path : Str
  pub query : Str → Str
  pub header : Header
  pub body : Str

-- The bodies of requests.
pub record CompleteBody : Type 0 where
  pub file_id : Str
  pub etag : Str

pub record FolderBody : Type 0 where
  pub name : Str
  pub parent_id : Str

pub record ShareBody : Type 0 where
  pub file_id : Str
  pub expires_in_seconds : ℤ
  pub password : Str

pub record FinishBody : Type 0 where
  pub variants : Variants
  pub error : Str

-- encoding/json on each of the bodies; `none` is an error.
pub record Decoders : Type 0 where
  pub presign_body : Str → Option PresignInput
  pub complete_body : Str → Option CompleteBody
  pub folder_body : Str → Option FolderBody
  pub share_body : Str → Option ShareBody
  pub finish_body : Str → Option FinishBody

-- What a handler writes: the text of http.Error, the value that is encoded as JSON, nothing, or the
-- target of a redirection.
pub data Payload : Type 0 where
  text : Str → Payload
  presigned : PresignResult → Payload
  file : FileView → Payload
  listing : List FileView → List FolderView → QuotaView → Payload
  quota : QuotaView → Payload
  folder : FolderView → Payload
  folders : List FolderView → Payload
  deleted : Payload
  share_link : ShareLinkView → Payload
  share_links : List ShareLinkView → Payload
  job : JobView → Payload
  public_file : PublicFile → Payload
  needs_password : Payload
  location : Str → Payload
  nothing : Payload

pub record Response : Type 0 where
  pub status : ℕ
  pub payload : Payload

-- http.Error
abbrev pub error : Str → ℕ → Response
error message status = record { status = status; payload = text message }

abbrev pub write_json : ℕ → Payload → Response
write_json status payload = record { status = status; payload = payload }

-- http.NotFound
abbrev pub no_page : Response
no_page = error (codes "404 page not found") 404

abbrev pub unauthorized : Response
unauthorized = error (codes "unauthorized") 401

abbrev pub bad_request : Response
bad_request = error (codes "bad request") 400

unfoldable pub write_err : Err → Response
write_err not_found = error (codes "not found") 404
write_err forbidden = error (codes "forbidden") 403
write_err quota_exceeded = error (codes "quota exceeded") 403
write_err invalid = error (codes "invalid") 400
write_err too_large = error (codes "too large") 413
write_err conflict = error (codes "conflict") 409
write_err expired = error (codes "expired") 410
write_err password_required = error (codes "password required") 401
write_err (other _) = error (codes "internal error") 500
write_err (wrapped _ e) = write_err e

-- errors.Is(err, domain.ErrPasswordRequired)
abbrev pub is_password_required : Err → Bool
is_password_required password_required = true
is_password_required (wrapped _ e) = is_password_required e
is_password_required _ = false

unfoldable pub write_share_err : Err → Response
unfolding write_err
write_share_err e = if is_password_required e then write_json 401 needs_password else write_err e

-- time.Duration(seconds) * time.Second, on int64.
unfoldable pub duration_of_seconds : ℤ → ℤ
unfolding mul64
duration_of_seconds seconds = mul64 seconds (pos 1000000000)

-- A handler on the world of the service: `none` says that its fuel ran out.
abbrev pub Handler : Type 0 → Type 0 → Type 0
Handler D E = World D E → Option (Response × World D E)

-- The response for the outcome of a call.
abbrev pub respond : {A : Type 0} → (Err → Response) → (A → Response) → Result A → Response
respond on_err on_ok (ok a) = on_ok a
respond on_err on_ok (err e) = on_err e

abbrev pub reply : {S A : Type 0} → (Err → Response) → (A → Response) → Result A × S → Response × S
reply on_err on_ok (r, s) = (respond on_err on_ok r, s)

-- A handler that makes one call of the service.
unfoldable pub answer :
    {D E A : Type 0} → (Err → Response) → Exec (World D E) A → (A → Response) → Handler D E
answer on_err call on_ok w = some (reply on_err on_ok (call w))

-- A handler that makes no call.
unfoldable pub only : {D E : Type 0} → Response → Handler D E
only response w = some (response, w)

-- `if err := json.NewDecoder(r.Body).Decode(&body); err != nil { … }`
abbrev pub with_body : {D E B : Type 0} → Option B → (B → Handler D E) → Handler D E
with_body none handle = only bad_request
with_body (some body) handle = handle body
