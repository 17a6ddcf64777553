-- ===== src/Auth.antt =====
-- apps/api/internal/auth/auth.go. Callers of one middleware share its cache of keys behind a lock;
-- here they come one after the other.
pub mod Users
use pf_media.Base.{
  Str, ℕ, ◌+◌, ◌*◌, Bool, true, false, not, ◌&&◌, ◌||◌, Option, none, some, List, [], ◌∷◌, ◌++◌,
  if◌then◌else◌, ◌==◌, ◌/=◌, nat_eq, str_eq, ltb, codes, take,
}
use pf_media.Base.Text.{trim_space, has_prefix}
use pf_media.Base.Split.{trim_prefix}
use pf_media.Domain.{other, Result, ok, err, Time}
use pf_media.Exec.{
  Exec, World, ◌>>=◌, ◌>>◌, pure, raise, reject_if, lift, attempt, in_db, in_ext, in_sys,
}

pub record User : Type 0 where
  pub sub : Str
  pub org_id : Str

-- A token that jwx has verified: its subject, and its claim `org_id` if that is a text.
pub record Token : Type 0 where
  pub subject : Str
  pub org_id : Option Str

-- The answer to an HTTP request: the status, and what reading at most so many bytes of the body gives.
pub record HttpAnswer : Type 0 where
  pub status : ℕ
  pub body : ℕ → Result Str

-- What the userinfo endpoint answers with, in JSON.
pub record UserInfo : Type 0 where
  pub sub : Str
  pub org_id : Str

-- The libraries that the middleware calls: jwx (sets of keys of a type `K`), the HTTP client,
-- encoding/json, the clock. No audience is the empty text.
pub record Identity (K E : Type 0) : Type 0 where
  pub fetch_keys : Str → Exec E K
  pub parse_token : K → Str → Str → Str → Exec E Token
  pub http_get : Str → Str → Exec E HttpAnswer
  pub parse_user_info : Str → Result UserInfo
  pub now : E → Time × E

-- The cache of a middleware: the keys and when they were loaded.
abbrev pub Cache : Type 0 → Type 0
Cache K = Option (K × Time)

-- The fields of `auth.Middleware` that do not change.
pub record Middleware : Type 0 where
  pub dev_auth : Bool
  pub issuer : Str
  pub internal_base : Str
  pub audience : Str

abbrev pub new : Bool → Str → Str → Str → Middleware
new dev_auth issuer internal_base audience = record {
  dev_auth = dev_auth;
  issuer = issuer;
  internal_base = if internal_base == [] then issuer else internal_base;
  audience = audience;
}

-- r.Header.Get
abbrev pub Header : Type 0
Header = Str → Str

abbrev pub bearer : Str
bearer = codes "Bearer "

-- 5 * time.Minute, in nanoseconds.
abbrev pub key_lifetime : ℕ
key_lifetime = 5 * 60 * 1000000000

abbrev pub org_of_claim : Option Str → Str
org_of_claim none = []
org_of_claim (some s) = trim_space s

module _ {K E : Type 0} (lib : Identity K E) (m : Middleware) where
  -- `m.jwks != nil && time.Since(m.jwksLoaded) < 5*time.Minute`; the clock is read for a set only.
  unfoldable pub cached_at : Cache K → Exec (World (Cache K) E) (Option K)
  cached_at none = pure none
  cached_at (some (keys, loaded)) = do
    now ← in_sys lib.now
    pure (if ltb now (loaded + key_lifetime) then some keys else none)

  unfoldable pub cached : Exec (World (Cache K) E) (Option K)
  unfolding cached_at
  cached w = cached_at w.db w

  unfoldable pub load_keys : Exec (World (Cache K) E) K
  load_keys = do
    keys ← in_ext (lib.fetch_keys (m.internal_base ++ codes "/.well-known/jwks.json"))
    loaded ← in_sys lib.now
    in_db (λ _. (ok tt, some (keys, loaded)))
    pure keys

  -- The test under the lock for writing, and the loading.
  unfoldable pub keys_or_load : Option K → Exec (World (Cache K) E) K
  unfolding load_keys
  keys_or_load none = load_keys
  keys_or_load (some keys) = pure keys

  -- The test under the lock for reading, and the rest.
  unfoldable pub keys_or_lock : Option K → Exec (World (Cache K) E) K
  unfolding cached keys_or_load
  keys_or_lock none = do again ← cached; keys_or_load again
  keys_or_lock (some keys) = pure keys

  unfoldable pub jwks_set : Exec (World (Cache K) E) K
  unfolding cached keys_or_lock
  jwks_set = do first ← cached; keys_or_lock first

  unfoldable pub authenticate_jwt : Str → Exec (World (Cache K) E) User
  unfolding jwks_set
  authenticate_jwt token = do
    keys ← jwks_set
    parsed ← in_ext (lib.parse_token keys m.issuer m.audience token)
    reject_if (parsed.subject == []) (other (codes "empty sub"))
    let org_id = org_of_claim parsed.org_id
    reject_if (org_id == []) (other (codes "org_id required"))
    pure (record { sub = parsed.subject; org_id = org_id })

  unfoldable pub authenticate_user_info : Str → Exec (World (Cache K) E) User
  authenticate_user_info token = do
    answer ← in_ext (lib.http_get (m.internal_base ++ codes "/userinfo") (bearer ++ token))
    reject_if (answer.status /= 200) (other (codes "userinfo"))
    body ← lift (answer.body 4096)
    info ← lift (lib.parse_user_info body)
    reject_if (info.sub == []) (other (codes "empty sub"))
    let org_id = trim_space info.org_id
    reject_if (org_id == []) (other (codes "org_id required"))
    pure (record { sub = info.sub; org_id = org_id })

  -- `if u, err := m.authenticateJWT(…); err == nil { return u, nil }`, and the other way.
  unfoldable pub or_user_info : Str → Result User → Exec (World (Cache K) E) User
  unfolding authenticate_user_info
  or_user_info token (ok u) = pure u
  or_user_info token (err e) = authenticate_user_info token

  -- `authenticate` behind the development header.
  unfoldable pub authenticate_bearer : Header → Exec (World (Cache K) E) User
  unfolding authenticate_jwt or_user_info
  authenticate_bearer header = do
    let authz = trim_space (header (codes "Authorization"))
    reject_if (not (has_prefix authz bearer)) (other (codes "missing bearer"))
    let token = trim_space (trim_prefix authz bearer)
    reject_if (token == []) (other (codes "missing bearer"))
    reject_if (m.issuer == []) (other (codes "oidc not configured"))
    r ← attempt (authenticate_jwt token)
    or_user_info token r

  -- The user of the development headers.
  unfoldable pub dev_user : Header → User
  dev_user header =
      let org_id = trim_space (header (codes "X-Dev-User-Org")) in
      record {
        sub = trim_space (header (codes "X-Dev-User-Sub"));
        org_id = if org_id == [] then codes "org-demo-a" else org_id;
      }

  unfoldable pub authenticate : Header → Exec (World (Cache K) E) User
  unfolding authenticate_bearer dev_user
  authenticate header =
      if trim_space (header (codes "X-Dev-User-Sub")) /= [] && m.dev_auth
      then pure (dev_user header)
      else authenticate_bearer header

-- The test of `ProcessorToken`: whether the handler behind it is called.
unfoldable pub processor_token_ok : Str → Header → Bool
processor_token_ok expected header =
    let got = trim_space (trim_prefix (header (codes "Authorization")) bearer) in
    not (got == [] || got /= expected)
