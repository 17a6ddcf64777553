-- ===== src/Config/Checks.antt =====
-- What holds of a configuration that `FromEnv` answers with.
use pf_media.Base.{
  Str, ◌*◌, ◌≡◌, ◌≢◌, ◌⊎◌, refl, false, Option-cases, [], arith, str_eq, codes, inl, inr,
}
use pf_media.Base.Int.{ℤ, pos, InInt64}
use pf_media.Base.Text.{trim_space}
use pf_media.Base.Decimal.{parse_int64}
use pf_media.Base.Decimal.Bounds.{parse_int64-InInt64}
use pf_media.Domain.{ok}
use pf_media.Domain.Results.{◌>>=◌, handed_on}
use pf_media.Config.{
  Config, normalize_env, env_development, env_staging, env_production, env_int64, validate,
  read_config, from_env,
}

-- A configuration that a server may be started with.
pub record IsValid (cfg : Config) : Type 0 where
  pub known : (cfg.env ≡ env_development) ⊎ (cfg.env ≡ env_staging) ⊎ (cfg.env ≡ env_production)
  pub has_database : cfg.database_url ≢ []
  pub has_token : cfg.processor_token ≢ []
  pub signs_in : (cfg.env ≡ env_development) ⊎ ((cfg.dev_auth ≡ false) × (cfg.oidc_issuer ≢ []))

validate-IsValid : (cfg cfg' : Config) → validate cfg ≡ ok cfg' → (cfg' ≡ cfg) × IsValid cfg
unfolding validate
validate-IsValid cfg cfg' h = (
  ground arith,
  record {
    known = ground arith;
    has_database = ground arith;
    has_token = ground arith;
    signs_in = ground arith;
  },
)

env_int64-InInt64 :
    (getenv : Str → Str) (key : Str) (fallback n : ℤ)
    → InInt64 fallback
    → env_int64 getenv key fallback ≡ ok n
    → InInt64 n
unfolding env_int64
env_int64-InInt64 getenv key fallback n default h =
    elim (Option-cases (parse_int64 (trim_space (getenv key)))) [
      | inl e ↦ ground arith
      | inr (k, e) ↦ ground (arith, parse_int64-InInt64 (trim_space (getenv key)) k e)
    ]

checked-IsValid :
    (getenv : Str → Str) (quota upload : ℤ) (cfg : Config)
    → InInt64 quota
    → InInt64 upload
    → validate (read_config getenv quota upload) ≡ ok cfg
    → (cfg.env ≡ normalize_env (getenv (codes "MEDIA_ENV")))
      × IsValid cfg
      × InInt64 cfg.quota_bytes
      × InInt64 cfg.max_upload_bytes
unfolding read_config
checked-IsValid getenv quota upload cfg quota_fits upload_fits checked =
    let (same, valid) = validate-IsValid (read_config getenv quota upload) cfg checked in
    rw same (refl, valid, quota_fits, upload_fits)

-- When `FromEnv` answers with a configuration, its environment is the normalised value of
-- `MEDIA_ENV` and one of the three that are known, the database and the processor's token are given,
-- outside development the development mode of authentication is off and an issuer is given, and the
-- quota and the maximum of an upload are int64s.
pub from_env-IsValid :
    (getenv : Str → Str) (cfg : Config)
    → from_env getenv ≡ ok cfg
    → (cfg.env ≡ normalize_env (getenv (codes "MEDIA_ENV")))
      × IsValid cfg
      × InInt64 cfg.quota_bytes
      × InInt64 cfg.max_upload_bytes
unfolding from_env
from_env-IsValid getenv cfg h =
    let quota_read = env_int64 getenv (codes "MEDIA_QUOTA_BYTES") (pos (100 * 1024 * 1024)) in
    let upload_read = env_int64 getenv (codes "MEDIA_MAX_UPLOAD_BYTES") (pos (20 * 1024 * 1024)) in
    let (quota, rest, quota_is) =
      handed_on (λ quota. do upload ← upload_read; validate (read_config getenv quota upload))
        quota_read h in
    let (upload, checked, upload_is) =
      handed_on (λ upload. validate (read_config getenv quota upload)) upload_read rest in
    checked-IsValid getenv quota upload cfg
      (env_int64-InInt64 getenv (codes "MEDIA_QUOTA_BYTES") (pos (100 * 1024 * 1024)) quota
        (omega arith) quota_is)
      (env_int64-InInt64 getenv (codes "MEDIA_MAX_UPLOAD_BYTES") (pos (20 * 1024 * 1024)) upload
        (omega arith) upload_is)
      checked
