-- ===== src/Config.antt =====
-- apps/api/internal/config/config.go. The environment is a function from names to values; os.Getenv
-- answers with the empty text for a name that is not set.
pub mod Checks
use pf_media.Base.{
  Str, ℕ, ◌*◌, Bool, true, false, not, ◌&&◌, ◌||◌, Option, none, some, List, [], ◌∷◌, ◌++◌,
  if◌then◌else◌, ◌==◌, ◌/=◌, str_eq, codes,
}
use pf_media.Base.Int.{ℤ, pos}
use pf_media.Base.Text.{trim_space, to_lower}
use pf_media.Base.Split.{trim_right_byte}
use pf_media.Base.Decimal.{parse_int64}
use pf_media.Domain.{other, Result, ok, err}
use pf_media.Domain.Results.{◌>>=◌, ◌>>◌, fail_if, expect}

pub record Config : Type 0 where
  pub env : Str
  pub http_addr : Str
  pub database_url : Str
  pub redis_url : Str
  pub s3_endpoint : Str
  pub s3_public_endpoint : Str
  pub s3_region : Str
  pub s3_access_key : Str
  pub s3_secret_key : Str
  pub s3_bucket : Str
  pub s3_use_ssl : Bool
  pub quota_bytes : ℤ
  pub max_upload_bytes : ℤ
  pub processor_token : Str
  pub dev_auth : Bool
  pub oidc_issuer : Str
  pub oidc_internal_base : Str
  pub oidc_audience : Str
  pub presign_ttl : ℤ

abbrev pub env_development : Str
env_development = codes "development"

abbrev pub env_staging : Str
env_staging = codes "staging"

abbrev pub env_production : Str
env_production = codes "production"

-- The `switch` of `normalizeEnv`, on the trimmed text in lower case.
unfoldable pub env_name : Str → Str
env_name v =
    if v == []
      || v == codes "dev"
      || v == codes "development"
      || v == codes "local"
      || v == codes "demo"
    then env_development
    else if v == codes "staging" || v == codes "stage"
    then env_staging
    else if v == codes "production" || v == codes "prod"
    then env_production
    else v

unfoldable pub normalize_env : Str → Str
unfolding env_name
normalize_env v = env_name (to_lower (trim_space v))

-- The `switch` of `envBool`.
unfoldable pub bool_of : Str → Bool → Bool
bool_of v fallback =
    if v == codes "1" || v == codes "true" || v == codes "yes" || v == codes "on"
    then true
    else if v == codes "0" || v == codes "false" || v == codes "no" || v == codes "off"
    then false
    else fallback

abbrev int_or : ℤ → Option ℤ → ℤ
int_or fallback none = fallback
int_or fallback (some n) = n

module _ (getenv : Str → Str) where
  unfoldable pub env_or : Str → Str → Str
  env_or key fallback = let v = trim_space (getenv key) in if v /= [] then v else fallback

  unfoldable pub env_or_alt : Str → Str → Str → Str
  env_or_alt primary legacy fallback =
      let v = env_or primary [] in if v /= [] then v else env_or legacy fallback

  unfoldable pub env_bool : Str → Bool → Bool
  env_bool key fallback =
      let v = trim_space (getenv key) in if v == [] then fallback else bool_of (to_lower v) fallback

  unfoldable pub env_bool_alt : Str → Str → Bool → Bool
  env_bool_alt primary legacy fallback =
      if trim_space (getenv primary) /= []
      then env_bool primary fallback
      else if trim_space (getenv legacy) /= []
      then env_bool legacy fallback
      else fallback

  unfoldable pub env_int : Str → ℤ → ℤ
  env_int key fallback =
      let v = trim_space (getenv key) in
      if v == [] then fallback else int_or fallback (parse_int64 v)

  unfoldable pub env_int64 : Str → ℤ → Result ℤ
  env_int64 key fallback =
      let v = trim_space (getenv key) in
      if v == [] then ok fallback else expect (other (codes "strconv")) (parse_int64 v)

-- `firstNonEmpty` on a list of values.
unfoldable pub first_non_empty : List Str → Str
first_non_empty [] = []
first_non_empty (v ∷ vs) =
    let rest = first_non_empty vs in if trim_space v /= [] then trim_space v else rest

-- cfg.Env == EnvStaging || cfg.Env == EnvProduction
abbrev pub is_deployed : Config → Bool
is_deployed cfg = cfg.env == env_staging || cfg.env == env_production

-- The checks at the end of `FromEnv`. The texts of its errors are shortened.
unfoldable pub validate : Config → Result Config
validate cfg = do
  fail_if (cfg.database_url == []) (other (codes "MEDIA_DATABASE_URL is required"))
  fail_if (cfg.processor_token == []) (other (codes "MEDIA_PROCESSOR_TOKEN is required"))
  fail_if (is_deployed cfg && cfg.dev_auth) (other (codes "MEDIA_DEV_AUTH must be false"))
  fail_if (is_deployed cfg && cfg.oidc_issuer == []) (other (codes "OIDC_ISSUER is required"))
  fail_if (cfg.env /= env_development && cfg.env /= env_staging && cfg.env /= env_production)
      (other (codes "unsupported MEDIA_ENV"))
  ok cfg

abbrev url_base : Str → Str
url_base v = trim_right_byte b'/' (trim_space v)

-- The configuration that is read, given the two numbers that may be refused.
unfoldable pub read_config : (Str → Str) → ℤ → ℤ → Config
unfolding normalize_env env_or env_or_alt env_bool env_bool_alt env_int first_non_empty
read_config getenv quota_bytes max_upload_bytes = record {
  env = normalize_env (getenv (codes "MEDIA_ENV"));
  http_addr = env_or getenv (codes "MEDIA_HTTP_ADDR") (codes ":8090");
  database_url = trim_space (getenv (codes "MEDIA_DATABASE_URL"));
  redis_url = env_or getenv (codes "MEDIA_REDIS_URL") (codes "redis://redis:6379/0");
  s3_endpoint =
      env_or_alt getenv (codes "MEDIA_S3_ENDPOINT") (codes "MEDIA_MINIO_ENDPOINT")
        (codes "garage:3900");
  s3_public_endpoint = trim_space (
      first_non_empty (
        getenv (codes "MEDIA_S3_PUBLIC_ENDPOINT")
        ∷ getenv (codes "MEDIA_MINIO_PUBLIC_ENDPOINT")
        ∷ []));
  s3_region =
      env_or_alt getenv (codes "MEDIA_S3_REGION") (codes "MEDIA_MINIO_REGION") (codes "garage");
  s3_access_key =
      env_or_alt getenv (codes "MEDIA_S3_ACCESS_KEY") (codes "MEDIA_MINIO_ACCESS_KEY")
        (codes "GKdevmedia00000001");
  s3_secret_key =
      env_or_alt getenv (codes "MEDIA_S3_SECRET_KEY") (codes "MEDIA_MINIO_SECRET_KEY")
        (codes "dev-media-secret-key-for-local-compose-demo");
  s3_bucket =
      env_or_alt getenv (codes "MEDIA_S3_BUCKET") (codes "MEDIA_MINIO_BUCKET") (codes "media");
  s3_use_ssl = env_bool_alt getenv (codes "MEDIA_S3_USE_SSL") (codes "MEDIA_MINIO_USE_SSL") false;
  quota_bytes = quota_bytes;
  max_upload_bytes = max_upload_bytes;
  processor_token = trim_space (getenv (codes "MEDIA_PROCESSOR_TOKEN"));
  dev_auth = env_bool getenv (codes "MEDIA_DEV_AUTH") true;
  oidc_issuer = url_base (getenv (codes "OIDC_ISSUER"));
  oidc_internal_base = url_base (getenv (codes "OIDC_INTERNAL_BASE"));
  oidc_audience = trim_space (getenv (codes "OIDC_AUDIENCE"));
  presign_ttl = env_int getenv (codes "MEDIA_PRESIGN_TTL_SEC") (pos 900);
}

unfoldable pub from_env : (Str → Str) → Result Config
unfolding env_int64 validate read_config
from_env getenv = do
  quota_bytes ← env_int64 getenv (codes "MEDIA_QUOTA_BYTES") (pos (100 * 1024 * 1024))
  max_upload_bytes ← env_int64 getenv (codes "MEDIA_MAX_UPLOAD_BYTES") (pos (20 * 1024 * 1024))
  validate (read_config getenv quota_bytes max_upload_bytes)
