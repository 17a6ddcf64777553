-- ===== src/Main.antt =====
-- apps/api/cmd/api/main.go: the parts that `main` puts together from the configuration. What the
-- drivers of the database, the object storage, the queue and the identity provider answer is a
-- parameter; tracing and the shutdown are left out.
pub mod Starting
pub mod Sharing
pub mod Booting
use pf_media.Base.{Str, ℕ, Bool, Option, some, [], if◌then◌else◌, ◌==◌, str_eq}
use pf_media.Domain.{Result, ok, err}
use pf_media.Domain.Results.{◌>>=◌}
use pf_media.Exec.{Exec}
use pf_media.Store.{Store}
use pf_media.Service.{Media, JobQueue, System, Passwords}
use pf_media.Objects
use pf_media.Objects.{Minio, Client, object_store}
use pf_media.Auth
use pf_media.Auth.{Identity}
use pf_media.Config.{Config, from_env}
use pf_media.Password.{hash, verify, salt_len}
use pf_media.Web.{Decoders, duration_of_seconds}
use pf_media.Web.Routes.{Server}

-- What the process is linked with. `minio cfg host` is the client that minio.New makes for a host.
-- `queue url` is the client that `queue.New` makes for an address.
pub record Libraries (K O D E : Type 0) : Type 0 where
  pub store : Str → Store D
  pub minio : Config → Str → Result (Minio O E)
  pub queue : Str → JobQueue E
  pub system : System E
  pub identity : Identity K E
  pub decode : Decoders
  pub id_key : Str → Str → ℕ → ℕ → ℕ → ℕ → Str

module _ {E : Type 0} (id_key : Str → Str → ℕ → ℕ → ℕ → ℕ → Str) (system : System E) where
  -- `Hash`, which reads the salt after the test on the password.
  unfoldable pub hash_salted : Str → Exec E Str
  unfolding hash
  hash_salted plain e =
      let (salt, e') = system.rand_read salt_len e in
      if plain == [] then (hash id_key salt plain, e) else (hash id_key salt plain, e')

  -- The package `password`, for the service.
  unfoldable pub passwords : Passwords E
  unfolding hash_salted verify
  passwords = record { hash = hash_salted; verify = verify id_key }

module _ {K O D E : Type 0} (libs : Libraries K O D E) where
  -- `service.NewMedia` with its arguments. A nil pointer to a queue would not be a nil interface, so
  -- the service always has a queue.
  unfoldable pub media_of : Config → Client O E → Media D E
  unfolding passwords duration_of_seconds object_store
  media_of cfg client = record {
    store = libs.store cfg.database_url;
    objects = object_store client;
    queue = some (libs.queue cfg.redis_url);
    system = libs.system;
    passwords = passwords libs.id_key libs.system;
    quota_limit = cfg.quota_bytes;
    max_upload = cfg.max_upload_bytes;
    presign_ttl = duration_of_seconds cfg.presign_ttl;
  }

  unfoldable pub server_of : Config → Client O E → Server K D E
  unfolding media_of
  server_of cfg client = record {
    media = media_of cfg client;
    identity = libs.identity;
    middleware = Auth.new cfg.dev_auth cfg.oidc_issuer cfg.oidc_internal_base cfg.oidc_audience;
    processor_token = cfg.processor_token;
    decode = libs.decode;
  }

  -- The server that `main` listens with, or the error that it stops with. The calls that only test a
  -- connection, or make the bucket, are left out.
  unfoldable pub start : (Str → Str) → Result (Server K D E)
  unfolding from_env server_of
  start getenv = do
    cfg ← from_env getenv
    client ← Objects.new (libs.minio cfg) cfg.s3_endpoint cfg.s3_public_endpoint cfg.s3_bucket
    ok (server_of cfg client)
