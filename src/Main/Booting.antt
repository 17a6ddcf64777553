-- ===== src/Main/Booting.antt =====
-- The order in which `main` of apps/api/cmd/api/main.go reaches what it needs: an error ends the
-- process (`log.Fatal`). The listener and the shutdown are left out.
use pf_media.Base.{
  Str, ◌≡◌, ◌≢◌, sym, ap, ◌∙◌, ◌⊎◌, inl, inr, Bool-cases, arith, true, false, [], codes,
  if◌then◌else◌, ◌==◌, str_eq,
}
use pf_media.Base.Text.{trim_space}
use pf_media.Domain.{Result, ok}
use pf_media.Exec.{Exec, ◌>>=◌, ◌>>◌, pure, lift}
use pf_media.Exec.Inversion.{bind-ok, pure-ok}
use pf_media.Config.{Config, from_env, normalize_env, env_development}
use pf_media.Config.Checks.{IsValid, from_env-IsValid}
use pf_media.Objects
use pf_media.Objects.{Minio, Client}
use pf_media.Queue.{Redis}
use pf_media.Telemetry
use pf_media.Telemetry.{Tracing}
use pf_media.Web.Routes.{Server}
use pf_media.Main.{Libraries, server_of}
use pf_media.Main.Starting.{started-dev_off}

-- `postgres.Open` and `queue.New`, and the calls of OpenTelemetry.
pub record Drivers (R T E : Type 0) : Type 0 where
  pub tracing : Tracing R T E
  pub open_store : Str → Exec E Unit
  pub new_queue : Str → Exec E (Redis E)

unfoldable pub service_name : (Str → Str) → Str
unfolding trim_space
service_name getenv =
    let name = trim_space (getenv (codes "OTEL_SERVICE_NAME")) in
    if name == [] then codes "media-api" else name

module _ {K O D R T E : Type 0} (libs : Libraries K O D E) (drivers : Drivers R T E) where
  -- The queue is connected to, and pinged.
  unfoldable pub reach_queue : Str → Exec E Unit
  reach_queue url = do q ← drivers.new_queue url; q.ping

  unfoldable pub boot : (Str → Str) → Exec E (Server K D E)
  unfolding service_name reach_queue
  boot getenv = do
    cfg ← lift (from_env getenv)
    _ ←
        Telemetry.init drivers.tracing (service_name getenv)
          (trim_space (getenv (codes "OTEL_EXPORTER_OTLP_ENDPOINT")))
    drivers.open_store cfg.database_url
    client ←
        lift (Objects.new (libs.minio cfg) cfg.s3_endpoint cfg.s3_public_endpoint cfg.s3_bucket)
    Objects.ensure_bucket client
    if cfg.redis_url == [] then pure tt else reach_queue cfg.redis_url
    pure (server_of libs cfg client)

  lift-ok : {A : Type 0} (r : Result A) (e : E) {a : A} → (lift r e).0 ≡ ok a → r ≡ ok a
  unfolding ◌>>=◌
  lift-ok r e h = h

  -- The bucket was there, or was made.
  abbrev pub BucketUp : Minio O E → Str → Type 0
  BucketUp mc bucket =
      (e : E) × (((mc.bucket_exists bucket e).0 ≡ ok true) ⊎ ((mc.make_bucket bucket e).0 ≡ ok tt))

  abbrev pub QueueUp : Str → Type 0
  QueueUp url =
      (q : Redis E) × (e : E) × (e' : E) × ((drivers.new_queue url e).0 ≡ ok q)
      × ((q.ping e').0 ≡ ok tt)

  abbrev pub DatabaseUp : Str → Type 0
  DatabaseUp url = (e : E) × ((drivers.open_store url e).0 ≡ ok tt)

  ensure_bucket-BucketUp :
      (c : Client O E) (e : E) → (Objects.ensure_bucket c e).0 ≡ ok tt → BucketUp c.mc c.bucket
  unfolding Objects.ensure_bucket
  ensure_bucket-BucketUp c e h =
      let (there, asked, rest) = bind-ok (c.mc.bucket_exists c.bucket) _ e h in
      elim (Bool-cases there) [
        | inl found ↦ (e, inl (asked ∙ ap ok found))
        | inr missing ↦ ((c.mc.bucket_exists c.bucket e).1, inr (rw missing at rest))
      ]

  reach_queue-QueueUp : (url : Str) (e : E) → (reach_queue url e).0 ≡ ok tt → QueueUp url
  unfolding reach_queue
  reach_queue-QueueUp url e h =
      let (q, connected, pinged) = bind-ok (drivers.new_queue url) _ e h in
      (q, e, (drivers.new_queue url e).1, connected, pinged)

  queue_if_given :
      (url : Str) (e : E)
      → ((if url == [] then pure tt else reach_queue url) e).0 ≡ ok tt
      → (url ≡ []) ⊎ QueueUp url
  queue_if_given url e h = elim (Bool-cases (url == [])) [
    | inl none_given ↦ inl (ground arith)
    | inr given ↦ inr (reach_queue-QueueUp url e (rw given at h))
  ]

  -- The configuration is valid, what it names was reached, and the server is that of the
  -- configuration, without development authentication.
  abbrev pub Up : (Str → Str) → Server K D E → Type 0
  Up getenv server =
      (cfg : Config) × (client : Client O E) × (from_env getenv ≡ ok cfg)
      × IsValid cfg
      × DatabaseUp cfg.database_url
      × (Objects.new (libs.minio cfg) cfg.s3_endpoint cfg.s3_public_endpoint cfg.s3_bucket
          ≡ ok client)
      × BucketUp client.mc client.bucket
      × ((cfg.redis_url ≡ []) ⊎ QueueUp cfg.redis_url)
      × (server ≡ server_of libs cfg client)
      × (server.middleware.dev_auth ≡ false)
      × (server.processor_token ≢ [])

  -- A process that gets as far as listening, with a `MEDIA_ENV` other than development, has a valid
  -- configuration; it has opened the database, has found or made the bucket, and has pinged the
  -- queue when an address of one is given. It listens with the server of this configuration, in
  -- which development authentication is off and the processor's token is not empty.
  pub boot-Up :
      (getenv : Str → Str) (server : Server K D E) (e : E)
      → (boot getenv e).0 ≡ ok server
      → normalize_env (getenv (codes "MEDIA_ENV")) ≢ env_development
      → Up getenv server
  unfolding boot
  boot-Up getenv server e h deployed =
      let (cfg, read, h1) = bind-ok (lift (from_env getenv)) _ e h in
      let (_, _, h2) = bind-ok _ _ _ h1 in
      let (_, opened, h3) = bind-ok (drivers.open_store cfg.database_url) _ _ h2 in
      let (client, made, h4) = bind-ok _ _ _ h3 in
      let (_, ensured, h5) = bind-ok (Objects.ensure_bucket client) _ _ h4 in
      let (_, queued, h6) = bind-ok _ _ _ h5 in
      let same = sym (pure-ok _ _ h6) in
      let cfg_read = lift-ok (from_env getenv) e read in
      let (env_read, valid, _, _) = from_env-IsValid getenv cfg cfg_read in
      let (off, has_token) =
        started-dev_off libs cfg client server valid (λ at. deployed (sym env_read ∙ at)) same in
      (
        cfg,
        client,
        cfg_read,
        valid,
        (_, opened),
        lift-ok (Objects.new (libs.minio cfg) cfg.s3_endpoint cfg.s3_public_endpoint cfg.s3_bucket)
            _ made,
        ensure_bucket-BucketUp client _ ensured,
        queue_if_given cfg.redis_url _ queued,
        same,
        off,
        has_token,
      )
