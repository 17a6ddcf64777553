-- ===== src/Main/Starting.antt =====
-- The server that a process starts with.
use pf_media.Base.{Str, ◌≡◌, ◌≢◌, inl, inr, sym, ◌∙◌, false, [], codes}
use pf_media.Domain.{ok}
use pf_media.Domain.Results.{◌>>=◌, handed_on}
use pf_media.Exec.{World}
use pf_media.Auth.{Cache, Header, authenticate}
use pf_media.Auth.Users.{authenticate-dev_off}
use pf_media.Config.{Config, from_env, normalize_env, env_development}
use pf_media.Config.Checks.{IsValid, from_env-IsValid}
use pf_media.Objects
use pf_media.Objects.{Client}
use pf_media.Web.Routes.{Server}
use pf_media.Main.{Libraries, server_of, start}

module _ {K O D E : Type 0} (libs : Libraries K O D E) where
  pub started-dev_off :
      (cfg : Config) (client : Client O E) (server : Server K D E)
      → IsValid cfg
      → cfg.env ≢ env_development
      → server ≡ server_of libs cfg client
      → (server.middleware.dev_auth ≡ false) × (server.processor_token ≢ [])
  unfolding server_of
  started-dev_off cfg client server valid deployed same = elim valid.signs_in [
    | inl e ↦ absurd (deployed e)
    | inr (off, _) ↦ rw same (off, valid.has_token)
  ]

  -- In a process that starts with a `MEDIA_ENV` other than development, whom the middleware lets in
  -- depends on the `Authorization` header alone, and the processor's token is not empty.
  pub start-dev_off :
      (getenv : Str → Str) (server : Server K D E)
      → start libs getenv ≡ ok server
      → normalize_env (getenv (codes "MEDIA_ENV")) ≢ env_development
      → (header header' : Header) (w : World (Cache K) E)
      → header (codes "Authorization") ≡ header' (codes "Authorization")
      → (authenticate server.identity server.middleware header w
          ≡ authenticate server.identity server.middleware header' w)
        × (server.processor_token ≢ [])
  unfolding start
  start-dev_off getenv server h deployed header header' w agree =
      let (cfg, rest, read) =
        handed_on
          (λ cfg. do
            client ←
                Objects.new (libs.minio cfg) cfg.s3_endpoint cfg.s3_public_endpoint cfg.s3_bucket
            ok (server_of libs cfg client))
          (from_env getenv) h in
      let (client, same, made) =
        handed_on (λ client. ok (server_of libs cfg client))
          (Objects.new (libs.minio cfg) cfg.s3_endpoint cfg.s3_public_endpoint cfg.s3_bucket)
          rest in
      let (env_read, valid, _, _) = from_env-IsValid getenv cfg read in
      let (off, has_token) =
        started-dev_off cfg client server valid (λ e. deployed (sym env_read ∙ e)) cc in
      (authenticate-dev_off server.identity server.middleware header header' w off agree, has_token)
