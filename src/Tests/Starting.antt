-- ===== src/Tests/Starting.antt =====
-- Configurations, passwords and the processes that start with them.
use pf_media.Base.{
  Bool, false, ◌+◌, none, some, Str, ℕ, zero, suc, ◌%◌, ◌<◌, true, [], ◌∷◌, codes, str_eq, arith,
  ◌≡◌, ◌≢◌, ◌⊎◌, refl, ◌==◌, str_discrete, if◌then◌else◌, length, All,
}
use pf_media.Base.Int.{pos, InInt64}
use pf_media.Base.Text.{trim_space, to_lower}
use pf_media.Base.Split.{trim_right_byte}
use pf_media.Domain.{other, ok, err, ShareLink, password_required}
use pf_media.Exec.{◌>>=◌, pure}
use pf_media.Store.Memory.{State, memory_store}
use pf_media.Auth.{authenticate}
use pf_media.Service.{Media}
use pf_media.Service.Shares.{hash_password, share_password_ok}
use pf_media.Objects
use pf_media.Objects.{Minio, Client, delete_prefix}
use pf_media.Config.{Config, normalize_env, bool_of, read_config, from_env, env_development}
use pf_media.Config.Checks.{IsValid, from_env-IsValid}
use pf_media.Password.{memory_kib, time_cost, threads, key_len, hash, verify}
use pf_media.Password.Checking.{IsByte, IsKeyDerivation, verify-hash}
use pf_media.Main.{Libraries, passwords, server_of, start}
use pf_media.Main.Sharing.{IsRandom, share_password_ok-hash}
use pf_media.Telemetry
use pf_media.Main.Booting.{Drivers, reach_queue, boot, Up, boot-Up}
use pf_media.Tests.Messages.{one_message}
use pf_media.Main.Starting.{start-dev_off}
use pf_media.Tests.Demo.{demo, zeros, alice, bob}
use pf_media.Tests.Demo
use pf_media.Tests.Serving.{no_identity, dev_header, cache_world, demo_server}

-- The environment of a process in production.
abbrev production_env : Str → Str
production_env name =
    if name == codes "MEDIA_ENV"
    then codes "prod"
    else if name == codes "MEDIA_DATABASE_URL"
    then codes "pg"
    else if name == codes "MEDIA_PROCESSOR_TOKEN"
    then codes "tok"
    else if name == codes "MEDIA_DEV_AUTH"
    then codes "off"
    else if name == codes "OIDC_ISSUER"
    then codes "http://id/"
    else []

abbrev production : Config
production = read_config production_env (pos 104857600) (pos 20971520)

production_read : from_env production_env ≡ ok production
unfolding from_env read_config str_discrete trim_space to_lower bool_of trim_right_byte
production_read = refl

from_env-IsValid_example :
    (production.env ≡ normalize_env (production_env (codes "MEDIA_ENV")))
    × IsValid production
    × InInt64 production.quota_bytes
    × InInt64 production.max_upload_bytes
from_env-IsValid_example = from_env-IsValid production_env production production_read

-- A key derivation that makes every byte of the key the length of the password.
abbrev repeated : ℕ → ℕ → Str
repeated zero b = []
repeated (suc n) b = b ∷ repeated n b

repeated-IsByte : (n b : ℕ) → b < 256 → All IsByte (repeated n b)
repeated-IsByte zero b h = tt
repeated-IsByte (suc n) b h = (h, repeated-IsByte n b h)

length-repeated : (n b : ℕ) → length (repeated n b) ≡ n
length-repeated zero b = refl
length-repeated (suc n) b = ground (arith, length-repeated n b)

abbrev demo_key : Str → Str → ℕ → ℕ → ℕ → ℕ → Str
demo_key password salt time memory lanes n = repeated n (length password % 256)

demo_key-IsKeyDerivation : IsKeyDerivation demo_key
demo_key-IsKeyDerivation = record {
  key_bytes =
      λ password salt time memory lanes n. repeated-IsByte n (length password % 256) (omega arith);
  key_length = λ password salt time memory lanes n. length-repeated n (length password % 256);
}

abbrev salt : Str
salt = 7 ∷ 250 ∷ []

not_empty : codes "secret" ≢ []
not_empty = ground arith

verify-hash_example :
    (encoded : Str) × (hash demo_key (ok salt) (codes "secret") ≡ ok encoded)
    × (verify demo_key (codes "secret") encoded ≡ ok true)
    × (verify demo_key (codes "other") encoded
        ≡ ok (
            demo_key (codes "other") salt time_cost memory_kib threads key_len
            == demo_key (codes "secret") salt time_cost memory_kib threads key_len))
verify-hash_example =
    verify-hash demo_key demo_key-IsKeyDerivation salt (codes "secret") (ground arith) not_empty
      (codes "other") (ground arith)

-- The service of the tests with the package `password`, and a random source that fills in zeros.
abbrev locked_demo : Media State ℕ
locked_demo = record demo { passwords = passwords demo_key demo.system }

zeros-IsByte : (n : ℕ) → All IsByte (zeros n)
zeros-IsByte zero = tt
zeros-IsByte (suc n) = (omega arith, zeros-IsByte n)

demo-IsRandom : IsRandom locked_demo.system
demo-IsRandom = record {
  read_bytes =
      λ n e bytes h. let same : zeros n ≡ bytes = ground arith in rw (← same) (zeros-IsByte n);
}

abbrev secret_hash : Str
secret_hash =
    codes
      "$argon2id$v=19$m=65536,t=1,p=4$AAAAAAAAAAAAAAAAAAAAAA$BgYGBgYGBgYGBgYGBgYGBgYGBgYGBgYGBgYGBgYGBgY"

secret_hashed : (hash_password locked_demo (codes "secret") Demo.start).0 ≡ ok secret_hash
unfolding hash_password passwords str_discrete ◌>>=◌
secret_hashed = refl

-- A link that was made with the password.
abbrev locked_link : ShareLink
locked_link = record {
  id = codes "a";
  token = codes "t";
  file_id = codes "f";
  owner_sub = alice;
  org_id = codes "acme";
  password_hash = secret_hash;
  expires_at = 10;
  created_at = 0;
}

share_password_ok-hash_example :
    (share_password_ok locked_demo locked_link (codes "secret") ≡ ok tt)
    × ((codes "secret" ≡ [])
        ⊎ (share_password_ok locked_demo locked_link [] ≡ err password_required))
share_password_ok-hash_example =
    share_password_ok-hash demo_key demo_key-IsKeyDerivation locked_demo demo-IsRandom
      (codes "secret") secret_hash Demo.start locked_link refl secret_hashed refl

-- An object storage that lists two objects below every prefix, and cannot remove the second.
abbrev demo_minio : Minio Str ℕ
demo_minio = record {
  bucket_exists = λ bucket e. (ok true, e);
  make_bucket = λ bucket e. (ok tt, e);
  presigned_put = λ bucket key ttl e. (ok (codes "http://put/"), e);
  presigned_get = λ bucket key ttl e. (ok (codes "http://get/"), e);
  stat_object = λ bucket key e. (ok (pos 100, codes "etag"), e);
  get_object = λ bucket key e. (ok key, e);
  read_object = λ obj n e. (ok (codes "data", none), e);
  remove_object = λ bucket key e. (ok tt, e);
  remove_listed = λ bucket prefix e. (ok (none ∷ some (other (codes "locked")) ∷ []), e + 1);
}

abbrev demo_client : Client Str ℕ
demo_client = record { mc = demo_minio; presign_mc = demo_minio; bucket = codes "media" }

abbrev libs : Libraries (Unit {0}) Str State ℕ
libs = record {
  store = λ url. memory_store;
  minio = λ cfg host. ok demo_minio;
  queue = λ url. record { enqueue = λ message e. (ok tt, e) };
  system = demo.system;
  identity = no_identity;
  decode = (demo_server true).decode;
  id_key = demo_key;
}

connected :
    Objects.new
      (libs.minio production)
      production.s3_endpoint
      production.s3_public_endpoint
      production.s3_bucket
    ≡ ok demo_client
unfolding Objects.new str_discrete read_config trim_space
connected = refl

started : start libs production_env ≡ ok (server_of libs production demo_client)
unfolding start
started = rw (production_read, connected) refl

not_development : normalize_env (production_env (codes "MEDIA_ENV")) ≢ env_development
unfolding normalize_env str_discrete trim_space to_lower
not_development = ground arith

start-dev_off_example :
    (authenticate no_identity
        (server_of libs production demo_client).middleware
        (dev_header alice)
        cache_world
      ≡ authenticate no_identity
          (server_of libs production demo_client).middleware
          (dev_header bob)
          cache_world)
    × (production.processor_token ≢ [])
unfolding server_of
start-dev_off_example =
    start-dev_off libs production_env (server_of libs production demo_client) started
      not_development (dev_header alice) (dev_header bob) cache_world (unfold str_discrete in refl)

-- A process whose drivers answer, and that pings its queue.
abbrev drivers : Drivers (Unit {0}) (Unit {0}) ℕ
drivers = record {
  tracing = record {
    resource = λ name e. (ok tt, e);
    exporter = λ endpoint e. (ok tt, e);
    provide = λ r t e. (ok (λ e. (ok tt, e)), e);
  };
  open_store = λ url e. (ok tt, e);
  new_queue = λ url e. (ok one_message, e);
}

pinged :
    (b : Bool) (url : Str) (e : ℕ)
    → (if b then pure tt else reach_queue libs drivers url) e ≡ (ok tt, e)
unfolding reach_queue ◌>>=◌
pinged true url e = refl
pinged false url e = refl

booted : (boot libs drivers production_env 1).0 ≡ ok (server_of libs production demo_client)
unfolding boot Objects.ensure_bucket Telemetry.init str_discrete trim_space ◌>>=◌
booted = rw (production_read, connected, pinged) refl

boot-Up_example : Up libs drivers production_env (server_of libs production demo_client)
boot-Up_example =
    boot-Up libs drivers production_env (server_of libs production demo_client) 1 booted
      not_development
