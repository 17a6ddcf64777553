-- ===== src/Tests/Serving.antt =====
-- Requests: who sends them, and what they do.
use pf_media.Base.{
  Str, ℕ, Bool, true, false, none, some, [], codes, str_eq, arith, ◌+◌, ◌≡◌, refl, ◌==◌,
  str_discrete, if◌then◌else◌,
}
use pf_media.Base.Dict.{lookup}
use pf_media.Base.Text.{trim_space, has_prefix}
use pf_media.Base.Split.{trim_prefix, contains_byte}
use pf_media.Domain.{ok, err, other}
use pf_media.Exec.{World, ◌>>=◌}
use pf_media.Base.Int.{pos, ℤ-discrete, neg64}
use pf_media.Store.Memory
use pf_media.Store.Memory.{State}
use pf_media.Auth.{User, Identity, Cache, Header, authenticate, processor_token_ok}
use pf_media.Auth.Users.{IsNamed, authenticate-IsNamed, authenticate-dev_off}
use pf_media.Service.{other_file_owner, quota_subject}
use pf_media.Service.Files.{delete_file}
use pf_media.Service.Files.Deletion.{Deleted}
use pf_media.Web.{delete, Request, write_json, deleted, error, unauthorized, answer, write_err}
use pf_media.Web.Handlers
use pf_media.Web.Acting.{Acts}
use pf_media.Web.Routes.{Server, Site, route, in_auth, in_service, dispatch, serve}
use pf_media.Web.Routes.Serving.{MayAct, serve-Acts}
use pf_media.Web.Routes.Deleting.{deletion, stored, serve-Deleted}
use pf_media.Web.Routes.Guarding.{serve-lookup, serve-no_bearer}
use pf_media.Tests.Demo.{demo, alice, bob, acme, photo, with_photo, demo-OnMemory}
use pf_media.Tests.Uploading.{photo_there, with_photo-Inv}

-- An identity provider that knows nobody.
abbrev pub no_identity : Identity (Unit {0}) ℕ
no_identity = record {
  fetch_keys = λ url e. (err (other (codes "no route")), e + 1);
  parse_token = λ keys issuer audience token e. (err (other (codes "bad token")), e);
  http_get = λ url bearer e. (err (other (codes "no route")), e + 1);
  parse_user_info = λ body. err (other (codes "bad json"));
  now = λ e. (e, e + 1);
}

abbrev pub demo_server : Bool → Server (Unit {0}) State ℕ
demo_server dev_auth = record {
  media = demo;
  identity = no_identity;
  middleware = record {
    dev_auth = dev_auth;
    issuer = codes "http://id";
    internal_base = codes "http://id";
    audience = [];
  };
  processor_token = codes "tok";
  decode = record {
    presign_body = λ body. none;
    complete_body = λ body. none;
    folder_body = λ body. none;
    share_body = λ body. none;
    finish_body = λ body. none;
  };
}

-- The development headers of a user of the organisation `acme`.
abbrev pub dev_header : Str → Header
dev_header sub name =
    if name == codes "X-Dev-User-Sub"
    then sub
    else if name == codes "X-Dev-User-Org"
    then acme
    else []

abbrev bearer_header : Str → Header
bearer_header authorization name = if name == codes "Authorization" then authorization else []

abbrev deletes_photo : Header → Request
deletes_photo header = record {
  method = delete;
  path = codes "/v1/files/f";
  query = λ key. [];
  header = header;
  body = [];
}

abbrev site : Site (Unit {0}) State ℕ
site = record { cache = none; world = with_photo }

abbrev pub cache_world : World (Cache (Unit {0})) ℕ
cache_world = record { db = none; ext = 1 }

dev_alice :
    (authenticate no_identity (demo_server true).middleware (dev_header alice) cache_world).0
    ≡ ok (record { sub = alice; org_id = acme })
unfolding authenticate trim_space str_discrete ◌>>=◌
dev_alice = refl

authenticate-IsNamed_example : IsNamed (record { sub = alice; org_id = acme })
authenticate-IsNamed_example =
    authenticate-IsNamed no_identity (demo_server true).middleware (dev_header alice) cache_world
      (record { sub = alice; org_id = acme }) dev_alice

authenticate-dev_off_example :
    authenticate no_identity (demo_server false).middleware (dev_header alice) cache_world
    ≡ authenticate no_identity (demo_server false).middleware (dev_header bob) cache_world
authenticate-dev_off_example =
    authenticate-dev_off no_identity (demo_server false).middleware (dev_header alice)
      (dev_header bob) cache_world refl (unfold str_discrete in refl)

token_right : processor_token_ok (codes "tok") (bearer_header (codes "Bearer tok")) ≡ true
unfolding processor_token_ok trim_space trim_prefix str_discrete
token_right = refl

abbrev after_deletion : Site (Unit {0}) State ℕ
after_deletion = record {
  cache = none;
  world = (delete_file demo alice acme (codes "f") with_photo).1;
}

deletion_served :
    serve (demo_server true) 0 0 (deletes_photo (dev_header alice)) site
    ≡ some (write_json 200 deleted, after_deletion)
unfolding serve route in_auth in_service dispatch authenticate Handlers.delete_file trim_space
    has_prefix trim_prefix str_discrete delete_file ◌>>=◌ Handlers.with_id contains_byte answer
    Memory.get_file lookup Memory.delete_file ℤ-discrete Memory.add_quota neg64
deletion_served = refl

serve-Acts_example :
    Acts demo
      (MayAct (demo_server true) 0 0 (deletes_photo (dev_header alice)) site)
      with_photo
      after_deletion.world
serve-Acts_example =
    serve-Acts (demo_server true) 0 0 (deletes_photo (dev_header alice)) site after_deletion
      (write_json 200 deleted) deletion_served

abbrev after_refusal : Site (Unit {0}) State ℕ
after_refusal = record {
  cache = none;
  world = (delete_file demo bob acme (codes "f") with_photo).1;
}

refusal_served :
    serve (demo_server true) 0 0 (deletes_photo (dev_header bob)) site
    ≡ some (error (codes "not found") 404, after_refusal)
unfolding serve route in_auth in_service dispatch authenticate Handlers.delete_file trim_space
    has_prefix trim_prefix str_discrete delete_file ◌>>=◌ Handlers.with_id contains_byte answer
    Memory.get_file lookup write_err
refusal_served = refl

no_token : processor_token_ok (codes "tok") (dev_header bob) ≡ false
unfolding processor_token_ok trim_space trim_prefix str_discrete
no_token = refl

found_bob :
    (u : User)
    → (in_auth (authenticate no_identity (demo_server true).middleware (dev_header bob)) site).0
      ≡ ok u
    → other_file_owner u.sub u.org_id photo ≡ true
unfolding in_auth authenticate trim_space str_discrete ◌>>=◌
found_bob u h =
    let same : record { sub = bob; org_id = acme } ≡ u = ground arith in rw (← same) refl

serve-lookup_example : lookup (codes "f") after_refusal.world.db.files ≡ some photo
serve-lookup_example =
    serve-lookup (demo_server true) 0 0 demo-OnMemory (codes "f") photo
      (deletes_photo (dev_header bob)) site after_refusal (error (codes "not found") 404)
      with_photo-Inv photo_there no_token found_bob refusal_served

no_bearer :
    has_prefix (trim_space (dev_header alice (codes "Authorization"))) (codes "Bearer ") ≡ false
unfolding trim_space has_prefix str_discrete
no_bearer = refl

-- The development headers of the owner do not count without the development mode.
serve-no_bearer_example :
    serve (demo_server false) 0 0 (deletes_photo (dev_header alice)) site
    ≡ some (unauthorized, site)
serve-no_bearer_example =
    serve-no_bearer (demo_server false) 0 0 (deletes_photo (dev_header alice)) (codes "files/f")
      site refl refl refl no_bearer

alice_found :
    (in_auth (authenticate no_identity (demo_server true).middleware (dev_header alice)) site).0
    ≡ ok (record { sub = alice; org_id = acme })
unfolding in_auth authenticate trim_space str_discrete ◌>>=◌
alice_found = refl

serve-Deleted_example :
    (s' : Site (Unit {0}) State ℕ) × (serve
        (stored (demo_server true) 0 0)
        0
        0
        (deletion (codes "f") (dev_header alice) (λ key. []) [])
        site
      ≡ some (write_json 200 deleted, s'))
    × Deleted (codes "f") (quota_subject acme alice) (pos 100) with_photo.db s'.world.db
serve-Deleted_example =
    serve-Deleted (demo_server true) 0 0 (record { sub = alice; org_id = acme }) photo
      (dev_header alice) (λ key. []) [] site (ground arith) (unfold contains_byte in ground arith)
      alice_found photo_there (unfold str_discrete in refl) (omega arith) (omega arith) refl
