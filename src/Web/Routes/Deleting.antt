-- ===== src/Web/Routes/Deleting.antt =====
-- server.go: the request that deletes a file, from the path to the database.
use mathlib.Core.Path.{subst}
use pf_media.Base.{
  Str, ℕ, ◌≡◌, ◌≢◌, ◌∙◌, refl, false, ◌||◌, some, [], ◌++◌, arith, ◌==◌, str_eq, ℕ_discrete,
  str_discrete,
}
use pf_media.Base.Dict.{lookup}
use pf_media.Base.Int.{pos, ◌<ℤ◌, InInt64}
use pf_media.Base.Text.{has_prefix}
use pf_media.Base.Split.{trim_prefix, contains_byte}
use pf_media.Domain.{File, Result, ok, err}
use pf_media.Exec.{World}
use pf_media.Store.Memory.{State}
use pf_media.ObjectKeys.{object_prefix}
use pf_media.Auth.{User, Header, authenticate}
use pf_media.Service.{other_file_owner, quota_subject}
use pf_media.Service.Files.{delete_file}
use pf_media.Service.Files.Deletion.{on_memory, Deleted, delete_file_lem}
use pf_media.Web.{delete, Request, write_json, write_err, deleted, answer}
use pf_media.Web.Handlers
use pf_media.Web.Handlers.{files_prefix, with_id}
use pf_media.Web.Routes.Guarding.{in_auth-db}
use pf_media.Web.Routes.{
  signed_in, route, Server, Site, in_auth, in_service, dispatch, admit, serve_signed_in,
  serve_route, serve,
}

-- `DELETE /v1/files/{id}`
abbrev pub deletion : Str → Header → (Str → Str) → Str → Request
deletion id header query body = record {
  method = delete;
  path = files_prefix ++ id;
  query = query;
  header = header;
  body = body;
}

id_in_path : (id : Str) → trim_prefix (files_prefix ++ id) files_prefix ≡ id
unfolding trim_prefix has_prefix ℕ_discrete
id_in_path id = refl

deletion_signed_in : (id : Str) → route delete (files_prefix ++ id) ≡ signed_in
unfolding route has_prefix ℕ_discrete str_discrete
deletion_signed_in id = refl

module _ {K E : Type 0} (server : Server K State E) (depth rounds : ℕ) where
  open server use {media, identity, middleware, decode}

  -- The server on the memory store.
  abbrev pub stored : Server K State E
  stored = record server { media = on_memory media }

  dispatched :
      (u : User) (id : Str) (header : Header) (query : Str → Str) (body : Str)
      → dispatch stored depth rounds u (deletion id header query body)
        ≡ Handlers.delete_file (on_memory media) decode u (deletion id header query body)
  unfolding dispatch has_prefix ℕ_discrete str_discrete
  dispatched u id header query body = refl

  id_accepted :
      (id : Str)
      → id ≢ []
      → contains_byte id b'/' ≡ false
      → (id == [] || contains_byte id b'/') ≡ false
  id_accepted id given flat = ground arith

  handled :
      (u : User) (id : Str) (header : Header) (query : Str → Str) (body : Str) (w : World State E)
      → id ≢ []
      → contains_byte id b'/' ≡ false
      → Handlers.delete_file (on_memory media) decode u (deletion id header query body) w
        ≡ answer write_err
            (delete_file (on_memory media) u.sub u.org_id id)
            (λ _. write_json 200 deleted)
            w
  unfolding Handlers.delete_file with_id
  handled u id header query body w given flat = rw (id_in_path id, id_accepted id given flat) refl

  admitted :
      (r : Request) (p : Result User × Site K State E) (u : User)
      → p.0 ≡ ok u
      → admit stored depth rounds r p ≡ in_service (dispatch stored depth rounds u r) p.1
  unfolding admit
  admitted r (ok v, t) u h = let same : v ≡ u = ground arith in rw same refl
  admitted r (err e, t) u h = cc

  answered :
      (u : User) (id : Str) (header : Header) (query : Str → Str) (body : Str) (t : Site K State E)
      → id ≢ []
      → contains_byte id b'/' ≡ false
      → (delete_file (on_memory media) u.sub u.org_id id t.world).0 ≡ ok tt
      → in_service (dispatch stored depth rounds u (deletion id header query body)) t
        ≡ some (
          write_json 200 deleted,
          record {
            cache = t.cache;
            world = (delete_file (on_memory media) u.sub u.org_id id t.world).1;
          },
        )
  unfolding in_service answer
  answered u id header query body t given flat done =
      rw
        (dispatched u id header query body, handled u id header query body t.world given flat, done)
        refl

  -- Over the memory store, `DELETE /v1/files/{id}` by the owner of the file, with an id that is not
  -- empty and has no slash, is answered by 200 when object storage removes the objects. The file is
  -- gone then with its jobs and share links, the file's size (a positive int64) is given back to the
  -- subject of the user, and the other files, the jobs and share links of other files, the use of
  -- other subjects and the folders are as they were.
  pub serve-Deleted :
      (u : User) (f : File) (header : Header) (query : Str → Str) (body : Str) (s : Site K State E)
      → f.id ≢ []
      → contains_byte f.id b'/' ≡ false
      → (in_auth (authenticate identity middleware header) s).0 ≡ ok u
      → lookup f.id s.world.db.files ≡ some f
      → other_file_owner u.sub u.org_id f ≡ false
      → pos 0 <ℤ f.size_bytes
      → InInt64 f.size_bytes
      → let t = (in_auth (authenticate identity middleware header) s).1 in
        (media.objects.delete_prefix (object_prefix f.owner_sub f.id) t.world.ext).0 ≡ ok tt
        → (s' : Site K State E) × (serve stored depth rounds (deletion f.id header query body) s
            ≡ some (write_json 200 deleted, s'))
          × Deleted f.id (quota_subject u.org_id u.sub) f.size_bytes s.world.db s'.world.db
  unfolding serve serve_route serve_signed_in
  serve-Deleted u f header query body s given flat found there mine positive int64 removed =
      let p = in_auth (authenticate identity middleware header) s in
      let same = in_auth-db (authenticate identity middleware header) s in
      let (done, gone) =
        delete_file_lem media u.sub u.org_id f p.1.world (rw same there) mine positive int64
          removed in
      let r = deletion f.id header query body in
      (
        record {
          cache = p.1.cache;
          world = (delete_file (on_memory media) u.sub u.org_id f.id p.1.world).1;
        },
        rw (deletion_signed_in f.id)
            (admitted r p u found ∙ answered u f.id header query body p.1 given flat done),
        subst
            (λ d.
              Deleted f.id (quota_subject u.org_id u.sub) f.size_bytes d
                (delete_file (on_memory media) u.sub u.org_id f.id p.1.world).1.db)
            same gone,
      )
