-- ===== src/Web/Routes/Guarding.antt =====
-- Requests that the server turns away, and files that a request cannot touch.
use pf_media.Base.{
  Str, ℕ, ◌≡◌, refl, true, false, some, codes, ◌++◌, ◌&&◌, List, ◌∷◌, [], arith, Bool-cases,
  str_discrete, inl, inr, ◌==◌, str_eq, nat_eq,
}
use pf_media.Base.Split.{split, push_byte}
use pf_media.Base.Text.{trim_space, has_prefix}
use pf_media.Base.Dict.{lookup}
use pf_media.Domain.{File, Err, other, Result, ok, err}
use pf_media.Exec.{Exec, World, ◌>>=◌}
use pf_media.Store.Memory.{State}
use pf_media.Store.Memory.Invariant.{Inv}
use pf_media.Auth.{
  User, Cache, Header, bearer, authenticate, authenticate_bearer, processor_token_ok,
}
use pf_media.Auth.Users.{authenticate-off}
use pf_media.Service.{Media, other_file_owner}
use pf_media.Service.Steps.{Actor, user, visitor, processor, nobody}
use pf_media.Service.Steps.OnMemory.{OnMemory, Step-Inv}
use pf_media.Service.Steps.Isolation.{Stranger, Step-lookup}
use pf_media.Web.{Method, Request, Response, unauthorized}
use pf_media.Web.Acting.{Acts, here, next}
use pf_media.Web.Routes.{
  signed_in, route, share_route, serves_get, Server, Site, in_auth, admit, serve_signed_in,
  serve_route, serve,
}
use pf_media.Web.Routes.Serving.{MayAct, serve-Acts}

-- The middleware has no part in the database.
pub in_auth-db :
    {K D E A : Type 0} (c : Exec (World (Cache K) E) A) (s : Site K D E)
    → (in_auth c s).1.world.db ≡ s.world.db
unfolding in_auth
in_auth-db c s = refl

-- The file and the invariant stay over the steps of strangers.
Acts-lookup :
    {E : Type 0} (m : Media State E) (on : OnMemory m) {May : Actor → Type 0} (id : Str) (f : File)
    {w w' : World State E}
    → ((a : Actor) → May a → Stranger f a)
    → Inv m.quota_limit w.db
    → lookup id w.db.files ≡ some f
    → Acts m May w w'
    → Inv m.quota_limit w'.db × (lookup id w'.db.files ≡ some f)
Acts-lookup m on id f strange inv there here = (inv, there)
Acts-lookup m on id f strange inv there (next {t} {u} a may p step) =
    let (inv', there') = Acts-lookup m on id f strange inv there p in
    (Step-Inv m on inv' step, Step-lookup m on id f a t u (strange a may) inv' there' step)

-- A path has a route of a share link only when its third part is "s".
share_route_other :
    (s : Str) (parts : List Str)
    → (s == codes "s") ≡ false
    → share_route ([] ∷ codes "v1" ∷ s ∷ parts) ≡ signed_in
share_route_other s [] h = refl
share_route_other s (token ∷ []) h = rw h refl
share_route_other s (token ∷ last ∷ []) h = rw h refl
share_route_other s (token ∷ last ∷ x ∷ parts) h = refl

share_route_long :
    (c d : ℕ) (parts : List Str)
    → share_route ([] ∷ codes "v1" ∷ push_byte c (push_byte d parts)) ≡ signed_in
share_route_long c d [] = refl
share_route_long c d (part ∷ parts) =
    share_route_other (c ∷ d ∷ part) parts (unfold str_discrete in ground arith)

share_route_below :
    (below : Str)
    → has_prefix below (codes "s/") ≡ false
    → share_route ([] ∷ codes "v1" ∷ split below b'/') ≡ signed_in
unfolding split has_prefix
share_route_below [] h = refl
share_route_below (c ∷ []) h = elim (Bool-cases (c == b'/')) [
  | inl e ↦ rw e (share_route_other [] ([] ∷ []) (unfold str_discrete in refl))
  | inr e ↦ rw e refl
]
share_route_below (c ∷ d ∷ below) h = elim (Bool-cases (c == b'/')) [
  | inl e ↦ rw e (share_route_other [] _ (unfold str_discrete in refl))
  | inr e ↦ elim (Bool-cases (d == b'/')) [
    | inl slash ↦ rw (e, slash) (share_route_other (c ∷ []) _ (unfold str_discrete in ground arith))
    | inr other_byte ↦ rw (e, other_byte) (share_route_long c d _)
  ]
]

route-signed_in :
    (method : Method) (below : Str)
    → (serves_get method && has_prefix below (codes "s/")) ≡ false
    → route method (codes "/v1/" ++ below) ≡ signed_in
unfolding route has_prefix split str_discrete
route-signed_in method below h = elim (Bool-cases (serves_get method)) [
  | inl e ↦ rw e (share_route_below below (rw e at h))
  | inr e ↦ rw e refl
]

module _ {K E : Type 0} (server : Server K State E) (depth rounds : ℕ) where
  open server use {media, identity, middleware, processor_token}

  -- Over the memory store, a request cannot change a file, nor delete it, unless the processor's
  -- token is right or the middleware finds the file's owner in the headers. The store satisfies its
  -- invariant, the limit is an int64 and not negative, and the sizes that object storage reports are
  -- int64s.
  pub serve-lookup :
      (on : OnMemory media) (id : Str) (f : File) (r : Request) (s s' : Site K State E)
      (response : Response)
      → Inv media.quota_limit s.world.db
      → lookup id s.world.db.files ≡ some f
      → processor_token_ok processor_token r.header ≡ false
      → ((u : User)
          → (in_auth (authenticate identity middleware r.header) s).0 ≡ ok u
          → other_file_owner u.sub u.org_id f ≡ true)
      → serve server depth rounds r s ≡ some (response, s')
      → lookup id s'.world.db.files ≡ some f
  serve-lookup on id f r s s' response inv there no_token not_owner e =
      (Acts-lookup media on id f strange inv there
        (serve-Acts server depth rounds r s s' response e)).1
    where
      strange : (a : Actor) → MayAct server depth rounds r s a → Stranger f a
      strange (user o g) (at, found) = not_owner (record { sub = o; org_id = g }) found
      strange visitor may = tt
      strange processor (token, at, right) = cc (no_token, right)
      strange nobody may = tt

  refuse :
      (r : Request) (p : Result User × Site K State E) (x : Err)
      → p.0 ≡ err x
      → admit server depth rounds r p ≡ some (unauthorized, p.1)
  unfolding admit
  refuse r (ok u, t) x e = cc
  refuse r (err y, t) x e = refl

  -- Without the development mode, the middleware finds nobody in headers without a bearer token, and
  -- asks nobody.
  authenticate-no_bearer :
      (header : Header) (s : Site K State E)
      → middleware.dev_auth ≡ false
      → has_prefix (trim_space (header (codes "Authorization"))) bearer ≡ false
      → in_auth (authenticate identity middleware header) s
        ≡ (err (other (codes "missing bearer")), s)
  unfolding in_auth authenticate_bearer ◌>>=◌
  authenticate-no_bearer header s off none_given =
      rw
        (
          authenticate-off identity middleware header _ off,
          in_auth,
          authenticate_bearer,
          none_given,
        )
        refl

  -- Without the development mode, a request below "/v1/" whose Authorization header has no bearer
  -- token is answered by 401, and nothing changes: not the cache of the middleware, not the
  -- database, and nothing outside. The download of a share link, a GET or HEAD below "/v1/s/", is
  -- not meant.
  pub serve-no_bearer :
      (r : Request) (below : Str) (s : Site K State E)
      → middleware.dev_auth ≡ false
      → r.path ≡ codes "/v1/" ++ below
      → (serves_get r.method && has_prefix below (codes "s/")) ≡ false
      → has_prefix (trim_space (r.header (codes "Authorization"))) bearer ≡ false
      → serve server depth rounds r s ≡ some (unauthorized, s)
  unfolding serve serve_route serve_signed_in admit
  serve-no_bearer r below s off path no_share none_given =
      rw
        (
          path,
          route-signed_in r.method below no_share,
          authenticate-no_bearer r.header s off none_given,
        )
        refl
