-- ===== src/Web/Routes/Serving.antt =====
-- What the server does for a request, whoever sends it.
use mathlib.Core.Path.{subst}
use pf_media.Base.{Str, ℕ, ◌≡◌, ◌⊎◌, refl, true, Option, none, some, arith, Bool-cases, inl, inr}
use pf_media.Domain.{Result, ok, err}
use pf_media.Exec.{Exec, World}
use pf_media.Auth.{User, Cache, authenticate, processor_token_ok}
use pf_media.Service.Steps
use pf_media.Service.Steps.{Actor, user, visitor, processor, nobody, outside}
use pf_media.Web.{Request, Response, unauthorized, Handler}
use pf_media.Web.Acting.{Acts, here, next, Does, Acts-trans, Does-call, Does-with_body}
use pf_media.Web.Handlers
use pf_media.Web.Routes.{
  Route, health, share, share_download, signed_in, finish, wrong_method, to_slash, nowhere, route,
  Server, Site, in_auth, in_service, back, admit, serve_signed_in, serve_finish, serve_route, serve,
}
use pf_media.Web.Routes.Actions.{dispatch-Does}

module _ {K D E : Type 0} (server : Server K D E) (depth rounds : ℕ) where
  open server use {media, identity, middleware, processor_token, decode}

  -- Who may act at a request: the user that the middleware finds in its headers, on a path behind the
  -- middleware; a visitor, on a path of a share link; the processor, with its token; and the world
  -- outside.
  abbrev pub MayAct : Request → Site K D E → Actor → Type 0
  MayAct r s (user o g) =
      (route r.method r.path ≡ signed_in)
      × ((in_auth (authenticate identity middleware r.header) s).0
          ≡ ok (record { sub = o; org_id = g }))
  MayAct r s visitor =
      (t : Str) × ((route r.method r.path ≡ share t) ⊎ (route r.method r.path ≡ share_download t))
  MayAct r s processor =
      (id : Str) × (route r.method r.path ≡ finish id)
      × (processor_token_ok processor_token r.header ≡ true)
  MayAct r s nobody = Unit

  -- A response without a call.
  stays :
      (May : Actor → Type 0) (x : Response) (s s' : Site K D E) (response : Response)
      → ◌≡◌ {A = Option (Response × Site K D E)} (some (x, s)) (some (response, s'))
      → Acts media May s.world s'.world
  stays May x s s' response e =
      let same : s ≡ s' = ground arith in subst (λ t. Acts media May s.world t.world) same here

  in_service-Acts :
      (May : Actor → Type 0) (h : Handler D E) (s s' : Site K D E) (response : Response)
      → Does media May h
      → in_service h s ≡ some (response, s')
      → Acts media May s.world s'.world
  unfolding in_service
  in_service-Acts May h s s' response k e = back_acts (h s.world) refl e
    where
      back_acts :
          (o : Option (Response × World D E))
          → h s.world ≡ o
          → back s.cache o ≡ some (response, s')
          → Acts media May s.world s'.world
      back_acts none f e = cc
      back_acts (some (x, w)) f e =
          let same : w ≡ s'.world = ground arith in
          subst (λ t. Acts media May s.world t) same (k.acts s.world w x f)

  -- The middleware's own calls are no calls of the service.
  in_auth-Acts :
      {A : Type 0} (May : Actor → Type 0) (c : Exec (World (Cache K) E) A) (s : Site K D E)
      → May nobody
      → Acts media May s.world (in_auth c s).1.world
  unfolding in_auth
  in_auth-Acts May c s may = next nobody may here (outside _)

  get_share-Does :
      (May : Actor → Type 0) (token : Str) (r : Request)
      → May visitor
      → Does media May (Handlers.get_share media decode token r)
  unfolding Handlers.get_share
  get_share-Does May token r may =
      Does-call media May _ _ _ _ may (λ w. Steps.resolves_share token _)

  download_share-Does :
      (May : Actor → Type 0) (token : Str) (r : Request)
      → May visitor
      → Does media May (Handlers.download_share media decode token r)
  unfolding Handlers.download_share
  download_share-Does May token r may =
      Does-call media May _ _ _ _ may (λ w. Steps.downloads_share token _ _)

  finish_job-Does :
      (May : Actor → Type 0) (id : Str) (r : Request)
      → May processor
      → Does media May (Handlers.finish_job media decode id r)
  unfolding Handlers.finish_job
  finish_job-Does May id r may =
      Does-with_body media May _ _
        λ body. Does-call media May _ _ _ _ may (λ w. Steps.finishes_job id _ body.error)

  serve_signed_in-Acts :
      (May : Actor → Type 0) (r : Request) (s s' : Site K D E) (response : Response)
      → May nobody
      → ((u : User)
          → (in_auth (authenticate identity middleware r.header) s).0 ≡ ok u
          → May (user u.sub u.org_id))
      → serve_signed_in server depth rounds r s ≡ some (response, s')
      → Acts media May s.world s'.world
  unfolding serve_signed_in
  serve_signed_in-Acts May r s s' response anyone found e =
      let reached = in_auth-Acts May (authenticate identity middleware r.header) s anyone in
      Acts-trans media reached (admitted _ _ found e)
    where
      admitted :
          (x : Result User) (t : Site K D E)
          → ((u : User) → x ≡ ok u → May (user u.sub u.org_id))
          → admit server depth rounds r (x, t) ≡ some (response, s')
          → Acts media May t.world s'.world
      admitted (ok u) t sure f =
          in_service-Acts May _ t s' response
            (dispatch-Does server depth rounds May u (sure u refl) r) (unfold admit in f)
      admitted (err y) t sure f = stays May unauthorized t s' response (unfold admit in f)

  serve_finish-Acts :
      (May : Actor → Type 0) (id : Str) (r : Request) (s s' : Site K D E) (response : Response)
      → (processor_token_ok processor_token r.header ≡ true → May processor)
      → serve_finish server depth rounds id r s ≡ some (response, s')
      → Acts media May s.world s'.world
  unfolding serve_finish
  serve_finish-Acts May id r s s' response may e =
      elim (Bool-cases (processor_token_ok processor_token r.header)) [
        | inl right ↦
            in_service-Acts May _ s s' response (finish_job-Does May id r (may right))
              (rw right at e)
        | inr wrong ↦ stays May _ s s' response (rw wrong at e)
      ]

  -- A request at a route, and who may act at it.
  serve_route-Acts :
      (May : Actor → Type 0) (x : Route) (r : Request) (s s' : Site K D E) (response : Response)
      → ((a : Actor) → MayAct r s a → May a)
      → route r.method r.path ≡ x
      → serve_route server depth rounds x r s ≡ some (response, s')
      → Acts media May s.world s'.world
  unfolding serve_route
  serve_route-Acts May health r s s' response may at e = stays May _ s s' response e
  serve_route-Acts May (share t) r s s' response may at e =
      in_service-Acts May _ s s' response (get_share-Does May t r (may visitor (t, inl at))) e
  serve_route-Acts May (share_download t) r s s' response may at e =
      in_service-Acts May _ s s' response (download_share-Does May t r (may visitor (t, inr at))) e
  serve_route-Acts May signed_in r s s' response may at e =
      serve_signed_in-Acts May r s s' response (may nobody tt)
        (λ u found. may (user u.sub u.org_id) (at, found)) e
  serve_route-Acts May (finish id) r s s' response may at e =
      serve_finish-Acts May id r s s' response (λ right. may processor (id, at, right)) e
  serve_route-Acts May wrong_method r s s' response may at e = stays May _ s s' response e
  serve_route-Acts May to_slash r s s' response may at e = stays May _ s s' response e
  serve_route-Acts May nowhere r s s' response may at e = stays May _ s s' response e

  -- Whatever the server does to the database for a request, it does by steps of the service that only
  -- those take who may act at the request: on a path behind the middleware the user whom the
  -- middleware has found in the headers, on a path of a share link a visitor, on the path of the
  -- processor the processor if its token is right, and the world outside.
  pub serve-Acts :
      (r : Request) (s s' : Site K D E) (response : Response)
      → serve server depth rounds r s ≡ some (response, s')
      → Acts media (MayAct r s) s.world s'.world
  unfolding serve
  serve-Acts r s s' response e =
      serve_route-Acts (MayAct r s) (route r.method r.path) r s s' response (λ a may. may) refl e
