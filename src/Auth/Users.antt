-- ===== src/Auth/Users.antt =====
-- The users that the middleware lets in.
use pf_media.Base.{
  Str, ◌≡◌, ◌≢◌, refl, sym, ◌∙◌, true, false, ◌&&◌, [], arith, codes, ◌/=◌, str_eq, Bool-cases, inl,
  inr,
}
use pf_media.Base.Text.{trim_space}
use pf_media.Base.Split.{trim_prefix}
use pf_media.Domain.{ok}
use pf_media.Exec.{World}
use pf_media.Exec.Inversion.{pure-ok}
use pf_media.Exec.Returns.{Returns, Returns-pure, Returns-unless, Returns-bind, Returns-attempt}
use pf_media.Auth.{
  User, Identity, Cache, Middleware, Header, bearer, authenticate, authenticate_bearer,
  authenticate_jwt, or_user_info, authenticate_user_info, dev_user, processor_token_ok,
}

-- A user with a subject and an organisation.
abbrev pub IsNamed : User → Type 0
IsNamed u = (u.sub ≢ []) × (u.org_id ≢ [])

module _ {K E : Type 0} (lib : Identity K E) (m : Middleware) where
  authenticate_jwt-IsNamed : (token : Str) → Returns IsNamed (authenticate_jwt lib m token)
  unfolding authenticate_jwt
  authenticate_jwt-IsNamed token = Returns-bind _ _ λ keys. Returns-bind _ _ λ parsed.
      Returns-unless _ _ _
        λ has_sub. Returns-unless _ _ _ λ has_org. Returns-pure _ (ground arith, ground arith)

  authenticate_user_info-IsNamed :
      (token : Str) → Returns IsNamed (authenticate_user_info lib m token)
  unfolding authenticate_user_info
  authenticate_user_info-IsNamed token = Returns-bind _ _ λ answer. Returns-unless _ _ _ λ found.
      Returns-bind _ _ λ body. Returns-bind _ _ λ info.
        Returns-unless _ _ _
          λ has_sub. Returns-unless _ _ _ λ has_org. Returns-pure _ (ground arith, ground arith)

  authenticate_bearer-IsNamed :
      (header : Header) → Returns IsNamed (authenticate_bearer lib m header)
  unfolding authenticate_bearer
  authenticate_bearer-IsNamed header = Returns-unless _ _ _ λ _. Returns-unless _ _ _ λ _.
      Returns-unless _ _ _ λ _.
        Returns-attempt IsNamed _ _ (authenticate_jwt-IsNamed _)
          (λ u named. unfold or_user_info in Returns-pure u named)
          (λ e. unfold or_user_info in authenticate_user_info-IsNamed _)

  -- A user whom the middleware lets in has a subject and an organisation, whatever the headers, the
  -- keys and the answers of the identity provider are.
  pub authenticate-IsNamed :
      (header : Header) (w : World (Cache K) E) (u : User)
      → (authenticate lib m header w).0 ≡ ok u
      → IsNamed u
  unfolding authenticate dev_user
  authenticate-IsNamed header w u h =
      elim (Bool-cases (trim_space (header (codes "X-Dev-User-Sub")) /= [] && m.dev_auth)) [
        | inl dev ↦
            rw (← pure-ok (dev_user lib m header) w (rw dev at h)) (ground arith, ground arith)
        | inr not_dev ↦ (authenticate_bearer-IsNamed header).value w u (rw not_dev at h)
      ]

  bearer_same :
      (header header' : Header) (w : World (Cache K) E)
      → header (codes "Authorization") ≡ header' (codes "Authorization")
      → authenticate_bearer lib m header w ≡ authenticate_bearer lib m header' w
  unfolding authenticate_bearer
  bearer_same header header' w same = rw same refl

  pub authenticate-off :
      (header : Header) (w : World (Cache K) E)
      → m.dev_auth ≡ false
      → authenticate lib m header w ≡ authenticate_bearer lib m header w
  unfolding authenticate
  authenticate-off header w off =
      elim (Bool-cases (trim_space (header (codes "X-Dev-User-Sub")) /= [])) [
        | inl e ↦ rw (e, off) refl
        | inr e ↦ rw (e, off) refl
      ]

  -- Without the development mode, only the `Authorization` header counts.
  pub authenticate-dev_off :
      (header header' : Header) (w : World (Cache K) E)
      → m.dev_auth ≡ false
      → header (codes "Authorization") ≡ header' (codes "Authorization")
      → authenticate lib m header w ≡ authenticate lib m header' w
  authenticate-dev_off header header' w off same =
      authenticate-off header w off
      ∙ bearer_same header header' w same
      ∙ sym (authenticate-off header' w off)

-- The processor's handler is behind its token: the header has it, and it is not empty.
pub processor_token_ok_lem :
    (expected : Str) (header : Header)
    → processor_token_ok expected header ≡ true
    → (expected ≢ [])
      × (trim_space (trim_prefix (header (codes "Authorization")) bearer) ≡ expected)
unfolding processor_token_ok
processor_token_ok_lem expected header h = ground arith
