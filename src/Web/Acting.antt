-- ===== src/Web/Acting.antt =====
-- What handlers make the service do: rules for the ways to build a handler.
use mathlib.Core.Path.{subst}
use pf_media.Base.{Str, ◌≡◌, Bool, true, false, Option, none, some, if◌then◌else◌, str_eq, arith}
use pf_media.Domain.{Err, Result, ok, err}
use pf_media.Exec.{Exec, World, ◌>>=◌, pure, resume}
use pf_media.Service.{Media}
use pf_media.Service.Steps
use pf_media.Service.Steps.{Actor, Step, Reach}
use pf_media.Web.{Response, Handler, answer, only, with_body}
use pf_media.Web.Handlers.{with_id}

-- Steps of the service by actors that may take them.
pub data Acts {D E : Type 0} (m : Media D E) (May : Actor → Type 0) (w : World D E)
    : World D E → Type 0 where
  here : Acts m May w w
  next : {t u : World D E} (a : Actor) → May a → Acts m May w t → Step m a t u → Acts m May w u

module _ {D E : Type 0} (m : Media D E) {May : Actor → Type 0} where
  pub Acts-trans : {w t u : World D E} → Acts m May w t → Acts m May t u → Acts m May w u
  Acts-trans p here = p
  Acts-trans p (next a may q s) = next a may (Acts-trans p q) s

  -- Such steps are steps of the service.
  pub Acts-Reach : {w t : World D E} → Acts m May w t → Reach m w t
  Acts-Reach here = Steps.here
  Acts-Reach (next a may q s) = Steps.next a (Acts-Reach q) s

  pub Acts-weaken :
      {Might : Actor → Type 0} {w t : World D E}
      → ((a : Actor) → May a → Might a)
      → Acts m May w t
      → Acts m Might w t
  Acts-weaken f here = here
  Acts-weaken f (next a may q s) = next a (f a may) (Acts-weaken f q) s

-- What an action of the service, and a handler, do to the world.
pub record Calls {D E A : Type 0} (m : Media D E) (May : Actor → Type 0) (c : Exec (World D E) A)
    : Type 0 where
  pub acts : (w : World D E) → Acts m May w (c w).1

pub record Does {D E : Type 0} (m : Media D E) (May : Actor → Type 0) (h : Handler D E)
    : Type 0 where
  pub acts : (w w' : World D E) (response : Response) → h w ≡ some (response, w') → Acts m May w w'

module _ {D E : Type 0} (m : Media D E) (May : Actor → Type 0) where
  pub Calls-Step :
      {A : Type 0} (a : Actor) (c : Exec (World D E) A)
      → May a
      → ((w : World D E) → Step m a w (c w).1)
      → Calls m May c
  Calls-Step a c may step = record { acts = λ w. next a may here (step w) }

  pub Calls-pure : {A : Type 0} (a : A) → Calls m May (pure a)
  unfolding ◌>>=◌
  Calls-pure a = record { acts = λ w. here }

  pub Calls-bind :
      {A B : Type 0} (c : Exec (World D E) A) (f : A → Exec (World D E) B)
      → Calls m May c
      → ((a : A) → Calls m May (f a))
      → Calls m May (c >>= f)
  unfolding ◌>>=◌
  Calls-bind {A} {B} c f kc kf = record { acts = λ w. rest w (c w).0 (c w).1 (kc.acts w) }
    where
      rest :
          (w : World D E) (r : Result A) (t : World D E)
          → Acts m May w t
          → Acts m May w (resume r f t).1
      rest w (ok a) t p = Acts-trans m p ((kf a).acts t)
      rest w (err e) t p = p

  pub Does-answer :
      {A : Type 0} (on_err : Err → Response) (c : Exec (World D E) A) (on_ok : A → Response)
      → Calls m May c
      → Does m May (answer on_err c on_ok)
  unfolding answer
  Does-answer on_err c on_ok k = record {
    acts = λ w w' response e.
        let same : (c w).1 ≡ w' = ground arith in subst (λ t. Acts m May w t) same (k.acts w);
  }

  -- A handler that makes one call.
  pub Does-call :
      {A : Type 0} (a : Actor) (on_err : Err → Response) (c : Exec (World D E) A)
      (on_ok : A → Response)
      → May a
      → ((w : World D E) → Step m a w (c w).1)
      → Does m May (answer on_err c on_ok)
  Does-call a on_err c on_ok may step = Does-answer on_err c on_ok (Calls-Step a c may step)

  pub Does-only : (response : Response) → Does m May (only response)
  unfolding only
  Does-only response = record {
    acts = λ w w' r e. let same : w ≡ w' = ground arith in subst (λ t. Acts m May w t) same here;
  }

  pub Does-with_body :
      {B : Type 0} (o : Option B) (handle : B → Handler D E)
      → ((b : B) → Does m May (handle b))
      → Does m May (with_body o handle)
  Does-with_body none handle k = Does-only _
  Does-with_body (some b) handle k = k b

  pub Does-if :
      (b : Bool) (h i : Handler D E) → Does m May h → Does m May i → Does m May (if b then h else i)
  Does-if true h i kh ki = kh
  Does-if false h i kh ki = ki

  pub Does-with_id :
      (id : Str) (handle : Str → Handler D E)
      → ((id : Str) → Does m May (handle id))
      → Does m May (with_id id handle)
  unfolding with_id
  Does-with_id id handle k = Does-if _ _ _ (Does-only _) (k id)
