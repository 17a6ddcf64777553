-- ===== src/Exec/Loop/Ending.antt =====
-- Loops that end with the fuel they have.
use mathlib.Core.Path.{subst}
use pf_media.Base.{◌≡◌, refl, Option, none, some, arith}
use pf_media.Domain.{Result, ok, err}
use pf_media.Exec.{Exec}
use pf_media.Exec.Keeps.{Keeps}
use pf_media.Exec.Loop.{Loop, run, ◌>>=◌, go_on}

-- An outcome is there, and its state has `P`.
abbrev pub Ended : {S A : Type 0} → (S → Type 0) → Option (Result A × S) → Type 0
Ended {S} {A} P o = (r : Result A) × (s : S) × (o ≡ some (r, s)) × P s

-- From every state with `P` the loop ends in one.
pub record Ends {S A : Type 0} (P : S → Type 0) (m : Loop S A) : Type 0 where
  pub at : (s : S) → P s → Ended P (m s)

module _ {S A B : Type 0} {P : S → Type 0} where
  go_on-Ended :
      (f : A → Loop S B) (o : Option (Result A × S))
      → ((a : A) → Ends P (f a))
      → Ended P o
      → Ended P (go_on f o)
  go_on-Ended f none k (r, s, e, p) = cc
  go_on-Ended f (some (ok a, t)) k (r, s, e, p) =
      let same : s ≡ t = ground arith in (k a).at t (subst P same p)
  go_on-Ended f (some (err x, t)) k (r, s, e, p) =
      let same : s ≡ t = ground arith in (err x, t, refl, subst P same p)

  pub Ends-bind :
      (m : Loop S A) (f : A → Loop S B) → Ends P m → ((a : A) → Ends P (f a)) → Ends P (m >>= f)
  unfolding ◌>>=◌
  Ends-bind m f km kf = record { at = λ s p. go_on-Ended f (m s) kf (km.at s p) }

  stepped :
      (r : Result A) (t : S) (f : A → Loop S B)
      → P t
      → ((a : A) → r ≡ ok a → Ended P (f a t))
      → Ended P (go_on f (some (r, t)))
  stepped (ok a) t f p k = k a refl
  stepped (err x) t f p k = (err x, t, refl, p)

  -- After a step, on its value and from its state.
  pub Ended-step :
      (m : Exec S A) (f : A → Loop S B) (s : S)
      → P (m s).1
      → ((a : A) → (m s).0 ≡ ok a → Ended P (f a (m s).1))
      → Ended P ((run m >>= f) s)
  unfolding ◌>>=◌
  Ended-step m f s p k = stepped (m s).0 (m s).1 f p k

pub Ends-run : {S A : Type 0} {P : S → Type 0} (m : Exec S A) → Keeps P m → Ends P (run m)
unfolding ◌>>=◌
Ends-run m k = record { at = λ s p. ((m s).0, (m s).1, refl, k.at s p) }
