-- ===== src/Exec/Loop.antt =====
-- Actions that run on fuel: `none` says that the fuel ran out.
pub mod Ending
use pf_media.Base.{◌≡◌, refl, Bool, true, false, if◌then◌else◌, Option, none, some, arith}
use pf_media.Domain.{Result, ok, err}
use pf_media.Exec.{Exec}
use pf_media.Exec.Keeps.{Keeps}

abbrev pub Loop : Type 0 → Type 0 → Type 0
Loop S A = S → Option (Result A × S)

abbrev pub go_on : {S A B : Type 0} → (A → Loop S B) → Option (Result A × S) → Option (Result B × S)
go_on f none = none
go_on f (some (ok a, s)) = f a s
go_on f (some (err e, s)) = some (err e, s)

-- A step that takes no fuel.
pub run : {S A : Type 0} → Exec S A → Loop S A
run m s = some (m s)

-- The fuel has run out.
pub out_of_fuel : {S A : Type 0} → Loop S A
out_of_fuel s = none

infixl 10 ◌>>=◌ ◌>>◌
unfoldable pub ◌>>=◌ : {S A B : Type 0} → Loop S A → (A → Loop S B) → Loop S B
unfolding run out_of_fuel
◌>>=◌ m f s = go_on f (m s)

abbrev pub ◌>>◌ : {S A B : Type 0} → Loop S A → Loop S B → Loop S B
m >> n = m >>= λ _. n

-- If the loop ends, it has kept `P`.
pub record KeepsLoop {S A : Type 0} (P : S → Type 0) (m : Loop S A) : Type 0 where
  pub at : (s s' : S) (r : Result A) → P s → m s ≡ some (r, s') → P s'

module _ {S A : Type 0} {P : S → Type 0} where
  pub KeepsLoop-run : (m : Exec S A) → Keeps P m → KeepsLoop P (run m)
  unfolding ◌>>=◌
  KeepsLoop-run m k = record { at = λ s s' r p e. ground (arith, k.at s p) }

  pub KeepsLoop-if :
      (b : Bool) (m n : Loop S A) → KeepsLoop P m → KeepsLoop P n → KeepsLoop P (if b then m else n)
  KeepsLoop-if true m n km kn = km
  KeepsLoop-if false m n km kn = kn

pub KeepsLoop-out_of_fuel : {S A : Type 0} (P : S → Type 0) → KeepsLoop P (out_of_fuel {A = A})
unfolding ◌>>=◌
KeepsLoop-out_of_fuel P = record { at = λ s s' r p e. cc }

go_on_at :
    {S A B : Type 0} {P : S → Type 0} (f : A → Loop S B) (o : Option (Result A × S)) {s' : S}
    {r : Result B}
    → ((a : A) → KeepsLoop P (f a))
    → ((t : S) (x : Result A) → o ≡ some (x, t) → P t)
    → go_on f o ≡ some (r, s')
    → P s'
go_on_at f none kf kp e = cc
go_on_at f (some (ok a, t)) kf kp e = (kf a).at t _ _ (kp t (ok a) refl) e
go_on_at f (some (err x, t)) {s'} kf kp e = ground (arith, kp t (err x) refl)

pub KeepsLoop-bind :
    {S A B : Type 0} {P : S → Type 0} (m : Loop S A) (f : A → Loop S B)
    → KeepsLoop P m
    → ((a : A) → KeepsLoop P (f a))
    → KeepsLoop P (m >>= f)
unfolding ◌>>=◌
KeepsLoop-bind m f km kf = record {
  at = λ s s' r p e. go_on_at f (m s) kf (λ t x found. km.at s t x p found) e;
}

pub ruleset loop_rules = (KeepsLoop-run, KeepsLoop-if, KeepsLoop-out_of_fuel, KeepsLoop-bind)
