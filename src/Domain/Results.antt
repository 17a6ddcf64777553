-- ===== src/Domain/Results.antt =====
-- Go functions that return a value or an error and change nothing.
use pf_media.Base.{Bool, true, false, Option, none, some, ◌≡◌, refl}
use pf_media.Domain.{Err, Result, ok, err}

-- `x, err := step; if err != nil { return err }`
infixl 10 ◌>>=◌ ◌>>◌
abbrev pub ◌>>=◌ : {X Y : Type 0} → Result X → (X → Result Y) → Result Y
err e >>= rest = err e
ok x >>= rest = rest x

abbrev pub ◌>>◌ : {Y : Type 0} → Result (Unit {0}) → Result Y → Result Y
err e >> rest = err e
ok done >> rest = rest

-- `if test { return e }`
abbrev pub fail_if : Bool → Err → Result (Unit {0})
fail_if false e = ok tt
fail_if true e = err e

-- A value that is there, or an error.
abbrev pub expect : {X : Type 0} → Err → Option X → Result X
expect e (some x) = ok x
expect e none = err e

-- The value that a step which succeeds hands on.
pub handed_on :
    {X Y : Type 0} (rest : X → Result Y) (step : Result X) {y : Y}
    → (step >>= rest) ≡ ok y
    → (x : X) × (rest x ≡ ok y) × (step ≡ ok x)
handed_on rest (err e) h = cc
handed_on rest (ok x) h = (x, h, refl)
