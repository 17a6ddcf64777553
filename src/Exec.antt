-- ===== src/Exec.antt =====
-- Go methods that change a shared object and may return an error. The changes made before an error
-- stay, so the state comes back beside the error too. To open `◌>>=◌` opens all of them.
pub mod Keeps
pub mod Inversion
pub mod Loop
pub mod Runs
pub mod Returns
use pf_media.Base.{Bool, if◌then◌else◌}
use pf_media.Domain.{Err, Result, ok, err}

abbrev pub Exec : Type 0 → Type 0 → Type 0
Exec S A = S → Result A × S

-- The database of the program and the world outside it: object storage, queue, clock, random source.
pub record World (D E : Type 0) : Type 0 where
  pub db : D
  pub ext : E

pub pure : {S A : Type 0} → A → Exec S A
pure a s = (ok a, s)

pub raise : {S A : Type 0} → Err → Exec S A
raise e s = (err e, s)

pub lift : {S A : Type 0} → Result A → Exec S A
lift r s = (r, s)

-- `r, err := m`, for code that looks at the error itself.
pub attempt : {S A : Type 0} → Exec S A → Exec S (Result A)
attempt m s = let (r, s') = m s in (ok r, s')

-- `_ = m`
pub ignore : {S A : Type 0} → Exec S A → Exec S Unit
ignore m s = let (_, s') = m s in (ok tt, s')

abbrev pub handle : {S A : Type 0} → Result A → (Err → Exec S A) → Exec S A
handle (ok a) h s = (ok a, s)
handle (err e) h s = h e s

-- `if err := m; err != nil { … }`: the handler sees the error.
pub recover : {S A : Type 0} → Exec S A → (Err → Exec S A) → Exec S A
recover m h s = let (r, s') = m s in handle r h s'

pub in_db : {D E A : Type 0} → Exec D A → Exec (World D E) A
in_db m w = let (r, d) = m w.db in (r, record w { db = d })

pub in_ext : {D E A : Type 0} → Exec E A → Exec (World D E) A
in_ext m w = let (r, e) = m w.ext in (r, record w { ext = e })

-- A call that cannot fail.
pub in_sys : {D E A : Type 0} → (E → A × E) → Exec (World D E) A
in_sys f w = let (a, e) = f w.ext in (ok a, record w { ext = e })

abbrev pub resume : {S A B : Type 0} → Result A → (A → Exec S B) → Exec S B
resume (ok a) f s = f a s
resume (err e) f s = (err e, s)

-- `a, err := m; if err != nil { return err }`
infixl 10 ◌>>=◌ ◌>>◌
unfoldable pub ◌>>=◌ : {S A B : Type 0} → Exec S A → (A → Exec S B) → Exec S B
unfolding pure raise lift attempt ignore recover in_db in_ext in_sys
◌>>=◌ m f s = let (r, s') = m s in resume r f s'

abbrev pub ◌>>◌ : {S A B : Type 0} → Exec S A → Exec S B → Exec S B
m >> n = m >>= λ _. n

-- `if test { return e }`
abbrev pub reject_if : {S : Type 0} → Bool → Err → Exec S Unit
reject_if b e = if b then raise e else pure tt

-- `if test { m }`
abbrev pub when : {S : Type 0} → Bool → Exec S Unit → Exec S Unit
when b m = if b then m else pure tt
