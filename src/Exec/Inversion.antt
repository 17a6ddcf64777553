-- ===== src/Exec/Inversion.antt =====
-- What a successful step of a `do` block says of its parts.
use pf_media.Base.{◌≡◌, refl, Bool, true, false}
use pf_media.Domain.{Err, Result, ok, err}
use pf_media.Exec.{Exec, resume, handle, ◌>>=◌, ◌>>◌, raise, reject_if, recover, pure}

resume-ok :
    {S A B : Type 0} (r : Result A) (f : A → Exec S B) (s : S) {b : B}
    → (resume r f s).0 ≡ ok b
    → (a : A) × (r ≡ ok a) × ((f a s).0 ≡ ok b)
resume-ok (ok a) f s h = (a, refl, h)
resume-ok (err e) f s h = cc

pub bind-ok :
    {S A B : Type 0} (m : Exec S A) (f : A → Exec S B) (s : S) {b : B}
    → ((m >>= f) s).0 ≡ ok b
    → (a : A) × ((m s).0 ≡ ok a) × ((f a (m s).1).0 ≡ ok b)
unfolding ◌>>=◌
bind-ok m f s h = resume-ok (m s).0 f (m s).1 h

handle-ok :
    {S A : Type 0} (r : Result A) (e : Err) (s : S) {a : A}
    → (handle r (λ _. raise e) s).0 ≡ ok a
    → r ≡ ok a
unfolding ◌>>=◌
handle-ok (ok a) e s h = h
handle-ok (err x) e s h = cc

-- A handler that raises never makes a result.
pub recover-ok :
    {S A : Type 0} (m : Exec S A) (e : Err) (s : S) {a : A}
    → (recover m (λ _. raise e) s).0 ≡ ok a
    → (m s).0 ≡ ok a
unfolding ◌>>=◌
recover-ok m e s h = handle-ok (m s).0 e (m s).1 h

-- A successful step goes on, on its value and from its state.
pub bind_step :
    {S A B : Type 0} (m : Exec S A) (f : A → Exec S B) (s : S) (a : A)
    → (m s).0 ≡ ok a
    → (m >>= f) s ≡ f a (m s).1
unfolding ◌>>=◌
bind_step m f s a e = rw e

-- A step behind `if test { return e }` was reached with the test failing.
pub reject_if-ok :
    {S B : Type 0} (b : Bool) (e : Err) (n : Exec S B) (s : S) {r : B}
    → ((reject_if b e >> n) s).0 ≡ ok r
    → (b ≡ false) × ((n s).0 ≡ ok r)
unfolding ◌>>=◌
reject_if-ok true e n s h = cc
reject_if-ok false e n s h = (refl, h)

pub pure-ok : {S A : Type 0} (a : A) (s : S) {r : A} → (pure a s).0 ≡ ok r → a ≡ r
unfolding ◌>>=◌
pure-ok a s h = cc
