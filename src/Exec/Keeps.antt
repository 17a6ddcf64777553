-- ===== src/Exec/Keeps.antt =====
-- Rules for what an action keeps of the state, whether it returns or raises.
use pf_media.Base.{◌≡◌, refl, Bool, true, false, if◌then◌else◌}
use pf_media.Domain.{Err, Result, ok, err}
use pf_media.Exec.{
  Exec, handle, resume, ◌>>=◌, pure, raise, attempt, ignore, recover, lift, World, in_db, in_ext,
  in_sys,
}

-- Whatever comes of `m`, it keeps `P`.
pub record Keeps {S A : Type 0} (P : S → Type 0) (m : Exec S A) : Type 0 where
  pub at : (s : S) → P s → P (m s).1

-- `P` of the database.
pub record On {D E : Type 0} (P : D → Type 0) (w : World D E) : Type 0 where
  pub holds : P w.db

module _ {S A : Type 0} {P : S → Type 0} where
  pub Keeps-pure : (a : A) → Keeps P (pure a)
  unfolding ◌>>=◌
  Keeps-pure a = record { at = λ s h. h }

  pub Keeps-raise : (e : Err) → Keeps P (raise {A = A} e)
  unfolding ◌>>=◌
  Keeps-raise e = record { at = λ s h. h }

  pub Keeps-lift : (r : Result A) → Keeps P (lift r)
  unfolding ◌>>=◌
  Keeps-lift r = record { at = λ s h. h }

  pub Keeps-attempt : (m : Exec S A) → Keeps P m → Keeps P (attempt m)
  unfolding ◌>>=◌
  Keeps-attempt m k = record { at = λ s h. k.at s h }

  pub Keeps-ignore : (m : Exec S A) → Keeps P m → Keeps P (ignore m)
  unfolding ◌>>=◌
  Keeps-ignore m k = record { at = λ s h. k.at s h }

  handle_at :
      (r : Result A) (h : Err → Exec S A)
      → ((e : Err) → Keeps P (h e))
      → (s : S) → P s
      → P (handle r h s).1
  handle_at (ok a) h k s p = p
  handle_at (err e) h k s p = (k e).at s p

  pub Keeps-recover :
      (m : Exec S A) (h : Err → Exec S A)
      → Keeps P m
      → ((e : Err) → Keeps P (h e))
      → Keeps P (recover m h)
  unfolding ◌>>=◌
  Keeps-recover m h km kh = record { at = λ s p. handle_at (m s).0 h kh (m s).1 (km.at s p) }

  pub Keeps-if :
      (test : Bool) (one other : Exec S A)
      → (test ≡ true → Keeps P one)
      → (test ≡ false → Keeps P other)
      → Keeps P (if test then one else other)
  Keeps-if true one other ky kn = ky refl
  Keeps-if false one other ky kn = kn refl

module _ {S A B : Type 0} {P : S → Type 0} where
  resume_at :
      (r : Result A) (f : A → Exec S B) (s : S)
      → ((a : A) → r ≡ ok a → Keeps P (f a))
      → P s
      → P (resume r f s).1
  resume_at (ok a) f s k p = (k a refl).at s p
  resume_at (err e) f s k p = p

  pub Keeps-bind :
      (m : Exec S A) (rest : A → Exec S B)
      → Keeps P m
      → ((a : A) → Keeps P (rest a))
      → Keeps P (m >>= rest)
  unfolding ◌>>=◌
  Keeps-bind m rest k kr = record {
    at = λ s p. resume_at (m s).0 rest (m s).1 (λ a _. kr a) (k.at s p);
  }

  -- The rest may use a fact about the value that `m` has returned.
  pub Keeps-bind_fact :
      (Q : A → Type 0) (m : Exec S A) (f : A → Exec S B)
      → Keeps P m
      → ((s : S) (a : A) → P s → (m s).0 ≡ ok a → Q a)
      → ((a : A) → Q a → Keeps P (f a))
      → Keeps P (m >>= f)
  unfolding ◌>>=◌
  Keeps-bind_fact Q m f km fact kf = record {
    at = λ s p. resume_at (m s).0 f (m s).1 (λ a e. kf a (fact s a p e)) (km.at s p);
  }

-- Behind `if test { return e }` the test has failed.
pub Keeps-unless :
    {S B : Type 0} {P : S → Type 0} (b : Bool) (e : Err) (n : Exec S B)
    → (b ≡ false → Keeps P n)
    → Keeps P ((if b then raise e else pure tt) >>= λ (u : Unit {0}). n)
unfolding ◌>>=◌
Keeps-unless true e n k = record { at = λ s p. p }
Keeps-unless false e n k = record { at = λ s p. (k refl).at s p }

module _ {D E A : Type 0} {P : D → Type 0} where
  pub Keeps-in_db : (m : Exec D A) → Keeps P m → Keeps (On {E = E} P) (in_db m)
  unfolding ◌>>=◌
  Keeps-in_db m k = record { at = λ w h. record { holds = k.at w.db h.holds } }

  pub Keeps-in_ext : (m : Exec E A) → Keeps (On P) (in_ext m)
  unfolding ◌>>=◌
  Keeps-in_ext m = record { at = λ w h. record { holds = h.holds } }

  pub Keeps-in_sys : (f : E → A × E) → Keeps (On P) (in_sys f)
  unfolding ◌>>=◌
  Keeps-in_sys f = record { at = λ w h. record { holds = h.holds } }

pub ruleset keeps_rules = (
  Keeps-pure, Keeps-raise, Keeps-lift, Keeps-attempt, Keeps-ignore, Keeps-recover, Keeps-if,
  Keeps-bind, Keeps-in_db, Keeps-in_ext, Keeps-in_sys,
)
