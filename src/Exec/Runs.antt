-- ===== src/Exec/Runs.antt =====
-- Running a `do` block step by step, where the outcome of each step is known.
use pf_media.Base.{◌≡◌, Bool, true, false}
use pf_media.Domain.{Err, Result, ok, err}
use pf_media.Exec.{Exec, ◌>>=◌, ◌>>◌, reject_if, World, in_db, in_ext}

module _ {S A B : Type 0} where
  pub bind_run :
      (m : Exec S A) (f : A → Exec S B) (s : S) (a : A) (t : S)
      → m s ≡ (ok a, t)
      → (m >>= f) s ≡ f a t
  unfolding ◌>>=◌
  bind_run m f s a t e = rw e

  pub bind_stop :
      (m : Exec S A) (f : A → Exec S B) (s : S) (x : Err) (t : S)
      → m s ≡ (err x, t)
      → (m >>= f) s ≡ (err x, t)
  unfolding ◌>>=◌
  bind_stop m f s x t e = rw e

pub reject_run :
    {S B : Type 0} (b : Bool) (e : Err) (n : Exec S B) (s : S)
    → b ≡ false
    → (reject_if b e >> n) s ≡ n s
unfolding ◌>>=◌
reject_run b e n s h = rw h

pub reject_stop :
    {S B : Type 0} (b : Bool) (e : Err) (n : Exec S B) (s : S)
    → b ≡ true
    → (reject_if b e >> n) s ≡ (err e, s)
unfolding ◌>>=◌
reject_stop b e n s h = rw h

module _ {D E A : Type 0} where
  pub in_db_run :
      (m : Exec D A) (w : World D E) (r : Result A) (d : D)
      → m w.db ≡ (r, d)
      → in_db m w ≡ (r, record w { db = d })
  unfolding ◌>>=◌
  in_db_run m w r d e = rw e

  pub in_ext_run :
      (m : Exec E A) (w : World D E) (r : Result A)
      → (m w.ext).0 ≡ r
      → in_ext m w ≡ (r, record w { ext = (m w.ext).1 })
  unfolding ◌>>=◌
  in_ext_run m w r e = rw e
