-- ===== src/Exec/Returns.antt =====
-- Rules for what a value that an action returns satisfies.
use pf_media.Base.{◌≡◌, refl, Bool, false}
use pf_media.Domain.{Err, Result, ok, err}
use pf_media.Exec.{Exec, ◌>>=◌, ◌>>◌, pure, raise, reject_if, attempt}
use pf_media.Exec.Inversion.{bind-ok, reject_if-ok, pure-ok}

-- If `m` returns a value, `Q` holds of it.
pub record Returns {S A : Type 0} (Q : A → Type 0) (m : Exec S A) : Type 0 where
  pub value : (s : S) (a : A) → (m s).0 ≡ ok a → Q a

module _ {S A : Type 0} {Q : A → Type 0} where
  pub Returns-pure : (a : A) → Q a → Returns Q (pure {S = S} a)
  Returns-pure a q = record { value = λ s b h. rw (← pure-ok a s h) q }

  pub Returns-raise : (e : Err) → Returns Q (raise {S = S} e)
  unfolding ◌>>=◌
  Returns-raise e = record { value = λ s a h. cc }

  -- Behind `if test { return e }` the test has failed.
  pub Returns-unless :
      (b : Bool) (e : Err) (n : Exec S A)
      → (b ≡ false → Returns Q n)
      → Returns Q (reject_if b e >> n)
  Returns-unless b e n k = record {
    value = λ s a h. let (passed, rest) = reject_if-ok b e n s h in (k passed).value s a rest;
  }

module _ {S A B : Type 0} {Q : B → Type 0} where
  pub Returns-bind :
      (m : Exec S A) (f : A → Exec S B) → ((a : A) → Returns Q (f a)) → Returns Q (m >>= f)
  Returns-bind m f k = record {
    value = λ s b h. let (a, _, rest) = bind-ok m f s h in (k a).value _ b rest;
  }

  -- The rest sees the outcome of `m`.
  pub Returns-attempt :
      (R : A → Type 0) (m : Exec S A) (f : Result A → Exec S B)
      → Returns R m
      → ((a : A) → R a → Returns Q (f (ok a)))
      → ((e : Err) → Returns Q (f (err e)))
      → Returns Q (attempt m >>= f)
  unfolding ◌>>=◌
  Returns-attempt R m f km good bad = record {
    value = λ s b h. outcome (m s).0 (m s).1 (λ a e. km.value s a e) b h;
  }
    where
      outcome :
          (r : Result A) (t : S) → ((a : A) → r ≡ ok a → R a) → (b : B) → (f r t).0 ≡ ok b → Q b
      outcome (ok a) t sure b h = (good a (sure a refl)).value t b h
      outcome (err e) t sure b h = (bad e).value t b h

pub ruleset returns_rules = (Returns-pure, Returns-raise, Returns-bind)
