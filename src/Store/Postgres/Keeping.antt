-- ===== src/Store/Postgres/Keeping.antt =====
-- What the pool does with a statement, and what the methods that run it keep of the tables, also when
-- a call fails.
use pf_media.Base.{Bool, true, false, if◌then◌else◌, ◌≡◌, refl, Option, none, some, arith}
use pf_media.Domain.{Err, Result, ok, err}
use pf_media.Exec.{Exec, resume, ◌>>=◌, ◌>>◌, raise, pure}
use pf_media.Exec.Keeps.{Keeps}
use pf_media.Store.Postgres.Rows.{Tables, Failure, Outcome, done, refused, Statement, select}
use pf_media.Store.Postgres.Pool.{
  Backend, Db, result_of, send, finish, reply, run, query, close, begun, transaction,
}

-- The ways a call of the pool ends: the statement has not run, or was refused, or has changed the
-- tables, with or without an answer.
pub data Ran {C A : Type 0} (statement : Statement A) (s : Db C) : Outcome A × Db C → Type 0 where
  skipped : (f : Failure) (c : C) → Ran statement s (refused f, record s { link = c })
  violated :
      (f : Failure) (c : C)
      → statement s.tables ≡ refused f
      → Ran statement s (refused f, record s { link = c })
  answered :
      (a : A) (t : Tables) (c : C)
      → statement s.tables ≡ done (a, t)
      → Ran statement s (done a, record { tables = t; link = c })
  unanswered :
      (a : A) (t : Tables) (f : Failure) (c : C)
      → statement s.tables ≡ done (a, t)
      → Ran statement s (refused f, record { tables = t; link = c })

-- What holds of a statement's value and of the tables that it leaves, if it succeeds.
abbrev pub Post : {A : Type 0} → (A → Tables → Type 0) → Outcome (A × Tables) → Type 0
Post Q (done (a, t)) = Q a t
Post Q (refused f) = Unit

pub post_at :
    {A : Type 0} (Q : A → Tables → Type 0) (o : Outcome (A × Tables)) (a : A) (t : Tables)
    → Post Q o
    → o ≡ done (a, t)
    → Q a t
post_at Q o a t h e = rw e at h

pub Post-if :
    {A : Type 0} (Q : A → Tables → Type 0) (test : Bool) (f : Failure) (o : Outcome (A × Tables))
    → (test ≡ false → Post Q o)
    → Post Q (if test then refused f else o)
Post-if Q true f o k = tt
Post-if Q false f o k = k refl

-- A statement that succeeds keeps `P`.
pub record Stable {A : Type 0} (P : Tables → Type 0) (statement : Statement A) : Type 0 where
  pub at : (t t' : Tables) (a : A) → P t → statement t ≡ done (a, t') → P t'

-- `P` of the tables.
pub record Of {C : Type 0} (P : Tables → Type 0) (s : Db C) : Type 0 where
  pub holds : P s.tables

pub Stable-of_Post :
    {A : Type 0} {P : Tables → Type 0} (statement : Statement A)
    → ((t : Tables) → P t → Post (λ _ t'. P t') (statement t))
    → Stable P statement
Stable-of_Post {P} statement k = record {
  at = λ t t' a h e. post_at (λ _ x. P x) (statement t) a t' (k t h) e;
}

pub select-Stable : {A : Type 0} {P : Tables → Type 0} (read : Tables → A) → Stable P (select read)
select-Stable read = record { at = λ t t' a h e. ground arith }

module _ {S A B : Type 0} (P : S → Type 0) where
  resume_state :
      (r : Result A) (f : A → Exec S B) (s : S)
      → ((a : A) → r ≡ ok a → P (f a s).1)
      → P s
      → P (resume r f s).1
  resume_state (ok a) f s k p = k a refl
  resume_state (err e) f s k p = p

  -- The rest may use a fact about the state that `m` has left.
  pub Keeps-bind_state :
      (Q : A → S → Type 0) (m : Exec S A) (f : A → Exec S B)
      → Keeps P m
      → ((s : S) (a : A) → P s → (m s).0 ≡ ok a → Q a (m s).1)
      → ((a : A) (s : S) → Q a s → P (f a s).1)
      → Keeps P (m >>= f)
  unfolding ◌>>=◌
  Keeps-bind_state Q m f km fact kf = record {
    at = λ s p. resume_state (m s).0 f (m s).1 (λ a e. kf a (m s).1 (fact s a p e)) (km.at s p);
  }

-- Behind `if test { return e }`, from one state.
pub unless_at :
    {S B : Type 0} (P : S → Type 0) (b : Bool) (e : Err) (n : Exec S B) (s : S)
    → (b ≡ false → P (n s).1)
    → P s
    → P (((if b then raise e else pure tt) >>= λ (u : Unit {0}). n) s).1
unfolding ◌>>=◌
unless_at P true e n s k p = p
unless_at P false e n s k p = k refl

pure_state : {S A B : Type 0} (r : Result A) (b : B) (s : S) → (resume r (λ _. pure b) s).1 ≡ s
unfolding ◌>>=◌
pure_state (ok a) b s = refl
pure_state (err e) b s = refl

-- To answer with a value does not change the state.
pub >>-pure : {S A B : Type 0} (m : Exec S A) (b : B) (s : S) → ((m >> pure b) s).1 ≡ (m s).1
unfolding ◌>>=◌
>>-pure m b s = pure_state (m s).0 b (m s).1

module _ {C : Type 0} (backend : Backend C) where
  reply-Ran :
      {A : Type 0} (statement : Statement A) (s : Db C) (a : A) (t : Tables) (c : C)
      (failure : Option Failure)
      → statement s.tables ≡ done (a, t)
      → Ran statement s (reply backend a failure, record { tables = t; link = c })
  unfolding reply
  reply-Ran statement s a t c none e = answered a t c e
  reply-Ran statement s a t c (some f) e = unanswered a t f c e

  finish-Ran :
      {A : Type 0} (statement : Statement A) (s : Db C) (c : C) (o : Outcome (A × Tables))
      → statement s.tables ≡ o
      → Ran statement s (finish backend o (record s { link = c }))
  finish-Ran statement s c (refused f) e = violated f c e
  finish-Ran statement s c (done (a, t)) e =
      reply-Ran statement s a t (backend.after c).1 (backend.after c).0 e

  send-Ran :
      {A : Type 0} (statement : Statement A) (s : Db C) (c : C) (failure : Option Failure)
      → Ran statement s (send backend failure statement (record s { link = c }))
  send-Ran statement s c none = finish-Ran statement s c (statement s.tables) refl
  send-Ran statement s c (some f) = skipped f c

  pub run-Ran :
      {A : Type 0} (statement : Statement A) (s : Db C) → Ran statement s (run backend statement s)
  unfolding run
  run-Ran statement s = send-Ran statement s (backend.before s.link).1 (backend.before s.link).0

  ran_at :
      {A : Type 0} (P : Tables → Type 0) (statement : Statement A) (s : Db C) (r : Outcome A × Db C)
      → ((a : A) (t : Tables) → statement s.tables ≡ done (a, t) → P t)
      → P s.tables
      → Ran statement s r
      → P r.1.tables
  ran_at P statement s r k h (skipped f c) = h
  ran_at P statement s r k h (violated f c e) = h
  ran_at P statement s r k h (answered a t c e) = k a t e
  ran_at P statement s r k h (unanswered a t f c e) = k a t e

  pub run_at :
      {A : Type 0} (P : Tables → Type 0) (statement : Statement A) (s : Db C)
      → ((a : A) (t : Tables) → statement s.tables ≡ done (a, t) → P t)
      → P s.tables
      → P (run backend statement s).1.tables
  run_at P statement s k h = ran_at P statement s _ k h (run-Ran statement s)

  pub run-Stable :
      {A : Type 0} {P : Tables → Type 0} (statement : Statement A) (s : Db C)
      → Stable P statement
      → Of P s
      → Of P (run backend statement s).1
  run-Stable {P} statement s k h = record {
    holds = run_at P statement s (λ a t e. k.at s.tables t a h.holds e) h.holds;
  }

  pub query-Keeps :
      {A : Type 0} {P : Tables → Type 0} (statement : Statement A)
      → Stable P statement
      → Keeps (Of P) (query backend statement)
  unfolding query
  query-Keeps statement k = record { at = λ s h. run-Stable statement s k h }

  -- What is returned was returned by the statement, and the tables are those that it has left.
  returned :
      {A : Type 0} (statement : Statement A) (s : Db C) (r : Outcome A × Db C) (a : A)
      → Ran statement s r
      → r.0 ≡ done a
      → statement s.tables ≡ done (a, r.1.tables)
  returned statement s r a (skipped f c) h = cc
  returned statement s r a (violated f c e) h = cc
  returned statement s r a (answered b t c e) h = cc
  returned statement s r a (unanswered b t f c e) h = cc

  result_ok : {A : Type 0} (o : Outcome A) (a : A) → result_of o ≡ ok a → o ≡ done a
  result_ok (done b) a h = cc
  result_ok (refused f) a h = cc

  pub query-ok :
      {A : Type 0} (statement : Statement A) (s : Db C) (a : A)
      → (query backend statement s).0 ≡ ok a
      → statement s.tables ≡ done (a, (query backend statement s).1.tables)
  unfolding query
  query-ok statement s a h =
      returned statement s _ a (run-Ran statement s) (result_ok (run backend statement s).0 a h)

  close_at :
      {A : Type 0} {P : Tables → Type 0} (saved : Tables) (r : Result A) (s : Db C)
      → P saved
      → Of P s
      → Of P (close backend saved r s).1
  close_at saved (err e) s p h = record { holds = p }
  close_at {P} saved (ok a) s p h =
      unfold query in
      run-Stable {P = P} _ _ (record { at = λ t t' a q e. ground arith }) (record { holds = p })

  begun_at :
      {A : Type 0} {P : Tables → Type 0} (body : Exec (Db C) A) (r : Result Tables) (s : Db C)
      → ((saved : Tables) → r ≡ ok saved → P saved)
      → Keeps (Of P) body
      → Of P s
      → Of P (begun backend body r s).1
  begun_at body (err e) s saves k h = h
  begun_at body (ok saved) s saves k h =
      close_at saved (body s).0 (body s).1 (saves saved refl) (k.at s h)

  begin-saved :
      {P : Tables → Type 0} (s : Db C) (saved : Tables)
      → Of P s
      → (query backend (select (λ t. t)) s).0 ≡ ok saved
      → P saved
  begin-saved s saved h e =
      let f = query-ok (select (λ t. t)) s saved e in let p = h.holds in ground arith

  -- A transaction keeps what its statements keep, whether it is committed or rolled back.
  pub transaction-Keeps :
      {A : Type 0} {P : Tables → Type 0} (body : Exec (Db C) A)
      → Keeps (Of P) body
      → Keeps (Of P) (transaction backend body)
  unfolding transaction
  transaction-Keeps body k = record {
    at = λ s h.
        begun_at body (query backend (select (λ t. t)) s).0 (query backend (select (λ t. t)) s).1
          (λ saved e. begin-saved s saved h e) k
          ((query-Keeps (select (λ t. t)) (select-Stable (λ t. t))).at s h);
  }
