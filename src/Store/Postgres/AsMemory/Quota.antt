-- ===== src/Store/Postgres/AsMemory/Quota.antt =====
-- The quota of the Postgres store, beside that of the memory store: the transaction of `AddQuota` is
-- one call of the memory store, or it is rolled back.
use pf_media.Base.{
  Str, ℕ, ◌≡◌, refl, true, false, none, some, List, [], ◌∷◌, arith, str_eq, ◌==◌, nat_eq,
  Option-cases, inl, inr, keep, if◌then◌else◌, any, ◌&&◌,
}
use pf_media.Base.Dict.{insert}
use pf_media.Base.Int.{ℤ}
use pf_media.Domain.{Result, ok, err}
use pf_media.Exec.{Exec}
use pf_media.Store.Memory
use pf_media.Store.Memory.{State, or_not_found}
use pf_media.Store.Postgres.Rows.{Tables, QuotaRow, Outcome, done, pg_error, lost, select, first}
use pf_media.Store.Postgres.Pool.{Backend, Db, query}
use pf_media.Store.Postgres.Changing.{Distinct}
use pf_media.Store.Postgres.Keeping.{Post}
use pf_media.Store.Postgres.Viewing.{
  entries, find, lookup-entries, insert-entries, update-entries, find-none,
}
use pf_media.Store.Postgres.AsMemory.{view, Matches, Follows, query-Follows, pure-Answers}
use pf_media.Base.{◌⊎◌, ◌∙◌}
use pf_media.Domain.{Err, other}
use pf_media.Exec.{◌>>=◌, ◌>>◌, pure, resume, reject_if}
use pf_media.Store.Postgres.Rows.{Statement, Failure}
use pf_media.Store.Postgres.Pool.{result_of, error_of}
use pf_media.Base.{Bool-cases, ap, sym, ◌++◌, eq_refl}
use pf_media.Store.Postgres.Viewing.{any-none}
use pf_media.Store.Postgres.Changing.{Distinct-append}
use pf_media.Base.Dict.{Dict}
use pf_media.Base.Int.{pos, ltb_ℤ, add64, ◌+ℤ◌}
use pf_media.Domain.{quota_exceeded}
use pf_media.Store.Memory.{quota_of}
use pf_media.Store.Postgres.Statements.{
  same_quota, is_bigint, ensure_quota, change_quota, changed_quota, overflows,
}
use pf_media.Store.Postgres.Files
use pf_media.Store.Postgres.Files.{used_or_zero, charge}
use pf_media.Store.Postgres.Pool.{close, begun, transaction}
use pf_media.Store.Postgres.Keeping.{post_at, Ran, skipped, violated, answered, unanswered, run-Ran}
use pf_media.Store.Postgres.Budget.{bigint-add64}
use pf_media.Store.Postgres.AsMemory.{same, failed}

abbrev subject_of : QuotaRow → Str
subject_of q = q.owner_sub

abbrev used_of : QuotaRow → ℤ
used_of q = q.used_bytes

abbrev quota_map : List QuotaRow → Dict ℤ
quota_map rows = entries subject_of used_of rows

insert-insert : (k : Str) (a b : ℤ) (d : Dict ℤ) → insert k b (insert k a d) ≡ insert k b d
unfolding insert
insert-insert k a b [] = ground arith
insert-insert k a b ((j, v) ∷ d) = ground (arith, insert-insert k a b d)

find-append :
    (k : Str) (rows : List QuotaRow) (q : QuotaRow)
    → find subject_of k rows ≡ none
    → (q.owner_sub == k) ≡ true
    → find subject_of k (rows ++ (q ∷ [])) ≡ some q
unfolding first keep
find-append k [] q e mine = ground arith
find-append k (r ∷ rows) q e mine = ground (arith, find-append k rows q)

module _ {C : Type 0} (backend : Backend C) where
  used_or_zero-quota_of :
      (subject : Str) (t : Tables)
      → quota_of subject (view backend t) ≡ used_or_zero (find subject_of subject t.user_quota)
  unfolding quota_of view
  used_or_zero-quota_of subject t = elim (Option-cases (find subject_of subject t.user_quota)) [
    | inl e ↦ rw (quota_of, lookup-entries subject_of used_of subject t.user_quota, e) refl
    | inr (q, e) ↦ rw (quota_of, lookup-entries subject_of used_of subject t.user_quota, e) refl
  ]

  pub get_quota_used-Follows :
      (subject : Str) (s : Db C)
      → Follows backend s
          (Memory.get_quota_used subject (view backend s.tables))
          (Files.get_quota_used backend subject s)
  unfolding Files.get_quota_used Memory.get_quota_used
  get_quota_used-Follows subject s =
      query-Follows backend _ _ _ s _ (pure-Answers backend used_or_zero)
        (rw (used_or_zero-quota_of subject s.tables) (refl, refl))

  -- After the INSERT: the use is that of the memory store, and is in the one row of the subject.
  record Ensured (t : Tables) (subject : Str) (used : ℤ) (t' : Tables) : Type 0 where
    reads : quota_of subject (view backend t) ≡ used
    row : QuotaRow
    found : find subject_of subject t'.user_quota ≡ some row
    row_used : row.used_bytes ≡ used
    once : Distinct same_quota t'.user_quota
    overwrites :
        (v : ℤ)
        → insert subject v (quota_map t'.user_quota) ≡ insert subject v (quota_map t.user_quota)
    rest : record t { user_quota = t'.user_quota } ≡ t'

  ensure_quota-Ensured :
      (t : Tables) (subject : Str)
      → Distinct same_quota t.user_quota
      → Post (Ensured t subject) (ensure_quota subject t)
  unfolding ensure_quota
  ensure_quota-Ensured t subject d =
      let zero_row : QuotaRow = record { owner_sub = subject; used_bytes = pos 0 } in
      elim (Option-cases (find subject_of subject t.user_quota)) [
        | inl e ↦
            let gone = find-none subject_of subject t.user_quota e in
            let fresh = any-none subject_of subject t.user_quota gone in
            rw (e, Post)
              record {
                reads = rw (used_or_zero-quota_of subject t, e) refl;
                row = zero_row;
                found = find-append subject t.user_quota zero_row e (eq_refl subject);
                row_used = refl;
                once = Distinct-append same_quota t.user_quota zero_row fresh d;
                overwrites = λ v.
                    rw (sym (insert-entries subject_of used_of zero_row t.user_quota fresh))
                      (insert-insert subject (pos 0) v (quota_map t.user_quota));
                rest = refl;
              }
        | inr (q, e) ↦
            rw (e, Post)
              record {
                reads = rw (used_or_zero-quota_of subject t, e) refl;
                row = q;
                found = e;
                row_used = refl;
                once = d;
                overwrites = λ v. refl;
                rest = refl;
              }
      ]

  floored : ℤ → ℤ
  floored used = if ltb_ℤ used (pos 0) then pos 0 else used

  -- What `AddQuota` of the memory store does behind its test.
  add_quota_memory :
      (m : State) (subject : Str) (used delta limit : ℤ)
      → quota_of subject m ≡ used
      → (ltb_ℤ (pos 0) delta && ltb_ℤ limit (add64 used delta)) ≡ false
      → Memory.add_quota subject delta limit m
        ≡ (ok tt, record m { quota = insert subject (floored (add64 used delta)) m.quota })
  unfolding Memory.add_quota floored
  add_quota_memory m subject used delta limit reads test = rw (Memory.add_quota, reads, test) refl

  fits_row :
      (subject : Str) (delta : ℤ) (q : QuotaRow) (rows : List QuotaRow)
      → find subject_of subject rows ≡ some q
      → overflows subject delta rows ≡ false
      → is_bigint (q.used_bytes +ℤ delta) ≡ true
  unfolding first keep any
  fits_row subject delta q [] e free = cc
  fits_row subject delta q (r ∷ rows) e free = ground (arith, fits_row subject delta q rows)

  module _ (t t' : Tables) (subject : Str) (used delta limit : ℤ)
      (ens : Ensured t subject used t') where
    changed-quota_map :
        overflows subject delta t'.user_quota ≡ false
        → insert subject (floored (add64 used delta)) (quota_map t.user_quota)
          ≡ quota_map (changed_quota subject delta t'.user_quota)
    unfolding floored
    changed-quota_map free =
        let row_fits = fits_row subject delta ens.row t'.user_quota ens.found free in
        let same_used = ens.row_used in
        let sum : add64 used delta ≡ ens.row.used_bytes +ℤ delta =
          rw (sym same_used) (bigint-add64 ens.row.used_bytes delta row_fits) in
        rw (sum, sym (ens.overwrites (floored (ens.row.used_bytes +ℤ delta))))
          (update-entries subject_of used_of subject _ ens.row t'.user_quota (λ q. refl) ens.once
            ens.found)

    -- The UPDATE behind the test sets the quota as the memory store does.
    change_quota-Matches :
        (ltb_ℤ (pos 0) delta && ltb_ℤ limit (add64 used delta)) ≡ false
        → Post
            (Matches backend
              (λ (n : ℕ). ok tt)
              (Memory.add_quota subject delta limit (view backend t)))
            (change_quota subject delta t')
    unfolding change_quota view
    change_quota-Matches test = elim (Bool-cases (overflows subject delta t'.user_quota)) [
      | inl e ↦ rw (e, Post) tt
      | inr e ↦
          rw
            (
              e,
              Post,
              add_quota_memory (view backend t) subject used delta limit ens.reads test,
              changed-quota_map e,
            )
            (
              refl,
              sym (
                  ap
                    (λ z.
                      view backend
                        (record z { user_quota = changed_quota subject delta t'.user_quota }))
                    ens.rest),
            )
    ]

  -- How the statements of a transaction end: what they leave counts only if they succeed.
  data Worked {A : Type 0} (s : Db C) (memory : Result A × State) : Result A × Db C → Type 0 where
    worked :
        (a : A) (s' : Db C)
        → (memory.0 ≡ ok a) × (view backend s'.tables ≡ memory.1)
        → Worked s memory (ok a, s')
    raised :
        (e : Err) (s' : Db C)
        → (memory.0 ≡ err e) × (memory.1 ≡ view backend s.tables)
        → Worked s memory (err e, s')
    broken : (message : Str) (s' : Db C) → Worked s memory (err (other message), s')

  refused_Worked :
      {A : Type 0} (s s' : Db C) (memory : Result A × State) (f : Failure)
      → Worked s memory (err (error_of f), s')
  refused_Worked s s' memory (pg_error code) = broken code s'
  refused_Worked s s' memory (lost message) = broken message s'

  changed_Worked :
      (s s' : Db C) (memory : Result {0} Unit × State) (statement : Statement ℕ)
      (end : Outcome ℕ × Db C)
      → Post (Matches backend (λ (n : ℕ). ok tt) memory) (statement s'.tables)
      → Ran statement s' end
      → Worked s memory (resume (result_of end.0) (λ (n : ℕ). pure tt) end.1)
  unfolding ◌>>=◌
  changed_Worked s s' memory statement end h (skipped f c) = refused_Worked s _ memory f
  changed_Worked s s' memory statement end h (violated f c e) = refused_Worked s _ memory f
  changed_Worked s s' memory statement end h (answered a t c e) =
      let (same_answer, same_data) =
        post_at (Matches backend (λ (n : ℕ). ok tt) memory) _ a t h e in
      worked tt _ (sym same_answer, same_data)
  changed_Worked s s' memory statement end h (unanswered a t f c e) = refused_Worked s _ memory f

  module _ (subject : Str) (delta limit : ℤ) where
    exceeded_memory :
        (m : State) (used : ℤ)
        → quota_of subject m ≡ used
        → (ltb_ℤ (pos 0) delta && ltb_ℤ limit (add64 used delta)) ≡ true
        → Memory.add_quota subject delta limit m ≡ (err quota_exceeded, m)
    unfolding Memory.add_quota
    exceeded_memory m used reads test = rw (Memory.add_quota, reads, test) refl

    -- Behind the INSERT, which has returned the use.
    charged_Worked :
        (s s' : Db C) (used : ℤ)
        → Ensured s.tables subject used s'.tables
        → Worked s (Memory.add_quota subject delta limit (view backend s.tables)) (
            (reject_if (ltb_ℤ (pos 0) delta && ltb_ℤ limit (add64 used delta)) quota_exceeded
                >> (query backend (change_quota subject delta) >> pure tt))
              s')
    unfolding query ◌>>=◌
    charged_Worked s s' used ens =
        elim (Bool-cases (ltb_ℤ (pos 0) delta && ltb_ℤ limit (add64 used delta))) [
          | inl e ↦
              rw (e, exceeded_memory (view backend s.tables) used ens.reads e)
                (raised quota_exceeded s' (refl, refl))
          | inr e ↦ rw e (
              changed_Worked s s' _ (change_quota subject delta) _
                (change_quota-Matches s.tables s'.tables subject used delta limit ens e)
                (run-Ran backend _ s'))
        ]

    ensured_Worked :
        (s s1 : Db C) (end : Outcome ℤ × Db C)
        → s1.tables ≡ s.tables
        → Distinct same_quota s.tables.user_quota
        → Ran (ensure_quota subject) s1 end
        → Worked s (Memory.add_quota subject delta limit (view backend s.tables)) (
            resume
              (result_of end.0)
              (λ used.
                reject_if (ltb_ℤ (pos 0) delta && ltb_ℤ limit (add64 used delta)) quota_exceeded
                >> (query backend (change_quota subject delta) >> pure tt))
              end.1)
    ensured_Worked s s1 end began d (skipped f c) = refused_Worked s _ _ f
    ensured_Worked s s1 end began d (violated f c e) = refused_Worked s _ _ f
    ensured_Worked s s1 end began d (answered used t c e) =
        charged_Worked s (record { tables = t; link = c }) used
          (post_at (Ensured s.tables subject) _ used t (ensure_quota-Ensured s.tables subject d)
            (rw began at e))
    ensured_Worked s s1 end began d (unanswered used t f c e) = refused_Worked s _ _ f

    charge_Worked :
        (s s1 : Db C)
        → s1.tables ≡ s.tables
        → Distinct same_quota s.tables.user_quota
        → Worked s
            (Memory.add_quota subject delta limit (view backend s.tables))
            (charge backend subject delta limit s1)
    unfolding charge query ◌>>=◌
    charge_Worked s s1 began d =
        ensured_Worked s s1 _ began d (run-Ran backend (ensure_quota subject) s1)

  done-injective :
      {A : Type 0} (a b : A) (t t' : Tables)
      → ◌≡◌ {A = Outcome (A × Tables)} (done (a, t)) (done (b, t'))
      → (a ≡ b) × (t ≡ t')
  done-injective a b t t' e = (cc, cc)

  refused_commit :
      {A : Type 0} (s s' : Db C) (memory : Result A × State) (f : Failure)
      → (view backend s'.tables ≡ view backend s.tables) ⊎ (view backend s'.tables ≡ memory.1)
      → Follows backend s memory (err (error_of f), s')
  refused_commit s s' memory (pg_error code) h = failed code s' h
  refused_commit s s' memory (lost message) h = failed message s' h

  commit-Follows :
      {A : Type 0} (s s1 s' : Db C) (memory : Result A × State) (a : A) (end : Outcome A × Db C)
      → s1.tables ≡ s.tables
      → (memory.0 ≡ ok a) × (view backend s'.tables ≡ memory.1)
      → Ran (λ _. done (a, s'.tables)) s1 end
      → Follows backend s memory (result_of end.0, end.1)
  commit-Follows s s1 s' memory a end began h (skipped f c) =
      refused_commit s _ memory f (inl (ap (view backend) began))
  commit-Follows s s1 s' memory a end began h (violated f c e) =
      refused_commit s _ memory f (inl (ap (view backend) began))
  commit-Follows s s1 s' memory a end began h (answered b t c e) =
      let (same_value, same_tables) = done-injective a b s'.tables t e in
      let answer : memory.0 ≡ ok b = rw (sym same_value) h.0 in
      rw (sym answer) (same _ (rw (sym same_tables) h.1))
  commit-Follows s s1 s' memory a end began h (unanswered b t f c e) =
      refused_commit s _ memory f (inr (rw (sym (done-injective a b s'.tables t e).1) h.1))

  close-Follows :
      {A : Type 0} (s : Db C) (saved : Tables) (memory : Result A × State) (end : Result A × Db C)
      → saved ≡ s.tables
      → Worked s memory end
      → Follows backend s memory (close backend saved end.0 end.1)
  unfolding query
  close-Follows s saved memory end began (worked a s' h) =
      commit-Follows s _ s' memory a _ began h (run-Ran backend _ _)
  close-Follows s saved memory end began (raised e s' h) =
      rw (sym h.0) (same _ (ap (view backend) began ∙ sym h.1))
  close-Follows s saved memory end began (broken message s') =
      failed message _ (inl (ap (view backend) began))

  refused_begin :
      {A : Type 0} (body : Exec (Db C) A) (s s' : Db C) (memory : Result A × State) (f : Failure)
      → (view backend s'.tables ≡ view backend s.tables) ⊎ (view backend s'.tables ≡ memory.1)
      → Follows backend s memory (begun backend body (err (error_of f)) s')
  refused_begin body s s' memory (pg_error code) h = failed code s' h
  refused_begin body s s' memory (lost message) h = failed message s' h

  begun-Follows :
      {A : Type 0} (body : Exec (Db C) A) (s : Db C) (memory : Result A × State)
      (end : Outcome Tables × Db C)
      → ((s1 : Db C) → s1.tables ≡ s.tables → Worked s memory (body s1))
      → Ran (select (λ t. t)) s end
      → Follows backend s memory (begun backend body (result_of end.0) end.1)
  begun-Follows body s memory end k (skipped f c) = refused_begin body s _ memory f (inl refl)
  begun-Follows body s memory end k (violated f c e) = refused_begin body s _ memory f (inl refl)
  begun-Follows body s memory end k (answered saved t c e) =
      let (same_saved, same_tables) = done-injective s.tables saved s.tables t e in
      close-Follows s saved memory _ (sym same_saved)
        (k (record { tables = t; link = c }) (sym same_tables))
  begun-Follows body s memory end k (unanswered saved t f c e) =
      let (same_saved, same_tables) = done-injective s.tables saved s.tables t e in
      refused_begin body s _ memory f (inl (ap (view backend) (sym same_tables)))

  -- `AddQuota` on Postgres does what it does in memory, or it fails and does all or nothing of it.
  pub add_quota-Follows :
      (s : Db C)
      → Distinct same_quota s.tables.user_quota
      → (subject : Str) (delta limit : ℤ)
      → Follows backend s
          (Memory.add_quota subject delta limit (view backend s.tables))
          (Files.add_quota backend subject delta limit s)
  unfolding Files.add_quota transaction query
  add_quota-Follows s d subject delta limit =
      begun-Follows _ s _ _ (λ s1 began. charge_Worked subject delta limit s s1 began d)
        (run-Ran backend (select (λ t. t)) s)
