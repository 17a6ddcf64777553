-- ===== src/Store/Postgres/AsMemory/Answering.antt =====
-- The calls whose statements no constraint can forbid, on a database whose calls all arrive.
use pf_media.Base.Int.{ℤ}
use pf_media.Base.{inl, inr, Bool-cases, ℕ, ◌≡◌, refl, Option, none, some, ◌==◌, nat_eq}
use pf_media.Domain.{other, Result, err}
use pf_media.Exec.{Exec, ◌>>=◌}
use pf_media.Store.Memory.{State}
use pf_media.Store.Postgres.Rows.{Tables, done, Statement}
use pf_media.Store.Postgres.Statements
use pf_media.Store.Postgres.Pool.{Backend, Db, query, run, reply}
use pf_media.Store.Postgres.Scanning.{row_or_not_found, require_affected}
use pf_media.Store.Postgres.Files
use pf_media.Store.Postgres.Drive
use pf_media.Store.Postgres.Invariant.{Inv}
use pf_media.Store.Postgres.AsMemory.{view, Follows, same, failed}
use pf_media.Store.Postgres.AsMemory.Calls.{
  Call, creates_file, gets_file, marks_ready, sets_status, updates_variants, deletes_file,
  creates_job, gets_job, updates_job, adds_quota, gets_quota, creates_share, gets_share,
  deletes_share, gets_folder, deletes_folder, on_postgres, on_memory, on_postgres-Follows,
}

-- Every call reaches the server, and every answer arrives.
pub record Arrives {C : Type 0} (backend : Backend C) : Type 0 where
  pub sent : (c : C) → (backend.before c).0 ≡ none
  pub received : (c : C) → (backend.after c).0 ≡ none

-- The calls that read, change or delete rows which no other row refers to.
abbrev pub IsUnconstrained : {A : Type 0} → Call A → Type 0
IsUnconstrained (creates_file f) = ⊥
IsUnconstrained (gets_file id) = Unit
IsUnconstrained (marks_ready id size) = Unit
IsUnconstrained (sets_status id st) = Unit
IsUnconstrained (updates_variants id vs) = Unit
IsUnconstrained (deletes_file id) = Unit
IsUnconstrained (creates_job j) = ⊥
IsUnconstrained (gets_job id) = Unit
IsUnconstrained (updates_job t id st e) = Unit
IsUnconstrained (adds_quota subject delta limit) = ⊥
IsUnconstrained (gets_quota subject) = Unit
IsUnconstrained (creates_share l) = ⊥
IsUnconstrained (gets_share token) = Unit
IsUnconstrained (deletes_share token) = Unit
IsUnconstrained (gets_folder id) = Unit
IsUnconstrained (deletes_folder id) = ⊥

-- A result that is no error of the database.
abbrev IsAnswer : {A : Type 0} → Result A → Type 0
IsAnswer (err (other message)) = ⊥
IsAnswer r = Unit

module _ {C : Type 0} (backend : Backend C) where
  answer_of :
      {A : Type 0} (s : Db C) (memory : Result A × State) (end : Result A × Db C)
      → IsAnswer end.0
      → Follows backend s memory end
      → (end.0 ≡ memory.0) × (view backend end.1.tables ≡ memory.1)
  answer_of s memory end h (same s' e) = (refl, e)
  answer_of s memory end h (failed message s' e) = absurd h

  module _ (arrives : Arrives backend) where
    run-done :
        {A : Type 0} (statement : Statement A) (s : Db C) (a : A) (t : Tables)
        → statement s.tables ≡ done (a, t)
        → (run backend statement s).0 ≡ done a
    unfolding run reply
    run-done statement s a t e = rw (run, arrives.sent s.link, e, arrives.received) refl

    query-IsAnswer :
        {A B : Type 0} (statement : Statement A) (rest : A → Exec (Db C) B) (s : Db C) (a : A)
        (t : Tables)
        → statement s.tables ≡ done (a, t)
        → ((a : A) (s : Db C) → IsAnswer (rest a s).0)
        → IsAnswer ((query backend statement >>= rest) s).0
    unfolding query ◌>>=◌
    query-IsAnswer statement rest s a t e k =
        rw (run-done statement s a t e) (k a (run backend statement s).1)

    row-IsAnswer :
        {A B : Type 0} (scan : A → B) (o : Option A) (s : Db C)
        → IsAnswer (row_or_not_found scan o s).0
    unfolding row_or_not_found ◌>>=◌
    row-IsAnswer scan none s = tt
    row-IsAnswer scan (some r) s = tt

    affected-IsAnswer : (n : ℕ) (s : Db C) → IsAnswer (require_affected n s).0
    unfolding require_affected ◌>>=◌
    affected-IsAnswer n s = elim (Bool-cases (n == 0)) [ inl e ↦ rw e tt | inr e ↦ rw e tt ]

    call-IsAnswer :
        {A : Type 0} (s : Db C) (c : Call A)
        → IsUnconstrained c
        → IsAnswer (on_postgres backend c s).0
    unfolding on_postgres Files.get_file Files.mark_file_ready Files.set_file_status
        Files.update_variants Files.delete_file Files.get_job Files.update_job Files.get_quota_used
        Drive.get_share_link_by_token Drive.delete_share_link Drive.get_folder
        Statements.update_file Statements.remove_file Statements.update_job Statements.remove_share
    call-IsAnswer s (creates_file f) h = absurd h
    call-IsAnswer s (gets_file id) h = query-IsAnswer _ _ s _ _ refl (row-IsAnswer _)
    call-IsAnswer s (marks_ready id size) h = query-IsAnswer _ _ s _ _ refl affected-IsAnswer
    call-IsAnswer s (sets_status id st) h = query-IsAnswer _ _ s _ _ refl affected-IsAnswer
    call-IsAnswer s (updates_variants id vs) h = query-IsAnswer _ _ s _ _ refl affected-IsAnswer
    call-IsAnswer s (deletes_file id) h = query-IsAnswer _ _ s _ _ refl affected-IsAnswer
    call-IsAnswer s (creates_job j) h = absurd h
    call-IsAnswer s (gets_job id) h = query-IsAnswer _ _ s _ _ refl (row-IsAnswer _)
    call-IsAnswer s (updates_job t id st e) h = query-IsAnswer _ _ s _ _ refl affected-IsAnswer
    call-IsAnswer s (adds_quota subject delta limit) h = absurd h
    call-IsAnswer s (gets_quota subject) h =
        query-IsAnswer _ _ s _ _ refl (λ a s. unfold ◌>>=◌ in tt)
    call-IsAnswer s (creates_share l) h = absurd h
    call-IsAnswer s (gets_share token) h = query-IsAnswer _ _ s _ _ refl (row-IsAnswer _)
    call-IsAnswer s (deletes_share token) h = query-IsAnswer _ _ s _ _ refl affected-IsAnswer
    call-IsAnswer s (gets_folder id) h = query-IsAnswer _ _ s _ _ refl (row-IsAnswer _)
    call-IsAnswer s (deletes_folder id) h = absurd h

    -- On a database whose calls and answers all arrive, and on tables within the quota whose keys are
    -- unique and whose references hold, a call of the Postgres store answers as the memory store
    -- does on the same data, and leaves the same data. The calls are those that read a file, a job, a
    -- link, a folder or the quota, change a file or a job, or delete a file or a link; what they
    -- write is rounded and written as JSON by the database.
    pub on_postgres-on_memory :
        {A : Type 0} (limit : ℤ) (s : Db C) (c : Call A)
        → IsUnconstrained c
        → Inv limit s.tables
        → ((on_postgres backend c s).0
            ≡ (on_memory backend (backend.now s.link) c (view backend s.tables)).0)
          × (view backend (on_postgres backend c s).1.tables
              ≡ (on_memory backend (backend.now s.link) c (view backend s.tables)).1)
    on_postgres-on_memory limit s c free h =
        answer_of s _ _ (call-IsAnswer s c free) (on_postgres-Follows backend limit s c h)
