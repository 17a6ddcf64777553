-- ===== src/Store/Postgres/AsMemory.antt =====
-- The Postgres store beside the memory store: one call of the interface on each.
pub mod Files
pub mod Children
pub mod Folders
pub mod Creating
pub mod Quota
pub mod Calls
pub mod Answering
use pf_media.Base.{
  Str, ℕ, ◌≡◌, refl, ◌⊎◌, inl, inr, Bool, true, false, Option, none, some, List, [], ◌∷◌, arith,
  if◌then◌else◌, ◌==◌, nat_eq,
}
use pf_media.Base.Int.{ℤ}
use pf_media.Domain.{
  Err, other, not_found, Result, ok, err, File, FileStatus, Job, JobStatus, ShareLink, Folder, Time,
}
use pf_media.Exec.{Exec, ◌>>=◌, ◌>>◌, pure, resume}
use pf_media.Store.Memory
use pf_media.Store.Memory.{State}
use pf_media.Store.Postgres.Rows.{
  Tables, Outcome, done, refused, Statement, Failure, pg_error, lost,
}
use pf_media.Store.Postgres.Pool.{Backend, Db, query, run, result_of, error_of}
use pf_media.Store.Postgres.Scanning.{
  row_or_not_found, require_affected, scan_file, scan_job, scan_share, scan_folder,
}
use pf_media.Store.Postgres.Keeping.{
  Ran, skipped, violated, answered, unanswered, run-Ran, Post, post_at,
}
use pf_media.Store.Postgres.Viewing.{entries}

-- The tables as the maps of the memory store.
unfoldable pub view : {C : Type 0} → Backend C → Tables → State
view backend t = record {
  files = entries (λ r. r.id) (scan_file backend) t.files;
  jobs = entries (λ r. r.id) scan_job t.jobs;
  quota = entries (λ q. q.owner_sub) (λ q. q.used_bytes) t.user_quota;
  shares = entries (λ r. r.token) scan_share t.share_links;
  folders = entries (λ r. r.id) scan_folder t.folders;
}

module _ {C : Type 0} (backend : Backend C) where
  -- A call on Postgres answers as one in memory does and leaves the same, or it fails with an error
  -- of the database, and all or nothing of it is done.
  pub data Follows {A : Type 0} (s : Db C) (memory : Result A × State)
      : Result A × Db C → Type 0 where
    same : (s' : Db C) → view backend s'.tables ≡ memory.1 → Follows s memory (memory.0, s')
    failed :
        (message : Str) (s' : Db C)
        → (view backend s'.tables ≡ view backend s.tables) ⊎ (view backend s'.tables ≡ memory.1)
        → Follows s memory (err (other message), s')

  -- What the code makes of the statement's value; it looks no further at the database.
  pub record Answers {A B : Type 0} (rest : A → Exec (Db C) B) (r : A → Result B) : Type 0 where
    pub at : (a : A) (s : Db C) → rest a s ≡ (r a, s)

  abbrev pub Matches : {A B : Type 0} → (A → Result B) → Result B × State → A → Tables → Type 0
  Matches r memory a t = (r a ≡ memory.0) × (view backend t ≡ memory.1)

  refused-Follows :
      {A B : Type 0} (rest : A → Exec (Db C) B) (s s' : Db C) (memory : Result B × State)
      (f : Failure)
      → (view backend s'.tables ≡ view backend s.tables) ⊎ (view backend s'.tables ≡ memory.1)
      → Follows s memory (resume (err (error_of f)) rest s')
  refused-Follows rest s s' memory (pg_error code) h = failed code s' h
  refused-Follows rest s s' memory (lost message) h = failed message s' h

  Ran-Follows :
      {A B : Type 0} (statement : Statement A) (rest : A → Exec (Db C) B) (r : A → Result B)
      (s : Db C) (memory : Result B × State) (end : Outcome A × Db C)
      → Answers rest r
      → Post (Matches r memory) (statement s.tables)
      → Ran statement s end
      → Follows s memory (resume (result_of end.0) rest end.1)
  Ran-Follows statement rest r s memory end k h (skipped f c) =
      refused-Follows rest s _ memory f (inl refl)
  Ran-Follows statement rest r s memory end k h (violated f c e) =
      refused-Follows rest s _ memory f (inl refl)
  Ran-Follows statement rest r s memory end k h (answered a t c e) =
      let (same_answer, same_data) = post_at (Matches r memory) _ a t h e in
      rw (k.at a (record { tables = t; link = c }), same_answer) (same _ same_data)
  Ran-Follows statement rest r s memory end k h (unanswered a t f c e) =
      refused-Follows rest s _ memory f (inr (post_at (Matches r memory) _ a t h e).1)

  -- A method whose statement, and what the code makes of its value, does what the memory store does.
  pub query-Follows :
      {A B : Type 0} (statement : Statement A) (rest : A → Exec (Db C) B) (r : A → Result B)
      (s : Db C) (memory : Result B × State)
      → Answers rest r
      → Post (Matches r memory) (statement s.tables)
      → Follows s memory ((query backend statement >>= rest) s)
  unfolding query ◌>>=◌
  query-Follows statement rest r s memory k h =
      Ran-Follows statement rest r s memory _ k h (run-Ran backend statement s)

  abbrev pub found_or_not : {A B : Type 0} → (A → B) → Option A → Result B
  found_or_not scan none = err not_found
  found_or_not scan (some r) = ok (scan r)

  pub row-Answers :
      {A B : Type 0} (scan : A → B) → Answers (row_or_not_found scan) (found_or_not scan)
  unfolding row_or_not_found ◌>>=◌
  row-Answers scan = record {
    at = λ o s. elim o as (λ o. row_or_not_found scan o s ≡ (found_or_not scan o, s)) [
      | none ↦ refl
      | some a ↦ refl
    ];
  }

  abbrev pub affected_or_not : ℕ → Result {0} Unit
  affected_or_not n = if n == 0 then err not_found else ok tt

  pub affected-Answers : Answers require_affected affected_or_not
  unfolding require_affected ◌>>=◌
  affected-Answers = record { at = λ n s. ground arith }

  pub pure-Answers : {A B : Type 0} (f : A → B) → Answers (λ a. pure (f a)) (λ a. ok (f a))
  unfolding ◌>>=◌
  pure-Answers f = record { at = λ a s. refl }
