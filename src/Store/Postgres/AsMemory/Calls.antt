-- ===== src/Store/Postgres/AsMemory/Calls.antt =====
-- A call of the interface `domain.Store`, on Postgres and in memory.
use pf_media.Base.{Str}
use pf_media.Base.Int.{ℤ}
use pf_media.Domain.{File, FileStatus, Variants, Job, JobStatus, ShareLink, Folder, Time}
use pf_media.Exec.{Exec}
use pf_media.Store.Memory
use pf_media.Store.Memory.{State}
use pf_media.Store.Postgres.Pool.{Backend, Db}
use pf_media.Store.Postgres.Files
use pf_media.Store.Postgres.Drive
use pf_media.Store.Postgres.Invariant.{Inv}
use pf_media.Store.Postgres.AsMemory.{view, Follows}
use pf_media.Store.Postgres.AsMemory.Files.{
  reread, kept_file, create_pending_file-Follows, get_file-Follows, mark_file_ready-Follows,
  set_file_status-Follows, update_variants-Follows, delete_file-Follows,
}
use pf_media.Store.Postgres.AsMemory.Children.{
  kept_job, kept_share, create_job-Follows, get_job-Follows, update_job-Follows,
  create_share_link-Follows, get_share_link_by_token-Follows, delete_share_link-Follows,
}
use pf_media.Store.Postgres.AsMemory.Quota.{add_quota-Follows, get_quota_used-Follows}
use pf_media.Store.Postgres.AsMemory.Folders.{get_folder-Follows, delete_folder-Follows}

-- The calls on single rows, but for `CreateFolder`. The latest job of a file and `FolderIsEmpty` are left
-- out, as the lists are.
pub data Call : Type 0 → Type 1 where
  creates_file : File → Call Unit
  gets_file : Str → Call File
  marks_ready : Str → ℤ → Call Unit
  sets_status : Str → FileStatus → Call Unit
  updates_variants : Str → Variants → Call Unit
  deletes_file : Str → Call Unit
  creates_job : Job → Call Unit
  gets_job : Str → Call Job
  updates_job : Time → Str → JobStatus → Str → Call Unit
  adds_quota : Str → ℤ → ℤ → Call Unit
  gets_quota : Str → Call ℤ
  creates_share : ShareLink → Call Unit
  gets_share : Str → Call ShareLink
  deletes_share : Str → Call Unit
  gets_folder : Str → Call Folder
  deletes_folder : Str → Call Unit

module _ {C : Type 0} (backend : Backend C) where
  unfoldable pub on_postgres : {A : Type 0} → Call A → Exec (Db C) A
  on_postgres (creates_file f) = Files.create_pending_file backend f
  on_postgres (gets_file id) = Files.get_file backend id
  on_postgres (marks_ready id size) = Files.mark_file_ready backend id size
  on_postgres (sets_status id st) = Files.set_file_status backend id st
  on_postgres (updates_variants id vs) = Files.update_variants backend id vs
  on_postgres (deletes_file id) = Files.delete_file backend id
  on_postgres (creates_job j) = Files.create_job backend j
  on_postgres (gets_job id) = Files.get_job backend id
  on_postgres (updates_job t id st e) = Files.update_job backend t id st e
  on_postgres (adds_quota subject delta limit) = Files.add_quota backend subject delta limit
  on_postgres (gets_quota subject) = Files.get_quota_used backend subject
  on_postgres (creates_share l) = Drive.create_share_link backend l
  on_postgres (gets_share token) = Drive.get_share_link_by_token backend token
  on_postgres (deletes_share token) = Drive.delete_share_link backend token
  on_postgres (gets_folder id) = Drive.get_folder backend id
  on_postgres (deletes_folder id) = Drive.delete_folder backend id

  -- The same in memory, of what a column keeps of the arguments; `at` is the clock of Postgres.
  unfoldable pub on_memory : {A : Type 0} → Time → Call A → Exec State A
  on_memory at (creates_file f) = Memory.create_pending_file (kept_file backend at f)
  on_memory at (gets_file id) = Memory.get_file id
  on_memory at (marks_ready id size) = Memory.mark_file_ready id size
  on_memory at (sets_status id st) = Memory.set_file_status id st
  on_memory at (updates_variants id vs) = Memory.update_variants id (reread backend vs)
  on_memory at (deletes_file id) = Memory.delete_file id
  on_memory at (creates_job j) = Memory.create_job (kept_job backend j)
  on_memory at (gets_job id) = Memory.get_job id
  on_memory at (updates_job t id st e) = Memory.update_job (backend.timestamptz t) id st e
  on_memory at (adds_quota subject delta limit) = Memory.add_quota subject delta limit
  on_memory at (gets_quota subject) = Memory.get_quota_used subject
  on_memory at (creates_share l) = Memory.create_share_link (kept_share backend l)
  on_memory at (gets_share token) = Memory.get_share_link_by_token token
  on_memory at (deletes_share token) = Memory.delete_share_link token
  on_memory at (gets_folder id) = Memory.get_folder id
  on_memory at (deletes_folder id) = Memory.delete_folder id

  -- On tables within the quota whose keys are unique and whose references hold, a call of the
  -- Postgres store answers as the same call of the memory store does on the same data, and leaves
  -- the same data, its changes to the rows of other tables included; or it fails with an error of the
  -- database, and has done everything or nothing. The calls are those that read or change a file, a
  -- job, a link or the quota, and those that read or delete a folder; what they write is rounded and
  -- written as JSON by the database, and the time of a new file is that of its clock.
  pub on_postgres-Follows :
      {A : Type 0} (limit : ℤ) (s : Db C) (c : Call A)
      → Inv limit s.tables
      → Follows backend s
          (on_memory (backend.now s.link) c (view backend s.tables))
          (on_postgres c s)
  unfolding on_postgres on_memory
  on_postgres-Follows limit s (creates_file f) h = create_pending_file-Follows backend s h.intact f
  on_postgres-Follows limit s (gets_file id) h = get_file-Follows backend id s
  on_postgres-Follows limit s (marks_ready id size) h =
      mark_file_ready-Follows backend s h.intact id size
  on_postgres-Follows limit s (sets_status id st) h =
      set_file_status-Follows backend s h.intact id st
  on_postgres-Follows limit s (updates_variants id vs) h =
      update_variants-Follows backend s h.intact id vs
  on_postgres-Follows limit s (deletes_file id) h = delete_file-Follows backend s h.intact id
  on_postgres-Follows limit s (creates_job j) h = create_job-Follows backend s h.intact j
  on_postgres-Follows limit s (gets_job id) h = get_job-Follows backend id s
  on_postgres-Follows limit s (updates_job t id st e) h =
      update_job-Follows backend s h.intact t id st e
  on_postgres-Follows limit s (adds_quota subject delta bound) h =
      add_quota-Follows backend s h.budget.once subject delta bound
  on_postgres-Follows limit s (gets_quota subject) h = get_quota_used-Follows backend subject s
  on_postgres-Follows limit s (creates_share l) h = create_share_link-Follows backend s h.intact l
  on_postgres-Follows limit s (gets_share token) h = get_share_link_by_token-Follows backend token s
  on_postgres-Follows limit s (deletes_share token) h =
      delete_share_link-Follows backend s h.intact token
  on_postgres-Follows limit s (gets_folder id) h = get_folder-Follows backend id s
  on_postgres-Follows limit s (deletes_folder id) h = delete_folder-Follows backend s h.intact id
