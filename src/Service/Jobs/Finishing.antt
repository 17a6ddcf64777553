-- ===== src/Service/Jobs/Finishing.antt =====
-- What `FinishJob` and `RetryJob` do to a job and its file, on the memory store.
use pf_media.Base.{Str, ℕ, ◌≡◌, ◌≢◌, some, [], arith, str_eq, false}
use pf_media.Base.Dict.{lookup, lookup-insert}
use pf_media.Domain.{File, FileStatus, Job, JobStatus, Variants, ok, job_status_eq}
use pf_media.Exec.{World, ◌>>=◌}
use pf_media.Store.Memory
use pf_media.Store.Memory.{State}
use pf_media.Service.{Media, other_file_owner}
use pf_media.Service.Files.Deletion.{on_memory}
use pf_media.Service.Uploads.{enqueue_job, enqueue_failed}
use pf_media.Service.Jobs.{JobView, finish_job, finish_failed, retry_job, job_owned_by}

module _ {E : Type 0} (m : Media State E) (id : Str) (j : Job) (f : File) (w : World State E) where
  abbrev pub requeued : ℕ → Job
  requeued t = record j { status = JobStatus.queued; error = []; updated_at = t }

  abbrev pub succeeded : ℕ → Job
  succeeded t = record j { status = JobStatus.succeeded; error = []; updated_at = t }

  abbrev pub given_up : Str → ℕ → Job
  given_up message t = record j { status = JobStatus.failed; error = message; updated_at = t }

  -- On the memory store, `FinishJob` without an error on a stored job of a stored file succeeds: the
  -- file is ready and has the variants, the job has succeeded, and the quota is as it was.
  pub finish_job-succeeded :
      (variants : Variants)
      → lookup id w.db.jobs ≡ some j
      → lookup j.file_id w.db.files ≡ some f
      → let (r, w') = finish_job (on_memory m) id variants [] w in
        (r ≡ ok tt)
        × (lookup j.file_id w'.db.files
            ≡ some (record f { variants = variants; status = FileStatus.ready }))
        × (lookup id w'.db.jobs ≡ some (succeeded (m.system.now w.ext).0))
        × (w'.db.quota ≡ w.db.quota)
  unfolding finish_job Memory.get_job Memory.update_job Memory.update_variants ◌>>=◌
  finish_job-succeeded variants hj hf = ground (
    arith,
    lookup-insert j.file_id j.file_id (record f { variants = variants; status = FileStatus.ready })
        w.db.files,
    lookup-insert id id (succeeded (m.system.now w.ext).0) w.db.jobs,
  )

  -- On the memory store, `FinishJob` with an error on a stored job of a stored file succeeds: the
  -- file and the job have failed, the job with that error, and the quota is as it was.
  pub finish_job-failed :
      (variants : Variants) (message : Str)
      → message ≢ []
      → lookup id w.db.jobs ≡ some j
      → lookup j.file_id w.db.files ≡ some f
      → let (r, w') = finish_job (on_memory m) id variants message w in
        (r ≡ ok tt)
        × (lookup j.file_id w'.db.files ≡ some (record f { status = FileStatus.failed }))
        × (lookup id w'.db.jobs ≡ some (given_up message (m.system.now w.ext).0))
        × (w'.db.quota ≡ w.db.quota)
  unfolding finish_job finish_failed Memory.get_job Memory.update_job Memory.set_file_status ◌>>=◌
  finish_job-failed variants message some_error hj hf = ground (
    arith,
    lookup-insert j.file_id j.file_id (record f { status = FileStatus.failed }) w.db.files,
    lookup-insert id id (given_up message (m.system.now w.ext).0) w.db.jobs,
  )

  -- On the memory store, when `RetryJob` succeeds on a job whose file is stored under its own id,
  -- the caller owns the file and the job had failed; the job is queued again without an error, and
  -- the file is pending.
  pub retry_job_lem :
      (o g : Str) (v : JobView)
      → lookup id w.db.jobs ≡ some j
      → lookup j.file_id w.db.files ≡ some f
      → f.id ≡ j.file_id
      → (retry_job (on_memory m) o g id w).0 ≡ ok v
      → let w' = (retry_job (on_memory m) o g id w).1 in
        (other_file_owner o g f ≡ false)
        × (j.status ≡ JobStatus.failed)
        × (lookup id w'.db.jobs ≡ some (requeued (m.system.now w.ext).0))
        × (lookup j.file_id w'.db.files ≡ some (record f { status = FileStatus.pending }))
        × (v.status ≡ JobStatus.queued)
  unfolding retry_job job_owned_by enqueue_job enqueue_failed Memory.get_job Memory.get_file
      Memory.update_job Memory.set_file_status ◌>>=◌
  retry_job_lem o g v hj hf same h = ground (
    arith,
    lookup-insert j.file_id j.file_id (record f { status = FileStatus.pending }) w.db.files,
    lookup-insert id id (requeued (m.system.now w.ext).0) w.db.jobs,
  )
