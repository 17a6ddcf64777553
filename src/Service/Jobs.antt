-- ===== src/Service/Jobs.antt =====
-- media.go: `GetJob`, `RetryJob` and `FinishJob`.
pub mod Finishing
use pf_media.Base.{Str, [], if◌then◌else◌, ◌/=◌, str_eq}
use pf_media.Domain.{
  forbidden, conflict, Time, File, FileStatus, Variants, Job, JobStatus, job_status_eq,
}
use pf_media.Exec.{Exec, World, ◌>>=◌, ◌>>◌, pure, reject_if, ignore, in_db, in_sys}
use pf_media.Service.{Media, other_file_owner}
use pf_media.Service.Uploads.{enqueue_job}

pub record JobView : Type 0 where
  pub id : Str
  pub file_id : Str
  pub status : JobStatus
  pub error : Str
  pub updated_at : Time

abbrev pub job_view : Job → JobView
job_view j = record {
  id = j.id;
  file_id = j.file_id;
  status = j.status;
  error = j.error;
  updated_at = j.updated_at;
}

module _ {D E : Type 0} (m : Media D E) where
  open m use {store, objects, queue, system}

  unfoldable pub job_owned_by : Str → Str → Str → Exec (World D E) (Job × File)
  job_owned_by owner_sub org_id job_id = do
    j ← in_db (store.get_job job_id)
    f ← in_db (store.get_file j.file_id)
    reject_if (other_file_owner owner_sub org_id f) forbidden
    pure (j, f)

  unfoldable pub get_job : Str → Str → Str → Exec (World D E) JobView
  unfolding job_owned_by
  get_job owner_sub org_id job_id = do
    (j, f) ← job_owned_by owner_sub org_id job_id
    pure (job_view j)

  unfoldable pub retry_job : Str → Str → Str → Exec (World D E) JobView
  unfolding job_owned_by enqueue_job
  retry_job owner_sub org_id job_id = do
    (j, f) ← job_owned_by owner_sub org_id job_id
    reject_if (j.status /= JobStatus.failed) conflict
    now ← in_sys system.now
    in_db (store.update_job now job_id JobStatus.queued [])
    in_db (store.set_file_status f.id FileStatus.pending)
    enqueue_job m queue
        (record {
          job_id = j.id;
          file_id = f.id;
          object_key = f.object_key;
          bucket = objects.bucket;
        })
        job_id f.id
    shown_at ← in_sys system.now
    pure (record (job_view j) { status = JobStatus.queued; error = []; updated_at = shown_at })

  -- The branch of `FinishJob` for a processor that reports an error.
  unfoldable pub finish_failed : Str → Str → Str → Exec (World D E) Unit
  finish_failed job_id file_id job_error = do
    now ← in_sys system.now
    ignore (in_db (store.update_job now job_id JobStatus.failed job_error))
    ignore (in_db (store.set_file_status file_id FileStatus.failed))

  unfoldable pub finish_job : Str → Variants → Str → Exec (World D E) Unit
  unfolding finish_failed
  finish_job job_id variants job_error = do
    j ← in_db (store.get_job job_id)
    if job_error /= [] then finish_failed job_id j.file_id job_error else do
      in_db (store.update_variants j.file_id variants)
      now ← in_sys system.now
      in_db (store.update_job now job_id JobStatus.succeeded [])
