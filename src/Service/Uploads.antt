-- ===== src/Service/Uploads.antt =====
-- media.go: `Presign` and `Complete`.
pub mod Presigning
pub mod Completing
pub mod Repeating
pub mod Checking
use pf_media.Base.{
  Str, ℕ, Bool, true, false, not, ◌&&◌, ◌||◌, Option, none, some, List, [], ◌∷◌, if◌then◌else◌,
  ◌==◌, ◌/=◌, str_eq, codes, contains,
}
use pf_media.Base.Int.{ℤ, pos, ltb_ℤ, leb_ℤ, add64}
use pf_media.Domain.{
  Err, not_found, conflict, quota_exceeded, invalid, too_large, wrapped, Result, ok, err, File,
  FileStatus, file_status_eq, Job, JobStatus,
}
use pf_media.Exec.{
  Exec, World, ◌>>=◌, ◌>>◌, pure, raise, reject_if, recover, ignore, when, lift, in_db, in_ext,
  in_sys,
}
use pf_media.Mime.{allowed_upload, matches_upload, is_image}
use pf_media.ObjectKeys.{object_key}
use pf_media.Service.{
  Media, JobMessage, JobQueue, FileView, quota_subject, normalize_etag, other_file_owner,
  ensure_owned_folder, file_view,
}

pub record PresignInput : Type 0 where
  pub content_type : Str
  pub size : ℤ
  pub purpose : Str
  pub folder_id : Str

pub record PresignResult : Type 0 where
  pub file_id : Str
  pub upload_url : Str
  pub object_key : Str

abbrev pub allowed_purposes : List Str
allowed_purposes =
    codes "drive"
    ∷ codes "wiki"
    ∷ codes "chat"
    ∷ codes "blog"
    ∷ codes "blog-cover"
    ∷ codes "product"
    ∷ []

-- The purpose of an upload: an absent one is `drive`, an unknown one is refused.
unfoldable pub resolve_purpose : Str → Result Str
unfolding contains
resolve_purpose purpose =
    if purpose == []
    then ok (codes "drive")
    else if contains allowed_purposes purpose
    then ok purpose
    else err invalid

-- The test on the two normalised ETags: the object's, and the client's.
abbrev pub etag_mismatch : Str → Str → Bool
etag_mismatch got client = got /= [] && (client == [] || client /= got)

module _ {D E : Type 0} (m : Media D E) where
  open m use {store, objects, queue, system, quota_limit, max_upload, presign_ttl}

  unfoldable pub presign : Str → Str → PresignInput → Exec (World D E) PresignResult
  unfolding resolve_purpose ensure_owned_folder
  presign owner_sub org_id i = do
    reject_if (leb_ℤ i.size (pos 0)) invalid
    reject_if (ltb_ℤ max_upload i.size) too_large
    reject_if (not (allowed_upload i.content_type)) invalid
    purpose ← lift (resolve_purpose i.purpose)
    used ← in_db (store.get_quota_used (quota_subject org_id owner_sub))
    reject_if (ltb_ℤ quota_limit (add64 used i.size)) quota_exceeded
    ensure_owned_folder m owner_sub org_id i.folder_id
    file_id ← in_sys system.new_id
    let key = object_key owner_sub file_id
    created_at ← in_sys system.now
    in_db (
        store.create_pending_file (record {
          id = file_id;
          owner_sub = owner_sub;
          org_id = org_id;
          folder_id = i.folder_id;
          object_key = key;
          content_type = i.content_type;
          size_bytes = i.size;
          purpose = purpose;
          status = FileStatus.pending;
          variants = [];
          created_at = created_at;
        }))
    url ← in_ext (objects.presign_put key i.content_type presign_ttl)
    pure (record { file_id = file_id; upload_url = url; object_key = key })

  -- `UpdateJob` and `SetFileStatus` after an `Enqueue` that failed, and the wrapped error.
  unfoldable pub enqueue_failed : Str → Str → Err → Exec (World D E) Unit
  enqueue_failed job_id file_id e = do
    now ← in_sys system.now
    ignore (in_db (store.update_job now job_id JobStatus.failed (codes "enqueue failed")))
    ignore (in_db (store.set_file_status file_id FileStatus.failed))
    raise (wrapped (codes "enqueue job") e)

  -- `if m.queue != nil { … }`
  unfoldable pub enqueue_job : Option (JobQueue E) → JobMessage → Str → Str → Exec (World D E) Unit
  unfolding enqueue_failed
  enqueue_job none message job_id file_id = pure tt
  enqueue_job (some q) message job_id file_id =
      recover (in_ext (q.enqueue message)) (enqueue_failed job_id file_id)

  -- The image branch of `Complete`: a job for the processor, and the file pending until it is done.
  unfoldable pub start_processing : Str → File → Exec (World D E) File
  unfolding enqueue_job
  start_processing file_id f = do
    job_id ← in_sys system.new_id
    updated_at ← in_sys system.now
    in_db (
        store.create_job (record {
          id = job_id;
          file_id = file_id;
          status = JobStatus.queued;
          error = [];
          updated_at = updated_at;
        }))
    in_db (store.set_file_status file_id FileStatus.pending)
    enqueue_job queue
        (record {
          job_id = job_id;
          file_id = file_id;
          object_key = f.object_key;
          bucket = objects.bucket;
        })
        job_id file_id
    pure (record f { status = FileStatus.pending })

  -- The checks of `Complete` on an object of the size and the ETag that were found.
  unfoldable pub check_content : Str → File → Str → ℤ × Str → Exec (World D E) ℤ
  check_content file_id f etag (size, got_etag) = do
    when (ltb_ℤ max_upload size) do ignore (in_ext (objects.delete f.object_key)); raise too_large
    head ←
        recover (in_ext (objects.read_head f.object_key 512))
          (λ _. do ignore (in_ext (objects.delete f.object_key)); raise invalid)
    when (not (matches_upload f.content_type head)) do
      ignore (in_ext (objects.delete f.object_key))
      ignore (in_db (store.delete_file file_id))
      raise invalid
    reject_if (etag_mismatch (normalize_etag got_etag) (normalize_etag etag)) invalid
    pure size

  -- The same, from the call of `Stat` on; the size of the object, if it passes.
  unfoldable pub check_object : Str → File → Str → Exec (World D E) ℤ
  unfolding check_content
  check_object file_id f etag = do
    found ← recover (in_ext (objects.stat f.object_key)) (λ _. raise invalid)
    check_content file_id f etag found

  -- The rest of `Complete`, from the charge of the quota on.
  unfoldable pub accept_object : Str → Str → Str → File → ℤ → Exec (World D E) FileView
  unfolding start_processing
  accept_object owner_sub org_id file_id f size = do
    recover (in_db (store.add_quota (quota_subject org_id owner_sub) size quota_limit))
        (λ e. do ignore (in_ext (objects.delete f.object_key)); raise e)
    in_db (store.mark_file_ready file_id size)
    let done = record f { size_bytes = size; status = FileStatus.ready }
    shown ← if is_image f.content_type then start_processing file_id done else pure done
    file_view m shown

  unfoldable pub complete : Str → Str → Str → Str → Exec (World D E) FileView
  unfolding check_object accept_object
  complete owner_sub org_id file_id etag = do
    f ← in_db (store.get_file file_id)
    reject_if (other_file_owner owner_sub org_id f) not_found
    reject_if (f.status /= FileStatus.pending) conflict
    size ← check_object file_id f etag
    accept_object owner_sub org_id file_id f size
