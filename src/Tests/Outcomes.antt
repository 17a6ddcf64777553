-- ===== src/Tests/Outcomes.antt =====
-- Completed uploads, share links and jobs.
use pf_media.Base.{
  Str, ℕ, ◌+◌, ◌*◌, ◌<◌, ◌≤◌, none, some, [], ◌∷◌, codes, ◌/=◌, str_eq, ◌≡◌, ◌⊎◌, refl,
  str_discrete, true, false,
}
use pf_media.Base.Dict.{lookup, insert}
use pf_media.Base.Int.{pos, ◌≤ℤ◌, add64}
use pf_media.Domain.{
  ok, File, FileStatus, Job, JobStatus, ShareLink, FileStatus-discrete, JobStatus-discrete,
}
use pf_media.Exec.{World, ◌>>=◌}
use pf_media.Store.Memory
use pf_media.Store.Memory.{State, quota_of}
use pf_media.Mime.{
  png_magic, normalize, allowed_upload, sniff_upload, matches_upload, is_image, image_png,
}
use pf_media.Service.{
  FileView, quota_subject, normalize_etag, other_file_owner, file_view, file_view_by,
}
use pf_media.Service.Uploads.{
  complete, check_object, check_content, accept_object, start_processing, enqueue_job,
}
use pf_media.Service.Uploads.Completing.{Accepted, charged, complete_lem}
use pf_media.Service.Uploads.Checking.{complete-matches_upload}
use pf_media.Service.Uploads.Repeating.{complete-complete}
use pf_media.ShareToken
use pf_media.Service.Shares.{
  ShareLinkView, PublicFile, create_share_link, resolve_share, share_password_ok, hash_password,
  hour,
}
use pf_media.Service.Shares.Granting.{Granted, resolve_share-Granted}
use pf_media.Service.Shares.Creating.{new_link, hashing, create_share_link-stored}
use pf_media.Service.Jobs.{JobView, retry_job, finish_job, job_owned_by}
use pf_media.Service.Jobs.Finishing.{finish_job-succeeded, finish_job-failed, retry_job_lem}
use pf_media.Tests.Demo.{demo, alice, acme, start, photo, with_photo}

abbrev waiting : File
waiting = record photo { status = FileStatus.pending }

abbrev uploaded : World State ℕ
uploaded = record start { db = record Memory.new { files = (codes "f", waiting) ∷ [] } }

-- The view that both calls of `Complete` answer with.
abbrev view : FileView
view = record {
  id = codes "f";
  folder_id = [];
  content_type = image_png;
  size_bytes = pos 100;
  purpose = codes "drive";
  status = FileStatus.pending;
  variants =
      (
        codes "orig",
        record { url = codes "http://get/user/alice/f/orig"; content_type = image_png },
      )
      ∷ [];
  created_at = 0;
  job_id = [];
  job_status = none;
  job_error = [];
}

waiting_there : lookup (codes "f") uploaded.db.files ≡ some waiting
unfolding lookup str_discrete
waiting_there = refl

first_view : (complete demo alice acme (codes "f") (codes "etag") uploaded).0 ≡ ok view
unfolding complete check_object check_content accept_object start_processing enqueue_job file_view
    file_view_by lookup str_discrete ◌>>=◌ Memory.get_file FileStatus-discrete matches_upload
    allowed_upload normalize sniff_upload normalize_etag Memory.add_quota add64 quota_of
    Memory.mark_file_ready is_image Memory.create_job Memory.set_file_status insert
first_view = refl

second_view :
    let w' = (complete demo alice acme (codes "f") (codes "etag") uploaded).1 in
    (complete demo alice acme (codes "f") (codes "etag") w').0 ≡ ok view
unfolding complete check_object check_content accept_object start_processing enqueue_job file_view
    file_view_by lookup str_discrete ◌>>=◌ Memory.get_file FileStatus-discrete matches_upload
    allowed_upload normalize sniff_upload normalize_etag Memory.add_quota add64 quota_of
    Memory.mark_file_ready is_image Memory.create_job Memory.set_file_status insert quota_subject
second_view = refl

complete_lem_example :
    (other_file_owner alice acme waiting ≡ false)
    × (waiting.status ≡ FileStatus.pending)
    × (pos 100 ≤ℤ pos 500)
    × Accepted
        (codes "f")
        (quota_subject acme alice)
        waiting
        view
        uploaded.db
        (complete demo alice acme (codes "f") (codes "etag") uploaded).1.db
complete_lem_example =
    complete_lem demo alice acme (codes "f") (codes "etag") waiting uploaded view waiting_there
      first_view

complete-matches_upload_example :
    (pos 100 ≡ pos 100)
    × (matches_upload image_png png_magic ≡ true)
    × ((normalize_etag (codes "etag") ≡ [])
        ⊎ (normalize_etag (codes "etag") ≡ normalize_etag (codes "etag")))
complete-matches_upload_example =
    complete-matches_upload demo alice acme (codes "f") (codes "etag") waiting uploaded view
      (pos 100) (codes "etag") png_magic waiting_there first_view refl refl

complete-complete_example :
    let w' = (complete demo alice acme (codes "f") (codes "etag") uploaded).1 in
    let w'' = (complete demo alice acme (codes "f") (codes "etag") w').1 in
    quota_of (quota_subject acme alice) w''.db
    ≡ charged (charged (quota_of (quota_subject acme alice) uploaded.db) (pos 100)) (pos 100)
complete-complete_example =
    complete-complete demo alice acme (codes "f") (codes "etag") (codes "etag") waiting uploaded
      view view waiting_there first_view second_view

-- A link to the photo with the password "pw", and the answer to a visitor who gives it.
abbrev link : ShareLink
link = record {
  id = codes "l";
  token = codes "t";
  file_id = codes "f";
  owner_sub = alice;
  org_id = acme;
  password_hash = codes "$pw";
  expires_at = 9;
  created_at = 0;
}

abbrev shared : World State ℕ
shared = record with_photo { db = record with_photo.db { shares = (codes "t", link) ∷ [] } }

abbrev seen : PublicFile
seen = record {
  content_type = image_png;
  status = FileStatus.ready;
  variants = view.variants;
  expires_at = 9;
}

resolved : (resolve_share demo (codes "t") (codes "pw") shared).0 ≡ ok seen
unfolding resolve_share share_password_ok file_view file_view_by Memory.get_share_link_by_token
    Memory.get_file lookup str_discrete FileStatus-discrete ◌>>=◌ insert
resolved = refl

resolve_share-Granted_example : Granted demo (codes "t") (codes "pw") shared seen
resolve_share-Granted_example =
    resolve_share-Granted demo (codes "t") (codes "pw") shared seen resolved

photo_stored : lookup (codes "f") with_photo.db.files ≡ some photo
unfolding lookup str_discrete
photo_stored = refl

-- The encoding of 32 zeros.
abbrev token : Str
token = codes "AAAAAAAAAAAAAAAAAAAAAAAAAAAAAAAAAAAAAAAAAAA"

abbrev made : ShareLinkView
made = record { token = token; expires_at = hour + 2; password_set = true }

created :
    (create_share_link demo alice acme (codes "f") (pos 0) (codes "pw") with_photo).0 ≡ ok made
unfolding create_share_link hash_password ShareToken.new Memory.create_share_link Memory.get_file
    lookup str_discrete FileStatus-discrete ◌>>=◌ insert
created = refl

pw_hashed :
    (hash_password demo
      (codes "pw")
      (hashing demo alice acme (codes "f") (pos 0) (codes "pw") with_photo)).0
    ≡ ok (codes "$pw")
unfolding hash_password str_discrete ◌>>=◌
pw_hashed = refl

create_share_link-stored_example :
    let l =
      new_link demo alice acme (codes "f") (pos 0) (codes "pw") token (codes "$pw") with_photo in
    (lookup token with_photo.db.shares ≡ none)
    × ((create_share_link demo alice acme (codes "f") (pos 0) (codes "pw") with_photo).1.db
        ≡ record with_photo.db { shares = insert token l with_photo.db.shares })
    × (made.expires_at ≡ l.expires_at)
    × (l.created_at < l.expires_at)
    × (l.expires_at ≤ l.created_at + 7 * 24 * hour)
    × (made.password_set ≡ (codes "$pw" /= []))
create_share_link-stored_example =
    create_share_link-stored demo alice acme (codes "f") (pos 0) (codes "pw") with_photo made
      (codes "$pw") created pw_hashed

-- The photo with a job.
abbrev job : JobStatus → Job
job st = record { id = codes "j"; file_id = codes "f"; status = st; error = []; updated_at = 0 }

abbrev with_job : JobStatus → World State ℕ
with_job st = record with_photo { db = record with_photo.db { jobs = (codes "j", job st) ∷ [] } }

job_there : (st : JobStatus) → lookup (codes "j") (with_job st).db.jobs ≡ some (job st)
unfolding lookup str_discrete
job_there st = refl

finish_job-succeeded_example :
    let (r, w') = finish_job demo (codes "j") [] [] (with_job JobStatus.queued) in
    (r ≡ ok tt)
    × (lookup (codes "f") w'.db.files ≡ some photo)
    × (lookup (codes "j") w'.db.jobs ≡ some (record (job JobStatus.succeeded) { updated_at = 1 }))
    × (w'.db.quota ≡ with_photo.db.quota)
finish_job-succeeded_example =
    finish_job-succeeded demo (codes "j") (job JobStatus.queued) photo (with_job JobStatus.queued)
      [] (job_there JobStatus.queued) photo_stored

finish_job-failed_example :
    let (r, w') = finish_job demo (codes "j") [] (codes "bad") (with_job JobStatus.queued) in
    (r ≡ ok tt)
    × (lookup (codes "f") w'.db.files ≡ some (record photo { status = FileStatus.failed }))
    × (lookup (codes "j") w'.db.jobs
        ≡ some (record (job JobStatus.failed) { error = codes "bad"; updated_at = 1 }))
    × (w'.db.quota ≡ with_photo.db.quota)
finish_job-failed_example =
    finish_job-failed demo (codes "j") (job JobStatus.queued) photo (with_job JobStatus.queued) []
      (codes "bad") (λ e. cc) (job_there JobStatus.queued) photo_stored

abbrev retried : JobView
retried = record {
  id = codes "j";
  file_id = codes "f";
  status = JobStatus.queued;
  error = [];
  updated_at = 3;
}

job_retried : (retry_job demo alice acme (codes "j") (with_job JobStatus.failed)).0 ≡ ok retried
unfolding retry_job job_owned_by enqueue_job Memory.get_job Memory.get_file lookup str_discrete
    ◌>>=◌ JobStatus-discrete Memory.update_job Memory.set_file_status
job_retried = refl

retry_job_lem_example :
    let w' = (retry_job demo alice acme (codes "j") (with_job JobStatus.failed)).1 in
    (other_file_owner alice acme photo ≡ false)
    × (JobStatus.failed ≡ JobStatus.failed)
    × (lookup (codes "j") w'.db.jobs ≡ some (record (job JobStatus.queued) { updated_at = 1 }))
    × (lookup (codes "f") w'.db.files ≡ some waiting)
    × (JobStatus.queued ≡ JobStatus.queued)
retry_job_lem_example =
    retry_job_lem demo (codes "j") (job JobStatus.failed) photo (with_job JobStatus.failed) alice
      acme retried (job_there JobStatus.failed) photo_stored refl job_retried
