-- ===== src/Tests/Uploading.antt =====
-- Uploads, deletions and the quota.
use pf_media.Base.{
  Str, ℕ, none, some, [], ◌∷◌, codes, str_eq, arith, ◌≡◌, refl, str_discrete, All, In, ◌⊎◌, ◌≢◌,
  true, ◌↔◌,
}
use pf_media.Base.Dict.{lookup, insert, values}
use pf_media.Base.Int.{pos, ◌≤ℤ◌, ◌<ℤ◌, add64}
use pf_media.Domain.{ok, err, not_found, Job, JobStatus}
use pf_media.Exec.{◌>>=◌}
use pf_media.Store.Memory
use pf_media.Store.Memory.{State, quota_of}
use pf_media.Store.Memory.Latest.{NotLater, get_latest_job_by_file_lem}
use pf_media.Store.Memory.Invariant.{Inv}
use pf_media.Store.Memory.Siblings.{Apart}
use pf_media.Service.Folders.{create_folder}
use pf_media.Mime.{normalize, allowed_upload, sniff_upload, matches_upload, image_png, png_magic}
use pf_media.Mime.Matching.{matches_upload_iff}
use pf_media.ObjectKeys.{object_key}
use pf_media.Service.{quota_subject, ensure_owned_folder}
use pf_media.Service.Uploads.{PresignResult, presign, resolve_purpose}
use pf_media.Service.Uploads.Presigning.{presign-guards, presign-stored, pending_file}
use pf_media.Service.Files.{delete_file}
use pf_media.Service.Files.Deletion.{Deleted, refunded, delete_file_lem}
use pf_media.Service.Files.Refunds.{presign-delete_file}
use pf_media.Service.Steps.{here, next, user, presigns, deletes_file, creates_folder}
use pf_media.Service.Steps.OnMemory.{Reach-quota_of, Reach-Apart}
use pf_media.Service.Steps.Isolation.{Step-lookup}
use pf_media.Tests.Demo.{demo, alice, bob, acme, png_input, start, photo, with_photo, demo-OnMemory}

abbrev given : PresignResult
given = record {
  file_id = codes "b";
  upload_url = codes "http://upload/user/alice/b/orig";
  object_key = codes "user/alice/b/orig";
}

granted : (presign demo alice acme png_input start).0 ≡ ok given
unfolding presign resolve_purpose ensure_owned_folder quota_of quota_subject Memory.get_quota_used
    Memory.create_pending_file allowed_upload normalize object_key lookup str_discrete add64 ◌>>=◌
granted = refl

matches_upload_iff_example :
    (matches_upload (codes "Image/PNG; q=1") png_magic ≡ true)
    ↔ (sniff_upload png_magic ≡ some (normalize (codes "Image/PNG; q=1")))
matches_upload_iff_example = matches_upload_iff (codes "Image/PNG; q=1") png_magic

sniff_png : sniff_upload png_magic ≡ some image_png
unfolding sniff_upload str_discrete
sniff_png = refl

png_matches : matches_upload image_png png_magic ≡ true
unfolding matches_upload sniff_upload normalize str_discrete allowed_upload
png_matches = refl

presign-guards_example :
    (pos 0 <ℤ pos 100)
    × (pos 100 ≤ℤ pos 500)
    × (allowed_upload image_png ≡ true)
    × (add64 (quota_of (quota_subject acme alice) start.db) (pos 100) ≤ℤ pos 1000)
presign-guards_example = presign-guards demo alice acme png_input given start granted

drive_purpose : resolve_purpose [] ≡ ok (codes "drive")
unfolding resolve_purpose str_discrete
drive_purpose = refl

presign-stored_example :
    let f = pending_file demo alice acme png_input (codes "drive") 1 in
    (lookup (codes "b") start.db.files ≡ none)
    × ((presign demo alice acme png_input start).1.db
        ≡ record start.db { files = insert (codes "b") f start.db.files })
    × (codes "b" ≡ f.id)
    × (codes "user/alice/b/orig" ≡ f.object_key)
presign-stored_example =
    presign-stored demo alice acme png_input given start (codes "drive") granted drive_purpose

pub photo_there : lookup (codes "f") with_photo.db.files ≡ some photo
unfolding lookup str_discrete
photo_there = refl

delete_file_lem_example :
    let (r, w') = delete_file demo alice acme (codes "f") with_photo in
    (r ≡ ok tt) × Deleted (codes "f") (quota_subject acme alice) (pos 100) with_photo.db w'.db
delete_file_lem_example =
    delete_file_lem demo alice acme photo with_photo photo_there (unfold str_discrete in refl)
      (omega arith) (omega arith) refl

presign-delete_file_example :
    let w' = (presign demo alice acme png_input start).1 in
    let w'' = (delete_file demo alice acme (codes "b") w').1 in
    quota_of (quota_subject acme alice) w''.db
    ≡ refunded (quota_of (quota_subject acme alice) start.db) (pos 100)
presign-delete_file_example =
    presign-delete_file demo alice acme png_input given (codes "drive") start drive_purpose
      (omega arith) granted refl

Reach-quota_of_example :
    let w' = (presign demo alice acme png_input start).1 in
    (pos 0 ≤ℤ quota_of (codes "org:acme") w'.db) × (quota_of (codes "org:acme") w'.db ≤ℤ pos 1000)
Reach-quota_of_example =
    Reach-quota_of demo demo-OnMemory {w = start} refl
      (next (user alice acme) here (presigns alice acme png_input)) (codes "org:acme")

pub with_photo-Inv : Inv (pos 1000) with_photo.db
with_photo-Inv = record {
  budget = record { within = ((omega arith, omega arith), tt) };
  siblings = record { apart = tt };
  files_keyed = (refl, tt);
  jobs_keyed = tt;
  shares_keyed = tt;
  folders_keyed = tt;
}

Step-lookup_example :
    lookup (codes "f") (delete_file demo bob acme (codes "f") with_photo).1.db.files ≡ some photo
Step-lookup_example =
    Step-lookup demo demo-OnMemory (codes "f") photo (user bob acme) with_photo _
      (unfold str_discrete in refl) with_photo-Inv photo_there (deletes_file bob acme (codes "f"))

-- Two jobs of one file, the later one second, and a job of another file.
abbrev job_of : Str → Str → ℕ → Job
job_of id file_id t = record {
  id = id;
  file_id = file_id;
  status = JobStatus.failed;
  error = [];
  updated_at = t;
}

abbrev with_jobs : State
with_jobs = record Memory.new {
  jobs =
      (codes "1", job_of (codes "1") (codes "f") 5)
      ∷ (codes "2", job_of (codes "2") (codes "f") 8)
      ∷ (codes "3", job_of (codes "3") (codes "h") 9)
      ∷ [];
}

get_latest_job_by_file_lem_example :
    ((b : Job) × ((Memory.get_latest_job_by_file (codes "f") with_jobs).0 ≡ ok b)
      × In b (values with_jobs.jobs)
      × (b.file_id ≡ codes "f")
      × All (NotLater (codes "f") b) (values with_jobs.jobs))
    ⊎ (((Memory.get_latest_job_by_file (codes "f") with_jobs).0 ≡ err not_found)
        × All (λ (j : Job). j.file_id ≢ codes "f") (values with_jobs.jobs))
get_latest_job_by_file_lem_example = get_latest_job_by_file_lem (codes "f") with_jobs

latest_given :
    (Memory.get_latest_job_by_file (codes "f") with_jobs).0 ≡ ok (job_of (codes "2") (codes "f") 8)
unfolding Memory.get_latest_job_by_file Memory.latest_job str_discrete values
latest_given = refl

Reach-Apart_example : Apart (create_folder demo alice acme (codes "docs") [] start).1.db.folders
Reach-Apart_example =
    Reach-Apart demo demo-OnMemory {w = start} refl
      (next (user alice acme) here (creates_folder alice acme (codes "docs") []))
