-- ===== src/Service.antt =====
-- apps/api/internal/service/media.go: the interfaces that the service uses, its configuration, its
-- views of stored data, and the helpers that its operations share. The operations are below.
pub mod Subjects
pub mod Preserved
pub mod Steps
pub mod Uploads
pub mod Files
pub mod Shares
pub mod Folders
pub mod FolderTree
pub mod Jobs
use pf_media.Base.{
  Str, ℕ, Bool, Option, none, some, List, [], ◌∷◌, ◌++◌, if◌then◌else◌, ◌||◌, ◌==◌, ◌/=◌, str_eq,
  str_discrete, codes, not, contains,
}
use pf_media.Base.Dict.{Dict, insert}
use pf_media.Base.Int.{ℤ}
use pf_media.Base.Text.{trim_space, trim_byte}
use pf_media.Domain.{
  Err, not_found, forbidden, wrapped, Result, ok, err, is_not_found, Time, File, FileStatus,
  file_status_eq, Variant, Variants, Job, JobStatus, Folder,
}
use pf_media.Exec.{
  Exec, World, ◌>>=◌, ◌>>◌, pure, raise, reject_if, recover, attempt, in_db, in_ext,
}
use pf_media.Store.{Store}

-- `queue.JobMessage`
pub record JobMessage : Type 0 where
  pub job_id : Str
  pub file_id : Str
  pub object_key : Str
  pub bucket : Str

-- The interface ObjectStore. Durations are nanoseconds.
pub record ObjectStore (E : Type 0) : Type 0 where
  pub presign_put : Str → Str → ℤ → Exec E Str
  pub presign_get : Str → ℤ → Exec E Str
  pub stat : Str → Exec E (ℤ × Str)
  pub read_head : Str → ℕ → Exec E Str
  pub delete : Str → Exec E Unit
  pub delete_prefix : Str → Exec E Unit
  pub bucket : Str

-- The interface JobQueue.
pub record JobQueue (E : Type 0) : Type 0 where
  pub enqueue : JobMessage → Exec E Unit

-- What the service takes from Go's and other libraries: the clock, ULIDs, crypto/rand.
pub record System (E : Type 0) : Type 0 where
  pub now : E → Time × E
  pub new_id : E → Str × E
  pub rand_read : ℕ → Exec E Str

-- The functions of package `password` that the service calls.
pub record Passwords (E : Type 0) : Type 0 where
  pub hash : Str → Exec E Str
  pub verify : Str → Str → Result Bool

-- `service.Media`; `queue` is `nil` for a service without one.
pub record Media (D E : Type 0) : Type 0 where
  pub store : Store D
  pub objects : ObjectStore E
  pub queue : Option (JobQueue E)
  pub system : System E
  pub passwords : Passwords E
  pub quota_limit : ℤ
  pub max_upload : ℤ
  pub presign_ttl : ℤ

pub record VariantView : Type 0 where
  pub url : Str
  pub content_type : Str

pub record FileView : Type 0 where
  pub id : Str
  pub folder_id : Str
  pub content_type : Str
  pub size_bytes : ℤ
  pub purpose : Str
  pub status : FileStatus
  pub variants : Dict VariantView
  pub created_at : Time
  pub job_id : Str
  pub job_status : Option JobStatus
  pub job_error : Str

unfoldable pub quota_subject : Str → Str → Str
unfolding trim_space
quota_subject org_id owner_sub =
    if trim_space org_id /= [] then codes "org:" ++ org_id else codes "user:" ++ owner_sub

unfoldable pub normalize_etag : Str → Str
unfolding trim_byte
normalize_etag s = trim_byte b'"' s

-- `f.OwnerSub != ownerSub || f.OrgID != orgID`
abbrev pub other_file_owner : Str → Str → File → Bool
other_file_owner owner_sub org_id f = f.owner_sub /= owner_sub || f.org_id /= org_id

abbrev pub other_folder_owner : Str → Str → Folder → Bool
other_folder_owner owner_sub org_id f = f.owner_sub /= owner_sub || f.org_id /= org_id

abbrev pub orig : Str
orig = codes "orig"

-- The view of a file without its variants and its job.
abbrev pub base_view : File → FileView
base_view f = record {
  id = f.id;
  folder_id = f.folder_id;
  content_type = f.content_type;
  size_bytes = f.size_bytes;
  purpose = f.purpose;
  status = f.status;
  variants = [];
  created_at = f.created_at;
  job_id = [];
  job_status = none;
  job_error = [];
}

module _ {D E : Type 0} (m : Media D E) where
  open m use {store, objects, presign_ttl}

  -- The loop over the variants at the end of `fileView`.
  unfoldable pub view_variants : Dict VariantView → Variants → Exec (World D E) (Dict VariantView)
  view_variants out [] = pure out
  view_variants out ((name, v) ∷ vs) = do
    url ←
        recover (in_ext (objects.presign_get v.key presign_ttl))
          (λ e. raise (wrapped (codes "presign " ++ name) e))
    view_variants (insert name (record { url = url; content_type = v.content_type }) out) vs

  -- `fileView`, by the variants of the file
  unfoldable pub file_view_by : Variants → File → Exec (World D E) FileView
  file_view_by [] f = if f.status == FileStatus.failed then pure (base_view f) else do
    url ← in_ext (objects.presign_get f.object_key presign_ttl)
    pure (record (base_view f) {
      variants = (orig, record { url = url; content_type = f.content_type }) ∷ [];
    })
  file_view_by (v ∷ vs) f = do
    views ← view_variants [] (v ∷ vs)
    pure (record (base_view f) { variants = views })

  unfoldable pub file_view : File → Exec (World D E) FileView
  unfolding view_variants file_view_by
  file_view f = file_view_by f.variants f

  -- The rest of `withJob`, from what `GetLatestJobByFile` returned.
  abbrev pub add_job : FileView → Result Job → Exec (World D E) FileView
  add_job view (ok j) =
      pure (record view { job_id = j.id; job_status = some j.status; job_error = j.error })
  add_job view (err e) = if is_not_found e then pure view else raise e

  unfoldable pub with_job : File → Exec (World D E) FileView
  unfolding file_view
  with_job f = do
    view ← file_view f
    j ← attempt (in_db (store.get_latest_job_by_file f.id))
    add_job view j

  unfoldable pub ensure_owned_folder : Str → Str → Str → Exec (World D E) Unit
  ensure_owned_folder owner_sub org_id folder_id = if folder_id == [] then pure tt else do
    f ← in_db (store.get_folder folder_id)
    reject_if (other_folder_owner owner_sub org_id f) forbidden
