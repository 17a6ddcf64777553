-- ===== src/Service/Files.antt =====
-- media.go: `GetFile`, `ListFiles`, `DeleteFile` and `GetQuota`.
pub mod Listing
pub mod Deletion
pub mod Refunds
use pf_media.Base.{
  Str, ℕ, Bool, ltb, nat_eq, ◌||◌, List, [], ◌∷◌, if◌then◌else◌, ◌==◌, ◌/=◌, str_eq,
}
use pf_media.Base.Int.{ℤ, pos, negsuc, neg64, int_eq}
use pf_media.Domain.{Err, not_found, Result, ok, err, is_not_found, File}
use pf_media.Exec.{Exec, World, ◌>>=◌, ◌>>◌, pure, raise, reject_if, attempt, in_db, in_ext}
use pf_media.ObjectKeys.{object_prefix}
use pf_media.Service.{
  Media, FileView, quota_subject, other_file_owner, ensure_owned_folder, with_job,
}

pub record QuotaView : Type 0 where
  pub used_bytes : ℤ
  pub limit_bytes : ℤ

-- `limit <= 0 || limit > 100` is replaced by 50. The limits are an `int` of the callers.
abbrev pub page_size : ℤ → ℕ
page_size (pos n) = if n == 0 || ltb 100 n then 50 else n
page_size (negsuc n) = 50

module _ {D E : Type 0} (m : Media D E) where
  open m use {store, objects, quota_limit}

  unfoldable pub get_file : Str → Str → Str → Exec (World D E) FileView
  get_file requester_sub org_id file_id = do
    f ← in_db (store.get_file file_id)
    reject_if (other_file_owner requester_sub org_id f) not_found
    with_job m f

  -- The loop of `ListFiles`: the first error ends it.
  unfoldable pub with_jobs : List File → Exec (World D E) (List FileView)
  with_jobs [] = pure []
  with_jobs (f ∷ fs) = do v ← with_job m f; vs ← with_jobs fs; pure (v ∷ vs)

  unfoldable pub list_files : Str → Str → Str → ℤ → Exec (World D E) (List FileView)
  unfolding ensure_owned_folder with_jobs
  list_files owner_sub org_id folder_id limit = do
    ensure_owned_folder m owner_sub org_id folder_id
    files ← in_db (store.list_files_by_owner owner_sub org_id folder_id (page_size limit))
    with_jobs files

  unfoldable pub get_quota : Str → Str → Exec (World D E) QuotaView
  get_quota owner_sub org_id = do
    used ← in_db (store.get_quota_used (quota_subject org_id owner_sub))
    pure (record { used_bytes = used; limit_bytes = quota_limit })

  -- `DeleteFile` on the file that the store has: the objects, the row, and then the quota.
  unfoldable pub delete_owned_file : Str → Str → File → Exec (World D E) Unit
  delete_owned_file owner_sub org_id f = do
    reject_if (other_file_owner owner_sub org_id f) not_found
    in_ext (objects.delete_prefix (object_prefix f.owner_sub f.id))
    in_db (store.delete_file f.id)
    if f.size_bytes == pos 0
        then pure tt
        else in_db
            (store.add_quota (quota_subject org_id owner_sub) (neg64 f.size_bytes) quota_limit)

  -- What `DeleteFile` does with the answer of `GetFile`: a file that is gone is deleted already.
  abbrev pub delete_found : Str → Str → Result File → Exec (World D E) Unit
  delete_found owner_sub org_id (ok f) = delete_owned_file owner_sub org_id f
  delete_found owner_sub org_id (err e) = if is_not_found e then pure tt else raise e

  unfoldable pub delete_file : Str → Str → Str → Exec (World D E) Unit
  unfolding delete_owned_file
  delete_file owner_sub org_id file_id = do
    r ← attempt (in_db (store.get_file file_id))
    delete_found owner_sub org_id r
