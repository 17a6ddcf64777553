-- ===== src/Service/Uploads/Presigning.antt =====
-- What a successful `Presign` has checked and stored, on the memory store.
use pf_media.Base.{Str, ◌≡◌, none, [], arith, str_eq, true}
use pf_media.Base.Dict.{lookup, insert}
use pf_media.Base.Int.{pos, ◌<ℤ◌, ◌≤ℤ◌, add64}
use pf_media.Domain.{File, FileStatus, ok}
use pf_media.Exec.{World, ◌>>=◌}
use pf_media.Store.Memory
use pf_media.Store.Memory.{State, memory_store, quota_of}
use pf_media.Mime.{allowed_upload}
use pf_media.ObjectKeys.{object_key}
use pf_media.Service.{Media, quota_subject, ensure_owned_folder}
use pf_media.Service.Files.Deletion.{on_memory}
use pf_media.Service.Uploads.{PresignInput, PresignResult, resolve_purpose, presign}

-- The row that `Presign` stores.
abbrev pub pending_file : {E : Type 0} → Media State E → Str → Str → PresignInput → Str → E → File
pending_file m o g i purpose e =
    let (id, e') = m.system.new_id e in
    record {
      id = id;
      owner_sub = o;
      org_id = g;
      folder_id = i.folder_id;
      object_key = object_key o id;
      content_type = i.content_type;
      size_bytes = i.size;
      purpose = purpose;
      status = FileStatus.pending;
      variants = [];
      created_at = (m.system.now e').0;
    }

module _ {E : Type 0} (m : Media State E) (o g : Str) (i : PresignInput) where
  -- On the memory store, when `Presign` succeeds the declared size is positive and within the
  -- maximum of an upload, the content type is on the allow-list, and the subject's use and the
  -- size, added as int64s, are within the limit.
  pub presign-guards :
      (v : PresignResult) (w : World State E)
      → (presign (on_memory m) o g i w).0 ≡ ok v
      → (pos 0 <ℤ i.size)
        × (i.size ≤ℤ m.max_upload)
        × (allowed_upload i.content_type ≡ true)
        × (add64 (quota_of (quota_subject g o) w.db) i.size ≤ℤ m.quota_limit)
  unfolding presign Memory.get_quota_used ◌>>=◌
  presign-guards v w h = ground arith

  -- On the memory store, when `Presign` succeeds with a purpose that resolves, the id that it
  -- answers was not in use, the only change to the database is the pending row under that id, and
  -- the object key that it answers is that row's.
  pub presign-stored :
      (v : PresignResult) (w : World State E) (purpose : Str)
      → (presign (on_memory m) o g i w).0 ≡ ok v
      → resolve_purpose i.purpose ≡ ok purpose
      → let f = pending_file m o g i purpose w.ext in
        (lookup v.file_id w.db.files ≡ none)
        × ((presign (on_memory m) o g i w).1.db
            ≡ record w.db { files = insert v.file_id f w.db.files })
        × (v.file_id ≡ f.id)
        × (v.object_key ≡ f.object_key)
  unfolding presign Memory.get_quota_used Memory.create_pending_file Memory.get_folder
      ensure_owned_folder ◌>>=◌
  presign-stored v w purpose h p = ground arith
