-- ===== src/Service/Files/Refunds.antt =====
-- The quota when a file is deleted that was presigned and never uploaded.
use pf_media.Base.{Str, ◌≡◌, refl, some, false, arith, ◌/=◌, ◌||◌, str_eq, ◌∙◌, ap}
use pf_media.Base.Dict.{lookup, insert, lookup-insert}
use pf_media.Base.Int.{InInt64}
use pf_media.Domain.{File, ok}
use pf_media.Exec.{World}
use pf_media.Store.Memory.{State, quota_of}
use pf_media.ObjectKeys.{object_prefix}
use pf_media.Service.{Media, quota_subject}
use pf_media.Service.Files.{delete_file}
use pf_media.Service.Files.Deletion.{on_memory, refunded, delete_file_lem, quota_of-files}
use pf_media.Service.Uploads.{PresignInput, PresignResult, resolve_purpose, presign}
use pf_media.Service.Uploads.Presigning.{pending_file, presign-guards, presign-stored}

-- On the memory store, a presigned upload (of a purpose that resolves and a size that is an int64)
-- that is deleted before it was completed, while object storage removes its objects, lowers its
-- subject's use by the size that was declared, though `Presign` has charged nothing: the use
-- afterwards is the use before, less that size, and not below 0.
pub presign-delete_file :
    {E : Type 0} (m : Media State E) (o g : Str) (i : PresignInput) (v : PresignResult)
    (purpose : Str) (w : World State E)
    → resolve_purpose i.purpose ≡ ok purpose
    → InInt64 i.size
    → (presign (on_memory m) o g i w).0 ≡ ok v
    → (m.objects.delete_prefix (object_prefix o v.file_id) (presign (on_memory m) o g i w).1.ext).0
      ≡ ok tt
    → let w' = (presign (on_memory m) o g i w).1 in
      let w'' = (delete_file (on_memory m) o g v.file_id w').1 in
      quota_of (quota_subject g o) w''.db ≡ refunded (quota_of (quota_subject g o) w.db) i.size
presign-delete_file {E} m o g i v purpose w p int64 h removed =
    let f = pending_file m o g i purpose w.ext in
    let (fresh, stored, same_id, same_key) = presign-stored m o g i v w purpose h p in
    let guards = presign-guards m o g i v w h in
    let subject = quota_subject g o in
    let w' = (presign (on_memory m) o g i w).1 in
    let (_, deleted) =
      delete_file_lem m o g f w' (there f w' stored same_id) (own o g) guards.0 int64
        (rw same_id at removed) in
    rw same_id (
      deleted.refund
      ∙ ap (λ used. refunded used i.size) (quota_of-files subject w'.db w.db (rw stored refl)))
  where
    there :
        (f : File) (w' : World State E)
        → w'.db ≡ record w.db { files = insert v.file_id f w.db.files }
        → v.file_id ≡ f.id
        → lookup f.id w'.db.files ≡ some f
    there f w' stored same =
        rw (stored, ← same) (ground (arith, lookup-insert v.file_id v.file_id f w.db.files))

    own : (o g : Str) → (o /= o || g /= g) ≡ false
    own o g = ground arith
