-- ===== src/Service/Uploads/Checking.antt =====
-- What a successful `Complete` has checked about the object, on the memory store.
use pf_media.Base.{Str, ◌≡◌, ◌∙◌, ◌⊎◌, str_eq, some, [], arith, true, false}
use pf_media.Base.Dict.{lookup}
use pf_media.Base.Int.{ℤ}
use pf_media.Domain.{File, ok}
use pf_media.Exec.{World, ◌>>=◌}
use pf_media.Exec.Inversion.{bind-ok}
use pf_media.Mime.{matches_upload}
use pf_media.Store.Memory.{State}
use pf_media.Service.{Media, FileView, normalize_etag}
use pf_media.Service.Files.Deletion.{on_memory}
use pf_media.Service.Uploads.{complete, check_object, check_content, etag_mismatch}
use pf_media.Service.Uploads.Completing.{complete_run, accept_object-Accepted, check_object-state}

module _ {E : Type 0} (m : Media State E) (o g id etag : Str) (f : File) where
  check_object-matches :
      (w : World State E) (size n : ℤ) (got head : Str)
      → (check_object (on_memory m) id f etag w).0 ≡ ok size
      → (m.objects.stat f.object_key w.ext).0 ≡ ok (n, got)
      → (m.objects.read_head f.object_key 512 (m.objects.stat f.object_key w.ext).1).0 ≡ ok head
      → (size ≡ n)
        × (matches_upload f.content_type head ≡ true)
        × (etag_mismatch (normalize_etag got) (normalize_etag etag) ≡ false)
  unfolding check_object check_content ◌>>=◌
  check_object-matches w size n got head h stat read = ground arith

  -- On the memory store, when `Complete` succeeds on the file of an id, and object storage has
  -- answered with a size, an ETag and the head of the object, then the size of the view is that
  -- size, the head matches the content type that was declared, and the client's ETag is the
  -- object's, up to quotation marks, unless the object's is empty.
  pub complete-matches_upload :
      (w : World State E) (v : FileView) (n : ℤ) (got head : Str)
      → lookup id w.db.files ≡ some f
      → (complete (on_memory m) o g id etag w).0 ≡ ok v
      → (m.objects.stat f.object_key w.ext).0 ≡ ok (n, got)
      → (m.objects.read_head f.object_key 512 (m.objects.stat f.object_key w.ext).1).0 ≡ ok head
      → (v.size_bytes ≡ n)
        × (matches_upload f.content_type head ≡ true)
        × ((normalize_etag got ≡ []) ⊎ (normalize_etag got ≡ normalize_etag etag))
  complete-matches_upload w v n got head there h stat read =
      let (_, _, run) = complete_run m o g id etag f w v there h in
      let (size, checked, took) = bind-ok _ _ w (rw run at h) in
      let (same, _) = check_object-state m o g id etag f w size checked in
      let (shown, _) = accept_object-Accepted m o g id etag f size _ v (rw same there) took in
      let (reported, right, tagged) = check_object-matches w size n got head checked stat read in
      (shown ∙ reported, right, ground arith)
