-- ===== src/Service/Uploads/Repeating.antt =====
-- `Complete` of an image, called again before the processor has answered.
use pf_media.Base.{Str, ◌≡◌, ◌∙◌, ap, some}
use pf_media.Base.Dict.{lookup}
use pf_media.Domain.{File, ok}
use pf_media.Exec.{World}
use pf_media.Store.Memory.{State, quota_of}
use pf_media.Service.{Media, FileView, quota_subject}
use pf_media.Service.Files.Deletion.{on_memory}
use pf_media.Service.Uploads.{complete}
use pf_media.Service.Uploads.Completing.{charged, complete_lem}

-- On the memory store, when `Complete` succeeds on a file and then succeeds again on the same file,
-- the subject is charged for both sizes that object storage has reported.
pub complete-complete :
    {E : Type 0} (m : Media State E) (o g id etag etag' : Str) (f : File) (w : World State E)
    (v v' : FileView)
    → lookup id w.db.files ≡ some f
    → (complete (on_memory m) o g id etag w).0 ≡ ok v
    → (complete (on_memory m) o g id etag' (complete (on_memory m) o g id etag w).1).0 ≡ ok v'
    → let w' = (complete (on_memory m) o g id etag w).1 in
      let w'' = (complete (on_memory m) o g id etag' w').1 in
      quota_of (quota_subject g o) w''.db
      ≡ charged (charged (quota_of (quota_subject g o) w.db) v.size_bytes) v'.size_bytes
complete-complete m o g id etag etag' f w v v' there h h' =
    let (_, _, _, first) = complete_lem m o g id etag f w v there h in
    let (_, _, _, second) =
      complete_lem m o g id etag' (record f { size_bytes = v.size_bytes; status = v.status }) _ v'
        first.stored h' in
    second.charge ∙ ap (λ used. charged used v'.size_bytes) first.charge
