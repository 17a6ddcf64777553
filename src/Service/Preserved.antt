-- ===== src/Service/Preserved.antt =====
-- A property of the database that every method of the store keeps is kept by every operation of the
-- service, over any store and whatever the outside world answers.
pub mod Sharing
pub mod Trees
use pf_media.Base.{
  Str, ℕ, ◌≡◌, refl, Bool, false, Option, none, some, List, [], ◌∷◌, if◌then◌else◌, arith,
}
use pf_media.Base.Dict.{Dict}
use pf_media.Base.Int.{ℤ, InInt64, wrap64-InInt64, neg64}
use pf_media.Domain.{
  Err, invalid, Result, ok, err, Time, File, FileStatus, Variants, Job, JobStatus, ShareLink,
  Folder,
}
use pf_media.Exec.{Exec, World, ◌>>=◌, in_ext, in_db, attempt}
use pf_media.Exec.Inversion.{bind-ok, recover-ok}
use pf_media.Exec.Keeps.{
  Keeps, On, Keeps-bind_fact, keeps_rules, Keeps-bind, Keeps-attempt, Keeps-in_db, Keeps-unless,
}
use pf_media.Store.{Store}
use pf_media.Service.{
  other_file_owner, Media, VariantView, JobMessage, JobQueue, quota_subject, view_variants,
  file_view, file_view_by, add_job, with_job, ensure_owned_folder,
}
use pf_media.Service.Uploads.{
  accept_object, PresignInput, presign, complete, check_content, check_object, start_processing,
  enqueue_job, enqueue_failed,
}
use pf_media.Service.Files.{
  delete_file, delete_owned_file, delete_found, get_file, list_files, with_jobs, get_quota,
}

-- Every method of the store keeps `P`, at the quota limit `limit`: those that change a file or delete
-- it, at the ids that are `Free`. The files that the user of subject `o` and organisation `g` is
-- found to own are free.
pub record Keeper {D : Type 0} (S : Store D) (limit : ℤ) (o g : Str) (Free : Str → Type 0)
    (P : D → Type 0) : Type 0 where
  pub found :
      (s : D) (id : Str) (f : File)
      → P s
      → (S.get_file id s).0 ≡ ok f
      → other_file_owner o g f ≡ false
      → Free id × Free f.id
  pub create_pending_file : (f : File) → Keeps P (S.create_pending_file f)
  pub get_file : (id : Str) → Keeps P (S.get_file id)
  pub list_files_by_owner : (o' g' d : Str) (n : ℕ) → Keeps P (S.list_files_by_owner o' g' d n)
  pub mark_file_ready : (id : Str) (size : ℤ) → Free id → Keeps P (S.mark_file_ready id size)
  pub set_file_status : (id : Str) (st : FileStatus) → Free id → Keeps P (S.set_file_status id st)
  pub update_variants : (id : Str) (v : Variants) → Free id → Keeps P (S.update_variants id v)
  pub create_job : (j : Job) → Keeps P (S.create_job j)
  pub get_job : (id : Str) → Keeps P (S.get_job id)
  pub get_latest_job_by_file : (id : Str) → Keeps P (S.get_latest_job_by_file id)
  pub update_job :
      (t : Time) (id : Str) (st : JobStatus) (e : Str) → Keeps P (S.update_job t id st e)
  pub add_quota :
      (subject : Str) (delta : ℤ) → InInt64 delta → Keeps P (S.add_quota subject delta limit)
  pub get_quota_used : (subject : Str) → Keeps P (S.get_quota_used subject)
  pub delete_file : (id : Str) → Free id → Keeps P (S.delete_file id)
  pub create_share_link : (l : ShareLink) → Keeps P (S.create_share_link l)
  pub get_share_link_by_token : (t : Str) → Keeps P (S.get_share_link_by_token t)
  pub list_share_links_by_owner : (o' g' : Str) → Keeps P (S.list_share_links_by_owner o' g')
  pub delete_share_link : (t : Str) → Keeps P (S.delete_share_link t)
  pub create_folder : (f : Folder) → Keeps P (S.create_folder f)
  pub get_folder : (id : Str) → Keeps P (S.get_folder id)
  pub list_folders : (o' g' d : Str) → Keeps P (S.list_folders o' g' d)
  pub delete_folder : (id : Str) → Keeps P (S.delete_folder id)

-- The sizes that object storage reports are Go's int64.
pub record SizesInt64 {D E : Type 0} (m : Media D E) : Type 0 where
  pub bound : (key : Str) (e : E) (r : ℤ × Str) → (m.objects.stat key e).0 ≡ ok r → InInt64 r.0

module _ {D E : Type 0} (m : Media D E) (sizes : SizesInt64 m) where
  check_content-size :
      (id : Str) (f : File) (etag : Str) (found : ℤ × Str) (w : World D E) (size : ℤ)
      → (check_content m id f etag found w).0 ≡ ok size
      → found.0 ≡ size
  unfolding check_content ◌>>=◌
  check_content-size id f etag found w size h = ground arith

  -- The size that passes the checks is one that object storage has reported.
  check_object-InInt64 :
      (id : Str) (f : File) (etag : Str) (w : World D E) (size : ℤ)
      → (check_object m id f etag w).0 ≡ ok size
      → InInt64 size
  unfolding check_object
  check_object-InInt64 id f etag w size h =
      let (r, found, rest) = bind-ok _ _ w h in
      let stat_ok = recover-ok (in_ext (m.objects.stat f.object_key)) invalid w found in
      let fits = sizes.bound f.object_key w.ext r (unfold ◌>>=◌ in stat_ok) in
      rw (check_content-size id f etag r _ size rest) at fits

module _ {D E : Type 0} (m : Media D E) (P : D → Type 0) where
  view_variants-Keeps :
      (out : Dict VariantView) (vs : Variants) → Keeps (On P) (view_variants m out vs)
  unfolding view_variants
  view_variants-Keeps out [] = search keeps_rules
  view_variants-Keeps out ((n, v) ∷ vs) =
      search (keeps_rules, λ (o : Dict VariantView). view_variants-Keeps o vs)

  file_view_by-Keeps : (vs : Variants) (f : File) → Keeps (On P) (file_view_by m vs f)
  unfolding file_view_by
  file_view_by-Keeps [] f = search keeps_rules
  file_view_by-Keeps (v ∷ vs) f = search (keeps_rules, view_variants-Keeps)

  pub file_view-Keeps : (f : File) → Keeps (On P) (file_view m f)
  unfolding file_view
  file_view-Keeps f = file_view_by-Keeps f.variants f

module _ {D E : Type 0} (m : Media D E) {o g : Str} {Free : Str → Type 0} {P : D → Type 0}
    (k : Keeper m.store m.quota_limit o g Free P) where
  -- What the guard on the owner of a file that was found says.
  abbrev Guarded : Str → File → Type 0
  Guarded id f = other_file_owner o g f ≡ false → Free id × Free f.id

  pub ensure_owned_folder-Keeps : (o' g' d : Str) → Keeps (On P) (ensure_owned_folder m o' g' d)
  unfolding ensure_owned_folder
  ensure_owned_folder-Keeps o' g' d = search (keeps_rules, k.get_folder)

  pub presign-Keeps : (o' g' : Str) (i : PresignInput) → Keeps (On P) (presign m o' g' i)
  unfolding presign
  presign-Keeps o' g' i =
      search (keeps_rules, ensure_owned_folder-Keeps, k.get_quota_used, k.create_pending_file) depth
        30

  pub with_job-Keeps : (f : File) → Keeps (On P) (with_job m f)
  unfolding with_job
  with_job-Keeps f = Keeps-bind _ _ (file_view-Keeps m P f) λ view.
      Keeps-bind _ _ (Keeps-attempt _ (Keeps-in_db _ (k.get_latest_job_by_file f.id))) λ r.
        elim r as (λ r. Keeps (On P) (add_job m view r)) [
          | ok j ↦ search keeps_rules
          | err e ↦ search keeps_rules
        ]

  enqueue_failed-Keeps : (j f : Str) (e : Err) → Free f → Keeps (On P) (enqueue_failed m j f e)
  unfolding enqueue_failed
  enqueue_failed-Keeps j f e free = search (keeps_rules, k.update_job, k.set_file_status) depth 30

  pub enqueue_job-Keeps :
      (q : Option (JobQueue E)) (message : JobMessage) (j f : Str)
      → Free f
      → Keeps (On P) (enqueue_job m q message j f)
  unfolding enqueue_job
  enqueue_job-Keeps none message j f free = search keeps_rules
  enqueue_job-Keeps (some q) message j f free = search (keeps_rules, enqueue_failed-Keeps)

  start_processing-Keeps : (id : Str) (f : File) → Free id → Keeps (On P) (start_processing m id f)
  unfolding start_processing
  start_processing-Keeps id f free =
      search (keeps_rules, enqueue_job-Keeps, k.create_job, k.set_file_status) depth 30

  check_content-Keeps :
      (id : Str) (f : File) (etag : Str) (r : ℤ × Str)
      → Free id
      → Keeps (On P) (check_content m id f etag r)
  unfolding check_content
  check_content-Keeps id f etag r free = search (keeps_rules, k.delete_file) depth 30

  check_object-Keeps :
      (id : Str) (f : File) (etag : Str) → Free id → Keeps (On P) (check_object m id f etag)
  unfolding check_object
  check_object-Keeps id f etag free = search (keeps_rules, check_content-Keeps)

  pub get_file-Guarded :
      (id : Str) (w : World D E) (f : File)
      → On P w
      → (in_db (m.store.get_file id) w).0 ≡ ok f
      → Guarded id f
  unfolding ◌>>=◌
  get_file-Guarded id w f p e = k.found w.db id f p.holds e

  -- The same of the answer that `DeleteFile` looks at.
  abbrev FoundFree : Str → Result File → Type 0
  FoundFree id (ok f) = Guarded id f
  FoundFree id (err e) = Unit

  attempt-FoundFree :
      (id : Str) (w : World D E) (r : Result File)
      → On P w
      → (attempt (in_db (m.store.get_file id)) w).0 ≡ ok r
      → FoundFree id r
  unfolding ◌>>=◌
  attempt-FoundFree id w (ok f) p e = k.found w.db id f p.holds (cc)
  attempt-FoundFree id w (err x) p e = tt

  delete_owned_file-Keeps :
      (id : Str) (f : File) → Guarded id f → Keeps (On P) (delete_owned_file m o g f)
  unfolding delete_owned_file neg64
  delete_owned_file-Keeps id f guarded = Keeps-unless _ _ _ λ mine.
      let free = (guarded mine).1 in
      search (keeps_rules, k.delete_file, k.add_quota, wrap64-InInt64) depth 30

  delete_found-Keeps :
      (id : Str) (r : Result File) → FoundFree id r → Keeps (On P) (delete_found m o g r)
  delete_found-Keeps id (ok f) guarded = delete_owned_file-Keeps id f guarded
  delete_found-Keeps id (err e) fact = search keeps_rules

  pub delete_file-Keeps : (id : Str) → Keeps (On P) (delete_file m o g id)
  unfolding delete_file
  delete_file-Keeps id =
      Keeps-bind_fact (FoundFree id) _ _ (Keeps-attempt _ (Keeps-in_db _ (k.get_file id)))
        (λ w r p e. attempt-FoundFree id w r p e) λ r fact. delete_found-Keeps id r fact

  module _ (sizes : SizesInt64 m) where
    pub complete-Keeps : (id etag : Str) → Keeps (On P) (complete m o g id etag)
    unfolding complete accept_object
    complete-Keeps id etag =
        Keeps-bind_fact (Guarded id) _ _ (Keeps-in_db _ (k.get_file id)) (get_file-Guarded id)
          λ f guarded. Keeps-unless _ _ _ λ mine.
            let free = (guarded mine).0 in
            Keeps-bind _ _ (search keeps_rules) λ _.
              Keeps-bind_fact InInt64 _ _ (check_object-Keeps id f etag free)
                (λ w size _ e. check_object-InInt64 m sizes id f etag w size e)
                λ size fits.
                  search
                    (
                      keeps_rules,
                      k.add_quota,
                      k.mark_file_ready,
                      start_processing-Keeps,
                      file_view-Keeps m P,
                    )
                    depth 30
