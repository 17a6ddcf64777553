-- ===== src/Service/Uploads/Completing.antt =====
-- What a successful `Complete` has done, on the memory store.
use pf_media.Base.{
  Str, ◌≡◌, refl, some, [], ◌∷◌, arith, str_eq, true, false, Bool-cases, inl, inr, if◌then◌else◌,
}
use pf_media.Base.Dict.{lookup, insert, lookup-insert}
use pf_media.Base.Int.{ℤ, pos, ◌≤ℤ◌, ltb_ℤ, add64}
use pf_media.Service.Preserved.{file_view-Keeps}
use pf_media.Domain.{Variants, File, FileStatus, JobStatus, ok}
use pf_media.Exec.{World, ◌>>=◌}
use pf_media.Exec.Inversion.{bind-ok, bind_step}
use pf_media.Store.Memory
use pf_media.Store.Memory.{State, memory_store, quota_of}
use pf_media.Mime.{is_image}
use pf_media.Service.{Media, quota_subject, other_file_owner, FileView, file_view, file_view_by}
use pf_media.Service.Files.Deletion.{on_memory}
use pf_media.Service.Uploads.{
  accept_object, complete, check_object, check_content, start_processing, enqueue_job,
  enqueue_failed,
}

-- The use of a subject after a charge.
abbrev pub charged : ℤ → ℤ → ℤ
charged used size = let u = add64 used size in if ltb_ℤ u (pos 0) then pos 0 else u

module _ {E : Type 0} (m : Media State E) (o g id etag : Str) (f : File) where
  -- An object that passes the checks fits, and they leave the database alone.
  pub check_object-state :
      (w : World State E) (size : ℤ)
      → (check_object (on_memory m) id f etag w).0 ≡ ok size
      → ((check_object (on_memory m) id f etag w).1.db ≡ w.db) × (size ≤ℤ m.max_upload)
  unfolding check_object check_content ◌>>=◌
  check_object-state w size h = ground arith

  start_processing-state :
      (h : File) (shown : File) (w : World State E)
      → lookup id w.db.files ≡ some h
      → (start_processing (on_memory m) id f w).0 ≡ ok shown
      → let s' = (start_processing (on_memory m) id f w).1.db in
        (lookup id s'.files ≡ some (record h { status = FileStatus.pending }))
        × (s'.quota ≡ w.db.quota)
        × (shown ≡ record f { status = FileStatus.pending })
        × (s'.jobs
            ≡ insert
                (m.system.new_id w.ext).0
                (record {
                  id = (m.system.new_id w.ext).0;
                  file_id = id;
                  status = JobStatus.queued;
                  error = [];
                  updated_at = (m.system.now (m.system.new_id w.ext).1).0;
                })
                w.db.jobs)
  unfolding start_processing enqueue_job enqueue_failed Memory.create_job Memory.set_file_status
      ◌>>=◌
  start_processing-state h shown w there e =
      ground (arith, lookup-insert id id (record h { status = FileStatus.pending }) w.db.files)

file_view_by-base :
    {D E : Type 0} (m : Media D E) (vs : Variants) (f : File) (w : World D E) (v : FileView)
    → (file_view_by m vs f w).0 ≡ ok v
    → (v.id ≡ f.id) × (v.size_bytes ≡ f.size_bytes) × (v.status ≡ f.status)
unfolding file_view_by ◌>>=◌
file_view_by-base m [] f w v h = ground arith
file_view_by-base m (x ∷ vs) f w v h = ground arith

-- The view of a file shows its id, its size and its status, and its making changes no row.
pub file_view-base :
    {D E : Type 0} (m : Media D E) (f : File) (w : World D E) (v : FileView)
    → (file_view m f w).0 ≡ ok v
    → (v.id ≡ f.id)
      × (v.size_bytes ≡ f.size_bytes)
      × (v.status ≡ f.status)
      × ((file_view m f w).1.db ≡ w.db)
file_view-base {D} m f w v h =
    let (same_id, same_size, same_status) =
      file_view_by-base m f.variants f w v (unfold file_view in h) in
    let kept = (file_view-Keeps m (λ (d : D). d ≡ w.db) f).at w (record { holds = refl }) in
    (same_id, same_size, same_status, kept.holds)

-- The object of the file `f` under `id` is accepted: its size is charged to the subject, and the row
-- has that size, and the status that the view shows.
pub record Accepted (id subject : Str) (f : File) (v : FileView) (s s' : State) : Type 0 where
  pub charge : quota_of subject s' ≡ charged (quota_of subject s) v.size_bytes
  pub stored : lookup id s'.files ≡ some (record f { size_bytes = v.size_bytes; status = v.status })
  pub status : v.status ≡ (if is_image f.content_type then FileStatus.pending else FileStatus.ready)

module _ {E : Type 0} (m : Media State E) (o g id etag : Str) (f : File) where
  abbrev done : ℤ → File
  done size = record f { size_bytes = size; status = FileStatus.ready }

  -- The world once the quota is charged and the row is marked.
  abbrev accepted : ℤ → World State E → World State E
  accepted size w = record w {
    db = record w.db {
      files = insert id (done size) w.db.files;
      quota =
          insert (quota_subject g o) (charged (quota_of (quota_subject g o) w.db) size) w.db.quota;
    };
  }

  accept_object-direct :
      (size : ℤ) (w : World State E) (v : FileView)
      → lookup id w.db.files ≡ some f
      → is_image f.content_type ≡ false
      → (accept_object (on_memory m) o g id f size w).0 ≡ ok v
      → accept_object (on_memory m) o g id f size w
        ≡ file_view (on_memory m) (done size) (accepted size w)
  unfolding accept_object Memory.add_quota Memory.mark_file_ready ◌>>=◌
  accept_object-direct size w v there plain h = ground arith

  accept_object-image :
      (size : ℤ) (w : World State E) (v : FileView)
      → lookup id w.db.files ≡ some f
      → is_image f.content_type ≡ true
      → (accept_object (on_memory m) o g id f size w).0 ≡ ok v
      → accept_object (on_memory m) o g id f size w
        ≡ (start_processing (on_memory m) id (done size) >>= λ shown. file_view (on_memory m) shown)
            (accepted size w)
  unfolding accept_object Memory.add_quota Memory.mark_file_ready ◌>>=◌
  accept_object-image size w v there image h = ground arith

  charged-quota :
      (size : ℤ) (w : World State E) (s : State)
      → s.quota ≡ (accepted size w).db.quota
      → quota_of (quota_subject g o) s ≡ charged (quota_of (quota_subject g o) w.db) size
  unfolding quota_of
  charged-quota size w s same = ground (
    arith,
    lookup-insert (quota_subject g o) (quota_subject g o)
        (charged (quota_of (quota_subject g o) w.db) size) w.db.quota,
  )

  there-done :
      (size : ℤ) (w : World State E) → lookup id (accepted size w).db.files ≡ some (done size)
  there-done size w = ground (arith, lookup-insert id id (done size) w.db.files)

  shown-Accepted :
      (size : ℤ) (w : World State E) (v : FileView) (s : State) (st : FileStatus)
      → v.size_bytes ≡ size
      → v.status ≡ st
      → st ≡ (if is_image f.content_type then FileStatus.pending else FileStatus.ready)
      → lookup id s.files ≡ some (record f { size_bytes = size; status = st })
      → s.quota ≡ (accepted size w).db.quota
      → (v.size_bytes ≡ size) × Accepted id (quota_subject g o) f v w.db s
  shown-Accepted size w v s st same_size same_status right stored same = (
    same_size,
    record {
      charge = rw same_size (charged-quota size w s same);
      stored = rw (same_size, same_status) stored;
      status = rw same_status right;
    },
  )

  -- What the charge and the processing's start leave behind.
  pub accept_object-Accepted :
      (size : ℤ) (w : World State E) (v : FileView)
      → lookup id w.db.files ≡ some f
      → (accept_object (on_memory m) o g id f size w).0 ≡ ok v
      → (v.size_bytes ≡ size)
        × Accepted id
            (quota_subject g o)
            f
            v
            w.db
            (accept_object (on_memory m) o g id f size w).1.db
  accept_object-Accepted size w v there h = elim (Bool-cases (is_image f.content_type)) [
    | inl image ↦
        let run = accept_object-image size w v there image h in
        let (shown, started, viewed) = bind-ok _ _ (accepted size w) (rw run at h) in
        let (row, used, same, _) =
          start_processing-state m o g id etag (done size) (done size) shown (accepted size w)
            (there-done size w) started in
        let (_, same_size, same_status, same_db) = file_view-base (on_memory m) shown _ v viewed in
        rw
          (
            run,
            bind_step (start_processing (on_memory m) id (done size))
                (λ x. file_view (on_memory m) x) (accepted size w) shown started,
          )
          (shown-Accepted size w v _ FileStatus.pending (rw same at same_size)
            (rw same at same_status) (rw image refl) (rw same_db row) (rw same_db used))
    | inr plain ↦
        let run = accept_object-direct size w v there plain h in
        let (_, same_size, same_status, same_db) =
          file_view-base (on_memory m) (done size) (accepted size w) v (rw run at h) in
        rw run (
          shown-Accepted size w v _ FileStatus.ready same_size same_status (rw plain refl)
            (rw same_db (there-done size w)) (rw same_db refl))
  ]

  pub complete_run :
      (w : World State E) (v : FileView)
      → lookup id w.db.files ≡ some f
      → (complete (on_memory m) o g id etag w).0 ≡ ok v
      → (other_file_owner o g f ≡ false)
        × (f.status ≡ FileStatus.pending)
        × (complete (on_memory m) o g id etag w
            ≡ (check_object (on_memory m) id f etag >>= λ size.
                  accept_object (on_memory m) o g id f size)
                w)
  unfolding complete Memory.get_file ◌>>=◌
  complete_run w v there h = ground arith

  -- On the memory store, when `Complete` succeeds on the file of an id, the caller owns the file, it
  -- was pending, the object's size is within the maximum, that size is charged to the subject, and
  -- the row has it as its size; the row's status is `ready`, or `pending` for an image.
  pub complete_lem :
      (w : World State E) (v : FileView)
      → lookup id w.db.files ≡ some f
      → (complete (on_memory m) o g id etag w).0 ≡ ok v
      → (other_file_owner o g f ≡ false)
        × (f.status ≡ FileStatus.pending)
        × (v.size_bytes ≤ℤ m.max_upload)
        × Accepted id (quota_subject g o) f v w.db (complete (on_memory m) o g id etag w).1.db
  complete_lem w v there h =
      let (mine, pending, run) = complete_run w v there h in
      let (size, checked, took) = bind-ok _ _ w (rw run at h) in
      let (same, fits) = check_object-state m o g id etag f w size checked in
      let (same_size, accepted_object) = accept_object-Accepted size _ v (rw same there) took in
      (
        mine,
        pending,
        rw same_size fits,
        rw
            (
              run,
              bind_step (check_object (on_memory m) id f etag)
                  (λ x. accept_object (on_memory m) o g id f x) w size checked,
            )
            (rw same at accepted_object),
      )
