-- ===== src/Service/Files/Deletion.antt =====
-- What `DeleteFile` leaves behind, on the memory store.
use pf_media.Base.{
  Str, ◌≡◌, ◌≢◌, ◌∙◌, ap, refl, none, some, [], ◌∷◌, arith, ◌==◌, str_eq, false, if◌then◌else◌,
}
use pf_media.Base.Dict.{
  Dict, AllValues, lookup, erase, erase_if, insert, lookup-erase, lookup-insert, erase_if-AllValues,
  lookup-erase_if_kept, lookup-erase_if-none,
}
use pf_media.Base.Int.{ℤ, pos, ◌<ℤ◌, ltb_ℤ, InInt64, add64, neg64, int_eq}
use pf_media.Domain.{File, Job, ShareLink, ok}
use pf_media.Exec.{World, ◌>>=◌, pure, in_db, attempt}
use pf_media.Exec.Runs.{bind_run, reject_run, in_db_run, in_ext_run}
use pf_media.Store.Memory
use pf_media.Store.Memory.{State, or_not_found, memory_store, quota_of}
use pf_media.ObjectKeys.{object_prefix}
use pf_media.Service.{Media, other_file_owner, quota_subject}
use pf_media.Service.Files.{delete_file, delete_owned_file}

-- The service on the memory store.
abbrev pub on_memory : {E : Type 0} → Media State E → Media State E
on_memory m = record m { store = memory_store }

-- The use that is left when a file's size is given back: never below 0.
abbrev pub refunded : ℤ → ℤ → ℤ
refunded used size =
    let left = add64 used (neg64 size) in if ltb_ℤ left (pos 0) then pos 0 else left

neg64_negative : (size : ℤ) → pos 0 <ℤ size → InInt64 size → ltb_ℤ (pos 0) (neg64 size) ≡ false
unfolding neg64
neg64_negative size p i = ground arith

-- A refund is never refused.
add_quota_refund :
    (subject : Str) (size limit : ℤ) (s : State)
    → pos 0 <ℤ size
    → InInt64 size
    → Memory.add_quota subject (neg64 size) limit s
      ≡ (ok tt, record s { quota = insert subject (refunded (quota_of subject s) size) s.quota })
unfolding Memory.add_quota
add_quota_refund subject size limit s p i = rw (neg64_negative size p i)

quota_of-insert :
    (subject : Str) (used : ℤ) (s : State)
    → quota_of subject (record s { quota = insert subject used s.quota }) ≡ used
unfolding quota_of
quota_of-insert subject used s = ground (arith, lookup-insert subject subject used s.quota)

quota_of-insert_ne :
    (x subject : Str) (used : ℤ) (s : State)
    → x ≢ subject
    → quota_of x (record s { quota = insert subject used s.quota }) ≡ quota_of x s
unfolding quota_of
quota_of-insert_ne x subject used s ne = ground (arith, lookup-insert x subject used s.quota)

-- The file is gone with its jobs and its share links, its size is given back to the subject, and the
-- rest is as it was: the other files, their jobs and their share links, the use of the other
-- subjects, and the folders.
pub record Deleted (id subject : Str) (size : ℤ) (s s' : State) : Type 0 where
  pub gone : lookup id s'.files ≡ none
  pub no_jobs : AllValues (λ (j : Job). j.file_id ≢ id) s'.jobs
  pub no_shares : AllValues (λ (l : ShareLink). l.file_id ≢ id) s'.shares
  pub refund : quota_of subject s' ≡ refunded (quota_of subject s) size
  pub others : (id' : Str) → id' ≢ id → lookup id' s'.files ≡ lookup id' s.files
  pub other_jobs :
      (k : Str) (j : Job) → j.file_id ≢ id → lookup k s.jobs ≡ some j → lookup k s'.jobs ≡ some j
  pub no_new_jobs : (k : Str) → lookup k s.jobs ≡ none → lookup k s'.jobs ≡ none
  pub other_shares :
      (k : Str) (l : ShareLink)
      → l.file_id ≢ id
      → lookup k s.shares ≡ some l
      → lookup k s'.shares ≡ some l
  pub no_new_shares : (k : Str) → lookup k s.shares ≡ none → lookup k s'.shares ≡ none
  pub other_use : (x : Str) → x ≢ subject → quota_of x s' ≡ quota_of x s
  pub folders_same : s'.folders ≡ s.folders

-- The store without the file, its jobs and its share links, with its size given back.
abbrev after_delete : Str → Str → ℤ → State → State
after_delete id subject size s = record s {
  files = erase id s.files;
  jobs = erase_if (λ (j : Job). j.file_id == id) s.jobs;
  shares = erase_if (λ (l : ShareLink). l.file_id == id) s.shares;
  quota = insert subject (refunded (quota_of subject s) size) s.quota;
}

pub quota_of-files :
    (subject : Str) (s t : State) → s.quota ≡ t.quota → quota_of subject s ≡ quota_of subject t
unfolding quota_of
quota_of-files subject s t e = rw e

unfoldable pub without_file : Str → State → State
without_file id s = record s {
  files = erase id s.files;
  jobs = erase_if (λ (j : Job). j.file_id == id) s.jobs;
  shares = erase_if (λ (l : ShareLink). l.file_id == id) s.shares;
}

pub memory_delete_file_run :
    (id : Str) (f : File) (s : State)
    → lookup id s.files ≡ some f
    → Memory.delete_file id s ≡ (ok tt, without_file id s)
unfolding Memory.delete_file without_file
memory_delete_file_run id f s there = rw (there, Memory.delete_file)

positive-ne : (size : ℤ) → pos 0 <ℤ size → (size == pos 0) ≡ false
positive-ne size h = ground arith

refund_run :
    {E : Type 0} (subject : Str) (size limit : ℤ) (w : World State E)
    → pos 0 <ℤ size
    → InInt64 size
    → (if size == pos 0 then pure tt else in_db (Memory.add_quota subject (neg64 size) limit)) w ≡ (
      ok tt,
      record w {
        db = record w.db {
          quota = insert subject (refunded (quota_of subject w.db) size) w.db.quota;
        };
      },
    )
refund_run subject size limit w positive int64 =
    rw (positive-ne size positive)
      (in_db_run _ w _ _ (add_quota_refund subject size limit w.db positive int64))

delete_owned_file_run :
    {E : Type 0} (m : Media State E) (o g : Str) (f : File) (w : World State E)
    → lookup f.id w.db.files ≡ some f
    → other_file_owner o g f ≡ false
    → pos 0 <ℤ f.size_bytes
    → InInt64 f.size_bytes
    → (m.objects.delete_prefix (object_prefix f.owner_sub f.id) w.ext).0 ≡ ok tt
    → delete_owned_file (on_memory m) o g f w ≡ (
      ok tt,
      record {
        db = after_delete f.id (quota_subject g o) f.size_bytes w.db;
        ext = (m.objects.delete_prefix (object_prefix f.owner_sub f.id) w.ext).1;
      },
    )
unfolding delete_owned_file without_file
delete_owned_file_run m o g f w there mine positive int64 removed =
    reject_run _ _ _ w mine
    ∙ bind_run _ _ w _ _ (in_ext_run _ w _ removed)
    ∙ bind_run _ _ _ tt _ (in_db_run _ _ _ _ (memory_delete_file_run f.id f w.db there))
    ∙ refund_run (quota_subject g o) f.size_bytes m.quota_limit _ positive int64
    ∙ ap
        (λ used. (
          ok tt,
          record {
            db = record (without_file f.id w.db) {
              quota = insert (quota_subject g o) (refunded used f.size_bytes) w.db.quota;
            };
            ext = (m.objects.delete_prefix (object_prefix f.owner_sub f.id) w.ext).1;
          },
        ))
        (quota_of-files (quota_subject g o) (without_file f.id w.db) w.db refl)

get_file_run :
    {E : Type 0} (id : Str) (f : File) (w : World State E)
    → lookup id w.db.files ≡ some f
    → attempt (in_db (Memory.get_file id)) w ≡ (ok (ok f), w)
unfolding Memory.get_file ◌>>=◌
get_file_run id f w there = rw (there, or_not_found)

pub delete_file_run :
    {E : Type 0} (m : Media State E) (o g : Str) (f : File) (w : World State E)
    → lookup f.id w.db.files ≡ some f
    → delete_file (on_memory m) o g f.id w ≡ delete_owned_file (on_memory m) o g f w
unfolding delete_file
delete_file_run m o g f w there = bind_run _ _ w (ok f) w (get_file_run f.id f w there)

AllValues-trivial : {V : Type 0} (d : Dict V) → AllValues (λ (v : V). Unit {0}) d
AllValues-trivial [] = tt
AllValues-trivial (_ ∷ d) = (tt, AllValues-trivial d)

after_delete-Deleted :
    (id subject : Str) (size : ℤ) (s : State)
    → Deleted id subject size s (after_delete id subject size s)
unfolding without_file
after_delete-Deleted id subject size s = record {
  gone = lookup-erase id id s.files ∙ ground arith;
  no_jobs =
      erase_if-AllValues (λ (j : Job). Unit {0}) (λ (j : Job). j.file_id ≢ id) _ s.jobs
        (λ j _ kept. ground arith) (AllValues-trivial s.jobs);
  no_shares =
      erase_if-AllValues (λ (l : ShareLink). Unit {0}) (λ (l : ShareLink). l.file_id ≢ id) _
        s.shares (λ l _ kept. ground arith) (AllValues-trivial s.shares);
  refund = quota_of-insert subject (refunded (quota_of subject s) size) _;
  others = λ id' ne. lookup-erase id' id s.files ∙ ground arith;
  other_jobs = λ k j ne there.
      lookup-erase_if_kept (λ (j : Job). j.file_id == id) k j s.jobs there (ground arith);
  no_new_jobs = λ k. lookup-erase_if-none (λ (j : Job). j.file_id == id) k s.jobs;
  other_shares = λ k l ne there.
      lookup-erase_if_kept (λ (l : ShareLink). l.file_id == id) k l s.shares there (ground arith);
  no_new_shares = λ k. lookup-erase_if-none (λ (l : ShareLink). l.file_id == id) k s.shares;
  other_use = λ x ne.
      quota_of-insert_ne x subject (refunded (quota_of subject s) size) (without_file id s) ne
      ∙ quota_of-files x (without_file id s) s refl;
  folders_same = refl;
}

-- On the memory store, when the caller owns the file and object storage removes its objects,
-- `DeleteFile` succeeds: the file is gone with its jobs and share links, its size (a positive int64)
-- is given back to its subject, and the other files, the jobs and share links of other files, the
-- use of other subjects and the folders are as they were.
pub delete_file_lem :
    {E : Type 0} (m : Media State E) (o g : Str) (f : File) (w : World State E)
    → lookup f.id w.db.files ≡ some f
    → other_file_owner o g f ≡ false
    → pos 0 <ℤ f.size_bytes
    → InInt64 f.size_bytes
    → (m.objects.delete_prefix (object_prefix f.owner_sub f.id) w.ext).0 ≡ ok tt
    → let (r, w') = delete_file (on_memory m) o g f.id w in
      (r ≡ ok tt) × Deleted f.id (quota_subject g o) f.size_bytes w.db w'.db
delete_file_lem m o g f w there mine positive int64 removed =
    rw
      (
        delete_file_run m o g f w there,
        delete_owned_file_run m o g f w there mine positive int64 removed,
      )
      (refl, after_delete-Deleted f.id (quota_subject g o) f.size_bytes w.db)
