-- ===== src/Store/Memory/Invariant.antt =====
-- What holds of the memory store between two calls of its methods.
use pf_media.Base.{Str, ◌≡◌, arith, Option-cases, str_eq, ◌==◌, inl, inr}
use pf_media.Base.Dict.{
  AllEntries, insert-AllEntries, erase-AllEntries, erase_if-AllEntries, lookup-AllEntries, lookup,
}
use pf_media.Base.Int.{ℤ, pos, ◌≤ℤ◌, InInt64}
use pf_media.Domain.{File, Job, JobStatus, ShareLink, Folder, Time}
use pf_media.Exec.Keeps.{Keeps}
use pf_media.Store.Memory
use pf_media.Store.Memory.{State, memory_store, update_file}
use pf_media.Store.Memory.Budget.{InBudget, add_quota-InBudget}
use pf_media.Store.Memory.Siblings.{
  SiblingsApart, create_folder-SiblingsApart, delete_folder-SiblingsApart,
}

abbrev pub FileKey : Str → File → Type 0
FileKey k f = f.id ≡ k

abbrev pub JobKey : Str → Job → Type 0
JobKey k j = j.id ≡ k

abbrev pub ShareKey : Str → ShareLink → Type 0
ShareKey k l = l.token ≡ k

abbrev pub FolderKey : Str → Folder → Type 0
FolderKey k f = f.id ≡ k

-- The quota is in its bounds, siblings have different names, and each table is keyed by the id, or
-- the token, of its rows.
pub record Inv (limit : ℤ) (s : State) : Type 0 where
  pub budget : InBudget limit s
  pub siblings : SiblingsApart s
  pub files_keyed : AllEntries FileKey s.files
  pub jobs_keyed : AllEntries JobKey s.jobs
  pub shares_keyed : AllEntries ShareKey s.shares
  pub folders_keyed : AllEntries FolderKey s.folders

pub new-Inv : (limit : ℤ) → Inv limit Memory.new
new-Inv limit = record {
  budget = record { within = tt };
  siblings = record { apart = tt };
  files_keyed = tt;
  jobs_keyed = tt;
  shares_keyed = tt;
  folders_keyed = tt;
}

module _ (limit : ℤ) where
  -- A change that leaves the id alone keeps the table of files keyed.
  pub update_file-Inv :
      (id : Str) (change : File → File)
      → ((f : File) → (change f).id ≡ f.id)
      → Keeps (Inv limit) (update_file id change)
  update_file-Inv id change same = record {
    at = λ s v. elim (Option-cases (lookup id s.files)) [
      | inl e ↦ ground arith
      | inr (f, e) ↦ ground (
        arith,
        same f,
        lookup-AllEntries FileKey id s.files f v.files_keyed,
        insert-AllEntries FileKey id (change f) s.files,
      )
    ];
  }

  pub create_pending_file-Inv : (f : File) → Keeps (Inv limit) (Memory.create_pending_file f)
  unfolding Memory.create_pending_file
  create_pending_file-Inv f = record {
    at = λ s v. ground (arith, insert-AllEntries FileKey f.id f s.files);
  }

  pub create_job-Inv : (j : Job) → Keeps (Inv limit) (Memory.create_job j)
  unfolding Memory.create_job
  create_job-Inv j = record { at = λ s v. ground (arith, insert-AllEntries JobKey j.id j s.jobs) }

  pub update_job-Inv :
      (t : Time) (id : Str) (st : JobStatus) (e : Str)
      → Keeps (Inv limit) (Memory.update_job t id st e)
  unfolding Memory.update_job
  update_job-Inv t id st message = record {
    at = λ s v. elim (Option-cases (lookup id s.jobs)) [
      | inl e ↦ ground arith
      | inr (j, e) ↦ ground (
        arith,
        lookup-AllEntries JobKey id s.jobs j v.jobs_keyed,
        insert-AllEntries JobKey id (record j { status = st; error = message; updated_at = t })
            s.jobs,
      )
    ];
  }

  pub add_quota-Inv :
      (subject : Str) (delta : ℤ)
      → pos 0 ≤ℤ limit
      → InInt64 limit
      → InInt64 delta
      → Keeps (Inv limit) (Memory.add_quota subject delta limit)
  add_quota-Inv subject delta h l d = record {
    at = λ s v.
        let b = (add_quota-InBudget limit subject delta h l d).at s v.budget in
        unfold Memory.add_quota in ground arith;
  }

  pub delete_file-Inv : (id : Str) → Keeps (Inv limit) (Memory.delete_file id)
  unfolding Memory.delete_file
  delete_file-Inv id = record {
    at = λ s v. ground (
      arith,
      erase-AllEntries FileKey id s.files v.files_keyed,
      erase_if-AllEntries JobKey (λ j. j.file_id == id) s.jobs v.jobs_keyed,
      erase_if-AllEntries ShareKey (λ l. l.file_id == id) s.shares v.shares_keyed,
    );
  }

  pub create_share_link-Inv : (l : ShareLink) → Keeps (Inv limit) (Memory.create_share_link l)
  unfolding Memory.create_share_link
  create_share_link-Inv l = record {
    at = λ s v. ground (arith, insert-AllEntries ShareKey l.token l s.shares);
  }

  pub delete_share_link-Inv : (t : Str) → Keeps (Inv limit) (Memory.delete_share_link t)
  unfolding Memory.delete_share_link
  delete_share_link-Inv t = record {
    at = λ s v. ground (arith, erase-AllEntries ShareKey t s.shares v.shares_keyed);
  }

  pub create_folder-Inv : (f : Folder) → Keeps (Inv limit) (Memory.create_folder f)
  create_folder-Inv f = record {
    at = λ s v.
        let a = (create_folder-SiblingsApart f).at s v.siblings in
        unfold Memory.create_folder in ground (arith, insert-AllEntries FolderKey f.id f s.folders);
  }

  pub delete_folder-Inv : (id : Str) → Keeps (Inv limit) (Memory.delete_folder id)
  delete_folder-Inv id = record {
    at = λ s v.
        let a = (delete_folder-SiblingsApart id).at s v.siblings in
        unfold Memory.delete_folder in
        ground (arith, erase-AllEntries FolderKey id s.folders v.folders_keyed);
  }
