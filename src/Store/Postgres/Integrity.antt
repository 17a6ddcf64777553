-- ===== src/Store/Postgres/Integrity.antt =====
-- The keys and the references of the tables under the statements on the files of the Postgres store.
pub mod Children
pub mod Folders
use pf_media.Base.{
  Str, ℕ, ◌≡◌, refl, Bool, true, false, ◌&&◌, ◌||◌, not, Option, none, some, List, [], ◌∷◌, ◌++◌,
  arith, str_eq, ◌==◌, if◌then◌else◌, All, any, keep, Option-cases, if_both, Bool-cases, inl, inr,
}
use pf_media.Base.Int.{ℤ}
use pf_media.Domain.{JobStatus, Time}
use pf_media.Store.Postgres.Rows.{
  first, QuotaRow, FileRow, JobRow, ShareRow, FolderRow, Tables, Failure, Outcome, done, Statement,
  update_where, delete_where, is_value,
}
use pf_media.Store.Postgres.Statements
use pf_media.Store.Postgres.Statements.{
  same_file, same_job, same_share, same_folder, file_there, has_folder, folder_there, overflows,
  checked,
}
use pf_media.Store.Postgres.Changing.{
  Distinct, All-weaken, All-both, All-append, All-update_where, All-delete_where, any-append,
  any-update_where, any-delete_where, Distinct-append, Distinct-update_where, Distinct-delete_where,
}
use pf_media.Store.Postgres.Keeping.{Post, Post-if}

-- No two rows have one key, jobs and links belong to files that are stored, and files and folders
-- lie in folders that are.
pub record Intact (t : Tables) : Type 0 where
  pub files_keyed : Distinct same_file t.files
  pub jobs_keyed : Distinct same_job t.jobs
  pub shares_keyed : Distinct same_share t.share_links
  pub folders_keyed : Distinct same_folder t.folders
  pub jobs_refer : All (λ j. file_there j.file_id t.files ≡ true) t.jobs
  pub shares_refer : All (λ l. file_there l.file_id t.files ≡ true) t.share_links
  pub files_placed : All (λ f. folder_there f.folder_id t.folders ≡ true) t.files
  pub folders_placed : All (λ d. folder_there d.parent_id t.folders ≡ true) t.folders

-- What a statement that leaves the quota alone makes of intact tables.
abbrev pub Kept : Tables → Tables → Type 0
Kept t t' = Intact t' × (t'.user_quota ≡ t.user_quota)

pub Post-checked :
    {A : Type 0} (Q : A → Tables → Type 0) (taken dangling : Bool) (r : A × Tables) (t : Tables)
    → (taken ≡ false → dangling ≡ false → Q r.0 r.1)
    → Post Q (checked taken dangling r t)
Post-checked Q true dangling r t k = tt
Post-checked Q false true r t k = tt
Post-checked Q false false r t k = k refl refl

file_there-append :
    (id : Str) (files : List FileRow) (f : FileRow)
    → file_there id files ≡ true
    → file_there id (files ++ (f ∷ [])) ≡ true
unfolding file_there
file_there-append id files f h = any-append _ files f h

pub folder_there-append :
    (id : Option Str) (folders : List FolderRow) (d : FolderRow)
    → folder_there id folders ≡ true
    → folder_there id (folders ++ (d ∷ [])) ≡ true
unfolding has_folder
folder_there-append none folders d h = refl
folder_there-append (some id) folders d h = any-append _ folders d h

module _ (t : Tables) (h : Intact t) where
  pub insert_file-Kept : (f : FileRow) → Post (λ _. Kept t) (Statements.insert_file f t)
  unfolding Statements.insert_file
  insert_file-Kept f =
      Post-checked (λ _. Kept t) _ _ _ t
        λ free there. (
          record {
            files_keyed = Distinct-append same_file t.files f free h.files_keyed;
            jobs_keyed = h.jobs_keyed;
            shares_keyed = h.shares_keyed;
            folders_keyed = h.folders_keyed;
            jobs_refer =
                All-weaken _ _ t.jobs (λ j e. file_there-append j.file_id t.files f e) h.jobs_refer;
            shares_refer =
                All-weaken _ _ t.share_links (λ l e. file_there-append l.file_id t.files f e)
                  h.shares_refer;
            files_placed = All-append _ t.files f h.files_placed (ground arith);
            folders_placed = h.folders_placed;
          },
          refl,
        )

  -- An UPDATE of a file leaves its keys and its folder alone.
  pub update_file-Kept :
      (id : Str) (change : FileRow → FileRow)
      → ((f : FileRow) → (change f).id ≡ f.id)
      → ((f : FileRow) → (change f).object_key ≡ f.object_key)
      → ((f : FileRow) → (change f).folder_id ≡ f.folder_id)
      → Post (λ _. Kept t) (Statements.update_file id change t)
  unfolding Statements.update_file file_there
  update_file-Kept id change same_id same_key same_place =
      let there = λ (k : Str).
        any-update_where (λ (f : FileRow). f.id == k) (λ f. f.id == id) change t.files
          (λ f. rw (same_id f) refl) in
      (
        record {
          files_keyed =
              Distinct-update_where same_file _ change t.files
                (λ r s. rw (same_id r, same_key r) refl) (λ r s. rw (same_id s, same_key s) refl)
                h.files_keyed;
          jobs_keyed = h.jobs_keyed;
          shares_keyed = h.shares_keyed;
          folders_keyed = h.folders_keyed;
          jobs_refer = All-weaken _ _ t.jobs (λ j e. rw (there j.file_id) e) h.jobs_refer;
          shares_refer =
              All-weaken _ _ t.share_links (λ l e. rw (there l.file_id) e) h.shares_refer;
          files_placed =
              All-update_where _ _ _ change t.files (λ f e _. rw (same_place f) e) (λ f e _. e)
                h.files_placed;
          folders_placed = h.folders_placed;
        },
        refl,
      )

  -- A file that a row refers to goes only with the row.
  file_stays :
      (id k : Str)
      → file_there k t.files ≡ true
      → (k == id) ≡ false
      → file_there k (delete_where (λ (f : FileRow). f.id == id) t.files) ≡ true
  unfolding file_there
  file_stays id k e ne = any-delete_where _ _ t.files (λ f e'. ground arith) e

  no_reference :
      (id k : Str) → file_there id t.files ≡ false → file_there k t.files ≡ true → (k == id) ≡ false
  no_reference id k e e' = ground arith

  remaining_jobs :
      (id : Str)
      → All
          (λ (j : JobRow). (j.file_id == id) ≡ false × file_there j.file_id t.files ≡ true)
          (if file_there id t.files
            then delete_where (λ (j : JobRow). j.file_id == id) t.jobs
            else t.jobs)
  remaining_jobs id = elim (Bool-cases (file_there id t.files)) [
    | inl e ↦ rw e (All-delete_where _ _ _ t.jobs (λ j e' ne. (ne, e')) h.jobs_refer)
    | inr e ↦
        rw e (All-weaken _ _ t.jobs (λ j e'. (no_reference id j.file_id e e', e')) h.jobs_refer)
  ]

  remaining_shares :
      (id : Str)
      → All
          (λ (l : ShareRow). (l.file_id == id) ≡ false × file_there l.file_id t.files ≡ true)
          (if file_there id t.files
            then delete_where (λ (l : ShareRow). l.file_id == id) t.share_links
            else t.share_links)
  remaining_shares id = elim (Bool-cases (file_there id t.files)) [
    | inl e ↦ rw e (All-delete_where _ _ _ t.share_links (λ l e' ne. (ne, e')) h.shares_refer)
    | inr e ↦
        rw e (
          All-weaken _ _ t.share_links (λ l e'. (no_reference id l.file_id e e', e'))
            h.shares_refer)
  ]

  pub remove_file-Kept : (id : Str) → Post (λ _. Kept t) (Statements.remove_file id t)
  unfolding Statements.remove_file
  remove_file-Kept id = (
    record {
      files_keyed = Distinct-delete_where same_file _ t.files h.files_keyed;
      jobs_keyed =
          if_both (Distinct same_job) (file_there id t.files) _ t.jobs
            (Distinct-delete_where same_job _ t.jobs h.jobs_keyed) h.jobs_keyed;
      shares_keyed =
          if_both (Distinct same_share) (file_there id t.files) _ t.share_links
            (Distinct-delete_where same_share _ t.share_links h.shares_keyed) h.shares_keyed;
      folders_keyed = h.folders_keyed;
      jobs_refer = All-weaken _ _ _ (λ j e. file_stays id j.file_id e.1 e.0) (remaining_jobs id);
      shares_refer =
          All-weaken _ _ _ (λ l e. file_stays id l.file_id e.1 e.0) (remaining_shares id);
      files_placed = All-delete_where _ _ _ t.files (λ f e _. e) h.files_placed;
      folders_placed = h.folders_placed;
    },
    refl,
  )
