-- ===== src/Store/Postgres/Integrity/Folders.antt =====
-- The keys and the references of the tables under the statements on folders.
use pf_media.Base.{
  Str, ℕ, ◌≡◌, refl, true, false, ◌&&◌, Option, none, some, List, [], ◌∷◌, arith, str_eq, ◌==◌, All,
  any,
}
use pf_media.Store.Postgres.Rows.{FolderRow, Tables, delete_where, is_value}
use pf_media.Store.Postgres.Statements
use pf_media.Store.Postgres.Statements.{
  folder_in_use, same_file, same_job, same_share, same_folder, file_there, has_folder, folder_there,
  overflows, checked,
}
use pf_media.Store.Postgres.Changing.{
  All-weaken, All-both, All-append, All-delete_where, any-delete_where, Distinct-append,
  Distinct-delete_where,
}
use pf_media.Store.Postgres.Keeping.{Post, Post-if}
use pf_media.Store.Postgres.Integrity.{Intact, Kept, Post-checked, folder_there-append}

module _ (t : Tables) (h : Intact t) where
  pub insert_folder-Kept : (d : FolderRow) → Post (λ _. Kept t) (Statements.insert_folder d t)
  unfolding Statements.insert_folder
  insert_folder-Kept d =
      Post-checked (λ _. Kept t) _ _ _ t
        λ free there. (
          record {
            files_keyed = h.files_keyed;
            jobs_keyed = h.jobs_keyed;
            shares_keyed = h.shares_keyed;
            folders_keyed = Distinct-append same_folder t.folders d free h.folders_keyed;
            jobs_refer = h.jobs_refer;
            shares_refer = h.shares_refer;
            files_placed =
                All-weaken _ _ t.files (λ f e. folder_there-append f.folder_id t.folders d e)
                  h.files_placed;
            folders_placed =
                All-append _ t.folders d
                  (All-weaken _ _ t.folders (λ x e. folder_there-append x.parent_id t.folders d e)
                    h.folders_placed)
                  (ground arith);
          },
          refl,
        )

  folder_ne :
      (id k : Str)
      → has_folder k t.folders ≡ true
      → (has_folder id t.folders && k == id) ≡ false
      → (k == id) ≡ false
  folder_ne id k e free = ground arith

  -- A folder that no row refers to goes, or was not there.
  folder_stays :
      (id : Str) (place : Option Str)
      → folder_there place t.folders ≡ true
      → (has_folder id t.folders && is_value place id) ≡ false
      → folder_there place (delete_where (λ (f : FolderRow). f.id == id) t.folders) ≡ true
  unfolding has_folder
  folder_stays id none e free = refl
  folder_stays id (some k) e free =
      let ne = folder_ne id k e free in any-delete_where _ _ t.folders (λ f e'. ground arith) e

  unreferred :
      {A : Type 0} (place : A → Option Str) (id : Str) (rows : List A)
      → (has_folder id t.folders && any (λ r. is_value (place r) id) rows) ≡ false
      → All (λ r. (has_folder id t.folders && is_value (place r) id) ≡ false) rows
  unfolding any
  unreferred place id [] e = tt
  unreferred place id (r ∷ rows) e = ground (arith, unreferred place id rows)

  stay :
      {A : Type 0} (place : A → Option Str) (id : Str) (rows : List A)
      → (has_folder id t.folders && any (λ r. is_value (place r) id) rows) ≡ false
      → All (λ r. folder_there (place r) t.folders ≡ true) rows
      → All
          (λ r.
            folder_there (place r) (delete_where (λ (f : FolderRow). f.id == id) t.folders) ≡ true)
          rows
  stay place id rows free there =
      All-weaken _ _ rows (λ r e. folder_stays id (place r) e.0 e.1)
        (All-both (λ r. folder_there (place r) t.folders ≡ true) _ rows there
          (unreferred place id rows free))

  pub remove_folder-Kept : (id : Str) → Post (λ _. Kept t) (Statements.remove_folder id t)
  unfolding Statements.remove_folder
  remove_folder-Kept id =
      let kept : folder_in_use id t ≡ false
          → Kept t (record t { folders = delete_where (λ (f : FolderRow). f.id == id) t.folders }) =
        λ free. (
          record {
            files_keyed = h.files_keyed;
            jobs_keyed = h.jobs_keyed;
            shares_keyed = h.shares_keyed;
            folders_keyed = Distinct-delete_where same_folder _ t.folders h.folders_keyed;
            jobs_refer = h.jobs_refer;
            shares_refer = h.shares_refer;
            files_placed = stay (λ f. f.folder_id) id t.files (ground arith) h.files_placed;
            folders_placed =
                All-delete_where _ _ _ t.folders (λ d e _. e)
                  (stay (λ d. d.parent_id) id t.folders (ground arith) h.folders_placed);
          },
          refl,
        ) in
      Post-if (λ (n : ℕ). Kept t) _ _ _ kept
