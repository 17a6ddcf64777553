-- ===== src/Service/FolderTree.antt =====
-- media.go: `DeleteFolder`, with the recursion over subfolders and the loop over batches of files.
pub mod Shrinking
pub mod Emptying
pub mod Ending
use pf_media.Base.{
  Str, ℕ, zero, suc, List, [], ◌∷◌, if◌then◌else◌, ◌==◌, nat_eq, str_eq, ltb, length,
}
use pf_media.Domain.{forbidden, Result, ok, err, is_not_found, File, Folder}
use pf_media.Exec
use pf_media.Exec.{Exec, World, pure, raise, reject_if, attempt, in_db}
use pf_media.Exec.Loop.{Loop, run, out_of_fuel, ◌>>=◌, ◌>>◌}
use pf_media.Service.{Media, other_folder_owner}
use pf_media.Service.Files.{delete_file}

abbrev pub batch : ℕ
batch = 100

-- The loop over the subfolders, given the deletion of one.
unfoldable pub each_child : {S : Type 0} → (Str → Loop S Unit) → List Folder → Loop S Unit
each_child delete [] = run (pure tt)
each_child delete (child ∷ children) = do delete child.id; each_child delete children

module _ {D E : Type 0} (m : Media D E) where
  open m use {store}

  -- The loop over one batch of files: the first error ends it.
  unfoldable pub delete_files : Str → Str → List File → Exec (World D E) Unit
  delete_files owner_sub org_id [] = pure tt
  delete_files owner_sub org_id (f ∷ fs) =
      Exec.◌>>◌ (delete_file m owner_sub org_id f.id) (delete_files owner_sub org_id fs)

  -- The loop over the batches; each round takes one unit of fuel.
  unfoldable pub delete_batches : ℕ → Str → Str → Str → Loop (World D E) Unit
  delete_batches zero owner_sub org_id folder_id = out_of_fuel
  delete_batches (suc fuel) owner_sub org_id folder_id = do
    files ← run (in_db (store.list_files_by_owner owner_sub org_id folder_id batch))
    let more = delete_batches fuel owner_sub org_id folder_id
    if length files == 0 then run (pure tt) else do
      run (delete_files owner_sub org_id files)
      if ltb (length files) batch then run (pure tt) else more

  -- `depth` bounds the nesting of folders, `rounds` the batches of one folder.
  unfoldable pub delete_folder_tree : ℕ → ℕ → Str → Str → Str → Loop (World D E) Unit
  delete_folder_tree zero rounds owner_sub org_id folder_id = out_of_fuel
  delete_folder_tree (suc depth) rounds owner_sub org_id folder_id = do
    children ← run (in_db (store.list_folders owner_sub org_id folder_id))
    each_child (delete_folder_tree depth rounds owner_sub org_id) children
    delete_batches rounds owner_sub org_id folder_id
    run (in_db (store.delete_folder folder_id))

  -- What `DeleteFolder` does with the answer of `GetFolder`.
  abbrev pub delete_found : ℕ → ℕ → Str → Str → Str → Result Folder → Loop (World D E) Unit
  delete_found depth rounds owner_sub org_id folder_id (ok f) = do
    run (reject_if (other_folder_owner owner_sub org_id f) forbidden)
    delete_folder_tree depth rounds owner_sub org_id folder_id
  delete_found depth rounds owner_sub org_id folder_id (err e) =
      if is_not_found e then run (pure tt) else run (raise e)

  unfoldable pub delete_folder : ℕ → ℕ → Str → Str → Str → Loop (World D E) Unit
  delete_folder depth rounds owner_sub org_id folder_id = do
    r ← run (attempt (in_db (store.get_folder folder_id)))
    delete_found depth rounds owner_sub org_id folder_id r
