-- ===== src/Service/Preserved/Trees.antt =====
-- The deletion of folders.
use pf_media.Base.{Str, ℕ, zero, suc, List, [], ◌∷◌, ◌==◌, nat_eq, ltb, length}
use pf_media.Domain.{ok, err, File, Folder}
use pf_media.Exec.{pure}
use pf_media.Exec.Keeps.{Keeps, On, Keeps-bind, keeps_rules}
use pf_media.Exec.Loop.{
  Loop, run, KeepsLoop, KeepsLoop-run, KeepsLoop-if, KeepsLoop-bind, loop_rules,
}
use pf_media.Service.{Media}
use pf_media.Service.FolderTree.{
  batch, delete_files, delete_batches, each_child, delete_folder_tree, delete_found, delete_folder,
}
use pf_media.Service.Preserved.{Keeper, delete_file-Keeps}

each_child-Keeps :
    {S : Type 0} {P : S → Type 0} (delete : Str → Loop S Unit) (fs : List Folder)
    → ((id : Str) → KeepsLoop P (delete id))
    → KeepsLoop P (each_child delete fs)
unfolding each_child
each_child-Keeps delete [] kd = search (loop_rules, keeps_rules)
each_child-Keeps delete (f ∷ fs) kd =
    KeepsLoop-bind _ _ (kd f.id) λ _. each_child-Keeps delete fs kd

module _ {D E : Type 0} (m : Media D E) {o g : Str} {Free : Str → Type 0} {P : D → Type 0}
    (k : Keeper m.store m.quota_limit o g Free P) where
  delete_files-Keeps : (fs : List File) → Keeps (On P) (delete_files m o g fs)
  unfolding delete_files
  delete_files-Keeps [] = search keeps_rules
  delete_files-Keeps (f ∷ fs) =
      Keeps-bind _ _ (delete_file-Keeps m k f.id) λ _. delete_files-Keeps fs

  delete_batches-Keeps : (n : ℕ) (d : Str) → KeepsLoop (On P) (delete_batches m n o g d)
  unfolding delete_batches
  delete_batches-Keeps zero d = search loop_rules
  delete_batches-Keeps (suc n) d =
      KeepsLoop-bind _ _ (search (loop_rules, keeps_rules, k.list_files_by_owner)) λ files.
        KeepsLoop-if (length files == 0) (run (pure tt)) _ ended (
          KeepsLoop-bind (run (delete_files m o g files)) _
            (KeepsLoop-run _ (delete_files-Keeps files))
            λ _.
              KeepsLoop-if (ltb (length files) batch) (run (pure tt)) _ ended
                (delete_batches-Keeps n d))
    where
      ended : KeepsLoop (On {E = E} P) (run (pure tt))
      ended = search (loop_rules, keeps_rules)

  delete_folder_tree-Keeps :
      (depth rounds : ℕ) (d : Str) → KeepsLoop (On P) (delete_folder_tree m depth rounds o g d)
  unfolding delete_folder_tree
  delete_folder_tree-Keeps zero rounds d = search loop_rules
  delete_folder_tree-Keeps (suc depth) rounds d =
      KeepsLoop-bind _ _ (search (loop_rules, keeps_rules, k.list_folders)) λ children.
        KeepsLoop-bind _ _
          (each_child-Keeps _ children (λ id. delete_folder_tree-Keeps depth rounds id))
          λ _. search (loop_rules, keeps_rules, delete_batches-Keeps, k.delete_folder)

  pub delete_folder-Keeps :
      (depth rounds : ℕ) (d : Str) → KeepsLoop (On P) (delete_folder m depth rounds o g d)
  unfolding delete_folder
  delete_folder-Keeps depth rounds d =
      KeepsLoop-bind _ _ (search (loop_rules, keeps_rules, k.get_folder)) λ r.
        elim r as (λ r. KeepsLoop (On P) (delete_found m depth rounds o g d r)) [
          | ok f ↦ search (loop_rules, keeps_rules, delete_folder_tree-Keeps)
          | err e ↦ search (loop_rules, keeps_rules)
        ]
