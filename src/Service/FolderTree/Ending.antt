-- ===== src/Service/FolderTree/Ending.antt =====
-- media.go: `DeleteFolder` over the memory store, with enough fuel.
use mathlib.Core.Path.{subst}
use pf_media.Base.{
  Str, ℕ, zero, suc, ◌<◌, ◌≡◌, refl, Bool, true, some, List, [], ◌∷◌, arith, ◌==◌, ◌&&◌, str_eq,
  nat_eq, length, All, keep, inl, inr, Bool-cases, if_both,
}
use pf_media.Base.Dict.{Dict, values, AllValues, AllEntries}
use pf_media.Base.Int.{int_eq}
use pf_media.Domain.{is_not_found, Result, ok, err, Folder}
use pf_media.Exec
use pf_media.Exec.{Exec, World, pure, raise, attempt, in_db, in_ext}
use pf_media.Exec.Keeps.{Keeps, On, keeps_rules}
use pf_media.Exec.Loop.{Loop, run}
use pf_media.Exec.Loop.Ending.{Ends, Ends-bind, Ends-run, Ended-step}
use pf_media.Store.Memory
use pf_media.Store.Memory.{State}
use pf_media.Store.Memory.Invariant.{FileKey}
use pf_media.Service.{Media}
use pf_media.Service.Files.Deletion.{on_memory}
use pf_media.Service.FolderTree
use pf_media.Service.FolderTree.{
  batch, each_child, delete_files, delete_batches, delete_folder_tree, delete_found, delete_folder,
}
use pf_media.Service.FolderTree.Emptying.{batches_end}
use pf_media.Service.FolderTree.Shrinking.{Shrinks, delete_folder-Shrinks, get_folder-Shrinks}

module _ {E : Type 0} (m : Media State E) (rank : Str → ℕ) (o g : Str) where
  each-Ends :
      (P : World State E → Type 0) (delete : Str → Loop (World State E) Unit) (fs : List Folder)
      → All (λ f. Ends P (delete f.id)) fs
      → Keeps P (pure {S = World State E} tt)
      → Ends P (each_child delete fs)
  unfolding each_child
  each-Ends P delete [] h k = Ends-run _ k
  each-Ends P delete (f ∷ fs) (h, t) k = Ends-bind (delete f.id) _ h λ _. each-Ends P delete fs t k

  abbrev child_of : Str → Folder → Bool
  child_of d f = f.owner_sub == o && f.org_id == g && f.parent_id == d

  child_parent : (d : Str) (f : Folder) → child_of d f ≡ true → f.parent_id ≡ d
  child_parent d f h = ground arith

  children_lower :
      (d : Str) (fs : Dict Folder)
      → AllValues (λ (f : Folder). rank f.id < rank f.parent_id) fs
      → All (λ f. rank f.id < rank d) (keep (child_of d) (values fs))
  unfolding keep values
  children_lower d [] h = tt
  children_lower d ((k, f) ∷ fs) (l, t) = elim (Bool-cases (child_of d f)) [
    | inl h ↦
        let under : rank f.id < rank d = rw (child_parent d f h) at l in
        rw h (under, children_lower d fs t)
    | inr h ↦ rw h (children_lower d fs t)
  ]

  listed_lower :
      (d : Str) (s : State) (fs : List Folder)
      → AllValues (λ (f : Folder). rank f.id < rank f.parent_id) s.folders
      → (Memory.list_folders o g d s).0 ≡ ok fs
      → All (λ f. rank f.id < rank d) fs
  unfolding Memory.list_folders
  listed_lower d s fs ranked e =
      let same : keep (child_of d) (values s.folders) ≡ fs = ground arith in
      subst (All (λ f. rank f.id < rank d)) same (children_lower d s.folders ranked)

  folders_same : (d : Str) (w : World State E) → (in_db (Memory.list_folders o g d) w).1 ≡ w
  unfolding Exec.◌>>=◌ Memory.list_folders
  folders_same d w = refl

  folders_listed :
      (d : Str) (w : World State E) (fs : List Folder)
      → (in_db (Memory.list_folders o g d) w).0 ≡ ok fs
      → (Memory.list_folders o g d w.db).0 ≡ ok fs
  unfolding Exec.◌>>=◌
  folders_listed d w fs e = e

  lower_end :
      (P : World State E → Type 0) (delete : Str → Loop (World State E) Unit) (n : ℕ)
      → ((d : Str) → rank d < n → Ends P (delete d))
      → (fs : List Folder) → All (λ f. rank f.id < n) fs
      → All (λ f. Ends P (delete f.id)) fs
  lower_end P delete n k [] t = tt
  lower_end P delete n k (f ∷ fs) (l, t) = (k f.id l, lower_end P delete n k fs t)

  tree-Ends :
      (depth rounds : ℕ) (d : Str)
      → rank d < depth
      → Ends (On (Shrinks rank rounds)) (delete_folder_tree (on_memory m) depth rounds o g d)
  unfolding delete_folder_tree
  tree-Ends zero rounds d h = absurd (omega arith)
  tree-Ends (suc depth) rounds d h = record {
    at = λ w v. Ended-step (in_db (Memory.list_folders o g d)) _ w (rw (folders_same d w) v) λ fs e.
        let lower = listed_lower d w.db fs v.holds.ranked (folders_listed d w fs e) in
        rw (folders_same d w) (
          (Ends-bind _ _
              (each-Ends _ _ fs
                (lower_end _ _ (rank d) (λ c l. tree-Ends depth rounds c (omega arith)) fs lower)
                (search keeps_rules))
              λ _.
                Ends-bind _ _ (batches_end m rank o g rounds rounds d (omega arith))
                  λ _. Ends-run _ (search (keeps_rules, delete_folder-Shrinks))).at
            w v);
  }

  found-Ends :
      (depth rounds : ℕ) (d : Str)
      → rank d < depth
      → (r : Result Folder)
      → Ends (On (Shrinks rank rounds)) (FolderTree.delete_found (on_memory m) depth rounds o g d r)
  found-Ends depth rounds d h (ok f) =
      Ends-bind _ _ (Ends-run _ (search keeps_rules)) λ _. tree-Ends depth rounds d h
  found-Ends depth rounds d h (err e) =
      if_both (Ends (On (Shrinks rank rounds))) (is_not_found e) (run (pure tt)) (run (raise e))
        (Ends-run _ (search keeps_rules)) (Ends-run _ (search keeps_rules))

  folder-Ends :
      (depth rounds : ℕ) (d : Str)
      → rank d < depth
      → Ends (On (Shrinks rank rounds)) (delete_folder (on_memory m) depth rounds o g d)
  unfolding delete_folder
  folder-Ends depth rounds d h =
      Ends-bind _ _ (Ends-run _ (search (keeps_rules, get_folder-Shrinks)))
        λ r. found-Ends depth rounds d h r

-- Over the memory store, `DeleteFolder` ends: the fuel is enough when `rounds` is more than the number
-- of files, and `depth` more than the rank of the folder, for any rank that is lower at each folder
-- than at its parent, so that no folder is below itself. The table of files is keyed by their ids.
pub delete_folder_total :
    {E : Type 0} (m : Media State E) (rank : Str → ℕ) (o g : Str) (depth rounds : ℕ) (d : Str)
    (w : World State E)
    → AllEntries FileKey w.db.files
    → AllValues (λ (f : Folder). rank f.id < rank f.parent_id) w.db.folders
    → rank d < depth
    → length w.db.files < rounds
    → (r : Result (Unit {0})) × (w' : World State E) × (delete_folder
          (on_memory m)
          depth
          rounds
          o
          g
          d
          w
        ≡ some (r, w'))
delete_folder_total m rank o g depth rounds d w keyed ranked deep few =
    let start : On (Shrinks rank rounds) w = record {
      holds = record { keyed = keyed; few = few; ranked = ranked };
    } in
    let (r, w', e, _) = (folder-Ends m rank o g depth rounds d deep).at w start in (r, w', e)
