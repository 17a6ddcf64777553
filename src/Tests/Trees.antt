-- ===== src/Tests/Trees.antt =====
-- The deletion of a folder that has a folder with a file in it.
use pf_media.Base.{
  Str, ℕ, ◌<◌, [], ◌∷◌, some, codes, arith, ◌≡◌, refl, ◌==◌, str_eq, if◌then◌else◌, str_discrete,
}
use pf_media.Base.Dict.{AllValues}
use pf_media.Domain.{Result, Folder}
use pf_media.Exec.{World}
use pf_media.Store.Memory
use pf_media.Store.Memory.{State}
use pf_media.Service.Files.Deletion.{on_memory}
use pf_media.Service.FolderTree.{delete_folder}
use pf_media.Service.FolderTree.Ending.{delete_folder_total}
use pf_media.Tests.Demo.{demo, alice, acme, photo}

-- A folder with a folder in it, and the photo in that one.
abbrev folder_in : Str → Str → Folder
folder_in id parent_id = record {
  id = id;
  owner_sub = alice;
  org_id = acme;
  parent_id = parent_id;
  name = id;
  created_at = 0;
}

abbrev with_tree : World State ℕ
with_tree = record {
  db = record Memory.new {
    files = (codes "f", record photo { folder_id = codes "q" }) ∷ [];
    folders =
        (codes "p", folder_in (codes "p") []) ∷ (codes "q", folder_in (codes "q") (codes "p")) ∷ [];
  };
  ext = 1;
}

abbrev tree_rank : Str → ℕ
tree_rank id = if id == codes "q" then 0 else if id == codes "p" then 1 else 2

tree_ranked :
    AllValues (λ (f : Folder). tree_rank f.id < tree_rank f.parent_id) with_tree.db.folders
unfolding str_discrete
tree_ranked = (omega arith, (omega arith, tt))

delete_folder_total_example :
    (r : Result (Unit {0})) × (w : World State ℕ) × (delete_folder
        (on_memory demo)
        2
        2
        alice
        acme
        (codes "p")
        with_tree
      ≡ some (r, w))
delete_folder_total_example =
    delete_folder_total demo tree_rank alice acme 2 2 (codes "p") with_tree (refl, tt) tree_ranked
      (unfold str_discrete in omega arith) (omega arith)
