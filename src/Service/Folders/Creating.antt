-- ===== src/Service/Folders/Creating.antt =====
-- What `CreateFolder` stores, on the memory store.
use pf_media.Base.{
  Str, ◌≤◌, ◌≡◌, ◌≢◌, none, some, [], arith, str_eq, codes, length, true, false, any,
}
use pf_media.Base.Dict.{lookup, insert, values}
use pf_media.Base.Text.{trim_space, contains_any}
use pf_media.Domain.{Folder, ok}
use pf_media.Exec.{World, ◌>>=◌}
use pf_media.Store.Memory
use pf_media.Store.Memory.{State, same_place}
use pf_media.Service.{Media, ensure_owned_folder, other_folder_owner}
use pf_media.Service.Files.Deletion.{on_memory}
use pf_media.Service.Folders.{FolderView, create_folder, folder_name_ok, separators}

-- The name of a folder is a single component of a path.
pub record IsComponent (name : Str) : Type 0 where
  pub trimmed : name ≡ trim_space name
  pub not_empty : name ≢ []
  pub not_here : name ≢ codes "."
  pub not_parent : name ≢ codes ".."
  pub short : length name ≤ 64
  pub no_separator : contains_any name separators ≡ false

folder_name_ok-IsComponent : (name : Str) → folder_name_ok name ≡ true → IsComponent name
unfolding folder_name_ok
folder_name_ok-IsComponent name h = record {
  trimmed = ground arith;
  not_empty = ground arith;
  not_here = ground arith;
  not_parent = ground arith;
  short = ground arith;
  no_separator = ground arith;
}

module _ {E : Type 0} (m : Media State E) (o g name parent : Str) (w : World State E) where
  abbrev pub new_folder : Folder
  new_folder =
      let (now, e) = m.system.now w.ext in
      record {
        id = (m.system.new_id e).0;
        owner_sub = o;
        org_id = g;
        parent_id = parent;
        name = name;
        created_at = now;
      }

  create_folder-ok :
      (v : FolderView)
      → (create_folder (on_memory m) o g name parent w).0 ≡ ok v
      → (folder_name_ok name ≡ true)
        × (v.id ≡ new_folder.id)
        × (lookup v.id w.db.folders ≡ none)
        × (any (same_place new_folder) (values w.db.folders) ≡ false)
        × ((create_folder (on_memory m) o g name parent w).1.db
            ≡ record w.db { folders = insert v.id new_folder w.db.folders })
  unfolding create_folder ensure_owned_folder Memory.get_folder Memory.create_folder ◌>>=◌
  create_folder-ok v h = ground arith

  -- On the memory store, when `CreateFolder` succeeds, the name is a single component of a path, the
  -- new id was not in use, no folder had this owner, organisation, parent and name, and the only
  -- change to the database is the new folder.
  pub create_folder_lem :
      (v : FolderView)
      → (create_folder (on_memory m) o g name parent w).0 ≡ ok v
      → IsComponent name
        × (v.id ≡ new_folder.id)
        × (lookup v.id w.db.folders ≡ none)
        × (any (same_place new_folder) (values w.db.folders) ≡ false)
        × ((create_folder (on_memory m) o g name parent w).1.db
            ≡ record w.db { folders = insert v.id new_folder w.db.folders })
  create_folder_lem v h =
      let (name_ok, same, fresh, apart, stored) = create_folder-ok v h in
      (folder_name_ok-IsComponent name name_ok, same, fresh, apart, stored)

  -- On the memory store, when `CreateFolder` succeeds under a stored folder, the caller owns that
  -- folder.
  pub create_folder-parent :
      (v : FolderView) (p : Folder)
      → parent ≢ []
      → lookup parent w.db.folders ≡ some p
      → (create_folder (on_memory m) o g name parent w).0 ≡ ok v
      → other_folder_owner o g p ≡ false
  unfolding create_folder ensure_owned_folder Memory.get_folder ◌>>=◌
  create_folder-parent v p nested there h = ground arith
