-- ===== src/Service/Folders.antt =====
-- media.go: folders.
pub mod Creating
use pf_media.Base.{
  Str, Bool, true, false, not, ◌||◌, List, [], ◌∷◌, map, if◌then◌else◌, ◌==◌, ◌/=◌, nat_eq, str_eq,
  ltb, codes, length,
}
use pf_media.Base.Text.{trim_space, contains_any}
use pf_media.Domain.{forbidden, invalid, Time, Folder}
use pf_media.Exec.{Exec, World, ◌>>=◌, ◌>>◌, pure, reject_if, in_db, in_sys}
use pf_media.Service.{Media, other_folder_owner, ensure_owned_folder}

pub record FolderView : Type 0 where
  pub id : Str
  pub parent_id : Str
  pub name : Str
  pub created_at : Time

abbrev pub folder_view : Folder → FolderView
folder_view f = record {
  id = f.id;
  parent_id = f.parent_id;
  name = f.name;
  created_at = f.created_at;
}

-- The separators of paths, "/\".
abbrev pub separators : Str
separators = b'/' ∷ 0x5c ∷ []

unfoldable pub folder_name_ok : Str → Bool
unfolding trim_space contains_any
folder_name_ok name =
    if name /= trim_space name
    then false
    else if name == [] || name == codes "." || name == codes ".." || ltb 64 (length name)
    then false
    else if contains_any name separators
    then false
    else true

module _ {D E : Type 0} (m : Media D E) where
  open m use {store, system}

  unfoldable pub create_folder : Str → Str → Str → Str → Exec (World D E) FolderView
  unfolding folder_name_ok ensure_owned_folder
  create_folder owner_sub org_id name parent_id = do
    reject_if (not (folder_name_ok name)) invalid
    ensure_owned_folder m owner_sub org_id parent_id
    now ← in_sys system.now
    id ← in_sys system.new_id
    let f : Folder = record {
      id = id;
      owner_sub = owner_sub;
      org_id = org_id;
      parent_id = parent_id;
      name = name;
      created_at = now;
    }
    in_db (store.create_folder f)
    pure (folder_view f)

  unfoldable pub list_folders : Str → Str → Str → Exec (World D E) (List FolderView)
  unfolding ensure_owned_folder
  list_folders owner_sub org_id parent_id = do
    ensure_owned_folder m owner_sub org_id parent_id
    folders ← in_db (store.list_folders owner_sub org_id parent_id)
    pure (map folder_view folders)

  unfoldable pub get_folder : Str → Str → Str → Exec (World D E) FolderView
  get_folder owner_sub org_id folder_id = do
    f ← in_db (store.get_folder folder_id)
    reject_if (other_folder_owner owner_sub org_id f) forbidden
    pure (folder_view f)
