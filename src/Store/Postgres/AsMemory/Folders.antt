-- ===== src/Store/Postgres/AsMemory/Folders.antt =====
-- The methods of the Postgres store on folders, beside those of the memory store.
use pf_media.Base.{
  Str, ◌≡◌, refl, str_eq, ◌==◌, nat_eq, Option-cases, Bool-cases, inl, inr, length, keep,
}
use pf_media.Domain.{Folder}
use pf_media.Base.{ap}
use pf_media.Store.Postgres.Scanning.{empty_to_nil}
use pf_media.Store.Memory
use pf_media.Store.Memory.{State, or_not_found}
use pf_media.Store.Postgres.Rows.{Tables, FolderRow, delete_where}
use pf_media.Store.Postgres.Statements
use pf_media.Store.Postgres.Pool.{Backend, Db}
use pf_media.Store.Postgres.Scanning.{scan_folder}
use pf_media.Store.Postgres.Keeping.{Post}
use pf_media.Store.Postgres.Integrity.{Intact}
use pf_media.Store.Postgres.Viewing.{
  find, lookup-entries, erase-entries, find-none, affected-none, affected-some, deleted-none,
}
use pf_media.Store.Postgres.AsMemory.{
  view, Matches, Follows, query-Follows, row-Answers, affected-Answers, affected_or_not,
}
use pf_media.Store.Memory.{same_place}
use pf_media.Store.Postgres.Statements.{folder_in_use, unique_violation, same_folder}
use pf_media.Store.Postgres.Drive
use pf_media.Store.Postgres.Drive.{folder_result}
use pf_media.Store.Postgres.AsMemory.Files.{or_not_found_scanned, or_empty-empty_to_nil}

module _ {C : Type 0} (backend : Backend C) where
  open backend use {timestamptz}

  unfoldable pub kept_folder : Folder → Folder
  kept_folder f = record f { created_at = timestamptz f.created_at }

  pub get_folder-Follows :
      (id : Str) (s : Db C)
      → Follows backend s
          (Memory.get_folder id (view backend s.tables))
          (Drive.get_folder backend id s)
  unfolding Drive.get_folder Memory.get_folder view
  get_folder-Follows id s = query-Follows backend _ _ _ s _ (row-Answers backend scan_folder) (
      rw
        (
          lookup-entries (λ (r : FolderRow). r.id) scan_folder id s.tables.folders,
          or_not_found_scanned backend scan_folder,
        )
        (refl, refl))

  module _ (t : Tables) (h : Intact t) where
    deleted-Matches :
        (id : Str)
        → Matches backend
            (affected_or_not backend)
            (Memory.delete_folder id (view backend t))
            (length (keep (λ (f : FolderRow). f.id == id) t.folders))
            (record t { folders = delete_where (λ (f : FolderRow). f.id == id) t.folders })
    unfolding Memory.delete_folder view
    deleted-Matches id =
        let id_of = λ (r : FolderRow). r.id in
        elim (Option-cases (find id_of id t.folders)) [
          | inl e ↦
              let gone = find-none id_of id t.folders e in
              rw
                (
                  Memory.delete_folder,
                  lookup-entries id_of scan_folder id t.folders,
                  e,
                  affected-none id_of id t.folders gone,
                  deleted-none id_of id t.folders gone,
                )
                (refl, refl)
          | inr (r, e) ↦
              rw
                (
                  Memory.delete_folder,
                  lookup-entries id_of scan_folder id t.folders,
                  e,
                  affected-some id_of id r t.folders e,
                  erase-entries id_of scan_folder id t.folders,
                )
                (refl, refl)
        ]

    remove_folder-Matches :
        (id : Str)
        → Post
            (Matches backend (affected_or_not backend) (Memory.delete_folder id (view backend t)))
            (Statements.remove_folder id t)
    unfolding Statements.remove_folder
    remove_folder-Matches id = elim (Bool-cases (folder_in_use id t)) [
      | inl e ↦ rw (e, Post) tt
      | inr e ↦ rw (e, Post) (deleted-Matches id)
    ]

  module _ (s : Db C) (h : Intact s.tables) where
    pub delete_folder-Follows :
        (id : Str)
        → Follows backend s
            (Memory.delete_folder id (view backend s.tables))
            (Drive.delete_folder backend id s)
    unfolding Drive.delete_folder
    delete_folder-Follows id =
        query-Follows backend _ _ _ s _ (affected-Answers backend)
          (remove_folder-Matches s.tables h id)

  pub scan-kept :
      (f : Folder)
      → scan_folder (record {
        id = f.id;
        owner_sub = f.owner_sub;
        org_id = f.org_id;
        parent_id = empty_to_nil f.parent_id;
        name = f.name;
        created_at = timestamptz f.created_at;
      })
        ≡ kept_folder f
  unfolding kept_folder
  scan-kept f =
      ap (λ p. record (kept_folder f) { parent_id = p }) (or_empty-empty_to_nil f.parent_id)
