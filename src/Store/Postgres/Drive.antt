-- ===== src/Store/Postgres/Drive.antt =====
-- The methods on share links and folders of apps/api/internal/store/postgres/store.go: each runs the
-- statement of its SQL, which stands in Store/Postgres/Statements.
use pf_media.Base.{if◌then◌else◌, Str, ℕ, Bool, List, map, ◌==◌, nat_eq, str_eq}
use pf_media.Domain.{conflict, Result, ok, err, ShareLink, Folder}
use pf_media.Exec.{Exec, ◌>>=◌, ◌>>◌, pure}
use pf_media.Store.Postgres.Rows.{Outcome, pg_error, done, refused, select}
use pf_media.Store.Postgres.Pool.{Backend, Db, result_of, run, query}
use pf_media.Store.Postgres.Scanning.{
  empty_to_nil, scan_share, scan_folder, row_or_not_found, require_affected,
}
use pf_media.Store.Postgres.Statements
use pf_media.Store.Postgres.Statements.{unique_violation}

-- What `CreateFolder` returns: `ErrConflict` for an error of pgx with the code of a violated key.
abbrev pub folder_result : Outcome ℕ → Result {0} Unit
folder_result (done n) = ok tt
folder_result (refused (pg_error code)) =
    if code == unique_violation then err conflict else result_of (refused (pg_error code))
folder_result (refused failure) = result_of (refused failure)

module _ {C : Type 0} (backend : Backend C) where
  open backend use {timestamptz, collation}

  unfoldable pub create_share_link : ShareLink → Exec (Db C) Unit
  create_share_link l =
      query backend (
        Statements.insert_share (record {
          id = l.id;
          token = l.token;
          file_id = l.file_id;
          owner_sub = l.owner_sub;
          org_id = l.org_id;
          password_hash = l.password_hash;
          expires_at = timestamptz l.expires_at;
          created_at = timestamptz l.created_at;
        }))
      >> pure tt

  unfoldable pub get_share_link_by_token : Str → Exec (Db C) ShareLink
  get_share_link_by_token token =
      query backend (select (Statements.find_share token)) >>= row_or_not_found scan_share

  unfoldable pub list_share_links_by_owner : Str → Str → Exec (Db C) (List ShareLink)
  list_share_links_by_owner owner_sub org_id =
      query backend (select (Statements.shares_of owner_sub org_id)) >>= λ rows.
      pure (map scan_share rows)

  unfoldable pub delete_share_link : Str → Exec (Db C) Unit
  delete_share_link token = query backend (Statements.remove_share token) >>= require_affected

  unfoldable pub create_folder : Folder → Exec (Db C) Unit
  create_folder f s =
      let (outcome, s') =
        run backend
          (Statements.insert_folder (record {
            id = f.id;
            owner_sub = f.owner_sub;
            org_id = f.org_id;
            parent_id = empty_to_nil f.parent_id;
            name = f.name;
            created_at = timestamptz f.created_at;
          }))
          s in
      (folder_result outcome, s')

  unfoldable pub get_folder : Str → Exec (Db C) Folder
  get_folder id =
      query backend (select (Statements.find_folder id)) >>= row_or_not_found scan_folder

  unfoldable pub list_folders : Str → Str → Str → Exec (Db C) (List Folder)
  list_folders owner_sub org_id parent_id =
      query backend
        (select (Statements.folders_of collation owner_sub org_id (empty_to_nil parent_id)))
      >>= λ rows. pure (map scan_folder rows)

  unfoldable pub folder_is_empty : Str → Exec (Db C) Bool
  folder_is_empty folder_id =
      query backend (select (Statements.count_in_folder folder_id)) >>= λ n. pure (n == 0)

  unfoldable pub delete_folder : Str → Exec (Db C) Unit
  delete_folder id = query backend (Statements.remove_folder id) >>= require_affected
