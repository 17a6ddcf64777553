-- ===== src/Store/Postgres/Scanning.antt =====
-- What apps/api/internal/store/postgres/store.go makes of its arguments and of the rows that it scans.
use pf_media.Base.{Str, ℕ, Option, none, some, [], if◌then◌else◌, ◌==◌, nat_eq, str_eq}
use pf_media.Domain.{not_found, Time, File, Job, ShareLink, Folder}
use pf_media.Domain.Json.{variants_json, parse_variants}
use pf_media.Exec.{Exec, pure, raise, reject_if}
use pf_media.Store.Postgres.Rows.{FileRow, JobRow, ShareRow, FolderRow, or_empty}
use pf_media.Store.Postgres.Pool.{Backend, Db}

-- `emptyToNil`
abbrev pub empty_to_nil : Str → Option Str
empty_to_nil s = if s == [] then none else some s

-- What `Scan` makes of a row.
abbrev pub scan_job : JobRow → Job
scan_job r = record {
  id = r.id;
  file_id = r.file_id;
  status = r.status;
  error = r.error;
  updated_at = r.updated_at;
}

abbrev pub scan_share : ShareRow → ShareLink
scan_share r = record {
  id = r.id;
  token = r.token;
  file_id = r.file_id;
  owner_sub = r.owner_sub;
  org_id = r.org_id;
  password_hash = r.password_hash;
  expires_at = r.expires_at;
  created_at = r.created_at;
}

abbrev pub scan_folder : FolderRow → Folder
scan_folder r = record {
  id = r.id;
  owner_sub = r.owner_sub;
  org_id = r.org_id;
  parent_id = or_empty r.parent_id;
  name = r.name;
  created_at = r.created_at;
}

module _ {C : Type 0} where
  -- `if errors.Is(err, pgx.ErrNoRows) { return …, ErrNotFound }`
  unfoldable pub row_or_not_found : {A B : Type 0} → (A → B) → Option A → Exec (Db C) B
  row_or_not_found scan none = raise not_found
  row_or_not_found scan (some r) = pure (scan r)

  -- `if tag.RowsAffected() == 0 { return ErrNotFound }`
  unfoldable pub require_affected : ℕ → Exec (Db C) Unit
  require_affected n = reject_if (n == 0) not_found

module _ {C : Type 0} (backend : Backend C) where
  open backend use {timestamptz, jsonb, json}

  unfoldable pub scan_file : FileRow → File
  unfolding parse_variants
  scan_file r = record {
    id = r.id;
    owner_sub = r.owner_sub;
    org_id = r.org_id;
    folder_id = or_empty r.folder_id;
    object_key = r.object_key;
    content_type = r.content_type;
    size_bytes = r.size_bytes;
    purpose = r.purpose;
    status = r.status;
    variants = parse_variants json (jsonb r.variants);
    created_at = r.created_at;
  }

  -- The row of a file; `created_at` is left to its default, the server's clock.
  unfoldable pub file_row : Time → File → FileRow
  unfolding variants_json
  file_row at f = record {
    id = f.id;
    owner_sub = f.owner_sub;
    org_id = f.org_id;
    folder_id = empty_to_nil f.folder_id;
    object_key = f.object_key;
    content_type = f.content_type;
    size_bytes = f.size_bytes;
    purpose = f.purpose;
    status = f.status;
    variants = variants_json json f.variants;
    created_at = timestamptz at;
  }
