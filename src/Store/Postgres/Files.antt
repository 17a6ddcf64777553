-- ===== src/Store/Postgres/Files.antt =====
-- The methods on files, jobs and the quota of apps/api/internal/store/postgres/store.go: each runs the
-- statement of its SQL, which stands in Store/Postgres/Statements.
use pf_media.Base.{Str, ℕ, List, map, nat_eq, str_eq, ◌&&◌, none, some, Option}
use pf_media.Base.Int.{ℤ, pos, ltb_ℤ, add64}
use pf_media.Domain.{quota_exceeded, Time, File, FileStatus, Variants, Job, JobStatus}
use pf_media.Domain.Json.{variants_json}
use pf_media.Exec.{Exec, ◌>>=◌, ◌>>◌, pure, reject_if}
use pf_media.Store.Postgres.Rows.{QuotaRow, select}
use pf_media.Store.Postgres.Pool.{Backend, Db, query, transaction}
use pf_media.Store.Postgres.Scanning.{
  empty_to_nil, scan_job, row_or_not_found, require_affected, scan_file, file_row,
}
use pf_media.Store.Postgres.Statements
use pf_media.Store.Postgres.Statements.{unique_violation}

-- `if errors.Is(err, pgx.ErrNoRows) { return 0, nil }`
abbrev pub used_or_zero : Option QuotaRow → ℤ
used_or_zero none = pos 0
used_or_zero (some q) = q.used_bytes

module _ {C : Type 0} (backend : Backend C) where
  open backend use {now, timestamptz, json}

  unfoldable pub create_pending_file : File → Exec (Db C) Unit
  create_pending_file f s =
      (query backend (Statements.insert_file (file_row backend (now s.link) f)) >> pure tt) s

  unfoldable pub get_file : Str → Exec (Db C) File
  get_file id =
      query backend (select (Statements.find_file id)) >>= row_or_not_found (scan_file backend)

  unfoldable pub list_files_by_owner : Str → Str → Str → ℕ → Exec (Db C) (List File)
  list_files_by_owner owner_sub org_id folder_id limit =
      query backend (select (Statements.files_of owner_sub org_id (empty_to_nil folder_id) limit))
      >>= λ rows. pure (map (scan_file backend) rows)

  unfoldable pub mark_file_ready : Str → ℤ → Exec (Db C) Unit
  mark_file_ready id size =
      query backend
        (Statements.update_file id (λ r. record r { status = FileStatus.ready; size_bytes = size }))
      >>= require_affected

  unfoldable pub set_file_status : Str → FileStatus → Exec (Db C) Unit
  set_file_status id status =
      query backend (Statements.update_file id (λ r. record r { status = status }))
      >>= require_affected

  unfoldable pub update_variants : Str → Variants → Exec (Db C) Unit
  update_variants id variants =
      query backend (
        Statements.update_file id
          (λ r. record r { variants = variants_json json variants; status = FileStatus.ready }))
      >>= require_affected

  unfoldable pub create_job : Job → Exec (Db C) Unit
  create_job j =
      query backend (
        Statements.insert_job (record {
          id = j.id;
          file_id = j.file_id;
          status = j.status;
          error = j.error;
          updated_at = timestamptz j.updated_at;
        }))
      >> pure tt

  unfoldable pub get_job : Str → Exec (Db C) Job
  get_job id = query backend (select (Statements.find_job id)) >>= row_or_not_found scan_job

  unfoldable pub get_latest_job_by_file : Str → Exec (Db C) Job
  get_latest_job_by_file file_id =
      query backend (select (Statements.newest_job file_id)) >>= row_or_not_found scan_job

  unfoldable pub update_job : Time → Str → JobStatus → Str → Exec (Db C) Unit
  update_job at id status message =
      query backend (Statements.update_job id status message (timestamptz at)) >>= require_affected

  -- What is done on the transaction of `AddQuota`.
  unfoldable pub charge : Str → ℤ → ℤ → Exec (Db C) Unit
  charge owner_sub delta limit = do
    used ← query backend (Statements.ensure_quota owner_sub)
    reject_if (ltb_ℤ (pos 0) delta && ltb_ℤ limit (add64 used delta)) quota_exceeded
    query backend (Statements.change_quota owner_sub delta) >> pure tt

  unfoldable pub add_quota : Str → ℤ → ℤ → Exec (Db C) Unit
  add_quota owner_sub delta limit = transaction backend (charge owner_sub delta limit)

  unfoldable pub get_quota_used : Str → Exec (Db C) ℤ
  get_quota_used owner_sub =
      query backend (select (Statements.find_quota owner_sub)) >>= λ q. pure (used_or_zero q)

  unfoldable pub delete_file : Str → Exec (Db C) Unit
  delete_file id = query backend (Statements.remove_file id) >>= require_affected
