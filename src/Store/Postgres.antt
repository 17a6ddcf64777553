-- ===== src/Store/Postgres.antt =====
-- apps/api/internal/store/postgres/store.go as a `domain.Store`.
pub mod Rows
pub mod Statements
pub mod Pool
pub mod Scanning
pub mod Files
pub mod Drive
pub mod Opening
pub mod Changing
pub mod Keeping
pub mod Budget
pub mod Integrity
pub mod Invariant
pub mod Finding
pub mod Viewing
pub mod AsMemory
use pf_media.Store.{Store}
use pf_media.Store.Postgres.Pool.{Backend, Db}
use pf_media.Store.Postgres.Files
use pf_media.Store.Postgres.Drive

abbrev pub postgres_store : {C : Type 0} → Backend C → Store (Db C)
postgres_store backend = record {
  create_pending_file = Files.create_pending_file backend;
  get_file = Files.get_file backend;
  list_files_by_owner = Files.list_files_by_owner backend;
  mark_file_ready = Files.mark_file_ready backend;
  set_file_status = Files.set_file_status backend;
  update_variants = Files.update_variants backend;
  create_job = Files.create_job backend;
  get_job = Files.get_job backend;
  get_latest_job_by_file = Files.get_latest_job_by_file backend;
  update_job = Files.update_job backend;
  add_quota = Files.add_quota backend;
  get_quota_used = Files.get_quota_used backend;
  delete_file = Files.delete_file backend;
  create_share_link = Drive.create_share_link backend;
  get_share_link_by_token = Drive.get_share_link_by_token backend;
  list_share_links_by_owner = Drive.list_share_links_by_owner backend;
  delete_share_link = Drive.delete_share_link backend;
  create_folder = Drive.create_folder backend;
  get_folder = Drive.get_folder backend;
  list_folders = Drive.list_folders backend;
  folder_is_empty = Drive.folder_is_empty backend;
  delete_folder = Drive.delete_folder backend;
}
