-- ===== src/Store.antt =====
-- The interface `domain.Store` of domain.go, over the type `D` of a store's states.
pub mod Memory
pub mod Postgres
use pf_media.Base.{Str, ℕ, Bool, List}
use pf_media.Base.Int.{ℤ}
use pf_media.Domain.{Time, File, FileStatus, Variants, Job, JobStatus, ShareLink, Folder}
use pf_media.Exec.{Exec}

-- `update_job` stamps the job with the clock, whose reading is its first argument here.
pub record Store (D : Type 0) : Type 0 where
  pub create_pending_file : File → Exec D Unit
  pub get_file : Str → Exec D File
  pub list_files_by_owner : Str → Str → Str → ℕ → Exec D (List File)
  pub mark_file_ready : Str → ℤ → Exec D Unit
  pub set_file_status : Str → FileStatus → Exec D Unit
  pub update_variants : Str → Variants → Exec D Unit
  pub create_job : Job → Exec D Unit
  pub get_job : Str → Exec D Job
  pub get_latest_job_by_file : Str → Exec D Job
  pub update_job : Time → Str → JobStatus → Str → Exec D Unit
  pub add_quota : Str → ℤ → ℤ → Exec D Unit
  pub get_quota_used : Str → Exec D ℤ
  pub delete_file : Str → Exec D Unit
  pub create_share_link : ShareLink → Exec D Unit
  pub get_share_link_by_token : Str → Exec D ShareLink
  pub list_share_links_by_owner : Str → Str → Exec D (List ShareLink)
  pub delete_share_link : Str → Exec D Unit
  pub create_folder : Folder → Exec D Unit
  pub get_folder : Str → Exec D Folder
  pub list_folders : Str → Str → Str → Exec D (List Folder)
  pub folder_is_empty : Str → Exec D Bool
  pub delete_folder : Str → Exec D Unit
