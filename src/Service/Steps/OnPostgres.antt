-- ===== src/Service/Steps/OnPostgres.antt =====
-- The service on the Postgres store: what holds in every state that it can reach.
pub mod Isolation
use pf_media.Base.{All, Str, ◌≡◌, refl, []}
use pf_media.Base.Int.{ℤ, pos, ◌≤ℤ◌}
use pf_media.Exec.{World}
use pf_media.Exec.Keeps.{On}
use pf_media.Store.Postgres.{postgres_store}
use pf_media.Store.Postgres.Rows.{QuotaRow}
use pf_media.Store.Postgres.Pool.{Backend, Db}
use pf_media.Store.Postgres.Files
use pf_media.Store.Postgres.Drive
use pf_media.Store.Postgres.Keeping.{Of}
use pf_media.Store.Postgres.Invariant.{
  Inv, no_rows, no_rows-Inv, find-Keeps, read-Keeps, create_pending_file-Inv, update_file-Inv,
  create_job-Inv, update_job-Inv, add_quota-Inv, delete_file-Inv, create_share_link-Inv,
  delete_share_link-Inv, create_folder-Inv, delete_folder-Inv,
}
use pf_media.Store.Postgres.Integrity.{Intact}
use pf_media.Service.{Media}
use pf_media.Service.Preserved.{Keeper, SizesInt64}
use pf_media.Service.Steps.{Actor, user, visitor, processor, nobody, Fits, Reach, Reach-On}

module _ {C : Type 0} (backend : Backend C) (limit : ℤ) (o g : Str) (nonneg : pos 0 ≤ℤ limit) where
  -- Every method of the Postgres store keeps its invariant.
  pub Inv-Keeper : Keeper (postgres_store backend) limit o g (λ _. Unit) (Of (Inv limit))
  unfolding Files.get_file Files.list_files_by_owner Files.get_job Files.get_latest_job_by_file
      Files.get_quota_used Drive.get_share_link_by_token Drive.list_share_links_by_owner
      Drive.get_folder Drive.list_folders Files.mark_file_ready Files.set_file_status
      Files.update_variants
  Inv-Keeper = record {
    found = λ s id f v e mine. (tt, tt);
    create_pending_file = create_pending_file-Inv backend limit;
    get_file = λ id. find-Keeps backend _ _;
    list_files_by_owner = λ o g d n. read-Keeps backend _ _;
    mark_file_ready =
        λ id size _. update_file-Inv backend limit id _ (λ f. refl) (λ f. refl) (λ f. refl);
    set_file_status =
        λ id st _. update_file-Inv backend limit id _ (λ f. refl) (λ f. refl) (λ f. refl);
    update_variants =
        λ id v _. update_file-Inv backend limit id _ (λ f. refl) (λ f. refl) (λ f. refl);
    create_job = create_job-Inv backend limit;
    get_job = λ id. find-Keeps backend _ _;
    get_latest_job_by_file = λ id. find-Keeps backend _ _;
    update_job = update_job-Inv backend limit;
    add_quota = λ subject delta d. add_quota-Inv backend limit subject delta nonneg;
    get_quota_used = λ subject. read-Keeps backend _ _;
    delete_file = λ id _. delete_file-Inv backend limit id;
    create_share_link = create_share_link-Inv backend limit;
    get_share_link_by_token = λ t. find-Keeps backend _ _;
    list_share_links_by_owner = λ o g. read-Keeps backend _ _;
    delete_share_link = delete_share_link-Inv backend limit;
    create_folder = create_folder-Inv backend limit;
    get_folder = λ id. find-Keeps backend _ _;
    list_folders = λ o g d. read-Keeps backend _ _;
    delete_folder = delete_folder-Inv backend limit;
  }

-- A service that runs on the Postgres store, with a quota limit that is not negative, and on an object
-- storage that reports sizes as int64s.
pub record OnPostgres {C E : Type 0} (backend : Backend C) (m : Media (Db C) E) : Type 0 where
  pub postgres : m.store ≡ postgres_store backend
  pub sizes : SizesInt64 m
  pub limit_nonneg : pos 0 ≤ℤ m.quota_limit

module _ {C E : Type 0} (backend : Backend C) (m : Media (Db C) E) (on : OnPostgres backend m) where
  keeper : (o g : Str) → Keeper m.store m.quota_limit o g (λ _. Unit) (Of (Inv m.quota_limit))
  keeper o g = rw on.postgres (Inv-Keeper backend m.quota_limit o g on.limit_nonneg)

  fits : (a : Actor) → Fits m (λ _. Unit) (Of (Inv m.quota_limit)) a
  fits (user o g) = keeper o g
  fits visitor = ([], [], keeper [] [])
  fits processor = (keeper [] [], λ id. tt)
  fits nobody = tt

  module _ {w w' : World (Db C) E} (start : w.db.tables ≡ no_rows) (r : Reach m w w') where
    reached : On {E = E} (Of (Inv m.quota_limit)) w'
    reached =
        Reach-On m on.sizes (λ _. Unit) (Of (Inv m.quota_limit)) fits
          (record { holds = record { holds = rw start (no_rows-Inv m.quota_limit) } }) r

    -- Whatever is asked of a service that starts on an empty Postgres database, and whatever calls of
    -- the database fail, no row of the quota is negative or above the limit. The service's limit is
    -- not negative, and the sizes that object storage reports are int64s.
    pub Reach-quota :
        All
          (λ (q : QuotaRow). (pos 0 ≤ℤ q.used_bytes) × (q.used_bytes ≤ℤ m.quota_limit))
          w'.db.tables.user_quota
    Reach-quota = reached.holds.holds.budget.within

    -- In every state that a service reaches from an empty Postgres database, whatever calls of the
    -- database fail, no two rows have one key, every job and every share link belongs to a file that
    -- is stored, and every file and every folder that is not at the top lies in a folder that is.
    -- The service's limit is not negative, and the sizes that object storage reports are int64s.
    pub Reach-Intact : Intact w'.db.tables
    Reach-Intact = reached.holds.holds.intact
