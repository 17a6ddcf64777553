-- ===== src/Service/Steps/OnPostgres/Isolation.antt =====
-- The files of one user under the calls of another, on the Postgres store.
use pf_media.Base.{sym, ◌∙◌, ◌∷◌, ap, Str, ◌≡◌, ◌≢◌, refl, some, true, false, arith, str_eq}
use pf_media.Base.Int.{ℤ}
use pf_media.Domain.{File, ok}
use pf_media.Exec.{World}
use pf_media.Store.Postgres.{postgres_store}
use pf_media.Store.Postgres.Rows.{FileRow, Tables}
use pf_media.Store.Postgres.Statements.{find_file}
use pf_media.Store.Postgres.Pool.{Backend, Db}
use pf_media.Store.Postgres.Scanning.{scan_file}
use pf_media.Store.Postgres.Files
use pf_media.Store.Postgres.Drive
use pf_media.Store.Postgres.Keeping.{Of}
use pf_media.Store.Postgres.Invariant.{find-Keeps, read-Keeps}
use pf_media.Store.Postgres.Finding.{
  Found, found_id, get_file-row, create_pending_file-Found, update_file-Found, delete_file-Found,
  create_job-Found, update_job-Found, create_share_link-Found, delete_share_link-Found,
  create_folder-Found, delete_folder-Found, add_quota-Found,
}
use pf_media.Service.{Media, other_file_owner}
use pf_media.Service.Preserved.{Keeper}
use pf_media.Service.Steps.{Actor, user, visitor, processor, nobody, Fits, Step, Step-On}
use pf_media.Service.Steps.Isolation.{Stranger, another-ne}
use pf_media.Service.Steps.OnPostgres.{OnPostgres}

module _ {C : Type 0} (backend : Backend C) (id : Str) (row : FileRow) where
  owner_of :
      (o g id' : Str) (t : Tables) (r : FileRow) (f : File)
      → id ≡ id'
      → find_file id' t ≡ some r
      → find_file id t ≡ some row
      → scan_file backend r ≡ f
      → other_file_owner o g (scan_file backend row) ≡ other_file_owner o g f
  owner_of o g id' t r f same there here scanned = cc

  -- A file that a user is found to own is not the file of another user.
  Found-ne :
      (o g : Str) (s : Db C) (id' : Str) (f : File)
      → other_file_owner o g (scan_file backend row) ≡ true
      → Of (Found id row) s
      → (Files.get_file backend id' s).0 ≡ ok f
      → other_file_owner o g f ≡ false
      → (id ≢ id') × (id ≢ f.id)
  unfolding Found scan_file
  Found-ne o g s id' f theirs h e mine =
      let (r, there, scanned) = get_file-row backend s id' f e in
      let same_id = found_id id' r s.tables.files there in
      let here = h.holds in
      let ne : id ≢ id' = λ same.
        let both : true ≡ false =
          sym theirs ∙ owner_of o g id' s.tables r f same there here scanned ∙ mine in
        ground arith in
      (ne, λ same. ne (same ∙ (ap (λ (x : File). x.id) (sym scanned) ∙ same_id)))

  Found-Keeper :
      (limit : ℤ) (o g : Str)
      → other_file_owner o g (scan_file backend row) ≡ true
      → Keeper (postgres_store backend) limit o g (λ id'. id ≢ id') (Of (Found id row))
  unfolding Files.get_file Files.list_files_by_owner Files.get_job Files.get_latest_job_by_file
      Files.get_quota_used Drive.get_share_link_by_token Drive.list_share_links_by_owner
      Drive.get_folder Drive.list_folders Files.mark_file_ready Files.set_file_status
      Files.update_variants
  Found-Keeper limit o g theirs = record {
    found = λ s id' f h e mine. Found-ne o g s id' f theirs h e mine;
    create_pending_file = create_pending_file-Found id row backend;
    get_file = λ k. find-Keeps backend _ _;
    list_files_by_owner = λ o g d n. read-Keeps backend _ _;
    mark_file_ready = λ k size ne. update_file-Found id row backend k _ ne (λ f. refl);
    set_file_status = λ k st ne. update_file-Found id row backend k _ ne (λ f. refl);
    update_variants = λ k v ne. update_file-Found id row backend k _ ne (λ f. refl);
    create_job = create_job-Found id row backend;
    get_job = λ k. find-Keeps backend _ _;
    get_latest_job_by_file = λ k. find-Keeps backend _ _;
    update_job = update_job-Found id row backend;
    add_quota = λ subject delta d. add_quota-Found id row backend subject delta limit;
    get_quota_used = λ subject. read-Keeps backend _ _;
    delete_file = λ k ne. delete_file-Found id row backend k ne;
    create_share_link = create_share_link-Found id row backend;
    get_share_link_by_token = λ t. find-Keeps backend _ _;
    list_share_links_by_owner = λ o g. read-Keeps backend _ _;
    delete_share_link = delete_share_link-Found id row backend;
    create_folder = create_folder-Found id row backend;
    get_folder = λ k. find-Keeps backend _ _;
    list_folders = λ o g d. read-Keeps backend _ _;
    delete_folder = delete_folder-Found id row backend;
  }

-- On Postgres, whatever calls of the database fail, a call by a user who does not own a file
-- (another subject, or another organisation) leaves the row of the file as it was, and so do a
-- visitor's calls and the world outside. The sizes that object storage reports are int64s, and the
-- limit of the quota is not negative.
pub Step-find_file :
    {C E : Type 0} (backend : Backend C) (m : Media (Db C) E) (on : OnPostgres backend m) (id : Str)
    (row : FileRow) (a : Actor) (w w' : World (Db C) E)
    → Stranger (scan_file backend row) a
    → find_file id w.db.tables ≡ some row
    → Step m a w w'
    → find_file id w'.db.tables ≡ some row
unfolding Found
Step-find_file backend m on id row a w w' stranger there step =
    (Step-On m on.sizes (λ id'. id ≢ id') (Of (Found id row)) (fits a stranger) step
      (record { holds = record { holds = there } })).holds.holds
  where
    keeper :
        (o g : Str)
        → other_file_owner o g (scan_file backend row) ≡ true
        → Keeper m.store m.quota_limit o g (λ id'. id ≢ id') (Of (Found id row))
    keeper o g theirs = rw on.postgres (Found-Keeper backend id row m.quota_limit o g theirs)

    fits :
        (a : Actor)
        → Stranger (scan_file backend row) a
        → Fits m (λ id'. id ≢ id') (Of (Found id row)) a
    fits (user o g) theirs = keeper o g theirs
    fits visitor h =
        let longer = 0 ∷ row.owner_sub in
        (
          longer,
          row.org_id,
          keeper longer row.org_id (unfold scan_file in another-ne row.owner_sub row.org_id),
        )
    fits processor no_one = absurd no_one
    fits nobody h = tt
