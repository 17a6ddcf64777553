-- ===== src/Store/Postgres/Invariant.antt =====
-- What holds of the tables of the Postgres store between two calls of its methods.
use pf_media.Base.{Str, ℕ, ◌≡◌, Option, none, some, []}
use pf_media.Base.Int.{ℤ, pos, ◌≤ℤ◌}
use pf_media.Domain.{File, Job, JobStatus, ShareLink, Folder, Time}
use pf_media.Exec.{Exec, ◌>>=◌, ◌>>◌, pure}
use pf_media.Exec.Keeps.{Keeps, Keeps-bind, Keeps-unless, keeps_rules}
use pf_media.Store.Postgres.Rows.{Tables, Statement, select, FileRow}
use pf_media.Store.Postgres.Statements
use pf_media.Store.Postgres.Pool.{Backend, query}
use pf_media.Store.Postgres.Scanning.{file_row, row_or_not_found, require_affected}
use pf_media.Store.Postgres.Files
use pf_media.Store.Postgres.Drive
use pf_media.Store.Postgres.Keeping.{
  Post, post_at, Stable, Of, select-Stable, query-Keeps, run-Stable, transaction-Keeps,
  Stable-of_Post,
}
use pf_media.Store.Postgres.Budget.{InBudget, add_quota-InBudget}
use pf_media.Store.Postgres.Integrity.{
  Intact, Kept, insert_file-Kept, update_file-Kept, remove_file-Kept,
}
use pf_media.Store.Postgres.Integrity.Children.{
  insert_job-Kept, update_job-Kept, insert_share-Kept, remove_share-Kept, ensure_quota-Intact,
  change_quota-Intact,
}
use pf_media.Store.Postgres.Integrity.Folders.{insert_folder-Kept, remove_folder-Kept}

-- The quota is in its bounds, the keys are unique and the references hold.
pub record Inv (limit : ℤ) (t : Tables) : Type 0 where
  pub budget : InBudget limit t
  pub intact : Intact t

pub no_rows : Tables
no_rows = record { files = []; jobs = []; user_quota = []; share_links = []; folders = [] }

pub no_rows-Inv : (limit : ℤ) → Inv limit no_rows
unfolding no_rows
no_rows-Inv limit = record {
  budget = record { within = tt; once = tt };
  intact = record {
    files_keyed = tt;
    jobs_keyed = tt;
    shares_keyed = tt;
    folders_keyed = tt;
    jobs_refer = tt;
    shares_refer = tt;
    files_placed = tt;
    folders_placed = tt;
  };
}

Kept-Inv : (limit : ℤ) (t t' : Tables) → Inv limit t → Kept t t' → Inv limit t'
Kept-Inv limit t t' h k = record {
  budget = record { within = rw k.1 h.budget.within; once = rw k.1 h.budget.once };
  intact = k.0;
}

pub Keeps-both :
    {S A : Type 0} (P Q R : S → Type 0) (m : Exec S A)
    → ((s : S) → R s → P s × Q s)
    → ((s : S) → P s → Q s → R s)
    → Keeps P m
    → Keeps Q m
    → Keeps R m
Keeps-both P Q R m split join k k' = record {
  at = λ s h. let (p, q) = split s h in join _ (k.at s p) (k'.at s q);
}

module _ {C : Type 0} (backend : Backend C) {P : Tables → Type 0} where
  pub affected-Keeps :
      (statement : Statement ℕ)
      → Stable P statement
      → Keeps (Of P) (query backend statement >>= require_affected)
  unfolding require_affected
  affected-Keeps statement k = search (keeps_rules, query-Keeps)

  pub done-Keeps :
      (statement : Statement ℕ)
      → Stable P statement
      → Keeps (Of P) (query backend statement >> pure tt)
  done-Keeps statement k = search (keeps_rules, query-Keeps)

  row-Keeps :
      {A B : Type 0} (scan : A → B) (row : Option A)
      → Keeps (Of {C = C} P) (row_or_not_found scan row)
  unfolding row_or_not_found
  row-Keeps scan none = search keeps_rules
  row-Keeps scan (some r) = search keeps_rules

  pub find-Keeps :
      {A B : Type 0} (find : Tables → Option A) (scan : A → B)
      → Keeps (Of P) (query backend (select find) >>= row_or_not_found scan)
  find-Keeps find scan = search (keeps_rules, query-Keeps, select-Stable, row-Keeps)

  pub read-Keeps :
      {A B : Type 0} (read : Tables → A) (f : A → B)
      → Keeps (Of P) (query backend (select read) >>= λ a. pure (f a))
  read-Keeps read f = search (keeps_rules, query-Keeps, select-Stable)

module _ {C : Type 0} (backend : Backend C) (limit : ℤ) where
  Kept-Stable :
      {A : Type 0} (statement : Statement A)
      → ((t : Tables) → Intact t → Post (λ _. Kept t) (statement t))
      → Stable (Inv limit) statement
  Kept-Stable statement k = record {
    at = λ t t' a h e. Kept-Inv limit t t' h (post_at (λ _. Kept t) _ a t' (k t h.intact) e);
  }

  pub create_pending_file-Inv :
      (f : File) → Keeps (Of (Inv limit)) (Files.create_pending_file backend f)
  unfolding Files.create_pending_file
  create_pending_file-Inv f = record {
    at = λ s h.
        (done-Keeps backend _ (
            Kept-Stable _
              (λ t i. insert_file-Kept t i (file_row backend (backend.now s.link) f)))).at
          s h;
  }

  pub update_file-Inv :
      (id : Str) (change : FileRow → FileRow)
      → ((f : FileRow) → (change f).id ≡ f.id)
      → ((f : FileRow) → (change f).object_key ≡ f.object_key)
      → ((f : FileRow) → (change f).folder_id ≡ f.folder_id)
      → Keeps
          (Of (Inv limit))
          (query backend (Statements.update_file id change) >>= require_affected)
  update_file-Inv id change a b c =
      affected-Keeps backend _ (Kept-Stable _ (λ t i. update_file-Kept t i id change a b c))

  pub create_job-Inv : (j : Job) → Keeps (Of (Inv limit)) (Files.create_job backend j)
  unfolding Files.create_job
  create_job-Inv j = done-Keeps backend _ (Kept-Stable _ (λ t i. insert_job-Kept t i _))

  pub update_job-Inv :
      (t : Time) (id : Str) (st : JobStatus) (e : Str)
      → Keeps (Of (Inv limit)) (Files.update_job backend t id st e)
  unfolding Files.update_job
  update_job-Inv at id st e =
      affected-Keeps backend _
        (Kept-Stable _ (λ t i. update_job-Kept t i id st e (backend.timestamptz at)))

  charge-Intact :
      (subject : Str) (delta : ℤ) → Keeps (Of Intact) (Files.charge backend subject delta limit)
  unfolding Files.charge
  charge-Intact subject delta =
      Keeps-bind _ _
        (query-Keeps backend _ (Stable-of_Post _ λ t i. ensure_quota-Intact t i subject))
        λ used.
          Keeps-unless _ _ _ λ _.
            done-Keeps backend _ (Stable-of_Post _ λ t i. change_quota-Intact t i subject delta)

  pub add_quota-Inv :
      (subject : Str) (delta : ℤ)
      → pos 0 ≤ℤ limit
      → Keeps (Of (Inv limit)) (Files.add_quota backend subject delta limit)
  unfolding Files.add_quota
  add_quota-Inv subject delta nonneg =
      Keeps-both (Of (InBudget limit)) (Of Intact) _ _
        (λ s h. (record { holds = h.holds.budget }, record { holds = h.holds.intact }))
        (λ s b i. record { holds = record { budget = b.holds; intact = i.holds } })
        (add_quota-InBudget limit nonneg subject backend delta)
        (transaction-Keeps backend _ (charge-Intact subject delta))

  pub delete_file-Inv : (id : Str) → Keeps (Of (Inv limit)) (Files.delete_file backend id)
  unfolding Files.delete_file
  delete_file-Inv id = affected-Keeps backend _ (Kept-Stable _ (λ t i. remove_file-Kept t i id))

  pub create_share_link-Inv :
      (l : ShareLink) → Keeps (Of (Inv limit)) (Drive.create_share_link backend l)
  unfolding Drive.create_share_link
  create_share_link-Inv l = done-Keeps backend _ (Kept-Stable _ (λ t i. insert_share-Kept t i _))

  pub delete_share_link-Inv :
      (token : Str) → Keeps (Of (Inv limit)) (Drive.delete_share_link backend token)
  unfolding Drive.delete_share_link
  delete_share_link-Inv token =
      affected-Keeps backend _ (Kept-Stable _ (λ t i. remove_share-Kept t i token))

  pub create_folder-Inv : (f : Folder) → Keeps (Of (Inv limit)) (Drive.create_folder backend f)
  unfolding Drive.create_folder
  create_folder-Inv f = record {
    at = λ s h. run-Stable backend _ s (Kept-Stable _ (λ t i. insert_folder-Kept t i _)) h;
  }

  pub delete_folder-Inv : (id : Str) → Keeps (Of (Inv limit)) (Drive.delete_folder backend id)
  unfolding Drive.delete_folder
  delete_folder-Inv id = affected-Keeps backend _ (Kept-Stable _ (λ t i. remove_folder-Kept t i id))
