-- ===== src/Store/Postgres/Finding.antt =====
-- The row of one file under the methods of the Postgres store that are not about it.
use pf_media.Base.{
  ◌∙◌, Str, ℕ, ◌≡◌, ◌≢◌, refl, Option, none, some, List, [], ◌∷◌, ◌++◌, arith, str_eq, ◌==◌, keep,
  Option-cases, Bool-cases, inl, inr,
}
use pf_media.Base.Int.{ℤ}
use pf_media.Domain.{File, Folder, Job, JobStatus, ShareLink, Time, ok}
use pf_media.Exec.{◌>>=◌}
use pf_media.Exec.Inversion.{bind-ok}
use pf_media.Exec.Keeps.{Keeps, Keeps-bind, Keeps-unless}
use pf_media.Store.Postgres.Rows.{
  FileRow, QuotaRow, Tables, Statement, Outcome, done, first, update_where, delete_where, select,
}
use pf_media.Store.Postgres.Statements
use pf_media.Store.Postgres.Statements.{find_file, overflows, folder_in_use}
use pf_media.Store.Postgres.Pool.{Backend, Db, query}
use pf_media.Store.Postgres.Scanning.{scan_file, file_row, row_or_not_found, require_affected}
use pf_media.Store.Postgres.Files
use pf_media.Store.Postgres.Drive
use pf_media.Store.Postgres.Integrity.{Post-checked}
use pf_media.Store.Postgres.Keeping.{
  Post, post_at, Stable, Stable-of_Post, Of, query-ok, query-Keeps, run-Stable, transaction-Keeps,
}
use pf_media.Store.Postgres.Invariant.{affected-Keeps, done-Keeps}

find-appended :
    (id : Str) (r x : FileRow) (rs : List FileRow)
    → first (keep (λ (f : FileRow). f.id == id) rs) ≡ some r
    → first (keep (λ (f : FileRow). f.id == id) (rs ++ (x ∷ []))) ≡ some r
unfolding first keep
find-appended id r x [] e = cc
find-appended id r x (y ∷ rs) e = ground (arith, find-appended id r x rs)

find-updated :
    (id id' : Str) (change : FileRow → FileRow) (rs : List FileRow)
    → id ≢ id'
    → ((f : FileRow) → (change f).id ≡ f.id)
    → first (keep (λ (f : FileRow). f.id == id) (update_where (λ f. f.id == id') change rs))
      ≡ first (keep (λ (f : FileRow). f.id == id) rs)
unfolding first keep update_where
find-updated id id' change [] ne same = refl
find-updated id id' change (r ∷ rs) ne same =
    ground (arith, same r, find-updated id id' change rs ne same)

find-deleted :
    (id id' : Str) (rs : List FileRow)
    → id ≢ id'
    → first (keep (λ (f : FileRow). f.id == id) (delete_where (λ f. f.id == id') rs))
      ≡ first (keep (λ (f : FileRow). f.id == id) rs)
unfolding first keep delete_where
find-deleted id id' [] ne = refl
find-deleted id id' (r ∷ rs) ne = ground (arith, find-deleted id id' rs ne)

pub found_id :
    (id : Str) (r : FileRow) (rs : List FileRow)
    → first (keep (λ (f : FileRow). f.id == id) rs) ≡ some r
    → r.id ≡ id
unfolding first keep
found_id id r [] e = cc
found_id id r (x ∷ rs) e = ground (arith, found_id id r rs)

scanned_row :
    {C A B : Type 0} (scan : A → B) (o : Option A) (s : Db C) (b : B)
    → (row_or_not_found scan o s).0 ≡ ok b
    → (a : A) × (o ≡ some a) × (scan a ≡ b)
unfolding row_or_not_found ◌>>=◌
scanned_row scan none s b e = cc
scanned_row scan (some a) s b e = (a, refl, cc)

selected :
    {A : Type 0} (a b : A) (t t' : Tables)
    → ◌≡◌ {A = Outcome (A × Tables)} (done (a, t)) (done (b, t'))
    → a ≡ b
selected a b t t' e = cc

-- A file that GetFile answers with is a row under the id, as it is scanned.
pub get_file-row :
    {C : Type 0} (backend : Backend C) (s : Db C) (id : Str) (f : File)
    → (Files.get_file backend id s).0 ≡ ok f
    → (r : FileRow) × (find_file id s.tables ≡ some r) × (scan_file backend r ≡ f)
unfolding Files.get_file
get_file-row backend s id f e =
    let (o, read, rest) = bind-ok _ _ s e in
    let answer = query-ok backend (select (find_file id)) s o read in
    let (r, found, scanned) = scanned_row (scan_file backend) o _ f rest in
    (r, selected (find_file id s.tables) o s.tables _ answer ∙ found, scanned)

module _ (id : Str) (row : FileRow) where
  -- The row is found under the id.
  unfoldable pub Found : Tables → Type 0
  Found t = find_file id t ≡ some row

  same_files :
      {A : Type 0} (statement : Statement A)
      → ((t : Tables) → Post (λ _ t'. t'.files ≡ t.files) (statement t))
      → Stable Found statement
  unfolding Found
  same_files statement same = record {
    at = λ t t' a h e. rw (post_at (λ _ x. x.files ≡ t.files) _ a t' (same t) e) h;
  }

  module _ {C : Type 0} (backend : Backend C) where
    inserted :
        (f : FileRow) (t : Tables)
        → Found t
        → Post (λ (n : ℕ) (x : Tables). Found x) (Statements.insert_file f t)
    unfolding Statements.insert_file
    inserted f t e =
        Post-checked (λ (n : ℕ) (x : Tables). Found x) _ _ _ t
          λ free there. unfold Found in find-appended id row f t.files e

    pub create_pending_file-Found :
        (f : File) → Keeps (Of Found) (Files.create_pending_file backend f)
    unfolding Files.create_pending_file
    create_pending_file-Found f = record {
      at = λ s h.
          (done-Keeps backend _ (
              Stable-of_Post {P = Found}
                (Statements.insert_file (file_row backend (backend.now s.link) f))
                (inserted (file_row backend (backend.now s.link) f)))).at
            s h;
    }

    pub update_file-Found :
        (id' : Str) (change : FileRow → FileRow)
        → id ≢ id'
        → ((f : FileRow) → (change f).id ≡ f.id)
        → Keeps (Of Found) (query backend (Statements.update_file id' change) >>= require_affected)
    unfolding Statements.update_file Found
    update_file-Found id' change ne same = affected-Keeps backend _ (
        Stable-of_Post {P = Found} (Statements.update_file id' change)
          λ t e. rw (find-updated id id' change t.files ne same) e)

    pub delete_file-Found :
        (id' : Str) → id ≢ id' → Keeps (Of Found) (Files.delete_file backend id')
    unfolding Files.delete_file Statements.remove_file Found
    delete_file-Found id' ne = affected-Keeps backend _ (
        Stable-of_Post {P = Found} (Statements.remove_file id')
          λ t e. rw (find-deleted id id' t.files ne) e)

    pub create_job-Found : (j : Job) → Keeps (Of Found) (Files.create_job backend j)
    unfolding Files.create_job Statements.insert_job
    create_job-Found j = done-Keeps backend _ (
        same_files _
          λ t. Post-checked (λ (n : ℕ) (x : Tables). x.files ≡ t.files) _ _ _ t λ _ _. refl)

    pub update_job-Found :
        (at : Time) (k : Str) (st : JobStatus) (e : Str)
        → Keeps (Of Found) (Files.update_job backend at k st e)
    unfolding Files.update_job Statements.update_job
    update_job-Found at k st e = affected-Keeps backend _ (same_files _ λ t. refl)

    pub create_share_link-Found :
        (l : ShareLink) → Keeps (Of Found) (Drive.create_share_link backend l)
    unfolding Drive.create_share_link Statements.insert_share
    create_share_link-Found l = done-Keeps backend _ (
        same_files _
          λ t. Post-checked (λ (n : ℕ) (x : Tables). x.files ≡ t.files) _ _ _ t λ _ _. refl)

    pub delete_share_link-Found :
        (token : Str) → Keeps (Of Found) (Drive.delete_share_link backend token)
    unfolding Drive.delete_share_link Statements.remove_share
    delete_share_link-Found token = affected-Keeps backend _ (same_files _ λ t. refl)

    pub create_folder-Found : (f : Folder) → Keeps (Of Found) (Drive.create_folder backend f)
    unfolding Drive.create_folder Statements.insert_folder
    create_folder-Found f = record {
      at = λ s h.
          run-Stable backend _ s
            (same_files _
              λ t. Post-checked (λ (n : ℕ) (x : Tables). x.files ≡ t.files) _ _ _ t λ _ _. refl)
            h;
    }

    pub delete_folder-Found : (k : Str) → Keeps (Of Found) (Drive.delete_folder backend k)
    unfolding Drive.delete_folder Statements.remove_folder
    delete_folder-Found k = affected-Keeps backend _ (
        same_files _ λ t. elim (Bool-cases (folder_in_use k t)) [
          | inl e ↦ rw (e, Post) tt
          | inr e ↦ rw (e, Post) refl
        ])

    ensured_files :
        (subject : Str) (t : Tables)
        → Post (λ _ x. x.files ≡ t.files) (Statements.ensure_quota subject t)
    unfolding Statements.ensure_quota
    ensured_files subject t =
        elim (Option-cases (first (keep (λ (q : QuotaRow). q.owner_sub == subject) t.user_quota))) [
          | inl e ↦ rw (e, Post) refl
          | inr (q, e) ↦ rw (e, Post) refl
        ]

    changed_files :
        (subject : Str) (delta : ℤ) (t : Tables)
        → Post (λ _ x. x.files ≡ t.files) (Statements.change_quota subject delta t)
    unfolding Statements.change_quota
    changed_files subject delta t = elim (Bool-cases (overflows subject delta t.user_quota)) [
      | inl e ↦ rw (e, Post) tt
      | inr e ↦ rw (e, Post) refl
    ]

    pub add_quota-Found :
        (subject : Str) (delta limit : ℤ)
        → Keeps (Of Found) (Files.add_quota backend subject delta limit)
    unfolding Files.add_quota Files.charge
    add_quota-Found subject delta limit = transaction-Keeps backend _ (
        Keeps-bind _ _ (query-Keeps backend _ (same_files _ (ensured_files subject))) λ used.
          Keeps-unless _ _ _
            λ test. done-Keeps backend _ (same_files _ (changed_files subject delta)))
