-- ===== src/Store/Postgres/Statements.antt =====
-- The SQL of apps/api/internal/store/postgres/store.go, with the keys and the references that the
-- migrations declare: a statement that a constraint forbids is refused with its SQLSTATE.
use pf_media.Base.{
  Str, ℕ, ◌+◌, Bool, true, not, ◌&&◌, ◌||◌, Option, none, some, List, [], ◌∷◌, ◌++◌, if◌then◌else◌,
  ◌==◌, str_eq, leb, length, take, keep, any, codes,
}
use pf_media.Base.Int.{ℤ, pos, negsuc, ltb_ℤ, leb_ℤ, ◌+ℤ◌}
use pf_media.Domain.{Time, JobStatus}
use pf_media.Store.Postgres.Rows.{
  FileRow, JobRow, QuotaRow, ShareRow, FolderRow, Tables, pg_error, done, refused, Statement,
  update_where, delete_where, first, order_by, not_distinct, is_value, or_empty,
}

-- The SQLSTATE of a violated key, of a violated reference, and of a number out of range.
abbrev pub unique_violation : Str
unique_violation = codes "23505"

abbrev pub foreign_key_violation : Str
foreign_key_violation = codes "23503"

abbrev pub out_of_range : Str
out_of_range = codes "22003"

-- A row that violates a key, or else a reference, is refused.
abbrev pub checked : {A : Type 0} → Bool → Bool → A × Tables → Statement A
checked taken dangling r t =
    if taken
    then refused (pg_error unique_violation)
    else if dangling
    then refused (pg_error foreign_key_violation)
    else done r

unfoldable pub has_folder : Str → List FolderRow → Bool
has_folder id rows = any (λ (d : FolderRow). d.id == id) rows

-- The folder that a foreign key names is there; a NULL names none.
abbrev pub folder_there : Option Str → List FolderRow → Bool
folder_there none rows = true
folder_there (some id) rows = has_folder id rows

unfoldable pub file_there : Str → List FileRow → Bool
file_there id rows = any (λ (f : FileRow). f.id == id) rows

-- Two rows that the primary key or a unique column forbids beside each other.
abbrev pub same_file : FileRow → FileRow → Bool
same_file x f = x.id == f.id || x.object_key == f.object_key

abbrev pub same_job : JobRow → JobRow → Bool
same_job x j = x.id == j.id

abbrev pub same_quota : QuotaRow → QuotaRow → Bool
same_quota x q = x.owner_sub == q.owner_sub

abbrev pub same_share : ShareRow → ShareRow → Bool
same_share x l = x.id == l.id || x.token == l.token

-- The unique index of the folders does not have the organisation.
abbrev pub same_folder : FolderRow → FolderRow → Bool
same_folder x f =
    x.id == f.id
    || (x.owner_sub == f.owner_sub
        && or_empty x.parent_id == or_empty f.parent_id
        && x.name == f.name)

unfoldable pub insert_file : FileRow → Statement ℕ
unfolding file_there
insert_file f t =
    checked (any (λ x. same_file x f) t.files) (not (folder_there f.folder_id t.folders))
      (1, record t { files = t.files ++ (f ∷ []) }) t

abbrev pub find_file : Str → Tables → Option FileRow
find_file id t = first (keep (λ (f : FileRow). f.id == id) t.files)

abbrev pub later_file : FileRow → FileRow → Bool
later_file a b = leb b.created_at a.created_at

unfoldable pub files_of : Str → Str → Option Str → ℕ → Tables → List FileRow
files_of owner_sub org_id folder_id limit t = take limit (
    order_by later_file (
      keep
        (λ (f : FileRow).
          f.owner_sub == owner_sub && f.org_id == org_id && not_distinct f.folder_id folder_id)
        t.files))

-- An UPDATE of the file of an id, with the number of rows that it has changed.
unfoldable pub update_file : Str → (FileRow → FileRow) → Statement ℕ
update_file id change t = done (
  length (keep (λ (f : FileRow). f.id == id) t.files),
  record t { files = update_where (λ (f : FileRow). f.id == id) change t.files },
)

-- The jobs and the links of a file that goes are deleted with it.
unfoldable pub remove_file : Str → Statement ℕ
remove_file id t = done (
  length (keep (λ (f : FileRow). f.id == id) t.files),
  record t {
    files = delete_where (λ (f : FileRow). f.id == id) t.files;
    jobs =
        if file_there id t.files
        then delete_where (λ (j : JobRow). j.file_id == id) t.jobs
        else t.jobs;
    share_links =
        if file_there id t.files
        then delete_where (λ (l : ShareRow). l.file_id == id) t.share_links
        else t.share_links;
  },
)

unfoldable pub insert_job : JobRow → Statement ℕ
insert_job j t =
    checked (any (λ x. same_job x j) t.jobs) (not (file_there j.file_id t.files))
      (1, record t { jobs = t.jobs ++ (j ∷ []) }) t

abbrev pub find_job : Str → Tables → Option JobRow
find_job id t = first (keep (λ (j : JobRow). j.id == id) t.jobs)

abbrev pub later_job : JobRow → JobRow → Bool
later_job a b = leb b.updated_at a.updated_at

unfoldable pub newest_job : Str → Tables → Option JobRow
newest_job file_id t =
    first (take 1 (order_by later_job (keep (λ (j : JobRow). j.file_id == file_id) t.jobs)))

unfoldable pub update_job : Str → JobStatus → Str → Time → Statement ℕ
update_job id status message now t = done (
  length (keep (λ (j : JobRow). j.id == id) t.jobs),
  record t {
    jobs =
        update_where (λ (j : JobRow). j.id == id)
          (λ j. record j { status = status; error = message; updated_at = now }) t.jobs;
  },
)

-- `INSERT … ON CONFLICT … RETURNING used_bytes`
unfoldable pub ensure_quota : Str → Statement ℤ
ensure_quota owner_sub t =
    elim (first (keep (λ (q : QuotaRow). q.owner_sub == owner_sub) t.user_quota)) [
      | some q ↦ done (q.used_bytes, t)
      | none ↦ done (
        pos 0,
        record t {
          user_quota = t.user_quota ++ (record { owner_sub = owner_sub; used_bytes = pos 0 } ∷ []);
        },
      )
    ]

-- The range of a BIGINT.
abbrev pub is_bigint : ℤ → Bool
is_bigint a = leb_ℤ (negsuc 9223372036854775807) a && leb_ℤ a (pos 9223372036854775807)

-- `used_bytes + $2` is out of range in a row of the subject.
abbrev pub overflows : Str → ℤ → List QuotaRow → Bool
overflows owner_sub delta rows =
    any (λ (q : QuotaRow). q.owner_sub == owner_sub && not (is_bigint (q.used_bytes +ℤ delta))) rows

-- `SET used_bytes = GREATEST(0, used_bytes + $2)`
abbrev pub changed_quota : Str → ℤ → List QuotaRow → List QuotaRow
changed_quota owner_sub delta rows =
    update_where (λ (q : QuotaRow). q.owner_sub == owner_sub)
      (λ q.
        let used = q.used_bytes +ℤ delta in
        record q { used_bytes = if ltb_ℤ used (pos 0) then pos 0 else used })
      rows

unfoldable pub change_quota : Str → ℤ → Statement ℕ
change_quota owner_sub delta t =
    if overflows owner_sub delta t.user_quota
    then refused (pg_error out_of_range)
    else done (
      length (keep (λ (q : QuotaRow). q.owner_sub == owner_sub) t.user_quota),
      record t { user_quota = changed_quota owner_sub delta t.user_quota },
    )

abbrev pub find_quota : Str → Tables → Option QuotaRow
find_quota owner_sub t = first (keep (λ (q : QuotaRow). q.owner_sub == owner_sub) t.user_quota)

unfoldable pub insert_share : ShareRow → Statement ℕ
insert_share l t =
    checked (any (λ x. same_share x l) t.share_links) (not (file_there l.file_id t.files))
      (1, record t { share_links = t.share_links ++ (l ∷ []) }) t

abbrev pub find_share : Str → Tables → Option ShareRow
find_share token t = first (keep (λ (l : ShareRow). l.token == token) t.share_links)

abbrev pub later_share : ShareRow → ShareRow → Bool
later_share a b = leb b.created_at a.created_at

unfoldable pub shares_of : Str → Str → Tables → List ShareRow
shares_of owner_sub org_id t =
    order_by later_share
      (keep (λ (l : ShareRow). l.owner_sub == owner_sub && l.org_id == org_id) t.share_links)

unfoldable pub remove_share : Str → Statement ℕ
remove_share token t = done (
  length (keep (λ (l : ShareRow). l.token == token) t.share_links),
  record t { share_links = delete_where (λ (l : ShareRow). l.token == token) t.share_links },
)

unfoldable pub insert_folder : FolderRow → Statement ℕ
insert_folder f t =
    checked (any (λ x. same_folder x f) t.folders)
      (not (folder_there f.parent_id (t.folders ++ (f ∷ []))))
      (1, record t { folders = t.folders ++ (f ∷ []) }) t

abbrev pub find_folder : Str → Tables → Option FolderRow
find_folder id t = first (keep (λ (f : FolderRow). f.id == id) t.folders)

unfoldable pub folders_of : (Str → Str → Bool) → Str → Str → Option Str → Tables → List FolderRow
folders_of collation owner_sub org_id parent_id t =
    order_by (λ (a b : FolderRow). collation a.name b.name)
      (keep
        (λ (f : FolderRow).
          f.owner_sub == owner_sub && f.org_id == org_id && not_distinct f.parent_id parent_id)
        t.folders)

unfoldable pub count_in_folder : Str → Tables → ℕ
count_in_folder folder_id t =
    length (keep (λ (f : FileRow). is_value f.folder_id folder_id) t.files)
    + length (keep (λ (f : FolderRow). is_value f.parent_id folder_id) t.folders)

-- `ON DELETE RESTRICT`: the folder is there, and a file or a folder refers to it.
abbrev pub folder_in_use : Str → Tables → Bool
folder_in_use id t =
    has_folder id t.folders
    && (any (λ (f : FileRow). is_value f.folder_id id) t.files
        || any (λ (f : FolderRow). is_value f.parent_id id) t.folders)

unfoldable pub remove_folder : Str → Statement ℕ
remove_folder id t =
    let there = λ (f : FolderRow). f.id == id in
    if folder_in_use id t
    then refused (pg_error foreign_key_violation)
    else done (length (keep there t.folders), record t { folders = delete_where there t.folders })
