-- ===== src/Store/Memory.antt =====
-- apps/api/internal/store/memory/store.go. The mutex makes each method one step, so it is not
-- modelled.
pub mod Budget
pub mod Siblings
pub mod Latest
pub mod Listing
pub mod Invariant
use pf_media.Base.{
  Str, ℕ, Bool, true, false, not, ◌&&◌, Option, none, some, List, [], ◌∷◌, if◌then◌else◌, ◌==◌,
  str_eq, str_discrete, ltb, length, take, keep, any,
}
use pf_media.Base.Dict.{Dict, lookup, insert, erase, erase_if, values}
use pf_media.Base.Int.{ℤ, pos, ltb_ℤ, add64}
use pf_media.Domain.{
  Err, not_found, conflict, quota_exceeded, ok, err, Time, File, FileStatus, Variants, Job,
  JobStatus, ShareLink, Folder,
}
use pf_media.Exec.{Exec}
use pf_media.Store.{Store}

pub record State : Type 0 where
  pub files : Dict File
  pub jobs : Dict Job
  pub quota : Dict ℤ
  pub shares : Dict ShareLink
  pub folders : Dict Folder

-- New()
abbrev pub new : State
new = record { files = []; jobs = []; quota = []; shares = []; folders = [] }

abbrev pub or_not_found : {A : Type 0} → Option A → Exec State A
or_not_found none s = (err not_found, s)
or_not_found (some a) s = (ok a, s)

unfoldable pub create_pending_file : File → Exec State Unit
create_pending_file f s = elim (lookup f.id s.files) [
  | some _ ↦ (err conflict, s)
  | none ↦ (ok tt, record s { files = insert f.id f s.files })
]

unfoldable pub get_file : Str → Exec State File
get_file id s = or_not_found (lookup id s.files) s

unfoldable pub list_files_by_owner : Str → Str → Str → ℕ → Exec State (List File)
list_files_by_owner owner_sub org_id folder_id limit s =
    let out =
      keep
        (λ (f : File). f.owner_sub == owner_sub && f.org_id == org_id && f.folder_id == folder_id)
        (values s.files) in
    (ok (if ltb limit (length out) then take limit out else out), s)

-- `f, ok := s.files[id]; if !ok { return ErrNotFound }; …; s.files[id] = f`
abbrev pub update_file : Str → (File → File) → Exec State Unit
update_file id change s = elim (lookup id s.files) [
  | none ↦ (err not_found, s)
  | some f ↦ (ok tt, record s { files = insert id (change f) s.files })
]

unfoldable pub mark_file_ready : Str → ℤ → Exec State Unit
mark_file_ready id size =
    update_file id (λ f. record f { status = FileStatus.ready; size_bytes = size })

unfoldable pub set_file_status : Str → FileStatus → Exec State Unit
set_file_status id status = update_file id (λ f. record f { status = status })

unfoldable pub update_variants : Str → Variants → Exec State Unit
update_variants id variants =
    update_file id (λ f. record f { variants = variants; status = FileStatus.ready })

unfoldable pub create_job : Job → Exec State Unit
create_job j s = (ok tt, record s { jobs = insert j.id j s.jobs })

unfoldable pub get_job : Str → Exec State Job
get_job id s = or_not_found (lookup id s.jobs) s

-- The better of the best job so far and the next one of the file, as in the loop's body.
abbrev pub better_job : Str → Option Job → Job → Option Job
better_job file_id best j =
    if j.file_id == file_id
    then elim best [
      | none ↦ some j
      | some b ↦ if ltb b.updated_at j.updated_at then some j else some b
    ]
    else best

unfoldable pub latest_job : Str → Option Job → List Job → Option Job
latest_job file_id best [] = best
latest_job file_id best (j ∷ js) = latest_job file_id (better_job file_id best j) js

unfoldable pub get_latest_job_by_file : Str → Exec State Job
get_latest_job_by_file file_id s = or_not_found (latest_job file_id none (values s.jobs)) s

unfoldable pub update_job : Time → Str → JobStatus → Str → Exec State Unit
update_job now id status message s = elim (lookup id s.jobs) [
  | none ↦ (err not_found, s)
  | some j ↦ (
    ok tt,
    record s {
      jobs = insert id (record j { status = status; error = message; updated_at = now }) s.jobs;
    },
  )
]

-- `s.quota[ownerSub]`: a missing key reads as 0.
unfoldable pub quota_of : Str → State → ℤ
quota_of subject s = elim (lookup subject s.quota) [ none ↦ pos 0 | some used ↦ used ]

unfoldable pub add_quota : Str → ℤ → ℤ → Exec State Unit
add_quota subject delta limit s =
    let used = add64 (quota_of subject s) delta in
    if ltb_ℤ (pos 0) delta && ltb_ℤ limit used then (err quota_exceeded, s) else (
      ok tt,
      record s { quota = insert subject (if ltb_ℤ used (pos 0) then pos 0 else used) s.quota },
    )

unfoldable pub get_quota_used : Str → Exec State ℤ
get_quota_used subject s = (ok (quota_of subject s), s)

unfoldable pub delete_file : Str → Exec State Unit
delete_file id s = elim (lookup id s.files) [
  | none ↦ (err not_found, s)
  | some _ ↦ (
    ok tt,
    record s {
      files = erase id s.files;
      jobs = erase_if (λ (j : Job). j.file_id == id) s.jobs;
      shares = erase_if (λ (l : ShareLink). l.file_id == id) s.shares;
    },
  )
]

unfoldable pub create_share_link : ShareLink → Exec State Unit
create_share_link l s = elim (lookup l.token s.shares) [
  | some _ ↦ (err conflict, s)
  | none ↦ (ok tt, record s { shares = insert l.token l s.shares })
]

unfoldable pub get_share_link_by_token : Str → Exec State ShareLink
get_share_link_by_token token s = or_not_found (lookup token s.shares) s

unfoldable pub list_share_links_by_owner : Str → Str → Exec State (List ShareLink)
list_share_links_by_owner owner_sub org_id s = (
  ok (keep (λ (l : ShareLink). l.owner_sub == owner_sub && l.org_id == org_id) (values s.shares)),
  s,
)

unfoldable pub delete_share_link : Str → Exec State Unit
delete_share_link token s = elim (lookup token s.shares) [
  | none ↦ (err not_found, s)
  | some _ ↦ (ok tt, record s { shares = erase token s.shares })
]

-- The folder `g` has the owner, the parent and the name of `f`.
abbrev pub same_place : Folder → Folder → Bool
same_place f g =
    g.owner_sub == f.owner_sub
    && g.org_id == f.org_id
    && g.parent_id == f.parent_id
    && g.name == f.name

unfoldable pub create_folder : Folder → Exec State Unit
create_folder f s = elim (lookup f.id s.folders) [
  | some _ ↦ (err conflict, s)
  | none ↦
      if any (same_place f) (values s.folders)
      then (err conflict, s)
      else (ok tt, record s { folders = insert f.id f s.folders })
]

unfoldable pub get_folder : Str → Exec State Folder
get_folder id s = or_not_found (lookup id s.folders) s

unfoldable pub list_folders : Str → Str → Str → Exec State (List Folder)
list_folders owner_sub org_id parent_id s = (
  ok (
      keep
        (λ (f : Folder). f.owner_sub == owner_sub && f.org_id == org_id && f.parent_id == parent_id)
        (values s.folders)),
  s,
)

unfoldable pub folder_is_empty : Str → Exec State Bool
folder_is_empty folder_id s = (
  ok (
      not (any (λ (f : File). f.folder_id == folder_id) (values s.files))
      && not (any (λ (f : Folder). f.parent_id == folder_id) (values s.folders))),
  s,
)

unfoldable pub delete_folder : Str → Exec State Unit
delete_folder id s = elim (lookup id s.folders) [
  | none ↦ (err not_found, s)
  | some _ ↦ (ok tt, record s { folders = erase id s.folders })
]

-- The memory store as a `domain.Store`.
abbrev pub memory_store : Store State
memory_store = record {
  create_pending_file = create_pending_file;
  get_file = get_file;
  list_files_by_owner = list_files_by_owner;
  mark_file_ready = mark_file_ready;
  set_file_status = set_file_status;
  update_variants = update_variants;
  create_job = create_job;
  get_job = get_job;
  get_latest_job_by_file = get_latest_job_by_file;
  update_job = update_job;
  add_quota = add_quota;
  get_quota_used = get_quota_used;
  delete_file = delete_file;
  create_share_link = create_share_link;
  get_share_link_by_token = get_share_link_by_token;
  list_share_links_by_owner = list_share_links_by_owner;
  delete_share_link = delete_share_link;
  create_folder = create_folder;
  get_folder = get_folder;
  list_folders = list_folders;
  folder_is_empty = folder_is_empty;
  delete_folder = delete_folder;
}
