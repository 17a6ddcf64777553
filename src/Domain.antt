-- ===== src/Domain.antt =====
-- apps/api/internal/domain/domain.go: the persistence-agnostic media model.
pub mod Results
pub mod Json
use Prim.Native.Nat.{ℕ}
use pf_media.Base.{Str, Bool, true, false, Eq}
use pf_media.Base.Dict.{Dict}
use pf_media.Base.Int.{ℤ}

-- The sentinel errors of the package, an error of another package, and `fmt.Errorf("…: %w", err)`.
pub data Err : Type 0 where
  not_found forbidden conflict quota_exceeded invalid too_large expired password_required : Err
  other : Str → Err
  wrapped : Str → Err → Err

pub data Result {ℓ} (A : Type ℓ) : Type ℓ where
  ok : A → Result A
  err : Err → Result A

-- errors.Is(err, domain.ErrNotFound)
abbrev pub is_not_found : Err → Bool
is_not_found not_found = true
is_not_found (wrapped _ e) = is_not_found e
is_not_found _ = false

-- A time.Time: nanoseconds since the epoch.
abbrev pub Time : Type 0
Time = ℕ

pub data FileStatus : Type 0 where
  pending ready failed : FileStatus

pub data JobStatus : Type 0 where
  queued processing succeeded failed : JobStatus

unfoldable pub FileStatus-discrete : Discrete FileStatus
FileStatus-discrete = hlevel

unfoldable pub JobStatus-discrete : Discrete JobStatus
JobStatus-discrete = hlevel

instance abbrev pub file_status_eq : Eq FileStatus
file_status_eq = record { dec = FileStatus-discrete }

instance abbrev pub job_status_eq : Eq JobStatus
job_status_eq = record { dec = JobStatus-discrete }

pub record Variant : Type 0 where
  pub key : Str
  pub content_type : Str

abbrev pub Variants : Type 0
Variants = Dict Variant

pub record File : Type 0 where
  pub id : Str
  pub owner_sub : Str
  pub org_id : Str
  pub folder_id : Str
  pub object_key : Str
  pub content_type : Str
  pub size_bytes : ℤ
  pub purpose : Str
  pub status : FileStatus
  pub variants : Variants
  pub created_at : Time

pub record Folder : Type 0 where
  pub id : Str
  pub owner_sub : Str
  pub org_id : Str
  pub parent_id : Str
  pub name : Str
  pub created_at : Time

pub record Job : Type 0 where
  pub id : Str
  pub file_id : Str
  pub status : JobStatus
  pub error : Str
  pub updated_at : Time

pub record ShareLink : Type 0 where
  pub id : Str
  pub token : Str
  pub file_id : Str
  pub owner_sub : Str
  pub org_id : Str
  pub password_hash : Str
  pub expires_at : Time
  pub created_at : Time
