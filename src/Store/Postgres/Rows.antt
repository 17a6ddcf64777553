-- ===== src/Store/Postgres/Rows.antt =====
-- The tables of apps/api/internal/store/postgres/migrations, and what a statement does to them. The
-- text of a status is kept as the status.
use pf_media.Base.{
  Str, Bool, true, false, Option, none, some, List, [], ◌∷◌, if◌then◌else◌, ◌==◌, str_eq,
}
use pf_media.Base.Int.{ℤ}
use pf_media.Domain.{Time, FileStatus, JobStatus}

-- A NULL is `none`; `variants` is the text of the JSONB.
pub record FileRow : Type 0 where
  pub id : Str
  pub owner_sub : Str
  pub org_id : Str
  pub folder_id : Option Str
  pub object_key : Str
  pub content_type : Str
  pub size_bytes : ℤ
  pub purpose : Str
  pub status : FileStatus
  pub variants : Str
  pub created_at : Time

pub record JobRow : Type 0 where
  pub id : Str
  pub file_id : Str
  pub status : JobStatus
  pub error : Str
  pub updated_at : Time

pub record QuotaRow : Type 0 where
  pub owner_sub : Str
  pub used_bytes : ℤ

pub record ShareRow : Type 0 where
  pub id : Str
  pub token : Str
  pub file_id : Str
  pub owner_sub : Str
  pub org_id : Str
  pub password_hash : Str
  pub expires_at : Time
  pub created_at : Time

pub record FolderRow : Type 0 where
  pub id : Str
  pub owner_sub : Str
  pub org_id : Str
  pub parent_id : Option Str
  pub name : Str
  pub created_at : Time

pub record Tables : Type 0 where
  pub files : List FileRow
  pub jobs : List JobRow
  pub user_quota : List QuotaRow
  pub share_links : List ShareRow
  pub folders : List FolderRow

-- Why a call of pgx fails: an error of the server with its SQLSTATE, or another one.
pub data Failure : Type 0 where
  pg_error : Str → Failure
  lost : Str → Failure

pub data Outcome (A : Type 0) : Type 0 where
  done : A → Outcome A
  refused : Failure → Outcome A

-- A statement that fails changes nothing.
abbrev pub Statement : Type 0 → Type 0
Statement A = Tables → Outcome (A × Tables)

-- A SELECT.
abbrev pub select : {A : Type 0} → (Tables → A) → Statement A
select read t = done (read t, t)

module _ {A : Type 0} where
  -- `UPDATE … SET … WHERE p`
  unfoldable pub update_where : (A → Bool) → (A → A) → List A → List A
  update_where p change [] = []
  update_where p change (r ∷ rs) = (if p r then change r else r) ∷ update_where p change rs

  -- `DELETE … WHERE p`: the rows that stay.
  unfoldable pub delete_where : (A → Bool) → List A → List A
  delete_where p [] = []
  delete_where p (r ∷ rs) = let rest = delete_where p rs in if p r then rest else r ∷ rest

  unfoldable pub first : List A → Option A
  first [] = none
  first (r ∷ _) = some r

  unfoldable pub insert_ordered : (A → A → Bool) → A → List A → List A
  insert_ordered le r [] = r ∷ []
  insert_ordered le r (s ∷ rs) =
      let rest = insert_ordered le r rs in if le r s then r ∷ s ∷ rs else s ∷ rest

  -- `ORDER BY`. SQL leaves the order of equals open; here they keep that of the table.
  unfoldable pub order_by : (A → A → Bool) → List A → List A
  order_by le [] = []
  order_by le (r ∷ rs) = insert_ordered le r (order_by le rs)

-- `a IS NOT DISTINCT FROM b`
abbrev pub not_distinct : Option Str → Option Str → Bool
not_distinct none none = true
not_distinct none (some y) = false
not_distinct (some x) none = false
not_distinct (some x) (some y) = x == y

-- `a = b`, where a NULL is equal to nothing.
abbrev pub is_value : Option Str → Str → Bool
is_value none y = false
is_value (some x) y = x == y

-- `COALESCE(a, '')`
abbrev pub or_empty : Option Str → Str
or_empty none = []
or_empty (some x) = x
