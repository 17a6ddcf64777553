-- ===== src/Store/Memory/Budget.antt =====
-- The quota of the memory store: `AddQuota` and its limit.
use pf_media.Base.{Str, arith, Option-cases, str_eq, if◌then◌else◌, inl, inr}
use pf_media.Base.Dict.{AllValues, insert-AllValues, lookup-AllValues, lookup}
use pf_media.Base.Int.{ℤ, pos, ◌≤ℤ◌, InInt64, add64, ltb_ℤ}
use pf_media.Exec.Keeps.{Keeps}
use pf_media.Store.Memory.{State, quota_of, add_quota}

abbrev pub Within : ℤ → ℤ → Type 0
Within limit used = (pos 0 ≤ℤ used) × (used ≤ℤ limit)

-- Every subject's use is between 0 and the limit.
pub record InBudget (limit : ℤ) (s : State) : Type 0 where
  pub within : AllValues (Within limit) s.quota

pub quota_of-Within :
    (limit : ℤ) (subject : Str) (s : State)
    → pos 0 ≤ℤ limit
    → InBudget limit s
    → Within limit (quota_of subject s)
unfolding quota_of
quota_of-Within limit subject s h b = elim (Option-cases (lookup subject s.quota)) [
  | inl e ↦ rw (e, quota_of) (omega arith, h)
  | inr (used, e) ↦
      rw (e, quota_of) (lookup-AllValues (Within limit) subject s.quota used b.within e)
]

-- A sum that wraps is below 0, so the test of the limit and the floor at 0 still bound it.
add64-le :
    (limit used delta : ℤ)
    → Within limit used
    → InInt64 limit
    → InInt64 delta
    → delta ≤ℤ pos 0
    → add64 used delta ≤ℤ limit
unfolding add64
add64-le limit used delta u l d h = ground arith

floored-Within :
    (limit used : ℤ)
    → pos 0 ≤ℤ limit
    → used ≤ℤ limit
    → Within limit (if ltb_ℤ used (pos 0) then pos 0 else used)
floored-Within limit used h u = ground arith

-- `AddQuota` keeps every subject's use between 0 and the limit, also where its sum wraps.
pub add_quota-InBudget :
    (limit : ℤ) (subject : Str) (delta : ℤ)
    → pos 0 ≤ℤ limit
    → InInt64 limit
    → InInt64 delta
    → Keeps (InBudget limit) (add_quota subject delta limit)
unfolding add_quota
add_quota-InBudget limit subject delta h l d = record {
  at = λ s b.
      let used = add64 (quota_of subject s) delta in
      let fits = quota_of-Within limit subject s h b in
      ground (
        arith,
        add64-le limit (quota_of subject s) delta fits l d,
        floored-Within limit used h,
        insert-AllValues (Within limit) subject (if ltb_ℤ used (pos 0) then pos 0 else used)
            s.quota,
      );
}
