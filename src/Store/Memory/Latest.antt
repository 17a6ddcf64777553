-- ===== src/Store/Memory/Latest.antt =====
-- `GetLatestJobByFile` of the memory store.
use pf_media.Base.{
  Str, ◌≤◌, ◌≡◌, ◌≢◌, Option-cases, refl, ◌∙◌, sym, Option, none, some, List, [], ◌∷◌, arith, All,
  In, ◌⊎◌, inl, inr, Bool-cases, ◌==◌, ltb, str_eq,
}
use mathlib.Core.Option.{some-injective}
use pf_media.Base.Dict.{values}
use pf_media.Domain.{Job, ok, err, not_found}
use pf_media.Store.Memory.{State, better_job, latest_job, get_latest_job_by_file}

-- `j` is no job of the file, or not later than `b`.
abbrev pub NotLater : Str → Job → Job → Type 0
NotLater file_id b j = j.file_id ≡ file_id → j.updated_at ≤ b.updated_at

-- What holds of the best job so far.
abbrev OfFile : Str → Option Job → Type 0
OfFile file_id none = Unit
OfFile file_id (some b) = b.file_id ≡ file_id

abbrev AtLeast : Option Job → Job → Type 0
AtLeast none b = Unit
AtLeast (some a) b = a.updated_at ≤ b.updated_at

better_job-OfFile :
    (file_id : Str) (best : Option Job) (j : Job)
    → OfFile file_id best
    → OfFile file_id (better_job file_id best j)
better_job-OfFile file_id none j h = ground arith
better_job-OfFile file_id (some b) j h = ground arith

better_job-either :
    (file_id : Str) (best : Option Job) (j : Job)
    → (better_job file_id best j ≡ best) ⊎ (better_job file_id best j ≡ some j)
better_job-either file_id none j = elim (Bool-cases (j.file_id == file_id)) [
  | inl e ↦ rw e (inr refl)
  | inr e ↦ rw e (inl refl)
]
better_job-either file_id (some b) j = elim (Bool-cases (j.file_id == file_id)) [
  | inr e ↦ rw e (inl refl)
  | inl e ↦ rw e (elim (Bool-cases (ltb b.updated_at j.updated_at)) [
    | inl later ↦ rw later (inr refl)
    | inr not_later ↦ rw not_later (inl refl)
  ])
]

-- The job that the loop ends with is the one it began with or a job of the list.
latest_job-In :
    (file_id : Str) (best : Option Job) (js : List Job) (b : Job)
    → latest_job file_id best js ≡ some b
    → (best ≡ some b) ⊎ In b js
unfolding latest_job
latest_job-In file_id best [] b e = inl e
latest_job-In file_id best (j ∷ js) b e =
    elim (latest_job-In file_id (better_job file_id best j) js b e) [
      | inr later ↦ inr (inr later)
      | inl now ↦ elim (better_job-either file_id best j) [
        | inl kept ↦ inl (sym kept ∙ now)
        | inr taken ↦ inr (inl (sym (some-injective _ _ (sym taken ∙ now))))
      ]
    ]

-- The job that the loop ends with is of the file, not earlier than the one it began with, and no
-- job of the file in the list is later.
latest_job_lem :
    (file_id : Str) (best : Option Job) (js : List Job) (b : Job)
    → OfFile file_id best
    → latest_job file_id best js ≡ some b
    → (b.file_id ≡ file_id) × AtLeast best b × All (NotLater file_id b) js
unfolding latest_job
latest_job_lem file_id none [] b h e = cc
latest_job_lem file_id (some a) [] b h e = ground arith
latest_job_lem file_id none (j ∷ js) b h e = ground (
  arith,
  latest_job_lem file_id (better_job file_id none j) js b,
  better_job-OfFile file_id none j h,
)
latest_job_lem file_id (some a) (j ∷ js) b h e = ground (
  arith,
  latest_job_lem file_id (better_job file_id (some a) j) js b,
  better_job-OfFile file_id (some a) j h,
)

-- Without an answer there was no job to begin with, and the list has none of the file.
latest_job-none :
    (file_id : Str) (best : Option Job) (js : List Job)
    → latest_job file_id best js ≡ none
    → (best ≡ none) × All (λ j. j.file_id ≢ file_id) js
unfolding latest_job
latest_job-none file_id best [] e = (e, tt)
latest_job-none file_id none (j ∷ js) e =
    ground (arith, latest_job-none file_id (better_job file_id none j) js)
latest_job-none file_id (some a) (j ∷ js) e =
    ground (arith, latest_job-none file_id (better_job file_id (some a) j) js)

found_latest :
    (file_id : Str) (s : State) (b : Job)
    → latest_job file_id none (values s.jobs) ≡ some b
    → In b (values s.jobs) × (b.file_id ≡ file_id) × All (NotLater file_id b) (values s.jobs)
found_latest file_id s b e =
    let stored : In b (values s.jobs) = elim (latest_job-In file_id none (values s.jobs) b e) [
      | inl h ↦ cc
      | inr i ↦ i
    ] in
    let (of_file, _, no_later) = latest_job_lem file_id none (values s.jobs) b tt e in
    (stored, of_file, no_later)

-- `GetLatestJobByFile` returns a stored job of the file, than which no job of the file in the store
-- is later, or it fails with `ErrNotFound`, and the store has no job of the file.
pub get_latest_job_by_file_lem :
    (file_id : Str) (s : State)
    → ((b : Job) × ((get_latest_job_by_file file_id s).0 ≡ ok b)
        × In b (values s.jobs)
        × (b.file_id ≡ file_id)
        × All (NotLater file_id b) (values s.jobs))
      ⊎ (((get_latest_job_by_file file_id s).0 ≡ err not_found)
          × All (λ j. j.file_id ≢ file_id) (values s.jobs))
unfolding get_latest_job_by_file
get_latest_job_by_file_lem file_id s =
    elim (Option-cases (latest_job file_id none (values s.jobs))) [
      | inl e ↦ inr (rw e refl, (latest_job-none file_id none (values s.jobs) e).1)
      | inr (b, e) ↦
          let (stored, of_file, no_later) = found_latest file_id s b e in
          inl (b, rw e refl, stored, of_file, no_later)
    ]
