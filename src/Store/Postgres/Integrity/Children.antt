-- ===== src/Store/Postgres/Integrity/Children.antt =====
-- The keys and the references of the tables under the statements on jobs, links and the quota.
use pf_media.Base.{Str, refl, List, arith, str_eq, ◌==◌, keep, Option-cases, Bool-cases, inl, inr}
use pf_media.Base.Int.{ℤ}
use pf_media.Domain.{JobStatus, Time}
use pf_media.Store.Postgres.Rows.{first, QuotaRow, JobRow, ShareRow, Tables}
use pf_media.Store.Postgres.Statements
use pf_media.Store.Postgres.Statements.{
  same_file, same_job, same_share, same_folder, file_there, has_folder, folder_there, overflows,
  checked,
}
use pf_media.Store.Postgres.Changing.{
  All-append, All-update_where, All-delete_where, Distinct-append, Distinct-update_where,
  Distinct-delete_where,
}
use pf_media.Store.Postgres.Keeping.{Post}
use pf_media.Store.Postgres.Integrity.{Intact, Kept, Post-checked}

module _ (t : Tables) (h : Intact t) where
  pub insert_job-Kept : (j : JobRow) → Post (λ _. Kept t) (Statements.insert_job j t)
  unfolding Statements.insert_job
  insert_job-Kept j =
      Post-checked (λ _. Kept t) _ _ _ t
        λ free there. (
          record {
            files_keyed = h.files_keyed;
            jobs_keyed = Distinct-append same_job t.jobs j free h.jobs_keyed;
            shares_keyed = h.shares_keyed;
            folders_keyed = h.folders_keyed;
            jobs_refer = All-append _ t.jobs j h.jobs_refer (ground arith);
            shares_refer = h.shares_refer;
            files_placed = h.files_placed;
            folders_placed = h.folders_placed;
          },
          refl,
        )

  pub update_job-Kept :
      (id : Str) (st : JobStatus) (message : Str) (now : Time)
      → Post (λ _. Kept t) (Statements.update_job id st message now t)
  unfolding Statements.update_job
  update_job-Kept id st message now = (
    record {
      files_keyed = h.files_keyed;
      jobs_keyed =
          Distinct-update_where same_job _ _ t.jobs (λ r s. refl) (λ r s. refl) h.jobs_keyed;
      shares_keyed = h.shares_keyed;
      folders_keyed = h.folders_keyed;
      jobs_refer = All-update_where _ _ _ _ t.jobs (λ j e _. e) (λ j e _. e) h.jobs_refer;
      shares_refer = h.shares_refer;
      files_placed = h.files_placed;
      folders_placed = h.folders_placed;
    },
    refl,
  )

  pub insert_share-Kept : (l : ShareRow) → Post (λ _. Kept t) (Statements.insert_share l t)
  unfolding Statements.insert_share
  insert_share-Kept l =
      Post-checked (λ _. Kept t) _ _ _ t
        λ free there. (
          record {
            files_keyed = h.files_keyed;
            jobs_keyed = h.jobs_keyed;
            shares_keyed = Distinct-append same_share t.share_links l free h.shares_keyed;
            folders_keyed = h.folders_keyed;
            jobs_refer = h.jobs_refer;
            shares_refer = All-append _ t.share_links l h.shares_refer (ground arith);
            files_placed = h.files_placed;
            folders_placed = h.folders_placed;
          },
          refl,
        )

  pub remove_share-Kept : (token : Str) → Post (λ _. Kept t) (Statements.remove_share token t)
  unfolding Statements.remove_share
  remove_share-Kept token = (
    record {
      files_keyed = h.files_keyed;
      jobs_keyed = h.jobs_keyed;
      shares_keyed = Distinct-delete_where same_share _ t.share_links h.shares_keyed;
      folders_keyed = h.folders_keyed;
      jobs_refer = h.jobs_refer;
      shares_refer = All-delete_where _ _ _ t.share_links (λ l e _. e) h.shares_refer;
      files_placed = h.files_placed;
      folders_placed = h.folders_placed;
    },
    refl,
  )

  -- The rows of the quota refer to nothing.
  quota-Intact : (rows : List QuotaRow) → Intact (record t { user_quota = rows })
  quota-Intact rows = record {
    files_keyed = h.files_keyed;
    jobs_keyed = h.jobs_keyed;
    shares_keyed = h.shares_keyed;
    folders_keyed = h.folders_keyed;
    jobs_refer = h.jobs_refer;
    shares_refer = h.shares_refer;
    files_placed = h.files_placed;
    folders_placed = h.folders_placed;
  }

  pub ensure_quota-Intact :
      (subject : Str) → Post (λ _ t'. Intact t') (Statements.ensure_quota subject t)
  unfolding Statements.ensure_quota
  ensure_quota-Intact subject =
      elim (Option-cases (first (keep (λ (q : QuotaRow). q.owner_sub == subject) t.user_quota))) [
        | inl n ↦ rw (n, Post) (quota-Intact _)
        | inr (q, n) ↦ rw (n, Post) h
      ]

  pub change_quota-Intact :
      (subject : Str) (delta : ℤ)
      → Post (λ _ t'. Intact t') (Statements.change_quota subject delta t)
  unfolding Statements.change_quota
  change_quota-Intact subject delta = elim (Bool-cases (overflows subject delta t.user_quota)) [
    | inl e ↦ rw (e, Post) tt
    | inr e ↦ rw (e, Post) (quota-Intact _)
  ]
