-- ===== src/Store/Postgres/AsMemory/Children.antt =====
-- The methods of the Postgres store on jobs and share links, beside those of the memory store.
use pf_media.Base.{Str, ℕ, refl, arith, str_eq, nat_eq, Option-cases, inl, inr}
use pf_media.Domain.{ok, Job, JobStatus, ShareLink, Time}
use pf_media.Store.Memory
use pf_media.Store.Memory.{State, or_not_found}
use pf_media.Store.Postgres.Rows.{Tables, JobRow, ShareRow}
use pf_media.Store.Postgres.Statements
use pf_media.Store.Postgres.Pool.{Backend, Db}
use pf_media.Store.Postgres.Scanning.{scan_job, scan_share}
use pf_media.Store.Postgres.Changing.{any-weaken}
use pf_media.Store.Postgres.Keeping.{Post}
use pf_media.Store.Postgres.Integrity.{Intact, Post-checked}
use pf_media.Store.Postgres.Viewing.{
  find, lookup-entries, insert-entries, erase-entries, update-entries, find-none, find-none_of_any,
  affected-none, affected-some, deleted-none, unchanged,
}
use pf_media.Store.Postgres.AsMemory.{
  view, Matches, Follows, query-Follows, row-Answers, affected-Answers, pure-Answers,
  affected_or_not,
}
use pf_media.Store.Postgres.Files
use pf_media.Store.Postgres.Drive
use pf_media.Store.Postgres.AsMemory.Files.{or_not_found_scanned}

module _ {C : Type 0} (backend : Backend C) where
  open backend use {timestamptz}

  -- What a column of times keeps of a job and of a link.
  unfoldable pub kept_job : Job → Job
  kept_job j = record j { updated_at = timestamptz j.updated_at }

  unfoldable pub kept_share : ShareLink → ShareLink
  kept_share l = record l {
    expires_at = timestamptz l.expires_at;
    created_at = timestamptz l.created_at;
  }

  pub get_job-Follows :
      (id : Str) (s : Db C)
      → Follows backend s (Memory.get_job id (view backend s.tables)) (Files.get_job backend id s)
  unfolding Files.get_job Memory.get_job view
  get_job-Follows id s = query-Follows backend _ _ _ s _ (row-Answers backend scan_job) (
      rw
        (
          lookup-entries (λ (r : JobRow). r.id) scan_job id s.tables.jobs,
          or_not_found_scanned backend scan_job,
        )
        (refl, refl))

  pub get_share_link_by_token-Follows :
      (token : Str) (s : Db C)
      → Follows backend s
          (Memory.get_share_link_by_token token (view backend s.tables))
          (Drive.get_share_link_by_token backend token s)
  unfolding Drive.get_share_link_by_token Memory.get_share_link_by_token view
  get_share_link_by_token-Follows token s =
      query-Follows backend _ _ _ s _ (row-Answers backend scan_share) (
        rw
          (
            lookup-entries (λ (r : ShareRow). r.token) scan_share token s.tables.share_links,
            or_not_found_scanned backend scan_share,
          )
          (refl, refl))

  module _ (t : Tables) (h : Intact t) where
    update_job-Matches :
        (at : Time) (id : Str) (st : JobStatus) (e : Str)
        → Post
            (Matches backend
              (affected_or_not backend)
              (Memory.update_job at id st e (view backend t)))
            (Statements.update_job id st e at t)
    unfolding Statements.update_job Memory.update_job view
    update_job-Matches at id st message =
        let id_of = λ (r : JobRow). r.id in
        let change = λ (r : JobRow). record r { status = st; error = message; updated_at = at } in
        elim (Option-cases (find id_of id t.jobs)) [
          | inl e ↦
              let gone = find-none id_of id t.jobs e in
              rw
                (
                  Memory.update_job,
                  lookup-entries id_of scan_job id t.jobs,
                  e,
                  affected-none id_of id t.jobs gone,
                  unchanged id_of id change t.jobs gone,
                )
                (refl, refl)
          | inr (r, e) ↦
              rw
                (
                  Memory.update_job,
                  lookup-entries id_of scan_job id t.jobs,
                  e,
                  affected-some id_of id r t.jobs e,
                  update-entries id_of scan_job id change r t.jobs (λ x. refl) h.jobs_keyed e,
                )
                (refl, refl)
        ]

    insert_job-Matches :
        (row : JobRow)
        → Post
            (Matches backend (λ (n : ℕ). ok tt) (Memory.create_job (scan_job row) (view backend t)))
            (Statements.insert_job row t)
    unfolding Statements.insert_job Memory.create_job view
    insert_job-Matches row =
        Post-checked
          (Matches backend (λ (n : ℕ). ok tt) (Memory.create_job (scan_job row) (view backend t))) _
          _ _ t
          λ free there.
            rw (insert-entries (λ (r : JobRow). r.id) scan_job row t.jobs free) (refl, refl)

    insert_share-Matches :
        (row : ShareRow)
        → Post
            (Matches backend
              (λ (n : ℕ). ok tt)
              (Memory.create_share_link (scan_share row) (view backend t)))
            (Statements.insert_share row t)
    unfolding Statements.insert_share Memory.create_share_link view
    insert_share-Matches row =
        Post-checked
          (Matches backend (λ (n : ℕ). ok tt)
            (Memory.create_share_link (scan_share row) (view backend t)))
          _ _ _ t
          λ free there.
            let token_of = λ (r : ShareRow). r.token in
            let fresh = any-weaken _ _ t.share_links (λ x e. ground arith) free in
            rw
              (
                Memory.create_share_link,
                lookup-entries token_of scan_share row.token t.share_links,
                find-none_of_any token_of row.token t.share_links fresh,
                insert-entries token_of scan_share row t.share_links fresh,
              )
              (refl, refl)

    remove_share-Matches :
        (token : Str)
        → Post
            (Matches backend
              (affected_or_not backend)
              (Memory.delete_share_link token (view backend t)))
            (Statements.remove_share token t)
    unfolding Statements.remove_share Memory.delete_share_link view
    remove_share-Matches token =
        let token_of = λ (r : ShareRow). r.token in
        elim (Option-cases (find token_of token t.share_links)) [
          | inl e ↦
              let gone = find-none token_of token t.share_links e in
              rw
                (
                  Memory.delete_share_link,
                  lookup-entries token_of scan_share token t.share_links,
                  e,
                  affected-none token_of token t.share_links gone,
                  deleted-none token_of token t.share_links gone,
                )
                (refl, refl)
          | inr (r, e) ↦
              rw
                (
                  Memory.delete_share_link,
                  lookup-entries token_of scan_share token t.share_links,
                  e,
                  affected-some token_of token r t.share_links e,
                  erase-entries token_of scan_share token t.share_links,
                )
                (refl, refl)
        ]

  module _ (s : Db C) (h : Intact s.tables) where
    pub create_job-Follows :
        (j : Job)
        → Follows backend s
            (Memory.create_job (kept_job j) (view backend s.tables))
            (Files.create_job backend j s)
    unfolding Files.create_job kept_job
    create_job-Follows j =
        query-Follows backend _ _ _ s _ (pure-Answers backend (λ n. tt))
          (insert_job-Matches s.tables h _)

    pub update_job-Follows :
        (at : Time) (id : Str) (st : JobStatus) (e : Str)
        → Follows backend s
            (Memory.update_job (timestamptz at) id st e (view backend s.tables))
            (Files.update_job backend at id st e s)
    unfolding Files.update_job
    update_job-Follows at id st e =
        query-Follows backend _ _ _ s _ (affected-Answers backend)
          (update_job-Matches s.tables h (timestamptz at) id st e)

    pub create_share_link-Follows :
        (l : ShareLink)
        → Follows backend s
            (Memory.create_share_link (kept_share l) (view backend s.tables))
            (Drive.create_share_link backend l s)
    unfolding Drive.create_share_link kept_share
    create_share_link-Follows l =
        query-Follows backend _ _ _ s _ (pure-Answers backend (λ n. tt))
          (insert_share-Matches s.tables h _)

    pub delete_share_link-Follows :
        (token : Str)
        → Follows backend s
            (Memory.delete_share_link token (view backend s.tables))
            (Drive.delete_share_link backend token s)
    unfolding Drive.delete_share_link
    delete_share_link-Follows token =
        query-Follows backend _ _ _ s _ (affected-Answers backend)
          (remove_share-Matches s.tables h token)
