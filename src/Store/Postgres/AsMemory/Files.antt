-- ===== src/Store/Postgres/AsMemory/Files.antt =====
-- The methods of the Postgres store on files, beside those of the memory store.
use pf_media.Base.{
  Str, ℕ, ◌≡◌, refl, sym, true, false, Option, none, some, List, [], ◌∷◌, arith, str_eq, ◌==◌,
  nat_eq, Option-cases, inl, inr, All, keep, any,
}
use pf_media.Base.Int.{ℤ}
use pf_media.Domain.{ok, File, FileStatus, Variants, Job, ShareLink, Time}
use pf_media.Domain.Json.{variants_json, parse_variants}
use pf_media.Domain.{Time}
use pf_media.Base.{ap}
use pf_media.Store.Postgres.Rows.{or_empty}
use pf_media.Store.Postgres.Scanning.{empty_to_nil}
use pf_media.Store.Memory
use pf_media.Store.Memory.{State, or_not_found}
use pf_media.Store.Postgres.Rows.{Tables, FileRow, JobRow, ShareRow, first}
use pf_media.Store.Postgres.Statements
use pf_media.Store.Postgres.Statements.{file_there}
use pf_media.Store.Postgres.Pool.{Backend, Db}
use pf_media.Store.Postgres.Scanning.{scan_file, scan_job, scan_share, file_row}
use pf_media.Store.Postgres.Changing.{Distinct, Distinct-weaken, any-weaken}
use pf_media.Store.Postgres.Keeping.{Post}
use pf_media.Store.Postgres.Integrity.{Intact, Post-checked}
use pf_media.Store.Postgres.Viewing.{
  find, map_option, lookup-entries, insert-entries, erase-entries, erase_if-entries, update-entries,
  find-none, find-none_of_any, affected-none, affected-some, deleted-none, unchanged,
}
use pf_media.Store.Postgres.AsMemory.{
  view, Matches, Follows, query-Follows, row-Answers, affected-Answers, pure-Answers, found_or_not,
  affected_or_not,
}
use pf_media.Store.Postgres.Files

there-none :
    (id : Str) (files : List FileRow)
    → All (λ f. (f.id == id) ≡ false) files
    → file_there id files ≡ false
unfolding file_there any
there-none id [] h = refl
there-none id (f ∷ files) (ne, h) = ground (arith, there-none id files h)

there-some :
    (id : Str) (r : FileRow) (files : List FileRow)
    → find (λ f. f.id) id files ≡ some r
    → file_there id files ≡ true
unfolding file_there any first keep
there-some id r [] e = cc
there-some id r (f ∷ files) e = ground (arith, there-some id r files)

pub or_empty-empty_to_nil : (p : Str) → or_empty (empty_to_nil p) ≡ p
or_empty-empty_to_nil [] = ground arith
or_empty-empty_to_nil (b ∷ p) = ground arith

-- The variants that come back from the column that they are written to.
unfoldable pub reread : {C : Type 0} → Backend C → Variants → Variants
unfolding variants_json parse_variants
reread backend vs = parse_variants backend.json (backend.jsonb (variants_json backend.json vs))

-- The file that comes back from the row of a file.
unfoldable pub kept_file : {C : Type 0} → Backend C → Time → File → File
unfolding reread
kept_file backend at f = record f {
  variants = reread backend f.variants;
  created_at = backend.timestamptz at;
}

scan_file-file_row :
    {C : Type 0} (backend : Backend C) (at : Time) (f : File)
    → scan_file backend (file_row backend at f) ≡ kept_file backend at f
unfolding scan_file file_row kept_file
scan_file-file_row backend at f =
    ap (λ d. record (kept_file backend at f) { folder_id = d }) (or_empty-empty_to_nil f.folder_id)

module _ {C : Type 0} (backend : Backend C) where
  pub or_not_found_scanned :
      {A B : Type 0} (scan : A → B) (o : Option A) (m : State)
      → or_not_found (map_option scan o) m ≡ (found_or_not backend scan o, m)
  or_not_found_scanned scan none m = refl
  or_not_found_scanned scan (some a) m = refl

  pub get_file-Follows :
      (id : Str) (s : Db C)
      → Follows backend s (Memory.get_file id (view backend s.tables)) (Files.get_file backend id s)
  unfolding Files.get_file Memory.get_file view
  get_file-Follows id s =
      query-Follows backend _ _ _ s _ (row-Answers backend (scan_file backend)) (
        rw
          (
            lookup-entries (λ (r : FileRow). r.id) (scan_file backend) id s.tables.files,
            or_not_found_scanned,
          )
          (refl, refl))

  module _ (t : Tables) (h : Intact t) where
    keyed : Distinct (λ (x y : FileRow). x.id == y.id) t.files
    keyed = Distinct-weaken _ _ t.files (λ x y e. ground arith) h.files_keyed

    update_file-Matches :
        (id : Str) (change : FileRow → FileRow) (f : File → File)
        → ((r : FileRow) → (change r).id ≡ r.id)
        → ((r : FileRow) → scan_file backend (change r) ≡ f (scan_file backend r))
        → Post
            (Matches backend (affected_or_not backend) (Memory.update_file id f (view backend t)))
            (Statements.update_file id change t)
    unfolding Statements.update_file view
    update_file-Matches id change f same scanned =
        let id_of = λ (r : FileRow). r.id in
        elim (Option-cases (find id_of id t.files)) [
          | inl e ↦
              let gone = find-none id_of id t.files e in
              rw
                (
                  Memory.update_file,
                  lookup-entries id_of (scan_file backend) id t.files,
                  e,
                  affected-none id_of id t.files gone,
                  unchanged id_of id change t.files gone,
                )
                (refl, refl)
          | inr (r, e) ↦
              rw
                (
                  Memory.update_file,
                  lookup-entries id_of (scan_file backend) id t.files,
                  e,
                  affected-some id_of id r t.files e,
                  sym (scanned r),
                  update-entries id_of (scan_file backend) id change r t.files same keyed e,
                )
                (refl, refl)
        ]

    -- The row goes with its jobs and its links, and without the row nothing goes.
    remove_file-Matches :
        (id : Str)
        → Post
            (Matches backend (affected_or_not backend) (Memory.delete_file id (view backend t)))
            (Statements.remove_file id t)
    unfolding Statements.remove_file Memory.delete_file view
    remove_file-Matches id =
        let id_of = λ (r : FileRow). r.id in
        elim (Option-cases (find id_of id t.files)) [
          | inl e ↦
              let gone = find-none id_of id t.files e in
              rw
                (
                  Memory.delete_file,
                  lookup-entries id_of (scan_file backend) id t.files,
                  e,
                  affected-none id_of id t.files gone,
                  deleted-none id_of id t.files gone,
                  there-none id t.files gone,
                )
                (refl, refl)
          | inr (r, e) ↦
              rw
                (
                  Memory.delete_file,
                  lookup-entries id_of (scan_file backend) id t.files,
                  e,
                  affected-some id_of id r t.files e,
                  there-some id r t.files e,
                  erase-entries id_of (scan_file backend) id t.files,
                  erase_if-entries (λ (j : JobRow). j.id) scan_job (λ (j : Job). j.file_id == id)
                      t.jobs,
                  erase_if-entries (λ (l : ShareRow). l.token) scan_share
                      (λ (l : ShareLink). l.file_id == id) t.share_links,
                )
                (refl, refl)
        ]

    insert_file-Matches :
        (row : FileRow)
        → Post
            (Matches backend
              (λ (n : ℕ). ok tt)
              (Memory.create_pending_file (scan_file backend row) (view backend t)))
            (Statements.insert_file row t)
    unfolding Statements.insert_file Memory.create_pending_file view scan_file
    insert_file-Matches row =
        Post-checked
          (Matches backend (λ (n : ℕ). ok tt)
            (Memory.create_pending_file (scan_file backend row) (view backend t)))
          _ _ _ t
          λ free there.
            let id_of = λ (r : FileRow). r.id in
            let fresh = any-weaken _ _ t.files (λ x e. ground arith) free in
            rw
              (
                Memory.create_pending_file,
                lookup-entries id_of (scan_file backend) row.id t.files,
                find-none_of_any id_of row.id t.files fresh,
                insert-entries id_of (scan_file backend) row t.files fresh,
              )
              (refl, refl)

  module _ (s : Db C) (h : Intact s.tables) where
    pub mark_file_ready-Follows :
        (id : Str) (size : ℤ)
        → Follows backend s
            (Memory.mark_file_ready id size (view backend s.tables))
            (Files.mark_file_ready backend id size s)
    unfolding Files.mark_file_ready Memory.mark_file_ready scan_file
    mark_file_ready-Follows id size =
        query-Follows backend _ _ _ s _ (affected-Answers backend)
          (update_file-Matches s.tables h id _ _ (λ r. refl) (λ r. refl))

    pub set_file_status-Follows :
        (id : Str) (st : FileStatus)
        → Follows backend s
            (Memory.set_file_status id st (view backend s.tables))
            (Files.set_file_status backend id st s)
    unfolding Files.set_file_status Memory.set_file_status scan_file
    set_file_status-Follows id st =
        query-Follows backend _ _ _ s _ (affected-Answers backend)
          (update_file-Matches s.tables h id _ _ (λ r. refl) (λ r. refl))

    pub update_variants-Follows :
        (id : Str) (vs : Variants)
        → Follows backend s
            (Memory.update_variants id (reread backend vs) (view backend s.tables))
            (Files.update_variants backend id vs s)
    unfolding Files.update_variants Memory.update_variants scan_file reread
    update_variants-Follows id vs =
        query-Follows backend _ _ _ s _ (affected-Answers backend)
          (update_file-Matches s.tables h id _ _ (λ r. refl) (λ r. refl))

    pub delete_file-Follows :
        (id : Str)
        → Follows backend s
            (Memory.delete_file id (view backend s.tables))
            (Files.delete_file backend id s)
    unfolding Files.delete_file
    delete_file-Follows id =
        query-Follows backend _ _ _ s _ (affected-Answers backend)
          (remove_file-Matches s.tables h id)

    -- `created_at` is the clock of the server.
    pub create_pending_file-Follows :
        (f : File)
        → Follows backend s
            (Memory.create_pending_file
              (kept_file backend (backend.now s.link) f)
              (view backend s.tables))
            (Files.create_pending_file backend f s)
    unfolding Files.create_pending_file
    create_pending_file-Follows f = rw (sym (scan_file-file_row backend (backend.now s.link) f)) (
        query-Follows backend _ _ _ s _ (pure-Answers backend (λ n. tt))
          (insert_file-Matches s.tables h _))
