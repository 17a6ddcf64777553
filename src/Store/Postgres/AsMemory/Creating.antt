-- ===== src/Store/Postgres/AsMemory/Creating.antt =====
-- `CreateFolder` of the Postgres store beside what the keys and references of the table of folders
-- mean for the folders themselves.
use pf_media.Base.{
  Str, ℕ, ◌≡◌, ◌≢◌, refl, sym, ap, ◌∙◌, Bool, false, not, ◌&&◌, ◌||◌, Option, none, some, List, [],
  ◌∷◌, ◌++◌, arith, if◌then◌else◌, ◌==◌, str_eq, nat_eq, Bool-cases, Option-cases, ◌⊎◌, inl, inr,
  any, str_discrete,
}
use pf_media.Base.Dict.{values, insert}
use pf_media.Domain.{Result, ok, err, conflict, other, Folder}
use pf_media.Store.Memory.{State}
use pf_media.Store.Postgres.Rows.{
  Tables, FolderRow, Failure, Outcome, Statement, done, refused, pg_error, lost,
}
use pf_media.Store.Postgres.Statements.{
  insert_folder, same_folder, has_folder, folder_there, foreign_key_violation, unique_violation,
}
use pf_media.Store.Postgres.Pool.{Backend, Db, run, reply, finish, send}
use pf_media.Store.Postgres.Scanning.{scan_folder, empty_to_nil}
use pf_media.Store.Postgres.Viewing.{entries, insert-entries}
use pf_media.Store.Postgres.Drive.{folder_result, create_folder}
use pf_media.Store.Postgres.AsMemory.{view}
use pf_media.Store.Postgres.AsMemory.Folders.{kept_folder, scan-kept}
use pf_media.Store.Postgres.Changing.{any-weaken}

-- The primary key, or the unique index of owner, parent and name.
abbrev pub clashes : Folder → Folder → Bool
clashes f x =
    x.id == f.id || (x.owner_sub == f.owner_sub && x.parent_id == f.parent_id && x.name == f.name)

-- A folder at the top needs no parent. A folder may be its own parent.
abbrev pub has_parent : Folder → List Folder → Bool
has_parent f fs =
    f.parent_id == [] || any (λ (x : Folder). x.id == f.parent_id) fs || f.id == f.parent_id

-- What the table's constraints make of a new folder.
abbrev pub created : Folder → State → Result {0} Unit × State
created f m =
    if any (clashes f) (values m.folders)
    then (err conflict, m)
    else if not (has_parent f (values m.folders))
    then (err (other foreign_key_violation), m)
    else (ok tt, record m { folders = insert f.id f m.folders })

any-append-one :
    {A : Type 0} (p : A → Bool) (xs : List A) (y : A) → any p (xs ++ (y ∷ [])) ≡ (any p xs || p y)
unfolding any
any-append-one p [] y = ground arith
any-append-one p (x ∷ xs) y = ground (arith, any-append-one p xs y)

any-clashes :
    (row : FolderRow) (rows : List FolderRow)
    → any (λ x. same_folder x row) rows
      ≡ any
          (clashes (scan_folder row))
          (values (entries (λ (r : FolderRow). r.id) scan_folder rows))
unfolding any values
any-clashes row [] = refl
any-clashes row (x ∷ rows) = ap (λ b. same_folder x row || b) (any-clashes row rows)

any-has_folder :
    (id : Str) (rows : List FolderRow)
    → has_folder id rows
      ≡ any
          (λ (x : Folder). x.id == id)
          (values (entries (λ (r : FolderRow). r.id) scan_folder rows))
unfolding any values has_folder
any-has_folder id [] = refl
any-has_folder id (x ∷ rows) = ap (λ b. x.id == id || b) (any-has_folder id rows)

parent_is_there :
    (f : Folder) (rows : List FolderRow) (row : FolderRow)
    → row.id ≡ f.id
    → folder_there (empty_to_nil f.parent_id) (rows ++ (row ∷ []))
      ≡ has_parent f (values (entries (λ (r : FolderRow). r.id) scan_folder rows))
unfolding has_folder
parent_is_there f rows row same = elim (Bool-cases (f.parent_id == [])) [
  | inl e ↦ rw e refl
  | inr e ↦
      rw
        (
          e,
          any-append-one (λ (d : FolderRow). d.id == f.parent_id) rows row,
          same,
          any-has_folder f.parent_id rows,
        )
        refl
]

module _ {C : Type 0} (backend : Backend C) where
  open backend use {before, after, timestamptz}

  -- What a statement's outcome is as the answer of `CreateFolder`, with the data it leaves.
  abbrev landed : Outcome (ℕ × Tables) → Tables → Result {0} Unit × State
  landed (refused x) t = (folder_result (refused x), view backend t)
  landed (done (n, t')) t = (folder_result (done n), view backend t')

  abbrev row_of : Folder → FolderRow
  row_of f = record {
    id = f.id;
    owner_sub = f.owner_sub;
    org_id = f.org_id;
    parent_id = empty_to_nil f.parent_id;
    name = f.name;
    created_at = timestamptz f.created_at;
  }

  any-clashes_kept :
      (f : Folder) (rows : List FolderRow)
      → any (λ x. same_folder x (row_of f)) rows
        ≡ any
            (clashes (kept_folder backend f))
            (values (entries (λ (r : FolderRow). r.id) scan_folder rows))
  any-clashes_kept f rows =
      any-clashes (row_of f) rows
      ∙ ap (λ g. any (clashes g) (values (entries (λ (r : FolderRow). r.id) scan_folder rows)))
          (scan-kept backend f)

  insert-kept :
      (f : Folder) (rows : List FolderRow)
      → any (λ x. same_folder x (row_of f)) rows ≡ false
      → entries (λ (r : FolderRow). r.id) scan_folder (rows ++ (row_of f ∷ []))
        ≡ insert f.id (kept_folder backend f) (entries (λ (r : FolderRow). r.id) scan_folder rows)
  insert-kept f rows free =
      sym (
        insert-entries (λ (r : FolderRow). r.id) scan_folder (row_of f) rows
          (any-weaken _ _ rows (λ x e. ground arith) free))
      ∙ ap (λ g. insert f.id g (entries (λ (r : FolderRow). r.id) scan_folder rows))
          (scan-kept backend f)

  landed-insert_folder :
      (f : Folder) (t : Tables)
      → landed (insert_folder (row_of f) t) t ≡ created (kept_folder backend f) (view backend t)
  unfolding insert_folder view kept_folder str_discrete
  landed-insert_folder f t = elim (Bool-cases (any (λ x. same_folder x (row_of f)) t.folders)) [
    | inl e ↦ rw (e, sym (any-clashes_kept f t.folders) ∙ e) refl
    | inr e ↦
        let there = parent_is_there f t.folders (row_of f) refl in
        elim (Bool-cases (has_parent f (values (view backend t).folders))) [
          | inl p ↦
              rw
                (e, sym (any-clashes_kept f t.folders) ∙ e, there ∙ p, p, insert-kept f t.folders e)
                refl
          | inr p ↦ rw (e, sym (any-clashes_kept f t.folders) ∙ e, there ∙ p, p) refl
        ]
  ]

  -- A call that the link loses: on its way, or with its answer.
  abbrev pub IsLost : Db C → Type 0
  IsLost s = (x : Failure) × (((before s.link).0 ≡ some x) ⊎ ((after (before s.link).1).0 ≡ some x))

  -- What is expected is the answer and the data, or the call is lost, fails, and does all of what is
  -- expected or nothing.
  abbrev pub Ends : Db C → Result {0} Unit × State → Result {0} Unit × State → Type 0
  Ends s expected end =
      (end ≡ expected)
      ⊎ (IsLost s × (end.0 ≢ ok tt) × ((end.1 ≡ view backend s.tables) ⊎ (end.1 ≡ expected.1)))

  refused-ne : (x : Failure) → folder_result (refused x) ≢ ok tt
  refused-ne (lost message) = λ e. cc
  refused-ne (pg_error code) = elim (Bool-cases (code == unique_violation)) [
    | inl e ↦ rw e (λ h. cc)
    | inr e ↦ rw e (λ h. cc)
  ]

  landed-finish :
      (outcome : Outcome (ℕ × Tables)) (s s' : Db C)
      → s'.tables ≡ s.tables
      → s'.link ≡ (before s.link).1
      → Ends s (landed outcome s.tables) (
        folder_result (finish backend outcome s').0,
        view backend (finish backend outcome s').1.tables,
      )
  unfolding reply
  landed-finish (refused x) s s' t c = inl (rw t refl)
  landed-finish (done (n, t')) s s' t c = elim (Option-cases (after s'.link).0) [
    | inl e ↦ inl (rw (reply, e) refl)
    | inr (x, e) ↦ inr ((x, inr (rw (← c) e)), rw (reply, e) (refused-ne x), inr refl)
  ]

  landed-send :
      (failure : Option Failure) (statement : Statement ℕ) (s : Db C)
      → (before s.link).0 ≡ failure
      → let end = send backend failure statement (record s { link = (before s.link).1 }) in
        Ends s
          (landed (statement s.tables) s.tables)
          (folder_result end.0, view backend end.1.tables)
  landed-send none statement s e = landed-finish (statement s.tables) s _ refl refl
  landed-send (some x) statement s e = inr ((x, inl e), refused-ne x, inl refl)

  -- `CreateFolder` on Postgres answers by `ErrConflict` when a folder has the id, or the owner, the
  -- parent and the name of the new one (whatever its organisation), by an error of the database when
  -- the parent is not there, and stores the folder else, with its time as the column keeps it;
  -- nothing else changes. Or else the link loses the call on its way or with its answer: then the
  -- call fails, with all of this done or nothing.
  pub create_folder-created :
      (f : Folder) (s : Db C)
      → let (r, s') = create_folder backend f s in
        Ends s (created (kept_folder backend f) (view backend s.tables)) (r, view backend s'.tables)
  unfolding create_folder run
  create_folder-created f s =
      rw (sym (landed-insert_folder f s.tables))
        (landed-send (before s.link).0 (insert_folder (row_of f)) s refl)
