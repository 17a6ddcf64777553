-- ===== src/Store/Postgres/Opening.antt =====
-- `Open` and `migrate` of apps/api/internal/store/postgres/store.go. The embedded files and the calls of
-- pgx are parameters.
use pf_media.Base.{
  Str, Bool, true, false, List, [], ◌∷◌, ◌++◌, codes, ltb, if◌then◌else◌, ◌==◌, nat_eq,
}
use pf_media.Domain.{wrapped, Result}
use pf_media.Exec.{Exec, ◌>>=◌, ◌>>◌, pure, raise, lift, recover}
use pf_media.Store.Postgres.Rows.{order_by}

-- `pgxpool.New`, `Exec` and `Close` of a pool, and the embedded file system: the entries of the
-- directory `migrations`, each with whether it is a directory, and the text of a file.
pub record Migrator (P E : Type 0) : Type 0 where
  pub connect : Str → Exec E P
  pub exec : P → Str → Exec E Unit
  pub close : P → E → E
  pub read_dir : Result (List (Str × Bool))
  pub read_file : Str → Result Str

-- The order of Go's strings.
unfoldable pub str_le : Str → Str → Bool
str_le [] t = true
str_le (b ∷ s) [] = false
str_le (b ∷ s) (c ∷ t) = let rest = str_le s t in if b == c then rest else ltb b c

-- The names of the entries that are files.
unfoldable pub file_names : List (Str × Bool) → List Str
file_names [] = []
file_names ((name, is_dir) ∷ es) =
    let names = file_names es in if is_dir then names else name ∷ names

-- sort.Strings
unfoldable pub sort_strings : List Str → List Str
unfolding order_by str_le
sort_strings names = order_by str_le names

module _ {P E : Type 0} (pg : Migrator P E) where
  -- The body of the loop, name after name: the first error ends it.
  unfoldable pub migrate_all : P → List Str → Exec E Unit
  migrate_all pool [] = pure tt
  migrate_all pool (name ∷ names) = do
    text ← lift (pg.read_file (codes "migrations/" ++ name))
    recover (pg.exec pool text) (λ e. raise (wrapped (codes "migrate " ++ name) e))
        >> migrate_all pool names

  unfoldable pub migrate : P → Exec E Unit
  unfolding file_names sort_strings migrate_all
  migrate pool = do entries ← lift pg.read_dir; migrate_all pool (sort_strings (file_names entries))

  -- `Open`: a pool whose migrations fail is closed.
  unfoldable pub open_store : Str → Exec E P
  unfolding migrate
  open_store url = do
    pool ← pg.connect url
    recover (migrate pool) (λ e s. raise e (pg.close pool s)) >> pure pool
