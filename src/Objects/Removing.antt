-- ===== src/Objects/Removing.antt =====
-- minio.go: the removal of the objects of a file.
use pf_media.Base.{
  Str, false, Option, none, some, List, [], ◌∷◌, ◌||◌, ◌==◌, str_eq, codes, ◌≡◌, ◌↔◌, arith, All,
}
use pf_media.Domain.{Err, ok}
use pf_media.Exec.{◌>>=◌}
use pf_media.Exec.Runs.{bind_run, reject_run}
use pf_media.ObjectKeys.{object_prefix}
use pf_media.Objects.{Client, first_error, delete_prefix}

first_error_iff :
    {E : Type 0} (errors : List (Option Err)) (e : E)
    → ((first_error errors e).0 ≡ ok tt) ↔ All (λ x. x ≡ none) errors
unfolding first_error ◌>>=◌
first_error_iff [] e = ground arith
first_error_iff (none ∷ errors) e = ground (arith, first_error_iff errors e)
first_error_iff (some x ∷ errors) e = ground arith

allowed_prefix :
    (owner_sub file_id : Str)
    → (object_prefix owner_sub file_id == [] || object_prefix owner_sub file_id == codes "/")
      ≡ false
unfolding object_prefix
allowed_prefix owner_sub file_id = ground arith

-- The prefix of a file, of any owner and any id, is not refused: when RemoveObjects answers,
-- `DeletePrefix` succeeds exactly when none of its results is an error.
pub delete_prefix_iff :
    {O E : Type 0} (c : Client O E) (owner_sub file_id : Str) (e e' : E)
    (errors : List (Option Err))
    → c.mc.remove_listed c.bucket (object_prefix owner_sub file_id) e ≡ (ok errors, e')
    → ((delete_prefix c (object_prefix owner_sub file_id) e).0 ≡ ok tt) ↔ All (λ x. x ≡ none) errors
unfolding delete_prefix
delete_prefix_iff c owner_sub file_id e e' errors removed =
    rw
      (
        reject_run _ _
            (c.mc.remove_listed c.bucket (object_prefix owner_sub file_id) >>= first_error) e
            (allowed_prefix owner_sub file_id),
        bind_run (c.mc.remove_listed c.bucket (object_prefix owner_sub file_id)) first_error e
            errors e' removed,
      )
      (first_error_iff errors e')
