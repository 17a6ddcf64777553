-- ===== src/Store/Postgres/Viewing.antt =====
-- The rows of a table as the map that the memory store keeps.
use pf_media.Base.{
  Str, ◌≡◌, refl, ap, Bool, true, false, Option, none, some, List, [], ◌∷◌, ◌++◌, map, arith,
  str_eq, ◌==◌, nat_eq, All, any, keep, length,
}
use pf_media.Base.Dict.{Dict, lookup, insert, erase, erase_if, values}
use pf_media.Store.Postgres.Rows.{update_where, delete_where, first}
use pf_media.Store.Postgres.Changing.{All-weaken, Distinct}

abbrev pub map_option : {A B : Type 0} → (A → B) → Option A → Option B
map_option f none = none
map_option f (some a) = some (f a)

module _ {A : Type 0} (key : A → Str) where
  abbrev pub find : Str → List A → Option A
  find k rs = first (keep (λ r. key r == k) rs)

  -- The row of a key is found, or no row has the key.
  pub find-none : (k : Str) (rs : List A) → find k rs ≡ none → All (λ x. (key x == k) ≡ false) rs
  unfolding first keep
  find-none k [] e = tt
  find-none k (r ∷ rs) e = ground (arith, find-none k rs)

  pub find-none_of_any :
      (k : Str) (rs : List A) → any (λ x. key x == k) rs ≡ false → find k rs ≡ none
  unfolding first keep any
  find-none_of_any k [] e = refl
  find-none_of_any k (r ∷ rs) e = ground (arith, find-none_of_any k rs)

  pub any-none :
      (k : Str) (rs : List A)
      → All (λ x. (key x == k) ≡ false) rs
      → any (λ x. key x == k) rs ≡ false
  unfolding any
  any-none k [] h = refl
  any-none k (r ∷ rs) (ne, h) = ground (arith, any-none k rs h)

  pub affected-none :
      (k : Str) (rs : List A)
      → All (λ x. (key x == k) ≡ false) rs
      → (length (keep (λ x. key x == k) rs) == 0) ≡ true
  unfolding keep
  affected-none k [] h = ground arith
  affected-none k (r ∷ rs) (ne, h) = ground (arith, affected-none k rs h)

  pub affected-some :
      (k : Str) (r : A) (rs : List A)
      → find k rs ≡ some r
      → (length (keep (λ x. key x == k) rs) == 0) ≡ false
  unfolding first keep
  affected-some k r [] e = cc
  affected-some k r (x ∷ rs) e = ground (arith, affected-some k r rs)

  pub deleted-none :
      (k : Str) (rs : List A)
      → All (λ x. (key x == k) ≡ false) rs
      → delete_where (λ x. key x == k) rs ≡ rs
  unfolding delete_where
  deleted-none k [] h = refl
  deleted-none k (r ∷ rs) (ne, h) = ground (arith, deleted-none k rs h)

  module _ (k : Str) (change : A → A) where
    pub unchanged :
        (rs : List A)
        → All (λ x. (key x == k) ≡ false) rs
        → update_where (λ r. key r == k) change rs ≡ rs
    unfolding update_where
    unchanged [] h = refl
    unchanged (r ∷ rs) (ne, h) = ground (arith, unchanged rs h)

module _ {A V : Type 0} (key : A → Str) (val : A → V) where
  abbrev pub entries : List A → Dict V
  entries [] = []
  entries (r ∷ rs) = (key r, val r) ∷ entries rs

  pub lookup-entries :
      (k : Str) (rs : List A) → lookup k (entries rs) ≡ map_option val (find key k rs)
  unfolding lookup first keep
  lookup-entries k [] = refl
  lookup-entries k (r ∷ rs) = ground (arith, lookup-entries k rs)

  pub insert-entries :
      (r : A) (rs : List A)
      → any (λ x. key x == key r) rs ≡ false
      → insert (key r) (val r) (entries rs) ≡ entries (rs ++ (r ∷ []))
  unfolding insert any
  insert-entries r [] h = refl
  insert-entries r (x ∷ rs) h = ground (arith, insert-entries r rs)

  pub erase-entries :
      (k : Str) (rs : List A) → erase k (entries rs) ≡ entries (delete_where (λ r. key r == k) rs)
  unfolding erase delete_where
  erase-entries k [] = refl
  erase-entries k (r ∷ rs) = ground (arith, erase-entries k rs)

  pub erase_if-entries :
      (p : V → Bool) (rs : List A)
      → erase_if p (entries rs) ≡ entries (delete_where (λ r. p (val r)) rs)
  unfolding erase_if delete_where
  erase_if-entries p [] = refl
  erase_if-entries p (r ∷ rs) = ground (arith, erase_if-entries p rs)

  pub values-entries : (rs : List A) → values (entries rs) ≡ map val rs
  unfolding values
  values-entries [] = refl
  values-entries (r ∷ rs) = ap (λ vs. val r ∷ vs) (values-entries rs)

  -- An UPDATE of the row of a key sets the value of the key.
  module _ (k : Str) (change : A → A) where
    pub update-entries :
        (r : A) (rs : List A)
        → ((x : A) → key (change x) ≡ key x)
        → Distinct (λ x y. key x == key y) rs
        → find key k rs ≡ some r
        → insert k (val (change r)) (entries rs)
          ≡ entries (update_where (λ x. key x == k) change rs)
    unfolding insert update_where first keep
    update-entries r [] same d e = cc
    update-entries r (x ∷ rs) same (other, d) e =
        let rest = λ (q : (key x == k) ≡ true).
          unchanged key k change rs (All-weaken _ _ rs (λ y e'. ground arith) other) in
        ground (arith, same x, rest, update-entries r rs same d)
