-- ===== src/Base/Dict.antt =====
-- Go's maps with string keys, as association lists. A `range` over a map goes through its entries in
-- an order that Go leaves open; here it is the list's.
use pf_media.Base.Tests.{Str, str_eq, ◌==◌, if◌then◌else◌}
use mathlib.Core.Path.{◌≡◌, refl}
use mathlib.Core.Bool.{Bool, false}
use mathlib.Core.Option.{Option, none, some}
use mathlib.Core.List.{List, [], ◌∷◌}
use native.Mathlib.Omega.{arith}

abbrev pub Dict {ℓ} : Type ℓ → Type ℓ
Dict V = List (Str × V)

module _ {ℓ} {V : Type ℓ} where
  -- `v, ok := d[k]`
  unfoldable pub lookup : Str → Dict V → Option V
  lookup k [] = none
  lookup k ((j, v) ∷ d) = if k == j then some v else lookup k d

  -- `d[k] = v`
  unfoldable pub insert : Str → V → Dict V → Dict V
  insert k v [] = (k, v) ∷ []
  insert k v ((j, w) ∷ d) = if k == j then (k, v) ∷ d else (j, w) ∷ insert k v d

  -- `delete(d, k)`. Every entry of the key goes; a Go map has at most one.
  unfoldable pub erase : Str → Dict V → Dict V
  erase k [] = []
  erase k ((j, w) ∷ d) = let rest = erase k d in if k == j then rest else (j, w) ∷ rest

  -- `for k, v := range d { if p(v) { delete(d, k) } }`
  unfoldable pub erase_if : (V → Bool) → Dict V → Dict V
  erase_if p [] = []
  erase_if p ((j, w) ∷ d) = let rest = erase_if p d in if p w then rest else (j, w) ∷ rest

  -- The values, in the order of `range`.
  unfoldable pub values : Dict V → List V
  values [] = []
  values ((_, v) ∷ d) = v ∷ values d

  pub lookup-insert :
      (j k : Str) (v : V) (d : Dict V)
      → lookup j (insert k v d) ≡ (if j == k then some v else lookup j d)
  unfolding lookup insert
  lookup-insert j k v [] = refl
  lookup-insert j k v (_ ∷ d) = ground (arith, lookup-insert j k v d)

  pub lookup-erase :
      (j k : Str) (d : Dict V) → lookup j (erase k d) ≡ (if j == k then none else lookup j d)
  unfolding lookup erase
  lookup-erase j k [] = ground arith
  lookup-erase j k (_ ∷ d) = ground (arith, lookup-erase j k d)

  -- A removal leaves the entries whose values it does not ask for.
  pub lookup-erase_if_kept :
      (p : V → Bool) (k : Str) (v : V) (d : Dict V)
      → lookup k d ≡ some v
      → p v ≡ false
      → lookup k (erase_if p d) ≡ some v
  unfolding lookup erase_if
  lookup-erase_if_kept p k v [] e f = e
  lookup-erase_if_kept p k v (_ ∷ d) e f = ground (arith, lookup-erase_if_kept p k v d)

  pub lookup-erase_if-none :
      (p : V → Bool) (k : Str) (d : Dict V) → lookup k d ≡ none → lookup k (erase_if p d) ≡ none
  unfolding lookup erase_if
  lookup-erase_if-none p k [] e = refl
  lookup-erase_if-none p k (_ ∷ d) e = ground (arith, lookup-erase_if-none p k d)

  -- What holds of every entry's value.
  abbrev pub AllValues {κ} : (V → Type κ) → Dict V → Type κ
  AllValues P [] = Unit
  AllValues P ((_, v) ∷ d) = P v × AllValues P d

  pub insert-AllValues {κ} :
      (P : V → Type κ) (k : Str) (v : V) (d : Dict V)
      → P v
      → AllValues P d
      → AllValues P (insert k v d)
  unfolding insert
  insert-AllValues P k v [] h _ = (h, tt)
  insert-AllValues P k v (_ ∷ d) h (h', r) = ground (arith, insert-AllValues P k v d h r)

  pub erase-AllValues {κ} :
      (P : V → Type κ) (k : Str) (d : Dict V) → AllValues P d → AllValues P (erase k d)
  unfolding erase
  erase-AllValues P k [] _ = tt
  erase-AllValues P k (_ ∷ d) (h', r) = ground (arith, erase-AllValues P k d r)

  -- After the removal the test fails on every value that is left.
  pub erase_if-AllValues {κ} :
      (P Q : V → Type κ) (p : V → Bool) (d : Dict V)
      → ((v : V) → P v → p v ≡ false → Q v)
      → AllValues P d
      → AllValues Q (erase_if p d)
  unfolding erase_if
  erase_if-AllValues P Q p [] step _ = tt
  erase_if-AllValues P Q p ((_, v) ∷ d) step (h', r) =
      ground (arith, erase_if-AllValues P Q p d step r, step v h')

  pub lookup-AllValues {κ} :
      (P : V → Type κ) (k : Str) (d : Dict V) (v : V) → AllValues P d → lookup k d ≡ some v → P v
  unfolding lookup
  lookup-AllValues P k [] v _ e = cc
  lookup-AllValues P k ((j, w) ∷ d) v (h', r) e = ground (arith, lookup-AllValues P k d v r)

  -- What holds of every key with its value.
  abbrev pub AllEntries {κ} : (Str → V → Type κ) → Dict V → Type κ
  AllEntries P [] = Unit
  AllEntries P ((k, v) ∷ d) = P k v × AllEntries P d

  pub insert-AllEntries {κ} :
      (P : Str → V → Type κ) (k : Str) (v : V) (d : Dict V)
      → P k v
      → AllEntries P d
      → AllEntries P (insert k v d)
  unfolding insert
  insert-AllEntries P k v [] h _ = (h, tt)
  insert-AllEntries P k v (_ ∷ d) h (h', r) = ground (arith, insert-AllEntries P k v d h r)

  pub erase-AllEntries {κ} :
      (P : Str → V → Type κ) (k : Str) (d : Dict V) → AllEntries P d → AllEntries P (erase k d)
  unfolding erase
  erase-AllEntries P k [] _ = tt
  erase-AllEntries P k (_ ∷ d) (h', r) = ground (arith, erase-AllEntries P k d r)

  pub erase_if-AllEntries {κ} :
      (P : Str → V → Type κ) (p : V → Bool) (d : Dict V)
      → AllEntries P d
      → AllEntries P (erase_if p d)
  unfolding erase_if
  erase_if-AllEntries P p [] _ = tt
  erase_if-AllEntries P p (_ ∷ d) (h', r) = ground (arith, erase_if-AllEntries P p d r)

  pub lookup-AllEntries {κ} :
      (P : Str → V → Type κ) (k : Str) (d : Dict V) (v : V)
      → AllEntries P d
      → lookup k d ≡ some v
      → P k v
  unfolding lookup
  lookup-AllEntries P k [] v _ e = cc
  lookup-AllEntries P k ((j, w) ∷ d) v (h', r) e = ground (arith, lookup-AllEntries P k d v r)
