-- ===== src/Store/Postgres/Changing.antt =====
-- What an INSERT, an UPDATE and a DELETE keep of the rows of a table.
use pf_media.Base.{◌≡◌, refl, Bool, true, false, List, [], ◌∷◌, ◌++◌, arith, All, any}
use pf_media.Store.Postgres.Rows.{update_where, delete_where}

module _ {A : Type 0} where
  -- No two rows clash.
  abbrev pub Distinct : (A → A → Bool) → List A → Type 0
  Distinct clash [] = Unit
  Distinct clash (r ∷ rs) = All (λ s. clash r s ≡ false) rs × Distinct clash rs

  pub All-weaken : (P Q : A → Type 0) (rs : List A) → ((r : A) → P r → Q r) → All P rs → All Q rs
  All-weaken P Q [] step h = tt
  All-weaken P Q (r ∷ rs) step (p, h) = (step r p, All-weaken P Q rs step h)

  pub All-both : (P Q : A → Type 0) (rs : List A) → All P rs → All Q rs → All (λ r. P r × Q r) rs
  All-both P Q [] h h' = tt
  All-both P Q (r ∷ rs) (p, h) (q, h') = ((p, q), All-both P Q rs h h')

  pub All-of_any : (p : A → Bool) (rs : List A) → any p rs ≡ false → All (λ r. p r ≡ false) rs
  unfolding any
  All-of_any p [] h = tt
  All-of_any p (r ∷ rs) h = ground (arith, All-of_any p rs)

  pub All-append : (P : A → Type 0) (rs : List A) (r : A) → All P rs → P r → All P (rs ++ (r ∷ []))
  All-append P [] r h p = (p, tt)
  All-append P (s ∷ rs) r (q, h) p = (q, All-append P rs r h p)

  pub All-update_where :
      (P Q : A → Type 0) (p : A → Bool) (change : A → A) (rs : List A)
      → ((r : A) → P r → p r ≡ true → Q (change r))
      → ((r : A) → P r → p r ≡ false → Q r)
      → All P rs
      → All Q (update_where p change rs)
  unfolding update_where
  All-update_where P Q p change [] hit miss h = tt
  All-update_where P Q p change (r ∷ rs) hit miss (q, h) =
      ground (arith, All-update_where P Q p change rs hit miss h, hit r q, miss r q)

  pub All-delete_where :
      (P Q : A → Type 0) (p : A → Bool) (rs : List A)
      → ((r : A) → P r → p r ≡ false → Q r)
      → All P rs
      → All Q (delete_where p rs)
  unfolding delete_where
  All-delete_where P Q p [] stays h = tt
  All-delete_where P Q p (r ∷ rs) stays (q, h) =
      ground (arith, All-delete_where P Q p rs stays h, stays r q)

  pub any-weaken :
      (p q : A → Bool) (rs : List A)
      → ((r : A) → p r ≡ false → q r ≡ false)
      → any p rs ≡ false
      → any q rs ≡ false
  unfolding any
  any-weaken p q [] step h = refl
  any-weaken p q (r ∷ rs) step h = ground (arith, any-weaken p q rs step, step r)

  pub any-append :
      (q : A → Bool) (rs : List A) (r : A) → any q rs ≡ true → any q (rs ++ (r ∷ [])) ≡ true
  unfolding any
  any-append q [] r h = ground arith
  any-append q (s ∷ rs) r h = ground (arith, any-append q rs r)

  -- An UPDATE that leaves a column alone leaves a test of it alone.
  pub any-update_where :
      (q p : A → Bool) (change : A → A) (rs : List A)
      → ((r : A) → q (change r) ≡ q r)
      → any q (update_where p change rs) ≡ any q rs
  unfolding any update_where
  any-update_where q p change [] same = ground arith
  any-update_where q p change (r ∷ rs) same =
      ground (arith, any-update_where q p change rs same, same r)

  pub any-delete_where :
      (q p : A → Bool) (rs : List A)
      → ((r : A) → q r ≡ true → p r ≡ false)
      → any q rs ≡ true
      → any q (delete_where p rs) ≡ true
  unfolding any delete_where
  any-delete_where q p [] stays h = ground arith
  any-delete_where q p (r ∷ rs) stays h = ground (arith, any-delete_where q p rs stays, stays r)

  pub Distinct-weaken :
      (clash clash' : A → A → Bool) (rs : List A)
      → ((r s : A) → clash r s ≡ false → clash' r s ≡ false)
      → Distinct clash rs
      → Distinct clash' rs
  Distinct-weaken clash clash' [] step h = tt
  Distinct-weaken clash clash' (r ∷ rs) step (q, h) =
      (All-weaken _ _ rs (step r) q, Distinct-weaken clash clash' rs step h)

  module _ (clash : A → A → Bool) where
    pub Distinct-append :
        (rs : List A) (r : A)
        → any (λ s. clash s r) rs ≡ false
        → Distinct clash rs
        → Distinct clash (rs ++ (r ∷ []))
    unfolding any
    Distinct-append [] r free h = (tt, tt)
    Distinct-append (s ∷ rs) r free (q, h) =
        ground (arith, Distinct-append rs r, All-append (λ x. clash s x ≡ false) rs r q)

    pub Distinct-update_where :
        (p : A → Bool) (change : A → A) (rs : List A)
        → ((r s : A) → clash (change r) s ≡ clash r s)
        → ((r s : A) → clash r (change s) ≡ clash r s)
        → Distinct clash rs
        → Distinct clash (update_where p change rs)
    unfolding update_where
    Distinct-update_where p change [] one other h = tt
    Distinct-update_where p change (r ∷ rs) one other (q, h) = (
      All-update_where _ _ p change rs
          (λ s e _. ground (arith, one r s, one r (change s), other r s))
          (λ s e _. ground (arith, one r s)) q,
      Distinct-update_where p change rs one other h,
    )

    pub Distinct-delete_where :
        (p : A → Bool) (rs : List A) → Distinct clash rs → Distinct clash (delete_where p rs)
    unfolding delete_where
    Distinct-delete_where p [] h = tt
    Distinct-delete_where p (r ∷ rs) (q, h) = ground (
      arith,
      Distinct-delete_where p rs h,
      All-delete_where (λ s. clash r s ≡ false) (λ s. clash r s ≡ false) p rs (λ s e _. e) q,
    )
