-- ===== src/Main/Sharing.antt =====
-- media.go and password.go together: a share link is opened by the password it was made with.
use pf_media.Base.{
  Str, ℕ, ◌≡◌, ◌≢◌, ◌⊎◌, inl, inr, refl, sym, ◌∙◌, true, false, [], arith, All, ◌==◌, ◌/=◌, str_eq,
  Bool-cases,
}
use pf_media.Domain.{Result, ok, err, ShareLink, password_required}
use pf_media.Exec.{World, ◌>>=◌}
use pf_media.Service.{Media, System}
use pf_media.Service.Shares.{hash_password, share_password_ok}
use pf_media.Password.{hash, verify, salt_len}
use pf_media.Password.Checking.{IsByte, IsKeyDerivation, verify-hash}
use pf_media.Main.{hash_salted, passwords}

-- What `crypto/rand.Read` fills in are bytes.
pub record IsRandom {E : Type 0} (system : System E) : Type 0 where
  pub read_bytes :
      (n : ℕ) (e : E) (bytes : Str) → (system.rand_read n e).0 ≡ ok bytes → All IsByte bytes

module _ {D E : Type 0} (id_key : Str → Str → ℕ → ℕ → ℕ → ℕ → Str)
    (derivation : IsKeyDerivation id_key) (m : Media D E) (random : IsRandom m.system) where
  verify-nil : (plain : Str) → verify id_key plain [] ≡ ok false
  unfolding verify
  verify-nil plain = ground arith

  accepted :
      (plain encoded : Str) (salt : Result Str) (e : E)
      → (m.system.rand_read salt_len e).0 ≡ salt
      → plain ≢ []
      → hash id_key salt plain ≡ ok encoded
      → (encoded ≢ []) × (verify id_key plain encoded ≡ ok true)
  unfolding hash
  accepted plain encoded (err x) e read given h = ground arith
  accepted plain encoded (ok salt) e read given h =
      let (printed, hashed, checks, _) =
        verify-hash id_key derivation salt plain (random.read_bytes salt_len e salt read) given
          plain given in
      let same : printed ≡ encoded = cc in
      let accepts : verify id_key plain encoded ≡ ok true = rw (← same) checks in
      (λ empty. let none_given = verify-nil plain in cc, accepts)

  hash_salted_value :
      (plain : Str) (e : E)
      → (hash_salted id_key m.system plain e).0
        ≡ hash id_key (m.system.rand_read salt_len e).0 plain
  unfolding hash_salted
  hash_salted_value plain e = elim (Bool-cases (plain == [])) [
    | inl h ↦ rw h refl
    | inr h ↦ rw h refl
  ]

  salted :
      (plain encoded : Str) (e : E)
      → plain ≢ []
      → (hash_salted id_key m.system plain e).0 ≡ ok encoded
      → (encoded ≢ []) × (verify id_key plain encoded ≡ ok true)
  salted plain encoded e given h =
      accepted plain encoded (m.system.rand_read salt_len e).0 e refl given
        (sym (hash_salted_value plain e) ∙ h)

  opened :
      (plain : Str) (link : ShareLink)
      → plain ≢ []
      → m.passwords.verify plain link.password_hash ≡ ok true
      → share_password_ok m link plain ≡ ok tt
  unfolding share_password_ok
  opened plain link given checks = ground arith

  asked :
      (link : ShareLink)
      → link.password_hash ≢ []
      → share_password_ok m link [] ≡ err password_required
  unfolding share_password_ok
  asked link locked = ground arith

  unlocked :
      (plain : Str) (link : ShareLink)
      → link.password_hash ≡ []
      → share_password_ok m link plain ≡ ok tt
  unfolding share_password_ok
  unlocked plain link bare = ground arith

  not_hashed :
      (w : World D E) (encoded : Str) → (hash_password m [] w).0 ≡ ok encoded → encoded ≡ []
  unfolding hash_password ◌>>=◌
  not_hashed w encoded h = ground arith

  is_hashed :
      (plain encoded : Str) (w : World D E)
      → m.passwords ≡ passwords id_key m.system
      → plain ≢ []
      → (hash_password m plain w).0 ≡ ok encoded
      → (hash_salted id_key m.system plain w.ext).0 ≡ ok encoded
  unfolding hash_password passwords ◌>>=◌
  is_hashed plain encoded w same given h =
      let full : (plain /= []) ≡ true = ground arith in rw (same, full) at h

  -- When the service has a password hashed for a share link, the link is opened by that password,
  -- and without one the visitor is asked for it, unless the link was made without a password.
  pub share_password_ok-hash :
      (plain encoded : Str) (w : World D E) (link : ShareLink)
      → m.passwords ≡ passwords id_key m.system
      → (hash_password m plain w).0 ≡ ok encoded
      → link.password_hash ≡ encoded
      → (share_password_ok m link plain ≡ ok tt)
        × ((plain ≡ []) ⊎ (share_password_ok m link [] ≡ err password_required))
  unfolding passwords
  share_password_ok-hash plain encoded w link same hashed stored = elim (Bool-cases (plain == [])) [
    | inl h ↦
        let empty : plain ≡ [] = ground arith in
        let bare : link.password_hash ≡ [] = stored ∙ not_hashed w encoded (rw empty at hashed) in
        (unlocked plain link bare, inl empty)
    | inr h ↦
        let given : plain ≢ [] = ground arith in
        let (locked, checks) =
          salted plain encoded w.ext given (is_hashed plain encoded w same given hashed) in
        (opened plain link given (rw (same, stored) checks), inr (asked link (rw stored locked)))
  ]
