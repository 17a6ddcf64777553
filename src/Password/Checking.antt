-- ===== src/Password/Checking.antt =====
-- password.go: `Verify` on what `Hash` printed.
use pf_media.Base.{
  Str, ℕ, ◌<◌, ◌≡◌, ◌≢◌, refl, true, false, List, [], ◌∷◌, ◌++◌, arith, ap, ◌∙◌, ◌==◌, nat_eq,
  str_eq, ℕ_discrete, str_discrete, eq_refl, length, codes, All,
}
use pf_media.Base.Split.{split}
use pf_media.Base.Base64.{encode}
use pf_media.Base.Base64.Decoding.{IsSafe, encode-IsSafe, decode-encode}
use pf_media.Domain.{ok}
use pf_media.Password.{
  memory_kib, time_cost, threads, key_len, version_part, header, parse_parts, parse_phc, hash,
  verify,
}

abbrev pub IsByte : ℕ → Type 0
IsByte c = c < 256

-- What `argon2.IDKey` documents: the key is of the length that is asked for.
pub record IsKeyDerivation (id_key : Str → Str → ℕ → ℕ → ℕ → ℕ → Str) : Type 0 where
  pub key_bytes :
      (password salt : Str) (time memory threads key_len : ℕ)
      → All IsByte (id_key password salt time memory threads key_len)
  pub key_length :
      (password salt : Str) (time memory threads key_len : ℕ)
      → length (id_key password salt time memory threads key_len) ≡ key_len

split_last : (s : Str) → All IsSafe s → split s b'$' ≡ s ∷ []
unfolding split
split_last [] h = refl
split_last (c ∷ s) h = rw (split_last s h.1) (ground arith)

split_part : (s rest : Str) → All IsSafe s → split (s ++ b'$' ∷ rest) b'$' ≡ s ∷ split rest b'$'
unfolding split ℕ_discrete
split_part [] rest h = refl
split_part (c ∷ s) rest h = rw (split_part s rest h.1) (ground arith)

split_first :
    (s rest : Str) (parts : List Str)
    → All IsSafe s
    → split rest b'$' ≡ parts
    → split (s ++ b'$' ∷ rest) b'$' ≡ s ∷ parts
split_first s rest parts h e = split_part s rest h ∙ ap (λ ps. s ∷ ps) e

abbrev params : Str
params = codes "m=65536,t=1,p=4"

parts_of :
    (salt64 hash64 : Str)
    → All IsSafe salt64
    → All IsSafe hash64
    → split (header ++ salt64 ++ b'$' ∷ hash64) b'$'
      ≡ [] ∷ codes "argon2id" ∷ codes "v=19" ∷ params ∷ salt64 ∷ hash64 ∷ []
unfolding header
parts_of salt64 hash64 salt_safe hash_safe =
    let salted = split_first salt64 hash64 (hash64 ∷ []) salt_safe (split_last hash64 hash_safe) in
    let costed = split_first params (salt64 ++ b'$' ∷ hash64) _ (ground arith) salted in
    let versioned =
      split_first (codes "v=19") (params ++ b'$' ∷ salt64 ++ b'$' ∷ hash64) _ (ground arith)
        costed in
    let named =
      split_first (codes "argon2id")
        (codes "v=19" ++ b'$' ∷ params ++ b'$' ∷ salt64 ++ b'$' ∷ hash64) _ (ground arith)
        versioned in
    split_first []
      (codes "argon2id" ++ b'$' ∷ codes "v=19" ++ b'$' ∷ params ++ b'$' ∷ salt64 ++ b'$' ∷ hash64) _
      tt named

parse_phc_printed :
    (salt key : Str)
    → All IsByte salt
    → All IsByte key
    → parse_phc (header ++ encode salt ++ b'$' ∷ encode key)
      ≡ ok (record {
        salt = salt;
        hash = key;
        memory = memory_kib;
        time = time_cost;
        threads = threads;
      })
unfolding parse_phc parse_parts version_part ℕ_discrete str_discrete
parse_phc_printed salt key salt_bytes key_bytes =
    rw
      (
        parts_of (encode salt) (encode key) (encode-IsSafe salt salt_bytes)
            (encode-IsSafe key key_bytes),
        decode-encode salt salt_bytes,
        decode-encode key key_bytes,
      )
      refl

pub given_full : (guess : Str) → guess ≢ [] → (guess == []) ≡ false
given_full guess h = ground arith

module _ (id_key : Str → Str → ℕ → ℕ → ℕ → ℕ → Str) (derivation : IsKeyDerivation id_key)
    (salt plain : Str) (salt_bytes : All IsByte salt) where
  abbrev key_of : Str → Str
  key_of password = id_key password salt time_cost memory_kib threads key_len

  abbrev printed : Str
  printed = header ++ encode salt ++ b'$' ∷ encode (key_of plain)

  hash_printed : plain ≢ [] → hash id_key (ok salt) plain ≡ ok printed
  unfolding hash
  hash_printed h = rw (given_full plain h) refl

  verify_printed :
      (guess : Str) → guess ≢ [] → verify id_key guess printed ≡ ok (key_of guess == key_of plain)
  unfolding verify header ℕ_discrete str_discrete
  verify_printed guess given =
      let key_fits = derivation.key_length plain salt time_cost memory_kib threads key_len in
      let key_bytes = derivation.key_bytes plain salt time_cost memory_kib threads key_len in
      rw
        (
          parse_phc_printed salt (key_of plain) salt_bytes key_bytes,
          key_fits,
          given_full guess given,
        )
        refl

  -- A password that is not empty has a hash under the salt that was read. `Verify` accepts the
  -- password with that hash, and any other text that is not empty exactly when its key under the
  -- salt is the password's.
  pub verify-hash :
      plain ≢ []
      → (guess : Str) → guess ≢ []
      → (encoded : Str) × (hash id_key (ok salt) plain ≡ ok encoded)
        × (verify id_key plain encoded ≡ ok true)
        × (verify id_key guess encoded ≡ ok (key_of guess == key_of plain))
  verify-hash h guess given = (
    printed,
    hash_printed h,
    verify_printed plain h ∙ ap ok (eq_refl (key_of plain)),
    verify_printed guess given,
  )
