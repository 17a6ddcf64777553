-- ===== src/ShareToken/Encoding.antt =====
-- The alphabet of the tokens, and when two tokens are the same.
use pf_media.Base.{
  Str, ℕ, ◌+◌, ◌*◌, ◌/◌, ◌%◌, ◌≤◌, ◌<◌, ◌≡◌, ◌⊎◌, [], ◌∷◌, All, arith, refl, inl, inr,
}
use pf_media.Domain.{Err, Result, ok, err}
use pf_media.Exec.{Exec, ◌>>=◌}
use pf_media.ShareToken.{url_digit, encode, raw_bytes, new}

Result-cases : {A : Type 0} (r : Result A) → ((a : A) × (r ≡ ok a)) ⊎ ((e : Err) × (r ≡ err e))
Result-cases (ok a) = inl (a, refl)
Result-cases (err e) = inr (e, refl)

-- A letter, a digit, `-` or `_`.
abbrev pub UrlSafe : ℕ → Type 0
UrlSafe c =
    ((b'A' ≤ c) × (c ≤ b'Z'))
    ⊎ ((b'a' ≤ c) × (c ≤ b'z'))
    ⊎ ((b'0' ≤ c) × (c ≤ b'9'))
    ⊎ (c ≡ b'-')
    ⊎ (c ≡ b'_')

abbrev pub IsByte : ℕ → Type 0
IsByte b = b < 256

url_digit-UrlSafe : (n : ℕ) → UrlSafe (url_digit n)
unfolding url_digit
url_digit-UrlSafe n = ground arith

url_digit-injective : (n k : ℕ) → n < 64 → k < 64 → url_digit n ≡ url_digit k → n ≡ k
unfolding url_digit
url_digit-injective n k hn hk e = ground arith

-- Every character of an encoding is a letter, a digit, `-` or `_`.
encode-UrlSafe : (bs : Str) → All UrlSafe (encode bs)
unfolding encode
encode-UrlSafe [] = tt
encode-UrlSafe (a ∷ []) = (url_digit-UrlSafe (a / 4), (url_digit-UrlSafe (a % 4 * 16), tt))
encode-UrlSafe (a ∷ b ∷ []) = (
  url_digit-UrlSafe (a / 4),
  (url_digit-UrlSafe (a % 4 * 16 + b / 16), (url_digit-UrlSafe (b % 16 * 4), tt)),
)
encode-UrlSafe (a ∷ b ∷ c ∷ bs) = (
  url_digit-UrlSafe (a / 4),
  (
    url_digit-UrlSafe (a % 4 * 16 + b / 16),
    (url_digit-UrlSafe (b % 16 * 4 + c / 64), (url_digit-UrlSafe (c % 64), encode-UrlSafe bs)),
  ),
)

-- Two lists of bytes with the same encoding are the same.
encode-injective : (bs cs : Str) → All IsByte bs → All IsByte cs → encode bs ≡ encode cs → bs ≡ cs
unfolding encode
encode-injective [] [] hb hc e = refl
encode-injective [] (x ∷ []) hb hc e = cc
encode-injective [] (x ∷ y ∷ []) hb hc e = cc
encode-injective [] (x ∷ y ∷ z ∷ cs) hb hc e = cc
encode-injective (a ∷ []) [] hb hc e = cc
encode-injective (a ∷ []) (x ∷ []) hb hc e =
    ground
      (arith, url_digit-injective (a / 4) (x / 4), url_digit-injective (a % 4 * 16) (x % 4 * 16))
encode-injective (a ∷ []) (x ∷ y ∷ []) hb hc e = cc
encode-injective (a ∷ []) (x ∷ y ∷ z ∷ cs) hb hc e = cc
encode-injective (a ∷ b ∷ []) [] hb hc e = cc
encode-injective (a ∷ b ∷ []) (x ∷ []) hb hc e = cc
encode-injective (a ∷ b ∷ []) (x ∷ y ∷ []) hb hc e = ground (
  arith,
  url_digit-injective (a / 4) (x / 4),
  url_digit-injective (a % 4 * 16 + b / 16) (x % 4 * 16 + y / 16),
  url_digit-injective (b % 16 * 4) (y % 16 * 4),
)
encode-injective (a ∷ b ∷ []) (x ∷ y ∷ z ∷ cs) hb hc e = cc
encode-injective (a ∷ b ∷ c ∷ bs) [] hb hc e = cc
encode-injective (a ∷ b ∷ c ∷ bs) (x ∷ []) hb hc e = cc
encode-injective (a ∷ b ∷ c ∷ bs) (x ∷ y ∷ []) hb hc e = cc
encode-injective (a ∷ b ∷ c ∷ bs) (x ∷ y ∷ z ∷ cs) hb hc e = ground (
  arith,
  url_digit-injective (a / 4) (x / 4),
  url_digit-injective (a % 4 * 16 + b / 16) (x % 4 * 16 + y / 16),
  url_digit-injective (b % 16 * 4 + c / 64) (y % 16 * 4 + z / 64),
  url_digit-injective (c % 64) (z % 64),
  encode-injective bs cs,
)

module _ {E : Type 0} (rand_read : ℕ → Exec E Str) where
  -- Every character of a new token is a letter, a digit, `-` or `_`.
  pub new-UrlSafe : (e : E) (token : Str) → (new rand_read e).0 ≡ ok token → All UrlSafe token
  unfolding new ◌>>=◌
  new-UrlSafe e token h = elim (Result-cases (rand_read raw_bytes e).0) [
    | inl (b, r) ↦ ground (arith, encode-UrlSafe b)
    | inr (x, r) ↦ ground arith
  ]

  -- Two calls that draw bytes make the same token only when they draw the same bytes.
  pub new-injective :
      (e e' : E) (b b' token : Str)
      → (rand_read raw_bytes e).0 ≡ ok b
      → (rand_read raw_bytes e').0 ≡ ok b'
      → All IsByte b
      → All IsByte b'
      → (new rand_read e).0 ≡ ok token
      → (new rand_read e').0 ≡ ok token
      → b ≡ b'
  unfolding new ◌>>=◌
  new-injective e e' b b' token r r' hb hb' h h' = ground (arith, encode-injective b b')
