-- ===== src/ShareToken.antt =====
-- apps/api/internal/sharetoken/token.go, with the encoding base64.RawURLEncoding of Go's library.
pub mod Encoding
use pf_media.Base.{Str, ℕ, ◌+◌, ◌-◌, ◌*◌, ◌/◌, ◌%◌, [], ◌∷◌, ltb, ◌==◌, nat_eq, if◌then◌else◌}
use pf_media.Exec.{Exec, pure, ◌>>=◌}

-- The character that stands for six bits.
unfoldable pub url_digit : ℕ → ℕ
url_digit n =
    if ltb n 26
    then n + b'A'
    else if ltb n 52
    then n - 26 + b'a'
    else if ltb n 62
    then n - 52 + b'0'
    else if n == 62
    then b'-'
    else b'_'

-- base64.RawURLEncoding.EncodeToString
unfoldable pub encode : Str → Str
unfolding url_digit
encode [] = []
encode (a ∷ []) = url_digit (a / 4) ∷ url_digit (a % 4 * 16) ∷ []
encode (a ∷ b ∷ []) =
    url_digit (a / 4) ∷ url_digit (a % 4 * 16 + b / 16) ∷ url_digit (b % 16 * 4) ∷ []
encode (a ∷ b ∷ c ∷ bs) =
    url_digit (a / 4)
    ∷ url_digit (a % 4 * 16 + b / 16)
    ∷ url_digit (b % 16 * 4 + c / 64)
    ∷ url_digit (c % 64)
    ∷ encode bs

abbrev pub raw_bytes : ℕ
raw_bytes = 32

-- New(). `rand_read n` fills a slice of `n` bytes from crypto/rand.
unfoldable pub new : {E : Type 0} → (ℕ → Exec E Str) → Exec E Str
unfolding encode
new rand_read = do b ← rand_read raw_bytes; pure (encode b)
