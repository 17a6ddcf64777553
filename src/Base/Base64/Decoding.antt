-- ===== src/Base/Base64/Decoding.antt =====
-- What decoding makes of an encoded text.
use Prim.Native.Nat.{ℕ, ◌<◌}
use mathlib.Core.Path.{◌≡◌, refl}
use mathlib.Core.Logic.{◌≢◌}
use mathlib.Core.Bool.{◌||◌, not}
use mathlib.Core.Option.{some}
use mathlib.Core.List.{List, [], ◌∷◌, map}
use native.Mathlib.Omega.{arith}
use pf_media.Base.Tests.{Str, nat_eq, ◌==◌}
use pf_media.Base.Lists.{All, keep}
use pf_media.Base.Base64.{symbol, symbol_value, sextets, encode, values, bytes_of, decode}

symbol_value-symbol : (n : ℕ) → n < 64 → symbol_value (symbol n) ≡ some n
unfolding symbol symbol_value
symbol_value-symbol n h = ground arith

-- A byte that Split and DecodeString leave alone.
abbrev pub IsSafe : ℕ → Type 0
IsSafe c = (c ≢ 10) × (c ≢ 13) × (c ≢ b'$')

symbol-IsSafe : (n : ℕ) → n < 64 → IsSafe (symbol n)
unfolding symbol
symbol-IsSafe n h = ground arith

sextets-lt : (s : Str) → All (λ c. c < 256) s → All (λ n. n < 64) (sextets s)
unfolding sextets
sextets-lt [] h = tt
sextets-lt (a ∷ []) h = ground arith
sextets-lt (a ∷ b ∷ []) h = ground arith
sextets-lt (a ∷ b ∷ c ∷ s) h = ground (arith, sextets-lt s h.1.1.1)

bytes_of-sextets : (s : Str) → All (λ c. c < 256) s → bytes_of (sextets s) ≡ some s
unfolding sextets bytes_of
bytes_of-sextets [] h = refl
bytes_of-sextets (a ∷ []) h = ground arith
bytes_of-sextets (a ∷ b ∷ []) h = ground arith
bytes_of-sextets (a ∷ b ∷ c ∷ s) h = rw (bytes_of-sextets s h.1.1.1) (ground arith)

values-symbol : (ns : List ℕ) → All (λ n. n < 64) ns → values (map symbol ns) ≡ some ns
unfolding values
values-symbol [] h = refl
values-symbol (n ∷ ns) h = rw (symbol_value-symbol n h.0, values-symbol ns h.1) refl

-- An encoded text has bytes of the alphabet only.
pub encode-IsSafe : (s : Str) → All (λ c. c < 256) s → All IsSafe (encode s)
unfolding encode
encode-IsSafe s h = safe (sextets s) (sextets-lt s h)
  where
    safe : (ns : List ℕ) → All (λ n. n < 64) ns → All IsSafe (map symbol ns)
    safe [] h = tt
    safe (n ∷ ns) h = (symbol-IsSafe n h.0, safe ns h.1)

keep_safe : (s : Str) → All IsSafe s → keep (λ c. not (c == 10 || c == 13)) s ≡ s
unfolding keep
keep_safe [] h = refl
keep_safe (c ∷ s) h = ground (arith, keep_safe s h.1)

pub decode-encode : (s : Str) → All (λ c. c < 256) s → decode (encode s) ≡ some s
unfolding decode encode
decode-encode s h =
    rw
      (
        keep_safe (encode s) (encode-IsSafe s h),
        values-symbol (sextets s) (sextets-lt s h),
        bytes_of-sextets s h,
      )
      refl
