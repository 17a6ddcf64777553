-- ===== src/Base/Base64.antt =====
-- Go's base64.RawStdEncoding: the standard alphabet, without padding.
pub mod Decoding
use Prim.Native.Nat.{ℕ, ◌+◌, ◌-◌, ◌*◌, ◌/◌, ◌%◌}
use mathlib.Core.Bool.{Bool, ◌&&◌, ◌||◌, not}
use mathlib.Core.Option.{Option, none, some}
use mathlib.Core.List.{List, [], ◌∷◌, map}
use pf_media.Base.Tests.{Str, nat_eq, ◌==◌, ltb, leb, if◌then◌else◌}
use pf_media.Base.Lists.{keep}

-- The byte that stands for a number below 64.
unfoldable pub symbol : ℕ → ℕ
symbol n =
    if ltb n 26
    then n + b'A'
    else if ltb n 52
    then n - 26 + b'a'
    else if ltb n 62
    then n - 52 + b'0'
    else if n == 62
    then b'+'
    else b'/'

-- The number that a byte stands for.
unfoldable pub symbol_value : ℕ → Option ℕ
symbol_value c =
    if leb b'A' c && leb c b'Z'
    then some (c - b'A')
    else if leb b'a' c && leb c b'z'
    then some (c - b'a' + 26)
    else if leb b'0' c && leb c b'9'
    then some (c - b'0' + 52)
    else if c == b'+'
    then some 62
    else if c == b'/'
    then some 63
    else none

-- The numbers below 64 that carry the bits of a text, the last one filled up with zeros.
unfoldable pub sextets : Str → List ℕ
sextets [] = []
sextets (a ∷ []) = (a / 4) ∷ (a % 4 * 16) ∷ []
sextets (a ∷ b ∷ []) = (a / 4) ∷ (a % 4 * 16 + b / 16) ∷ (b % 16 * 4) ∷ []
sextets (a ∷ b ∷ c ∷ s) =
    (a / 4) ∷ (a % 4 * 16 + b / 16) ∷ (b % 16 * 4 + c / 64) ∷ (c % 64) ∷ sextets s

-- EncodeToString
unfoldable pub encode : Str → Str
unfolding symbol sextets
encode s = map symbol (sextets s)

abbrev bind : {A B : Type 0} → Option A → (A → Option B) → Option B
bind none f = none
bind (some a) f = f a

abbrev both : Option ℕ → Option (List ℕ) → Option (List ℕ)
both v vs = bind v λ n. bind vs λ ns. some (n ∷ ns)

-- The numbers that bytes stand for, when each of them is in the alphabet.
unfoldable pub values : Str → Option (List ℕ)
unfolding symbol_value
values [] = some []
values (c ∷ s) = both (symbol_value c) (values s)

-- The three bytes that four such numbers carry.
abbrev first : ℕ → ℕ → ℕ
first a b = a * 4 + b / 16

abbrev second : ℕ → ℕ → ℕ
second b c = b % 16 * 16 + c / 4

abbrev third : ℕ → ℕ → ℕ
third c d = c % 4 * 64 + d

-- Bits that are left over behind the last byte are dropped.
unfoldable pub bytes_of : List ℕ → Option Str
bytes_of [] = some []
bytes_of (a ∷ []) = none
bytes_of (a ∷ b ∷ []) = some (first a b ∷ [])
bytes_of (a ∷ b ∷ c ∷ []) = some (first a b ∷ second b c ∷ [])
bytes_of (a ∷ b ∷ c ∷ d ∷ s) =
    bind (bytes_of s) λ rest. some (first a b ∷ second b c ∷ third c d ∷ rest)

-- DecodeString, which skips the line feeds and the carriage returns.
unfoldable pub decode : Str → Option Str
unfolding keep values bytes_of
decode s = bind (values (keep (λ c. not (c == 10 || c == 13)) s)) bytes_of
