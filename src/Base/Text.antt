-- ===== src/Base/Text.antt =====
-- The functions of Go's `strings` package that the program uses, on the bytes of a string.
use Prim.Native.Nat.{ℕ, zero, suc, ◌+◌}
use mathlib.Core.Bool.{Bool, true, false, ◌&&◌, ◌||◌}
use mathlib.Core.List.{[], ◌∷◌, reverse}
use pf_media.Base.Tests.{Str, nat_eq, str_eq, ◌==◌, leb, if◌then◌else◌}
use pf_media.Base.Lists.{contains}

-- strings.HasPrefix(s, prefix)
unfoldable pub has_prefix : Str → Str → Bool
has_prefix s [] = true
has_prefix [] (p ∷ ps) = false
has_prefix (c ∷ s) (p ∷ ps) = c == p && has_prefix s ps

-- strings.ContainsAny(s, chars), for ASCII `chars`
unfoldable pub contains_any : Str → Str → Bool
unfolding contains
contains_any [] chars = false
contains_any (c ∷ s) chars = contains chars c || contains_any s chars

-- strings.Split(s, sep)[0], for a separator of one byte: the text before the first separator
unfoldable pub split_head : Str → ℕ → Str
split_head [] sep = []
split_head (c ∷ s) sep = let rest = split_head s sep in if c == sep then [] else c ∷ rest

-- strings.TrimLeft(s, cutset), for a cutset of one byte
unfoldable pub trim_left_byte : ℕ → Str → Str
trim_left_byte b [] = []
trim_left_byte b (c ∷ s) = let rest = trim_left_byte b s in if c == b then rest else c ∷ s

-- strings.Trim(s, cutset), for a cutset of one byte
unfoldable pub trim_byte : ℕ → Str → Str
unfolding trim_left_byte
trim_byte b s = reverse (trim_left_byte b (reverse (trim_left_byte b s)))

-- The ASCII white space: \t \n \v \f \r and the blank.
ascii_space : ℕ → Bool
ascii_space c = (leb 0x09 c && leb c 0x0d) || c == 0x20

-- White space of two bytes in UTF-8: U+0085 and U+00A0.
space_two : ℕ → ℕ → Bool
space_two c d = c == 0xc2 && (d == 0x85 || d == 0xa0)

-- White space of three bytes: U+1680, U+2000 to U+200A, U+2028, U+2029, U+202F, U+205F, U+3000.
space_three : ℕ → ℕ → ℕ → Bool
space_three c d e =
    (c == 0xe1 && d == 0x9a && e == 0x80)
    || (c == 0xe2
        && d == 0x80
        && ((leb 0x80 e && leb e 0x8a) || e == 0xa8 || e == 0xa9 || e == 0xaf))
    || (c == 0xe2 && d == 0x81 && e == 0x9f)
    || (c == 0xe3 && d == 0x80 && e == 0x80)

-- The number of bytes of the white space character with which a text begins, or 0.
space_len : Str → ℕ
unfolding ascii_space space_two space_three
space_len [] = 0
space_len (c ∷ []) = if ascii_space c then 1 else 0
space_len (c ∷ d ∷ []) = if ascii_space c then 1 else if space_two c d then 2 else 0
space_len (c ∷ d ∷ e ∷ s) =
    if ascii_space c then 1 else if space_two c d then 2 else if space_three c d e then 3 else 0

-- The same at the end of a text that is given in reverse.
space_len_rev : Str → ℕ
unfolding ascii_space space_two space_three
space_len_rev [] = 0
space_len_rev (c ∷ []) = if ascii_space c then 1 else 0
space_len_rev (d ∷ c ∷ []) = if ascii_space d then 1 else if space_two c d then 2 else 0
space_len_rev (e ∷ d ∷ c ∷ s) =
    if ascii_space e then 1 else if space_two d e then 2 else if space_three c d e then 3 else 0

-- Drops `k` bytes, and then each character at the front that `len` measures.
drop_spaces : (Str → ℕ) → ℕ → Str → Str
drop_spaces len k [] = []
drop_spaces len (suc k) (c ∷ s) = drop_spaces len k s
drop_spaces len zero (c ∷ s) = elim (len (c ∷ s)) [ zero ↦ c ∷ s | suc k ↦ drop_spaces len k s ]

-- strings.TrimSpace(s)
unfoldable pub trim_space : Str → Str
unfolding space_len space_len_rev drop_spaces
trim_space s = reverse (drop_spaces space_len_rev 0 (reverse (drop_spaces space_len 0 s)))

-- The lower case of the character that begins with `c`, and the bytes of it that follow `c`.
lower_first : ℕ → Str → ℕ × ℕ
unfolding has_prefix
lower_first c s =
    if leb b'A' c && leb c b'Z'
    then (c + 32, 0)
    else if c == 0xc4 && has_prefix s (0xb0 ∷ [])
    then (b'i', 1)
    else if c == 0xe2 && has_prefix s (0x84 ∷ 0xaa ∷ [])
    then (b'k', 2)
    else (c, 0)

lower_from : ℕ → Str → Str
unfolding lower_first
lower_from k [] = []
lower_from (suc k) (c ∷ s) = lower_from k s
lower_from zero (c ∷ s) = let (b, k) = lower_first c s in b ∷ lower_from k s

-- strings.ToLower(s): the ASCII letters, and the two other characters whose lower case is ASCII,
-- U+0130 (to `i`) and U+212A (to `k`). The rest of a text is left as it is: the program compares
-- the result with ASCII texts only, which no other character's lower case is a part of.
unfoldable pub to_lower : Str → Str
unfolding lower_from
to_lower s = lower_from 0 s
