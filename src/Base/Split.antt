-- ===== src/Base/Split.antt =====
-- The functions of Go's `strings` package that take texts apart.
use Prim.Native.Nat.{ℕ}
use mathlib.Core.Bool.{Bool}
use mathlib.Core.Option.{Option, none, some}
use mathlib.Core.List.{List, [], ◌∷◌, reverse}
use pf_media.Base.Tests.{Str, nat_eq, ◌==◌, if◌then◌else◌}
use pf_media.Base.Lists.{drop, length, contains}
use pf_media.Base.Text.{has_prefix, trim_left_byte}

-- strings.HasSuffix(s, suffix)
unfoldable pub has_suffix : Str → Str → Bool
unfolding has_prefix
has_suffix s suffix = has_prefix (reverse s) (reverse suffix)

-- strings.TrimPrefix(s, prefix)
unfoldable pub trim_prefix : Str → Str → Str
unfolding has_prefix
trim_prefix s prefix = if has_prefix s prefix then drop (length prefix) s else s

-- strings.TrimSuffix(s, suffix)
unfoldable pub trim_suffix : Str → Str → Str
unfolding trim_prefix
trim_suffix s suffix = reverse (trim_prefix (reverse s) (reverse suffix))

-- strings.TrimRight(s, cutset), for a cutset of one byte
unfoldable pub trim_right_byte : ℕ → Str → Str
unfolding trim_left_byte
trim_right_byte b s = reverse (trim_left_byte b (reverse s))

-- strings.Contains(s, b), for a text `b` of one byte
unfoldable pub contains_byte : Str → ℕ → Bool
unfolding contains
contains_byte s b = contains s b

abbrev pub push_byte : ℕ → List Str → List Str
push_byte c [] = (c ∷ []) ∷ []
push_byte c (part ∷ parts) = (c ∷ part) ∷ parts

-- strings.Split(s, sep), for a separator of one byte
unfoldable pub split : Str → ℕ → List Str
split [] sep = [] ∷ []
split (c ∷ s) sep = let parts = split s sep in if c == sep then [] ∷ parts else push_byte c parts

abbrev push_before : ℕ → Option (Str × Str) → Option (Str × Str)
push_before c none = none
push_before c (some (before, after)) = some (c ∷ before, after)

-- strings.Cut(s, sep), for a separator of one byte
unfoldable pub cut : Str → ℕ → Option (Str × Str)
cut [] sep = none
cut (c ∷ s) sep = let rest = cut s sep in if c == sep then some ([], s) else push_before c rest
