-- ===== src/Base/Decimal.antt =====
-- strconv on numbers in base 10: ParseUint, ParseInt, Atoi and FormatUint.
pub mod Bounds
use Prim.Native.Nat.{ℕ, zero, suc, ◌+◌, ◌-◌, ◌*◌, ◌/◌, ◌%◌, ◌^◌, ◌≤◌, ◌<◌}
use mathlib.Core.Bool.{Bool, ◌&&◌}
use mathlib.Core.Option.{Option, none, some}
use mathlib.Core.List.{[], ◌∷◌, ◌++◌}
use pf_media.Base.Tests.{Str, nat_eq, str_eq, ◌==◌, ltb, leb, if◌then◌else◌}
use pf_media.Base.Int.{ℤ, pos, negsuc}

abbrev pub is_digit : ℕ → Bool
is_digit c = leb b'0' c && leb c b'9'

-- The number that digits stand for, behind those of `acc`.
unfoldable pub digits : ℕ → Str → Option ℕ
digits acc [] = some acc
digits acc (c ∷ s) =
    let rest = digits (acc * 10 + (c - b'0')) s in if is_digit c then rest else none

abbrev below : ℕ → Option ℕ → Option ℕ
below bound none = none
below bound (some n) = if ltb n bound then some n else none

-- strconv.ParseUint(s, 10, bits), with `bound` for 2 ^ bits; `none` is an error.
unfoldable pub parse_uint : ℕ → Str → Option ℕ
unfolding digits
parse_uint bound s = if s == [] then none else below bound (digits 0 s)

abbrev pub positive : Option ℕ → Option ℤ
positive none = none
positive (some n) = some (pos n)

abbrev pub negative : Option ℕ → Option ℤ
negative none = none
negative (some n) = some (if n == 0 then pos 0 else negsuc (n - 1))

-- strconv.ParseInt(s, 10, 64), and strconv.Atoi where an int has 64 bits.
unfoldable pub parse_int64 : Str → Option ℤ
unfolding parse_uint
parse_int64 [] = none
parse_int64 (c ∷ s) =
    if c == b'-'
    then negative (parse_uint (2 ^ 63 + 1) s)
    else if c == b'+'
    then positive (parse_uint (2 ^ 63) s)
    else positive (parse_uint (2 ^ 63) (c ∷ s))

-- The digits of `n`, at most `fuel` of them, in front of `s`.
unfoldable pub format_from : ℕ → ℕ → Str → Str
format_from zero n s = s
format_from (suc fuel) n s =
    let more = format_from fuel (n / 10) ((n % 10 + b'0') ∷ s) in
    if ltb n 10 then (n + b'0') ∷ s else more

-- fmt's `%d` of a uint32, which has ten digits at most.
unfoldable pub format_uint32 : ℕ → Str
unfolding format_from
format_uint32 n = format_from 10 n []
