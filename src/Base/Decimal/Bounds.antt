-- ===== src/Base/Decimal/Bounds.antt =====
-- The range of the numbers that are read.
use Prim.Native.Nat.{ℕ, ◌+◌, ◌^◌, ◌<◌}
use mathlib.Core.Path.{◌≡◌, refl}
use mathlib.Core.Logic.{inl, inr}
use mathlib.Core.Option.{Option, none, some}
use mathlib.Core.List.{[], ◌∷◌}
use native.Mathlib.Omega.{arith}
use pf_media.Base.Tests.{Str, nat_eq, ◌==◌, Bool-cases, Option-cases}
use pf_media.Base.Int.{ℤ, InInt64}
use pf_media.Base.Decimal.{digits, parse_uint, parse_int64, positive, negative}

pub parse_uint-lt : (bound n : ℕ) (s : Str) → parse_uint bound s ≡ some n → n < bound
unfolding parse_uint
parse_uint-lt bound n s h = elim (Option-cases (digits 0 s)) [
  | inl e ↦ ground arith
  | inr (k, e) ↦ ground arith
]

positive-InInt64 :
    (s : Str) (n : ℤ) (o : Option ℕ) → parse_uint (2 ^ 63) s ≡ o → positive o ≡ some n → InInt64 n
positive-InInt64 s n none e h = cc
positive-InInt64 s n (some k) e h = ground (arith, parse_uint-lt (2 ^ 63) k s e)

negative-InInt64 :
    (s : Str) (n : ℤ) (o : Option ℕ)
    → parse_uint (2 ^ 63 + 1) s ≡ o
    → negative o ≡ some n
    → InInt64 n
negative-InInt64 s n none e h = cc
negative-InInt64 s n (some k) e h = ground (arith, parse_uint-lt (2 ^ 63 + 1) k s e)

-- What ParseInt reads is an int64.
pub parse_int64-InInt64 : (s : Str) (n : ℤ) → parse_int64 s ≡ some n → InInt64 n
unfolding parse_int64
parse_int64-InInt64 [] n h = cc
parse_int64-InInt64 (c ∷ s) n h = elim (Bool-cases (c == b'-')) [
  | inl minus ↦ negative-InInt64 s n _ refl (rw minus at h)
  | inr e ↦ elim (Bool-cases (c == b'+')) [
    | inl plus ↦ positive-InInt64 s n _ refl (rw (e, plus) at h)
    | inr e' ↦ positive-InInt64 (c ∷ s) n _ refl (rw (e, e') at h)
  ]
]
