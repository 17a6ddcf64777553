-- ===== src/Password.antt =====
-- apps/api/internal/password/password.go. `argon2.IDKey` and the bytes that `rand.Read` fills in are
-- parameters: `id_key password salt time memory threads key_len` is the derived key.
pub mod Checking
use pf_media.Base.{
  Str, ℕ, ◌+◌, ◌*◌, ◌^◌, ◌%◌, Bool, true, false, ◌||◌, Option, none, some, List, [], ◌∷◌, ◌++◌,
  if◌then◌else◌, ◌==◌, ◌/=◌, nat_eq, str_eq, ltb, length, codes,
}
use pf_media.Base.Split.{split, cut}
use pf_media.Base.Decimal.{parse_uint, format_uint32}
use pf_media.Base.Base64.{encode, decode}
use pf_media.Domain.{Err, other, wrapped, Result, ok, err}
use pf_media.Domain.Results.{◌>>=◌, ◌>>◌, fail_if, expect}

abbrev pub algo : Str
algo = codes "argon2id"

-- argon2.Version
abbrev pub version : ℕ
version = 19

abbrev pub memory_kib : ℕ
memory_kib = 64 * 1024

abbrev pub time_cost : ℕ
time_cost = 1

abbrev pub threads : ℕ
threads = 4

abbrev pub key_len : ℕ
key_len = 32

abbrev pub salt_len : ℕ
salt_len = 16

-- fmt.Sprintf("v=%d", version)
abbrev pub version_part : Str
unfolding format_uint32
version_part = codes "v=" ++ format_uint32 version

-- The text that `Hash` prints, in front of the salt.
unfoldable pub header : Str
unfolding format_uint32
header =
    codes "$"
    ++ algo
    ++ codes "$"
    ++ version_part
    ++ codes "$m="
    ++ format_uint32 memory_kib
    ++ codes ",t="
    ++ format_uint32 time_cost
    ++ codes ",p="
    ++ format_uint32 threads
    ++ codes "$"

-- The values that `parsePHC` collects; `p` is a uint64 there.
pub record Costs : Type 0 where
  pub memory : ℕ
  pub time : ℕ
  pub p : ℕ

pub record Phc : Type 0 where
  pub salt : Str
  pub hash : Str
  pub memory : ℕ
  pub time : ℕ
  pub threads : ℕ

-- The `switch` on a parameter's name. A number that ParseUint reads at 32 bits is a uint32.
unfoldable pub set_cost : Str → ℕ → Costs → Costs
set_cost k n costs =
    if k == codes "m"
    then record costs { memory = n }
    else if k == codes "t"
    then record costs { time = n }
    else if k == codes "p"
    then record costs { p = n }
    else costs

-- The loop over the parameters.
unfoldable pub read_costs : List Str → Costs → Result Costs
unfolding cut parse_uint set_cost
read_costs [] costs = ok costs
read_costs (kv ∷ kvs) costs = do
  (k, v) ← expect (other (codes "invalid phc param")) (cut kv b'=')
  n ← expect (other (codes "invalid phc value")) (parse_uint (2 ^ 32) v)
  read_costs kvs (set_cost k n costs)

-- parsePHC, on the parts of the text
unfoldable pub parse_parts : List Str → Result Phc
unfolding split read_costs decode
parse_parts (empty ∷ name ∷ version_text ∷ params ∷ salt64 ∷ hash64 ∷ []) = do
  fail_if (name /= algo) (other (codes "unsupported password hash format"))
  fail_if (version_text /= version_part) (other (codes "unsupported argon2 version"))
  costs ← read_costs (split params b',') (record { memory = 0; time = 0; p = 0 })
  fail_if (costs.memory == 0 || costs.time == 0 || costs.p == 0 || ltb 255 costs.p)
      (other (codes "incomplete phc parameters"))
  salt ← expect (other (codes "salt")) (decode salt64)
  hash ← expect (other (codes "hash")) (decode hash64)
  ok (record {
    salt = salt;
    hash = hash;
    memory = costs.memory;
    time = costs.time;
    threads = costs.p;
  })
parse_parts parts = err (other (codes "unsupported password hash format"))

unfoldable pub parse_phc : Str → Result Phc
unfolding split parse_parts
parse_phc encoded = parse_parts (split encoded b'$')

-- fmt.Errorf("salt: %w", err)
abbrev salted : Result Str → Result Str
salted (ok salt) = ok salt
salted (err e) = err (wrapped (codes "salt") e)

module _ (id_key : Str → Str → ℕ → ℕ → ℕ → ℕ → Str) where
  -- `salt` is what `rand.Read` answers with.
  unfoldable pub hash : Result Str → Str → Result Str
  unfolding header encode
  hash salt plain = do
    fail_if (plain == []) (other (codes "password must not be empty"))
    salt ← salted salt
    ok (
        header
        ++ encode salt
        ++ b'$' ∷ encode (id_key plain salt time_cost memory_kib threads key_len))

  unfoldable pub verify : Str → Str → Result Bool
  unfolding parse_phc
  verify plain encoded = if plain == [] || encoded == [] then ok false else do
    phc ← parse_phc encoded
    ok (
        id_key plain phc.salt phc.time phc.memory phc.threads (length phc.hash % 2 ^ 32)
        == phc.hash)
