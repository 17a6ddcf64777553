-- ===== src/Objects.antt =====
-- The client of apps/api/internal/objectstore/minio.go. A *minio.Client is a record of what its
-- methods answer; `make host` is `minio.New` with the credentials and the options of `New`.
pub mod Removing
use pf_media.Base.{
  Str, ℕ, Bool, Option, none, some, List, [], ◌∷◌, if◌then◌else◌, ◌||◌, ◌&&◌, ◌==◌, ◌/=◌, nat_eq,
  str_eq, codes,
}
use pf_media.Base.Int.{ℤ}
use pf_media.Domain.{Err, other, Result, ok, err}
use pf_media.Domain.Results
use pf_media.Exec.{Exec, ◌>>=◌, ◌>>◌, pure, raise, reject_if}
use pf_media.Service.{ObjectStore}

-- `O` is an object that is open. `read_object` is one call of Read with a buffer of so many bytes:
-- the bytes that it has filled in, and an error. `remove_listed` is RemoveObjects on what ListObjects
-- lists below a prefix: the errors of the results, in order.
pub record Minio (O E : Type 0) : Type 0 where
  pub bucket_exists : Str → Exec E Bool
  pub make_bucket : Str → Exec E Unit
  pub presigned_put : Str → Str → ℤ → Exec E Str
  pub presigned_get : Str → Str → ℤ → Exec E Str
  pub stat_object : Str → Str → Exec E (ℤ × Str)
  pub get_object : Str → Str → Exec E O
  pub read_object : O → ℕ → Exec E (Str × Option Err)
  pub remove_object : Str → Str → Exec E Unit
  pub remove_listed : Str → Str → Exec E (List (Option Err))

pub record Client (O E : Type 0) : Type 0 where
  pub mc : Minio O E
  pub presign_mc : Minio O E
  pub bucket : Str

unfoldable pub new :
    {O E : Type 0} → (Str → Result (Minio O E)) → Str → Str → Str → Result (Client O E)
new make endpoint public_endpoint bucket =
    let presign_endpoint = if public_endpoint == [] then endpoint else public_endpoint in
    Results.◌>>=◌ (make endpoint) λ mc.
      Results.◌>>=◌ (if presign_endpoint /= endpoint then make presign_endpoint else ok mc)
        λ presign_mc. ok (record { mc = mc; presign_mc = presign_mc; bucket = bucket })

-- The first error of a list of results.
unfoldable pub first_error : {E : Type 0} → List (Option Err) → Exec E Unit
first_error [] = pure tt
first_error (none ∷ es) = first_error es
first_error (some e ∷ es) = raise e

-- `if err != nil && n == 0 { return nil, err }`
abbrev pub read_result : {E : Type 0} → Str → Option Err → Exec E Str
read_result bytes none = pure bytes
read_result bytes (some e) = if bytes == [] then raise e else pure bytes

module _ {O E : Type 0} (c : Client O E) where
  open c use {mc, presign_mc, bucket}

  unfoldable pub ensure_bucket : Exec E Unit
  ensure_bucket = do
    there ← mc.bucket_exists bucket
    if there then pure tt else mc.make_bucket bucket

  -- The content type is not used.
  unfoldable pub presign_put : Str → Str → ℤ → Exec E Str
  presign_put key content_type ttl = presign_mc.presigned_put bucket key ttl

  unfoldable pub presign_get : Str → ℤ → Exec E Str
  presign_get key ttl = presign_mc.presigned_get bucket key ttl

  unfoldable pub stat : Str → Exec E (ℤ × Str)
  stat key = mc.stat_object bucket key

  unfoldable pub read_head : Str → ℕ → Exec E Str
  read_head key max = do
    obj ← mc.get_object bucket key
    (bytes, e) ← mc.read_object obj (if max == 0 then 512 else max)
    read_result bytes e

  unfoldable pub delete : Str → Exec E Unit
  delete key = mc.remove_object bucket key

  unfoldable pub delete_prefix : Str → Exec E Unit
  unfolding first_error
  delete_prefix prefix = do
    reject_if (prefix == [] || prefix == codes "/") (other (codes "refusing empty object prefix"))
    errors ← mc.remove_listed bucket prefix
    first_error errors

  -- `service.NewObjectStore`
  unfoldable pub object_store : ObjectStore E
  unfolding presign_put presign_get stat read_head delete delete_prefix
  object_store = record {
    presign_put = presign_put;
    presign_get = presign_get;
    stat = stat;
    read_head = read_head;
    delete = delete;
    delete_prefix = delete_prefix;
    bucket = bucket;
  }
