-- ===== src/Tests/Demo.antt =====
-- The service of the tests: an object storage that answers as the fake of media_test.go does.
use pf_media.Base.{Str, ℕ, zero, suc, ◌+◌, some, [], ◌∷◌, ◌++◌, codes, ◌==◌, str_eq, arith, refl}
use pf_media.Base.Int.{pos}
use pf_media.Domain.{ok, File, FileStatus}
use pf_media.Exec.{World}
use pf_media.Store.Memory
use pf_media.Store.Memory.{State, memory_store}
use pf_media.Mime.{image_png, png_magic}
use pf_media.Service.{Media}
use pf_media.Service.Uploads.{PresignInput}
use pf_media.Service.Preserved.{SizesInt64}
use pf_media.Service.Steps.OnMemory.{OnMemory}

abbrev pub zeros : ℕ → Str
zeros zero = []
zeros (suc n) = 0 ∷ zeros n

abbrev pub demo : Media State ℕ
demo = record {
  store = memory_store;
  objects = record {
    presign_put = λ key ct ttl e. (ok (codes "http://upload/" ++ key), e);
    presign_get = λ key ttl e. (ok (codes "http://get/" ++ key), e);
    stat = λ key e. (ok (pos 100, codes "etag"), e);
    read_head = λ key n e. (ok png_magic, e);
    delete = λ key e. (ok tt, e);
    delete_prefix = λ prefix e. (ok tt, e);
    bucket = codes "media";
  };
  queue = some (record { enqueue = λ message e. (ok tt, e + 1) });
  system = record {
    now = λ e. (e, e + 1);
    new_id = λ e. ((e + b'a') ∷ [], e + 1);
    rand_read = λ n e. (ok (zeros n), e + 1);
  };
  passwords = record {
    hash = λ plain e. (ok (codes "$" ++ plain), e);
    verify = λ plain hash. ok (hash == codes "$" ++ plain);
  };
  quota_limit = pos 1000;
  max_upload = pos 500;
  presign_ttl = pos 60;
}

abbrev pub alice : Str
alice = codes "alice"

abbrev pub bob : Str
bob = codes "bob"

abbrev pub acme : Str
acme = codes "acme"

abbrev pub png_input : PresignInput
png_input = record { content_type = image_png; size = pos 100; purpose = []; folder_id = [] }

abbrev pub start : World State ℕ
start = record { db = Memory.new; ext = 1 }

-- A ready file of Alice, and its table.
abbrev pub photo : File
photo = record {
  id = codes "f";
  owner_sub = alice;
  org_id = acme;
  folder_id = [];
  object_key = codes "user/alice/f/orig";
  content_type = image_png;
  size_bytes = pos 100;
  purpose = codes "drive";
  status = FileStatus.ready;
  variants = [];
  created_at = 0;
}

abbrev pub with_photo : World State ℕ
with_photo = record {
  db = record Memory.new {
    files = (codes "f", photo) ∷ [];
    quota = (codes "org:acme", pos 300) ∷ [];
  };
  ext = 1;
}

demo-SizesInt64 : SizesInt64 demo
demo-SizesInt64 = record { bound = λ key e r h. ground arith }

pub demo-OnMemory : OnMemory demo
demo-OnMemory = record {
  memory = refl;
  sizes = demo-SizesInt64;
  limit_nonneg = omega arith;
  limit_int64 = omega arith;
}
