-- ===== src/Tests/Databases.antt =====
-- The service on a Postgres store, and the two stores beside each other.
use pf_media.Base.{
  keep, true, any, ℕ, ◌+◌, ◌≡◌, refl, none, some, [], ◌∷◌, arith, codes, str_discrete, All, ◌==◌,
  nat_eq, if◌then◌else◌,
}
use pf_media.Base.Int.{pos, ◌≤ℤ◌}
use pf_media.Base.Dict.{lookup, values}
use pf_media.Domain.{conflict, ok, err, FileStatus, JobStatus, Folder, JobStatus}
use pf_media.Exec.{World}
use pf_media.Store.Memory
use pf_media.Store.Postgres.{postgres_store}
use pf_media.Store.Postgres.Rows.{first, FileRow, QuotaRow, FolderRow, Tables, lost}
use pf_media.Store.Postgres.Pool.{Backend, Db, run, reply}
use pf_media.Store.Postgres.Statements.{find_file, file_there, has_folder, insert_folder}
use pf_media.Store.Postgres.Opening.{str_le}
use pf_media.Store.Postgres.Drive
use pf_media.Store.Postgres.Scanning.{scan_file}
use pf_media.Domain.Json.{variants_json, parse_variants}
use pf_media.Store.Postgres.Integrity.{Intact}
use pf_media.Store.Postgres.Invariant.{Inv, no_rows}
use pf_media.Store.Postgres.AsMemory.{view, Follows}
use pf_media.Store.Postgres.AsMemory.Calls.{
  deletes_file, on_postgres, on_memory, on_postgres-Follows,
}
use pf_media.Store.Postgres.AsMemory.Answering.{on_postgres-on_memory}
use pf_media.Store.Postgres.AsMemory.Folders.{kept_folder}
use pf_media.Store.Postgres.AsMemory.Creating.{created, Ends, create_folder-created}
use pf_media.Service.{Media}
use pf_media.Service.Uploads.{presign}
use pf_media.Service.Folders.{create_folder}
use pf_media.Service.{other_file_owner}
use pf_media.Service.Files.{delete_file}
use pf_media.Service.Steps
use pf_media.Service.Steps.OnPostgres.Isolation.{Step-find_file}
use pf_media.Service.Steps.{here, next, user, presigns, creates_folder}
use pf_media.Service.Steps.OnPostgres.{OnPostgres, Reach-quota, Reach-Intact}
use pf_media.Tests.Demo.{bob, demo, alice, acme, png_input, demo-OnMemory}

-- A connection that counts its calls: the third does not reach the server, and the answer of the
-- fifth is lost.
abbrev counting : Backend ℕ
counting = record {
  before = λ c. (if c == 3 then some (lost (codes "refused")) else none, c + 1);
  after = λ c. (if c == 6 then some (lost (codes "reset")) else none, c);
  now = λ c. c;
  timestamptz = λ t. t;
  jsonb = λ text. text;
  collation = λ a b. str_le a b;
  json = record { marshal = λ vs. codes "{}"; unmarshal = λ text. some [] };
}

abbrev demo_postgres : Media (Db ℕ) ℕ
demo_postgres = record {
  store = postgres_store counting;
  objects = demo.objects;
  queue = demo.queue;
  system = demo.system;
  passwords = demo.passwords;
  quota_limit = demo.quota_limit;
  max_upload = demo.max_upload;
  presign_ttl = demo.presign_ttl;
}

demo-OnPostgres : OnPostgres counting demo_postgres
demo-OnPostgres = record {
  postgres = refl;
  sizes = record { bound = demo-OnMemory.sizes.bound };
  limit_nonneg = omega arith;
}

abbrev empty_world : World (Db ℕ) ℕ
empty_world = record { db = record { tables = no_rows; link = 0 }; ext = 1 }

abbrev after_calls : World (Db ℕ) ℕ
after_calls =
    (presign demo_postgres alice acme png_input
      (create_folder demo_postgres alice acme (codes "docs") [] empty_world).1).1

Reach-quota_example :
    All
      (λ (q : QuotaRow). (pos 0 ≤ℤ q.used_bytes) × (q.used_bytes ≤ℤ pos 1000))
      after_calls.db.tables.user_quota
Reach-quota_example = Reach-quota counting demo_postgres demo-OnPostgres refl (
    next (user alice acme)
      (next (user alice acme) here (creates_folder alice acme (codes "docs") []))
      (presigns alice acme png_input))

Reach-Intact_example : Intact after_calls.db.tables
Reach-Intact_example = Reach-Intact counting demo_postgres demo-OnPostgres refl (
    next (user alice acme)
      (next (user alice acme) here (creates_folder alice acme (codes "docs") []))
      (presigns alice acme png_input))

-- A file of Alice in a folder, with a job and a link.
abbrev docs_row : FolderRow
docs_row = record {
  id = codes "d";
  owner_sub = alice;
  org_id = acme;
  parent_id = none;
  name = codes "docs";
  created_at = 0;
}

abbrev photo_row : FileRow
photo_row = record {
  id = codes "f";
  owner_sub = alice;
  org_id = acme;
  folder_id = some (codes "d");
  object_key = codes "user/alice/f/orig";
  content_type = codes "image/png";
  size_bytes = pos 100;
  purpose = codes "drive";
  status = FileStatus.ready;
  variants = codes "{}";
  created_at = 0;
}

abbrev photo_tables : Tables
photo_tables = record {
  files = photo_row ∷ [];
  jobs =
      record {
        id = codes "j";
        file_id = codes "f";
        status = JobStatus.succeeded;
        error = [];
        updated_at = 1;
      }
      ∷ [];
  user_quota = record { owner_sub = codes "org:acme"; used_bytes = pos 100 } ∷ [];
  share_links = [];
  folders = docs_row ∷ [];
}

abbrev photo_db : Db ℕ
photo_db = record { tables = photo_tables; link = 0 }

photo-Intact : Intact photo_tables
unfolding file_there has_folder str_discrete any
photo-Intact = record {
  files_keyed = (tt, tt);
  jobs_keyed = (tt, tt);
  shares_keyed = tt;
  folders_keyed = (tt, tt);
  jobs_refer = (refl, tt);
  shares_refer = tt;
  files_placed = (refl, tt);
  folders_placed = (refl, tt);
}

photo-Inv : Inv (pos 1000) photo_tables
photo-Inv = record {
  budget = record { within = ((omega arith, omega arith), tt); once = (tt, tt) };
  intact = photo-Intact;
}

on_postgres-Follows_example :
    Follows counting photo_db
      (on_memory counting 0 (deletes_file (codes "f")) (view counting photo_tables))
      (on_postgres counting (deletes_file (codes "f")) photo_db)
on_postgres-Follows_example =
    on_postgres-Follows counting (pos 1000) photo_db (deletes_file (codes "f")) photo-Inv

-- A folder of the same name in another organisation.
abbrev other_docs : Folder
other_docs = record {
  id = codes "e";
  owner_sub = alice;
  org_id = codes "umbrella";
  parent_id = [];
  name = codes "docs";
  created_at = 1;
}

create_folder-created_example :
    Ends counting photo_db
      (created (kept_folder counting other_docs) (view counting photo_tables))
      (
        (Drive.create_folder counting other_docs photo_db).0,
        view counting (Drive.create_folder counting other_docs photo_db).1.tables,
      )
create_folder-created_example = create_folder-created counting other_docs photo_db

-- The name is taken in Postgres, whose index does not have the organisation, and free in memory.
other_docs_conflict :
    ((Drive.create_folder counting other_docs photo_db).0 ≡ err conflict)
    × ((Memory.create_folder other_docs (view counting photo_tables)).0 ≡ ok tt)
unfolding Drive.create_folder run reply insert_folder has_folder str_discrete any view
    Memory.create_folder lookup values scan_file variants_json parse_variants
other_docs_conflict = (refl, refl)

-- A connection on which nothing is lost.
abbrev steady : Backend ℕ
steady = record counting { before = λ c. (none, c + 1); after = λ c. (none, c) }

on_postgres-on_memory_example :
    ((on_postgres steady (deletes_file (codes "f")) photo_db).0
      ≡ (on_memory steady 0 (deletes_file (codes "f")) (view steady photo_tables)).0)
    × (view steady (on_postgres steady (deletes_file (codes "f")) photo_db).1.tables
        ≡ (on_memory steady 0 (deletes_file (codes "f")) (view steady photo_tables)).1)
on_postgres-on_memory_example =
    on_postgres-on_memory steady (record { sent = λ c. refl; received = λ c. refl }) (pos 1000)
      photo_db (deletes_file (codes "f")) tt photo-Inv

abbrev photo_world : World (Db ℕ) ℕ
photo_world = record { db = photo_db; ext = 1 }

photo_of_alice : other_file_owner bob acme (scan_file counting photo_row) ≡ true
unfolding scan_file str_discrete
photo_of_alice = refl

photo_found : find_file (codes "f") photo_tables ≡ some photo_row
unfolding first keep str_discrete
photo_found = refl

Step-find_file_example :
    find_file (codes "f") (delete_file demo_postgres bob acme (codes "f") photo_world).1.db.tables
    ≡ some photo_row
Step-find_file_example =
    Step-find_file counting demo_postgres demo-OnPostgres (codes "f") photo_row (user bob acme)
      photo_world (delete_file demo_postgres bob acme (codes "f") photo_world).1 photo_of_alice
      photo_found (Steps.deletes_file bob acme (codes "f"))
