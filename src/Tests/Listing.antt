-- ===== src/Tests/Listing.antt =====
-- Folders, pages of files, quota subjects and tokens.
use pf_media.Base.{
  Str, ℕ, zero, suc, ◌≤◌, [], ◌∷◌, none, codes, arith, ◌≡◌, refl, false, All, any, keep,
  str_discrete,
}
use pf_media.Base.Dict.{lookup, insert, values}
use pf_media.Base.Int.{pos}
use pf_media.Domain.{ok, Folder, FileStatus, FileStatus-discrete}
use pf_media.Exec.{Exec, World, ◌>>=◌}
use pf_media.ShareToken
use pf_media.ShareToken.Encoding.{UrlSafe, IsByte, new-UrlSafe, new-injective}
use pf_media.Store.Memory
use pf_media.Store.Memory.{State, same_place}
use pf_media.Store.Memory.Listing.{In, list_files_by_owner_lem}
use pf_media.Mime.{image_png}
use pf_media.Service.{FileView, with_job}
use pf_media.Service.Folders.{FolderView, create_folder}
use pf_media.Service.Folders.Creating.{IsComponent, new_folder, create_folder_lem}
use pf_media.Service.Files.{list_files, with_jobs}
use pf_media.Service.Files.Listing.{list_files-length}
use pf_media.Tests.Demo.{demo, alice, acme, start, photo, with_photo}

abbrev docs : Folder
docs = record {
  id = codes "p";
  owner_sub = alice;
  org_id = acme;
  parent_id = [];
  name = codes "docs";
  created_at = 0;
}

abbrev with_docs : World State ℕ
with_docs = record start { db = record start.db { folders = (codes "p", docs) ∷ [] } }

abbrev inner : FolderView
inner = record { id = codes "c"; parent_id = codes "p"; name = codes "in"; created_at = 1 }

made_inner : (create_folder demo alice acme (codes "in") (codes "p") with_docs).0 ≡ ok inner
unfolding create_folder ◌>>=◌ str_discrete Memory.get_folder lookup Memory.create_folder any values
made_inner = refl

create_folder_lem_example :
    IsComponent (codes "in")
    × (codes "c" ≡ (new_folder demo alice acme (codes "in") (codes "p") with_docs).id)
    × (lookup (codes "c") with_docs.db.folders ≡ none)
    × (any (same_place (new_folder demo alice acme (codes "in") (codes "p") with_docs)) (docs ∷ [])
        ≡ false)
    × ((create_folder demo alice acme (codes "in") (codes "p") with_docs).1.db
        ≡ record with_docs.db {
          folders =
              insert
                (codes "c")
                (new_folder demo alice acme (codes "in") (codes "p") with_docs)
                with_docs.db.folders;
        })
unfolding values
create_folder_lem_example =
    create_folder_lem demo alice acme (codes "in") (codes "p") with_docs inner made_inner

photo_listed : (Memory.list_files_by_owner alice acme [] 50 with_photo.db).0 ≡ ok (photo ∷ [])
unfolding Memory.list_files_by_owner values str_discrete keep
photo_listed = refl

list_files_by_owner_lem_example : (1 ≤ 50) × All (In alice acme []) (photo ∷ [])
list_files_by_owner_lem_example =
    list_files_by_owner_lem alice acme [] 50 with_photo.db (photo ∷ []) photo_listed

abbrev photo_view : FileView
photo_view = record {
  id = codes "f";
  folder_id = [];
  content_type = image_png;
  size_bytes = pos 100;
  purpose = codes "drive";
  status = FileStatus.ready;
  variants =
      (
        codes "orig",
        record { url = codes "http://get/user/alice/f/orig"; content_type = image_png },
      )
      ∷ [];
  created_at = 0;
  job_id = [];
  job_status = none;
  job_error = [];
}

page_viewed : (list_files demo alice acme [] (pos 500) with_photo).0 ≡ ok (photo_view ∷ [])
unfolding list_files with_jobs with_job ◌>>=◌ str_discrete Memory.list_files_by_owner keep values
    FileStatus-discrete Memory.get_latest_job_by_file Memory.latest_job
page_viewed = refl

list_files-length_example : 1 ≤ 100
list_files-length_example =
    list_files-length demo alice acme [] (pos 500) with_photo (photo_view ∷ []) page_viewed

abbrev token : Str
token = codes "AAAAAAAAAAAAAAAAAAAAAAAAAAAAAAAAAAAAAAAAAAA"

abbrev fill : ℕ → ℕ → Str
fill zero b = []
fill (suc n) b = b ∷ fill n b

fill-IsByte : (n : ℕ) → All IsByte (fill n 0)
fill-IsByte zero = tt
fill-IsByte (suc n) = (omega arith, fill-IsByte n)

-- A source of randomness that fills a slice with one byte.
abbrev filled : ℕ → Exec ℕ Str
filled n e = (ok (fill n e), e)

zero_token : (ShareToken.new filled 0).0 ≡ ok token
unfolding ShareToken.new ◌>>=◌
zero_token = refl

new-UrlSafe_example : All UrlSafe token
new-UrlSafe_example = new-UrlSafe filled 0 token zero_token

new-injective_example : fill 32 0 ≡ fill 32 0
new-injective_example =
    new-injective filled 0 0 (fill 32 0) (fill 32 0) token refl refl zeros-IsByte zeros-IsByte
      zero_token zero_token
  where
    zeros-IsByte : All IsByte (fill 32 0)
    zeros-IsByte = fill-IsByte 32
