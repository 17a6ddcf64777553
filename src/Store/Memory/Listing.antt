-- ===== src/Store/Memory/Listing.antt =====
-- What the lists of the memory store hold.
use pf_media.Base.{
  Str, ℕ, ◌≤◌, ◌≡◌, List, All, arith, ◌==◌, ◌&&◌, str_eq, length, keep, All-keep, length-take-le,
  All-take,
}
use pf_media.Base.Dict.{values}
use pf_media.Domain.{File, ok}
use pf_media.Store.Memory.{State, list_files_by_owner}

-- The file is of this owner and organisation, and in this folder.
abbrev pub In : Str → Str → Str → File → Type 0
In o g folder f = (f.owner_sub ≡ o) × (f.org_id ≡ g) × (f.folder_id ≡ folder)

-- `ListFilesByOwner` answers with at most `limit` files, all of the owner and the organisation that
-- were asked for, and in that folder.
pub list_files_by_owner_lem :
    (o g folder : Str) (limit : ℕ) (s : State) (fs : List File)
    → (list_files_by_owner o g folder limit s).0 ≡ ok fs
    → (length fs ≤ limit) × All (In o g folder) fs
unfolding list_files_by_owner
list_files_by_owner_lem o g folder limit s fs h =
    let mine = λ (f : File). f.owner_sub == o && f.org_id == g && f.folder_id == folder in
    let out = keep mine (values s.files) in
    ground (
      arith,
      length-take-le limit out,
      All-take (In o g folder) limit out,
      All-keep (In o g folder) mine (values s.files) (λ f e. ground arith),
    )
