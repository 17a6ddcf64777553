-- ===== src/Service/Files/Listing.antt =====
-- How long a page of files is.
use pf_media.Base.{ℕ, suc, ap, refl, Str, ◌≤◌, ◌≡◌, List, [], ◌∷◌, arith, length}
use pf_media.Base.Int.{ℤ, pos, negsuc}
use pf_media.Domain.{File, ok}
use pf_media.Exec.{World, in_db, ◌>>=◌}
use pf_media.Exec.Inversion.{bind-ok, pure-ok}
use pf_media.Store.Memory
use pf_media.Store.Memory.{State}
use pf_media.Store.Memory.Listing.{list_files_by_owner_lem}
use pf_media.Service.{Media, FileView}
use pf_media.Service.Files.Deletion.{on_memory}
use pf_media.Service.Files.{with_jobs, list_files, page_size}

length-with_jobs :
    {D E : Type 0} (m : Media D E) (fs : List File) (w : World D E) (vs : List FileView)
    → (with_jobs m fs w).0 ≡ ok vs
    → length vs ≡ length fs
unfolding with_jobs
length-with_jobs m [] w vs h = rw (← pure-ok [] w h) refl
length-with_jobs m (f ∷ fs) w vs h =
    let (v, _, rest) = bind-ok _ _ w h in
    let (vs', tail, whole) = bind-ok _ _ _ rest in
    rw (← pure-ok (v ∷ vs') _ whole) (ap suc (length-with_jobs m fs _ vs' tail))

listed-le :
    {E : Type 0} (o g folder : Str) (limit : ℕ) (w : World State E) (fs : List File)
    → (in_db (Memory.list_files_by_owner o g folder limit) w).0 ≡ ok fs
    → length fs ≤ limit
unfolding ◌>>=◌
listed-le o g folder limit w fs h = (list_files_by_owner_lem o g folder limit w.db fs h).0

-- The page that the caller gets is one of 100 files at most.
page_size-le : (limit : ℤ) → page_size limit ≤ 100
page_size-le (pos n) = ground arith
page_size-le (negsuc n) = omega arith

-- On the memory store, a page of `ListFiles` has at most 100 files, whatever limit is asked for.
pub list_files-length :
    {E : Type 0} (m : Media State E) (o g folder : Str) (limit : ℤ) (w : World State E)
    (vs : List FileView)
    → (list_files (on_memory m) o g folder limit w).0 ≡ ok vs
    → length vs ≤ 100
unfolding list_files
list_files-length m o g folder limit w vs h =
    let (_, _, listed) = bind-ok _ _ w h in
    let (files, found, viewed) = bind-ok _ _ _ listed in
    let same = length-with_jobs (on_memory m) files _ vs viewed in
    let short = listed-le o g folder (page_size limit) _ files found in
    let small = page_size-le limit in omega arith
