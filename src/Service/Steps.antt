-- ===== src/Service/Steps.antt =====
-- The service as a transition system: one step is one call of an operation, or a change of the world
-- outside (an upload, the clock, the work of the processor).
pub mod OnMemory
pub mod OnPostgres
pub mod Isolation
use pf_media.Base.{Str, ℕ, ◌≡◌, some, []}
use pf_media.Base.Int.{ℤ}
use pf_media.Domain.{Result, Variants}
use pf_media.Exec.{World}
use pf_media.Exec.Keeps.{On}
use pf_media.Service.{Media}
use pf_media.Service.Uploads.{PresignInput, presign, complete}
use pf_media.Service.Files.{get_file, list_files, get_quota, delete_file}
use pf_media.Service.Shares.{
  create_share_link, list_share_links, delete_share_link, resolve_share, share_download_url,
}
use pf_media.Service.Folders.{create_folder, list_folders, get_folder}
use pf_media.Service.FolderTree.{delete_folder}
use pf_media.Service.Jobs.{get_job, retry_job, finish_job}
use pf_media.Service.Preserved.{
  Keeper, SizesInt64, presign-Keeps, complete-Keeps, delete_file-Keeps,
}
use pf_media.Service.Preserved.Sharing.{
  get_file-Keeps, list_files-Keeps, get_quota-Keeps, create_share_link-Keeps,
  list_share_links-Keeps, delete_share_link-Keeps, resolve_share-Keeps, share_download_url-Keeps,
  create_folder-Keeps, list_folders-Keeps, get_folder-Keeps, get_job-Keeps, retry_job-Keeps,
  finish_job-Keeps,
}
use pf_media.Service.Preserved.Trees.{delete_folder-Keeps}

-- Who makes a call: a signed-in user of a subject and an organisation, a visitor with a share link,
-- the image processor, or nobody.
pub data Actor : Type 0 where
  user : Str → Str → Actor
  visitor processor nobody : Actor

-- A call, its error included, takes the world to the one beside its result. A deletion of a folder
-- takes a step when it ends.
pub data Step {D E : Type 0} (m : Media D E) : Actor → World D E → World D E → Type 0 where
  presigns :
      {w : World D E} (o g : Str) (i : PresignInput) → Step m (user o g) w (presign m o g i w).1
  completes : {w : World D E} (o g id etag : Str) → Step m (user o g) w (complete m o g id etag w).1
  gets_file : {w : World D E} (o g id : Str) → Step m (user o g) w (get_file m o g id w).1
  lists_files :
      {w : World D E} (o g d : Str) (n : ℤ) → Step m (user o g) w (list_files m o g d n w).1
  gets_quota : {w : World D E} (o g : Str) → Step m (user o g) w (get_quota m o g w).1
  deletes_file : {w : World D E} (o g id : Str) → Step m (user o g) w (delete_file m o g id w).1
  creates_share :
      {w : World D E} (o g id : Str) (ttl : ℤ) (password : Str)
      → Step m (user o g) w (create_share_link m o g id ttl password w).1
  lists_shares : {w : World D E} (o g : Str) → Step m (user o g) w (list_share_links m o g w).1
  deletes_share :
      {w : World D E} (o g t : Str) → Step m (user o g) w (delete_share_link m o g t w).1
  creates_folder :
      {w : World D E} (o g n p : Str) → Step m (user o g) w (create_folder m o g n p w).1
  lists_folders : {w : World D E} (o g p : Str) → Step m (user o g) w (list_folders m o g p w).1
  gets_folder : {w : World D E} (o g id : Str) → Step m (user o g) w (get_folder m o g id w).1
  deletes_folder :
      {w w' : World D E} (depth rounds : ℕ) (o g d : Str) (r : Result (Unit {0}))
      → delete_folder m depth rounds o g d w ≡ some (r, w')
      → Step m (user o g) w w'
  gets_job : {w : World D E} (o g id : Str) → Step m (user o g) w (get_job m o g id w).1
  retries_job : {w : World D E} (o g id : Str) → Step m (user o g) w (retry_job m o g id w).1
  resolves_share :
      {w : World D E} (t password : Str) → Step m visitor w (resolve_share m t password w).1
  downloads_share :
      {w : World D E} (t v password : Str)
      → Step m visitor w (share_download_url m t v password w).1
  finishes_job :
      {w : World D E} (id : Str) (v : Variants) (e : Str)
      → Step m processor w (finish_job m id v e w).1
  outside : {w : World D E} (e : E) → Step m nobody w (record w { ext = e })

pub data Reach {D E : Type 0} (m : Media D E) (s : World D E) : World D E → Type 0 where
  here : Reach m s s
  next : {t u : World D E} (a : Actor) → Reach m s t → Step m a t u → Reach m s u

-- What an actor's step needs of the store to keep `P`. The processor may change any file.
abbrev pub Fits : {D E : Type 0} → Media D E → (Str → Type 0) → (D → Type 0) → Actor → Type 0
Fits m Free P (user o g) = Keeper m.store m.quota_limit o g Free P
Fits m Free P visitor = (o : Str) × (g : Str) × Keeper m.store m.quota_limit o g Free P
Fits m Free P processor = Keeper m.store m.quota_limit [] [] Free P × ((id : Str) → Free id)
Fits m Free P nobody = Unit

module _ {D E : Type 0} (m : Media D E) (sizes : SizesInt64 m) (Free : Str → Type 0)
    (P : D → Type 0) where
  -- A step keeps `P` if the methods of the store do, at the files that its actor may change.
  pub Step-On : {a : Actor} {w w' : World D E} → Fits m Free P a → Step m a w w' → On P w → On P w'
  Step-On {w = w} k (presigns o g i) h = (presign-Keeps m k o g i).at w h
  Step-On {w = w} k (completes o g id etag) h = (complete-Keeps m k sizes id etag).at w h
  Step-On {w = w} k (gets_file o g id) h = (get_file-Keeps m k o g id).at w h
  Step-On {w = w} k (lists_files o g d n) h = (list_files-Keeps m k o g d n).at w h
  Step-On {w = w} k (gets_quota o g) h = (get_quota-Keeps m k o g).at w h
  Step-On {w = w} k (deletes_file o g id) h = (delete_file-Keeps m k id).at w h
  Step-On {w = w} k (creates_share o g id ttl p) h =
      (create_share_link-Keeps m k o g id ttl p).at w h
  Step-On {w = w} k (lists_shares o g) h = (list_share_links-Keeps m k o g).at w h
  Step-On {w = w} k (deletes_share o g t) h = (delete_share_link-Keeps m k o g t).at w h
  Step-On {w = w} k (creates_folder o g n p) h = (create_folder-Keeps m k o g n p).at w h
  Step-On {w = w} k (lists_folders o g p) h = (list_folders-Keeps m k o g p).at w h
  Step-On {w = w} k (gets_folder o g id) h = (get_folder-Keeps m k o g id).at w h
  Step-On {w = w} {w' = w'} k (deletes_folder depth rounds o g d r e) h =
      (delete_folder-Keeps m k depth rounds d).at w w' r h e
  Step-On {w = w} k (gets_job o g id) h = (get_job-Keeps m k o g id).at w h
  Step-On {w = w} k (retries_job o g id) h = (retry_job-Keeps m k id).at w h
  Step-On {w = w} k (resolves_share t p) h = (resolve_share-Keeps m k.2 t p).at w h
  Step-On {w = w} k (downloads_share t v p) h = (share_download_url-Keeps m k.2 t v p).at w h
  Step-On {w = w} k (finishes_job id v e) h = (finish_job-Keeps m k.0 id v e k.1).at w h
  Step-On k (outside e) h = record { holds = h.holds }

  -- What every actor's steps keep holds in every state that the service reaches.
  pub Reach-On :
      {w w' : World D E} → ((a : Actor) → Fits m Free P a) → On P w → Reach m w w' → On P w'
  Reach-On k h here = h
  Reach-On k h (next a r s) = Step-On (k a) s (Reach-On k h r)
