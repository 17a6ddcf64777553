-- ===== src/Service/Preserved/Sharing.antt =====
-- The operations on share links, folders and jobs, and the listings.
use pf_media.Base.{◌≡◌, Str, Option, none, some, List, [], ◌∷◌}
use pf_media.Base.Int.{ℤ}
use pf_media.Domain.{File, Variants, Job, forbidden, ok}
use pf_media.Exec.{World}
use pf_media.Exec.Inversion.{bind-ok, reject_if-ok, pure-ok}
use mathlib.Core.Path.{subst}
use pf_media.Exec.Keeps.{
  Keeps, On, Keeps-pure, Keeps-bind, Keeps-bind_fact, Keeps-in_db, keeps_rules,
}
use pf_media.Service.{Media}
use pf_media.Service.Files.{get_file, list_files, with_jobs, get_quota}
use pf_media.Service.Shares.{
  hash_password, create_share_link, list_share_links, delete_share_link, resolve_share,
  share_download_url, url_or_not_found,
}
use pf_media.Service.Folders.{create_folder, list_folders, get_folder}
use pf_media.Service.Jobs.{job_owned_by, get_job, retry_job, finish_failed, finish_job}
use pf_media.Service.Preserved.{
  Keeper, get_file-Guarded, file_view-Keeps, with_job-Keeps, ensure_owned_folder-Keeps,
  enqueue_job-Keeps,
}

module _ {D E : Type 0} (m : Media D E) {o g : Str} {Free : Str → Type 0} {P : D → Type 0}
    (k : Keeper m.store m.quota_limit o g Free P) where
  pub get_file-Keeps : (o' g' id : Str) → Keeps (On P) (get_file m o' g' id)
  unfolding get_file
  get_file-Keeps o' g' id = search (keeps_rules, k.get_file, with_job-Keeps m k) depth 30

  with_jobs-Keeps : (fs : List File) → Keeps (On P) (with_jobs m fs)
  unfolding with_jobs
  with_jobs-Keeps [] = search keeps_rules
  with_jobs-Keeps (f ∷ fs) =
      Keeps-bind _ _ (with_job-Keeps m k f)
        λ v. Keeps-bind _ _ (with_jobs-Keeps fs) λ vs. Keeps-pure _

  pub list_files-Keeps : (o' g' d : Str) (n : ℤ) → Keeps (On P) (list_files m o' g' d n)
  unfolding list_files
  list_files-Keeps o' g' d n =
      search (keeps_rules, ensure_owned_folder-Keeps m k, k.list_files_by_owner, with_jobs-Keeps)

  pub get_quota-Keeps : (o' g' : Str) → Keeps (On P) (get_quota m o' g')
  unfolding get_quota
  get_quota-Keeps o' g' = search (keeps_rules, k.get_quota_used)

  hash_password-Keeps : (plain : Str) → Keeps (On P) (hash_password m plain)
  unfolding hash_password
  hash_password-Keeps plain = search keeps_rules

  pub create_share_link-Keeps :
      (o' g' id : Str) (ttl : ℤ) (password : Str)
      → Keeps (On P) (create_share_link m o' g' id ttl password)
  unfolding create_share_link
  create_share_link-Keeps o' g' id ttl password =
      search (keeps_rules, k.get_file, hash_password-Keeps, k.create_share_link) depth 30

  pub list_share_links-Keeps : (o' g' : Str) → Keeps (On P) (list_share_links m o' g')
  unfolding list_share_links
  list_share_links-Keeps o' g' = search (keeps_rules, k.list_share_links_by_owner)

  pub delete_share_link-Keeps : (o' g' t : Str) → Keeps (On P) (delete_share_link m o' g' t)
  unfolding delete_share_link
  delete_share_link-Keeps o' g' t =
      search (keeps_rules, k.get_share_link_by_token, k.delete_share_link) depth 30

  pub resolve_share-Keeps : (t password : Str) → Keeps (On P) (resolve_share m t password)
  unfolding resolve_share
  resolve_share-Keeps t password =
      search (keeps_rules, k.get_share_link_by_token, k.get_file, file_view-Keeps m P) depth 30

  url_or_not_found-Keeps : (o : Option Str) → Keeps (On {E = E} P) (url_or_not_found o)
  url_or_not_found-Keeps none = search keeps_rules
  url_or_not_found-Keeps (some url) = search keeps_rules

  pub share_download_url-Keeps :
      (t v password : Str) → Keeps (On P) (share_download_url m t v password)
  unfolding share_download_url
  share_download_url-Keeps t v password =
      search (keeps_rules, resolve_share-Keeps, url_or_not_found-Keeps)

  pub create_folder-Keeps : (o' g' n p : Str) → Keeps (On P) (create_folder m o' g' n p)
  unfolding create_folder
  create_folder-Keeps o' g' n p =
      search (keeps_rules, ensure_owned_folder-Keeps m k, k.create_folder) depth 30

  pub list_folders-Keeps : (o' g' p : Str) → Keeps (On P) (list_folders m o' g' p)
  unfolding list_folders
  list_folders-Keeps o' g' p = search (keeps_rules, ensure_owned_folder-Keeps m k, k.list_folders)

  pub get_folder-Keeps : (o' g' id : Str) → Keeps (On P) (get_folder m o' g' id)
  unfolding get_folder
  get_folder-Keeps o' g' id = search (keeps_rules, k.get_folder)

  job_owned_by-Keeps : (o' g' id : Str) → Keeps (On P) (job_owned_by m o' g' id)
  unfolding job_owned_by
  job_owned_by-Keeps o' g' id = search (keeps_rules, k.get_job, k.get_file) depth 30

  pub get_job-Keeps : (o' g' id : Str) → Keeps (On P) (get_job m o' g' id)
  unfolding get_job
  get_job-Keeps o' g' id = search (keeps_rules, job_owned_by-Keeps)

  -- The file of a job that is found to be the user's is free.
  job_owned_by-Free :
      (id : Str) (w : World D E) (r : Job × File)
      → On P w
      → (job_owned_by m o g id w).0 ≡ ok r
      → Free r.1.id
  unfolding job_owned_by
  job_owned_by-Free id w r p h =
      let (j, found_job, rest) = bind-ok _ _ w h in
      let p' = (Keeps-in_db _ (k.get_job id)).at w p in
      let (f, found_file, rest') = bind-ok _ _ _ rest in
      let (mine, returned) = reject_if-ok _ forbidden _ _ rest' in
      let (_, free) = get_file-Guarded m k j.file_id _ f p' found_file mine in
      subst (λ (x : Job × File). Free x.1.id) (pure-ok (j, f) _ returned) free

  pub retry_job-Keeps : (id : Str) → Keeps (On P) (retry_job m o g id)
  unfolding retry_job
  retry_job-Keeps id =
      Keeps-bind_fact (λ r. Free r.1.id) _ _ (job_owned_by-Keeps o g id) (job_owned_by-Free id)
        λ r free.
          search (keeps_rules, k.update_job, k.set_file_status, enqueue_job-Keeps m k) depth 30

  finish_failed-Keeps : (j f e : Str) → Free f → Keeps (On P) (finish_failed m j f e)
  unfolding finish_failed
  finish_failed-Keeps j f e free = search (keeps_rules, k.update_job, k.set_file_status) depth 30

  -- The processor's call is not bound to a user: it may change any file.
  pub finish_job-Keeps :
      (j : Str) (v : Variants) (e : Str)
      → ((id : Str) → Free id)
      → Keeps (On P) (finish_job m j v e)
  unfolding finish_job
  finish_job-Keeps j v e free =
      search (keeps_rules, free, k.get_job, finish_failed-Keeps, k.update_variants, k.update_job)
        depth 30
