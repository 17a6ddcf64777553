-- ===== src/Web/Handlers.antt =====
-- server.go: the handlers. That of a signed-in user gets the user that the middleware has found.
use pf_media.Base.{Str, ℕ, ◌||◌, Option, none, some, [], ◌∷◌, if◌then◌else◌, ◌==◌, str_eq, codes}
use pf_media.Base.Dict.{insert}
use pf_media.Base.Int.{pos}
use pf_media.Base.Text.{trim_space}
use pf_media.Base.Split.{trim_prefix, trim_suffix, contains_byte}
use pf_media.Domain.{Result, Variants}
use pf_media.Exec.{Exec, World, ◌>>=◌, pure}
use pf_media.Auth.{User}
use pf_media.Service.{Media}
use pf_media.Service.Uploads
use pf_media.Service.Files
use pf_media.Service.Folders
use pf_media.Service.FolderTree
use pf_media.Service.Shares
use pf_media.Service.Jobs
use pf_media.Web.{
  Request, Decoders, Response, Payload, presigned, file, listing, quota, folder, folders, deleted,
  share_link, share_links, job, public_file, location, nothing, write_json, no_page, write_err,
  write_share_err, duration_of_seconds, Handler, reply, answer, only, with_body,
}

abbrev pub files_prefix : Str
files_prefix = codes "/v1/files/"

abbrev pub folders_prefix : Str
folders_prefix = codes "/v1/folders/"

abbrev pub links_prefix : Str
links_prefix = codes "/v1/share-links/"

abbrev pub jobs_prefix : Str
jobs_prefix = codes "/v1/jobs/"

-- The id in a path, and the test on it: `if id == "" || strings.Contains(id, "/")`.
unfoldable pub with_id : {D E : Type 0} → Str → (Str → Handler D E) → Handler D E
with_id id handle = if id == [] || contains_byte id b'/' then only no_page else handle id

-- The folder's deletion takes fuel.
unfoldable pub answer_loop :
    {D E : Type 0} → Option (Result (Unit {0}) × World D E) → Option (Response × World D E)
answer_loop none = none
answer_loop (some done) = some (reply write_err (λ _. write_json 200 deleted) done)

-- The `variants` map of `finishJob`, filled entry by entry.
unfoldable pub copy_variants : Variants → Variants → Variants
copy_variants copied [] = copied
copy_variants copied ((name, v) ∷ vs) =
    copy_variants (insert name (record { key = v.key; content_type = v.content_type }) copied) vs

unfoldable pub share_password : Request → Str
share_password r = trim_space (r.header (codes "X-Share-Password"))

module _ {D E : Type 0} (m : Media D E) (decode : Decoders) where
  unfoldable pub presign : User → Request → Handler D E
  presign u r = with_body (decode.presign_body r.body) λ body.
      answer write_err (Uploads.presign m u.sub u.org_id body)
        (λ res. write_json 200 (presigned res))

  unfoldable pub complete : User → Request → Handler D E
  complete u r = with_body (decode.complete_body r.body) λ body.
      answer write_err (Uploads.complete m u.sub u.org_id body.file_id body.etag)
        (λ res. write_json 200 (file res))

  -- The calls of `listFiles`, which all report their error in the same way.
  unfoldable pub list_all : User → Str → Exec (World D E) Payload
  list_all u folder_id = do
    fs ← Files.list_files m u.sub u.org_id folder_id (pos 50)
    used ← Files.get_quota m u.sub u.org_id
    ds ← Folders.list_folders m u.sub u.org_id folder_id
    pure (listing fs ds used)

  unfoldable pub list_files : User → Request → Handler D E
  unfolding list_all
  list_files u r = answer write_err (list_all u (r.query (codes "folderId"))) (write_json 200)

  unfoldable pub get_quota : User → Request → Handler D E
  get_quota u r =
      answer write_err (Files.get_quota m u.sub u.org_id) (λ res. write_json 200 (quota res))

  unfoldable pub create_folder : User → Request → Handler D E
  create_folder u r = with_body (decode.folder_body r.body) λ body.
      answer write_err (Folders.create_folder m u.sub u.org_id body.name body.parent_id)
        (λ res. write_json 200 (folder res))

  unfoldable pub list_folders : User → Request → Handler D E
  list_folders u r =
      answer write_err (Folders.list_folders m u.sub u.org_id (r.query (codes "parentId")))
        (λ res. write_json 200 (folders res))

  unfoldable pub get_folder : User → Request → Handler D E
  get_folder u r = with_id (trim_prefix r.path folders_prefix) λ id.
      answer write_err (Folders.get_folder m u.sub u.org_id id) (λ res. write_json 200 (folder res))

  unfoldable pub delete_folder : ℕ → ℕ → User → Request → Handler D E
  delete_folder depth rounds u r =
      with_id (trim_prefix r.path folders_prefix)
        λ id w. answer_loop (FolderTree.delete_folder m depth rounds u.sub u.org_id id w)

  -- Here the id is not tested.
  unfoldable pub get_file : User → Request → Handler D E
  get_file u r =
      answer write_err (Files.get_file m u.sub u.org_id (trim_prefix r.path files_prefix))
        (λ res. write_json 200 (file res))

  unfoldable pub delete_file : User → Request → Handler D E
  delete_file u r =
      with_id (trim_prefix r.path files_prefix)
        λ id. answer write_err (Files.delete_file m u.sub u.org_id id) (λ _. write_json 200 deleted)

  unfoldable pub create_share : User → Request → Handler D E
  create_share u r = with_body (decode.share_body r.body) λ body.
      answer write_err
        (Shares.create_share_link m u.sub u.org_id body.file_id
          (duration_of_seconds body.expires_in_seconds) body.password)
        (λ res. write_json 200 (share_link res))

  unfoldable pub list_shares : User → Request → Handler D E
  list_shares u r =
      answer write_err (Shares.list_share_links m u.sub u.org_id)
        (λ res. write_json 200 (share_links res))

  unfoldable pub delete_share : User → Request → Handler D E
  delete_share u r = with_id (trim_prefix r.path links_prefix) λ token.
      answer write_err (Shares.delete_share_link m u.sub u.org_id token)
        (λ _. write_json 200 deleted)

  unfoldable pub get_job : User → Request → Handler D E
  get_job u r =
      with_id (trim_prefix r.path jobs_prefix)
        λ id. answer write_err (Jobs.get_job m u.sub u.org_id id) (λ res. write_json 200 (job res))

  unfoldable pub retry_job : User → Request → Handler D E
  retry_job u r =
      with_id (trim_suffix (trim_prefix r.path jobs_prefix) (codes "/retry")) λ id.
        answer write_err (Jobs.retry_job m u.sub u.org_id id) (λ res. write_json 200 (job res))

  unfoldable pub get_share : Str → Request → Handler D E
  get_share token r =
      answer write_share_err (Shares.resolve_share m token (share_password r))
        (λ res. write_json 200 (public_file res))

  unfoldable pub download_share : Str → Request → Handler D E
  download_share token r =
      answer write_share_err
        (Shares.share_download_url m token (r.query (codes "variant")) (share_password r))
        (λ url. record { status = 302; payload = location url })

  unfoldable pub finish_job : Str → Request → Handler D E
  finish_job job_id r = with_body (decode.finish_body r.body) λ body.
      answer write_err (Jobs.finish_job m job_id (copy_variants [] body.variants) body.error)
        (λ _. record { status = 204; payload = nothing })
