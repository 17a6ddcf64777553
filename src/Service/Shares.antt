-- ===== src/Service/Shares.antt =====
-- media.go: share links.
pub mod Granting
pub mod Creating
use pf_media.Base.{
  Str, ℕ, ◌+◌, ◌*◌, Bool, true, false, not, Option, none, some, List, [], ◌∷◌, map, if◌then◌else◌,
  ◌==◌, ◌/=◌, ◌||◌, str_eq, ltb, length,
}
use pf_media.Base.Dict.{Dict, lookup}
use pf_media.Base.Int.{ℤ, pos, pos_part, ltb_ℤ, leb_ℤ}
use pf_media.Domain.{
  not_found, forbidden, invalid, expired, password_required, Result, ok, err, Time, FileStatus,
  file_status_eq, ShareLink,
}
use pf_media.Exec.{Exec, World, ◌>>=◌, ◌>>◌, pure, raise, reject_if, lift, in_db, in_ext, in_sys}
use pf_media.ShareToken
use pf_media.Service.{Media, VariantView, other_file_owner, orig, file_view}

pub record ShareLinkView : Type 0 where
  pub token : Str
  pub expires_at : Time
  pub password_set : Bool

pub record PublicFile : Type 0 where
  pub content_type : Str
  pub status : FileStatus
  pub variants : Dict VariantView
  pub expires_at : Time

-- time.Hour, in nanoseconds.
abbrev pub hour : ℕ
hour = 3600000000000

abbrev pub default_share_ttl : ℤ
default_share_ttl = pos hour

abbrev pub max_share_ttl : ℤ
max_share_ttl = pos (7 * 24 * hour)

abbrev pub share_link_view : ShareLink → ShareLinkView
share_link_view l = record {
  token = l.token;
  expires_at = l.expires_at;
  password_set = l.password_hash /= [];
}

-- The variant that `ShareDownloadURL` serves: the one asked for, else `orig`, else any.
abbrev any_url : Dict VariantView → Option Str
any_url [] = none
any_url ((_, v) ∷ _) = some v.url

unfoldable pub choose_url : Str → Dict VariantView → Option Str
choose_url variant views = elim (lookup variant views) [
  | some v ↦ some v.url
  | none ↦ elim (lookup orig views) [ some v ↦ some v.url | none ↦ any_url views ]
]

abbrev pub url_or_not_found : {S : Type 0} → Option Str → Exec S Str
url_or_not_found none = raise not_found
url_or_not_found (some url) = pure url

module _ {D E : Type 0} (m : Media D E) where
  open m use {store, system, passwords}

  -- `if passwordPlain != "" { hash, err = password.Hash(passwordPlain) }`
  unfoldable pub hash_password : Str → Exec (World D E) Str
  hash_password plain = if plain /= [] then in_ext (passwords.hash plain) else pure []

  unfoldable pub create_share_link : Str → Str → Str → ℤ → Str → Exec (World D E) ShareLinkView
  unfolding hash_password ShareToken.new
  create_share_link owner_sub org_id file_id requested password = do
    let ttl = if leb_ℤ requested (pos 0) then default_share_ttl else requested
    reject_if (ltb_ℤ max_share_ttl ttl) invalid
    reject_if (ltb 128 (length password)) invalid
    f ← in_db (store.get_file file_id)
    reject_if (other_file_owner owner_sub org_id f) not_found
    reject_if (f.status == FileStatus.failed) invalid
    token ← in_ext (ShareToken.new system.rand_read)
    hash ← hash_password password
    now ← in_sys system.now
    id ← in_sys system.new_id
    let expires_at = now + pos_part ttl
    in_db (
        store.create_share_link (record {
          id = id;
          token = token;
          file_id = file_id;
          owner_sub = owner_sub;
          org_id = org_id;
          password_hash = hash;
          expires_at = expires_at;
          created_at = now;
        }))
    pure (record { token = token; expires_at = expires_at; password_set = hash /= [] })

  unfoldable pub list_share_links : Str → Str → Exec (World D E) (List ShareLinkView)
  list_share_links owner_sub org_id = do
    links ← in_db (store.list_share_links_by_owner owner_sub org_id)
    pure (map share_link_view links)

  unfoldable pub delete_share_link : Str → Str → Str → Exec (World D E) Unit
  delete_share_link owner_sub org_id token = do
    reject_if (token == []) not_found
    link ← in_db (store.get_share_link_by_token token)
    reject_if (link.owner_sub /= owner_sub || link.org_id /= org_id) not_found
    in_db (store.delete_share_link token)

  abbrev password_result : Result Bool → Result (Unit {0})
  password_result (ok true) = ok tt
  password_result (ok false) = err forbidden
  password_result (err e) = err e

  -- sharePasswordOK
  unfoldable pub share_password_ok : ShareLink → Str → Result (Unit {0})
  share_password_ok link provided =
      if link.password_hash == []
      then ok tt
      else if provided == []
      then err password_required
      else password_result (passwords.verify provided link.password_hash)

  unfoldable pub resolve_share : Str → Str → Exec (World D E) PublicFile
  unfolding share_password_ok file_view
  resolve_share token password = do
    reject_if (token == []) not_found
    link ← in_db (store.get_share_link_by_token token)
    now ← in_sys system.now
    reject_if (not (ltb now link.expires_at)) expired
    lift (share_password_ok link password)
    f ← in_db (store.get_file link.file_id)
    view ← file_view m f
    pure (record {
      content_type = view.content_type;
      status = view.status;
      variants = view.variants;
      expires_at = link.expires_at;
    })

  unfoldable pub share_download_url : Str → Str → Str → Exec (World D E) Str
  share_download_url token variant password = do
    file ← resolve_share token password
    url_or_not_found (choose_url (if variant == [] then orig else variant) file.variants)
