-- ===== src/Service/Shares/Granting.antt =====
-- Who gets through a share link, on the memory store.
use pf_media.Base.{Str, ◌<◌, ◌≡◌, none, some, arith, str_eq, Option-cases, inl, inr}
use pf_media.Base.Dict.{lookup}
use pf_media.Domain.{File, ShareLink, ok, file_status_eq}
use pf_media.Exec.{World, ◌>>=◌}
use pf_media.Store.Memory
use pf_media.Store.Memory.{State}
use pf_media.Service.{Media}
use pf_media.Service.Files.Deletion.{on_memory}
use pf_media.Service.Shares.{PublicFile, resolve_share, share_password_ok}

module _ {E : Type 0} (m : Media State E) where
  -- The share link under a token has let a visitor through to a file.
  pub record Granted (token password : Str) (w : World State E) (v : PublicFile) : Type 0 where
    pub link : ShareLink
    pub file : File
    pub linked : lookup token w.db.shares ≡ some link
    pub stored : lookup link.file_id w.db.files ≡ some file
    pub live : (m.system.now w.ext).0 < link.expires_at
    pub unlocked : share_password_ok (on_memory m) link password ≡ ok tt
    pub expires : v.expires_at ≡ link.expires_at

  resolve_share-link :
      (token password : Str) (w : World State E) (v : PublicFile)
      → (resolve_share (on_memory m) token password w).0 ≡ ok v
      → lookup token w.db.shares ≡ none
      → ⊥
  unfolding resolve_share Memory.get_share_link_by_token ◌>>=◌
  resolve_share-link token password w v h e = ground arith

  resolve_share-checks :
      (token password : Str) (w : World State E) (v : PublicFile) (link : ShareLink)
      → (resolve_share (on_memory m) token password w).0 ≡ ok v
      → lookup token w.db.shares ≡ some link
      → ((m.system.now w.ext).0 < link.expires_at)
        × (share_password_ok (on_memory m) link password ≡ ok tt)
        × (v.expires_at ≡ link.expires_at)
  unfolding resolve_share Memory.get_share_link_by_token Memory.get_file ◌>>=◌
  resolve_share-checks token password w v link h e = ground arith

  resolve_share-file :
      (token password : Str) (w : World State E) (v : PublicFile) (link : ShareLink)
      → (resolve_share (on_memory m) token password w).0 ≡ ok v
      → lookup token w.db.shares ≡ some link
      → lookup link.file_id w.db.files ≡ none
      → ⊥
  unfolding resolve_share Memory.get_share_link_by_token Memory.get_file ◌>>=◌
  resolve_share-file token password w v link h e n = ground arith

  -- On the memory store, `ResolveShare` succeeds only for a token whose link is stored and not
  -- expired and whose password check passes, and whose file is stored; the answer shows when the
  -- link expires.
  pub resolve_share-Granted :
      (token password : Str) (w : World State E) (v : PublicFile)
      → (resolve_share (on_memory m) token password w).0 ≡ ok v
      → Granted token password w v
  resolve_share-Granted token password w v h = elim (Option-cases (lookup token w.db.shares)) [
    | inl e ↦ absurd (resolve_share-link token password w v h e)
    | inr (link, e) ↦ elim (Option-cases (lookup link.file_id w.db.files)) [
      | inl n ↦ absurd (resolve_share-file token password w v link h e n)
      | inr (file, s) ↦
          let (live, unlocked, expires) = resolve_share-checks token password w v link h e in
          record {
            link = link;
            file = file;
            linked = e;
            stored = s;
            live = live;
            unlocked = unlocked;
            expires = expires;
          }
    ]
  ]
