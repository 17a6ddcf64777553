-- ===== src/Service/Shares/Creating.antt =====
-- What `CreateShareLink` stores, on the memory store.
use pf_media.Base.{
  Str, ◌+◌, ◌*◌, if◌then◌else◌, ◌≤◌, ◌<◌, ◌≡◌, ◌≢◌, none, some, [], arith, ◌/=◌, str_eq, false,
}
use pf_media.Base.Dict.{lookup, insert}
use pf_media.Base.Int.{ℤ, pos, pos_part, leb_ℤ}
use pf_media.Domain.{File, FileStatus, ShareLink, ok, file_status_eq}
use pf_media.Exec.{World, ◌>>=◌}
use pf_media.Store.Memory
use pf_media.Store.Memory.{State}
use pf_media.ShareToken
use pf_media.Service.{Media, other_file_owner}
use pf_media.Service.Files.Deletion.{on_memory}
use pf_media.Service.Shares.{
  ShareLinkView, create_share_link, default_share_ttl, hour, hash_password,
}

module _ {E : Type 0} (m : Media State E) (o g file_id : Str) (ttl : ℤ) (password : Str) where
  -- On the memory store, when `CreateShareLink` succeeds on a stored file, the caller owns the file
  -- and it has not failed.
  pub create_share_link-file :
      (w : World State E) (v : ShareLinkView) (f : File)
      → (create_share_link (on_memory m) o g file_id ttl password w).0 ≡ ok v
      → lookup file_id w.db.files ≡ some f
      → (other_file_owner o g f ≡ false) × (f.status ≢ FileStatus.failed)
  unfolding create_share_link Memory.get_file ◌>>=◌
  create_share_link-file w v f h e = ground arith

  -- The world in which the password is hashed, and the link that is stored afterwards.
  abbrev pub hashing : World State E → World State E
  hashing w = record w { ext = (ShareToken.new m.system.rand_read w.ext).1 }

  abbrev pub new_link : Str → Str → World State E → ShareLink
  new_link token hash w =
      let (now, e) = m.system.now (hash_password (on_memory m) password (hashing w)).1.ext in
      record {
        id = (m.system.new_id e).0;
        token = token;
        file_id = file_id;
        owner_sub = o;
        org_id = g;
        password_hash = hash;
        expires_at = now + pos_part (if leb_ℤ ttl (pos 0) then default_share_ttl else ttl);
        created_at = now;
      }

  -- On the memory store, when `CreateShareLink` succeeds and the password was hashed to
  -- `hash` (none to the empty string), the only change to the database is one link,
  -- to that file and under a token that was not in use, with the hash of the password; it expires
  -- after its creation and at most 7 days later, and the answer shows when, and whether there is a
  -- password.
  pub create_share_link-stored :
      (w : World State E) (v : ShareLinkView) (hash : Str)
      → (create_share_link (on_memory m) o g file_id ttl password w).0 ≡ ok v
      → (hash_password (on_memory m) password (hashing w)).0 ≡ ok hash
      → let l = new_link v.token hash w in
        (lookup v.token w.db.shares ≡ none)
        × ((create_share_link (on_memory m) o g file_id ttl password w).1.db
            ≡ record w.db { shares = insert v.token l w.db.shares })
        × (v.expires_at ≡ l.expires_at)
        × (l.created_at < l.expires_at)
        × (l.expires_at ≤ l.created_at + 7 * 24 * hour)
        × (v.password_set ≡ (hash /= []))
  unfolding create_share_link hash_password Memory.get_file Memory.create_share_link ◌>>=◌
  create_share_link-stored w v hash h e = ground arith
