-- ===== src/Service/FolderTree/Emptying.antt =====
-- media.go: the loop of `deleteFolderTree` over the files of a folder, on the memory store.
use mathlib.Core.Path.{subst}
use pf_media.Base.{
  Str, ℕ, zero, suc, ◌≤◌, ◌≡◌, refl, true, false, Option, some, List, [], ◌∷◌, arith, ◌==◌, str_eq,
  nat_eq, ltb, length, All, if◌then◌else◌, if_both,
}
use pf_media.Base.Dict.{lookup, AllEntries, erase-AllEntries, lookup-AllEntries}
use pf_media.Base.Int.{pos, int_eq, neg64}
use pf_media.Domain.{not_found, Result, ok, err, File}
use pf_media.Exec
use pf_media.Exec.{Exec, World, pure, raise, attempt, in_db, in_ext}
use pf_media.Exec.Inversion.{bind-ok, bind_step, reject_if-ok}
use pf_media.Exec.Runs.{in_db_run, bind_run, reject_run}
use pf_media.Exec.Keeps.{Keeps, On, Keeps-bind, keeps_rules}
use pf_media.Exec.Loop.{Loop, run, ◌>>=◌}
use pf_media.Exec.Loop.Ending.{Ended, Ends, Ends-run, Ended-step}
use pf_media.Store.Memory
use pf_media.Store.Memory.{State}
use pf_media.Store.Memory.Invariant.{FileKey}
use pf_media.Service.{Media, other_file_owner, quota_subject}
use pf_media.ObjectKeys.{object_prefix}
use pf_media.Service.Files
use pf_media.Service.Files.{delete_file, delete_owned_file}
use pf_media.Service.Files.Deletion.{
  on_memory, delete_file_run, without_file, memory_delete_file_run,
}
use pf_media.Service.FolderTree.{batch, delete_files, delete_batches}
use pf_media.Service.FolderTree.Shrinking.{
  Shrinks, There, length-erase-lt, delete_file-Shrinks, add_quota-Shrinks, get_file-Shrinks,
  list_files-There,
}

module _ {E : Type 0} (m : Media State E) (rank : Str → ℕ) (o g : Str) where
  deletion_keeps :
      (n : ℕ) (f : File) → Keeps (On (Shrinks rank n)) (delete_owned_file (on_memory m) o g f)
  unfolding delete_owned_file
  deletion_keeps n f = search (keeps_rules, delete_file-Shrinks, add_quota-Shrinks) depth 30

  answered :
      (n : ℕ) (r : Result File)
      → Keeps (On (Shrinks rank n)) (Files.delete_found (on_memory m) o g r)
  answered n (ok f) = deletion_keeps n f
  answered n (err e) = search keeps_rules

  delete_file-keeps :
      (n : ℕ) (id : Str) → Keeps (On (Shrinks rank n)) (delete_file (on_memory m) o g id)
  unfolding delete_file
  delete_file-keeps n id = Keeps-bind _ _ (search (keeps_rules, get_file-Shrinks)) λ r. answered n r

  delete_files-keeps :
      (n : ℕ) (fs : List File) → Keeps (On (Shrinks rank n)) (delete_files (on_memory m) o g fs)
  unfolding delete_files
  delete_files-keeps n [] = search keeps_rules
  delete_files-keeps n (f ∷ fs) =
      Keeps-bind _ _ (delete_file-keeps n f.id) λ _. delete_files-keeps n fs

  shrunk :
      (n : ℕ) (f : File) (s : State)
      → lookup f.id s.files ≡ some f
      → Shrinks rank (suc n) s
      → Shrinks rank n (without_file f.id s)
  unfolding without_file
  shrunk n f s there v = record {
    keyed = erase-AllEntries FileKey f.id s.files v.keyed;
    few = let fewer = length-erase-lt f.id s.files f there in let bound = v.few in omega arith;
    ranked = v.ranked;
  }

  -- What `DeleteFile` does behind the deletion of the objects.
  abbrev refunds : File → Exec (World State E) Unit
  refunds f =
      if f.size_bytes == pos 0
      then pure tt
      else in_db (Memory.add_quota (quota_subject g o) (neg64 f.size_bytes) m.quota_limit)

  abbrev removes : File → Exec (World State E) Unit
  removes f = Exec.◌>>◌ (in_db (Memory.delete_file f.id)) (refunds f)

  removes-Shrinks :
      (n : ℕ) (f : File) (w : World State E)
      → lookup f.id w.db.files ≡ some f
      → Shrinks rank (suc n) w.db
      → On (Shrinks rank n) (removes f w).1
  removes-Shrinks n f w there v =
      let keeps : Keeps (On (Shrinks rank n)) (refunds f) =
        search (keeps_rules, add_quota-Shrinks) in
      rw
        (bind_run _ (λ _. refunds f) w _ _
          (in_db_run _ w _ _ (memory_delete_file_run f.id f w.db there)))
        (keeps.at _ (record { holds = shrunk n f w.db there v }))

  clears_db :
      (f : File) (w : World State E)
      → (in_ext (m.objects.delete_prefix (object_prefix f.owner_sub f.id)) w).1.db ≡ w.db
  unfolding Exec.◌>>=◌
  clears_db f w = refl

  clears-Shrinks :
      (n : ℕ) (f : File) (w : World State E)
      → lookup f.id w.db.files ≡ some f
      → Shrinks rank (suc n) w.db
      → let clears =
          Exec.◌>>◌
            (in_ext (m.objects.delete_prefix (object_prefix f.owner_sub f.id)))
            (removes f) in
        (clears w).0 ≡ ok tt → On (Shrinks rank n) (clears w).1
  clears-Shrinks n f w there v h =
      let clear = in_ext (m.objects.delete_prefix (object_prefix f.owner_sub f.id)) in
      let (done, e, _) = bind-ok clear (λ _. removes f) w h in
      rw (bind_step clear (λ _. removes f) w done e)
        (removes-Shrinks n f (clear w).1 (rw (clears_db f w) there) (rw (clears_db f w) v))

  -- A file that is there is gone after a deletion that succeeds.
  owned-Shrinks :
      (n : ℕ) (f : File) (w : World State E)
      → lookup f.id w.db.files ≡ some f
      → Shrinks rank (suc n) w.db
      → (delete_owned_file (on_memory m) o g f w).0 ≡ ok tt
      → On (Shrinks rank n) (delete_owned_file (on_memory m) o g f w).1
  unfolding delete_owned_file
  owned-Shrinks n f w there v h =
      let clears =
        Exec.◌>>◌ (in_ext (m.objects.delete_prefix (object_prefix f.owner_sub f.id))) (removes f) in
      let (mine, h1) = reject_if-ok (other_file_owner o g f) not_found clears w h in
      rw (reject_run (other_file_owner o g f) not_found clears w mine)
        (clears-Shrinks n f w there v h1)

  deleted-Shrinks :
      (n : ℕ) (f : File) (w : World State E)
      → Shrinks rank (suc n) w.db
      → lookup f.id w.db.files ≡ some f
      → (delete_file (on_memory m) o g f.id w).0 ≡ ok tt
      → On (Shrinks rank n) (delete_file (on_memory m) o g f.id w).1
  deleted-Shrinks n f w v there e =
      rw (delete_file_run m o g f w there)
        (owned-Shrinks n f w there v (rw (delete_file_run m o g f w there) at e))

  first-Shrinks :
      (n : ℕ) (id : Str) (f : File) (w : World State E)
      → Shrinks rank (suc n) w.db
      → lookup id w.db.files ≡ some f
      → (delete_file (on_memory m) o g id w).0 ≡ ok tt
      → On (Shrinks rank n) (delete_file (on_memory m) o g id w).1
  first-Shrinks n id f w v there =
      subst
        (λ id'.
          lookup id' w.db.files ≡ some f
          → (delete_file (on_memory m) o g id' w).0 ≡ ok tt
          → On (Shrinks rank n) (delete_file (on_memory m) o g id' w).1)
        (lookup-AllEntries FileKey id w.db.files f v.keyed there) (deleted-Shrinks n f w v) there

  -- A batch that is deleted leaves fewer files.
  batch-Shrinks :
      (n : ℕ) (f : File) (fs : List File) (w : World State E)
      → There w.db.files f
      → Shrinks rank (suc n) w.db
      → (delete_files (on_memory m) o g (f ∷ fs) w).0 ≡ ok tt
      → On (Shrinks rank n) (delete_files (on_memory m) o g (f ∷ fs) w).1
  unfolding delete_files
  batch-Shrinks n f fs w (h, there) v e =
      let del = delete_file (on_memory m) o g f.id in
      let rest = λ (_ : Unit {0}). delete_files (on_memory m) o g fs in
      let (done, e', _) = bind-ok del rest w e in
      rw (bind_step del rest w done e')
        ((delete_files-keeps n fs).at (del w).1 (first-Shrinks n f.id h w v there e'))

  stays :
      (n : ℕ) (w : World State E)
      → On (Shrinks rank n) w
      → Ended (On (Shrinks rank n)) (run (pure tt) w)
  stays n w v = (Ends-run (pure tt) (search keeps_rules)).at w v

  weaken :
      (n : ℕ) (x : Option (Result (Unit {0}) × World State E))
      → Ended (On (Shrinks rank n)) x
      → Ended (On (Shrinks rank (suc n))) x
  weaken n x (r, w, e, v) = (
    r,
    w,
    e,
    record {
      holds =
          let few = v.holds.few in
          record { keyed = v.holds.keyed; few = omega arith; ranked = v.holds.ranked };
    },
  )

  -- The rest of a round, behind the listing of a batch.
  round-Ends :
      (n : ℕ) (more : Loop (World State E) Unit) (fs : List File) (w : World State E)
      → On (Shrinks rank (suc n)) w
      → All (There w.db.files) fs
      → Ends (On (Shrinks rank n)) more
      → Ended (On (Shrinks rank (suc n))) (
          (if length fs == 0
              then run (pure tt)
              else (run (delete_files (on_memory m) o g fs) >>= λ _.
                  if ltb (length fs) batch then run (pure tt) else more))
            w)
  round-Ends n more [] w v there k =
      let empty : (length {A = File} [] == 0) ≡ true = ground arith in rw empty (stays (suc n) w v)
  round-Ends n more (f ∷ fs) w v there k =
      let all = delete_files (on_memory m) o g (f ∷ fs) in
      let full : (length (f ∷ fs) == 0) ≡ false = ground arith in
      rw full (
        Ended-step all (λ _. if ltb (length (f ∷ fs)) batch then run (pure tt) else more) w
          ((delete_files-keeps (suc n) (f ∷ fs)).at w v)
          λ done e.
            let fewer = batch-Shrinks n f fs w there.0 v.holds e in
            if_both (λ l. Ended (On (Shrinks rank (suc n))) (l (all w).1))
              (ltb (length (f ∷ fs)) batch) (run (pure tt)) more
              (weaken n _ (stays n (all w).1 fewer)) (weaken n _ (k.at (all w).1 fewer)))

  list_same :
      (d : Str) (w : World State E) → (in_db (Memory.list_files_by_owner o g d batch) w).1 ≡ w
  unfolding Exec.◌>>=◌ Memory.list_files_by_owner
  list_same d w = refl

  listed :
      (d : Str) (w : World State E) (fs : List File)
      → AllEntries FileKey w.db.files
      → (in_db (Memory.list_files_by_owner o g d batch) w).0 ≡ ok fs
      → All (There w.db.files) fs
  unfolding Exec.◌>>=◌
  listed d w fs keyed e = list_files-There o g d batch w.db fs keyed e

  pub batches_end :
      (fuel n : ℕ) (d : Str)
      → n ≤ fuel
      → Ends (On (Shrinks rank n)) (delete_batches (on_memory m) fuel o g d)
  unfolding delete_batches
  batches_end fuel zero d h = record { at = λ w v. absurd (let few = v.holds.few in omega arith) }
  batches_end zero (suc n) d h = elim h [ ]
  batches_end (suc fuel) (suc n) d h = record {
    at = λ w v.
        Ended-step (in_db (Memory.list_files_by_owner o g d batch)) _ w (rw (list_same d w) v)
          λ fs e. rw (list_same d w) (
            round-Ends n _ fs w v (listed d w fs v.holds.keyed e)
              (batches_end fuel n d (omega arith)));
  }
