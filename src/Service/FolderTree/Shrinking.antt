-- ===== src/Service/FolderTree/Shrinking.antt =====
-- What the deletion of a folder does to the tables of the memory store: no more files, no more folders.
use pf_media.Base.{
  Str, ℕ, ◌≤◌, ◌<◌, ◌≡◌, refl, Bool, true, false, some, List, [], ◌∷◌, arith, ◌==◌, ◌&&◌, str_eq,
  length, keep, All, All-take, if◌then◌else◌, Option-cases, inl, inr,
}
use pf_media.Base.Dict.{
  Dict, lookup, erase, values, AllValues, AllEntries, erase-AllEntries, erase-AllValues,
}
use pf_media.Base.Int.{ℤ}
use pf_media.Domain.{ok, File, Folder}
use pf_media.Exec.Keeps.{Keeps}
use pf_media.Store.Memory
use pf_media.Store.Memory.{State}
use pf_media.Store.Memory.Invariant.{FileKey}

-- The files are keyed and fewer than `n`, and `rank` is lower at a folder than at its parent.
pub record Shrinks (rank : Str → ℕ) (n : ℕ) (s : State) : Type 0 where
  pub keyed : AllEntries FileKey s.files
  pub few : length s.files < n
  pub ranked : AllValues (λ (f : Folder). rank f.id < rank f.parent_id) s.folders

pub length-erase-le : {V : Type 0} (k : Str) (d : Dict V) → length (erase k d) ≤ length d
unfolding erase
length-erase-le k [] = omega arith
length-erase-le k (_ ∷ d) = ground (arith, length-erase-le k d)

pub length-erase-lt :
    {V : Type 0} (k : Str) (d : Dict V) (v : V)
    → lookup k d ≡ some v
    → length (erase k d) < length d
unfolding erase lookup
length-erase-lt k [] v h = cc
length-erase-lt k (_ ∷ d) v h = ground (arith, length-erase-le k d, length-erase-lt k d v)

module _ (rank : Str → ℕ) (n : ℕ) where
  pub delete_file-Shrinks : (id : Str) → Keeps (Shrinks rank n) (Memory.delete_file id)
  unfolding Memory.delete_file
  delete_file-Shrinks id = record {
    at = λ s v. elim (Option-cases (lookup id s.files)) [
      | inl e ↦ ground arith
      | inr (f, e) ↦ ground (arith, erase-AllEntries FileKey id s.files, length-erase-le id s.files)
    ];
  }

  pub add_quota-Shrinks :
      (subject : Str) (delta limit : ℤ)
      → Keeps (Shrinks rank n) (Memory.add_quota subject delta limit)
  unfolding Memory.add_quota
  add_quota-Shrinks subject delta limit = record { at = λ s v. ground arith }

  pub delete_folder-Shrinks : (id : Str) → Keeps (Shrinks rank n) (Memory.delete_folder id)
  unfolding Memory.delete_folder
  delete_folder-Shrinks id = record {
    at = λ s v. elim (Option-cases (lookup id s.folders)) [
      | inl e ↦ rw (e, Memory.delete_folder) v
      | inr (f, e) ↦
          rw (e, Memory.delete_folder)
            (record {
              keyed = v.keyed;
              few = v.few;
              ranked =
                  erase-AllValues (λ (f : Folder). rank f.id < rank f.parent_id) id s.folders
                    v.ranked;
            })
    ];
  }

  pub get_file-Shrinks : (id : Str) → Keeps (Shrinks rank n) (Memory.get_file id)
  unfolding Memory.get_file
  get_file-Shrinks id = record { at = λ s v. ground arith }

  pub get_folder-Shrinks : (id : Str) → Keeps (Shrinks rank n) (Memory.get_folder id)
  unfolding Memory.get_folder
  get_folder-Shrinks id = record { at = λ s v. ground arith }

-- A row of this id is there.
abbrev pub There : Dict File → File → Type 0
There d f = (g : File) × (lookup f.id d ≡ some g)

There-cons : (e : Str × File) (d : Dict File) (f : File) → There d f → There (e ∷ d) f
unfolding lookup
There-cons (k, g) d f (h, e) = if_there (f.id == k)
  where
    if_there : (b : Bool) → (x : File) × ((if b then some g else lookup f.id d) ≡ some x)
    if_there true = (g, refl)
    if_there false = (h, e)

All-There-cons :
    (e : Str × File) (d : Dict File) (fs : List File) → All (There d) fs → All (There (e ∷ d)) fs
All-There-cons e d [] h = tt
All-There-cons e d (f ∷ fs) (h, t) = (There-cons e d f h, All-There-cons e d fs t)

values-There : (d : Dict File) → AllEntries FileKey d → All (There d) (values d)
unfolding values lookup
values-There [] h = tt
values-There ((k, f) ∷ d) (same, h) =
    ((f, ground arith), All-There-cons (k, f) d (values d) (values-There d h))

All-kept : {A : Type 0} (P : A → Type 0) (p : A → Bool) (xs : List A) → All P xs → All P (keep p xs)
unfolding keep
All-kept P p [] h = tt
All-kept P p (x ∷ xs) h = ground (arith, All-kept P p xs h.1, h.0)

pub list_files-There :
    (o g d : Str) (n : ℕ) (s : State) (fs : List File)
    → AllEntries FileKey s.files
    → (Memory.list_files_by_owner o g d n s).0 ≡ ok fs
    → All (There s.files) fs
unfolding Memory.list_files_by_owner
list_files-There o g d n s fs keyed h =
    let mine = λ (f : File). f.owner_sub == o && f.org_id == g && f.folder_id == d in
    let out = keep mine (values s.files) in
    let there : All (There s.files) out =
      All-kept (There s.files) mine (values s.files) (values-There s.files keyed) in
    ground (arith, there, All-take (There s.files) n out there)
