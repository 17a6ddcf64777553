-- ===== src/Store/Memory/Siblings.antt =====
-- The names of folders of one owner under one parent.
use pf_media.Base.{Str, ◌≡◌, Bool, false, none, [], ◌∷◌, arith, str_eq, any}
use pf_media.Base.Dict.{
  Dict, AllValues, insert, erase, lookup, values, insert-AllValues, erase-AllValues,
}
use pf_media.Domain.{Folder}
use pf_media.Exec.Keeps.{Keeps}
use pf_media.Store.Memory.{State, same_place, create_folder, delete_folder}

-- No two of the folders are in one place: the same owner, organisation, parent and name.
abbrev pub Apart : Dict Folder → Type 0
Apart [] = Unit
Apart ((_, f) ∷ d) = AllValues (λ g. same_place f g ≡ false) d × Apart d

pub record SiblingsApart (s : State) : Type 0 where
  pub apart : Apart s.folders

same_place_symm : (f g : Folder) → same_place f g ≡ false → same_place g f ≡ false
same_place_symm f g h = ground arith

AllValues-of_any :
    (p : Folder → Bool) (d : Dict Folder)
    → any p (values d) ≡ false
    → AllValues (λ g. p g ≡ false) d
unfolding any values
AllValues-of_any p [] h = tt
AllValues-of_any p ((_, g) ∷ d) h = ground (arith, AllValues-of_any p d)

insert-Apart :
    (id : Str) (f : Folder) (d : Dict Folder)
    → lookup id d ≡ none
    → AllValues (λ g. same_place f g ≡ false) d
    → Apart d
    → Apart (insert id f d)
unfolding lookup insert
insert-Apart id f [] _ _ _ = (tt, tt)
insert-Apart id f ((j, g) ∷ d) fresh (fg, fd) (gd, apart) = ground (
  arith,
  insert-Apart id f d,
  insert-AllValues (λ x. same_place g x ≡ false) id f d (same_place_symm f g fg) gd,
)

erase-Apart : (id : Str) (d : Dict Folder) → Apart d → Apart (erase id d)
unfolding erase
erase-Apart id [] _ = tt
erase-Apart id ((j, g) ∷ d) (gd, apart) =
    ground (arith, erase-Apart id d apart, erase-AllValues (λ x. same_place g x ≡ false) id d gd)

pub create_folder-SiblingsApart : (f : Folder) → Keeps SiblingsApart (create_folder f)
unfolding create_folder
create_folder-SiblingsApart f = record {
  at = λ s h.
      ground
        (arith, h.apart, insert-Apart f.id f s.folders, AllValues-of_any (same_place f) s.folders);
}

pub delete_folder-SiblingsApart : (id : Str) → Keeps SiblingsApart (delete_folder id)
unfolding delete_folder
delete_folder-SiblingsApart id = record { at = λ s h. ground (arith, erase-Apart id s.folders) }
