-- ===== src/Service/Steps/Isolation.antt =====
-- The files of one user under the calls of another.
use pf_media.Base.{
  ℕ, ap, length, ◌/=◌, ◌||◌, Str, ◌≡◌, ◌≢◌, refl, Option, none, some, ◌∷◌, arith, str_eq, true,
  false, Option-cases, inl, inr,
}
use pf_media.Base.Dict.{lookup, lookup-insert, lookup-erase, lookup-AllEntries}
use pf_media.Base.Int.{ℤ, pos, ◌≤ℤ◌, InInt64}
use pf_media.Domain.{File, ok}
use pf_media.Exec.{Exec, World}
use pf_media.Exec.Keeps.{Keeps}
use pf_media.Store.Memory
use pf_media.Store.Memory.{State, or_not_found, update_file, memory_store}
use pf_media.Store.Memory.Invariant.{FileKey, Inv}
use pf_media.Service.{Media, other_file_owner}
use pf_media.Service.Preserved.{Keeper}
use pf_media.Service.Steps.{Actor, user, visitor, processor, nobody, Fits, Step, Step-On}
use pf_media.Service.Steps.OnMemory.{OnMemory, Inv-Keeper}

-- The invariant of the store, and the file `f` under the id `id`.
record Holds (limit : ℤ) (id : Str) (f : File) (s : State) : Type 0 where
  inv : Inv limit s
  there : lookup id s.files ≡ some f

module _ (limit : ℤ) (id : Str) (f : File) where
  -- What leaves the table of files alone keeps the file.
  same_files :
      {A : Type 0} (m : Exec State A)
      → Keeps (Inv limit) m
      → ((s : State) → (m s).1.files ≡ s.files)
      → Keeps (Holds limit id f) m
  same_files m k same = record {
    at = λ s h. record { inv = k.at s h.inv; there = rw (same s) h.there };
  }

  update_file-Holds :
      (id' : Str) (change : File → File)
      → Keeps (Inv limit) (update_file id' change)
      → id ≢ id'
      → Keeps (Holds limit id f) (update_file id' change)
  update_file-Holds id' change k ne = record {
    at = λ s h. record {
      inv = k.at s h.inv;
      there = elim (Option-cases (lookup id' s.files)) [
        | inl e ↦ rw (e, update_file) h.there
        | inr (x, e) ↦
            rw (e, update_file) (ground (arith, lookup-insert id id' (change x) s.files, h.there))
      ];
    };
  }

  create_pending_file-Holds :
      (f' : File)
      → Keeps (Inv limit) (Memory.create_pending_file f')
      → Keeps (Holds limit id f) (Memory.create_pending_file f')
  unfolding Memory.create_pending_file
  create_pending_file-Holds f' k = record {
    at = λ s h. record {
      inv = k.at s h.inv;
      there = ground (arith, lookup-insert id f'.id f' s.files, h.there);
    };
  }

  delete_file-Holds :
      (id' : Str)
      → Keeps (Inv limit) (Memory.delete_file id')
      → id ≢ id'
      → Keeps (Holds limit id f) (Memory.delete_file id')
  unfolding Memory.delete_file
  delete_file-Holds id' k ne = record {
    at = λ s h. record {
      inv = k.at s h.inv;
      there = ground (arith, lookup-erase id id' s.files, h.there);
    };
  }

  -- A file that a user is found to own is not the file of another user.
  found-ne :
      (o g : Str) (s : State) (id' : Str) (f' : File)
      → other_file_owner o g f ≡ true
      → Holds limit id f s
      → (Memory.get_file id' s).0 ≡ ok f'
      → other_file_owner o g f' ≡ false
      → (id ≢ id') × (id ≢ f'.id)
  unfolding Memory.get_file
  found-ne o g s id' f' theirs h e mine = (
    λ same. ground arith,
    λ same. ground (arith, lookup-AllEntries FileKey id' s.files f' h.inv.files_keyed),
  )

-- What an `or_not_found` leaves alone.
or_not_found_files : {A : Type 0} (o : Option A) (s : State) → (or_not_found o s).1.files ≡ s.files
or_not_found_files none s = refl
or_not_found_files (some a) s = refl

Holds-Keeper :
    (limit : ℤ) (id : Str) (f : File) (o g : Str)
    → other_file_owner o g f ≡ true
    → pos 0 ≤ℤ limit
    → InInt64 limit
    → Keeper memory_store limit o g (λ id'. id ≢ id') (Holds limit id f)
unfolding Memory.get_file Memory.list_files_by_owner Memory.get_job Memory.get_latest_job_by_file
    Memory.get_quota_used Memory.get_share_link_by_token Memory.list_share_links_by_owner
    Memory.get_folder Memory.list_folders Memory.mark_file_ready Memory.set_file_status
    Memory.update_variants Memory.create_job Memory.update_job Memory.add_quota
    Memory.create_share_link Memory.delete_share_link Memory.create_folder Memory.delete_folder
Holds-Keeper limit id f o g theirs h l =
    let k = Inv-Keeper limit o g h l in
    record {
      found = λ s id' f' p e mine. found-ne limit id f o g s id' f' theirs p e mine;
      create_pending_file = λ x. create_pending_file-Holds limit id f x (k.create_pending_file x);
      get_file = λ x. same_files limit id f _ (k.get_file x) (λ s. or_not_found_files _ s);
      list_files_by_owner =
          λ a b c n. same_files limit id f _ (k.list_files_by_owner a b c n) (λ s. refl);
      mark_file_ready = λ x n ne. update_file-Holds limit id f x _ (k.mark_file_ready x n tt) ne;
      set_file_status = λ x n ne. update_file-Holds limit id f x _ (k.set_file_status x n tt) ne;
      update_variants = λ x n ne. update_file-Holds limit id f x _ (k.update_variants x n tt) ne;
      create_job = λ j. same_files limit id f _ (k.create_job j) (λ s. refl);
      get_job = λ x. same_files limit id f _ (k.get_job x) (λ s. or_not_found_files _ s);
      get_latest_job_by_file =
          λ x. same_files limit id f _ (k.get_latest_job_by_file x) (λ s. or_not_found_files _ s);
      update_job = λ t x st e. same_files limit id f _ (k.update_job t x st e) (λ s. ground arith);
      add_quota = λ x d b. same_files limit id f _ (k.add_quota x d b) (λ s. ground arith);
      get_quota_used = λ x. same_files limit id f _ (k.get_quota_used x) (λ s. refl);
      delete_file = λ x ne. delete_file-Holds limit id f x (k.delete_file x tt) ne;
      create_share_link = λ x. same_files limit id f _ (k.create_share_link x) (λ s. ground arith);
      get_share_link_by_token =
          λ x. same_files limit id f _ (k.get_share_link_by_token x) (λ s. or_not_found_files _ s);
      list_share_links_by_owner =
          λ a b. same_files limit id f _ (k.list_share_links_by_owner a b) (λ s. refl);
      delete_share_link = λ x. same_files limit id f _ (k.delete_share_link x) (λ s. ground arith);
      create_folder = λ x. same_files limit id f _ (k.create_folder x) (λ s. ground arith);
      get_folder = λ x. same_files limit id f _ (k.get_folder x) (λ s. or_not_found_files _ s);
      list_folders = λ a b c. same_files limit id f _ (k.list_folders a b c) (λ s. refl);
      delete_folder = λ x. same_files limit id f _ (k.delete_folder x) (λ s. ground arith);
    }

cons-ne : (b : ℕ) (s : Str) → s ≢ b ∷ s
cons-ne b s e = absurd (omega (arith, ap length e))

-- There is always another subject.
pub another-ne : (s g : Str) → (s /= (0 ∷ s) || g /= g) ≡ true
another-ne s g = ground (arith, cons-ne 0 s)

-- The actors that may not touch a file: a user who does not own it, and visitors of shares.
abbrev pub Stranger : File → Actor → Type 0
Stranger f (user o g) = other_file_owner o g f ≡ true
Stranger f visitor = Unit
Stranger f processor = ⊥
Stranger f nobody = Unit

-- Over the memory store, a call by a user who does not own a file (another subject, or another
-- organisation) leaves the file as it was, and so do a visitor's calls and the world outside. The
-- store satisfies its invariant, the limit is an int64 and not negative, and the sizes that object
-- storage reports are int64s.
pub Step-lookup :
    {E : Type 0} (m : Media State E) (on : OnMemory m) (id : Str) (f : File) (a : Actor)
    (w w' : World State E)
    → Stranger f a
    → Inv m.quota_limit w.db
    → lookup id w.db.files ≡ some f
    → Step m a w w'
    → lookup id w'.db.files ≡ some f
Step-lookup m on id f a w w' stranger inv there step =
    (Step-On m on.sizes (λ id'. id ≢ id') (Holds m.quota_limit id f) (fits a stranger) step
      (record { holds = record { inv = inv; there = there } })).holds.there
  where
    keeper :
        (o g : Str)
        → other_file_owner o g f ≡ true
        → Keeper m.store m.quota_limit o g (λ id'. id ≢ id') (Holds m.quota_limit id f)
    keeper o g theirs =
        rw on.memory (Holds-Keeper m.quota_limit id f o g theirs on.limit_nonneg on.limit_int64)

    fits : (a : Actor) → Stranger f a → Fits m (λ id'. id ≢ id') (Holds m.quota_limit id f) a
    fits (user o g) theirs = keeper o g theirs
    fits visitor h =
        let longer = 0 ∷ f.owner_sub in
        (longer, f.org_id, keeper longer f.org_id (another-ne f.owner_sub f.org_id))
    fits processor no_one = absurd no_one
    fits nobody h = tt
