-- ===== src/Service/Steps/OnMemory.antt =====
-- The service on the memory store: what holds in every state that it can reach.
use pf_media.Base.{Str, ◌≡◌, refl, Option, none, some, []}
use pf_media.Base.Int.{ℤ, pos, ◌≤ℤ◌, InInt64}
use pf_media.Exec.{Exec, World}
use pf_media.Exec.Keeps.{Keeps, On}
use pf_media.Store.Memory
use pf_media.Store.Memory.{State, or_not_found, memory_store}
use pf_media.Store.Memory.Budget.{quota_of-Within}
use pf_media.Store.Memory.Siblings.{Apart}
use pf_media.Store.Memory.Invariant.{
  Inv, new-Inv, update_file-Inv, create_pending_file-Inv, create_job-Inv, update_job-Inv,
  add_quota-Inv, delete_file-Inv, create_share_link-Inv, delete_share_link-Inv, create_folder-Inv,
  delete_folder-Inv,
}
use pf_media.Service.{Media}
use pf_media.Service.Preserved.{Keeper, SizesInt64}
use pf_media.Service.Steps.{
  Actor, user, visitor, processor, nobody, Fits, Step, Step-On, Reach, Reach-On,
}

read-Keeps : {S A : Type 0} {P : S → Type 0} (m : Exec S A) → ((s : S) → (m s).1 ≡ s) → Keeps P m
read-Keeps m same = record { at = λ s p. rw (same s) p }

or_not_found_state : {A : Type 0} (o : Option A) (s : State) → (or_not_found o s).1 ≡ s
or_not_found_state none s = refl
or_not_found_state (some a) s = refl

-- Every method of the memory store keeps its invariant.
pub Inv-Keeper :
    (limit : ℤ) (o g : Str)
    → pos 0 ≤ℤ limit
    → InInt64 limit
    → Keeper memory_store limit o g (λ _. Unit) (Inv limit)
unfolding Memory.get_file Memory.list_files_by_owner Memory.get_job Memory.get_latest_job_by_file
    Memory.get_quota_used Memory.get_share_link_by_token Memory.list_share_links_by_owner
    Memory.get_folder Memory.list_folders Memory.mark_file_ready Memory.set_file_status
    Memory.update_variants
Inv-Keeper limit o g h l = record {
  found = λ s id f v e mine. (tt, tt);
  create_pending_file = create_pending_file-Inv limit;
  get_file = λ id. read-Keeps _ (λ s. or_not_found_state _ s);
  list_files_by_owner = λ o g d n. read-Keeps _ (λ s. refl);
  mark_file_ready = λ id size _. update_file-Inv limit id _ (λ f. refl);
  set_file_status = λ id st _. update_file-Inv limit id _ (λ f. refl);
  update_variants = λ id v _. update_file-Inv limit id _ (λ f. refl);
  create_job = create_job-Inv limit;
  get_job = λ id. read-Keeps _ (λ s. or_not_found_state _ s);
  get_latest_job_by_file = λ id. read-Keeps _ (λ s. or_not_found_state _ s);
  update_job = update_job-Inv limit;
  add_quota = λ subject delta d. add_quota-Inv limit subject delta h l d;
  get_quota_used = λ subject. read-Keeps _ (λ s. refl);
  delete_file = λ id _. delete_file-Inv limit id;
  create_share_link = create_share_link-Inv limit;
  get_share_link_by_token = λ t. read-Keeps _ (λ s. or_not_found_state _ s);
  list_share_links_by_owner = λ o g. read-Keeps _ (λ s. refl);
  delete_share_link = delete_share_link-Inv limit;
  create_folder = create_folder-Inv limit;
  get_folder = λ id. read-Keeps _ (λ s. or_not_found_state _ s);
  list_folders = λ o g d. read-Keeps _ (λ s. refl);
  delete_folder = delete_folder-Inv limit;
}

-- A service that runs on the memory store, with an int64 that is not negative as its quota limit,
-- and on an object storage that reports sizes as int64s.
pub record OnMemory {E : Type 0} (m : Media State E) : Type 0 where
  pub memory : m.store ≡ memory_store
  pub sizes : SizesInt64 m
  pub limit_nonneg : pos 0 ≤ℤ m.quota_limit
  pub limit_int64 : InInt64 m.quota_limit

module _ {E : Type 0} (m : Media State E) (on : OnMemory m) where
  keeper : (o g : Str) → Keeper m.store m.quota_limit o g (λ _. Unit) (Inv m.quota_limit)
  keeper o g = rw on.memory (Inv-Keeper m.quota_limit o g on.limit_nonneg on.limit_int64)

  fits : (a : Actor) → Fits m (λ _. Unit) (Inv m.quota_limit) a
  fits (user o g) = keeper o g
  fits visitor = ([], [], keeper [] [])
  fits processor = (keeper [] [], λ id. tt)
  fits nobody = tt

  -- A step keeps the invariant of the store.
  pub Step-Inv :
      {a : Actor} {w w' : World State E}
      → Inv m.quota_limit w.db
      → Step m a w w'
      → Inv m.quota_limit w'.db
  Step-Inv {a} h step =
      (Step-On m on.sizes (λ _. Unit) (Inv m.quota_limit) (fits a) step
        (record { holds = h })).holds

module _ {E : Type 0} (m : Media State E) (on : OnMemory m) {w w' : World State E} where
  -- The invariant of the store holds in every state that the service reaches from the empty store.
  pub Reach-Inv : w.db ≡ Memory.new → Reach m w w' → Inv m.quota_limit w'.db
  Reach-Inv start r = reached.holds
    where
      reached : On {E = E} (Inv m.quota_limit) w'
      reached =
          Reach-On m on.sizes (λ _. Unit) (Inv m.quota_limit) (fits m on)
            (record { holds = rw start (new-Inv m.quota_limit) }) r

  -- Whatever is asked of a service that starts on an empty memory store, and whatever the outside
  -- world answers, no subject's use of the quota is negative or above the limit. The service's limit
  -- is an int64 and not negative, and the sizes that object storage reports are int64s.
  pub Reach-quota_of :
      w.db ≡ Memory.new
      → Reach m w w'
      → (subject : Str)
      → (pos 0 ≤ℤ Memory.quota_of subject w'.db) × (Memory.quota_of subject w'.db ≤ℤ m.quota_limit)
  Reach-quota_of start r subject =
      quota_of-Within m.quota_limit subject w'.db on.limit_nonneg (Reach-Inv start r).budget

  -- In every state that a service reaches from an empty memory store, whose limit is an int64 and
  -- not negative and whose object storage reports sizes that are int64s, no two folders have the same owner, organisation,
  -- parent and name.
  pub Reach-Apart : w.db ≡ Memory.new → Reach m w w' → Apart w'.db.folders
  Reach-Apart start r = (Reach-Inv start r).siblings.apart
