-- ===== src/Queue.antt =====
-- apps/api/internal/queue/redis.go: the stream of jobs. The client of go-redis and encoding/json are
-- parameters.
pub mod Delivery
use pf_media.Base.{Str, ℕ, Option, none, some, List, [], ◌∷◌, codes, if◌then◌else◌, ◌==◌, str_eq}
use pf_media.Base.Dict.{Dict, lookup}
use pf_media.Base.Int.{ℤ}
use pf_media.Domain.{Err, other, Result, ok, err}
use pf_media.Exec.{Exec, ◌>>=◌, pure, raise, lift, recover}
use pf_media.Service.{JobMessage, JobQueue}

abbrev pub stream_key : Str
stream_key = codes "media:jobs"

abbrev pub payload : Str
payload = codes "payload"

-- redis.XMessage. A value that is no string is `none`.
pub record Message : Type 0 where
  pub id : Str
  pub values : Dict (Option Str)

-- `xread_group group consumer stream count block` answers with the messages of each stream, and
-- `error_text` is the method Error of an error.
pub record Redis (E : Type 0) : Type 0 where
  pub ping : Exec E Unit
  pub xadd : Str → Dict (Option Str) → Exec E Unit
  pub xread_group : Str → Str → Str → ℕ → ℤ → Exec E (List (List Message))
  pub xgroup_create : Str → Str → Str → Exec E Unit
  pub xack : Str → Str → Str → Exec E Unit
  pub error_text : Err → Str
  pub marshal : JobMessage → Result Str
  pub unmarshal : Str → Result JobMessage

abbrev pub no_job : JobMessage
no_job = record { job_id = []; file_id = []; object_key = []; bucket = [] }

-- `redis.Nil`
abbrev pub redis_nil : Err
redis_nil = other (codes "redis: nil")

-- What Read returns: an id, a job and an error. All three are given at once.
abbrev pub Delivered : Type 0
Delivered = Str × JobMessage × Option Err

module _ {E : Type 0} (rdb : Redis E) where
  unfoldable pub enqueue : JobMessage → Exec E Unit
  enqueue message = do
    text ← lift (rdb.marshal message)
    rdb.xadd stream_key ((payload, some text) ∷ [])

  -- `raw, _ := m.Values["payload"].(string)`
  abbrev pub raw_of : Option (Option Str) → Str
  raw_of (some (some raw)) = raw
  raw_of _ = []

  abbrev pub decoded : Str → Result JobMessage → Delivered
  decoded id (ok message) = (id, message, none)
  decoded id (err e) = (id, no_job, some e)

  -- The first message of the first stream; a message that cannot be decoded is named all the same.
  unfoldable pub delivered : Result (List (List Message)) → Delivered
  unfolding lookup
  delivered (err e) = ([], no_job, some e)
  delivered (ok []) = ([], no_job, some redis_nil)
  delivered (ok ([] ∷ _)) = ([], no_job, some redis_nil)
  delivered (ok ((m ∷ _) ∷ _)) = decoded m.id (rdb.unmarshal (raw_of (lookup payload m.values)))

  unfoldable pub read : Str → Str → ℤ → E → Delivered × E
  unfolding delivered
  read group consumer block e =
      let (r, e') = rdb.xread_group group consumer stream_key 1 block e in (delivered r, e')

  -- A group that is there already is no error.
  unfoldable pub ensure_group : Str → Exec E Unit
  ensure_group group = recover (rdb.xgroup_create stream_key group (codes "0")) λ e.
      if rdb.error_text e == codes "BUSYGROUP Consumer Group name already exists"
      then pure tt
      else raise e

  unfoldable pub ack : Str → Str → Exec E Unit
  ack group id = rdb.xack stream_key group id

  -- The queue of the service.
  unfoldable pub job_queue : JobQueue E
  unfolding enqueue
  job_queue = record { enqueue = enqueue }
