-- ===== src/Queue/Delivery.antt =====
-- From Enqueue to Read.
use pf_media.Base.{Str, ◌≡◌, refl, none, some, List, [], ◌∷◌, str_discrete}
use pf_media.Base.Int.{ℤ}
use pf_media.Domain.{ok}
use pf_media.Exec.{◌>>=◌}
use pf_media.Service.{JobMessage}
use pf_media.Queue.{Redis, Message, stream_key, payload, enqueue, read}
use pf_media.Base.Dict.{lookup}

module _ {E : Type 0} (rdb : Redis E) where
  -- A job that Enqueue puts on the stream is the one that Read answers with, under the id of the
  -- message, when the client answers first with a message of the values that Enqueue has added. The
  -- text that encodes the job decodes to it.
  pub enqueue-read :
      (message : JobMessage) (text : Str) (e e' : E) (group consumer : Str) (block : ℤ) (id : Str)
      (ms : List Message) (rest : List (List Message))
      → rdb.marshal message ≡ ok text
      → rdb.unmarshal text ≡ ok message
      → rdb.xread_group group consumer stream_key 1 block e'
        ≡ (ok ((record { id = id; values = (payload, some text) ∷ [] } ∷ ms) ∷ rest), e')
      → (enqueue rdb message e ≡ rdb.xadd stream_key ((payload, some text) ∷ []) e)
        × (read rdb group consumer block e' ≡ ((id, message, none), e'))
  unfolding enqueue read lookup str_discrete ◌>>=◌
  enqueue-read message text e e' group consumer block id ms rest enc dec answer =
      (rw enc refl, rw (answer, dec) refl)
