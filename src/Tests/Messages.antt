-- ===== src/Tests/Messages.antt =====
-- Jobs on a stream, and the traces' endpoint.
use pf_media.Base.{ℕ, ◌≡◌, refl, none, some, [], ◌∷◌, ◌+◌, codes, str_discrete}
use pf_media.Base.Dict.{lookup}
use pf_media.Base.Int.{pos}
use pf_media.Domain.{ok}
use pf_media.Service.{JobMessage}
use pf_media.Queue.{Redis, payload, read}
use pf_media.Telemetry.{traces_endpoint}

-- A client whose stream always has one message, of the job "j"; the text of a job is its id.
abbrev pub one_message : Redis ℕ
one_message = record {
  ping = λ e. (ok tt, e);
  xadd = λ stream values e. (ok tt, e + 1);
  xread_group = λ group consumer stream count block e.
      (ok ((record { id = codes "1-0"; values = (payload, some (codes "j")) ∷ [] } ∷ []) ∷ []), e);
  xgroup_create = λ stream group start e. (ok tt, e);
  xack = λ stream group id e. (ok tt, e);
  error_text = λ e. [];
  marshal = λ message. ok message.job_id;
  unmarshal = λ text. ok (record { job_id = text; file_id = []; object_key = []; bucket = [] });
}

abbrev job : JobMessage
job = record { job_id = codes "j"; file_id = []; object_key = []; bucket = [] }

job_delivered : read one_message (codes "g") (codes "c") (pos 0) 5 ≡ ((codes "1-0", job, none), 5)
unfolding read lookup str_discrete
job_delivered = refl

endpoint_with_path :
    traces_endpoint (codes " http://otel:4318/ ") ≡ codes "http://otel:4318/v1/traces"
unfolding traces_endpoint str_discrete
endpoint_with_path = refl

endpoint_kept : traces_endpoint (codes "http://otel/v1/traces/") ≡ codes "http://otel/v1/traces"
unfolding traces_endpoint str_discrete
endpoint_kept = refl
