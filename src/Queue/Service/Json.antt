-- ===== src/Queue/Service/Json.antt =====
-- The envelopes of `TaskQueueService` through JSON (infra/storage/task-queue-service.ts).
use memphis_v.Base.{◌^◌, ◌<◌, ◌≡◌, refl, none, some, List, [], ◌∷◌, ◌++◌, length, codes}
use memphis_v.Base.Texts.{text_eq}
use memphis_v.Queue.Service.{
  Platform, Envelope, enqueue_op, finish_op, TaskStatus, Fields, parse_envelope, status_text,
}

-- What `JSON.stringify` keeps of an envelope.
abbrev fields_of : Envelope → Fields
fields_of (enqueue_op id at task) = record {
  op = some (codes "enqueue");
  task_id = some id;
  enqueued_at = some at;
  task = some task;
  status = none;
  finished_at = none;
  metadata = none;
}
fields_of (finish_op id status at metadata) = record {
  op = some (codes "finish");
  task_id = some id;
  enqueued_at = none;
  task = none;
  status = some (status_text status);
  finished_at = some at;
  metadata = metadata;
}

-- JSON gives back the fields of an envelope that was printed, and the length of the print fits 32 bits.
pub record IsJson (p : Platform) (e : Envelope) : Type 0 where
  pub parsed : Platform.json_parse p (Platform.json_print p e) ≡ some (fields_of e)
  pub sized : length (Platform.json_print p e) < 2 ^ 32

-- `parseEnvelope` accepts an envelope that the service printed, and returns it.
pub parse-print :
    (p : Platform) (e : Envelope) → IsJson p e → parse_envelope p (Platform.json_print p e) ≡ some e
unfolding parse_envelope text_eq
parse-print p (enqueue_op id at task) json = rw json.parsed refl
parse-print p (finish_op id TaskStatus.completed at metadata) json = rw json.parsed refl
parse-print p (finish_op id TaskStatus.failed at metadata) json = rw json.parsed refl
parse-print p (finish_op id TaskStatus.canceled at metadata) json = rw json.parsed refl

abbrev pub Readable : Platform → List Envelope → Type 0
Readable p [] = Unit {0}
Readable p (e ∷ es) = IsJson p e × Readable p es

pub Readable-append :
    (p : Platform) (es : List Envelope) (e : Envelope)
    → Readable p es
    → IsJson p e
    → Readable p (es ++ e ∷ [])
Readable-append p [] e known json = (json, tt)
Readable-append p (x ∷ es) e known json = (known.0, Readable-append p es e known.1 json)
