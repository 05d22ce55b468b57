-- ===== src/Queue/Service.antt =====
-- `TaskQueueService` (infra/storage/task-queue-service.ts) on top of the write-ahead log. JSON and
-- `localeCompare` are parameters.
pub mod Json
pub mod Restart
pub mod Sessions
pub mod Resume
pub mod Capacity
use memphis_v.Base.{
  ℕ, zero, suc, ◌+◌, ◌≡◌, refl, Bool, true, false, not, Option, none, some, List, [], ◌∷◌, ◌++◌,
  length, select, leb, ◌==◌, if◌then◌else◌, Result, ok, err, Text, text_eq, codes, Exec,
}
use memphis_v.Queue.Wal
use memphis_v.Queue.Wal.{Bytes, Wal, WalError, WalRecord, recover_and_read}

-- the type of a task, and the print of its other fields
pub record Task : Type 0 where
  pub kind : Text
  pub body : Text

pub data TaskStatus : Type 0 where
  completed failed canceled : TaskStatus

pub data ResumePolicy : Type 0 where
  keep fail redispatch : ResumePolicy

pub data Error : Type 0 where
  overload : ℕ → ℕ → Error
  wal_failed : WalError → Error

-- What a redispatch can end with: the error of the handler, or that of a call of the service.
pub data Failure : Type 0 where
  handler_threw : Text → Failure
  call_threw : Error → Failure

-- The metadata of a finished task: a caller's, or one of the three that `resumeRecoveredPending`
-- writes.
pub data Metadata : Type 0 where
  given : Text → Metadata
  policy_fail policy_redispatch : Metadata
  redispatch_error : Failure → Metadata

pub data Envelope : Type 0 where
  enqueue_op : Text → Text → Task → Envelope
  finish_op : Text → TaskStatus → Text → Option Metadata → Envelope

-- What `parseEnvelope` looks at in a JSON object: each field where it has the type that is asked for.
pub record Fields : Type 0 where
  pub op : Option Text
  pub task_id : Option Text
  pub enqueued_at : Option Text
  pub task : Option Task
  pub status : Option Text
  pub finished_at : Option Text
  pub metadata : Option Metadata

pub record Platform : Type 0 where
  pub json_print : Envelope → Bytes
  pub json_parse : Bytes → Option Fields
  pub locale_le : Text → Text → Bool

abbrev pub status_text : TaskStatus → Text
status_text completed = codes "completed"
status_text failed = codes "failed"
status_text canceled = codes "canceled"

abbrev status_of : Text → Option TaskStatus
status_of s =
    if text_eq s (codes "completed")
    then some completed
    else if text_eq s (codes "failed")
    then some failed
    else if text_eq s (codes "canceled")
    then some canceled
    else none

abbrev as_enqueue : Option Text → Option Text → Option Task → Option Envelope
as_enqueue (some id) (some at) (some task) = some (enqueue_op id at task)
as_enqueue _ _ _ = none

abbrev with_status : Text → Text → Option Metadata → Option TaskStatus → Option Envelope
with_status id at metadata (some status) = some (finish_op id status at metadata)
with_status id at metadata none = none

abbrev as_finish : Option Text → Option Text → Option Text → Option Metadata → Option Envelope
as_finish (some id) (some at) (some status) metadata = with_status id at metadata (status_of status)
as_finish _ _ _ _ = none

abbrev of_op : Option Text → Fields → Option Envelope
of_op none f = none
of_op (some op) f =
    if text_eq op (codes "enqueue")
    then as_enqueue f.task_id f.enqueued_at f.task
    else if text_eq op (codes "finish")
    then as_finish f.task_id f.finished_at f.status f.metadata
    else none

abbrev of_fields : Option Fields → Option Envelope
of_fields none = none
of_fields (some f) = of_op f.op f

unfoldable pub parse_envelope : Platform → Bytes → Option Envelope
parse_envelope p raw = of_fields (Platform.json_parse p raw)

pub record PendingTask : Type 0 where
  pub task_id : Text
  pub enqueued_at : Text
  pub task : Task

pub data ResumeError : Type 0 where
  no_handler : ResumeError
  task_error : Text → Failure → ResumeError

pub record ResumeResult : Type 0 where
  pub policy : ResumePolicy
  pub scanned : ℕ
  pub redispatched : ℕ
  pub failed_tasks : ℕ
  pub canceled_tasks : ℕ
  pub kept : ℕ
  pub errors : List ResumeError

pub record Options : Type 0 where
  pub max_pending_tasks : Option ℕ
  pub resume_policy : Option ResumePolicy

pub record Service : Type 0 where
  pub wal : Wal
  pub max_pending_tasks : ℕ
  pub default_resume_policy : ResumePolicy
  pub pending : List PendingTask
  pub recovered : List Text
  pub last_resume : Option (ResumeResult × Text)
  pub total_enqueued : ℕ
  pub total_finished : ℕ

abbrev pub M : Type 0 → Type 0
M A = Exec Service Error A

-- `Map.get`, `Map.set`, `Map.delete`, `Set.add` and `Set.delete`, in insertion order
unfoldable pub get_pending : Text → List PendingTask → Option PendingTask
get_pending id [] = none
get_pending id (q ∷ qs) =
    let rest = get_pending id qs in if text_eq q.task_id id then some q else rest

unfoldable pub set_pending : PendingTask → List PendingTask → List PendingTask
set_pending t [] = t ∷ []
set_pending t (q ∷ qs) =
    let rest = set_pending t qs in if text_eq q.task_id t.task_id then t ∷ qs else q ∷ rest

abbrev pub delete_pending : Text → List PendingTask → List PendingTask
delete_pending id qs = select (λ q. not (text_eq q.task_id id)) qs

abbrev pub delete_id : Text → List Text → List Text
delete_id id ids = select (λ i. not (text_eq i id)) ids

abbrev pub has_id : Text → List Text → Bool
has_id id [] = false
has_id id (i ∷ ids) = let rest = has_id id ids in if text_eq i id then true else rest

abbrev add_id : Text → List Text → List Text
add_id id ids = if has_id id ids then ids else ids ++ id ∷ []

abbrev pub or_else {ℓ} : {A : Type ℓ} → Option A → A → A
or_else none a = a
or_else (some b) a = b

-- the fields that the constructor sets
unfoldable pub opened : Options → Wal → Service
opened o w = record {
  wal = w;
  max_pending_tasks = or_else o.max_pending_tasks 100;
  default_resume_policy = or_else o.resume_policy keep;
  pending = [];
  recovered = [];
  last_resume = none;
  total_enqueued = 0;
  total_finished = 0;
}

-- one round of the loop of `recover`, on a record that is an envelope
unfoldable pub replay : Envelope → Service → Service
replay (enqueue_op id at task) s = record s {
  pending = set_pending (record { task_id = id; enqueued_at = at; task = task }) s.pending;
  recovered = add_id id s.recovered;
  total_enqueued = suc s.total_enqueued;
}
replay (finish_op id status at metadata) s = record s {
  pending = delete_pending id s.pending;
  recovered = delete_id id s.recovered;
  total_finished = suc s.total_finished;
}

abbrev pub replay_if : Option Envelope → Service → Service
replay_if none s = s
replay_if (some e) s = replay e s

unfoldable pub recover_records : Platform → List WalRecord → Service → Service
recover_records p [] s = s
recover_records p (r ∷ rs) s = recover_records p rs (replay_if (parse_envelope p r.payload) s)

abbrev pub recovered_from :
    Platform → Options → Result WalError (List WalRecord) × Wal → Result Error Service
recovered_from p o (ok rs, w) = ok (recover_records p rs (opened o w))
recovered_from p o (err e, w) = err (wal_failed e)

-- the constructor; `free` says whether the lock of the log was got in time
unfoldable pub start : Platform → Options → Bool → Wal → Result Error Service
start p o free w = recovered_from p o (recover_and_read free w)

-- An append to the log and what follows it when it did not throw.
abbrev pub logged :
    {A : Type 0}
    → A
    → (Service → Service)
    → Service
    → Result WalError WalRecord × Wal
    → Result Error A × Service
logged a f s (ok r, w) = (ok a, f (record s { wal = w }))
logged a f s (err e, w) = (err (wal_failed e), record s { wal = w })

-- What a call draws: whether the lock was got in time, a new UUID, and the clock.
pub record Draw : Type 0 where
  pub free : Bool
  pub uuid : Text
  pub now : Text

abbrev pub note_enqueued : Task → Draw → Service → Service
note_enqueued task d s = record s {
  pending = set_pending (record { task_id = d.uuid; enqueued_at = d.now; task = task }) s.pending;
  total_enqueued = suc s.total_enqueued;
}

abbrev pub note_finished : Text → Service → Service
note_finished id s = record s {
  pending = delete_pending id s.pending;
  recovered = delete_id id s.recovered;
  total_finished = suc s.total_finished;
}

unfoldable pub enqueue : Platform → Task → Draw → M (Text × Text)
enqueue p task d s =
    if leb s.max_pending_tasks (length s.pending)
    then (err (overload (length s.pending) s.max_pending_tasks), s)
    else logged (d.uuid, d.now) (note_enqueued task d) s
        (Wal.enqueue d.free (Platform.json_print p (enqueue_op d.uuid d.now task)) s.wal)

abbrev finish_found :
    Platform → Text → TaskStatus → Option Metadata → Draw → Option PendingTask → M Bool
finish_found p id status metadata d none s = (ok false, s)
finish_found p id status metadata d (some _) s =
    logged true (note_finished id) s
      (Wal.enqueue d.free (Platform.json_print p (finish_op id status d.now metadata)) s.wal)

unfoldable pub finish : Platform → Text → TaskStatus → Option Metadata → Draw → M Bool
finish p id status metadata d s = finish_found p id status metadata d (get_pending id s.pending) s
