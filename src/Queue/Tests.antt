-- ===== src/Queue/Tests.antt =====
-- Runs of the write-ahead log and of the task queue.
use memphis_v.Base.{
  ℕ, ◌==◌, if◌then◌else◌, ◌+◌, ◌≤◌, ◌≡◌, refl, Text, codes, Bool, true, false, Option, none, some,
  List, [], ◌∷◌, ◌++◌, length, take, ok, err, arith,
}
use memphis_v.Queue.Wal
use memphis_v.Queue.Wal.{
  parse_from, Bytes, Wal, lock_timeout, rename_fault, WalRecord, empty_wal, encode_record,
  write_be32, recover_and_read,
}
use memphis_v.Queue.Wal.Format.{encode_all, records_from, record_at, Sized, recover_after_crash}
use memphis_v.Queue.Wal.Fuel.{parse_fuel}
use memphis_v.Queue.Wal.Append.{enqueue_then_recover}
use memphis_v.Queue.Service
use memphis_v.Queue.Service.{
  Platform, Service, Options, Task, Draw, Envelope, enqueue_op, finish_op, Fields, PendingTask,
  opened, completed, failed, keep, fail, redispatch, enqueue, TaskStatus, Metadata, status_text,
  policy_fail, redispatch_error, handler_threw, call_threw, wal_failed,
}
use memphis_v.Queue.Service.Restart.{Op, submit, settle, run}
use memphis_v.Queue.Service.Sessions.{Session, call, resume, live}
use memphis_v.Queue.Service.Capacity.{run_within_capacity}
use memphis_v.Queue.Service.Resume
use memphis_v.Queue.Service.Resume.{Handler, resume_recovered_pending, recovered_tasks}
use memphis_v.Queue.Service.Resume.Accounts.{resume_accounts}

abbrev payloads : List Bytes
payloads = codes "one" ∷ codes "two" ∷ []

payloads-Sized : Sized payloads
unfolding Sized
payloads-Sized = (omega arith, (omega arith, tt))

-- a crash in the middle of the third append
abbrev torn : Wal
torn = record (empty_wal 1000 false) {
  active = encode_all payloads ++ take 9 (encode_record (codes "three"));
}

recover_after_crash_example :
    recover_and_read true torn
    ≡ (ok (records_from 0 payloads), record torn { active = encode_all payloads })
recover_after_crash_example =
    recover_after_crash payloads (codes "three") 9 torn payloads-Sized (omega arith) (omega arith)
      refl

abbrev whole : Wal
whole = record (empty_wal 30 false) { active = encode_all payloads }

enqueue_then_recover_example :
    (recover_and_read true (Wal.enqueue true (codes "three") whole).1).0
    ≡ ok (record_at 0 (codes "three") ∷ [])
unfolding encode_all encode_record write_be32 records_from
enqueue_then_recover_example =
    enqueue_then_recover payloads (codes "three") whole payloads-Sized (omega arith) refl refl

abbrev job : Task
job = record { kind = codes "mail"; body = codes "{}" }

abbrev id_of : Envelope → Text
id_of (enqueue_op id at task) = id
id_of (finish_op id status at metadata) = id

abbrev enqueue_fields : Text → Fields
enqueue_fields id = record {
  op = some (codes "enqueue");
  task_id = some id;
  enqueued_at = some (codes "t");
  task = some job;
  status = none;
  finished_at = none;
  metadata = none;
}

abbrev finish_fields : TaskStatus → Option Metadata → Text → Fields
finish_fields status metadata id = record {
  op = some (codes "finish");
  task_id = some id;
  enqueued_at = none;
  task = none;
  status = some (status_text status);
  finished_at = some (codes "t");
  metadata = metadata;
}

abbrev missing : Text
missing = codes "no such handler"

-- the JSON of the envelopes of this file: a letter for the operation with its status and metadata, and
-- the id
abbrev letter_of : TaskStatus → Option Metadata → ℕ
letter_of failed (some policy_fail) = 71
letter_of failed (some (redispatch_error (handler_threw m))) = 72
letter_of failed (some (redispatch_error (call_threw (wal_failed lock_timeout)))) = 73
letter_of failed (some (redispatch_error (call_threw (wal_failed rename_fault)))) = 74
letter_of _ _ = 70

abbrev print_small : Envelope → Bytes
print_small (enqueue_op id at task) = 69 ∷ id
print_small (finish_op id status at metadata) = letter_of status metadata ∷ id

abbrev parse_small : Bytes → Option Fields
parse_small [] = none
parse_small (c ∷ id) =
    if c == 69
    then some (enqueue_fields id)
    else if c == 71
    then some (finish_fields failed (some policy_fail) id)
    else if c == 72
    then some (finish_fields failed (some (redispatch_error (handler_threw missing))) id)
    else if c == 73
    then some
        (finish_fields failed (some (redispatch_error (call_threw (wal_failed lock_timeout)))) id)
    else if c == 74
    then some
        (finish_fields failed (some (redispatch_error (call_threw (wal_failed rename_fault)))) id)
    else some (finish_fields completed none id)

abbrev platform : Platform
platform = record { json_print = print_small; json_parse = parse_small; locale_le = λ a b. true }

abbrev draw : Bool → Text → Draw
draw free id = record { free = free; uuid = id; now = codes "t" }

abbrev ops : List Op
ops =
    submit job (draw true (codes "u1"))
    ∷ submit job (draw false (codes "u2"))
    ∷ submit job (draw true (codes "u3"))
    ∷ settle (codes "u1") completed none (draw true (codes "u4"))
    ∷ []

abbrev options : Options
options = record { max_pending_tasks = some 2; resume_policy = none }

abbrev broken : Handler
broken t = err missing

abbrev draws : ℕ → Draw × Draw
draws n = (draw true [], draw true [])

-- a second life gives the task that the first left to a handler that throws, and takes another one
abbrev sessions : List Session
sessions =
    record {
      options = options;
      calls =
          call (submit job (draw true (codes "u1")))
          ∷ call (submit job (draw false (codes "u2")))
          ∷ call (submit job (draw true (codes "u3")))
          ∷ call (settle (codes "u1") completed none (draw true (codes "u4")))
          ∷ [];
    }
    ∷ record {
      options = options;
      calls =
          resume (some redispatch) (some broken) draws (codes "t")
          ∷ call (submit job (draw true (codes "u5")))
          ∷ [];
    }
    ∷ []

abbrev waiting : PendingTask
waiting = record { task_id = codes "u3"; enqueued_at = codes "t"; task = job }

abbrev left : Service
left = live platform sessions (opened options (empty_wal 1000 false))

abbrev recovered : Service
recovered = record (opened options (empty_wal 1000 false)) {
  pending = waiting ∷ [];
  recovered = codes "u3" ∷ [];
}

run_within_capacity_example :
    length (run platform ops recovered).pending ≤ recovered.max_pending_tasks
unfolding opened
run_within_capacity_example = run_within_capacity platform ops recovered (omega arith)

resume_accounts_example :
    (r : Service.ResumeResult) × (((resume_recovered_pending platform
          (some redispatch)
          (some broken)
          (λ n. (draw true [], draw true []))
          (codes "t")
          recovered).0
        ≡ ok r)
      × ((r.scanned ≡ length (recovered_tasks platform recovered))
          × ((r.redispatched + r.failed_tasks + r.canceled_tasks + r.kept ≡ r.scanned)
              × ((resume_recovered_pending platform
                    (some redispatch)
                    (some broken)
                    (λ n. (draw true [], draw true []))
                    (codes "t")
                    recovered).1.last_resume
                  ≡ some (r, codes "t")))))
unfolding opened
resume_accounts_example =
    resume_accounts platform (some redispatch) (some broken) (λ n. (draw true [], draw true []))
      (codes "t") recovered (λ n. (refl, refl)) refl

-- bytes that are no record
abbrev noise : Bytes
noise = 0 ∷ 0 ∷ 0 ∷ 1 ∷ 7 ∷ 9 ∷ 9 ∷ 9 ∷ 9 ∷ 4 ∷ []

parse_fuel_example : parse_from 11 0 noise ≡ parse_from 50 0 noise
parse_fuel_example = parse_fuel 11 50 0 noise (omega arith) (omega arith)
