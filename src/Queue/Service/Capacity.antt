-- ===== src/Queue/Service/Capacity.antt =====
-- The limit on pending tasks of `TaskQueueService` (infra/storage/task-queue-service.ts).
use memphis_v.Base.{
  ℕ, suc, ◌≤◌, ◌≡◌, inl, inr, refl, Bool, true, not, List, [], ◌∷◌, length, select, leb, leb-false,
  Bool-cases, Option-cases, Result, ok, err, text_eq, arith,
}
use memphis_v.Queue.Wal
use memphis_v.Queue.Wal.{Wal, WalError, WalRecord}
use memphis_v.Queue.Service.{
  Platform, enqueue_op, finish_op, Service, PendingTask, enqueue, finish, set_pending, get_pending,
  logged, note_enqueued, note_finished,
}
use memphis_v.Queue.Service.Restart.{Op, submit, settle, perform, run}

length-set_pending :
    (t : PendingTask) (qs : List PendingTask) → length (set_pending t qs) ≤ suc (length qs)
unfolding set_pending
length-set_pending t [] = omega arith
length-set_pending t (q ∷ qs) = ground (arith, length-set_pending t qs)

length-select : {A : Type 0} (p : A → Bool) (xs : List A) → length (select p xs) ≤ length xs
length-select p [] = omega arith
length-select p (x ∷ xs) = ground (arith, length-select p xs)

-- within the limit, with the limit that was set
Fits : ℕ → Service → Type 0
Fits limit s = (s.max_pending_tasks ≡ limit) × (length s.pending ≤ limit)

logged-Fits :
    {A : Type 0} (a : A) (f : Service → Service) (limit : ℕ) (s : Service)
    (x : Result WalError WalRecord × Wal)
    → ((w : Wal) → Fits limit (f (record s { wal = w })))
    → Fits limit s
    → Fits limit (logged a f s x).1
unfolding Fits
logged-Fits a f limit s (ok r, w) does fits = does w
logged-Fits a f limit s (err e, w) does fits = fits

perform-Fits :
    (p : Platform) (op : Op) (limit : ℕ) (s : Service) → Fits limit s → Fits limit (perform p op s)
unfolding Fits perform enqueue finish
perform-Fits p (submit task d) limit s fits =
    elim (Bool-cases (leb s.max_pending_tasks (length s.pending))) [
      | inl full ↦ rw (full, perform, enqueue) fits
      | inr room ↦
          rw (room, perform, enqueue)
            (logged-Fits (d.uuid, d.now) (note_enqueued task d) limit s
              (Wal.enqueue d.free (Platform.json_print p (enqueue_op d.uuid d.now task)) s.wal)
              (λ w. (
                fits.0,
                omega (
                  arith,
                  fits,
                  leb-false s.max_pending_tasks (length s.pending) room,
                  length-set_pending (record { task_id = d.uuid; enqueued_at = d.now; task = task })
                      s.pending,
                ),
              ))
              fits)
    ]
perform-Fits p (settle id status metadata d) limit s fits =
    elim (Option-cases (get_pending id s.pending)) [
      | inl absent ↦ rw (absent, perform, finish) fits
      | inr (t, found) ↦
          rw (found, perform, finish)
            (logged-Fits true (note_finished id) limit s
              (Wal.enqueue d.free (Platform.json_print p (finish_op id status d.now metadata))
                s.wal)
              (λ w. (
                fits.0,
                omega (arith, fits, length-select (λ q. not (text_eq q.task_id id)) s.pending),
              ))
              fits)
    ]

-- From a service with no more pending tasks than its limit, calls of `enqueue` and `finish` never
-- bring it above the limit.
pub run_within_capacity :
    (p : Platform) (ops : List Op) (s : Service)
    → length s.pending ≤ s.max_pending_tasks
    → length (run p ops s).pending ≤ s.max_pending_tasks
unfolding run Fits
run_within_capacity p [] s fits = fits
run_within_capacity p (op ∷ ops) s fits =
    let next = perform-Fits p op s.max_pending_tasks s (refl, fits) in
    omega (arith, next, run_within_capacity p ops (perform p op s) (omega (arith, next)))
