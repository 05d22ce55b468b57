-- ===== src/Queue/Service/Resume/Accounts.antt =====
-- What `resumeRecoveredPending` reports (infra/storage/task-queue-service.ts).
use memphis_v.Base.{
  ℕ, suc, ◌+◌, ◌≡◌, refl, Bool, true, false, Option, none, some, List, [], ◌∷◌, length,
  Option-cases, Result, ok, err, Text, arith, inl, inr, ap, ◌∙◌,
}
use memphis_v.Queue.Wal
use memphis_v.Queue.Wal.{Wal, WalError, WalRecord}
use memphis_v.Queue.Wal.Append.{enqueue_works}
use memphis_v.Queue.Service.{
  Platform, Service, PendingTask, TaskStatus, ResumePolicy, Draw, Error, Failure, Metadata,
  ResumeResult, finish, logged, note_finished, finish_op, get_pending, policy_fail,
  policy_redispatch, redispatch_error, or_else, keep, fail, redispatch, completed, failed, canceled,
}
use memphis_v.Queue.Service.Resume.{
  Handler, then_rest, resume_task, resume_all, resume_by, resume_found, recovered_tasks,
  resume_recovered_pending, record_last_resume, handled, counted, rescued, after_rescue,
  normalize_resume_status, tally, fresh_result,
}

-- No append of the log throws.
abbrev Works : Service → Type 0
Works s = s.wal.fault_inject ≡ false

abbrev AlwaysFree : (ℕ → Draw × Draw) → Type 0
AlwaysFree draws = (n : ℕ) → ((draws n).0.free ≡ true) × ((draws n).1.free ≡ true)

-- A call that returned, on a service that works after it.
Returns : {E A : Type 0} → Result E A × Service → Type 0
Returns {E} {A} x = (a : A) × ((x.0 ≡ ok a) × Works x.1)

returned :
    (E : Type 0) {A : Type 0} (a : A) (s : Service) → Works s → Returns {E = E} {A = A} (ok a, s)
unfolding Returns
returned E a s works = (a, (refl, works))

logged-Returns :
    {A : Type 0} (a : A) (f : Service → Service) (s : Service) (x : Result WalError WalRecord × Wal)
    (r : WalRecord)
    → ((w : Wal) → (f (record s { wal = w })).wal ≡ w)
    → x.0 ≡ ok r
    → x.1.fault_inject ≡ false
    → Returns (logged a f s x)
unfolding Returns
logged-Returns a f s (y, w) r keeps went quiet =
    rw went (a, (refl, ap (λ v. v.fault_inject) (keeps w) ∙ quiet))

finish-Returns :
    (p : Platform) (id : Text) (status : TaskStatus) (metadata : Option Metadata) (d : Draw)
    (s : Service)
    → d.free ≡ true
    → Works s
    → Returns (finish p id status metadata d s)
unfolding finish
finish-Returns p id status metadata d s free works =
    let here =
      enqueue_works (Platform.json_print p (finish_op id status d.now metadata)) s.wal works in
    elim (Option-cases (get_pending id s.pending)) [
      | inl absent ↦ rw (absent, finish) (returned _ false s works)
      | inr (t, found) ↦
          rw (found, finish)
            (rw free (
              logged-Returns true (note_finished id) s
                (Wal.enqueue true (Platform.json_print p (finish_op id status d.now metadata))
                  s.wal)
                here.0 (λ w. refl) here.1.0 here.1.1))
    ]

-- The tasks that a result accounts for.
abbrev accounted : ResumeResult → ℕ
accounted r = r.redispatched + r.failed_tasks + r.canceled_tasks + r.kept

-- A round that returned has accounted for one task more, on a service that works.
Accounts : ResumeResult → Result Error ResumeResult × Service → Type 0
Accounts r x =
    (r' : ResumeResult) × ((x.0 ≡ ok r')
      × ((accounted r' ≡ suc (accounted r)) × ((r'.scanned ≡ r.scanned) × Works x.1)))

tally_lem :
    (status : TaskStatus) (r : ResumeResult)
    → (accounted (tally status r) ≡ suc (accounted r)) × ((tally status r).scanned ≡ r.scanned)
tally_lem completed r = (omega arith, refl)
tally_lem failed r = (omega arith, refl)
tally_lem canceled r = (omega arith, refl)

finished_task :
    (p : Platform) (t : PendingTask) (d : Draw) (status : TaskStatus) (r : ResumeResult)
    (x : Result Error Bool × Service)
    → Returns x
    → Accounts r (rescued p t d r (counted status r x))
unfolding Returns Accounts
finished_task p t d status r (y, s) (b, (went, works)) =
    rw went (tally status r, (refl, ((tally_lem status r).0, ((tally_lem status r).1, works))))

rescued_task :
    (t : PendingTask) (f : Failure) (r : ResumeResult) (x : Result Error Bool × Service)
    → Returns x
    → Accounts r (after_rescue t f r x)
unfolding Returns Accounts
rescued_task t f r (y, s) (b, (went, works)) = rw went (
  record r { failed_tasks = suc r.failed_tasks; errors = _ },
  (refl, (omega arith, (refl, works))),
)

handled_task :
    (p : Platform) (t : PendingTask) (ds : Draw × Draw) (r : ResumeResult) (s : Service)
    (answer : Result Text (Option TaskStatus))
    → ds.0.free ≡ true
    → ds.1.free ≡ true
    → Works s
    → Accounts r (rescued p t ds.1 r (handled p t ds.0 r answer s))
handled_task p t ds r s (ok status) free free' works =
    finished_task p t ds.1 (normalize_resume_status status) r
      (finish p t.task_id (normalize_resume_status status) (some policy_redispatch) ds.0 s)
      (finish-Returns p t.task_id (normalize_resume_status status) (some policy_redispatch) ds.0 s
        free works)
handled_task p t ds r s (err m) free free' works =
    rescued_task t (Failure.handler_threw m) r
      (finish p t.task_id failed (some (redispatch_error (Failure.handler_threw m))) ds.1 s)
      (finish-Returns p t.task_id failed (some (redispatch_error (Failure.handler_threw m))) ds.1 s
        free' works)

one_task :
    (p : Platform) (policy : ResumePolicy) (handler : Handler) (t : PendingTask) (ds : Draw × Draw)
    (r : ResumeResult) (s : Service)
    → ds.0.free ≡ true
    → ds.1.free ≡ true
    → Works s
    → Accounts r (resume_task p policy handler ds t r s)
one_task p fail handler t ds r s free free' works =
    finished_task p t ds.1 failed r (finish p t.task_id failed (some policy_fail) ds.0 s)
      (finish-Returns p t.task_id failed (some policy_fail) ds.0 s free works)
one_task p keep handler t ds r s free free' works =
    handled_task p t ds r s (handler t) free free' works
one_task p redispatch handler t ds r s free free' works =
    handled_task p t ds r s (handler t) free free' works

-- A result that is returned and accounts for `n` tasks, `m` of them scanned.
Reports : ℕ → ℕ → Result Error ResumeResult × Service → Type 0
Reports n m x = (r : ResumeResult) × ((x.0 ≡ ok r) × ((accounted r ≡ n) × (r.scanned ≡ m)))

next_task :
    (n m : ℕ) (r : ResumeResult)
    (rest : ResumeResult → Service → Result Error ResumeResult × Service)
    (x : Result Error ResumeResult × Service)
    → Accounts r x
    → ((r' : ResumeResult) (s : Service)
        → accounted r' ≡ suc (accounted r)
        → r'.scanned ≡ r.scanned
        → Works s
        → Reports n m (rest r' s))
    → Reports n m (then_rest rest x)
unfolding Accounts
next_task n m r rest (y, s) (r', (went, (one, (same, works)))) k = rw went (k r' s one same works)

all_tasks :
    (p : Platform) (policy : ResumePolicy) (handler : Handler) (draws : ℕ → Draw × Draw)
    → AlwaysFree draws
    → (ts : List PendingTask) (i : ℕ) (r : ResumeResult) (s : Service) (n : ℕ) → Works s
    → accounted r + length ts ≡ n
    → Reports n r.scanned (resume_all p policy handler draws i ts r s)
unfolding resume_all Reports
all_tasks p policy handler draws free [] i r s n works sum = (r, (refl, (omega (arith, sum), refl)))
all_tasks p policy handler draws free (t ∷ ts) i r s n works sum =
    next_task n r.scanned r (resume_all p policy handler draws (suc i) ts)
      (resume_task p policy handler (draws i) t r s)
      (one_task p policy handler t (draws i) r s (free i).0 (free i).1 works)
      (λ r' s' one same works'.
        rw (← same) (
          all_tasks p policy handler draws free ts (suc i) r' s' n works'
            (omega (arith, sum, one))))

by_policy :
    (p : Platform) (policy : ResumePolicy) (handler : Option Handler) (draws : ℕ → Draw × Draw)
    → AlwaysFree draws
    → (ts : List PendingTask) (s : Service) → Works s
    → Reports (length ts) (length ts) (resume_by p policy handler draws ts s)
unfolding Reports
by_policy p keep handler draws free ts s works = (_, (refl, (omega arith, refl)))
by_policy p redispatch none draws free ts s works = (_, (refl, (omega arith, refl)))
by_policy p redispatch (some h) draws free ts s works =
    all_tasks p redispatch h draws free ts 0 (fresh_result redispatch (length ts)) s (length ts)
      works (omega arith)
by_policy p fail handler draws free ts s works =
    all_tasks p fail (or_else handler (λ t. ok none)) draws free ts 0
      (fresh_result fail (length ts)) s (length ts) works (omega arith)

found_tasks :
    (p : Platform) (policy : ResumePolicy) (handler : Option Handler) (draws : ℕ → Draw × Draw)
    → AlwaysFree draws
    → (ts : List PendingTask) (s : Service) → Works s
    → Reports (length ts) (length ts) (resume_found p policy handler draws ts s)
unfolding Reports
found_tasks p policy handler draws free [] s works = (_, (refl, (omega arith, refl)))
found_tasks p policy handler draws free (t ∷ ts) s works =
    by_policy p policy handler draws free (t ∷ ts) s works

recorded :
    (n : ℕ) (now : Text) (x : Result Error ResumeResult × Service)
    → Reports n n x
    → (r : ResumeResult) × (((record_last_resume now x).0 ≡ ok r)
        × ((r.scanned ≡ n)
            × ((accounted r ≡ r.scanned)
                × ((record_last_resume now x).1.last_resume ≡ some (r, now)))))
unfolding Reports
recorded n now (y, s) (r, (went, (sum, same))) =
    rw went (r, (refl, (same, (omega (arith, sum, same), refl))))

-- With the lock of the log always got and no fault injected, `resumeRecoveredPending` returns, under
-- each policy and with each handler: it has scanned the recovered pending tasks, the redispatched,
-- failed, canceled and kept ones add up to them, and the result is recorded as the last resume.
pub resume_accounts :
    (p : Platform) (policy : Option ResumePolicy) (handler : Option Handler)
    (draws : ℕ → Draw × Draw) (now : Text) (s : Service)
    → ((n : ℕ) → ((draws n).0.free ≡ true) × ((draws n).1.free ≡ true))
    → s.wal.fault_inject ≡ false
    → (r : ResumeResult) × (((resume_recovered_pending p policy handler draws now s).0 ≡ ok r)
        × ((r.scanned ≡ length (recovered_tasks p s))
            × ((r.redispatched + r.failed_tasks + r.canceled_tasks + r.kept ≡ r.scanned)
                × ((resume_recovered_pending p policy handler draws now s).1.last_resume
                    ≡ some (r, now)))))
unfolding resume_recovered_pending
resume_accounts p policy handler draws now s free works =
    recorded (length (recovered_tasks p s)) now
      (resume_found p (or_else policy s.default_resume_policy) handler draws (recovered_tasks p s)
        s)
      (found_tasks p (or_else policy s.default_resume_policy) handler draws free
        (recovered_tasks p s) s works)
