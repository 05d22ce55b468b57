-- ===== src/Queue/Service/Resume/Logged.antt =====
-- What `resumeRecoveredPending` writes to the log (infra/storage/task-queue-service.ts).
use memphis_v.Base.{
  ℕ, suc, ◌≡◌, refl, Bool, true, Option, none, some, List, [], ◌∷◌, length, Option-cases, Result,
  ok, err, Text, inl, inr, arith,
}
use memphis_v.Queue.Wal.{Wal, WalError, WalRecord}
use memphis_v.Queue.Service.{
  Platform, Service, PendingTask, TaskStatus, ResumePolicy, Draw, Error, Failure, Metadata,
  ResumeResult, finish, logged, note_finished, finish_op, get_pending, policy_fail, wal_failed,
  handler_threw, call_threw, policy_redispatch, redispatch_error, or_else, keep, fail, redispatch,
  failed,
}
use memphis_v.Queue.Service.Json.{IsJson}
use memphis_v.Queue.Service.Restart.{Synced, Follows, perform, settle, perform-Follows}
use memphis_v.Queue.Service.Resume.{
  Handler, then_rest, resume_task, resume_all, resume_by, resume_found, recovered_tasks,
  resume_recovered_pending, record_last_resume, handled, counted, rescued, after_rescue,
  normalize_resume_status, fresh_result,
}

logged_throws :
    {A : Type 0} (a : A) (f : Service → Service) (s : Service) (x : Result WalError WalRecord × Wal)
    (e : Error)
    → (logged a f s x).0 ≡ err e
    → (w : WalError) × (e ≡ wal_failed w)
logged_throws a f s (ok r, w) e h = absurd (cc)
logged_throws a f s (err e', w) e h = (e', cc)

-- `finish` throws only what the log throws.
finish_throws :
    (p : Platform) (id : Text) (status : TaskStatus) (metadata : Option Metadata) (d : Draw)
    (s : Service) (e : Error)
    → (finish p id status metadata d s).0 ≡ err e
    → (w : WalError) × (e ≡ wal_failed w)
unfolding finish
finish_throws p id status metadata d s e h = elim (Option-cases (get_pending id s.pending)) [
  | inl absent ↦ absurd (ground (arith, absent, h))
  | inr (t, found) ↦ logged_throws true (note_finished id) s _ e (rw (found, finish) at (h))
]

-- A handler that is not given answers nothing.
abbrev pub handler_of : Option Handler → Handler
handler_of handler = or_else handler (λ t. ok none)

module _ (p : Platform) where
  -- The envelopes that a round can write on a task are read back as they were printed: that of the
  -- policy, that of the handler's answer, and those of what was thrown.
  pub record TaskReadable (handler : Handler) (ds : Draw × Draw) (t : PendingTask) : Type 0 where
    pub failing : IsJson p (finish_op t.task_id failed ds.0.now (some policy_fail))
    pub answered :
        (status : Option TaskStatus)
        → handler t ≡ ok status
        → IsJson p
            (finish_op t.task_id (normalize_resume_status status) ds.0.now (some policy_redispatch))
    pub threw :
        (m : Text)
        → handler t ≡ err m
        → IsJson p (finish_op t.task_id failed ds.1.now (some (redispatch_error (handler_threw m))))
    pub refused :
        (w : WalError)
        → IsJson p (
            finish_op t.task_id failed ds.1.now
              (some (redispatch_error (call_threw (wal_failed w)))))

  abbrev pub TasksReadable : Handler → (ℕ → Draw × Draw) → ℕ → List PendingTask → Type 0
  TasksReadable handler draws n [] = Unit {0}
  TasksReadable handler draws n (t ∷ ts) =
      TaskReadable handler (draws n) t × TasksReadable handler draws (suc n) ts

  finish-Follows :
      (id : Text) (status : TaskStatus) (metadata : Option Metadata) (d : Draw) (s : Service)
      → IsJson p (finish_op id status d.now metadata)
      → Follows p s
      → Follows p (finish p id status metadata d s).1
  unfolding perform
  finish-Follows id status metadata d s = perform-Follows p (settle id status metadata d) s

  after_rescue-Follows :
      (t : PendingTask) (f : Failure) (r : ResumeResult) (x : Result Error Bool × Service)
      → Follows p x.1
      → Follows p (after_rescue t f r x).1
  unfolding Synced
  after_rescue-Follows t f r (ok b, s) follows = follows
  after_rescue-Follows t f r (err e, s) follows = follows

  rescued-Follows :
      (t : PendingTask) (d : Draw) (r : ResumeResult) (x : Result Failure ResumeResult × Service)
      → Follows p x.1
      → ((f : Failure)
          → x.0 ≡ err f
          → IsJson p (finish_op t.task_id failed d.now (some (redispatch_error f))))
      → Follows p (rescued p t d r x).1
  unfolding Synced
  rescued-Follows t d r (ok r', s) follows json = follows
  rescued-Follows t d r (err f, s) follows json =
      after_rescue-Follows t f r (finish p t.task_id failed (some (redispatch_error f)) d s)
        (finish-Follows t.task_id failed (some (redispatch_error f)) d s (json f refl) follows)

  counted-Follows :
      (status : TaskStatus) (r : ResumeResult) (x : Result Error Bool × Service)
      → Follows p x.1
      → Follows p (counted status r x).1
  counted-Follows status r (ok b, s) follows = follows
  counted-Follows status r (err e, s) follows = follows

  counted_throws :
      (status : TaskStatus) (r : ResumeResult) (x : Result Error Bool × Service) (f : Failure)
      → ((e : Error) → x.0 ≡ err e → (w : WalError) × (e ≡ wal_failed w))
      → (counted status r x).0 ≡ err f
      → (w : WalError) × (f ≡ call_threw (wal_failed w))
  counted_throws status r (ok b, s) f throws h = absurd (cc)
  counted_throws status r (err e, s) f throws h = let (w, is) = throws e refl in (w, cc)

  module _ (handler : Handler) (t : PendingTask) (ds : Draw × Draw) (r : ResumeResult) (s : Service)
      (json : TaskReadable handler ds t) (follows : Follows p s) where
    -- a round that finishes the task, and catches what that throws
    settled-Follows :
        (status : TaskStatus) (metadata : Metadata)
        → IsJson p (finish_op t.task_id status ds.0.now (some metadata))
        → Follows p
            (rescued p t ds.1 r
              (counted status r (finish p t.task_id status (some metadata) ds.0 s))).1
    settled-Follows status metadata printed =
        let x = finish p t.task_id status (some metadata) ds.0 s in
        rescued-Follows t ds.1 r (counted status r x)
          (counted-Follows status r x
            (finish-Follows t.task_id status (some metadata) ds.0 s printed follows))
          (λ f thrown.
            let (w, is) =
              counted_throws status r x f (finish_throws p t.task_id status (some metadata) ds.0 s)
                thrown in
            rw is (json.refused w))

    handled-Follows :
        (answer : Result Text (Option TaskStatus))
        → handler t ≡ answer
        → Follows p (rescued p t ds.1 r (handled p t ds.0 r answer s)).1
    handled-Follows (ok status) is =
        settled-Follows (normalize_resume_status status) policy_redispatch (json.answered status is)
    handled-Follows (err m) is =
        rescued-Follows t ds.1 r (err (handler_threw m), s) follows
          (λ f thrown. let same : f ≡ handler_threw m = cc in rw same (json.threw m is))

    resume_task-Follows :
        (policy : ResumePolicy) → Follows p (resume_task p policy handler ds t r s).1
    resume_task-Follows fail = settled-Follows failed policy_fail json.failing
    resume_task-Follows keep = handled-Follows (handler t) refl
    resume_task-Follows redispatch = handled-Follows (handler t) refl

  then_rest-Follows :
      (rest : ResumeResult → Service → Result Error ResumeResult × Service)
      (x : Result Error ResumeResult × Service)
      → Follows p x.1
      → ((r : ResumeResult) (s : Service) → Follows p s → Follows p (rest r s).1)
      → Follows p (then_rest rest x).1
  then_rest-Follows rest (ok r, s) follows next = next r s follows
  then_rest-Follows rest (err e, s) follows next = follows

  resume_all-Follows :
      (policy : ResumePolicy) (handler : Handler) (draws : ℕ → Draw × Draw) (n : ℕ)
      (ts : List PendingTask) (r : ResumeResult) (s : Service)
      → TasksReadable handler draws n ts
      → Follows p s
      → Follows p (resume_all p policy handler draws n ts r s).1
  unfolding resume_all
  resume_all-Follows policy handler draws n [] r s json follows = follows
  resume_all-Follows policy handler draws n (t ∷ ts) r s json follows =
      then_rest-Follows (resume_all p policy handler draws (suc n) ts)
        (resume_task p policy handler (draws n) t r s)
        (resume_task-Follows handler t (draws n) r s json.0 follows policy)
        (λ r' s'. resume_all-Follows policy handler draws (suc n) ts r' s' json.1)

  resume_by-Follows :
      (policy : ResumePolicy) (handler : Option Handler) (draws : ℕ → Draw × Draw)
      (ts : List PendingTask) (s : Service)
      → TasksReadable (handler_of handler) draws 0 ts
      → Follows p s
      → Follows p (resume_by p policy handler draws ts s).1
  unfolding Synced
  resume_by-Follows keep handler draws ts s json follows = follows
  resume_by-Follows redispatch none draws ts s json follows = follows
  resume_by-Follows redispatch (some handler) draws ts s json follows =
      resume_all-Follows redispatch handler draws 0 ts (fresh_result redispatch (length ts)) s json
        follows
  resume_by-Follows fail handler draws ts s json follows =
      resume_all-Follows fail (handler_of handler) draws 0 ts (fresh_result fail (length ts)) s json
        follows

  resume_found-Follows :
      (policy : ResumePolicy) (handler : Option Handler) (draws : ℕ → Draw × Draw)
      (ts : List PendingTask) (s : Service)
      → TasksReadable (handler_of handler) draws 0 ts
      → Follows p s
      → Follows p (resume_found p policy handler draws ts s).1
  resume_found-Follows policy handler draws [] s json follows = follows
  resume_found-Follows policy handler draws (t ∷ ts) s json follows =
      resume_by-Follows policy handler draws (t ∷ ts) s json follows

  recorded-Follows :
      (now : Text) (x : Result Error ResumeResult × Service)
      → Follows p x.1
      → Follows p (record_last_resume now x).1
  unfolding Synced
  recorded-Follows now (ok r, s) follows = follows
  recorded-Follows now (err e, s) follows = follows

  -- What the log holds after `resumeRecoveredPending` is what the service shows.
  pub resume_recovered_pending-Follows :
      (policy : Option ResumePolicy) (handler : Option Handler) (draws : ℕ → Draw × Draw)
      (now : Text) (s : Service)
      → TasksReadable (handler_of handler) draws 0 (recovered_tasks p s)
      → Follows p s
      → Follows p (resume_recovered_pending p policy handler draws now s).1
  unfolding resume_recovered_pending
  resume_recovered_pending-Follows policy handler draws now s json follows =
      recorded-Follows now
        (resume_found p (or_else policy s.default_resume_policy) handler draws (recovered_tasks p s)
          s)
        (resume_found-Follows (or_else policy s.default_resume_policy) handler draws
          (recovered_tasks p s) s json follows)
