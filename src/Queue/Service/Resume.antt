-- ===== src/Queue/Service/Resume.antt =====
-- `listPending` and `resumeRecoveredPending` of `TaskQueueService` (infra/storage/task-queue-
-- service.ts).
pub mod Accounts
pub mod Logged
use memphis_v.Base.{
  ℕ, zero, suc, ◌+◌, ◌≡◌, refl, Bool, true, false, Option, none, some, List, [], ◌∷◌, ◌++◌, length,
  select, if◌then◌else◌, Result, ok, err, Text, text_eq,
}
use memphis_v.Queue.Service.{
  Platform, Service, PendingTask, TaskStatus, completed, failed, canceled, ResumePolicy, keep, fail,
  redispatch, Draw, M, Error, Failure, handler_threw, call_threw, Metadata, policy_fail,
  policy_redispatch, redispatch_error, ResumeResult, ResumeError, no_handler, task_error, finish,
  has_id, delete_id, or_else,
}

-- the comparison that `listPending` sorts by
abbrev comes_first : Platform → PendingTask → PendingTask → Bool
comes_first p a b =
    if text_eq a.enqueued_at b.enqueued_at
    then Platform.locale_le p a.task_id b.task_id
    else Platform.locale_le p a.enqueued_at b.enqueued_at

unfoldable pub insert : Platform → PendingTask → List PendingTask → List PendingTask
insert p t [] = t ∷ []
insert p t (q ∷ qs) = let rest = insert p t qs in if comes_first p t q then t ∷ q ∷ qs else q ∷ rest

unfoldable pub sort_pending : Platform → List PendingTask → List PendingTask
sort_pending p [] = []
sort_pending p (t ∷ ts) = insert p t (sort_pending p ts)

abbrev pub list_pending : Platform → Service → List PendingTask
list_pending p s = sort_pending p s.pending

-- What a redispatch handler comes to on a task; it may return nothing.
abbrev pub Handler : Type 0
Handler = PendingTask → Result Text (Option TaskStatus)

abbrev pub normalize_resume_status : Option TaskStatus → TaskStatus
normalize_resume_status (some status) = status
normalize_resume_status none = completed

abbrev pub tally : TaskStatus → ResumeResult → ResumeResult
tally completed r = record r { redispatched = suc r.redispatched }
tally canceled r = record r { canceled_tasks = suc r.canceled_tasks }
tally failed r = record r { failed_tasks = suc r.failed_tasks }

-- the end of the `try` block, after `finish`
abbrev pub counted :
    TaskStatus → ResumeResult → Result Error Bool × Service → Result Failure ResumeResult × Service
counted status r (ok _, s) = (ok (tally status r), s)
counted status r (err e, s) = (err (call_threw e), s)

abbrev pub handled :
    Platform
    → PendingTask
    → Draw
    → ResumeResult
    → Result Text (Option TaskStatus)
    → Service
    → Result Failure ResumeResult × Service
handled p t d r (err message) s = (err (handler_threw message), s)
handled p t d r (ok status) s =
    counted (normalize_resume_status status) r
      (finish p t.task_id (normalize_resume_status status) (some policy_redispatch) d s)

-- the `try` block of the loop; without a handler the status is undefined
abbrev pub try_task :
    Platform
    → ResumePolicy
    → Handler
    → PendingTask
    → Draw
    → ResumeResult
    → Service
    → Result Failure ResumeResult × Service
try_task p fail handler t d r s =
    counted failed r (finish p t.task_id failed (some policy_fail) d s)
try_task p _ handler t d r s = handled p t d r (handler t) s

-- the `finally` block
abbrev pub forget : Text → Service → Service
forget id s = record s { recovered = delete_id id s.recovered }

abbrev pub after_rescue :
    PendingTask
    → Failure
    → ResumeResult
    → Result Error Bool × Service
    → Result Error ResumeResult × Service
after_rescue t f r (ok _, s) = (
  ok (record r {
    failed_tasks = suc r.failed_tasks;
    errors = r.errors ++ task_error t.task_id f ∷ [];
  }),
  forget t.task_id s,
)
after_rescue t f r (err e, s) = (err e, forget t.task_id s)

-- the `catch` block, and what follows a `try` block that did not throw
abbrev pub rescued :
    Platform
    → PendingTask
    → Draw
    → ResumeResult
    → Result Failure ResumeResult × Service
    → Result Error ResumeResult × Service
rescued p t d r (ok r', s) = (ok r', forget t.task_id s)
rescued p t d r (err f, s) =
    after_rescue t f r (finish p t.task_id failed (some (redispatch_error f)) d s)

-- One round of the loop; its two draws are for the `try` block and the `catch` block.
abbrev pub resume_task :
    Platform → ResumePolicy → Handler → Draw × Draw → PendingTask → ResumeResult → M ResumeResult
resume_task p policy handler ds t r s = rescued p t ds.1 r (try_task p policy handler t ds.0 r s)

abbrev pub then_rest :
    (ResumeResult → M ResumeResult)
    → Result Error ResumeResult × Service
    → Result Error ResumeResult × Service
then_rest rest (ok r, s) = rest r s
then_rest rest (err e, s) = (err e, s)

unfoldable pub resume_all :
    Platform
    → ResumePolicy
    → Handler
    → (ℕ → Draw × Draw)
    → ℕ
    → List PendingTask
    → ResumeResult
    → M ResumeResult
resume_all p policy handler draws n [] r s = (ok r, s)
resume_all p policy handler draws n (t ∷ ts) r s =
    then_rest (resume_all p policy handler draws (suc n) ts)
      (resume_task p policy handler (draws n) t r s)

abbrev pub record_last_resume :
    Text → Result Error ResumeResult × Service → Result Error ResumeResult × Service
record_last_resume now (ok r, s) = (ok r, record s { last_resume = some (r, now) })
record_last_resume now (err e, s) = (err e, s)

abbrev pub fresh_result : ResumePolicy → ℕ → ResumeResult
fresh_result policy n = record {
  policy = policy;
  scanned = n;
  redispatched = 0;
  failed_tasks = 0;
  canceled_tasks = 0;
  kept = 0;
  errors = [];
}

abbrev pub resume_by :
    Platform → ResumePolicy → Option Handler → (ℕ → Draw × Draw) → List PendingTask → M ResumeResult
resume_by p keep handler draws ts s =
    (ok (record (fresh_result keep (length ts)) { kept = length ts }), record s { recovered = [] })
resume_by p redispatch none draws ts s = (
  ok (record (fresh_result redispatch (length ts)) { kept = length ts; errors = no_handler ∷ [] }),
  record s { recovered = [] },
)
resume_by p redispatch (some handler) draws ts s =
    resume_all p redispatch handler draws 0 ts (fresh_result redispatch (length ts)) s
resume_by p fail handler draws ts s =
    resume_all p fail (or_else handler (λ t. ok none)) draws 0 ts (fresh_result fail (length ts)) s

abbrev pub resume_found :
    Platform → ResumePolicy → Option Handler → (ℕ → Draw × Draw) → List PendingTask → M ResumeResult
resume_found p policy handler draws [] s = (ok (fresh_result policy 0), s)
resume_found p policy handler draws (t ∷ ts) s = resume_by p policy handler draws (t ∷ ts) s

abbrev pub recovered_tasks : Platform → Service → List PendingTask
recovered_tasks p s = select (λ t. has_id t.task_id s.recovered) (list_pending p s)

unfoldable pub resume_recovered_pending :
    Platform → Option ResumePolicy → Option Handler → (ℕ → Draw × Draw) → Text → M ResumeResult
resume_recovered_pending p policy handler draws now s =
    record_last_resume now (
      resume_found p (or_else policy s.default_resume_policy) handler draws (recovered_tasks p s) s)
