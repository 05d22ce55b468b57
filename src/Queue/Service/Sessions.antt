-- ===== src/Queue/Service/Sessions.antt =====
-- A task queue over several lives of its process (infra/storage/task-queue-service.ts).
use memphis_v.Base.{ℕ, true, Option, List, [], ◌∷◌, ok, err, Text}
use memphis_v.Queue.Wal.{Wal}
use memphis_v.Queue.Service.{Platform, Service, Options, ResumePolicy, Draw, start}
use memphis_v.Queue.Service.Json.{IsJson}
use memphis_v.Queue.Service.Resume.{Handler, recovered_tasks, resume_recovered_pending}
use memphis_v.Queue.Service.Resume.Logged.{TasksReadable, handler_of}
use memphis_v.Queue.Service.Restart.{Op, perform, envelope_of}

-- A call of the service: `enqueue` and `finish`, or `resumeRecoveredPending` with what it draws.
pub data Action : Type 0 where
  call : Op → Action
  resume : Option ResumePolicy → Option Handler → (ℕ → Draw × Draw) → Text → Action

-- A life of the process: the options that it constructs the service with, and its calls.
pub record Session : Type 0 where
  pub options : Options
  pub calls : List Action

abbrev pub act : Platform → Action → Service → Service
act p (call op) s = perform p op s
act p (resume policy handler draws now) s =
    (resume_recovered_pending p policy handler draws now s).1

unfoldable pub act_all : Platform → List Action → Service → Service
act_all p [] s = s
act_all p (a ∷ calls) s = act_all p calls (act p a s)

-- The service that is constructed on the log of another.
abbrev pub reopened : Platform → Options → Service → Service
reopened p o s = elim (start p o true s.wal) [ ok t ↦ t | err e ↦ s ]

unfoldable pub live : Platform → List Session → Service → Service
live p [] s = s
live p (x ∷ xs) s = live p xs (act_all p x.calls (reopened p x.options s))

-- The envelopes that the calls can write are read back as they were printed.
abbrev pub ActionReadable : Platform → Action → Service → Type 0
ActionReadable p (call op) s = IsJson p (envelope_of op)
ActionReadable p (resume policy handler draws now) s =
    TasksReadable p (handler_of handler) draws 0 (recovered_tasks p s)

abbrev pub ActionsReadable : Platform → List Action → Service → Type 0
ActionsReadable p [] s = Unit {0}
ActionsReadable p (a ∷ calls) s = ActionReadable p a s × ActionsReadable p calls (act p a s)

abbrev pub AllReadable : Platform → List Session → Service → Type 0
AllReadable p [] s = Unit {0}
AllReadable p (x ∷ xs) s =
    ActionsReadable p x.calls (reopened p x.options s)
    × AllReadable p xs (act_all p x.calls (reopened p x.options s))
