-- ===== src/Loop/Executor/Replay.antt =====
-- A run id that has a result on the chain is not run again (modules/orchestration/task-executor.ts).
use memphis_v.Base.{
  ◌+◌, Text, codes, text_eq_refl, ◌≡◌, ◌≢◌, refl, Bool, true, false, none, some, [], ◌++◌, take,
  arith, ◌⊎◌, inl, inr, Result, ok, Option-cases, ◌∙◌,
}
use memphis_v.Loop.{tool_call, complete, default_limits, default_state, apply_fallback_loop_step}
use memphis_v.Loop.Executor.{
  Deps, State, Block, Envelope, Correlation, GenerateResult, Request, tool_result, task_event,
  find_cached, tool_call_of, dedupes, provider_tool, with_call, base_correlation, attempt, obtain,
  rescue, guarded, run_task, execute, emit, or_else, created, tool_called, completed, provider_call,
}
use memphis_v.Loop.Executor.Cached.{
  DepsLaws, after_call, first_step, second_step, first-Agrees, second-Agrees, cached, emit_lem,
  step_lem, run_cached,
}

module _ (d : Deps) (laws : DepsLaws d) where
  open d use {Chain, append, blocks, engine, fresh, clock, skip_chain}

  module _ (on_chain : skip_chain ≡ false)
      (writes : (b : Block) (c : Chain) → (c' : Chain) × (append b c ≡ some c')) where
    -- A result that is logged is the one that a replay finds.
    emit_result :
        (run : Text) (c : Correlation) (r : GenerateResult) (s : State d)
        → c.run_id ≡ run
        → r.id ≢ []
        → (s' : State d) × (emit d (with_call d c (tool_call_of run)) (tool_result r) s
            ≡ (ok tt, s'))
          × (cached d laws run s' ≡ some r)
          × (s'.loop_state ≡ s.loop_state)
          × (s'.provider_calls ≡ s.provider_calls)
    unfolding emit find_cached
    emit_result run c r s same named =
        let s' = (emit d (with_call d c (tool_call_of run)) (tool_result r) s).1 in
        let e : Envelope = record {
          event_id = fresh s.draws;
          timestamp = clock s.draws;
          correlation = with_call d c (tool_call_of run);
          payload = tool_result r;
        } in
        let (c', added) = writes (task_event e) s.chain in
        (
          s',
          ground arith,
          ground (
            arith,
            on_chain,
            added,
            laws.appended (task_event e) s.chain c' added,
            text_eq_refl run,
            text_eq_refl (tool_call_of run),
          ),
          ground arith,
          ground arith,
        )

    attempt_fresh :
        (c : Correlation) (run source : Text) (dedupe : Bool) (r : GenerateResult) (s : State d)
        → c.run_id ≡ run
        → r.id ≢ []
        → s.loop_state ≡ after_call
        → (s' : State d) × (guarded d c (tool_call_of run) source dedupe (ok r) none s ≡ (ok r, s'))
          × (cached d laws run s' ≡ some r)
          × (s'.provider_calls ≡ s.provider_calls + 1)
    unfolding guarded attempt obtain rescue provider_call
    attempt_fresh c run source dedupe r s same named fresh_loop =
        let s0 : State d = record s { provider_calls = s.provider_calls + 1 } in
        let (s1, e1, k1, l1, p1) = emit_result run c r s0 same named in
        let (s2, e2, l2, c2, p2) =
          step_lem d laws (complete (take 120 r.output)) s1
            (second-Agrees _ s1.loop_state (l1 ∙ fresh_loop)) in
        let (s3, e3, k3, l3, p3) =
          emit_lem d laws run c (completed source r.provider_used r.model_used dedupe) s2 refl in
        let done = second_step (take 120 r.output) s1.loop_state (ground (arith, l1, fresh_loop)) in
        (
          s3,
          ground (arith, e1, e2, e3, done),
          ground (arith, k1, k3, c2),
          ground (arith, p1, p2, p3),
        )

    run_fresh :
        (req : Request) (task run : Text) (r : GenerateResult) (s : State d)
        → dedupes req ≡ true
        → r.id ≢ []
        → cached d laws run s ≡ none
        → (s' : State d) × (run_task d req task run (ok r) s ≡ (ok r, s'))
          × (cached d laws run s' ≡ some r)
          × (s'.provider_calls ≡ s.provider_calls + 1)
    unfolding run_task
    run_fresh req task run r s on named unknown =
        let c = base_correlation d req task run in
        let source = or_else req.source (codes "orchestration.generate") in
        let s0 : State d = record s { loop_state = default_state } in
        let (s1, e1, k1, l1, p1) =
          emit_lem d laws run c (created source req.input_digest true) s0 refl in
        let (s2, e2, l2, c2, p2) =
          step_lem d laws (tool_call provider_tool) s1 (first-Agrees _ s1.loop_state l1) in
        let (s3, e3, k3, l3, p3) =
          emit_lem d laws run (with_call d c (tool_call_of run)) (tool_called req.input_digest) s2
            refl in
        let (s4, e4, k4, p4) =
          attempt_fresh c run source true r s3 refl named
            (ground (arith, first_step provider_tool, l1, l2, l3)) in
        let applied : (apply_fallback_loop_step s1.loop_state (tool_call provider_tool)
              default_limits).applied
            ≡ true =
          ground (arith, first_step provider_tool, l1) in
        let found3 : cached d laws run s3 ≡ none = ground (arith, k1, c2, k3, unknown) in
        (
          s4,
          rw on (rw e1 (rw e2 (rw applied (rw e3 (rw found3 e4))))),
          k4,
          ground (arith, p1, p2, p3, p4),
        )

    opening :
        (req : Request) (run : Text) (provider : Result Text GenerateResult) (s : State d)
        → req.run_id ≡ some run
        → (task : Text) × (s0 : State d) × (execute d req provider s
            ≡ run_task d req task run provider s0)
          × (s0.chain ≡ s.chain)
          × (s0.provider_calls ≡ s.provider_calls)
    unfolding execute
    opening req run provider s named = elim (Option-cases req.task_id) [
      | inl drawn ↦ (
        codes "task_" ++ fresh s.draws,
        record s { draws = s.draws + 1 },
        rw (drawn, named),
        refl,
        refl,
      )
      | inr (task, given) ↦ (task, s, rw (given, named), refl, refl)
    ]

    -- A run with an id is made once. On a chain that takes its blocks, a first `execute` with replay
    -- on, whose provider answers with an id that is not empty, returns a result: the one that the
    -- chain has for the run already, or the provider's after one call. Any later `execute` of the
    -- run, directly after it and with replay on, returns the same result and calls no provider,
    -- whatever the provider would do.
    pub replay_once :
        (req again : Request) (run : Text) (r : GenerateResult) (later : Result Text GenerateResult)
        (s : State d)
        → req.run_id ≡ some run
        → again.run_id ≡ some run
        → dedupes req ≡ true
        → dedupes again ≡ true
        → r.id ≢ []
        → (kept : GenerateResult) × (s' s'' : State d) × (execute d req (ok r) s ≡ (ok kept, s'))
          × (execute d again later s' ≡ (ok kept, s''))
          × (((cached d laws run s ≡ some kept) × (s'.provider_calls ≡ s.provider_calls))
              ⊎ ((kept ≡ r) × (s'.provider_calls ≡ s.provider_calls + 1)))
          × (s''.provider_calls ≡ s'.provider_calls)
    replay_once req again run r later s named named' on on' valid =
        let (task, s0, e0, c0, p0) = opening req run (ok r) s named in
        elim (Option-cases (cached d laws run s)) [
          | inl unknown ↦
              let (s1, e1, k1, p1) =
                run_fresh req task run r s0 on valid (ground (arith, c0, unknown)) in
              let (task', s2, e2, c2, p2) = opening again run later s1 named' in
              let (s3, e3, k3, p3) =
                run_cached d laws again task' run later r s2 on' (ground (arith, c2, k1)) in
              (
                r,
                s1,
                s3,
                e0 ∙ e1,
                e2 ∙ e3,
                inr (refl, ground (arith, p0, p1)),
                ground (arith, p2, p3),
              )
          | inr (q, known) ↦
              let (s1, e1, k1, p1) =
                run_cached d laws req task run (ok r) q s0 on (ground (arith, c0, known)) in
              let (task', s2, e2, c2, p2) = opening again run later s1 named' in
              let (s3, e3, k3, p3) =
                run_cached d laws again task' run later q s2 on' (ground (arith, c2, k1)) in
              (
                q,
                s1,
                s3,
                e0 ∙ e1,
                e2 ∙ e3,
                inl (known, ground (arith, p0, p1)),
                ground (arith, p2, p3),
              )
        ]
