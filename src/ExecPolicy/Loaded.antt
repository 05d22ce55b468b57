-- ===== src/ExecPolicy/Loaded.antt =====
-- What passes under a policy that comes from the environment (gateway/exec-policy.ts).
use memphis_v.Base.{
  ◌≤◌, ◌≡◌, sym, ◌∙◌, Text, true, false, ◌&&◌, List, [], ◌∷◌, ok, inl, inr, Bool-cases, arith,
}
use memphis_v.Base.Maps.{get}
use memphis_v.Approval.Identity.{trim}
use memphis_v.ExecPolicy.{
  GatewayExecPolicy, default_rules, is_metachar, any, words, base_name, get_rule, joined_length,
  is_empty, enforce_gateway_exec_policy,
}
use memphis_v.ExecPolicy.Config.{
  RawEnv, to_bool, or_closed, allow_all, allowlist_names, load_gateway_exec_policy, AreDefaults,
  allow_all-AreDefaults, get_rule_lem,
}
use memphis_v.ExecPolicy.Verdict.{AllMatch, passed_restricted}

loaded-AreDefaults :
    (lower : Text → Text) (env : RawEnv) (policy : GatewayExecPolicy)
    → load_gateway_exec_policy lower env ≡ ok policy
    → AreDefaults policy.allowlist
unfolding load_gateway_exec_policy get
loaded-AreDefaults lower env policy h =
    let rules =
      allow_all-AreDefaults (allowlist_names env) [] (λ name rule e. absurd (ground (arith, e))) in
    elim (Bool-cases
      (to_bool lower env.restricted_mode true && is_empty (allow_all (allowlist_names env) []))) [
        | inl e ↦ absurd (ground (arith, e, h))
        | inr e ↦
            let at : allow_all (allowlist_names env) [] ≡ policy.allowlist = ground (arith, e, h) in
            rw (← at) rules
      ]

-- Whatever the environment says, a command that passes in restricted mode has no metacharacter, and
-- its arguments are within the length and match the patterns of the default rule of its base name, or
-- of the rule that lets no argument through where there is none.
pub loaded_restricted :
    (lower : Text → Text) (env : RawEnv) (command : Text) (policy : GatewayExecPolicy)
    → load_gateway_exec_policy lower env ≡ ok policy
    → policy.restricted_mode ≡ true
    → enforce_gateway_exec_policy command policy ≡ ok tt
    → (raw : Text) × (args : List Text) × (any is_metachar (trim (trim command)) ≡ false)
      × (words (trim (trim command)) ≡ raw ∷ args)
      × (joined_length args ≤ (or_closed (get_rule (base_name raw) default_rules)).max_arg_length)
      × AllMatch (or_closed (get_rule (base_name raw) default_rules)) args
loaded_restricted lower env command policy loaded mode passed =
    let (raw, args, rule, clean, split, found, short, matched) =
      passed_restricted command policy mode passed in
    let same : rule ≡ or_closed (get_rule (base_name raw) default_rules) =
      loaded-AreDefaults lower env policy loaded (base_name raw) rule
        (sym (get_rule_lem (base_name raw) policy.allowlist) ∙ found) in
    (raw, args, clean, split, rw (← same) short, rw (← same) matched)
