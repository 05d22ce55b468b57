-- ===== src/ExecPolicy/Verdict.antt =====
-- What the policy lets through (gateway/exec-policy.ts).
use memphis_v.Base.{
  ◌≤◌, ◌≡◌, refl, Text, true, false, not, ◌&&◌, Option, none, some, List, [], ◌∷◌, ◌++◌, ltb,
  ltb-false, ok, Bool-cases, inl, inr, arith,
}
use memphis_v.Approval.Identity.{trim}
use memphis_v.ExecPolicy.{
  GatewayExecPolicy, CommandRule, is_metachar, any, some_matches, words, base_name, get_rule,
  joined_length, check_args, check_rule, check_words, is_empty, is_slash,
  enforce_gateway_exec_policy,
}

unfoldable pub AllMatch : CommandRule → List Text → Type 0
AllMatch rule [] = Unit {0}
AllMatch rule (a ∷ args) = (some_matches rule.allowed_args a ≡ true) × AllMatch rule args

check_args-AllMatch :
    (base : Text) (rule : CommandRule) (args : List Text)
    → check_args base rule args ≡ ok tt
    → AllMatch rule args
unfolding check_args AllMatch
check_args-AllMatch base rule [] h = tt
check_args-AllMatch base rule (a ∷ args) h = elim (Bool-cases (some_matches rule.allowed_args a)) [
  | inl good ↦ (good, check_args-AllMatch base rule args (ground (arith, good)))
  | inr bad ↦ absurd (ground (arith, bad))
]

-- What the rule of a command lets through.
Ruled : Text → List Text → CommandRule → Type 0
Ruled base args rule = (joined_length args ≤ rule.max_arg_length) × AllMatch rule args

check_rule-Ruled :
    (base : Text) (args : List Text) (o : Option CommandRule)
    → check_rule base args o ≡ ok tt
    → (rule : CommandRule) × (o ≡ some rule) × Ruled base args rule
unfolding Ruled
check_rule-Ruled base args none h = absurd (ground arith)
check_rule-Ruled base args (some rule) h =
    elim (Bool-cases (is_empty rule.allowed_args && not (is_empty args))) [
      | inl none_taken ↦ absurd (ground (arith, none_taken))
      | inr taken ↦ elim (Bool-cases (ltb rule.max_arg_length (joined_length args))) [
        | inl long ↦ absurd (ground (arith, taken, long))
        | inr short ↦ (
          rule,
          refl,
          (
            ltb-false rule.max_arg_length (joined_length args) short,
            check_args-AllMatch base rule args (ground (arith, taken, short)),
          ),
        )
      ]
    ]

passed_words :
    (policy : GatewayExecPolicy) (ws : List Text)
    → check_words policy ws ≡ ok tt
    → (raw : Text) × (args : List Text) × (rule : CommandRule) × (ws ≡ raw ∷ args)
      × (get_rule (base_name raw) policy.allowlist ≡ some rule)
      × Ruled (base_name raw) args rule
unfolding check_words
passed_words policy [] h = absurd (ground arith)
passed_words policy (raw ∷ args) h =
    let (rule, found, ruled) =
      check_rule-Ruled (base_name raw) args (get_rule (base_name raw) policy.allowlist) h in
    (raw, args, rule, refl, found, ruled)

-- A command that passes in restricted mode: none of its characters is a metacharacter, the last part
-- of its first word is in the allowlist, and its other words are no longer together than the rule
-- says, and each matches a pattern of it.
pub passed_restricted :
    (command : Text) (policy : GatewayExecPolicy)
    → policy.restricted_mode ≡ true
    → enforce_gateway_exec_policy command policy ≡ ok tt
    → (raw : Text) × (args : List Text) × (rule : CommandRule) × (any is_metachar
          (trim (trim command))
        ≡ false)
      × (words (trim (trim command)) ≡ raw ∷ args)
      × (get_rule (base_name raw) policy.allowlist ≡ some rule)
      × (joined_length args ≤ rule.max_arg_length)
      × AllMatch rule args
unfolding enforce_gateway_exec_policy Ruled
passed_restricted command policy mode passed =
    let clean : any is_metachar (trim (trim command)) ≡ false = ground (arith, mode) in
    let (raw, args, rule, split, found, ruled) =
      passed_words policy (words (trim (trim command))) (ground (arith, mode, clean)) in
    (raw, args, rule, clean, split, found, ruled.0, ruled.1)

has_slash : (dir name : Text) → any is_slash (dir ++ b'/' ∷ name) ≡ true
unfolding any
has_slash [] name = refl
has_slash (c ∷ dir) name = ground (arith, has_slash dir name)

base_name-append : (dir name : Text) → base_name (dir ++ b'/' ∷ name) ≡ base_name name
unfolding base_name
base_name-append [] name = rw (has_slash [] name) refl
base_name-append (c ∷ dir) name = rw (has_slash (c ∷ dir) name) (base_name-append dir name)

-- Only the part behind the last slash is looked up: the verdict on a first word is that on the word
-- behind any directory.
pub path_is_ignored :
    (policy : GatewayExecPolicy) (dir name : Text) (args : List Text)
    → check_words policy ((dir ++ b'/' ∷ name) ∷ args) ≡ check_words policy (name ∷ args)
unfolding check_words
path_is_ignored policy dir name args = rw (base_name-append dir name) refl
