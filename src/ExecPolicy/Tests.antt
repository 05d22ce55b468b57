-- ===== src/ExecPolicy/Tests.antt =====
-- Verdicts on commands.
use memphis_v.Base.{◌≤◌, ◌≡◌, refl, Text, codes, true, false, some, none, List, [], ◌∷◌, ok}
use memphis_v.Base.Texts.{text_eq}
use memphis_v.Approval.Identity.{trim, is_space}
use memphis_v.ExecPolicy.{
  GatewayExecPolicy, CommandRule, default_rules, is_metachar, any, every, test_from, some_matches,
  words, cut, base_name, get_rule, joined_length, check_args, check_words,
  enforce_gateway_exec_policy,
}
use memphis_v.Base.Maps.{set}
use memphis_v.ExecPolicy.Config.{
  RawEnv, or_closed, load_gateway_exec_policy, to_bool, split_csv, split_commas, trimmed_parts,
  allow_all,
}
use memphis_v.ExecPolicy.Loaded.{loaded_restricted}
use memphis_v.ExecPolicy.Verdict.{AllMatch, passed_restricted, path_is_ignored}

abbrev policy : GatewayExecPolicy
policy = record { restricted_mode = true; allowlist = default_rules; blocked_tokens = [] }

abbrev listing : Text
listing = codes " /bin/ls -la /tmp"

listing_passes : enforce_gateway_exec_policy listing policy ≡ ok tt
unfolding enforce_gateway_exec_policy trim is_space any is_metachar check_words words cut get_rule
    default_rules text_eq base_name joined_length check_args some_matches test_from every
listing_passes = refl

passed_restricted_example :
    (raw : Text) × (args : List Text) × (rule : CommandRule) × (any is_metachar
        (trim (trim listing))
      ≡ false)
    × (words (trim (trim listing)) ≡ raw ∷ args)
    × (get_rule (base_name raw) default_rules ≡ some rule)
    × (joined_length args ≤ rule.max_arg_length)
    × AllMatch rule args
passed_restricted_example = passed_restricted listing policy refl listing_passes

path_is_ignored_example :
    check_words policy (codes "/tmp/evil/ls" ∷ codes "-l" ∷ [])
    ≡ check_words policy (codes "ls" ∷ codes "-l" ∷ [])
path_is_ignored_example = path_is_ignored policy (codes "/tmp/evil") (codes "ls") (codes "-l" ∷ [])

-- A policy of two names, one of which has a default rule.
abbrev env : RawEnv
env = record { restricted_mode = none; allowlist = some (codes "ls, git"); blocked_tokens = none }

abbrev loaded : GatewayExecPolicy
loaded = record {
  restricted_mode = true;
  allowlist =
      (codes "ls", or_closed (get_rule (codes "ls") default_rules))
      ∷ (codes "git", or_closed (get_rule (codes "git") default_rules))
      ∷ [];
  blocked_tokens = [];
}

loads : load_gateway_exec_policy (λ s. s) env ≡ ok loaded
unfolding load_gateway_exec_policy to_bool split_csv split_commas trimmed_parts trim is_space
    allow_all get_rule default_rules set text_eq
loads = refl

loaded_passes : enforce_gateway_exec_policy listing loaded ≡ ok tt
unfolding enforce_gateway_exec_policy trim is_space any is_metachar check_words words cut get_rule
    default_rules text_eq base_name joined_length check_args some_matches test_from every
loaded_passes = refl

loaded_restricted_example :
    (raw : Text) × (args : List Text) × (any is_metachar (trim (trim listing)) ≡ false)
    × (words (trim (trim listing)) ≡ raw ∷ args)
    × (joined_length args ≤ (or_closed (get_rule (base_name raw) default_rules)).max_arg_length)
    × AllMatch (or_closed (get_rule (base_name raw) default_rules)) args
loaded_restricted_example = loaded_restricted (λ s. s) env listing loaded loads refl loaded_passes
