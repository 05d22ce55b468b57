-- ===== src/ExecPolicy.antt =====
-- The policy of the gateway on commands (gateway/exec-policy.ts).
pub mod Config
pub mod Verdict
pub mod Loaded
mod Tests
use memphis_v.Base.{
  ℕ, ◌+◌, Text, text_eq, codes, Bool, true, false, not, ◌&&◌, ◌||◌, Option, none, some, List, [],
  ◌∷◌, ◌++◌, length, ltb, leb, ◌==◌, if◌then◌else◌, Result, ok, err,
}
use memphis_v.Approval.Identity.{is_space, trim}

-- A regular expression of the form ^prefix[class]+$, as all rules of the source are.
pub record Pattern : Type 0 where
  pub prefix : Text
  pub class : ℕ → Bool

pub record CommandRule : Type 0 where
  pub allowed_args : List Pattern
  pub max_arg_length : ℕ

pub record GatewayExecPolicy : Type 0 where
  pub restricted_mode : Bool
  pub allowlist : List (Text × CommandRule)
  pub blocked_tokens : List Text

pub data Refusal : Type 0 where
  command_required metacharacter : Refusal
  not_in_allowlist no_arguments arguments_too_long : Text → Refusal
  argument_not_allowed : Text → Text → Refusal

abbrev pub one_of : Text → ℕ → Bool
one_of [] c = false
one_of (d ∷ ds) c = c == d || one_of ds c

-- the class of `SHELL_METACHAR_RE`
unfoldable pub is_metachar : ℕ → Bool
is_metachar c = leb c 0x1f || c == 0x7f || one_of (codes ";&|`$(){}[]!#~<>\\'") c

unfoldable pub any : (ℕ → Bool) → Text → Bool
any p [] = false
any p (c ∷ s) = p c || any p s

unfoldable pub every : (ℕ → Bool) → Text → Bool
every p [] = true
every p (c ∷ s) = p c && every p s

abbrev pub alnum : ℕ → Bool
alnum c = (leb b'A' c && leb c b'Z') || (leb b'a' c && leb c b'z') || (leb b'0' c && leb c b'9')

-- `DEFAULT_COMMAND_RULES`
unfoldable pub default_rules : List (Text × CommandRule)
default_rules =
    (
      codes "echo",
      record {
        allowed_args =
            record { prefix = []; class = λ c. alnum c || one_of (codes " _.,:=@/-") c } ∷ [];
        max_arg_length = 200;
      },
    )
    ∷ (codes "pwd", record { allowed_args = []; max_arg_length = 0 })
    ∷ (
      codes "ls",
      record {
        allowed_args =
            record { prefix = codes "-"; class = one_of (codes "lah1Rt") }
            ∷ record { prefix = []; class = λ c. alnum c || one_of (codes "_./@~ -") c }
            ∷ [];
        max_arg_length = 200;
      },
    )
    ∷ (codes "whoami", record { allowed_args = []; max_arg_length = 0 })
    ∷ (
      codes "date",
      record {
        allowed_args =
            record { prefix = codes "+"; class = λ c. alnum c || one_of (codes "%: ._-") c } ∷ [];
        max_arg_length = 50;
      },
    )
    ∷ (codes "uptime", record { allowed_args = []; max_arg_length = 0 })
    ∷ []

abbrev nonempty_every : (ℕ → Bool) → Text → Bool
nonempty_every p [] = false
nonempty_every p (c ∷ s) = every p (c ∷ s)

unfoldable pub test_from : Text → (ℕ → Bool) → Text → Bool
test_from [] p s = nonempty_every p s
test_from (d ∷ ds) p [] = false
test_from (d ∷ ds) p (c ∷ s) = let rest = test_from ds p s in c == d && rest

-- `rule.allowedArgs.some((pattern) => pattern.test(arg))`
unfoldable pub some_matches : List Pattern → Text → Bool
some_matches [] arg = false
some_matches (p ∷ ps) arg = test_from p.prefix p.class arg || some_matches ps arg

-- `split(/\s+/).filter(Boolean)`: the word that is open, and the words after it
abbrev pub put_word : Text → List Text → List Text
put_word [] ws = ws
put_word (c ∷ w) ws = (c ∷ w) ∷ ws

unfoldable pub cut : Text → Text × List Text
cut [] = ([], [])
cut (c ∷ s) = let r = cut s in if is_space c then ([], put_word r.0 r.1) else (c ∷ r.0, r.1)

unfoldable pub words : Text → List Text
words s = put_word (cut s).0 (cut s).1

abbrev pub is_slash : ℕ → Bool
is_slash c = c == b'/'

-- the part behind the last slash
unfoldable pub base_name : Text → Text
base_name [] = []
base_name (c ∷ s) = let rest = base_name s in if any is_slash (c ∷ s) then rest else c ∷ s

unfoldable pub get_rule : Text → List (Text × CommandRule) → Option CommandRule
get_rule name [] = none
get_rule name (r ∷ rs) = let rest = get_rule name rs in if text_eq r.0 name then some r.1 else rest

-- `args.join(' ').length`
unfoldable pub joined_length : List Text → ℕ
joined_length [] = 0
joined_length (w ∷ []) = length w
joined_length (w ∷ v ∷ ws) = length w + 1 + joined_length (v ∷ ws)

unfoldable pub check_args : Text → CommandRule → List Text → Result Refusal (Unit {0})
check_args base rule [] = ok tt
check_args base rule (a ∷ args) =
    let rest = check_args base rule args in
    if some_matches rule.allowed_args a then rest else err (argument_not_allowed a base)

abbrev pub is_empty {ℓ} : {A : Type ℓ} → List A → Bool
is_empty [] = true
is_empty (x ∷ xs) = false

abbrev pub check_rule : Text → List Text → Option CommandRule → Result Refusal (Unit {0})
check_rule base args none = err (not_in_allowlist base)
check_rule base args (some rule) =
    if is_empty rule.allowed_args && not (is_empty args)
    then err (no_arguments base)
    else if ltb rule.max_arg_length (joined_length args)
    then err (arguments_too_long base)
    else check_args base rule args

-- what follows `parseCommand`, and its last part
unfoldable pub check_words : GatewayExecPolicy → List Text → Result Refusal (Unit {0})
check_words policy [] = err command_required
check_words policy (raw ∷ args) =
    check_rule (base_name raw) args (get_rule (base_name raw) policy.allowlist)

unfoldable pub enforce_gateway_exec_policy : Text → GatewayExecPolicy → Result Refusal (Unit {0})
enforce_gateway_exec_policy command policy =
    let trimmed = trim command in
    if is_empty trimmed
    then err command_required
    else if any is_metachar (if policy.restricted_mode then trim trimmed else trimmed)
    then err metacharacter
    else if policy.restricted_mode
    then check_words policy (words (trim trimmed))
    else ok tt
