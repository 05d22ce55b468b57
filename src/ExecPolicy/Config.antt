-- ===== src/ExecPolicy/Config.antt =====
-- The policy from the environment, and the bearer token (gateway/exec-policy.ts). An allowlist is
-- taken to name no property that every JavaScript object has, such as toString.
use memphis_v.Base.{
  ◌≡◌, ◌↔◌, refl, sym, ◌∙◌, ap, inl, inr, Text, codes, text_eq, text_eq_iff, Bool, true, false, not,
  ◌&&◌, ◌==◌, Option, none, some, List, [], ◌∷◌, ◌++◌, map, if◌then◌else◌, Result, ok, err,
  Bool-cases, arith,
}
use memphis_v.Base.Maps.{Map, get, set, get-set}
use memphis_v.Approval.Identity.{trim}
use memphis_v.ExecPolicy.{
  CommandRule, GatewayExecPolicy, default_rules, get_rule, put_word, is_empty,
}

-- The variables that are read; `lower` is `toLowerCase`.
pub record RawEnv : Type 0 where
  pub restricted_mode : Option Text
  pub allowlist : Option Text
  pub blocked_tokens : Option Text

pub data ConfigError : Type 0 where
  empty_allowlist no_auth_token unauthorized : ConfigError

unfoldable pub to_bool : (Text → Text) → Option Text → Bool → Bool
to_bool lower none fallback = fallback
to_bool lower (some s) fallback = text_eq (lower s) (codes "true")

-- `split(',')`: the part that is open, and the parts after it
unfoldable pub split_commas : Text → Text × List Text
split_commas [] = ([], [])
split_commas (c ∷ s) =
    let r = split_commas s in if c == b',' then ([], r.0 ∷ r.1) else (c ∷ r.0, r.1)

-- `map(trim)` and `filter(Boolean)`
unfoldable pub trimmed_parts : List Text → List Text
trimmed_parts [] = []
trimmed_parts (p ∷ ps) = put_word (trim p) (trimmed_parts ps)

unfoldable pub split_csv : Option Text → List Text → List Text
split_csv none fallback = fallback
split_csv (some []) fallback = fallback
split_csv (some (c ∷ s)) fallback = let r = split_commas (c ∷ s) in trimmed_parts (r.0 ∷ r.1)

-- A name that has no default rule takes no arguments.
abbrev pub or_closed : Option CommandRule → CommandRule
or_closed none = record { allowed_args = []; max_arg_length = 0 }
or_closed (some r) = r

unfoldable pub allow_all : List Text → Map CommandRule → Map CommandRule
allow_all [] m = m
allow_all (name ∷ names) m = allow_all names (set name (or_closed (get_rule name default_rules)) m)

abbrev pub allowlist_names : RawEnv → List Text
allowlist_names env = split_csv env.allowlist (map (λ r. r.0) default_rules)

unfoldable pub load_gateway_exec_policy :
    (Text → Text) → RawEnv → Result ConfigError GatewayExecPolicy
load_gateway_exec_policy lower env =
    let restricted = to_bool lower env.restricted_mode true in
    let rules = allow_all (allowlist_names env) [] in
    if restricted && is_empty rules
    then err empty_allowlist
    else ok (record {
      restricted_mode = restricted;
      allowlist = rules;
      blocked_tokens = split_csv env.blocked_tokens [];
    })

-- `assertGatewayExecAuthConfigured`
abbrev pub is_configured : Option Text → Bool
is_configured none = false
is_configured (some token) = not (is_empty (trim token))

abbrev pub matches_header : Option Text → Option Text → Bool
matches_header none token = false
matches_header (some header) none = false
matches_header (some header) (some token) = text_eq header (codes "Bearer " ++ token)

-- `enforceGatewayExecAuth`, of the header and the configured token
unfoldable pub enforce_gateway_exec_auth : Option Text → Option Text → Result ConfigError (Unit {0})
enforce_gateway_exec_auth header token =
    if not (is_configured token)
    then err no_auth_token
    else if matches_header header token
    then ok tt
    else err unauthorized

-- A request passes exactly with the configured token, which is not blank, behind the word Bearer.
pub auth_iff :
    (header token : Text)
    → (enforce_gateway_exec_auth (some header) (some token) ≡ ok tt)
      ↔ ((is_empty (trim token) ≡ false) × (header ≡ codes "Bearer " ++ token))
unfolding enforce_gateway_exec_auth
auth_iff header token = ground (arith, text_eq_iff header (codes "Bearer " ++ token))

pub get_rule_lem : (name : Text) (m : Map CommandRule) → get_rule name m ≡ get name m
unfolding get_rule get
get_rule_lem name [] = refl
get_rule_lem name (r ∷ m) = rw (get_rule_lem name m) refl

-- A rule in a list of rules that are the defaults or closed is its name's.
abbrev pub AreDefaults : Map CommandRule → Type 0
AreDefaults m =
    (name : Text) (rule : CommandRule)
    → get name m ≡ some rule
    → rule ≡ or_closed (get_rule name default_rules)

set-AreDefaults :
    (k : Text) (m : Map CommandRule)
    → AreDefaults m
    → AreDefaults (set k (or_closed (get_rule k default_rules)) m)
set-AreDefaults k m h name rule e =
    let r = or_closed (get_rule k default_rules) in
    elim (Bool-cases (text_eq k name)) [
      | inl t ↦
          let same : k ≡ name = (text_eq_iff k name).0 t in
          let at : some r ≡ some rule = sym (rw (get-set name k r m, t) refl) ∙ e in
          sym (ap or_closed at) ∙ ap (λ n. or_closed (get_rule n default_rules)) same
      | inr t ↦ h name rule (sym (rw (get-set name k r m, t) refl) ∙ e)
    ]

pub allow_all-AreDefaults :
    (names : List Text) (m : Map CommandRule) → AreDefaults m → AreDefaults (allow_all names m)
unfolding allow_all
allow_all-AreDefaults [] m h = h
allow_all-AreDefaults (k ∷ names) m h =
    allow_all-AreDefaults names (set k (or_closed (get_rule k default_rules)) m)
      (set-AreDefaults k m h)
