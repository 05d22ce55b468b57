-- ===== src/Approval/Permission.antt =====
-- `SqliteToolPermissionRepository`
-- (infra/storage/sqlite/repositories/tool-permission-repository.ts): the policy of each tool.
use memphis_v.Base.{
  ℕ, Text, text_eq, text_eq_iff, ◌≡◌, Bool, true, false, Option, none, some, List, [], ◌∷◌, arith,
  if◌then◌else◌, length, ltb,
}

pub data ToolPolicy : Type 0 where
  allow deny require_approval : ToolPolicy

pub record ToolPermission : Type 0 where
  pub tool_name : Text
  pub policy : ToolPolicy
  pub updated_at : ℕ

abbrev pub Table : Type 0
Table = List ToolPermission

unfoldable pub get : Text → Table → Option ToolPermission
get name [] = none
get name (r ∷ rs) = if text_eq r.tool_name name then some r else get name rs

-- `INSERT ... ON CONFLICT(tool_name) DO UPDATE`
unfoldable pub set : Text → ToolPolicy → ℕ → Table → Table
set name policy now [] = record { tool_name = name; policy = policy; updated_at = now } ∷ []
set name policy now (r ∷ rs) =
    let rest = set name policy now rs in
    if text_eq r.tool_name name
    then record r { policy = policy; updated_at = now } ∷ rs
    else r ∷ rest

without : Text → Table → Table
without name [] = []
without name (r ∷ rs) =
    let rest = without name rs in if text_eq r.tool_name name then rest else r ∷ rest

-- whether a row was deleted, beside the table
unfoldable pub delete : Text → Table → Bool × Table
unfolding without
delete name t = (ltb (length (without name t)) (length t), without name t)

unfoldable pub reset : Table → ℕ × Table
reset t = (length t, [])

abbrev pub policy_of : Option ToolPermission → ToolPolicy
policy_of none = allow
policy_of (some r) = r.policy

abbrev pub allows : ToolPolicy → Bool
allows allow = true
allows _ = false

-- `isAllowed`: whether the tool may run, and its policy
unfoldable pub is_allowed : Text → Table → Bool × ToolPolicy
unfolding get
is_allowed name t = (allows (policy_of (get name t)), policy_of (get name t))

unfoldable pub filter_allowed : Table → List Text → List Text
filter_allowed t [] = []
filter_allowed t (n ∷ ns) =
    let rest = filter_allowed t ns in if (is_allowed n t).0 then n ∷ rest else rest

get-set :
    (name other : Text) (policy : ToolPolicy) (now : ℕ) (t : Table)
    → policy_of (get other (set name policy now t))
      ≡ (if text_eq name other then policy else policy_of (get other t))
unfolding get set
get-set name other policy now [] = ground arith
get-set name other policy now (r ∷ rs) = ground (
  arith,
  get-set name other policy now rs,
  text_eq_iff r.tool_name name,
  text_eq_iff name other,
  text_eq_iff r.tool_name other,
)

get-without :
    (name other : Text) (t : Table)
    → get other (without name t) ≡ (if text_eq name other then none else get other t)
unfolding get without
get-without name other [] = ground arith
get-without name other (r ∷ rs) = ground (
  arith,
  get-without name other rs,
  text_eq_iff r.tool_name name,
  text_eq_iff name other,
  text_eq_iff r.tool_name other,
)

-- A tool runs under the policy last set for it. After `set` of a name, `isAllowed` answers for that
-- name by the new policy and for every other as before; after `delete` of a name, that name is
-- allowed again and every other answers as before.
pub is_allowed_after :
    (name other : Text) (policy : ToolPolicy) (now : ℕ) (t : Table)
    → (is_allowed other (set name policy now t)
        ≡ (if text_eq name other then (allows policy, policy) else is_allowed other t))
      × (is_allowed other (delete name t).1
          ≡ (if text_eq name other then (true, allow) else is_allowed other t))
unfolding is_allowed delete
is_allowed_after name other policy now t =
    (ground (arith, get-set name other policy now t), ground (arith, get-without name other t))
