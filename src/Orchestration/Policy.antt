-- ===== src/Orchestration/Policy.antt =====
-- `ProviderPolicy` (modules/orchestration/provider-policy.ts): the cooldown of a provider after a
-- failure.
use memphis_v.Base.{
  ℕ, ◌+◌, ◌-◌, ◌≡◌, refl, Text, codes, Bool, true, false, not, List, [], ◌∷◌, select, ltb, ◌==◌,
  if◌then◌else◌, arith, ==_iff,
}
use memphis_v.Loop.Executor.{ProviderName, shared_llm, decentralized_llm, local_fallback, ollama}

abbrev provider_index : ProviderName → ℕ
provider_index shared_llm = 0
provider_index decentralized_llm = 1
provider_index local_fallback = 2
provider_index ollama = 3

abbrev pub provider_text : ProviderName → Text
provider_text shared_llm = codes "shared-llm"
provider_text decentralized_llm = codes "decentralized-llm"
provider_text local_fallback = codes "local-fallback"
provider_text ollama = codes "ollama"

unfoldable pub same_provider : ProviderName → ProviderName → Bool
same_provider p q = provider_index p == provider_index q

provider_index-injective : (p q : ProviderName) → provider_index p ≡ provider_index q → p ≡ q
provider_index-injective shared_llm shared_llm e = refl
provider_index-injective decentralized_llm decentralized_llm e = refl
provider_index-injective local_fallback local_fallback e = refl
provider_index-injective ollama ollama e = refl
provider_index-injective shared_llm decentralized_llm e = absurd (omega (arith, e))
provider_index-injective shared_llm local_fallback e = absurd (omega (arith, e))
provider_index-injective shared_llm ollama e = absurd (omega (arith, e))
provider_index-injective decentralized_llm shared_llm e = absurd (omega (arith, e))
provider_index-injective decentralized_llm local_fallback e = absurd (omega (arith, e))
provider_index-injective decentralized_llm ollama e = absurd (omega (arith, e))
provider_index-injective local_fallback shared_llm e = absurd (omega (arith, e))
provider_index-injective local_fallback decentralized_llm e = absurd (omega (arith, e))
provider_index-injective local_fallback ollama e = absurd (omega (arith, e))
provider_index-injective ollama shared_llm e = absurd (omega (arith, e))
provider_index-injective ollama decentralized_llm e = absurd (omega (arith, e))
provider_index-injective ollama local_fallback e = absurd (omega (arith, e))

pub same_provider_refl : (p : ProviderName) → same_provider p p ≡ true
unfolding same_provider
same_provider_refl p = (==_iff (provider_index p) (provider_index p)).1 refl

pub same_provider-eq : (p q : ProviderName) → same_provider p q ≡ true → p ≡ q
unfolding same_provider
same_provider-eq p q h =
    provider_index-injective p q ((==_iff (provider_index p) (provider_index q)).0 h)

-- `Map.has`
unfoldable pub has_provider : ProviderName → List ProviderName → Bool
has_provider p [] = false
has_provider p (q ∷ qs) = let rest = has_provider p qs in if same_provider q p then true else rest

abbrev pub Cooldowns : Type 0
Cooldowns = List (ProviderName × ℕ)

-- `cooldownUntil.get(provider) ?? 0`
unfoldable pub until : ProviderName → Cooldowns → ℕ
until p [] = 0
until p (c ∷ cs) = let rest = until p cs in if same_provider c.0 p then c.1 else rest

unfoldable pub is_in_cooldown : ProviderName → ℕ → Cooldowns → Bool
is_in_cooldown p now cs = ltb now (until p cs)

unfoldable pub set_until : ProviderName → ℕ → Cooldowns → Cooldowns
set_until p t [] = (p, t) ∷ []
set_until p t (c ∷ cs) =
    let rest = set_until p t cs in if same_provider c.0 p then (p, t) ∷ cs else c ∷ rest

unfoldable pub mark_failure : ℕ → ProviderName → ℕ → Cooldowns → Cooldowns
mark_failure cooldown_ms p now cs = set_until p (now + cooldown_ms) cs

unfoldable pub mark_success : ProviderName → Cooldowns → Cooldowns
mark_success p cs = select (λ c. not (same_provider c.0 p)) cs

unfoldable pub remaining_cooldown_ms : ProviderName → ℕ → Cooldowns → ℕ
remaining_cooldown_ms p now cs = until p cs - now

-- A success ends the cooldown of its provider, and of no other.
pub until-mark_success :
    (p q : ProviderName) (cs : Cooldowns)
    → until q (mark_success p cs) ≡ (if same_provider p q then 0 else until q cs)
unfolding until mark_success
until-mark_success p q [] = ground arith
until-mark_success p q (c ∷ cs) = ground (
  arith,
  until-mark_success p q cs,
  same_provider-eq c.0 p,
  same_provider-eq c.0 q,
  same_provider-eq p q,
  same_provider_refl p,
)

-- A failure starts the cooldown of its provider, and of no other.
pub until-mark_failure :
    (ms : ℕ) (p : ProviderName) (now : ℕ) (q : ProviderName) (cs : Cooldowns)
    → until q (mark_failure ms p now cs) ≡ (if same_provider p q then now + ms else until q cs)
unfolding until mark_failure set_until
until-mark_failure ms p now q [] = ground arith
until-mark_failure ms p now q (c ∷ cs) = ground (
  arith,
  until-mark_failure ms p now q cs,
  same_provider-eq c.0 p,
  same_provider-eq c.0 q,
  same_provider-eq p q,
  same_provider_refl p,
)
