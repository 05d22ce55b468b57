-- ===== src/Router/Matrix.antt =====
-- `CapabilityMatrix` (providers/capability-matrix.ts). Prices are in thousandths of a dollar, the
-- uptime and the error rate in tenths of a percent; a requirement that is missing is 0 or false,
-- which the code does not tell apart.
use memphis_v.Base.{
  ℕ, ◌+◌, ◌*◌, Text, Bool, true, false, not, ◌&&◌, ◌||◌, Option, none, some, List, [], ◌∷◌, ltb,
  leb, ◌==◌, if◌then◌else◌, text_eq, codes,
}

pub record Model : Type 0 where
  pub name : Text
  pub context_window : ℕ
  pub max_output_tokens : ℕ
  pub supports_streaming : Bool
  pub supports_function_calling : Bool
  pub supports_vision : Bool
  pub supports_json : Bool

-- The rate limits, the prices and the reliability stand in the record itself.
pub record Provider : Type 0 where
  pub name : Text
  pub models : List Model
  pub supported_features : List Text
  pub requests_per_minute : ℕ
  pub tokens_per_minute : ℕ
  pub input_cost_per_1k : ℕ
  pub output_cost_per_1k : ℕ
  pub uptime_percent : ℕ
  pub avg_latency : ℕ
  pub error_rate : ℕ

pub record Requirements : Type 0 where
  pub min_context_window : ℕ
  pub needs_vision : Bool
  pub needs_function_calling : Bool

-- `models.some(test)`
unfoldable pub some_model : (Model → Bool) → List Model → Bool
some_model test [] = false
some_model test (m ∷ ms) = test m || some_model test ms

abbrev pub wide_enough : Requirements → Model → Bool
wide_enough r m = leb r.min_context_window m.context_window

abbrev pub gpt_4 : Model
gpt_4 = record {
  name = codes "gpt-4";
  context_window = 8192;
  max_output_tokens = 4096;
  supports_streaming = true;
  supports_function_calling = true;
  supports_vision = false;
  supports_json = true;
}

abbrev pub gpt_4_turbo : Model
gpt_4_turbo = record {
  name = codes "gpt-4-turbo";
  context_window = 128000;
  max_output_tokens = 4096;
  supports_streaming = true;
  supports_function_calling = true;
  supports_vision = true;
  supports_json = true;
}

abbrev pub openai_compatible : Provider
openai_compatible = record {
  name = codes "openai-compatible";
  models = gpt_4 ∷ gpt_4_turbo ∷ [];
  supported_features = codes "streaming" ∷ codes "function-calling" ∷ codes "json-mode" ∷ [];
  requests_per_minute = 500;
  tokens_per_minute = 90000;
  input_cost_per_1k = 30;
  output_cost_per_1k = 60;
  uptime_percent = 999;
  avg_latency = 800;
  error_rate = 1;
}

abbrev pub llama2 : Model
llama2 = record {
  name = codes "llama2";
  context_window = 4096;
  max_output_tokens = 2048;
  supports_streaming = true;
  supports_function_calling = false;
  supports_vision = false;
  supports_json = false;
}

abbrev pub codellama : Model
codellama = record {
  name = codes "codellama";
  context_window = 16384;
  max_output_tokens = 4096;
  supports_streaming = true;
  supports_function_calling = false;
  supports_vision = false;
  supports_json = false;
}

abbrev pub ollama : Provider
ollama = record {
  name = codes "ollama";
  models = llama2 ∷ codellama ∷ [];
  supported_features = codes "streaming" ∷ codes "local" ∷ [];
  requests_per_minute = 1000;
  tokens_per_minute = 1000000;
  input_cost_per_1k = 0;
  output_cost_per_1k = 0;
  uptime_percent = 990;
  avg_latency = 200;
  error_rate = 10;
}

abbrev pub command : Model
command = record {
  name = codes "command";
  context_window = 4096;
  max_output_tokens = 2048;
  supports_streaming = true;
  supports_function_calling = false;
  supports_vision = false;
  supports_json = true;
}

abbrev pub cohere : Provider
cohere = record {
  name = codes "cohere";
  models = command ∷ [];
  supported_features = codes "streaming" ∷ codes "json-mode" ∷ [];
  requests_per_minute = 100;
  tokens_per_minute = 100000;
  input_cost_per_1k = 15;
  output_cost_per_1k = 15;
  uptime_percent = 995;
  avg_latency = 600;
  error_rate = 5;
}

-- `getAllProviders()`
abbrev pub all_providers : List Provider
all_providers = openai_compatible ∷ ollama ∷ cohere ∷ []

-- `getProvider`, in the map by name
unfoldable pub get_provider : Text → List Provider → Option Provider
get_provider name [] = none
get_provider name (p ∷ ps) =
    let rest = get_provider name ps in if text_eq p.name name then some p else rest

-- The argument of `findBestProvider`; the highest price is in thousandths of a dollar.
pub record Wishes : Type 0 where
  pub requirements : Requirements
  pub max_latency : ℕ
  pub max_cost : ℕ

-- The score of a provider in tenths, or none for the -1 of one that misses a requirement.
unfoldable pub score : Wishes → Provider → Option ℕ
score w p =
    let r = w.requirements in
    if not (r.min_context_window == 0) && not (some_model (wide_enough r) p.models)
    then none
    else if r.needs_vision && not (some_model (λ m. m.supports_vision) p.models)
    then none
    else if r.needs_function_calling && not (some_model (λ m. m.supports_function_calling) p.models)
    then none
    else some (
        (if not (r.min_context_window == 0) then 100 else 0)
        + (if r.needs_vision then 100 else 0)
        + (if r.needs_function_calling then 100 else 0)
        + p.uptime_percent
        + (if not (w.max_latency == 0) && leb p.avg_latency w.max_latency then 100 else 0)
        + (if not (w.max_cost == 0)
              && leb (p.input_cost_per_1k + p.output_cost_per_1k) (2 * w.max_cost)
            then 100
            else 0))

-- One round of the stable sort by descending score.
abbrev pub insert_scored : Provider × ℕ → List (Provider × ℕ) → List (Provider × ℕ)
insert_scored x [] = x ∷ []
insert_scored x (y ∷ ys) =
    let rest = insert_scored x ys in if ltb x.1 y.1 then y ∷ rest else x ∷ y ∷ ys

abbrev pub with_score : Provider → Option ℕ → List (Provider × ℕ) → List (Provider × ℕ)
with_score p none rest = rest
with_score p (some s) rest = insert_scored (p, s) rest

-- The valid providers, sorted.
unfoldable pub ranking : Wishes → List Provider → List (Provider × ℕ)
ranking w [] = []
ranking w (p ∷ ps) = with_score p (score w p) (ranking w ps)

abbrev pub top : List (Provider × ℕ) → Option Provider
top [] = none
top ((p, s) ∷ rest) = some p

unfoldable pub find_best_provider : Wishes → List Provider → Option Provider
find_best_provider w providers = top (ranking w providers)
