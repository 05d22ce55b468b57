-- ===== src/Router.antt =====
-- `DynamicRouter` and its usage tracker (providers/dynamic-router.ts).
pub mod Matrix
pub mod Best
pub mod Ranking
pub mod Fits
pub mod Picks
mod Tests
use memphis_v.Base.{
  ℕ, zero, suc, ◌+◌, Text, Bool, true, false, not, ◌&&◌, ◌||◌, Option, none, some, List, [], ◌∷◌,
  ◌++◌, length, select, ltb, leb, ◌==◌, if◌then◌else◌, codes,
}
use memphis_v.Base.Maps.{Map, get, set, or_zero}
use memphis_v.Router.Matrix.{Model, Provider, Requirements, some_model, wide_enough}
use memphis_v.Router.Best.{best_from}

pub data TaskType : Type 0 where
  chat code analysis creative : TaskType

pub data Priority : Type 0 where
  latency cost quality : Priority

pub record RoutingContext : Type 0 where
  pub task_type : TaskType
  pub priority : Priority
  pub requirements : Requirements

pub record Route : Type 0 where
  pub provider : Text
  pub model : Text
  pub reason : Text

-- What the tracker keeps of a routing.
pub record Routing : Type 0 where
  pub provider : Text
  pub model : Text
  pub context : RoutingContext
  pub timestamp : ℕ

-- `meetsRequirements`: the requirements one by one, each by some model
unfoldable pub meets_requirements : Provider → Requirements → Bool
meets_requirements p r =
    if not (r.min_context_window == 0) && not (some_model (wide_enough r) p.models)
    then false
    else if r.needs_vision && not (some_model (λ m. m.supports_vision) p.models)
    then false
    else if r.needs_function_calling && not (some_model (λ m. m.supports_function_calling) p.models)
    then false
    else true

-- the test of the filter in `selectBestModel`: all requirements by one model
unfoldable pub fits : Requirements → Model → Bool
fits r m =
    if not (r.min_context_window == 0) && ltb m.context_window r.min_context_window
    then false
    else if r.needs_vision && not m.supports_vision
    then false
    else if r.needs_function_calling && not m.supports_function_calling
    then false
    else true

abbrev pub first : List Model → Option Model
first [] = none
first (m ∷ ms) = some m

abbrev pub has_larger_context : Model → Model → Bool
has_larger_context m best = ltb best.context_window m.context_window

-- `pickLargestContextModel`; of no models the source returns undefined
unfoldable pub pick_largest_context_model : List Model → Option Model
pick_largest_context_model [] = none
pick_largest_context_model (m ∷ ms) = some (best_from has_larger_context m ms)

abbrev pub pick_model : Priority → List Model → Option Model
pick_model quality ms = pick_largest_context_model ms
pick_model latency ms = first ms
pick_model cost ms = first ms

abbrev pub or_all : List Model → List Model → List Model
or_all [] all = all
or_all (m ∷ ms) all = m ∷ ms

-- `selectBestModel`
unfoldable pub select_best_model : Provider → RoutingContext → Option Model
select_best_model p c =
    pick_model c.priority (or_all (select (fits c.requirements) p.models) p.models)

-- The comparison of `pickBestProvider`: whether a candidate takes the place of the best so far.
abbrev pub is_better : Priority → Provider → Provider → Bool
is_better latency p best = ltb p.avg_latency best.avg_latency
is_better cost p best =
    ltb (p.input_cost_per_1k + p.output_cost_per_1k)
      (best.input_cost_per_1k + best.output_cost_per_1k)
is_better quality p best = ltb best.uptime_percent p.uptime_percent

-- `pickBestProvider`, of a first candidate and the others
abbrev pub pick_best_provider : Priority → Provider → List Provider → Provider
pick_best_provider priority p ps = best_from (is_better priority) p ps

abbrev pub priority_name : Priority → Text
priority_name latency = codes "latency"
priority_name cost = codes "cost"
priority_name quality = codes "quality"

abbrev pub fallback_route : Route
fallback_route = record {
  provider = codes "openai-compatible";
  model = codes "gpt-4";
  reason = codes "No providers meet requirements, using fallback";
}

abbrev pub route_to : Provider → Model → Priority → Route
route_to p m priority = record {
  provider = p.name;
  model = m.name;
  reason = codes "Selected for " ++ (priority_name priority ++ codes " optimization");
}

abbrev pub routing_of : Provider → Model → RoutingContext → ℕ → Routing
routing_of p m c now = record { provider = p.name; model = m.name; context = c; timestamp = now }

-- The end of `route`. A provider without models makes the source throw, which is none.
abbrev pub routed :
    Provider → Option Model → RoutingContext → ℕ → List Routing → Option (Route × List Routing)
routed p none c now routings = none
routed p (some m) c now routings =
    some (route_to p m c.priority, routings ++ (routing_of p m c now ∷ []))

abbrev pub route_among :
    List Provider → RoutingContext → ℕ → List Routing → Option (Route × List Routing)
route_among [] c now routings = some (fallback_route, routings)
route_among (p ∷ ps) c now routings =
    let selected = pick_best_provider c.priority p ps in
    routed selected (select_best_model selected c) c now routings

-- `route`, with the providers of the matrix, the time and the routings recorded so far
unfoldable pub route :
    List Provider → RoutingContext → ℕ → List Routing → Option (Route × List Routing)
route providers c now routings =
    route_among (select (λ p. meets_requirements p c.requirements) providers) c now routings

-- `getStats`: the number of routings by a name that each has
unfoldable pub count_by : (Routing → Text) → List Routing → Map ℕ → Map ℕ
count_by name [] counts = counts
count_by name (r ∷ rs) counts =
    count_by name rs (set (name r) (or_zero (get (name r) counts) + 1) counts)

pub record RoutingStats : Type 0 where
  pub total_routings : ℕ
  pub provider_counts : Map ℕ
  pub model_counts : Map ℕ

unfoldable pub get_routing_stats : List Routing → RoutingStats
get_routing_stats rs = record {
  total_routings = length rs;
  provider_counts = count_by (λ r. r.provider) rs [];
  model_counts = count_by (λ r. r.provider ++ (codes "/" ++ r.model)) rs [];
}
