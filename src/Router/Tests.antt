-- ===== src/Router/Tests.antt =====
-- `DynamicRouter` on concrete contexts (providers/dynamic-router.ts).
use memphis_v.Base.{◌≡◌, refl, ◌⊎◌, false, Option, some, none, List, [], ◌∷◌, ◌++◌, Text, codes}
use memphis_v.Base.Maps.{get, set}
use memphis_v.Base.Texts.{text_eq}
use memphis_v.Router.Matrix.{
  Provider, Model, Wishes, all_providers, ollama, some_model, find_best_provider, ranking, score,
}
use memphis_v.Router.Best.{best_from}
use memphis_v.Router.Fits.{NoneFits, Picked}
use memphis_v.Router.Picks.{route_picks}
use memphis_v.Router.{
  RoutingContext, Route, Routing, chat, latency, fallback_route, route_to, routing_of, route,
  get_routing_stats, meets_requirements, select_best_model, fits, count_by,
}

abbrev wide_context : RoutingContext
wide_context = record {
  task_type = chat;
  priority = latency;
  requirements = record {
    min_context_window = 8000;
    needs_vision = false;
    needs_function_calling = false;
  };
}

route_picks_example :
    ((route all_providers wide_context 5 [] ≡ some (fallback_route, []))
      × NoneFits all_providers wide_context)
    ⊎ ((p : Provider) × (m : Model) × Picked all_providers wide_context p m
        × (route all_providers wide_context 5 []
            ≡ some (route_to p m latency, [] ++ (routing_of p m wide_context 5 ∷ []))))
route_picks_example = route_picks wide_context 5 []

abbrev routed_model : Option (Route × List Routing) → Option Text
routed_model none = none
routed_model (some (r, rs)) = some r.model

codellama_is_fastest :
    routed_model (route all_providers wide_context 5 []) ≡ some (codes "codellama")
unfolding route meets_requirements some_model select_best_model best_from fits
codellama_is_fastest = refl

-- No model is that wide: the fallback, which is not either.
nothing_is_wide :
    routed_model (
      route all_providers
        (record wide_context {
          requirements = record wide_context.requirements { min_context_window = 200000 };
        })
        5
        [])
    ≡ some (codes "gpt-4")
unfolding route meets_requirements some_model select_best_model best_from fits
nothing_is_wide = refl

abbrev routings : List Routing
routings =
    let r : Routing = record {
      provider = codes "a";
      model = codes "x";
      context = wide_context;
      timestamp = 1;
    } in
    r ∷ record r { model = codes "y" } ∷ r ∷ []

counted_by_model :
    (get_routing_stats routings).model_counts ≡ (codes "a/x", 2) ∷ (codes "a/y", 1) ∷ []
unfolding get_routing_stats count_by get set text_eq
counted_by_model = refl

abbrev cheap_wishes : Wishes
cheap_wishes = record {
  requirements = record {
    min_context_window = 0;
    needs_vision = false;
    needs_function_calling = false;
  };
  max_latency = 0;
  max_cost = 1;
}

ollama_is_cheap : find_best_provider cheap_wishes all_providers ≡ some ollama
unfolding find_best_provider ranking score some_model
ollama_is_cheap = refl
