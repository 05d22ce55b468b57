-- ===== src/Router/Picks.antt =====
-- `DynamicRouter.route` on the providers of the capability matrix (providers/dynamic-router.ts).
use memphis_v.Base.{ℕ, ◌≡◌, refl, ◌⊎◌, true, some, List, [], ◌∷◌, ◌++◌, select, leb, arith}
use mathlib.Core.List.{Memᴰ}
use memphis_v.Router.Matrix.{
  Model, Provider, all_providers, gpt_4, gpt_4_turbo, llama2, codellama, command,
}
use memphis_v.Router.{
  RoutingContext, Routing, fallback_route, route_to, routing_of, meets_requirements, route,
}
use memphis_v.Router.Fits.{Leads, HasLeader, NoneFits, Picked, route_among-picks}

-- A model leads itself and one that it has everything of.
alone-Leads : (m : Model) → Leads m (m ∷ [])
alone-Leads m = record {
  is_there = Memᴰ.head refl;
  has_context = λ n t. elim t [ Memᴰ.head e ↦ rw e (ground arith) | Memᴰ.tail u ↦ elim u [ ] ];
  has_vision = λ n t h. elim t [ Memᴰ.head e ↦ rw e at (h) | Memᴰ.tail u ↦ elim u [ ] ];
  has_function_calling = λ n t h. elim t [ Memᴰ.head e ↦ rw e at (h) | Memᴰ.tail u ↦ elim u [ ] ];
}

pair-Leads :
    (m n : Model)
    → leb n.context_window m.context_window ≡ true
    → (n.supports_vision ≡ true → m.supports_vision ≡ true)
    → (n.supports_function_calling ≡ true → m.supports_function_calling ≡ true)
    → Leads m (n ∷ m ∷ [])
pair-Leads m n w v f = record {
  is_there = Memᴰ.tail (Memᴰ.head refl);
  has_context = λ x t. elim t [
    | Memᴰ.head e ↦ rw e w
    | Memᴰ.tail (Memᴰ.head e) ↦ rw e (ground arith)
    | Memᴰ.tail (Memᴰ.tail u) ↦ elim u [ ]
  ];
  has_vision = λ x t h. elim t [
    | Memᴰ.head e ↦ v (rw e at (h))
    | Memᴰ.tail (Memᴰ.head e) ↦ rw e at (h)
    | Memᴰ.tail (Memᴰ.tail u) ↦ elim u [ ]
  ];
  has_function_calling = λ x t h. elim t [
    | Memᴰ.head e ↦ f (rw e at (h))
    | Memᴰ.tail (Memᴰ.head e) ↦ rw e at (h)
    | Memᴰ.tail (Memᴰ.tail u) ↦ elim u [ ]
  ];
}

matrix_leaders : HasLeader all_providers
matrix_leaders p (Memᴰ.head e) =
    rw e (gpt_4_turbo, pair-Leads gpt_4_turbo gpt_4 refl (λ h. refl) (λ h. refl))
matrix_leaders p (Memᴰ.tail (Memᴰ.head e)) =
    rw e (codellama, pair-Leads codellama llama2 refl (λ h. h) (λ h. h))
matrix_leaders p (Memᴰ.tail (Memᴰ.tail (Memᴰ.head e))) = rw e (command, alone-Leads command)
matrix_leaders p (Memᴰ.tail (Memᴰ.tail (Memᴰ.tail t))) = elim t [ ]

-- `route` always answers. If a model of the matrix meets all requirements, it names and records such
-- a model, of a provider that no other provider with such a model is better than by the priority: a
-- lower latency, a lower price or a higher uptime. If none does, it names the fallback and records
-- nothing.
pub route_picks :
    (c : RoutingContext) (now : ℕ) (routings : List Routing)
    → ((route all_providers c now routings ≡ some (fallback_route, routings))
        × NoneFits all_providers c)
      ⊎ ((p : Provider) × (m : Model) × Picked all_providers c p m
          × (route all_providers c now routings
              ≡ some (route_to p m c.priority, routings ++ (routing_of p m c now ∷ []))))
unfolding route
route_picks c now routings =
    route_among-picks all_providers c now routings matrix_leaders
      (select (λ p. meets_requirements p c.requirements) all_providers) refl
