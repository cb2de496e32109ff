-- ===== src/Router/Labels.antt =====
-- Label aliases and requests with no hint in gateway/router.py: the active profile is kept.
use dmr.Prelude.{String, ◌≡◌, true, false, some, List, arith}
use dmr.Config.{ModelDefinition, VramProfile, Registry}
use dmr.Router.{
  RoutingDecision, requested_of, is_auto, label, label_in_active, resolve_label, stay_or_default,
  select_profile, select_model, decided, standard_route, route,
}

module _ (reg : Registry) (models : List ModelDefinition) (default p : VramProfile)
    (model : String) where
  -- A label of the active profile is resolved there, so that such a request never asks for a swap,
  -- whatever the registry says of the label.
  pub route-label :
      (m : ModelDefinition)
      → is_auto (requested_of model) ≡ false
      → label (requested_of model) p.labels ≡ some m
      → route reg models default model (some p) ≡ some (decided p m)
  unfolding route resolve_label label_in_active
  route-label m a e = ground (arith, a, e)

  select_profile-auto :
      is_auto (requested_of model) ≡ true
      → select_profile reg default (requested_of model) (some p) ≡ p
  unfolding select_profile stay_or_default
  select_profile-auto a = rw (a, select_profile)

  -- With no hint, or "auto", the active profile is kept, so that nothing is swapped.
  pub route_auto :
      is_auto (requested_of model) ≡ true
      → (d : RoutingDecision) → route reg models default model (some p) ≡ some d
      → (d.profile ≡ p)
        × (select_model models model p ≡ some d.target_model)
        × (d.requires_swap ≡ false)
  unfolding route standard_route decided
  route_auto a d e = ground (arith, select_profile-auto a)
