-- ===== src/Router/Tests.antt =====
-- Routes over the catalog of gateway/config.py, and instances of the router's theorems.
use mathlib.Core.Option.{some-injective}
use mathlib.Core.Path.{subst}
use dmr.Prelude.{
  ◌≡◌, refl, ◌⊎◌, inl, inr, String, Elem, true, false, none, some, codes, Text, text_eq, is_infix,
  has_prefix, lower, strip, lstrip,
}
use dmr.Config.{VramProfile, ModelDefinition, all_models_of}
use dmr.Config.Catalog.{
  profiles, all_models, profile_deepseek, profile_qwen35, profile_qwen38, qwen35_122b_fp8,
}
use dmr.Router.{
  lower_name, match_global, named, requested_of, is_auto, scan, owners, find_profile_for_model,
  label, label_in_active, find_label, resolve_label, stay_or_default, select_profile, first_overlap,
  or_else, kept, select_model, decided, standard_route, route,
}
use dmr.Router.Ownership.{IsComplete, Complete, Serves, route-Serves}
use dmr.Router.Matching.{NoExact, NoLonger, Longest, find_profile-Longest, find_profile-exact}

route_full_name :
    route profiles all_models profile_deepseek " QWEN3.5-122b " (some profile_deepseek)
    ≡ some (decided profile_qwen35 qwen35_122b_fp8)
unfolding route standard_route requested_of is_auto resolve_label label_in_active find_label label
    select_profile select_model find_profile_for_model scan owners first_overlap or_else kept
    text_eq is_infix has_prefix lower strip lstrip
route_full_name = refl

deepseek-IsComplete : IsComplete profile_deepseek
deepseek-IsComplete = record { primary = λ e. cc; labelled = (inl refl, (inl refl, tt)) }

others-Complete : IsComplete profile_qwen35 × IsComplete profile_qwen38
others-Complete = (
  record { primary = λ e. cc; labelled = (inl refl, (inl refl, tt)) },
  record { primary = λ e. cc; labelled = (inl refl, (inl refl, tt)) },
)

-- The catalog meets the router's assumptions.
catalog-Complete : Complete profiles
catalog-Complete = (deepseek-IsComplete, (others-Complete.0, (others-Complete.1, tt)))

route-Serves_example :
    Serves profiles
      (some profile_deepseek)
      (route profiles all_models profile_deepseek "no such model" (some profile_deepseek))
route-Serves_example =
    route-Serves profiles (some profile_deepseek) catalog-Complete
      (λ p e. subst IsComplete (some-injective _ _ e) deepseek-IsComplete) profile_deepseek
      ("deepseek", inl refl) all_models "no such model"

qwen_is_inexact : NoExact (codes "qwen") (owners profiles)
unfolding owners lower text_eq
qwen_is_inexact = (refl, (refl, (refl, tt)))

find_profile-Longest_example :
    ((find_profile_for_model (codes "qwen") profiles ≡ none)
      × NoLonger (codes "qwen") 0 (owners profiles))
    ⊎ ((p : VramProfile) × (name : Text) × (find_profile_for_model (codes "qwen") profiles ≡ some p)
        × Longest (codes "qwen") (owners profiles) p name)
find_profile-Longest_example = find_profile-Longest (codes "qwen") profiles qwen_is_inexact

qwen_goes_to_qwen38 : find_profile_for_model (codes "qwen") profiles ≡ some profile_qwen38
unfolding find_profile_for_model scan owners text_eq is_infix has_prefix lower
qwen_goes_to_qwen38 = refl

auto_route :
    route profiles all_models profile_deepseek "auto" (some profile_qwen35)
    ≡ some (decided profile_qwen35 qwen35_122b_fp8)
unfolding route standard_route requested_of is_auto select_profile stay_or_default select_model
    label or_else text_eq lower strip lstrip
auto_route = refl

-- A hint of white space is no hint to `route`, but _select_model does not strip it.
blank_hint :
    (select_model all_models "  " profile_deepseek ≡ label (codes "code") profile_deepseek.labels)
    × (is_auto (requested_of "  ") ≡ true)
    × (is_auto (lower (codes "  ")) ≡ false)
unfolding requested_of is_auto first_overlap select_model label or_else text_eq lower strip lstrip
    is_infix has_prefix kept scan match_global named
blank_hint = (refl, refl, refl)

find_profile-exact_example :
    (q : VramProfile) × (find_profile_for_model (lower_name qwen35_122b_fp8) profiles ≡ some q)
    × ((j : String) × (x : ModelDefinition) × Elem (j, q) profiles
        × Elem x (all_models_of q)
        × (lower_name x ≡ lower_name qwen35_122b_fp8))
unfolding all_models_of
find_profile-exact_example =
    find_profile-exact profiles "qwen35" profile_qwen35 qwen35_122b_fp8 (inr (inl refl)) (inl refl)
