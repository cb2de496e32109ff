-- ===== src/Router.antt =====
-- gateway/router.py: which profile and which model serve a request.
-- The registry PROFILES and the list ALL_MODELS are arguments; `none` is the IndexError of
-- `primary_models[0]` on a profile with no primary model.
pub mod Ownership
pub mod Matching
pub mod Labels
mod Tests
use dmr.Prelude.{
  ℕ, ◌+◌, String, ◌≡◌, Bool, true, false, ◌&&◌, ◌||◌, not, Option, none, some, List, [], ◌∷◌, ◌++◌,
  ltb, if◌then◌else◌, length, Text, codes, text_eq, is_infix, lower, strip,
}
use dmr.Config.{ModelDefinition, VramProfile, Registry, all_models_of, ModelDefinition-discrete}

pub data MediaType : Type 0 where
  text image video : MediaType

pub record RoutingDecision : Type 0 where
  pub media_type : MediaType
  pub profile : VramProfile
  pub target_model : ModelDefinition
  pub requires_swap : Bool

-- model.name.lower()
pub lower_name : ModelDefinition → Text
lower_name m = lower (codes m.name)

-- (request.model or "").strip().lower()
pub requested_of : String → Text
requested_of model = lower (strip (codes model))

pub is_empty_text : Text → Bool
is_empty_text [] = true
is_empty_text (c ∷ s) = false

-- `requested in ("auto", "")`
pub is_auto : Text → Bool
unfolding is_empty_text text_eq
is_auto req = text_eq req (codes "auto") || is_empty_text req

-- `requested in name or name in requested`
pub overlaps : Text → Text → Bool
overlaps req name = is_infix req name || is_infix name req

-- The loop that _find_profile_for_model and _match_global share: an exact name is returned at
-- once, otherwise the longest overlapping name wins, the first of those that tie.
pub scan {ℓ} : {A : Type ℓ} → Text → List (A × Text) → Option A → ℕ → Option A
unfolding overlaps
scan req [] best best_len = best
scan req ((a, name) ∷ cs) best best_len =
    let better = overlaps req name && ltb best_len (length name) in
    let rest =
      scan req cs (if better then some a else best) (if better then length name else best_len) in
    if text_eq name req then some a else rest

pub with_names : VramProfile → List ModelDefinition → List (VramProfile × Text)
unfolding lower_name
with_names p [] = []
with_names p (m ∷ ms) = (p, lower_name m) ∷ with_names p ms

-- The models of every profile, in the order of the two nested loops.
pub owners : Registry → List (VramProfile × Text)
unfolding with_names
owners [] = []
owners ((k, p) ∷ ps) = with_names p (all_models_of p) ++ owners ps

pub find_profile_for_model : Text → Registry → Option VramProfile
find_profile_for_model req reg = scan req (owners reg) none 0

pub named : List ModelDefinition → List (ModelDefinition × Text)
unfolding lower_name
named [] = []
named (m ∷ ms) = (m, lower_name m) ∷ named ms

pub match_global : Text → List ModelDefinition → Option ModelDefinition
match_global req models = scan req (named models) none 0

-- profile.labels.get(name)
pub label : Text → List (String × ModelDefinition) → Option ModelDefinition
label name [] = none
label name ((k, m) ∷ ls) = if text_eq (codes k) name then some m else label name ls

pub find_label : Text → Registry → Option (VramProfile × ModelDefinition)
unfolding label
find_label name [] = none
find_label name ((k, p) ∷ ps) = elim (label name p.labels) [
  | some m ↦ some (p, m)
  | none ↦ find_label name ps
]

pub label_in_active : Text → Option VramProfile → Option (VramProfile × ModelDefinition)
unfolding label
label_in_active name none = none
label_in_active name (some p) = elim (label name p.labels) [ some m ↦ some (p, m) | none ↦ none ]

-- _resolve_label: the active profile first.
pub resolve_label : Text → Option VramProfile → Registry → Option (VramProfile × ModelDefinition)
resolve_label name active reg = elim (label_in_active name active) [
  | some found ↦ some found
  | none ↦ find_label name reg
]

-- `default` is PROFILE_DEEPSEEK.
pub stay_or_default : Option VramProfile → VramProfile → VramProfile
stay_or_default (some p) default = p
stay_or_default none default = default

-- _select_profile
pub select_profile : Registry → VramProfile → Text → Option VramProfile → VramProfile
select_profile reg default req active =
    let hinted : Option VramProfile =
      if is_auto req then none else find_profile_for_model req reg in
    elim hinted [ some p ↦ p | none ↦ stay_or_default active default ]

pub first : List ModelDefinition → Option ModelDefinition
first [] = none
first (m ∷ ms) = some m

pub model_in : ModelDefinition → List ModelDefinition → Bool
model_in m [] = false
model_in m (x ∷ xs) = elim (ModelDefinition-discrete m x) [ yes e ↦ true | no e ↦ model_in m xs ]

-- The first model of the list whose name overlaps the request.
pub first_overlap : Text → List ModelDefinition → Option ModelDefinition
unfolding overlaps lower_name
first_overlap req [] = none
first_overlap req (m ∷ ms) = if overlaps req (lower_name m) then some m else first_overlap req ms

pub or_else : Option ModelDefinition → Option ModelDefinition → Option ModelDefinition
or_else (some m) d = some m
or_else none d = d

-- `global_match and global_match in all_profile_models`
pub kept : Option ModelDefinition → List ModelDefinition → Option ModelDefinition
unfolding model_in
kept none ms = none
kept (some m) ms = if model_in m ms then some m else none

-- _select_model. Its `requested` is lowered and not stripped.
pub select_model : List ModelDefinition → String → VramProfile → Option ModelDefinition
select_model models model p =
    let req = lower (codes model) in
    let ms = all_models_of p in
    let chat = label (codes "chat") p.labels in
    if is_auto req
    then or_else chat (first p.primary_models)
    else or_else (first_overlap req ms) (
        or_else (kept (match_global req models) ms)
          (or_else (label (codes "code") p.labels) (or_else chat (first p.primary_models))))

pub decided : VramProfile → ModelDefinition → RoutingDecision
decided p m = record { media_type = text; profile = p; target_model = m; requires_swap = false }

pub standard_route :
    Registry
    → List ModelDefinition
    → VramProfile
    → String
    → Option VramProfile
    → Option RoutingDecision
unfolding decided
standard_route reg models default model active =
    let p = select_profile reg default (requested_of model) active in
    elim (select_model models model p) [ some m ↦ some (decided p m) | none ↦ none ]

-- SmartRouter.route
pub route :
    Registry
    → List ModelDefinition
    → VramProfile
    → String
    → Option VramProfile
    → Option RoutingDecision
unfolding decided
route reg models default model active =
    let req = requested_of model in
    let labelled : Option (VramProfile × ModelDefinition) =
      if is_auto req then none else resolve_label req active reg in
    elim labelled [
      | some (p, m) ↦ some (decided p m)
      | none ↦ standard_route reg models default model active
    ]
