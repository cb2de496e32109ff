-- ===== src/Router/Ownership.antt =====
-- The router of gateway/router.py never sends a request to a model outside the chosen profile.
use dmr.Prelude.{
  String, ◌≡◌, refl, ◌⊎◌, inl, inr, true, Option, none, some, List, [], ◌∷◌, ◌++◌, if◌then◌else◌,
  Text, codes, lower, Elem, All, All-Elem, Bool-cases, sym, text_eq, ◌≢◌,
}
use dmr.Config.{ModelDefinition, VramProfile, Registry, all_models_of, ModelDefinition-discrete}
use dmr.Router.Matching.{find_profile-registered}
use dmr.Router.{
  RoutingDecision, lower_name, requested_of, is_auto, overlaps, find_profile_for_model,
  match_global, label, find_label, label_in_active, resolve_label, stay_or_default, select_profile,
  first, model_in, first_overlap, or_else, kept, select_model, decided, standard_route, route,
}

abbrev pub Labelled : List ModelDefinition → List (String × ModelDefinition) → Type 0
Labelled ms ls = All (λ l. Elem l.1 ms) ls

-- A profile has a primary model, and its labels name models of its own.
pub record IsComplete (p : VramProfile) : Type 0 where
  pub primary : p.primary_models ≢ []
  pub labelled : Labelled (all_models_of p) p.labels

abbrev pub Complete : Registry → Type 0
Complete reg = All (λ e. IsComplete e.1) reg

-- A model, if there is one, is of the list; and there surely is one.
abbrev Within : List ModelDefinition → Option ModelDefinition → Type 0
Within ms none = Unit {0}
Within ms (some m) = Elem m ms

abbrev Surely : List ModelDefinition → Option ModelDefinition → Type 0
Surely ms none = ⊥
Surely ms (some m) = Elem m ms

or_else-Surely :
    (ms : List ModelDefinition) (a b : Option ModelDefinition)
    → Within ms a
    → Surely ms b
    → Surely ms (or_else a b)
unfolding or_else
or_else-Surely ms none b h k = k
or_else-Surely ms (some m) b h k = h

label-Within :
    (n : Text) (ms : List ModelDefinition) (ls : List (String × ModelDefinition))
    → Labelled ms ls
    → Within ms (label n ls)
unfolding label
label-Within n ms [] h = tt
label-Within n ms ((k, m) ∷ ls) h = elim (Bool-cases (text_eq (codes k) n)) [
  | inl e ↦ rw e h.0
  | inr e ↦ rw e (label-Within n ms ls h.1)
]

first-Surely : (ms rest : List ModelDefinition) → ms ≢ [] → Surely (ms ++ rest) (first ms)
unfolding first
first-Surely [] rest h = absurd (h refl)
first-Surely (m ∷ ms) rest h = inl refl

first_overlap-Within : (req : Text) (ms : List ModelDefinition) → Within ms (first_overlap req ms)
unfolding first_overlap
first_overlap-Within req [] = tt
first_overlap-Within req (m ∷ ms) = elim (Bool-cases (overlaps req (lower_name m))) [
  | inl e ↦ rw e (inl refl)
  | inr e ↦ rw e (wider (first_overlap req ms) (first_overlap-Within req ms))
]
  where
    wider : (o : Option ModelDefinition) → Within ms o → Within (m ∷ ms) o
    wider none h = tt
    wider (some x) h = inr h

model_in-Elem : (m : ModelDefinition) (ms : List ModelDefinition) → model_in m ms ≡ true → Elem m ms
unfolding model_in
model_in-Elem m [] h = cc
model_in-Elem m (x ∷ xs) h = decide (ModelDefinition-discrete m x) refl (model_in-Elem m xs)
  where
    decide :
        (d : Dec (m ≡ x))
        → ModelDefinition-discrete m x ≡ d
        → (model_in m xs ≡ true → Elem m xs)
        → Elem m (x ∷ xs)
    decide (yes e) q rest = inl e
    decide (no e) q rest = inr (rest (rw (q, model_in) at h))

kept-Within : (o : Option ModelDefinition) (ms : List ModelDefinition) → Within ms (kept o ms)
unfolding kept
kept-Within none ms = tt
kept-Within (some m) ms = elim (Bool-cases (model_in m ms)) [
  | inl e ↦ rw e (model_in-Elem m ms e)
  | inr e ↦ rw e tt
]

select_model-Surely :
    (models : List ModelDefinition) (model : String) (p : VramProfile)
    → IsComplete p
    → Surely (all_models_of p) (select_model models model p)
unfolding select_model
select_model-Surely models model p c =
    let req = lower (codes model) in
    let ms = all_models_of p in
    let chat = label-Within (codes "chat") ms p.labels c.labelled in
    let code = label-Within (codes "code") ms p.labels c.labelled in
    let last =
      or_else-Surely ms _ _ chat (first-Surely p.primary_models p.secondary_models c.primary) in
    elim (Bool-cases (is_auto req)) [
      | inl e ↦ rw e last
      | inr e ↦ rw e (
          or_else-Surely ms _ _ (first_overlap-Within req ms) (
            or_else-Surely ms _ _ (kept-Within (match_global req models) ms)
              (or_else-Surely ms _ _ code last)))
    ]

-- The profile of a decision is the active one or one of the registry.
abbrev pub Known : Registry → Option VramProfile → VramProfile → Type 0
Known reg active p = (active ≡ some p) ⊎ ((k : String) × Elem (k, p) reg)

abbrev AllOwn : Registry → Option VramProfile → Option (VramProfile × ModelDefinition) → Type 0
AllOwn reg active none = Unit {0}
AllOwn reg active (some (p, m)) = Known reg active p × Elem m (all_models_of p)

-- What a decision has to satisfy.
abbrev pub Serves : Registry → Option VramProfile → Option RoutingDecision → Type 0
Serves reg active none = ⊥
Serves reg active (some d) =
    Known reg active d.profile × Elem d.target_model (all_models_of d.profile)

label_in_active-AllOwn :
    (n : Text) (reg : Registry) (active : Option VramProfile)
    → ((p : VramProfile) → active ≡ some p → IsComplete p)
    → AllOwn reg active (label_in_active n active)
unfolding label_in_active
label_in_active-AllOwn n reg none c = tt
label_in_active-AllOwn n reg (some p) c =
    own (label n p.labels) (label-Within n (all_models_of p) p.labels (c p refl).labelled)
  where
    own :
        (o : Option ModelDefinition)
        → Within (all_models_of p) o
        → AllOwn reg (some p) (elim o [ some m ↦ some (p, m) | none ↦ none ])
    own none h = tt
    own (some m) h = (inl refl, h)

find_label-AllOwn :
    (n : Text) (reg full : Registry) (active : Option VramProfile)
    → ((k : String) (p : VramProfile) → Elem (k, p) reg → Elem (k, p) full)
    → Complete reg
    → AllOwn full active (find_label n reg)
unfolding find_label
find_label-AllOwn n [] full active sub c = tt
find_label-AllOwn n ((k, p) ∷ ps) full active sub c =
    own (label n p.labels) (label-Within n (all_models_of p) p.labels c.0.labelled)
      (find_label-AllOwn n ps full active (λ j q h. sub j q (inr h)) c.1)
  where
    own :
        (o : Option ModelDefinition)
        → Within (all_models_of p) o
        → AllOwn full active (find_label n ps)
        → AllOwn full active (elim o [ some m ↦ some (p, m) | none ↦ find_label n ps ])
    own none h rest = rest
    own (some m) h rest = (inr (k, sub k p (inl refl)), h)

module _ (reg : Registry) (active : Option VramProfile) (complete : Complete reg)
    (active_complete : (p : VramProfile) → active ≡ some p → IsComplete p) where
  resolve_label-AllOwn : (n : Text) → AllOwn reg active (resolve_label n active reg)
  unfolding resolve_label
  resolve_label-AllOwn n =
      own (label_in_active n active) (label_in_active-AllOwn n reg active active_complete)
    where
      own :
          (o : Option (VramProfile × ModelDefinition))
          → AllOwn reg active o
          → AllOwn reg active (elim o [ some found ↦ some found | none ↦ find_label n reg ])
      own none h = find_label-AllOwn n reg reg active (λ k p h. h) complete
      own (some (p, m)) h = h

  Known-IsComplete : (p : VramProfile) → Known reg active p → IsComplete p
  Known-IsComplete p (inl e) = active_complete p e
  Known-IsComplete p (inr (k, m)) = All-Elem (λ e. IsComplete e.1) (k, p) reg complete m

  module _ (default : VramProfile) (registered : (k : String) × Elem (k, default) reg) where
    select_profile-Known : (req : Text) → Known reg active (select_profile reg default req active)
    unfolding select_profile stay_or_default
    select_profile-Known req =
        chosen (if is_auto req then none else find_profile_for_model req reg)
          (elim (Bool-cases (is_auto req)) [
            | inl e ↦ rw e (λ p h. cc)
            | inr e ↦ rw e (find_profile-registered req reg)
          ])
      where
        fallback :
            (a : Option VramProfile) → a ≡ active → Known reg active (stay_or_default a default)
        fallback none e = inr registered
        fallback (some p) e = inl (sym e)

        chosen :
            (o : Option VramProfile)
            → ((p : VramProfile) → o ≡ some p → (k : String) × Elem (k, p) reg)
            → Known reg active (elim o [ some p ↦ p | none ↦ stay_or_default active default ])
        chosen none h = fallback active refl
        chosen (some p) h = inr (h p refl)

    -- Whatever a request asks for, it is routed, and to a model of the profile it is routed to;
    -- that profile is the active one or a registered one. (Every known profile has a primary model
    -- and labels only its own models.)
    pub route-Serves :
        (models : List ModelDefinition) (model : String)
        → Serves reg active (route reg models default model active)
    unfolding route standard_route decided
    route-Serves models model =
        labelled (if is_auto req then none else resolve_label req active reg)
          (elim (Bool-cases (is_auto req)) [
            | inl e ↦ rw e tt
            | inr e ↦ rw e (resolve_label-AllOwn req)
          ])
      where
        req : Text
        req = requested_of model

        p : VramProfile
        p = select_profile reg default req active

        known : Known reg active p
        known = select_profile-Known req

        picked :
            (o : Option ModelDefinition)
            → Surely (all_models_of p) o
            → Serves reg active (elim o [ some m ↦ some (decided p m) | none ↦ none ])
        picked none h = absurd h
        picked (some m) h = (known, h)

        labelled :
            (o : Option (VramProfile × ModelDefinition))
            → AllOwn reg active o
            → Serves reg active (elim o [
              | some (q, m) ↦ some (decided q m)
              | none ↦ standard_route reg models default model active
            ])
        labelled none h = picked _ (select_model-Surely models model p (Known-IsComplete p known))
        labelled (some (q, m)) h = h
