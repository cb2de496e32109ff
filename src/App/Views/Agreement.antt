-- ===== src/App/Views/Agreement.antt =====
-- The reports of gateway/app.py on profiles: what a slot says, and that the three handlers agree.
use mathlib.Core.List.{map, append_assoc, append-nil}
use mathlib.Core.Path.{subst}
use dmr.Prelude.{
  arith, String, Bool, true, false, Option, none, some, List, [], ◌∷◌, ◌++◌, str_eq, eq_iff,
  if◌then◌else◌, ◌≡◌, refl, sym, ◌∙◌, ap, All,
}
use dmr.Config.{ModelDefinition, VramProfile, Registry, get_profile, all_models_of}
use dmr.Orchestrator.Exec.{ContainerState, St}
use dmr.Orchestrator.Settings.{Settings}
use dmr.Orchestrator.RayStatus.{active_vram_profile, profile_named}
use dmr.App.Views.{
  ModelSlot, to_slot, add_label, labels_by_model, labels_of, sorted, join, ProfileDetail,
  slot_state, slots, build_profile_detail, is_key, details_of, Reply, http_error, response,
  models_of, detail_or_404, list_profiles, active_detail, active_profile, profile_status,
}

-- The labels of a profile that are given to models of this name, in their order.
abbrev pub labels_for : String → List (String × ModelDefinition) → List String
labels_for n [] = []
labels_for n ((l, m) ∷ ls) = if str_eq m.name n then l ∷ labels_for n ls else labels_for n ls

labels_of-add_label :
    (n k l : String) (ds : List (String × List String))
    → labels_of n (add_label k l ds)
      ≡ (if str_eq k n then labels_of n ds ++ l ∷ [] else labels_of n ds)
unfolding labels_of add_label
labels_of-add_label n k l [] = refl
labels_of-add_label n k l ((j, ls) ∷ ds) =
    ground (arith, labels_of-add_label n k l ds, eq_iff j k, eq_iff k n, eq_iff j n)

labels_of-labels_by_model :
    (n : String) (ls : List (String × ModelDefinition)) (ds : List (String × List String))
    → labels_of n (labels_by_model ls ds) ≡ labels_of n ds ++ labels_for n ls
unfolding labels_by_model
labels_of-labels_by_model n [] ds = sym (append-nil _)
labels_of-labels_by_model n ((l, m) ∷ ls) ds =
    labels_of-labels_by_model n ls (add_label m.name l ds)
    ∙ (ap (◌++ labels_for n ls) (labels_of-add_label n m.name l ds)
        ∙ pick (str_eq m.name n) (labels_of n ds))
  where
    pick :
        (b : Bool) (xs : List String)
        → (if b then xs ++ l ∷ [] else xs) ++ labels_for n ls
          ≡ xs ++ (if b then l ∷ labels_for n ls else labels_for n ls)
    pick true xs = append_assoc xs (l ∷ []) (labels_for n ls)
    pick false xs = refl

-- A slot, from the profile: the labels given to the model's name, sorted and joined, and the container's state.
abbrev pub slot_for :
    List (String × ContainerState) → VramProfile → Bool → ModelDefinition → ModelSlot
slot_for states p active m = record (to_slot m (slot_state states active m)) {
  label = join (sorted (labels_for m.name p.labels));
}

slots-map :
    (states : List (String × ContainerState)) (p : VramProfile) (active : Bool)
    (ms : List ModelDefinition)
    → slots states (labels_by_model p.labels []) active ms ≡ map (slot_for states p active) ms
unfolding slots labels_of
slots-map states p active [] = refl
slots-map states p active (m ∷ ms) =
    rw (labels_of-labels_by_model m.name p.labels [], slots-map states p active ms) refl

-- A detail has one slot for each model of the profile, in their order: its label is all labels that the profile gives to a model
-- of its name, sorted and joined, and its state is that of its container if the profile is active and STOPPED if it is not.
pub build_profile_detail-map :
    (states : List (String × ContainerState)) (key : String) (p : VramProfile) (active : Bool)
    → (build_profile_detail states key p active).models
      ≡ map (slot_for states p active) (all_models_of p)
unfolding build_profile_detail
build_profile_detail-map states key p active = slots-map states p active (all_models_of p)

-- The first detail that is marked as active.
abbrev pub first_active : List ProfileDetail → Option ProfileDetail
first_active [] = none
first_active (d ∷ ds) = if d.is_active then some d else first_active ds

-- The reply with a detail, and 404 without one.
abbrev pub reply_for : Option ProfileDetail → Reply ProfileDetail
reply_for none = http_error 404
reply_for (some d) = response d

abbrev pub slots_in : Option ProfileDetail → List ModelSlot
slots_in none = []
slots_in (some d) = d.models

slots_replied : Reply ProfileDetail → List ModelSlot
slots_replied (http_error code) = []
slots_replied (response d) = d.models

slots_replied-reply_for : (o : Option ProfileDetail) → slots_replied (reply_for o) ≡ slots_in o
unfolding slots_replied
slots_replied-reply_for none = refl
slots_replied-reply_for (some d) = refl

first_active-details :
    (states : List (String × ContainerState)) (key : String) (reg : Registry)
    → reply_for (first_active (details_of states (some key) reg))
      ≡ detail_or_404 states key (get_profile key reg)
unfolding details_of detail_or_404 get_profile is_key build_profile_detail
first_active-details states key [] = refl
first_active-details states key ((k, p) ∷ reg) =
    pick (str_eq k key) (eq_iff k key).0 (first_active-details states key reg)
  where
    pick :
        (b : Bool)
        → (b ≡ true → k ≡ key)
        → reply_for (first_active (details_of states (some key) reg))
          ≡ detail_or_404 states key (get_profile key reg)
        → reply_for (
            if b
            then some (build_profile_detail states k p b)
            else first_active (details_of states (some key) reg))
          ≡ detail_or_404 states key (if b then some p else get_profile key reg)
    pick true e ih = ap (λ x. response (build_profile_detail states x p true)) (e refl)
    pick false e ih = ih

first_active-none :
    (states : List (String × ContainerState)) (reg : Registry)
    → first_active (details_of states none reg) ≡ none
unfolding details_of is_key build_profile_detail
first_active-none states [] = refl
first_active-none states (k ∷ reg) = first_active-none states reg

first_active-empty :
    (states : List (String × ContainerState)) (reg : Registry)
    → All (λ k. str_eq k.0 "" ≡ false) reg
    → first_active (details_of states (some "") reg) ≡ none
unfolding details_of is_key build_profile_detail
first_active-empty states [] h = refl
first_active-empty states (k ∷ reg) (a, h) = rw a (first_active-empty states reg h)

listed :
    (states : List (String × ContainerState)) (key : String) (o : Option VramProfile)
    → models_of states (some key) o ≡ slots_replied (detail_or_404 states key o)
unfolding models_of detail_or_404 slots_replied
listed states key none = refl
listed states key (some p) = refl

module _ {W : Type 0} (c : Settings) where
  Agrees : St W → Option String → Type 0
  Agrees s a =
      (reply_for (first_active (details_of s.container_states a c.registry)) ≡ active_detail c s a)
      × (models_of s.container_states a (profile_named c a) ≡ slots_replied (active_detail c s a))

  agree :
      (s : St W) → All (λ k. str_eq k.0 "" ≡ false) c.registry → (a : Option String) → Agrees s a
  unfolding active_detail profile_named models_of slots_replied Agrees
  agree s h none = (ap reply_for (first_active-none s.container_states c.registry), refl)
  agree s h (some key) = pick (str_eq key "") (eq_iff key "").0
    where
      pick :
          (b : Bool)
          → (b ≡ true → key ≡ "")
          → let d =
              if b
              then http_error 404
              else detail_or_404 s.container_states key (get_profile key c.registry) in
            (reply_for (first_active (details_of s.container_states (some key) c.registry)) ≡ d)
            × (models_of s.container_states
                  (some key)
                  (if b then none else get_profile key c.registry)
                ≡ slots_replied d)
      pick true e = (
        ap reply_for (
            subst (λ k. first_active (details_of s.container_states (some k) c.registry) ≡ none)
              (sym (e refl)) (first_active-empty s.container_states c.registry h)),
        refl,
      )
      pick false e = (
        first_active-details s.container_states key c.registry,
        listed s.container_states key (get_profile key c.registry),
      )

  -- Where no profile of the registry has an empty key, GET /v1/profiles/active answers the first detail of GET /v1/profiles that is
  -- marked as active, and the error 404 if there is none, and the models of GET /status/profile are those of that
  -- detail, and none if there is none.
  pub views-agree :
      (s : St W)
      → All (λ k. str_eq k.0 "" ≡ false) c.registry
      → (active_profile c s ≡ reply_for (first_active (list_profiles c s).1))
        × ((profile_status c s).1 ≡ slots_in (first_active (list_profiles c s).1))
  unfolding list_profiles active_profile profile_status active_vram_profile Agrees
  views-agree s h =
      let (e, q) = agree s h s.active_profile in
      (sym e, q ∙ (ap slots_replied (sym e) ∙ slots_replied-reply_for _))
