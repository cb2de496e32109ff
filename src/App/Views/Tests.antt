-- ===== src/App/Views/Tests.antt =====
-- The handlers of gateway/app.py over the catalog of gateway/config.py, and instances of their theorems.
use dmr.Prelude.{
  ℕ, zero, suc, inl, arith, ◌≢◌, ◌≡◌, refl, String, true, false, none, some, [], ◌∷◌, get_elem?,
}
use dmr.Config.{is_exec}
use dmr.Config.Catalog.{
  profile_qwen38, profile_deepseek, profiles, deepseek_v4_flash, qwen35_122b_fp8,
}
use dmr.Orchestrator.Exec.{St}
use dmr.Orchestrator.Settings.{model_of_container}
use dmr.Orchestrator.Ownership.{IsExternal, IsUntouched}
use dmr.Orchestrator.Tests.{healthy, settings, on_qwen38}
use dmr.App.{success}
use dmr.App.Requests.{Dispatched, plain}
use dmr.Buffer.{Buffer, pending}
use dmr.Buffer.Fates.{IsHeld, Awaits}
use dmr.App.Draining.{Drain, end_of_swap}
use dmr.App.Draining.Settles.{end_of_swap-settles}
use dmr.App.Views.{list_profiles, active_profile, profile_status}
use dmr.App.Views.Agreement.{first_active, reply_for, slots_in, views-agree}
use dmr.App.Lifespan.{lifespan}
use dmr.App.Lifespan.Safety.{lifespan-IsUntouched}

views-agree_example :
    (active_profile settings on_qwen38
      ≡ reply_for (first_active (list_profiles settings on_qwen38).1))
    × ((profile_status settings on_qwen38).1
        ≡ slots_in (first_active (list_profiles settings on_qwen38).1))
views-agree_example = views-agree settings on_qwen38 (refl, (refl, (refl, tt)))

abbrev cold : St ℕ
cold = record {
  container_states = [];
  active_profile = none;
  swap_in_progress = false;
  world = 0;
  calls = [];
}

deepseek-IsExternal : IsExternal settings deepseek_v4_flash.container_name
unfolding IsExternal model_of_container is_exec
deepseek-IsExternal = (deepseek_v4_flash, (refl, refl))

qwen35-IsExternal : IsExternal settings qwen35_122b_fp8.container_name
unfolding IsExternal model_of_container is_exec
qwen35-IsExternal = (_, (refl, refl))

lifespan-IsUntouched_example :
    IsUntouched settings
      (lifespan healthy settings ("deepseek", profile_deepseek) (some "qwen38") 30 3 cold).1
unfolding is_exec
lifespan-IsUntouched_example =
    lifespan-IsUntouched healthy settings ("deepseek", profile_deepseek) (some "qwen38") 30 3 cold
      (refl, (refl, (refl, tt)))
      (
        ((refl, tt), (deepseek-IsExternal, tt)),
        (((refl, tt), (qwen35-IsExternal, tt)), (((refl, tt), (deepseek-IsExternal, tt)), tt)),
      )
      ((refl, tt), (deepseek-IsExternal, tt)) refl refl

abbrev waiting : Buffer String (Dispatched ℕ)
waiting = record {
  maxsize = 2;
  queue = record { request = "chat"; future = 0; enqueued_at = 0; timeout = 60 } ∷ [];
  futures = pending ∷ [];
}

waiting-IsHeld : IsHeld waiting
waiting-IsHeld = record { held = go; bounded = λ p. omega arith }
  where
    go : (f : ℕ) → get_elem? waiting.futures f ≡ some pending → Awaits f waiting.queue
    go zero e = inl refl
    go (suc f) e = cc

abbrev outcomes : Drain String ℕ
outcomes = record {
  registry = profiles;
  models = settings.all_models;
  fallback = profile_deepseek;
  model_of = λ a. a;
  active = λ k. some profile_qwen38;
  answer = λ k d a. plain true k;
  cancels = λ k. [];
}

end_of_swap-settles_example :
    ((end_of_swap outcomes (λ k. 50) (success true) waiting).queue ≡ [])
    × ((f : ℕ)
        → get_elem? (end_of_swap outcomes (λ k. 50) (success true) waiting).futures f
          ≢ some pending)
end_of_swap-settles_example =
    end_of_swap-settles outcomes (λ k. 50) (success true) waiting waiting-IsHeld
