-- ===== src/Watchdog/Passes.antt =====
-- What a pass of the watchdog keeps: a predicate that marking a container as ERROR keeps, and that no call but a
-- lifecycle call touches.
use dmr.Prelude.{String, Option, none, some, List, [], ◌∷◌}
use dmr.Config.{ModelDefinition, VramProfile, all_models_of}
use dmr.Orchestrator.Exec.{error, St}
use dmr.Orchestrator.Exec.Preserves.{Preserves, Preserves-pure, Preserves-bind, preserve_rules}
use dmr.Orchestrator.Outside.{World}
use dmr.Orchestrator.Cluster.{
  IsFrame, find_ray_head-Preserves, count_ray_nodes-Preserves, check_health-Preserves,
}
use dmr.Orchestrator.Settings.{Settings, set_state}
use dmr.Orchestrator.Ray.{find_ray_head}
use dmr.Orchestrator.RayStatus.{
  check_cluster, check_clusters, check_ray_models, check_loaded, check_ray_requirement, Groups,
  uses_ray,
}
use dmr.Watchdog.{
  mark_if_ready, mark_ray, probe_model, check_model, mark_headless, check_models, tick_with,
  ray_watchdog_tick,
}

pub record IsMarkable {W : Type 0} (P : St W → Type 0) : Type 1 where
  pub frame : IsFrame P
  pub marks : (n : String) → Preserves P (set_state n error)

module _ (e : World) (c : Settings) {P : St e.State → Type 0} (k : IsMarkable P) where
  pub mark_if_ready-Preserves : (m : ModelDefinition) → Preserves P (mark_if_ready m)
  unfolding mark_if_ready
  mark_if_ready-Preserves m = search (preserve_rules, k.marks)

  pub mark_ray-Preserves : (m : ModelDefinition) → Preserves P (mark_ray m)
  unfolding mark_ray
  mark_ray-Preserves m = search (preserve_rules, k.marks)

  pub mark_headless-Preserves : (h : Option String) → Preserves P (mark_headless e c h)
  unfolding mark_headless
  mark_headless-Preserves none = search (preserve_rules, mark_ray-Preserves)
  mark_headless-Preserves (some h) = search preserve_rules

  probe_model-Preserves : (m : ModelDefinition) → Preserves P (probe_model e c m)
  unfolding probe_model
  probe_model-Preserves m = search (
    preserve_rules,
    mark_if_ready-Preserves,
    check_health-Preserves e k.frame m.container_name m.port,
  )

  pub check_model-Preserves :
      (h : Option String) (d : List String) (m : ModelDefinition)
      → Preserves P (check_model e c h d m)
  unfolding check_model
  check_model-Preserves h d m =
      search (preserve_rules, mark_if_ready-Preserves, probe_model-Preserves)

  check_cluster-Preserves :
      (h : Option String) (g : String × List ModelDefinition) → Preserves P (check_cluster e c h g)
  unfolding check_cluster
  check_cluster-Preserves h g = search (preserve_rules, count_ray_nodes-Preserves e k.frame)

  check_clusters-Preserves :
      (h : Option String) (gs : Groups) → Preserves P (check_clusters e c h gs)
  unfolding check_clusters
  check_clusters-Preserves h [] = search preserve_rules
  check_clusters-Preserves h (g ∷ gs) =
      Preserves-bind _ _ (check_cluster-Preserves h g)
        (λ s. Preserves-bind _ _ (check_clusters-Preserves h gs) (λ ss. Preserves-pure _))

  check_ray_models-Preserves : (ms : List ModelDefinition) → Preserves P (check_ray_models e c ms)
  unfolding check_ray_models
  check_ray_models-Preserves [] = search preserve_rules
  check_ray_models-Preserves (m ∷ ms) = found (find_ray_head-Preserves e k.frame)
    where
      found : Preserves P (find_ray_head e) → Preserves P (check_ray_models e c (m ∷ ms))
      found h = search (preserve_rules, check_clusters-Preserves)

  check_loaded-Preserves : (p : Option VramProfile) → Preserves P (check_loaded e c p)
  unfolding check_loaded
  check_loaded-Preserves none = search preserve_rules
  check_loaded-Preserves (some p) = check_ray_models-Preserves (uses_ray (all_models_of p))

  pub check_ray_requirement-Preserves : Preserves P (check_ray_requirement e c)
  unfolding check_ray_requirement
  check_ray_requirement-Preserves = search (preserve_rules, check_loaded-Preserves)

  pub check_models-Preserves : (h : Option String) → Preserves P (check_models e c h)
  unfolding check_models
  check_models-Preserves h = checked check_ray_requirement-Preserves
    where
      checked : Preserves P (check_ray_requirement e c) → Preserves P (check_models e c h)
      checked r = search (preserve_rules, check_model-Preserves)

  pub tick_with-Preserves : (h : Option String) → Preserves P (tick_with e c h)
  unfolding tick_with
  tick_with-Preserves h = search (preserve_rules, mark_headless-Preserves, check_models-Preserves)

  pub ray_watchdog_tick-Preserves : Preserves P (ray_watchdog_tick e c)
  unfolding ray_watchdog_tick
  ray_watchdog_tick-Preserves =
      Preserves-bind _ _ (find_ray_head-Preserves e k.frame) tick_with-Preserves
