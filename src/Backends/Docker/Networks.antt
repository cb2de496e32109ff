-- ===== src/Backends/Docker/Networks.antt =====
-- DockerBackend.ensure_network, with a Docker SDK whose networks have nothing to do with the containers' status.
use dmr.Prelude.{String, Bool, true, false, some, none, if◌then◌else◌, ◌≡◌, refl, ◌∙◌, ap}
use dmr.Backends.{
  Answer, value, raised, not_found, api_error, other, pure, after, on_failure, catch, ◌>>=◌,
}
use dmr.Backends.Docker.{
  Container, Client, or_else, join_network, ensure_network, get_workload, info_of,
}
use dmr.Backends.Docker.Phases.{IsDaemon}

-- What is raised is an error that the SDK documents.
abbrev pub IsDocumented : {A : Type 0} → Answer A → Type 0
IsDocumented (raised (other t)) = ⊥
IsDocumented _ = Unit

-- Looking up a network and connecting a container to it changes no container's status.
pub record HasNetworks (d : Client) (w : IsDaemon d) : Type 0 where
  pub get_network_apart :
      (t : String) (s : d.State)
      → (r : Answer String) × ((d.get_network t s ≡ (r, s)) × IsDocumented r)
  pub connect_apart :
      (t : String) (c : Container) (s : d.State)
      → (r : Answer (Unit {0})) × ((s' : d.State) × ((d.connect t c s ≡ (r, s'))
            × (IsDocumented r × (w.status s' ≡ w.status s))))

module _ (network : String) (d : Client) (w : IsDaemon d) (x : HasNetworks d w) where
  -- A connection, for what the lookup of the network came to.
  connected :
      (c : Container) (s : d.State) (a : Answer String)
      → IsDocumented a
      → (b : Answer (Unit {0})) × ((s' : d.State) × ((after (λ net. d.connect net c) (a, s)
              ≡ (b, s'))
            × (IsDocumented b × (w.status s' ≡ w.status s))))
  connected c s (value net) h = x.connect_apart net c s
  connected c s (raised (not_found t)) h = (raised (not_found t), (s, (refl, (tt, refl))))
  connected c s (raised (api_error t)) h = (raised (api_error t), (s, (refl, (tt, refl))))
  connected c s (raised (other t)) h = absurd h

  joined :
      (c : Container) (s : d.State) (b : Bool)
      → (a : Answer (Unit {0})) × ((s' : d.State) × (((if b
                  then pure tt
                  else (d.get_network network >>= λ net. d.connect net c))
                s
              ≡ (a, s'))
            × (IsDocumented a × (w.status s' ≡ w.status s))))
  unfolding pure ◌>>=◌
  joined c s true = (value tt, (s, (refl, (tt, refl))))
  joined c s false =
      let (a, (e, h)) = x.get_network_apart network s in
      let (b, (s', (q, k))) = connected c s a h in
      (b, (s', (ap (after (λ net. d.connect net c)) e ∙ q, k)))

  quiet :
      (s : d.State) (a : Answer (Unit {0}))
      → IsDocumented a
      → on_failure (or_else tt) (a, s) ≡ (value tt, s)
  unfolding or_else pure
  quiet s (value tt) h = refl
  quiet s (raised (not_found t)) h = refl
  quiet s (raised (api_error t)) h = refl
  quiet s (raised (other t)) h = absurd h

  -- It returns, and no container's status has changed.
  pub ensure_network-quiet :
      (n : String) (s : d.State) (v : String)
      → w.status s n ≡ some v
      → (s' : d.State) × ((ensure_network network d n s ≡ (value tt, s'))
          × (w.status s' ≡ w.status s))
  unfolding ensure_network join_network catch ◌>>=◌
  ensure_network-quiet n s v h =
      let (c, (found, _)) = w.get_found n s v h in
      let (a, (s', (e, (doc, same)))) = joined c s _ in
      (
        s',
        (
          ap (λ p. on_failure (or_else tt) (after (join_network network d) p)) found
              ∙ (ap (on_failure (or_else tt)) e ∙ quiet s' a doc),
          same,
        ),
      )

pub get_workload-found :
    (d : Client) (w : IsDaemon d) (n : String) (s : d.State) (v : String)
    → w.status s n ≡ some v
    → (c : Container) × ((get_workload d n s ≡ (value (some (info_of c)), s)) × (c.status ≡ v))
unfolding get_workload catch ◌>>=◌ pure
get_workload-found d w n s v h =
    let (c, (found, (_, same))) = w.get_found n s v h in (c, (rw found refl, same))

pub get_workload-missing :
    (d : Client) (w : IsDaemon d) (n : String) (s : d.State)
    → w.status s n ≡ none
    → get_workload d n s ≡ (value none, s)
unfolding get_workload catch ◌>>=◌ pure or_else
get_workload-missing d w n s h = rw ((w.get_missing n s h).1) refl
