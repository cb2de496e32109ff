-- ===== src/Lib.antt =====
-- DMR gateway: one Python process that serves several large models from a small cluster. A request
-- is routed to a profile and a model (gateway/router.py, over the catalog of gateway/config.py),
-- admitted to a slot of a queue that runs one profile at a time (gateway/admission.py), and if the
-- profile is not the active one the orchestrator (gateway/orchestrator.py) stops the running models
-- and starts those of the new profile. Beside it a governor (ops/thermal_guard.py) caps the GPU clock.
--
-- Prelude: numbers, lists, texts and tests that the parts share.
-- Admission: class AdmissionQueue and class Lease. An operation is one uninterrupted step of the
--   event loop: `acquire` up to its await, `expire` for the timeout of wait_for, `abandon` for the
--   exception handler, `release`. Futures and leases are stores, their addresses are positions, so
--   that the queue and the waiting task share them. `run` runs any sequence of steps.
-- Config, Config.Catalog: ModelDefinition, VRAMProfile, the shipped models, profiles and registry.
-- Router: class SmartRouter, with the registry as an argument. Texts are lists of code points.
-- Buffer: class RequestBuffer; Buffer.Prefix: class RadixPrefixCache, with the digest as a parameter.
--   `_pending` is not a field: nothing is ever added to it.
-- Thermal: the loop of main. Temperatures and times are natural numbers.
-- Orchestrator: class ContainerOrchestrator. Exec is the monad of its methods: the object's fields,
--   the state of the world and the calls made so far are passed on, also past a raise. Outside is the
--   record of what the methods call (the workload backend, ssh, health probes, VRAM query, clock,
--   state file); nothing is assumed of it, but of its clock where a wait has to end
--   (Orchestrator.Waiting). Command builds command lines and environments, Ray and
--   Spark are the methods of the two exec engines, Lifecycle starts and stops one workload and tears
--   a profile down, Swap waits for health and switches, Startup cleans up and adopts what runs. A
--   switch is one uninterrupted action: the swap mutex keeps other switches out, but a watchdog pass and the handlers
--   under /admin do not take it, and their steps between those of a switch are not modelled. Log lines, and times kept only for them, are left out.
-- App: _get_or_create_swap_task and _execute_swap_and_drain; all tasks ever created are kept, the newest
--   first. App.Requests: _chat_completions, and App.Leases: chat_completions with
--   until_disconnect and AdmittedStreamingResponse of gateway/admission.py; what the awaits come to are inputs.
-- Orchestrator.RayStatus, Watchdog: check_ray_requirement, without the copy that /health reads, and
--   _ray_watchdog_tick of gateway/app.py, in the monad of the orchestrator.
-- Proxy: the retry loop of chat_completion and the stream relay of class InferenceProxy; an attempt's
--   answer is an input, a function of its number. Proxy.Names: its cache of served model names, where
--   an ask is one step: asks that overlap, and a forget while one waits for GET /v1/models, are not modelled.
-- Forensics: class Writer of ops/node_forensics.py and the loop of main, its samples as inputs; a file is
--   the list of its lines, a day its ordinal. Forensics.Report: load_sessions and all_sessions of
--   ops/crash_report.py. Forensics.Probes, Forensics.Rows and Forensics.Verdict: what one sample of
--   ops/node_forensics.py asks of the system, its row, and the verdict on the session before.
--   Forensics.Live: which sessions of the log died, of ops/crash_report.py.
-- App.Draining, App.Lifespan, App.Views and App.Admin: of gateway/app.py the requests that wait in the buffer, the startup with the
--   watchdog's loop, the handlers that report, and those under /admin. The startup runs to any number of rounds of the watchdog.
-- Backends: gateway/backends. Docker has DockerBackend, over the Docker SDK as the parameter `Client`, and Kubernetes has
--   KubernetesBackend, over the API as the parameter `Api`, with the Deployment it makes in Deployment. Docker.Phases and
--   Kubernetes.Replicas state the documented behaviour of the two clients (no internal
--   errors, no refusal by the Kubernetes API of a well-formed call, no container that changes by itself meanwhile) and what the backends are to do. Worlds makes
--   of each backend the world that the model of the orchestrator runs in (Outside.World). The names of pods, phases and
--   volumes are as the API documents them; what is logged is left out.
-- Identity: identify, product_token and client_ip of gateway/identity.py; the hash is a parameter. Identity.Context:
--   the context of a request and the configured keys.
-- Vram: _query_gpus_sync, _read_host_memory and has_enough_vram of gateway/vram_monitor.py; what NVML
--   answers is an input. The orchestrator's model does not use it: there the VRAM query is part of Outside.
-- Harmony: the wire format of harmony_stub/openai_harmony/__init__.py; Harmony.Parser: its
--   StreamableParser. The tokenizer and the UTF-8 codec are the fields of Encoding.
--
-- Bounds: the health wait of a model has `swap_timeout + 2` rounds of fuel. A round without an answer
-- sleeps a second, so the time limit ends the wait first. The VRAM poll has its 15 rounds, the proxy's
-- loops their 300 attempts.
--
-- Not modelled: the access log, the HTTP layer and the shutdown of gateway/app.py; of gateway/proxy.py the payload
-- and a client that leaves; the polling loop of gateway/vram_monitor.py; the discovery of the sensors and
-- the printed report of the scripts under ops; ray-cluster, which patches installed packages; the model
-- servers under inference; the configuration classes of harmony_stub, which keep their arguments.
pub mod Admission
pub mod App
pub mod Backends
pub mod Buffer
pub mod Config
pub mod Forensics
pub mod Harmony
pub mod Identity
pub mod Orchestrator
pub mod Prelude
pub mod Proxy
pub mod Router
pub mod Thermal
pub mod Vram
pub mod Watchdog
