-- ===== src/Backends.antt =====
-- gateway/backends: the adapters between the orchestrator and Docker or Kubernetes. This file has what
-- base.py and __init__.py give them; the two clients are parameters of Docker and of Kubernetes.
pub mod Docker
pub mod Kubernetes
pub mod Worlds
pub mod Tests
use dmr.Prelude.{
  ℕ, String, Bool, true, false, Option, none, some, List, [], ◌∷◌, str_eq, if◌then◌else◌,
}
use dmr.Orchestrator.Exec.{Arg}

-- What a client raises, with its text: docker.errors.NotFound, its APIError, any other exception.
pub data Failure : Type 0 where
  not_found api_error other : String → Failure

-- str(exc)
unfoldable pub text_of : Failure → String
text_of (not_found t) = t
text_of (api_error t) = t
text_of (other t) = t

pub data Answer (A : Type 0) : Type 0 where
  value : A → Answer A
  raised : Failure → Answer A

-- A method: it calls the client, whose state is `S`, and returns or raises.
abbrev pub Method : Type 0 → Type 0 → Type 0
Method S A = S → Answer A × S

module _ {S A : Type 0} where
  unfoldable pub pure : A → Method S A
  pure a s = (value a, s)

  unfoldable pub throw : Failure → Method S A
  throw x s = (raised x, s)

  abbrev pub on_failure : (Failure → Method S A) → Answer A × S → Answer A × S
  on_failure h (value a, s) = (value a, s)
  on_failure h (raised x, s) = h x s

  -- try: m; except: h
  unfoldable pub catch : Method S A → (Failure → Method S A) → Method S A
  catch m h s = on_failure h (m s)

module _ {S A B : Type 0} where
  abbrev pub after : (A → Method S B) → Answer A × S → Answer B × S
  after f (value a, s) = f a s
  after f (raised x, s) = (raised x, s)

  infixl 10 ◌>>=◌ ◌>>◌
  unfoldable pub ◌>>=◌ : Method S A → (A → Method S B) → Method S B
  ◌>>=◌ m f s = after f (m s)

  abbrev pub ◌>>◌ : Method S A → Method S B → Method S B
  m >> n = m >>= λ _. n

-- base.ExecResult
pub record ExecResult : Type 0 where
  pub exit_code : ℕ
  pub output : String

-- `str | list[str] | None`
pub data Command : Type 0 where
  no_command : Command
  shell_line : Arg → Command
  words : List Arg → Command

-- A value of `volumes`: a dict with "bind" and "mode", or anything else.
pub data MountInfo : Type 0 where
  options : Option String → Option String → MountInfo
  opaque : MountInfo

-- What base.OrchestrationBackend.create_and_start takes.
pub record Creation : Type 0 where
  pub name : String
  pub image : String
  pub command : Command
  pub environment : List (String × Arg)
  pub volumes : List (String × MountInfo)
  pub port : ℕ
  pub shm_size : String
  pub entrypoint : Option (List String)

pub data BackendKind : Type 0 where
  docker kubernetes : BackendKind

-- create_backend, for ORCHESTRATION_BACKEND in lower case; `none` is the ValueError.
unfoldable pub create_backend : String → Option BackendKind
create_backend t =
    if str_eq t "docker"
    then some docker
    else (if str_eq t "kubernetes" then some kubernetes else none)
