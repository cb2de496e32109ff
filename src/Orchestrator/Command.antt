-- ===== src/Orchestrator/Command.antt =====
-- Environment and command line of a model in gateway/orchestrator.py (_build_env, _build_cmd).
use dmr.Prelude.{
  String, Bool, true, false, Option, none, some, List, [], ◌∷◌, ◌++◌, str_eq, if◌then◌else◌, codes,
  lower, text_eq,
}
use dmr.Config.{
  Engine, vllm, ray_vllm, spark_cluster, ModelDefinition, ArgValue, text, number, flag, tokens,
  derived, MaxModelLen,
}
use dmr.Orchestrator.Exec.{Arg, word, decimal, letters}

-- str(model.max_model_len)
unfoldable pub len_arg : MaxModelLen → Arg
len_arg (tokens n) = decimal n
len_arg (derived s) = word s

unfoldable pub words : List String → List Arg
words [] = []
words (s ∷ ss) = word s ∷ words ss

-- The loop over extra_args: a true flag is its key alone, a false one nothing.
unfoldable pub extra_arg : String → ArgValue → List Arg
extra_arg k (flag true) = word k ∷ []
extra_arg k (flag false) = []
extra_arg k (text s) = word k ∷ word s ∷ []
extra_arg k (number n) = word k ∷ decimal n ∷ []

unfoldable pub extra_args : List (String × ArgValue) → List Arg
unfolding extra_arg
extra_args [] = []
extra_args ((k, v) ∷ vs) = extra_arg k v ++ extra_args vs

unfoldable pub serves_vllm : Engine → Bool
serves_vllm vllm = true
serves_vllm ray_vllm = true
serves_vllm spark_cluster = true
serves_vllm _ = false

-- model.hf_model_id if model.hf_model_id else other
unfoldable pub hf_or : String → ModelDefinition → String
hf_or other m = if str_eq m.hf_model_id "" then other else m.hf_model_id

-- `--quantization model.quantization.lower()`, unless that is "auto".
unfoldable pub quantization_args : ModelDefinition → List Arg
unfolding lower text_eq
quantization_args m =
    if text_eq (lower (codes m.quantization)) (codes "auto")
    then []
    else word "--quantization" ∷ letters (lower (codes m.quantization)) ∷ []

-- _build_cmd; `none` for the engines that use their image's entrypoint.
unfoldable pub build_cmd : ModelDefinition → Option (List Arg)
unfolding words len_arg hf_or serves_vllm quantization_args extra_args
build_cmd m =
    if serves_vllm m.engine
    then some (
        words m.cmd_prefix
        ++ (word (hf_or "/models" m)
              ∷ word "--port"
              ∷ decimal m.port
              ∷ word "--served-model-name"
              ∷ word m.name
              ∷ word "--tensor-parallel-size"
              ∷ decimal m.tensor_parallel_size
              ∷ word "--max-model-len"
              ∷ len_arg m.max_model_len
              ∷ word "--kv-cache-dtype"
              ∷ word m.kv_cache_dtype
              ∷ word "--enable-prefix-caching"
              ∷ word "--trust-remote-code"
              ∷ quantization_args m
            ++ extra_args m.extra_args))
    else none

-- d[k] = v on the environment: a key that is there keeps its place.
unfoldable pub put_env : String → Arg → List (String × Arg) → List (String × Arg)
put_env k v [] = (k, v) ∷ []
put_env k v ((j, w) ∷ vs) = if str_eq j k then (k, v) ∷ vs else (j, w) ∷ put_env k v vs

unfoldable pub add_env : List (String × String) → List (String × Arg) → List (String × Arg)
unfolding put_env
add_env [] env = env
add_env ((k, v) ∷ vs) env = add_env vs (put_env k (word v) env)

unfoldable pub is_vllm : Engine → Bool
is_vllm vllm = true
is_vllm _ = false

-- _build_env
unfoldable pub build_env : ModelDefinition → List (String × Arg)
unfolding add_env is_vllm put_env
build_env m =
    let env =
      add_env m.extra_env
        (("MODEL_NAME", word m.name) ∷ ("NVIDIA_VISIBLE_DEVICES", word "all") ∷ []) in
    if is_vllm m.engine then put_env "VLLM_PORT" (decimal m.port) env else env
