-- ===== src/Config/Catalog.antt =====
-- The catalog of gateway/config.py: the models, the profiles and their registry.
use dmr.Prelude.{true, false, none, List, [], ◌∷◌}
use dmr.Config.{
  ModelDefinition, VramProfile, Registry, spark_cluster, tokens, derived, text, number, flag, focus,
  post_init,
}

abbrev pub deepseek_v4_flash : ModelDefinition
deepseek_v4_flash = record {
  name = "deepseek-v4-flash";
  container_image = "vllm-node-b12x:latest";
  container_name = "vllm_node";
  vram_required_mb = 220000;
  port = 8020;
  quantization = "auto";
  tensor_parallel_size = 2;
  max_model_len = derived "auto";
  kv_cache_dtype = "fp8";
  model_path = "";
  hf_model_id = "deepseek-ai/DeepSeek-V4-Flash-0731";
  engine = spark_cluster;
  exec_container = "vllm_node";
  cluster_nodes = 2;
  requires_ray_cluster = false;
  extra_args =
      ("--host", text "0.0.0.0")
      ∷ ("--block-size", number 256)
      ∷ ("--max-num-seqs", number 8)
      ∷ ("--max-num-batched-tokens", number 8192)
      ∷ ("--gpu-memory-utilization", text "0.85")
      ∷ ("--tokenizer-mode", text "deepseek_v4")
      ∷ ("--tool-call-parser", text "deepseek_v4")
      ∷ ("--enable-auto-tool-choice", flag true)
      ∷ ("--reasoning-parser", text "deepseek_v4")
      ∷ (
        "--reasoning-config",
        text
            "{\"reasoning_parser\":\"deepseek_v4\",\"reasoning_start_str\":\"\",\"reasoning_end_str\":\"\"}",
      )
      ∷ ("--default-chat-template-kwargs.thinking=true", flag true)
      ∷ ("--default-chat-template-kwargs.reasoning_effort=high", flag true)
      ∷ ("--load-format", text "b12x")
      ∷ ("--moe-backend", text "b12x")
      ∷ ("--linear-backend", text "b12x")
      ∷ ("--attention-backend", text "B12X")
      ∷ ("--max-cudagraph-capture-size", number 48)
      ∷ (
        "--compilation-config",
        text "{\"cudagraph_mode\":\"FULL_AND_PIECEWISE\",\"custom_ops\":[\"all\"]}",
      )
      ∷ (
        "--speculative-config",
        text
            "{\"method\":\"dspark\",\"num_speculative_tokens\":5,\"draft_sample_method\":\"probabilistic\",\"attention_backend\":\"B12X\"}",
      )
      ∷ [];
  cmd_prefix = [];
  extra_volumes = [];
  extra_env =
      ("CUTE_DSL_ARCH", "sm_121a")
      ∷ ("VLLM_USE_AOT_COMPILE", "1")
      ∷ ("VLLM_USE_BREAKABLE_CUDAGRAPH", "0")
      ∷ ("VLLM_USE_MEGA_AOT_ARTIFACT", "1")
      ∷ ("VLLM_MEMORY_PROFILE_INCLUDE_ATTN", "1")
      ∷ ("VLLM_USE_FLASHINFER_SAMPLER", "1")
      ∷ ("VLLM_USE_B12X_WO_PROJECTION", "1")
      ∷ ("VLLM_USE_B12X_MHC", "1")
      ∷ ("VLLM_USE_B12X_FP8_GEMM", "1")
      ∷ ("VLLM_USE_B12X_MOE", "1")
      ∷ ("VLLM_USE_B12X_SPARSE_INDEXER", "1")
      ∷ ("VLLM_USE_V2_MODEL_RUNNER", "1")
      ∷ ("VLLM_MOE_SKIP_PADDING", "0")
      ∷ ("B12X_MLA_SM120_UNIFIED", "1")
      ∷ ("B12X_MOE_FORCE_A8", "1")
      ∷ [];
  container_entrypoint = none;
}

abbrev pub qwen35_122b_fp8 : ModelDefinition
qwen35_122b_fp8 = record {
  name = "qwen3.5-122b";
  container_image = "vllm-node-b12x:latest";
  container_name = "vllm_node";
  vram_required_mb = 140000;
  port = 8021;
  quantization = "auto";
  tensor_parallel_size = 2;
  max_model_len = tokens 262144;
  kv_cache_dtype = "auto";
  model_path = "";
  hf_model_id = "Qwen/Qwen3.5-122B-A10B-FP8";
  engine = spark_cluster;
  exec_container = "vllm_node";
  cluster_nodes = 1;
  requires_ray_cluster = true;
  extra_args =
      ("--host", text "0.0.0.0")
      ∷ ("--distributed-executor-backend", text "ray")
      ∷ ("--gpu-memory-utilization", text "0.8")
      ∷ ("--max-num-batched-tokens", number 8192)
      ∷ ("--load-format", text "instanttensor")
      ∷ ("--enable-auto-tool-choice", flag true)
      ∷ ("--tool-call-parser", text "qwen3_coder")
      ∷ ("--reasoning-parser", text "qwen3")
      ∷ ("--chat-template", text "/workspace/unsloth.jinja")
      ∷ [];
  cmd_prefix = [];
  extra_volumes = [];
  extra_env = [];
  container_entrypoint = none;
}

abbrev pub qwen38_flash_next : ModelDefinition
qwen38_flash_next = record {
  name = "qwen3.8-flash-next";
  container_image = "vllm-node-b12x:latest";
  container_name = "vllm_node";
  vram_required_mb = 150000;
  port = 8022;
  quantization = "modelopt_mixed";
  tensor_parallel_size = 2;
  max_model_len = tokens 1000000;
  kv_cache_dtype = "fp8";
  model_path = "";
  hf_model_id = "local-inference-lab/Qwen3.8-Flash-Next-NVFP4";
  engine = spark_cluster;
  exec_container = "vllm_node";
  cluster_nodes = 2;
  requires_ray_cluster = false;
  extra_args =
      ("--revision", text "7c4f1bc1a2d6847e0cbc01ac6b823f00251de8dd")
      ∷ (
        "--hf-overrides",
        text
            "{\"text_config\":{\"rope_parameters\":{\"mrope_interleaved\":true,\"mrope_section\":[11,11,10],\"rope_type\":\"yarn\",\"rope_theta\":10000000,\"partial_rotary_factor\":0.25,\"factor\":4.0,\"original_max_position_embeddings\":262144}}}",
      )
      ∷ ("--host", text "0.0.0.0")
      ∷ ("--pipeline-parallel-size", number 1)
      ∷ ("--dtype", text "bfloat16")
      ∷ ("--block-size", number 16)
      ∷ ("--max-num-seqs", number 16)
      ∷ ("--max-num-batched-tokens", number 4096)
      ∷ ("--gpu-memory-utilization", text "0.7")
      ∷ ("--mamba-cache-mode", text "align")
      ∷ ("--enable-chunked-prefill", flag true)
      ∷ ("--load-format", text "b12x")
      ∷ ("--gdn-decode-kernel", text "b12x")
      ∷ ("--linear-backend", text "b12x")
      ∷ ("--moe-backend", text "b12x")
      ∷ ("--no-enable-flashinfer-autotune", flag true)
      ∷ ("--mm-encoder-tp-mode", text "data")
      ∷ ("--enable-auto-tool-choice", flag true)
      ∷ ("--tool-call-parser", text "qwen3_xml")
      ∷ ("--reasoning-parser", text "qwen3")
      ∷ ("--compilation-config", text "{\"pass_config\":{\"fuse_act_quant\":true}}")
      ∷ [];
  cmd_prefix = [];
  extra_volumes = [];
  extra_env =
      ("VLLM_ALLOW_LONG_MAX_MODEL_LEN", "1")
      ∷ ("CUTE_DSL_ARCH", "sm_121a")
      ∷ ("SAFETENSORS_FAST_GPU", "1")
      ∷ ("VLLM_WORKER_MULTIPROC_METHOD", "spawn")
      ∷ ("VLLM_SSM_CONV_STATE_LAYOUT", "DS")
      ∷ ("VLLM_USE_AOT_COMPILE", "1")
      ∷ ("VLLM_USE_MEGA_AOT_ARTIFACT", "1")
      ∷ ("VLLM_USE_V2_MODEL_RUNNER", "1")
      ∷ ("B12X_POLICY_MODE", "auto")
      ∷ ("VLLM_ENABLE_ROCE_ALLREDUCE", "1")
      ∷ ("VLLM_ROCE_ALLREDUCE_MAX_SIZE", "2MB")
      ∷ [];
  container_entrypoint = none;
}

abbrev pub profile_deepseek : VramProfile
profile_deepseek = post_init (record {
  mode = focus;
  description =
      "DeepSeek-V4-Flash 284B-A13B FP4 experts, TP=2 across both Sparks, 1M context + dspark speculative decoding (~220 GB cluster-wide)";
  primary_models = deepseek_v4_flash ∷ [];
  secondary_models = [];
  labels = ("chat", deepseek_v4_flash) ∷ ("code", deepseek_v4_flash) ∷ [];
  total_vram_required_mb = 0;
  skip_vram_check = true;
})

abbrev pub profile_qwen35 : VramProfile
profile_qwen35 = post_init (record {
  mode = focus;
  description =
      "Qwen3.5-122B-A10B FP8, TP=2 across both Sparks via Ray, 256K context (~140 GB cluster-wide)";
  primary_models = qwen35_122b_fp8 ∷ [];
  secondary_models = [];
  labels = ("chat", qwen35_122b_fp8) ∷ ("code", qwen35_122b_fp8) ∷ [];
  total_vram_required_mb = 0;
  skip_vram_check = true;
})

abbrev pub profile_qwen38 : VramProfile
profile_qwen38 = post_init (record {
  mode = focus;
  description =
      "Qwen3.8-Flash-Next NVFP4, TP=2 across both Sparks (native multi-node, no Ray), 256K context + MTP speculative decoding (~150 GB cluster-wide)";
  primary_models = qwen38_flash_next ∷ [];
  secondary_models = [];
  labels = ("chat", qwen38_flash_next) ∷ ("code", qwen38_flash_next) ∷ [];
  total_vram_required_mb = 0;
  skip_vram_check = true;
})

-- PROFILES
abbrev pub profiles : Registry
profiles =
    ("deepseek", profile_deepseek) ∷ ("qwen35", profile_qwen35) ∷ ("qwen38", profile_qwen38) ∷ []

-- ALL_MODELS
abbrev pub all_models : List ModelDefinition
all_models = deepseek_v4_flash ∷ qwen35_122b_fp8 ∷ qwen38_flash_next ∷ []
