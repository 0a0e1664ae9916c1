-- ===== src/Distributed/Messages.antt =====
-- The messages of proto/infersched.proto that the services read and write. The generated code's
-- accessors are the fields. A `double` is held as the number of its millionths, none of them
-- negative, which is all that the engine reads of it; the other fields are natural numbers.
use infer_sched_distributed.Base.{ℕ, Bool, String, List}

pub record Fence : Type 0 where
  pub partition_id : ℕ
  pub ownership_epoch : ℕ
  pub attempt_id : ℕ

pub record SamplingParams : Type 0 where
  pub max_output_tokens : ℕ
  pub temperature : ℕ
  pub top_p : ℕ
  pub seed : ℕ

pub record InferenceRequest : Type 0 where
  pub request_id : String
  pub model_revision : String
  pub tokenizer_revision : String
  pub prompt_tokens : ℕ
  pub prompt_hash : String
  pub priority : ℕ
  pub sampling : SamplingParams
  pub trace_id : String
  pub span_id : String

pub record DispatchRequest : Type 0 where
  pub request : InferenceRequest
  pub fence : Fence

pub data Kind : Type 0 where
  admitted prefill_done decode_step preempted completed failed : Kind

pub record ProgressEvent : Type 0 where
  pub kind : Kind
  pub request_id : String
  pub fence : Fence
  pub tokens_generated : ℕ
  pub result_ref : String
  pub prefix_cache_hit : Bool
  pub result_cache_hit : Bool
  pub failure_reason : String
  pub retryable : Bool
  pub trace_id : String
  pub span_id : String

pub data DispatchEvent : Type 0 where
  accepted : DispatchEvent
  rejected : String → DispatchEvent
  progress : ProgressEvent → DispatchEvent

pub record EngineCapacity : Type 0 where
  pub free_kv_blocks : ℕ
  pub total_kv_blocks : ℕ
  pub batch_headroom : ℕ
  pub running_seqs : ℕ
  pub waiting_seqs : ℕ

pub record RegisterRequest : Type 0 where
  pub engine_id : String
  pub incarnation_id : String
  pub models : List String
  pub capacity : EngineCapacity
  pub endpoint : String

pub record RegisterReply : Type 0 where
  pub accepted : Bool
  pub assigned_lease_ttl_ms : ℕ

pub record HeartbeatRequest : Type 0 where
  pub engine_id : String
  pub incarnation_id : String
  pub capacity : EngineCapacity

pub record HeartbeatReply : Type 0 where
  pub lease_ok : Bool
