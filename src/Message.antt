-- ===== src/Message.antt =====
-- src/common/rpc/proto/message.proto: the messages between client and server, as what the getters
-- return. A field that is not set reads as its default, and so does a member of a `oneof`.
use qos_planner.Common.{Bool, true, false, zero, ℕ, suc, ◌-◌, ◌%◌, ◌^◌, List, Str}

-- Signed integers over the native numbers.
pub data ℤ : Type 0 where
  pos negsuc : ℕ → ℤ

-- Whether a return code is 0.
abbrev pub is_zero : ℤ → Bool
is_zero (pos zero) = true
is_zero (pos (suc n)) = false
is_zero (negsuc n) = false

-- The conversion of an int32 to uint32.
abbrev pub to_uint32 : ℤ → ℕ
to_uint32 (pos n) = n % 2 ^ 32
to_uint32 (negsuc n) = 2 ^ 32 - suc n

-- `Request.ResourceRequest`
pub record ResourceRequest : Type 0 where
  pub id : Str
  pub throughput_mb : ℤ
  pub duration_sec : ℤ
  pub files : List Str

-- `Request.Type`
pub data RequestType : Type 0 where
  invalid reserve delete listjobs : RequestType

-- `Request`
pub record Request : Type 0 where
  pub request_type : RequestType
  pub resource_request : ResourceRequest
  pub delete_ids : List Str
  pub regex : Str

-- `Reply`
pub record Reply : Type 0 where
  pub rc : ℤ
  pub return_msg : Str
