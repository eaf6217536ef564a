-- ===== src/Ipc/Protocol.antt =====
-- crates/ipc/src/protocol.rs. `Value` is the type of the JSON values of serde_json.
use Prim.Native.String.{String}
use easy_job.Prelude.{Bool, true, false, Option, none, some}

pub record IpcRequest (Value : Type 0) : Type 0 where
  pub id : String
  pub method : String
  pub params : Value

pub record IpcResponse (Value : Type 0) : Type 0 where
  pub id : String
  pub ok : Bool
  pub data_value : Option Value
  pub error_text : Option String

unfoldable pub success : {Value : Type 0} → String → Value → IpcResponse Value
success id value = record { id = id; ok = true; data_value = some value; error_text = none }

unfoldable pub error : {Value : Type 0} → String → String → IpcResponse Value
error id msg = record { id = id; ok = false; data_value = none; error_text = some msg }
