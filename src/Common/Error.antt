-- ===== src/Common/Error.antt =====
-- crates/common/src/error.rs. The error of serde_json and that of the standard library's I/O are
-- kept as their texts.
use Prim.Native.String
use Prim.Native.String.{String}

pub data Error : Type 0 where
  validation not_found process scheduler database serialization io other : String → Error

abbrev pub join : String → String → String
join s t = String.◌++◌ s t

-- `Display`, by which `to_string` works.
unfoldable pub to_string : Error → String
to_string (validation s) = join "Validation error: " s
to_string (not_found s) = join "Not found: " s
to_string (process s) = join "Process execution error: " s
to_string (scheduler s) = join "Scheduler error: " s
to_string (database s) = join "Database error: " s
to_string (serialization s) = join "Serialization error: " s
to_string (io s) = join "IO error: " s
to_string (other s) = join "Unknown error: " s
