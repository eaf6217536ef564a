-- ===== src/Persistence/Codec.antt =====
-- What crates/persistence uses of serde_json: texts of JSON, with the derived `Serialize` and
-- `Deserialize` of the types that are kept in a column. `Json` is the type of the texts.
use Prim.Native.String.{String}
use easy_job.Prelude.{◌≡◌, List}
use easy_job.Prelude.Result.{Result, ok}
use easy_job.Domain.Trigger.{Trigger}
use easy_job.Domain.Policy.{ExecutionPolicy, SystemSettings}
use easy_job.Domain.Task.{Action, ActionKind}

-- A text that is not of the type's form has an error message. `debug_kind` is `{:?}` of the kind.
pub record Codec (Json : Type 0) : Type 0 where
  pub write_trigger : Trigger → Json
  pub read_trigger : Json → Result String Trigger
  pub write_action : Action → Json
  pub read_action : Json → Result String Action
  pub write_policy : ExecutionPolicy → Json
  pub read_policy : Json → Result String ExecutionPolicy
  pub write_environment : List (String × String) → Json
  pub read_environment : Json → Result String (List (String × String))
  pub write_settings : SystemSettings → Json
  pub read_settings : Json → Result String SystemSettings
  pub debug_kind : ActionKind → String

-- serde's derived code reads back what it has written.
pub record IsFaithful {Json : Type 0} (c : Codec Json) : Type 0 where
  pub trigger : (t : Trigger) → c.read_trigger (c.write_trigger t) ≡ ok t
  pub action : (a : Action) → c.read_action (c.write_action a) ≡ ok a
  pub policy : (p : ExecutionPolicy) → c.read_policy (c.write_policy p) ≡ ok p
  pub environment : (e : List (String × String)) → c.read_environment (c.write_environment e) ≡ ok e
  pub settings : (s : SystemSettings) → c.read_settings (c.write_settings s) ≡ ok s
