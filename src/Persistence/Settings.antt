-- ===== src/Persistence/Settings.antt =====
-- crates/persistence/src/settings_repo.rs: the repository of the system's settings. The column
-- `updated_at` of the row is never read.
use easy_job.Prelude.{Option, none, some, ◌≡◌, ap}
use easy_job.Prelude.Result.{Result, ok}
use easy_job.Domain.Policy.{SystemSettings, default_settings}
use easy_job.Common.Error.{Error}
use easy_job.Persistence.Codec.{Codec, IsFaithful}
use easy_job.Persistence.Tables.{Database}
use easy_job.Persistence.Tasks.{parsed}

module _ {Json : Type 0} (c : Codec Json) where
  abbrev pub read_row : Option Json → Result Error SystemSettings
  read_row none = ok default_settings
  read_row (some value_json) = parsed (c.read_settings value_json)

  unfoldable pub get_system_settings : Database Json → Result Error SystemSettings
  get_system_settings db = read_row db.settings

  unfoldable pub save_system_settings : SystemSettings → Database Json → Database Json
  save_system_settings settings db = record db { settings = some (c.write_settings settings) }

  pub save_system_settings-get :
      (settings : SystemSettings) (db : Database Json)
      → IsFaithful c
      → get_system_settings (save_system_settings settings db) ≡ ok settings
  unfolding get_system_settings save_system_settings
  save_system_settings-get settings db f = ap parsed (f.settings settings)
