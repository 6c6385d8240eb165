-- ===== src/Tests/Configuration.antt =====
-- The settings of a backend on a remote database.
use stream_house_c360_demo.Prelude.{◌≡◌, String, Option, none, some}
use stream_house_c360_demo.Config.{Settings, owns_cdc, is_remote, resolve_cdc_connector}
use stream_house_c360_demo.Config.Resolution.{resolve_cdc_connector-owner}
use stream_house_c360_demo.Tests.Samples.{settings_of}

abbrev remote : Settings
remote = record (settings_of "postgres") {
  cdc_connector_enabled = none;
  database_url = some "postgresql://db/c360";
}

abbrev hostname : String → Option String
hostname url = some "db"

abbrev resolved : Settings
resolved = resolve_cdc_connector hostname remote

resolve_cdc_connector-owner_example :
    (owns_cdc resolved ≡ is_remote "db")
    × (resolve_cdc_connector hostname resolved ≡ resolved)
    × (record resolved { cdc_connector_enabled = none } ≡ remote)
resolve_cdc_connector-owner_example = resolve_cdc_connector-owner hostname remote
