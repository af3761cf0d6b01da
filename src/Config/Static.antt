-- ===== src/Config/Static.antt =====
-- src/grpc_helper/static_config.py: the config items of every RPC server.
pub mod Defaults
use grpc_helper.Base.{
  ℕ, ◌-◌, String, ◌<>◌, Bool, true, false, not, ◌&&◌, Option, none, some, List, [], ◌∷◌, map, leb,
  any, if◌then◌else◌, ◌=ℕ◌,
}
use grpc_helper.Base.{string_eq}
use grpc_helper.Base.Text.{codes}
use grpc_helper.Config.Item.{
  Floats, Config, ConfigItem, ConfigValidator, Validator, valid_string, valid_int, valid_pos_int,
  valid_pos_float, valid_custom, make_config,
}
use grpc_helper.Errors.{Result, ok, raised, rpc_exception, error_param_invalid, ◌>>=◌}

abbrev pub interval_units : List String
interval_units =
    "S" ∷ "M" ∷ "H" ∷ "D" ∷ "MIDNIGHT" ∷ "W0" ∷ "W1" ∷ "W2" ∷ "W3" ∷ "W4" ∷ "W5" ∷ "W6" ∷ []

-- `c.upper()`, of ASCII
abbrev upper : ℕ → ℕ
upper c = if leb b'a' c && leb c b'z' then c - 32 else c

unfoldable same_codes : List ℕ → List ℕ → Bool
same_codes [] [] = true
same_codes (c ∷ s) (d ∷ t) = c =ℕ d && same_codes s t
same_codes _ _ = false

unfoldable pub validate_interval_unit : Validator
unfolding same_codes
validate_interval_unit name value =
    if any (λ unit. same_codes (map upper (codes value)) (codes unit)) interval_units
    then ok tt
    else raised (
        rpc_exception ("Invalid interval unit for " <> (name <> (": " <> value)))
          error_param_invalid)

abbrev static_item : String → String → String → ConfigValidator → ConfigItem
static_item name description default_value validator = record {
  name = name;
  description = description;
  default_value = default_value;
  value = "";
  validator = validator;
  can_be_empty = false;
}

abbrev pub shutdown_grace : ConfigItem
shutdown_grace =
    static_item "rpc-shutdown-grace"
      "Grace period for pending calls to be terminated on shutdown (seconds)" "30" valid_pos_float

abbrev pub shutdown_timeout : ConfigItem
shutdown_timeout =
    static_item "rpc-shutdown-timeout"
      "Final timeout before real shutdown (i.e. end of process; seconds)" "60" valid_pos_float

abbrev pub client_timeout : ConfigItem
client_timeout =
    static_item "rpc-client-timeout"
      "Timeout for RPC client when server is unreachable or proxy not registered yet (seconds)" "60"
      valid_pos_float

-- The attributes of `RpcStaticConfig`, each with its custom validator.
abbrev pub static_items : List (ConfigItem × Option Validator)
static_items =
    (static_item "rpc-max-workers" "Maximum parallel RPC worker threads" "30" valid_pos_int, none)
    ∷ (shutdown_grace, none)
    ∷ (shutdown_timeout, none)
    ∷ (
      static_item "rpc-logs-folder" "Workspace relative folder where to store rolling logs" "logs"
          valid_string,
      none,
    )
    ∷ (
      static_item "rpc-logs-backup" "Backup log files to be persisted for each manager on rollover"
          "10" valid_int,
      none,
    )
    ∷ (
      static_item "rpc-logs-interval-unit"
          "Rollover interval unit (see TimedRotatingFileHandler documentation)" "H" valid_custom,
      some validate_interval_unit,
    )
    ∷ (
      static_item "rpc-logs-interval"
          "Rollover interval (see TimedRotatingFileHandler documentation)" "1" valid_pos_int,
      none,
    )
    ∷ (
      static_item "rpc-main-host" "Main RPC server host (to be used by proxied services)"
          "localhost" valid_string,
      none,
    )
    ∷ (
      static_item "rpc-main-port" "Main RPC server port (to be used by proxied services)" "54321"
          valid_pos_int,
      none,
    )
    ∷ (client_timeout, none)
    ∷ (
      static_item "rpc-event-retain-timeout"
          "Retain timeout for event queues on interruption (seconds)" "300" valid_pos_int,
      none,
    )
    ∷ (
      static_item "rpc-event-keepalive-timeout"
          "Timeout for sending keep alive empty events (seconds)" "60" valid_pos_int,
      none,
    )
    ∷ []

-- The class body: each item is made.
unfoldable pub make_items : Floats → List (ConfigItem × Option Validator) → Result (List Config)
make_items F [] = ok []
make_items F ((item, custom) ∷ rest) = do
  c ← make_config F custom item
  others ← make_items F rest
  ok (c ∷ others)
