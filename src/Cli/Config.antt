-- ===== src/Cli/Config.antt =====
-- cli/src/utils/config.ts: the configuration, its file, and the commands `config get` and `config set`.
-- JSON, the home directory and the file system are parameters: the file is its text, or is not there.
pub mod Valid
use kirite.Prelude.{
  ℕ, zero, suc, ◌≡◌, Bool, true, false, ◌||◌, ℤ, pos, negsuc, List, [], ◌∷◌, ◌++◌, Option, none,
  some, ltb, bytes_eq, if◌then◌else◌, codes,
}
use kirite.Decimal.{decimal, Number, nan, infinity, minus_infinity, integer, parse_int}
use kirite.Events.{Line}

-- A number of a configuration: what the setters make is a whole double or Infinity, and a file may say
-- `null`.
pub data Setting : Type 0 where
  finite : ℕ → Setting
  infinite null : Setting

pub record CliConfig : Type 0 where
  pub endpoint : Line
  pub wallet_path : Line
  pub commitment : Line
  pub program_id : Option Line
  pub explorer_url : Line
  pub max_retries : Setting
  pub confirm_timeout : Setting
  pub skip_preflight : Bool
  pub priority_fee : Setting

-- The fields that a text in JSON has.
pub record Stored : Type 0 where
  pub endpoint : Option Line
  pub wallet_path : Option Line
  pub commitment : Option Line
  pub program_id : Option Line
  pub explorer_url : Option Line
  pub max_retries : Option Setting
  pub confirm_timeout : Option Setting
  pub priority_fee : Option Setting
  pub skip_preflight : Option Bool

abbrev pub or_default : {A : Type 0} → A → Option A → A
or_default d none = d
or_default d (some a) = a

-- `{ ...DEFAULT_CONFIG, ...parsed }`
pub merge : CliConfig → Stored → CliConfig
merge d s = record {
  endpoint = or_default d.endpoint s.endpoint;
  wallet_path = or_default d.wallet_path s.wallet_path;
  commitment = or_default d.commitment s.commitment;
  program_id = or_default d.program_id (elim s.program_id [ none ↦ none | some p ↦ some (some p) ]);
  explorer_url = or_default d.explorer_url s.explorer_url;
  max_retries = or_default d.max_retries s.max_retries;
  confirm_timeout = or_default d.confirm_timeout s.confirm_timeout;
  skip_preflight = or_default d.skip_preflight s.skip_preflight;
  priority_fee = or_default d.priority_fee s.priority_fee;
}

-- `JSON.stringify` writes Infinity as `null`.
abbrev pub json_number : Setting → Setting
json_number (finite n) = finite n
json_number infinite = null
json_number null = null

-- The fields that the text of a configuration has; a program id that is `undefined` is left out.
abbrev pub stored : CliConfig → Stored
stored c = record {
  endpoint = some c.endpoint;
  wallet_path = some c.wallet_path;
  commitment = some c.commitment;
  program_id = c.program_id;
  explorer_url = some c.explorer_url;
  max_retries = some (json_number c.max_retries);
  confirm_timeout = some (json_number c.confirm_timeout);
  skip_preflight = some c.skip_preflight;
  priority_fee = some (json_number c.priority_fee);
}

-- `JSON.parse`, which may throw, and `JSON.stringify`; `path.join(os.homedir(), ...)`.
pub record Host : Type 0 where
  pub parse : Line → Option Stored
  pub stringify : CliConfig → Line
  pub parse-stringify : (c : CliConfig) → parse (stringify c) ≡ some (stored c)
  pub default_wallet_path : Line

-- What a setter gives: the new text of the file, or the error that it throws.
pub data Written : Type 0 where
  threw : Line → Written
  wrote : Line → Written

-- `["processed", "confirmed", "finalized"].includes(value)`
unfoldable pub is_commitment : Line → Bool
is_commitment value =
    bytes_eq (codes "processed") value
    || (bytes_eq (codes "confirmed") value || bytes_eq (codes "finalized") value)

module _ (host : Host) where
  open host use {parse, stringify}

  unfoldable pub default_config : CliConfig
  default_config = record {
    endpoint = codes "https://api.devnet.solana.com";
    wallet_path = host.default_wallet_path;
    commitment = codes "confirmed";
    program_id = none;
    explorer_url = codes "https://explorer.solana.com";
    max_retries = finite 3;
    confirm_timeout = finite 30;
    skip_preflight = false;
    priority_fee = finite 0;
  }

  unfoldable pub load_config : Option Line → CliConfig
  unfolding merge default_config
  load_config none = default_config
  load_config (some raw) = elim (parse raw) [
    | none ↦ default_config
    | some parsed ↦ merge default_config parsed
  ]

  -- The text that `saveConfig` writes.
  unfoldable pub save_config : CliConfig → Line
  save_config config = stringify config

  pub reset_config : Line
  unfolding save_config default_config
  reset_config = save_config default_config

  -- `parseInt` and the test of a number that may be 0, with what is done with it.
  unfoldable pub set_non_negative : Number → Line → (Setting → CliConfig) → Written
  unfolding save_config
  set_non_negative nan error with_value = threw error
  set_non_negative minus_infinity error with_value = threw error
  set_non_negative infinity error with_value = wrote (save_config (with_value infinite))
  set_non_negative (integer (negsuc n)) error with_value = threw error
  set_non_negative (integer (pos n)) error with_value = wrote (save_config (with_value (finite n)))

  unfoldable pub set_positive : Number → Line → (Setting → CliConfig) → Written
  unfolding save_config
  set_positive nan error with_value = threw error
  set_positive minus_infinity error with_value = threw error
  set_positive infinity error with_value = wrote (save_config (with_value infinite))
  set_positive (integer (negsuc n)) error with_value = threw error
  set_positive (integer (pos zero)) error with_value = threw error
  set_positive (integer (pos (suc n))) error with_value =
      wrote (save_config (with_value (finite (suc n))))

  -- The `switch` of `setConfigValue`, on the configuration that it loads.
  unfoldable pub set_field : CliConfig → Line → Line → Written
  unfolding is_commitment set_non_negative set_positive save_config
  set_field config key value =
      if bytes_eq key (codes "endpoint")
      then wrote (save_config (record config { endpoint = value }))
      else if bytes_eq key (codes "walletPath") || bytes_eq key (codes "wallet")
      then wrote (save_config (record config { wallet_path = value }))
      else if bytes_eq key (codes "commitment")
      then (if is_commitment value
          then wrote (save_config (record config { commitment = value }))
          else threw (
              codes "Invalid commitment: "
              ++ (value ++ codes ". Must be processed, confirmed, or finalized.")))
      else if bytes_eq key (codes "programId")
      then wrote (save_config (record config { program_id = some value }))
      else if bytes_eq key (codes "explorerUrl")
      then wrote (save_config (record config { explorer_url = value }))
      else if bytes_eq key (codes "maxRetries")
      then set_non_negative (parse_int value) (codes "maxRetries must be a non-negative integer")
          (λ n. record config { max_retries = n })
      else if bytes_eq key (codes "confirmTimeout")
      then set_positive (parse_int value) (codes "confirmTimeout must be a positive integer")
          (λ n. record config { confirm_timeout = n })
      else if bytes_eq key (codes "skipPreflight")
      then wrote (
          save_config (record config {
            skip_preflight = bytes_eq value (codes "true") || bytes_eq value (codes "1");
          }))
      else if bytes_eq key (codes "priorityFee")
      then set_non_negative (parse_int value) (codes "priorityFee must be a non-negative integer")
          (λ n. record config { priority_fee = n })
      else threw (codes "Unknown config key: " ++ key)

  unfoldable pub set_config_value : Option Line → Line → Line → Written
  unfolding load_config set_field
  set_config_value file key value = set_field (load_config file) key value

  pub bool_text : Bool → Line
  bool_text true = codes "true"
  bool_text false = codes "false"

  -- `Object.entries(config)` with each value as a text; a program id that is not set has no entry.
  pub program_entry : Option Line → List (Line × Line)
  program_entry none = []
  program_entry (some p) = (codes "programId", p) ∷ []

  -- `String(value ?? "")`. The texts of numbers from 10 ^ 21 on, which have an exponent, are not those of
  -- JavaScript.
  pub setting_text : Setting → Line
  setting_text (finite n) = decimal n
  setting_text infinite = codes "Infinity"
  setting_text null = []

  pub get_all_config_entries : Option Line → List (Line × Line)
  unfolding load_config bool_text program_entry setting_text
  get_all_config_entries file =
      let c = load_config file in
      (codes "endpoint", c.endpoint)
      ∷ (codes "walletPath", c.wallet_path)
      ∷ (codes "commitment", c.commitment)
      ∷ (codes "explorerUrl", c.explorer_url)
      ∷ (codes "maxRetries", setting_text c.max_retries)
      ∷ (codes "confirmTimeout", setting_text c.confirm_timeout)
      ∷ (codes "skipPreflight", bool_text c.skip_preflight)
      ∷ (codes "priorityFee", setting_text c.priority_fee)
      ∷ program_entry c.program_id

  -- `getConfigValue`, which gives the empty text for what is not set.
  pub value_of : Line → List (Line × Line) → Line
  value_of key [] = []
  value_of key ((name, value) ∷ rest) = if bytes_eq name key then value else value_of key rest

  pub get_config_value : Option Line → Line → Line
  unfolding get_all_config_entries value_of
  get_config_value file key = value_of key (get_all_config_entries file)
