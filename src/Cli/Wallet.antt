-- ===== src/Cli/Wallet.antt =====
-- cli/src/utils/wallet.ts: the formats of a wallet file. The file system, JSON, base58 and the key pairs
-- of @solana/web3.js are parameters.
pub mod Formats
use kirite.Prelude.{
  ℕ, zero, suc, ◌<◌, ◌%◌, ◌≡◌, ◌≢◌, refl, Bool, true, false, ◌&&◌, ◌||◌, List, [], ◌∷◌, ◌++◌, map,
  Option, none, some, Result, ok, err, length, drop, leb, ◌==◌, if◌then◌else◌, codes, bytes_eq,
}
use kirite.Bytes.{Bytes}
use kirite.Ceremony.{skip_spaces}
use kirite.Cli.Config.{CliConfig, Host, load_config}
use kirite.Connection.{starts_with}
use kirite.Events.{Line}
use kirite.Stealth.MetaAddress.{of_hex_text}
use kirite.Transactions.Messages.{trim_end}

-- What `JSON.parse` gives: an array of whole numbers, or another value.
pub data Json : Type 0 where
  array : List ℕ → Json
  other : Json

pub record WalletHost (Keypair : Type 0) : Type 0 where
  pub parse_json : Line → Option Json
  pub bs58_decode : Line → Option Bytes
  -- `Keypair.fromSecretKey`, and the base58 text of a pair's public key.
  pub from_secret_key : Bytes → Result Keypair
  pub public_key_text : Keypair → Line
  -- The text of a file, where there is one; `path.resolve`, `path.join` and the home directory.
  pub file : Line → Option Line
  pub resolve : Line → Line
  pub join_path : Line → Line → Line
  pub home : Line

-- `text.trim()`
unfoldable pub trim : Line → Line
trim text = trim_end (skip_spaces text)

-- `[0-9a-fA-F]`
abbrev pub is_hex_digit : ℕ → Bool
is_hex_digit c = (leb 48 c && leb c 57) || ((leb 97 c && leb c 102) || (leb 65 c && leb c 70))

abbrev pub all_hex_digits : Line → Bool
all_hex_digits [] = true
all_hex_digits (c ∷ cs) = is_hex_digit c && all_hex_digits cs

-- `override || path`; an empty override counts as none.
abbrev pub path_or : Option Line → Line → Line
path_or none path = path
path_or (some []) path = path
path_or (some (c ∷ cs)) path = c ∷ cs

-- A key pair, or the message of what is thrown.
pub data Loaded (Keypair : Type 0) : Type 0 where
  failed : Line → Loaded Keypair
  loaded : Keypair → Loaded Keypair

pub record WalletInfo : Type 0 where
  pub public_key : Line
  pub path : Line
  pub exists_ : Bool

module _ {Keypair : Type 0} (config_host : Host) (host : WalletHost Keypair) where
  open host use {parse_json, bs58_decode, from_secret_key, file, resolve, join_path, home}

  pub resolve_path : Line → Line
  resolve_path file_path =
      if starts_with (codes "~") file_path
      then join_path home (drop 1 file_path)
      else resolve file_path

  -- A pair of a `try` block that returns, or nothing of one whose `catch` goes on.
  abbrev pub pair_of : Bytes → Option Keypair
  pair_of secret = elim (from_secret_key secret) [ err e ↦ none | ok pair ↦ some pair ]

  pub try_json : Line → Option Keypair
  try_json content = elim (parse_json content) [
    | none ↦ none
    | some other ↦ none
    | some (array parsed) ↦
        if length parsed == 64 then pair_of (map (λ n. n % 256) parsed) else none
  ]

  pub try_base58 : Line → Option Keypair
  try_base58 content = elim (bs58_decode content) [
    | none ↦ none
    | some decoded ↦ if length decoded == 64 then pair_of decoded else none
  ]

  pub try_hex : Line → Option Keypair
  try_hex content =
      let bytes = of_hex_text content in
      if (length content == 128) && all_hex_digits content
      then (if length bytes == 64 then pair_of bytes else none)
      else none

  pub parse_wallet : Line → Option Keypair
  unfolding try_json try_base58 try_hex
  parse_wallet content = elim (try_json content) [
    | some pair ↦ some pair
    | none ↦ elim (try_base58 content) [ some pair ↦ some pair | none ↦ try_hex content ]
  ]

  pub not_found : Line → Line
  not_found resolved =
      codes "Wallet file not found: "
      ++ (resolved
          ++ codes
              "\nSet your wallet path with: kirite config set wallet <path>\nOr generate a new keypair with: solana-keygen new")

  pub not_parsed : Line → Line
  not_parsed resolved =
      codes "Could not parse wallet file: "
      ++ (resolved ++ codes "\nSupported formats: JSON array [u8;64], base58, hex")

  pub load_wallet : Option Line → Option Line → Loaded Keypair
  unfolding load_config resolve_path parse_wallet trim not_found not_parsed
  load_wallet config_file wallet_path_override =
      let resolved =
        resolve_path
          (path_or wallet_path_override (load_config config_host config_file).wallet_path) in
      elim (file resolved) [
        | none ↦ failed (not_found resolved)
        | some text ↦ elim (parse_wallet (trim text)) [
          | some pair ↦ loaded pair
          | none ↦ failed (not_parsed resolved)
        ]
      ]

  pub wallet_exists : Option Line → Option Line → Bool
  unfolding load_config resolve_path
  wallet_exists config_file wallet_path_override =
      let resolved =
        resolve_path
          (path_or wallet_path_override (load_config config_host config_file).wallet_path) in
      elim (file resolved) [ none ↦ false | some text ↦ true ]

  pub get_wallet_info : Option Line → Option Line → WalletInfo
  unfolding load_config resolve_path load_wallet
  get_wallet_info config_file wallet_path_override =
      let resolved =
        resolve_path
          (path_or wallet_path_override (load_config config_host config_file).wallet_path) in
      elim (file resolved) [
        | none ↦ record { public_key = codes "N/A"; path = resolved; exists_ = false }
        | some text ↦ elim (load_wallet config_file wallet_path_override) [
          | failed e ↦ record {
            public_key = codes "Error loading";
            path = resolved;
            exists_ = true;
          }
          | loaded pair ↦ record {
            public_key = host.public_key_text pair;
            path = resolved;
            exists_ = true;
          }
        ]
      ]
