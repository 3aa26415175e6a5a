-- ===== src/Tests/Cli.antt =====
-- The command line's amounts and configuration at concrete values.
use kirite.Prelude.{
  pos, negsuc, replicate, zero, suc, ok, inl, inr, Bool-cases, Option-cases, take-append,
  drop-append, Bool, true, false, take, drop, ◌==◌, if◌then◌else◌, ℕ, ◌+◌, ◌*◌, ◌^◌, ◌<◌, ◌≡◌, refl,
  Option, none, some, [], ◌∷◌, ◌++◌, length, codes, arith,
}
use kirite.Events.{Line, round_to_53_bits, round_half_even}
use kirite.Decimal.{integer, infinity, parse_int, IsDigits, decimal_value}
use kirite.Cli.Display.{format_amount, format_amount-value}
use kirite.Cli.Config.{
  Setting, finite, infinite, null, json_number, CliConfig, Stored, stored, Host, wrote, load_config,
  save_config, reset_config, set_config_value, default_config, set_field, set_positive,
  is_commitment,
}
use kirite.Ceremony.{skip_spaces, is_space}
use kirite.Transactions.Messages.{trim_end}
use kirite.Cli.Wallet.{array, WalletHost, trim, all_hex_digits, failed, not_parsed, load_wallet}
use kirite.Cli.Wallet.Formats.{wallet_path_of, load_wallet-wrong_length}
use kirite.Cli.Config.Valid.{IsValid, set_config_value-IsValid}

-- The numbers of a configuration, the lengths of its texts, and the texts.
abbrev flag : Bool → ℕ
flag true = 1
flag false = 0

abbrev or_empty : Option Line → Line
or_empty none = []
or_empty (some p) = p

-- `null` is written 0.
abbrev number_text : Setting → ℕ
number_text (finite n) = suc n
number_text infinite = 0
number_text null = 0

abbrev read_number : ℕ → Setting
read_number zero = null
read_number (suc n) = finite n

read_number-text : (n : Setting) → read_number (number_text n) ≡ json_number n
read_number-text (finite n) = refl
read_number-text infinite = refl
read_number-text null = refl

abbrev spell : CliConfig → Line
spell c =
    number_text c.max_retries
    ∷ number_text c.confirm_timeout
    ∷ number_text c.priority_fee
    ∷ flag c.skip_preflight
    ∷ flag (elim c.program_id [ none ↦ false | some p ↦ true ])
    ∷ length c.endpoint
    ∷ length c.wallet_path
    ∷ length c.commitment
    ∷ length c.explorer_url
    ∷ (c.endpoint ++ (c.wallet_path ++ (c.commitment ++ (c.explorer_url ++ or_empty c.program_id))))

abbrev read_spelled : Line → Option Stored
read_spelled (retries ∷ timeout ∷ fee ∷ skip ∷ has_id ∷ a ∷ b ∷ d ∷ e ∷ texts) = some (record {
  endpoint = some (take a texts);
  wallet_path = some (take b (drop a texts));
  commitment = some (take d (drop b (drop a texts)));
  explorer_url = some (take e (drop d (drop b (drop a texts))));
  program_id = if has_id == 0 then none else some (drop e (drop d (drop b (drop a texts))));
  max_retries = some (read_number retries);
  confirm_timeout = some (read_number timeout);
  priority_fee = some (read_number fee);
  skip_preflight = some (skip == 1);
})
read_spelled _ = none

read_spelled-spell : (c : CliConfig) → read_spelled (spell c) ≡ some (stored c)
read_spelled-spell c = elim (Option-cases c.program_id) [
  | inl unset ↦ elim (Bool-cases c.skip_preflight) [
    | inl skip ↦ rw (unset, skip) (simp (take-append, drop-append, read_number-text))
    | inr keep ↦ rw (unset, keep) (simp (take-append, drop-append, read_number-text))
  ]
  | inr (p, is_set) ↦ elim (Bool-cases c.skip_preflight) [
    | inl skip ↦ rw (is_set, skip) (simp (take-append, drop-append, read_number-text))
    | inr keep ↦ rw (is_set, keep) (simp (take-append, drop-append, read_number-text))
  ]
]

abbrev toy_host : Host
toy_host = record {
  parse = read_spelled;
  stringify = spell;
  parse-stringify = read_spelled-spell;
  default_wallet_path = codes "/home/donor/.config/solana/id.json";
}

format_amount-value_example :
    (whole : Line) × (fraction : Line) × (format_amount 1230000000 9 ≡ whole ++ 46 ∷ fraction)
    × (length fraction ≡ 9)
    × (0 < length whole)
    × IsDigits whole
    × IsDigits fraction
    × (decimal_value whole * 10 ^ 9 + decimal_value fraction ≡ 1230000000)
format_amount-value_example = format_amount-value 1230000000 9

default-IsValid : IsValid (load_config toy_host none)
unfolding load_config default_config is_commitment
default-IsValid = record { commitment = refl; confirm_timeout = (30, refl, omega arith) }

abbrev patient : CliConfig
patient = record {
  endpoint = codes "https://api.devnet.solana.com";
  wallet_path = codes "/home/donor/.config/solana/id.json";
  commitment = codes "confirmed";
  program_id = none;
  explorer_url = codes "https://explorer.solana.com";
  max_retries = finite 3;
  confirm_timeout = finite 90;
  skip_preflight = false;
  priority_fee = finite 0;
}

ninety : parse_int (codes "90s") ≡ integer (pos 90)
unfolding parse_int skip_spaces is_space round_to_53_bits round_half_even
ninety = refl

-- 2 ^ 53 + 1 is no double.
rounded : parse_int (codes "-9007199254740993") ≡ integer (negsuc 9007199254740991)
unfolding parse_int skip_spaces is_space round_to_53_bits round_half_even
rounded = refl

-- A one and 309 zeros.
too_large : parse_int (49 ∷ replicate 309 48) ≡ infinity
unfolding parse_int skip_spaces is_space round_to_53_bits round_half_even
too_large = refl

timeout_set :
    set_config_value toy_host none (codes "confirmTimeout") (codes "90s") ≡ wrote (spell patient)
unfolding set_config_value set_field load_config default_config save_config set_positive
timeout_set = rw ninety refl

not_infinite : ¬ (parse_int (codes "90s") ≡ infinity)
not_infinite h = let read = ninety in cc

set_config_value-IsValid_example :
    IsValid (load_config toy_host (some (spell patient)))
    × IsValid (load_config toy_host (some (reset_config toy_host)))
set_config_value-IsValid_example =
    set_config_value-IsValid toy_host none (codes "confirmTimeout") (codes "90s") (spell patient)
      not_infinite default-IsValid timeout_set

-- A wallet file "[1,2]" with two numbers.
abbrev toy_wallets : WalletHost ℕ
toy_wallets = record {
  parse_json = λ text. some (array (1 ∷ 2 ∷ []));
  bs58_decode = λ text. none;
  from_secret_key = λ secret. ok 7;
  public_key_text = λ pair. [];
  file = λ path. some (codes "[1,2]");
  resolve = λ path. path;
  join_path = λ directory name. directory ++ name;
  home = codes "/home/donor";
}

not_hex : all_hex_digits (trim (codes "[1,2]")) ≡ false
unfolding trim skip_spaces is_space trim_end
not_hex = refl

load_wallet-wrong_length_example :
    load_wallet toy_host toy_wallets none (some (codes "~/id.json"))
    ≡ failed (
        not_parsed toy_host toy_wallets
          (wallet_path_of toy_host toy_wallets none (some (codes "~/id.json"))))
load_wallet-wrong_length_example =
    load_wallet-wrong_length toy_host toy_wallets none (some (codes "~/id.json")) (codes "[1,2]")
      (1 ∷ 2 ∷ []) refl refl (λ same. omega (arith, same)) refl not_hex
