-- ===== src/Cli/Wallet/Formats.antt =====
-- Which texts of a wallet file give a key pair.
use kirite.Prelude.{
  ℕ, ◌≡◌, ◌≢◌, refl, false, ◌&&◌, Option, none, some, inl, inr, Bool-cases, ok, length, map, ◌==◌,
  ==_iff, List, [], ◌∷◌, ◌%◌, arith,
}
use kirite.Bytes.{Bytes, IsBytes}
use kirite.Events.{Line}
use kirite.Cli.Config.{Host, load_config}
use kirite.Cli.Wallet.{
  array, WalletHost, trim, all_hex_digits, path_or, failed, loaded, resolve_path, try_json,
  try_base58, try_hex, parse_wallet, not_parsed, load_wallet,
}

bytes_mod : (bs : Bytes) → IsBytes bs → map (λ n. n % 256) bs ≡ bs
bytes_mod [] h = refl
bytes_mod (b ∷ bs) (small, h) =
    let here : b % 256 ≡ b = omega arith in rw (here, bytes_mod bs h) refl

module _ {Keypair : Type 0} (config_host : Host) (host : WalletHost Keypair) where
  -- The path of the wallet's file.
  abbrev pub wallet_path_of : Option Line → Option Line → Line
  wallet_path_of config_file override =
      resolve_path config_host host
        (path_or override (load_config config_host config_file).wallet_path)

  -- A wallet file with an array of 64 bytes, as the key generator of Solana and the command line write
  -- it, gives the key pair of those bytes.
  load_wallet-array :
      (config_file override : Option Line) (text : Line) (secret : Bytes) (pair : Keypair)
      → host.file (wallet_path_of config_file override) ≡ some text
      → host.parse_json (trim text) ≡ some (array secret)
      → length secret ≡ 64
      → IsBytes secret
      → host.from_secret_key secret ≡ ok pair
      → load_wallet config_host host config_file override ≡ loaded pair
  unfolding load_wallet parse_wallet try_json
  load_wallet-array config_file override text secret pair there parsed len h made =
      rw (there, parsed, load_wallet, parse_wallet, try_json, len, bytes_mod secret h, made) refl

  -- A wallet file with an array of another length, a text that is neither base58 nor hexadecimal, is
  -- refused as a file that could not be parsed: the error on the length of the array is lost.
  pub load_wallet-wrong_length :
      (config_file override : Option Line) (text : Line) (parsed : List ℕ)
      → host.file (wallet_path_of config_file override) ≡ some text
      → host.parse_json (trim text) ≡ some (array parsed)
      → length parsed ≢ 64
      → host.bs58_decode (trim text) ≡ none
      → all_hex_digits (trim text) ≡ false
      → load_wallet config_host host config_file override
        ≡ failed (not_parsed config_host host (wallet_path_of config_file override))
  unfolding load_wallet parse_wallet try_json try_base58 try_hex
  load_wallet-wrong_length config_file override text parsed there read len base58 hex =
      let content = trim text in
      let other_length : (length parsed == 64) ≡ false = elim (Bool-cases (length parsed == 64)) [
        | inl same ↦ absurd (len ((==_iff (length parsed) 64).0 same))
        | inr apart ↦ apart
      ] in
      let no_hex : ((length content == 128) && all_hex_digits content) ≡ false =
        elim (Bool-cases (length content == 128)) [
          | inl long ↦ rw (long, hex) refl
          | inr short ↦ rw short refl
        ] in
      rw
        (
          there, read, load_wallet, parse_wallet, try_json, other_length, base58, try_base58,
          try_hex, no_hex,
        )
        refl
