-- ===== src/Tests/Stealth.antt =====
-- The stealth addresses, their text form and the scans at concrete keys.
use kirite.Prelude.{
  codes, ℕ, ◌+◌, ◌%◌, ◌≡◌, ◌↔◌, inl, inr, refl, ap, Bool, true, false, pos, none, some, List, [],
  ◌∷◌, ◌++◌, Result, ok, err, Error, length, replicate, ◌==◌, if◌then◌else◌, arith,
}
use kirite.Bytes.{Bytes}
use kirite.Bytes.{le_value}
use kirite.Buffer.{decode_from_8, read_slice, read_key, read_uint_le}
use kirite.Events.{number}
use kirite.Web3.Toy.{Key, toy_web3, key_bytes, key_at, tag}
use kirite.Stealth.{
  Keys, BoxKeypair, StealthMetaAddress, StealthAddress, derive_viewing_keypair,
  derive_spending_keypair, generate_stealth_meta_address, generate_stealth_address, check_view_tag,
  derive_stealth_spending_key, recover_stealth_keypair, compute_shared_secret,
}
use kirite.Stealth.Discovery.{generated_address-found, viewing_secret-spends}
use kirite.Stealth.MetaAddress.{serialize_stealth_meta_address, deserialize_stealth_meta_address}
use kirite.Stealth.MetaAddress.RoundTrip.{deserialize-serialize}
use kirite.Stealth.Parsers.{
  StealthAnnouncement, parse_announcement_account, read_announcement, read_slot, read_timestamp,
  join_words,
}
use kirite.Stealth.Scan.{ScanNetwork, StealthPayment, ScanStealthParams, scan_stealth_payments}
use kirite.Stealth.Scan.Sorted.{Any}
use kirite.Stealth.Scan.Answered.{Answers}
use kirite.Stealth.Scan.Found.{IsMine, IsPaymentOf, scan_stealth_payments-finds}
use kirite.Stealth.Scan.Logs.{match_announcement}
use kirite.Stealth.Scan.Logs.Matched.{match_announcement-line}
use kirite.Stealth.Scan.Balances.{
  MintKey, get, or_zero, calculate_stealth_balances, total_of, calculate_stealth_balances-total,
}

-- A key agreement that adds byte by byte: a secret is its own public key.
abbrev box : Bytes → Result Bytes
box secret = if length secret == 32 then ok secret else err Error.type_error

abbrev agree : Bytes → Bytes → Bytes
agree [] b = b
agree (x ∷ a) [] = x ∷ a
agree (x ∷ a) (y ∷ b) = (x + y) ∷ agree a b

agree_comm : (a b : Bytes) → agree a b ≡ agree b a
agree_comm [] [] = refl
agree_comm [] (y ∷ b) = refl
agree_comm (x ∷ a) [] = refl
agree_comm (x ∷ a) (y ∷ b) = rw (agree_comm a b) (ap (◌∷ agree b a) (omega arith))

box-same : (a p : Bytes) → box a ≡ ok p → a ≡ p
box-same a p h = ground (arith, h)

abbrev key_of_seed : Bytes → Key
key_of_seed [] = Key.program
key_of_seed (x ∷ xs) = if x % 2 == 0 then Key.alice else Key.bob

abbrev toy_keys : Keys
toy_keys = record {
  web3 = toy_web3;
  hash = λ bs. replicate 64 (length bs);
  length-hash = λ bs. refl;
  box_public_key = box;
  box_public_key-sized = λ secret len. (secret, rw len refl, len);
  before = λ p secret. ok (agree p secret);
  before-sized = λ p secret len len'. (agree p secret, refl);
  before_agrees =
      λ a b p q h h'. rw (box-same a p h) (rw (box-same b q h') (ap ok (agree_comm p q)));
  Keypair = Bytes;
  public_key = key_of_seed;
  secret_key = λ seed. seed ++ seed;
  from_seed = box;
  from_seed-sized = λ seed len. (seed, rw len refl);
}

abbrev wallet : Bytes
wallet = replicate 32 7

abbrev draw : Bytes
draw = replicate 32 9

generated_address-found_example :
    (view : BoxKeypair) × (spend : BoxKeypair) × (meta : StealthMetaAddress)
    × (sent_to : StealthAddress Key) × (kp : Bytes) × (derive_viewing_keypair toy_keys wallet
        ≡ ok view)
    × (derive_spending_keypair toy_keys wallet ≡ ok spend)
    × (generate_stealth_meta_address toy_keys wallet ≡ ok meta)
    × (generate_stealth_address toy_keys meta draw ≡ ok sent_to)
    × (check_view_tag toy_keys sent_to.ephemeral_pubkey sent_to.view_tag view.secret_key ≡ ok true)
    × (derive_stealth_spending_key toy_keys sent_to.ephemeral_pubkey view.secret_key
          spend.secret_key
        ≡ ok kp)
    × (key_of_seed kp ≡ sent_to.address)
generated_address-found_example = generated_address-found toy_keys wallet draw refl

abbrev meta_address : StealthMetaAddress
meta_address = record { spending_key = replicate 32 3; viewing_key = replicate 32 2 }

viewing_secret-spends_example :
    recover_stealth_keypair toy_keys (replicate 32 1) meta_address (replicate 32 2)
    ≡ derive_stealth_spending_key toy_keys (replicate 32 1) (replicate 32 2) (replicate 32 3)
viewing_secret-spends_example =
    viewing_secret-spends toy_keys (replicate 32 1) (replicate 32 2) (replicate 32 3) meta_address
      refl refl refl

deserialize-serialize_example :
    deserialize_stealth_meta_address (serialize_stealth_meta_address meta_address) ≡ ok meta_address
deserialize-serialize_example =
    deserialize-serialize meta_address refl refl (ground arith) (ground arith)

abbrev announcement_account : Bytes
announcement_account =
    replicate 8 0
    ++ (replicate 32 1
        ++ (key_bytes Key.alice
            ++ (49 ∷ [] ++ (5 ∷ replicate 7 0 ++ (9 ∷ replicate 7 0 ++ replicate 64 8)))))

abbrev announcement : StealthAnnouncement Key
announcement = record {
  ephemeral_pubkey = replicate 32 1;
  stealth_address = Key.alice;
  view_tag = 49;
  slot = pos 5;
  timestamp = pos 9;
  signature = replicate 64 8;
}

abbrev toy_network : ScanNetwork Key
toy_network = record {
  get_program_accounts =
      λ program filter. ok ((Key.bob, 1 ∷ []) ∷ (Key.bob, announcement_account) ∷ []);
  get_balance = λ k. ok 70;
  get_token_accounts_by_owner = λ k. ok [];
  default_key = Key.program;
  to_base64 = λ bs. bs;
}

abbrev answering : Answers toy_keys toy_network
answering = record {
  balance = λ k. (70, refl, omega arith);
  tokens = λ k. ([], refl);
  slice_key = λ bs len. (key_at bs, refl);
}

abbrev scan : ScanStealthParams
scan = record {
  viewing_key = replicate 32 2;
  spending_key = replicate 32 3;
  from_slot = some (pos 4);
  to_slot = none;
}

announcement-IsMine : IsMine toy_keys scan announcement
unfolding check_view_tag derive_stealth_spending_key compute_shared_secret
announcement-IsMine = record {
  stealth_keypair = replicate 32 84;
  tagged = refl;
  derived = refl;
  is_address = refl;
}

announcement_parses :
    parse_announcement_account toy_web3 (λ bs. bs) announcement_account ≡ ok announcement
unfolding parse_announcement_account read_announcement read_slot read_timestamp join_words
    decode_from_8 read_slice read_key read_uint_le le_value number
announcement_parses = refl

scan_stealth_payments-finds_example :
    (ps : List (StealthPayment Key)) × (scan_stealth_payments toy_keys toy_network scan Key.program
      ≡ ok ps)
    × Any (IsPaymentOf toy_keys announcement) ps
scan_stealth_payments-finds_example =
    scan_stealth_payments-finds toy_keys toy_network answering scan refl refl Key.program
      ((Key.bob, 1 ∷ []) ∷ (Key.bob, announcement_account) ∷ []) announcement refl
      (inr (inl announcement_parses)) refl refl announcement-IsMine

abbrev mint_equals : MintKey Key → MintKey Key → Bool
mint_equals none none = true
mint_equals none (some b) = false
mint_equals (some a) none = false
mint_equals (some a) (some b) = tag a == tag b

mint_equals_iff : (a b : MintKey Key) → (mint_equals a b ≡ true) ↔ (a ≡ b)
mint_equals_iff a b = ground arith

abbrev payment_of_mint : MintKey Key → ℕ → StealthPayment Key
payment_of_mint mint amount = record {
  address = Key.alice;
  ephemeral_pubkey = [];
  amount = amount;
  mint = mint;
  timestamp = pos 0;
  slot = pos 0;
  tx_signature = [];
}

abbrev payments : List (StealthPayment Key)
payments = payment_of_mint none 5 ∷ payment_of_mint (some Key.bob) 8 ∷ payment_of_mint none 9 ∷ []

calculate_stealth_balances-total_example :
    or_zero mint_equals (get mint_equals (calculate_stealth_balances mint_equals payments) none)
    ≡ total_of mint_equals none payments
calculate_stealth_balances-total_example =
    calculate_stealth_balances-total mint_equals mint_equals_iff payments none

match_announcement-line_example :
    match_announcement (
      codes "Program log: StealthAnnouncement{ephemeral:"
      ++ (codes "0a1f"
          ++ (codes ",address:"
              ++ (codes "9xQeW" ++ (codes ",tag:" ++ (codes "49" ++ (codes "}" ++ [])))))))
    ≡ some (codes "0a1f", codes "9xQeW", codes "49")
match_announcement-line_example =
    match_announcement-line (codes "0a1f") (codes "9xQeW") (codes "49") []
      (record { first = 48; others = codes "a1f"; spelled = refl; of_class = ground arith })
      (record { first = 57; others = codes "xQeW"; spelled = refl; of_class = ground arith })
      (record { first = 52; others = codes "9"; spelled = refl; of_class = ground arith })
