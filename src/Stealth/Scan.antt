-- ===== src/Stealth/Scan.antt =====
-- The scans of sdk/src/stealth/scan.ts: the payments of a wallet among the announcements of the
-- program's accounts, or of its logs, and the balances that they add up to. The connection is a
-- parameter; a scan throws what a call outside its `try` blocks throws.
pub mod Parsed
pub mod Sorted
pub mod Answered
pub mod Found
pub mod Balances
pub mod Logs
use kirite.Prelude.{
  ◌^◌, if◌then◌else◌, err, Error, ℕ, zero, suc, ◌+◌, ◌*◌, ◌<◌, ◌≤◌, ◌≡◌, Bool, true, false, not,
  ◌&&◌, ◌||◌, ℤ, pos, negsuc, List, [], ◌∷◌, ◌++◌, map, Option, none, some, Result, ok, err, Error,
  ◌>>=◌, length, take, drop, ltb, leb, ◌==◌, if◌then◌else◌, codes,
}
use kirite.Bytes.{Bytes, le_value}
use kirite.Events.{Line}
use kirite.Stealth.{Keys, check_view_tag, derive_stealth_spending_key}
use kirite.Stealth.Parsers.{StealthAnnouncement, parse_announcement_account}

-- `a < b` of two numbers that came as doubles.
abbrev pub ltb_ℤ : ℤ → ℤ → Bool
ltb_ℤ (pos a) (pos b) = ltb a b
ltb_ℤ (pos a) (negsuc b) = false
ltb_ℤ (negsuc a) (pos b) = true
ltb_ℤ (negsuc a) (negsuc b) = ltb b a

-- What the scan asks of a connection, the accounts of the program with the filter `"3Qq"` at 0 and the
-- token accounts of an address among it, and the names that it takes from @solana/web3.js.
pub record ScanNetwork (K : Type 0) : Type 0 where
  pub get_program_accounts : K → ℕ × Line → Result (List (K × Bytes))
  pub get_balance : K → Result ℕ
  pub get_token_accounts_by_owner : K → Result (List Bytes)
  pub default_key : K
  pub to_base64 : Bytes → Line

pub record StealthPayment (K : Type 0) : Type 0 where
  pub address : K
  pub ephemeral_pubkey : Bytes
  pub amount : ℕ
  pub mint : Option K
  pub timestamp : ℤ
  pub slot : ℤ
  pub tx_signature : Line

pub record ScanStealthParams : Type 0 where
  pub viewing_key : Bytes
  pub spending_key : Bytes
  pub from_slot : Option ℤ
  pub to_slot : Option ℤ

-- `fromSlot && parsed.slot < fromSlot`; a `fromSlot` of 0 counts as none.
abbrev pub is_before : Option ℤ → ℤ → Bool
is_before none slot = false
is_before (some (pos zero)) slot = false
is_before (some bound) slot = ltb_ℤ slot bound

abbrev pub is_after : Option ℤ → ℤ → Bool
is_after none slot = false
is_after (some (pos zero)) slot = false
is_after (some bound) slot = ltb_ℤ bound slot

module _ {K : Type 0} where
  -- `announcements.sort((a, b) => a.slot - b.slot)`, which is stable.
  pub insert_by_slot :
      StealthAnnouncement K → List (StealthAnnouncement K) → List (StealthAnnouncement K)
  insert_by_slot a [] = a ∷ []
  insert_by_slot a (b ∷ bs) = if ltb_ℤ b.slot a.slot then b ∷ insert_by_slot a bs else a ∷ (b ∷ bs)

  pub sort_by_slot : List (StealthAnnouncement K) → List (StealthAnnouncement K)
  unfolding insert_by_slot
  sort_by_slot [] = []
  sort_by_slot (a ∷ as_) = insert_by_slot a (sort_by_slot as_)

-- `new BN(number)`, which throws from 2 ^ 53 on.
unfoldable pub bn_of_number : ℕ → Result ℕ
bn_of_number n = if ltb n (2 ^ 53) then ok n else err Error.range_error

module _ (keys : Keys) where
  open keys use {web3, public_key}
  open web3 use {PublicKey, of_bytes, equals}

  module _ (net : ScanNetwork PublicKey) where
    open net use {get_balance, get_token_accounts_by_owner, get_program_accounts, default_key}

    -- The loop over the token accounts: the mint and the amount of the first that is not empty.
    pub first_token : List Bytes → Result (ℕ × PublicKey)
    first_token [] = ok (0, default_key)
    first_token (account ∷ rest) = do
      mint ← of_bytes (take 32 account)
      let amount = le_value (take 8 (drop 64 account))
      elim (amount == 0) [ true ↦ first_token rest | false ↦ ok (amount, mint) ]

    pub get_stealth_address_balance : PublicKey → Result (ℕ × PublicKey)
    unfolding first_token bn_of_number
    get_stealth_address_balance address = do
      sol_balance ← get_balance address
      elim (ltb 0 sol_balance) [
        | true ↦ bn_of_number sol_balance >>= λ amount. ok (amount, default_key)
        | false ↦ get_token_accounts_by_owner address >>= first_token
      ]

    pub parse_announcements :
        Option ℤ → Option ℤ → List (PublicKey × Bytes) → List (StealthAnnouncement PublicKey)
    parse_announcements from_slot to_slot [] = []
    parse_announcements from_slot to_slot ((key, account) ∷ rest) =
        let others = parse_announcements from_slot to_slot rest in
        elim (parse_announcement_account web3 net.to_base64 account) [
          | err e ↦ others
          | ok parsed ↦
              if is_before from_slot parsed.slot || is_after to_slot parsed.slot
              then others
              else parsed ∷ others
        ]

    pub fetch_stealth_announcements :
        Option ℤ → Option ℤ → PublicKey → Result (List (StealthAnnouncement PublicKey))
    unfolding parse_announcements sort_by_slot
    fetch_stealth_announcements from_slot to_slot program_id = do
      accounts ← get_program_accounts program_id (0, codes "3Qq")
      ok (sort_by_slot (parse_announcements from_slot to_slot accounts))

    -- The body of the loop behind the view tag: the payment, where the derived key is the announced one.
    pub confirmed_payment :
        ScanStealthParams
        → StealthAnnouncement PublicKey
        → Result (Option (StealthPayment PublicKey))
    unfolding get_stealth_address_balance
    confirmed_payment params announcement = do
      stealth_keypair ←
          derive_stealth_spending_key keys announcement.ephemeral_pubkey params.viewing_key
            params.spending_key
      elim (equals (public_key stealth_keypair) announcement.stealth_address) [
        | false ↦ ok none
        | true ↦ get_stealth_address_balance announcement.stealth_address >>= λ balance. ok (
            some (record {
              address = announcement.stealth_address;
              ephemeral_pubkey = announcement.ephemeral_pubkey;
              amount = balance.0;
              mint = some balance.1;
              timestamp = announcement.timestamp;
              slot = announcement.slot;
              tx_signature = announcement.signature;
            }))
      ]

    -- The body of the loop over the announcements.
    pub payment_of :
        ScanStealthParams
        → StealthAnnouncement PublicKey
        → Result (Option (StealthPayment PublicKey))
    unfolding confirmed_payment
    payment_of params announcement = do
      view_tag_match ←
          check_view_tag keys announcement.ephemeral_pubkey announcement.view_tag params.viewing_key
      elim view_tag_match [ false ↦ ok none | true ↦ confirmed_payment params announcement ]

    abbrev pub cons_some : {A : Type 0} → Option A → List A → List A
    cons_some none rest = rest
    cons_some (some a) rest = a ∷ rest

    -- The loop over the announcements.
    pub collect_payments :
        ScanStealthParams
        → List (StealthAnnouncement PublicKey)
        → Result (List (StealthPayment PublicKey))
    unfolding payment_of
    collect_payments params [] = ok []
    collect_payments params (announcement ∷ rest) = do
      payment ← payment_of params announcement
      payments ← collect_payments params rest
      ok (cons_some payment payments)

    pub scan_stealth_payments :
        ScanStealthParams → PublicKey → Result (List (StealthPayment PublicKey))
    unfolding fetch_stealth_announcements collect_payments
    scan_stealth_payments params program_id = do
      announcements ← fetch_stealth_announcements params.from_slot params.to_slot program_id
      collect_payments params announcements
