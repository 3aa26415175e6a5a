-- ===== src/Stealth/Scan/Found.antt =====
-- A scan gives a payment for every announcement of the wallet, and no account of the program makes it
-- throw.
use kirite.Prelude.{
  All, ok-injective, ◌≡◌, inl, inr, refl, ap, ◌∙◌, sym, true, false, ◌||◌, ℤ, List, [], ◌∷◌, Option,
  none, some, ok, ◌>>=◌, length, Bool-cases, Result-cases, codes,
}
use mathlib.Core.Path.{subst}
use kirite.Bytes.{Bytes}
use kirite.Stealth.{Keys, check_view_tag, derive_stealth_spending_key}
use kirite.Stealth.Parsers.{StealthAnnouncement, parse_announcement_account}
use kirite.Stealth.Scan.{
  ScanNetwork, StealthPayment, ScanStealthParams, is_before, is_after, sort_by_slot,
  parse_announcements, fetch_stealth_announcements, confirmed_payment, payment_of, cons_some,
  collect_payments, scan_stealth_payments,
}
use kirite.Stealth.Scan.Sorted.{Any, sort_by_slot-Any, sort_by_slot-All}
use kirite.Stealth.Scan.Parsed.{parse_announcement_account-length}
use kirite.Stealth.Scan.Answered.{
  Answers, check_view_tag-ok, derive_stealth_spending_key-ok, balance-ok,
}

module _ (keys : Keys) where
  open keys use {web3, public_key}
  open web3 use {PublicKey, of_bytes, equals}

  -- The announcement is of an address of the wallet with these secrets.
  pub record IsMine (params : ScanStealthParams) (a : StealthAnnouncement PublicKey) : Type 0 where
    pub stealth_keypair : keys.Keypair
    pub tagged : check_view_tag keys a.ephemeral_pubkey a.view_tag params.viewing_key ≡ ok true
    pub derived :
        derive_stealth_spending_key keys a.ephemeral_pubkey params.viewing_key params.spending_key
        ≡ ok stealth_keypair
    pub is_address : public_key stealth_keypair ≡ a.stealth_address

  -- The payment is the announcement's.
  pub record IsPaymentOf (a : StealthAnnouncement PublicKey) (p : StealthPayment PublicKey)
      : Type 0 where
    pub address : p.address ≡ a.stealth_address
    pub ephemeral_pubkey : p.ephemeral_pubkey ≡ a.ephemeral_pubkey
    pub slot : p.slot ≡ a.slot
    pub tx_signature : p.tx_signature ≡ a.signature

  module _ (net : ScanNetwork PublicKey) where
    -- What a payment is for, where one is due.
    abbrev Carries : StealthAnnouncement PublicKey → Option (StealthPayment PublicKey) → Type 0
    Carries a none = ⊥
    Carries a (some p) = IsPaymentOf a p

    module _ (answers : Answers keys net) (params : ScanStealthParams)
        (view : length params.viewing_key ≡ 32) (spend : length params.spending_key ≡ 32) where
      confirmed_payment-ok :
          (a : StealthAnnouncement PublicKey)
          → length a.ephemeral_pubkey ≡ 32
          → (o : Option (StealthPayment PublicKey)) × (confirmed_payment keys net params a ≡ ok o)
            × (IsMine params a → Carries a o)
      unfolding confirmed_payment
      confirmed_payment-ok a len =
          let (kp, derived) =
            derive_stealth_spending_key-ok keys a.ephemeral_pubkey params.viewing_key
              params.spending_key len view spend in
          let (balance, answered) = balance-ok keys net answers a.stealth_address in
          elim (Bool-cases (equals (public_key kp) a.stealth_address)) [
            | inr other ↦ (
              none,
              rw (derived, ◌>>=◌, other) refl,
              λ mine.
                  let same : mine.stealth_keypair ≡ kp =
                    ok-injective _ _ (sym mine.derived ∙ derived) in
                  cc (
                    other,
                    (web3.equals_iff (public_key kp) a.stealth_address).1
                        (ap public_key (sym same) ∙ mine.is_address),
                  ),
            )
            | inl found ↦ (
              some (record {
                address = a.stealth_address;
                ephemeral_pubkey = a.ephemeral_pubkey;
                amount = balance.0;
                mint = some balance.1;
                timestamp = a.timestamp;
                slot = a.slot;
                tx_signature = a.signature;
              }),
              rw (derived, ◌>>=◌, found, answered) refl,
              λ mine. record {
                address = refl;
                ephemeral_pubkey = refl;
                slot = refl;
                tx_signature = refl;
              },
            )
          ]

      payment_of-ok :
          (a : StealthAnnouncement PublicKey)
          → length a.ephemeral_pubkey ≡ 32
          → (o : Option (StealthPayment PublicKey)) × (payment_of keys net params a ≡ ok o)
            × (IsMine params a → Carries a o)
      unfolding payment_of
      payment_of-ok a len =
          let (tagged, checked) =
            check_view_tag-ok keys a.ephemeral_pubkey a.view_tag params.viewing_key len view in
          let (o, confirmed, carries) = confirmed_payment-ok a len in
          elim (Bool-cases tagged) [
            | inl match ↦ (o, rw (checked, ◌>>=◌, match) confirmed, carries)
            | inr no_match ↦ (
              none,
              rw (checked, ◌>>=◌, no_match) refl,
              λ mine. cc (ok-injective _ _ (sym mine.tagged ∙ checked), no_match),
            )
          ]

      cons_some-Any :
          (a : StealthAnnouncement PublicKey) (o : Option (StealthPayment PublicKey))
          (ps : List (StealthPayment PublicKey))
          → Carries a o
          → Any (IsPaymentOf a) (cons_some keys net o ps)
      cons_some-Any a none ps h = elim h [ ]
      cons_some-Any a (some p) ps h = inl h

      cons_some-later :
          (a : StealthAnnouncement PublicKey) (o : Option (StealthPayment PublicKey))
          (ps : List (StealthPayment PublicKey))
          → Any (IsPaymentOf a) ps
          → Any (IsPaymentOf a) (cons_some keys net o ps)
      cons_some-later a none ps h = h
      cons_some-later a (some p) ps h = inr h

      -- The announcements that have been collected, each with its payment where it is the wallet's.
      collect_payments-ok :
          (as_ : List (StealthAnnouncement PublicKey))
          → All (λ a. length a.ephemeral_pubkey ≡ 32) as_
          → (ps : List (StealthPayment PublicKey)) × (collect_payments keys net params as_ ≡ ok ps)
            × ((a : StealthAnnouncement PublicKey)
                → IsMine params a
                → Any (λ b. b ≡ a) as_
                → Any (IsPaymentOf a) ps)
      unfolding collect_payments
      collect_payments-ok [] all = ([], refl, (λ a mine h. h))
      collect_payments-ok (b ∷ rest) (len, all) =
          let (o, here, carries) = payment_of-ok b len in
          let (ps, later, found) = collect_payments-ok rest all in
          (
            cons_some keys net o ps,
            rw (here, later) refl,
            λ a mine here_or_later. elim here_or_later [
              | inl same ↦
                  subst (λ t. Any (IsPaymentOf t) (cons_some keys net o ps)) same
                    (cons_some-Any b o ps (carries (subst (IsMine params) (sym same) mine)))
              | inr h ↦ cons_some-later a o ps (found a mine h)
            ],
          )

      parse_announcements-All :
          (from_slot to_slot : Option ℤ) (accounts : List (PublicKey × Bytes))
          → All
              (λ a. length a.ephemeral_pubkey ≡ 32)
              (parse_announcements keys net from_slot to_slot accounts)
      unfolding parse_announcements
      parse_announcements-All from_slot to_slot [] = tt
      parse_announcements-All from_slot to_slot ((key, account) ∷ rest) =
          let others = parse_announcements-All from_slot to_slot rest in
          elim (Result-cases (parse_announcement_account web3 net.to_base64 account)) [
            | inr (e, fails) ↦ rw (fails, parse_announcements) others
            | inl (parsed, reads) ↦
                elim (Bool-cases
                  (is_before from_slot parsed.slot || is_after to_slot parsed.slot)) [
                    | inl outside ↦ rw (reads, parse_announcements, outside) others
                    | inr inside ↦
                        rw (reads, parse_announcements, inside)
                          (
                            parse_announcement_account-length web3 net.to_base64 account reads,
                            others,
                          )
                  ]
          ]

      parse_announcements-Any :
          (a : StealthAnnouncement PublicKey) (accounts : List (PublicKey × Bytes))
          → Any (λ entry. parse_announcement_account web3 net.to_base64 entry.1 ≡ ok a) accounts
          → is_before params.from_slot a.slot ≡ false
          → is_after params.to_slot a.slot ≡ false
          → Any (λ b. b ≡ a) (parse_announcements keys net params.from_slot params.to_slot accounts)
      unfolding parse_announcements
      parse_announcements-Any a [] h early late = elim h [ ]
      parse_announcements-Any a ((key, account) ∷ rest) (inl here) early late =
          rw (here, parse_announcements, early, late) (inl refl)
      parse_announcements-Any a ((key, account) ∷ rest) (inr h) early late =
          let others = parse_announcements-Any a rest h early late in
          elim (Result-cases (parse_announcement_account web3 net.to_base64 account)) [
            | inr (e, fails) ↦ rw (fails, parse_announcements) others
            | inl (parsed, reads) ↦
                elim (Bool-cases
                  (is_before params.from_slot parsed.slot || is_after params.to_slot parsed.slot)) [
                    | inl outside ↦ rw (reads, parse_announcements, outside) others
                    | inr inside ↦ rw (reads, parse_announcements, inside) (inr others)
                  ]
          ]

      -- Where the connection answers, with balances below 2 ^ 53 lamports, a scan succeeds whatever the program's accounts hold, and it gives
      -- a payment for each announcement among them that is within the slots asked for and is of an
      -- address of the wallet.
      pub scan_stealth_payments-finds :
          (program_id : PublicKey) (accounts : List (PublicKey × Bytes))
          (a : StealthAnnouncement PublicKey)
          → net.get_program_accounts program_id (0, codes "3Qq") ≡ ok accounts
          → Any (λ entry. parse_announcement_account web3 net.to_base64 entry.1 ≡ ok a) accounts
          → is_before params.from_slot a.slot ≡ false
          → is_after params.to_slot a.slot ≡ false
          → IsMine params a
          → (ps : List (StealthPayment PublicKey)) × (scan_stealth_payments keys net params
                program_id
              ≡ ok ps)
            × Any (IsPaymentOf a) ps
      unfolding scan_stealth_payments fetch_stealth_announcements
      scan_stealth_payments-finds program_id accounts a listed parsed early late mine =
          let announcements =
            parse_announcements keys net params.from_slot params.to_slot accounts in
          let (ps, collected, found) = collect_payments-ok (sort_by_slot announcements) (
            sort_by_slot-All _ announcements
              (parse_announcements-All params.from_slot params.to_slot accounts)) in
          (
            ps,
            rw (listed, collected) refl,
            found a mine (
                sort_by_slot-Any _ announcements
                  (parse_announcements-Any a accounts parsed early late)),
          )
