-- ===== src/Cli/Config/Valid.antt =====
-- The configuration stays one that the setters allow.
use kirite.Prelude.{
  ℕ, zero, suc, ◌<◌, ◌≡◌, inl, inr, refl, ap, ◌∙◌, sym, true, ◌||◌, pos, negsuc, Option, some,
  bytes_eq, Bool-cases, Option-cases, codes, arith,
}
use mathlib.Core.Path.{subst}
use kirite.Decimal.{Number, nan, infinity, minus_infinity, integer, parse_int}
use kirite.Events.{Line}
use kirite.Cli.Config.{
  Setting, finite, infinite, null, json_number, CliConfig, merge, Host, Written, threw, wrote,
  is_commitment, default_config, load_config, save_config, reset_config, set_non_negative,
  set_positive, set_field, set_config_value,
}

pub record IsValid (c : CliConfig) : Type 0 where
  pub commitment : is_commitment c.commitment ≡ true
  pub confirm_timeout : (n : ℕ) × (c.confirm_timeout ≡ finite n) × (0 < n)

module _ (host : Host) where
  -- What is loaded is what was saved, with `null` for Infinity.
  abbrev read_back : CliConfig → CliConfig
  read_back c = record c {
    max_retries = json_number c.max_retries;
    confirm_timeout = json_number c.confirm_timeout;
    priority_fee = json_number c.priority_fee;
  }

  load_config-save_config :
      (c : CliConfig) → load_config host (some (save_config host c)) ≡ read_back c
  unfolding load_config save_config merge
  load_config-save_config c =
      rw (host.parse-stringify c, load_config)
        (elim (Option-cases c.program_id) [
          | inl unset ↦ rw unset refl
          | inr (p, is_set) ↦ rw is_set refl
        ])

  read_back-IsValid : (c : CliConfig) → IsValid c → IsValid (read_back c)
  read_back-IsValid c good =
      let (n, is_set, some_time) = good.confirm_timeout in
      record { commitment = good.commitment; confirm_timeout = (n, rw is_set refl, some_time) }

  default_config-IsValid : IsValid (default_config host)
  unfolding default_config is_commitment
  default_config-IsValid = record { commitment = refl; confirm_timeout = (30, refl, omega arith) }

  -- What is written is a valid configuration in its text.
  data WritesValid : Written → Type 0 where
    nothing : (error : Line) → WritesValid (threw error)
    valid :
        (text : Line) (c : CliConfig)
        → text ≡ save_config host c
        → IsValid c
        → WritesValid (wrote text)

  save_config-WritesValid : (c : CliConfig) → IsValid c → WritesValid (wrote (save_config host c))
  save_config-WritesValid c good = valid (save_config host c) c refl good

  set_non_negative-WritesValid :
      (n : Number) (error : Line) (with_value : Setting → CliConfig)
      → ((m : Setting) → IsValid (with_value m))
      → WritesValid (set_non_negative host n error with_value)
  unfolding set_non_negative
  set_non_negative-WritesValid nan error with_value h = nothing error
  set_non_negative-WritesValid minus_infinity error with_value h = nothing error
  set_non_negative-WritesValid infinity error with_value h = save_config-WritesValid _ (h infinite)
  set_non_negative-WritesValid (integer (negsuc n)) error with_value h = nothing error
  set_non_negative-WritesValid (integer (pos n)) error with_value h =
      save_config-WritesValid _ (h (finite n))

  set_positive-WritesValid :
      (n : Number) (error : Line) (with_value : Setting → CliConfig)
      → ¬ (n ≡ infinity)
      → ((m : ℕ) → 0 < m → IsValid (with_value (finite m)))
      → WritesValid (set_positive host n error with_value)
  unfolding set_positive
  set_positive-WritesValid nan error with_value bounded h = nothing error
  set_positive-WritesValid minus_infinity error with_value bounded h = nothing error
  set_positive-WritesValid infinity error with_value bounded h = absurd (bounded refl)
  set_positive-WritesValid (integer (negsuc n)) error with_value bounded h = nothing error
  set_positive-WritesValid (integer (pos zero)) error with_value bounded h = nothing error
  set_positive-WritesValid (integer (pos (suc n))) error with_value bounded h =
      save_config-WritesValid _ (h (suc n) (omega arith))

  written-IsValid :
      {text : Line} → WritesValid (wrote text) → IsValid (load_config host (some text))
  written-IsValid (valid text c same good) =
      rw (same, load_config-save_config c) (read_back-IsValid c good)

  set_field-WritesValid :
      (config : CliConfig) (key value : Line)
      → ¬ (parse_int value ≡ infinity)
      → IsValid config
      → WritesValid (set_field host config key value)
  unfolding set_field
  set_field-WritesValid config key value bounded good =
      let same =
        λ (c : CliConfig) (commitment : c.commitment ≡ config.commitment)
            (timeout : c.confirm_timeout ≡ config.confirm_timeout).
          let kept : IsValid c = record {
            commitment = ap is_commitment commitment ∙ good.commitment;
            confirm_timeout =
                let (n, is_set, some_time) = good.confirm_timeout in
                (n, timeout ∙ is_set, some_time);
          } in
          kept in
      elim (Bool-cases (bytes_eq key (codes "endpoint"))) [
        | inl is_key ↦ rw is_key (save_config-WritesValid _ (same _ refl refl))
        | inr other ↦
            rw other
              (elim (Bool-cases
                (bytes_eq key (codes "walletPath") || bytes_eq key (codes "wallet"))) [
                  | inl is_key ↦ rw is_key (save_config-WritesValid _ (same _ refl refl))
                  | inr other ↦ rw other (elim (Bool-cases (bytes_eq key (codes "commitment"))) [
                    | inl is_key ↦ rw is_key (elim (Bool-cases (is_commitment value)) [
                      | inl fits ↦ rw fits (
                          save_config-WritesValid _
                            (record { commitment = fits; confirm_timeout = good.confirm_timeout }))
                      | inr unknown ↦ rw unknown (nothing _)
                    ])
                    | inr other ↦ rw other (elim (Bool-cases (bytes_eq key (codes "programId"))) [
                      | inl is_key ↦ rw is_key (save_config-WritesValid _ (same _ refl refl))
                      | inr other ↦
                          rw other (elim (Bool-cases (bytes_eq key (codes "explorerUrl"))) [
                            | inl is_key ↦ rw is_key (save_config-WritesValid _ (same _ refl refl))
                            | inr other ↦
                                rw other (elim (Bool-cases (bytes_eq key (codes "maxRetries"))) [
                                  | inl is_key ↦ rw is_key (
                                      set_non_negative-WritesValid (parse_int value) _ _
                                        (λ m. same _ refl refl))
                                  | inr other ↦
                                      rw other
                                        (elim (Bool-cases (bytes_eq key (codes "confirmTimeout"))) [
                                          | inl is_key ↦ rw is_key (
                                              set_positive-WritesValid (parse_int value) _ _ bounded
                                                (λ m some_time. record {
                                                  commitment = good.commitment;
                                                  confirm_timeout = (m, refl, some_time);
                                                }))
                                          | inr other ↦
                                              rw other
                                                (elim (Bool-cases
                                                  (bytes_eq key (codes "skipPreflight"))) [
                                                    | inl is_key ↦ rw is_key (
                                                        save_config-WritesValid _
                                                          (same _ refl refl))
                                                    | inr other ↦
                                                        rw other
                                                          (elim (Bool-cases
                                                            (bytes_eq key (codes "priorityFee"))) [
                                                              | inl is_key ↦ rw is_key (
                                                                set_non_negative-WritesValid
                                                                (parse_int value) _ _
                                                                (λ m. same _ refl refl))
                                                              | inr other ↦ rw other (nothing _)
                                                            ])
                                                  ])
                                        ])
                                ])
                          ])
                    ])
                  ])
                ])
      ]

  -- From a valid configuration, `config set` writes one that loads as a valid configuration, whatever
  -- the key, and whatever the value unless `parseInt` reads it as Infinity, and so does `config reset`
  -- from any: a commitment that Solana knows and a timeout that is a positive whole number.
  pub set_config_value-IsValid :
      (file : Option Line) (key value text : Line)
      → ¬ (parse_int value ≡ infinity)
      → IsValid (load_config host file)
      → set_config_value host file key value ≡ wrote text
      → IsValid (load_config host (some text))
        × IsValid (load_config host (some (reset_config host)))
  unfolding set_config_value reset_config
  set_config_value-IsValid file key value text bounded good written = (
    written-IsValid (
        subst WritesValid written
          (set_field-WritesValid (load_config host file) key value bounded good)),
    subst IsValid (sym (load_config-save_config (default_config host)))
        (read_back-IsValid (default_config host) default_config-IsValid),
  )

  -- A timeout that `parseInt` reads as Infinity is written, and is `null` when it is loaded.
  confirm_timeout_infinite :
      (file : Option Line) (value text : Line)
      → parse_int value ≡ infinity
      → set_config_value host file (codes "confirmTimeout") value ≡ wrote text
      → (load_config host (some text)).confirm_timeout ≡ null
  unfolding set_config_value set_field set_positive
  confirm_timeout_infinite file value text unbounded written =
      let config = record (load_config host file) { confirm_timeout = infinite } in
      let same : wrote (save_config host config) ≡ wrote text = rw unbounded at written in
      let same_text : text ≡ save_config host config = cc in
      rw same_text (ap (λ (c : CliConfig). c.confirm_timeout) (load_config-save_config config))
