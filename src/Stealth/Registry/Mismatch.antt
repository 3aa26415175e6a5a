-- ===== src/Stealth/Registry/Mismatch.antt =====
-- What stands between the registry code of the SDK and the program: the struct `StealthRegistry` of
-- programs/kirite/src/state/stealth.rs and the accounts of `RegisterStealthRegistry`.
use kirite.Prelude.{
  ℕ, ◌+◌, ◌*◌, ◌/◌, ◌%◌, ◌^◌, ◌<◌, ◌≤◌, ◌≡◌, ◌≢◌, refl, ap, Bool, true, ℤ, pos, negsuc, [], ◌∷◌,
  ◌++◌, concat, append-nil, append_assoc, Option, none, ok, map_ok, length, length-take, take,
  replicate, and-false, ltb, Bool-cases, inl, inr, arith, codes,
}
use kirite.Bytes.{Bytes, le_bytes}
use kirite.Buffer.{◌>>=◌, pure}
use kirite.Buffer.Reads.{
  i64_bytes, bool_bytes, Reads-pure, Reads-bind, Reads-slice, Reads-uint_le, Reads-key,
  decode_from_8-append,
}
use kirite.Events.{Line, number, round_to_53_bits}
use kirite.Events.Doubles.{le-round_to_53_bits}
use kirite.Stealth.Registry.Layout.{Reads-two_words}
use kirite.Instructions.{Sdk, TransactionInstruction, kirite_address}
use kirite.Instructions.Text
use kirite.Instructions.OnChain.{
  handle, handle-rejects, mut_account_at, account_at, mut_signer, read_array,
}
use kirite.Stealth.{StealthMetaAddress}
use kirite.Stealth.Parsers.{StealthRegistryEntry, parse_registry_entry, join_words}
use kirite.Stealth.Registry.{build_register_instruction, registration_bytes}
use kirite.Buffer.Writes.{u32_le-fits}
use kirite.Web3.{Web3}

abbrev magnitude : ℤ → ℕ
magnitude (pos n) = n
magnitude (negsuc n) = n

-- `struct StealthRegistry`
pub record StealthRegistry (K : Type 0) : Type 0 where
  pub owner : K
  pub spend_pubkey : Bytes
  pub view_pubkey : Bytes
  pub address_count : ℕ
  pub is_active : Bool
  pub created_at : ℤ
  pub last_used_at : ℤ
  pub bump : ℕ

-- A registry as `handle_register_stealth_registry` writes it.
abbrev pub new_registry : {K : Type 0} → K → Bytes → Bytes → ℕ → ℤ → ℕ → StealthRegistry K
new_registry owner spend view t last bump = record {
  owner = owner;
  spend_pubkey = spend;
  view_pubkey = view;
  address_count = 0;
  is_active = true;
  created_at = pos t;
  last_used_at = last;
  bump = bump;
}

-- Its fields in Borsh.
pub stealth_registry_bytes : (w : Web3) → StealthRegistry w.PublicKey → Bytes
stealth_registry_bytes w r = concat (
    w.to_bytes r.owner
    ∷ r.spend_pubkey
    ∷ r.view_pubkey
    ∷ le_bytes 8 r.address_count
    ∷ bool_bytes r.is_active
    ∷ i64_bytes r.created_at
    ∷ i64_bytes r.last_used_at
    ∷ le_bytes 1 r.bump
    ∷ replicate 64 0
    ∷ [])

-- The words of a small time spell no small number.
join_words-ne : (t : ℕ) → t < 2 ^ 32 → join_words 0 (1 + 256 * (t % 2 ^ 24)) ≢ pos t
unfolding join_words number
join_words-ne t small same = elim (Bool-cases (ltb (1 + 256 * (t % 2 ^ 24)) (2 ^ 31))) [
  | inr negative ↦ cc (rw negative at same)
  | inl positive ↦
      let high = 1 + 256 * (t % 2 ^ 24) in
      let reached : 2 ^ 32 * high * 1 ≤ round_to_53_bits 11 1 (high * 2 ^ 32 + 0) =
        le-round_to_53_bits 11 (2 ^ 32 * high) 1 (2 ^ 21 * high) (high * 2 ^ 32 + 0) (omega arith)
          (omega arith) (omega arith) in
      absurd (omega (arith, reached, ap magnitude (rw positive at same)))
]

-- An empty count, the flag and a time are, in words of 4 bytes, two empty ones and one of the flag and
-- three bytes of the time.
flag_and_time :
    (t : ℕ) (rest : Bytes)
    → le_bytes 8 0 ++ (le_bytes 1 1 ++ (le_bytes 8 t ++ rest))
      ≡ le_bytes 4 0
        ++ (le_bytes 4 0
            ++ (le_bytes 4 (1 + 256 * (t % 2 ^ 24)) ++ (le_bytes 5 (t / 2 ^ 24) ++ rest)))
unfolding le_bytes
flag_and_time t rest =
    let flag : (1 + 256 * (t % 2 ^ 24)) % 256 ≡ 1 = omega arith in
    let a : (1 + 256 * (t % 2 ^ 24)) / 256 % 256 ≡ t % 256 = omega arith in
    let b : (1 + 256 * (t % 2 ^ 24)) / 256 / 256 % 256 ≡ t / 256 % 256 = omega arith in
    let c : (1 + 256 * (t % 2 ^ 24)) / 256 / 256 / 256 % 256 ≡ t / 256 / 256 % 256 = omega arith in
    let more : t / 2 ^ 24 ≡ t / 256 / 256 / 256 = omega arith in rw (flag, a, b, c, more) refl

-- The part of a new registry that `parseRegistryEntry` reads, and what follows it.
new_registry-words :
    (w : Web3) (owner : w.PublicKey) (spend view : Bytes) (t : ℕ) (last : ℤ) (bump : ℕ)
    → stealth_registry_bytes w (new_registry owner spend view t last bump)
      ≡ concat (
          w.to_bytes owner
          ∷ spend
          ∷ view
          ∷ le_bytes 4 0
          ∷ []
          ∷ (le_bytes 4 0 ++ le_bytes 4 (1 + 256 * (t % 2 ^ 24)))
          ∷ [])
        ++ (le_bytes 5 (t / 2 ^ 24) ++ (i64_bytes last ++ (le_bytes 1 bump ++ replicate 64 0)))
unfolding stealth_registry_bytes bool_bytes le_bytes i64_bytes
new_registry-words w owner spend view t last bump =
    simp (append_assoc, append-nil)
      (rw (flag_and_time t (i64_bytes last ++ (le_bytes 1 bump ++ replicate 64 0))) refl)

module _ (w : Web3) where
  open w use {PublicKey}

  -- A registry as `register_stealth_registry` writes it is misread by `parseRegistryEntry`: where its
  -- time is before 2 ^ 32 seconds, the entry has another time, and its label is that of no bytes.
  pub parse_registry_entry-new :
      (utf8_decode : Bytes → Line) (disc : Bytes) (owner : PublicKey) (meta : StealthMetaAddress)
      (t bump : ℕ) (last : ℤ)
      → length disc ≡ 8
      → length meta.spending_key ≡ 32
      → length meta.viewing_key ≡ 32
      → t < 2 ^ 32
      → (entry : StealthRegistryEntry PublicKey) × (parse_registry_entry w utf8_decode (
            disc
            ++ stealth_registry_bytes w
                (new_registry owner meta.spending_key meta.viewing_key t last bump))
          ≡ ok entry)
        × (entry.created_at ≢ pos t)
        × (entry.label ≡ utf8_decode [])
        × (entry.owner ≡ owner)
        × (entry.meta_address ≡ meta)
  unfolding parse_registry_entry
  parse_registry_entry-new utf8_decode disc owner meta t bump last len s v small = (
    record {
      owner = owner;
      meta_address = meta;
      label = utf8_decode [];
      created_at = join_words 0 (1 + 256 * (t % 2 ^ 24));
    },
    rw (new_registry-words w owner meta.spending_key meta.viewing_key t last bump) (
        decode_from_8-append disc _ len (
          Reads-bind _ (Reads-key w owner) (
            Reads-bind _ (Reads-slice meta.spending_key 32 s) (
              Reads-bind _ (Reads-slice meta.viewing_key 32 v) (
                Reads-bind _ (Reads-uint_le 4 0 (omega arith) (omega arith)) (
                  Reads-bind _ (Reads-slice [] 0 refl) (
                    Reads-bind _
                      (Reads-two_words 0 (1 + 256 * (t % 2 ^ 24)) (omega arith) (omega arith))
                      (Reads-pure _)))))))),
    join_words-ne t small,
    refl,
    refl,
    refl,
  )

module _ (sdk : Sdk) where
  open sdk use {web3, system_program_id}
  open web3 use {PublicKey, to_bytes}

  -- `register_stealth_registry`, struct `RegisterStealthRegistry`, whose address depends on the owner.
  pub handle_register_stealth_registry :
      PublicKey → TransactionInstruction PublicKey → Option (Bytes × Bytes)
  unfolding ◌>>=◌ pure
  handle_register_stealth_registry owner =
      handle sdk (codes "register_stealth_registry")
        (do
          spend_pubkey ← read_array 32
          view_pubkey ← read_array 32
          pure (spend_pubkey, view_pubkey))
        (λ args.
          mut_account_at (kirite_address sdk (codes "stealth_registry" ∷ to_bytes owner ∷ []))
          ∷ account_at (kirite_address sdk (Text.protocol_config ∷ []))
          ∷ mut_signer
          ∷ account_at system_program_id
          ∷ [])

  -- The program turns down every registration that the SDK builds, whatever the program id it is
  -- built for: the accounts are not those of the program's struct.
  pub build_register_instruction-rejected :
      (utf8_encode : Line → Bytes) (owner program_id : PublicKey) (meta : StealthMetaAddress)
      (label : Line)
      → map_ok (handle_register_stealth_registry owner) (
          build_register_instruction web3 utf8_encode system_program_id owner meta label program_id)
        ≡ ok none
  unfolding handle_register_stealth_registry build_register_instruction registration_bytes
  build_register_instruction-rejected utf8_encode owner program_id meta label =
      rw
        (u32_le-fits (length (take 64 (utf8_encode label)))
          (omega (arith, length-take 64 (utf8_encode label))))
        (ap ok
          (handle-rejects sdk (codes "register_stealth_registry") _ _ _ (λ args. simp (and-false))))
