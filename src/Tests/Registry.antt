-- ===== src/Tests/Registry.antt =====
-- The accounts and instructions of the stealth registry at concrete values.
use kirite.Prelude.{◌≡◌, ◌≢◌, refl, pos, none, [], ◌∷◌, ◌++◌, ok, replicate, map_ok, codes, arith}
use kirite.Bytes.{Bytes, le_bytes}
use kirite.Buffer.Reads.{i64_bytes}
use kirite.Prelude.{concat}
use kirite.Events.{Line, number}
use kirite.Web3.Toy.{Key, toy_web3, key_bytes}
use kirite.Stealth.{StealthMetaAddress}
use kirite.Stealth.Parsers.{StealthRegistryEntry, parse_registry_entry, parse_announcement_account}
use kirite.Stealth.Registry.{build_register_instruction}
use kirite.Stealth.Registry.Layout.{parse_registry_entry-bytes, parse_announcement_account-bytes}
use kirite.Stealth.Registry.Mismatch.{
  new_registry, stealth_registry_bytes, handle_register_stealth_registry,
  build_register_instruction-rejected, parse_registry_entry-new,
}
use kirite.Tests.Data.{toy_sdk}

abbrev meta : StealthMetaAddress
meta = record { spending_key = replicate 32 3; viewing_key = replicate 32 2 }

abbrev utf8 : Bytes → Line
utf8 bs = bs

parse_registry_entry-bytes_example :
    parse_registry_entry toy_web3 utf8 (
      replicate 8 0
      ++ concat (
          key_bytes Key.bob
          ∷ replicate 32 3
          ∷ replicate 32 2
          ∷ le_bytes 4 5
          ∷ codes "donor"
          ∷ i64_bytes (pos 1700000000)
          ∷ []))
    ≡ ok (record {
      owner = Key.bob;
      meta_address = meta;
      label = codes "donor";
      created_at = number (pos 1700000000);
    })
parse_registry_entry-bytes_example =
    parse_registry_entry-bytes toy_web3 utf8 (replicate 8 0) Key.bob meta (codes "donor")
      (pos 1700000000) refl refl refl (omega arith) (omega arith)

parse_announcement_account-bytes_example :
    parse_announcement_account toy_web3 utf8 (
      replicate 8 0
      ++ concat (
          replicate 32 1
          ∷ key_bytes Key.alice
          ∷ le_bytes 1 49
          ∷ le_bytes 8 250000000
          ∷ i64_bytes (pos 1700000000)
          ∷ replicate 64 8
          ∷ []))
    ≡ ok (record {
      ephemeral_pubkey = replicate 32 1;
      stealth_address = Key.alice;
      view_tag = 49;
      slot = number (pos 250000000);
      timestamp = number (pos 1700000000);
      signature = replicate 64 8;
    })
parse_announcement_account-bytes_example =
    parse_announcement_account-bytes toy_web3 utf8 (replicate 8 0) (replicate 32 1) (replicate 64 8)
      Key.alice 49 250000000 (pos 1700000000) refl refl refl (omega arith) (omega arith)
      (omega arith)

parse_registry_entry-new_example :
    (entry : StealthRegistryEntry Key) × (parse_registry_entry toy_web3 utf8 (
        replicate 8 0
        ++ stealth_registry_bytes toy_web3
            (new_registry Key.bob (replicate 32 3) (replicate 32 2) 1700000000 (pos 0) 255))
      ≡ ok entry)
    × (entry.created_at ≢ pos 1700000000)
    × (entry.label ≡ [])
    × (entry.owner ≡ Key.bob)
    × (entry.meta_address ≡ meta)
parse_registry_entry-new_example =
    parse_registry_entry-new toy_web3 utf8 (replicate 8 0) Key.bob meta 1700000000 255 (pos 0) refl
      refl refl (omega arith)

build_register_instruction-rejected_example :
    map_ok (handle_register_stealth_registry toy_sdk Key.alice) (
      build_register_instruction toy_web3 utf8 Key.alice Key.alice meta (codes "donor") Key.program)
    ≡ ok none
build_register_instruction-rejected_example =
    build_register_instruction-rejected toy_sdk utf8 Key.alice Key.program meta (codes "donor")
