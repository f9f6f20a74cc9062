-- ===== src/Tests/Chain.antt =====
-- Hashes of two events.
use cloud_commander.Prelude.{◌≡◌, ◌≢◌, ◌⊎◌, none, some, arith}
use cloud_commander.Text.{Text}
use cloud_commander.Errors.{ok}
use cloud_commander.Security.HashChain.{raw_text, generate_event_hash, verify_chain}
use cloud_commander.Tests.Fixtures.{null, fractions, json_codec, toy_hasher, toy_hasher-Digests}
use cloud_commander.Security.HashChain.Raw.{SameFields}
use cloud_commander.Security.HashChain.Laws.{
  tamper_evident, verify_chain-generate, generate_event_hash-IsHash,
}

abbrev hash_one : Text
hash_one = generate_event_hash none null 1700000000001 1 1 7

abbrev hash_two : Text
hash_two = generate_event_hash (some hash_one) null 1700000000002 2 1 7

verify_two : verify_chain (some hash_one) hash_two null 1700000000002 2 1 7 ≡ ok tt
verify_two =
    verify_chain-generate (some hash_one) null 1700000000002 2 1 7 toy_hasher-Digests.hex64
      (generate_event_hash-IsHash _ _ _ _ _ _ toy_hasher-Digests.hex64)

tamper_evident_example :
    SameFields (some hash_one) null 1700000000002 2 1 7 (some hash_one) null 1700000000002 2 1 7
    ⊎ ((raw_text (some hash_one) null 1700000000002 2 1 7
          ≢ raw_text (some hash_one) null 1700000000002 2 1 7)
        × (toy_hasher.sha256_hex (raw_text (some hash_one) null 1700000000002 2 1 7)
            ≡ toy_hasher.sha256_hex (raw_text (some hash_one) null 1700000000002 2 1 7)))
tamper_evident_example =
    tamper_evident hash_two (some hash_one) (some hash_one) null null 1700000000002 1700000000002 2
      2 1 1 7 7 (omega arith) (omega arith) (omega arith) (omega arith) verify_two verify_two
