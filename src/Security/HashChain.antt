-- ===== src/Security/HashChain.antt =====
-- app/security/hash_chain.py. SHA-256 and `json.dumps` are the interface `Hasher`.
pub mod Laws
pub mod Raw
use cloud_commander.Prelude.{
  ℕ, zero, suc, Bool, true, not, ◌&&◌, ◌||◌, Option, none, some, [], ◌∷◌, ◌++◌, leb, ◌==◌,
  if◌then◌else◌, length,
}
use cloud_commander.Text.{Text, codes, text_eq, decimal}
use cloud_commander.Uuid.{Uuid, uuid_str}
use cloud_commander.Errors.{Result, ok, err, hash_verification, ◌>>◌}

pub record Hasher (J : Type 0) : Type 0 where
  pub dumps : J → Text  -- json.dumps(payload, sort_keys=True, separators=(",", ":"))
  pub sha256_hex : Text → Text  -- hashlib.sha256(raw.encode("utf-8")).hexdigest()

abbrev pub zeros : ℕ → Text
zeros zero = []
zeros (suc n) = b'0' ∷ zeros n

abbrev pub genesis_hash : Text
genesis_hash = zeros 64

-- `[0-9a-f]`
abbrev pub is_hex : ℕ → Bool
is_hex c = (leb b'0' c && leb c b'9') || (leb b'a' c && leb c b'f')

unfoldable pub all_hex : Text → Bool
all_hex [] = true
all_hex (c ∷ s) = is_hex c && all_hex s

-- `HASH_HEX64_RE.fullmatch(s)`
unfoldable pub is_hex64 : Text → Bool
unfolding all_hex
is_hex64 s = length s == 64 && all_hex s

-- `previous_hash or GENESIS_HASH`: None and the empty string are both false.
unfoldable pub hash_input : Option Text → Text
hash_input none = genesis_hash
hash_input (some []) = genesis_hash
hash_input (some (c ∷ s)) = c ∷ s

abbrev pub bar : ℕ
bar = b'|'

unfoldable pub previous_format_message : Text → Text
previous_format_message s =
    codes "Invalid previous_hash format. Expected 64-char lowercase SHA-256 hex, got "
    ++ (decimal (length s) ++ codes " chars.")

unfoldable pub event_format_message : Text → Text
event_format_message s =
    codes "Invalid event_hash format. Expected 64-char lowercase SHA-256 hex, got "
    ++ (decimal (length s) ++ codes " chars.")

unfoldable pub broken_message : ℕ → Text → Text → Text
broken_message sequence_id expected current_hash =
    codes "Chain broken at sequence "
    ++ (decimal sequence_id
        ++ (codes ". Expected " ++ (expected ++ (codes ", got " ++ (current_hash ++ codes ".")))))

-- `previous_hash is not None and not HASH_HEX64_RE.fullmatch(previous_hash)`
unfoldable pub check_previous : Option Text → Result (Unit {0})
check_previous none = ok tt
check_previous (some s) =
    if is_hex64 s then ok tt else err (hash_verification (previous_format_message s))

unfoldable pub check_current : Text → Text → ℕ → Result (Unit {0})
check_current current_hash expected sequence_id =
    if not (is_hex64 current_hash)
    then err (hash_verification (event_format_message current_hash))
    else if not (text_eq current_hash expected)
    then err (hash_verification (broken_message sequence_id expected current_hash))
    else ok tt

module _ {J : Type 0} ⦃hasher : Hasher J⦄ where
  -- f"{tenant_id}|{aggregate_id}|{hash_input}|{payload_str}|{timestamp_ms}|{sequence_id}"
  unfoldable pub raw_text : Option Text → J → ℕ → ℕ → Uuid → Uuid → Text
  raw_text previous_hash payload timestamp_ms sequence_id tenant_id aggregate_id =
      uuid_str tenant_id
      ++ bar
        ∷ (uuid_str aggregate_id
            ++ bar
              ∷ (hash_input previous_hash
                  ++ bar
                    ∷ ((hasher.dumps payload ++ bar ∷ decimal timestamp_ms)
                        ++ bar ∷ decimal sequence_id)))

  unfoldable pub generate_event_hash : Option Text → J → ℕ → ℕ → Uuid → Uuid → Text
  unfolding raw_text
  generate_event_hash previous_hash payload timestamp_ms sequence_id tenant_id aggregate_id =
      hasher.sha256_hex
        (raw_text previous_hash payload timestamp_ms sequence_id tenant_id aggregate_id)

  unfoldable pub verify_chain : Option Text → Text → J → ℕ → ℕ → Uuid → Uuid → Result (Unit {0})
  unfolding check_previous check_current generate_event_hash
  verify_chain previous_hash current_hash payload timestamp_ms sequence_id tenant_id aggregate_id =
      check_previous previous_hash
      >> check_current current_hash
          (generate_event_hash previous_hash payload timestamp_ms sequence_id tenant_id
            aggregate_id)
          sequence_id
