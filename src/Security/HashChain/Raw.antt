-- ===== src/Security/HashChain/Raw.antt =====
-- The text that is hashed determines every field of the event.
use cloud_commander.Prelude.{ℕ, ◌≡◌, refl, true, Option, none, some, [], ◌∷◌, ◌++◌, arith, length}
use cloud_commander.Text.{Text, decimal}
use cloud_commander.Text.Decimal.{decimal-injective, decimal-Free, last_separator, prefix_split}
use cloud_commander.Uuid.{Uuid, uuid_str, IsUuid}
use cloud_commander.Uuid.Laws.{uuid_str-injective, length-uuid_str}
use cloud_commander.Security.HashChain.{Hasher, hash_input, is_hex64, raw_text, bar}

-- A previous hash as the database allows it: none, or 64 hex digits.
abbrev pub IsHash : Option Text → Type 0
IsHash none = Unit
IsHash (some s) = is_hex64 s ≡ true

is_hex64-length : (s : Text) → is_hex64 s ≡ true → length s ≡ 64
unfolding is_hex64
is_hex64-length s h = ground arith

length-hash_input : (p : Option Text) → IsHash p → length (hash_input p) ≡ 64
unfolding hash_input
length-hash_input none h = refl
length-hash_input (some []) h = refl
length-hash_input (some (c ∷ s)) h = is_hex64-length (c ∷ s) h

uuid_split :
    (u v : Uuid) (s t : Text)
    → IsUuid u
    → IsUuid v
    → uuid_str u ++ bar ∷ s ≡ uuid_str v ++ bar ∷ t
    → (u ≡ v) × (s ≡ t)
uuid_split u v s t hu hv h =
    let parts =
      prefix_split (uuid_str u) (uuid_str v) (bar ∷ s) (bar ∷ t)
        (omega (arith, length-uuid_str u, length-uuid_str v)) h in
    (uuid_str-injective u v hu hv parts.0, cc (parts.1))

number_split :
    (s t : Text) (n m : ℕ) → s ++ bar ∷ decimal n ≡ t ++ bar ∷ decimal m → (s ≡ t) × (n ≡ m)
number_split s t n m h =
    let parts =
      last_separator bar s t (decimal n) (decimal m) (decimal-Free n bar (omega arith))
        (decimal-Free m bar (omega arith)) h in
    (parts.0, decimal-injective n m parts.1)

module _ {J : Type 0} ⦃hasher : Hasher J⦄ where
  -- The fields of two events, as far as they enter the hash, agree.
  abbrev pub SameFields :
      Option Text → J → ℕ → ℕ → Uuid → Uuid → Option Text → J → ℕ → ℕ → Uuid → Uuid → Type 0
  SameFields p j time seq tenant agg p' j' time' seq' tenant' agg' =
      (tenant ≡ tenant')
      × (agg ≡ agg')
      × (hash_input p ≡ hash_input p')
      × (hasher.dumps j ≡ hasher.dumps j')
      × (time ≡ time')
      × (seq ≡ seq')

  -- Equal hashed texts come from events that agree on every hashed field, if their ids have 128
  -- bits and their previous hashes are none or 64 hex digits.
  pub raw_text-injective :
      (p p' : Option Text) (j j' : J) (time time' seq seq' : ℕ) (tenant tenant' agg agg' : Uuid)
      → IsHash p
      → IsHash p'
      → IsUuid tenant
      → IsUuid tenant'
      → IsUuid agg
      → IsUuid agg'
      → raw_text p j time seq tenant agg ≡ raw_text p' j' time' seq' tenant' agg'
      → SameFields p j time seq tenant agg p' j' time' seq' tenant' agg'
  unfolding raw_text
  raw_text-injective p p' j j' time time' seq seq' tenant tenant' agg agg' hp hp' ht ht' ha ha' h =
      let first = uuid_split tenant tenant' _ _ ht ht' h in
      let second = uuid_split agg agg' _ _ ha ha' first.1 in
      let third =
        prefix_split (hash_input p) (hash_input p') _ _
          (omega (arith, length-hash_input p hp, length-hash_input p' hp')) second.1 in
      let fourth =
        number_split (hasher.dumps j ++ bar ∷ decimal time) (hasher.dumps j' ++ bar ∷ decimal time')
          seq seq' (cc (third.1)) in
      let fifth = number_split (hasher.dumps j) (hasher.dumps j') time time' fourth.0 in
      (first.0, second.0, third.0, fifth.0, fifth.1, fourth.1)
