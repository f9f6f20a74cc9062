-- ===== src/Uuid/Laws.antt =====
-- The text of a UUID has 36 characters and names one UUID.
use native.Mathlib.Nat.{pow-suc}
use cloud_commander.Prelude.{
  ℕ, zero, suc, ◌+◌, ◌-◌, ◌*◌, ◌/◌, ◌%◌, ◌^◌, ◌≤◌, ◌<◌, ◌≡◌, refl, ap, ◌∙◌, List, [], ◌∷◌, ◌++◌,
  arith, length, length-append,
}
use cloud_commander.Text.{Text}
use cloud_commander.Text.Decimal.{prefix_split}
use cloud_commander.Uuid.{Uuid, hex_digit, hex_onto, take, drop, dashed, groups, uuid_str, IsUuid}

hex_digit-injective : (d e : ℕ) → d < 16 → e < 16 → hex_digit d ≡ hex_digit e → d ≡ e
unfolding hex_digit
hex_digit-injective d e hd he h = ground arith

pub length-hex_onto : (k n : ℕ) (acc : Text) → length (hex_onto k n acc) ≡ k + length acc
unfolding hex_onto
length-hex_onto zero n acc = omega arith
length-hex_onto (suc k) n acc = omega (arith, length-hex_onto k (n / 16) (hex_digit (n % 16) ∷ acc))

hex_onto-injective :
    (k n m : ℕ) (s t : Text)
    → n < 16 ^ k
    → m < 16 ^ k
    → hex_onto k n s ≡ hex_onto k m t
    → (n ≡ m) × (s ≡ t)
unfolding hex_onto
hex_onto-injective zero n m s t hn hm h = (omega arith, h)
hex_onto-injective (suc k) n m s t hn hm h =
    let bn : n < 16 ^ k * 16 = rw pow-suc at hn in
    let bm : m < 16 ^ k * 16 = rw pow-suc at hm in
    let rest =
      hex_onto-injective k (n / 16) (m / 16) (hex_digit (n % 16) ∷ s) (hex_digit (m % 16) ∷ t)
        (omega arith) (omega arith) h in
    let digit : hex_digit (n % 16) ≡ hex_digit (m % 16) = cc (rest.1) in
    let low = hex_digit-injective (n % 16) (m % 16) (omega arith) (omega arith) digit in
    (omega (arith, rest.0, low), cc (rest.1))

length-drop : (k : ℕ) (s : Text) → length (drop k s) ≡ length s - k
unfolding drop
length-drop zero s = omega arith
length-drop (suc k) [] = omega arith
length-drop (suc k) (c ∷ s) = omega (arith, length-drop k s)

length-take : (k : ℕ) (s : Text) → length (take k s) ≡ length s - length (drop k s)
unfolding take drop
length-take zero s = omega arith
length-take (suc k) [] = omega arith
length-take (suc k) (c ∷ s) = omega (arith, length-take k s, length-drop k s)

take-append-drop : (k : ℕ) (s : Text) → take k s ++ drop k s ≡ s
unfolding take drop
take-append-drop zero s = refl
take-append-drop (suc k) [] = refl
take-append-drop (suc k) (c ∷ s) = ap (λ r. c ∷ r) (take-append-drop k s)

dashed-injective :
    (ks : List ℕ) (s t : Text) → length s ≡ length t → dashed ks s ≡ dashed ks t → s ≡ t
unfolding dashed
dashed-injective [] s t l h = h
dashed-injective (k ∷ ks) s t l h =
    let same_drop : length (drop k s) ≡ length (drop k t) =
      omega (arith, l, length-drop k s, length-drop k t) in
    let parts =
      prefix_split (take k s) (take k t) (b'-' ∷ dashed ks (drop k s)) (b'-' ∷ dashed ks (drop k t))
        (omega (arith, l, same_drop, length-take k s, length-take k t)) h in
    let tails = dashed-injective ks (drop k s) (drop k t) same_drop (cc (parts.1)) in
    cc (parts.0, tails, take-append-drop k s, take-append-drop k t)

-- Two UUIDs with the same text are the same UUID.
pub uuid_str-injective : (u v : Uuid) → IsUuid u → IsUuid v → uuid_str u ≡ uuid_str v → u ≡ v
unfolding uuid_str
uuid_str-injective u v hu hv h =
    let same =
      dashed-injective groups (hex_onto 32 u []) (hex_onto 32 v [])
        (omega (arith, length-hex_onto 32 u [], length-hex_onto 32 v [])) h in
    (hex_onto-injective 32 u v [] [] (omega arith) (omega arith) same).0

abbrev total : List ℕ → ℕ
total [] = 0
total (k ∷ ks) = k + total ks

length-dashed :
    (ks : List ℕ) (s : Text) → total ks ≤ length s → length (dashed ks s) ≡ length s + length ks
unfolding dashed
length-dashed [] s h = omega arith
length-dashed (k ∷ ks) s h = omega (
  arith,
  length-append {0} (take k s) (b'-' ∷ dashed ks (drop k s)),
  length-take k s,
  length-drop k s,
  length-dashed ks (drop k s) (omega (arith, length-drop k s)),
)

-- The text of every UUID has 36 characters.
pub length-uuid_str : (u : Uuid) → length (uuid_str u) ≡ 36
unfolding uuid_str
length-uuid_str u =
    length-dashed groups (hex_onto 32 u []) (omega (arith, length-hex_onto 32 u []))
    ∙ omega (arith, length-hex_onto 32 u [])
