-- ===== src/Uuid.antt =====
-- `uuid.UUID` as its 128-bit number, and `str` of one: 32 hex digits in five groups.
pub mod Laws
use cloud_commander.Prelude.{
  ℕ, zero, suc, ◌+◌, ◌/◌, ◌%◌, ◌^◌, ◌<◌, List, [], ◌∷◌, ◌++◌, ltb, if◌then◌else◌,
}
use cloud_commander.Text.{Text}

abbrev pub Uuid : Type 0
Uuid = ℕ

unfoldable pub hex_digit : ℕ → ℕ
hex_digit d = if ltb d 10 then 48 + d else 87 + d

-- The last `k` hex digits of `n` in front of `acc`.
unfoldable pub hex_onto : ℕ → ℕ → Text → Text
unfolding hex_digit
hex_onto zero n acc = acc
hex_onto (suc k) n acc = hex_onto k (n / 16) (hex_digit (n % 16) ∷ acc)

-- A dash behind every full group, for the group lengths given.
unfoldable pub take : ℕ → Text → Text
take zero s = []
take (suc k) [] = []
take (suc k) (c ∷ s) = c ∷ take k s

unfoldable pub drop : ℕ → Text → Text
drop zero s = s
drop (suc k) [] = []
drop (suc k) (c ∷ s) = drop k s

unfoldable pub dashed : List ℕ → Text → Text
unfolding take drop
dashed [] s = s
dashed (k ∷ ks) s = take k s ++ b'-' ∷ dashed ks (drop k s)

abbrev pub groups : List ℕ
groups = 8 ∷ 4 ∷ 4 ∷ 4 ∷ []

unfoldable pub uuid_str : Uuid → Text
unfolding hex_onto dashed
uuid_str u = dashed groups (hex_onto 32 u [])

abbrev pub IsUuid : Uuid → Type 0
IsUuid u = u < 2 ^ 128
