-- ===== src/Text/Decimal.antt =====
-- `str` of a number and back, and texts that hold a separator.
use cloud_commander.Prelude.{
  ℕ, zero, suc, ◌+◌, ◌-◌, ◌*◌, ◌/◌, ◌%◌, ◌<◌, ◌≡◌, refl, sym, ap, ◌∙◌, ◌≢◌, inl, inr, [], ◌∷◌, ◌++◌,
  arith, ltb, Bool-cases, length, All,
}
use cloud_commander.Text.{Text, decimal, digits_onto}

-- The number that a run of digits denotes, read from the left.
abbrev value_from : ℕ → Text → ℕ
value_from v [] = v
value_from v (c ∷ s) = value_from (v * 10 + (c - 48)) s

value_from-digits_onto :
    (k n : ℕ) (acc : Text) → n < k → value_from 0 (digits_onto k n acc) ≡ value_from n acc
unfolding digits_onto
value_from-digits_onto zero n acc h = absurd (omega arith)
value_from-digits_onto (suc k) n acc h = elim (Bool-cases (ltb n 10)) [
  | inl small ↦ rw (small, digits_onto) (ap (λ v. value_from v acc) (omega arith))
  | inr large ↦
      rw (large, digits_onto)
        (value_from-digits_onto k (n / 10) ((48 + n % 10) ∷ acc) (ground arith)
          ∙ ap (λ v. value_from v acc) (omega arith))
]

-- Two numbers with the same decimal text are the same number.
pub decimal-injective : (n m : ℕ) → decimal n ≡ decimal m → n ≡ m
unfolding decimal
decimal-injective n m e =
    sym (value_from-digits_onto (suc n) n [] (omega arith))
    ∙ (ap (value_from 0) e ∙ value_from-digits_onto (suc m) m [] (omega arith))

-- No code point of the text is `sep`.
abbrev pub Free : ℕ → Text → Type 0
Free sep = All (λ c. c ≢ sep)

digits_onto-Free :
    (k n sep : ℕ) (acc : Text) → 57 < sep → Free sep acc → Free sep (digits_onto k n acc)
unfolding digits_onto
digits_onto-Free zero n sep acc h f = f
digits_onto-Free (suc k) n sep acc h f = elim (Bool-cases (ltb n 10)) [
  | inl small ↦ rw (small, digits_onto) (ground arith, f)
  | inr large ↦
      rw (large, digits_onto)
        (digits_onto-Free k (n / 10) sep ((48 + n % 10) ∷ acc) h (omega arith, f))
]

pub decimal-Free : (n sep : ℕ) → 57 < sep → Free sep (decimal n)
unfolding decimal
decimal-Free n sep h = digits_onto-Free (suc n) n sep [] h tt

not-Free : (sep : ℕ) (s t : Text) → ¬ Free sep (s ++ sep ∷ t)
not-Free sep [] t f = f.0 refl
not-Free sep (c ∷ s) t f = not-Free sep s t f.1

-- A text is cut in one way at its last separator.
pub last_separator :
    (sep : ℕ) (s t d e : Text)
    → Free sep d
    → Free sep e
    → s ++ sep ∷ d ≡ t ++ sep ∷ e
    → (s ≡ t) × (d ≡ e)
last_separator sep [] [] d e fd fe h = (refl, cc)
last_separator sep [] (c ∷ t) d e fd fe h =
    let same : d ≡ t ++ sep ∷ e = cc in absurd (not-Free sep t e (rw same at fd))
last_separator sep (c ∷ s) [] d e fd fe h =
    let same : e ≡ s ++ sep ∷ d = cc in absurd (not-Free sep s d (rw same at fe))
last_separator sep (c ∷ s) (c' ∷ t) d e fd fe h =
    let head : c ≡ c' = cc in
    let rest = last_separator sep s t d e fd fe (cc) in (cc (head, rest.0), rest.1)

-- Two texts of one length in front of two rests are told from the rests.
pub prefix_split : (s t u v : Text) → length s ≡ length t → s ++ u ≡ t ++ v → (s ≡ t) × (u ≡ v)
prefix_split [] [] u v l h = (refl, h)
prefix_split [] (d ∷ t) u v l h = absurd (omega arith)
prefix_split (c ∷ s) [] u v l h = absurd (omega arith)
prefix_split (c ∷ s) (d ∷ t) u v l h =
    let rest = prefix_split s t u v (omega arith) (cc) in
    let head : c ≡ d = cc in (cc (head, rest.0), rest.1)
