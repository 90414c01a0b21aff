-- ===== src/Audit/Canonical.antt =====
-- The serialisation of an audit row (src/services/audit.js, `canonical`) keeps every field.
use meet_millions_finance.Prelude.{
  ltb, Bool-cases, or_else, nat_eq, length, ℕ, zero, suc, ◌+◌, ◌-◌, ◌*◌, ◌/◌, ◌%◌, ◌≤◌, ◌≡◌, refl,
  sym, ap, ap₂, ◌∙◌, inl, inr, Option, none, some, List, [], ◌∷◌, ◌++◌, map, arith,
}
use meet_millions_finance.Tax.Gst.{Code}
use meet_millions_finance.Audit.{decimal, digits_from, join_bar, canonical, field_text, escape}

-- The escaped text before a bar, and what stands behind the bar, are determined.
escape_bar : (s t p q : Code) → escape s ++ b'|' ∷ p ≡ escape t ++ b'|' ∷ q → (s ≡ t) × (p ≡ q)
unfolding escape
escape_bar [] [] p q h = (refl, cc)
escape_bar [] (d ∷ t) p q h = ground arith
escape_bar (c ∷ s) [] p q h = ground arith
escape_bar (c ∷ s) (d ∷ t) p q h = ground (arith, escape_bar s t p q)

escape_inj : (s t : Code) → escape s ≡ escape t → s ≡ t
unfolding escape
escape_inj [] [] h = refl
escape_inj [] (d ∷ t) h = ground arith
escape_inj (c ∷ s) [] h = ground arith
escape_inj (c ∷ s) (d ∷ t) h = ground (arith, escape_inj s t)

-- A stored value as the hash reads it: `null` is the empty text.
abbrev pub hashed_value : Option Code → Code
hashed_value x = or_else x []

field_text-eq : (x : Option Code) → field_text x ≡ escape (hashed_value x)
unfolding escape
field_text-eq none = refl
field_text-eq (some s) = refl

field_text_inj : (x y : Option Code) → field_text x ≡ field_text y → hashed_value x ≡ hashed_value y
field_text_inj x y h =
    escape_inj (hashed_value x) (hashed_value y) (sym (field_text-eq x) ∙ h ∙ field_text-eq y)

field_text_bar :
    (x y : Option Code) (p q : Code)
    → field_text x ++ b'|' ∷ p ≡ field_text y ++ b'|' ∷ q
    → (hashed_value x ≡ hashed_value y) × (p ≡ q)
field_text_bar x y p q h = escape_bar (hashed_value x) (hashed_value y) p q (
    sym (ap (λ t. t ++ b'|' ∷ p) (field_text-eq x)) ∙ h ∙ ap (λ t. t ++ b'|' ∷ q) (field_text-eq y))

-- Two rows with the same serialisation agree in every hashed field, up to `null` and the empty text.
pub canonical_determines :
    (xs ys : List (Option Code))
    → length xs ≡ length ys
    → canonical xs ≡ canonical ys
    → map hashed_value xs ≡ map hashed_value ys
unfolding canonical join_bar
canonical_determines [] [] n h = refl
canonical_determines [] (y ∷ ys) n h = ground arith
canonical_determines (x ∷ xs) [] n h = ground arith
canonical_determines (x ∷ []) (y ∷ []) n h = ap (λ v. v ∷ []) (field_text_inj x y h)
canonical_determines (x ∷ []) (y ∷ y' ∷ ys) n h = ground arith
canonical_determines (x ∷ x' ∷ xs) (y ∷ []) n h = ground arith
canonical_determines (x ∷ x' ∷ xs) (y ∷ y' ∷ ys) n h =
    let heads = field_text_bar x y _ _ h in
    ap₂ (λ v vs. v ∷ vs) heads.0
      (canonical_determines (x' ∷ xs) (y' ∷ ys) (omega (arith, n)) heads.1)

-- The number that decimal digits write, on top of those before them.
abbrev read_from : ℕ → Code → ℕ
read_from n [] = n
read_from n (c ∷ s) = read_from (10 * n + (c - 48)) s

read_from-append :
    (n : ℕ) (s : Code) (c : ℕ) → read_from n (s ++ c ∷ []) ≡ 10 * read_from n s + (c - 48)
read_from-append n [] c = refl
read_from-append n (d ∷ s) c = read_from-append (10 * n + (d - 48)) s c

read-digits_from : (fuel n : ℕ) → n ≤ fuel → read_from 0 (digits_from fuel n) ≡ n
unfolding digits_from
read-digits_from zero n h = omega (arith, h)
read-digits_from (suc fuel) n h =
    let shorter = read-digits_from fuel (n / 10) (omega (arith, h)) in
    elim (Bool-cases (ltb n 10)) [
      | inl e ↦ rw e (ground arith)
      | inr e ↦
          rw (e, read_from-append 0 (digits_from fuel (n / 10)) (48 + n % 10))
            (omega (arith, shorter))
    ]

-- The fuel of `decimal` is enough: the digits are those of the number, so two numbers with the same
-- digits are one.
pub decimal_inj : (m n : ℕ) → decimal m ≡ decimal n → m ≡ n
unfolding decimal
decimal_inj m n h =
    sym (read-digits_from m m (omega arith))
    ∙ ap (λ s. read_from 0 s) h
    ∙ read-digits_from n n (omega arith)
