-- ===== src/Prelude/Text.antt =====
-- Texts as lists of character codes.
use Prim.Native.Nat.{ℕ, zero, suc}
use mathlib.Core.Path.{◌≡◌, refl}
use mathlib.Core.Logic.{◌↔◌}
use mathlib.Core.Bool.{Bool, true, false, ◌&&◌}
use mathlib.Core.List.{List, [], ◌∷◌, ◌++◌}
use native.Mathlib.Omega.{arith}
use meet_millions_finance.Prelude.Tests.{◌==◌, Eq, if◌then◌else◌}
use meet_millions_finance.Prelude.Lists.{All}

abbrev pub Text : Type 0
Text = List ℕ

abbrev pub same_text : Text → Text → Bool
same_text [] [] = true
same_text [] (b ∷ s) = false
same_text (a ∷ r) [] = false
same_text (a ∷ r) (b ∷ s) = a == b && same_text r s

pub same_text_iff : (r s : Text) → (same_text r s ≡ true) ↔ (r ≡ s)
same_text_iff [] [] = ground arith
same_text_iff [] (b ∷ s) = ((λ e. cc), (λ e. cc))
same_text_iff (a ∷ r) [] = ((λ e. cc), (λ e. cc))
same_text_iff (a ∷ r) (b ∷ s) = ground (arith, same_text_iff r s)

instance abbrev pub text_eq : Eq Text
text_eq = record { beq = same_text; beq_iff = same_text_iff }

-- `s.slice(0, n)`.
abbrev pub slice : ℕ → Text → Text
slice zero s = []
slice (suc n) [] = []
slice (suc n) (c ∷ s) = c ∷ slice n s

-- `s.startsWith(prefix)`.
abbrev pub starts_with : Text → Text → Bool
starts_with s [] = true
starts_with [] (c ∷ prefix) = false
starts_with (a ∷ s) (c ∷ prefix) = a == c && starts_with s prefix

abbrev pub push_char : ℕ → List Text → List Text
push_char c [] = (c ∷ []) ∷ []
push_char c (w ∷ ws) = (c ∷ w) ∷ ws

-- `s.split('.')`.
unfoldable pub split_dots : Text → List Text
split_dots [] = [] ∷ []
split_dots (c ∷ s) = let rest = split_dots s in if c == b'.' then [] ∷ rest else push_char c rest

-- No dot stands in the text.
abbrev pub HasNoDot : Text → Type 0
HasNoDot s = All (λ c. (c == b'.') ≡ false) s

pub split_dots-word : (s : Text) → HasNoDot s → split_dots s ≡ s ∷ []
unfolding split_dots
split_dots-word [] h = refl
split_dots-word (c ∷ s) h = rw (h.0, split_dots-word s h.1) refl

-- A text before the first dot is the first part.
pub split_dots-append : (s t : Text) → HasNoDot s → split_dots (s ++ b'.' ∷ t) ≡ s ∷ split_dots t
unfolding split_dots
split_dots-append [] t h = refl
split_dots-append (c ∷ s) t h = rw (h.0, split_dots-append s t h.1) refl
