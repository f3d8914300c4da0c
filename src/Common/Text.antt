-- ===== src/Common/Text.antt =====
-- Texts as lists of code points, and the part of Go's `strings` and `unicode` that the program uses:
-- `strings.TrimSpace` over `unicode.IsSpace`.
use Prim.Native.Nat.{ℕ, suc, ◌+◌, ◌≤◌}
use Prim.Native.Char.{code}
use Prim.Native.String.{String}
use mathlib.Core.Path.{◌≡◌, refl, ap, ◌∙◌}
use mathlib.Core.Logic.{◌↔◌, inl, inr}
use mathlib.Core.Bool.{Bool, true, false, ◌&&◌, ◌||◌}
use mathlib.Core.List.{List, [], ◌∷◌, ◌++◌}
use native.Mathlib.Omega.{arith}
use xarlatan.Common.Lists.{length}
use xarlatan.Common.Tests.{ltb, leb, ◌==◌, if◌then◌else◌, Bool-cases}

abbrev pub Text : Type 0
Text = List ℕ

-- The code points of a literal.
abbrev pub codes : String → Text
codes String.[] = []
codes (String.◌∷◌ c s) = code c ∷ codes s

-- `len(s)`: the bytes of a text in UTF-8.
unfoldable pub rune_len : ℕ → ℕ
rune_len c = if ltb c 0x80 then 1 else if ltb c 0x800 then 2 else if ltb c 0x10000 then 3 else 4

unfoldable pub byte_length : Text → ℕ
unfolding rune_len
byte_length [] = 0
byte_length (c ∷ cs) = rune_len c + byte_length cs

-- `unicode.IsSpace`: the Latin-1 spaces, and those of category Z and property White_Space above.
unfoldable pub is_space : ℕ → Bool
is_space c =
    (leb 9 c && leb c 13)
    || c == 32
    || c == 0x85
    || c == 0xA0
    || c == 0x1680
    || (leb 0x2000 c && leb c 0x200a)
    || c == 0x2028
    || c == 0x2029
    || c == 0x202f
    || c == 0x205f
    || c == 0x3000

unfoldable pub trim_left : Text → Text
trim_left [] = []
trim_left (c ∷ cs) = if is_space c then trim_left cs else c ∷ cs

-- What the right end of a trimmed text looks like when `c` is put before it.
abbrev pub cons_trimmed : ℕ → Text → Text
cons_trimmed c [] = if is_space c then [] else c ∷ []
cons_trimmed c (d ∷ ds) = c ∷ d ∷ ds

unfoldable pub trim_right : Text → Text
trim_right [] = []
trim_right (c ∷ cs) = cons_trimmed c (trim_right cs)

-- `strings.TrimSpace`
unfoldable pub trim_space : Text → Text
trim_space s = trim_right (trim_left s)

-- `s == ""`
abbrev pub is_empty {ℓ} : {A : Type ℓ} → List A → Bool
is_empty [] = true
is_empty (x ∷ xs) = false

-- `a == b` on strings.
unfoldable pub text_eq : Text → Text → Bool
text_eq [] [] = true
text_eq (x ∷ xs) (y ∷ ys) = x == y && text_eq xs ys
text_eq _ _ = false

pub text_eq_iff : (a b : Text) → (text_eq a b ≡ true) ↔ (a ≡ b)
unfolding text_eq
text_eq_iff (x ∷ a) (y ∷ b) = ground (arith, text_eq_iff a b)
text_eq_iff _ _ = ground arith

-- The characters of a text that are no white space, in order.
unfoldable pub solid : Text → Text
solid [] = []
solid (c ∷ cs) = if is_space c then solid cs else c ∷ solid cs

pub solid-append : (s t : Text) → solid (s ++ t) ≡ solid s ++ solid t
unfolding solid
solid-append [] t = refl
solid-append (c ∷ s) t = ground (arith, solid-append s t)

pub solid-trim_left : (s : Text) → solid (trim_left s) ≡ solid s
unfolding solid trim_left
solid-trim_left [] = refl
solid-trim_left (c ∷ s) = ground (arith, solid-trim_left s)

solid-cons_trimmed : (c : ℕ) (s : Text) → solid (cons_trimmed c s) ≡ solid (c ∷ s)
unfolding solid
solid-cons_trimmed c [] = ground arith
solid-cons_trimmed c (d ∷ s) = refl

solid-cons : (c : ℕ) (s t : Text) → solid s ≡ solid t → solid (c ∷ s) ≡ solid (c ∷ t)
unfolding solid
solid-cons c s t h = ground arith

pub solid-trim_right : (s : Text) → solid (trim_right s) ≡ solid s
unfolding trim_right
solid-trim_right [] = refl
solid-trim_right (c ∷ s) =
    solid-cons_trimmed c (trim_right s) ∙ solid-cons c (trim_right s) s (solid-trim_right s)

-- Trimming loses white space only.
pub solid-trim_space : (s : Text) → solid (trim_space s) ≡ solid s
unfolding trim_space
solid-trim_space s = solid-trim_right (trim_left s) ∙ solid-trim_left s

pub length-trim_left : (s : Text) → length (trim_left s) ≤ length s
unfolding trim_left
length-trim_left [] = omega arith
length-trim_left (c ∷ s) = ground (arith, length-trim_left s)

length-cons_trimmed : (c : ℕ) (s : Text) → length (cons_trimmed c s) ≤ suc (length s)
length-cons_trimmed c [] = ground arith
length-cons_trimmed c (d ∷ s) = omega arith

length-trim_right : (s : Text) → length (trim_right s) ≤ length s
unfolding trim_right
length-trim_right [] = omega arith
length-trim_right (c ∷ s) = omega (arith, length-cons_trimmed c (trim_right s), length-trim_right s)

pub length-trim_space : (s : Text) → length (trim_space s) ≤ length s
unfolding trim_space
length-trim_space s = omega (arith, length-trim_right (trim_left s), length-trim_left s)

-- A text that neither starts nor ends with white space.
trim_left_idem : (s : Text) → trim_left (trim_left s) ≡ trim_left s
unfolding trim_left
trim_left_idem [] = refl
trim_left_idem (c ∷ s) = ground (arith, trim_left_idem s)

trim_right-cons_trimmed :
    (c : ℕ) (s : Text) → trim_right s ≡ s → trim_right (cons_trimmed c s) ≡ cons_trimmed c s
unfolding trim_right
trim_right-cons_trimmed c [] e = ground arith
trim_right-cons_trimmed c (d ∷ s) e = rw e

trim_right_idem : (s : Text) → trim_right (trim_right s) ≡ trim_right s
unfolding trim_right
trim_right_idem [] = refl
trim_right_idem (c ∷ s) = trim_right-cons_trimmed c (trim_right s) (trim_right_idem s)

trim_left-cons_trimmed :
    (c : ℕ) (s : Text) → is_space c ≡ false → trim_left (cons_trimmed c s) ≡ cons_trimmed c s
unfolding trim_left
trim_left-cons_trimmed c [] e = ground (arith, e)
trim_left-cons_trimmed c (d ∷ s) e = rw e

trim_left-trim_right : (s : Text) → trim_left (trim_right (trim_left s)) ≡ trim_right (trim_left s)
unfolding trim_left trim_right
trim_left-trim_right [] = refl
trim_left-trim_right (c ∷ s) = elim (Bool-cases (is_space c)) [
  | inl space ↦ rw space (trim_left-trim_right s)
  | inr word ↦ rw word (trim_left-cons_trimmed c (trim_right s) word)
]

pub trim_space_idem : (s : Text) → trim_space (trim_space s) ≡ trim_space s
unfolding trim_space
trim_space_idem s = ap trim_right (trim_left-trim_right s) ∙ trim_right_idem (trim_left s)

trim_right-append : (s : Text) (c : ℕ) → is_space c ≡ false → trim_right (s ++ c ∷ []) ≡ s ++ c ∷ []
unfolding trim_right
trim_right-append [] c e = ground (arith, e)
trim_right-append (d ∷ []) c e = rw (trim_right-append [] c e)
trim_right-append (d ∷ x ∷ s) c e = rw (trim_right-append (x ∷ s) c e)

-- A text that begins and ends with characters that are no white space is left as it is.
pub trim_space_solid :
    (o : ℕ) (s : Text) (c : ℕ)
    → is_space o ≡ false
    → is_space c ≡ false
    → trim_space (o ∷ (s ++ c ∷ [])) ≡ o ∷ (s ++ c ∷ [])
unfolding trim_space trim_left
trim_space_solid o s c ho hc = rw ho (trim_right-append (o ∷ s) c hc)
