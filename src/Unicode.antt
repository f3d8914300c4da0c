-- ===== src/Unicode.antt =====
-- The Unicode tables that internal/wake and internal/barge consult, which are Go's and enter as a
-- record, and the accent folding that both packages spell out.
use xarlatan.Common.{ℕ, ◌≡◌, refl, Bool, true, ◌&&◌, ◌||◌, arith, leb, ◌==◌, if◌then◌else◌, ◌+◌}

-- `unicode.IsLetter`, `unicode.IsDigit` and `unicode.ToLower`.
pub record Unicode : Type 0 where
  pub is_letter : ℕ → Bool
  pub is_digit : ℕ → Bool
  pub to_lower : ℕ → ℕ

-- `unicode.IsLetter(r) || unicode.IsDigit(r)`
unfoldable pub is_word : Unicode → ℕ → Bool
is_word u r = u.is_letter r || u.is_digit r

-- The switch on accented vowels, the same in wake and in barge.
unfoldable pub fold_accent : ℕ → ℕ
fold_accent r =
    if r == 0xE1 || r == 0xE0 || r == 0xE4 || r == 0xE2
    then b'a'
    else if r == 0xE9 || r == 0xE8 || r == 0xEB || r == 0xEA
    then b'e'
    else if r == 0xED || r == 0xEC || r == 0xEF || r == 0xEE
    then b'i'
    else if r == 0xF3 || r == 0xF2 || r == 0xF6 || r == 0xF4
    then b'o'
    else if r == 0xFA || r == 0xF9 || r == 0xFC || r == 0xFB
    then b'u'
    else r

-- What Go's tables say of letters and digits, as far as the two tokenizers rely on it: lowering
-- keeps a code point on its side, and the plain vowels are letters.
pub record IsRegular (u : Unicode) : Type 0 where
  pub is_word-to_lower : (r : ℕ) → is_word u (u.to_lower r) ≡ is_word u r
  pub vowel_a : is_word u b'a' ≡ true
  pub vowel_e : is_word u b'e' ≡ true
  pub vowel_i : is_word u b'i' ≡ true
  pub vowel_o : is_word u b'o' ≡ true
  pub vowel_u : is_word u b'u' ≡ true

-- Folding never takes a letter out of a word.
pub is_word-fold_accent :
    (u : Unicode) (r : ℕ) → IsRegular u → is_word u r ≡ true → is_word u (fold_accent r) ≡ true
unfolding fold_accent
is_word-fold_accent u r g h = ground arith

-- The tables on ASCII and the Latin-1 letters.
abbrev within : ℕ → ℕ → ℕ → Bool
within lo hi c = leb lo c && leb c hi

abbrev pub latin : Unicode
latin = record {
  is_letter = λ c. within b'a' b'z' c || within b'A' b'Z' c || within 0xC0 0xFF c;
  is_digit = λ c. within b'0' b'9' c;
  to_lower = λ c. if within b'A' b'Z' c || within 0xC0 0xDE c then c + 32 else c;
}

pub latin-IsRegular : IsRegular latin
unfolding is_word
latin-IsRegular = record {
  is_word-to_lower = λ r. ground arith;
  vowel_a = refl;
  vowel_e = refl;
  vowel_i = refl;
  vowel_o = refl;
  vowel_u = refl;
}
