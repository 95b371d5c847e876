-- ===== src/Base/Text.antt =====
-- What the program uses of Python's texts: white space, `strip`, `split` and decimal numerals.
use Prim.Native.Char.{Char, code}
use Prim.Native.String.{String, slice, ◌++◌ as str_append}
use Prim.Native.Nat.{ℕ, zero, suc, ◌+◌, ◌/◌, ◌%◌}
use mathlib.Core.Bool.{Bool, true, false, ◌&&◌, ◌||◌}
use praxis_interview_os.Base.Tests.{ltb, leb, ◌==◌, if◌then◌else◌}

-- `str.isspace` of one character.
unfoldable pub is_space : Char → Bool
is_space c =
    let n = code c in
    (leb 9 n && leb n 13)
    || (leb 28 n && leb n 32)
    || n == 133
    || n == 160
    || n == 5760
    || (leb 8192 n && leb n 8202)
    || n == 8232
    || n == 8233
    || n == 8239
    || n == 8287
    || n == 12288

unfoldable pub strip_left : String → String
unfolding is_space
strip_left String.[] = ""
strip_left (String.◌∷◌ c s) = let rest = strip_left s in if is_space c then rest else String.◌∷◌ c s

unfoldable pub is_blank : String → Bool
unfolding is_space
is_blank String.[] = true
is_blank (String.◌∷◌ c s) = is_space c && is_blank s

unfoldable pub strip_right : String → String
unfolding is_blank
strip_right String.[] = ""
strip_right (String.◌∷◌ c s) =
    let rest = strip_right s in if is_blank (String.◌∷◌ c s) then "" else String.◌∷◌ c rest

-- `s.strip()`.
unfoldable pub strip : String → String
unfolding strip_left strip_right
strip s = strip_right (strip_left s)

-- The number of words that begin in a text, after a space or not.
unfoldable pub words_from : Bool → String → ℕ
unfolding is_space
words_from after_space String.[] = 0
words_from after_space (String.◌∷◌ c s) =
    let in_gap = words_from true s in
    let in_word = words_from false s in
    if is_space c then in_gap else (if after_space then suc in_word else in_word)

-- `len(s.split())`.
unfoldable pub word_count : String → ℕ
unfolding words_from
word_count s = words_from true s

abbrev digit : ℕ → String
digit d = slice "0123456789" d (d + 1)

-- The numeral of `n`, on fuel of at least the number of its digits.
unfoldable pub numeral : ℕ → ℕ → String
numeral zero n = digit (n % 10)
numeral (suc fuel) n = elim (ltb n 10) [
  | true ↦ digit n
  | false ↦ str_append (numeral fuel (n / 10)) (digit (n % 10))
]

-- `str(n)`: n digits are enough for n.
unfoldable pub decimal : ℕ → String
unfolding numeral
decimal n = numeral n n
