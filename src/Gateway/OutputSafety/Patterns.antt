-- ===== src/Gateway/OutputSafety/Patterns.antt =====
-- output_safety.py: the expressions that model output is searched for. They are lists of pieces, and a
-- letter stands for both its cases, as IGNORECASE has it for ASCII letters.
use Prim.Native.Char.{code}
use praxis_interview_os.Base.{
  ℕ, ◌+◌, Bool, true, false, ◌&&◌, ◌||◌, leb, ◌==◌, List, [], ◌∷◌, Option, none, some, String, any,
  is_space, if◌then◌else◌,
}

-- `w`, `\s+`, `w?`, `(w\s+)?` and `(?:v|w)`.
pub data Piece : Type 0 where
  word maybe maybe_spaced : String → Piece
  spaces : Piece
  one_of : List String → Piece

abbrev lower_code : ℕ → ℕ
lower_code n = if leb 65 n && leb n 90 then n + 32 else n

-- What follows a word at the beginning of a text.
unfoldable pub after_word : String → String → Option String
after_word String.[] s = some s
after_word (String.◌∷◌ c w) String.[] = none
after_word (String.◌∷◌ c w) (String.◌∷◌ d s) =
    let rest = after_word w s in if lower_code (code c) == lower_code (code d) then rest else none

-- What may follow spaces at the beginning of a text.
unfoldable pub after_spaces : String → List String
after_spaces String.[] = []
after_spaces (String.◌∷◌ c s) = let more = after_spaces s in if is_space c then s ∷ more else []

unfoldable pub matches : List Piece → String → Bool
unfolding after_word after_spaces
matches [] s = true
matches (word w ∷ ps) s = elim (after_word w s) [ none ↦ false | some r ↦ matches ps r ]
matches (maybe w ∷ ps) s =
    matches ps s || (elim (after_word w s) [ none ↦ false | some r ↦ matches ps r ])
matches (maybe_spaced w ∷ ps) s =
    matches ps s
    || (elim (after_word w s) [ none ↦ false | some r ↦ any (λ t. matches ps t) (after_spaces r) ])
matches (spaces ∷ ps) s = any (λ t. matches ps t) (after_spaces s)
matches (one_of ws ∷ ps) s =
    any (λ w. elim (after_word w s) [ none ↦ false | some r ↦ matches ps r ]) ws

-- `pattern.search(text)`.
unfoldable pub is_found : List Piece → String → Bool
unfolding matches
is_found p String.[] = matches p ""
is_found p (String.◌∷◌ c s) = matches p (String.◌∷◌ c s) || is_found p s

-- _ECHO_INJECTION_PATTERNS.
abbrev pub echo_patterns : List (List Piece)
echo_patterns =
    (word "<UNTRUSTED_DOCUMENT" ∷ [])
    ∷ (word "</UNTRUSTED_DOCUMENT" ∷ [])
    ∷ (word "<TRUSTED_CONTEXT" ∷ [])
    ∷ (word "CRITICAL SECURITY INSTRUCTION:" ∷ [])
    ∷ (word "OUTPUT SCHEMA:" ∷ [])
    ∷ []

-- _INJECTION_ATTEMPT_PATTERNS.
abbrev pub injection_patterns : List (List Piece)
injection_patterns =
    (word "ignore"
      ∷ spaces
      ∷ maybe_spaced "all"
      ∷ word "previous"
      ∷ spaces
      ∷ word "instruction"
      ∷ maybe "s"
      ∷ [])
    ∷ (word "disregard"
        ∷ spaces
        ∷ maybe_spaced "all"
        ∷ word "previous"
        ∷ spaces
        ∷ word "instruction"
        ∷ maybe "s"
        ∷ [])
    ∷ (word "you"
        ∷ spaces
        ∷ word "are"
        ∷ spaces
        ∷ word "now"
        ∷ spaces
        ∷ maybe_spaced "a"
        ∷ one_of ("DAN" ∷ "jailbreak" ∷ "unfiltered" ∷ [])
        ∷ [])
    ∷ (word "reveal" ∷ spaces ∷ maybe_spaced "your" ∷ word "system" ∷ spaces ∷ word "prompt" ∷ [])
    ∷ (word "print" ∷ spaces ∷ maybe_spaced "your" ∷ word "instructions" ∷ [])
    ∷ (word "new" ∷ spaces ∷ word "instruction" ∷ maybe "s" ∷ word ":" ∷ [])
    ∷ []
