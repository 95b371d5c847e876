-- ===== src/Backend/Uploads/Filename.antt =====
-- core/uploads.py, sanitize_filename: the name under which an upload is stored. A text is the list of its
-- characters' codes; Unicode's NFKD form, reduced to ASCII, is given.
use praxis_interview_os.Base.{
  ℕ, ◌+◌, Bool, true, false, ◌&&◌, ◌||◌, leb, ◌==◌, List, [], ◌∷◌, ◌++◌, Option, none, some, take,
  all, reverse, is_empty, if◌then◌else◌,
}

abbrev pub Text : Type 0
Text = List ℕ

abbrev pub slash : ℕ
slash = 47

abbrev backslash : ℕ
backslash = 92

abbrev pub underscore : ℕ
underscore = 95

abbrev pub dot : ℕ
dot = 46

-- `[A-Za-z0-9]`, and with `._-`.
unfoldable pub is_alnum : ℕ → Bool
is_alnum c = (leb 48 c && leb c 57) || (leb 65 c && leb c 90) || (leb 97 c && leb c 122)

unfoldable pub is_edge : ℕ → Bool
is_edge c = c == dot || c == underscore || c == 45

unfoldable pub is_safe : ℕ → Bool
unfolding is_alnum is_edge
is_safe c = is_alnum c || is_edge c

-- `os.path.basename(name.replace("\\", "/"))`.
unfoldable pub basename : Text → Text → Text
basename acc [] = reverse acc
basename acc (c ∷ cs) =
    if c == slash || c == backslash then basename [] cs else basename (c ∷ acc) cs

-- `re.sub(r"[^A-Za-z0-9._-]+", "_", name)`: whether a run goes on is the first argument.
unfoldable pub replace_runs : Bool → Text → Text
unfolding is_safe
replace_runs in_run [] = []
replace_runs in_run (c ∷ cs) =
    let safe = replace_runs false cs in
    let bad = replace_runs true cs in
    if is_safe c then c ∷ safe else (if in_run then bad else underscore ∷ bad)

-- `name.strip("._-")`.
unfoldable pub strip_left : Text → Text
unfolding is_edge
strip_left [] = []
strip_left (c ∷ cs) = let rest = strip_left cs in if is_edge c then rest else c ∷ cs

unfoldable pub strip_right : Text → Text
unfolding is_edge
strip_right [] = []
strip_right (c ∷ cs) =
    let rest = strip_right cs in if is_empty rest && is_edge c then [] else c ∷ rest

unfoldable pub strip_edges : Text → Text
unfolding strip_left strip_right
strip_edges cs = strip_right (strip_left cs)

-- `os.path.splitext`, of a name without a path: at its last dot, if something but dots stands before.
unfoldable pub split_dot : Text → Option (Text × Text)
split_dot [] = none
split_dot (c ∷ cs) = elim (split_dot cs) [
  | some (stem, ext) ↦ some (c ∷ stem, ext)
  | none ↦ if c == dot then some ([], c ∷ cs) else none
]

unfoldable pub splitext : Text → Text × Text
unfolding split_dot
splitext name = elim (split_dot name) [
  | none ↦ (name, [])
  | some (stem, ext) ↦ if all (λ c. c == dot) stem then (name, []) else (stem, ext)
]

-- `text.lower()`, of ASCII.
abbrev pub lower_code : ℕ → ℕ
lower_code c = if leb 65 c && leb c 90 then c + 32 else c

unfoldable pub lower : Text → Text
lower [] = []
lower (c ∷ cs) = lower_code c ∷ lower cs

-- `a or b`.
unfoldable pub or_else : Text → Text → Text
or_else [] b = b
or_else (c ∷ cs) b = c ∷ cs

abbrev pub upload_name : Text
upload_name = 117 ∷ 112 ∷ 108 ∷ 111 ∷ 97 ∷ 100 ∷ []

-- sanitize_filename; `to_ascii` is the normal form.
unfoldable pub sanitize_filename : (Text → Text) → Text → Text → Text
unfolding basename replace_runs strip_edges splitext lower or_else
sanitize_filename to_ascii filename default_ext =
    let name = strip_edges (replace_runs false (to_ascii (basename [] filename))) in
    let (stem, ext) = splitext name in
    or_else (take 100 (strip_edges stem)) upload_name ++ take 10 (lower (or_else ext default_ext))
