-- ===== src/Backend/Uploads/Names.antt =====
-- The names under which uploads are stored.
use mathlib.Core.Bool.{true≢false}
use praxis_interview_os.Base.{
  ℕ, zero, suc, ◌≤◌, ◌≡◌, refl, sym, subst, ◌∙◌, Bool, true, false, ◌&&◌, leb, ◌==◌, [], ◌∷◌, ◌++◌,
  Option, none, some, length, take, all, is_empty, arith, inl, inr, Bool-cases, Option-cases, All,
  All-append, All-take, length-append, length-take,
}
use praxis_interview_os.Backend.Uploads.Filename.{
  Text, is_alnum, is_edge, is_safe, basename, replace_runs, strip_left, strip_right, strip_edges,
  split_dot, splitext, lower, lower_code, or_else, upload_name, sanitize_filename, underscore, dot,
}

abbrev pub AreSafe : Text → Type 0
AreSafe cs = All (λ c. is_safe c ≡ true) cs

underscore_safe : is_safe underscore ≡ true
unfolding is_safe is_edge is_alnum
underscore_safe = refl

replace_runs-AreSafe : (in_run : Bool) (cs : Text) → AreSafe (replace_runs in_run cs)
unfolding replace_runs
replace_runs-AreSafe in_run [] = tt
replace_runs-AreSafe true (c ∷ cs) = elim (Bool-cases (is_safe c)) [
  | inl e ↦ rw e (e, replace_runs-AreSafe false cs)
  | inr e ↦ rw e (replace_runs-AreSafe true cs)
]
replace_runs-AreSafe false (c ∷ cs) = elim (Bool-cases (is_safe c)) [
  | inl e ↦ rw e (e, replace_runs-AreSafe false cs)
  | inr e ↦ rw e (underscore_safe, replace_runs-AreSafe true cs)
]

strip_left-AreSafe : (cs : Text) → AreSafe cs → AreSafe (strip_left cs)
unfolding strip_left
strip_left-AreSafe [] h = tt
strip_left-AreSafe (c ∷ cs) h = elim (Bool-cases (is_edge c)) [
  | inl e ↦ rw e (strip_left-AreSafe cs h.1)
  | inr e ↦ rw e h
]

strip_right-AreSafe : (cs : Text) → AreSafe cs → AreSafe (strip_right cs)
unfolding strip_right
strip_right-AreSafe [] h = tt
strip_right-AreSafe (c ∷ cs) h = elim (Bool-cases (is_empty (strip_right cs) && is_edge c)) [
  | inl e ↦ rw e tt
  | inr e ↦ rw e (h.0, strip_right-AreSafe cs h.1)
]

-- A name begins with a letter or a digit.
abbrev pub BeginsWell : Text → Type 0
BeginsWell [] = ⊥
BeginsWell (c ∷ cs) = is_alnum c ≡ true

abbrev BeginsWellOrEmpty : Text → Type 0
BeginsWellOrEmpty [] = Unit
BeginsWellOrEmpty (c ∷ cs) = is_alnum c ≡ true

safe_start : (c : ℕ) → is_safe c ≡ true → is_edge c ≡ false → is_alnum c ≡ true
unfolding is_safe
safe_start c h e = elim (Bool-cases (is_alnum c)) [
  | inl a ↦ a
  | inr a ↦ absurd (true≢false (sym h ∙ (rw a e)))
]

strip_left-Begins : (cs : Text) → AreSafe cs → BeginsWellOrEmpty (strip_left cs)
unfolding strip_left
strip_left-Begins [] h = tt
strip_left-Begins (c ∷ cs) h = elim (Bool-cases (is_edge c)) [
  | inl e ↦ rw e (strip_left-Begins cs h.1)
  | inr e ↦ rw e (safe_start c h.0 e)
]

strip_right-Begins : (cs : Text) → BeginsWellOrEmpty cs → BeginsWellOrEmpty (strip_right cs)
unfolding strip_right
strip_right-Begins [] h = tt
strip_right-Begins (c ∷ cs) h = elim (Bool-cases (is_empty (strip_right cs) && is_edge c)) [
  | inl e ↦ rw e tt
  | inr e ↦ rw e h
]

abbrev SafeParts : Option (Text × Text) → Type 0
SafeParts none = Unit
SafeParts (some (a, b)) = AreSafe a × AreSafe b

split_dot-SafeParts : (cs : Text) → AreSafe cs → SafeParts (split_dot cs)
unfolding split_dot
split_dot-SafeParts [] h = tt
split_dot-SafeParts (c ∷ cs) h =
    let later = split_dot-SafeParts cs h.1 in
    elim (Option-cases (split_dot cs)) [
      | inr ((stem, ext), e) ↦ let (a, b) = subst SafeParts e later in rw e ((h.0, a), b)
      | inl e ↦ elim (Bool-cases (c == dot)) [
        | inl d ↦ rw e (rw d (tt, h))
        | inr d ↦ rw e (rw d tt)
      ]
    ]

splitext-AreSafe : (cs : Text) → AreSafe cs → AreSafe (splitext cs).0 × AreSafe (splitext cs).1
unfolding splitext
splitext-AreSafe cs h = elim (Option-cases (split_dot cs)) [
  | inl e ↦ rw (e, splitext) (h, tt)
  | inr ((stem, ext), e) ↦
      let (a, b) = subst SafeParts e (split_dot-SafeParts cs h) in
      elim (Bool-cases (all (λ c. c == dot) stem)) [
        | inl d ↦ rw (e, splitext) (rw d (h, tt))
        | inr d ↦ rw (e, splitext) (rw d (a, b))
      ]
]

lower_safe : (c : ℕ) → is_safe c ≡ true → is_safe (lower_code c) ≡ true
unfolding is_safe is_alnum is_edge
lower_safe c h = elim (Bool-cases (leb 65 c && leb c 90)) [
  | inl e ↦ rw e (ground (arith, e))
  | inr e ↦ rw e h
]

lower-AreSafe : (cs : Text) → AreSafe cs → AreSafe (lower cs)
unfolding lower
lower-AreSafe [] h = tt
lower-AreSafe (c ∷ cs) h = (lower_safe c h.0, lower-AreSafe cs h.1)

or_else-AreSafe : (a b : Text) → AreSafe a → AreSafe b → AreSafe (or_else a b)
unfolding or_else
or_else-AreSafe [] b p q = q
or_else-AreSafe (c ∷ cs) b p q = p

upload_name-AreSafe : AreSafe upload_name
unfolding is_safe is_alnum
upload_name-AreSafe = (refl, (refl, (refl, (refl, (refl, (refl, tt))))))

take-Begins : (n : ℕ) (cs : Text) → BeginsWellOrEmpty cs → BeginsWellOrEmpty (take n cs)
take-Begins zero cs h = tt
take-Begins (suc n) [] h = tt
take-Begins (suc n) (c ∷ cs) h = h

or_upload-Begins : (a b : Text) → BeginsWellOrEmpty a → BeginsWell (or_else a upload_name ++ b)
unfolding or_else is_alnum
or_upload-Begins [] b h = refl
or_upload-Begins (c ∷ cs) b h = h

length-or_upload : (n : ℕ) (a : Text) → length a ≤ 100 → length (or_else a upload_name) ≤ 100
unfolding or_else
length-or_upload n [] h = omega arith
length-or_upload n (c ∷ cs) h = h

-- Whatever an upload is called, it is stored under a name of letters, digits, dots, underscores and dashes
-- that begins with a letter or a digit and has at most 110 characters. The default extension has such
-- characters too.
pub sanitize_filename-Safe :
    (to_ascii : Text → Text) (filename default_ext : Text)
    → AreSafe default_ext
    → AreSafe (sanitize_filename to_ascii filename default_ext)
      × BeginsWell (sanitize_filename to_ascii filename default_ext)
      × (length (sanitize_filename to_ascii filename default_ext) ≤ 110)
unfolding sanitize_filename strip_edges
sanitize_filename-Safe to_ascii filename default_ext ok =
    let clean = replace_runs false (to_ascii (basename [] filename)) in
    let safe = replace_runs-AreSafe false (to_ascii (basename [] filename)) in
    let name = strip_edges clean in
    let named = strip_right-AreSafe (strip_left clean) (strip_left-AreSafe clean safe) in
    let (stem, ext) = splitext name in
    let (stemmed, exted) = splitext-AreSafe name named in
    let left = strip_left-AreSafe stem stemmed in
    let core = take 100 (strip_edges stem) in
    let cored =
      All-take (λ c. is_safe c ≡ true) 100 (strip_edges stem)
        (strip_right-AreSafe (strip_left stem) left) in
    let start =
      take-Begins 100 (strip_edges stem)
        (strip_right-Begins (strip_left stem) (strip_left-Begins stem stemmed)) in
    let tail = take 10 (lower (or_else ext default_ext)) in
    let tailed =
      All-take (λ c. is_safe c ≡ true) 10 (lower (or_else ext default_ext))
        (lower-AreSafe (or_else ext default_ext) (or_else-AreSafe ext default_ext exted ok)) in
    (
      All-append (λ c. is_safe c ≡ true) (or_else core upload_name) tail
          (or_else-AreSafe core upload_name cored upload_name-AreSafe) tailed,
      or_upload-Begins core tail start,
      omega (
        arith,
        length-append (or_else core upload_name) tail,
        length-take 10 (lower (or_else ext default_ext)),
        length-or_upload 0 core (omega (arith, length-take 100 (strip_edges stem))),
      ),
    )
