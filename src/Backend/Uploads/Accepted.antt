-- ===== src/Backend/Uploads/Accepted.antt =====
-- What is known of an upload that is accepted.
use mathlib.Core.Bool.{false≢true}
use mathlib.Core.List.{append_assoc, append-nil}
use praxis_interview_os.Base.{
  ℕ, ◌≤◌, ◌≡◌, ◌≢◌, refl, sym, ap, subst, ◌∙◌, Bool, true, false, ◌&&◌, ltb, ◌==◌, List, [], ◌∷◌,
  ◌++◌, none, some, length, is_empty, arith, inl, inr, Bool-cases, Option-cases, if◌then◌else◌,
}
use praxis_interview_os.Backend.Uploads.Filename.{
  Text, is_safe, is_alnum, is_edge, splitext, lower, sanitize_filename,
}
use praxis_interview_os.Backend.Uploads.{
  after_slash, UploadError, payload_too_large, empty_file, unsupported_media_type, content_mismatch,
  declared_mismatch, Uploaded, ok, fails, read_limited, Mime, pdf, docx, txt, mime_eq, text_eq,
  sniff_mime, extension_type, Declared, is_accepted, ValidatedUpload, check_content,
  validate_resume_upload,
}
use praxis_interview_os.Backend.Uploads.Names.{AreSafe, BeginsWell, sanitize_filename-Safe}

-- The bytes of an upload: its chunks up to the first empty one.
abbrev pub bytes_of : List (List ℕ) → List ℕ
bytes_of [] = []
bytes_of (chunk ∷ chunks) =
    let rest = bytes_of chunks in if is_empty chunk then [] else chunk ++ rest

ok_inj : {A : Type 0} (x y : A) → ok x ≡ ok y → x ≡ y
ok_inj x y e = ground arith

not_fails : {A : Type 0} (x : A) (e : UploadError) → fails e ≢ ok x
not_fails x e h = ground arith

and_true : (a b : Bool) → (a && b) ≡ true → (a ≡ true) × (b ≡ true)
and_true true b h = (refl, h)
and_true false b h = absurd (false≢true h)

mime_eq_lem : (m n : Mime) → mime_eq m n ≡ true → m ≡ n
unfolding mime_eq
mime_eq_lem pdf pdf h = refl
mime_eq_lem docx docx h = refl
mime_eq_lem txt txt h = refl
mime_eq_lem pdf docx h = absurd (false≢true h)
mime_eq_lem pdf txt h = absurd (false≢true h)
mime_eq_lem docx pdf h = absurd (false≢true h)
mime_eq_lem docx txt h = absurd (false≢true h)
mime_eq_lem txt pdf h = absurd (false≢true h)
mime_eq_lem txt docx h = absurd (false≢true h)

some_ne : (m : Mime) → none ≢ some m
some_ne m e = ground arith

read_limited_lem :
    (max_bytes : ℕ) (buf : List ℕ) (chunks : List (List ℕ)) (data_ : List ℕ)
    → length buf ≤ max_bytes
    → read_limited max_bytes buf chunks ≡ ok data_
    → (data_ ≡ buf ++ bytes_of chunks) × (length data_ ≤ max_bytes)
unfolding read_limited
read_limited_lem max_bytes buf [] data_ small h =
    let e = ok_inj buf data_ h in
    (sym e ∙ sym (append-nil buf), subst (λ x. length x ≤ max_bytes) e small)
read_limited_lem max_bytes buf (chunk ∷ chunks) data_ small h = elim (Bool-cases (is_empty chunk)) [
  | inl b ↦
      let e = ok_inj buf data_ (rw b at h) in
      (rw b (sym e ∙ sym (append-nil buf)), subst (λ x. length x ≤ max_bytes) e small)
  | inr b ↦ elim (Bool-cases (ltb max_bytes (length (buf ++ chunk)))) [
    | inl c ↦ absurd (not_fails data_ payload_too_large (rw c at (rw b at h)))
    | inr c ↦
        let (e, l) =
          read_limited_lem max_bytes (buf ++ chunk) chunks data_ (ground arith)
            (rw c at (rw b at h)) in
        (rw b (e ∙ append_assoc buf chunk (bytes_of chunks)), l)
  ]
]

text_eq-AreSafe : (a b : Text) → text_eq a b ≡ true → AreSafe b → AreSafe a
unfolding text_eq
text_eq-AreSafe [] [] e h = tt
text_eq-AreSafe [] (d ∷ ds) e h = absurd (false≢true e)
text_eq-AreSafe (c ∷ cs) [] e h = absurd (false≢true e)
text_eq-AreSafe (c ∷ cs) (d ∷ ds) e h =
    let (x, y) = and_true (c == d) (text_eq cs ds) e in
    let same : d ≡ c = ground (arith, x) in
    (subst (λ n. is_safe n ≡ true) same h.0, text_eq-AreSafe cs ds y h.1)

-- The extensions themselves are safe.
extension-AreSafe : (ext : Text) (m : Mime) → extension_type ext ≡ some m → AreSafe ext
unfolding extension_type is_safe is_alnum is_edge
extension-AreSafe ext m h = elim (Bool-cases (text_eq ext (46 ∷ 112 ∷ 100 ∷ 102 ∷ []))) [
  | inl e ↦ text_eq-AreSafe ext (46 ∷ 112 ∷ 100 ∷ 102 ∷ []) e (refl, (refl, (refl, (refl, tt))))
  | inr a ↦ elim (Bool-cases (text_eq ext (46 ∷ 100 ∷ 111 ∷ 99 ∷ 120 ∷ []))) [
    | inl e ↦
        text_eq-AreSafe ext (46 ∷ 100 ∷ 111 ∷ 99 ∷ 120 ∷ []) e
          (refl, (refl, (refl, (refl, (refl, tt)))))
    | inr b ↦ elim (Bool-cases (text_eq ext (46 ∷ 116 ∷ 120 ∷ 116 ∷ []))) [
      | inl e ↦ text_eq-AreSafe ext (46 ∷ 116 ∷ 120 ∷ 116 ∷ []) e (refl, (refl, (refl, (refl, tt))))
      | inr c ↦ absurd (some_ne m (rw c at (rw b at (rw (a, extension_type) at h))))
    ]
  ]
]

module _ (is_docx : List ℕ → Bool) (to_ascii : Text → Text) (max_bytes : ℕ) (filename : Text)
    (declared : Declared) where
  -- The upload's bytes, whose content, extension and declared type agree, under a safe name.
  abbrev pub IsAgreed : List ℕ → Mime → ValidatedUpload → Type 0
  IsAgreed data_ expected u =
      (u.data_ ≡ data_)
      × (u.size ≡ length data_)
      × (is_empty data_ ≡ false)
      × (sniff_mime is_docx data_ ≡ some u.mime_type)
      × (u.mime_type ≡ expected)
      × (is_accepted u.mime_type declared ≡ true)

  checked :
      (ext data_ : Text) (expected : Mime) (u : ValidatedUpload)
      → check_content is_docx to_ascii filename declared ext expected data_ ≡ ok u
      → IsAgreed data_ expected u × (u.safe_filename ≡ sanitize_filename to_ascii filename ext)
  unfolding check_content
  checked ext data_ expected u h = elim (Bool-cases (is_empty data_)) [
    | inl a ↦ absurd (not_fails u empty_file (rw (a, check_content) at h))
    | inr a ↦ elim (Option-cases (sniff_mime is_docx data_)) [
      | inl b ↦ absurd (not_fails u unsupported_media_type (rw b at (rw (a, check_content) at h)))
      | inr (m, b) ↦ elim (Bool-cases (mime_eq m expected)) [
        | inr c ↦
            absurd (not_fails u content_mismatch (rw c at (rw b at (rw (a, check_content) at h))))
        | inl c ↦ elim (Bool-cases (is_accepted m declared)) [
          | inr d ↦ absurd (
              not_fails u declared_mismatch
                (rw d at (rw c at (rw b at (rw (a, check_content) at h)))))
          | inl d ↦
              let same =
                ok_inj
                  (record {
                    data_ = data_;
                    mime_type = m;
                    safe_filename = sanitize_filename to_ascii filename ext;
                    size = length data_;
                  })
                  u (rw d at (rw c at (rw b at (rw (a, check_content) at h)))) in
              subst
                (λ v.
                  IsAgreed data_ expected v
                  × (v.safe_filename ≡ sanitize_filename to_ascii filename ext))
                same ((refl, refl, a, b, mime_eq_lem m expected c, d), refl)
        ]
      ]
    ]
  ]

  read_checked :
      (ext : Text) (chunks : List (List ℕ)) (expected : Mime) (u : ValidatedUpload)
      (r : Uploaded (List ℕ))
      → extension_type ext ≡ some expected
      → read_limited max_bytes [] chunks ≡ r
      → (elim r [
        | fails e ↦ fails e
        | ok data_ ↦ check_content is_docx to_ascii filename declared ext expected data_
      ])
        ≡ ok u
      → IsAgreed (bytes_of chunks) expected u
        × (u.size ≤ max_bytes)
        × AreSafe u.safe_filename
        × BeginsWell u.safe_filename
        × (length u.safe_filename ≤ 110)
  read_checked ext chunks expected u (fails e) a r h = absurd (not_fails u e h)
  read_checked ext chunks expected u (ok data_) a r h =
      let (read, small) = read_limited_lem max_bytes [] chunks data_ (omega arith) r in
      let ((d, n, x, y, z, w), name) = checked ext data_ expected u h in
      let (safe, begins, short) =
        sanitize_filename-Safe to_ascii filename ext (extension-AreSafe ext expected a) in
      (
        subst (λ b. IsAgreed b expected u) read (d, n, x, y, z, w),
        omega (arith, n, small),
        subst AreSafe (sym name) safe,
        subst BeginsWell (sym name) begins,
        omega (arith, ap length name, short),
      )

  -- An upload is accepted only when it has an allowed extension, and then it holds all its bytes, at least
  -- one and at most the limit, its content is of the type that its extension stands for, the declared
  -- type fits, and it is stored under a safe name.
  pub accepted-IsAgreed :
      (chunks : List (List ℕ)) (u : ValidatedUpload)
      → validate_resume_upload is_docx to_ascii max_bytes filename declared chunks ≡ ok u
      → (expected : Mime) × (extension_type (lower (splitext (after_slash [] filename)).1)
          ≡ some expected)
        × IsAgreed (bytes_of chunks) expected u
        × (u.size ≤ max_bytes)
        × AreSafe u.safe_filename
        × BeginsWell u.safe_filename
        × (length u.safe_filename ≤ 110)
  unfolding validate_resume_upload
  accepted-IsAgreed chunks u h =
      let ext = lower (splitext (after_slash [] filename)).1 in
      elim (Option-cases (extension_type ext)) [
        | inl a ↦ absurd (not_fails u unsupported_media_type (rw (a, validate_resume_upload) at h))
        | inr (expected, a) ↦
            let (agreed, small, safe, begins, short) =
              read_checked ext chunks expected u (read_limited max_bytes [] chunks) a refl
                (rw (a, validate_resume_upload) at h) in
            (expected, a, agreed, small, safe, begins, short)
      ]
