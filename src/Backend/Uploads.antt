-- ===== src/Backend/Uploads.antt =====
-- core/uploads.py: what is accepted as an uploaded resume. A file is the list of its bytes; whether an
-- archive holds a DOCX document is given.
pub mod Filename
pub mod Names
pub mod Accepted
use praxis_interview_os.Base.{
  ℕ, zero, suc, ◌+◌, ◌-◌, Bool, true, false, not, ◌&&◌, ◌||◌, ltb, leb, ◌==◌, List, [], ◌∷◌, ◌++◌,
  Option, none, some, length, take, any, all, map, reverse, is_empty, if◌then◌else◌,
}
use praxis_interview_os.Backend.Uploads.Filename.{Text, slash, splitext, lower, sanitize_filename}

pub data UploadError : Type 0 where
  payload_too_large empty_file unsupported_media_type content_mismatch declared_mismatch :
      UploadError

pub data Uploaded (A : Type 0) : Type 0 where
  ok : A → Uploaded A
  fails : UploadError → Uploaded A

-- read_limited, of the chunks that the upload gives; an empty one is its end.
unfoldable pub read_limited : ℕ → List ℕ → List (List ℕ) → Uploaded (List ℕ)
read_limited max_bytes buf [] = ok buf
read_limited max_bytes buf (chunk ∷ chunks) =
    let rest = read_limited max_bytes (buf ++ chunk) chunks in
    if is_empty chunk
    then ok buf
    else (if ltb max_bytes (length (buf ++ chunk)) then fails payload_too_large else rest)

pub data Mime : Type 0 where
  pdf docx txt : Mime

unfoldable pub mime_eq : Mime → Mime → Bool
mime_eq pdf pdf = true
mime_eq docx docx = true
mime_eq txt txt = true
mime_eq pdf docx = false
mime_eq pdf txt = false
mime_eq docx pdf = false
mime_eq docx txt = false
mime_eq txt pdf = false
mime_eq txt docx = false

unfoldable pub text_eq : Text → Text → Bool
text_eq [] [] = true
text_eq (c ∷ cs) (d ∷ ds) = c == d && text_eq cs ds
text_eq [] (d ∷ ds) = false
text_eq (c ∷ cs) [] = false

unfoldable pub starts_with : Text → Text → Bool
starts_with [] s = true
starts_with (c ∷ cs) [] = false
starts_with (c ∷ cs) (d ∷ ds) = c == d && starts_with cs ds

-- The bytes that may follow a first byte of UTF-8: how many, and the bounds of the next one.
unfoldable pub utf8_start : ℕ → Option (ℕ × ℕ × ℕ)
utf8_start b =
    if ltb b 128
    then some (0, 0, 0)
    else (if ltb b 194
        then none
        else (if ltb b 224
            then some (1, 128, 191)
            else (if ltb b 240
                then some (2, (if b == 224 then 160 else 128), (if b == 237 then 159 else 191))
                else (if ltb b 245
                    then some (3, (if b == 240 then 144 else 128), (if b == 244 then 143 else 191))
                    else none))))

-- `bytes.decode("utf-8")` succeeds, from a place where some more bytes are due.
unfoldable pub is_utf8_from : ℕ → ℕ → ℕ → List ℕ → Bool
unfolding utf8_start
is_utf8_from zero lo hi [] = true
is_utf8_from (suc n) lo hi [] = false
is_utf8_from zero lo hi (b ∷ bs) = elim (utf8_start b) [
  | none ↦ false
  | some (n, lo, hi) ↦ is_utf8_from n lo hi bs
]
is_utf8_from (suc n) lo hi (b ∷ bs) = leb lo b && leb b hi && is_utf8_from n 128 191 bs

-- sniff_mime; whether a ZIP archive holds a DOCX document is given.
unfoldable pub sniff_mime : (List ℕ → Bool) → List ℕ → Option Mime
unfolding starts_with is_utf8_from
sniff_mime is_docx data_ =
    if starts_with (37 ∷ 80 ∷ 68 ∷ 70 ∷ 45 ∷ []) data_
    then some pdf
    else (if starts_with (80 ∷ 75 ∷ 3 ∷ 4 ∷ []) data_
        then (if is_docx data_ then some docx else none)
        else (if any (λ b. b == 0) (take 8192 data_)
            then none
            else (if is_utf8_from 0 0 0 (take 65536 data_) then some txt else none)))

-- What stands behind the last slash, where splitext looks for the extension.
unfoldable pub after_slash : Text → Text → Text
after_slash acc [] = reverse acc
after_slash acc (c ∷ cs) = if c == slash then after_slash [] cs else after_slash (c ∷ acc) cs

-- EXTENSIONS.
unfoldable pub extension_type : Text → Option Mime
unfolding text_eq
extension_type ext =
    if text_eq ext (46 ∷ 112 ∷ 100 ∷ 102 ∷ [])
    then some pdf
    else (if text_eq ext (46 ∷ 100 ∷ 111 ∷ 99 ∷ 120 ∷ [])
        then some docx
        else (if text_eq ext (46 ∷ 116 ∷ 120 ∷ 116 ∷ []) then some txt else none))

-- ACCEPTED_DECLARED, of a declared type without its parameters, by the types that it names.
pub data Declared : Type 0 where
  declares : Mime → Declared
  x_pdf zip octet_stream nothing other : Declared

unfoldable pub is_accepted : Mime → Declared → Bool
unfolding mime_eq
is_accepted m (declares n) = mime_eq m n
is_accepted pdf x_pdf = true
is_accepted docx x_pdf = false
is_accepted txt x_pdf = false
is_accepted docx zip = true
is_accepted pdf zip = false
is_accepted txt zip = false
is_accepted m octet_stream = true
is_accepted m nothing = true
is_accepted m other = false

pub record ValidatedUpload : Type 0 where
  pub data_ : List ℕ
  pub mime_type : Mime
  pub safe_filename : Text
  pub size : ℕ

-- The checks of what was read, under an extension that stands for a type.
unfoldable pub check_content :
    (List ℕ → Bool)
    → (Text → Text)
    → Text
    → Declared
    → Text
    → Mime
    → List ℕ
    → Uploaded ValidatedUpload
unfolding sniff_mime mime_eq is_accepted sanitize_filename
check_content is_docx to_ascii filename declared ext expected data_ =
    if is_empty data_ then fails empty_file else elim (sniff_mime is_docx data_) [
      | none ↦ fails unsupported_media_type
      | some detected ↦
          if mime_eq detected expected
          then (if is_accepted detected declared
              then ok (record {
                data_ = data_;
                mime_type = detected;
                safe_filename = sanitize_filename to_ascii filename ext;
                size = length data_;
              })
              else fails declared_mismatch)
          else fails content_mismatch
    ]

-- validate_resume_upload.
unfoldable pub validate_resume_upload :
    (List ℕ → Bool) → (Text → Text) → ℕ → Text → Declared → List (List ℕ) → Uploaded ValidatedUpload
unfolding splitext lower after_slash extension_type read_limited check_content
validate_resume_upload is_docx to_ascii max_bytes filename declared chunks =
    let ext = lower (splitext (after_slash [] filename)).1 in
    elim (extension_type ext) [
      | none ↦ fails unsupported_media_type
      | some expected ↦ elim (read_limited max_bytes [] chunks) [
        | fails e ↦ fails e
        | ok data_ ↦ check_content is_docx to_ascii filename declared ext expected data_
      ]
    ]
