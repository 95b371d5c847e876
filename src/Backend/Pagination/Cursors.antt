-- ===== src/Backend/Pagination/Cursors.antt =====
-- A cursor that a page hands out is the cursor that the next request reads.
use Prim.Native.String.{String, ◌++◌ as str_append}
use text.Mathlib.TextLemmas.{nil-append, cons-append}
use praxis_interview_os.Base.{
  ℕ, ◌≡◌, ap, none, some, false, Bool-cases, str_eq, str_eq_iff, inl, inr,
}
use praxis_interview_os.Backend.Pagination.{Texts, Key, rsplit, encode_cursor, decode_cursor}

-- What Python promises of its texts: they are read back, and the text of a UUID has no underscore.
pub record IsReadable (texts : Texts) : Type 0 where
  pub reads_time : (t : ℕ) → texts.fromisoformat (texts.isoformat t) ≡ some t
  pub reads_id : (i : ℕ) → texts.uuid_read (texts.uuid_text i) ≡ some i
  pub no_underscore : (i : ℕ) → rsplit (texts.uuid_text i) ≡ none

start : (b : String) → rsplit b ≡ none → rsplit (str_append "_" b) ≡ some ("", b)
unfolding rsplit
start b h = rw (cons-append, nil-append) (rw (h, rsplit))

rsplit_last :
    (a b : String) → rsplit b ≡ none → rsplit (str_append a (str_append "_" b)) ≡ some (a, b)
unfolding rsplit
rsplit_last String.[] b h = rw nil-append (start b h)
rsplit_last (String.◌∷◌ c a) b h =
    rw (cons-append c a (str_append "_" b)) (rw (rsplit_last a b h, rsplit))

empty_not_split :
    (texts : Texts) (t i : ℕ)
    → IsReadable texts
    → ¬ (str_append (texts.isoformat t) (str_append "_" (texts.uuid_text i)) ≡ "")
unfolding rsplit
empty_not_split texts t i readable e =
    let split = rsplit_last (texts.isoformat t) (texts.uuid_text i) (readable.no_underscore i) in
    cc (ap rsplit e, split)

-- Reading a cursor gives the key it was written for.
pub decode_cursor-encode_cursor :
    (texts : Texts) (k : Key)
    → IsReadable texts
    → decode_cursor texts (encode_cursor texts k) ≡ some k
unfolding decode_cursor encode_cursor
decode_cursor-encode_cursor texts (t, i) readable =
    rw
      (
        rsplit_last (texts.isoformat t) (texts.uuid_text i) (readable.no_underscore i),
        decode_cursor,
      )
      (rw (readable.reads_time t, readable.reads_id i))

-- A cursor is not the empty text.
pub encode_cursor_ne :
    (texts : Texts) (k : Key) → IsReadable texts → str_eq (encode_cursor texts k) "" ≡ false
unfolding encode_cursor
encode_cursor_ne texts (t, i) readable =
    let c = encode_cursor texts (t, i) in
    elim (Bool-cases (str_eq c "")) [
      | inr e ↦ e
      | inl e ↦ absurd (empty_not_split texts t i readable ((str_eq_iff c "").0 e))
    ]
