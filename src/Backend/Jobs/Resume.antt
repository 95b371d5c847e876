-- ===== src/Backend/Jobs/Resume.antt =====
-- worker_tasks.py, process_resume and what it calls, with store_chunks of
-- services/document_processing.py: one try at turning an uploaded document into chunks and a profile.
-- The text of a file, its chunks and the model's answers are given; embeddings are counted, not
-- computed; of a profile's tables only the new version is kept.
pub mod Unretried
pub mod Tries
pub mod Ends
use praxis_interview_os.Base.{
  ℕ, Bool, true, false, not, ◌==◌, List, [], ◌∷◌, ◌++◌, Option, none, some, String, ltb, length,
  is_empty, map, if◌then◌else◌,
}
use praxis_interview_os.Backend.Jobs.{Outcome, returned, permanent, raised}

-- documents.processing_status, from its default on.
pub data ProcessingStatus : Type 0 where
  uploaded parsing embedding ready failed : ProcessingStatus

-- A row of document_chunks, with whether it has an embedding.
abbrev pub Chunk : Type 0
Chunk = String × Bool

-- What is stored about a document; a version is a row of resume_versions with its claims.
pub record Document (P : Type 0) : Type 0 where
  pub status : ProcessingStatus
  pub error : Option String
  pub chunks : List Chunk
  pub versions : List P

-- The transactions of a try, each of which the database can refuse.
pub data Write : Type 0 where
  set_parsing set_embedding set_failed store persist set_ready : Write

pub data Blob (B : Type 0) : Type 0 where
  stored : B → Blob B
  -- The message of the exception says "not found".
  missing : Blob B
  unreachable : String → Blob B

-- dp.extract_text: a text, or the DocumentParseError with its message.
pub data Parse : Type 0 where
  text unreadable : String → Parse

-- What one try meets: the row of the document (with whether there is a resume), its file, the number of
-- embeddings, the profile that the model extracts, and the transactions that fail, with a message.
pub record Outside (B P : Type 0) : Type 0 where
  pub document : Option Bool
  pub blob : Blob B
  pub embeddings : Option ℕ
  pub profile : Option P
  pub breaks : Write → Option String

-- dp.extract_text and dp.chunk.
pub record Reader (B : Type 0) : Type 0 where
  pub extract_text : B → Parse
  pub chunk : String → List String

pub record Ready : Type 0 where
  pub chunks : ℕ
  pub embedded : Bool
  pub extracted : Bool

abbrev pub embedding_warning : String
embedding_warning = "Semantic embeddings unavailable; keyword search only"

-- `embeddings is not None and len(embeddings) != len(chunks)`.
unfoldable pub is_mismatch : Option ℕ → List String → Bool
is_mismatch none chunks = false
is_mismatch (some n) chunks = not (n == length chunks)

abbrev pub is_embedded : Option ℕ → Bool
is_embedded none = false
is_embedded (some n) = true

module _ {P : Type 0} where
  -- _set_doc_status, when the database answers.
  unfoldable pub set_status : ProcessingStatus → Option String → Document P → Document P
  set_status status error d = record d { status = status; error = error }

  -- store_chunks, which replaces the document's chunks; `none` is its ValueError, after which the
  -- transaction is undone.
  unfoldable pub store_chunks : List String → Option ℕ → Document P → Option (Document P × ℕ)
  unfolding is_mismatch
  store_chunks chunks embeddings d =
      if is_empty chunks
      then some (record d { chunks = [] }, 0)
      else (if is_mismatch embeddings chunks
          then none
          else some
              (record d { chunks = map (λ c. (c, is_embedded embeddings)) chunks }, length chunks))

module _ {B P : Type 0} (reader : Reader B) (max_tries job_try : ℕ) (o : Outside B P) where
  abbrev pub Step : Type 0
  Step = Document P → Document P × Outcome Ready

  -- A transaction, and what follows when it is committed.
  unfoldable pub commit : Write → (Document P → Document P) → Step → Step
  commit w f rest d = elim (o.breaks w) [ some e ↦ (d, raised e) | none ↦ rest (f d) ]

  -- The end of a try.
  unfoldable pub finish : Option String → Ready → Step
  unfolding commit set_status
  finish warning r = commit set_ready (set_status ready warning) (λ d. (d, returned r))

  -- _extract_resume_profile and _persist_resume_profile.
  unfoldable pub extract : Option String → ℕ → Bool → Bool → Step
  unfolding commit finish
  extract warning n embedded has_resume = elim (o.profile) [
    | none ↦ finish warning (record { chunks = n; embedded = embedded; extracted = false })
    | some p ↦
        let end = finish warning (record { chunks = n; embedded = embedded; extracted = true }) in
        if has_resume then commit persist (λ d. record d { versions = p ∷ d.versions }) end else end
  ]

  unfoldable pub keep : Bool → List String → Option ℕ → Option String → Step
  unfolding store_chunks extract
  keep has_resume chunks embeddings warning d = elim (o.breaks store) [
    | some e ↦ (d, raised e)
    | none ↦ elim (store_chunks chunks embeddings d) [
      | none ↦ (d, raised "embedding count does not match chunk count")
      | some (kept, n) ↦ extract warning n (is_embedded embeddings) has_resume kept
    ]
  ]

  -- The embeddings: a failure is another try's, but for the last try, which goes on without.
  unfoldable pub embed : Bool → List String → Step
  unfolding keep
  embed has_resume chunks d = elim (o.embeddings) [
    | some n ↦ keep has_resume chunks (some n) none d
    | none ↦
        if ltb job_try max_tries
        then (d, raised "embedding failed")
        else keep has_resume chunks none (some embedding_warning) d
  ]

  -- A file that will never be read.
  unfoldable pub reject : String → String → Step
  unfolding commit set_status
  reject message error =
      commit set_failed (set_status failed (some message)) (λ d. (d, permanent error))

  unfoldable pub parse : Bool → B → Step
  unfolding commit set_status embed reject
  parse has_resume raw = elim (reader.extract_text raw) [
    | unreadable e ↦ reject e e
    | text t ↦ commit set_embedding (set_status embedding none) (embed has_resume (reader.chunk t))
  ]

  unfoldable pub fetch : Bool → Step
  unfolding parse reject
  fetch has_resume = elim (o.blob) [
    | stored raw ↦ parse has_resume raw
    | missing ↦ reject "Uploaded file is missing from storage" "blob missing"
    | unreachable e ↦ λ d. (d, raised e)
  ]

  -- process_resume.
  unfoldable pub process_resume : Step
  unfolding commit set_status fetch
  process_resume d = elim (o.document) [
    | none ↦ (d, permanent "document not found")
    | some has_resume ↦ commit set_parsing (set_status parsing none) (fetch has_resume) d
  ]
