-- ===== src/Backend/Jobs/Resume/Unretried.antt =====
-- The processing of a resume leaves its retries to the wrapper.
use praxis_interview_os.Base.{
  ℕ, ◌≡◌, refl, Bool, true, false, List, ◌∷◌, Option, none, some, String, ltb, inl, inr, Bool-cases,
  Option-cases,
}
use praxis_interview_os.Backend.Jobs.{returned, permanent}
use praxis_interview_os.Backend.Jobs.Retries.{IsNoRetry}
use praxis_interview_os.Backend.Jobs.Resume.{
  ProcessingStatus, ready, parsing, embedding, Document, Write, set_parsing, set_embedding,
  set_failed, store, persist, set_ready, Blob, stored, missing, unreachable, Parse, text,
  unreadable, Outside, Reader, Ready, embedding_warning, set_status, is_embedded, store_chunks,
  Step, commit, finish, extract, keep, embed, reject, parse, fetch, process_resume,
}

module _ {B P : Type 0} (reader : Reader B) (max_tries job_try : ℕ) (o : Outside B P) where
  abbrev pub Unretried : Step reader max_tries job_try o → Type 0
  Unretried f = (d : Document P) → IsNoRetry (f d).1

  commit-Unretried :
      (w : Write) (f : Document P → Document P) (rest : Step reader max_tries job_try o)
      → Unretried rest
      → Unretried (commit reader max_tries job_try o w f rest)
  unfolding commit
  commit-Unretried w f rest h d = elim (Option-cases (o.breaks w)) [
    | inl e ↦ rw (e, commit) (h (f d))
    | inr (m, e) ↦ rw (e, commit) tt
  ]

  finish-Unretried :
      (m : Option String) (r : Ready) → Unretried (finish reader max_tries job_try o m r)
  unfolding finish
  finish-Unretried m r =
      commit-Unretried set_ready (set_status ready m) (λ d. (d, returned r)) (λ d. tt)

  extract-Unretried :
      (m : Option String) (n : ℕ) (e h : Bool)
      → Unretried (extract reader max_tries job_try o m n e h)
  unfolding extract
  extract-Unretried m n e h d = elim (Option-cases (o.profile)) [
    | inl none_ ↦
        rw (none_, extract)
          (finish-Unretried m (record { chunks = n; embedded = e; extracted = false }) d)
    | inr (p, some_) ↦
        let end = finish-Unretried m (record { chunks = n; embedded = e; extracted = true }) in
        let kept =
          commit-Unretried persist (λ d. record d { versions = p ∷ d.versions })
            (finish reader max_tries job_try o m
              (record { chunks = n; embedded = e; extracted = true }))
            end in
        elim (Bool-cases h) [
          | inl t ↦ rw (some_, extract) (rw t (kept d))
          | inr f ↦ rw (some_, extract) (rw f (end d))
        ]
  ]

  keep-Unretried :
      (h : Bool) (cs : List String) (e : Option ℕ) (m : Option String)
      → Unretried (keep reader max_tries job_try o h cs e m)
  unfolding keep
  keep-Unretried h cs e m d = elim (Option-cases (o.breaks store)) [
    | inr (x, b) ↦ rw (b, keep) tt
    | inl b ↦ elim (Option-cases (store_chunks cs e d)) [
      | inl none_ ↦ rw (b, keep) (rw none_ tt)
      | inr ((kept, n), some_) ↦
          rw (b, keep) (rw some_ (extract-Unretried m n (is_embedded e) h kept))
    ]
  ]

  embed-Unretried :
      (h : Bool) (cs : List String) → Unretried (embed reader max_tries job_try o h cs)
  unfolding embed
  embed-Unretried h cs d = elim (Option-cases (o.embeddings)) [
    | inr (n, b) ↦ rw (b, embed) (keep-Unretried h cs (some n) none d)
    | inl b ↦ elim (Bool-cases (ltb job_try max_tries)) [
      | inl more ↦ rw (b, embed) (rw more tt)
      | inr full ↦ rw (b, embed) (rw full (keep-Unretried h cs none (some embedding_warning) d))
    ]
  ]

  reject-Unretried : (m e : String) → Unretried (reject reader max_tries job_try o m e)
  unfolding reject
  reject-Unretried m e =
      commit-Unretried set_failed (set_status ProcessingStatus.failed (some m))
        (λ d. (d, permanent e)) (λ d. tt)

  parse-Unretried : (h : Bool) (raw : B) → Unretried (parse reader max_tries job_try o h raw)
  unfolding parse
  parse-Unretried h raw d = go (reader.extract_text raw) refl
    where
      go :
          (p : Parse)
          → reader.extract_text raw ≡ p
          → IsNoRetry (parse reader max_tries job_try o h raw d).1
      go (unreadable x) e = rw (e, parse) (reject-Unretried x x d)
      go (text t) e =
          rw (e, parse)
            (commit-Unretried set_embedding (set_status embedding none)
              (embed reader max_tries job_try o h (reader.chunk t))
              (embed-Unretried h (reader.chunk t)) d)

  fetch-Unretried : (h : Bool) → Unretried (fetch reader max_tries job_try o h)
  unfolding fetch
  fetch-Unretried h d = go o.blob refl
    where
      go : (b : Blob B) → o.blob ≡ b → IsNoRetry (fetch reader max_tries job_try o h d).1
      go (stored raw) e = rw (e, fetch) (parse-Unretried h raw d)
      go missing e =
          rw (e, fetch) (reject-Unretried "Uploaded file is missing from storage" "blob missing" d)
      go (unreachable x) e = rw (e, fetch) tt

  pub process-Unretried : Unretried (process_resume reader max_tries job_try o)
  unfolding process_resume
  process-Unretried d = elim (Option-cases (o.document)) [
    | inl e ↦ rw (e, process_resume) tt
    | inr (h, e) ↦
        rw (e, process_resume)
          (commit-Unretried set_parsing (set_status parsing none)
            (fetch reader max_tries job_try o h) (fetch-Unretried h) d)
  ]
