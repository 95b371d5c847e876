-- ===== src/Backend/Jobs/Resume/Tries.antt =====
-- What one try does to a resume that can be read.
use praxis_interview_os.Base.{
  ℕ, ◌<◌, ◌≡◌, refl, sym, subst, ◌∙◌, Bool, true, false, not, ◌==◌, List, [], ◌∷◌, Option, none,
  some, String, ltb, arith, ◌⊎◌, inl, inr, Bool-cases, Option-cases, length, map,
}
use praxis_interview_os.Backend.Jobs.{Outcome, returned, raised}
use praxis_interview_os.Backend.Jobs.Resume.{
  ready, parsing, embedding, Document, Write, set_parsing, set_embedding, store, persist, set_ready,
  stored, text, Outside, Reader, Ready, embedding_warning, set_status, is_mismatch, is_embedded,
  store_chunks, commit, finish, extract, keep, embed, parse, fetch, process_resume,
}

mismatch_same : (n m : ℕ) → n ≡ m → not (n == m) ≡ false
mismatch_same n m e = ground arith

module _ {B P : Type 0} (reader : Reader B) (max_tries job_try : ℕ) (o : Outside B P) where
  -- A try whose file can be read, in a text, and whose transactions are committed; the number of
  -- embeddings, if there are any, is that of the chunks.
  pub record IsReadable (t : String) : Type 0 where
    pub has_resume : Bool
    pub raw : B
    pub found : o.document ≡ some has_resume
    pub is_stored : o.blob ≡ stored raw
    pub is_text : reader.extract_text raw ≡ text t
    pub commits : (w : Write) → o.breaks w ≡ none
    pub embeds : (n : ℕ) → o.embeddings ≡ some n → n ≡ length (reader.chunk t)

  -- The document is ready, with the chunks of the text.
  abbrev pub IsIndexed : String → Ready → Document P → Type 0
  IsIndexed t r d =
      (d.status ≡ ready)
      × (d.chunks ≡ map (λ c. (c, r.embedded)) (reader.chunk t))
      × (r.chunks ≡ length (reader.chunk t))

  abbrev Indexes : String → Document P × Outcome Ready → Type 0
  Indexes t (d, x) = (r : Ready) × (x ≡ returned r) × IsIndexed t r d

  stores :
      (cs : List String) (e : Option ℕ) (d : Document P)
      → is_mismatch e cs ≡ false
      → store_chunks cs e d
        ≡ some (record d { chunks = map (λ c. (c, is_embedded e)) cs }, length cs)
  unfolding store_chunks
  stores [] e d h = refl
  stores (c ∷ cs) e d h = rw h refl

  finishes :
      (t : String) (m : Option String) (r : Ready) (d : Document P)
      → IsReadable t
      → d.chunks ≡ map (λ c. (c, r.embedded)) (reader.chunk t)
      → r.chunks ≡ length (reader.chunk t)
      → Indexes t (finish reader max_tries job_try o m r d)
  unfolding finish set_status
  finishes t m r d h cs n = rw (h.commits set_ready, finish, commit) (r, refl, (refl, cs, n))

  extracts :
      (t : String) (m : Option String) (n : ℕ) (e h : Bool) (d : Document P)
      → IsReadable t
      → d.chunks ≡ map (λ c. (c, e)) (reader.chunk t)
      → n ≡ length (reader.chunk t)
      → Indexes t (extract reader max_tries job_try o m n e h d)
  unfolding extract
  extracts t m n e h d ok cs len = elim (Option-cases (o.profile)) [
    | inl none_ ↦
        let r : Ready = record { chunks = n; embedded = e; extracted = false } in
        rw (none_, extract) (finishes t m r d ok cs len)
    | inr (p, some_) ↦
        let r : Ready = record { chunks = n; embedded = e; extracted = true } in
        elim (Bool-cases h) [
          | inl b ↦
              rw (some_, extract)
                (rw b (
                  rw (ok.commits persist, commit)
                    (finishes t m r (record d { versions = p ∷ d.versions }) ok cs len)))
          | inr b ↦ rw (some_, extract) (rw b (finishes t m r d ok cs len))
        ]
  ]

  keeps :
      (t : String) (h : Bool) (e : Option ℕ) (m : Option String) (d : Document P)
      → IsReadable t
      → is_mismatch e (reader.chunk t) ≡ false
      → Indexes t (keep reader max_tries job_try o h (reader.chunk t) e m d)
  unfolding keep
  keeps t h e m d ok fits =
      let cs = reader.chunk t in
      rw (ok.commits store, keep)
        (rw (stores cs e d fits) (
          extracts t m (length cs) (is_embedded e) h
            (record d { chunks = map (λ c. (c, is_embedded e)) cs }) ok refl refl))

  -- A try indexes the document, or it leaves a missing embedding to the next try.
  abbrev pub Tries : String → Document P × Outcome Ready → Type 0
  Tries t x = Indexes t x ⊎ ((job_try < max_tries) × (x.1 ≡ raised "embedding failed"))

  embed-Tries :
      (t : String) (h : Bool) (d : Document P)
      → IsReadable t
      → Tries t (embed reader max_tries job_try o h (reader.chunk t) d)
  unfolding embed is_mismatch
  embed-Tries t h d ok = elim (Option-cases (o.embeddings)) [
    | inr (n, e) ↦ inl (
        rw (e, embed)
          (keeps t h (some n) none d ok
            (mismatch_same n (length (reader.chunk t)) (ok.embeds n e))))
    | inl e ↦ elim (Bool-cases (ltb job_try max_tries)) [
      | inl more ↦ inr (ground arith, rw (e, embed) (rw more refl))
      | inr last ↦ inl (rw (e, embed) (rw last (keeps t h none (some embedding_warning) d ok refl)))
    ]
  ]

  pub process-Tries :
      (t : String) (d : Document P)
      → IsReadable t
      → Tries t (process_resume reader max_tries job_try o d)
  unfolding process_resume
  process-Tries t d ok =
      let seen = set_status parsing none d in
      let read : parse reader max_tries job_try o ok.has_resume ok.raw seen
          ≡ embed reader max_tries job_try o ok.has_resume (reader.chunk t)
              (set_status embedding none seen) =
        rw (ok.is_text, parse) (rw (ok.commits set_embedding, commit) refl) in
      let fetched : fetch reader max_tries job_try o ok.has_resume seen
          ≡ parse reader max_tries job_try o ok.has_resume ok.raw seen =
        rw (ok.is_stored, fetch) refl in
      let all : process_resume reader max_tries job_try o d
          ≡ embed reader max_tries job_try o ok.has_resume (reader.chunk t)
              (set_status embedding none seen) =
        (rw (ok.found, process_resume) (rw (ok.commits set_parsing, commit) refl))
        ∙ fetched
        ∙ read in
      subst (Tries t) (sym all) (embed-Tries t ok.has_resume (set_status embedding none seen) ok)
