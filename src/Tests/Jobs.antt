-- ===== src/Tests/Jobs.antt =====
-- Runs of the background jobs.
use praxis_interview_os.Base.{
  ℕ, suc, ◌+◌, ◌*◌, ◌^◌, ◌-◌, ◌≤◌, ◌≡◌, refl, true, [], ◌∷◌, none, some, String, arith, map,
  if◌then◌else◌, ltb, inl, inr, Bool-cases,
}
use praxis_interview_os.Backend.Jobs.{Outcome, returned, raised, done, Letters}
use praxis_interview_os.Backend.Jobs.Retries.{Run, work, IsNoRetry, IsAccounted, Came, retries_end}
use praxis_interview_os.Backend.Jobs.Resume.{
  ready, uploaded, embedding, Document, set_parsing, set_embedding, set_failed, store, persist,
  set_ready, stored, text, Outside, Reader, Ready, process_resume,
}
use praxis_interview_os.Backend.Jobs.Resume.Ends.{body, resume_becomes_ready}
use praxis_interview_os.Backend.Jobs.Resume.Tries.{IsReadable}

abbrev no_letters : Letters
no_letters = record { has_engine = true; inserts = true; letters = [] }

-- A job whose third try returns how often it has run.
unfoldable third : ℕ → ℕ → ℕ × Outcome ℕ
third n s = (suc s, if ltb n 3 then raised "busy" else returned (suc s))

third_unretried : (n s : ℕ) → IsNoRetry (third n s).1
unfolding third
third_unretried n s = elim (Bool-cases (ltb n 3)) [ inl e ↦ rw e tt | inr e ↦ rw e tt ]

retries_end_example :
    (r : Run ℕ ℕ) × (work third 5 5 1 0 0 no_letters ≡ some r)
    × (r.tries ≤ 5)
    × (r.waited + 5 ≡ 5 * 2 ^ (r.tries - 1))
    × IsAccounted 5 [] r.result r.tries r.letters.letters
    × (last : ℕ) × (r.state ≡ (third r.tries last).0)
    × Came r.result (third r.tries last).1
retries_end_example = retries_end third 5 0 no_letters third_unretried (omega arith) refl refl

abbrev reader : Reader String
reader = record { extract_text = λ s. text s; chunk = λ s. s ∷ s ∷ [] }

-- There are embeddings from the second try on.
unfoldable outside : ℕ → Outside String ℕ
outside n = record {
  document = some true;
  blob = stored "cv";
  embeddings = if ltb n 2 then none else some 2;
  profile = some 1;
  breaks = λ w. none;
}

two_embedded : (n m : ℕ) → (outside n).embeddings ≡ some m → m ≡ 2
unfolding outside
two_embedded n m h = ground (arith, h)

outside-IsReadable : (n : ℕ) → IsReadable reader 5 n (outside n) "cv"
unfolding outside
outside-IsReadable n = record {
  has_resume = true;
  raw = "cv";
  found = refl;
  is_stored = refl;
  is_text = refl;
  commits = λ w. refl;
  embeds = two_embedded n;
}

abbrev new_document : Document ℕ
new_document = record { status = uploaded; error = none; chunks = []; versions = [] }

resume_becomes_ready_example :
    (run : Run (Document ℕ) Ready) × (r : Ready) × (work
        (body reader 5 outside)
        5
        5
        1
        0
        new_document
        no_letters
      ≡ some run)
    × (run.tries ≤ 5)
    × (run.result ≡ done r)
    × (run.state.status ≡ ready)
    × (run.state.chunks ≡ map (λ c. (c, r.embedded)) (reader.chunk "cv"))
    × (run.letters.letters ≡ [])
resume_becomes_ready_example =
    resume_becomes_ready reader 5 outside "cv" new_document no_letters outside-IsReadable
      (omega arith) refl refl

-- When the last write of the first try fails, the resume is stored a second time by the next try.
unfoldable breaking : ℕ → Outside String ℕ
breaking n = record {
  document = some true;
  blob = stored "cv";
  embeddings = some 2;
  profile = some n;
  breaks = λ w. elim w [
    | set_ready ↦ if ltb n 2 then some "lost" else none
    | set_parsing ↦ none
    | set_embedding ↦ none
    | set_failed ↦ none
    | store ↦ none
    | persist ↦ none
  ];
}

stored_twice :
    let first = process_resume reader 5 1 (breaking 1) new_document in
    let second = process_resume reader 5 2 (breaking 2) first.0 in
    (first.0.status ≡ embedding) × (second.0.versions ≡ 2 ∷ 1 ∷ [])
unfolding process_resume breaking
stored_twice = (refl, refl)
