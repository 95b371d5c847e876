-- ===== src/Backend/Jobs/Resume/Ends.antt =====
-- How the processing of a resume ends.
use praxis_interview_os.Base.{
  ℕ, ◌≤◌, ◌≡◌, ◌≢◌, sym, ap, subst, ◌∙◌, true, List, some, String, arith, inl, inr, map,
}
use praxis_interview_os.Backend.Jobs.{
  Outcome, returned, permanent, raised, Result, done, failed, retry, raises, Letters,
}
use praxis_interview_os.Backend.Jobs.Retries.{Run, work, IsAccounted, Came, retries_end}
use praxis_interview_os.Backend.Jobs.Resume.{
  ready, Document, Outside, Reader, Ready, process_resume,
}
use praxis_interview_os.Backend.Jobs.Resume.Unretried.{process-Unretried}
use praxis_interview_os.Backend.Jobs.Resume.Tries.{IsReadable, IsIndexed, Tries, process-Tries}

returned_inj : (x y : Ready) → returned x ≡ returned y → x ≡ y
returned_inj x y e = ground arith

returned_ne : (x : Ready) (m : String) → returned x ≢ raised m
returned_ne x m e = ground arith

permanent_ne : (x : Ready) (m : String) → returned x ≢ permanent m
permanent_ne x m e = ground arith

raised_ne : (m n : String) → ◌≢◌ {A = Outcome Ready} (permanent m) (raised n)
raised_ne m n e = ground arith

module _ {B P : Type 0} (reader : Reader B) (max_tries : ℕ) (o : ℕ → Outside B P) where
  abbrev pub body : ℕ → Document P → Document P × Outcome Ready
  body n d = process_resume reader max_tries n (o n) d

  settled :
      (t : String) (n : ℕ) (before after : Document P) (x : Result Ready)
      (old letters : List String)
      → Tries reader max_tries n (o n) t (body n before)
      → after ≡ (body n before).0
      → Came x (body n before).1
      → IsAccounted max_tries old x n letters
      → (r : Ready) × (x ≡ done r) × IsIndexed reader max_tries n (o n) t r after × (letters ≡ old)
  settled t n before after (done y) old letters (inl (r, e, i)) left came acc =
      let same : y ≡ r = returned_inj y r (sym came ∙ e) in
      (r, ap done same, subst (IsIndexed reader max_tries n (o n) t r) (sym left) i, acc)
  settled t n before after (done y) old letters (inr (b, e)) left came acc =
      absurd (returned_ne y "embedding failed" (sym came ∙ e))
  settled t n before after (failed m) old letters (inl (r, e, i)) left came acc =
      absurd (permanent_ne r m (sym e ∙ came))
  settled t n before after (failed m) old letters (inr (b, e)) left came acc =
      absurd (raised_ne m "embedding failed" (sym came ∙ e))
  settled t n before after (raises m) old letters (inl (r, e, i)) left came acc =
      absurd (returned_ne r m (sym e ∙ came))
  settled t n before after (raises m) old letters (inr (b, e)) left came acc =
      absurd (omega (arith, acc.0))
  settled t n before after (retry d) old letters tries left came acc = absurd came

  -- A resume whose file reads as one text at every try, and whose transactions are committed, is ready
  -- when its job ends, which it does within the tries: the chunks are those of the text, each once, and no
  -- dead letter is added. This holds also when there are no embeddings at any try, and whatever was
  -- stored before.
  pub resume_becomes_ready :
      (t : String) (d : Document P) (l : Letters)
      → ((n : ℕ) → IsReadable reader max_tries n (o n) t)
      → 1 ≤ max_tries
      → l.has_engine ≡ true
      → l.inserts ≡ true
      → (run : Run (Document P) Ready) × (r : Ready) × (work body max_tries max_tries 1 0 d l
          ≡ some run)
        × (run.tries ≤ max_tries)
        × (run.result ≡ done r)
        × (run.state.status ≡ ready)
        × (run.state.chunks ≡ map (λ c. (c, r.embedded)) (reader.chunk t))
        × (run.letters.letters ≡ l.letters)
  resume_becomes_ready t d l ok pos a b =
      let (run, works, bound, wait, acc, last, left, came) =
        retries_end body max_tries d l (λ n d. process-Unretried reader max_tries n (o n) d) pos a
          b in
      let (r, e, (st, cs, len), none_) =
        settled t run.tries last run.state run.result l.letters run.letters.letters
          (process-Tries reader max_tries run.tries (o run.tries) t last (ok run.tries)) left came
          acc in
      (run, r, works, bound, e, st, cs, none_)
