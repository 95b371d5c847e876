-- ===== src/Tests/Tables.antt =====
-- Runs of the repositories: pages of a candidate's rows, and requests of two candidates.
use Prim.Native.String.{String}
use mathlib.Core.List.{Perm}
use praxis_interview_os.Base.{ℕ, zero, suc, ◌≡◌, refl, ap, List, [], ◌∷◌, none, some}
use praxis_interview_os.Backend.Pagination.{Row, Texts, rsplit}
use praxis_interview_os.Backend.Pagination.Cursors.{IsReadable}
use praxis_interview_os.Backend.Pagination.Ordered.{IsDescending}
use praxis_interview_os.Backend.Pagination.Walk.{walk, walk_complete}
use praxis_interview_os.Backend.Owned.Isolation.{
  Request, lists, gets, creates, updates, deletes, rows_of, requests_of, answers, alone,
  answers_isolated,
}

-- Times and ids as tallies.
unfoldable tally : ℕ → String
tally zero = ""
tally (suc n) = String.◌∷◌ "i" (tally n)

unfoldable count : String → ℕ
count String.[] = 0
count (String.◌∷◌ c s) = suc (count s)

count-tally : (n : ℕ) → count (tally n) ≡ n
unfolding tally count
count-tally zero = refl
count-tally (suc n) = ap suc (count-tally n)

tally_whole : (n : ℕ) → rsplit (tally n) ≡ none
unfolding tally rsplit
tally_whole zero = refl
tally_whole (suc n) = rw (tally_whole n) refl

abbrev tallies : Texts
tallies = record {
  isoformat = tally;
  fromisoformat = λ s. some (count s);
  uuid_text = tally;
  uuid_read = λ s. some (count s);
}

tallies-IsReadable : IsReadable tallies
tallies-IsReadable = record {
  reads_time = λ t. ap some (count-tally t);
  reads_id = λ i. ap some (count-tally i);
  no_underscore = tally_whole;
}

abbrev row : ℕ → ℕ → ℕ → Row ℕ
row id owner time = record { id = id; candidate_id = owner; created_at = time; value = 0 }

abbrev table : List (Row ℕ)
table = row 3 7 5 ∷ row 1 7 4 ∷ row 2 8 6 ∷ row 4 7 5 ∷ []

abbrev owned : List (Row ℕ)
owned = row 3 7 5 ∷ row 1 7 4 ∷ row 4 7 5 ∷ []

walk_complete_example :
    (seen : List (Row ℕ)) × (walk tallies 7 2 table 4 none ≡ some seen)
    × Perm seen owned
    × IsDescending seen
walk_complete_example =
    walk_complete tallies 7 2 table tallies-IsReadable
      ((refl, (refl, (refl, tt))), ((refl, (refl, tt)), ((refl, tt), (tt, tt))))

abbrev requests : List (ℕ × Request ℕ)
requests =
    (7, lists none 0)
    ∷ (8, updates (some 1) (some suc))
    ∷ (8, deletes (some 3))
    ∷ (7, gets (some 1))
    ∷ (8, creates 9 8 1)
    ∷ (7, deletes (some 3))
    ∷ []

answers_isolated_example :
    answers tallies 7 table requests ≡ alone tallies 7 (rows_of 7 table) (requests_of 7 requests)
answers_isolated_example = answers_isolated tallies 7 requests table
