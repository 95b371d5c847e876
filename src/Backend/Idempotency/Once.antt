-- ===== src/Backend/Idempotency/Once.antt =====
-- How often the work of a job is done.
use praxis_interview_os.Base.{
  ℕ, suc, ◌≡◌, refl, sym, ap, subst, ◌∙◌, Bool, true, false, List, [], ◌∷◌, Option, none, some,
  String, str_eq, str_eq_iff, Bool-cases, inl, inr, if◌then◌else◌,
}
use praxis_interview_os.Backend.Idempotency.{
  Status, started, completed, failed, Row, check_idempotency, mark_started, mark, Outcome, returns,
  raises, crashes, conclude, idempotent_job,
}

-- An attempt to run a job: its key, its type and how its work would end.
pub record Attempt : Type 0 where
  pub key : String
  pub job_type : String
  pub outcome : Outcome

-- The number of times that the work under the key `k` is done.
abbrev pub times_done : String → List Row → List Attempt → ℕ
times_done k log [] = 0
times_done k log (a ∷ rest) =
    let (after, runs) = idempotent_job a.key a.job_type a.outcome log in
    let later = times_done k after rest in
    if str_eq a.key k then (if runs then suc later else later) else later

abbrev pub succeeds : Outcome → Bool
succeeds returns = true
succeeds _ = false

-- The attempts under the key `k` up to the first that succeeds.
abbrev pub until_success : String → List Attempt → ℕ
until_success k [] = 0
until_success k (a ∷ rest) =
    let later = until_success k rest in
    if str_eq a.key k then (if succeeds a.outcome then 1 else suc later) else later

same_key : (k : String) → str_eq k k ≡ true
same_key k = (str_eq_iff k k).1 refl

other_key : (a k j : String) → str_eq a k ≡ true → str_eq k j ≡ false → str_eq a j ≡ false
other_key a k j e h = subst (λ (x : String). str_eq x j ≡ false) (sym ((str_eq_iff a k).0 e)) h

abbrev or_started : Option Status → Option Status
or_started none = some started
or_started (some s) = some s

abbrev or_none : Status → Option Status → Option Status
or_none s none = none
or_none s (some x) = some s

started_self :
    (k t : String) (log : List Row)
    → check_idempotency k (mark_started k t log) ≡ or_started (check_idempotency k log)
unfolding check_idempotency mark_started
started_self k t [] = rw (same_key k) refl
started_self k t (r ∷ rs) = elim (Bool-cases (str_eq r.idempotency_key k)) [
  | inl e ↦ rw e (rw e refl)
  | inr e ↦ rw e (rw e (started_self k t rs))
]

mark_self :
    (k : String) (s : Status) (log : List Row)
    → check_idempotency k (mark k s log) ≡ or_none s (check_idempotency k log)
unfolding check_idempotency mark
mark_self k s [] = refl
mark_self k s (r ∷ rs) = elim (Bool-cases (str_eq r.idempotency_key k)) [
  | inl e ↦ rw e (rw e refl)
  | inr e ↦ rw e (rw e (mark_self k s rs))
]

started_other :
    (k j t : String) (log : List Row)
    → str_eq k j ≡ false
    → check_idempotency j (mark_started k t log) ≡ check_idempotency j log
unfolding check_idempotency mark_started
started_other k j t [] h = rw h refl
started_other k j t (r ∷ rs) h = elim (Bool-cases (str_eq r.idempotency_key k)) [
  | inl e ↦ rw e refl
  | inr e ↦ rw e (elim (Bool-cases (str_eq r.idempotency_key j)) [
    | inl f ↦ rw f refl
    | inr f ↦ rw f (started_other k j t rs h)
  ])
]

mark_other :
    (k j : String) (s : Status) (log : List Row)
    → str_eq k j ≡ false
    → check_idempotency j (mark k s log) ≡ check_idempotency j log
unfolding check_idempotency mark
mark_other k j s [] h = refl
mark_other k j s (r ∷ rs) h = elim (Bool-cases (str_eq r.idempotency_key k)) [
  | inl e ↦ rw e (rw (other_key r.idempotency_key k j e h) (mark_other k j s rs h))
  | inr e ↦ rw e (elim (Bool-cases (str_eq r.idempotency_key j)) [
    | inl f ↦ rw f refl
    | inr f ↦ rw f (mark_other k j s rs h)
  ])
]

conclude_other :
    (k j : String) (o : Outcome) (log : List Row)
    → str_eq k j ≡ false
    → check_idempotency j (conclude k o log) ≡ check_idempotency j log
unfolding conclude
conclude_other k j returns log h = mark_other k j completed log h
conclude_other k j raises log h = mark_other k j failed log h
conclude_other k j crashes log h = refl

-- A job under another key does not change what is known of this one.
job_other :
    (k j t : String) (o : Outcome) (log : List Row)
    → str_eq k j ≡ false
    → check_idempotency j (idempotent_job k t o log).0 ≡ check_idempotency j log
unfolding idempotent_job
job_other k j t o log h =
    elim (check_idempotency k log)
      as (λ x.
        check_idempotency j
          (elim x as (λ _. List Row × Bool) [
            | some completed ↦ (log, false)
            | _ ↦ (conclude k o (mark_started k t log), true)
          ]).0
        ≡ check_idempotency j log) [
          | some completed ↦ refl
          | _ ↦ conclude_other k j o (mark_started k t log) h ∙ started_other k j t log h
        ]

-- The job has not succeeded yet.
data IsOpen : Option Status → Type 0 where
  is_new : IsOpen none
  is_started : IsOpen (some started)
  is_failed : IsOpen (some failed)

after_started : (o : Outcome) (s : Option Status) → IsOpen s → Option Status
after_started returns s h = some completed
after_started raises s h = some failed
after_started crashes s h = or_started s

concluded :
    (k : String) (o : Outcome) (log : List Row) (s : Option Status) (h : IsOpen s)
    → check_idempotency k log ≡ or_started s
    → check_idempotency k (conclude k o log) ≡ after_started o s h
unfolding conclude after_started
concluded k returns log none h e = mark_self k completed log ∙ (rw e refl)
concluded k returns log (some x) h e = mark_self k completed log ∙ (rw e refl)
concluded k raises log none h e = mark_self k failed log ∙ (rw e refl)
concluded k raises log (some x) h e = mark_self k failed log ∙ (rw e refl)
concluded k crashes log s h e = e

-- An attempt at a job that has not succeeded: the work is done.
job_open :
    (k t : String) (o : Outcome) (log : List Row) (s : Option Status) (h : IsOpen s)
    → check_idempotency k log ≡ s
    → ((idempotent_job k t o log).1 ≡ true)
      × (check_idempotency k (idempotent_job k t o log).0 ≡ after_started o s h)
unfolding idempotent_job
job_open k t o log none is_new e =
    rw (e, idempotent_job)
      (refl, concluded k o (mark_started k t log) none is_new (started_self k t log ∙ (rw e refl)))
job_open k t o log (some started) is_started e =
    rw (e, idempotent_job)
      (
        refl,
        concluded k o (mark_started k t log) (some started) is_started
            (started_self k t log ∙ (rw e refl)),
      )
job_open k t o log (some failed) is_failed e =
    rw (e, idempotent_job)
      (
        refl,
        concluded k o (mark_started k t log) (some failed) is_failed
            (started_self k t log ∙ (rw e refl)),
      )
job_open k t o log (some completed) h e = elim h [ ]

job_open_at :
    (j k t : String) (o : Outcome) (log : List Row) (s : Option Status) (h : IsOpen s)
    → str_eq j k ≡ true
    → check_idempotency k log ≡ s
    → ((idempotent_job j t o log).1 ≡ true)
      × (check_idempotency k (idempotent_job j t o log).0 ≡ after_started o s h)
job_open_at j k t o log s h same e =
    subst
      (λ (x : String).
        ((idempotent_job x t o log).1 ≡ true)
        × (check_idempotency k (idempotent_job x t o log).0 ≡ after_started o s h))
      (sym ((str_eq_iff j k).0 same)) (job_open k t o log s h e)

job_done :
    (k t : String) (o : Outcome) (log : List Row)
    → check_idempotency k log ≡ some completed
    → idempotent_job k t o log ≡ (log, false)
unfolding idempotent_job
job_done k t o log e = rw (e, idempotent_job) refl

job_done_at :
    (j k t : String) (o : Outcome) (log : List Row)
    → str_eq j k ≡ true
    → check_idempotency k log ≡ some completed
    → idempotent_job j t o log ≡ (log, false)
job_done_at j k t o log same e =
    subst (λ (x : String). idempotent_job x t o log ≡ (log, false)) (sym ((str_eq_iff j k).0 same))
      (job_done k t o log e)

done_never_again :
    (k : String) (attempts : List Attempt) (log : List Row)
    → check_idempotency k log ≡ some completed
    → times_done k log attempts ≡ 0
done_never_again k [] log e = refl
done_never_again k (a ∷ rest) log e = elim (Bool-cases (str_eq a.key k)) [
  | inl same ↦
      let shut = job_done_at a.key k a.job_type a.outcome log same e in
      rw same (rw shut (done_never_again k rest log e))
  | inr other ↦ rw other (
      done_never_again k rest (idempotent_job a.key a.job_type a.outcome log).0
        (job_other a.key k a.job_type a.outcome log other ∙ e))
]

-- The attempts behind one at the same job, by how its work ended.
behind :
    (k : String) (rest : List Attempt) (log : List Row) (o : Outcome) (s : Option Status)
    (h : IsOpen s)
    → ((x : Option Status)
        → IsOpen x
        → check_idempotency k log ≡ x
        → times_done k log rest ≡ until_success k rest)
    → check_idempotency k log ≡ after_started o s h
    → suc (times_done k log rest) ≡ (if succeeds o then 1 else suc (until_success k rest))
unfolding after_started
behind k rest log returns s h later e = ap suc (done_never_again k rest log e)
behind k rest log raises s h later e = ap suc (later (some failed) is_failed e)
behind k rest log crashes none is_new later e = ap suc (later (some started) is_started e)
behind k rest log crashes (some started) is_started later e =
    ap suc (later (some started) is_started e)
behind k rest log crashes (some failed) is_failed later e = ap suc (later (some failed) is_failed e)
behind k rest log crashes (some completed) h later e = elim h [ ]

open_until_success :
    (k : String) (attempts : List Attempt) (log : List Row) (s : Option Status)
    → IsOpen s
    → check_idempotency k log ≡ s
    → times_done k log attempts ≡ until_success k attempts
open_until_success k [] log s h e = refl
open_until_success k (a ∷ rest) log s h e = elim (Bool-cases (str_eq a.key k)) [
  | inl same ↦
      let v = (idempotent_job a.key a.job_type a.outcome log).0 in
      let (runs, after) = job_open_at a.key k a.job_type a.outcome log s h same e in
      rw same
        (rw runs (behind k rest v a.outcome s h (λ x g f. open_until_success k rest v x g f) after))
  | inr other ↦ rw other (
      open_until_success k rest (idempotent_job a.key a.job_type a.outcome log).0 s h
        (job_other a.key k a.job_type a.outcome log other ∙ e))
]

-- In any sequence of attempts at jobs, in any order and however each ends, the work of a job that has
-- no row yet is done once for each attempt at it up to the first that succeeds, and never after.
pub done_until_success :
    (k : String) (attempts : List Attempt) (log : List Row)
    → check_idempotency k log ≡ none
    → times_done k log attempts ≡ until_success k attempts
done_until_success k attempts log e = open_until_success k attempts log none is_new e
