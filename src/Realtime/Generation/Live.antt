-- ===== src/Realtime/Generation/Live.antt =====
-- How many generations may speak at a time.
use praxis_interview_os.Base.{
  ℕ, ◌<◌, ◌≡◌, refl, ◌∙◌, true, false, List, [], ◌∷◌, String, arith, if◌then◌else◌, ◌==◌,
  Bool-cases, Option-cases, inl, inr,
}
use praxis_interview_os.Realtime.Generation.{
  Generations, no_generation, is_cancelled, cancel, cancel_unless, cancel_current, start_generation,
  is_current,
}

-- The calls of the manager.
pub data Use : Type 0 where
  starts : String → Use
  cancels : String → Use

abbrev pub use_one : Generations → Use → Generations
use_one gs (starts turn) = start_generation gs turn
use_one gs (cancels why) = cancel_current gs why

abbrev pub use_all : Generations → List Use → Generations
use_all gs [] = gs
use_all gs (u ∷ us) = use_all (use_one gs u) us

-- Every generation that was made and is not the current one is cancelled, and the current one was made.
pub record IsSingle (gs : Generations) : Type 0 where
  pub others : (g : ℕ) → g < gs.made → is_current gs g ≡ false → is_cancelled gs g ≡ true
  pub bounded : (g : ℕ) → is_current gs g ≡ true → g < gs.made

abbrev pub Live : Generations → ℕ → Type 0
Live gs g = (g < gs.made) × (is_cancelled gs g ≡ false)

cancelled_by_cancel_unless :
    (gs : Generations) (g h : ℕ) (why : String)
    → is_cancelled (cancel_unless gs g why) h ≡ (if h == g then true else is_cancelled gs h)
unfolding cancel_unless is_cancelled cancel
cancelled_by_cancel_unless gs g h why = ground arith

cancelled_by_cancel_current :
    (gs : Generations) (h : ℕ) (why : String)
    → is_cancelled (cancel_current gs why) h ≡ (if is_current gs h then true else is_cancelled gs h)
unfolding cancel_current is_current
cancelled_by_cancel_current gs h why = elim (Option-cases gs.current_context) [
  | inl e ↦ ground arith
  | inr (c, e) ↦ ground (arith, cancelled_by_cancel_unless gs c.generation_id h why)
]

cancel_current_made : (gs : Generations) (why : String) → (cancel_current gs why).made ≡ gs.made
unfolding cancel_current cancel_unless cancel
cancel_current_made gs why = ground arith

is_current-cancel_current :
    (gs : Generations) (why : String) (h : ℕ)
    → is_current (cancel_current gs why) h ≡ is_current gs h
unfolding is_current cancel_current cancel_unless cancel
is_current-cancel_current gs why h = ground arith

cancel_current-IsSingle :
    (gs : Generations) (why : String) → IsSingle gs → IsSingle (cancel_current gs why)
cancel_current-IsSingle gs why s = record {
  others = λ g h e. ground (
    arith,
    cancelled_by_cancel_current gs g why,
    s.others g (rw (cancel_current_made gs why) at h)
        (rw (is_current-cancel_current gs why g) at e),
  );
  bounded = λ g e.
      rw (cancel_current_made gs why) (s.bounded g (rw (is_current-cancel_current gs why g) at e));
}

all_cancelled :
    (gs : Generations) (why : String) (g : ℕ)
    → IsSingle gs
    → g < gs.made
    → is_cancelled (cancel_current gs why) g ≡ true
all_cancelled gs why g s h = elim (Bool-cases (is_current gs g)) [
  | inl e ↦ cancelled_by_cancel_current gs g why ∙ (rw e)
  | inr e ↦ cancelled_by_cancel_current gs g why ∙ (rw e (s.others g h e))
]

is_current_started :
    (gs : Generations) (turn : String) (g : ℕ)
    → is_current (start_generation gs turn) g ≡ ((cancel_current gs "superseded").made == g)
unfolding is_current start_generation
is_current_started gs turn g = refl

is_cancelled_started :
    (gs : Generations) (turn : String) (g : ℕ)
    → let old = cancel_current gs "superseded" in
      is_cancelled (start_generation gs turn) g
      ≡ (if g == old.made then false else is_cancelled old g)
unfolding is_cancelled start_generation
is_cancelled_started gs turn g = ground arith

start-IsSingle :
    (gs : Generations) (turn : String) → IsSingle gs → IsSingle (start_generation gs turn)
unfolding start_generation
start-IsSingle gs turn s = record {
  others = λ g h e. ground (
    arith,
    cancel_current_made gs "superseded",
    is_current_started gs turn g,
    is_cancelled_started gs turn g,
    all_cancelled gs "superseded" g s,
  );
  bounded = λ g e. ground (arith, is_current_started gs turn g);
}

use_all-IsSingle : (gs : Generations) (us : List Use) → IsSingle gs → IsSingle (use_all gs us)
use_all-IsSingle gs [] s = s
use_all-IsSingle gs (starts turn ∷ us) s =
    use_all-IsSingle (start_generation gs turn) us (start-IsSingle gs turn s)
use_all-IsSingle gs (cancels why ∷ us) s =
    use_all-IsSingle (cancel_current gs why) us (cancel_current-IsSingle gs why s)

no_generation-IsSingle : IsSingle no_generation
unfolding no_generation is_current
no_generation-IsSingle = record { others = λ g h e. absurd (omega arith); bounded = λ g e. cc }

Live-is_current : (gs : Generations) (g : ℕ) → IsSingle gs → Live gs g → is_current gs g ≡ true
Live-is_current gs g s l = elim (Bool-cases (is_current gs g)) [
  | inl e ↦ e
  | inr e ↦ absurd (ground (arith, s.others g l.0 e))
]

is_current_unique :
    (gs : Generations) (g h : ℕ) → is_current gs g ≡ true → is_current gs h ≡ true → g ≡ h
unfolding is_current
is_current_unique gs g h e f = ground arith

-- Whatever generations are started and cancelled, at most one is live: of those made, all but the
-- current one have their token cancelled.
one_generation_runs :
    (us : List Use) (g h : ℕ)
    → let gs = use_all no_generation us in
      Live gs g → Live gs h → (g ≡ h) × (is_current gs g ≡ true)
one_generation_runs us g h lg lh =
    let gs = use_all no_generation us in
    let s = use_all-IsSingle no_generation us no_generation-IsSingle in
    let cg = Live-is_current gs g s lg in
    (is_current_unique gs g h cg (Live-is_current gs h s lh), cg)
