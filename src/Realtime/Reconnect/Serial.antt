-- ===== src/Realtime/Reconnect/Serial.antt =====
-- A client that is on one connection at a time and comes back within the grace period.
use praxis_interview_os.Base.{
  ℕ, ◌+◌, ◌≤◌, ◌<◌, ◌≡◌, false, List, [], ◌∷◌, ◌++◌, Option, none, some, if◌then◌else◌, All,
}
use praxis_interview_os.Realtime.Session.{SessionState, failed, state_eq}
use praxis_interview_os.Realtime.Reconnect.{
  is_terminal, Saved, Connection, Reaper, World, reap_margin, arriving, connect, start, enqueue,
  disconnect, reap, passes,
}

-- A client comes, and its connection starts or resumes the session before anything else happens.
abbrev pub arrive : World → World
arrive w = if is_terminal w.status then w else start (arriving w) (connect w)

abbrev pub IsWithin : ℕ → Option ℕ → Type 0
IsWithin t none = Unit
IsWithin t (some d) = t + reap_margin < d

abbrev pub AwayUntil : ℕ → Option Saved → Type 0
AwayUntil t none = Unit
AwayUntil t (some v) = IsWithin t v.deadline

-- While the client is away, no more time passes than the grace period leaves.
abbrev pub IsPrompt : ℕ → World → Type 0
IsPrompt d w = w.connections ≡ [] → AwayUntil (w.now + d) w.key

-- The steps of a session with one client at a time whose interview does not fail, with the reapers of its earlier
-- connections, which wake at any time after they are due.
pub data Step : World → World → Type 0 where
  comes : (w : World) → w.connections ≡ [] → Step w (arrive w)
  sends : (w : World) (c : Connection) → w.connections ≡ c ∷ [] → Step w (enqueue c w)
  leaves :
      (w : World) (c : Connection) (s : SessionState)
      → w.connections ≡ c ∷ []
      → state_eq s failed ≡ false
      → Step w (disconnect c s w)
  wakes :
      (w : World) (r : Reaper) (xs ys : List Reaper)
      → w.reapers ≡ xs ++ r ∷ ys
      → r.due ≤ w.now
      → Step w (reap r w)
  waits : (w : World) (d : ℕ) → IsPrompt d w → Step w (passes d w)

pub data Reach (s : World) : World → Type 0 where
  here : Reach s s
  next : {t u : World} → Reach s t → Step t u → Reach s u

-- Newest first, each number is larger than those before it.
abbrev pub IsDescending : List ℕ → Type 0
IsDescending [] = Unit
IsDescending (n ∷ ns) = All (λ m. m < n) ns × IsDescending ns
