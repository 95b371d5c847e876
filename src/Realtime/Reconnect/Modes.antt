-- ===== src/Realtime/Reconnect/Modes.antt =====
-- What a session is like between the steps of its one client, and what its reapers then find.
use praxis_interview_os.Base.{
  ℕ, ◌+◌, ◌≤◌, ◌<◌, ◌≡◌, refl, sym, ap, subst, ◌∙◌, true, false, List, [], ◌∷◌, ◌++◌, Option, none,
  some, ltb, ◌==◌, All, arith, Bool-cases, inl, inr,
}
use praxis_interview_os.Realtime.Reconnect.{
  completed, is_terminal, Saved, Connection, Reaper, World, reap_margin, hgetall, is_alive,
  is_left_by, is_waiting, is_abandoned, reap,
}
use praxis_interview_os.Realtime.Reconnect.Serial.{IsDescending}

abbrev pub Due : ℕ → ℕ → Reaper → Type 0
Due id d r = (r.conn_id == id) ≡ true → r.due + reap_margin ≡ d

-- The connection is the newest one, it has claimed what was saved, and its numbers are new.
abbrev pub IsLive : World → Connection → Type 0
IsLive w c =
    (is_waiting w.key ≡ false)
    × (c.conn_id < w.next_id)
    × All (λ (r : Reaper). r.conn_id < c.conn_id) w.reapers
    × All (λ n. n < c.next) w.sent
    × (is_terminal w.status ≡ false)

-- What the steps keep: the session is new, a client is connected, it is away, or it is over.
pub data Mode (w : World) : Type 0 where
  fresh :
      w.connections ≡ []
      → w.key ≡ none
      → w.reapers ≡ []
      → w.sent ≡ []
      → is_terminal w.status ≡ false
      → Mode w
  live : (c : Connection) → w.connections ≡ c ∷ [] → IsLive w c → Mode w
  away :
      (v : Saved) (d n : ℕ)
      → w.connections ≡ []
      → w.key ≡ some v
      → v.is_reconnecting ≡ true
      → v.deadline ≡ some d
      → v.sequence ≡ some n
      → w.now + reap_margin < d
      → All (λ (r : Reaper). r.conn_id < w.next_id) w.reapers
      → All (Due v.conn_id d) w.reapers
      → All (λ m. m < n) w.sent
      → is_terminal w.status ≡ false
      → Mode w
  over : w.connections ≡ [] → w.key ≡ none → w.status ≡ completed → Mode w

abbrev pub Kept : World → Type 0
Kept w = Mode w × IsDescending w.sent

All-at : (P : Reaper → Type 0) (r : Reaper) (xs ys : List Reaper) → All P (xs ++ r ∷ ys) → P r
All-at P r [] ys h = h.0
All-at P r (x ∷ xs) ys h = All-at P r xs ys h.1

pub All-weaken :
    {A : Type 0} (P Q : A → Type 0) (xs : List A) → ((x : A) → P x → Q x) → All P xs → All Q xs
All-weaken P Q [] f h = tt
All-weaken P Q (x ∷ xs) f h = (f x h.0, All-weaken P Q xs f h.1)

pub hgetall_alive :
    (now d : ℕ) (key : Option Saved) (v : Saved)
    → key ≡ some v
    → v.deadline ≡ some d
    → ltb now d ≡ true
    → hgetall now key ≡ some v
unfolding hgetall is_alive
hgetall_alive now d key v k e h = rw (k, hgetall) (rw (e, is_alive) (rw h refl))

pub left_claimed :
    (id now : ℕ) (key : Option Saved)
    → is_waiting key ≡ false
    → is_left_by id (hgetall now key) ≡ false
unfolding is_left_by hgetall is_waiting
left_claimed id now none h = refl
left_claimed id now (some v) h = elim (Bool-cases (is_alive now v.deadline)) [
  | inl e ↦ rw e (rw h refl)
  | inr e ↦ rw e refl
]

pub not_due :
    (r : Reaper) (now d id : ℕ)
    → Due id d r
    → r.due ≤ now
    → now + reap_margin < d
    → (r.conn_id == id) ≡ false
not_due r now d id due t h = elim (Bool-cases (r.conn_id == id)) [
  | inl e ↦ absurd (omega (arith, due e))
  | inr e ↦ e
]

pub not_abandoned_away :
    (r : Reaper) (w : World) (v : Saved) (d : ℕ)
    → w.key ≡ some v
    → v.deadline ≡ some d
    → w.now + reap_margin < d
    → Due v.conn_id d r
    → r.due ≤ w.now
    → is_abandoned r w ≡ false
unfolding is_abandoned is_left_by
not_abandoned_away r w v d k e h due t =
    let other = not_due r w.now d v.conn_id due t h in
    rw (hgetall_alive w.now d w.key v k e (ground arith)) (ground arith)

pub reap_spares : (r : Reaper) (w : World) → is_abandoned r w ≡ false → reap r w ≡ w
unfolding reap
reap_spares r w h = rw h refl

-- A reaper that wakes finds its connection's session resumed or over, or not yet due.
pub wakes_spared :
    (w : World) (r : Reaper) (xs ys : List Reaper)
    → w.reapers ≡ xs ++ r ∷ ys
    → r.due ≤ w.now
    → Kept w
    → reap r w ≡ w
unfolding is_abandoned is_waiting
wakes_spared w r xs ys at t (fresh a k b c d, s) =
    reap_spares r w (left_claimed r.conn_id w.now w.key (rw k refl))
wakes_spared w r xs ys at t (live c e f, s) =
    reap_spares r w (left_claimed r.conn_id w.now w.key f.0)
wakes_spared w r xs ys at t (away v d n e k rec dl sq h b dues sent open_, s) = reap_spares r w (
    not_abandoned_away r w v d k dl h
      (All-at (Due v.conn_id d) r xs ys (subst (λ l. All (Due v.conn_id d) l) at dues)) t)
wakes_spared w r xs ys at t (over e k st, s) =
    reap_spares r w (left_claimed r.conn_id w.now w.key (rw k refl))

head_or : Connection → List Connection → Connection
head_or c [] = c
head_or c (d ∷ ds) = d

pub not_both : (w : World) (c : Connection) → w.connections ≡ c ∷ [] → w.connections ≡ [] → ⊥
not_both w c at e = ground arith

pub connected : (w : World) (c : Connection) → w.connections ≡ c ∷ [] → Mode w → IsLive w c
unfolding head_or
connected w c at (fresh a k b s t) = absurd (not_both w c at a)
connected w c at (live d e f) = subst (IsLive w) (ap (head_or c) (sym e ∙ at)) f
connected w c at (away v d n e k rec dl sq h b dues sent open_) = absurd (not_both w c at e)
connected w c at (over e k st) = absurd (not_both w c at e)
