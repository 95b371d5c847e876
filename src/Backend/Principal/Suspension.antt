-- ===== src/Backend/Principal/Suspension.antt =====
-- When a suspension takes effect.
use mathlib.Core.Bool.{true≢false}
use praxis_interview_os.Base.{
  ℕ, ◌+◌, ◌≤◌, ◌≡◌, refl, sym, ◌∙◌, Bool, true, false, List, [], ◌∷◌, Option, none, some, ltb,
  arith, ◌⊎◌, inl, inr, Bool-cases, Option-cases, if◌then◌else◌,
}
use praxis_interview_os.Backend.Principal.{
  provides, forbidden, Account, CachedId, cached_id, lookup_candidate_id, get_current_candidate,
}

-- A cached id that is over at a time.
abbrev IsOver : ℕ → Option CachedId → Type 0
IsOver limit none = Unit
IsOver limit (some c) = c.expires_at ≤ limit

banned_lookup : (a : Account) → a.is_banned ≡ true → lookup_candidate_id (some a) ≡ forbidden
unfolding lookup_candidate_id
banned_lookup a h = rw h refl

open_lookup : (a : Account) → a.is_banned ≡ false → lookup_candidate_id (some a) ≡ provides a.id
unfolding lookup_candidate_id
open_lookup a h = rw h refl

later-IsOver :
    (limit later : ℕ) (cache : Option CachedId)
    → limit ≤ later
    → IsOver limit cache
    → IsOver later cache
later-IsOver limit later none h o = tt
later-IsOver limit later (some c) h o = omega (arith, o)

over_missing :
    (limit now : ℕ) (cache : Option CachedId)
    → IsOver limit cache
    → limit ≤ now
    → cached_id now cache ≡ none
unfolding cached_id
over_missing limit now none h l = refl
over_missing limit now (some c) h l =
    let e : ltb now c.expires_at ≡ false = ground (arith, h) in rw e refl

read_missing :
    (reads : Bool) (now : ℕ) (cache : Option CachedId)
    → cached_id now cache ≡ none
    → (if reads then cached_id now cache else none) ≡ none
read_missing true now cache h = h
read_missing false now cache h = refl

module _ (ttl : ℕ) (account : Account) where
  -- The user's requests, each with the time that passes before it, and whether Redis can be read and
  -- written then.
  abbrev pub after_requests : ℕ → List (ℕ × Bool × Bool) → Option CachedId → ℕ × Option CachedId
  after_requests now [] cache = (now, cache)
  after_requests now ((d, reads, writes) ∷ rs) cache =
      after_requests (now + d) rs
        (get_current_candidate ttl reads writes (now + d) (some account) cache).0

  -- A request keeps the cache, or caches the id for a TTL when the account is open.
  request-IsOver :
      (limit now : ℕ) (reads writes : Bool) (cache : Option CachedId)
      → (account.is_banned ≡ true) ⊎ (now + ttl ≤ limit)
      → IsOver limit cache
      → IsOver limit (get_current_candidate ttl reads writes now (some account) cache).0
  unfolding get_current_candidate
  request-IsOver limit now reads writes cache why h =
      elim (Option-cases (if reads then cached_id now cache else none)) [
        | inr (id, e) ↦ rw (e, get_current_candidate) h
        | inl e ↦ elim (Bool-cases (account.is_banned)) [
          | inl b ↦ rw (e, get_current_candidate) (rw (banned_lookup account b) h)
          | inr b ↦ elim why [
            | inl a ↦ absurd (true≢false (sym a ∙ b))
            | inr l ↦ elim (Bool-cases writes) [
              | inl w ↦ rw (e, get_current_candidate) (rw (open_lookup account b) (rw w l))
              | inr w ↦ rw (e, get_current_candidate) (rw (open_lookup account b) (rw w h))
            ]
          ]
        ]
      ]

  over_refused :
      (limit now : ℕ) (reads writes : Bool) (cache : Option CachedId)
      → account.is_banned ≡ true
      → IsOver limit cache
      → limit ≤ now
      → (get_current_candidate ttl reads writes now (some account) cache).1 ≡ forbidden
  unfolding get_current_candidate
  over_refused limit now reads writes cache banned h late =
      rw (read_missing reads now cache (over_missing limit now cache h late), get_current_candidate)
        (rw (banned_lookup account banned) refl)

  banned_requests :
      (limit now : ℕ) (rs : List (ℕ × Bool × Bool)) (cache : Option CachedId)
      → account.is_banned ≡ true
      → IsOver limit cache
      → IsOver limit (after_requests now rs cache).1
  banned_requests limit now [] cache banned h = h
  banned_requests limit now ((d, reads, writes) ∷ rs) cache banned h =
      banned_requests limit (now + d) rs
        (get_current_candidate ttl reads writes (now + d) (some account) cache).0 banned
        (request-IsOver limit (now + d) reads writes cache (inl banned) h)

  -- What is cached when requests have been answered is over a TTL later.
  requests-IsOver :
      (now : ℕ) (rs : List (ℕ × Bool × Bool)) (cache : Option CachedId)
      → IsOver (now + ttl) cache
      → IsOver ((after_requests now rs cache).0 + ttl) (after_requests now rs cache).1
  requests-IsOver now [] cache h = h
  requests-IsOver now ((d, reads, writes) ∷ rs) cache h =
      requests-IsOver (now + d) rs
        (get_current_candidate ttl reads writes (now + d) (some account) cache).0
        (request-IsOver ((now + d) + ttl) (now + d) reads writes cache (inr (omega arith))
          (later-IsOver (now + ttl) ((now + d) + ttl) cache (omega arith) h))

-- A suspended account is refused at the latest when the TTL of its cached id has passed since it was
-- suspended, whatever requests came before and after, and whether Redis answered them or not.
pub suspension_takes_effect :
    (ttl id now : ℕ) (before after : List (ℕ × Bool × Bool)) (reads writes : Bool)
    → let (suspended, cache) =
        after_requests ttl (record { id = id; is_banned = false }) 0 before none in
      let (last, left) =
        after_requests ttl (record { id = id; is_banned = true }) suspended after cache in
      suspended + ttl ≤ now
      → (get_current_candidate ttl reads writes now
          (some (record { id = id; is_banned = true }))
          left).1
        ≡ forbidden
suspension_takes_effect ttl id now before after reads writes late =
    let (suspended, cache) =
      after_requests ttl (record { id = id; is_banned = false }) 0 before none in
    let left =
      (after_requests ttl (record { id = id; is_banned = true }) suspended after cache).1 in
    over_refused ttl (record { id = id; is_banned = true }) (suspended + ttl) now reads writes left
      refl
      (banned_requests ttl (record { id = id; is_banned = true }) (suspended + ttl) suspended after
        cache refl (requests-IsOver ttl (record { id = id; is_banned = false }) 0 before none tt))
      late
