-- ===== src/Realtime/Lock/Exclusion.antt =====
-- Which instance holds a session's lock while instances acquire, renew and release it.
use praxis_interview_os.Base.{
  ℕ, suc, All, Bool, ◌+◌, ◌≤◌, ◌≡◌, ◌≢◌, refl, true, false, List, [], ◌∷◌, Option, none, some,
  String, str_eq, str_eq_iff, if◌then◌else◌, ltb, arith, Bool-cases, Option-cases, inl, inr,
}
use praxis_interview_os.Redis.{Redis, session_lock}
use praxis_interview_os.Realtime.Lock.{
  session_lock_ttl, is_held_by, acquire_session_lock, read_session_lock, renew_session_lock,
  release_session_lock,
}

module _ (r : Redis) (session : String) where
  open r use {Store, get}

  abbrev pub holder : ℕ → Store → Option String
  holder now s = get now (session_lock session) s

  -- A renewal or a release that has read the lock and has not done its second command.
  pub record Call : Type 0 where
    pub instance_id : String
    pub current : Option String
    pub is_release : Bool

  -- A command: an instance, by its name, acquires the lock or starts to renew or release it, or one of the
  -- calls under way, by its place among them, does its second command.
  pub data Request : Type 0 where
    acquires starts_renewal starts_release : String → Request
    goes_on : ℕ → Request

  abbrev pub finish : ℕ → Call → Store → Store
  finish now c s =
      if c.is_release
      then release_session_lock r session c.instance_id c.current s
      else (renew_session_lock r now session c.instance_id c.current s).0

  unfoldable pub finish_at : ℕ → ℕ → List Call → Store → List Call × Store
  unfolding release_session_lock renew_session_lock
  finish_at now n [] s = ([], s)
  finish_at now ℕ.zero (c ∷ cs) s = (cs, finish now c s)
  finish_at now (suc n) (c ∷ cs) s = let (ds, t) = finish_at now n cs s in (c ∷ ds, t)

  abbrev pub started : ℕ → String → Bool → Store → Call
  started now i is_release s = record {
    instance_id = i;
    current = read_session_lock r now session s;
    is_release = is_release;
  }

  abbrev pub serve : ℕ → Request → List Call × Store → List Call × Store
  serve now (acquires i) (cs, s) = (cs, (acquire_session_lock r now session i s).0)
  serve now (starts_renewal i) (cs, s) = (started now i false s ∷ cs, s)
  serve now (starts_release i) (cs, s) = (started now i true s ∷ cs, s)
  serve now (goes_on n) (cs, s) = finish_at now n cs s

  -- The commands, each with the time that passes before it.
  abbrev pub serve_all : ℕ → List (ℕ × Request) → List Call × Store → List Call × Store
  serve_all now [] w = w
  serve_all now ((d, q) ∷ qs) w = serve_all (now + d) qs (serve (now + d) q w)

  abbrev pub end_time : ℕ → List (ℕ × Request) → ℕ
  end_time now [] = now
  end_time now ((d, q) ∷ qs) = end_time (now + d) qs

  -- The commands are not the instance's own.
  abbrev pub IsOther : String → Request → Type 0
  IsOther i (acquires j) = j ≢ i
  IsOther i (starts_renewal j) = j ≢ i
  IsOther i (starts_release j) = j ≢ i
  IsOther i (goes_on n) = Unit

  abbrev pub NoneOf : String → List (ℕ × Request) → Type 0
  NoneOf i [] = Unit
  NoneOf i ((d, q) ∷ qs) = IsOther i q × NoneOf i qs

  -- No call under way has found the lock to be its own.
  abbrev pub NoneFound : List Call → Type 0
  NoneFound cs = All (λ (c : Call). is_held_by c.instance_id c.current ≡ false) cs

  acquired :
      (t v : ℕ) (i : String) (s : Store)
      → t ≤ v
      → (acquire_session_lock r t session i s).1 ≡ true
      → holder v (acquire_session_lock r t session i s).0
        ≡ (if ltb v (t + session_lock_ttl) then some i else none)
  unfolding acquire_session_lock
  acquired t v i s h got = elim (Option-cases (get t (session_lock session) s)) [
    | inl e ↦
        rw (e, acquire_session_lock)
          (r.get-set_self t v (session_lock session) i (some session_lock_ttl) s h)
    | inr (w, e) ↦ absurd (ground arith)
  ]

  acquire-missing :
      (u : ℕ) (j : String) (s : Store)
      → holder u s ≡ none
      → (acquire_session_lock r u session j s).1 ≡ true
  unfolding acquire_session_lock
  acquire-missing u j s e = rw (e, acquire_session_lock) refl

  acquire-held :
      (u : ℕ) (i j : String) (s : Store)
      → holder u s ≡ some i
      → (acquire_session_lock r u session j s).1 ≡ false
  unfolding acquire_session_lock
  acquire-held u i j s e = rw (e, acquire_session_lock) refl

  release-held :
      (u : ℕ) (i : String) (s : Store)
      → holder u s ≡ some i
      → str_eq i "" ≡ false
      → holder u (release_session_lock r session i (holder u s) s) ≡ none
  unfolding release_session_lock is_held_by
  release-held u i s e named =
      rw (e, named) (rw ((str_eq_iff i i).1 refl) (r.get-delete_self u (session_lock session) s))

  release-missing :
      (u : ℕ) (i : String) (s : Store)
      → holder u s ≡ none
      → holder u (release_session_lock r session i (holder u s) s) ≡ none
  unfolding release_session_lock is_held_by
  release-missing u i s e = rw e e

  -- After an instance with a name got the lock, another one gets it exactly when the TTL has run out,
  -- and at once when the holder has read it and released it.
  lock_passes_on :
      (t u : ℕ) (i j : String) (s : Store)
      → t ≤ u
      → str_eq i "" ≡ false
      → (acquire_session_lock r t session i s).1 ≡ true
      → let v = (acquire_session_lock r t session i s).0 in
        ((acquire_session_lock r u session j v).1
          ≡ (if ltb u (t + session_lock_ttl) then false else true))
        × ((acquire_session_lock r u session j (release_session_lock r session i (holder u v) v)).1
            ≡ true)
  lock_passes_on t u i j s h named got =
      let v = (acquire_session_lock r t session i s).0 in
      let at = acquired t u i s h got in
      elim (Bool-cases (ltb u (t + session_lock_ttl))) [
        | inl live ↦ (
          rw live (acquire-held u i j v (rw live at at)),
          acquire-missing u j _ (release-held u i v (rw live at at) named),
        )
        | inr over ↦ (
          rw over (acquire-missing u j v (rw over at at)),
          acquire-missing u j _ (release-missing u i v (rw over at at)),
        )
      ]
