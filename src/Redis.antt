-- ===== src/Redis.antt =====
-- What the program relies on of Redis (redis.asyncio), which is not part of the repository: the
-- commands GET, SET with EX, INCR(BYFLOAT), DEL and EXPIRE as an interface with their documented
-- behaviour, and the keys that the program uses. `Memory` shows that the interface can be met.
pub mod Memory
use praxis_interview_os.Base.{
  ℕ, ◌+◌, ◌≤◌, ◌≡◌, ◌≢◌, Bool, true, Option, none, some, String, ltb, if◌then◌else◌,
}

-- The f-strings of the source, with the ids that they hold. Amounts of money are kept in billionths
-- of a dollar.
pub data RedisKey : Type 0 where
  breaker_failures breaker_state : String → String → RedisKey
  budget_daily : String → String → RedisKey
  budget_session : String → RedisKey
  session_lock session_state session_sequence : String → RedisKey
  rate_limit : String → ℕ → RedisKey

-- Whether an entry set at `t` with the expiry `ex` is still there at `u`.
abbrev pub is_live : ℕ → ℕ → Option ℕ → Bool
is_live t u none = true
is_live t u (some ttl) = ltb u (t + ttl)

-- The first argument of a command is the time at which it runs. Times and expiries are in
-- milliseconds: `EX n` is 1000 * n.
pub record Redis : Type 1 where
  pub Store : Type 0
  pub get : ℕ → RedisKey → Store → Option String
  pub counter : ℕ → RedisKey → Store → ℕ
  pub set : ℕ → RedisKey → String → Option ℕ → Store → Store
  pub incr : ℕ → RedisKey → ℕ → Store → Store
  pub delete : RedisKey → Store → Store
  pub expire : ℕ → RedisKey → ℕ → Store → Store
  pub get-set_self :
      (t u : ℕ) (k : RedisKey) (v : String) (ex : Option ℕ) (s : Store)
      → t ≤ u
      → get u k (set t k v ex s) ≡ (if is_live t u ex then some v else none)
  pub get-set_ne :
      (t u : ℕ) (k j : RedisKey) (v : String) (ex : Option ℕ) (s : Store)
      → k ≢ j
      → get u j (set t k v ex s) ≡ get u j s
  pub get-delete_self : (u : ℕ) (k : RedisKey) (s : Store) → get u k (delete k s) ≡ none
  pub get-delete_ne :
      (u : ℕ) (k j : RedisKey) (s : Store) → k ≢ j → get u j (delete k s) ≡ get u j s
  pub get-incr_ne :
      (t u : ℕ) (k j : RedisKey) (n : ℕ) (s : Store) → k ≢ j → get u j (incr t k n s) ≡ get u j s
  pub get-expire_self :
      (t u : ℕ) (k : RedisKey) (ttl : ℕ) (s : Store)
      → t ≤ u
      → get u k (expire t k ttl s) ≡ (if ltb u (t + ttl) then get t k s else none)
  pub get-expire_ne :
      (t u : ℕ) (k j : RedisKey) (ttl : ℕ) (s : Store)
      → k ≢ j
      → get u j (expire t k ttl s) ≡ get u j s
  pub counter-set_ne :
      (t u : ℕ) (k j : RedisKey) (v : String) (ex : Option ℕ) (s : Store)
      → k ≢ j
      → counter u j (set t k v ex s) ≡ counter u j s
  pub counter-incr_self :
      (t : ℕ) (k : RedisKey) (n : ℕ) (s : Store) → counter t k (incr t k n s) ≡ counter t k s + n
  pub counter-incr_ne :
      (t u : ℕ) (k j : RedisKey) (n : ℕ) (s : Store)
      → k ≢ j
      → counter u j (incr t k n s) ≡ counter u j s
  pub counter-delete_self : (u : ℕ) (k : RedisKey) (s : Store) → counter u k (delete k s) ≡ 0
  pub counter-delete_ne :
      (u : ℕ) (k j : RedisKey) (s : Store) → k ≢ j → counter u j (delete k s) ≡ counter u j s
  pub counter-expire_self :
      (t u : ℕ) (k : RedisKey) (ttl : ℕ) (s : Store)
      → t ≤ u
      → counter u k (expire t k ttl s) ≡ (if ltb u (t + ttl) then counter t k s else 0)
  pub counter-expire_ne :
      (t u : ℕ) (k j : RedisKey) (ttl : ℕ) (s : Store)
      → k ≢ j
      → counter u j (expire t k ttl s) ≡ counter u j s
  -- A value that has expired stays away until it is written again.
  pub get-none_later :
      (t u : ℕ) (k : RedisKey) (s : Store) → t ≤ u → get t k s ≡ none → get u k s ≡ none
  -- A counter keeps its value until it expires.
  pub counter-le_later :
      (t u : ℕ) (k : RedisKey) (s : Store) → t ≤ u → counter u k s ≤ counter t k s
