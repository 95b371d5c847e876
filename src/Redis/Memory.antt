-- ===== src/Redis/Memory.antt =====
-- A store in memory that behaves as `Redis` asks.
use praxis_interview_os.Base.{
  ℕ, ◌+◌, ◌≤◌, ◌≡◌, refl, ◌≢◌, Bool, true, Option, none, some, String, ltb, if◌then◌else◌, arith,
  String-discrete, ap,
}
use praxis_interview_os.Redis.{Redis, RedisKey, is_live}
use mathlib.Core.Logic.{ite, if_pos, if_neg}
use native.Mathlib.Decide.{ℕ_discrete}

unfoldable pub RedisKey-discrete : Discrete RedisKey
RedisKey-discrete = hlevel (String-discrete, ℕ_discrete)

-- A value with the time at which it expires.
pub record Entry (A : Type 0) : Type 0 where
  pub value : A
  pub deadline : Option ℕ

abbrev pub alive : ℕ → Option ℕ → Bool
alive t none = true
alive t (some d) = ltb t d

abbrev pub deadline_of : ℕ → Option ℕ → Option ℕ
deadline_of t none = none
deadline_of t (some ttl) = some (t + ttl)

abbrev pub Map : Type 0 → Type 0
Map A = RedisKey → Option (Entry A)

unfoldable pub put : {A : Type 0} → Map A → RedisKey → Option (Entry A) → Map A
unfolding RedisKey-discrete
put m k e j = ite (RedisKey-discrete k j) e (m j)

put_self : {A : Type 0} (m : Map A) (k : RedisKey) (e : Option (Entry A)) → put m k e k ≡ e
unfolding put
put_self m k e = if_pos (RedisKey-discrete k k) refl e (m k)

put_ne :
    {A : Type 0} (m : Map A) (k j : RedisKey) (e : Option (Entry A)) → k ≢ j → put m k e j ≡ m j
unfolding put
put_ne m k j e h = if_neg (RedisKey-discrete k j) h e (m j)

unfoldable pub read : {A : Type 0} → ℕ → Option (Entry A) → Option A
read t none = none
read t (some e) = if alive t e.deadline then some e.value else none

unfoldable pub or_zero : Option ℕ → ℕ
or_zero none = 0
or_zero (some n) = n

-- The deadline that an entry still has.
unfoldable pub kept : ℕ → Option (Entry ℕ) → Option ℕ
kept t none = none
kept t (some e) = if alive t e.deadline then e.deadline else none

unfoldable pub renewed : {A : Type 0} → ℕ → ℕ → Option (Entry A) → Option (Entry A)
renewed t ttl none = none
renewed t ttl (some e) =
    if alive t e.deadline then some (record e { deadline = some (t + ttl) }) else none

pub record Memory : Type 0 where
  pub strings : Map String
  pub counts : Map ℕ

unfoldable pub get : ℕ → RedisKey → Memory → Option String
unfolding read
get t k s = read t (s.strings k)

unfoldable pub counter : ℕ → RedisKey → Memory → ℕ
unfolding read or_zero
counter t k s = or_zero (read t (s.counts k))

unfoldable pub set : ℕ → RedisKey → String → Option ℕ → Memory → Memory
set t k v ex s = record s {
  strings = put s.strings k (some (record { value = v; deadline = deadline_of t ex }));
}

unfoldable pub incr : ℕ → RedisKey → ℕ → Memory → Memory
incr t k n s = record s {
  counts =
      put s.counts k (some (record { value = counter t k s + n; deadline = kept t (s.counts k) }));
}

unfoldable pub delete : RedisKey → Memory → Memory
delete k s = record { strings = put s.strings k none; counts = put s.counts k none }

unfoldable pub expire : ℕ → RedisKey → ℕ → Memory → Memory
expire t k ttl s = record {
  strings = put s.strings k (renewed t ttl (s.strings k));
  counts = put s.counts k (renewed t ttl (s.counts k));
}

read-set :
    (t u : ℕ) (v : String) (ex : Option ℕ)
    → t ≤ u
    → read u (some (record { value = v; deadline = deadline_of t ex }))
      ≡ (if is_live t u ex then some v else none)
unfolding read
read-set t u v none h = refl
read-set t u v (some ttl) h = refl

read-renewed :
    {A : Type 0} (t u ttl : ℕ) (e : Option (Entry A))
    → t ≤ u
    → read u (renewed t ttl e) ≡ (if ltb u (t + ttl) then read t e else none)
unfolding read renewed
read-renewed t u ttl none h = ground arith
read-renewed t u ttl (some e) h = ground arith

read-incr :
    (t n : ℕ) (e : Option (Entry ℕ))
    → or_zero (read t (some (record { value = n; deadline = kept t e }))) ≡ n
unfolding read kept or_zero
read-incr t n none = refl
read-incr t n (some e) = ground arith

read-none_later :
    {A : Type 0} (t u : ℕ) (e : Option (Entry A)) → t ≤ u → read t e ≡ none → read u e ≡ none
unfolding read
read-none_later t u none h p = refl
read-none_later t u (some e) h p = ground arith

pub get-set_self :
    (t u : ℕ) (k : RedisKey) (v : String) (ex : Option ℕ) (s : Memory)
    → t ≤ u
    → get u k (set t k v ex s) ≡ (if is_live t u ex then some v else none)
unfolding get set
get-set_self t u k v ex s h = rw (put_self s.strings k) (read-set t u v ex h)

pub get-set_ne :
    (t u : ℕ) (k j : RedisKey) (v : String) (ex : Option ℕ) (s : Memory)
    → k ≢ j
    → get u j (set t k v ex s) ≡ get u j s
unfolding get set
get-set_ne t u k j v ex s h = ap (read u) (put_ne s.strings k j _ h)

pub get-delete_self : (u : ℕ) (k : RedisKey) (s : Memory) → get u k (delete k s) ≡ none
unfolding get delete
get-delete_self u k s = rw (put_self s.strings k)

pub get-delete_ne : (u : ℕ) (k j : RedisKey) (s : Memory) → k ≢ j → get u j (delete k s) ≡ get u j s
unfolding get delete
get-delete_ne u k j s h = ap (read u) (put_ne s.strings k j _ h)

pub get-incr_ne :
    (t u : ℕ) (k j : RedisKey) (n : ℕ) (s : Memory) → k ≢ j → get u j (incr t k n s) ≡ get u j s
unfolding get incr
get-incr_ne t u k j n s h = refl

pub get-expire_self :
    (t u : ℕ) (k : RedisKey) (ttl : ℕ) (s : Memory)
    → t ≤ u
    → get u k (expire t k ttl s) ≡ (if ltb u (t + ttl) then get t k s else none)
unfolding get expire
get-expire_self t u k ttl s h = rw (put_self s.strings k) (read-renewed t u ttl (s.strings k) h)

pub get-expire_ne :
    (t u : ℕ) (k j : RedisKey) (ttl : ℕ) (s : Memory)
    → k ≢ j
    → get u j (expire t k ttl s) ≡ get u j s
unfolding get expire
get-expire_ne t u k j ttl s h = ap (read u) (put_ne s.strings k j _ h)

pub counter-set_ne :
    (t u : ℕ) (k j : RedisKey) (v : String) (ex : Option ℕ) (s : Memory)
    → k ≢ j
    → counter u j (set t k v ex s) ≡ counter u j s
unfolding counter set
counter-set_ne t u k j v ex s h = refl

pub counter-incr_self :
    (t : ℕ) (k : RedisKey) (n : ℕ) (s : Memory) → counter t k (incr t k n s) ≡ counter t k s + n
unfolding counter incr
counter-incr_self t k n s =
    rw (put_self s.counts k) (read-incr t (or_zero (read t (s.counts k)) + n) (s.counts k))

pub counter-incr_ne :
    (t u : ℕ) (k j : RedisKey) (n : ℕ) (s : Memory)
    → k ≢ j
    → counter u j (incr t k n s) ≡ counter u j s
unfolding counter incr
counter-incr_ne t u k j n s h = ap (λ e. or_zero (read u e)) (put_ne s.counts k j _ h)

pub counter-delete_self : (u : ℕ) (k : RedisKey) (s : Memory) → counter u k (delete k s) ≡ 0
unfolding counter delete
counter-delete_self u k s = rw (put_self s.counts k)

pub counter-delete_ne :
    (u : ℕ) (k j : RedisKey) (s : Memory) → k ≢ j → counter u j (delete k s) ≡ counter u j s
unfolding counter delete
counter-delete_ne u k j s h = ap (λ e. or_zero (read u e)) (put_ne s.counts k j _ h)

pub counter-expire_self :
    (t u : ℕ) (k : RedisKey) (ttl : ℕ) (s : Memory)
    → t ≤ u
    → counter u k (expire t k ttl s) ≡ (if ltb u (t + ttl) then counter t k s else 0)
unfolding counter expire
counter-expire_self t u k ttl s h =
    rw (put_self s.counts k) (rw (read-renewed t u ttl (s.counts k) h) (ground arith))

pub counter-expire_ne :
    (t u : ℕ) (k j : RedisKey) (ttl : ℕ) (s : Memory)
    → k ≢ j
    → counter u j (expire t k ttl s) ≡ counter u j s
unfolding counter expire
counter-expire_ne t u k j ttl s h = ap (λ e. or_zero (read u e)) (put_ne s.counts k j _ h)

pub get-none_later :
    (t u : ℕ) (k : RedisKey) (s : Memory) → t ≤ u → get t k s ≡ none → get u k s ≡ none
unfolding get
get-none_later t u k s h p = read-none_later t u (s.strings k) h p

read-le_later : (t u : ℕ) (e : Option (Entry ℕ)) → t ≤ u → or_zero (read u e) ≤ or_zero (read t e)
unfolding read or_zero
read-le_later t u none h = omega arith
read-le_later t u (some e) h = ground arith

pub counter-le_later : (t u : ℕ) (k : RedisKey) (s : Memory) → t ≤ u → counter u k s ≤ counter t k s
unfolding counter
counter-le_later t u k s h = read-le_later t u (s.counts k) h

unfoldable pub memory : Redis
memory = record {
  Store = Memory;
  get = get;
  counter = counter;
  set = set;
  incr = incr;
  delete = delete;
  expire = expire;
  get-set_self = get-set_self;
  get-set_ne = get-set_ne;
  get-delete_self = get-delete_self;
  get-delete_ne = get-delete_ne;
  get-incr_ne = get-incr_ne;
  get-expire_self = get-expire_self;
  get-expire_ne = get-expire_ne;
  counter-set_ne = counter-set_ne;
  counter-incr_self = counter-incr_self;
  counter-incr_ne = counter-incr_ne;
  counter-delete_self = counter-delete_self;
  counter-delete_ne = counter-delete_ne;
  counter-expire_self = counter-expire_self;
  counter-expire_ne = counter-expire_ne;
  get-none_later = get-none_later;
  counter-le_later = counter-le_later;
}

-- A store with no key.
unfoldable pub empty : memory.Store
unfolding memory
empty = record { strings = λ _. none; counts = λ _. none }
