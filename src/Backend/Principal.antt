-- ===== src/Backend/Principal.antt =====
-- dependencies.py: who a request comes from. The claims of a verified token name a user, whose candidate
-- row is found in Redis for a while and else in the database; an account can be suspended there.
pub mod Suspension
use praxis_interview_os.Base.{
  ℕ, ◌+◌, Bool, true, false, Option, none, some, String, str_eq, ltb, if◌then◌else◌,
}
use praxis_interview_os.Backend.Auth.{Answer, accepted, auth_error, provider_unavailable}

-- The exceptions of a dependency, by their HTTP errors, or its value.
pub data Depends (A : Type 0) : Type 0 where
  provides : A → Depends A
  unauthorized forbidden not_found unavailable : Depends A

-- get_current_user: the bearer token, if there is one, with the answer of verify_jwt for it.
unfoldable pub get_current_user : {C : Type 0} → Option (Answer C) → Depends C
get_current_user none = unauthorized
get_current_user (some (accepted c)) = provides c
get_current_user (some (auth_error e)) = unauthorized
get_current_user (some provider_unavailable) = unavailable

-- get_db_session: the claims that the row-level policies of a request's transaction see.
unfoldable pub session_claims : {C : Type 0} → (C → String) → Option (Answer C) → Option C
session_claims subject none = none
session_claims subject (some (accepted c)) = if str_eq (subject c) "" then none else some c
session_claims subject (some (auth_error e)) = none
session_claims subject (some provider_unavailable) = none

-- A user's row of candidates: its id, and whether it is banned.
pub record Account : Type 0 where
  pub id : ℕ
  pub is_banned : Bool

-- The id that Redis keeps for a user, with the end of its TTL.
pub record CachedId : Type 0 where
  pub id : ℕ
  pub expires_at : ℕ

unfoldable pub cached_id : ℕ → Option CachedId → Option ℕ
cached_id now none = none
cached_id now (some c) = if ltb now c.expires_at then some c.id else none

-- _lookup_candidate_id.
unfoldable pub lookup_candidate_id : Option Account → Depends ℕ
lookup_candidate_id none = not_found
lookup_candidate_id (some a) = if a.is_banned then forbidden else provides a.id

-- get_current_candidate, for a user with a subject: whether Redis can be read and written is given.
unfoldable pub get_current_candidate :
    ℕ → Bool → Bool → ℕ → Option Account → Option CachedId → Option CachedId × Depends ℕ
unfolding cached_id lookup_candidate_id
get_current_candidate ttl reads writes now account cache =
    elim (if reads then cached_id now cache else none) [
      | some id ↦ (cache, provides id)
      | none ↦ elim (lookup_candidate_id account) [
        | provides id ↦ (
          if writes then some (record { id = id; expires_at = now + ttl }) else cache,
          provides id,
        )
        | unauthorized ↦ (cache, unauthorized)
        | forbidden ↦ (cache, forbidden)
        | not_found ↦ (cache, not_found)
        | unavailable ↦ (cache, unavailable)
      ]
    ]

-- invalidate_candidate_cache, when Redis answers.
abbrev pub invalidate_candidate_cache : Option CachedId → Option CachedId
invalidate_candidate_cache cache = none

-- require_admin: the subject, and what the admin table says, `none` being a failed query.
unfoldable pub require_admin : String → Option Bool → Depends String
require_admin user is_admin =
    if str_eq user ""
    then forbidden
    else elim is_admin [ none ↦ unavailable | some true ↦ provides user | some false ↦ forbidden ]
