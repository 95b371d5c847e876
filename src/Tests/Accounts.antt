-- ===== src/Tests/Accounts.antt =====
-- Runs of the backend's checks on tokens, accounts and uploads, and of what it keeps of a candidate.
use praxis_interview_os.Base.{
  ℕ, ◌≤◌, ◌≡◌, refl, true, false, List, [], ◌∷◌, Option, none, some, String, arith, length, str_eq,
  if◌then◌else◌,
}
use praxis_interview_os.Backend.Auth.{
  Key, Header, public_key, claims, expired, Jwt, Settings, State, verify_jwt,
}
use praxis_interview_os.Backend.Auth.Accepted.{HeaderVerified, accepted_verified}
use praxis_interview_os.Backend.Auth.Refresh.{IsSpaced, verify_all, refreshes-IsSpaced}
use praxis_interview_os.Backend.Principal.{forbidden, get_current_candidate}
use praxis_interview_os.Backend.Principal.Suspension.{after_requests, suspension_takes_effect}
use praxis_interview_os.Backend.CandidateMemory.{
  Turn, TopicFacts, proficient, Inference, knowledge_gap, high, generate_inferences,
}
use praxis_interview_os.Backend.CandidateMemory.Inferences.{
  IsUnique, AreSettled, inferences_consistent,
}
use praxis_interview_os.Backend.Uploads.Filename.{splitext, lower}
use praxis_interview_os.Backend.Uploads.{
  after_slash, Mime, txt, extension_type, declares, ValidatedUpload, validate_resume_upload,
}
use praxis_interview_os.Backend.Uploads.Names.{AreSafe, BeginsWell}
use praxis_interview_os.Backend.Uploads.Accepted.{bytes_of, IsAgreed, accepted-IsAgreed}

-- A token is its key's id, and is signed with the key of that name.
abbrev jwt : Jwt String String String
jwt = record {
  is_wellformed = λ t. true;
  get_unverified_header = λ t. some (record { alg = some "ES256"; kid = some t });
  jwk_key = λ k alg. public_key k;
  decode = λ t k asked. if str_eq t k then claims t else expired;
  subject = λ c. c;
}

abbrev settings : Settings String String
settings = record {
  jwt_audience = "authenticated";
  jwt_issuer = none;
  jwt_leeway = 30;
  dev_bypass = none;
  verifier_configured = true;
  jwt_secret = none;
  supabase_url = some "https://p.supabase.co";
  jwks_cache_ttl = 600;
  refresh_cooldown = 30;
}

abbrev published : List (Key String)
published = record { kid = some "k1"; alg = some "ES256"; material = "k1" } ∷ []

abbrev started : State String
started = record {
  memory = none;
  last_forced_refresh = 0;
  redis = none;
  lock_until = 0;
  forced = [];
}

accepted_verified_example :
    (h : Header) × (jwt.get_unverified_header "k1" ≡ some h)
    × HeaderVerified jwt settings (some published) true 100 "k1" h started "k1"
unfolding verify_jwt
accepted_verified_example =
    accepted_verified jwt settings (some published) true 100 "k1" started "k1" refl refl

abbrev unknown_tokens : List (ℕ × String × Option (List (Key String)))
unknown_tokens = (100, "k2", some published) ∷ (110, "k3", some published) ∷ (135, "k4", none) ∷ []

refreshes-IsSpaced_example :
    IsSpaced 30 (verify_all jwt settings true unknown_tokens started).forced
refreshes-IsSpaced_example =
    refreshes-IsSpaced jwt settings true unknown_tokens started (omega arith) refl

-- Two of the three tokens are let through to the endpoint.
unknown_refreshed : (verify_all jwt settings true unknown_tokens started).forced ≡ 135 ∷ 100 ∷ []
unfolding verify_jwt
unknown_refreshed = refl

suspension_takes_effect_example :
    (get_current_candidate 60 true true 100
      (some (record { id = 4; is_banned = true }))
      (after_requests 60
        (record { id = 4; is_banned = true })
        40
        ((10, true, true) ∷ [])
        (after_requests 60
          (record { id = 4; is_banned = false })
          0
          ((5, true, true) ∷ (35, false, true) ∷ [])
          none).1).1).1
    ≡ forbidden
unfolding get_current_candidate
suspension_takes_effect_example =
    suspension_takes_effect 60 4 100 ((5, true, true) ∷ (35, false, true) ∷ [])
      ((10, true, true) ∷ []) true true (omega arith)

abbrev facts : List TopicFacts
facts =
    record {
      domain_code = "sql";
      sessions_practiced = 3;
      questions_answered = 4;
      correct_count = 4;
      weak_count = 0;
      avg_correctness = 7_500;
      mastery_status = proficient;
    }
    ∷ []

abbrev inferences : List Inference
inferences =
    record {
      domain_code = "sql";
      inference_type = knowledge_gap;
      confidence = high;
      is_active = true;
    }
    ∷ []

inferences_consistent_example :
    IsUnique (generate_inferences facts inferences)
    × AreSettled (generate_inferences facts inferences) facts
inferences_consistent_example =
    inferences_consistent facts inferences (tt, tt) (λ d t. ((λ e. tt), tt))

abbrev sessions : List (List Turn)
sessions =
    (record { domain_code = some "sql"; correctness = 400 }
      ∷ record { domain_code = none; correctness = 900 }
      ∷ [])
    ∷ (record { domain_code = some "sql"; correctness = 800 } ∷ [])
    ∷ []

-- "Hi", as the file "../cv.TXT".
abbrev cv : ValidatedUpload
cv = record {
  data_ = 72 ∷ 105 ∷ [];
  mime_type = txt;
  safe_filename = 99 ∷ 118 ∷ 46 ∷ 116 ∷ 120 ∷ 116 ∷ [];
  size = 2;
}

abbrev cv_name : List ℕ
cv_name = 46 ∷ 46 ∷ 47 ∷ 99 ∷ 118 ∷ 46 ∷ 84 ∷ 88 ∷ 84 ∷ []

abbrev cv_chunks : List (List ℕ)
cv_chunks = (72 ∷ []) ∷ (105 ∷ []) ∷ []

accepted-IsAgreed_example :
    (expected : Mime) × (extension_type (lower (splitext (after_slash [] cv_name)).1)
      ≡ some expected)
    × IsAgreed (λ bs. false) (λ s. s) 10 cv_name (declares txt) (bytes_of cv_chunks) expected cv
    × (2 ≤ 10)
    × AreSafe cv.safe_filename
    × BeginsWell cv.safe_filename
    × (length cv.safe_filename ≤ 110)
unfolding validate_resume_upload
accepted-IsAgreed_example =
    accepted-IsAgreed (λ bs. false) (λ s. s) 10 cv_name (declares txt) cv_chunks cv refl
