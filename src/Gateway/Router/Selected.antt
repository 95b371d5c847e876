-- ===== src/Gateway/Router/Selected.antt =====
-- Which candidate may serve a request, and in which order the candidates are tried.
use praxis_interview_os.Base.{
  ◌≡◌, refl, Bool, true, false, not, ◌||◌, List, [], ◌∷◌, ◌++◌, Option, none, some, String, arith,
  All, All-append, Bool-cases, Option-cases, str_eq, any, is_empty, inl, inr, subst,
}
use mathlib.Core.List.{Perm, perm_middle}
use mathlib.Core.List.Perm
use praxis_interview_os.Redis.{Redis}
use praxis_interview_os.Gateway.World.{World}
use praxis_interview_os.Gateway.Breaker.{breaker_for, can_execute}
use praxis_interview_os.Gateway.Retries.{
  RetryResult, done, exhausted, cancelled, returned_none, out_of_fuel,
}
use praxis_interview_os.Gateway.Registry.{Provider, lookup, admits, Candidate, Providers, Aliases}
use praxis_interview_os.Gateway.Registry.Selection.{IsSelected, filter_candidates-IsSelected}
use praxis_interview_os.Gateway.Router.{
  RoutingContext, required_capabilities, keep, named, restrict, prefer, select, RouteResult, routed,
  Failures, note_failure, give_up, Outside, paid_checks, conclude, try_candidate, route_candidates,
  route,
}

-- The candidates that a result names satisfy `P`.
abbrev Serves : {A : Type 0} → (Candidate → Type 0) → RouteResult A → Type 0
Serves P (routed c a) = P c
Serves P _ = Unit

module _ (r : Redis) {A : Type 0} (out : Outside A) (ctx : RoutingContext) (method : String)
    (P : Candidate → Type 0) where
  abbrev Rest : Type 0
  Rest = Failures → Option String → World r → World r × RouteResult A

  abbrev RestServes : Rest → Type 0
  RestServes rest = (fs : Failures) (l : Option String) (v : World r) → Serves P (rest fs l v).1

  conclude-Serves :
      (c : Candidate) (fs : Failures) (last : Option String) (q : World r × RetryResult A)
      (rest : Rest)
      → P c
      → RestServes rest
      → Serves P (conclude r out ctx method c fs last q rest).1
  unfolding conclude
  conclude-Serves c fs last (w, done a) rest p more = p
  conclude-Serves (p, config) fs last (w, exhausted cause) rest h more =
      more (note_failure p.name cause fs) (some p.name) w
  conclude-Serves c fs last (w, cancelled) rest p more = tt
  conclude-Serves c fs last (w, returned_none) rest p more = tt
  conclude-Serves c fs last (w, out_of_fuel) rest p more = tt

  try-Serves :
      (c : Candidate) (fs : Failures) (last : Option String) (w : World r) (rest : Rest)
      → P c
      → RestServes rest
      → Serves P (try_candidate r out ctx method c fs last w rest).1
  unfolding try_candidate
  try-Serves (p, config) fs last w rest h more =
      let b = breaker_for p.name method in
      elim (Bool-cases (can_execute r b w).1) [
        | inl go ↦ rw go (conclude-Serves (p, config) fs last _ rest h more)
        | inr no_go ↦ rw no_go (more fs last (can_execute r b w).0)
      ]

  give_up-Serves : (fs : Failures) → Serves P (give_up {A = A} fs)
  unfolding give_up
  give_up-Serves fs = ground arith

  paid_checks-Serves :
      (c : Candidate) (w : World r) (e : RouteResult A)
      → paid_checks r out ctx method c w ≡ some e
      → Serves P e
  unfolding paid_checks
  paid_checks-Serves (p, config) w e h = ground arith

  candidates-Serves :
      (cs : List Candidate) (fs : Failures) (last : Option String) (w : World r)
      → All P cs
      → Serves P (route_candidates r out ctx method cs fs last w).1
  unfolding route_candidates
  candidates-Serves [] fs last w h = give_up-Serves fs
  candidates-Serves (c ∷ cs) fs last w h = elim (Option-cases (paid_checks r out ctx method c w)) [
    | inl e ↦
        rw (e, route_candidates)
          (try-Serves c fs last w _ h.0 (λ gs l v. candidates-Serves cs gs l v h.1))
    | inr (x, e) ↦ rw (e, route_candidates) (paid_checks-Serves c w x e)
  ]

module _ (P : Candidate → Type 0) where
  keep-All : (p : Candidate → Bool) (cs : List Candidate) → All P cs → All P (keep p cs)
  keep-All p [] h = tt
  keep-All p (c ∷ cs) h = ground (arith, keep-All p cs h.1)

  restrict-All :
      (ns : Option (List String)) (cs : List Candidate) → All P cs → All P (restrict ns cs)
  unfolding restrict
  restrict-All none cs h = h
  restrict-All (some ns) cs h = elim (Bool-cases (is_empty ns)) [
    | inl e ↦ rw e h
    | inr e ↦ rw e (keep-All _ cs h)
  ]

  prefer-All : (n : Option String) (cs : List Candidate) → All P cs → All P (prefer n cs)
  unfolding prefer
  prefer-All none cs h = h
  prefer-All (some n) cs h = elim (Bool-cases (str_eq n "")) [
    | inl e ↦ rw e h
    | inr e ↦ rw e (All-append P _ _ (keep-All _ cs h) (keep-All _ cs h))
  ]

keep-test : (p : Candidate → Bool) (cs : List Candidate) → All (λ c. p c ≡ true) (keep p cs)
keep-test p [] = tt
keep-test p (c ∷ cs) = elim (Bool-cases (p c)) [
  | inl e ↦ rw e (e, keep-test p cs)
  | inr e ↦ rw e (keep-test p cs)
]

-- The test by `allowed_providers`.
abbrev pub is_allowed : Option (List String) → Candidate → Bool
is_allowed none c = true
is_allowed (some ns) c = is_empty ns || any (λ n. named n c) ns

restrict-allowed :
    (ns : Option (List String)) (cs : List Candidate)
    → All (λ c. is_allowed ns c ≡ true) (restrict ns cs)
unfolding restrict
restrict-allowed none cs = All-true cs
  where
    All-true : (cs : List Candidate) → All (λ c. true ≡ true) cs
    All-true [] = tt
    All-true (c ∷ cs) = (refl, All-true cs)
restrict-allowed (some ns) cs = elim (Bool-cases (is_empty ns)) [
  | inl e ↦ rw e (All-true cs)
  | inr e ↦ rw e (keep-test (λ c. any (λ n. named n c) ns) cs)
]
  where
    All-true : (cs : List Candidate) → All (λ c. true ≡ true) cs
    All-true [] = tt
    All-true (c ∷ cs) = (refl, All-true cs)

-- A candidate that a request with this context may use.
pub record IsSuitable (providers : Providers) (ctx : RoutingContext) (c : Candidate) : Type 0 where
  pub registered : lookup c.1.provider providers ≡ some c.0
  pub local_if_asked : (not ctx.local_only || c.0.capabilities.is_local) ≡ true
  pub free_if_asked : (not ctx.zero_spend_mode || c.0.capabilities.is_free_tier) ≡ true
  pub allowed : is_allowed ctx.allowed_providers c ≡ true

admitted-free :
    (ctx : RoutingContext) (p : Provider)
    → admits (some (required_capabilities ctx)) ctx.local_only p ≡ true
    → ((not ctx.local_only || p.capabilities.is_local) ≡ true)
      × ((not ctx.zero_spend_mode || p.capabilities.is_free_tier) ≡ true)
unfolding admits required_capabilities
admitted-free ctx p h = (ground arith, ground arith)

join-IsSuitable :
    (providers : Providers) (ctx : RoutingContext) (cs : List Candidate)
    → All (IsSelected providers (some (required_capabilities ctx)) ctx.local_only) cs
    → All (λ c. is_allowed ctx.allowed_providers c ≡ true) cs
    → All (IsSuitable providers ctx) cs
join-IsSuitable providers ctx [] h k = tt
join-IsSuitable providers ctx (c ∷ cs) h k =
    let f = admitted-free ctx c.0 h.0.admitted in
    (
      record {
        registered = h.0.registered;
        local_if_asked = f.0;
        free_if_asked = f.1;
        allowed = k.0;
      },
      join-IsSuitable providers ctx cs h.1 k.1,
    )

pub select-IsSuitable :
    (aliases : Aliases) (task : String) (providers : Providers) (ctx : RoutingContext)
    → All (IsSuitable providers ctx) (select aliases task providers ctx)
unfolding select
select-IsSuitable aliases task providers ctx =
    prefer-All (IsSuitable providers ctx) ctx.preferred_provider _ (
      join-IsSuitable providers ctx _
        (restrict-All _ ctx.allowed_providers _ (
          filter_candidates-IsSelected aliases task providers (some (required_capabilities ctx))
            ctx.local_only))
        (restrict-allowed ctx.allowed_providers _))

routed-Serves :
    {A : Type 0} (P : Candidate → Type 0) (res : RouteResult A) (c : Candidate) (a : A)
    → res ≡ routed c a
    → Serves P res
    → P c
routed-Serves P res c a e h = subst (Serves P) e h

-- A request is served only by a suitable candidate: one that is registered under its configured
-- name, is local if the context asks for local models, is free if it asks for zero spending, and is
-- among the allowed providers if there are any.
pub route-IsSuitable :
    (r : Redis) {A : Type 0} (out : Outside A) (ctx : RoutingContext) (method task : String)
    (aliases : Aliases) (providers : Providers) (w : World r) (c : Candidate) (a : A)
    → (route r out ctx method aliases task providers w).1 ≡ routed c a
    → IsSuitable providers ctx c
unfolding route
route-IsSuitable r out ctx method task aliases providers w c a e =
    routed-Serves (IsSuitable providers ctx) _ c a e (
      candidates-Serves r out ctx method (IsSuitable providers ctx)
        (select aliases task providers ctx) [] none w
        (select-IsSuitable aliases task providers ctx))

keep-perm :
    (p : Candidate → Bool) (cs : List Candidate) → Perm (keep p cs ++ keep (λ c. not (p c)) cs) cs
keep-perm p [] = Perm.refl []
keep-perm p (c ∷ cs) = elim (Bool-cases (p c)) [
  | inl e ↦ rw e (Perm.cons c (keep-perm p cs))
  | inr e ↦ rw e (
      Perm.trans (perm_middle (keep p cs) (keep (λ d. not (p d)) cs))
        (Perm.cons c (keep-perm p cs)))
]

any-keep :
    (p : Candidate → Bool) (cs ds : List Candidate)
    → any p cs ≡ true
    → (c : Candidate) × (rest : List Candidate) × (keep p cs ++ ds ≡ c ∷ rest) × (p c ≡ true)
any-keep p [] ds h = cc
any-keep p (c ∷ cs) ds h = elim (Bool-cases (p c)) [
  | inl e ↦ (c, keep p cs ++ ds, rw e, e)
  | inr e ↦ rw e (any-keep p cs ds (ground arith))
]

-- Preferring a provider loses no candidate and adds none, and if any candidate has the preferred
-- name, the one that is tried first has it.
prefer_first :
    (n : String) (cs : List Candidate)
    → str_eq n "" ≡ false
    → any (named n) cs ≡ true
    → Perm (prefer (some n) cs) cs
      × ((c : Candidate) × (rest : List Candidate) × (prefer (some n) cs ≡ c ∷ rest)
          × (named n c ≡ true))
unfolding prefer
prefer_first n cs e h =
    (rw e (keep-perm (named n) cs), rw e (any-keep (named n) cs (keep (λ c. not (named n c)) cs) h))
