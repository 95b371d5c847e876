-- ===== src/Gateway/Registry/Selection.antt =====
-- What a selected candidate satisfies.
use praxis_interview_os.Base.{
  ◌≡◌, refl, inl, inr, Bool, true, List, [], ◌∷◌, Option, none, some, String, All, Bool-cases,
}
use praxis_interview_os.Gateway.Registry.{
  Capabilities, Config, Provider, lookup, candidates_for, admits, Candidate, Providers, Aliases,
  consider, filter_configs, filter_candidates,
}

-- What a candidate was selected for.
pub record IsSelected (providers : Providers) (wanted : Option Capabilities) (local_only : Bool)
    (c : Candidate) : Type 0 where
  pub registered : lookup c.1.provider providers ≡ some c.0
  pub admitted : admits wanted local_only c.0 ≡ true

consider-IsSelected :
    (providers : Providers) (wanted : Option Capabilities) (local_only : Bool) (config : Config)
    (o : Option Provider) (rest : List Candidate)
    → lookup config.provider providers ≡ o
    → All (IsSelected providers wanted local_only) rest
    → All (IsSelected providers wanted local_only) (consider wanted local_only config o rest)
unfolding consider
consider-IsSelected providers wanted local_only config none rest e h = h
consider-IsSelected providers wanted local_only config (some p) rest e h =
    elim (Bool-cases (admits wanted local_only p)) [
      | inl ok ↦ rw ok (record { registered = e; admitted = ok }, h)
      | inr no_ok ↦ rw no_ok h
    ]

filter_configs-IsSelected :
    (providers : Providers) (wanted : Option Capabilities) (local_only : Bool) (cs : List Config)
    → All (IsSelected providers wanted local_only) (filter_configs providers wanted local_only cs)
unfolding filter_configs
filter_configs-IsSelected providers wanted local_only [] = tt
filter_configs-IsSelected providers wanted local_only (c ∷ cs) =
    consider-IsSelected providers wanted local_only c (lookup c.provider providers) _ refl
      (filter_configs-IsSelected providers wanted local_only cs)

-- Every candidate that filter_candidates returns is a registered provider under the name that its
-- configuration gives, and passes the locality test and the required capabilities.
pub filter_candidates-IsSelected :
    (aliases : Aliases) (task : String) (providers : Providers) (wanted : Option Capabilities)
    (local_only : Bool)
    → All
        (IsSelected providers wanted local_only)
        (filter_candidates aliases task providers wanted local_only)
unfolding filter_candidates
filter_candidates-IsSelected aliases task providers wanted local_only =
    filter_configs-IsSelected providers wanted local_only (candidates_for aliases task)
