-- ===== src/Realtime/Frames/Sequence.antt =====
-- Sequences of binary frames: what the receive loop lets through.
use praxis_interview_os.Base.{
  ℕ, ◌%◌, ◌≤◌, ◌<◌, ◌≡◌, subst, ◌⊎◌, inl, inr, false, List, [], ◌∷◌, Option, none, some, arith,
  length, drop,
}
use praxis_interview_os.Realtime.Frames.{
  Header, unpack, check_payload, FrameResult, accepted, refused, is_stale, receive_frame,
}

-- The accepted frames of a connection, in order.
abbrev pub received : Option ℕ → List (List ℕ) → List (ℕ × List ℕ)
received last [] = []
received last (raw ∷ raws) =
    let rest = received (receive_frame last raw).0 raws in
    elim ((receive_frame last raw).1) [ accepted n pcm ↦ (n, pcm) ∷ rest | refused e ↦ rest ]

abbrev pub IsNew : Option ℕ → ℕ → Type 0
IsNew none n = Unit
IsNew (some last) n = last < n

-- At most a mebibyte of whole samples.
abbrev pub IsPcm : List ℕ → Type 0
IsPcm pcm = (length pcm ≤ 1_048_576) × (length pcm % 2 ≡ 0)

-- The numbers rise from the last one on, and the payloads are PCM.
abbrev pub Rises : Option ℕ → List (ℕ × List ℕ) → Type 0
Rises last [] = Unit
Rises last ((n, pcm) ∷ rest) = IsNew last n × IsPcm pcm × Rises (some n) rest

abbrev Step : Option ℕ → Option ℕ × FrameResult → Type 0
Step last (l, accepted n pcm) = (l ≡ some n) × IsNew last n × IsPcm pcm
Step last (l, refused e) = (l ≡ last) ⊎ ((n : ℕ) × (l ≡ some n) × IsNew last n)

is_stale-IsNew : (last : Option ℕ) (n : ℕ) → is_stale last n ≡ false → IsNew last n
is_stale-IsNew none n h = tt
is_stale-IsNew (some l) n h = ground arith

check_payload-Step :
    (last : Option ℕ) (h : Header) (pcm : List ℕ)
    → IsNew last h.client_seq
    → Step last (some h.client_seq, check_payload h pcm)
unfolding check_payload
check_payload-Step last h pcm new = ground (arith, new)

receive_frame-Step : (last : Option ℕ) (raw : List ℕ) → Step last (receive_frame last raw)
unfolding receive_frame
receive_frame-Step last raw =
    let h = unpack raw in
    ground (arith, is_stale-IsNew last h.client_seq, check_payload-Step last h (drop 18 raw))

Rises-from :
    (last : Option ℕ) (m : ℕ) (xs : List (ℕ × List ℕ))
    → IsNew last m
    → Rises (some m) xs
    → Rises last xs
Rises-from last m [] new h = tt
Rises-from none m (x ∷ xs) new h = (tt, h.1, h.2)
Rises-from (some l) m ((n, pcm) ∷ xs) new h = (omega (arith, new, h.0), h.1, h.2)

Step-Rises :
    (last : Option ℕ) (v : Option ℕ × FrameResult) (xs : List (ℕ × List ℕ))
    → Step last v
    → Rises v.0 xs
    → Rises last (elim v.1 [ accepted n pcm ↦ (n, pcm) ∷ xs | refused e ↦ xs ])
Step-Rises last (l, accepted n pcm) xs step h = (step.1, step.2, subst (λ k. Rises k xs) step.0 h)
Step-Rises last (l, refused e) xs (inl same) h = subst (λ k. Rises k xs) same h
Step-Rises last (l, refused e) xs (inr (n, at_n, new)) h =
    Rises-from last n xs new (subst (λ k. Rises k xs) at_n h)

-- However malformed, duplicated or out of order the frames of a connection are, the numbers of those
-- that are accepted rise, from above the last number received before them, and each of their payloads
-- has an even number of bytes and at most 1 MiB.
pub received-Rises : (last : Option ℕ) (raws : List (List ℕ)) → Rises last (received last raws)
received-Rises last [] = tt
received-Rises last (raw ∷ raws) =
    let v = receive_frame last raw in
    Step-Rises last v (received v.0 raws) (receive_frame-Step last raw) (received-Rises v.0 raws)
