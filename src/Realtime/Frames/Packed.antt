-- ===== src/Realtime/Frames/Packed.antt =====
-- What a client packs is what the receive loop reads.
use praxis_interview_os.Base.{
  ℕ, ◌/◌, ◌%◌, ◌<◌, ◌≡◌, List, [], ◌∷◌, ◌++◌, Option, some, arith, length,
}
use praxis_interview_os.Realtime.Frames.{big_endian, unpack, check_payload, accepted, receive_frame}
use praxis_interview_os.Realtime.Frames.Sequence.{IsNew, IsPcm}

-- Four bytes in network order.
abbrev pub word : ℕ → List ℕ
word n = n / 16_777_216 % 256 ∷ n / 65_536 % 256 ∷ n / 256 % 256 ∷ n % 256 ∷ []

-- Version and type 1, the number, the two halves of the capture time, the length, the payload.
abbrev pub pack : ℕ → ℕ → ℕ → List ℕ → List ℕ
pack n high low pcm = 1 ∷ 1 ∷ (word n ++ word high ++ word low ++ word (length pcm) ++ pcm)

word_read : (n : ℕ) → n < 4_294_967_296 → big_endian 0 (word n) ≡ n
word_read n small = omega (arith, small)

-- A frame with a new number below 2^32, packed as the protocol says, is accepted with that number and
-- its payload, whatever the capture time is.
pub pack-receive_frame :
    (last : Option ℕ) (n high low : ℕ) (pcm : List ℕ)
    → IsNew last n
    → n < 4_294_967_296
    → IsPcm pcm
    → receive_frame last (pack n high low pcm) ≡ (some n, accepted n pcm)
unfolding receive_frame unpack check_payload
pack-receive_frame last n high low pcm new small ok =
    ground (arith, word_read n small, word_read (length pcm) (omega (arith, ok.0)), ok.1, new)
