-- ===== src/Realtime/Frames.antt =====
-- main.py, _run_session: the guards of the receive loop on a binary frame, which is a list of bytes.
-- A refused frame is answered by one `session.error`, and the loop goes on. The capture time in the
-- header is not read.
pub mod Sequence
pub mod Packed
use praxis_interview_os.Base.{
  ℕ, ◌+◌, ◌*◌, ◌%◌, Bool, true, false, not, List, [], ◌∷◌, Option, none, some, ltb, leb, ◌==◌,
  length, take, drop, if◌then◌else◌,
}

-- An unsigned integer in network order: the bytes behind those that make `acc`.
abbrev pub big_endian : ℕ → List ℕ → ℕ
big_endian acc [] = acc
big_endian acc (b ∷ bs) = big_endian (acc * 256 + b) bs

pub record Header : Type 0 where
  pub proto_ver : ℕ
  pub frame_type : ℕ
  pub client_seq : ℕ
  pub payload_len : ℕ

-- `struct.unpack(">BBIdI", raw_bytes[:18])`.
unfoldable pub unpack : List ℕ → Header
unpack raw = record {
  proto_ver = big_endian 0 (take 1 raw);
  frame_type = big_endian 0 (take 1 (drop 1 raw));
  client_seq = big_endian 0 (take 4 (drop 2 raw));
  payload_len = big_endian 0 (take 4 (drop 14 raw));
}

-- The errors that are sent, by their order in the code; the first, the sixth and the last share a code.
pub data FrameError : Type 0 where
  frame_too_small unsupported_protocol invalid_frame_type out_of_order_sequence : FrameError
  oversized_frame length_mismatch odd_length : FrameError

-- An accepted frame is acknowledged with its number, and its payload goes to the recognizer.
pub data FrameResult : Type 0 where
  accepted : ℕ → List ℕ → FrameResult
  refused : FrameError → FrameResult

-- `last_client_seq is not None and client_seq <= last_client_seq`.
abbrev pub is_stale : Option ℕ → ℕ → Bool
is_stale none n = false
is_stale (some last) n = leb n last

-- The guards on the payload.
unfoldable pub check_payload : Header → List ℕ → FrameResult
check_payload h pcm =
    if ltb 1_048_576 h.payload_len
    then refused oversized_frame
    else (if not (length pcm == h.payload_len)
        then refused length_mismatch
        else (if not (length pcm % 2 == 0) then refused odd_length else accepted h.client_seq pcm))

-- One binary frame, with `last_client_seq` before and after it: it is set before the payload is looked
-- at.
unfoldable pub receive_frame : Option ℕ → List ℕ → Option ℕ × FrameResult
unfolding unpack check_payload
receive_frame last raw =
    let h = unpack raw in
    if ltb (length raw) 18
    then (last, refused frame_too_small)
    else (if not (h.proto_ver == 1)
        then (last, refused unsupported_protocol)
        else (if not (h.frame_type == 1)
            then (last, refused invalid_frame_type)
            else (if is_stale last h.client_seq
                then (last, refused out_of_order_sequence)
                else (some h.client_seq, check_payload h (drop 18 raw)))))
