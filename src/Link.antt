-- ===== src/Link.antt =====
-- `FrameTransport` at one end of a byte link and `StreamProcessor` at the other: Send of
-- src/frame_transport.cpp and feed of src/stream_processor.cpp together.
pub mod Threads
mod Examples
use midi2pwmv2_libcomm.Common.{
  ℕ, suc, ◌+◌, ◌≤◌, ◌<◌, ◌≡◌, refl, sym, ap, ◌∙◌, arith, true, Option, some, List, [], ◌∷◌, ◌++◌,
  append_assoc, append-nil, length, take, All, IsByte,
}
use midi2pwmv2_libcomm.Transport.{max_frame_size, WriteCallback, Statics, FrameTransport}
use midi2pwmv2_libcomm.Transport.Frame.{frame, length-frame}
use midi2pwmv2_libcomm.Transport.Transmit.{IsStatics}
use midi2pwmv2_libcomm.Transport.Sequence.{
  IsSequence, successor, send_each, write_each, send_each-frames,
}
use midi2pwmv2_libcomm.Transport.Receive.{IsSizeModulus}
use midi2pwmv2_libcomm.Stream.{FrameCallback, StreamProcessor}
use midi2pwmv2_libcomm.Stream.Pending.{pending, IsProcessor}
use midi2pwmv2_libcomm.Stream.Refine.{Kept}
use midi2pwmv2_libcomm.Stream.Deliver.{IsSendable, frame_of, stream, deliver_each}
use midi2pwmv2_libcomm.Stream.Feed.{IsBehind}
use midi2pwmv2_libcomm.Stream.Chunks.{feed_each, joined, IsUpTo, IsChunk, feed_each-stream}

-- The link: what is written is put behind what is on the way.
abbrev pub put_on_wire : WriteCallback (List ℕ)
put_on_wire bytes wire = (true, wire ++ bytes)

-- A payload of at most `largest` bytes.
pub record IsPayload (largest : ℕ) (payload : List ℕ) : Type 0 where
  pub bounded : length payload ≤ largest
  pub bytes : All IsByte payload

-- The payloads handed to the callback in order.
abbrev pub hand_over : {S : Type 0} → FrameCallback S → List (List ℕ) → S → S
hand_over callback [] s = s
hand_over callback (payload ∷ rest) s = hand_over callback rest (callback payload s)

abbrev numbered : ℕ → List (List ℕ) → List (ℕ × List ℕ)
numbered n [] = []
numbered n (payload ∷ rest) = (n, payload) ∷ numbered (successor n) rest

write_each-stream :
    (n : ℕ) (payloads : List (List ℕ)) (wire : List ℕ)
    → write_each put_on_wire n payloads wire ≡ wire ++ stream (numbered n payloads)
unfolding write_each
write_each-stream n [] wire = sym (append-nil wire)
write_each-stream n (payload ∷ rest) wire =
    write_each-stream (successor n) rest (wire ++ frame n payload)
    ∙ append_assoc wire (frame n payload) (stream (numbered (successor n) rest))

deliver_each-numbered :
    {S : Type 0} (callback : FrameCallback S) (n : ℕ) (payloads : List (List ℕ)) (s : S)
    → deliver_each callback (numbered n payloads) s ≡ hand_over callback payloads s
deliver_each-numbered callback n [] s = refl
deliver_each-numbered callback n (payload ∷ rest) s =
    deliver_each-numbered callback (successor n) rest (callback payload s)

numbered-IsUpTo :
    (largest n : ℕ) (payloads : List (List ℕ))
    → largest ≤ max_frame_size
    → All (IsPayload largest) payloads
    → All (IsUpTo largest) (numbered n payloads)
numbered-IsUpTo largest n [] small h = tt
numbered-IsUpTo largest n (payload ∷ rest) small h = (
  record {
    sendable = record { small = omega (arith, h.0.bounded); bytes = h.0.bytes };
    bounded = h.0.bounded;
  },
  numbered-IsUpTo largest (successor n) rest small h.1,
)

payloads-small :
    (largest : ℕ) (payloads : List (List ℕ))
    → largest ≤ max_frame_size
    → All (IsPayload largest) payloads
    → All (λ payload. length payload ≤ max_frame_size) payloads
payloads-small largest [] small h = tt
payloads-small largest (payload ∷ rest) small h =
    (omega (arith, h.0.bounded), payloads-small largest rest small h.1)

nothing-IsBehind : (n : ℕ) (payloads : List (List ℕ)) → IsBehind [] (numbered n payloads)
nothing-IsBehind n [] = refl
nothing-IsBehind n (payload ∷ rest) = omega (arith, length-frame n payload)

-- Payloads of at most `largest` bytes, itself at most 4096, are sent one after the other by a transport
-- whose callback puts the frames on a byte link, and the bytes that come out, cut anywhere into chunks
-- that leave room for all but a byte of the largest frame, are fed to a sound processor that holds nothing:
-- its callback gets exactly the payloads, in order and once each, no error is reported, and nothing is held
-- at the end.
pub feed_each-send_each :
    {S : Type 0} (m largest : ℕ) (t : FrameTransport (List ℕ)) (v : Statics)
    (payloads cs : List (List ℕ)) (callback : FrameCallback S) (p : StreamProcessor S) (s : S)
    → IsSizeModulus m
    → largest ≤ max_frame_size
    → t.write ≡ some put_on_wire
    → IsSequence t.next_sequence
    → IsStatics v
    → All (IsPayload largest) payloads
    → All (IsChunk largest) cs
    → joined cs ≡ (send_each t payloads v []).2
    → IsProcessor p
    → p.frame_callback ≡ some callback
    → pending p ≡ []
    → (q : StreamProcessor S) × (feed_each m cs p s ≡ some (q, hand_over callback payloads s))
      × (pending q ≡ [])
      × Kept p q
feed_each-send_each m largest t v payloads cs callback p s wide small set valid statics hp hc wire h
      registered empty =
    let n : ℕ = t.next_sequence in
    let (written, _) =
      send_each-frames put_on_wire t payloads v [] set valid statics
        (payloads-small largest payloads small hp) in
    let arrived : pending p ++ joined cs ≡ stream (numbered n payloads) =
      ap (λ xs. xs ++ joined cs) empty ∙ wire ∙ written ∙ write_each-stream n payloads [] in
    let (q, fed, left, kept) =
      feed_each-stream m largest callback cs (numbered n payloads) p s wide h registered hc
        (numbered-IsUpTo largest n payloads small hp) (rw empty (nothing-IsBehind n payloads))
        arrived in
    (q, fed ∙ ap (λ u. some (q, u)) (deliver_each-numbered callback n payloads s), left, kept)
