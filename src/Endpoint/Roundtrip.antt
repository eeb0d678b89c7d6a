-- ===== src/Endpoint/Roundtrip.antt =====
-- A message from one endpoint's `Send` to the other's `HandleIncoming`.
use midi2pwmv2_libcomm.Common.{
  ℕ, ◌≤◌, ◌≡◌, refl, ap, ◌∙◌, arith, ◌==◌, Bool, false, some, List, length, points,
}
use midi2pwmv2_libcomm.Transport.{
  max_frame_size, FrameTransport, Statics, WriteCallback, send, handle_incoming,
}
use midi2pwmv2_libcomm.Transport.Frame.{frame}
use midi2pwmv2_libcomm.Transport.Transmit.{IsStatics}
use midi2pwmv2_libcomm.Transport.Sequence.{IsSequence, send-frame}
use midi2pwmv2_libcomm.Transport.Receive.{IsSizeModulus, handle_incoming-frame}
use midi2pwmv2_libcomm.Endpoint.{Schema, Carries, open_frame}

module _ {S P : Type 0} (schema : Schema P) (p : P) (h : Carries schema p) where
  -- A finished buffer gets through the tests of `HandleFrame` to the message that was written.
  pub open_frame-serialize :
      (dispatch : P → S → Bool × S) (s : S)
      → open_frame schema dispatch (points (schema.serialize p)) s ≡ dispatch p s
  unfolding open_frame
  open_frame-serialize dispatch s =
      let full : (length (schema.serialize p) == 0) ≡ false = ground (arith, h.written) in
      rw full (rw (h.identified) (rw (h.verified) (rw (h.read_back) refl)))

  -- The bytes of a frame around a finished buffer, received.
  pub handle_incoming-serialize :
      (m n : ℕ) (dispatch : P → S → Bool × S) (s : S)
      → IsSizeModulus m
      → length (schema.serialize p) ≤ max_frame_size
      → handle_incoming m
          (points (frame n (schema.serialize p)))
          (some (λ payload t. open_frame schema dispatch (points payload) t))
          s
        ≡ dispatch p s
  handle_incoming-serialize m n dispatch s wide small =
      handle_incoming-frame m (λ payload t. open_frame schema dispatch (points payload) t) s n
        (schema.serialize p) wide (omega arith) (h.bytes)
      ∙ open_frame-serialize dispatch s

-- A write callback that hands the frame straight to a receiver.
abbrev pub wire : {S : Type 0} → (List ℕ → S → Bool × S) → WriteCallback S
wire receive bytes s = receive bytes s

-- A message sent by a transport whose write callback is the receiver's `HandleIncoming`: `Send` answers
-- as the receiver's switch does on that very message.
pub send-dispatch :
    {S P : Type 0} (schema : Schema P) (m : ℕ) (dispatch : P → S → Bool × S) (t : FrameTransport S)
    (p : P) (v : Statics) (s : S)
    → Carries schema p
    → IsSizeModulus m
    → t.write
      ≡ some (
          wire (λ bytes u.
            handle_incoming m
              (points bytes)
              (some (λ payload r. open_frame schema dispatch (points payload) r))
              u))
    → IsSequence t.next_sequence
    → IsStatics v
    → length (schema.serialize p) ≤ max_frame_size
    → ((send t (points (schema.serialize p)) v s).0 ≡ (dispatch p s).0)
      × ((send t (points (schema.serialize p)) v s).3 ≡ (dispatch p s).1)
send-dispatch schema m dispatch t p v s h wide set valid statics small =
    let received = handle_incoming-serialize schema p h m t.next_sequence dispatch s wide small in
    let sent = send-frame t _ (schema.serialize p) v s set valid statics small in
    (ap (λ r. r.0) sent ∙ ap (λ r. r.0) received, ap (λ r. r.3) sent ∙ ap (λ r. r.1) received)
