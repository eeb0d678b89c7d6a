-- ===== src/Endpoint/Wire.antt =====
-- Messages over a byte link: `Send` of an endpoint at one end, and at the other a `StreamProcessor`
-- whose frame callback is the `HandleFrame` of an endpoint.
use midi2pwmv2_libcomm.Common.{
  ℕ, ◌≤◌, ◌≡◌, refl, ap, ◌∙◌, Bool, some, List, [], ◌∷◌, map, length, All, points,
}
use midi2pwmv2_libcomm.Transport.{max_frame_size, FrameTransport, Statics}
use midi2pwmv2_libcomm.Transport.Transmit.{IsStatics}
use midi2pwmv2_libcomm.Transport.Sequence.{IsSequence, send_each}
use midi2pwmv2_libcomm.Transport.Receive.{IsSizeModulus}
use midi2pwmv2_libcomm.Stream.{FrameCallback, StreamProcessor}
use midi2pwmv2_libcomm.Stream.Pending.{pending, IsProcessor}
use midi2pwmv2_libcomm.Stream.Refine.{Kept}
use midi2pwmv2_libcomm.Stream.Chunks.{feed_each, joined, IsChunk}
use midi2pwmv2_libcomm.Link.{put_on_wire, IsPayload, hand_over, feed_each-send_each}
use midi2pwmv2_libcomm.Endpoint.{Schema, Carries, open_frame}
use midi2pwmv2_libcomm.Endpoint.Roundtrip.{open_frame-serialize}

module _ {P : Type 0} (schema : Schema P) where
  -- A message whose buffer has at most `largest` bytes.
  pub record IsMessage (largest : ℕ) (p : P) : Type 0 where
    pub carries : Carries schema p
    pub bounded : length (schema.serialize p) ≤ largest

  messages-IsPayload :
      (largest : ℕ) (ps : List P)
      → All (IsMessage largest) ps
      → All (IsPayload largest) (map schema.serialize ps)
  messages-IsPayload largest [] h = tt
  messages-IsPayload largest (p ∷ ps) h = (
    record { bounded = h.0.bounded; bytes = h.0.carries.bytes },
    messages-IsPayload largest ps h.1,
  )

  module _ {S : Type 0} (dispatch : P → S → Bool × S) where
    -- A frame callback that calls `HandleFrame`; its answer is not looked at.
    abbrev pub frame_handler : FrameCallback S
    frame_handler payload s = (open_frame schema dispatch (points payload) s).1

    -- The switch of `HandleFrame` on each message in turn.
    abbrev pub dispatch_each : List P → S → S
    dispatch_each [] s = s
    dispatch_each (p ∷ ps) s = dispatch_each ps (dispatch p s).1

    hand_over-messages :
        (largest : ℕ) (ps : List P) (s : S)
        → All (IsMessage largest) ps
        → hand_over frame_handler (map schema.serialize ps) s ≡ dispatch_each ps s
    hand_over-messages largest [] s h = refl
    hand_over-messages largest (p ∷ ps) s h =
        ap (hand_over frame_handler (map schema.serialize ps))
          (ap (λ r. r.1) (open_frame-serialize schema p h.0.carries dispatch s))
        ∙ hand_over-messages largest ps (dispatch p s).1 h.1

    -- Messages sent one after the other by a transport whose callback puts the frames on a byte link, and
    -- the bytes fed, in chunks cut anywhere that leave room for all but a byte of the largest frame, to a
    -- sound processor that holds nothing and whose frame callback is `HandleFrame`: the switch is run on
    -- exactly the messages that were sent, in order and once each, no error is reported, and nothing is
    -- held at the end.
    pub feed_each-dispatch :
        (m largest : ℕ) (t : FrameTransport (List ℕ)) (v : Statics) (ps : List P)
        (cs : List (List ℕ)) (p : StreamProcessor S) (s : S)
        → IsSizeModulus m
        → largest ≤ max_frame_size
        → t.write ≡ some put_on_wire
        → IsSequence t.next_sequence
        → IsStatics v
        → All (IsMessage largest) ps
        → All (IsChunk largest) cs
        → joined cs ≡ (send_each t (map schema.serialize ps) v []).2
        → IsProcessor p
        → p.frame_callback ≡ some frame_handler
        → pending p ≡ []
        → (q : StreamProcessor S) × (feed_each m cs p s ≡ some (q, dispatch_each ps s))
          × (pending q ≡ [])
          × Kept p q
    feed_each-dispatch m largest t v ps cs p s wide small set valid statics hp hc wire h registered
          empty =
        let (q, fed, left, kept) =
          feed_each-send_each m largest t v (map schema.serialize ps) cs frame_handler p s wide
            small set valid statics (messages-IsPayload largest ps hp) hc wire h registered empty in
        (q, fed ∙ ap (λ u. some (q, u)) (hand_over-messages largest ps s hp), left, kept)
