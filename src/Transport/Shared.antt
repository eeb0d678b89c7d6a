-- ===== src/Transport/Shared.antt =====
-- Several transports in one program, each used by one thread: they share the static buffers of
-- `TransmitFrame` and its mutex, so their transmissions come in some order, one at a time.
use midi2pwmv2_libcomm.Common.{
  ℕ, ◌≤◌, ◌≡◌, refl, sym, ap, ◌∙◌, ◌==◌, ==_iff, if◌then◌else◌, true, Bool-cases, inl, inr, some,
  List, [], ◌∷◌, ◌++◌, append_assoc, append-nil, length, All, points,
}
use midi2pwmv2_libcomm.Transport.{max_frame_size, WriteCallback, Statics, FrameTransport, send}
use midi2pwmv2_libcomm.Transport.Frame.{frame}
use midi2pwmv2_libcomm.Transport.Transmit.{IsStatics, turned, turned-IsStatics}
use midi2pwmv2_libcomm.Transport.Sequence.{IsSequence, successor, successor-IsSequence, send-frame}

abbrev update {ℓ} : {A : Type ℓ} → (ℕ → A) → ℕ → A → ℕ → A
update f i a j = if i == j then a else f j

-- What stands on each line.
abbrev pub Wires : Type 0
Wires = ℕ → List ℕ

-- The callback of the transport with number `i`: its own line.
abbrev pub write_on : ℕ → WriteCallback Wires
write_on i bytes w = (true, update w i (w i ++ bytes))

-- Sends in the order in which they get the mutex: who sends, and the payload.
unfoldable pub send_all : (ℕ → FrameTransport Wires) → List (ℕ × List ℕ) → Statics → Wires → Wires
send_all ts [] v w = w
send_all ts ((i, payload) ∷ rest) v w =
    let (sent, t', v', w') = send (ts i) (points payload) v w in
    send_all (update ts i t') rest v' w'

-- The payloads that one transport sends.
abbrev pub payloads_of : ℕ → List (ℕ × List ℕ) → List (List ℕ)
payloads_of j [] = []
payloads_of j ((i, payload) ∷ rest) =
    if i == j then payload ∷ payloads_of j rest else payloads_of j rest

-- Frames with consecutive numbers, one behind the other.
abbrev pub frames_from : ℕ → List (List ℕ) → List ℕ
frames_from n [] = []
frames_from n (payload ∷ rest) = frame n payload ++ frames_from (successor n) rest

-- A transport on its own line, with a valid number next.
pub record IsOn (i : ℕ) (t : FrameTransport Wires) : Type 0 where
  pub writes : t.write ≡ some (write_on i)
  pub valid : IsSequence t.next_sequence

module _ (ts : ℕ → FrameTransport Wires) (i : ℕ) where
  abbrev advanced : FrameTransport Wires
  advanced = record (ts i) { next_sequence = successor (ts i).next_sequence }

  update-IsOn : ((j : ℕ) → IsOn j (ts j)) → (j : ℕ) → IsOn j (update ts i advanced j)
  update-IsOn h j = elim (Bool-cases (i == j)) [
    | inl same ↦ rw same (record {
      writes = (h i).writes ∙ ap (λ k. some (write_on k)) ((==_iff i j).0 same);
      valid = successor-IsSequence (ts i).next_sequence;
    })
    | inr other ↦ rw other (h j)
  ]

-- Any number of transports, each with a line of its own, send payloads of at most 4096 bytes in any order
-- over the shared static buffers: on each line then stand, behind what was there, the frames of exactly
-- the payloads that its transport was given, in their order and numbered consecutively from its own next
-- number.
pub send_all-frames :
    (ts : ℕ → FrameTransport Wires) (sends : List (ℕ × List ℕ)) (v : Statics) (w : Wires) (j : ℕ)
    → ((i : ℕ) → IsOn i (ts i))
    → IsStatics v
    → All (λ s. length s.1 ≤ max_frame_size) sends
    → send_all ts sends v w j ≡ w j ++ frames_from (ts j).next_sequence (payloads_of j sends)
unfolding send_all
send_all-frames ts [] v w j h statics small = sym (append-nil (w j))
send_all-frames ts ((i, payload) ∷ rest) v w j h statics small =
    let n : ℕ = (ts i).next_sequence in
    let later =
      send_all-frames (update ts i (advanced ts i)) rest (turned n payload v)
        (update w i (w i ++ frame n payload)) j (update-IsOn ts i h)
        (turned-IsStatics n payload v statics small.0) small.1 in
    rw
      (
        send-frame (ts i) (write_on i) payload v w ((h i).writes) ((h i).valid) statics small.0,
        send_all,
      )
      (later ∙ elim (Bool-cases (i == j)) [
        | inl same ↦
            let e : i ≡ j = (==_iff i j).0 same in
            rw (same, append_assoc (w i) (frame n payload) _)
              (ap
                (λ k.
                  w k
                  ++ (frame (ts k).next_sequence payload
                      ++ frames_from (successor (ts k).next_sequence) (payloads_of j rest)))
                e)
        | inr other ↦ rw other refl
      ])
