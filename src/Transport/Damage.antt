-- ===== src/Transport/Damage.antt =====
-- Frames that are damaged on the way.
use midi2pwmv2_libcomm.Common.{
  ℕ, ◌≤◌, ◌≡◌, ◌≢◌, ◌∙◌, sym, ap, inl, inr, false, Option, List, ◌++◌, length, points, IsByte, All,
  All-append, All-take, All-drop,
}
use midi2pwmv2_libcomm.Crc.{compute_crc32}
use midi2pwmv2_libcomm.Crc.Detect.{residue, compute_crc32-residue, burst_detected}
use midi2pwmv2_libcomm.Transport.{DataHandler, handle_incoming}
use midi2pwmv2_libcomm.Transport.Frame.{frame, body, body-IsByte, frame-body}
use midi2pwmv2_libcomm.Transport.Receive.{
  IsSizeModulus, IsAccepted, received_payload, accepted-frame, handle_incoming_cases,
}

compute_crc32-frame :
    (n : ℕ) (payload : List ℕ) → All IsByte payload → compute_crc32 (frame n payload) ≡ residue
compute_crc32-frame n payload h =
    ap compute_crc32 (frame-body n payload)
    ∙ compute_crc32-residue (body n payload) (body-IsByte n payload h)

-- All accepted byte lists have the same CRC.
compute_crc32-accepted :
    (m : ℕ) (received : List ℕ)
    → IsSizeModulus m
    → All IsByte received
    → IsAccepted m received
    → compute_crc32 received ≡ residue
compute_crc32-accepted m received wide bytes ok =
    ap compute_crc32 (accepted-frame m received wide bytes ok)
    ∙ compute_crc32-frame _ (received_payload received)
        (All-take IsByte _ _ (All-drop IsByte 8 received bytes))

-- Damage to a frame that changes bytes only within a run of at most four consecutive ones, in header,
-- payload or CRC, is always noticed: the answer is false, and no handler is called.
pub damaged_frame_refused :
    {S : Type 0} (m n : ℕ) (payload xs e f ys : List ℕ) (handler : Option (DataHandler S)) (s : S)
    → IsSizeModulus m
    → All IsByte payload
    → All IsByte xs
    → All IsByte e
    → All IsByte f
    → All IsByte ys
    → frame n payload ≡ xs ++ e ++ ys
    → length e ≡ length f
    → length e ≤ 4
    → e ≢ f
    → handle_incoming m (points (xs ++ f ++ ys)) handler s ≡ (false, s)
damaged_frame_refused m n payload xs e f ys handler s wide hp hx he hf hy shape same short differ =
    elim (handle_incoming_cases m (xs ++ f ++ ys) s handler) [
      | inl ok ↦ absurd (
          burst_detected xs e f ys hx he hf hy same short differ (
            ap compute_crc32 (sym shape)
            ∙ compute_crc32-frame n payload hp
            ∙ sym (
                compute_crc32-accepted m (xs ++ f ++ ys) wide
                  (All-append IsByte (xs ++ f) ys (All-append IsByte xs f hx hf) hy) ok)))
      | inr refused ↦ refused
    ]
