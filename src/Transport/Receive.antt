-- ===== src/Transport/Receive.antt =====
-- `HandleIncoming`: which bytes are accepted, and that damaged frames are not.
use midi2pwmv2_libcomm.Common.{
  ℕ, suc, ◌+◌, ◌-◌, ◌%◌, ◌^◌, ◌≤◌, ◌<◌, ◌≡◌, refl, sym, ap, ◌∙◌, arith, false, Option, ◌⊎◌, inl,
  inr, some, List, [], ◌∷◌, ◌++◌, length, points, take, drop, le_bytes, le_word, le_word-le_bytes,
  le_bytes-le_word, length-take, length-drop, take_all, All-drop, get_or, take_append, drop_append,
  IsByte, All, take-append-drop,
}
use midi2pwmv2_libcomm.Crc.{compute_crc32}
use midi2pwmv2_libcomm.Crc.Detect.{compute_crc32-lt}
use midi2pwmv2_libcomm.Transport.{
  header_size, DataHandler, deliver, handle_incoming, expected_total_size_bytes,
}
use midi2pwmv2_libcomm.Transport.Frame.{
  body, frame, length-frame, length-body, body-IsByte, frame-body, frame_shape, body_of_bytes,
}
use native.Mathlib.Nat.{mod-eq_of_lt, mod-eq-sub-mod}

-- The width of `std::size_t` is 32 bits at least.
abbrev pub IsSizeModulus : ℕ → Type 0
IsSizeModulus m = 2 ^ 32 ≤ m

-- The payload as `HandleIncoming` passes it on.
abbrev pub received_payload : List ℕ → List ℕ
received_payload received = take (le_word (take 4 (drop 4 received))) (drop header_size received)

-- The tests that received bytes must pass.
pub record IsAccepted (m : ℕ) (received : List ℕ) : Type 0 where
  pub enough : 12 ≤ length received
  pub version : get_or received 0 0 ≡ 1
  pub sized : length received ≡ expected_total_size_bytes m received
  pub checked :
      le_word (take 4 (drop (expected_total_size_bytes m received - 4) received))
      ≡ compute_crc32 (take (expected_total_size_bytes m received - 4) received)
  pub typed : get_or received 1 0 ≡ 0

module _ {S : Type 0} (m : ℕ) (received : List ℕ) (s : S) where
  handle_incoming_accepted :
      (handler : DataHandler S)
      → IsAccepted m received
      → handle_incoming m (points received) (some handler) s ≡ handler (received_payload received) s
  unfolding handle_incoming deliver
  handle_incoming_accepted handler a = ground arith

  pub handle_incoming_short :
      (handler : Option (DataHandler S))
      → length received < 12
      → handle_incoming m (points received) handler s ≡ (false, s)
  unfolding handle_incoming
  handle_incoming_short handler h = ground arith

  pub handle_incoming_cases :
      (handler : Option (DataHandler S))
      → (IsAccepted m received) ⊎ (handle_incoming m (points received) handler s ≡ (false, s))
  unfolding handle_incoming
  handle_incoming_cases handler = ground arith

-- The announced size of a list that passes the size test did not wrap.
unwrapped :
    (m size length : ℕ)
    → IsSizeModulus m
    → size < 2 ^ 32
    → 12 ≤ length
    → length ≡ (8 + size + 4) % m
    → length ≡ size + 12
unwrapped m size length wide small enough sized = grind (arith, mod-eq_of_lt, mod-eq-sub-mod)

-- Whatever is accepted is a frame, with the number and the payload that stand in it.
pub accepted-frame :
    (m : ℕ) (received : List ℕ)
    → IsSizeModulus m
    → All IsByte received
    → IsAccepted m received
    → received ≡ frame (le_word (take 2 (drop 2 received))) (received_payload received)
accepted-frame m (a ∷ b ∷ c ∷ d ∷ e ∷ f ∷ g ∷ h ∷ rest) wide bytes ok =
    let p : ℕ = le_word (e ∷ f ∷ g ∷ h ∷ []) in
    let size : length rest + 8 ≡ p + 12 = omega (
      arith,
      unwrapped m p (length rest + 8) wide (omega arith) (omega (arith, ok.enough))
          (omega (arith, ok.sized)),
    ) in
    let covered : expected_total_size_bytes m (a ∷ b ∷ c ∷ d ∷ e ∷ f ∷ g ∷ h ∷ rest) - 4
        ≡ suc (suc (suc (suc (suc (suc (suc (suc p))))))) =
      omega (arith, ok.sized, size) in
    let front : body (le_word (c ∷ d ∷ [])) (take p rest)
        ≡ a ∷ b ∷ c ∷ d ∷ e ∷ f ∷ g ∷ h ∷ take p rest =
      rw (ok.version, ok.typed)
        (body_of_bytes c d e f g h (take p rest) (omega arith) (omega arith)
          (omega (arith, length-take p rest, size))) in
    let four : length (drop p rest) ≡ 4 = omega (arith, length-drop p rest, size) in
    let trailer : le_bytes 4 (compute_crc32 (a ∷ b ∷ c ∷ d ∷ e ∷ f ∷ g ∷ h ∷ take p rest))
        ≡ drop p rest =
      ap (le_bytes 4) (
        sym (rw covered at ok.checked)
        ∙ ap le_word (take_all 4 (drop p rest) (omega (arith, four))))
      ∙ ap (λ (k : ℕ). le_bytes k (le_word (drop p rest))) (sym four)
      ∙ le_bytes-le_word (drop p rest) (All-drop IsByte p rest (bytes.1.1.1.1.1.1.1.1)) in
    let whole : a ∷ b ∷ c ∷ d ∷ e ∷ f ∷ g ∷ h ∷ rest
        ≡ (a ∷ b ∷ c ∷ d ∷ e ∷ f ∷ g ∷ h ∷ take p rest)
          ++ le_bytes 4 (compute_crc32 (a ∷ b ∷ c ∷ d ∷ e ∷ f ∷ g ∷ h ∷ take p rest)) =
      ap (λ r. a ∷ b ∷ c ∷ d ∷ e ∷ f ∷ g ∷ h ∷ r)
        (sym (take-append-drop p rest) ∙ ap (λ r. take p rest ++ r) (sym trailer)) in
    whole
    ∙ ap (λ r. r ++ le_bytes 4 (compute_crc32 r)) (sym front)
    ∙ sym (frame-body (le_word (c ∷ d ∷ [])) (take p rest))
accepted-frame m _ wide bytes ok = absurd (omega (arith, ok.enough))

frame-IsAccepted :
    (m n : ℕ) (payload : List ℕ)
    → IsSizeModulus m
    → length payload + 12 < 2 ^ 32
    → All IsByte payload
    → IsAccepted m (frame n payload)
frame-IsAccepted m n payload wide fits bytes = record {
  enough = omega (arith, length-frame n payload);
  version = ap (λ r. get_or r 0 0) (frame_shape n payload);
  sized = length-frame n payload ∙ sym size;
  checked = rw (ap (λ (k : ℕ). k - 4) size, covered) trailer;
  typed = ap (λ r. get_or r 1 0) (frame_shape n payload);
}
  where
    crc : ℕ
    crc = compute_crc32 (body n payload)

    covered : length payload + 12 - 4 ≡ length payload + 8
    covered = omega arith

    trailer :
        le_word (take 4 (drop (length payload + 8) (frame n payload)))
        ≡ compute_crc32 (take (length payload + 8) (frame n payload))
    trailer =
        rw
          (
            frame-body n payload,
            drop_append (length payload + 8) (body n payload) (le_bytes 4 crc)
                (length-body n payload),
            take_append (length payload + 8) (body n payload) (le_bytes 4 crc)
                (length-body n payload),
          )
          (le_word-le_bytes 4 crc (compute_crc32-lt (body n payload) (body-IsByte n payload bytes)))

    announced : le_word (take 4 (drop 4 (frame n payload))) ≡ length payload
    announced =
        ap (λ r. le_word (take 4 (drop 4 r))) (frame_shape n payload)
        ∙ le_word-le_bytes 4 (length payload) (omega arith)

    size : expected_total_size_bytes m (frame n payload) ≡ length payload + 12
    size =
        ap (λ (k : ℕ). (8 + k + 4) % m) announced
        ∙ ap (λ (k : ℕ). k % m) (omega arith)
        ∙ mod-eq_of_lt {n = length payload + 12} {m = m} (omega arith)

pub received_payload-frame :
    (n : ℕ) (payload : List ℕ)
    → length payload < 2 ^ 32
    → received_payload (frame n payload) ≡ payload
received_payload-frame n payload h =
    ap received_payload (frame_shape n payload)
    ∙ ap (λ k. take k (payload ++ le_bytes 4 (compute_crc32 (body n payload))))
        (le_word-le_bytes 4 (length payload) h)
    ∙ take_append (length payload) payload _ refl

module _ {S : Type 0} (m : ℕ) (handler : DataHandler S) (s : S) where
  -- On a `std::size_t` of at least 32 bits: the frame of any payload whose frame size fits 32 bits is
  -- accepted, the handler gets exactly the payload, and its answer is returned.
  pub handle_incoming-frame :
      (n : ℕ) (payload : List ℕ)
      → IsSizeModulus m
      → length payload + 12 < 2 ^ 32
      → All IsByte payload
      → handle_incoming m (points (frame n payload)) (some handler) s ≡ handler payload s
  handle_incoming-frame n payload wide fits bytes =
      handle_incoming_accepted m (frame n payload) s handler
        (frame-IsAccepted m n payload wide fits bytes)
      ∙ ap (λ r. handler r s) (received_payload-frame n payload (omega arith))

  -- Conversely, any bytes either are the frame of some number and payload, and the handler decides on
  -- that payload, or they are dropped: the answer is false and the handler is not called.
  pub handle_incoming_exact :
      (received : List ℕ)
      → IsSizeModulus m
      → All IsByte received
      → ((n : ℕ) × (payload : List ℕ) × (received ≡ frame n payload)
          × (handle_incoming m (points received) (some handler) s ≡ handler payload s))
        ⊎ (handle_incoming m (points received) (some handler) s ≡ (false, s))
  handle_incoming_exact received wide bytes =
      elim (handle_incoming_cases m received s (some handler)) [
        | inl a ↦ inl (
          le_word (take 2 (drop 2 received)),
          received_payload received,
          accepted-frame m received wide bytes a,
          handle_incoming_accepted m received s handler a,
        )
        | inr e ↦ inr e
      ]
