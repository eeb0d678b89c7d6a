-- ===== src/Transport/Frame.antt =====
-- The frame format on its own: what `BuildFrame` and `TransmitFrame` write, whatever the buffer held.
use midi2pwmv2_libcomm.Common.{
  ℕ, suc, true, ltb, ◌+◌, ◌-◌, ◌≤◌, ◌≡◌, refl, sym, ap, ◌∙◌, arith, List, [], ◌∷◌, ◌++◌, append-nil,
  length, length-append, take, drop, length-drop, length-take, take-append-drop, take_append,
  le_bytes, le_word, le_bytes-le_word, All, All-append, IsByte, le_bytes-IsByte, Span, null, points,
  span_size, store, store_next, drop-drop,
}
use midi2pwmv2_libcomm.Crc.{compute_crc32}
use midi2pwmv2_libcomm.Transport.{
  header_size, crc_size, data_frame, copy_payload, fill_transmit_buffer,
}

unfoldable pub header : ℕ → ℕ → List ℕ
header sequence_number size = 1 ∷ 0 ∷ le_bytes 2 sequence_number ++ le_bytes 4 size

-- What the CRC covers.
unfoldable pub body : ℕ → List ℕ → List ℕ
body sequence_number payload = header sequence_number (length payload) ++ payload

pub frame : ℕ → List ℕ → List ℕ
frame sequence_number payload =
    body sequence_number payload ++ le_bytes 4 (compute_crc32 (body sequence_number payload))

length-header : (n size : ℕ) → length (header n size) ≡ 8
unfolding header
length-header n size = refl

pub length-body : (n : ℕ) (payload : List ℕ) → length (body n payload) ≡ length payload + 8
unfolding body
length-body n payload =
    omega
      (arith, length-append (header n (length payload)) payload, length-header n (length payload))

pub length-frame : (n : ℕ) (payload : List ℕ) → length (frame n payload) ≡ length payload + 12
unfolding frame
length-frame n payload = omega (
  arith,
  length-append (body n payload) (le_bytes 4 (compute_crc32 (body n payload))),
  length-body n payload,
)

pub frame-body :
    (n : ℕ) (payload : List ℕ)
    → frame n payload ≡ body n payload ++ le_bytes 4 (compute_crc32 (body n payload))
unfolding frame
frame-body n payload = refl

pub body-IsByte : (n : ℕ) (payload : List ℕ) → All IsByte payload → All IsByte (body n payload)
unfolding body header
body-IsByte n payload h = All-append IsByte (header n (length payload)) payload (omega arith) h

pub frame-IsByte : (n : ℕ) (payload : List ℕ) → All IsByte payload → All IsByte (frame n payload)
unfolding frame
frame-IsByte n payload h =
    All-append IsByte (body n payload) (le_bytes 4 (compute_crc32 (body n payload)))
      (body-IsByte n payload h) (le_bytes-IsByte 4 (compute_crc32 (body n payload)))

pub frame_shape :
    (n : ℕ) (payload : List ℕ)
    → frame n payload
      ≡ 1 ∷ 0 ∷ le_bytes 2 n
        ++ (le_bytes 4 (length payload) ++ (payload ++ le_bytes 4 (compute_crc32 (body n payload))))
unfolding frame body header
frame_shape n payload = refl

-- A header is determined by its bytes.
pub body_of_bytes :
    (c d e f g h : ℕ) (payload : List ℕ)
    → All IsByte (c ∷ d ∷ [])
    → All IsByte (e ∷ f ∷ g ∷ h ∷ [])
    → length payload ≡ le_word (e ∷ f ∷ g ∷ h ∷ [])
    → body (le_word (c ∷ d ∷ [])) payload ≡ 1 ∷ 0 ∷ c ∷ d ∷ e ∷ f ∷ g ∷ h ∷ payload
unfolding body header
body_of_bytes c d e f g h payload number size fits =
    ap (λ r. (1 ∷ 0 ∷ r ++ le_bytes 4 (length payload)) ++ payload)
      (le_bytes-le_word (c ∷ d ∷ []) number)
    ∙ ap (λ r. (1 ∷ 0 ∷ c ∷ d ∷ [] ++ r) ++ payload)
        (ap (le_bytes 4) fits ∙ le_bytes-le_word (e ∷ f ∷ g ∷ h ∷ []) size)

-- The payload bytes of a frame: a null pointer leaves what the buffer holds there.
abbrev pub payload_of : Span → List ℕ → List ℕ
payload_of (null n) buffer = take n (drop header_size buffer)
payload_of (points payload) buffer = payload

length-payload_of :
    (payload : Span) (buffer : List ℕ)
    → header_size + span_size payload ≤ length buffer
    → length (payload_of payload buffer) ≡ span_size payload
length-payload_of (null n) buffer h =
    omega (arith, length-take n (drop header_size buffer), length-drop header_size buffer)
length-payload_of (points payload) buffer h = refl

-- The header, over what the buffer held before.
header_written :
    (n : ℕ) (size : ℕ) (buffer : List ℕ)
    → store
        (store (store (store buffer 0 (1 ∷ [])) 1 (0 ∷ [])) 2 (le_bytes 2 n))
        4
        (le_bytes 4 size)
      ≡ header n size ++ drop 8 buffer
unfolding header
header_written n size buffer =
    rw
      (
        store_next [] buffer (1 ∷ []) 0 refl,
        store_next (1 ∷ []) (drop 1 buffer) (0 ∷ []) 1 refl,
        store_next (1 ∷ 0 ∷ []) (drop 1 (drop 1 buffer)) (le_bytes 2 n) 2 refl,
        store_next (1 ∷ 0 ∷ le_bytes 2 n) (drop 2 (drop 1 (drop 1 buffer))) (le_bytes 4 size) 4
            refl,
      )
      (ap (λ r. header n size ++ r)
        (drop-drop 4 2 (drop 1 (drop 1 buffer))
          ∙ drop-drop 6 1 (drop 1 buffer)
          ∙ drop-drop 7 1 buffer))

positive : (n : ℕ) → ltb 0 (suc n) ≡ true
positive n = ground arith

payload_written :
    (n : ℕ) (payload : Span) (buffer : List ℕ)
    → copy_payload (header n (span_size payload) ++ drop 8 buffer) payload
      ≡ (header n (span_size payload) ++ payload_of payload buffer)
        ++ drop (8 + span_size payload) buffer
unfolding header
payload_written n (null k) buffer =
    ap (λ r. header n k ++ r)
      (sym (take-append-drop k (drop 8 buffer))
        ∙ ap (λ r. take k (drop 8 buffer) ++ r) (drop-drop k 8 buffer))
payload_written n (points []) buffer = ap (λ r. r ++ drop 8 buffer) (sym (append-nil (header n 0)))
payload_written n (points (x ∷ xs)) buffer = rw (positive (length xs)) (
    store_next (header n (length (x ∷ xs))) (drop 8 buffer) (x ∷ xs) 8
      (length-header n (length (x ∷ xs)))
    ∙ ap (λ r. (header n (length (x ∷ xs)) ++ x ∷ xs) ++ r) (drop-drop (length (x ∷ xs)) 8 buffer))

-- With its CRC behind it, computed over the front of the buffer.
crc_written :
    (written rest : List ℕ) (size : ℕ)
    → length written ≡ size
    → store (written ++ rest) size (le_bytes 4 (compute_crc32 (take size (written ++ rest))))
      ≡ (written ++ le_bytes 4 (compute_crc32 written)) ++ drop 4 rest
crc_written written rest size h =
    ap (λ r. store (written ++ rest) size (le_bytes 4 (compute_crc32 r)))
      (take_append size written rest h)
    ∙ store_next written rest (le_bytes 4 (compute_crc32 written)) size h

frame_of_size :
    (n size : ℕ) (payload : List ℕ)
    → length payload ≡ size
    → (header n size ++ payload) ++ le_bytes 4 (compute_crc32 (header n size ++ payload))
      ≡ frame n payload
unfolding frame body
frame_of_size n size payload h =
    ap (λ (k : ℕ). (header n k ++ payload) ++ le_bytes 4 (compute_crc32 (header n k ++ payload)))
      (sym h)

-- The buffer holds the frame, and behind it what it held before.
pub fill-frame :
    (n : ℕ) (payload : Span) (buffer : List ℕ)
    → header_size + span_size payload + crc_size ≤ length buffer
    → fill_transmit_buffer data_frame n payload buffer
      ≡ frame n (payload_of payload buffer)
        ++ drop (header_size + span_size payload + crc_size) buffer
unfolding fill_transmit_buffer
fill-frame n payload buffer h =
    let held : List ℕ = payload_of payload buffer in
    let size : length held ≡ span_size payload = length-payload_of payload buffer (omega arith) in
    let covered : 8 + span_size payload + 4 - 4 ≡ 8 + span_size payload = omega arith in
    rw (header_written n (span_size payload) buffer, payload_written n payload buffer, covered)
      (crc_written (header n (span_size payload) ++ held) (drop (8 + span_size payload) buffer)
          (8 + span_size payload)
          (omega (
            arith,
            size,
            length-append (header n (span_size payload)) held,
            length-header n (span_size payload),
          ))
        ∙ ap (λ r. r ++ drop 4 (drop (8 + span_size payload) buffer))
            (frame_of_size n (span_size payload) held size)
        ∙ ap (λ r. frame n held ++ r) (drop-drop 4 (8 + span_size payload) buffer))
