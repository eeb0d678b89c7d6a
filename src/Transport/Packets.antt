-- ===== src/Transport/Packets.antt =====
-- The bytes that `HandleIncoming` accepts, as a type.
use midi2pwmv2_libcomm.Common.{
  ℕ, ◌+◌, ◌^◌, ◌<◌, ◌≡◌, sym, ap, ◌∙◌, arith, true, List, length, some, points, [], ◌∷◌, take, drop,
  le_word, le_word-le_bytes, All, All-take, All-drop, IsByte, inl, inr,
}
use midi2pwmv2_libcomm.Transport.{DataHandler, handle_incoming}
use midi2pwmv2_libcomm.Transport.Frame.{frame, frame_shape, frame-IsByte, length-frame}
use midi2pwmv2_libcomm.Transport.Receive.{
  IsSizeModulus, received_payload, received_payload-frame, accepted-frame, handle_incoming-frame,
  handle_incoming_cases,
}
use mathlib.Core.Bool.{Bool-set, true≢false}
use native.Mathlib.Bridge.{le_prop}
use mathlib.Core.HLevel.{Σ_prop_path}
use mathlib.Core.Equiv.{IsEquiv, iso_to_equiv}

-- A handler that is content with every payload.
abbrev content : DataHandler Unit
content payload s = (true, s)

-- What makes bytes acceptable: they are a byte string shorter than 2^32, and `handle_incoming` answers true.
abbrev IsAcceptable : ℕ → List ℕ → Type 0
IsAcceptable m bytes =
    (length bytes < 2 ^ 32)
    × All IsByte bytes
    × ((handle_incoming m (points bytes) (some content) tt).0 ≡ true)

abbrev pub Accepted : ℕ → Type 0
Accepted m = (bytes : List ℕ) × IsAcceptable m bytes

-- A 16-bit number, and payload bytes whose frame is shorter than 2^32.
abbrev IsSendable : ℕ × List ℕ → Type 0
IsSendable p = (p.0 < 2 ^ 16) × (length p.1 + 12 < 2 ^ 32) × All IsByte p.1

abbrev pub Packet : Type 0
Packet = (p : ℕ × List ℕ) × IsSendable p

All-IsByte_prop : (bytes : List ℕ) → IsProp (All IsByte bytes)
All-IsByte_prop [] = hlevel
All-IsByte_prop (b ∷ bytes) = hlevel (le_prop, All-IsByte_prop bytes)

IsAcceptable-prop : (m : ℕ) (bytes : List ℕ) → IsProp (IsAcceptable m bytes)
IsAcceptable-prop m bytes = hlevel (le_prop, All-IsByte_prop, Bool-set)

IsSendable-prop : (p : ℕ × List ℕ) → IsProp (IsSendable p)
IsSendable-prop p = hlevel (le_prop, All-IsByte_prop, Bool-set)

-- The frame of a packet is accepted.
unfoldable pub frame_of : (m : ℕ) → IsSizeModulus m → Packet → Accepted m
frame_of m wide ((n, payload), (small, fits, bytes)) = (
  frame n payload,
  (
    omega (arith, length-frame n payload),
    frame-IsByte n payload bytes,
    ap (λ r. r.0) (handle_incoming-frame m content tt n payload wide fits bytes),
  ),
)

-- The number and the payload that stand in bytes.
abbrev fields : List ℕ → ℕ × List ℕ
fields bytes = (le_word (take 2 (drop 2 bytes)), received_payload bytes)

fields-frame :
    (n : ℕ) (payload : List ℕ)
    → n < 2 ^ 16
    → length payload < 2 ^ 32
    → fields (frame n payload) ≡ (n, payload)
fields-frame n payload small fits =
    ap {B = ℕ × List ℕ} (λ k. (k, received_payload (frame n payload)))
      (ap (λ r. le_word (take 2 (drop 2 r))) (frame_shape n payload) ∙ le_word-le_bytes 2 n small)
    ∙ ap {B = ℕ × List ℕ} (λ r. (n, r)) (received_payload-frame n payload fits)

short_number : (bytes : List ℕ) → All IsByte bytes → le_word (take 2 bytes) < 2 ^ 16
short_number [] h = omega arith
short_number (a ∷ []) h = omega arith
short_number (a ∷ b ∷ rest) h = omega arith

-- Accepted bytes are the frame of the fields in them, which are a packet.
frame-fields :
    (m : ℕ)
    → IsSizeModulus m
    → (bytes : List ℕ) → IsAcceptable m bytes
    → bytes ≡ frame (fields bytes).0 (fields bytes).1
frame-fields m wide bytes ok = elim (handle_incoming_cases m bytes tt (some content)) [
  | inl a ↦ accepted-frame m bytes wide ok.1 a
  | inr e ↦ absurd (true≢false (sym ok.2 ∙ ap (λ r. r.0) e))
]

packet_of : (m : ℕ) → IsSizeModulus m → Accepted m → Packet
packet_of m wide (bytes, ok) = (
  fields bytes,
  (
    short_number (drop 2 bytes) (All-drop IsByte 2 bytes ok.1),
    omega (
      arith,
      ok.0,
      ap (length {A = ℕ}) (frame-fields m wide bytes ok),
      length-frame (fields bytes).0 (fields bytes).1,
    ),
    All-take IsByte _ (drop 8 bytes) (All-drop IsByte 8 bytes ok.1),
  ),
)

-- On a `std::size_t` of at least 32 bits, the frame format is lossless and `handle_incoming` accepts nothing
-- else: of the byte strings shorter than 2^32, those that it answers with true to a handler that always
-- does are equivalent, by the frame, to the pairs of a 16-bit number and a payload; and any handler is
-- given the payload of the pair, and its answer is returned.
pub frame_of-IsEquiv :
    {S : Type 0} (m : ℕ) (wide : IsSizeModulus m) (handler : DataHandler S) (s : S)
    → IsEquiv (frame_of m wide)
      × ((p : Packet)
          → handle_incoming m (points (frame_of m wide p).0) (some handler) s ≡ handler p.0.1 s)
unfolding frame_of packet_of
frame_of-IsEquiv m wide handler s = (
  (iso_to_equiv (record {
    fun = frame_of m wide;
    inv = packet_of m wide;
    rinv = λ (bytes, ok). Σ_prop_path (IsAcceptable-prop m) (sym (frame-fields m wide bytes ok));
    linv = λ ((n, payload), ok).
        Σ_prop_path IsSendable-prop (fields-frame n payload ok.0 (omega (arith, ok.1)));
  })).1,
  λ ((n, payload), ok). handle_incoming-frame m handler s n payload wide ok.1 ok.2,
)
