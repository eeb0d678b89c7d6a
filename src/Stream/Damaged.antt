-- ===== src/Stream/Damaged.antt =====
-- A frame with changed bytes, as the scanner sees it.
use midi2pwmv2_libcomm.Common.{
  ℕ, ◌+◌, ◌%◌, ◌≤◌, ◌≡◌, ◌≢◌, refl, sym, ap, ◌∙◌, arith, ◌==◌, ltb, true, false, ◌⊎◌, inl, inr,
  none, some, List, [], ◌∷◌, ◌++◌, append_assoc, length, length-append, get_or, take, drop,
  take_append, drop_append, le_word, IsByte, All, points,
}
use midi2pwmv2_libcomm.Transport.{expected_total_size_bytes, handle_incoming}
use midi2pwmv2_libcomm.Transport.Frame.{frame, frame_shape, length-frame}
use midi2pwmv2_libcomm.Transport.Receive.{IsSizeModulus}
use midi2pwmv2_libcomm.Transport.Damage.{damaged_frame_refused}
use midi2pwmv2_libcomm.Stream.{
  buffer_capacity, ErrorType, FrameCallback, crc_failure, sync_recovery_attempt,
}
use midi2pwmv2_libcomm.Stream.Pending.{from_version, resync, goes, scan, scan_damaged, scan_frame}
use midi2pwmv2_libcomm.Stream.Deliver.{IsSendable, frame_of, stream, field_within, expected-frame}

-- Behind its first byte the list has no byte with the value of the protocol version.
abbrev pub HasNoVersion : List ℕ → Type 0
HasNoVersion [] = Unit {0}
HasNoVersion (b ∷ bs) = All (λ c. c ≢ 1) bs

-- What is left of a frame of `payload` after a run of at most four bytes behind the header was changed.
pub record IsDamaged (n : ℕ) (payload d : List ℕ) : Type 0 where
  pub before : List ℕ
  pub sent : List ℕ
  pub got : List ℕ
  pub after : List ℕ
  pub original : frame n payload ≡ before ++ sent ++ after
  pub damaged : d ≡ before ++ got ++ after
  pub header_kept : 8 ≤ length before
  pub same : length sent ≡ length got
  pub short : length sent ≤ 4
  pub differ : sent ≢ got
  pub before_bytes : All IsByte before
  pub sent_bytes : All IsByte sent
  pub got_bytes : All IsByte got
  pub after_bytes : All IsByte after

-- Nothing, or bytes that start with the version.
abbrev pub IsRest : List ℕ → Type 0
IsRest rest = (rest ≡ []) ⊎ ((ys : List ℕ) × (rest ≡ 1 ∷ ys))

pub from_version-skip :
    (xs rest : List ℕ) → All (λ c. c ≢ 1) xs → from_version (xs ++ rest) ≡ from_version rest
unfolding from_version
from_version-skip [] rest h = refl
from_version-skip (x ∷ xs) rest h =
    let other : (x == 1) ≡ false = ground (arith, h.0) in rw other (from_version-skip xs rest h.1)

-- Without a version byte in the way, the search stops where the next frame starts.
resync-damaged :
    (b : ℕ) (bs rest : List ℕ)
    → All (λ c. c ≢ 1) bs
    → IsRest rest
    → ((rest ≡ []) × (resync (b ∷ bs ++ rest) ≡ none)) ⊎ (resync (b ∷ bs ++ rest) ≡ some rest)
unfolding resync from_version
resync-damaged b bs rest h (inl e) = inl (e, rw e (from_version-skip bs [] h))
resync-damaged b bs rest h (inr (ys, e)) = inr (rw e (from_version-skip bs (1 ∷ ys) h))

pub frame-IsRest : (f : ℕ × List ℕ) (rest : List ℕ) → IsRest (frame_of f ++ rest)
frame-IsRest f rest = inr (_, ap (λ r. r ++ rest) (frame_shape f.0 f.1))

partial-IsRest :
    (f : ℕ × List ℕ) (partial tail : List ℕ) → partial ++ tail ≡ frame_of f → IsRest partial
partial-IsRest f [] tail e = inl refl
partial-IsRest f (b ∷ bs) tail e =
    let first : b ≡ 1 = ap (λ r. get_or r 0 0) (e ∙ frame_shape f.0 f.1) in
    inr (bs, ap (λ (c : ℕ). c ∷ bs) first)

pub stream-IsRest :
    (fs : List (ℕ × List ℕ)) (f : ℕ × List ℕ) (partial tail : List ℕ)
    → partial ++ tail ≡ frame_of f
    → IsRest (stream fs ++ partial)
stream-IsRest [] f partial tail e = partial-IsRest f partial tail e
stream-IsRest (g ∷ fs) f partial tail e =
    rw (append_assoc (frame_of g) (stream fs) partial) (frame-IsRest g (stream fs ++ partial))

module _ (n : ℕ) (payload d : List ℕ) (h : IsDamaged n payload d) where
  pub length-damaged : length d ≡ length payload + 12
  length-damaged = omega (
    arith,
    ap length h.original,
    ap length h.damaged,
    h.same,
    length-frame n payload,
    length-append (h.before ++ h.sent) h.after,
    length-append (h.before ++ h.got) h.after,
    length-append h.before h.sent,
    length-append h.before h.got,
  )

  -- The size field has not changed.
  expected-damaged :
      (m : ℕ) (rest : List ℕ)
      → IsSizeModulus m
      → IsSendable (n, payload)
      → expected_total_size_bytes m (d ++ rest) ≡ length payload + 12
  expected-damaged m rest wide fits =
      let field : (xs : List ℕ)
          → take 4 (drop 4 ((h.before ++ xs) ++ h.after)) ≡ take 4 (drop 4 h.before) =
        λ xs.
          field_within (h.before ++ xs) h.after
            (omega (arith, h.header_kept, length-append h.before xs))
          ∙ field_within h.before xs (h.header_kept) in
      let unchanged : take 4 (drop 4 (d ++ rest)) ≡ take 4 (drop 4 (frame n payload)) =
        field_within d rest (omega (arith, length-damaged))
        ∙ ap (λ r. take 4 (drop 4 r)) h.damaged
        ∙ field h.got
        ∙ sym (field h.sent)
        ∙ sym (ap (λ r. take 4 (drop 4 r)) h.original) in
      ap (λ r. (8 + le_word r + 4) % m) unchanged ∙ expected-frame m (n, payload) wide fits

module _ {S : Type 0} (m : ℕ) (wide : IsSizeModulus m) (callback : FrameCallback S)
    (report : ErrorType → S → S) where
  -- A damaged frame at the front: two reports, and the scanner goes on with what follows it.
  pub scan-damaged :
      (n : ℕ) (payload d rest : List ℕ) (s : S)
      → IsSendable (n, payload)
      → IsDamaged n payload d
      → HasNoVersion d
      → IsRest rest
      → scan m callback report (d ++ rest) s
        ≡ goes false rest (report sync_recovery_attempt (report crc_failure s))
  unfolding scan scan_frame
  scan-damaged n payload [] rest s fits h clear behind =
      absurd (omega (arith, length-damaged n payload [] h))
  scan-damaged n payload (b ∷ bs) rest s fits h clear behind =
      let d : List ℕ = b ∷ bs in
      let size : length d ≡ length payload + 12 = length-damaged n payload d h in
      let long : length (d ++ rest) ≡ length payload + 12 + length rest =
        omega (arith, length-append d rest, size) in
      let eight : ltb (length payload + 12 + length rest) 8 ≡ false = ground arith in
      let room : ltb buffer_capacity (length payload + 12) ≡ false = ground (arith, fits.small) in
      let twelve : ltb (length payload + 12 + length rest) 12 ≡ false = ground arith in
      let ready : ltb (length payload + 12 + length rest) (length payload + 12) ≡ false =
        ground arith in
      let front : take (length payload + 12) (d ++ rest) ≡ d =
        take_append (length payload + 12) d rest size in
      let gone : drop (length payload + 12) (d ++ rest) ≡ rest =
        drop_append (length payload + 12) d rest size in
      let refused : handle_incoming m (points d) (some (λ sent u. (true, callback sent u))) s
          ≡ (false, s) =
        ap (λ r. handle_incoming m (points r) (some (λ sent u. (true, callback sent u))) s)
          (h.damaged)
        ∙ damaged_frame_refused m n payload h.before h.sent h.got h.after _ s wide fits.bytes
            h.before_bytes h.sent_bytes h.got_bytes h.after_bytes h.original h.same h.short
            h.differ in
      rw (expected-damaged n payload d h m rest wide fits, long, eight, room, twelve, ready)
        (rw (front, gone)
          (rw refused (elim (resync-damaged b bs rest clear behind) [
            | inl (e, lost) ↦ rw (lost, scan_damaged) refl
            | inr found ↦ rw (found, scan_damaged) refl
          ])))
