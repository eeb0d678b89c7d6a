-- ===== src/Stream/Feed.antt =====
-- What `feed` does with the bytes of a stream of frames, however the stream is cut into chunks.
use midi2pwmv2_libcomm.Common.{
  ℕ, ◌+◌, ◌-◌, ◌≤◌, ◌<◌, ◌≡◌, refl, sym, ap, ◌∙◌, arith, ◌==◌, ltb, Bool, false, Bool-cases, inl,
  inr, Option, none, some, List, [], ◌∷◌, ◌++◌, append_assoc, length, length-append, length-store,
  take, drop, take_append, take_within, drop_append, drop_within, take-append-drop, All, points,
  store, store_next,
}
use midi2pwmv2_libcomm.Transport.Frame.{length-frame}
use midi2pwmv2_libcomm.Transport.Receive.{IsSizeModulus}
use midi2pwmv2_libcomm.Stream.{
  buffer_capacity, FrameCallback, StreamProcessor, report_error, extract_frames, append_bytes,
  extract_into, accept_bytes, feed, invalid_header,
}
use midi2pwmv2_libcomm.Stream.Pending.{pending, IsProcessor, length-pending}
use midi2pwmv2_libcomm.Stream.Refine.{Kept}
use midi2pwmv2_libcomm.Stream.Loop.{Looped-some, extract_loop-Looped, Kept-trans}
use midi2pwmv2_libcomm.Stream.Deliver.{IsSendable, frame_of, stream, deliver_each, scan_loop-stream}

module _ {S : Type 0} (p : StreamProcessor S) (bytes : List ℕ) (h : IsProcessor p)
    (fits : p.size + length bytes ≤ buffer_capacity) where
  pub append_bytes-Kept : Kept p (append_bytes p bytes)
  unfolding append_bytes
  append_bytes-Kept = record {
    sound = record {
      capacity = length-store p.buffer p.size bytes (omega (arith, h.capacity)) ∙ h.capacity;
      within = fits;
    };
    frames = refl;
    errors = refl;
  }

  pub pending-append_bytes : pending (append_bytes p bytes) ≡ pending p ++ bytes
  unfolding append_bytes
  pending-append_bytes =
      let stored : store p.buffer p.size bytes
          ≡ (pending p ++ bytes) ++ drop (length bytes) (drop p.size p.buffer) =
        ap (λ b. store b p.size bytes) (sym (take-append-drop p.size p.buffer))
        ∙ store_next (pending p) (drop p.size p.buffer) bytes p.size (length-pending p h) in
      rw stored (
        take_append (p.size + length bytes) (pending p ++ bytes) _
          (omega (arith, length-append (pending p) bytes, length-pending p h)))

-- Each frame has at least twelve bytes.
pub length-stream : (fs : List (ℕ × List ℕ)) → length fs ≤ length (stream fs)
length-stream [] = omega arith
length-stream (f ∷ fs) =
    omega (arith, length-append (frame_of f) (stream fs), length-frame f.0 f.1, length-stream fs)

-- `feed` with room for the chunk appends it and extracts.
pub feed-room :
    {S : Type 0} (m : ℕ) (callback : FrameCallback S) (p : StreamProcessor S) (chunk : List ℕ)
    (s : S)
    → length p.buffer ≡ buffer_capacity
    → p.frame_callback ≡ some callback
    → p.size + length chunk ≤ buffer_capacity
    → 0 < length chunk
    → feed m p (points chunk) s ≡ extract_into m callback (append_bytes p chunk) s
unfolding feed accept_bytes extract_into
feed-room {S = S} m callback p chunk s capacity registered fits given =
    let some_given : (length chunk == 0) ≡ false = ground arith in
    let room : ltb (length p.buffer - p.size) (length chunk) ≡ false = ground arith in
    rw some_given (
      ap
        (λ (r : Option (FrameCallback S)). elim r [
          | none ↦ some (p, report_error p invalid_header s)
          | some registered' ↦ accept_bytes m registered' p chunk s
        ])
        registered
      ∙ rw (room, accept_bytes) refl)

pub extract_into_lem :
    {S : Type 0} (m : ℕ) (callback : FrameCallback S) (p q : StreamProcessor S) (b : Bool) (s t : S)
    → extract_frames m callback p s ≡ some (b, q, t)
    → extract_into m callback p s ≡ some (q, t)
unfolding extract_into
extract_into_lem m callback p q b s t e = rw (e, extract_into) refl

pub feed-empty :
    {S : Type 0} (m : ℕ) (p : StreamProcessor S) (s : S) → feed m p (points []) s ≡ some (p, s)
unfolding feed
feed-empty m p s = refl

-- A processor that gets a chunk after which the bytes held are some frames and a proper part of a
-- further one: the payloads of the frames are delivered in order, the part is held, nothing else happens.
pub feed-frames :
    {S : Type 0} (m : ℕ) (callback : FrameCallback S) (p : StreamProcessor S) (chunk : List ℕ)
    (fs : List (ℕ × List ℕ)) (f : ℕ × List ℕ) (partial tail : List ℕ) (s : S)
    → IsSizeModulus m
    → IsProcessor p
    → p.frame_callback ≡ some callback
    → p.size + length chunk ≤ buffer_capacity
    → 0 < length chunk
    → All IsSendable fs
    → IsSendable f
    → pending p ++ chunk ≡ stream fs ++ partial
    → partial ++ tail ≡ frame_of f
    → 0 < length tail
    → (q : StreamProcessor S) × (feed m p (points chunk) s ≡ some (q, deliver_each callback fs s))
      × (pending q ≡ partial)
      × Kept p q
unfolding extract_frames
feed-frames m callback p chunk fs f partial tail s wide h registered fits given hs hf held part
      more =
    let p' = append_bytes p chunk in
    let kept : Kept p p' = append_bytes-Kept p chunk h fits in
    let shown : pending p' ≡ stream fs ++ partial = pending-append_bytes p chunk h fits ∙ held in
    let enough : length fs < p'.size + 1 = omega (
      arith,
      length-stream fs,
      length-append (stream fs) partial,
      ap length shown,
      length-pending p' kept.sound,
    ) in
    let (b, run) =
      scan_loop-stream m wide callback (report_error p') (p'.size + 1) false fs f partial tail s hs
        hf part more enough in
    let (q, r, left, kept') =
      Looped-some p' _ _ b partial (deliver_each callback fs s)
        (extract_loop-Looped (p'.size + 1) m callback false p' s kept.sound) (rw shown run) in
    (
      q,
      feed-room m callback p chunk s h.capacity registered fits given
          ∙ extract_into_lem m callback p' q b s _ r,
      left,
      Kept-trans p p' q kept kept',
    )

-- What is held is a proper part of the next frame.
abbrev pub IsBehind : List ℕ → List (ℕ × List ℕ) → Type 0
IsBehind xs [] = length xs ≡ 0
IsBehind xs (f ∷ fs) = length xs < length (frame_of f)

pub record Cut (xs zs : List ℕ) (fs : List (ℕ × List ℕ)) : Type 0 where
  pub whole : List (ℕ × List ℕ)
  pub rest : List (ℕ × List ℕ)
  pub partial : List ℕ
  pub frames : whole ++ rest ≡ fs
  pub front : xs ≡ stream whole ++ partial
  pub back : partial ++ zs ≡ stream rest
  pub behind : IsBehind partial rest

-- A prefix of a stream is some frames and a proper part of the next one.
pub Cut-stream : (xs zs : List ℕ) (fs : List (ℕ × List ℕ)) → xs ++ zs ≡ stream fs → Cut xs zs fs
Cut-stream xs zs [] e = record {
  whole = [];
  rest = [];
  partial = xs;
  frames = refl;
  front = refl;
  back = e;
  behind = omega (arith, length-append xs zs, ap length e);
}
Cut-stream xs zs (f ∷ fs) e = elim (Bool-cases (ltb (length xs) (length (frame_of f)))) [
  | inl short ↦ record {
    whole = [];
    rest = f ∷ fs;
    partial = xs;
    frames = refl;
    front = refl;
    back = e;
    behind = ground arith;
  }
  | inr long ↦
      let n : ℕ = length (frame_of f) in
      let reaches : n ≤ length xs = ground arith in
      let head : take n xs ≡ frame_of f =
        sym (take_within n xs zs reaches)
        ∙ ap (take n) e
        ∙ take_append n (frame_of f) (stream fs) refl in
      let behind : drop n xs ++ zs ≡ stream fs =
        sym (drop_within n xs zs reaches)
        ∙ ap (drop n) e
        ∙ drop_append n (frame_of f) (stream fs) refl in
      let c = Cut-stream (drop n xs) zs fs behind in
      record {
        whole = f ∷ c.whole;
        rest = c.rest;
        partial = c.partial;
        frames = ap (λ gs. f ∷ gs) c.frames;
        front =
            sym (take-append-drop n xs)
            ∙ rw (head, c.front) (sym (append_assoc (frame_of f) (stream c.whole) c.partial));
        back = c.back;
        behind = c.behind;
      }
]
