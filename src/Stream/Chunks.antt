-- ===== src/Stream/Chunks.antt =====
-- A stream of frames fed to `StreamProcessor` in chunks.
use midi2pwmv2_libcomm.Common.{
  ℕ, ◌+◌, ◌≤◌, ◌<◌, ◌≡◌, refl, sym, ap, ◌∙◌, arith, Option, none, some, List, [], ◌∷◌, ◌++◌,
  append_assoc, append-nil, length, length-append, take, drop, take_within, take_append,
  length-drop, take-append-drop, All, points,
}
use midi2pwmv2_libcomm.Transport.Frame.{length-frame}
use midi2pwmv2_libcomm.Transport.Receive.{IsSizeModulus}
use midi2pwmv2_libcomm.Stream.{buffer_capacity, FrameCallback, StreamProcessor, feed}
use midi2pwmv2_libcomm.Stream.Pending.{pending, IsProcessor, length-pending}
use midi2pwmv2_libcomm.Stream.Refine.{Kept, Kept-refl}
use midi2pwmv2_libcomm.Stream.Loop.{Kept-trans}
use midi2pwmv2_libcomm.Stream.Deliver.{IsSendable, frame_of, stream, deliver_each}
use midi2pwmv2_libcomm.Stream.Feed.{IsBehind, Cut, Cut-stream, feed-empty, feed-frames}

-- Chunks fed one after the other.
unfoldable pub feed_each :
    {S : Type 0} → ℕ → List (List ℕ) → StreamProcessor S → S → Option (StreamProcessor S × S)
feed_each m [] p s = some (p, s)
feed_each m (c ∷ cs) p s = elim (feed m p (points c) s) [
  | none ↦ none
  | some (q, t) ↦ feed_each m cs q t
]

abbrev pub joined : List (List ℕ) → List ℕ
joined [] = []
joined (c ∷ cs) = c ++ joined cs

-- A payload of at most `largest` bytes.
pub record IsUpTo (largest : ℕ) (f : ℕ × List ℕ) : Type 0 where
  pub sendable : IsSendable f
  pub bounded : length f.1 ≤ largest

-- A chunk that fits beside all but one byte of such a frame.
abbrev pub IsChunk : ℕ → List ℕ → Type 0
IsChunk largest c = length c + largest + 11 ≤ buffer_capacity

UpTo-IsSendable :
    (largest : ℕ) (fs : List (ℕ × List ℕ)) → All (IsUpTo largest) fs → All IsSendable fs
UpTo-IsSendable largest [] h = tt
UpTo-IsSendable largest (f ∷ fs) h = (h.0.sendable, UpTo-IsSendable largest fs h.1)

All-split : {A : Type 0} (P : A → Type 0) (xs ys : List A) → All P (xs ++ ys) → All P xs × All P ys
All-split P [] ys h = (tt, h)
All-split P (x ∷ xs) ys h = let (hx, hy) = All-split P xs ys h.1 in ((h.0, hx), hy)

deliver_each-append :
    {S : Type 0} (callback : FrameCallback S) (fs gs : List (ℕ × List ℕ)) (s : S)
    → deliver_each callback (fs ++ gs) s ≡ deliver_each callback gs (deliver_each callback fs s)
deliver_each-append callback [] gs s = refl
deliver_each-append callback (f ∷ fs) gs s = deliver_each-append callback fs gs (callback f.1 s)

-- The frame that a part belongs to, with what is missing of it.
record Part (partial : List ℕ) : Type 0 where
  next : ℕ × List ℕ
  tail : List ℕ
  sendable : IsSendable next
  completes : partial ++ tail ≡ frame_of next
  missing : 0 < length tail

Part-of :
    (partial zs : List ℕ) (fs : List (ℕ × List ℕ))
    → All IsSendable fs
    → partial ++ zs ≡ stream fs
    → IsBehind partial fs
    → Part partial
Part-of [] zs [] hs e behind = record {
  next = (0, []);
  tail = frame_of (0, []);
  sendable = record { small = omega arith; bytes = tt };
  completes = refl;
  missing = omega (arith, length-frame 0 []);
}
Part-of (b ∷ partial) zs [] hs e behind = absurd (omega arith)
Part-of partial zs (f ∷ fs) hs e behind =
    let n : ℕ = length partial in
    let within : n ≤ length (frame_of f) = omega arith in
    let same : partial ≡ take n (frame_of f) =
      sym (take_append n partial zs refl)
      ∙ ap (take n) e
      ∙ take_within n (frame_of f) (stream fs) within in
    record {
      next = f;
      tail = drop n (frame_of f);
      sendable = hs.0;
      completes = ap (λ r. r ++ drop n (frame_of f)) same ∙ take-append-drop n (frame_of f);
      missing = omega (arith, length-drop n (frame_of f));
    }

behind-bounded :
    (largest : ℕ) (xs : List ℕ) (fs : List (ℕ × List ℕ))
    → All (IsUpTo largest) fs
    → IsBehind xs fs
    → length xs ≤ largest + 11
behind-bounded largest xs [] hs behind = omega arith
behind-bounded largest xs (f ∷ fs) hs behind = omega (arith, length-frame f.0 f.1, hs.0.bounded)

-- A stream of frames, cut anywhere into chunks that each leave room for all but a byte of the largest
-- frame, and fed chunk by chunk to a processor that holds a proper part of the first frame (or nothing):
-- every payload is delivered, in order and once, no error is reported, and nothing is held at the end.
pub feed_each-stream :
    {S : Type 0} (m largest : ℕ) (callback : FrameCallback S) (cs : List (List ℕ))
    (fs : List (ℕ × List ℕ)) (p : StreamProcessor S) (s : S)
    → IsSizeModulus m
    → IsProcessor p
    → p.frame_callback ≡ some callback
    → All (IsChunk largest) cs
    → All (IsUpTo largest) fs
    → IsBehind (pending p) fs
    → pending p ++ joined cs ≡ stream fs
    → (q : StreamProcessor S) × (feed_each m cs p s ≡ some (q, deliver_each callback fs s))
      × (pending q ≡ [])
      × Kept p q
unfolding feed_each
feed_each-stream m largest callback [] [] p s wide h registered hc hs behind e =
    (p, refl, sym (append-nil (pending p)) ∙ e, Kept-refl p h)
feed_each-stream m largest callback [] (f ∷ fs) p s wide h registered hc hs behind e = absurd (
    omega
      (arith, length-append (pending p) [], length-append (frame_of f) (stream fs), ap length e))
feed_each-stream m largest callback ([] ∷ cs) fs p s wide h registered hc hs behind e =
    rw (feed-empty m p s, feed_each)
      (feed_each-stream m largest callback cs fs p s wide h registered hc.1 hs behind e)
feed_each-stream m largest callback ((b ∷ c) ∷ cs) fs p s wide h registered hc hs behind e =
    let cut : Cut (pending p ++ (b ∷ c)) (joined cs) fs =
      Cut-stream (pending p ++ (b ∷ c)) (joined cs) fs
        (append_assoc (pending p) (b ∷ c) (joined cs) ∙ e) in
    let (now, later) = All-split (IsUpTo largest) cut.whole cut.rest (rw cut.frames hs) in
    let part =
      Part-of cut.partial (joined cs) cut.rest (UpTo-IsSendable largest cut.rest later) cut.back
        cut.behind in
    let (q, fed, left, kept) =
      feed-frames m callback p (b ∷ c) cut.whole part.next cut.partial part.tail s wide h registered
        (omega (arith, behind-bounded largest (pending p) fs hs behind, length-pending p h, hc.0))
        (omega arith) (UpTo-IsSendable largest cut.whole now) part.sendable cut.front part.completes
        part.missing in
    let (r, rest, empty, kept') =
      feed_each-stream m largest callback cs cut.rest q (deliver_each callback cut.whole s) wide
        kept.sound (kept.frames ∙ registered) hc.1 later (rw left cut.behind)
        (ap (λ xs. xs ++ joined cs) left ∙ cut.back) in
    (
      r,
      rw (fed, feed_each)
          (rest
            ∙ ap (λ t. some (r, t))
                (sym (deliver_each-append callback cut.whole cut.rest s)
                  ∙ ap (λ gs. deliver_each callback gs s) cut.frames)),
      empty,
      Kept-trans p q r kept kept',
    )
