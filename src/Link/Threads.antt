-- ===== src/Link/Threads.antt =====
-- Several threads that call `Send` of one transport. `NextSequence` and `TransmitFrame` of
-- src/frame_transport.cpp each hold a mutex of their own, so a call of `Send` is two atomic steps, and
-- steps of other threads may come between them.
pub mod Keep
pub mod Allocate
pub mod Transmit
pub mod Order
mod Examples
use midi2pwmv2_libcomm.Common.{
  ℕ, ◌+◌, ◌≤◌, ◌<◌, ◌≡◌, ◌≢◌, refl, sym, ap, ◌∙◌, arith, ◌==◌, ==_iff, if◌then◌else◌, Bool-cases,
  inl, inr, Option, none, some, List, [], ◌∷◌, ◌++◌, append_assoc, append-nil, length, All,
  All-append, points,
}
use midi2pwmv2_libcomm.Transport.{
  max_frame_size, data_frame, Statics, FrameTransport, next_sequence, transmit_frame,
}
use midi2pwmv2_libcomm.Transport.Frame.{frame}
use midi2pwmv2_libcomm.Transport.Transmit.{IsStatics, turned, turned-IsStatics, transmit-frame}
use midi2pwmv2_libcomm.Transport.Sequence.{IsSequence, successor, number_after, next_sequence_lem}
use midi2pwmv2_libcomm.Link.{put_on_wire}

-- The transport and what its threads are at: the payloads that each has still to send, and the number and
-- the payload of a call of `Send` that has its number and waits to transmit.
pub record Threads : Type 0 where
  pub transport : FrameTransport (List ℕ)
  pub statics : Statics
  pub wire : List ℕ
  pub programs : ℕ → List (List ℕ)
  pub waiting : ℕ → Option (ℕ × List ℕ)

abbrev pub put {ℓ} : {A : Type ℓ} → (ℕ → A) → ℕ → A → ℕ → A
put f k a j = if k == j then a else f j

-- `NextSequence` under `mutex_`.
unfoldable pub allocate : ℕ → List ℕ → List (List ℕ) → Threads → Threads
allocate k payload rest s =
    let (allocated, t') = next_sequence s.transport in
    record s {
      transport = t';
      programs = put s.programs k rest;
      waiting = put s.waiting k (some (allocated, payload));
    }

-- `TransmitFrame` under `transmitMutex`.
unfoldable pub transmit : ℕ → ℕ → List ℕ → Threads → Threads
transmit k allocated payload s =
    let (sent, v', w') =
      transmit_frame s.transport data_frame allocated (points payload) s.statics s.wire in
    record s { statics = v'; wire = w'; waiting = put s.waiting k none }

-- The next step of thread `k`, if it has one.
unfoldable pub thread_step : ℕ → Threads → Threads
thread_step k s = elim (s.waiting k) [
  | some (allocated, payload) ↦ transmit k allocated payload s
  | none ↦ elim (s.programs k) [ [] ↦ s | payload ∷ rest ↦ allocate k payload rest s ]
]

-- A schedule says whose step comes next.
unfoldable pub run_threads : List ℕ → Threads → Threads
run_threads [] s = s
run_threads (k ∷ schedule) s = run_threads schedule (thread_step k s)

-- A frame on the line.
pub record Sent : Type 0 where
  pub thread : ℕ
  pub number : ℕ
  pub payload : List ℕ

abbrev pub frames_of : List Sent → List ℕ
frames_of [] = []
frames_of (f ∷ fs) = frame f.number f.payload ++ frames_of fs

abbrev pub payloads_by : ℕ → List Sent → List (List ℕ)
payloads_by k [] = []
payloads_by k (f ∷ fs) = if f.thread == k then f.payload ∷ payloads_by k fs else payloads_by k fs

abbrev pub held : Option (ℕ × List ℕ) → List (List ℕ)
held none = []
held (some (n, payload)) = payload ∷ []

-- No two frames carry the same number.
abbrev pub AreNumberedApart : List Sent → Type 0
AreNumberedApart [] = Unit {0}
AreNumberedApart (f ∷ fs) = All (λ g. g.number ≢ f.number) fs × AreNumberedApart fs

frames_of-snoc :
    (fs : List Sent) (f : Sent)
    → frames_of (fs ++ (f ∷ [])) ≡ frames_of fs ++ frame f.number f.payload
frames_of-snoc [] f = append-nil (frame f.number f.payload)
frames_of-snoc (g ∷ fs) f =
    ap (λ r. frame g.number g.payload ++ r) (frames_of-snoc fs f)
    ∙ sym (append_assoc (frame g.number g.payload) (frames_of fs) (frame f.number f.payload))

payloads_by-snoc :
    (k : ℕ) (fs : List Sent) (f : Sent)
    → payloads_by k (fs ++ (f ∷ []))
      ≡ payloads_by k fs ++ (if f.thread == k then f.payload ∷ [] else [])
payloads_by-snoc k [] f = refl
payloads_by-snoc k (g ∷ fs) f = elim (Bool-cases (g.thread == k)) [
  | inl same ↦ rw same (ap (λ r. g.payload ∷ r) (payloads_by-snoc k fs f))
  | inr other ↦ rw other (payloads_by-snoc k fs f)
]

apart-snoc :
    (fs : List Sent) (f : Sent)
    → AreNumberedApart fs
    → All (λ g. g.number ≢ f.number) fs
    → AreNumberedApart (fs ++ (f ∷ []))
apart-snoc [] f h new = (tt, tt)
apart-snoc (g ∷ fs) f h new = (
  All-append (λ x. x.number ≢ g.number) fs (f ∷ []) h.0 (λ e. new.0 (sym e), tt),
  apart-snoc fs f h.1 new.1,
)

-- A number that the first `c` allocations have given out.
abbrev IsUsed : ℕ → ℕ → ℕ → Type 0
IsUsed n c number = (i : ℕ) × (i < c) × (number ≡ number_after i n)
