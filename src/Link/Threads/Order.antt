-- ===== src/Link/Threads/Order.antt =====
-- What stands on the line after any schedule of threads that share a transport.
use mathlib.Core.Path.{subst}
use midi2pwmv2_libcomm.Common.{
  ℕ, ◌+◌, ◌≤◌, ◌<◌, ◌≡◌, refl, arith, inl, inr, Option-cases, none, List, [], ◌∷◌, ◌++◌, length,
  All,
}
use midi2pwmv2_libcomm.Link.Threads.{
  Threads, allocate, thread_step, run_threads, Sent, frames_of, payloads_by, held, AreNumberedApart,
}
use midi2pwmv2_libcomm.Link.Threads.Keep.{IsSmall, AreReady, Follows, ready-Follows}
use midi2pwmv2_libcomm.Link.Threads.Allocate.{allocate-allocated, allocated-Follows}
use midi2pwmv2_libcomm.Link.Threads.Transmit.{transmit-transmitted, transmitted-Follows}

module _ (first : Threads) where
  record Followed (c : ℕ) (s : Threads) : Type 0 where
    count : ℕ
    sent : List Sent
    bounded : count ≤ c
    follows : Follows first count sent s

  -- A step of any thread, whatever it is at.
  thread_step-Followed :
      (k c : ℕ) (sent : List Sent) (s : Threads)
      → c < 65535
      → Follows first c sent s
      → Followed (c + 1) (thread_step k s)
  unfolding thread_step
  thread_step-Followed k c sent s few h = elim (Option-cases (s.waiting k)) [
    | inr ((a, payload), busy) ↦
        let small : IsSmall payload =
          (subst (λ w. All IsSmall (held w ++ s.programs k)) busy (h.small k)).0 in
        rw (busy, thread_step)
          (rw (transmit-transmitted first c sent s k a payload small h) (record {
            count = c;
            sent = sent ++ (record { thread = k; number = a; payload = payload } ∷ []);
            bounded = omega arith;
            follows = transmitted-Follows first c sent s k a payload busy small h;
          }))
    | inl free ↦ rw (free, thread_step) (next_payload (s.programs k) refl free)
  ]
    where
      next_payload :
          (program : List (List ℕ))
          → s.programs k ≡ program
          → s.waiting k ≡ none
          → Followed (c + 1) (elim program [ [] ↦ s | payload ∷ rest ↦ allocate k payload rest s ])
      next_payload [] e free = record { count = c; sent = sent; bounded = omega arith; follows = h }
      next_payload (payload ∷ rest) e free =
          rw (allocate-allocated first c sent s k payload rest h) (record {
            count = c + 1;
            sent = sent;
            bounded = omega arith;
            follows = allocated-Follows first c sent s k payload rest few free e h;
          })

  run_threads-Followed :
      (schedule : List ℕ) (c : ℕ) (sent : List Sent) (s : Threads)
      → c + length schedule ≤ 65535
      → Follows first c sent s
      → Followed (c + length schedule) (run_threads schedule s)
  unfolding run_threads
  run_threads-Followed [] c sent s few h = record {
    count = c;
    sent = sent;
    bounded = omega arith;
    follows = h;
  }
  run_threads-Followed (k ∷ schedule) c sent s few h =
      let one = thread_step-Followed k c sent s (omega arith) h in
      let all =
        run_threads-Followed schedule one.count one.sent (thread_step k s)
          (omega (arith, one.bounded)) one.follows in
      record {
        count = all.count;
        sent = all.sent;
        bounded = omega (arith, all.bounded, one.bounded);
        follows = all.follows;
      }

-- Any number of threads send payloads of at most 4096 bytes over one transport that writes to a line, under
-- any schedule of at most 65535 atomic steps: what the schedule adds to the line is a row of whole frames,
-- no two with the same number, and for each thread the payloads of its frames, then the one it is sending,
-- then those it has left, are the payloads that it started with, in their order.
pub run_threads-frames :
    (schedule : List ℕ) (s : Threads)
    → AreReady s
    → length schedule ≤ 65535
    → (sent : List Sent) × ((run_threads schedule s).wire ≡ s.wire ++ frames_of sent)
      × ((k : ℕ)
          → payloads_by k sent
              ++ (held ((run_threads schedule s).waiting k) ++ (run_threads schedule s).programs k)
            ≡ s.programs k)
      × AreNumberedApart sent
run_threads-frames schedule s h few =
    let r = run_threads-Followed s schedule 0 [] s (omega arith) (ready-Follows s h) in
    (r.sent, r.follows.line, r.follows.order, r.follows.apart)
