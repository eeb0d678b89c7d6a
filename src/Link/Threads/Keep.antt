-- ===== src/Link/Threads/Keep.antt =====
-- What holds of threads that share a transport at every moment.
use midi2pwmv2_libcomm.Common.{
  ℕ, ◌≤◌, ◌≡◌, ◌≢◌, sym, ap, arith, none, some, List, [], ◌++◌, append-nil, length, All,
}
use midi2pwmv2_libcomm.Transport.{max_frame_size}
use midi2pwmv2_libcomm.Transport.Transmit.{IsStatics}
use midi2pwmv2_libcomm.Transport.Sequence.{IsSequence, number_after}
use midi2pwmv2_libcomm.Link.{put_on_wire}
use midi2pwmv2_libcomm.Link.Threads.{
  Threads, Sent, frames_of, payloads_by, held, AreNumberedApart, IsUsed,
}

abbrev pub IsSmall : List ℕ → Type 0
IsSmall payload = length payload ≤ max_frame_size

-- Threads that are set up to send: the transport writes to the line, and no call is under way.
pub record AreReady (s : Threads) : Type 0 where
  pub writes : s.transport.write ≡ some put_on_wire
  pub valid : IsSequence s.transport.next_sequence
  pub statics : IsStatics s.statics
  pub idle : (k : ℕ) → s.waiting k ≡ none
  pub small : (k : ℕ) → All IsSmall (s.programs k)

module _ (first : Threads) where
  -- After `c` allocations and with `sent` on the line.
  pub record Follows (c : ℕ) (sent : List Sent) (s : Threads) : Type 0 where
    pub writes : s.transport.write ≡ some put_on_wire
    pub next : s.transport.next_sequence ≡ number_after c first.transport.next_sequence
    pub statics : IsStatics s.statics
    pub line : s.wire ≡ first.wire ++ frames_of sent
    pub order :
        (k : ℕ) → payloads_by k sent ++ (held (s.waiting k) ++ s.programs k) ≡ first.programs k
    pub small : (k : ℕ) → All IsSmall (held (s.waiting k) ++ s.programs k)
    pub numbers : All (λ f. IsUsed first.transport.next_sequence c f.number) sent
    pub apart : AreNumberedApart sent
    pub taken :
        (k a : ℕ) (payload : List ℕ)
        → s.waiting k ≡ some (a, payload)
        → IsUsed first.transport.next_sequence c a × All (λ f. f.number ≢ a) sent
    pub alone :
        (k j a : ℕ) (p q : List ℕ) → s.waiting k ≡ some (a, p) → s.waiting j ≡ some (a, q) → k ≡ j

  pub ready-Follows : AreReady first → Follows 0 [] first
  ready-Follows h = record {
    writes = h.writes;
    next = omega (arith, h.valid);
    statics = h.statics;
    line = sym (append-nil first.wire);
    order = λ k. ap (λ w. held w ++ first.programs k) (h.idle k);
    small = λ k. rw (h.idle k) (h.small k);
    numbers = tt;
    apart = tt;
    taken = λ k a payload e. absurd (cc (h.idle k));
    alone = λ k j a p q e d. absurd (cc (h.idle k));
  }
