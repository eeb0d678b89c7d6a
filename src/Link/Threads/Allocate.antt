-- ===== src/Link/Threads/Allocate.antt =====
-- An allocation of a number keeps what holds of the threads.
use mathlib.Core.Path.{subst}
use midi2pwmv2_libcomm.Common.{
  ℕ, ◌+◌, ◌<◌, ◌≡◌, ◌≢◌, refl, sym, ap, ◌∙◌, arith, ◌==◌, ==_iff, Bool-cases, inl, inr, true, none,
  some, List, [], ◌∷◌, ◌++◌, All,
}
use midi2pwmv2_libcomm.Transport.Sequence.{successor, number_after, next_sequence_lem}
use midi2pwmv2_libcomm.Link.Threads.{Threads, put, allocate, Sent, payloads_by, held, IsUsed}
use midi2pwmv2_libcomm.Link.Threads.Keep.{IsSmall, Follows}

module _ (first : Threads) where
  IsUsed-later :
      (c a : ℕ)
      → IsUsed first.transport.next_sequence c a
      → IsUsed first.transport.next_sequence (c + 1) a
  IsUsed-later c a (i, less, e) = (i, omega (arith, less), e)

  -- The number that comes next is not among those given out.
  unused :
      (c a : ℕ)
      → c < 65535
      → IsUsed first.transport.next_sequence c a
      → a ≢ number_after c first.transport.next_sequence
  unused c a few (i, less, e) same = omega (arith, less, e, same)

  all_later :
      (c : ℕ) (sent : List Sent)
      → All (λ f. IsUsed first.transport.next_sequence c f.number) sent
      → All (λ f. IsUsed first.transport.next_sequence (c + 1) f.number) sent
  all_later c [] h = tt
  all_later c (f ∷ fs) h = (IsUsed-later c f.number h.0, all_later c fs h.1)

  all_unused :
      (c : ℕ) (sent : List Sent)
      → c < 65535
      → All (λ f. IsUsed first.transport.next_sequence c f.number) sent
      → All (λ f. f.number ≢ number_after c first.transport.next_sequence) sent
  all_unused c [] few h = tt
  all_unused c (f ∷ fs) few h = (unused c f.number few h.0, all_unused c fs few h.1)

  -- The state after an allocation, written out.
  abbrev pub allocated : ℕ → List ℕ → List (List ℕ) → Threads → Threads
  allocated k payload rest s = record s {
    transport = record s.transport { next_sequence = successor s.transport.next_sequence };
    programs = put s.programs k rest;
    waiting = put s.waiting k (some (s.transport.next_sequence, payload));
  }

  pub allocate-allocated :
      (c : ℕ) (sent : List Sent) (s : Threads) (k : ℕ) (payload : List ℕ) (rest : List (List ℕ))
      → Follows first c sent s
      → allocate k payload rest s ≡ allocated k payload rest s
  unfolding allocate
  allocate-allocated c sent s k payload rest h =
      rw (next_sequence_lem s.transport (omega (arith, h.next))) refl

  pub allocated-Follows :
      (c : ℕ) (sent : List Sent) (s : Threads) (k : ℕ) (payload : List ℕ) (rest : List (List ℕ))
      → c < 65535
      → s.waiting k ≡ none
      → s.programs k ≡ payload ∷ rest
      → Follows first c sent s
      → Follows first (c + 1) sent (allocated k payload rest s)
  allocated-Follows c sent s k payload rest few free program h =
      let n : ℕ = first.transport.next_sequence in
      let new : IsUsed n (c + 1) s.transport.next_sequence = (c, omega arith, h.next) in
      record {
        writes = h.writes;
        next = omega (arith, h.next);
        statics = h.statics;
        line = h.line;
        order = λ j. elim (Bool-cases (k == j)) [
          | inl same ↦
              let e : k ≡ j = (==_iff k j).0 same in
              rw same (
                ap (λ r. payloads_by j sent ++ r)
                  (sym both ∙ ap (λ i. held (s.waiting i) ++ s.programs i) e)
                ∙ h.order j)
          | inr other ↦ rw other (h.order j)
        ];
        small = λ j. elim (Bool-cases (k == j)) [
          | inl same ↦ rw same (subst (All IsSmall) both (h.small k))
          | inr other ↦ rw other (h.small j)
        ];
        numbers = all_later c sent h.numbers;
        apart = h.apart;
        taken = λ j a p e. elim (Bool-cases (k == j)) [
          | inl same ↦
              let got : s.transport.next_sequence ≡ a = taken_number j a p same e in
              (
                subst (IsUsed n (c + 1)) got new,
                subst (λ x. All (λ f. f.number ≢ x) sent) (sym h.next ∙ got)
                    (all_unused c sent few h.numbers),
              )
          | inr other ↦
              let (used, unsent) = h.taken j a p (rw other at e) in (IsUsed-later c a used, unsent)
        ];
        alone = λ i j a p q e d. elim (Bool-cases (k == i)) [
          | inl here ↦ elim (Bool-cases (k == j)) [
            | inl there ↦ sym ((==_iff k i).0 here) ∙ (==_iff k j).0 there
            | inr other ↦
                let (used, unsent) = h.taken j a q (rw other at d) in
                absurd (unused c a few used (sym (taken_number i a p here e) ∙ h.next))
          ]
          | inr away ↦ elim (Bool-cases (k == j)) [
            | inl there ↦
                let (used, unsent) = h.taken i a p (rw away at e) in
                absurd (unused c a few used (sym (taken_number j a q there d) ∙ h.next))
            | inr other ↦ h.alone i j a p q (rw away at e) (rw other at d)
          ]
        ];
      }
    where
      both : held (s.waiting k) ++ s.programs k ≡ payload ∷ rest
      both = rw (free, program) refl

      taken_number :
          (j a : ℕ) (p : List ℕ)
          → (k == j) ≡ true
          → put s.waiting k (some (s.transport.next_sequence, payload)) j ≡ some (a, p)
          → s.transport.next_sequence ≡ a
      taken_number j a p same e =
          let e' : some (s.transport.next_sequence, payload) ≡ some (a, p) = rw same at e in cc
