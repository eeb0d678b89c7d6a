-- ===== src/Link/Threads/Transmit.antt =====
-- A transmission of a frame keeps what holds of the threads.
use mathlib.Core.Path.{subst}
use midi2pwmv2_libcomm.Common.{
  ℕ, ◌≡◌, ◌≢◌, refl, sym, ap, ◌∙◌, ◌==◌, ==_iff, Bool-cases, inl, inr, true, none, some, List, [],
  ◌∷◌, ◌++◌, append_assoc, append-nil, All, All-append,
}
use midi2pwmv2_libcomm.Transport.Frame.{frame}
use midi2pwmv2_libcomm.Transport.Transmit.{turned, turned-IsStatics, transmit-frame}
use midi2pwmv2_libcomm.Link.{put_on_wire}
use midi2pwmv2_libcomm.Link.Threads.{
  Threads, put, transmit, Sent, frames_of, payloads_by, held, frames_of-snoc, payloads_by-snoc,
  apart-snoc, IsUsed,
}
use midi2pwmv2_libcomm.Link.Threads.Keep.{IsSmall, Follows}

module _ (first : Threads) where
  -- The state after a transmission, written out.
  abbrev pub transmitted : ℕ → ℕ → List ℕ → Threads → Threads
  transmitted k a payload s = record s {
    statics = turned a payload s.statics;
    wire = s.wire ++ frame a payload;
    waiting = put s.waiting k none;
  }

  pub transmit-transmitted :
      (c : ℕ) (sent : List Sent) (s : Threads) (k a : ℕ) (payload : List ℕ)
      → IsSmall payload
      → Follows first c sent s
      → transmit k a payload s ≡ transmitted k a payload s
  unfolding transmit
  transmit-transmitted c sent s k a payload small h =
      rw
        (transmit-frame put_on_wire s.transport a payload s.statics s.wire h.writes h.statics small)
        refl

  pub transmitted-Follows :
      (c : ℕ) (sent : List Sent) (s : Threads) (k a : ℕ) (payload : List ℕ)
      → s.waiting k ≡ some (a, payload)
      → IsSmall payload
      → Follows first c sent s
      → Follows first c
          (sent ++ (record { thread = k; number = a; payload = payload } ∷ []))
          (transmitted k a payload s)
  transmitted-Follows c sent s k a payload busy small h =
      let f : Sent = record { thread = k; number = a; payload = payload } in
      let (used, unsent) = h.taken k a payload busy in
      record {
        writes = h.writes;
        next = h.next;
        statics = turned-IsStatics a payload s.statics h.statics small;
        line =
            ap (λ w. w ++ frame a payload) h.line
            ∙ append_assoc first.wire (frames_of sent) (frame a payload)
            ∙ ap (λ r. first.wire ++ r) (sym (frames_of-snoc sent f));
        order = λ j.
            ap (λ r. r ++ (held (put s.waiting k none j) ++ s.programs j))
              (payloads_by-snoc j sent f)
            ∙ elim (Bool-cases (k == j)) [
              | inl same ↦ rw same (
                  append_assoc (payloads_by j sent) (payload ∷ []) (s.programs j)
                  ∙ ap (λ w. payloads_by j sent ++ (held w ++ s.programs j))
                      (sym (waiting_there j same))
                  ∙ h.order j)
              | inr other ↦ rw other (
                  ap (λ r. r ++ (held (s.waiting j) ++ s.programs j))
                    (append-nil (payloads_by j sent))
                  ∙ h.order j)
            ];
        small = λ j. elim (Bool-cases (k == j)) [
          | inl same ↦
              let now : All IsSmall (payload ∷ s.programs j) =
                subst (λ w. All IsSmall (held w ++ s.programs j)) (waiting_there j same)
                  (h.small j) in
              rw same now.1
          | inr other ↦ rw other (h.small j)
        ];
        numbers =
            All-append (λ g. IsUsed first.transport.next_sequence c g.number) sent (f ∷ [])
              h.numbers (used, tt);
        apart = apart-snoc sent f h.apart unsent;
        taken = λ j b p e. elim (Bool-cases (k == j)) [
          | inl same ↦ absurd (still_free j b p same e)
          | inr other ↦
              let e' : s.waiting j ≡ some (b, p) = rw other at e in
              let (used', unsent') = h.taken j b p e' in
              (
                used',
                All-append (λ g. g.number ≢ b) sent (f ∷ []) unsent'
                    (
                      λ (same : a ≡ b).
                          let k≡j : k ≡ j =
                            h.alone k j b payload p (busy ∙ ap (λ (x : ℕ). some (x, payload)) same)
                              e' in
                          let equal : (k == j) ≡ true = (==_iff k j).1 k≡j in absurd (cc),
                      tt,
                    ),
              )
        ];
        alone = λ i j b p q e d. elim (Bool-cases (k == i)) [
          | inl here ↦ absurd (still_free i b p here e)
          | inr away ↦ elim (Bool-cases (k == j)) [
            | inl there ↦ absurd (still_free j b q there d)
            | inr other ↦ h.alone i j b p q (rw away at e) (rw other at d)
          ]
        ];
      }
    where
      waiting_there : (j : ℕ) → (k == j) ≡ true → s.waiting j ≡ some (a, payload)
      waiting_there j same = ap s.waiting (sym ((==_iff k j).0 same)) ∙ busy

      still_free :
          (j b : ℕ) (p : List ℕ) → (k == j) ≡ true → put s.waiting k none j ≡ some (b, p) → ⊥
      still_free j b p same e = let e' : none ≡ some (b, p) = rw same at e in cc
