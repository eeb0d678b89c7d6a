-- ===== src/Ota/Activation.antt =====
-- When `handleEnd` activates the new firmware.
use midi2pwmv2_libcomm.Common.{
  ◌≡◌, refl, sym, ap, ◌∙◌, arith, ◌==◌, true, inl, inr, Bool-cases, Option, none,
}
use midi2pwmv2_libcomm.Ota.{
  is_receiving, Target, idle, receiving, verifying, applying, rebooting, Message, FlashWriter,
  SendProgress, OtaManager, transition_to, fail_with, abort_with, activate_slot, verify_image,
  finish_image, handle_end,
}
use midi2pwmv2_libcomm.Ota.Session.{flash_side, host_side, report_progress-flash}

-- All announced chunks are there, and the flash accepts the image.
pub record IsComplete {W : Type 0} (writer : FlashWriter W) (o : OtaManager) (w : W) : Type 0 where
  pub counted : o.received_chunks ≡ o.total_chunks
  pub finished : (writer.finish w).0 ≡ true
  pub matching : (writer.verify o.expected_crc32 (writer.finish w).1).0 ≡ true
  pub activated : (writer.activate (writer.verify o.expected_crc32 (writer.finish w).1).1).0 ≡ true

-- The two ways in which `handleEnd` may end.
pub data Ending {W H : Type 0} (writer : FlashWriter W) (o : OtaManager) (w : W)
    (r : OtaManager × (W × H)) : Type 0 where
  activates : IsComplete writer o w → r.0 ≡ record o { status = rebooting } → Ending writer o w r
  aborts :
      (w' : W)
      → ¬ IsComplete writer o w
      → r.0 ≡ record o { status = idle }
      → r.1.0 ≡ writer.abort w'
      → Ending writer o w r

module _ {W H : Type 0} (writer : FlashWriter W) (target : Target)
    (send : Option (SendProgress H)) where
  abbrev F : FlashWriter (W × H)
  F = flash_side writer

  abbrev P : Option (SendProgress (W × H))
  P = host_side send

  transition_to-flash :
      (o : OtaManager) (st : _) (x : W × H) → (transition_to F target P o st none x).1.0 ≡ x.0
  unfolding transition_to
  transition_to-flash o st x =
      report_progress-flash writer target send (record o { status = st }) none x

  abort_with-aborts :
      (o p : OtaManager) (w : W) (msg : Message) (x : W × H)
      → ¬ IsComplete writer o w
      → record p { status = idle } ≡ record o { status = idle }
      → Ending writer o w (abort_with F target P p msg x)
  unfolding abort_with fail_with transition_to
  abort_with-aborts o p w msg x incomplete same =
      aborts x.0 incomplete same (report_progress-flash writer target send _ _ _)

  activate_slot-Ending :
      (o p : OtaManager) (w : W) (x : W × H)
      → record p { status = idle } ≡ record o { status = idle }
      → record p { status = rebooting } ≡ record o { status = rebooting }
      → o.received_chunks ≡ o.total_chunks
      → (writer.finish w).0 ≡ true
      → (writer.verify o.expected_crc32 (writer.finish w).1).0 ≡ true
      → x.0 ≡ (writer.verify o.expected_crc32 (writer.finish w).1).1
      → Ending writer o w (activate_slot F target P p x)
  unfolding activate_slot
  activate_slot-Ending o p w x same same' counted finished matching state =
      let o1 = transition_to F target P p applying none x in
      let o2 = transition_to F target P o1.0 rebooting none o1.1 in
      let flash : o2.1.0 ≡ (writer.verify o.expected_crc32 (writer.finish w).1).1 =
        transition_to-flash o1.0 rebooting o1.1 ∙ transition_to-flash p applying x ∙ state in
      elim (Bool-cases (writer.activate o2.1.0).0) [
        | inl good ↦ rw good (
            activates
              (record {
                counted = counted;
                finished = finished;
                matching = matching;
                activated = ap (λ v. (writer.activate v).0) (sym flash) ∙ good;
              })
              (unfold transition_to in same'))
        | inr bad ↦ rw bad (
            abort_with-aborts o o2.0 w _ _
              (λ c.
                absurd (let t = ap (λ v. (writer.activate v).0) flash in cc (c.activated, bad, t)))
              (unfold transition_to in same))
      ]

  verify_image-Ending :
      (o : OtaManager) (w : W) (x : W × H)
      → o.received_chunks ≡ o.total_chunks
      → (writer.finish w).0 ≡ true
      → x.0 ≡ (writer.finish w).1
      → Ending writer o w (verify_image F target P o x)
  unfolding verify_image
  verify_image-Ending o w x counted finished state =
      let o1 = transition_to F target P o verifying none x in
      let flash : o1.1.0 ≡ (writer.finish w).1 = transition_to-flash o verifying x ∙ state in
      let crc : o1.0.expected_crc32 ≡ o.expected_crc32 = unfold transition_to in refl in
      let same : writer.verify o1.0.expected_crc32 o1.1.0
          ≡ writer.verify o.expected_crc32 (writer.finish w).1 =
        ap (λ c. writer.verify c o1.1.0) crc ∙ ap (writer.verify o.expected_crc32) flash in
      elim (Bool-cases (writer.verify o1.0.expected_crc32 o1.1.0).0) [
        | inl good ↦ rw good (
            activate_slot-Ending o o1.0 w _ (unfold transition_to in refl)
              (unfold transition_to in refl) counted finished (ap (λ r. r.0) (sym same) ∙ good)
              (ap (λ r. r.1) same))
        | inr bad ↦ rw bad (
            abort_with-aborts o o1.0 w _ _
              (λ c. absurd (let t = ap (λ r. r.0) same in cc (c.matching, bad, t)))
              (unfold transition_to in refl))
      ]

  -- `handleEnd` while receiving: if the count of chunks is the announced one and the flash finishes,
  -- verifies the announced checksum and activates, the manager is rebooting; otherwise the manager is idle
  -- and the last call of the flash writer was `abort`.
  pub handle_end-Ending :
      (o : OtaManager) (x : W × H)
      → o.status ≡ receiving
      → Ending writer o x.0 (handle_end F target P o x)
  unfolding handle_end finish_image
  handle_end-Ending o x e =
      let now : is_receiving o.status ≡ true = ap is_receiving e in
      rw now (elim (Bool-cases (o.received_chunks == o.total_chunks)) [
        | inl all ↦ rw all (elim (Bool-cases (writer.finish x.0).0) [
          | inl good ↦
              rw good
                (verify_image-Ending o x.0 ((writer.finish x.0).1, x.1) (ground arith) good refl)
          | inr bad ↦
              rw bad (abort_with-aborts o o x.0 _ _ (λ c. absurd (cc (c.finished, bad))) refl)
        ])
        | inr few ↦
            rw few (abort_with-aborts o o x.0 _ _ (λ c. absurd (ground (arith, c.counted))) refl)
      ])
