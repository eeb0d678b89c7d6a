-- ===== src/Ota/Reports.antt =====
-- The reports of `OtaManager` as data, apart from what the progress callback does with them.
mod Examples
use midi2pwmv2_libcomm.Common.{
  ℕ, ◌+◌, ◌%◌, ◌^◌, ◌≡◌, refl, ap, ◌∙◌, ◌==◌, ltb, ◌||◌, inl, inr, Bool-cases, Option-cases, Option,
  none, some, List, [], ◌∷◌, length, Span, null, points,
}
use midi2pwmv2_libcomm.Ota.{
  Target, OtaStatus, Message, empty_chunk, FlashWriter, SendProgress, OtaManager, OtaData,
  report_progress, transition_to, fail_with, abort_with, restart, erase, begin_idle, handle_begin,
  handle_begin_message, count_chunk, store_chunk, accept_chunk, handle_data, handle_data_message,
  activate_slot, verify_image, finish_image, handle_end, handle_end_message, handle_abort,
  handle_abort_message, is_idle, is_receiving,
}
use midi2pwmv2_libcomm.Ota.Command.{
  Command, calls_begin, calls_begin_message, calls_data, calls_data_message, calls_end,
  calls_end_message, calls_abort, calls_abort_message, call, run,
}
use midi2pwmv2_libcomm.Ota.Session.{flash_side, host_side}

module _ {W H K : Type 0} (writer : FlashWriter W) (target : Target) (send : SendProgress H)
    (send' : SendProgress K) (view : H → K)
    (commutes : (t : Target) (st : OtaStatus) (r n : ℕ) (msg : Option Message) (h : H)
      → view (send t st r n msg h) ≡ send' t st r n msg (view h)) where
  abbrev F : FlashWriter (W × H)
  F = flash_side writer

  abbrev P : Option (SendProgress (W × H))
  P = host_side (some send)

  abbrev G : FlashWriter (W × K)
  G = flash_side writer

  abbrev Q : Option (SendProgress (W × K))
  Q = host_side (some send')

  -- The same world with the other host.
  abbrev seen : W × H → W × K
  seen x = (x.0, view x.1)

  abbrev seen_too : OtaManager × (W × H) → OtaManager × (W × K)
  seen_too r = (r.0, seen r.1)

  fail_with-seen :
      (o : OtaManager) (msg : Message) (x : W × H)
      → seen_too (fail_with F target P o msg x) ≡ fail_with G target Q o msg (seen x)
  unfolding fail_with transition_to report_progress
  fail_with-seen o msg x = simp commutes

  abort_with-seen :
      (o : OtaManager) (msg : Message) (x : W × H)
      → seen_too (abort_with F target P o msg x) ≡ abort_with G target Q o msg (seen x)
  unfolding abort_with
  abort_with-seen o msg x = fail_with-seen o msg (F.abort x)

  activate_slot-seen :
      (o : OtaManager) (x : W × H)
      → seen_too (activate_slot F target P o x) ≡ activate_slot G target Q o (seen x)
  unfolding activate_slot transition_to report_progress
  activate_slot-seen o x = elim (Bool-cases (writer.activate x.0).0) [
    | inl good ↦ rw good (simp commutes)
    | inr bad ↦ rw bad (abort_with-seen _ _ _ ∙ simp commutes)
  ]

  verify_image-seen :
      (o : OtaManager) (x : W × H)
      → seen_too (verify_image F target P o x) ≡ verify_image G target Q o (seen x)
  unfolding verify_image transition_to report_progress
  verify_image-seen o x = elim (Bool-cases (writer.verify o.expected_crc32 x.0).0) [
    | inl good ↦ rw good (activate_slot-seen _ _ ∙ simp commutes)
    | inr bad ↦ rw bad (abort_with-seen _ _ _ ∙ simp commutes)
  ]

  finish_image-seen :
      (o : OtaManager) (x : W × H)
      → seen_too (finish_image F target P o x) ≡ finish_image G target Q o (seen x)
  unfolding finish_image
  finish_image-seen o x = elim (Bool-cases (writer.finish x.0).0) [
    | inl good ↦ rw good (verify_image-seen _ _)
    | inr bad ↦ rw bad (abort_with-seen _ _ _)
  ]

  handle_end-seen :
      (o : OtaManager) (x : W × H)
      → seen_too (handle_end F target P o x) ≡ handle_end G target Q o (seen x)
  unfolding handle_end
  handle_end-seen o x = elim (Bool-cases (is_receiving o.status)) [
    | inl now ↦ rw now (elim (Bool-cases (o.received_chunks == o.total_chunks)) [
      | inl all ↦ rw all (finish_image-seen o x)
      | inr few ↦ rw few (abort_with-seen o _ x)
    ])
    | inr other ↦ rw other refl
  ]

  count_chunk-seen :
      (o : OtaManager) (x : W × H)
      → seen_too (count_chunk F target P o x) ≡ count_chunk G target Q o (seen x)
  unfolding count_chunk report_progress
  count_chunk-seen o x =
      let next : ℕ = (o.received_chunks + 1) % 2 ^ 16 in
      elim (Bool-cases ((next == o.total_chunks) || ((next % 50) == 0))) [
        | inl due ↦ rw due (simp commutes)
        | inr quiet ↦ rw quiet refl
      ]

  store_chunk-seen :
      (o : OtaManager) (index : ℕ) (bytes : List ℕ) (x : W × H)
      → seen_too (store_chunk F target P o index bytes x)
        ≡ store_chunk G target Q o index bytes (seen x)
  unfolding store_chunk
  store_chunk-seen o index bytes x = elim (Bool-cases (writer.write_chunk index bytes x.0).0) [
    | inl good ↦ rw good (count_chunk-seen _ _)
    | inr bad ↦ rw bad (abort_with-seen _ _ _)
  ]

  accept_chunk-seen :
      (o : OtaManager) (index : ℕ) (chunk : Span) (x : W × H)
      → seen_too (accept_chunk F target P o index chunk x)
        ≡ accept_chunk G target Q o index chunk (seen x)
  unfolding accept_chunk
  accept_chunk-seen o index (null n) x = abort_with-seen o empty_chunk x
  accept_chunk-seen o index (points bytes) x = elim (Bool-cases (length bytes == 0)) [
    | inl empty ↦ rw empty (abort_with-seen o empty_chunk x)
    | inr given ↦ rw given (store_chunk-seen o index bytes x)
  ]

  handle_data-seen :
      (o : OtaManager) (index : ℕ) (chunk : Span) (x : W × H)
      → seen_too (handle_data F target P o index chunk x)
        ≡ handle_data G target Q o index chunk (seen x)
  unfolding handle_data
  handle_data-seen o index chunk x = elim (Bool-cases (is_receiving o.status)) [
    | inl now ↦ rw now (elim (Bool-cases (index == o.received_chunks)) [
      | inl expected ↦ rw expected (accept_chunk-seen o index chunk x)
      | inr wrong ↦ rw wrong (abort_with-seen o _ x)
    ])
    | inr other ↦ rw other refl
  ]

  handle_data_message-seen :
      (o : OtaManager) (msg : OtaData) (x : W × H)
      → seen_too (handle_data_message F target P o msg x)
        ≡ handle_data_message G target Q o msg (seen x)
  unfolding handle_data_message
  handle_data_message-seen o msg x = elim (Option-cases msg.data_bytes) [
    | inl none_given ↦ rw none_given (abort_with-seen o empty_chunk x)
    | inr (bytes, given) ↦ rw given (elim (Bool-cases (length bytes == 0)) [
      | inl empty ↦ rw empty (abort_with-seen o empty_chunk x)
      | inr full ↦ rw full (handle_data-seen o msg.chunk_index (points bytes) x)
    ])
  ]

  erase-seen :
      (o : OtaManager) (size : ℕ) (x : W × H)
      → seen_too (erase F target P o size x) ≡ erase G target Q o size (seen x)
  unfolding erase transition_to report_progress
  erase-seen o size x = elim (Bool-cases (writer.begin size x.0).0) [
    | inl good ↦ rw good (simp commutes)
    | inr bad ↦ rw bad (abort_with-seen _ _ _ ∙ simp commutes)
  ]

  begin_idle-seen :
      (o : OtaManager) (size crc chunks : ℕ) (x : W × H)
      → seen_too (begin_idle F target P o size crc chunks x)
        ≡ begin_idle G target Q o size crc chunks (seen x)
  unfolding begin_idle transition_to report_progress
  begin_idle-seen o size crc chunks x = elim (Bool-cases (is_idle o.status)) [
    | inl resting ↦
        rw resting (elim (Bool-cases ((size == 0) || ltb (writer.max_firmware_size x.0) size)) [
          | inl large ↦ rw large (fail_with-seen o _ x)
          | inr fits ↦ rw fits (erase-seen _ size x)
        ])
    | inr busy ↦ rw busy (simp commutes)
  ]

  handle_begin-seen :
      (o : OtaManager) (size crc chunks : ℕ) (x : W × H)
      → seen_too (handle_begin F target P o size crc chunks x)
        ≡ handle_begin G target Q o size crc chunks (seen x)
  unfolding handle_begin restart
  handle_begin-seen o size crc chunks x = elim (Bool-cases (is_idle o.status)) [
    | inl resting ↦ rw resting (begin_idle-seen o size crc chunks x)
    | inr busy ↦ rw busy (begin_idle-seen _ size crc chunks (F.abort x))
  ]

  handle_abort-seen :
      (o : OtaManager) (reason : Option (List ℕ)) (x : W × H)
      → seen_too (handle_abort F target P o reason x) ≡ handle_abort G target Q o reason (seen x)
  unfolding handle_abort
  handle_abort-seen o none x = elim (Bool-cases (is_idle o.status)) [
    | inl resting ↦ rw resting refl
    | inr busy ↦ rw busy (abort_with-seen o _ x)
  ]
  handle_abort-seen o (some text) x = elim (Bool-cases (is_idle o.status)) [
    | inl resting ↦ rw resting refl
    | inr busy ↦ rw busy (abort_with-seen o _ x)
  ]

  call-seen :
      (c : Command) (o : OtaManager) (x : W × H)
      → seen_too (call F target P c o x) ≡ call G target Q c o (seen x)
  unfolding handle_begin_message handle_end_message handle_abort_message
  call-seen (calls_begin size crc chunks) o x = handle_begin-seen o size crc chunks x
  call-seen (calls_begin_message msg) o x =
      handle_begin-seen o msg.firmware_size msg.firmware_crc32 msg.chunk_count x
  call-seen (calls_data index chunk) o x = handle_data-seen o index chunk x
  call-seen (calls_data_message msg) o x = handle_data_message-seen o msg x
  call-seen calls_end o x = handle_end-seen o x
  call-seen (calls_end_message msg) o x = handle_end-seen o x
  call-seen (calls_abort reason) o x = handle_abort-seen o reason x
  call-seen (calls_abort_message msg) o x = handle_abort-seen o msg.reason x

  -- A callback that does through a view what another one does leads to the view of the same world.
  pub run-seen :
      (cs : List Command) (o : OtaManager) (x : W × H)
      → seen_too (run F target P cs o x) ≡ run G target Q cs o (seen x)
  unfolding run
  run-seen [] o x = refl
  run-seen (c ∷ cs) o x = run-seen cs _ _ ∙ ap (λ r. run G target Q cs r.0 r.1) (call-seen c o x)
