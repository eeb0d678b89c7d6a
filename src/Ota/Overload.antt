-- ===== src/Ota/Overload.antt =====
-- The overloads of `OtaManager` that take a message against those that take its fields.
use midi2pwmv2_libcomm.Common.{
  ℕ, ◌<◌, ◌≡◌, refl, arith, ◌==◌, false, Option, some, List, length, points,
}
use midi2pwmv2_libcomm.Ota.{
  Target, FlashWriter, SendProgress, OtaManager, OtaBegin, OtaEnd, OtaAbort, handle_begin,
  handle_begin_message, handle_data, handle_data_message, handle_end, handle_end_message,
  handle_abort, handle_abort_message,
}

module _ {W : Type 0} (writer : FlashWriter W) (target : Target) (send : Option (SendProgress W))
    (o : OtaManager) (w : W) where
  pub handle_begin_message_lem :
      (msg : OtaBegin)
      → handle_begin_message writer target send o msg w
        ≡ handle_begin writer target send o msg.firmware_size msg.firmware_crc32 msg.chunk_count w
  unfolding handle_begin_message
  handle_begin_message_lem msg = refl

  -- A chunk that is there and not empty.
  pub handle_data_message-points :
      (to : Target) (index : ℕ) (bytes : List ℕ)
      → 0 < length bytes
      → handle_data_message writer target send o
          (record { data_target = to; chunk_index = index; data_bytes = some bytes })
          w
        ≡ handle_data writer target send o index (points bytes) w
  unfolding handle_data_message
  handle_data_message-points to index bytes given =
      let full : (length bytes == 0) ≡ false = ground arith in rw full refl

  pub handle_end_message_lem :
      (msg : OtaEnd)
      → handle_end_message writer target send o msg w ≡ handle_end writer target send o w
  unfolding handle_end_message
  handle_end_message_lem msg = refl

  pub handle_abort_message_lem :
      (msg : OtaAbort)
      → handle_abort_message writer target send o msg w
        ≡ handle_abort writer target send o msg.reason w
  unfolding handle_abort_message
  handle_abort_message_lem msg = refl
