-- ===== src/Ota/Command.antt =====
-- Sequences of calls of the handlers of `OtaManager`.
use midi2pwmv2_libcomm.Common.{ℕ, Option, Span, List, [], ◌∷◌}
use midi2pwmv2_libcomm.Ota.{
  Target, FlashWriter, SendProgress, OtaManager, OtaBegin, OtaData, OtaEnd, OtaAbort, handle_begin,
  handle_begin_message, handle_data, handle_data_message, handle_end, handle_end_message,
  handle_abort, handle_abort_message,
}

-- One call, with its arguments.
pub data Command : Type 0 where
  calls_begin : ℕ → ℕ → ℕ → Command
  calls_begin_message : OtaBegin → Command
  calls_data : ℕ → Span → Command
  calls_data_message : OtaData → Command
  calls_end : Command
  calls_end_message : OtaEnd → Command
  calls_abort : Option (List ℕ) → Command
  calls_abort_message : OtaAbort → Command

module _ {W : Type 0} (writer : FlashWriter W) (target : Target)
    (send : Option (SendProgress W)) where
  abbrev pub call : Command → OtaManager → W → OtaManager × W
  call (calls_begin size crc chunks) o w = handle_begin writer target send o size crc chunks w
  call (calls_begin_message msg) o w = handle_begin_message writer target send o msg w
  call (calls_data index chunk) o w = handle_data writer target send o index chunk w
  call (calls_data_message msg) o w = handle_data_message writer target send o msg w
  call calls_end o w = handle_end writer target send o w
  call (calls_end_message msg) o w = handle_end_message writer target send o msg w
  call (calls_abort reason) o w = handle_abort writer target send o reason w
  call (calls_abort_message msg) o w = handle_abort_message writer target send o msg w

  unfoldable pub run : List Command → OtaManager → W → OtaManager × W
  run [] o w = (o, w)
  run (c ∷ cs) o w = let (o', w') = call c o w in run cs o' w'
