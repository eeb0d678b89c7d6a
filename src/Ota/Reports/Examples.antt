-- ===== src/Ota/Reports/Examples.antt =====
-- The reports of an update that starts and then gets a chunk out of turn, over a line.
use midi2pwmv2_libcomm.Common.{
  ℕ, ◌^◌, ◌≡◌, refl, sym, ap, ◌∙◌, arith, ◌==◌, true, if◌then◌else◌, Option, none, some, List, [],
  ◌∷◌, ◌++◌, append-nil, map, length, length-append, length-replicate, replicate, get_or, points,
  All,
}
use mathlib.Core.Path.{subst}
use midi2pwmv2_libcomm.Transport.{initial_statics}
use midi2pwmv2_libcomm.Transport.Frame.{frame, length-frame}
use midi2pwmv2_libcomm.Transport.Transmit.{initial_statics-IsStatics}
use midi2pwmv2_libcomm.Transport.Sequence.{send_each, write_each, send_each-frames}
use midi2pwmv2_libcomm.Stream.{StreamProcessor}
use midi2pwmv2_libcomm.Stream.Pending.{pending}
use midi2pwmv2_libcomm.Stream.Chunks.{feed_each}
use midi2pwmv2_libcomm.Link.{put_on_wire}
use midi2pwmv2_libcomm.Ota.{
  OtaStatus, idle, preparing, receiving, verifying, applying, rebooting, error, Message,
  new_ota_manager, handle_begin, restart, begin_idle, erase, transition_to, report_progress,
  handle_data, abort_with, fail_with, esp32,
}
use midi2pwmv2_libcomm.Ota.Command.{Command, calls_begin, calls_data, run}
use midi2pwmv2_libcomm.Ota.Progress.{Told}
use midi2pwmv2_libcomm.Ota.Examples.{memory}
use midi2pwmv2_libcomm.Endpoint.{Schema}
use midi2pwmv2_libcomm.Endpoint.Wire.{IsMessage, frame_handler}
use midi2pwmv2_libcomm.Endpoint.Ota.{
  OtaProgress, OtaMessage, ota_begin, ota_data, ota_end, ota_progress, ota_abort, unknown,
  OtaEndpoint, dispatch,
}
use midi2pwmv2_libcomm.Endpoint.Ota.Report.{
  progress_message, keep_status, reports, reported, reported_line, feed_each-reported,
}

abbrev code_of : OtaStatus → ℕ
code_of idle = 0
code_of preparing = 1
code_of receiving = 2
code_of verifying = 3
code_of applying = 4
code_of rebooting = 5
code_of error = 6

abbrev status_of : ℕ → OtaStatus
status_of n = if n == 1 then preparing else if n == 2 then receiving else error

abbrev flag_of : Option (List ℕ) → ℕ
flag_of none = 0
flag_of (some text) = 1

abbrev encode : OtaMessage → List ℕ
encode (ota_progress (some r)) =
    4
    ∷ code_of r.progress_status
    ∷ r.chunks_received
    ∷ r.progress_total_chunks
    ∷ flag_of r.error_message
    ∷ []
encode (ota_progress none) = 0 ∷ []
encode (ota_begin m) = 0 ∷ []
encode (ota_data m) = 0 ∷ []
encode (ota_end m) = 0 ∷ []
encode (ota_abort m) = 0 ∷ []
encode (unknown n) = 0 ∷ []

abbrev decode : List ℕ → OtaMessage
decode bytes =
    if get_or bytes 0 0 == 4
    then ota_progress (
        some (record {
          progress_target = esp32;
          progress_status = status_of (get_or bytes 1 0);
          chunks_received = get_or bytes 2 0;
          progress_total_chunks = get_or bytes 3 0;
          error_message = if get_or bytes 4 0 == 1 then some [] else none;
        }))
    else unknown 0

abbrev report_schema : Schema OtaMessage
report_schema = record {
  serialize = encode;
  buffer_has_identifier = λ bytes. true;
  verify_buffer = λ bytes. true;
  get_envelope = λ bytes. some (decode bytes);
}

abbrev no_text : Message → List ℕ
no_text msg = []

abbrev out_of_turn : List Command
out_of_turn = calls_begin 3 77 2 ∷ calls_data 1 (points (5 ∷ [])) ∷ []

abbrev report : OtaStatus → Option (List ℕ) → OtaProgress
report status text = record {
  progress_target = esp32;
  progress_status = status;
  chunks_received = 0;
  progress_total_chunks = 2;
  error_message = text;
}

abbrev three_reports : List OtaProgress
three_reports = report preparing none ∷ report receiving none ∷ report error (some []) ∷ []

three_reports_lem : reports memory esp32 no_text report_schema out_of_turn [] ≡ three_reports
unfolding run new_ota_manager handle_begin restart begin_idle erase transition_to report_progress
    handle_data abort_with fail_with
three_reports_lem = refl

three_reports-IsMessage : All (IsMessage report_schema 5) (map progress_message three_reports)
three_reports-IsMessage = (
  record {
    carries = record {
      identified = refl;
      verified = refl;
      read_back = refl;
      written = omega arith;
      bytes = omega arith;
    };
    bounded = omega arith;
  },
  (
    record {
      carries = record {
        identified = refl;
        verified = refl;
        read_back = refl;
        written = omega arith;
        bytes = omega arith;
      };
      bounded = omega arith;
    },
    (
      record {
        carries = record {
          identified = refl;
          verified = refl;
          read_back = refl;
          written = omega arith;
          bytes = omega arith;
        };
        bounded = omega arith;
      },
      tt,
    ),
  ),
)

abbrev device : OtaEndpoint (List ℕ)
device = record {
  transport = record { write = some put_on_wire; next_sequence = 65535 };
  begin_handler = none;
  data_handler = none;
  end_handler = none;
  progress_handler = none;
  abort_handler = none;
}

abbrev host : OtaEndpoint (Option OtaStatus)
host = record {
  transport = record { write = none; next_sequence = 1 };
  begin_handler = none;
  data_handler = none;
  end_handler = none;
  progress_handler = some keep_status;
  abort_handler = none;
}

abbrev line : List ℕ
line = (reported memory esp32 no_text report_schema out_of_turn [] device initial_statics).1.1.2

abbrev buffer : OtaStatus → Option (List ℕ) → List ℕ
buffer status text = encode (progress_message (report status text))

length-line : length line ≡ 51
unfolding write_each
length-line =
    let first : List ℕ = buffer preparing none in
    let second : List ℕ = buffer receiving none in
    let third : List ℕ = buffer error (some []) in
    let (written, _) =
      send_each-frames put_on_wire device.transport
        (map encode (map progress_message three_reports)) initial_statics [] refl
        (record { positive = omega arith; bounded = omega arith }) initial_statics-IsStatics
        (omega arith, (omega arith, (omega arith, tt))) in
    ap length (
      reported_line memory esp32 no_text report_schema out_of_turn [] device initial_statics
      ∙ ap
          (λ rs.
            (send_each device.transport (map encode (map progress_message rs)) initial_statics
              []).2)
          three_reports_lem
      ∙ written)
    ∙ omega (
      arith,
      length-append (frame 65535 first) (frame 1 second),
      length-append (frame 65535 first ++ frame 1 second) (frame 2 third),
      length-frame 65535 first,
      length-frame 1 second,
      length-frame 2 third,
    )

abbrev listening : StreamProcessor (Option OtaStatus)
listening = record {
  buffer = replicate 4108 0;
  size = 0;
  frame_callback = some (frame_handler report_schema (dispatch host));
  error_callback = none;
  write_callback = none;
}

feed_each-reported_example :
    (q : StreamProcessor (Option OtaStatus)) × (last : Option OtaStatus) × (feed_each
        (2 ^ 32)
        (line ∷ [])
        listening
        none
      ≡ some (q, last))
    × Told
        (reported memory esp32 no_text report_schema out_of_turn [] device initial_statics).0.status
        last
    × (pending q ≡ [])
feed_each-reported_example =
    feed_each-reported memory esp32 no_text report_schema out_of_turn [] (2 ^ 32) 5 device
      initial_statics host (line ∷ []) listening (omega arith) (omega arith) refl
      (record { positive = omega arith; bounded = omega arith }) initial_statics-IsStatics refl
      (subst (λ rs. All (IsMessage report_schema 5) (map progress_message rs))
        (sym three_reports_lem) three_reports-IsMessage)
      (omega (arith, length-line), tt) (append-nil line)
      (record { capacity = length-replicate {A = ℕ} 4108 0; within = omega arith }) refl refl
