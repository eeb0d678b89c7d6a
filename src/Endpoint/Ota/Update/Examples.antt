-- ===== src/Endpoint/Ota/Update/Examples.antt =====
-- An update of two chunks through a small encoding that stands for the generated code.
use midi2pwmv2_libcomm.Common.{
  ℕ, ◌^◌, ◌≡◌, refl, ap, ◌∙◌, arith, ◌==◌, true, if◌then◌else◌, Option, none, some, List, [], ◌∷◌,
  ◌++◌, append-nil, map, length, length-append, length-replicate, replicate, get_or, drop, All,
}
use midi2pwmv2_libcomm.Transport.{FrameTransport, initial_statics}
use midi2pwmv2_libcomm.Transport.Frame.{frame, length-frame}
use midi2pwmv2_libcomm.Transport.Transmit.{initial_statics-IsStatics}
use midi2pwmv2_libcomm.Transport.Sequence.{send_each, write_each, send_each-frames}
use midi2pwmv2_libcomm.Stream.{StreamProcessor}
use midi2pwmv2_libcomm.Stream.Pending.{pending}
use midi2pwmv2_libcomm.Stream.Refine.{Kept}
use midi2pwmv2_libcomm.Stream.Chunks.{feed_each}
use midi2pwmv2_libcomm.Link.{put_on_wire}
use midi2pwmv2_libcomm.Ota.{
  esp32, rebooting, FlashWriter, SendProgress, OtaManager, new_ota_manager, handle_begin_message,
  handle_data_message, handle_end_message, handle_abort_message,
}
use midi2pwmv2_libcomm.Ota.Session.{IsGiven, flash_side, host_side}
use midi2pwmv2_libcomm.Ota.Examples.{memory, memory-IsReliable, count_report, two_chunks}
use midi2pwmv2_libcomm.Endpoint.{Schema}
use midi2pwmv2_libcomm.Endpoint.Wire.{IsMessage, frame_handler}
use midi2pwmv2_libcomm.Endpoint.Ota.{
  OtaMessage, ota_begin, ota_data, ota_end, ota_progress, ota_abort, unknown, OtaEndpoint, dispatch,
  build_ota_begin_message, build_ota_data_message, build_ota_end_message,
}
use midi2pwmv2_libcomm.Endpoint.Ota.Update.{update_requests, feed_each-update}
use midi2pwmv2_libcomm.Endpoint.Ota.Device.{IsWired, Request, build_request, request_message}

abbrev bytes_of : Option (List ℕ) → List ℕ
bytes_of none = []
bytes_of (some bytes) = bytes

abbrev encode : OtaMessage → List ℕ
encode (ota_begin (some m)) = 1 ∷ m.firmware_size ∷ m.firmware_crc32 ∷ m.chunk_count ∷ []
encode (ota_begin none) = 0 ∷ []
encode (ota_data (some chunk)) = 2 ∷ chunk.chunk_index ∷ bytes_of chunk.data_bytes
encode (ota_data none) = 0 ∷ []
encode (ota_end m) = 3 ∷ []
encode (ota_progress m) = 0 ∷ []
encode (ota_abort m) = 0 ∷ []
encode (unknown n) = 0 ∷ []

abbrev decode : List ℕ → OtaMessage
decode bytes =
    if get_or bytes 0 0 == 1
    then ota_begin (
        some (record {
          begin_target = esp32;
          firmware_size = get_or bytes 1 0;
          firmware_crc32 = get_or bytes 2 0;
          version_string = none;
          chunk_count = get_or bytes 3 0;
        }))
    else if get_or bytes 0 0 == 2
    then ota_data (
        some (record {
          data_target = esp32;
          chunk_index = get_or bytes 1 0;
          data_bytes = some (drop 2 bytes);
        }))
    else if get_or bytes 0 0 == 3
    then ota_end (some (record { end_target = esp32 }))
    else unknown 0

abbrev update_schema : Schema OtaMessage
update_schema = record {
  serialize = encode;
  buffer_has_identifier = λ bytes. true;
  verify_buffer = λ bytes. true;
  get_envelope = λ bytes. some (decode bytes);
}

-- The flash and the number of reports to the host.
abbrev Outside : Type 0
Outside = List (List ℕ) × ℕ

abbrev device : OtaEndpoint (OtaManager × Outside)
device =
    let writer : FlashWriter Outside = flash_side memory in
    let send : Option (SendProgress Outside) = host_side (some count_report) in
    record {
      transport = record { write = none; next_sequence = 1 };
      begin_handler = some (λ msg s. handle_begin_message writer esp32 send s.0 msg s.1);
      data_handler = some (λ msg s. handle_data_message writer esp32 send s.0 msg s.1);
      end_handler = some (λ msg s. handle_end_message writer esp32 send s.0 msg s.1);
      progress_handler = none;
      abort_handler = some (λ msg s. handle_abort_message writer esp32 send s.0 msg s.1);
    }

device-IsWired : IsWired (flash_side memory) esp32 (host_side (some count_report)) device
device-IsWired = record { begins = refl; data_comes = refl; ends = refl; aborts = refl }

two_chunks-IsGiven : All IsGiven two_chunks
two_chunks-IsGiven = (omega arith, (omega arith, tt))

abbrev requests : List Request
requests = update_requests 3 77 none two_chunks two_chunks-IsGiven

-- The buffers of the requests.
abbrev start : List ℕ
start = 1 ∷ 3 ∷ 77 ∷ 2 ∷ []

abbrev first : List ℕ
first = 2 ∷ 0 ∷ 1 ∷ 2 ∷ []

abbrev second : List ℕ
second = 2 ∷ 1 ∷ 3 ∷ []

abbrev close : List ℕ
close = 3 ∷ []

requests-IsMessage : All (IsMessage update_schema 4) (map (request_message esp32) requests)
requests-IsMessage = (
  record {
    carries = record {
      identified = refl;
      verified = refl;
      read_back = refl;
      written = omega arith;
      bytes = (omega arith, (omega arith, (omega arith, (omega arith, tt))));
    };
    bounded = omega arith;
  },
  (
    record {
      carries = record {
        identified = refl;
        verified = refl;
        read_back = refl;
        written = omega arith;
        bytes = (omega arith, (omega arith, (omega arith, (omega arith, tt))));
      };
      bounded = omega arith;
    },
    (
      record {
        carries = record {
          identified = refl;
          verified = refl;
          read_back = refl;
          written = omega arith;
          bytes = (omega arith, (omega arith, (omega arith, tt)));
        };
        bounded = omega arith;
      },
      (
        record {
          carries = record {
            identified = refl;
            verified = refl;
            read_back = refl;
            written = omega arith;
            bytes = (omega arith, tt);
          };
          bounded = omega arith;
        },
        tt,
      ),
    ),
  ),
)

abbrev wired : FrameTransport (List ℕ)
wired = record { write = some put_on_wire; next_sequence = 65535 }

abbrev sent_bytes : List ℕ
sent_bytes =
    (send_each wired (map (build_request update_schema esp32) requests) initial_statics []).2

length-sent_bytes : length sent_bytes ≡ 60
unfolding write_each build_request build_ota_begin_message build_ota_data_message
    build_ota_end_message
length-sent_bytes =
    let (written, _) =
      send_each-frames put_on_wire wired (start ∷ first ∷ second ∷ close ∷ []) initial_statics []
        refl (record { positive = omega arith; bounded = omega arith }) initial_statics-IsStatics
        (omega arith, (omega arith, (omega arith, (omega arith, tt)))) in
    ap length written
    ∙ omega (
      arith,
      length-append (frame 65535 start) (frame 1 first),
      length-append (frame 65535 start ++ frame 1 first) (frame 2 second),
      length-append ((frame 65535 start ++ frame 1 first) ++ frame 2 second) (frame 3 close),
      length-frame 65535 start,
      length-frame 1 first,
      length-frame 2 second,
      length-frame 3 close,
    )

abbrev listening : StreamProcessor (OtaManager × Outside)
listening = record {
  buffer = replicate 4108 0;
  size = 0;
  frame_callback = some (frame_handler update_schema (dispatch device));
  error_callback = none;
  write_callback = none;
}

feed_each-update_example :
    (q : StreamProcessor (OtaManager × Outside)) × (r : OtaManager × Outside) × (feed_each
        (2 ^ 32)
        (sent_bytes ∷ [])
        listening
        (new_ota_manager, ([], 0))
      ≡ some (q, r))
    × (r.0
        ≡ record { status = rebooting; expected_crc32 = 77; total_chunks = 2; received_chunks = 2 })
    × (r.1.0 ≡ (3 ∷ []) ∷ (1 ∷ 2 ∷ []) ∷ [])
    × (pending q ≡ [])
    × Kept listening q
feed_each-update_example =
    feed_each-update memory esp32 (some count_report) device update_schema (2 ^ 32) 4 wired
      initial_statics esp32 3 77 none two_chunks two_chunks-IsGiven (sent_bytes ∷ []) listening [] 0
      (omega arith) (omega arith) refl (record { positive = omega arith; bounded = omega arith })
      initial_statics-IsStatics device-IsWired memory-IsReliable (omega arith) (omega arith)
      (omega arith) requests-IsMessage (omega (arith, length-sent_bytes), tt)
      (append-nil sent_bytes)
      (record { capacity = length-replicate {A = ℕ} 4108 0; within = omega arith }) refl refl
