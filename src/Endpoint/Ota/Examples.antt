-- ===== src/Endpoint/Ota/Examples.antt =====
-- A chunk of firmware through a small encoding that stands for the generated code.
use midi2pwmv2_libcomm.Common.{
  ℕ, ◌^◌, ◌≡◌, refl, arith, ◌==◌, true, if◌then◌else◌, Option, none, some, List, [], ◌∷◌, get_or,
  drop, points,
}
use midi2pwmv2_libcomm.Transport.Frame.{frame}
use midi2pwmv2_libcomm.Ota.{
  esp32, receiving, OtaManager, handle_begin_message, handle_data_message, handle_end_message,
  handle_abort_message,
}
use midi2pwmv2_libcomm.Ota.Command.{calls_data, call}
use midi2pwmv2_libcomm.Ota.Examples.{memory}
use midi2pwmv2_libcomm.Endpoint.{Schema, Carries}
use midi2pwmv2_libcomm.Endpoint.Ota.{
  OtaMessage, ota_begin, ota_data, ota_end, ota_progress, ota_abort, unknown, OtaEndpoint, receive,
  build_ota_data_message,
}
use midi2pwmv2_libcomm.Endpoint.Ota.Device.{
  IsWired, asks_data, build_request, request_message, receive-request,
}

abbrev bytes_of : Option (List ℕ) → List ℕ
bytes_of none = []
bytes_of (some bytes) = bytes

abbrev encode : OtaMessage → List ℕ
encode (ota_data (some chunk)) = 2 ∷ chunk.chunk_index ∷ bytes_of chunk.data_bytes
encode (ota_data none) = 0 ∷ []
encode (ota_begin m) = 0 ∷ []
encode (ota_end m) = 0 ∷ []
encode (ota_progress m) = 0 ∷ []
encode (ota_abort m) = 0 ∷ []
encode (unknown n) = 0 ∷ []

abbrev decode : List ℕ → OtaMessage
decode bytes =
    if get_or bytes 0 0 == 2
    then ota_data (
        some (record {
          data_target = esp32;
          chunk_index = get_or bytes 1 0;
          data_bytes = some (drop 2 bytes);
        }))
    else unknown 0

abbrev chunk_schema : Schema OtaMessage
chunk_schema = record {
  serialize = encode;
  buffer_has_identifier = λ bytes. true;
  verify_buffer = λ bytes. true;
  get_envelope = λ bytes. some (decode bytes);
}

chunk-Carries :
    Carries chunk_schema (request_message esp32 (asks_data 0 (5 ∷ 6 ∷ []) (omega arith)))
chunk-Carries = record {
  identified = refl;
  verified = refl;
  read_back = refl;
  written = omega arith;
  bytes = omega arith;
}

abbrev device : OtaEndpoint (OtaManager × List (List ℕ))
device = record {
  transport = record { write = none; next_sequence = 1 };
  begin_handler = some (λ msg s. handle_begin_message memory esp32 none s.0 msg s.1);
  data_handler = some (λ msg s. handle_data_message memory esp32 none s.0 msg s.1);
  end_handler = some (λ msg s. handle_end_message memory esp32 none s.0 msg s.1);
  progress_handler = none;
  abort_handler = some (λ msg s. handle_abort_message memory esp32 none s.0 msg s.1);
}

device-IsWired : IsWired memory esp32 none device
device-IsWired = record { begins = refl; data_comes = refl; ends = refl; aborts = refl }

abbrev waiting : OtaManager
waiting = record { status = receiving; expected_crc32 = 77; total_chunks = 2; received_chunks = 0 }

receive-request_example :
    receive
      (2 ^ 64)
      device
      chunk_schema
      (points (frame 1 (build_request chunk_schema esp32 (asks_data 0 (5 ∷ 6 ∷ []) (omega arith)))))
      (waiting, [])
    ≡ (true, call memory esp32 none (calls_data 0 (points (5 ∷ 6 ∷ []))) waiting [])
unfolding build_request build_ota_data_message
receive-request_example =
    receive-request memory esp32 none device device-IsWired chunk_schema (2 ^ 64) 1 esp32
      (asks_data 0 (5 ∷ 6 ∷ []) (omega arith)) waiting [] chunk-Carries (omega arith) (omega arith)
