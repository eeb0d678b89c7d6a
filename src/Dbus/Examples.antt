-- ===== src/Dbus/Examples.antt =====
-- A small bus that stands for libdbus: every call succeeds.
use midi2pwmv2_libcomm.Common.{
  ℕ, ◌+◌, ◌-◌, ◌^◌, ◌≡◌, refl, arith, true, false, none, some, List, [], ◌∷◌, points,
}
use midi2pwmv2_libcomm.Transport.Frame.{frame}
use midi2pwmv2_libcomm.Endpoint.{Schema}
use midi2pwmv2_libcomm.Endpoint.Midi.{channel_message, MidiEndpoint, dispatch}
use midi2pwmv2_libcomm.Endpoint.Midi.Laws.{bend_message, bend_value}
use midi2pwmv2_libcomm.Endpoint.Midi.Examples.{channel_schema, encode}
use midi2pwmv2_libcomm.Endpoint.Pwm.{PwmMessage, PwmEndpoint}
use midi2pwmv2_libcomm.Dbus.{
  DbusAddress, Libdbus, complete, dbus_type_array, dbus_type_byte, DbusClientTransport,
  DbusServerTransport,
}
use midi2pwmv2_libcomm.Dbus.Client.{transmit}
use midi2pwmv2_libcomm.Dbus.Server.{handle_message}
use midi2pwmv2_libcomm.Dbus.References.{one_of, Counts, references_kept}
use midi2pwmv2_libcomm.Dbus.Receiver.{combined_handler}

-- The references that the program has, and the values of the pitch bends received, the last first.
pub record Desk : Type 0 where
  pub owned : ℕ → ℕ
  pub values : List ℕ

abbrev obtain : ℕ → Desk → Desk
obtain m w = record w { owned = λ j. one_of m j + w.owned j }

abbrev give_back : ℕ → Desk → Desk
give_back m w = record w { owned = λ j. w.owned j - one_of m j }

abbrev small_bus : Libdbus Desk
small_bus = record {
  bus_get = λ w. (some 1, w);
  set_exit_on_disconnect = λ c b w. w;
  connection_unref = λ c w. w;
  request_name = λ c name w. (false, 1, w);
  register_object_path = λ c path w. (true, w);
  unregister_object_path = λ c path w. w;
  read_write = λ c ms w. w;
  dispatch = λ c w. (complete, w);
  new_method_call = λ a w. (some 1, obtain 1 w);
  new_method_return = λ m w. (some 2, obtain 2 w);
  message_unref = give_back;
  open_container = λ m w. (true, w);
  append_fixed_array = λ m bytes n w. (true, w);
  close_container = λ m w. (true, w);
  append_boolean = λ m b w. (true, w);
  send_with_reply_and_block = λ c m w. (some 3, obtain 3 w);
  get_boolean = λ m w. (some 1, w);
  is_method_call = λ m interface method w. true;
  iter_init = λ m w. true;
  arg_type = λ m w. dbus_type_array;
  element_type = λ m w. dbus_type_byte;
  fixed_array = λ m w. points (frame 1 (encode (channel_message (some (bend_message 3 8192)))));
  connection_send = λ c m w. (true, w);
  connection_flush = λ c w. w;
}

small_bus-Counts : Counts small_bus (λ w. w.owned)
small_bus-Counts = record {
  new_call = λ a w j. refl;
  new_return = λ m w j. refl;
  reply = λ c m w j. refl;
  unref = λ m w j held. ground arith;
  opens = λ m w j. refl;
  appends = λ m bytes n w j. refl;
  closes = λ m w j. refl;
  boolean = λ m b w j. refl;
  reads = λ m w j. refl;
  sends = λ c m w j. refl;
  flushes = λ c w j. refl;
}

abbrev endpoint_address : DbusAddress
endpoint_address = record {
  service = "org.midi2pwm.libcomm";
  object_path = "/org/midi2pwm/libcomm/Endpoint";
  interface = "org.midi2pwm.libcomm.Endpoint";
  method = "SendEnvelope";
}

abbrev desk : Desk
desk = record { owned = λ j. 1; values = [] }

abbrev client : DbusClientTransport
client = record { connection = some 1; address = endpoint_address }

abbrev listener : MidiEndpoint Desk
listener = record {
  transport = record { write = none; next_sequence = 1 };
  ping_handler = none;
  channel_handler = some (λ m w. record w { values = bend_value m ∷ w.values });
  system_common_handler = none;
  system_real_time_handler = none;
  system_exclusive_handler = none;
}

abbrev deaf : PwmEndpoint ℕ ℕ Desk
deaf = record {
  transport = record { write = none; next_sequence = 1 };
  batch_telemetry_handler = none;
  config_handler = none;
  batch_config_handler = none;
  fault_log_handler = none;
  fault_control_handler = none;
  heartbeat_handler = none;
  response_handler = none;
}

-- A PWM schema whose identifier no buffer of these tests has.
abbrev pwm_schema : Schema (PwmMessage ℕ ℕ)
pwm_schema = record {
  serialize = λ q. [];
  buffer_has_identifier = λ bytes. false;
  verify_buffer = λ bytes. false;
  get_envelope = λ bytes. none;
}

abbrev server : DbusServerTransport Desk
server = record {
  server_connection = some 1;
  server_address = endpoint_address;
  handler = some (combined_handler (2 ^ 64) listener channel_schema deaf pwm_schema);
}

abbrev counting_server : DbusServerTransport Desk
counting_server = record server { handler = some (λ bytes w. (true, record w { values = bytes })) }

references_kept_example :
    ((transmit small_bus client (points (7 ∷ [])) desk).1.owned 3 ≡ 1)
    × ((handle_message small_bus 1 (some 4) (some counting_server) desk).1.owned 3 ≡ 1)
references_kept_example =
    references_kept small_bus (λ w. w.owned) client (points (7 ∷ [])) counting_server 1 4 desk 3
      small_bus-Counts (λ bytes w j. refl)
