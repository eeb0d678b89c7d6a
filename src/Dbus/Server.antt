-- ===== src/Dbus/Server.antt =====
-- `DBusServerTransport` of examples/dbus_transport/dbus_transport.cpp.
use midi2pwmv2_libcomm.Common.{
  ℕ, zero, suc, ◌==◌, not, Bool, true, false, if◌then◌else◌, Option, none, some, length, Span, null,
  points,
}
use midi2pwmv2_libcomm.Dbus.{
  DbusAddress, HandlerResult, handled, not_yet_handled, need_memory, data_remains, complete,
  dispatch_needs_memory, dbus_type_array, dbus_type_byte, primary_owner, Libdbus, RawMessageHandler,
  DbusServerTransport,
}

module _ {W : Type 0} (lib : Libdbus W) where
  new_server_transport : DbusAddress → DbusServerTransport W
  new_server_transport address = record {
    server_connection = none;
    server_address = address;
    handler = none;
  }

  destroy_server_transport : DbusServerTransport W → W → W
  destroy_server_transport t w = elim t.server_connection [
    | none ↦ w
    | some c ↦ lib.connection_unref c (lib.unregister_object_path c t.server_address.object_path w)
  ]

  start_on : ℕ → DbusAddress → W → Bool × W
  start_on c address w =
      let (failed, reply, w1) =
        lib.request_name c address.service (lib.set_exit_on_disconnect c false w) in
      if failed
      then (false, w1)
      else if not (reply == primary_owner)
      then (false, w1)
      else lib.register_object_path c address.object_path w1

  start :
      DbusServerTransport W → Option (RawMessageHandler W) → W → Bool × DbusServerTransport W × W
  start t new_handler w =
      let (connection, w1) = lib.bus_get w in
      let t' = record t { server_connection = connection; handler = new_handler } in
      elim connection [
        | none ↦ (false, t', w1)
        | some c ↦ (let (started, w2) = start_on c t.server_address w1 in (started, t', w2))
      ]

  -- The queue is drained; `none` is a queue that the fuel does not empty.
  drain : ℕ → ℕ → W → Option W
  drain zero c w = none
  drain (suc fuel) c w =
      let (status, w1) = lib.dispatch c w in
      let more = drain fuel c w1 in
      elim status [ data_remains ↦ more | complete ↦ some w1 | dispatch_needs_memory ↦ some w1 ]

  abbrev keeps_running : Option (W → Bool × W) → W → Bool × W
  keeps_running none w = (true, w)
  keeps_running (some keep_running) w = keep_running w

  run_loop : ℕ → ℕ → ℕ → Option (W → Bool × W) → W → Option W
  run_loop zero queue c keep_running w = none
  run_loop (suc fuel) queue c keep_running w =
      let (running, w1) = keeps_running keep_running w in
      elim running [
        | false ↦ some w1
        | true ↦ elim (drain queue c (lib.read_write c 100 w1)) [
          | none ↦ none
          | some w2 ↦ run_loop fuel queue c keep_running w2
        ]
      ]

  run_while : ℕ → ℕ → DbusServerTransport W → Option (W → Bool × W) → W → Option W
  run_while fuel queue t keep_running w = elim t.server_connection [
    | none ↦ some w
    | some c ↦ run_loop fuel queue c keep_running w
  ]

  run_forever : ℕ → ℕ → DbusServerTransport W → W → Option W
  run_forever fuel queue t w = run_while fuel queue t none w

  -- The bytes that a message carries: those of an array of bytes that is its first argument.
  unfoldable pub payload_of : ℕ → W → Span
  payload_of message w =
      if lib.iter_init message w
      then if lib.arg_type message w == dbus_type_array
        then if lib.element_type message w == dbus_type_byte
          then lib.fixed_array message w
          else null 0
        else null 0
      else null 0

  unfoldable pub call_handler : Option (RawMessageHandler W) → Span → W → Bool × W
  call_handler none payload w = (false, w)
  call_handler (some on_message) (null size) w = (false, w)
  call_handler (some on_message) (points bytes) w =
      if length bytes == 0 then (false, w) else on_message bytes w

  unfoldable pub send_reply : ℕ → ℕ → ℕ → W → HandlerResult × W
  send_reply connection reply result w =
      let (appended, w1) = lib.append_boolean reply result w in
      if not appended
      then (need_memory, lib.message_unref reply w1)
      else (let (sent, w2) = lib.connection_send connection reply w1 in
          if not sent
          then (need_memory, lib.message_unref reply w2)
          else (handled, lib.message_unref reply (lib.connection_flush connection w2)))

  unfoldable pub answer : ℕ → ℕ → Bool → W → HandlerResult × W
  answer connection message was_handled w =
      let (reply, w1) = lib.new_method_return message w in
      elim reply [
        | none ↦ (need_memory, w1)
        | some r ↦ send_reply connection r (if was_handled then 1 else 0) w1
      ]

  unfoldable pub handle_message :
      ℕ → Option ℕ → Option (DbusServerTransport W) → W → HandlerResult × W
  handle_message connection message none w = (not_yet_handled, w)
  handle_message connection none (some self) w = (not_yet_handled, w)
  handle_message connection (some message) (some self) w =
      if not (lib.is_method_call message self.server_address.interface self.server_address.method w)
      then (not_yet_handled, w)
      else (let (was_handled, w1) = call_handler self.handler (payload_of message w) w in
          answer connection message was_handled w1)
