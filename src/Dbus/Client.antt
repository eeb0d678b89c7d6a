-- ===== src/Dbus/Client.antt =====
-- `DBusClientTransport` and `AppendByteArray` of examples/dbus_transport/dbus_transport.cpp.
use midi2pwmv2_libcomm.Common.{
  ℕ, ◌==◌, not, Bool, true, false, if◌then◌else◌, Option, none, some, List, length, Span, null,
  points,
}
use midi2pwmv2_libcomm.Transport.{WriteCallback}
use midi2pwmv2_libcomm.Dbus.{DbusAddress, int_of_size, Libdbus, DbusClientTransport}

module _ {W : Type 0} (lib : Libdbus W) where
  unfoldable pub append_byte_array : ℕ → List ℕ → W → Bool × W
  append_byte_array message bytes w =
      let (opened, w1) = lib.open_container message w in
      if not opened
      then (false, w1)
      else (let (appended, w2) =
            lib.append_fixed_array message bytes (int_of_size (length bytes)) w1 in
          if not appended
          then (false, (lib.close_container message w2).1)
          else lib.close_container message w2)

  new_client_transport : DbusAddress → W → DbusClientTransport × W
  new_client_transport address w =
      let (connection, w') = lib.bus_get w in
      let client : DbusClientTransport = record { connection = connection; address = address } in
      elim connection [
        | none ↦ (client, w')
        | some c ↦ (client, lib.set_exit_on_disconnect c false w')
      ]

  destroy_client_transport : DbusClientTransport → W → W
  destroy_client_transport t w = elim t.connection [ none ↦ w | some c ↦ lib.connection_unref c w ]

  valid : DbusClientTransport → Bool
  valid t = elim t.connection [ none ↦ false | some c ↦ true ]

  -- The reply to a call, read and released.
  unfoldable pub read_reply : Option ℕ → W → Bool × W
  read_reply none w = (false, w)
  read_reply (some reply) w =
      let (success, w1) = lib.get_boolean reply w in
      (elim success [ none ↦ false | some b ↦ b == 1 ], lib.message_unref reply w1)

  unfoldable pub call_method : ℕ → DbusAddress → List ℕ → W → Bool × W
  call_method connection address bytes w =
      let (created, w1) = lib.new_method_call address w in
      elim created [
        | none ↦ (false, w1)
        | some message ↦
            (let (appended, w2) = append_byte_array message bytes w1 in
              if not appended
              then (false, lib.message_unref message w2)
              else (let (reply, w3) = lib.send_with_reply_and_block connection message w2 in
                  read_reply reply (lib.message_unref message w3)))
      ]

  unfoldable pub transmit : DbusClientTransport → Span → W → Bool × W
  transmit t (null size) w = (false, w)
  transmit t (points bytes) w = elim t.connection [
    | none ↦ (false, w)
    | some c ↦ if length bytes == 0 then (false, w) else call_method c t.address bytes w
  ]

  unfoldable pub make_write_callback : DbusClientTransport → WriteCallback W
  make_write_callback t bytes w = transmit t (points bytes) w
