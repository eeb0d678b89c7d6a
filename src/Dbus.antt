-- ===== src/Dbus.antt =====
-- examples/dbus_transport/dbus_transport.h and dbus_transport.cpp: byte arrays as D-Bus method calls, and
-- the handler of examples/dbus_receiver/main.cpp. The functions of libdbus are a parameter, on a world `W`
-- that also holds what the message handler acts on. A connection or a message is the number that stands
-- for its pointer, null is `none`, and a `DBusError` is the failure that goes with it. What is printed to
-- stderr is left out.
pub mod Client
pub mod Server
pub mod References
pub mod Receiver
mod Examples
use Prim.Native.String.{String}
use midi2pwmv2_libcomm.Common.{
  ℕ, zero, suc, ◌+◌, ◌-◌, ◌%◌, ◌^◌, ◌==◌, ltb, not, ◌&&◌, Bool, true, false, if◌then◌else◌, Option,
  none, some, List, length, Span, null, points,
}

pub record DbusAddress : Type 0 where
  pub service : String
  pub object_path : String
  pub interface : String
  pub method : String

-- An `int`.
pub data ℤ : Type 0 where
  pos : ℕ → ℤ
  negsuc : ℕ → ℤ

-- `static_cast<int>` of a `std::size_t`, for an `int` of 32 bits.
abbrev pub int_of_size : ℕ → ℤ
int_of_size size =
    let low = size % 2 ^ 32 in if ltb low (2 ^ 31) then pos low else negsuc (2 ^ 32 - 1 - low)

pub data HandlerResult : Type 0 where
  handled not_yet_handled need_memory : HandlerResult

pub data DispatchStatus : Type 0 where
  data_remains complete dispatch_needs_memory : DispatchStatus

abbrev pub dbus_type_array : ℕ
dbus_type_array = 97

abbrev pub dbus_type_byte : ℕ
dbus_type_byte = 121

abbrev pub primary_owner : ℕ
primary_owner = 1

-- What the code calls of libdbus. An iterator is named by its message: appending goes to the message's
-- end, reading starts at its first argument. `request_name` says whether the error is set, and the reply.
pub record Libdbus (W : Type 0) : Type 0 where
  pub bus_get : W → Option ℕ × W
  pub set_exit_on_disconnect : ℕ → Bool → W → W
  pub connection_unref : ℕ → W → W
  pub request_name : ℕ → String → W → Bool × ℕ × W
  pub register_object_path : ℕ → String → W → Bool × W
  pub unregister_object_path : ℕ → String → W → W
  pub read_write : ℕ → ℕ → W → W
  pub dispatch : ℕ → W → DispatchStatus × W
  pub new_method_call : DbusAddress → W → Option ℕ × W
  pub new_method_return : ℕ → W → Option ℕ × W
  pub message_unref : ℕ → W → W
  pub open_container : ℕ → W → Bool × W
  pub append_fixed_array : ℕ → List ℕ → ℤ → W → Bool × W
  pub close_container : ℕ → W → Bool × W
  pub append_boolean : ℕ → ℕ → W → Bool × W
  pub send_with_reply_and_block : ℕ → ℕ → W → Option ℕ × W
  pub get_boolean : ℕ → W → Option ℕ × W
  pub is_method_call : ℕ → String → String → W → Bool
  pub iter_init : ℕ → W → Bool
  pub arg_type : ℕ → W → ℕ
  pub element_type : ℕ → W → ℕ
  pub fixed_array : ℕ → W → Span
  pub connection_send : ℕ → ℕ → W → Bool × W
  pub connection_flush : ℕ → W → W

pub record DbusClientTransport : Type 0 where
  pub connection : Option ℕ
  pub address : DbusAddress

abbrev pub RawMessageHandler : Type 0 → Type 0
RawMessageHandler W = List ℕ → W → Bool × W

pub record DbusServerTransport (W : Type 0) : Type 0 where
  pub server_connection : Option ℕ
  pub server_address : DbusAddress
  pub handler : Option (RawMessageHandler W)
