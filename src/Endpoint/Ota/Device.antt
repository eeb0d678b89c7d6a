-- ===== src/Endpoint/Ota/Device.antt =====
-- A device whose `OtaEndpoint` calls the handlers of its `OtaManager`.
use midi2pwmv2_libcomm.Common.{
  ℕ, ◌≤◌, ◌<◌, ◌≡◌, refl, ap, ◌∙◌, arith, ◌==◌, true, false, Option, some, List, length, points,
}
use midi2pwmv2_libcomm.Transport.{max_frame_size}
use midi2pwmv2_libcomm.Transport.Frame.{frame}
use midi2pwmv2_libcomm.Transport.Receive.{IsSizeModulus}
use midi2pwmv2_libcomm.Ota.{
  Target, FlashWriter, SendProgress, OtaManager, handle_begin_message, handle_data_message,
  handle_end_message, handle_abort_message,
}
use midi2pwmv2_libcomm.Ota.Command.{Command, calls_begin, calls_data, calls_end, calls_abort, call}
use midi2pwmv2_libcomm.Ota.Overload.{
  handle_begin_message_lem, handle_data_message-points, handle_end_message_lem,
  handle_abort_message_lem,
}
use midi2pwmv2_libcomm.Endpoint.{Schema, Carries, notify, vector_of}
use midi2pwmv2_libcomm.Endpoint.Roundtrip.{handle_incoming-serialize}
use midi2pwmv2_libcomm.Endpoint.Ota.{
  OtaMessage, ota_begin, ota_data, ota_end, ota_abort, OtaEndpoint, dispatch, handle_frame, receive,
  build_ota_begin_message, build_ota_data_message, build_ota_end_message, build_ota_abort_message,
}

module _ {W : Type 0} (writer : FlashWriter W) (target : Target)
    (send : Option (SendProgress W)) where
  -- The endpoint's handlers are the overloads that take a message.
  pub record IsWired (e : OtaEndpoint (OtaManager × W)) : Type 0 where
    pub begins :
        e.begin_handler ≡ some (λ msg s. handle_begin_message writer target send s.0 msg s.1)
    pub data_comes :
        e.data_handler ≡ some (λ msg s. handle_data_message writer target send s.0 msg s.1)
    pub ends : e.end_handler ≡ some (λ msg s. handle_end_message writer target send s.0 msg s.1)
    pub aborts :
        e.abort_handler ≡ some (λ msg s. handle_abort_message writer target send s.0 msg s.1)

-- What a host asks for, by the builders of the endpoint; a chunk is not empty.
pub data Request : Type 0 where
  asks_begin : ℕ → ℕ → Option (List ℕ) → ℕ → Request
  asks_data : ℕ → (bytes : List ℕ) → 0 < length bytes → Request
  asks_end : Request
  asks_abort : Option (List ℕ) → Request

unfoldable pub build_request : Schema OtaMessage → Target → Request → List ℕ
build_request schema to (asks_begin size crc version chunks) =
    build_ota_begin_message schema to size crc version chunks
build_request schema to (asks_data index bytes given) =
    build_ota_data_message schema to index (points bytes)
build_request schema to asks_end = build_ota_end_message schema to
build_request schema to (asks_abort reason) = build_ota_abort_message schema to reason

-- The call of the manager that is meant.
abbrev pub command_of : Request → Command
command_of (asks_begin size crc version chunks) = calls_begin size crc chunks
command_of (asks_data index bytes given) = calls_data index (points bytes)
command_of asks_end = calls_end
command_of (asks_abort reason) = calls_abort reason

-- The envelope's message of a request.
vector_of-points : (bytes : List ℕ) → 0 < length bytes → vector_of (points bytes) ≡ some bytes
vector_of-points bytes given = let full : (length bytes == 0) ≡ false = ground arith in rw full refl

notify_set :
    {M S : Type 0} (handler : Option (M → S → S)) (f : M → S → S) (msg : M) (s : S)
    → handler ≡ some f
    → notify handler (some msg) s ≡ f msg s
notify_set handler f msg s set = ap (λ c. notify c (some msg) s) set

abbrev pub request_message : Target → Request → OtaMessage
request_message to (asks_begin size crc version chunks) = ota_begin (
    some (record {
      begin_target = to;
      firmware_size = size;
      firmware_crc32 = crc;
      version_string = version;
      chunk_count = chunks;
    }))
request_message to (asks_data index bytes given) =
    ota_data (some (record { data_target = to; chunk_index = index; data_bytes = some bytes }))
request_message to asks_end = ota_end (some (record { end_target = to }))
request_message to (asks_abort reason) =
    ota_abort (some (record { abort_target = to; reason = reason }))

pub serialize-request :
    (schema : Schema OtaMessage) (to : Target) (r : Request)
    → build_request schema to r ≡ schema.serialize (request_message to r)
unfolding build_request build_ota_begin_message build_ota_data_message build_ota_end_message
    build_ota_abort_message
serialize-request schema to (asks_begin size crc version chunks) = refl
serialize-request schema to (asks_data index bytes given) =
    ap
      (λ v.
        schema.serialize
          (ota_data (some (record { data_target = to; chunk_index = index; data_bytes = v }))))
      (vector_of-points bytes given)
serialize-request schema to asks_end = refl
serialize-request schema to (asks_abort reason) = refl

module _ {W : Type 0} (writer : FlashWriter W) (target : Target) (send : Option (SendProgress W))
    (e : OtaEndpoint (OtaManager × W)) (wired : IsWired writer target send e) where
  pub dispatch-request :
      (to : Target) (r : Request) (o : OtaManager) (w : W)
      → dispatch e (request_message to r) (o, w)
        ≡ (true, call writer target send (command_of r) o w)
  unfolding dispatch
  dispatch-request to (asks_begin size crc version chunks) o w =
      ap (λ s. (true, s))
        (notify_set _ _ _ (o, w) wired.begins ∙ handle_begin_message_lem writer target send o w _)
  dispatch-request to (asks_data index bytes given) o w =
      ap (λ s. (true, s))
        (notify_set _ _ _ (o, w) wired.data_comes
          ∙ handle_data_message-points writer target send o w to index bytes given)
  dispatch-request to asks_end o w =
      ap (λ s. (true, s))
        (notify_set _ _ _ (o, w) wired.ends ∙ handle_end_message_lem writer target send o w _)
  dispatch-request to (asks_abort reason) o w =
      ap (λ s. (true, s))
        (notify_set _ _ _ (o, w) wired.aborts ∙ handle_abort_message_lem writer target send o w _)

  -- A request that the host builds, framed and received by a device whose endpoint calls the message
  -- handlers of its manager, has exactly the effect of the call of the manager that is meant, whichever
  -- target the message names; a data request has a chunk that is not empty.
  pub receive-request :
      (schema : Schema OtaMessage) (m n : ℕ) (to : Target) (r : Request) (o : OtaManager) (w : W)
      → Carries schema (request_message to r)
      → IsSizeModulus m
      → length (build_request schema to r) ≤ max_frame_size
      → receive m e schema (points (frame n (build_request schema to r))) (o, w)
        ≡ (true, call writer target send (command_of r) o w)
  unfolding receive handle_frame
  receive-request schema m n to r o w h wide small =
      let built = serialize-request schema to r in
      ap (λ b. receive m e schema (points (frame n b)) (o, w)) built
      ∙ handle_incoming-serialize schema (request_message to r) h m n (dispatch e) (o, w) wide
          (omega (arith, ap length built))
      ∙ dispatch-request to r o w
