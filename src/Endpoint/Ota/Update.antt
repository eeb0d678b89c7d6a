-- ===== src/Endpoint/Ota/Update.antt =====
-- A whole firmware update over a byte link: the builders of the host, `FrameTransport`, and on the device
-- `StreamProcessor`, `OtaEndpoint` and `OtaManager`.
mod Examples
use midi2pwmv2_libcomm.Common.{
  ℕ, ◌+◌, ◌^◌, ◌≤◌, ◌<◌, ◌≡◌, refl, sym, ap, ◌∙◌, arith, true, Option, some, List, [], ◌∷◌, ◌++◌,
  map, length, points, All,
}
use midi2pwmv2_libcomm.Transport.{max_frame_size, FrameTransport, Statics}
use midi2pwmv2_libcomm.Transport.Transmit.{IsStatics}
use midi2pwmv2_libcomm.Transport.Sequence.{IsSequence, send_each}
use midi2pwmv2_libcomm.Transport.Receive.{IsSizeModulus}
use midi2pwmv2_libcomm.Stream.{StreamProcessor}
use midi2pwmv2_libcomm.Stream.Pending.{pending, IsProcessor}
use midi2pwmv2_libcomm.Stream.Refine.{Kept}
use midi2pwmv2_libcomm.Stream.Chunks.{feed_each, joined, IsChunk}
use midi2pwmv2_libcomm.Link.{put_on_wire}
use midi2pwmv2_libcomm.Ota.{
  Target, FlashWriter, SendProgress, OtaManager, new_ota_manager, rebooting,
}
use midi2pwmv2_libcomm.Ota.Command.{Command, calls_begin, calls_data, calls_end, run}
use midi2pwmv2_libcomm.Ota.Session.{
  IsReliable, IsGiven, flash_side, host_side, data_commands, flashed, run-session,
}
use midi2pwmv2_libcomm.Endpoint.{Schema}
use midi2pwmv2_libcomm.Endpoint.Wire.{IsMessage, frame_handler, dispatch_each, feed_each-dispatch}
use midi2pwmv2_libcomm.Endpoint.Ota.{OtaMessage, OtaEndpoint, dispatch}
use midi2pwmv2_libcomm.Endpoint.Ota.Device.{
  IsWired, Request, asks_begin, asks_data, asks_end, build_request, command_of, request_message,
  serialize-request, dispatch-request,
}

-- The requests of an update: its start, the chunks with their indices from `k` on, and its end.
abbrev data_requests : (k : ℕ) (cs : List (List ℕ)) → All IsGiven cs → List Request
data_requests k [] h = []
data_requests k (c ∷ cs) h = asks_data k c h.0 ∷ data_requests (k + 1) cs h.1

abbrev pub update_requests :
    ℕ → ℕ → Option (List ℕ) → (cs : List (List ℕ)) → All IsGiven cs → List Request
update_requests size crc version cs h =
    asks_begin size crc version (length cs) ∷ (data_requests 0 cs h ++ (asks_end ∷ []))

data_requests-commands :
    (k : ℕ) (cs : List (List ℕ)) (h : All IsGiven cs)
    → map command_of (data_requests k cs h ++ (asks_end ∷ []))
      ≡ data_commands k cs ++ (calls_end ∷ [])
data_requests-commands k [] h = refl
data_requests-commands k (c ∷ cs) h =
    ap (λ r. calls_data k (points c) ∷ r) (data_requests-commands (k + 1) cs h.1)

built-serialized :
    (schema : Schema OtaMessage) (to : Target) (rs : List Request)
    → map (build_request schema to) rs ≡ map schema.serialize (map (request_message to) rs)
built-serialized schema to [] = refl
built-serialized schema to (r ∷ rs) =
    ap (λ b. b ∷ map (build_request schema to) rs) (serialize-request schema to r)
    ∙ ap (λ bs. schema.serialize (request_message to r) ∷ bs) (built-serialized schema to rs)

-- The switch of the device on requests is a run of the commands that are meant.
dispatch_each-run :
    {W : Type 0} (writer : FlashWriter W) (target : Target) (send : Option (SendProgress W))
    (e : OtaEndpoint (OtaManager × W)) (schema : Schema OtaMessage) (to : Target)
    (rs : List Request) (o : OtaManager) (w : W)
    → IsWired writer target send e
    → dispatch_each schema (dispatch e) (map (request_message to) rs) (o, w)
      ≡ run writer target send (map command_of rs) o w
unfolding run
dispatch_each-run writer target send e schema to [] o w wired = refl
dispatch_each-run writer target send e schema to (r ∷ rs) o w wired =
    ap (λ d. dispatch_each schema (dispatch e) (map (request_message to) rs) d.1)
      (dispatch-request writer target send e wired to r o w)
    ∙ dispatch_each-run writer target send e schema to rs _ _ wired

module _ {W H : Type 0} (writer : FlashWriter W) (target : Target) (send : Option (SendProgress H))
    (e : OtaEndpoint (OtaManager × (W × H))) (schema : Schema OtaMessage) where
  -- A host builds the messages of an update of fewer than 2^16 chunks, none of them empty, which
  -- the generated code reads back, and sends them one after the other over a byte link; a sound
  -- processor of the device that holds nothing, and whose frame callback is the `HandleFrame` of an
  -- endpoint that is wired to a fresh manager, with a flash that answers every call with success
  -- and has room for the announced size, which is not 0, is fed the bytes in any chunks that leave
  -- room for all but a byte of the largest frame: the manager comes to rebooting with all chunks
  -- received, and the flash is as after the calls to erase, to write each chunk under its index, to
  -- finish, to verify the announced checksum and to activate, and no others; no bytes are left
  -- over.
  pub feed_each-update :
      (m largest : ℕ) (t : FrameTransport (List ℕ)) (v : Statics) (to : Target) (size crc : ℕ)
      (version : Option (List ℕ)) (cs : List (List ℕ)) (given : All IsGiven cs)
      (fed : List (List ℕ)) (p : StreamProcessor (OtaManager × (W × H))) (w : W) (host : H)
      → IsSizeModulus m
      → largest ≤ max_frame_size
      → t.write ≡ some put_on_wire
      → IsSequence t.next_sequence
      → IsStatics v
      → IsWired (flash_side writer) target (host_side send) e
      → IsReliable writer
      → 0 < size
      → size ≤ writer.max_firmware_size w
      → length cs < 2 ^ 16
      → All
          (IsMessage schema largest)
          (map (request_message to) (update_requests size crc version cs given))
      → All (IsChunk largest) fed
      → joined fed
        ≡ (send_each t
            (map (build_request schema to) (update_requests size crc version cs given))
            v
            []).2
      → IsProcessor p
      → p.frame_callback ≡ some (frame_handler schema (dispatch e))
      → pending p ≡ []
      → (q : StreamProcessor (OtaManager × (W × H))) × (r : OtaManager × (W × H)) × (feed_each m fed
            p
            (new_ota_manager, (w, host))
          ≡ some (q, r))
        × (r.0 ≡ record {
          status = rebooting;
          expected_crc32 = crc;
          total_chunks = length cs;
          received_chunks = length cs;
        })
        × (r.1.0 ≡ flashed writer size crc cs w)
        × (pending q ≡ [])
        × Kept p q
  feed_each-update m largest t v to size crc version cs given fed p w host wide small set valid
        statics wired good pos fits few hp hc wire h registered empty =
      let rs : List Request = update_requests size crc version cs given in
      let arrived : joined fed
          ≡ (send_each t (map schema.serialize (map (request_message to) rs)) v []).2 =
        wire ∙ ap (λ bs. (send_each t bs v []).2) (built-serialized schema to rs) in
      let (q, taken, left, kept) =
        feed_each-dispatch schema (dispatch e) m largest t v (map (request_message to) rs) fed p
          (new_ota_manager, (w, host)) wide small set valid statics hp hc arrived h registered
          empty in
      let commands : map command_of rs
          ≡ calls_begin size crc (length cs) ∷ (data_commands 0 cs ++ (calls_end ∷ [])) =
        ap (λ r. calls_begin size crc (length cs) ∷ r) (data_requests-commands 0 cs given) in
      let done = run-session writer target send size crc cs w host good pos fits few given in
      let r : OtaManager × (W × H) =
        run (flash_side writer) target (host_side send)
          (calls_begin size crc (length cs) ∷ (data_commands 0 cs ++ (calls_end ∷ [])))
          new_ota_manager (w, host) in
      let ran : dispatch_each schema (dispatch e) (map (request_message to) rs)
            (new_ota_manager, (w, host))
          ≡ r =
        dispatch_each-run (flash_side writer) target (host_side send) e schema to rs new_ota_manager
          (w, host) wired
        ∙ ap (λ k. run (flash_side writer) target (host_side send) k new_ota_manager (w, host))
            commands in
      (q, r, taken ∙ ap (λ x. some (q, x)) ran, done.0, done.1, left, kept)
