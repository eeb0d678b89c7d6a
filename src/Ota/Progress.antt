-- ===== src/Ota/Progress.antt =====
-- What the host can tell from the progress reports of `OtaManager`.
use midi2pwmv2_libcomm.Common.{
  ℕ, ◌+◌, ◌%◌, ◌^◌, ◌≡◌, refl, ap, ◌==◌, ltb, true, ◌||◌, if◌then◌else◌, inl, inr, Bool-cases,
  Option, none, some, List, [], ◌∷◌, length, Span, null, points,
}
use midi2pwmv2_libcomm.Ota.{
  Target, OtaStatus, idle, receiving, rebooting, error, Message, empty_chunk, FlashWriter,
  SendProgress, OtaManager, new_ota_manager, OtaData, report_progress, transition_to, fail_with,
  abort_with, restart, erase, begin_idle, handle_begin, handle_begin_message, count_chunk,
  store_chunk, accept_chunk, handle_data, handle_data_message, activate_slot, verify_image,
  finish_image, handle_end, handle_end_message, handle_abort, handle_abort_message, is_idle,
}
use midi2pwmv2_libcomm.Ota.Command.{
  Command, calls_begin, calls_begin_message, calls_data, calls_data_message, calls_end,
  calls_end_message, calls_abort, calls_abort_message, call, run,
}
use midi2pwmv2_libcomm.Ota.Keeping.{receiving-cases, idle-cases}
use midi2pwmv2_libcomm.Ota.Session.{flash_side, host_side}

-- The host keeps the status of the last report.
abbrev pub last_status : SendProgress (Option OtaStatus)
last_status target status received total message last = some status

-- The status of the manager between two calls, and the last report.
pub data Told : OtaStatus → Option OtaStatus → Type 0 where
  unused : Told idle none
  failed : Told idle (some error)
  loading : Told receiving (some receiving)
  done : Told rebooting (some rebooting)

Told-receiving :
    (st : OtaStatus) (h : Option OtaStatus) → Told st h → st ≡ receiving → h ≡ some receiving
Told-receiving _ _ unused e = absurd (cc)
Told-receiving _ _ failed e = absurd (cc)
Told-receiving _ _ loading e = refl
Told-receiving _ _ done e = absurd (cc)

Told-loading :
    (st : OtaStatus) (h : Option OtaStatus) → st ≡ receiving → h ≡ some receiving → Told st h
Told-loading st h e f = rw (e, f) loading

module _ {W : Type 0} (writer : FlashWriter W) (target : Target) where
  abbrev F : FlashWriter (W × Option OtaStatus)
  F = flash_side writer

  abbrev P : Option (SendProgress (W × Option OtaStatus))
  P = host_side (some last_status)

  -- What holds of the result of a call.
  abbrev Tells : OtaManager × (W × Option OtaStatus) → Type 0
  Tells r = Told r.0.status r.1.1

  fail_with-Told :
      (o : OtaManager) (msg : Message) (x : W × Option OtaStatus)
      → Tells (fail_with F target P o msg x)
  unfolding fail_with transition_to report_progress
  fail_with-Told o msg x = failed

  abort_with-Told :
      (o : OtaManager) (msg : Message) (x : W × Option OtaStatus)
      → Tells (abort_with F target P o msg x)
  unfolding abort_with
  abort_with-Told o msg x = fail_with-Told o msg (F.abort x)

  activate_slot-Told :
      (o : OtaManager) (x : W × Option OtaStatus) → Tells (activate_slot F target P o x)
  unfolding activate_slot transition_to report_progress
  activate_slot-Told o x = elim (Bool-cases (writer.activate x.0).0) [
    | inl good ↦ rw good done
    | inr bad ↦ rw bad (abort_with-Told _ _ _)
  ]

  finish_image-Told :
      (o : OtaManager) (x : W × Option OtaStatus) → Tells (finish_image F target P o x)
  unfolding finish_image verify_image transition_to report_progress
  finish_image-Told o x = elim (Bool-cases (writer.finish x.0).0) [
    | inl good ↦
        rw good (elim (Bool-cases (writer.verify o.expected_crc32 (writer.finish x.0).1).0) [
          | inl same ↦ rw same (activate_slot-Told _ _)
          | inr differs ↦ rw differs (abort_with-Told _ _ _)
        ])
    | inr bad ↦ rw bad (abort_with-Told _ _ _)
  ]

  handle_end-Told :
      (o : OtaManager) (x : W × Option OtaStatus) → Tells (o, x) → Tells (handle_end F target P o x)
  unfolding handle_end
  handle_end-Told o x h = elim (receiving-cases o.status) [
    | inl other ↦ rw other h
    | inr (now, e) ↦ rw now (elim (Bool-cases (o.received_chunks == o.total_chunks)) [
      | inl all ↦ rw all (finish_image-Told o x)
      | inr few ↦ rw few (abort_with-Told o _ x)
    ])
  ]

  store_chunk-Told :
      (o : OtaManager) (index : ℕ) (bytes : List ℕ) (x : W × Option OtaStatus)
      → o.status ≡ receiving
      → x.1 ≡ some receiving
      → Tells (store_chunk F target P o index bytes x)
  unfolding store_chunk count_chunk report_progress
  store_chunk-Told o index bytes x e f =
      let next : ℕ = (o.received_chunks + 1) % 2 ^ 16 in
      elim (Bool-cases (writer.write_chunk index bytes x.0).0) [
        | inl good ↦ rw good (elim (Bool-cases ((next == o.total_chunks) || ((next % 50) == 0))) [
          | inl due ↦ rw due (Told-loading o.status (some o.status) e (ap (λ st. some st) e))
          | inr quiet ↦ rw quiet (Told-loading o.status x.1 e f)
        ])
        | inr bad ↦ rw bad (abort_with-Told o _ _)
      ]

  accept_chunk-Told :
      (o : OtaManager) (index : ℕ) (chunk : Span) (x : W × Option OtaStatus)
      → o.status ≡ receiving
      → x.1 ≡ some receiving
      → Tells (accept_chunk F target P o index chunk x)
  unfolding accept_chunk
  accept_chunk-Told o index (null n) x e f = abort_with-Told o empty_chunk x
  accept_chunk-Told o index (points bytes) x e f = elim (Bool-cases (length bytes == 0)) [
    | inl empty ↦ rw empty (abort_with-Told o empty_chunk x)
    | inr given ↦ rw given (store_chunk-Told o index bytes x e f)
  ]

  handle_data-Told :
      (o : OtaManager) (index : ℕ) (chunk : Span) (x : W × Option OtaStatus)
      → Tells (o, x)
      → Tells (handle_data F target P o index chunk x)
  unfolding handle_data
  handle_data-Told o index chunk x h = elim (receiving-cases o.status) [
    | inl other ↦ rw other h
    | inr (now, e) ↦ rw now (elim (Bool-cases (index == o.received_chunks)) [
      | inl expected ↦
          rw expected (accept_chunk-Told o index chunk x e (Told-receiving o.status x.1 h e))
      | inr wrong ↦ rw wrong (abort_with-Told o _ x)
    ])
  ]

  handle_data_message-Told :
      (o : OtaManager) (msg : OtaData) (x : W × Option OtaStatus)
      → Tells (o, x)
      → Tells (handle_data_message F target P o msg x)
  unfolding handle_data_message
  handle_data_message-Told o msg x h = chunk msg.data_bytes
    where
      chunk :
          (bytes : Option (List ℕ))
          → Tells (elim bytes [
            | none ↦ abort_with F target P o empty_chunk x
            | some given ↦
                if length given == 0
                then abort_with F target P o empty_chunk x
                else handle_data F target P o msg.chunk_index (points given) x
          ])
      chunk none = abort_with-Told o empty_chunk x
      chunk (some given) = elim (Bool-cases (length given == 0)) [
        | inl empty ↦ rw empty (abort_with-Told o empty_chunk x)
        | inr full ↦ rw full (handle_data-Told o msg.chunk_index (points given) x h)
      ]

  begin_idle-Told :
      (o : OtaManager) (size crc chunks : ℕ) (x : W × Option OtaStatus)
      → is_idle o.status ≡ true
      → Tells (begin_idle F target P o size crc chunks x)
  unfolding begin_idle erase transition_to report_progress
  begin_idle-Told o size crc chunks x resting =
      rw resting (elim (Bool-cases ((size == 0) || ltb (writer.max_firmware_size x.0) size)) [
        | inl large ↦ rw large (fail_with-Told o _ x)
        | inr fits ↦ rw fits (elim (Bool-cases (writer.begin size x.0).0) [
          | inl good ↦ rw good loading
          | inr bad ↦ rw bad (abort_with-Told _ _ _)
        ])
      ])

  handle_begin-Told :
      (o : OtaManager) (size crc chunks : ℕ) (x : W × Option OtaStatus)
      → Tells (handle_begin F target P o size crc chunks x)
  unfolding handle_begin restart
  handle_begin-Told o size crc chunks x = elim (idle-cases o.status) [
    | inl busy ↦ rw busy (begin_idle-Told _ size crc chunks _ refl)
    | inr (now, e) ↦ rw now (begin_idle-Told o size crc chunks x now)
  ]

  handle_abort-Told :
      (o : OtaManager) (reason : Option (List ℕ)) (x : W × Option OtaStatus)
      → Tells (o, x)
      → Tells (handle_abort F target P o reason x)
  unfolding handle_abort
  handle_abort-Told o none x h = elim (idle-cases o.status) [
    | inl busy ↦ rw busy (abort_with-Told o _ x)
    | inr (now, e) ↦ rw now h
  ]
  handle_abort-Told o (some text) x h = elim (idle-cases o.status) [
    | inl busy ↦ rw busy (abort_with-Told o _ x)
    | inr (now, e) ↦ rw now h
  ]

  call-Told :
      (c : Command) (o : OtaManager) (x : W × Option OtaStatus)
      → Tells (o, x)
      → Tells (call F target P c o x)
  unfolding handle_begin_message handle_end_message handle_abort_message
  call-Told (calls_begin size crc chunks) o x h = handle_begin-Told o size crc chunks x
  call-Told (calls_begin_message msg) o x h =
      handle_begin-Told o msg.firmware_size msg.firmware_crc32 msg.chunk_count x
  call-Told (calls_data index chunk) o x h = handle_data-Told o index chunk x h
  call-Told (calls_data_message msg) o x h = handle_data_message-Told o msg x h
  call-Told calls_end o x h = handle_end-Told o x h
  call-Told (calls_end_message msg) o x h = handle_end-Told o x h
  call-Told (calls_abort reason) o x h = handle_abort-Told o reason x h
  call-Told (calls_abort_message msg) o x h = handle_abort-Told o msg.reason x h

  run-Told_from :
      (cs : List Command) (o : OtaManager) (x : W × Option OtaStatus)
      → Tells (o, x)
      → Tells (run F target P cs o x)
  unfolding run
  run-Told_from [] o x h = h
  run-Told_from (c ∷ cs) o x h =
      let r = call F target P c o x in run-Told_from cs r.0 r.1 (call-Told c o x h)

-- Whatever handlers are called, in whatever order and with whatever answers of the flash writer: after
-- every call a host that keeps the last report knows the manager's status. The manager is receiving when
-- the last report says receiving, rebooting when it says rebooting, and idle when it says error or when
-- there was none.
pub run-Told :
    {W : Type 0} (writer : FlashWriter W) (target : Target) (cs : List Command) (w : W)
    → let r =
        run
          (flash_side writer)
          target
          (host_side (some last_status))
          cs
          new_ota_manager
          (w, none) in
      Told r.0.status r.1.1
unfolding new_ota_manager
run-Told writer target cs w = run-Told_from writer target cs new_ota_manager (w, none) unused
