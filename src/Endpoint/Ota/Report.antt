-- ===== src/Endpoint/Ota/Report.antt =====
-- Progress over a byte link: `OtaManager` whose callback sends `BuildOtaProgressMessage` through an
-- `OtaEndpoint`, and a host with a `StreamProcessor` and an `OtaEndpoint`.
use midi2pwmv2_libcomm.Common.{
  ℕ, ◌≤◌, ◌≡◌, refl, sym, ap, ◌∙◌, Bool, points, Option, none, some, List, [], ◌∷◌, ◌++◌, map, All,
}
use mathlib.Core.Path.{subst}
use midi2pwmv2_libcomm.Transport.{max_frame_size, FrameTransport, Statics, send}
use midi2pwmv2_libcomm.Transport.Transmit.{IsStatics}
use midi2pwmv2_libcomm.Transport.Sequence.{IsSequence, send_each}
use midi2pwmv2_libcomm.Transport.Receive.{IsSizeModulus}
use midi2pwmv2_libcomm.Stream.{StreamProcessor}
use midi2pwmv2_libcomm.Stream.Pending.{pending, IsProcessor}
use midi2pwmv2_libcomm.Stream.Chunks.{feed_each, joined, IsChunk}
use midi2pwmv2_libcomm.Link.{put_on_wire}
use midi2pwmv2_libcomm.Ota.{
  Target, OtaStatus, Message, FlashWriter, SendProgress, OtaManager, new_ota_manager,
}
use midi2pwmv2_libcomm.Ota.Command.{Command, run}
use midi2pwmv2_libcomm.Ota.Session.{flash_side, host_side}
use midi2pwmv2_libcomm.Ota.Progress.{Told, last_status, run-Told}
use midi2pwmv2_libcomm.Ota.Reports.{run-seen}
use midi2pwmv2_libcomm.Endpoint.{Schema, notify}
use midi2pwmv2_libcomm.Endpoint.Wire.{IsMessage, frame_handler, dispatch_each, feed_each-dispatch}
use midi2pwmv2_libcomm.Endpoint.Ota.{
  OtaProgress, OtaMessage, ota_progress, OtaEndpoint, dispatch, send_buffer,
  build_ota_progress_message,
}

-- The text of a message, if there is one.
abbrev text_of : (Message → List ℕ) → Option Message → Option (List ℕ)
text_of text none = none
text_of text (some msg) = some (text msg)

module _ (text : Message → List ℕ) where
  abbrev report_of : Target → OtaStatus → ℕ → ℕ → Option Message → OtaProgress
  report_of target status received total msg = record {
    progress_target = target;
    progress_status = status;
    chunks_received = received;
    progress_total_chunks = total;
    error_message = text_of text msg;
  }

  -- The reports in order.
  abbrev pub record_report : SendProgress (List OtaProgress)
  record_report target status received total msg reports =
      reports ++ (report_of target status received total msg ∷ [])

  -- A progress callback that builds the message and sends it, whatever `Send` answers.
  abbrev pub send_report :
      Schema OtaMessage → SendProgress (OtaEndpoint (List ℕ) × Statics × List ℕ)
  send_report schema target status received total msg (e, v, line) =
      let (sent, e', v', line') =
        send_buffer e
          (build_ota_progress_message schema target status received total (text_of text msg)) v
          line in
      (e', v', line')

abbrev pub progress_message : OtaProgress → OtaMessage
progress_message r = ota_progress (some r)

-- A host that keeps the status of the last report.
abbrev pub keep_status : OtaProgress → Option OtaStatus → Option OtaStatus
keep_status r last = some r.progress_status

abbrev last_of : Option OtaStatus → List OtaProgress → Option OtaStatus
last_of last [] = last
last_of last (r ∷ rs) = last_of (some r.progress_status) rs

last_of-append :
    (last : Option OtaStatus) (rs : List OtaProgress) (r : OtaProgress)
    → last_of last (rs ++ (r ∷ [])) ≡ some r.progress_status
last_of-append last [] r = refl
last_of-append last (x ∷ rs) r = last_of-append (some x.progress_status) rs r

dispatch_each-last_of :
    (schema : Schema OtaMessage) (e : OtaEndpoint (Option OtaStatus)) (rs : List OtaProgress)
    (last : Option OtaStatus)
    → e.progress_handler ≡ some keep_status
    → dispatch_each schema (dispatch e) (map progress_message rs) last ≡ last_of last rs
unfolding dispatch
dispatch_each-last_of schema e [] last set = refl
dispatch_each-last_of schema e (r ∷ rs) last set =
    ap (λ c. dispatch_each schema (dispatch e) (map progress_message rs) (notify c (some r) last))
      set
    ∙ dispatch_each-last_of schema e rs (some r.progress_status) set

-- What is left of `Send` without its answer.
abbrev sent_state :
    Bool × FrameTransport (List ℕ) × Statics × List ℕ → FrameTransport (List ℕ) × Statics × List ℕ
sent_state r = (r.1, r.2, r.3)

send_each_last :
    (schema : Schema OtaMessage) (t : FrameTransport (List ℕ)) (rs : List OtaProgress)
    (r : OtaProgress) (v : Statics) (line : List ℕ)
    → let before = send_each t (map schema.serialize (map progress_message rs)) v line in
      send_each t (map schema.serialize (map progress_message (rs ++ (r ∷ [])))) v line
      ≡ sent_state
          (send before.0 (points (schema.serialize (progress_message r))) before.1 before.2)
unfolding send_each
send_each_last schema t [] r v line = refl
send_each_last schema t (x ∷ rs) r v line =
    let step = send t (points (schema.serialize (progress_message x))) v line in
    send_each_last schema step.1 rs r step.2 step.3

module _ (schema : Schema OtaMessage) (e : OtaEndpoint (List ℕ)) (v : Statics) where
  -- The device's end of the line after reports.
  abbrev after_reports : List OtaProgress → OtaEndpoint (List ℕ) × Statics × List ℕ
  after_reports rs =
      let (t, v', line) =
        send_each e.transport (map schema.serialize (map progress_message rs)) v [] in
      (record e { transport = t }, v', line)

  after_reports-send_report :
      (text : Message → List ℕ) (target : Target) (status : OtaStatus) (received total : ℕ)
      (msg : Option Message) (rs : List OtaProgress)
      → after_reports (record_report text target status received total msg rs)
        ≡ send_report text schema target status received total msg (after_reports rs)
  unfolding send_buffer build_ota_progress_message
  after_reports-send_report text target status received total msg rs =
      ap {B = OtaEndpoint (List ℕ) × Statics × List ℕ}
        (λ (r : FrameTransport (List ℕ) × Statics × List ℕ).
          (record e { transport = r.0 }, r.1, r.2))
        (send_each_last schema e.transport rs (report_of text target status received total msg) v
          [])

module _ {W : Type 0} (writer : FlashWriter W) (target : Target) (text : Message → List ℕ)
    (schema : Schema OtaMessage) (cs : List Command) (w : W) where
  abbrev recorded : OtaManager × (W × List OtaProgress)
  recorded =
      run (flash_side writer) target (host_side (some (record_report text))) cs new_ota_manager
        (w, [])

  -- The reports of a run of the commands, in order.
  abbrev pub reports : List OtaProgress
  reports = recorded.1.1

  -- What the device does while it reports over the line.
  abbrev pub reported :
      OtaEndpoint (List ℕ) → Statics → OtaManager × (W × (OtaEndpoint (List ℕ) × Statics × List ℕ))
  reported e v =
      run (flash_side writer) target (host_side (some (send_report text schema))) cs new_ota_manager
        (w, (e, v, []))

  recorded-reported :
      (e : OtaEndpoint (List ℕ)) (v : Statics)
      → (recorded.0, (recorded.1.0, after_reports schema e v recorded.1.1)) ≡ reported e v
  unfolding send_each
  recorded-reported e v =
      run-seen writer target (record_report text) (send_report text schema)
        (after_reports schema e v) (after_reports-send_report schema e v text) cs new_ota_manager
        (w, [])

  -- The line holds the frames of the reports.
  pub reported_line :
      (e : OtaEndpoint (List ℕ)) (v : Statics)
      → (reported e v).1.1.2
        ≡ (send_each e.transport (map schema.serialize (map progress_message reports)) v []).2
  reported_line e v = sym (
      ap (λ (r : OtaManager × (W × (OtaEndpoint (List ℕ) × Statics × List ℕ))). r.1.1.2)
        (recorded-reported e v))

  recorded-Told : Told recorded.0.status (last_of none recorded.1.1)
  recorded-Told =
      subst (λ (r : OtaManager × (W × Option OtaStatus)). Told r.0.status r.1.1)
        (sym (
          run-seen writer target (record_report text) last_status (last_of none)
            (λ t st r n msg rs. last_of-append none rs (report_of text t st r n msg)) cs
            new_ota_manager (w, [])))
        (run-Told writer target cs w)

  -- Whatever handlers of a fresh manager are called, in whatever order and with whatever answers of
  -- the flash writer, with a progress callback that builds each report with
  -- `build_ota_progress_message` and sends it by the `send_buffer` of an endpoint over a byte link:
  -- if the generated code reads back each report of the run, then a sound processor of the host
  -- that holds nothing, is fed the bytes of the line in any chunks that leave room for all but a
  -- byte of the largest frame, and has the `HandleFrame` of an endpoint whose progress handler
  -- keeps the status as its callback, takes all bytes, and the host knows the manager's status
  -- after the run. It is receiving if the host keeps receiving, rebooting if it keeps rebooting,
  -- and idle if it keeps error or nothing.
  pub feed_each-reported :
      (m largest : ℕ) (e : OtaEndpoint (List ℕ)) (v : Statics)
      (host : OtaEndpoint (Option OtaStatus)) (fed : List (List ℕ))
      (p : StreamProcessor (Option OtaStatus))
      → IsSizeModulus m
      → largest ≤ max_frame_size
      → e.transport.write ≡ some put_on_wire
      → IsSequence e.transport.next_sequence
      → IsStatics v
      → host.progress_handler ≡ some keep_status
      → All (IsMessage schema largest) (map progress_message reports)
      → All (IsChunk largest) fed
      → joined fed ≡ (reported e v).1.1.2
      → IsProcessor p
      → p.frame_callback ≡ some (frame_handler schema (dispatch host))
      → pending p ≡ []
      → (q : StreamProcessor (Option OtaStatus)) × (last : Option OtaStatus) × (feed_each m fed p
            none
          ≡ some (q, last))
        × Told (reported e v).0.status last
        × (pending q ≡ [])
  feed_each-reported m largest e v host fed p wide small set valid statics keeps hp hc wire h
        registered empty =
      let (q, taken, left, kept) =
        feed_each-dispatch schema (dispatch host) m largest e.transport v
          (map progress_message reports) fed p none wide small set valid statics hp hc
          (wire ∙ reported_line e v) h registered empty in
      (
        q,
        last_of none reports,
        taken ∙ ap (λ r. some (q, r)) (dispatch_each-last_of schema host reports none keeps),
        subst
            (λ (r : OtaManager × (W × (OtaEndpoint (List ℕ) × Statics × List ℕ))).
              Told r.0.status (last_of none reports))
            (recorded-reported e v) recorded-Told,
        left,
      )
