-- ===== src/Ota/Protocol.antt =====
-- The order in which `OtaManager` calls the flash writer, watched by an automaton.
use midi2pwmv2_libcomm.Common.{
  ℕ, ◌+◌, ◌%◌, ◌^◌, ◌≡◌, refl, ap, ◌∙◌, ◌==◌, Bool, true, false, if◌then◌else◌, inl, inr,
  Bool-cases, Option, none, some,
}
use midi2pwmv2_libcomm.Ota.{
  Target, OtaStatus, idle, preparing, receiving, verifying, applying, rebooting, error, Message,
  FlashWriter, SendProgress, OtaManager, report_progress, transition_to, fail_with, abort_with,
  activate_slot,
}

-- How far a session has come in the flash; `writing k` waits for the chunk with index `k`.
pub data Phase : Type 0 where
  ready finished verified active failed : Phase
  writing : ℕ → Phase

-- What each method makes of the phase; `none` where the method may not be called.
abbrev pub on_begin : Phase → Bool → Option Phase
on_begin ready true = some (writing 0)
on_begin ready false = some failed
on_begin finished ok = none
on_begin verified ok = none
on_begin active ok = none
on_begin failed ok = none
on_begin (writing k) ok = none

abbrev on_write : Phase → ℕ → Bool → Option Phase
on_write ready i ok = none
on_write finished i ok = none
on_write verified i ok = none
on_write active i ok = none
on_write failed i ok = none
on_write (writing k) i ok =
    if i == k then (if ok then some (writing ((k + 1) % 2 ^ 16)) else some failed) else none

abbrev on_finish : Phase → Bool → Option Phase
on_finish ready ok = none
on_finish finished ok = none
on_finish verified ok = none
on_finish active ok = none
on_finish failed ok = none
on_finish (writing k) ok = if ok then some finished else some failed

abbrev on_verify : Phase → Bool → Option Phase
on_verify ready ok = none
on_verify finished ok = if ok then some verified else some failed
on_verify verified ok = none
on_verify active ok = none
on_verify failed ok = none
on_verify (writing k) ok = none

abbrev on_activate : Phase → Bool → Option Phase
on_activate ready ok = none
on_activate finished ok = none
on_activate verified ok = if ok then some active else some failed
on_activate active ok = none
on_activate failed ok = none
on_activate (writing k) ok = none

-- The phase in which the manager rests between two calls; none of the other states is left standing.
abbrev pub phase_of : OtaStatus → ℕ → Option Phase
phase_of idle k = some ready
phase_of preparing k = none
phase_of receiving k = some (writing k)
phase_of verifying k = none
phase_of applying k = none
phase_of rebooting k = some active
phase_of error k = none

abbrev pub after : Option Phase → (Phase → Option Phase) → Option Phase
after none f = none
after (some phase) f = f phase

module _ {W : Type 0} where
  -- The writer with the automaton beside it.
  abbrev pub watched : FlashWriter W → FlashWriter (W × Option Phase)
  watched writer = record {
    begin = λ n x. let (ok, w) = writer.begin n x.0 in (ok, (w, after x.1 (λ a. on_begin a ok)));
    write_chunk = λ i bytes x.
        let (ok, w) = writer.write_chunk i bytes x.0 in (ok, (w, after x.1 (λ a. on_write a i ok)));
    finish = λ x. let (ok, w) = writer.finish x.0 in (ok, (w, after x.1 (λ a. on_finish a ok)));
    verify =
        λ crc x. let (ok, w) = writer.verify crc x.0 in (ok, (w, after x.1 (λ a. on_verify a ok)));
    activate =
        λ x. let (ok, w) = writer.activate x.0 in (ok, (w, after x.1 (λ a. on_activate a ok)));
    abort = λ x. (writer.abort x.0, after x.1 (λ a. some ready));
    max_firmware_size = λ x. writer.max_firmware_size x.0;
  }

  abbrev pub watched_send : Option (SendProgress W) → Option (SendProgress (W × Option Phase))
  watched_send none = none
  watched_send (some send) = some (λ t st r n msg x. (send t st r n msg x.0, x.1))

  -- The automaton has not stopped and stands where the manager rests.
  pub record Agrees (r : OtaManager × (W × Option Phase)) : Type 0 where
    pub phase : Phase
    pub rests : phase_of r.0.status r.0.received_chunks ≡ some phase
    pub stands : r.1.1 ≡ some phase

pub report_progress-phase :
    {W : Type 0} (writer : FlashWriter W) (target : Target) (send : Option (SendProgress W))
    (o : OtaManager) (msg : Option Message) (x : W × Option Phase)
    → (report_progress (watched writer) target (watched_send send) o msg x).1 ≡ x.1
unfolding report_progress
report_progress-phase writer target none o msg x = refl
report_progress-phase writer target (some f) o msg x = refl

module _ {W : Type 0} (writer : FlashWriter W) (target : Target)
    (send : Option (SendProgress W)) where
  abbrev W' : FlashWriter (W × Option Phase)
  W' = watched writer

  abbrev S' : Option (SendProgress (W × Option Phase))
  S' = watched_send send

  pub transition_to-phase :
      (o : OtaManager) (st : OtaStatus) (msg : Option Message) (x : W × Option Phase)
      → (transition_to W' target S' o st msg x).1.1 ≡ x.1
  unfolding transition_to
  transition_to-phase o st msg x =
      report_progress-phase writer target send (record o { status = st }) msg x

  pub fail_with-Agrees :
      (o : OtaManager) (msg : Message) (x : W × Option Phase)
      → x.1 ≡ some ready
      → Agrees (fail_with W' target S' o msg x)
  unfolding fail_with transition_to
  fail_with-Agrees o msg x e = record {
    phase = ready;
    rests = refl;
    stands =
        report_progress-phase writer target send (record o { status = error }) (some msg) x ∙ e;
  }

  pub abort_with-Agrees :
      (o : OtaManager) (msg : Message) (x : W × Option Phase) (a : Phase)
      → x.1 ≡ some a
      → Agrees (abort_with W' target S' o msg x)
  unfolding abort_with
  abort_with-Agrees o msg x a e =
      fail_with-Agrees o msg (W'.abort x) (ap (λ b. after b (λ c. some ready)) e)

  pub activate_slot-Agrees :
      (o : OtaManager) (x : W × Option Phase)
      → x.1 ≡ some verified
      → Agrees (activate_slot W' target S' o x)
  unfolding activate_slot
  activate_slot-Agrees o x e =
      let o1 = transition_to W' target S' o applying none x in
      let o2 = transition_to W' target S' o1.0 rebooting none o1.1 in
      let still : o2.1.1 ≡ some verified =
        transition_to-phase o1.0 rebooting none o1.1 ∙ transition_to-phase o applying none x ∙ e in
      elim (Bool-cases (writer.activate o2.1.0).0) [
        | inl good ↦ rw good (record {
          phase = active;
          rests = unfold transition_to in refl;
          stands = rw still refl;
        })
        | inr bad ↦ rw bad (abort_with-Agrees o2.0 _ _ failed (rw still refl))
      ]
