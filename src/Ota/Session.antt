-- ===== src/Ota/Session.antt =====
-- A whole update on a flash that answers every call with success.
use midi2pwmv2_libcomm.Common.{
  ℕ, ◌+◌, ◌%◌, ◌^◌, ◌≤◌, ◌<◌, ◌≡◌, refl, ap, ◌∙◌, arith, ◌==◌, ltb, true, false, ◌||◌, inl, inr,
  Bool-cases, Option, none, some, List, [], ◌∷◌, ◌++◌, length, All, points,
}
use native.Mathlib.Nat.{mod-eq_of_lt}
use midi2pwmv2_libcomm.Ota.{
  Target, OtaStatus, preparing, receiving, verifying, applying, rebooting, Message, FlashWriter,
  SendProgress, OtaManager, new_ota_manager, report_progress, transition_to, restart, erase,
  begin_idle, handle_begin, count_chunk, store_chunk, accept_chunk, handle_data, activate_slot,
  verify_image, finish_image, handle_end,
}
use midi2pwmv2_libcomm.Ota.Command.{Command, calls_begin, calls_data, calls_end, call, run}

-- A flash whose calls succeed.
pub record IsReliable {W : Type 0} (writer : FlashWriter W) : Type 0 where
  pub begins : (n : ℕ) (w : W) → (writer.begin n w).0 ≡ true
  pub writes : (i : ℕ) (bytes : List ℕ) (w : W) → (writer.write_chunk i bytes w).0 ≡ true
  pub finishes : (w : W) → (writer.finish w).0 ≡ true
  pub verifies : (crc : ℕ) (w : W) → (writer.verify crc w).0 ≡ true
  pub activates : (w : W) → (writer.activate w).0 ≡ true

-- The flash `W` and the host link `H` side by side: the writer acts on one, the reports on the other.
module _ {W H : Type 0} where
  abbrev pub flash_side : FlashWriter W → FlashWriter (W × H)
  flash_side writer = record {
    begin = λ n x. ((writer.begin n x.0).0, ((writer.begin n x.0).1, x.1));
    write_chunk = λ i bytes x.
        ((writer.write_chunk i bytes x.0).0, ((writer.write_chunk i bytes x.0).1, x.1));
    finish = λ x. ((writer.finish x.0).0, ((writer.finish x.0).1, x.1));
    verify = λ crc x. ((writer.verify crc x.0).0, ((writer.verify crc x.0).1, x.1));
    activate = λ x. ((writer.activate x.0).0, ((writer.activate x.0).1, x.1));
    abort = λ x. (writer.abort x.0, x.1);
    max_firmware_size = λ x. writer.max_firmware_size x.0;
  }

  abbrev pub host_side : Option (SendProgress H) → Option (SendProgress (W × H))
  host_side none = none
  host_side (some send) = some (λ t st r n msg x. (x.0, send t st r n msg x.1))

-- The chunks one after the other, from index `k` on.
abbrev pub data_commands : ℕ → List (List ℕ) → List Command
data_commands k [] = []
data_commands k (c ∷ cs) = calls_data k (points c) ∷ data_commands (k + 1) cs

abbrev pub write_each : {W : Type 0} → FlashWriter W → ℕ → List (List ℕ) → W → W
write_each writer k [] w = w
write_each writer k (c ∷ cs) w = write_each writer (k + 1) cs (writer.write_chunk k c w).1

-- What the flash has been told once a session is through.
abbrev pub flashed : {W : Type 0} → FlashWriter W → ℕ → ℕ → List (List ℕ) → W → W
flashed writer size crc cs w =
    (writer.activate
      (writer.verify crc (writer.finish (write_each writer 0 cs (writer.begin size w).1)).1).1).1

abbrev session : OtaStatus → ℕ → ℕ → ℕ → OtaManager
session status crc total received = record {
  status = status;
  expected_crc32 = crc;
  total_chunks = total;
  received_chunks = received;
}

abbrev pub IsGiven : List ℕ → Type 0
IsGiven c = 0 < length c

pub report_progress-flash :
    {W H : Type 0} (writer : FlashWriter W) (target : Target) (send : Option (SendProgress H))
    (o : OtaManager) (msg : Option Message) (x : W × H)
    → (report_progress (flash_side writer) target (host_side send) o msg x).0 ≡ x.0
unfolding report_progress
report_progress-flash writer target none o msg x = refl
report_progress-flash writer target (some f) o msg x = refl

module _ {W H : Type 0} (writer : FlashWriter W) (target : Target) (send : Option (SendProgress H))
    (good : IsReliable writer) where
  abbrev F : FlashWriter (W × H)
  F = flash_side writer

  abbrev P : Option (SendProgress (W × H))
  P = host_side send

  -- A call that leaves the given session and flash.
  abbrev Leaves : OtaManager × (W × H) → OtaManager → W → Type 0
  Leaves r o w = (r.0 ≡ o) × (r.1.0 ≡ w)

  handle_begin-Leaves :
      (size crc total : ℕ) (x : W × H)
      → 0 < size
      → size ≤ writer.max_firmware_size x.0
      → Leaves
          (handle_begin F target P new_ota_manager size crc total x)
          (session receiving crc total 0)
          (writer.begin size x.0).1
  unfolding handle_begin restart begin_idle erase transition_to new_ota_manager
  handle_begin-Leaves size crc total x pos fits =
      let some_size : ((size == 0) || ltb (writer.max_firmware_size x.0) size) ≡ false =
        ground arith in
      let o1 : OtaManager = session preparing crc total 0 in
      let x1 = report_progress F target P o1 none x in
      let same : x1.0 ≡ x.0 = report_progress-flash writer target send o1 none x in
      rw some_size (
        rw (good.begins size x1.0) (
          refl,
          report_progress-flash writer target send (session receiving crc total 0) none _
              ∙ ap (λ w. (writer.begin size w).1) same,
        ))

  handle_data-Leaves :
      (crc total k : ℕ) (c : List ℕ) (x : W × H)
      → k + 1 < 2 ^ 16
      → IsGiven c
      → Leaves
          (handle_data F target P (session receiving crc total k) k (points c) x)
          (session receiving crc total (k + 1))
          (writer.write_chunk k c x.0).1
  unfolding handle_data accept_chunk store_chunk count_chunk
  handle_data-Leaves crc total k c x small given =
      let expected : (k == k) ≡ true = ground arith in
      let full : (length c == 0) ≡ false = ground arith in
      let next : (k + 1) % 2 ^ 16 ≡ k + 1 = mod-eq_of_lt {n = k + 1} {m = 2 ^ 16} small in
      rw expected (
        rw full (
          rw (good.writes k c x.0) (
            rw next (elim (Bool-cases (((k + 1) == total) || (((k + 1) % 50) == 0))) [
              | inl due ↦ rw due (refl, report_progress-flash writer target send _ none _)
              | inr quiet ↦ rw quiet (refl, refl)
            ]))))

  handle_end-Leaves :
      (crc total : ℕ) (x : W × H)
      → Leaves
          (handle_end F target P (session receiving crc total total) x)
          (session rebooting crc total total)
          (writer.activate (writer.verify crc (writer.finish x.0).1).1).1
  unfolding handle_end finish_image verify_image activate_slot transition_to
  handle_end-Leaves crc total x =
      let complete : (total == total) ≡ true = ground arith in
      let x1 : W × H = ((writer.finish x.0).1, x.1) in
      let o1 : OtaManager = session verifying crc total total in
      let x2 = report_progress F target P o1 none x1 in
      let x3 : W × H = ((writer.verify crc x2.0).1, x2.1) in
      let o2 : OtaManager = session applying crc total total in
      let x4 = report_progress F target P o2 none x3 in
      let o3 : OtaManager = session rebooting crc total total in
      let x5 = report_progress F target P o3 none x4 in
      rw complete (
        rw (good.finishes x.0) (
          rw (good.verifies crc x2.0) (
            rw (good.activates x5.0) (
              refl,
              ap (λ w. (writer.activate w).1)
                    (report_progress-flash writer target send o3 none x4
                      ∙ report_progress-flash writer target send o2 none x3)
                  ∙ ap (λ w. (writer.activate (writer.verify crc w).1).1)
                      (report_progress-flash writer target send o1 none x1),
            ))))

  Leaves-replace :
      (c : Command) (o o' p : OtaManager) (x : W × H) (f : W → W)
      → o ≡ o'
      → Leaves (call F target P c o' x) p (f x.0)
      → Leaves (call F target P c o x) p (f x.0)
  Leaves-replace c o o' p x f e h = rw e h

  run-data :
      (crc total : ℕ) (cs : List (List ℕ)) (k : ℕ) (o : OtaManager) (x : W × H) (w : W)
      → o ≡ session receiving crc total k
      → x.0 ≡ w
      → k + length cs ≡ total
      → total < 2 ^ 16
      → All IsGiven cs
      → Leaves
          (run F target P (data_commands k cs ++ (calls_end ∷ [])) o x)
          (session rebooting crc total total)
          (writer.activate (writer.verify crc (writer.finish (write_each writer k cs w)).1).1).1
  unfolding run
  run-data crc total [] k o x w e same count small given =
      let all_in : k ≡ total = omega arith in
      rw⁻¹ same (
        Leaves-replace calls_end o (session receiving crc total total) _ x
          (λ v. (writer.activate (writer.verify crc (writer.finish v).1).1).1)
          (e ∙ ap (session receiving crc total) all_in) (handle_end-Leaves crc total x))
  run-data crc total (c ∷ cs) k o x w e same count small given =
      let r = call F target P (calls_data k (points c)) o x in
      let (after, stored) =
        Leaves-replace (calls_data k (points c)) o (session receiving crc total k)
          (session receiving crc total (k + 1)) x (λ v. (writer.write_chunk k c v).1) e
          (handle_data-Leaves crc total k c x (omega arith) given.0) in
      run-data crc total cs (k + 1) r.0 r.1 (writer.write_chunk k c w).1 after
        (stored ∙ ap (λ v. (writer.write_chunk k c v).1) same) (omega arith) small given.1

-- On a flash that answers every call with success, a session of fewer than 2^16 chunks, none of them
-- empty, whose announced size is not 0 and fits: `handleBegin`, the chunks in order and `handleEnd` bring
-- the manager to rebooting, and the flash has been told to erase, to write each chunk under its index, to
-- finish, to verify the announced checksum and to activate, and nothing else, whatever the progress
-- callback does.
pub run-session :
    {W H : Type 0} (writer : FlashWriter W) (target : Target) (send : Option (SendProgress H))
    (size crc : ℕ) (cs : List (List ℕ)) (w : W) (host : H)
    → IsReliable writer
    → 0 < size
    → size ≤ writer.max_firmware_size w
    → length cs < 2 ^ 16
    → All IsGiven cs
    → let r =
        run
          (flash_side writer)
          target
          (host_side send)
          (calls_begin size crc (length cs) ∷ (data_commands 0 cs ++ (calls_end ∷ [])))
          new_ota_manager
          (w, host) in
      (r.0 ≡ record {
        status = rebooting;
        expected_crc32 = crc;
        total_chunks = length cs;
        received_chunks = length cs;
      })
      × (r.1.0 ≡ flashed writer size crc cs w)
unfolding run
run-session writer target send size crc cs w host good pos fits small given =
    let r =
      handle_begin (flash_side writer) target (host_side send) new_ota_manager size crc (length cs)
        (w, host) in
    let (after, erased) =
      handle_begin-Leaves writer target send good size crc (length cs) (w, host) pos fits in
    run-data writer target send good crc (length cs) cs 0 r.0 r.1 (writer.begin size w).1 after
      erased (omega arith) small given
