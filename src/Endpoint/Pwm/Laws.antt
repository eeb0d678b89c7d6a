-- ===== src/Endpoint/Pwm/Laws.antt =====
-- What `PwmEndpoint` promises of the fault log.
use midi2pwmv2_libcomm.Common.{
  ℕ, zero, suc, ◌≤◌, ◌≡◌, refl, sym, ap, ◌∙◌, arith, min, ltb, true, Bool-cases, inl, inr, Option,
  none, some, List, [], ◌∷◌, ◌++◌, append_assoc, append-nil, take_all, map, length, take, points,
}
use midi2pwmv2_libcomm.Transport.{max_frame_size}
use midi2pwmv2_libcomm.Transport.Frame.{frame}
use midi2pwmv2_libcomm.Transport.Receive.{IsSizeModulus}
use midi2pwmv2_libcomm.Endpoint.{Schema, Carries, notify}
use midi2pwmv2_libcomm.Endpoint.Roundtrip.{handle_incoming-serialize}
use midi2pwmv2_libcomm.Endpoint.Pwm.{
  FaultLogEntry, FaultLog, fault_log, PwmMessage, PwmEndpoint, dispatch, handle_frame, receive,
}
use midi2pwmv2_libcomm.Endpoint.Pwm.Messages.{
  FaultLogEntryData, create_fault_log_entry, serialize_entries, serialized_entries,
  build_fault_log_message,
}

serialize_entries-map :
    (n : ℕ) (xs : List FaultLogEntryData) (done : List FaultLogEntry)
    → serialize_entries n xs done ≡ done ++ map create_fault_log_entry (take n xs)
unfolding serialize_entries
serialize_entries-map zero xs done = sym (append-nil done)
serialize_entries-map (suc n) [] done = sym (append-nil done)
serialize_entries-map (suc n) (x ∷ xs) done =
    serialize_entries-map n xs (done ++ (create_fault_log_entry x ∷ []))
    ∙ append_assoc done (create_fault_log_entry x ∷ []) (map create_fault_log_entry (take n xs))

-- The first 64 entries given, each with its time stamp and its fault; a null pointer gives none.
abbrev pub first_entries : Option (List FaultLogEntryData) → List FaultLogEntry
first_entries none = []
first_entries (some xs) = map create_fault_log_entry (take 64 xs)

take-min : {A : Type 0} (n : ℕ) (xs : List A) → take (min (length xs) n) xs ≡ take n xs
take-min n xs = elim (Bool-cases (ltb (length xs) n)) [
  | inl short ↦
      let all : min (length xs) n ≡ length xs = ground arith in
      rw all (take_all (length xs) xs (omega arith) ∙ sym (take_all n xs (ground arith)))
  | inr long ↦ let part : min (length xs) n ≡ n = ground arith in rw part
]

pub serialized_entries-first :
    (given : Option (List FaultLogEntryData)) → serialized_entries given ≡ first_entries given
unfolding serialized_entries
serialized_entries-first none = refl
serialized_entries-first (some []) = refl
serialized_entries-first (some (x ∷ xs)) =
    let full : ltb 0 (length (x ∷ xs)) ≡ true = ground arith in
    rw full (
      serialize_entries-map (min (length (x ∷ xs)) 64) (x ∷ xs) []
      ∙ ap (map create_fault_log_entry) (take-min 64 (x ∷ xs)))

abbrev pub first_log : ℕ → Option (List FaultLogEntryData) → FaultLog
first_log total given = record { log_size = total; entries = some (first_entries given) }

-- A fault log message, built from any number of entries or a null pointer, framed and received with a
-- handler set: the handler is called once, with the total given and with the first 64 entries, in order,
-- each with its time stamp and its fault.
receive-fault_log :
    {Float ModeParams S : Type 0} (schema : Schema (PwmMessage Float ModeParams)) (m n : ℕ)
    (e : PwmEndpoint Float ModeParams S) (handler : FaultLog → S → S) (total : ℕ)
    (given : Option (List FaultLogEntryData)) (s : S)
    → Carries schema (fault_log (some (first_log total given)))
    → IsSizeModulus m
    → e.fault_log_handler ≡ some handler
    → length (build_fault_log_message schema total given) ≤ max_frame_size
    → receive m e schema (points (frame n (build_fault_log_message schema total given))) s
      ≡ (true, handler (first_log total given) s)
unfolding receive handle_frame build_fault_log_message
receive-fault_log schema m n e handler total given s h wide set small =
    let log : FaultLog = first_log total given in
    let built : build_fault_log_message schema total given
        ≡ schema.serialize (fault_log (some log)) =
      ap (λ r. schema.serialize (fault_log (some (record { log_size = total; entries = some r }))))
        (serialized_entries-first given) in
    let handled : dispatch e (fault_log (some log)) s ≡ (true, handler log s) =
      unfold dispatch in ap (λ c. (true, notify c (some log) s)) set in
    ap (λ b. receive m e schema (points (frame n b)) s) built
    ∙ handle_incoming-serialize schema (fault_log (some log)) h m n (dispatch e) s wide
        (omega (arith, ap length built))
    ∙ handled
