-- ===== src/Dbus/References.antt =====
-- The references to D-Bus messages that the transports own: what they obtain they release.
use midi2pwmv2_libcomm.Common.{
  ℕ, ◌+◌, ◌<◌, ◌≡◌, refl, ap, ◌∙◌, arith, ◌==◌, Bool, Bool-cases, Option-cases, if◌then◌else◌,
  Option, none, some, inl, inr, List, length, null, points, Span,
}
use midi2pwmv2_libcomm.Dbus.{
  DbusAddress, ℤ, int_of_size, Libdbus, DbusClientTransport, DbusServerTransport, RawMessageHandler,
}
use midi2pwmv2_libcomm.Dbus.Client.{append_byte_array, read_reply, call_method, transmit}
use midi2pwmv2_libcomm.Dbus.Server.{payload_of, call_handler, send_reply, answer, handle_message}

abbrev pub one_of : ℕ → ℕ → ℕ
one_of m j = if m == j then 1 else 0

abbrev pub gained : Option ℕ → ℕ → ℕ
gained none j = 0
gained (some m) j = one_of m j

-- The ownership rules that libdbus documents: a constructor and a blocking send give the caller one
-- reference to what they return, `dbus_message_unref` takes one that the caller has, and no other call
-- changes what the caller has. `refs w m` counts the caller's references to `m`.
pub record Counts {W : Type 0} (lib : Libdbus W) (refs : W → ℕ → ℕ) : Type 0 where
  pub new_call :
      (a : DbusAddress) (w : W) (j : ℕ)
      → refs (lib.new_method_call a w).1 j ≡ gained (lib.new_method_call a w).0 j + refs w j
  pub new_return :
      (m : ℕ) (w : W) (j : ℕ)
      → refs (lib.new_method_return m w).1 j ≡ gained (lib.new_method_return m w).0 j + refs w j
  pub reply :
      (c m : ℕ) (w : W) (j : ℕ)
      → refs (lib.send_with_reply_and_block c m w).1 j
        ≡ gained (lib.send_with_reply_and_block c m w).0 j + refs w j
  pub unref :
      (m : ℕ) (w : W) (j : ℕ)
      → 0 < refs w m
      → refs (lib.message_unref m w) j + one_of m j ≡ refs w j
  pub opens : (m : ℕ) (w : W) (j : ℕ) → refs (lib.open_container m w).1 j ≡ refs w j
  pub appends :
      (m : ℕ) (bytes : List ℕ) (n : ℤ) (w : W) (j : ℕ)
      → refs (lib.append_fixed_array m bytes n w).1 j ≡ refs w j
  pub closes : (m : ℕ) (w : W) (j : ℕ) → refs (lib.close_container m w).1 j ≡ refs w j
  pub boolean : (m b : ℕ) (w : W) (j : ℕ) → refs (lib.append_boolean m b w).1 j ≡ refs w j
  pub reads : (m : ℕ) (w : W) (j : ℕ) → refs (lib.get_boolean m w).1 j ≡ refs w j
  pub sends : (c m : ℕ) (w : W) (j : ℕ) → refs (lib.connection_send c m w).1 j ≡ refs w j
  pub flushes : (c : ℕ) (w : W) (j : ℕ) → refs (lib.connection_flush c w) j ≡ refs w j

-- A handler that neither takes nor gives up references.
abbrev pub Leaves : {W : Type 0} → (W → ℕ → ℕ) → Option (RawMessageHandler W) → Type 0
Leaves refs none = Unit {0}
Leaves {W} refs (some on_message) =
    (bytes : List ℕ) (w : W) (j : ℕ) → refs (on_message bytes w).1 j ≡ refs w j

module _ {W : Type 0} (lib : Libdbus W) (refs : W → ℕ → ℕ) (h : Counts lib refs) where
  append_byte_array_keeps :
      (m : ℕ) (bytes : List ℕ) (w : W) (j : ℕ)
      → refs (append_byte_array lib m bytes w).1 j ≡ refs w j
  unfolding append_byte_array
  append_byte_array_keeps m bytes w j =
      let w1 : W = (lib.open_container m w).1 in
      let n : ℤ = int_of_size (length bytes) in
      let w2 : W = (lib.append_fixed_array m bytes n w1).1 in
      elim (Bool-cases (lib.open_container m w).0) [
        | inr failed ↦ rw failed (h.opens m w j)
        | inl opened ↦ elim (Bool-cases (lib.append_fixed_array m bytes n w1).0) [
          | inr failed ↦
              rw (opened, failed) (h.closes m w2 j ∙ h.appends m bytes n w1 j ∙ h.opens m w j)
          | inl appended ↦
              rw (opened, appended) (h.closes m w2 j ∙ h.appends m bytes n w1 j ∙ h.opens m w j)
        ]
      ]

  -- The reply, if there is one, is released.
  read_reply_releases :
      (reply : Option ℕ) (w w0 : W) (j : ℕ)
      → ((i : ℕ) → refs w i ≡ gained reply i + refs w0 i)
      → refs (read_reply lib reply w).1 j ≡ refs w0 j
  unfolding read_reply
  read_reply_releases none w w0 j owned = omega (arith, owned j)
  read_reply_releases (some r) w w0 j owned =
      let w1 : W = (lib.get_boolean r w).1 in
      ground (arith, h.unref r w1 j, h.reads r w j, h.reads r w r, owned j, owned r)

  -- A message that is owned once more than at the start is released, and nothing else has changed.
  released :
      (m : ℕ) (w w0 : W) (j : ℕ)
      → ((i : ℕ) → refs w i ≡ one_of m i + refs w0 i)
      → refs (lib.message_unref m w) j ≡ refs w0 j
  released m w w0 j owned = ground (arith, h.unref m w j, owned j, owned m)

  call_method_keeps :
      (c : ℕ) (a : DbusAddress) (bytes : List ℕ) (w : W) (j : ℕ)
      → refs (call_method lib c a bytes w).1 j ≡ refs w j
  unfolding call_method
  call_method_keeps c a bytes w j = elim (Option-cases (lib.new_method_call a w).0) [
    | inl none_made ↦
        rw (none_made, call_method)
          (h.new_call a w j ∙ ap (λ o. gained o j + refs w j) none_made ∙ omega arith)
    | inr (m, made) ↦
        let w1 : W = (lib.new_method_call a w).1 in
        let w2 : W = (append_byte_array lib m bytes w1).1 in
        let w3 : W = (lib.send_with_reply_and_block c m w2).1 in
        let owned : (i : ℕ) → refs w2 i ≡ one_of m i + refs w i = λ i.
          append_byte_array_keeps m bytes w1 i
          ∙ h.new_call a w i
          ∙ ap (λ o. gained o i + refs w i) made in
        let reply : Option ℕ = (lib.send_with_reply_and_block c m w2).0 in
        let both : (i : ℕ) → refs w3 i ≡ gained reply i + (one_of m i + refs w i) =
          λ i. h.reply c m w2 i ∙ ap (λ (k : ℕ). gained reply i + k) (owned i) in
        let left : (i : ℕ) → refs (lib.message_unref m w3) i ≡ gained reply i + refs w i =
          λ i. ground (arith, h.unref m w3 i, both i, both m) in
        elim (Bool-cases (append_byte_array lib m bytes w1).0) [
          | inr failed ↦ rw (made, call_method) (rw failed (released m w2 w j owned))
          | inl appended ↦
              rw (made, call_method)
                (rw appended (read_reply_releases reply (lib.message_unref m w3) w j left))
        ]
  ]

  pub transmit_keeps :
      (t : DbusClientTransport) (payload : Span) (w : W) (j : ℕ)
      → refs (transmit lib t payload w).1 j ≡ refs w j
  unfolding transmit
  transmit_keeps t (null n) w j = refl
  transmit_keeps t (points bytes) w j = elim (Option-cases t.connection) [
    | inl lost ↦ rw (lost, transmit) refl
    | inr (c, connected) ↦ elim (Bool-cases (length bytes == 0)) [
      | inl empty ↦ rw (connected, transmit) (rw empty refl)
      | inr full ↦ rw (connected, transmit) (rw full (call_method_keeps c t.address bytes w j))
    ]
  ]

  send_reply_releases :
      (c r b : ℕ) (w w0 : W) (j : ℕ)
      → ((i : ℕ) → refs w i ≡ one_of r i + refs w0 i)
      → refs (send_reply lib c r b w).1 j ≡ refs w0 j
  unfolding send_reply
  send_reply_releases c r b w w0 j owned =
      let w1 : W = (lib.append_boolean r b w).1 in
      let w2 : W = (lib.connection_send c r w1).1 in
      let appended : (i : ℕ) → refs w1 i ≡ one_of r i + refs w0 i =
        λ i. h.boolean r b w i ∙ owned i in
      let sent : (i : ℕ) → refs w2 i ≡ one_of r i + refs w0 i =
        λ i. h.sends c r w1 i ∙ appended i in
      elim (Bool-cases (lib.append_boolean r b w).0) [
        | inr failed ↦ rw failed (released r w1 w0 j appended)
        | inl full ↦ elim (Bool-cases (lib.connection_send c r w1).0) [
          | inr failed ↦ rw (full, failed) (released r w2 w0 j sent)
          | inl out ↦
              rw (full, out)
                (released r (lib.connection_flush c w2) w0 j (λ i. h.flushes c w2 i ∙ sent i))
        ]
      ]

  answer_keeps :
      (c m : ℕ) (good : Bool) (w : W) (j : ℕ) → refs (answer lib c m good w).1 j ≡ refs w j
  unfolding answer
  answer_keeps c m good w j =
      let w1 : W = (lib.new_method_return m w).1 in
      elim (Option-cases (lib.new_method_return m w).0) [
        | inl none_made ↦
            rw (none_made, answer)
              (h.new_return m w j ∙ ap (λ o. gained o j + refs w j) none_made ∙ omega arith)
        | inr (r, made) ↦
            rw (made, answer)
              (send_reply_releases c r (if good then 1 else 0) w1 w j
                (λ i. h.new_return m w i ∙ ap (λ o. gained o i + refs w i) made))
      ]

  call_handler_keeps :
      (handler : Option (RawMessageHandler W)) (payload : Span) (w : W) (j : ℕ)
      → Leaves refs handler
      → refs (call_handler lib handler payload w).1 j ≡ refs w j
  unfolding call_handler
  call_handler_keeps none payload w j leaves = refl
  call_handler_keeps (some on_message) (null n) w j leaves = refl
  call_handler_keeps (some on_message) (points bytes) w j leaves =
      elim (Bool-cases (length bytes == 0)) [
        | inl empty ↦ rw empty refl
        | inr full ↦ rw full (leaves bytes w j)
      ]

  pub handle_message_keeps :
      (c m : ℕ) (self : DbusServerTransport W) (w : W) (j : ℕ)
      → Leaves refs self.handler
      → refs (handle_message lib c (some m) (some self) w).1 j ≡ refs w j
  unfolding handle_message
  handle_message_keeps c m self w j leaves =
      let a : DbusAddress = self.server_address in
      let answered : Bool × W = call_handler lib self.handler (payload_of lib m w) w in
      elim (Bool-cases (lib.is_method_call m a.interface a.method w)) [
        | inr other ↦ rw other refl
        | inl mine ↦ rw mine (
            answer_keeps c m answered.0 answered.1 j
            ∙ call_handler_keeps self.handler (payload_of lib m w) w j leaves)
      ]

-- Where libdbus keeps its ownership rules and the message handler leaves references alone, a `Transmit` of
-- any bytes and a `HandleMessage` of any message give up exactly the references to messages that they
-- obtain, on every path, whichever calls of libdbus fail: the caller has as many as before to each message.
pub references_kept :
    {W : Type 0} (lib : Libdbus W) (refs : W → ℕ → ℕ) (t : DbusClientTransport) (payload : Span)
    (self : DbusServerTransport W) (c m : ℕ) (w : W) (j : ℕ)
    → Counts lib refs
    → Leaves refs self.handler
    → (refs (transmit lib t payload w).1 j ≡ refs w j)
      × (refs (handle_message lib c (some m) (some self) w).1 j ≡ refs w j)
references_kept lib refs t payload self c m w j h leaves =
    (transmit_keeps lib refs h t payload w j, handle_message_keeps lib refs h c m self w j leaves)
