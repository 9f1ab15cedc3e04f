-- ===== src/Connection/Send/Stream.antt =====
-- A whole run of the sending half: what the transport takes is the messages that the node ends, one
-- after the other.
use robotraconteurlite.Prelude.{
  ℕ, ◌%◌, ◌^◌, ◌≤◌, ◌<◌, ◌≡◌, ◌≢◌, refl, ap, subst, ◌∙◌, sym, true, false, some, List, [], ◌∷◌,
  ◌++◌, arith, take, drop, length, length-take, drop_all, Bool-cases, ◌⊎◌, inl, inr, joined,
  joined-append,
}
use mathlib.Core.List.{append_assoc, append-nil}
use robotraconteurlite.Prelude.Int.{ℤ}
use robotraconteurlite.Status.{Status, success}
use robotraconteurlite.Connection.Types.{Connection}
use robotraconteurlite.Connection.Events.{is_message_sent_event, consume_message_sent}
use robotraconteurlite.Connection.Send.{
  begin_send_message, end_send_message, communicate_send1, communicate_send, op_len,
}
use robotraconteurlite.Connection.Send.Cycle.{unsent, SendInv, Takes, communicate_send_lem}

-- The runs of a connection: messages that the node writes into the send buffer and ends, send cycles
-- in which the transport takes a chunk, cycles in which it is not called, and reports that the node
-- consumes. `Run op c0 ms wire c`: from `c0` the node has ended `ms` and the transport has taken
-- `wire`, and the connection is now `c`.
pub data Run (op : ℕ → Connection → Status × Connection) (c0 : Connection)
    : List (List ℕ) → List ℕ → Connection → Type 0 where
  start : Run op c0 [] [] c0
  message :
      {ms : List (List ℕ)} {wire : List ℕ} {c : Connection} (bytes : List ℕ) (n : ℕ)
      → Run op c0 ms wire c
      → (begin_send_message c).0 ≡ success
      → length bytes ≡ length c.send_buffer
      → 0 < n
      → n ≤ c.send_buffer_len
      → n < 2 ^ 32
      → Run op c0
          (ms ++ take n bytes ∷ [])
          wire
          (end_send_message (record c { send_buffer = bytes }) n).1
  cycle :
      {ms : List (List ℕ)} {wire : List ℕ} {c : Connection} (c1 c2 : Connection) (n : ℕ)
      (chunk : List ℕ) (now : ℤ)
      → Run op c0 ms wire c
      → communicate_send1 c ≡ (success, some n, c1)
      → n ≢ 0
      → op n c1 ≡ (success, c2)
      → Takes c1 n chunk c2
      → Run op c0 ms (wire ++ chunk) (communicate_send op c now).1
  quiet :
      {ms : List (List ℕ)} {wire : List ℕ} {c : Connection} (now : ℤ)
      → Run op c0 ms wire c
      → op_len (communicate_send1 c).1 ≡ 0
      → Run op c0 ms wire (communicate_send op c now).1
  consume :
      {ms : List (List ℕ)} {wire : List ℕ} {c : Connection}
      → Run op c0 ms wire c
      → is_message_sent_event c ≡ true
      → Run op c0 ms wire (consume_message_sent c)

module _ (c : Connection) (v : SendInv c) where
  unsent_nil : c.send_buffer_pos ≡ c.send_message_len → unsent c ≡ []
  unsent_nil e =
      drop_all c.send_buffer_pos (take c.send_message_len c.send_buffer)
        (omega (arith, length-take c.send_message_len c.send_buffer))

  module _ (ready : (begin_send_message c).0 ≡ success) where
    ready_flags :
        (c.connection_state.error ≡ false)
        × (c.connection_state.send_requested ≡ false)
        × (c.connection_state.sending ≡ false)
        × (c.connection_state.message_sent ≡ false)
        × (c.connection_state.message_sent_consumed ≡ false)
    unfolding begin_send_message
    ready_flags = ground arith

    ready_len : (c.send_message_len ≡ 0) × (c.send_buffer_pos ≡ 0)
    ready_len =
        let (ok, no_request, idle, not_sent, rest) = ready_flags in
        let e = v.at_rest ok no_request idle not_sent in (e, omega (arith, e, v.within))

    module _ (bytes : List ℕ) (n : ℕ) (same : length bytes ≡ length c.send_buffer) (more : 0 < n)
        (fits : n ≤ c.send_buffer_len) (word : n < 2 ^ 32) where
      ended-SendInv : SendInv (end_send_message (record c { send_buffer = bytes }) n).1
      unfolding end_send_message
      ended-SendInv = record {
        memory = omega (arith, v.memory);
        size = v.size;
        fits = omega (arith);
        within = omega (arith, ready_len);
        requested = λ e. (ready_len.1, omega arith, ready_flags.2);
        partway = λ e. absurd (ground (arith, ready_flags));
        sent = λ ok e. absurd (ground (arith, ready_flags));
        at_rest = λ ok e. absurd (ground arith);
        consumed = v.consumed;
      }

      ended_unsent : unsent (end_send_message (record c { send_buffer = bytes }) n).1 ≡ take n bytes
      unfolding end_send_message
      ended_unsent =
          let e : n % 2 ^ 32 ≡ n = omega arith in
          ap (λ k. drop k (take (n % 2 ^ 32) bytes)) (ready_len.1) ∙ ap (λ k. take k bytes) e

  abbrev after_report : Connection
  after_report = record c {
    send_buffer_pos = 0;
    send_message_len = 0;
    connection_state = record (c.connection_state) {
      message_sent_consumed = false;
      message_sent = false;
    };
  }

  quiet_connection :
      op_len (communicate_send1 c).1 ≡ 0
      → ((communicate_send1 c).2 ≡ c)
        ⊎ ((c.connection_state.error ≡ false)
            × (c.connection_state.message_sent_consumed ≡ true)
            × ((communicate_send1 c).2 ≡ after_report))
  unfolding communicate_send1
  quiet_connection z = elim (Bool-cases c.connection_state.error) [
    | inl bad ↦ inl (simp bad)
    | inr ok ↦ elim (Bool-cases c.connection_state.message_sent_consumed) [
      | inl h ↦ inr (ok, h, simp (ok, h))
      | inr h ↦ elim (Bool-cases c.connection_state.send_requested) [
        | inl asked ↦ absurd (ground (arith, v.requested asked))
        | inr idle ↦ elim (Bool-cases c.connection_state.sending) [
          | inl going ↦ absurd (ground (arith, v.partway going, v.fits, v.size))
          | inr still ↦ inl (simp (ok, h, idle, still))
        ]
      ]
    ]
  ]

  after_report-SendInv :
      c.connection_state.error ≡ false
      → c.connection_state.message_sent_consumed ≡ true
      → SendInv after_report
  after_report-SendInv ok h =
      let (same, no_request, idle) = v.sent ok (v.consumed h) in
      record {
        memory = v.memory;
        size = v.size;
        fits = omega arith;
        within = omega arith;
        requested = λ e. absurd (ground (arith, no_request));
        partway = λ e. absurd (ground (arith, idle));
        sent = λ _ e. absurd (ground arith);
        at_rest = λ _ _ _ _. refl;
        consumed = λ e. absurd (ground arith);
      }

  quiet_unsent :
      (op : ℕ → Connection → Status × Connection) (now : ℤ)
      → op_len (communicate_send1 c).1 ≡ 0
      → SendInv (communicate_send op c now).1 × (unsent (communicate_send op c now).1 ≡ unsent c)
  unfolding communicate_send
  quiet_unsent op now z =
      let e : communicate_send op c now ≡ ((communicate_send1 c).0, (communicate_send1 c).2) =
        ground arith in
      elim (quiet_connection z) [
        | inl same ↦
            let f : c ≡ (communicate_send op c now).1 = sym (ap (λ r. r.1) e ∙ same) in
            (subst SendInv f v, sym (ap unsent f))
        | inr (ok, h, same) ↦
            let f : after_report ≡ (communicate_send op c now).1 = sym (ap (λ r. r.1) e ∙ same) in
            (
              subst SendInv f (after_report-SendInv ok h),
              sym (ap unsent f) ∙ sym (unsent_nil (v.sent ok (v.consumed h)).0),
            )
      ]

  consumed-SendInv : is_message_sent_event c ≡ true → SendInv (consume_message_sent c)
  unfolding consume_message_sent is_message_sent_event
  consumed-SendInv h = record {
    memory = v.memory;
    size = v.size;
    fits = v.fits;
    within = v.within;
    requested = v.requested;
    partway = v.partway;
    sent = v.sent;
    at_rest = v.at_rest;
    consumed = λ e. ground arith;
  }

  consumed_unsent : is_message_sent_event c ≡ true → unsent (consume_message_sent c) ≡ unsent c
  unfolding consume_message_sent
  consumed_unsent h = refl

-- From a connection in order, after any sequence of messages that the node ends when it may begin
-- one, each of at least one byte, no longer than the send buffer and shorter than 2^32 bytes, of
-- send cycles in which the transport succeeds and takes pieces of any size, cycles without a call
-- of the transport, and reports consumed, the bytes taken by the transport and then those left to
-- send are the bytes left at the start followed by the messages, and the connection is in order.
pub Run-delivers :
    {op : ℕ → Connection → Status × Connection} {c0 : Connection} {ms : List (List ℕ)}
    {wire : List ℕ} {c : Connection}
    → SendInv c0
    → Run op c0 ms wire c
    → SendInv c × (wire ++ unsent c ≡ unsent c0 ++ joined ms)
Run-delivers {op} {c0} v start = (v, sym (append-nil (unsent c0)))
Run-delivers {op} {c0} v (message {ms} {wire} {c} bytes n run ready same more fits word) =
    let (w, e) = Run-delivers v run in
    let (z, z') = ready_len c w ready in
    let before : wire ≡ unsent c0 ++ joined ms =
      sym (append-nil wire) ∙ ap (λ t. wire ++ t) (sym (unsent_nil c w (omega arith))) ∙ e in
    (
      ended-SendInv c w ready bytes n same more fits word,
      ap (λ t. wire ++ t) (ended_unsent c w ready bytes n same more fits word)
          ∙ ap (λ t. t ++ take n bytes) before
          ∙ append_assoc (unsent c0) (joined ms) (take n bytes)
          ∙ ap (λ t. unsent c0 ++ t) (sym (joined-append ms (take n bytes))),
    )
Run-delivers {op} {c0} v (cycle {ms} {wire} {c} c1 c2 n chunk now run e1 ne e2 t) =
    let (w, e) = Run-delivers v run in
    let (d, e', w', conserved, iff) = communicate_send_lem op now c c1 c2 n chunk w e1 ne e2 t in
    let last : d ≡ (communicate_send op c now).1 = ap (λ r. r.1) (sym e') in
    (
      subst SendInv last w',
      ap (λ t. (wire ++ chunk) ++ unsent t) (sym last)
          ∙ append_assoc wire chunk (unsent d)
          ∙ ap (λ t. wire ++ t) conserved
          ∙ e,
    )
Run-delivers v (quiet {ms} {wire} {c} now run z) =
    let (w, e) = Run-delivers v run in
    let (w', same) = quiet_unsent c w _ now z in (w', ap (λ t. wire ++ t) same ∙ e)
Run-delivers v (consume {ms} {wire} {c} run h) =
    let (w, e) = Run-delivers v run in
    (consumed-SendInv c w h, ap (λ t. wire ++ t) (consumed_unsent c w h) ∙ e)
