-- ===== src/Connection/Lifecycle/Closing.antt =====
-- How a connection is closed: the request, the event for the node, and the way back to the idle state.
use robotraconteurlite.Prelude.{◌≡◌, ◌≢◌, ap, ◌∙◌, true, arith, ◌↔◌}
use robotraconteurlite.Prelude.Int.{ℤ}
use robotraconteurlite.Status.{Status, success}
use robotraconteurlite.Connection.Types.{Connection, Socket}
use robotraconteurlite.Connection.Events.{is_closed_event, consume_closed}
use robotraconteurlite.Connection.Lifecycle.{connection_close, tcp_transport, tcp_process_control}
use robotraconteurlite.Connection.Lifecycle.Phases.{
  free, in_use, closing, closed_unseen, closed_seen, phase, PhaseInv, after_control, after_request,
  SamePhase, control_close, tcp_process_control-phase,
}

-- With flags in order, connection_close succeeds and leaves a free connection entirely as it was,
-- so that no request to close waits for its next use. On any other connection it raises
-- CLOSE_REQUESTED, which makes a connection in use closing and changes no other phase; the flags
-- stay in order.
pub connection_close-phase :
    (c : Connection)
    → PhaseInv c
    → ((connection_close c).0 ≡ success)
      × (phase (connection_close c).1 ≡ after_request (phase c))
      × PhaseInv (connection_close c).1
      × (phase c ≡ free → (connection_close c).1 ≡ c)
      × (phase c ≢ free → (connection_close c).1.connection_state.close_requested ≡ true)
unfolding connection_close
connection_close-phase c v = (
  ground arith,
  ground (arith, v.seen, v.unused),
  record { seen = λ e. ground (arith, v.seen); unused = λ e. ground (arith, v.unused) },
  λ e. ground (arith, v.seen, v.unused),
  λ ne. ground (arith, v.seen, v.unused),
)

-- With flags in order, the event that tells the node of the closing is up exactly in the phase
-- closed_unseen.
pub is_closed_event-phase :
    (c : Connection) → PhaseInv c → (is_closed_event c ≡ true) ↔ (phase c ≡ closed_unseen)
unfolding is_closed_event
is_closed_event-phase c v = ground (arith, v.seen, v.unused)

-- With flags in order, consuming the closing event in the phase closed_unseen leads to
-- closed_seen with the flags in order.
pub consume_closed-phase :
    (c : Connection)
    → PhaseInv c
    → phase c ≡ closed_unseen
    → (phase (consume_closed c) ≡ closed_seen) × PhaseInv (consume_closed c)
unfolding consume_closed
consume_closed-phase c v e = (
  ground (arith, v.seen, v.unused),
  record { seen = λ h. ground (arith, v.unused); unused = λ h. ground (arith, v.unused) },
)

module _ (socket_close : Socket → Status × Socket) (handshake : Connection → Status × Connection)
    (complete : ℤ → Status) (keeps : (c : Connection) → SamePhase c (handshake c).1)
    (c : Connection) (v : PhaseInv c) (tcp : c.transport_type ≡ tcp_transport)
    (used : phase c ≡ in_use) where
  control : Connection → Connection
  control d = (tcp_process_control socket_close handshake complete d).1

  asked : Connection
  asked = (connection_close c).1

  asked_closing : (phase asked ≡ closing) × PhaseInv asked × (asked.transport_type ≡ tcp_transport)
  unfolding connection_close asked
  asked_closing =
      let (_, e, w, _, _) = connection_close-phase c v in
      (e ∙ ap after_request used, w, ground arith)

  shut : Connection
  shut = control asked

  shut_unseen : (phase shut ≡ closed_unseen) × PhaseInv shut × (shut.transport_type ≡ tcp_transport)
  unfolding shut control
  shut_unseen =
      let (e, w, here) = asked_closing in
      let (f, w') = tcp_process_control-phase socket_close handshake complete keeps asked w here in
      (
        f ∙ ap after_control e,
        w',
        ap (λ r. r.1.transport_type)
              (control_close socket_close handshake complete keeps asked w here e)
            ∙ here,
      )

  told : Connection
  told = consume_closed shut

  told_free : phase (control told) ≡ free
  unfolding told control consume_closed
  told_free =
      let (e, w, here) = shut_unseen in
      let (f, w') = consume_closed-phase shut w e in
      (tcp_process_control-phase socket_close handshake complete keeps told w' here).0
      ∙ ap after_control f

  -- A TCP connection in use with flags in order that is asked to close is closed by the next
  -- control step, which raises the closing event, and after the node has consumed the event the
  -- following control step makes it free, for a handshake that leaves the flags of the phase
  -- alone.
  pub connection_closes :
      (is_closed_event
          (tcp_process_control socket_close handshake complete (connection_close c).1).1
        ≡ true)
      × (phase
            (tcp_process_control socket_close handshake complete (
              consume_closed
                (tcp_process_control socket_close handshake complete (connection_close c).1).1)).1
          ≡ free)
  unfolding asked shut told control
  connection_closes =
      let (e, w, here) = shut_unseen in ((is_closed_event-phase shut w).1 e, told_free)
