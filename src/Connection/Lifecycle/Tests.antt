-- ===== src/Connection/Lifecycle/Tests.antt =====
-- The life of a small connection, and the theorems on it at inputs that meet their hypotheses.
use robotraconteurlite.Prelude.{◌≡◌, ◌≢◌, refl, true, arith, ◌↔◌}
use robotraconteurlite.Prelude.Int.{ℤ}
use robotraconteurlite.Status.{Status, success, system_error}
use robotraconteurlite.Connection.Types.{Connection, Socket}
use robotraconteurlite.Connection.Events.{is_closed_event, consume_closed}
use robotraconteurlite.Connection.Types.{set_state, only_closed}
use robotraconteurlite.Connection.Samples.{empty_connection}
use robotraconteurlite.Connection.Lifecycle.{connection_close, tcp_process_control}
use robotraconteurlite.Connection.Lifecycle.Phases.{
  PhaseInv, SamePhase, phase, free, in_use, closing, closed_unseen, closed_seen,
  tcp_process_control-phase,
}
use robotraconteurlite.Connection.Lifecycle.Closing.{
  connection_close-phase, is_closed_event-phase, consume_closed-phase, connection_closes,
}

abbrev close_socket : Socket → Status × Socket
close_socket s = (success, s)

abbrev no_handshake : Connection → Status × Connection
no_handshake c = (success, c)

abbrev attempt_fails : ℤ → Status
attempt_fails handle = system_error

no_handshake-SamePhase : (c : Connection) → SamePhase c (no_handshake c).1
no_handshake-SamePhase c = record {
  same_idle = refl;
  same_closed = refl;
  same_consumed = refl;
  same_requested = refl;
  same_closing = refl;
}

empty_connection-PhaseInv : PhaseInv empty_connection
empty_connection-PhaseInv = record { seen = λ e. absurd (ground arith); unused = λ e. refl }

tcp_process_control-phase_example :
    (phase (tcp_process_control close_socket no_handshake attempt_fails empty_connection).1
      ≡ in_use)
    × PhaseInv (tcp_process_control close_socket no_handshake attempt_fails empty_connection).1
tcp_process_control-phase_example =
    tcp_process_control-phase close_socket no_handshake attempt_fails no_handshake-SamePhase
      empty_connection empty_connection-PhaseInv refl

connection_close-phase_example :
    ((connection_close empty_connection).0 ≡ success)
    × (phase (connection_close empty_connection).1 ≡ closing)
    × PhaseInv (connection_close empty_connection).1
    × (phase empty_connection ≡ free → (connection_close empty_connection).1 ≡ empty_connection)
    × (phase empty_connection ≢ free
        → (connection_close empty_connection).1.connection_state.close_requested ≡ true)
connection_close-phase_example = connection_close-phase empty_connection empty_connection-PhaseInv

is_closed_event-phase_example :
    (is_closed_event empty_connection ≡ true) ↔ (phase empty_connection ≡ closed_unseen)
is_closed_event-phase_example = is_closed_event-phase empty_connection empty_connection-PhaseInv

abbrev closed_connection : Connection
closed_connection = set_state empty_connection only_closed

closed_connection-PhaseInv : PhaseInv closed_connection
closed_connection-PhaseInv = record {
  seen = λ e. absurd (ground arith);
  unused = λ e. absurd (ground arith);
}

consume_closed-phase_example :
    (phase (consume_closed closed_connection) ≡ closed_seen)
    × PhaseInv (consume_closed closed_connection)
consume_closed-phase_example =
    consume_closed-phase closed_connection closed_connection-PhaseInv refl

connection_closes_example :
    (is_closed_event
        (tcp_process_control close_socket no_handshake attempt_fails
          (connection_close empty_connection).1).1
      ≡ true)
    × (phase
          (tcp_process_control close_socket no_handshake attempt_fails (
            consume_closed
              (tcp_process_control close_socket no_handshake attempt_fails
                (connection_close empty_connection).1).1)).1
        ≡ free)
connection_closes_example =
    connection_closes close_socket no_handshake attempt_fails no_handshake-SamePhase
      empty_connection empty_connection-PhaseInv refl refl
