-- ===== src/Connection/Attach/Tests.antt =====
-- Connections that begin and wait, and the theorems on them at inputs that meet their hypotheses.
use robotraconteurlite.Prelude.{◌≡◌, ◌≢◌, refl, true, false, [], ◌∷◌, some, arith, ◌⊎◌, inl}
use robotraconteurlite.Prelude.Int.{pos, ltb_int}
use robotraconteurlite.Status.{success}
use robotraconteurlite.Connection.Types.{Connection, Socket, no_socket_flags}
use robotraconteurlite.Connection.Samples.{empty_connection, open_flags}
use robotraconteurlite.Connection.Receive.{communicate_recv1, request_len}
use robotraconteurlite.Connection.Receive.Frame.{RecvInv}
use robotraconteurlite.Connection.Send.{communicate_send1, op_len}
use robotraconteurlite.Connection.Send.Cycle.{SendInv}
use robotraconteurlite.Connection.Lifecycle.{connection_reset, tcp_transport}
use robotraconteurlite.Connection.Attach.{Addr, connect2, accept2, prepare_wait, next_wake}
use robotraconteurlite.Connection.Attach.Laws.{
  IsReady, accept2-IsReady, connect2-IsReady, prepare_wait-recv, prepare_wait-send,
}
use robotraconteurlite.Connection.Attach.Wake.{NotLater, next_wake-NotLater}

abbrev small_socket : Socket
small_socket = record { handle = pos 5; flags = no_socket_flags }

abbrev small_addr : Addr
small_addr = record { nodeid = []; nodename = b'a' ∷ b'b' ∷ []; service_name = b's' ∷ [] }

accept2-IsReady_example :
    ((accept2 (connection_reset empty_connection).1 (pos 1) tcp_transport small_socket).0 ≡ success)
    × IsReady (accept2 (connection_reset empty_connection).1 (pos 1) tcp_transport small_socket).1
accept2-IsReady_example =
    accept2-IsReady empty_connection (omega arith, omega arith, omega arith, omega arith) (pos 1)
      tcp_transport small_socket

connect2-IsReady_example :
    ((connect2
        (connection_reset empty_connection).1
        (pos 1)
        tcp_transport
        small_addr
        small_socket).0
      ≡ success)
    × IsReady
        (connect2
          (connection_reset empty_connection).1
          (pos 1)
          tcp_transport
          small_addr
          small_socket).1
connect2-IsReady_example =
    connect2-IsReady empty_connection (omega arith, omega arith, omega arith, omega arith) (pos 1)
      tcp_transport small_socket small_addr (omega arith) (omega arith)

-- The sample connection with its socket in use and a message to send.
abbrev waiting : Connection
waiting = record empty_connection {
  sock = record { handle = pos 5; flags = record no_socket_flags { active = true } };
  send_message_len = 13;
  connection_state = record open_flags { send_requested = true };
  transport_next_wake = pos 30;
}

waiting-RecvInv : RecvInv waiting
waiting-RecvInv = record {
  memory = omega arith;
  size = omega arith;
  within = omega arith;
  known = λ e ne. absurd (ne refl);
  got = λ e. absurd (ground arith);
  asking = λ e. refl;
  consumed = λ e. absurd (ground arith);
}

waiting-SendInv : SendInv waiting
waiting-SendInv = record {
  memory = omega arith;
  size = omega arith;
  fits = omega arith;
  within = omega arith;
  requested = λ e. (refl, omega arith, refl);
  partway = λ e. absurd (ground arith);
  sent = λ ok e. absurd (ground arith);
  at_rest = λ ok e. absurd (ground arith);
  consumed = λ e. absurd (ground arith);
}

waiting_asks : communicate_recv1 waiting ≡ some (success, some 64, waiting)
unfolding communicate_recv1 request_len
waiting_asks = refl

waiting_sends : op_len (communicate_send1 waiting).1 ≢ 0
unfolding communicate_send1
waiting_sends = omega arith

prepare_wait-recv_example :
    ((prepare_wait waiting).1.sock.flags.want_receive ≡ true)
    ⊎ ((next_wake waiting (pos 20) (pos 40)).1 ≡ pos 20)
prepare_wait-recv_example =
    prepare_wait-recv waiting (pos 20) (pos 40) refl refl refl 64 waiting waiting-RecvInv
      (omega arith) waiting_asks

prepare_wait-send_example :
    ((prepare_wait waiting).1.sock.flags.want_send ≡ true)
    ⊎ ((next_wake waiting (pos 20) (pos 40)).1 ≡ pos 20)
prepare_wait-send_example =
    prepare_wait-send waiting (pos 20) (pos 40) refl refl refl waiting-SendInv (inl waiting_sends)

next_wake-NotLater_example :
    ((next_wake waiting (pos 20) (pos 40)).0 ≡ success)
    × (((next_wake waiting (pos 20) (pos 40)).1 ≡ pos 20)
        ⊎ (NotLater (next_wake waiting (pos 20) (pos 40)).1 (pos 40)
            × ((ltb_int (pos 0) (pos 0) ≡ false)
                ⊎ NotLater (next_wake waiting (pos 20) (pos 40)).1 (pos 0))
            × ((ltb_int (pos 0) (pos 30) ≡ false)
                ⊎ NotLater (next_wake waiting (pos 20) (pos 40)).1 (pos 30))))
next_wake-NotLater_example = next_wake-NotLater waiting (pos 20) (pos 40) refl
