-- ===== src/Connection/Receive/Tests.antt =====
-- The receiving half on a small connection, and its theorems at inputs that meet their hypotheses.
use robotraconteurlite.Prelude.{
  ℕ, ◌+◌, ◌≤◌, ◌≡◌, ◌≢◌, refl, true, false, [], ◌++◌, Option, none, some, arith, replicate, ◌↔◌,
  ◌⊎◌, joined,
}
use robotraconteurlite.Prelude.Int.{pos}
use robotraconteurlite.Status.{Status, success, connection_error}
use robotraconteurlite.Connection.Types.{Connection}
use robotraconteurlite.Connection.Samples.{small_message, open_flags, empty_connection}
use robotraconteurlite.Connection.Receive.{
  communicate_recv1, communicate_recv2, communicate_recv, request_len, read_uint16, read_uint32,
  verify_preamble, check_preamble,
}
use robotraconteurlite.Connection.Receive.Frame.{RecvInv, frame, pending}
use robotraconteurlite.Connection.Receive.Steps.{
  communicate_recv1_lem, request_len-fits_iff, after_recv1,
}
use robotraconteurlite.Connection.Receive.Judge.{communicate_recv2_lem, Outcome}
use robotraconteurlite.Connection.Receive.Stream.{
  Delivers, Run, start, cycle, Run-conserves, communicate_recv_lem, unread, AreFrames,
}

empty_connection-RecvInv : RecvInv empty_connection
empty_connection-RecvInv = record {
  memory = omega arith;
  size = omega arith;
  within = omega arith;
  known = λ e ne. absurd (ne refl);
  got = λ e. absurd (ground arith);
  asking = λ e. refl;
  consumed = λ e. absurd (ground arith);
}

-- The connection when the message has arrived in the buffer.
abbrev arrived : Connection
arrived = record empty_connection {
  recv_buffer = small_message ++ replicate 67 0;
  recv_buffer_pos = 13;
}

abbrev announced : Connection
announced = record arrived {
  recv_message_len = 13;
  last_recv_message_time = pos 9;
  connection_state = record open_flags { receive_requested = false; message_received = true };
}

-- A transport that delivers the message.
abbrev deliver : ℕ → Connection → Option (Status × Connection)
deliver n c =
    some (success, record c { recv_buffer = small_message ++ replicate 67 0; recv_buffer_pos = 13 })

deliver-Delivers : Delivers empty_connection 64 small_message arrived
deliver-Delivers = record {
  at_most = omega arith;
  moved = omega arith;
  within = omega arith;
  kept = refl;
  appended = refl;
  memory = refl;
  same_len = refl;
  same_message = refl;
  same_state = refl;
}

asks : communicate_recv1 empty_connection ≡ some (success, some 64, empty_connection)
unfolding communicate_recv1 request_len
asks = refl

announces : communicate_recv deliver empty_connection (pos 9) ≡ some (success, announced)
unfolding communicate_recv communicate_recv1 communicate_recv2 verify_preamble check_preamble
    request_len read_uint16 read_uint32
announces = refl

Run_example : Run deliver empty_connection [] ([] ++ small_message) announced
Run_example =
    cycle empty_connection arrived announced 64 small_message (pos 9) success start asks
      (omega arith) refl deliver-Delivers announces

-- `communicate_recv1` asks the sample connection for 64 bytes, which fit.
communicate_recv1_lem_example :
    ((empty_connection.connection_state.error ≡ true)
      × (communicate_recv1 empty_connection ≡ some (connection_error, none, empty_connection)))
    ⊎ ((empty_connection.connection_state.error ≡ false)
        × (communicate_recv1 empty_connection
            ≡ some (
              success,
              some (request_len (after_recv1 empty_connection)),
              after_recv1 empty_connection,
            ))
        × RecvInv (after_recv1 empty_connection)
        × (pending (after_recv1 empty_connection) ≡ pending empty_connection))
communicate_recv1_lem_example = communicate_recv1_lem empty_connection empty_connection-RecvInv

request_len-fits_iff_example :
    (empty_connection.recv_buffer_pos + request_len empty_connection
      ≤ empty_connection.recv_buffer_len)
    ↔ ((empty_connection.connection_state.receive_requested ≡ false)
        ⊎ (empty_connection.recv_message_len ≢ 0)
        ⊎ (empty_connection.recv_buffer_pos + 64 ≤ empty_connection.recv_buffer_len))
request_len-fits_iff_example = request_len-fits_iff empty_connection empty_connection-RecvInv

communicate_recv2_lem_example :
    (r : Status × Connection) × (communicate_recv2 arrived (pos 9) success ≡ some r)
    × Outcome (frame (pending arrived)) r
    × (r.1.recv_buffer ≡ arrived.recv_buffer)
    × (r.1.recv_buffer_pos ≡ arrived.recv_buffer_pos)
    × (r.1.connection_state.message_consumed ≡ false)
    × RecvInv r.1
communicate_recv2_lem_example =
    communicate_recv2_lem arrived (pos 9) (omega arith, omega arith, omega arith) (refl, refl) refl
      (λ ne. absurd (ne refl))

communicate_recv_lem_example :
    (r : Status × Connection) × (communicate_recv deliver empty_connection (pos 9) ≡ some r)
    × RecvInv r.1
    × (unread r.1 ≡ small_message)
communicate_recv_lem_example =
    communicate_recv_lem deliver (pos 9) empty_connection empty_connection arrived 64 small_message
      empty_connection-RecvInv asks (omega arith) refl deliver-Delivers

Run-conserves_example :
    RecvInv announced
    × (joined [] ++ unread announced ≡ unread empty_connection ++ small_message)
    × AreFrames []
Run-conserves_example = Run-conserves empty_connection-RecvInv Run_example
