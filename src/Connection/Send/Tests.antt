-- ===== src/Connection/Send/Tests.antt =====
-- The sending half on a small connection, and its theorems at inputs that meet their hypotheses.
use robotraconteurlite.Prelude.{ℕ, ◌≡◌, refl, true, [], ◌∷◌, ◌++◌, some, arith, replicate, ◌↔◌}
use robotraconteurlite.Prelude.Int.{pos}
use robotraconteurlite.Status.{Status, success}
use robotraconteurlite.Connection.Types.{Connection, set_state}
use robotraconteurlite.Connection.Samples.{small_message, open_flags, empty_connection}
use robotraconteurlite.Connection.Send.{
  begin_send_message, end_send_message, communicate_send1, communicate_send2, communicate_send,
}
use robotraconteurlite.Connection.Send.Cycle.{SendInv, Takes, unsent, communicate_send_lem}
use robotraconteurlite.Connection.Send.Stream.{Run, start, message, Run-delivers}

empty_connection-SendInv : SendInv empty_connection
empty_connection-SendInv = record {
  memory = omega arith;
  size = omega arith;
  fits = omega arith;
  within = omega arith;
  requested = λ e. absurd (ground arith);
  partway = λ e. absurd (ground arith);
  sent = λ ok e. absurd (ground arith);
  at_rest = λ ok a b e. refl;
  consumed = λ e. absurd (ground arith);
}

-- The connection when a message of 13 bytes has been ended.
abbrev ended : Connection
ended = record empty_connection {
  send_message_len = 13;
  connection_state = record open_flags { send_requested = true };
}

-- The connection that is handed to the transport, and the one after 5 bytes have gone out.
abbrev handed : Connection
handed = record empty_connection { send_message_len = 13 }

abbrev five_sent : Connection
five_sent = record handed { send_buffer_pos = 5 }

abbrev five_left : Connection
five_left = set_state five_sent (record open_flags { sending = true })

-- A transport that takes five bytes.
abbrev take_five : ℕ → Connection → Status × Connection
take_five n c = (success, record c { send_buffer_pos = 5 })

take_five-Takes : Takes handed 13 (b'R' ∷ b'R' ∷ b'A' ∷ b'C' ∷ 13 ∷ []) five_sent
take_five-Takes = record {
  at_most = omega arith;
  bytes = refl;
  moved = omega arith;
  same_buffer = refl;
  same_len = refl;
  same_message = refl;
  same_state = refl;
}

ends : (end_send_message empty_connection 13).1 ≡ ended
unfolding end_send_message
ends = refl

hands : communicate_send1 ended ≡ (success, some 13, handed)
unfolding communicate_send1
hands = refl

ready : (begin_send_message empty_connection).0 ≡ success
unfolding begin_send_message
ready = refl

part_sent : communicate_send take_five ended (pos 9) ≡ (success, five_left)
unfolding communicate_send communicate_send1 communicate_send2
part_sent = refl

ended-SendInv : SendInv ended
ended-SendInv = record {
  memory = omega arith;
  size = omega arith;
  fits = omega arith;
  within = omega arith;
  requested = λ e. (refl, omega arith, refl);
  partway = λ e. absurd (ground arith);
  sent = λ ok e. absurd (ground arith);
  at_rest = λ ok e. absurd (ground arith);
  consumed = λ e. absurd (ground arith);
}

communicate_send_lem_example :
    (d : Connection) × (communicate_send take_five ended (pos 9) ≡ (success, d))
    × SendInv d
    × ((b'R' ∷ b'R' ∷ b'A' ∷ b'C' ∷ 13 ∷ []) ++ unsent d ≡ small_message)
    × ((d.connection_state.message_sent ≡ true) ↔ (unsent d ≡ []))
communicate_send_lem_example =
    communicate_send_lem take_five (pos 9) ended handed five_sent 13
      (b'R' ∷ b'R' ∷ b'A' ∷ b'C' ∷ 13 ∷ []) ended-SendInv hands (omega arith) refl take_five-Takes

one_message :
    Run take_five empty_connection (small_message ∷ []) [] (end_send_message empty_connection 13).1
one_message =
    message (small_message ++ replicate 7 0) 13 start ready refl (omega arith) (omega arith)
      (omega arith)

Run-delivers_example :
    SendInv (end_send_message empty_connection 13).1
    × (unsent (end_send_message empty_connection 13).1 ≡ small_message)
Run-delivers_example = Run-delivers empty_connection-SendInv one_message
