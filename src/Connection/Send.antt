-- ===== src/Connection/Send.antt =====
-- The sending half of src/connection.c, and the function of src/tcp_transport.c that drives it.
pub mod Cycle
pub mod Stream
mod Tests
use robotraconteurlite.Prelude.{
  ℕ, ◌-◌, ◌%◌, ◌^◌, ◌+◌, Bool, true, false, not, ◌&&◌, ◌||◌, Option, none, some, ltb, ◌==◌,
  if◌then◌else◌, sub_size, List, size_mod,
}
use robotraconteurlite.Prelude.Int.{ℤ}
use robotraconteurlite.Status.{Status, success, retry, invalid_operation, connection_error, failed}
use robotraconteurlite.Connection.Types.{Connection, StatusFlags, set_state}

-- What the message writer is started with: the memory of the send buffer and its length, the
-- first byte, the number of bytes and the version of the message.
pub record WriterStart : Type 0 where
  pub bytes : List ℕ
  pub len : ℕ
  pub pos : ℕ
  pub count : ℕ
  pub version : ℕ

-- `robotraconteurlite_connection_begin_send_message` up to the message writer.
pub begin_send_message : Connection → Status × Option WriterStart
begin_send_message c =
    let s = c.connection_state in
    if (s.error || s.closed || s.close_requested || s.idle) || not s.connected
    then (invalid_operation, none)
    else if s.send_requested || s.sending || s.message_sent || s.message_sent_consumed
        || s.block_send
    then (retry, none)
    else (
      success,
      some (record {
        bytes = c.send_buffer;
        len = c.send_buffer_len;
        pos = 0;
        count = c.send_buffer_pos;
        version = if s.send_message4 then 4 else 2;
      }),
    )

-- `robotraconteurlite_connection_end_send_message`.
pub end_send_message : Connection → ℕ → Status × Connection
end_send_message c message_len = (
  success,
  record c {
    send_message_len = message_len % 2 ^ 32;
    connection_state = record (c.connection_state) { send_requested = true };
  },
)

-- `robotraconteurlite_connection_abort_send_message`.
pub abort_send_message : Connection → Status × Connection
abort_send_message c = (success, c)

-- `robotraconteurlite_connection_impl_communicate_send1`; the option is `*send_op_len`, which two
-- of the paths leave alone.
unfoldable pub communicate_send1 : Connection → Status × Option ℕ × Connection
communicate_send1 c =
    if c.connection_state.error
    then (connection_error, none, c)
    else if c.connection_state.message_sent_consumed
    then (
      success,
      none,
      record c {
        send_buffer_pos = 0;
        send_message_len = 0;
        connection_state = record (c.connection_state) {
          message_sent_consumed = false;
          message_sent = false;
        };
      },
    )
    else if c.connection_state.send_requested
    then (
      success,
      some c.send_message_len,
      set_state c (record (c.connection_state) { send_requested = false }),
    )
    else if c.connection_state.sending
    then (success, some (sub_size c.send_message_len c.send_buffer_pos), c)
    else (success, some 0, c)

-- `robotraconteurlite_connection_impl_communicate_send2`.
pub communicate_send2 : Connection → ℤ → Status → Status × Connection
communicate_send2 c now send_op_rv =
    if failed send_op_rv
    then (send_op_rv, set_state c (record (c.connection_state) { error = true }))
    else if ltb 0 c.send_message_len && ltb c.send_buffer_pos c.send_message_len
    then (success, set_state c (record (c.connection_state) { sending = true }))
    else (
      success,
      record c {
        connection_state = record (c.connection_state) { sending = false; message_sent = true };
        last_send_message_time = now;
      },
    )

-- The caller's `send_op_len`, which is 0 before the call.
abbrev pub op_len : Option ℕ → ℕ
op_len none = 0
op_len (some n) = n

-- `robotraconteurlite_tcp_connection_communicate_send`, over the transport's `buffer_send`.
pub communicate_send : (ℕ → Connection → Status × Connection) → Connection → ℤ → Status × Connection
communicate_send buffer_send c now =
    let r = communicate_send1 c in
    if failed r.0 || (op_len r.1 == 0)
    then (r.0, r.2)
    else let op = buffer_send (op_len r.1) r.2 in communicate_send2 op.1 now op.0
