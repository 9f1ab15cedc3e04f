-- ===== src/Connection/Receive.antt =====
-- The receiving half of src/connection.c, and the function of src/tcp_transport.c that drives it.
-- The host is little-endian. `none` is an access outside the receive buffer.
pub mod Frame
pub mod Steps
pub mod Judge
pub mod Stream
mod Tests
use robotraconteurlite.Prelude.{
  ℕ, ◌+◌, ◌-◌, ◌*◌, Bool, true, false, not, ◌&&◌, ◌||◌, Option, none, some, List, [], ◌∷◌, ltb, leb,
  ◌==◌, if◌then◌else◌, ◌>>=◌, sub_size, get_elem?, bytes_eq, take, length,
}
use robotraconteurlite.Prelude.Int.{ℤ}
use robotraconteurlite.Prelude.Magic.{rrac_magic}
use robotraconteurlite.Status.{Status, success, retry, invalid_operation, connection_error, failed}
use robotraconteurlite.Array.{memcpy}
use robotraconteurlite.Connection.Types.{Connection, StatusFlags, set_state}

-- `memmove` within one object.
abbrev pub memmove : List ℕ → ℕ → ℕ → ℕ → Option (List ℕ)
memmove bytes dest_pos source_pos count = memcpy bytes dest_pos bytes source_pos count

-- `robotraconteurlite_util_read_uint16` at `&bytes[i]`.
pub read_uint16 : List ℕ → ℕ → Option ℕ
read_uint16 bytes i =
    get_elem? bytes i >>= λ b0. get_elem? bytes (i + 1) >>= λ b1. some (b0 + 256 * b1)

-- `robotraconteurlite_util_read_uint32` at `&bytes[i]`.
pub read_uint32 : List ℕ → ℕ → Option ℕ
read_uint32 bytes i = get_elem? bytes i >>= λ b0. get_elem? bytes (i + 1) >>= λ b1.
    get_elem? bytes (i + 2) >>= λ b2.
    get_elem? bytes (i + 3) >>= λ b3. some (b0 + 256 * b1 + 65536 * b2 + 16777216 * b3)

-- `memcmp(bytes, rrac_magic, 4) != 0`
abbrev pub bad_magic : List ℕ → Option Bool
bad_magic bytes =
    if ltb (length bytes) 4 then none else some (not (bytes_eq (take 4 bytes) rrac_magic))

-- The connection with ERROR set and RECEIVE_REQUESTED cleared.
abbrev pub fail_receive : Connection → Connection
fail_receive c =
    set_state c (record (c.connection_state) { error = true; receive_requested = false })

-- The body of `verify_preamble` at the first look at a message. The option is what is written
-- through `message_len`, if anything is.
pub check_preamble : Connection → Option (Status × Option ℕ × Connection)
check_preamble c = bad_magic c.recv_buffer >>= λ bad.
    if bad
    then some (connection_error, none, fail_receive c)
    else read_uint32 c.recv_buffer 4 >>= λ message_len.
        read_uint16 c.recv_buffer 8 >>= λ message_version.
        let c' : Connection = record c { recv_message_len = message_len } in
        if not (message_version == 2) && not (message_version == 4)
        then some (connection_error, some message_len, fail_receive c')
        else some (success, some message_len, c')

pub verify_preamble : Connection → Option (Status × Option ℕ × Connection)
verify_preamble c =
    if leb 12 c.recv_buffer_pos && (c.recv_message_len == 0)
    then check_preamble c
    else some (success, none, c)

-- The message that has been received is dropped and what follows it moves to the front.
pub drop_message : Connection → Option Connection
drop_message c =
    (if ltb c.recv_message_len c.recv_buffer_pos
      then memmove c.recv_buffer 0 c.recv_message_len
          (sub_size c.recv_buffer_pos c.recv_message_len)
      else some c.recv_buffer)
    >>= λ bytes. some (record c {
      recv_buffer = bytes;
      recv_buffer_pos = sub_size c.recv_buffer_pos c.recv_message_len;
      recv_message_len = 0;
      connection_state = record (c.connection_state) {
        message_consumed = false;
        message_received = false;
        receive_requested = true;
      };
    })

-- The number of bytes to ask the transport for.
unfoldable pub request_len : Connection → ℕ
request_len c =
    if c.connection_state.receive_requested
    then if c.recv_message_len == 0 then 64 else sub_size c.recv_buffer_len c.recv_buffer_pos
    else 0

-- `robotraconteurlite_connection_impl_communicate_recv1`; the option is `*recv_op_len`, which the
-- error path leaves alone.
unfoldable pub communicate_recv1 : Connection → Option (Status × Option ℕ × Connection)
communicate_recv1 c =
    if c.connection_state.error
    then some (connection_error, none, c)
    else (if c.connection_state.message_consumed then drop_message c else some c) >>= λ c'.
        some (success, some (request_len c'), c')

-- `robotraconteurlite_connection_impl_communicate_recv2`. It hands `&connection->recv_message_len`
-- to `verify_preamble`, which writes the value that is there already.
pub communicate_recv2 : Connection → ℤ → Status → Option (Status × Connection)
communicate_recv2 c now recv_op_rv =
    if failed recv_op_rv
    then some (recv_op_rv, fail_receive c)
    else verify_preamble c >>= λ r.
        if failed r.0
        then some (connection_error, fail_receive r.2)
        else if ltb 0 (r.2).recv_message_len && leb (r.2).recv_message_len (r.2).recv_buffer_pos
        then some (
          success,
          record (r.2) {
            connection_state = record ((r.2).connection_state) {
              receive_requested = false;
              message_received = true;
            };
            last_recv_message_time = now;
          },
        )
        else some (success, r.2)

-- `robotraconteurlite_tcp_connection_communicate_recv`, over the transport's `buffer_recv`.
pub communicate_recv :
    (ℕ → Connection → Option (Status × Connection)) → Connection → ℤ → Option (Status × Connection)
communicate_recv buffer_recv c now = communicate_recv1 c >>= λ r. elim r.1 [
  | none ↦ some (r.0, r.2)
  | some recv_op_len ↦
      if failed r.0 || (recv_op_len == 0)
      then some (r.0, r.2)
      else buffer_recv recv_op_len r.2 >>= λ op. communicate_recv2 op.1 now op.0
]

-- `robotraconteurlite_connection_message_receive_consume`.
pub message_receive_consume : Connection → Status × Connection
message_receive_consume c =
    if not c.connection_state.message_received
    then (invalid_operation, c)
    else (success, set_state c (record (c.connection_state) { message_consumed = true }))

-- `robotraconteurlite_connection_message_receive` up to the message reader: the bytes that the
-- reader is given.
pub message_receive : Connection → Status × List ℕ
message_receive c =
    if not c.connection_state.message_received || c.connection_state.message_consumed
    then (retry, [])
    else (success, take c.recv_buffer_pos c.recv_buffer)
