-- ===== src/Connection/Lifecycle.antt =====
-- The life of a connection in src/connection.c: connecting, closing, and its return to the idle
-- state; the control step of src/tcp_transport.c.
pub mod Phases
pub mod Closing
mod Tests
use robotraconteurlite.Prelude.{
  ℕ, ◌+◌, Bool, true, false, not, ◌&&◌, ◌||◌, List, [], ◌∷◌, ltb, ◌==◌, if◌then◌else◌, length, take,
  drop, replicate, ◌++◌, bytes_eq,
}
use robotraconteurlite.Prelude.Int.{ℤ, pos, negsuc, ltb_int}
use robotraconteurlite.Status.{
  Status, success, retry, invalid_argument, internal_error, consumed, failed,
}
use robotraconteurlite.NodeId.{nodeid_reset}
use robotraconteurlite.Connection.Types.{
  Connection, StatusFlags, ConfigFlags, Socket, SocketFlags, set_state, only_idle, only_closed,
  only_connecting, no_socket_flags,
}

-- `robotraconteurlite_connection_reset`.
unfoldable pub connection_reset : Connection → Status × Connection
connection_reset c =
    let r = nodeid_reset c.remote_nodeid in
    let c' : Connection = record c {
      transport_type = 0;
      config_flags = record {
        isserver = false;
        enable_reduced_header4 = true;
        status_error = false;
      };
      connection_state = only_idle;
      recv_buffer_pos = 0;
      recv_message_len = 0;
      send_buffer_pos = 0;
      send_message_len = 0;
      sock = record { handle = pos 0; flags = no_socket_flags };
      local_endpoint = 0;
      remote_endpoint = 0;
      remote_nodeid = r.1;
    } in
    if failed r.0 then (internal_error, c') else (success, record c' { message_flags_inv_mask = 0 })

-- `robotraconteurlite_connection_init`.
pub connection_init : Connection → Connection
connection_init c = record ((connection_reset c).1) {
  heartbeat_period_ms = pos 5000;
  heartbeat_timeout_ms = pos 15000;
}

-- `robotraconteurlite_connection_close`.
pub connection_close : Connection → Status × Connection
connection_close c =
    if c.connection_state.idle
    then (success, c)
    else (success, set_state c (record (c.connection_state) { close_requested = true }))

-- `robotraconteurlite_connection_impl_communicate_process_control`; the Boolean is `*close_request`.
pub impl_process_control : Connection → ℕ → Bool → Status × Bool × Connection
impl_process_control c transport_type close_request =
    if not (c.transport_type == transport_type)
    then (consumed, close_request, c)
    else let r : Status × Connection =
        if c.connection_state.closed_consumed
        then connection_reset (set_state c only_idle)
        else (success, c) in
      if failed r.0
      then (internal_error, close_request, r.1)
      else let s = (r.1).connection_state in
        if s.closed || s.idle
        then (consumed, close_request, r.1)
        else (success, close_request || s.close_requested || s.closing, r.1)

-- `robotraconteurlite_connection_impl_communicate_after_close_requested`.
pub after_close_requested : Connection → Status → Status × Connection
after_close_requested c close_rv = (success, set_state c only_closed)

abbrev pub tcp_transport : ℕ
tcp_transport = 65537

-- `ROBOTRACONTEURLITE_RETRY`.
abbrev pub is_retry : Status → Bool
is_retry retry = true
is_retry _ = false

-- The part of `robotraconteurlite_tcp_connection_communicate_process_control` after a successful
-- handshake: a client's socket is asked whether its connection attempt has ended.
pub check_client_socket : (ℤ → Status) → Status → Connection → Status × Connection
check_client_socket is_connection_complete rv c =
    if not c.config_flags.isserver && not c.connection_state.client_socket_connected
    then (let attempt = is_connection_complete c.sock.handle in
        if failed attempt && not (is_retry attempt)
        then (attempt, record c { config_flags = record (c.config_flags) { status_error = true } })
        else if is_retry attempt
        then (attempt, c)
        else (
          attempt,
          set_state c (record (c.connection_state) {
            client_socket_connected = true;
            receive_requested = true;
          }),
        ))
    else (rv, c)

-- `robotraconteurlite_tcp_connection_communicate_process_control`, over the closing of a socket, the
-- handshake and the test of a socket's connection attempt.
pub tcp_process_control :
    (Socket → Status × Socket)
    → (Connection → Status × Connection)
    → (ℤ → Status)
    → Connection
    → Status × Connection
tcp_process_control socket_close handshake is_connection_complete c =
    let r = impl_process_control c tcp_transport false in
    if failed r.0
    then (r.0, r.2)
    else if r.1
    then after_close_requested (record (r.2) { sock = (socket_close (r.2).sock).1 })
        (socket_close (r.2).sock).0
    else if failed (handshake r.2).0
    then handshake r.2
    else check_client_socket is_connection_complete (handshake r.2).0 (handshake r.2).1
