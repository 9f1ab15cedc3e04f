-- ===== src/Connection/Attach.antt =====
-- Connections that begin, in src/connection.c: the connection that a client opens and the one that a
-- server accepts; and what a connection waits for.
pub mod Laws
pub mod Wake
mod Tests
use robotraconteurlite.Prelude.{
  ℕ, ◌+◌, Bool, true, false, not, ◌&&◌, ◌||◌, List, [], ◌∷◌, Option, none, some, ltb, ◌==◌,
  if◌then◌else◌, length, take, drop, replicate, ◌++◌,
}
use robotraconteurlite.Prelude.Int.{ℤ, pos, negsuc, ltb_int}
use robotraconteurlite.Status.{Status, success, invalid_argument, internal_error, failed}
use robotraconteurlite.Connection.Types.{
  Connection, StatusFlags, ConfigFlags, Socket, SocketFlags, set_state, only_connecting,
  no_socket_flags,
}
use robotraconteurlite.NodeId.{nodeid_copy_to}

-- `struct robotraconteurlite_addr`, as far as a connection copies it.
pub record Addr : Type 0 where
  pub nodeid : List ℕ
  pub nodename : List ℕ
  pub service_name : List ℕ

-- `robotraconteurlite_string_copy_to`: a string is its characters, and `dest_len` the room.
pub string_copy_to : List ℕ → ℕ → Status × Option (List ℕ)
string_copy_to source dest_len =
    if length source == 0
    then (success, some [])
    else if ltb dest_len (length source)
    then (invalid_argument, none)
    else (success, some source)

-- `robotraconteurlite_string_copy_to_buffer_storage`: `dest` stays on failure.
pub string_copy_to_buffer_storage : List ℕ → List ℕ → ℕ → Status × List ℕ
string_copy_to_buffer_storage source dest buffer_storage_len =
    let r = string_copy_to source buffer_storage_len in
    elim r.1 [
      | none ↦ (r.0, dest)
      | some copy ↦ if failed r.0 then (r.0, dest) else (success, copy)
    ]

-- ROBOTRACONTEURLITE_MESSAGE_STR_MAX_SIZE.
abbrev pub str_max_size : ℕ
str_max_size = 128

-- `sock` with the flags of a socket that has become active.
abbrev pub active_socket : Socket → Socket
active_socket sock = record sock { flags = record no_socket_flags { active = true } }

-- The assignments at the head of `robotraconteurlite_connection_impl_connect2`.
abbrev connecting : Connection → ℤ → ℕ → Socket → Connection
connecting c now transport_type sock = record c {
  transport_type = transport_type;
  config_flags = record (c.config_flags) { isserver = false };
  sock = active_socket sock;
  connection_state = only_connecting;
  transport_storage = replicate (length c.transport_storage) 0;
  last_recv_message_time = now;
  last_send_message_time = now;
}

-- `robotraconteurlite_connection_impl_connect2`.
pub connect2 : Connection → ℤ → ℕ → Addr → Socket → Status × Connection
connect2 c now transport_type addr sock =
    let c0 = connecting c now transport_type sock in
    let id = nodeid_copy_to addr.nodeid c0.remote_nodeid in
    let c1 : Connection = record c0 { remote_nodeid = id.1 } in
    let name = string_copy_to_buffer_storage addr.nodename c1.remote_nodename str_max_size in
    let c2 : Connection = record c1 { remote_nodename = name.1 } in
    let service =
      string_copy_to_buffer_storage addr.service_name c2.remote_service_name str_max_size in
    let c3 : Connection = record c2 { remote_service_name = service.1 } in
    if failed id.0
    then (internal_error, c1)
    else if failed name.0
    then (internal_error, c2)
    else if failed service.0
    then (internal_error, c3)
    else (success, record c3 { last_recv_message_time = now; last_send_message_time = now })

-- `robotraconteurlite_connection_impl_accept2`.
pub accept2 : Connection → ℤ → ℕ → Socket → Status × Connection
accept2 c now transport_type sock = (
  success,
  record c {
    sock = active_socket sock;
    transport_type = transport_type;
    config_flags = record (c.config_flags) { isserver = true };
    connection_state = only_connecting;
    last_recv_message_time = now;
    last_send_message_time = now;
    transport_storage = replicate (length c.transport_storage) 0;
  },
)

abbrev pub is_zero_int : ℤ → Bool
is_zero_int (pos n) = n == 0
is_zero_int (negsuc n) = false

-- `robotraconteurlite_connection_impl_prepare_wait`.
pub prepare_wait : Connection → Status × Connection
prepare_wait c =
    if not c.sock.flags.active || is_zero_int c.sock.handle
    then (success, c)
    else let s = c.connection_state in
      (
        success,
        record c {
          sock = record (c.sock) {
            flags = record (c.sock.flags) {
              want_send = s.send_requested || s.sending || s.connecting;
              want_receive = s.receive_requested || s.receiving;
            };
          };
        },
      )

-- `*next_wake` where another time is wanted no later.
abbrev pub earlier : ℤ → ℤ → ℤ
earlier t next_wake = if ltb_int t next_wake then t else next_wake

-- `robotraconteurlite_connection_next_wake`; the second component is `*next_wake`.
pub next_wake : Connection → ℤ → ℤ → Status × ℤ
next_wake c now wake =
    let s = c.connection_state in
    let after_transport : ℤ → Status × ℤ = λ t.
      if ltb_int (pos 0) c.transport_next_wake
      then (success, earlier c.transport_next_wake t)
      else (success, t) in
    if s.idle
    then (success, wake)
    else if s.close_requested || s.error
    then (success, now)
    else if s.message_sent
    then (success, now)
    else if s.message_received
    then (success, now)
    else if ltb_int (pos 0) c.heartbeat_next_check_us
    then (if ltb_int c.heartbeat_next_check_us now
          || (is_zero_int c.heartbeat_next_check_us && ltb_int (pos 0) c.heartbeat_period_ms)
        then (success, now)
        else after_transport (earlier c.heartbeat_next_check_us wake))
    else after_transport wake
