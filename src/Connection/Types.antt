-- ===== src/Connection/Types.antt =====
-- include/robotraconteurlite/connection.h: the flag words and `struct robotraconteurlite_connection`.
-- A flag word is a record with a Boolean for each of its bits, so FLAGS_CHECK, FLAGS_SET and
-- FLAGS_CLEAR are the tests and writes of fields. The pointers `next` and `prev` of the list of
-- connections, and the pointers to a service, a client and user data, are left out: none of the
-- functions modelled here reads them.
use robotraconteurlite.Prelude.{ℕ, Bool, true, false, List}
use robotraconteurlite.Prelude.Int.{ℤ}

-- `connection_state`, ROBOTRACONTEURLITE_STATUS_FLAGS_*.
pub record StatusFlags : Type 0 where
  pub idle : Bool
  pub connected : Bool
  pub connecting : Bool
  pub closing : Bool
  pub closed : Bool
  pub error : Bool
  pub receive_requested : Bool
  pub receiving : Bool
  pub send_requested : Bool
  pub sending : Bool
  pub message_received : Bool
  pub message_consumed : Bool
  pub block_send : Bool
  pub message_sent : Bool
  pub established : Bool
  pub client_established : Bool
  pub close_requested : Bool
  pub closed_consumed : Bool
  pub message_sent_consumed : Bool
  pub connected_consumed : Bool
  pub send_message4 : Bool
  pub close_notified : Bool
  pub client_socket_connected : Bool
  pub client_socket_connected_consumed : Bool

-- ROBOTRACONTEURLITE_STATUS_FLAGS_NULL.
abbrev pub no_status_flags : StatusFlags
no_status_flags = record {
  idle = false;
  connected = false;
  connecting = false;
  closing = false;
  closed = false;
  error = false;
  receive_requested = false;
  receiving = false;
  send_requested = false;
  sending = false;
  message_received = false;
  message_consumed = false;
  block_send = false;
  message_sent = false;
  established = false;
  client_established = false;
  close_requested = false;
  closed_consumed = false;
  message_sent_consumed = false;
  connected_consumed = false;
  send_message4 = false;
  close_notified = false;
  client_socket_connected = false;
  client_socket_connected_consumed = false;
}

-- `connection->connection_state = ROBOTRACONTEURLITE_STATUS_FLAGS_IDLE` and the like.
abbrev pub only_idle : StatusFlags
only_idle = record no_status_flags { idle = true }

abbrev pub only_closed : StatusFlags
only_closed = record no_status_flags { closed = true }

abbrev pub only_connecting : StatusFlags
only_connecting = record no_status_flags { connecting = true }

-- `config_flags`, ROBOTRACONTEURLITE_CONFIG_FLAGS_*. `status_error` is the bit of
-- ROBOTRACONTEURLITE_STATUS_FLAGS_ERROR in this word, which the TCP transport sets here.
pub record ConfigFlags : Type 0 where
  pub isserver : Bool
  pub enable_reduced_header4 : Bool
  pub status_error : Bool

-- `sock.flags`, ROBOTRACONTEURLITE_SOCKET_FLAGS_*.
pub record SocketFlags : Type 0 where
  pub active : Bool
  pub want_receive : Bool
  pub want_send : Bool
  pub receive_would_block : Bool
  pub send_would_block : Bool
  pub registered : Bool
  pub want_receive_registered : Bool
  pub want_send_registered : Bool
  pub error_registered : Bool
  pub fake_socket : Bool

abbrev pub no_socket_flags : SocketFlags
no_socket_flags = record {
  active = false;
  want_receive = false;
  want_send = false;
  receive_would_block = false;
  send_would_block = false;
  registered = false;
  want_receive_registered = false;
  want_send_registered = false;
  error_registered = false;
  fake_socket = false;
}

-- `struct robotraconteurlite_connection_socket`, with a POSIX handle.
pub record Socket : Type 0 where
  pub handle : ℤ
  pub flags : SocketFlags

-- `struct robotraconteurlite_connection`.
pub record Connection : Type 0 where
  pub transport_type : ℕ
  pub sock : Socket
  pub send_buffer : List ℕ
  pub recv_buffer : List ℕ
  pub send_buffer_len : ℕ
  pub recv_buffer_len : ℕ
  pub send_buffer_pos : ℕ
  pub recv_buffer_pos : ℕ
  pub config_flags : ConfigFlags
  pub connection_state : StatusFlags
  pub heartbeat_period_ms : ℤ
  pub heartbeat_timeout_ms : ℤ
  pub heartbeat_next_check_us : ℤ
  pub local_endpoint : ℕ
  pub remote_endpoint : ℕ
  pub remote_nodeid : List ℕ
  pub remote_nodename : List ℕ
  pub remote_service_name : List ℕ
  pub last_recv_message_time : ℤ
  pub last_send_message_time : ℤ
  pub last_request_id : ℕ
  pub message_flags_inv_mask : ℕ
  pub recv_message_len : ℕ
  pub send_message_len : ℕ
  pub transport_storage : List ℕ
  pub transport_next_wake : ℤ

-- A new value of `connection_state`.
abbrev pub set_state : Connection → StatusFlags → Connection
set_state c s = record c { connection_state = s }
