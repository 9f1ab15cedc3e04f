-- ===== src/Connection/Samples.antt =====
-- A small connection and a message for it, for the tests.
use robotraconteurlite.Prelude.{ℕ, true, false, List, [], ◌∷◌, ◌++◌, replicate}
use robotraconteurlite.Prelude.Int.{pos}
use robotraconteurlite.Connection.Types.{Connection, StatusFlags, no_status_flags, no_socket_flags}
use robotraconteurlite.Connection.Lifecycle.{tcp_transport}

-- A message of 13 bytes, version 2.
abbrev pub small_message : List ℕ
small_message = b'R' ∷ b'R' ∷ b'A' ∷ b'C' ∷ 13 ∷ 0 ∷ 0 ∷ 0 ∷ 2 ∷ 0 ∷ 0 ∷ 0 ∷ 7 ∷ []

abbrev pub open_flags : StatusFlags
open_flags = record no_status_flags { connected = true; receive_requested = true }

abbrev pub empty_connection : Connection
empty_connection = record {
  transport_type = tcp_transport;
  sock = record { handle = pos 3; flags = no_socket_flags };
  send_buffer = small_message ++ replicate 7 0;
  recv_buffer = replicate 80 0;
  send_buffer_len = 20;
  recv_buffer_len = 80;
  send_buffer_pos = 0;
  recv_buffer_pos = 0;
  config_flags = record { isserver = true; enable_reduced_header4 = true; status_error = false };
  connection_state = open_flags;
  heartbeat_period_ms = pos 5000;
  heartbeat_timeout_ms = pos 15000;
  heartbeat_next_check_us = pos 0;
  local_endpoint = 0;
  remote_endpoint = 0;
  remote_nodeid = replicate 16 0;
  remote_nodename = [];
  remote_service_name = [];
  last_recv_message_time = pos 0;
  last_send_message_time = pos 0;
  last_request_id = 0;
  message_flags_inv_mask = 0;
  recv_message_len = 0;
  send_message_len = 0;
  transport_storage = [];
  transport_next_wake = pos 0;
}
