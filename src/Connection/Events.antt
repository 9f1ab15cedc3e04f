-- ===== src/Connection/Events.antt =====
-- The event tests of include/robotraconteurlite/connection.h and the functions that consume events.
use robotraconteurlite.Prelude.{Bool, true, not, ◌&&◌, ◌||◌}
use robotraconteurlite.Connection.Types.{Connection, set_state}

pub is_closed : Connection → Bool
is_closed c = c.connection_state.closed

unfoldable pub is_closed_event : Connection → Bool
is_closed_event c = c.connection_state.closed && not c.connection_state.closed_consumed

unfoldable pub consume_closed : Connection → Connection
consume_closed c = set_state c (record (c.connection_state) { closed_consumed = true })

pub is_error : Connection → Bool
is_error c =
    c.connection_state.error
    && not (c.connection_state.closed || c.connection_state.close_requested)

pub is_connected : Connection → Bool
is_connected c = c.connection_state.connected

pub consume_connected : Connection → Connection
consume_connected c = set_state c (record (c.connection_state) { connected_consumed = true })

pub is_connected_event : Connection → Bool
is_connected_event c = c.connection_state.connected && not c.connection_state.connected_consumed

pub is_message_received : Connection → Bool
is_message_received c = c.connection_state.message_received

unfoldable pub is_message_received_event : Connection → Bool
is_message_received_event c =
    c.connection_state.message_received && not c.connection_state.message_consumed

pub consume_message_received : Connection → Connection
consume_message_received c = set_state c (record (c.connection_state) { message_consumed = true })

pub is_message_sent : Connection → Bool
is_message_sent c = c.connection_state.message_sent

unfoldable pub is_message_sent_event : Connection → Bool
is_message_sent_event c =
    c.connection_state.message_sent && not c.connection_state.message_sent_consumed

unfoldable pub consume_message_sent : Connection → Connection
consume_message_sent c = set_state c (record (c.connection_state) { message_sent_consumed = true })

-- `robotraconteurlite_connection_error`.
pub connection_set_error : Connection → Connection
connection_set_error c = set_state c (record (c.connection_state) { error = true })

pub is_server : Connection → Bool
is_server c = c.config_flags.isserver

pub is_idle : Connection → Bool
is_idle c = c.connection_state.idle

pub is_client_socket_connected : Connection → Bool
is_client_socket_connected c = c.connection_state.client_socket_connected

pub is_client_socket_connected_event : Connection → Bool
is_client_socket_connected_event c =
    c.connection_state.client_socket_connected
    && not c.connection_state.client_socket_connected_consumed

pub consume_client_socket_connected_event : Connection → Connection
consume_client_socket_connected_event c =
    set_state c (record (c.connection_state) { client_socket_connected_consumed = true })
