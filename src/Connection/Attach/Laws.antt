-- ===== src/Connection/Attach/Laws.antt =====
-- A connection that begins is in order for both halves and for its phase, and a connection that has
-- work to do is waited for.
use robotraconteurlite.Prelude.{
  ℕ, ◌≤◌, ◌<◌, ◌≡◌, ◌≢◌, refl, true, false, ◌||◌, some, arith, List, length, Bool-cases, ◌⊎◌, inl,
  inr, size_mod,
}
use robotraconteurlite.Prelude.Int.{ℤ}
use robotraconteurlite.Status.{success}
use robotraconteurlite.Connection.Types.{Connection, Socket, only_connecting}
use robotraconteurlite.Connection.Receive.{communicate_recv1, request_len}
use robotraconteurlite.Connection.Receive.Frame.{RecvInv}
use robotraconteurlite.Connection.Send.{communicate_send1, op_len}
use robotraconteurlite.Connection.Send.Cycle.{SendInv}
use robotraconteurlite.Connection.Lifecycle.{connection_reset}
use robotraconteurlite.NodeId.{nodeid_reset, nodeid_copy_to}
use robotraconteurlite.Connection.Lifecycle.Phases.{PhaseInv, phase, in_use}
use robotraconteurlite.Connection.Attach.{
  Addr, connect2, accept2, prepare_wait, next_wake, is_zero_int, str_max_size, string_copy_to,
  string_copy_to_buffer_storage,
}

-- The buffers of a connection have the lengths that it states.
abbrev pub HasBuffers : Connection → Type 0
HasBuffers c =
    (c.recv_buffer_len ≤ length c.recv_buffer)
    × (c.recv_buffer_len < size_mod)
    × (c.send_buffer_len ≤ length c.send_buffer)
    × (c.send_buffer_len < size_mod)

-- In order for both halves, with the flags of a connection in use.
abbrev pub IsReady : Connection → Type 0
IsReady c = RecvInv c × SendInv c × PhaseInv c × (phase c ≡ in_use)

-- A connection with empty buffers and only the flag CONNECTING.
module _ (d : Connection) (has : HasBuffers d) (fresh : d.connection_state ≡ only_connecting)
    (recv : (d.recv_buffer_pos ≡ 0) × (d.recv_message_len ≡ 0))
    (send : (d.send_buffer_pos ≡ 0) × (d.send_message_len ≡ 0)) where
  fresh-IsReady : IsReady d
  fresh-IsReady = (
    record {
      memory = omega (arith, has);
      size = omega (arith, has);
      within = omega (arith, recv);
      known = λ e ne. absurd (ne recv.1);
      got = λ e. absurd (ground (arith, fresh));
      asking = λ e. absurd (ground (arith, fresh));
      consumed = λ e. absurd (ground (arith, fresh));
    },
    record {
      memory = omega (arith, has);
      size = omega (arith, has);
      fits = omega (arith, send);
      within = omega (arith, send);
      requested = λ e. absurd (ground (arith, fresh));
      partway = λ e. absurd (ground (arith, fresh));
      sent = λ ok e. absurd (ground (arith, fresh));
      at_rest = λ ok a b e. send.1;
      consumed = λ e. absurd (ground (arith, fresh));
    },
    record {
      seen = λ e. absurd (ground (arith, fresh));
      unused = λ e. absurd (ground (arith, fresh));
    },
    simp fresh,
  )

string_copied :
    (source dest : List ℕ) (room : ℕ)
    → length source ≤ room
    → (string_copy_to_buffer_storage source dest room).0 ≡ success
unfolding string_copy_to_buffer_storage string_copy_to
string_copied source dest room h = ground arith

module _ (c : Connection) (has : HasBuffers c) (now : ℤ) (transport_type : ℕ) (sock : Socket) where
  -- After a reset, accept2 on a connection with its buffers succeeds and leaves a connection that
  -- meets the receive, the send and the phase invariant and is in use.
  pub accept2-IsReady :
      ((accept2 (connection_reset c).1 now transport_type sock).0 ≡ success)
      × IsReady (accept2 (connection_reset c).1 now transport_type sock).1
  unfolding accept2 connection_reset nodeid_reset
  accept2-IsReady = (
    refl,
    fresh-IsReady (accept2 (connection_reset c).1 now transport_type sock).1 has refl (refl, refl)
        (refl, refl),
  )

  -- After a reset, connect2 on a connection with its buffers and an address whose names fit the
  -- storage succeeds and leaves a connection that meets the receive, the send and the phase
  -- invariant and is in use.
  pub connect2-IsReady :
      (addr : Addr)
      → length addr.nodename ≤ str_max_size
      → length addr.service_name ≤ str_max_size
      → ((connect2 (connection_reset c).1 now transport_type addr sock).0 ≡ success)
        × IsReady (connect2 (connection_reset c).1 now transport_type addr sock).1
  unfolding connect2 connection_reset nodeid_reset nodeid_copy_to
  connect2-IsReady addr h h' =
      simp
        (
          string_copied addr.nodename c.remote_nodename str_max_size h,
          string_copied addr.service_name c.remote_service_name str_max_size h',
        )
        (refl, fresh-IsReady _ has refl (refl, refl) (refl, refl))

module _ (c : Connection) (now wake : ℤ) (live : c.connection_state.idle ≡ false)
    (active : c.sock.flags.active ≡ true) (open_socket : is_zero_int c.sock.handle ≡ false) where
  -- A connection that is not idle, has an active open socket, meets the receive invariant and
  -- whose receive cycle would ask for bytes is, before a wait, marked as wanting to receive, or
  -- next_wake gives the time now.
  pub prepare_wait-recv :
      (n : ℕ) (d : Connection)
      → RecvInv c
      → n ≢ 0
      → communicate_recv1 c ≡ some (success, some n, d)
      → ((prepare_wait c).1.sock.flags.want_receive ≡ true) ⊎ ((next_wake c now wake).1 ≡ now)
  unfolding prepare_wait next_wake communicate_recv1 request_len
  prepare_wait-recv n d v ne e = elim (Bool-cases c.connection_state.message_consumed) [
    | inl h ↦ inr (ground (arith, v.consumed h))
    | inr h ↦
        let asked : c.connection_state.receive_requested ≡ true = ground arith in
        inl (simp (active, open_socket, asked))
  ]

  -- A connection that is not idle, has an active open socket, meets the send invariant and whose
  -- send cycle would call the transport or take note of a consumed report is, before a wait,
  -- marked as wanting to send, or next_wake gives the time now.
  pub prepare_wait-send :
      SendInv c
      → (op_len (communicate_send1 c).1 ≢ 0) ⊎ (c.connection_state.message_sent_consumed ≡ true)
      → ((prepare_wait c).1.sock.flags.want_send ≡ true) ⊎ ((next_wake c now wake).1 ≡ now)
  unfolding prepare_wait next_wake communicate_send1
  prepare_wait-send v h = elim (Bool-cases c.connection_state.message_sent_consumed) [
    | inl told ↦ inr (ground (arith, v.consumed told))
    | inr quiet ↦
        let asked : c.connection_state.send_requested || c.connection_state.sending ≡ true =
          ground arith in
        inl (ground arith)
  ]
