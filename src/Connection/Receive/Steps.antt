-- ===== src/Connection/Receive/Steps.antt =====
-- The receiving operations one by one: what each returns and what it does to the pending bytes.
use robotraconteurlite.Prelude.{
  ◌+◌, ◌-◌, ◌≤◌, ◌<◌, ◌≡◌, ◌≢◌, ◌↔◌, refl, true, false, none, some, arith, if◌then◌else◌, drop,
  Bool-cases, ◌⊎◌, inl, inr,
}
use robotraconteurlite.Status.{success, connection_error}
use robotraconteurlite.Array.Memory.{length-spliced}
use robotraconteurlite.Connection.Types.{Connection}
use robotraconteurlite.Connection.Receive.{request_len, communicate_recv1}
use robotraconteurlite.Connection.Receive.Frame.{
  pending, RecvInv, frame_complete, length-pending, dropped, drop_message-eq-dropped,
  pending-dropped,
}

-- The connection that `communicate_recv1` leaves where it does not fail.
abbrev pub after_recv1 : Connection → Connection
after_recv1 c = if c.connection_state.message_consumed then dropped c else c

consumed_fits :
    (c : Connection)
    → RecvInv c
    → c.connection_state.message_consumed ≡ true
    → (0 < c.recv_message_len) × (c.recv_message_len ≤ c.recv_buffer_pos)
consumed_fits c v h =
    let f = frame_complete (pending c) c.recv_message_len (v.got (v.consumed h)) in
    omega (arith, f, length-pending c v)

dropped-RecvInv :
    (c : Connection) → RecvInv c → c.connection_state.message_consumed ≡ true → RecvInv (dropped c)
dropped-RecvInv c v h =
    let fit = consumed_fits c v h in
    record {
      memory = ground (
        arith,
        v.memory,
        v.within,
        length-spliced c.recv_buffer 0 c.recv_buffer c.recv_message_len
            (c.recv_buffer_pos - c.recv_message_len),
      );
      size = v.size;
      within = omega (arith, v.within);
      known = λ ok ne. absurd (ne refl);
      got = λ e. cc;
      asking = λ e. refl;
      consumed = λ e. cc;
    }

module _ (c : Connection) (v : RecvInv c) where
  -- In the receive invariant, communicate_recv1 fails without a change in the error state, and
  -- otherwise succeeds, keeps the invariant, asks for request_len bytes, and removes from the
  -- pending bytes exactly a consumed message.
  pub communicate_recv1_lem :
      ((c.connection_state.error ≡ true) × (communicate_recv1 c ≡ some (connection_error, none, c)))
      ⊎ ((c.connection_state.error ≡ false)
          × (communicate_recv1 c
              ≡ some (success, some (request_len (after_recv1 c)), after_recv1 c))
          × RecvInv (after_recv1 c)
          × (pending (after_recv1 c) ≡ (
              if c.connection_state.message_consumed
              then drop c.recv_message_len (pending c)
              else pending c)))
  unfolding communicate_recv1
  communicate_recv1_lem = elim (Bool-cases c.connection_state.error) [
    | inl e ↦ inl (e, rw e)
    | inr e ↦ elim (Bool-cases c.connection_state.message_consumed) [
      | inl h ↦
          let fit = (consumed_fits c v h).1 in
          inr (
            e,
            ground (arith, drop_message-eq-dropped c v fit),
            simp h (dropped-RecvInv c v h),
            simp h (pending-dropped c v fit),
          )
      | inr h ↦ inr (e, ground arith, simp h v, simp h)
    ]
  ]

  -- In the receive invariant, the bytes asked for fit behind the pending ones exactly when
  -- nothing is asked for, the length of the message is known, or 64 bytes are free.
  pub request_len-fits_iff : (c.recv_buffer_pos + request_len c ≤ c.recv_buffer_len) ↔ (
      (c.connection_state.receive_requested ≡ false)
      ⊎ (c.recv_message_len ≢ 0)
      ⊎ (c.recv_buffer_pos + 64 ≤ c.recv_buffer_len))
  unfolding request_len
  request_len-fits_iff = ground (arith, v.within, v.size)
