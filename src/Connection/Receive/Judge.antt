-- ===== src/Connection/Receive/Judge.antt =====
-- The second half of a receive cycle against the specification `frame` of the pending bytes.
use robotraconteurlite.Prelude.{
  ℕ, ◌≤◌, ◌<◌, ◌≡◌, ◌≢◌, refl, ◌∙◌, true, false, ◌&&◌, ◌||◌, Option, none, some, arith, ltb, leb,
  ◌==◌, if◌then◌else◌, size_mod, bytes_eq, take, length, length-take, Bool-cases, ◌⊎◌, inl, inr,
}
use robotraconteurlite.Prelude.Int.{ℤ}
use robotraconteurlite.Status.{Status, success, connection_error}
use robotraconteurlite.Connection.Types.{Connection}
use robotraconteurlite.Prelude.Magic.{rrac_magic}
use robotraconteurlite.Connection.Receive.{
  read_uint16, read_uint32, fail_receive, check_preamble, verify_preamble, communicate_recv2,
}
use robotraconteurlite.Connection.Receive.Frame.{
  pending, Frame, frame_partial, frame_short, frame_of_len, frame-take, reads_ok, short, bad,
  partial, complete, frame, RecvInv, frame_complete,
}

-- What `communicate_recv2` makes of the pending bytes.
abbrev pub Outcome : Frame → Status × Connection → Type 0
Outcome short (rv, c) = (rv ≡ success) × (c.connection_state.message_received ≡ false)
Outcome bad (rv, c) =
    (rv ≡ connection_error)
    × (c.connection_state.error ≡ true)
    × (c.connection_state.message_received ≡ false)
Outcome (partial n) (rv, c) =
    (rv ≡ success) × (c.recv_message_len ≡ n) × (c.connection_state.message_received ≡ false)
Outcome (complete n) (rv, c) =
    (rv ≡ success) × (c.recv_message_len ≡ n) × (c.connection_state.message_received ≡ true)

-- The connection with its message complete.
abbrev with_message : Connection → ℤ → Connection
with_message c now = record c {
  connection_state = record (c.connection_state) {
    receive_requested = false;
    message_received = true;
  };
  last_recv_message_time = now;
}

verified :
    (c d : Connection) (now : ℤ) (out : Option ℕ)
    → verify_preamble c ≡ some (success, out, d)
    → communicate_recv2 c now success
      ≡ some (
        success,
        (if ltb 0 d.recv_message_len && leb d.recv_message_len d.recv_buffer_pos
            then with_message d now
            else d),
      )
unfolding communicate_recv2
verified c d now out h = ground arith

refused :
    (c d : Connection) (now : ℤ) (out : Option ℕ)
    → verify_preamble c ≡ some (connection_error, out, d)
    → communicate_recv2 c now success ≡ some (connection_error, fail_receive d)
unfolding communicate_recv2
refused c d now out h = ground arith

-- The parts of the invariant that do not speak of a message.
abbrev pub HasRoom : Connection → Type 0
HasRoom c =
    (c.recv_buffer_len ≤ length c.recv_buffer)
    × (c.recv_buffer_len < size_mod)
    × (c.recv_buffer_pos ≤ c.recv_buffer_len)

abbrev pub Quiet : Connection → Type 0
Quiet c =
    (c.connection_state.message_received ≡ false) × (c.connection_state.message_consumed ≡ false)

complete-RecvInv :
    (d : Connection) (now : ℤ)
    → HasRoom d
    → frame (pending d) ≡ complete d.recv_message_len
    → RecvInv (with_message d now)
complete-RecvInv d now r f = record {
  memory = r.0;
  size = r.1;
  within = r.2;
  known = λ ok ne. inl f;
  got = λ e. f;
  asking = λ e. cc;
  consumed = λ e. refl;
}

Quiet-RecvInv :
    (d : Connection)
    → HasRoom d
    → Quiet d
    → (d.connection_state.error ≡ false
        → d.recv_message_len ≢ 0
        → (frame (pending d) ≡ complete d.recv_message_len)
          ⊎ (frame (pending d) ≡ partial d.recv_message_len))
    → RecvInv d
Quiet-RecvInv d r q k = record {
  memory = r.0;
  size = r.1;
  within = r.2;
  known = k;
  got = λ e. cc (q.0);
  asking = λ e. q.0;
  consumed = λ e. cc (q.1);
}

abbrev Judged : Connection → Option (Status × Connection) → Type 0
Judged c result =
    (r : Status × Connection) × (result ≡ some r)
    × Outcome (frame (pending c)) r
    × (r.1.recv_buffer ≡ c.recv_buffer)
    × (r.1.recv_buffer_pos ≡ c.recv_buffer_pos)
    × (r.1.connection_state.message_consumed ≡ false)
    × RecvInv r.1

module _ (c d : Connection) (now : ℤ) (out : Option ℕ)
    (e : verify_preamble c ≡ some (success, out, d)) (room : HasRoom d) (quiet : Quiet d)
    (same : d.recv_buffer ≡ c.recv_buffer) (same_pos : d.recv_buffer_pos ≡ c.recv_buffer_pos) where
  same_frame : frame (pending d) ≡ frame (pending c)
  same_frame = rw (same, same_pos)

  length-pending_room : length (pending d) ≡ d.recv_buffer_pos
  length-pending_room = omega (arith, length-take d.recv_buffer_pos d.recv_buffer, room)

  judge_complete :
      frame (pending d) ≡ complete d.recv_message_len → Judged c (communicate_recv2 c now success)
  judge_complete f =
      let fit = frame_complete (pending d) d.recv_message_len f in
      (
        (success, with_message d now),
        ground (arith, verified c d now out e, fit, length-pending_room),
        rw (← same_frame, f) (refl, refl, refl),
        same,
        same_pos,
        quiet.1,
        complete-RecvInv d now room f,
      )

  judge_partial :
      frame (pending d) ≡ partial d.recv_message_len → Judged c (communicate_recv2 c now success)
  judge_partial f =
      let few = frame_partial (pending d) d.recv_message_len f in
      (
        (success, d),
        ground (arith, verified c d now out e, few, length-pending_room),
        rw (← same_frame, f) (refl, refl, quiet.0),
        same,
        same_pos,
        quiet.1,
        Quiet-RecvInv d room quiet (λ ok ne. inr f),
      )

  judge_short :
      frame (pending d) ≡ short
      → d.recv_message_len ≡ 0
      → Judged c (communicate_recv2 c now success)
  judge_short f z = (
    (success, d),
    ground (arith, verified c d now out e),
    rw (← same_frame, f) (refl, quiet.0),
    same,
    same_pos,
    quiet.1,
    Quiet-RecvInv d room quiet (λ ok ne. absurd (ne z)),
  )

-- What `verify_preamble` does, by what stands in the buffer.
verify_skips :
    (c : Connection)
    → (c.recv_message_len ≢ 0) ⊎ (c.recv_buffer_pos < 12)
    → verify_preamble c ≡ some (success, none, c)
unfolding verify_preamble
verify_skips c h = ground arith

module _ (c : Connection) (m w : ℕ) (new : c.recv_message_len ≡ 0) (h : 12 ≤ c.recv_buffer_pos)
    (room : 12 ≤ length c.recv_buffer) (m_at : read_uint32 c.recv_buffer 4 ≡ some m)
    (w_at : read_uint16 c.recv_buffer 8 ≡ some w) where
  abbrev with_len : Connection
  with_len = record c { recv_message_len = m }

  verify_magic :
      bytes_eq (take 4 c.recv_buffer) rrac_magic ≡ false
      → verify_preamble c ≡ some (connection_error, none, fail_receive c)
  unfolding verify_preamble check_preamble
  verify_magic b = ground arith

  verify_version :
      bytes_eq (take 4 c.recv_buffer) rrac_magic ≡ true
      → ((w == 2) || (w == 4)) ≡ false
      → verify_preamble c ≡ some (connection_error, some m, fail_receive with_len)
  unfolding verify_preamble check_preamble
  verify_version b e = ground arith

  verify_good :
      bytes_eq (take 4 c.recv_buffer) rrac_magic ≡ true
      → ((w == 2) || (w == 4)) ≡ true
      → verify_preamble c ≡ some (success, some m, with_len)
  unfolding verify_preamble check_preamble
  verify_good b e = ground arith

judge_bad :
    (c d : Connection) (now : ℤ) (out : Option ℕ)
    → verify_preamble c ≡ some (connection_error, out, fail_receive d)
    → HasRoom c
    → Quiet d
    → d.recv_buffer ≡ c.recv_buffer
    → d.recv_buffer_pos ≡ c.recv_buffer_pos
    → d.recv_buffer_len ≡ c.recv_buffer_len
    → frame (pending c) ≡ bad
    → Judged c (communicate_recv2 c now success)
judge_bad c d now out e room quiet same same_pos same_len f = (
  (connection_error, fail_receive d),
  refused c (fail_receive d) now out e,
  rw f (refl, refl, quiet.0),
  same,
  same_pos,
  quiet.1,
  Quiet-RecvInv (fail_receive d)
      (rw (same, same_len) room.0, rw same_len room.1, rw (same_pos, same_len) room.2) quiet
      (λ ok ne. cc ok),
)

module _ (c : Connection) (now : ℤ) (room : HasRoom c) (quiet : Quiet c) where
  judge_new :
      (m w : ℕ)
      → c.recv_message_len ≡ 0
      → 12 ≤ c.recv_buffer_pos
      → read_uint32 c.recv_buffer 4 ≡ some m
      → read_uint16 c.recv_buffer 8 ≡ some w
      → Judged c (communicate_recv2 c now success)
  judge_new m w new h m_at w_at =
      let long : 12 ≤ length c.recv_buffer = omega (arith, room) in
      let f = frame-take c.recv_buffer_pos c.recv_buffer m w h (omega (arith, room)) m_at w_at in
      let d = with_len c m w new h long m_at w_at in
      elim (Bool-cases (bytes_eq (take 4 c.recv_buffer) rrac_magic)) [
        | inr b ↦
            judge_bad c c now none (verify_magic c m w new h long m_at w_at b) room quiet refl refl
              refl (f ∙ ground arith)
        | inl b ↦ elim (Bool-cases ((w == 2) || (w == 4))) [
          | inr bad_version ↦
              judge_bad c d now (some m) (verify_version c m w new h long m_at w_at b bad_version)
                room quiet refl refl refl (f ∙ ground arith)
          | inl version ↦
              let e = verify_good c m w new h long m_at w_at b version in
              let g : frame (pending c) ≡ frame_of_len c.recv_buffer_pos (some m) =
                f ∙ ground arith in
              elim (Bool-cases (ltb 0 m && leb m c.recv_buffer_pos)) [
                | inl whole ↦
                    judge_complete c d now (some m) e room quiet refl refl (g ∙ ground arith)
                | inr part ↦
                    judge_partial c d now (some m) e room quiet refl refl (g ∙ ground arith)
              ]
        ]
      ]

  -- After the transport has delivered into a connection that is not in error, has no message
  -- received or consumed, fits its buffer and whose known length is that of its frame,
  -- communicate_recv2 judges the pending bytes as the specification of frames does, keeps them,
  -- sets no consumed flag and establishes the receive invariant.
  pub communicate_recv2_lem :
      c.connection_state.error ≡ false
      → (c.recv_message_len ≢ 0
          → (frame (pending c) ≡ complete c.recv_message_len)
            ⊎ (frame (pending c) ≡ partial c.recv_message_len))
      → (r : Status × Connection) × (communicate_recv2 c now success ≡ some r)
        × Outcome (frame (pending c)) r
        × (r.1.recv_buffer ≡ c.recv_buffer)
        × (r.1.recv_buffer_pos ≡ c.recv_buffer_pos)
        × (r.1.connection_state.message_consumed ≡ false)
        × RecvInv r.1
  communicate_recv2_lem ok known = elim (Bool-cases (c.recv_message_len == 0)) [
    | inr old ↦
        let ne : c.recv_message_len ≢ 0 = ground arith in
        let e = verify_skips c (inl ne) in
        elim (known ne) [
          | inl whole ↦ judge_complete c c now none e room quiet refl refl whole
          | inr part ↦ judge_partial c c now none e room quiet refl refl part
        ]
    | inl new ↦ elim (Bool-cases (ltb c.recv_buffer_pos 12)) [
      | inl few ↦
          judge_short c c now none (verify_skips c (inr (ground arith))) room quiet refl refl
            (frame_short (pending c) (ground (arith, length-take c.recv_buffer_pos c.recv_buffer)))
            (ground arith)
      | inr enough ↦
          let ((m, m_at), (w, w_at)) = reads_ok c.recv_buffer (ground (arith, room)) in
          judge_new m w (ground arith) (ground arith) m_at w_at
    ]
  ]
