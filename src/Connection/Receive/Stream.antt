-- ===== src/Connection/Receive/Stream.antt =====
-- A whole run of the receiving half: the messages that the node takes are the stream of bytes that
-- the transport delivers, cut into frames.
use robotraconteurlite.Prelude.{
  ℕ, ◌+◌, ◌≤◌, ◌≡◌, ◌≢◌, ap, ◌∙◌, sym, subst, true, false, Option, some, List, [], ◌∷◌, ◌++◌, arith,
  if◌then◌else◌, take, drop, length, length-take, inl, inr, take-append_drop, joined, joined-append,
}
use mathlib.Core.List.{append_assoc, append-nil}
use robotraconteurlite.Prelude.Int.{ℤ}
use robotraconteurlite.Status.{Status, success}
use robotraconteurlite.Connection.Types.{Connection, set_state}
use robotraconteurlite.Connection.Events.{is_message_received_event}
use robotraconteurlite.Connection.Receive.{
  request_len, communicate_recv1, communicate_recv2, communicate_recv, message_receive_consume,
}
use robotraconteurlite.Connection.Receive.Frame.{
  pending, complete, frame, RecvInv, frame_complete, Sized, Sized-take,
}
use robotraconteurlite.Connection.Receive.Steps.{after_recv1, communicate_recv1_lem}
use robotraconteurlite.Connection.Receive.Judge.{HasRoom, Quiet, communicate_recv2_lem}

-- What a transport does when it is asked for at most `n` bytes and gets `chunk`: it appends the
-- bytes to the pending ones, within the buffer, and leaves the protocol state alone.
pub record Delivers (c : Connection) (n : ℕ) (chunk : List ℕ) (d : Connection) : Type 0 where
  pub at_most : length chunk ≤ n
  pub moved : d.recv_buffer_pos ≡ c.recv_buffer_pos + length chunk
  pub within : d.recv_buffer_pos ≤ d.recv_buffer_len
  pub kept : take c.recv_buffer_pos d.recv_buffer ≡ pending c
  pub appended : pending d ≡ pending c ++ chunk
  pub memory : length d.recv_buffer ≡ length c.recv_buffer
  pub same_len : d.recv_buffer_len ≡ c.recv_buffer_len
  pub same_message : d.recv_message_len ≡ c.recv_message_len
  pub same_state : d.connection_state ≡ c.connection_state

-- The bytes that no message has taken yet.
abbrev pub unread : Connection → List ℕ
unread c =
    if c.connection_state.message_consumed then drop c.recv_message_len (pending c) else pending c

requested : (c : Connection) → request_len c ≢ 0 → c.connection_state.receive_requested ≡ true
unfolding request_len
requested c h = ground arith

module _ (c d : Connection) (n : ℕ) (chunk : List ℕ) (v : RecvInv c)
    (asked : c.connection_state.receive_requested ≡ true) (del : Delivers c n chunk d) where
  delivered-HasRoom : HasRoom d
  delivered-HasRoom = omega (arith, v.memory, v.size, del.memory, del.same_len, del.within)

  delivered-Quiet : Quiet d
  delivered-Quiet = ground (arith, v.asking asked, v.consumed, del.same_state)

  delivered-Sized :
      c.connection_state.error ≡ false
      → d.recv_message_len ≢ 0
      → Sized (pending d) d.recv_message_len
  delivered-Sized ok ne =
      let old : Sized (take c.recv_buffer_pos d.recv_buffer) d.recv_message_len =
        rw (del.kept, del.same_message) (v.known ok (λ e. ne (del.same_message ∙ e))) in
      Sized-take c.recv_buffer_pos d.recv_buffer_pos d.recv_buffer d.recv_message_len
        (omega (arith, del.moved)) (omega (arith, delivered-HasRoom)) old

abbrev Op : Type 0
Op = ℕ → Connection → Option (Status × Connection)

-- `communicate_recv` by its parts.
communicate_recv-eq :
    (op : Op) (c c1 c2 : Connection) (now : ℤ) (n : ℕ) (r : Status × Connection)
    → communicate_recv1 c ≡ some (success, some n, c1)
    → n ≢ 0
    → op n c1 ≡ some (success, c2)
    → communicate_recv2 c2 now success ≡ some r
    → communicate_recv op c now ≡ some r
unfolding communicate_recv
communicate_recv-eq op c c1 c2 now n r e1 ne e2 e3 = ground arith

after_recv1_some :
    (c c1 : Connection) (n : ℕ)
    → RecvInv c
    → communicate_recv1 c ≡ some (success, some n, c1)
    → (c1.connection_state.error ≡ false)
      × (n ≡ request_len c1)
      × RecvInv c1
      × (pending c1 ≡ unread c)
after_recv1_some c c1 n v e = elim (communicate_recv1_lem c v) [
  | inl bad ↦ absurd (ground arith)
  | inr good ↦
      let same : c1 ≡ after_recv1 c = ground arith in
      (
        ground (arith, same),
        ground (arith, same),
        subst RecvInv (sym same) good.2,
        ap pending same ∙ good.3,
      )
]

module _ (op : Op) (now : ℤ) (c c1 c2 : Connection) (n : ℕ) (chunk : List ℕ) (v : RecvInv c)
    (e1 : communicate_recv1 c ≡ some (success, some n, c1)) (ne : n ≢ 0)
    (e2 : op n c1 ≡ some (success, c2)) (del : Delivers c1 n chunk c2) where
  -- A receive cycle in which the transport is asked for bytes and delivers some of them returns,
  -- keeps the receive invariant, and adds exactly the delivered bytes to the unread ones.
  pub communicate_recv_lem :
      (r : Status × Connection) × (communicate_recv op c now ≡ some r)
      × RecvInv r.1
      × (unread r.1 ≡ unread c ++ chunk)
  communicate_recv_lem =
      let (ok, asks, v1, unread_c) = after_recv1_some c c1 n v e1 in
      let asked = requested c1 (λ z. ne (asks ∙ z)) in
      let ok2 : c2.connection_state.error ≡ false = ground (arith, del.same_state) in
      let (r, e3, judged, same, same_pos, left, v2) =
        communicate_recv2_lem c2 now (delivered-HasRoom c1 c2 n chunk v1 asked del)
          (delivered-Quiet c1 c2 n chunk v1 asked del) ok2
          (delivered-Sized c1 c2 n chunk v1 asked del ok) in
      (
        r,
        communicate_recv-eq op c c1 c2 now n r e1 ne e2 e3,
        v2,
        simp (left, same, same_pos, ← unread_c) (del.appended),
      )

-- The message that a connection with MESSAGE_RECEIVED holds.
abbrev pub current_message : Connection → List ℕ
current_message c = take c.recv_message_len (pending c)

-- Every message is the frame that its own preamble announces, in the bytes where it stood.
abbrev pub AreFrames : List (List ℕ) → Type 0
AreFrames [] = Unit {0}
AreFrames (m ∷ ms) = ((rest : List ℕ) × (frame (m ++ rest) ≡ complete (length m))) × AreFrames ms

AreFrames-append :
    (ms : List (List ℕ)) (m rest : List ℕ)
    → AreFrames ms
    → frame (m ++ rest) ≡ complete (length m)
    → AreFrames (ms ++ m ∷ [])
AreFrames-append [] m rest a f = ((rest, f), tt)
AreFrames-append (x ∷ ms) m rest a f = (a.0, AreFrames-append ms m rest a.1 f)

-- The runs of a connection: receive cycles in which the transport `op` delivers a chunk, and
-- messages that the node takes. `Run op c0 ms input c`: from `c0` the transport has delivered
-- `input` and the node has taken `ms`, and the connection is now `c`.
pub data Run (op : ℕ → Connection → Option (Status × Connection)) (c0 : Connection)
    : List (List ℕ) → List ℕ → Connection → Type 0 where
  start : Run op c0 [] [] c0
  cycle :
      {ms : List (List ℕ)} {input : List ℕ} {c : Connection} (c1 c2 d : Connection) (n : ℕ)
      (chunk : List ℕ) (now : ℤ) (rv : Status)
      → Run op c0 ms input c
      → communicate_recv1 c ≡ some (success, some n, c1)
      → n ≢ 0
      → op n c1 ≡ some (success, c2)
      → Delivers c1 n chunk c2
      → communicate_recv op c now ≡ some (rv, d)
      → Run op c0 ms (input ++ chunk) d
  take_message :
      {ms : List (List ℕ)} {input : List ℕ} {c : Connection}
      → Run op c0 ms input c
      → is_message_received_event c ≡ true
      → Run op c0 (ms ++ current_message c ∷ []) input (message_receive_consume c).1

module _ (c : Connection) (v : RecvInv c) (h : is_message_received_event c ≡ true) where
  taken_flags :
      (c.connection_state.message_received ≡ true) × (c.connection_state.message_consumed ≡ false)
  unfolding is_message_received_event
  taken_flags = ground arith

  taken_frame : frame (pending c) ≡ complete c.recv_message_len
  taken_frame = v.got taken_flags.0

  abbrev consumed_connection : Connection
  consumed_connection = set_state c (record (c.connection_state) { message_consumed = true })

  taken_eq : (message_receive_consume c).1 ≡ consumed_connection
  unfolding message_receive_consume
  taken_eq = ground (arith, taken_flags)

  taken-RecvInv : RecvInv (message_receive_consume c).1
  taken-RecvInv = subst RecvInv (sym taken_eq) (record {
    memory = v.memory;
    size = v.size;
    within = v.within;
    known = v.known;
    got = v.got;
    asking = v.asking;
    consumed = λ e. taken_flags.0;
  })

  taken_unread : current_message c ++ unread (message_receive_consume c).1 ≡ unread c
  unfolding message_receive_consume
  taken_unread = ground (arith, taken_flags, take-append_drop c.recv_message_len (pending c))

  length-current_message : length (current_message c) ≡ c.recv_message_len
  length-current_message = omega (
    arith,
    length-take c.recv_message_len (pending c),
    frame_complete (pending c) c.recv_message_len taken_frame,
  )

  taken_is_frame :
      frame (current_message c ++ drop c.recv_message_len (pending c))
      ≡ complete (length (current_message c))
  taken_is_frame =
      rw (length-current_message, take-append_drop c.recv_message_len (pending c)) taken_frame

-- From a connection in order, after any sequence of receive cycles in which the transport
-- delivers bytes in pieces of any size and of messages taken by the node, the messages taken and
-- then the unread bytes are the bytes unread at the start followed by those delivered, each
-- message is the frame that its own preamble announces, and the buffer is in order.
pub Run-conserves :
    {op : ℕ → Connection → Option (Status × Connection)} {c0 : Connection} {ms : List (List ℕ)}
    {input : List ℕ} {c : Connection}
    → RecvInv c0
    → Run op c0 ms input c
    → RecvInv c × (joined ms ++ unread c ≡ unread c0 ++ input) × AreFrames ms
Run-conserves {op} {c0} v start = (v, sym (append-nil (unread c0)), tt)
Run-conserves {op} {c0} v (cycle {ms} {input} {c} c1 c2 d n chunk now rv run e1 ne e2 del e) =
    let (w, same, frames) = Run-conserves v run in
    let (r, e', w', more) = communicate_recv_lem op now c c1 c2 n chunk w e1 ne e2 del in
    let last : r.1 ≡ d = ground arith in
    (
      subst RecvInv last w',
      ap (λ t. joined ms ++ unread t) (sym last)
          ∙ ap (λ t. joined ms ++ t) more
          ∙ sym (append_assoc (joined ms) (unread c) chunk)
          ∙ ap (λ t. t ++ chunk) same
          ∙ append_assoc (unread c0) input chunk,
      frames,
    )
Run-conserves {op} {c0} v (take_message {ms} {input} {c} run h) =
    let (w, same, frames) = Run-conserves v run in
    (
      taken-RecvInv c w h,
      ap (λ t. t ++ unread (message_receive_consume c).1) (joined-append ms (current_message c))
          ∙ append_assoc (joined ms) (current_message c) (unread (message_receive_consume c).1)
          ∙ ap (λ t. joined ms ++ t) (taken_unread c w h)
          ∙ same,
      AreFrames-append ms (current_message c) (drop c.recv_message_len (pending c)) frames
          (taken_is_frame c w h),
    )
