-- ===== src/Connection/Receive/Frame.antt =====
-- What the receiving half keeps true of the receive buffer, and what it makes of its bytes.
use robotraconteurlite.Prelude.{
  ℕ, ◌+◌, ◌-◌, ◌*◌, ◌≤◌, ◌<◌, ◌≡◌, ◌≢◌, ◌∙◌, sym, true, false, ◌&&◌, ◌||◌, Option, none, some, List,
  arith, ltb, leb, ◌==◌, if◌then◌else◌, size_mod, bytes_eq, take, drop, length, length-take,
  length-drop, take-append_all, drop-take, take-take, Bool-cases, ◌⊎◌, inl, inr, get_elem?-take,
  get_elem?-some,
}
use robotraconteurlite.Array.Memory.{spliced, memcpy-eq-spliced}
use robotraconteurlite.Connection.Types.{Connection}
use robotraconteurlite.Prelude.Magic.{rrac_magic}
use robotraconteurlite.Connection.Receive.{read_uint16, read_uint32, drop_message}

-- The bytes that have been received and not been dropped.
abbrev pub pending : Connection → List ℕ
pending c = take c.recv_buffer_pos c.recv_buffer

-- What the first bytes of a stream of messages amount to.
pub data Frame : Type 0 where
  short bad : Frame
  partial complete : ℕ → Frame

abbrev frame_version : Option ℕ → Option ℕ → Frame → Frame
frame_version none m f = bad
frame_version (some v) none f = bad
frame_version (some v) (some n) f = if (v == 2) || (v == 4) then f else bad

abbrev pub frame_of_len : ℕ → Option ℕ → Frame
frame_of_len have none = bad
frame_of_len have (some n) = if ltb 0 n && leb n have then complete n else partial n

-- The specification: twelve bytes that begin with the magic, a length, and version 2 or 4.
pub frame : List ℕ → Frame
frame p =
    if ltb (length p) 12
    then short
    else if bytes_eq (take 4 p) rrac_magic
    then frame_version (read_uint16 p 8) (read_uint32 p 4)
        (frame_of_len (length p) (read_uint32 p 4))
    else bad

pub record RecvInv (c : Connection) : Type 0 where
  pub memory : c.recv_buffer_len ≤ length c.recv_buffer
  pub size : c.recv_buffer_len < size_mod
  pub within : c.recv_buffer_pos ≤ c.recv_buffer_len
  -- Without an error, a length that is known is the one in the buffer.
  pub known :
      c.connection_state.error ≡ false
      → c.recv_message_len ≢ 0
      → (frame (pending c) ≡ complete c.recv_message_len)
        ⊎ (frame (pending c) ≡ partial c.recv_message_len)
  pub got :
      c.connection_state.message_received ≡ true → frame (pending c) ≡ complete c.recv_message_len
  pub asking :
      c.connection_state.receive_requested ≡ true → c.connection_state.message_received ≡ false
  pub consumed :
      c.connection_state.message_consumed ≡ true → c.connection_state.message_received ≡ true

-- A complete frame is not empty and lies within the bytes.
pub frame_complete : (p : List ℕ) (n : ℕ) → frame p ≡ complete n → (0 < n) × (n ≤ length p)
unfolding frame
frame_complete p n h = ground arith

pub length-pending : (c : Connection) → RecvInv c → length (pending c) ≡ c.recv_buffer_pos
length-pending c v = omega (arith, length-take c.recv_buffer_pos c.recv_buffer, v.memory, v.within)

-- A frame that is not complete has no length yet, or more than the bytes.
pub frame_partial : (p : List ℕ) (n : ℕ) → frame p ≡ partial n → (n ≡ 0) ⊎ (length p < n)
unfolding frame
frame_partial p n h = ground arith

pub frame_short : (p : List ℕ) → length p < 12 → frame p ≡ short
unfolding frame
frame_short p h = ground arith

-- Enough bytes for a preamble can be read.
pub reads_ok :
    (p : List ℕ)
    → 12 ≤ length p
    → ((m : ℕ) × (read_uint32 p 4 ≡ some m)) × ((w : ℕ) × (read_uint16 p 8 ≡ some w))
unfolding read_uint32 read_uint16
reads_ok p h =
    let (b4, e4) = get_elem?-some p 4 (omega arith) in
    let (b5, e5) = get_elem?-some p 5 (omega arith) in
    let (b6, e6) = get_elem?-some p 6 (omega arith) in
    let (b7, e7) = get_elem?-some p 7 (omega arith) in
    let (b8, e8) = get_elem?-some p 8 (omega arith) in
    let (b9, e9) = get_elem?-some p 9 (omega arith) in
    (
      (b4 + 256 * b5 + 65536 * b6 + 16777216 * b7, rw (e4, e5, e6, e7)),
      (b8 + 256 * b9, rw (e8, e9)),
    )

-- The preamble reads the same from the pending bytes as from the buffer.
module _ (p : ℕ) (xs : List ℕ) (h : 12 ≤ p) where
  pub read_uint32-take : read_uint32 (take p xs) 4 ≡ read_uint32 xs 4
  unfolding read_uint32
  read_uint32-take = ground (
    arith,
    get_elem?-take p xs 4,
    get_elem?-take p xs 5,
    get_elem?-take p xs 6,
    get_elem?-take p xs 7,
  )

  pub read_uint16-take : read_uint16 (take p xs) 8 ≡ read_uint16 xs 8
  unfolding read_uint16
  read_uint16-take = ground (arith, get_elem?-take p xs 8, get_elem?-take p xs 9)

-- The frame of twelve pending bytes or more, by what the code reads from the buffer.
module _ (p : ℕ) (xs : List ℕ) (m w : ℕ) (h : 12 ≤ p) (room : p ≤ length xs)
    (m_at : read_uint32 xs 4 ≡ some m) (w_at : read_uint16 xs 8 ≡ some w) where
  pub frame-take : frame (take p xs) ≡ (
      if bytes_eq (take 4 xs) rrac_magic
      then (if (w == 2) || (w == 4) then frame_of_len p (some m) else bad)
      else bad)
  unfolding frame
  frame-take =
      let n : length (take p xs) ≡ p = omega (arith, length-take p xs) in
      rw
        (
          n,
          take-take 4 p xs (omega arith),
          read_uint32-take p xs h,
          read_uint16-take p xs h,
          m_at,
          w_at,
        )
        (ground arith)

abbrev pub Sized : List ℕ → ℕ → Type 0
Sized p n = (frame p ≡ complete n) ⊎ (frame p ≡ partial n)

Sized-long : (p : List ℕ) (n : ℕ) → Sized p n → 12 ≤ length p
unfolding frame
Sized-long p n h = ground arith

-- More bytes do not change the length of a frame that has one.
pub Sized-take :
    (p q : ℕ) (xs : List ℕ) (n : ℕ)
    → p ≤ q
    → q ≤ length xs
    → Sized (take p xs) n
    → Sized (take q xs) n
Sized-take p q xs n le room s =
    let long : 12 ≤ p = omega (arith, Sized-long (take p xs) n s, length-take p xs) in
    let ((m, m_at), (w, w_at)) = reads_ok xs (omega arith) in
    ground (
      arith,
      s,
      frame-take p xs m w long (omega arith) m_at w_at,
      frame-take q xs m w (omega arith) room m_at w_at,
    )

-- The connection after the received message has been dropped.
abbrev pub dropped : Connection → Connection
dropped c = record c {
  recv_buffer =
      if ltb c.recv_message_len c.recv_buffer_pos
      then spliced c.recv_buffer 0 c.recv_buffer c.recv_message_len
          (c.recv_buffer_pos - c.recv_message_len)
      else c.recv_buffer;
  recv_buffer_pos = c.recv_buffer_pos - c.recv_message_len;
  recv_message_len = 0;
  connection_state = record (c.connection_state) {
    message_consumed = false;
    message_received = false;
    receive_requested = true;
  };
}

module _ (c : Connection) (v : RecvInv c) (le : c.recv_message_len ≤ c.recv_buffer_pos) where
  pub drop_message-eq-dropped : drop_message c ≡ some (dropped c)
  unfolding drop_message
  drop_message-eq-dropped =
      let room : c.recv_buffer_pos ≤ length c.recv_buffer = omega (arith, v.memory, v.within) in
      let small : c.recv_buffer_pos < size_mod = omega (arith, v.size, v.within) in
      ground (
        arith,
        memcpy-eq-spliced c.recv_buffer 0 c.recv_buffer c.recv_message_len
            (c.recv_buffer_pos - c.recv_message_len),
      )

  pub pending-dropped : pending (dropped c) ≡ drop c.recv_message_len (pending c)
  pending-dropped = elim (Bool-cases (ltb m p)) [
    | inl more ↦ rw more (
        take-append_all (p - m) (take (p - m) (drop m bytes)) (drop (0 + (p - m)) bytes) (
          omega
            (arith, v.memory, v.within, length-take (p - m) (drop m bytes), length-drop m bytes))
        ∙ sym (drop-take m p bytes))
    | inr all ↦ let e : p - m ≡ 0 = ground arith in rw (all, drop-take m p bytes, e)
  ]
    where
      m : ℕ
      m = c.recv_message_len

      p : ℕ
      p = c.recv_buffer_pos

      bytes : List ℕ
      bytes = c.recv_buffer
