-- ===== src/Connection/Send/Cycle.antt =====
-- One cycle of the sending half: what goes to the transport and what is left to send.
use robotraconteurlite.Prelude.{
  ℕ, ◌+◌, ◌-◌, ◌≤◌, ◌<◌, ◌≡◌, ◌≢◌, refl, ap, ◌∙◌, sym, true, false, some, List, [], ◌++◌, arith,
  ltb, sub_size, size_mod, take, drop, length, length-take, drop-take, take-append_drop, Bool-cases,
  inl, inr, ◌↔◌, drop-drop, take-take, drop_all, length-drop,
}
use robotraconteurlite.Prelude.Int.{ℤ}
use robotraconteurlite.Status.{Status, success}
use robotraconteurlite.Connection.Types.{Connection, set_state}
use robotraconteurlite.Connection.Send.{communicate_send1, communicate_send2, communicate_send}

-- The bytes of the current message that the transport has not taken.
abbrev pub unsent : Connection → List ℕ
unsent c = drop c.send_buffer_pos (take c.send_message_len c.send_buffer)

-- What the sending half keeps true of the send buffer and its flags.
pub record SendInv (c : Connection) : Type 0 where
  pub memory : c.send_buffer_len ≤ length c.send_buffer
  pub size : c.send_buffer_len < size_mod
  pub fits : c.send_message_len ≤ c.send_buffer_len
  pub within : c.send_buffer_pos ≤ c.send_message_len
  pub requested :
      c.connection_state.send_requested ≡ true
      → (c.send_buffer_pos ≡ 0) × (0 < c.send_message_len) × (c.connection_state.sending ≡ false)
  pub partway : c.connection_state.sending ≡ true → c.send_buffer_pos < c.send_message_len
  pub sent :
      c.connection_state.error ≡ false
      → c.connection_state.message_sent ≡ true
      → (c.send_buffer_pos ≡ c.send_message_len)
        × (c.connection_state.send_requested ≡ false)
        × (c.connection_state.sending ≡ false)
  pub at_rest :
      c.connection_state.error ≡ false
      → c.connection_state.send_requested ≡ false
      → c.connection_state.sending ≡ false
      → c.connection_state.message_sent ≡ false
      → c.send_message_len ≡ 0
  pub consumed :
      c.connection_state.message_sent_consumed ≡ true → c.connection_state.message_sent ≡ true

-- What a transport does when it is given at most `n` bytes from the position on and takes `chunk`:
-- it moves the position behind them and leaves the buffer and the protocol state alone.
pub record Takes (c : Connection) (n : ℕ) (chunk : List ℕ) (d : Connection) : Type 0 where
  pub at_most : length chunk ≤ n
  pub bytes : chunk ≡ take (length chunk) (drop c.send_buffer_pos c.send_buffer)
  pub moved : d.send_buffer_pos ≡ c.send_buffer_pos + length chunk
  pub same_buffer : d.send_buffer ≡ c.send_buffer
  pub same_len : d.send_buffer_len ≡ c.send_buffer_len
  pub same_message : d.send_message_len ≡ c.send_message_len
  pub same_state : d.connection_state ≡ c.connection_state

-- The connection `d` that is handed to the transport is `c` with its request taken up.
pub record TakenUp (c : Connection) (n : ℕ) (d : Connection) : Type 0 where
  pub no_error : d.connection_state.error ≡ false
  pub no_request : d.connection_state.send_requested ≡ false
  pub not_sent : d.connection_state.message_sent ≡ false
  pub not_consumed : d.connection_state.message_sent_consumed ≡ false
  pub rest : n ≡ c.send_message_len - c.send_buffer_pos
  pub more : c.send_buffer_pos < c.send_message_len
  pub same_buffer : d.send_buffer ≡ c.send_buffer
  pub same_len : d.send_buffer_len ≡ c.send_buffer_len
  pub same_pos : d.send_buffer_pos ≡ c.send_buffer_pos
  pub same_message : d.send_message_len ≡ c.send_message_len

pub communicate_send1-TakenUp :
    (c d : Connection) (n : ℕ)
    → SendInv c
    → communicate_send1 c ≡ (success, some n, d)
    → n ≢ 0
    → TakenUp c n d
unfolding communicate_send1
communicate_send1-TakenUp c d n v e ne = elim (Bool-cases c.connection_state.error) [
  | inl bad ↦ absurd (ground arith)
  | inr ok ↦ elim (Bool-cases c.connection_state.message_sent_consumed) [
    | inl h ↦ absurd (ground arith)
    | inr h ↦ elim (Bool-cases c.connection_state.send_requested) [
      | inl asked ↦
          let same : d ≡ set_state c (record (c.connection_state) { send_requested = false }) =
            ground arith in
          let len : n ≡ c.send_message_len = ground arith in
          record {
            no_error = ap (λ t. t.connection_state.error) same ∙ ok;
            no_request = ap (λ t. t.connection_state.send_requested) same ∙ refl;
            not_sent = ap (λ t. t.connection_state.message_sent) same ∙ ground (arith, v.sent);
            not_consumed = ap (λ t. t.connection_state.message_sent_consumed) same ∙ h;
            rest = ground (arith, len, v.requested, v.within, v.fits, v.size);
            more = ground (arith, v.requested, v.partway);
            same_buffer = ap (λ t. t.send_buffer) same;
            same_len = ap (λ t. t.send_buffer_len) same;
            same_pos = ap (λ t. t.send_buffer_pos) same;
            same_message = ap (λ t. t.send_message_len) same;
          }
      | inr idle ↦ elim (Bool-cases c.connection_state.sending) [
        | inl going ↦
            let same : d ≡ c = ground arith in
            let len : n ≡ sub_size c.send_message_len c.send_buffer_pos = ground arith in
            record {
              no_error = ap (λ t. t.connection_state.error) same ∙ ok;
              no_request = ap (λ t. t.connection_state.send_requested) same ∙ idle;
              not_sent = ap (λ t. t.connection_state.message_sent) same ∙ ground (arith, v.sent);
              not_consumed = ap (λ t. t.connection_state.message_sent_consumed) same ∙ h;
              rest = ground (arith, len, v.requested, v.within, v.fits, v.size);
              more = ground (arith, v.requested, v.partway);
              same_buffer = ap (λ t. t.send_buffer) same;
              same_len = ap (λ t. t.send_buffer_len) same;
              same_pos = ap (λ t. t.send_buffer_pos) same;
              same_message = ap (λ t. t.send_message_len) same;
            }
        | inr still ↦ absurd (ground arith)
      ]
    ]
  ]
]

module _ (op : ℕ → Connection → Status × Connection) (now : ℤ) (c c1 c2 : Connection) (n : ℕ)
    (chunk : List ℕ) (v : SendInv c) (e1 : communicate_send1 c ≡ (success, some n, c1)) (ne : n ≢ 0)
    (e2 : op n c1 ≡ (success, c2)) (t : Takes c1 n chunk c2) where
  up : TakenUp c n c1
  up = communicate_send1-TakenUp c c1 n v e1 ne

  communicate_send-eq : communicate_send op c now ≡ communicate_send2 c2 now success
  unfolding communicate_send
  communicate_send-eq = ground (arith, e1, e2)

  taken_pos : c2.send_buffer_pos ≡ c.send_buffer_pos + length chunk
  taken_pos = omega (arith, t.moved, up.same_pos)

  taken_fits : c2.send_buffer_pos ≤ c2.send_message_len
  taken_fits =
      omega (arith, taken_pos, t.at_most, up.rest, up.more, t.same_message, up.same_message)

  taken_memory : c2.send_buffer_len ≤ length c2.send_buffer
  taken_memory =
      let e : length c2.send_buffer ≡ length c.send_buffer =
        ap length t.same_buffer ∙ ap length up.same_buffer in
      omega (arith, e, v.memory, t.same_len, up.same_len)

  taken_len : (c2.send_message_len ≤ c2.send_buffer_len) × (c2.send_buffer_len < size_mod)
  taken_len =
      omega (arith, v.fits, v.size, t.same_len, up.same_len, t.same_message, up.same_message)

  taken_flags :
      (c2.connection_state.error ≡ false)
      × (c2.connection_state.send_requested ≡ false)
      × (c2.connection_state.message_sent ≡ false)
      × (c2.connection_state.message_sent_consumed ≡ false)
  taken_flags = (
    ap (λ s. s.error) t.same_state ∙ up.no_error,
    ap (λ s. s.send_requested) t.same_state ∙ up.no_request,
    ap (λ s. s.message_sent) t.same_state ∙ up.not_sent,
    ap (λ s. s.message_sent_consumed) t.same_state ∙ up.not_consumed,
  )

  chunk_of_unsent : chunk ≡ take (length chunk) (unsent c)
  chunk_of_unsent =
      let few : length chunk ≤ c.send_message_len - c.send_buffer_pos =
        omega (arith, t.at_most, up.rest) in
      let here : take (length chunk) (drop c1.send_buffer_pos c1.send_buffer)
          ≡ take (length chunk) (drop c.send_buffer_pos c.send_buffer) =
        rw (up.same_pos, up.same_buffer) refl in
      t.bytes
      ∙ here
      ∙ sym (
          take-take (length chunk) (c.send_message_len - c.send_buffer_pos)
            (drop c.send_buffer_pos c.send_buffer) few)
      ∙ ap (λ xs. take (length chunk) xs)
          (sym (drop-take c.send_buffer_pos c.send_message_len c.send_buffer))

  rest_of_unsent : unsent c2 ≡ drop (length chunk) (unsent c)
  rest_of_unsent =
      let message : take c2.send_message_len c2.send_buffer
          ≡ take c.send_message_len c.send_buffer =
        rw (t.same_message, t.same_buffer, up.same_message, up.same_buffer) refl in
      ap (λ xs. drop c2.send_buffer_pos xs) message
      ∙ ap (λ k. drop k (take c.send_message_len c.send_buffer)) taken_pos
      ∙ sym (drop-drop (length chunk) c.send_buffer_pos (take c.send_message_len c.send_buffer))

  taken_unsent : chunk ++ unsent c2 ≡ unsent c
  taken_unsent =
      ap (λ xs. xs ++ unsent c2) chunk_of_unsent
      ∙ ap (λ xs. take (length chunk) (unsent c) ++ xs) rest_of_unsent
      ∙ take-append_drop (length chunk) (unsent c)

  length-unsent : length (unsent c2) ≡ c2.send_message_len - c2.send_buffer_pos
  length-unsent = omega (
    arith,
    taken_memory,
    taken_len,
    length-drop c2.send_buffer_pos (take c2.send_message_len c2.send_buffer),
    length-take c2.send_message_len c2.send_buffer,
  )

  -- A send cycle in which the transport is handed bytes and takes some of them succeeds, keeps
  -- the send invariant, leaves the bytes that were not taken, and reports the message as sent
  -- exactly when no byte is left.
  pub communicate_send_lem :
      (d : Connection) × (communicate_send op c now ≡ (success, d))
      × SendInv d
      × (chunk ++ unsent d ≡ unsent c)
      × ((d.connection_state.message_sent ≡ true) ↔ (unsent d ≡ []))
  unfolding communicate_send2
  communicate_send_lem = elim (Bool-cases (ltb c2.send_buffer_pos c2.send_message_len)) [
    | inl more ↦ (
      set_state c2 (record (c2.connection_state) { sending = true }),
      communicate_send-eq ∙ ground (arith),
      record {
        memory = taken_memory;
        size = taken_len.1;
        fits = taken_len.0;
        within = taken_fits;
        requested = λ e. absurd (ground (arith, taken_flags));
        partway = λ e. ground arith;
        sent = λ ok e. absurd (ground (arith, taken_flags));
        at_rest = λ ok a b e. absurd (ground arith);
        consumed = λ e. absurd (ground (arith, taken_flags));
      },
      taken_unsent,
      (
        λ e. absurd (ground (arith, taken_flags)),
        λ e. absurd (ground (arith, length-unsent, ap length e)),
      ),
    )
    | inr all ↦ (
      record c2 {
        connection_state = record (c2.connection_state) { sending = false; message_sent = true };
        last_send_message_time = now;
      },
      communicate_send-eq ∙ ground (arith),
      record {
        memory = taken_memory;
        size = taken_len.1;
        fits = taken_len.0;
        within = taken_fits;
        requested = λ e. absurd (ground (arith, taken_flags));
        partway = λ e. absurd (ground arith);
        sent = λ ok e. (ground (arith, taken_fits), taken_flags.1, refl);
        at_rest = λ ok a b e. absurd (ground arith);
        consumed = λ e. refl;
      },
      taken_unsent,
      (
        λ e.
            drop_all c2.send_buffer_pos (take c2.send_message_len c2.send_buffer)
              (ground (arith, length-take c2.send_message_len c2.send_buffer)),
        λ e. refl,
      ),
    )
  ]
