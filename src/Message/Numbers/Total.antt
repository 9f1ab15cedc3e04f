-- ===== src/Message/Numbers/Total.antt =====
-- Reading a number never leaves the memory: inside the vector and behind its end there is a status.
use robotraconteurlite.Prelude.{
  ℕ, ◌+◌, ◌≤◌, ◌<◌, ◌≡◌, some, arith, leb, ◌==◌, size_mod, add_size, Bool-cases, inl, inr,
}
use robotraconteurlite.Status.{Status, success, protocol, failed}
use robotraconteurlite.Array.{BufferVec}
use robotraconteurlite.Array.Layout.{total, counts, IsVec}
use robotraconteurlite.Array.Numbers.{
  copy_to_number, copy_to_number-some, copy_to_uint8, copy_to_uint16, copy_to_uint32,
}
use robotraconteurlite.Message.Numbers.{
  Read, read_field, message_read_uint8, message_read_uint16, message_read_uint32,
  message_read_uint_x, message_read_count, read_uint_x_rest,
}

-- A reader returns something, with an offset that moved at most `n` bytes.
abbrev pub Returns : ℕ → ℕ → Read → Type 0
Returns n offset r = (s : Status) × (o : ℕ) × (v : ℕ) × (r ≡ some (s, o, v)) × (o ≤ offset + n)

module _ (vec : BufferVec) (ok : IsVec 1 vec) (room : total (counts vec) + 16 < size_mod)
    (offset old : ℕ) (near : offset ≤ total (counts vec) + 1) where
  field-Returns :
      (w : ℕ)
      → 0 < w
      → w < 14
      → Returns w offset (read_field w (copy_to_number w vec offset old) offset)
  field-Returns w more small =
      let (s, v, e) = copy_to_number-some w more (omega arith) vec offset old ok (omega arith) in
      elim (Bool-cases (failed s)) [
        | inl bad ↦ (s, offset, v, simp (e, bad), omega arith)
        | inr good ↦ (success, add_size offset w, v, simp (e, good), omega arith)
      ]

  uint8-Returns : Returns 1 offset (message_read_uint8 vec offset old)
  unfolding message_read_uint8 copy_to_uint8
  uint8-Returns = field-Returns 1 (omega arith) (omega arith)

  uint16-Returns : Returns 2 offset (message_read_uint16 vec offset old)
  unfolding message_read_uint16 copy_to_uint16
  uint16-Returns = field-Returns 2 (omega arith) (omega arith)

  uint32-Returns : Returns 4 offset (message_read_uint32 vec offset old)
  unfolding message_read_uint32 copy_to_uint32
  uint32-Returns = field-Returns 4 (omega arith) (omega arith)

module _ (vec : BufferVec) (ok : IsVec 1 vec) (room : total (counts vec) + 16 < size_mod)
    (offset old : ℕ) (near : offset ≤ total (counts vec)) where
  rest-Returns : (b o : ℕ) → o ≤ offset + 1 → Returns 5 offset (read_uint_x_rest b vec o old)
  rest-Returns b o le = elim (Bool-cases (leb b 252)) [
    | inl y ↦ (success, o, b, simp y, omega arith)
    | inr n ↦ elim (Bool-cases (b == 253)) [
      | inl y ↦
          let (s, o', v, e, le') = uint16-Returns vec ok room o 0 (omega arith) in
          elim (Bool-cases (failed s)) [
            | inl bad ↦ (s, o', old, simp (n, y, e, bad), omega arith)
            | inr good ↦ (success, o', v, simp (n, y, e, good), omega arith)
          ]
      | inr n' ↦ elim (Bool-cases (b == 254)) [
        | inl y ↦
            let (s, o', v, e, le') = uint32-Returns vec ok room o old (omega arith) in
            (s, o', v, simp (n, n', y, e), omega arith)
        | inr n'' ↦ (protocol, o, old, simp (n, n', n''), omega arith)
      ]
    ]
  ]

  uint_x-Returns : Returns 5 offset (message_read_uint_x vec offset old)
  unfolding message_read_uint_x
  uint_x-Returns =
      let (s, o, v, e, le) = uint8-Returns vec ok room offset 0 (omega arith) in
      elim (Bool-cases (failed s)) [
        | inl bad ↦ (s, o, old, simp (e, bad), omega arith)
        | inr good ↦
            let (s', o', v', e', le') = rest-Returns v o le in (s', o', v', simp (e, good) e', le')
      ]

  pub message_read_count-Returns :
      (ver : ℕ) → Returns 5 offset (message_read_count vec ver offset old)
  unfolding message_read_count
  message_read_count-Returns ver = elim (Bool-cases (ver == 2)) [
    | inl y ↦
        let (s, o, v, e, le) = uint32-Returns vec ok room offset old (omega arith) in
        (s, o, v, simp (y, e), omega arith)
    | inr n ↦ elim (Bool-cases (ver == 4)) [
      | inl y ↦ let (s, o, v, e, le) = uint_x-Returns in (s, o, v, simp (n, y, e), le)
      | inr n' ↦ (protocol, offset, old, simp (n, n'), omega arith)
    ]
  ]
