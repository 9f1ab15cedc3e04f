-- ===== src/Message/Numbers/Fields.antt =====
-- Fields of one, two and four bytes: written, they stand at the offset; where they stand, they are
-- read; both move the offset behind them.
use robotraconteurlite.Prelude.{ℕ, ◌+◌, ◌^◌, ◌≤◌, ◌<◌, ◌≡◌, ap, some, arith, add_size, length, List}
use robotraconteurlite.Status.{success}
use robotraconteurlite.Array.{BufferVec}
use robotraconteurlite.Array.Layout.{total, counts, IsVec}
use robotraconteurlite.Array.Holds.{HoldsAt, Written}
use robotraconteurlite.Array.Numbers.{
  le_bytes, length-le_bytes, copy_from_number, copy_to_number, copy_from_number-Written,
  copy_to_number-HoldsAt, copy_from_uint8, copy_from_uint16, copy_from_uint32, copy_to_uint8,
  copy_to_uint16, copy_to_uint32,
}
use robotraconteurlite.Message.Numbers.{
  Write, write_field, read_field, message_write_uint8, message_write_uint16, message_write_uint32,
  message_read_uint8, message_read_uint16, message_read_uint32,
}

-- A writer's result: success, the bytes written, and the offset behind them.
abbrev pub Wrote : BufferVec → ℕ → List ℕ → Write → Type 0
Wrote vec offset xs w =
    (out : BufferVec) × (w ≡ some (success, out, offset + length xs)) × Written vec offset xs out

module _ (w : ℕ) (pos_w : 0 < w) (small : w < 16) (vec : BufferVec) (offset v : ℕ) where
  write_number-Wrote :
      IsVec 1 vec
      → offset + w ≤ total (counts vec)
      → Wrote vec offset (le_bytes w v) (write_field w (copy_from_number w vec offset v) offset)
  write_number-Wrote ok fits =
      let (out, e, z) = copy_from_number-Written w pos_w small vec offset v ok fits in
      let n : length (le_bytes w v) ≡ w = length-le_bytes w v in
      let at : add_size offset w ≡ offset + length (le_bytes w v) = omega (arith, ok.elements) in
      (out, rw e (ap (λ o. some (success, out, o)) at), z)

  read_number-HoldsAt :
      (old : ℕ)
      → v < 256 ^ w
      → HoldsAt vec offset (le_bytes w v)
      → read_field w (copy_to_number w vec offset old) offset ≡ some (success, offset + w, v)
  read_number-HoldsAt old lt h =
      let n : length (le_bytes w v) ≡ w = length-le_bytes w v in
      let at : add_size offset w ≡ offset + w = omega (arith, h.fits, h.ok.elements) in
      rw (copy_to_number-HoldsAt w pos_w small vec offset v old lt h)
        (ap (λ o. some (success, o, v)) at)

module _ (vec : BufferVec) (offset v : ℕ) where
  pub message_write_uint8-Wrote :
      IsVec 1 vec
      → offset + 1 ≤ total (counts vec)
      → Wrote vec offset (le_bytes 1 v) (message_write_uint8 vec offset v)
  unfolding message_write_uint8 copy_from_uint8
  message_write_uint8-Wrote = write_number-Wrote 1 (omega arith) (omega arith) vec offset v

  pub message_write_uint16-Wrote :
      IsVec 1 vec
      → offset + 2 ≤ total (counts vec)
      → Wrote vec offset (le_bytes 2 v) (message_write_uint16 vec offset v)
  unfolding message_write_uint16 copy_from_uint16
  message_write_uint16-Wrote = write_number-Wrote 2 (omega arith) (omega arith) vec offset v

  pub message_write_uint32-Wrote :
      IsVec 1 vec
      → offset + 4 ≤ total (counts vec)
      → Wrote vec offset (le_bytes 4 v) (message_write_uint32 vec offset v)
  unfolding message_write_uint32 copy_from_uint32
  message_write_uint32-Wrote = write_number-Wrote 4 (omega arith) (omega arith) vec offset v

  pub message_read_uint8-HoldsAt :
      (old : ℕ)
      → v < 256
      → HoldsAt vec offset (le_bytes 1 v)
      → message_read_uint8 vec offset old ≡ some (success, offset + 1, v)
  unfolding message_read_uint8 copy_to_uint8
  message_read_uint8-HoldsAt old lt =
      read_number-HoldsAt 1 (omega arith) (omega arith) vec offset v old (omega arith)

  pub message_read_uint16-HoldsAt :
      (old : ℕ)
      → v < 65536
      → HoldsAt vec offset (le_bytes 2 v)
      → message_read_uint16 vec offset old ≡ some (success, offset + 2, v)
  unfolding message_read_uint16 copy_to_uint16
  message_read_uint16-HoldsAt old lt =
      read_number-HoldsAt 2 (omega arith) (omega arith) vec offset v old (omega arith)

  pub message_read_uint32-HoldsAt :
      (old : ℕ)
      → v < 4294967296
      → HoldsAt vec offset (le_bytes 4 v)
      → message_read_uint32 vec offset old ≡ some (success, offset + 4, v)
  unfolding message_read_uint32 copy_to_uint32
  message_read_uint32-HoldsAt old lt =
      read_number-HoldsAt 4 (omega arith) (omega arith) vec offset v old (omega arith)
