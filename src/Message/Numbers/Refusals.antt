-- ===== src/Message/Numbers/Refusals.antt =====
-- Where a reader of a number fails: behind the end of the vector, and at a mark without a meaning.
use robotraconteurlite.Prelude.{ℕ, ◌+◌, ◌≤◌, ◌<◌, ◌≡◌, refl, some, arith, size_mod}
use robotraconteurlite.Status.{out_of_range, protocol}
use robotraconteurlite.Array.{BufferVec}
use robotraconteurlite.Array.Layout.{total, counts, IsVec}
use robotraconteurlite.Array.Holds.{HoldsAt}
use robotraconteurlite.Array.Numbers.{le_bytes, copy_to_number-refuses, copy_to_uint8}
use robotraconteurlite.Message.Numbers.{message_read_uint8, message_read_uint_x}
use robotraconteurlite.Message.Numbers.Fields.{message_read_uint8-HoldsAt}

module _ (vec : BufferVec) (ok : IsVec 1 vec) (offset old : ℕ) where
  beyond_uint8 :
      total (counts vec) ≤ offset
      → offset + 1 < size_mod
      → message_read_uint8 vec offset 0 ≡ some (out_of_range, offset, 0)
  unfolding message_read_uint8 copy_to_uint8
  beyond_uint8 far small =
      rw
        (copy_to_number-refuses 1 (omega arith) (omega arith) vec offset 0 ok (omega arith) small
          (omega arith))
        refl

  -- Reading a number at or behind the end of a vector of buffers, at an offset that does not
  -- wrap, returns OUT_OF_RANGE and leaves the offset and the value as they were.
  pub message_read_uint_x_beyond :
      total (counts vec) ≤ offset
      → offset + 1 < size_mod
      → message_read_uint_x vec offset old ≡ some (out_of_range, offset, old)
  unfolding message_read_uint_x
  message_read_uint_x_beyond far small = rw (beyond_uint8 far small) refl

  -- Where the byte 255 stands, the number is refused with PROTOCOL, and the offset is behind it.
  pub message_read_uint_x_no_mark :
      HoldsAt vec offset (le_bytes 1 255)
      → message_read_uint_x vec offset old ≡ some (protocol, offset + 1, old)
  unfolding message_read_uint_x
  message_read_uint_x_no_mark h =
      rw (message_read_uint8-HoldsAt vec offset 255 0 (omega arith) h) refl
