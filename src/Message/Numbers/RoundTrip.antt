-- ===== src/Message/Numbers/RoundTrip.antt =====
-- What is written with `uint_x` is read back, and the sizes computed ahead are those written.
use robotraconteurlite.Prelude.{
  ℕ, ◌+◌, ◌≤◌, ◌<◌, ◌≡◌, ap, ap₂, ◌∙◌, sym, none, some, arith, length, length-append, ◌++◌, ◌⊎◌,
  inl, inr,
}
use robotraconteurlite.Status.{success, out_of_range}
use robotraconteurlite.Array.{BufferVec}
use robotraconteurlite.Array.Layout.{total, counts, IsVec}
use robotraconteurlite.Array.Holds.{
  HoldsAt, HoldsAt-append, Written, Written-append, Written-HoldsAt,
}
use robotraconteurlite.Array.Numbers.{
  le_bytes, length-le_bytes, copy_from_uint32, copy_from_number-Written,
}
use robotraconteurlite.Message.Numbers.{
  message_write_uint_x, message_read_uint_x, message_uint_x_size, message_len_plus_uint_x,
  message_write_padded_uint_x, message_padded_uint_x_size, message_write_padded_uint_x_val,
  uint32_max,
}
use robotraconteurlite.Message.Numbers.Fields.{
  message_write_uint8-Wrote, message_write_uint32-Wrote,
}
use robotraconteurlite.Message.Numbers.Codec.{
  encoded_uint_x, message_write_uint_x-Wrote, message_read_uint_x-HoldsAt,
  message_uint_x_size-length, read_five,
}

-- A number below 2^32 for which message_uint_x_size leaves room in a vector of buffers is written
-- with uint_x, reading at the same offset returns it, and writer and reader both end behind as
-- many bytes as the size function told.
pub message_read_uint_x-write :
    (vec : BufferVec) (offset v old : ℕ)
    → IsVec 1 vec
    → v < 4294967296
    → offset + (message_uint_x_size v).1 ≤ total (counts vec)
    → (out : BufferVec) × (message_write_uint_x vec offset v
        ≡ some (success, out, offset + (message_uint_x_size v).1))
      × (message_read_uint_x out offset old ≡ some (success, offset + (message_uint_x_size v).1, v))
message_read_uint_x-write vec offset v old ok lt fits =
    let size : (message_uint_x_size v).1 ≡ length (encoded_uint_x v) =
      ap (λ r. r.1) (message_uint_x_size-length v) in
    let (out, e, z) = message_write_uint_x-Wrote vec offset v ok (omega (arith, size)) in
    (
      out,
      e ∙ ap (λ n. some (success, out, offset + n)) (sym size),
      message_read_uint_x-HoldsAt out offset v old lt z.holds
          ∙ ap (λ n. some (success, offset + n, v)) (sym size),
    )

-- For a length whose total with the largest number is below 2^32, message_len_plus_uint_x
-- succeeds with the length plus a size that message_uint_x_size tells of that total; otherwise
-- its status is OUT_OF_RANGE.
pub message_len_plus_uint_x_lem :
    (data_len : ℕ)
    → ((data_len + 5 ≤ uint32_max)
        × ((n : ℕ) × (message_len_plus_uint_x data_len ≡ (success, some (data_len + n, n)))
            × (message_uint_x_size (data_len + n) ≡ (success, n))))
      ⊎ ((uint32_max < data_len + 5) × (message_len_plus_uint_x data_len ≡ (out_of_range, none)))
unfolding message_len_plus_uint_x message_uint_x_size
message_len_plus_uint_x_lem data_len = elim (lengths data_len) [
  | inl h ↦ inl (omega arith, (1, ground arith, ground arith))
  | inr (inl h) ↦ inl (omega arith, (3, ground arith, ground arith))
  | inr (inr (inl h)) ↦ inl (omega arith, (5, ground arith, ground arith))
  | inr (inr (inr h)) ↦ inr (omega arith, ground arith)
]
  where
    lengths :
        (n : ℕ)
        → (n ≤ 251)
          ⊎ ((251 < n) × (n ≤ 65532))
          ⊎ ((65532 < n) × (n ≤ 4294967290))
          ⊎ (4294967290 < n)
    lengths n = ground arith

-- A padded count that is written where five bytes are left, and then overwritten at the returned
-- offset by a count below 2^32, is read by uint_x as the later count, with the offset behind the
-- five bytes.
pub message_read_uint_x-padded :
    (vec : BufferVec) (offset first count old : ℕ)
    → IsVec 1 vec
    → count < 4294967296
    → offset + (message_padded_uint_x_size first).1 ≤ total (counts vec)
    → (mid out : BufferVec) × (message_write_padded_uint_x vec offset first
        ≡ some ((success, mid, offset + (message_padded_uint_x_size first).1), some (offset + 1)))
      × (message_write_padded_uint_x_val mid (offset + 1) count ≡ some (success, out))
      × (message_read_uint_x out offset old ≡ some (success, offset + 5, count))
unfolding message_write_padded_uint_x message_write_padded_uint_x_val message_padded_uint_x_size
    copy_from_uint32
message_read_uint_x-padded vec offset first count old ok lt fits =
    let n1 = length-le_bytes 1 254 in
    let n4 = length-le_bytes 4 first in
    let (m1, e1, z1) = message_write_uint8-Wrote vec offset 254 ok (omega arith) in
    let here : offset + length (le_bytes 1 254) ≡ offset + 1 = omega (arith, n1) in
    let (mid, e2, z2) =
      message_write_uint32-Wrote m1 (offset + 1) first z1.holds.ok (rw z1.lengths (omega arith)) in
    let (out, e3, z3) =
      copy_from_number-Written 4 (omega arith) (omega arith) mid (offset + 1) count z2.holds.ok
        (rw (z2.lengths, z1.lengths) (omega arith)) in
    let mark : HoldsAt out offset (le_bytes 1 254) =
      Written-HoldsAt mid (offset + 1) (le_bytes 4 count) out offset (le_bytes 1 254) z3
        (Written-HoldsAt m1 (offset + 1) (le_bytes 4 first) mid offset (le_bytes 1 254) z2 z1.holds
          (omega (arith, n1)))
        (omega (arith, n1)) in
    let at : offset + 1 + length (le_bytes 4 first) ≡ offset + 5 = omega (arith, n4) in
    (
      mid,
      out,
      rw (e1, here, e2) (ap (λ o. some ((success, mid, o), some (offset + 1))) at),
      e3,
      read_five out offset count old lt
          (HoldsAt-append out offset (le_bytes 1 254) (le_bytes 4 count) mark (rw here z3.holds)),
    )

pub message_write_padded_uint_x-Written :
    (vec : BufferVec) (offset count : ℕ)
    → IsVec 1 vec
    → offset + length (le_bytes 1 254 ++ le_bytes 4 count) ≤ total (counts vec)
    → (out : BufferVec) × (message_write_padded_uint_x vec offset count
        ≡ some (
          (success, out, offset + length (le_bytes 1 254 ++ le_bytes 4 count)),
          some (offset + 1),
        ))
      × Written vec offset (le_bytes 1 254 ++ le_bytes 4 count) out
unfolding message_write_padded_uint_x
message_write_padded_uint_x-Written vec offset count ok fits =
    let n1 = length-le_bytes 1 254 in
    let n = length-append (le_bytes 1 254) (le_bytes 4 count) in
    let (m1, e1, z1) = message_write_uint8-Wrote vec offset 254 ok (omega arith) in
    let (out, e2, z2) =
      message_write_uint32-Wrote m1 (offset + length (le_bytes 1 254)) count z1.holds.ok
        (rw z1.lengths (omega (arith, length-le_bytes 4 count))) in
    let here : offset + length (le_bytes 1 254) ≡ offset + 1 = omega arith in
    let behind : offset + length (le_bytes 1 254) + length (le_bytes 4 count)
        ≡ offset + length (le_bytes 1 254 ++ le_bytes 4 count) =
      omega arith in
    (
      out,
      rw (e1, e2) (ap₂ (λ k j. some ((success, out, k), some j)) behind here),
      Written-append vec offset (le_bytes 1 254) m1 (le_bytes 4 count) out z1 z2,
    )
