-- ===== src/Message/Numbers.antt =====
-- The numbers and counts of src/message.c: readers and writers at an offset, which they advance. A
-- number that is written with `uint_x` takes one, three or five bytes.
pub mod Fields
pub mod Codec
pub mod RoundTrip
pub mod Refusals
pub mod Total
mod Tests
use robotraconteurlite.Prelude.{
  ℕ, ◌+◌, ◌-◌, ◌%◌, ◌^◌, Bool, true, false, Option, none, some, leb, ◌==◌, if◌then◌else◌, ◌>>=◌,
  add_size,
}
use robotraconteurlite.Status.{Status, success, out_of_range, protocol, failed}
use robotraconteurlite.Array.{BufferVec}
use robotraconteurlite.Array.Numbers.{
  copy_to_uint8, copy_to_uint16, copy_to_uint32, copy_from_uint8, copy_from_uint16,
  copy_from_uint32,
}

-- What a reader returns: the status, `*offset` and `*val`.
abbrev pub Read : Type 0
Read = Option (Status × ℕ × ℕ)

-- What a writer returns: the status, the buffers and `*offset`.
abbrev pub Write : Type 0
Write = Option (Status × BufferVec × ℕ)

-- A field of `w` bytes is read or written, and the offset moves behind it on success.
abbrev pub read_field : ℕ → Option (Status × ℕ) → ℕ → Read
read_field w copied offset = copied >>= λ r.
    if failed r.0 then some (r.0, offset, r.1) else some (success, add_size offset w, r.1)

abbrev pub write_field : ℕ → Option (Status × BufferVec) → ℕ → Write
write_field w copied offset = copied >>= λ r.
    if failed r.0 then some (r.0, r.1, offset) else some (success, r.1, add_size offset w)

pub message_read_uint32 : BufferVec → ℕ → ℕ → Read
message_read_uint32 buffer offset val = read_field 4 (copy_to_uint32 buffer offset val) offset

pub message_read_uint16 : BufferVec → ℕ → ℕ → Read
message_read_uint16 buffer offset val = read_field 2 (copy_to_uint16 buffer offset val) offset

pub message_read_uint8 : BufferVec → ℕ → ℕ → Read
message_read_uint8 buffer offset val = read_field 1 (copy_to_uint8 buffer offset val) offset

-- A 16-bit number is read into a variable of its own, and `*val` set on success only.
abbrev read_via_uint16 : BufferVec → ℕ → ℕ → Read
read_via_uint16 buffer offset val = message_read_uint16 buffer offset 0 >>= λ r.
    if failed r.0 then some (r.0, r.1, val) else some (success, r.1, r.2)

-- The cases of `robotraconteurlite_message_read_uint_x` on its first byte.
abbrev pub read_uint_x_rest : ℕ → BufferVec → ℕ → ℕ → Read
read_uint_x_rest b buffer offset val =
    if leb b 252
    then some (success, offset, b)
    else if b == 253
    then read_via_uint16 buffer offset val
    else if b == 254
    then message_read_uint32 buffer offset val
    else some (protocol, offset, val)

pub message_read_uint_x : BufferVec → ℕ → ℕ → Read
message_read_uint_x buffer offset val = message_read_uint8 buffer offset 0 >>= λ r.
    if failed r.0 then some (r.0, r.1, val) else read_uint_x_rest r.2 buffer r.1 val

pub message_read_count : BufferVec → ℕ → ℕ → ℕ → Read
message_read_count buffer ver offset val =
    if ver == 2
    then message_read_uint32 buffer offset val
    else if ver == 4
    then message_read_uint_x buffer offset val
    else some (protocol, offset, val)

pub message_read_count2 : BufferVec → ℕ → ℕ → ℕ → Read
message_read_count2 buffer ver offset val =
    if ver == 2
    then read_via_uint16 buffer offset val
    else if ver == 4
    then message_read_uint_x buffer offset val
    else some (protocol, offset, val)

pub message_write_uint32 : BufferVec → ℕ → ℕ → Write
message_write_uint32 buffer offset val = write_field 4 (copy_from_uint32 buffer offset val) offset

pub message_write_uint16 : BufferVec → ℕ → ℕ → Write
message_write_uint16 buffer offset val = write_field 2 (copy_from_uint16 buffer offset val) offset

pub message_write_uint8 : BufferVec → ℕ → ℕ → Write
message_write_uint8 buffer offset val = write_field 1 (copy_from_uint8 buffer offset val) offset

abbrev pub uint16_max : ℕ
uint16_max = 65535

abbrev pub uint32_max : ℕ
uint32_max = 4294967295

-- A step of a writer after which the next step runs where it succeeded.
infixl 5 ◌then_write◌
abbrev pub ◌then_write◌ : Write → (BufferVec → ℕ → Write) → Write
w then_write k = w >>= λ r. if failed r.0 then some r else k r.1 r.2

pub message_write_uint_x : BufferVec → ℕ → ℕ → Write
message_write_uint_x buffer offset val =
    if leb val 252
    then message_write_uint8 buffer offset (val % 256)
    else if leb val uint16_max
    then message_write_uint8 buffer offset 253
      then_write (λ b o. message_write_uint16 b o (val % 65536))
    else message_write_uint8 buffer offset 254 then_write (λ b o. message_write_uint32 b o val)

pub message_uint_x_size : ℕ → Status × ℕ
message_uint_x_size val =
    if leb val 252 then (success, 1) else if leb val uint16_max then (success, 3) else (success, 5)

-- The options are `*data_len_out` and `*size`, which the error path leaves alone.
pub message_len_plus_uint_x : ℕ → Status × Option (ℕ × ℕ)
message_len_plus_uint_x data_len =
    if leb data_len 251
    then (success, some (data_len + 1, 1))
    else if leb data_len (uint16_max - 3)
    then (success, some (data_len + 3, 3))
    else if leb data_len (uint32_max - 5)
    then (success, some (data_len + 5, 5))
    else (out_of_range, none)

-- The last component is `*count_offset`.
pub message_write_padded_uint_x : BufferVec → ℕ → ℕ → Option ((Status × BufferVec × ℕ) × Option ℕ)
message_write_padded_uint_x buffer offset count = message_write_uint8 buffer offset 254 >>= λ r.
    if failed r.0
    then some (r, none)
    else message_write_uint32 r.1 r.2 count >>= λ s. some (s, some r.2)

unfoldable pub message_padded_uint_x_size : ℕ → Status × ℕ
message_padded_uint_x_size count = (success, 5)

unfoldable pub message_write_padded_uint_x_val : BufferVec → ℕ → ℕ → Option (Status × BufferVec)
message_write_padded_uint_x_val buffer count_offset count =
    copy_from_uint32 buffer count_offset count
