-- ===== src/Message/Strings.antt =====
-- The strings, node ids and marks in the headers of src/message.c. A string is read in two steps:
-- its length and place first, and its characters once the whole header has been read.
pub mod Laws
use robotraconteurlite.Prelude.{
  ℕ, ◌+◌, ◌%◌, Bool, true, false, not, Option, none, some, List, [], ◌∷◌, ltb, leb, ◌==◌,
  if◌then◌else◌, ◌>>=◌, add_size, length, take,
}
use robotraconteurlite.Status.{Status, success, out_of_range, invalid_argument, failed}
use robotraconteurlite.Array.{Buffer, BufferVec, buffer_vec_copy_to_mem, buffer_vec_copy_from_mem}
use robotraconteurlite.Array.Bytes.{memory_of}
use robotraconteurlite.Message.Numbers.{
  Write, ◌then_write◌, write_field, message_read_uint16, message_read_uint_x, message_write_uint16,
  message_write_uint_x, message_uint_x_size, uint32_max,
}

-- `struct robotraconteurlite_string`: `chars` is the memory behind `data`, `none` for NULL.
pub record HeaderString : Type 0 where
  pub chars : Option (List ℕ)
  pub len : ℕ

-- `data = NULL; len = 0;`
abbrev pub no_string : HeaderString
no_string = record { chars = none; len = 0 }

pub record StringInfo : Type 0 where
  pub offset : ℕ
  pub str_len : ℕ

-- The bytes of a memory that a copy returns as a vector of one buffer.
abbrev pub front : BufferVec → List ℕ
front [] = []
front (b ∷ bs) = b.bytes

-- The path of `robotraconteurlite_message_read_header_string` that copies into memory. `none` is
-- the failed assertion on NULL with a length.
abbrev read_chars : BufferVec → ℕ → ℕ → Option (List ℕ) → ℕ → Option (Status × HeaderString)
read_chars buffer offset str_len none len =
    if len == 0 then some (success, record { chars = none; len = str_len }) else none
read_chars buffer offset str_len (some bytes) len =
    if ltb len str_len
    then some (invalid_argument, record { chars = some bytes; len = len })
    else buffer_vec_copy_to_mem buffer offset (memory_of bytes len) 0 1 str_len >>= λ r.
        some (r.0, record { chars = some (front r.1); len = if failed r.0 then len else str_len })

pub message_read_header_string : BufferVec → ℕ → ℕ → HeaderString → Option (Status × HeaderString)
message_read_header_string buffer offset str_len str =
    if str_len == 0
    then some (success, record str { len = 0 })
    else read_chars buffer offset str_len str.chars str.len

-- The last component is `*str_info`.
abbrev string_place : StringInfo → Option (Status × ℕ × ℕ) → Option (Status × ℕ × StringInfo)
string_place info read = read >>= λ r.
    if failed r.0
    then some (r.0, r.1, info)
    else some (success, add_size r.1 r.2, record { offset = r.1; str_len = r.2 })

pub message_read_header_string_with_len_prefix2_1 :
    BufferVec → ℕ → StringInfo → Option (Status × ℕ × StringInfo)
message_read_header_string_with_len_prefix2_1 buffer offset info =
    string_place info (message_read_uint16 buffer offset 0)

pub message_read_header_string_with_len_prefix4_1 :
    BufferVec → ℕ → StringInfo → Option (Status × ℕ × StringInfo)
message_read_header_string_with_len_prefix4_1 buffer offset info =
    string_place info (message_read_uint_x buffer offset 0)

-- `_prefix2_2` and `_prefix4_2`, which are the same.
unfoldable pub message_read_header_string_with_len_prefix_2 :
    BufferVec → StringInfo → HeaderString → Option (Status × HeaderString)
message_read_header_string_with_len_prefix_2 buffer info str =
    message_read_header_string buffer info.offset info.str_len str

abbrev pub nodeid_size : ℕ
nodeid_size = 16

-- The last component is the node id, an array of 16 bytes.
pub message_read_nodeid : BufferVec → ℕ → List ℕ → Option (Status × ℕ × List ℕ)
message_read_nodeid buffer offset val =
    buffer_vec_copy_to_mem buffer offset (memory_of val nodeid_size) 0 1 nodeid_size >>= λ r.
    if failed r.0
    then some (r.0, offset, take nodeid_size (front r.1))
    else some (success, add_size offset nodeid_size, take nodeid_size (front r.1))

-- `n` bytes of memory are written, and the offset moves behind them.
pub write_run : ℕ → List ℕ → BufferVec → ℕ → Write
write_run n bytes buffer offset =
    write_field n (buffer_vec_copy_from_mem buffer offset (memory_of bytes n) 0 1 n) offset

abbrev pub write_chars : List ℕ → BufferVec → ℕ → Write
write_chars str buffer offset =
    if ltb 0 (length str)
    then write_run (length str) str buffer offset
    else some (success, buffer, offset)

unfoldable pub message_header_string_with_len_prefix_size4 : List ℕ → Status × ℕ
message_header_string_with_len_prefix_size4 str =
    if ltb uint32_max (length str)
    then (out_of_range, 0)
    else (success, (message_uint_x_size (length str)).1 + length str)

pub message_write_header_string_with_len_prefix2 : List ℕ → BufferVec → ℕ → Write
message_write_header_string_with_len_prefix2 str buffer offset =
    if ltb uint32_max (length str)
    then some (out_of_range, buffer, offset)
    else message_write_uint16 buffer offset (length str % 65536) then_write write_chars str

pub message_write_header_string_with_len_prefix4 : List ℕ → BufferVec → ℕ → Write
message_write_header_string_with_len_prefix4 str buffer offset =
    if ltb uint32_max (length str)
    then some (out_of_range, buffer, offset)
    else message_write_uint_x buffer offset (length str) then_write write_chars str
