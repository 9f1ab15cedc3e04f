-- ===== src/Message/Header/Fields.antt =====
-- Single steps of the readers of headers: a field that stands at the offset is read and kept.
use robotraconteurlite.Prelude.{
  ℕ, ◌+◌, ◌≤◌, ◌<◌, ◌≡◌, refl, ap₂, Bool, true, false, some, List, ◌++◌, arith, length, sub_size,
  ◌==◌,
}
use robotraconteurlite.Status.{success}
use robotraconteurlite.Array.{BufferVec}
use robotraconteurlite.Array.Holds.{HoldsAt, HoldsAt-right}
use robotraconteurlite.Array.Numbers.{le_bytes, length-le_bytes}
use robotraconteurlite.Message.Numbers.{
  message_read_uint8, message_read_uint16, message_read_uint32, message_read_uint_x,
}
use robotraconteurlite.Message.Numbers.Fields.{
  message_read_uint8-HoldsAt, message_read_uint16-HoldsAt, message_read_uint32-HoldsAt,
}
use robotraconteurlite.Message.Numbers.Codec.{encoded_uint_x, message_read_uint_x-HoldsAt}
use robotraconteurlite.Message.Steps.{
  Step, run, into, choose, Reads, run-Reads, HoldsAll, HoldsAt-joined, bytes_when,
}
use robotraconteurlite.Message.Strings.{
  HeaderString, StringInfo, nodeid_size, message_read_nodeid,
  message_read_header_string_with_len_prefix2_1, message_read_header_string_with_len_prefix4_1,
  message_read_header_string_with_len_prefix_2,
}
use robotraconteurlite.Message.Strings.Laws.{
  encoded_prefix2, encoded_prefix4, place, read_prefix2-HoldsAt, read_prefix4-HoldsAt,
  read_nodeid-HoldsAt, read_header_string-HoldsAt, Room, Received,
}
use robotraconteurlite.Message.Header.{MessageHeader, MessageReader, MessageBufferInfo}
use robotraconteurlite.Message.Header.Read.{HeaderRead, into_copy, keep, string_step, read_end}

module _ {S : Type 0} (vec : BufferVec) (o v : ℕ) (put : ℕ → S) where
  pub into_uint8 :
      (old : ℕ)
      → v < 256
      → HoldsAt vec o (le_bytes 1 v)
      → into (message_read_uint8 vec o old) put ≡ some (success, o + length (le_bytes 1 v), put v)
  into_uint8 old lt h = rw (length-le_bytes 1 v, message_read_uint8-HoldsAt vec o v old lt h) refl

  pub into_uint16 :
      (old : ℕ)
      → v < 65536
      → HoldsAt vec o (le_bytes 2 v)
      → into (message_read_uint16 vec o old) put ≡ some (success, o + length (le_bytes 2 v), put v)
  into_uint16 old lt h = rw (length-le_bytes 2 v, message_read_uint16-HoldsAt vec o v old lt h) refl

  pub into_uint32 :
      (old : ℕ)
      → v < 4294967296
      → HoldsAt vec o (le_bytes 4 v)
      → into (message_read_uint32 vec o old) put ≡ some (success, o + length (le_bytes 4 v), put v)
  into_uint32 old lt h = rw (length-le_bytes 4 v, message_read_uint32-HoldsAt vec o v old lt h) refl

  pub into_uint_x :
      (old : ℕ)
      → v < 4294967296
      → HoldsAt vec o (encoded_uint_x v)
      → into (message_read_uint_x vec o old) put
        ≡ some (success, o + length (encoded_uint_x v), put v)
  into_uint_x old lt h = rw (message_read_uint_x-HoldsAt vec o v old lt h) refl

  pub into_copy_uint16 :
      (s : S)
      → v < 65536
      → HoldsAt vec o (le_bytes 2 v)
      → into_copy (message_read_uint16 vec o 0) s put
        ≡ some (success, o + length (le_bytes 2 v), put v)
  into_copy_uint16 s lt h =
      rw (length-le_bytes 2 v, message_read_uint16-HoldsAt vec o v 0 lt h) refl

module _ {S : Type 0} (vec : BufferVec) (o : ℕ) (xs : List ℕ) where
  pub keep_nodeid :
      (put : List ℕ → S) (val : List ℕ)
      → length xs ≡ nodeid_size
      → nodeid_size ≤ length val
      → HoldsAt vec o xs
      → keep (message_read_nodeid vec o val) put ≡ some (success, o + length xs, put xs)
  keep_nodeid put val n room h = rw (read_nodeid-HoldsAt vec o xs val n room h) refl

  pub keep_prefix2 :
      (put : StringInfo → S) (info : StringInfo)
      → length xs < 65536
      → HoldsAt vec o (encoded_prefix2 xs)
      → keep (message_read_header_string_with_len_prefix2_1 vec o info) put
        ≡ some (success, o + length (encoded_prefix2 xs), put (place o (le_bytes 2 (length xs)) xs))
  keep_prefix2 put info small h = rw (read_prefix2-HoldsAt vec o xs info small h) refl

  pub keep_prefix4 :
      (put : StringInfo → S) (info : StringInfo)
      → length xs < 4294967296
      → HoldsAt vec o (encoded_prefix4 xs)
      → keep (message_read_header_string_with_len_prefix4_1 vec o info) put
        ≡ some (
          success,
          o + length (encoded_prefix4 xs),
          put (place o (encoded_uint_x (length xs)) xs),
        )
  keep_prefix4 put info small h = rw (read_prefix4-HoldsAt vec o xs info small h) refl

-- A string has been found, and its characters are still to be read.
pub record Placed (vec : BufferVec) (xs : List ℕ) (info : StringInfo) : Type 0 where
  pub len : info.str_len ≡ length xs
  pub holds : HoldsAt vec info.offset xs

pub prefix-Placed :
    (vec : BufferVec) (o : ℕ) (prefix xs : List ℕ)
    → HoldsAt vec o (prefix ++ xs)
    → Placed vec xs (place o prefix xs)
prefix-Placed vec o prefix xs h = record { len = refl; holds = HoldsAt-right vec o prefix xs h }

-- The characters of a placed string are read into a string with room.
pub string_step-Placed :
    (vec : BufferVec) (o : ℕ) (xs : List ℕ) (place : HeaderRead → StringInfo)
    (field : MessageHeader → HeaderString) (put : HeaderString → MessageHeader → MessageHeader)
    (s : HeaderRead)
    → Placed vec xs (place s)
    → Room (field s.header) (length xs)
    → (out : HeaderString) × (string_step place field put vec o s
        ≡ some (success, o, record s { header = put out s.header }))
      × Received xs out
unfolding message_read_header_string_with_len_prefix_2
string_step-Placed vec o xs place field put s p room =
    let (out, e, r) =
      read_header_string-HoldsAt vec (place s).offset xs (field s.header) p.holds room in
    (out, rw (p.len, e) refl, r)

-- A group of fields under a condition. `u` is what has been read, by the condition.
pub choose-bytes_when :
    {S : Type 0} (vec : BufferVec) (o : ℕ) (b : Bool) (fs : List (Step S)) (other : S → S)
    (xss : List (List ℕ)) (s : S) (u : Bool → S)
    → (b ≡ true → HoldsAll vec o xss → Reads vec fs o xss s (u true))
    → other s ≡ u false
    → HoldsAt vec o (bytes_when b xss)
    → choose b fs other vec o s ≡ some (success, o + length (bytes_when b xss), u b)
choose-bytes_when vec o true fs other xss s u h e at =
    run-Reads (h refl (HoldsAt-joined vec o xss at))
choose-bytes_when vec o false fs other xss s u h e at =
    let end : o ≡ o + 0 = omega arith in ap₂ (λ k t. some (success, k, t)) end e

-- The end of both readers, where the size is right and the strings are read.
pub read_end-run :
    (reader : MessageReader) (info : MessageBufferInfo) (strings : List (Step HeaderRead))
    (last : MessageHeader → MessageHeader) (o : ℕ) (u v : HeaderRead)
    → sub_size o reader.buffer_offset ≡ u.header.header_size
    → run strings reader.buffer o u ≡ some (success, o, v)
    → read_end reader info strings last o u
      ≡ some (success, last v.header, record v.buffer_info { entry_start_offset = o })
read_end-run reader info strings last o u v size e =
    let yes : (sub_size o reader.buffer_offset == u.header.header_size) ≡ true = ground arith in
    simp (yes, e)
