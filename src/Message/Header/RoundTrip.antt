-- ===== src/Message/Header/RoundTrip.antt =====
-- A header that begin_message writes is read back by read_header, in both versions, and what
-- read_header does with another version.
use robotraconteurlite.Prelude.{
  ℕ, ◌+◌, ◌≤◌, ◌<◌, ◌≡◌, refl, inl, ap, ◌∙◌, true, false, some, arith, ◌==◌, length, joined,
  add_size, sub_size,
}
use robotraconteurlite.Status.{success}
use robotraconteurlite.Array.{BufferVec}
use robotraconteurlite.Array.Layout.{total, counts, IsVec}
use robotraconteurlite.Array.Holds.{HoldsAt, Written}
use robotraconteurlite.Array.Numbers.{le_bytes, length-le_bytes}
use robotraconteurlite.Message.Numbers.{message_read_uint16}
use robotraconteurlite.Message.Numbers.Fields.{message_read_uint16-HoldsAt}
use robotraconteurlite.Message.Steps.{HoldsAt-joined}
use robotraconteurlite.Message.Header.{
  MessageHeader, MessageConstHeader, MessageReader, MessageBufferInfo,
}
use robotraconteurlite.Message.Header.Read.{
  message_reader_read_header_ex, message_reader_read_header,
}
use robotraconteurlite.Message.Header.Write.{
  MessageWriter, EntryWriter, header_size2, message_writer_begin_message,
  message_writer_begin_message_ex, MessageResult, no_info,
}
use robotraconteurlite.Message.Header.Encoding.{
  encoding2, encoding4, encoding4_in, count_bytes, Version2, Version4, HasRoom, Carries,
}
use robotraconteurlite.Message.Header.Read2.{read_header2_ex-HoldsAt}
use robotraconteurlite.Message.Header.Read4.{read_header4_ex-HoldsAt}
use robotraconteurlite.Message.Header.Write2.{
  sent2, Sendable2, sent2-Version2, write_header2_ex-Written,
}
use robotraconteurlite.Message.Header.Write4.{sent4, write_header4_ex-Written}
use robotraconteurlite.Message.Header.Plan.{Sendable4}

-- The number of the version stands behind the magic and the size of the message.
version_read :
    (vec : BufferVec) (o size v old : ℕ)
    → v < 65536
    → HoldsAt vec (o + 4 + length (le_bytes 4 size)) (le_bytes 2 v)
    → message_read_uint16 vec (add_size o 8) old ≡ some (success, o + 10, v)
version_read vec o size v old lt held =
    let n = length-le_bytes 4 size in
    let n2 = length-le_bytes 2 v in
    let at : add_size o 8 ≡ o + 4 + length (le_bytes 4 size) =
      omega (arith, held.fits, held.ok.elements) in
    let behind : o + 4 + length (le_bytes 4 size) + 2 ≡ o + 10 = omega arith in
    ap (λ k. message_read_uint16 vec k old) at
    ∙ message_read_uint16-HoldsAt vec (o + 4 + length (le_bytes 4 size)) v old lt held
    ∙ ap (λ k. some (success, k, v)) behind

module _ (h : MessageConstHeader) (reader : MessageReader) (dest : MessageHeader)
    (info : MessageBufferInfo) (room : HasRoom h dest) where
  with_version : MessageHeader
  with_version = record dest { message_version = h.message_version }

  with_version-HasRoom : HasRoom h with_version
  unfolding with_version
  with_version-HasRoom = record {
    sender_id = room.sender_id;
    receiver_id = room.receiver_id;
    sender = room.sender;
    receiver = room.receiver;
    meta = room.meta;
  }

  -- The header of a message whose bytes stand at the reader's offset is read, and the reader takes
  -- the version of the message.
  pub read_header-Version2 :
      Version2 h
      → HoldsAt reader.buffer reader.buffer_offset (joined (encoding2 h))
      → (out : MessageHeader) × (message_reader_read_header reader dest info
          ≡ some (success, out, record reader { message_version = 2 }))
        × Carries h out
  unfolding message_reader_read_header message_reader_read_header_ex encoding2 with_version
  read_header-Version2 v2 held =
      let (magic, (a1, (a2, rest))) =
        HoldsAt-joined reader.buffer reader.buffer_offset (encoding2 h) held in
      let (out, found, e, c, start, size, entries) =
        read_header2_ex-HoldsAt h v2 reader with_version info with_version-HasRoom held in
      let r =
        version_read reader.buffer reader.buffer_offset h.message_size h.message_version
          dest.message_version v2.fits.version_lt a2 in
      let two : (h.message_version == 2) ≡ true = ground (arith, v2.version) in
      (
        out,
        simp (r, two, e)
            (ap (λ v. some (success, out, record reader { message_version = v }))
              (c.version ∙ v2.version)),
        c,
      )

  pub read_header-Version4 :
      Version4 h
      → HoldsAt reader.buffer reader.buffer_offset (joined (encoding4 h))
      → (out : MessageHeader) × (message_reader_read_header reader dest info
          ≡ some (success, out, record reader { message_version = 4 }))
        × Carries h out
  unfolding message_reader_read_header message_reader_read_header_ex encoding4_in with_version
  read_header-Version4 v4 held =
      let (magic, (a1, (a2, rest))) =
        HoldsAt-joined reader.buffer reader.buffer_offset (encoding4 h) held in
      let (out, found, e, c, start, size, entries) =
        read_header4_ex-HoldsAt h (count_bytes h) (inl refl) v4 reader with_version info
          with_version-HasRoom held in
      let r =
        version_read reader.buffer reader.buffer_offset h.message_size h.message_version
          dest.message_version v4.fits.version_lt a2 in
      let two : (h.message_version == 2) ≡ false = ground (arith, v4.version) in
      let four : (h.message_version == 4) ≡ true = ground (arith, v4.version) in
      (
        out,
        simp (r, two, four, e)
            (ap (λ v. some (success, out, record reader { message_version = v }))
              (c.version ∙ v4.version)),
        c,
      )

-- What begin_message leaves in the caller's records where it succeeds.
abbrev pub begun :
    MessageWriter → MessageConstHeader → EntryWriter → BufferVec → ℕ → ℕ → ℕ → MessageResult
begun w h e out size place version = some (
  success,
  record w {
    buffer = out;
    message_size_offset = add_size w.buffer_offset 4;
    entry_count_offset = place;
  },
  record h { header_size = size },
  record e {
    buffer = out;
    buffer_offset = add_size w.buffer_offset size;
    buffer_count = sub_size w.buffer_count size;
    entries_written_count = 0;
    entries_written_size = 0;
    message_version = version;
  },
)

-- A header whose fields fit version 2 is written by begin_message of a version-2 writer with room
-- for it; every other byte is kept, and read_header at the writer's offset then reads each field
-- as it was, with message size 0, the flags of version 2 and priority 0, into a header with room
-- for its strings.
pub read_header-begin_message2 :
    (w : MessageWriter) (h : MessageConstHeader) (entry_writer : EntryWriter) (dest : MessageHeader)
    (info : MessageBufferInfo) (count version : ℕ)
    → Sendable2 h
    → IsVec 1 w.buffer
    → w.buffer_offset + header_size2 h ≤ total (counts w.buffer)
    → w.message_version ≡ 2
    → HasRoom (sent2 h) dest
    → (bytes : BufferVec) × (place : ℕ) × (out : MessageHeader) × (message_writer_begin_message w h
          entry_writer
        ≡ begun w h entry_writer bytes (header_size2 h) place w.message_version)
      × Written w.buffer w.buffer_offset (joined (encoding2 (sent2 h))) bytes
      × (message_reader_read_header
            (record {
              buffer = bytes;
              buffer_offset = w.buffer_offset;
              buffer_count = count;
              message_version = version;
            })
            dest
            info
          ≡ some (
            success,
            out,
            record {
              buffer = bytes;
              buffer_offset = w.buffer_offset;
              buffer_count = count;
              message_version = 2;
            },
          ))
      × Carries (sent2 h) out
unfolding message_writer_begin_message message_writer_begin_message_ex
read_header-begin_message2 w h entry_writer dest info count version ok2 vec fits two room =
    let (bytes, place, e, at, written) =
      write_header2_ex-Written h ok2 w.buffer w.buffer_offset no_info vec fits in
    let reader : MessageReader = record {
      buffer = bytes;
      buffer_offset = w.buffer_offset;
      buffer_count = count;
      message_version = version;
    } in
    let (out, r, c) =
      read_header-Version2 (sent2 h) reader dest info room (sent2-Version2 h ok2) written.holds in
    let is_two : (w.message_version == 2) ≡ true = ground arith in
    (bytes, place, out, simp (is_two, e), written, r, c)

-- A header whose fields have the sizes of their types, with strings short enough, is written by
-- begin_message of a version-4 writer with room for 100 bytes more than its strings; every other
-- byte is kept, and read_header at the writer's offset then reads each field as it was, with
-- message size 0 and the planned flags, into a header with room for its strings.
pub read_header-begin_message4 :
    (w : MessageWriter) (h : MessageConstHeader) (entry_writer : EntryWriter) (dest : MessageHeader)
    (info : MessageBufferInfo) (count version : ℕ)
    → Sendable4 h
    → IsVec 1 w.buffer
    → w.buffer_offset
        + (length h.sender_nodename + length h.receiver_nodename + length h.metadata + 100)
      ≤ total (counts w.buffer)
    → w.message_version ≡ 4
    → HasRoom h dest
    → (bytes : BufferVec) × (size : ℕ) × (place : ℕ) × (out : MessageHeader)
      × (message_writer_begin_message w h entry_writer
          ≡ begun w h entry_writer bytes size place w.message_version)
      × Written w.buffer w.buffer_offset (joined (encoding4 (sent4 h size))) bytes
      × (message_reader_read_header
            (record {
              buffer = bytes;
              buffer_offset = w.buffer_offset;
              buffer_count = count;
              message_version = version;
            })
            dest
            info
          ≡ some (
            success,
            out,
            record {
              buffer = bytes;
              buffer_offset = w.buffer_offset;
              buffer_count = count;
              message_version = 4;
            },
          ))
      × Carries (sent4 h size) out
unfolding message_writer_begin_message message_writer_begin_message_ex
read_header-begin_message4 w h entry_writer dest info count version ok4 vec fits four room =
    let (size, short, v4, write) = write_header4_ex-Written h ok4 in
    let (bytes, place, e, set, unset, written) =
      write w.buffer w.buffer_offset no_info vec (omega arith) in
    let reader : MessageReader = record {
      buffer = bytes;
      buffer_offset = w.buffer_offset;
      buffer_count = count;
      message_version = version;
    } in
    let room' : HasRoom (sent4 h size) dest = record {
      sender_id = room.sender_id;
      receiver_id = room.receiver_id;
      sender = room.sender;
      receiver = room.receiver;
      meta = room.meta;
    } in
    let (out, r, c) = read_header-Version4 (sent4 h size) reader dest info room' v4 written.holds in
    let not_two : (w.message_version == 2) ≡ false = ground arith in
    let is_four : (w.message_version == 4) ≡ true = ground arith in
    (bytes, size, place, out, simp (not_two, is_four, e), written, r, c)
