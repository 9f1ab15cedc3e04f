-- ===== src/Message/Entry/RoundTrip.antt =====
-- An entry's header of version 2 that begin_entry writes is read back.
use robotraconteurlite.Prelude.{
  ℕ, ◌+◌, ◌≤◌, ◌<◌, ◌≡◌, refl, ap, ap₂, ◌∙◌, sym, some, List, [], ◌∷◌, ◌++◌, arith, length, joined,
  subst, length-append, take, ltb, true, ◌==◌, sub_size, add_size,
}
use robotraconteurlite.Status.{success}
use robotraconteurlite.Array.{BufferVec}
use robotraconteurlite.Array.Layout.{total, counts, IsVec}
use robotraconteurlite.Array.Holds.{Written, Written-append}
use robotraconteurlite.Array.Numbers.{le_bytes, length-le_bytes}
use mathlib.Core.List.{append-nil}
use robotraconteurlite.Message.Numbers.{uint16_max}
use robotraconteurlite.Message.Numbers.Fields.{message_write_uint16-Wrote}
use robotraconteurlite.Message.Steps.{
  length-joined, write_all-Puts, PutsAll, ◌and_puts◌, puts_nothing,
}
use robotraconteurlite.Message.Strings.Laws.{write_prefix2-Puts}
use robotraconteurlite.Message.Header.Puts.{uint16-Puts, uint32-Puts, joined-++}
use robotraconteurlite.Message.Header.Write.{EntryWriter}
use robotraconteurlite.Message.Entry.{
  EntryHeader, EntryConstHeader, messageentry_reader_read_header_ex, EntryBufferInfo, EntryReader,
}
use robotraconteurlite.Message.Entry.Write.{
  ElementWriter, EntryStep, no_entry_info, messageentry_writer_begin_entry, entry_write2,
  messageentry_writer_write_header2_ex,
}
use robotraconteurlite.Message.Entry.Version2.{
  entry_encoding2, EntryFits2, EntryHasRoom, EntryCarries2, read_entry2-HoldsAt,
}

-- The header as it stands behind a writer: the size of the entry and the number of its elements are
-- put in when it ends.
abbrev pub unfinished : EntryConstHeader → EntryConstHeader
unfinished h = record h { entry_size = 0; element_count = 0 }

module _ (h : EntryConstHeader) (f : EntryFits2 h) where
  entry_write2-Puts : PutsAll (entry_write2 h) (take 8 (entry_encoding2 (unfinished h)))
  unfolding entry_write2 entry_encoding2
  entry_write2-Puts =
      uint32-Puts 0
      and_puts uint16-Puts h.entry_type
      and_puts uint16-Puts 0
      and_puts write_prefix2-Puts h.service_path f.service
      and_puts write_prefix2-Puts h.member_name f.member
      and_puts uint32-Puts h.request_id
      and_puts uint16-Puts h.error
      and_puts write_prefix2-Puts h.metadata f.meta
      and_puts puts_nothing

  split_entry :
      joined (entry_encoding2 (unfinished h))
      ≡ joined (take 8 (entry_encoding2 (unfinished h))) ++ le_bytes 2 0
  unfolding entry_encoding2
  split_entry =
      joined-++ (take 8 (entry_encoding2 (unfinished h))) (le_bytes 2 0 ∷ [])
      ∙ ap (λ t. joined (take 8 (entry_encoding2 (unfinished h))) ++ t) (append-nil (le_bytes 2 0))

  length_entry :
      length (joined (entry_encoding2 (unfinished h)))
      ≡ length h.service_path + length h.member_name + length h.metadata + 22
  unfolding entry_encoding2
  length_entry = omega (
    arith,
    length-joined (entry_encoding2 (unfinished h)),
    length-append (le_bytes 2 (length h.service_path)) h.service_path,
    length-append (le_bytes 2 (length h.member_name)) h.member_name,
    length-append (le_bytes 2 (length h.metadata)) h.metadata,
    length-le_bytes 4 0,
    length-le_bytes 2 h.entry_type,
    length-le_bytes 2 0,
    length-le_bytes 4 h.request_id,
    length-le_bytes 2 h.error,
    length-le_bytes 2 (length h.service_path),
    length-le_bytes 2 (length h.member_name),
    length-le_bytes 2 (length h.metadata),
  )

  pub write_entry2-Written :
      (writer : EntryWriter) (info : EntryBufferInfo)
      → IsVec 1 writer.buffer
      → writer.buffer_offset
          + (length h.service_path + length h.member_name + length h.metadata + 22)
        ≤ total (counts writer.buffer)
      → (bytes : BufferVec) × (place : ℕ) × (messageentry_writer_write_header2_ex writer
            writer.buffer_offset h info
          ≡ some (
            success,
            bytes,
            writer.buffer_offset + length (joined (entry_encoding2 (unfinished h))),
            record {
              start_buffer_offset = info.start_buffer_offset;
              header_size = length (joined (entry_encoding2 (unfinished h)));
              element_count_offset = place;
              element_start_offset =
                  writer.buffer_offset + length (joined (entry_encoding2 (unfinished h)));
              entry_size_offset = writer.buffer_offset;
            },
          ))
        × (place + 2 ≡ writer.buffer_offset + length (joined (entry_encoding2 (unfinished h))))
        × Written writer.buffer writer.buffer_offset (joined (entry_encoding2 (unfinished h))) bytes
  unfolding messageentry_writer_write_header2_ex
  write_entry2-Written writer info ok fits =
      let vec = writer.buffer in
      let o = writer.buffer_offset in
      let all = joined (entry_encoding2 (unfinished h)) in
      let front : List ℕ = joined (take 8 (entry_encoding2 (unfinished h))) in
      let n : length front + 2 ≡ length all =
        omega
          (arith, ap length split_entry, length-append front (le_bytes 2 0), length-le_bytes 2 0) in
      let (mid, e1, w1) = write_all-Puts entry_write2-Puts vec o ok (omega (arith, length_entry)) in
      let (bytes, e2, w2) =
        message_write_uint16-Wrote mid (o + length front) 0 w1.holds.ok
          (rw w1.lengths (omega (arith, length_entry))) in
      let end : o + length front + length (le_bytes 2 0) ≡ o + length all =
        omega (arith, length-le_bytes 2 0) in
      let size : sub_size (o + length all) o ≡ length all =
        omega (arith, ok.elements, length_entry) in
      (
        bytes,
        o + length front,
        simp (e1, e2, end, size) refl,
        omega arith,
        subst (λ xs. Written vec o xs bytes) (sym split_entry)
            (Written-append vec o front mid (le_bytes 2 0) bytes w1 w2),
      )

-- What begin_entry leaves in the caller's records where it succeeds.
abbrev pub entry_begun : EntryWriter → ElementWriter → BufferVec → ℕ → ℕ → EntryStep
entry_begun w e bytes size place = some (
  success,
  record w {
    buffer = bytes;
    entry_size_offset = w.buffer_offset;
    element_count_offset = place;
    entry_header_size = size;
  },
  record e {
    buffer = bytes;
    buffer_offset = add_size w.buffer_offset size;
    buffer_count = sub_size w.buffer_count size;
    elements_written_count = 0;
    elements_written_size = 0;
    message_version = w.message_version;
  },
)

abbrev pub entry_header_len : EntryConstHeader → ℕ
entry_header_len h = length h.service_path + length h.member_name + length h.metadata + 22

-- A reader of version 2 at an entry.
abbrev pub reader_at : BufferVec → ℕ → ℕ → ℕ → ℕ → ℕ → EntryReader
reader_at buffer offset count remaining count_offset current = record {
  buffer = buffer;
  buffer_offset = offset;
  buffer_count = count;
  buffer_remaining = remaining;
  entry_count_offset = count_offset;
  current_entry = current;
  message_version = 2;
}

-- The header of an entry that fits version 2 is written by begin_entry of a version-2 writer with
-- room for it and fewer than 65535 entries, with size and number of elements 0; every other byte
-- is kept, and a version-2 reader at that place then reads each of its fields into a header with
-- room for its strings, and the place behind it, where the elements start.
pub read_entry-begin_entry2 :
    (w : EntryWriter) (h : EntryConstHeader) (e : ElementWriter) (dest : EntryHeader)
    (info : EntryBufferInfo) (count remaining count_offset current : ℕ)
    → EntryFits2 h
    → IsVec 1 w.buffer
    → w.buffer_offset + entry_header_len h ≤ total (counts w.buffer)
    → w.entries_written_count < uint16_max
    → w.message_version ≡ 2
    → EntryHasRoom h dest
    → (bytes : BufferVec) × (place : ℕ) × (out : EntryHeader) × (messageentry_writer_begin_entry w h
          e
        ≡ entry_begun w e bytes (entry_header_len h) place)
      × Written w.buffer w.buffer_offset (joined (entry_encoding2 (unfinished h))) bytes
      × (messageentry_reader_read_header_ex
            (reader_at bytes w.buffer_offset count remaining count_offset current)
            dest
            info
          ≡ some (
            success,
            out,
            record {
              start_buffer_offset = w.buffer_offset;
              header_size = entry_header_len h;
              element_count_offset = place;
              element_start_offset = w.buffer_offset + entry_header_len h;
              entry_size_offset = w.buffer_offset;
            },
          ))
      × EntryCarries2 (unfinished h) dest out
unfolding messageentry_writer_begin_entry messageentry_reader_read_header_ex
read_entry-begin_entry2 w h e dest info count remaining count_offset current f ok fits few two
      room =
    let n : length (joined (entry_encoding2 (unfinished h))) ≡ entry_header_len h =
      length_entry h f in
    let (bytes, place, wrote, behind, written) = write_entry2-Written h f w no_entry_info ok fits in
    let f' : EntryFits2 (unfinished h) = record {
      size_lt = omega arith;
      type_lt = f.type_lt;
      service = f.service;
      member = f.member;
      request_lt = f.request_lt;
      error_lt = f.error_lt;
      meta = f.meta;
      count_lt = omega arith;
    } in
    let room' : EntryHasRoom (unfinished h) dest = record {
      service = room.service;
      member = room.member;
      meta = room.meta;
    } in
    let reader = reader_at bytes w.buffer_offset count remaining count_offset current in
    let (out, place', read, behind', c) =
      read_entry2-HoldsAt (unfinished h) f' reader dest info room' written.holds in
    let same : place' ≡ place = omega arith in
    let yes : ltb w.entries_written_count uint16_max ≡ true = ground arith in
    let is_two : (w.message_version == 2) ≡ true = ground arith in
    (
      bytes,
      place,
      out,
      simp (yes, is_two, wrote, n) refl,
      written,
      read
          ∙ ap₂
              (λ k p. some (
                success,
                out,
                record {
                  start_buffer_offset = w.buffer_offset;
                  header_size = k;
                  element_count_offset = p;
                  element_start_offset = w.buffer_offset + k;
                  entry_size_offset = w.buffer_offset;
                },
              ))
              n same,
      c,
    )
