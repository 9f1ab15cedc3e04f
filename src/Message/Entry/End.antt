-- ===== src/Message/Entry/End.antt =====
-- The end of an entry of version 2: its size and the number of its elements are put into the header
-- that stands in the buffers, and the header is then read with both.
use robotraconteurlite.Prelude.{
  ℕ, ◌+◌, ◌%◌, ◌<◌, ◌≤◌, ◌≡◌, refl, ap, ◌∙◌, sym, true, some, [], ◌∷◌, ◌++◌, arith, ◌==◌, length,
  joined, add_size, sub_size, subst, length-append, take, drop,
}
use robotraconteurlite.Status.{success}
use robotraconteurlite.Array.{BufferVec}
use robotraconteurlite.Array.Layout.{total, counts}
use robotraconteurlite.Array.Holds.{HoldsAt, Written, Written-replace}
use robotraconteurlite.Array.Numbers.{le_bytes, length-le_bytes}
use robotraconteurlite.Message.Numbers.{message_write_uint16, message_write_uint32}
use robotraconteurlite.Message.Numbers.Fields.{
  message_write_uint16-Wrote, message_write_uint32-Wrote,
}
use robotraconteurlite.Message.Steps.{length-joined}
use robotraconteurlite.Message.Header.Puts.{joined-++}
use robotraconteurlite.Message.Header.Write.{EntryWriter}
use robotraconteurlite.Message.Entry.{
  EntryHeader, EntryConstHeader, EntryBufferInfo, messageentry_reader_read_header_ex,
}
use robotraconteurlite.Message.Entry.Write.{
  ElementWriter, EntryStep, write_entry_size, messageentry_writer_end_entry,
}
use robotraconteurlite.Message.Entry.Version2.{
  entry_encoding2, EntryFits2, EntryHasRoom, EntryCarries2, read_entry2-HoldsAt,
}
use robotraconteurlite.Message.Entry.RoundTrip.{reader_at}

-- The header with the size and the number of elements of the whole entry.
abbrev pub finished_entry : EntryConstHeader → ℕ → ℕ → EntryConstHeader
finished_entry h size count = record h { entry_size = size; element_count = count }

module _ (h : EntryConstHeader) where
  -- The last two bytes are the number of elements.
  split_elements :
      joined (entry_encoding2 h)
      ≡ joined (take 8 (entry_encoding2 h)) ++ (le_bytes 2 h.element_count ++ [])
  unfolding entry_encoding2
  split_elements = joined-++ (take 8 (entry_encoding2 h)) (le_bytes 2 h.element_count ∷ [])

  length_elements :
      length (joined (entry_encoding2 h)) ≡ length (joined (take 8 (entry_encoding2 h))) + 2
  length_elements =
      ap length split_elements
      ∙ omega (
        arith,
        length-append (joined (take 8 (entry_encoding2 h))) (le_bytes 2 h.element_count ++ []),
        length-append (le_bytes 2 h.element_count) [],
        length-le_bytes 2 h.element_count,
      )

module _ (h : EntryConstHeader) (size count : ℕ) where
  finished_entry-length :
      length (joined (entry_encoding2 (finished_entry h size count)))
      ≡ length (joined (entry_encoding2 h))
  unfolding entry_encoding2
  finished_entry-length = omega (
    arith,
    length-joined (entry_encoding2 h),
    length-joined (entry_encoding2 (finished_entry h size count)),
    length-le_bytes 4 size,
    length-le_bytes 4 h.entry_size,
    length-le_bytes 2 count,
    length-le_bytes 2 h.element_count,
  )

  entry_size-HoldsAt :
      (vec : BufferVec) (o : ℕ)
      → HoldsAt vec o (joined (entry_encoding2 h))
      → (out : BufferVec) × (message_write_uint32 vec o size
          ≡ some (success, out, o + length (le_bytes 4 size)))
        × HoldsAt out o (joined (entry_encoding2 (finished_entry h size h.element_count)))
  unfolding entry_encoding2
  entry_size-HoldsAt vec o held =
      let n = length-le_bytes 4 h.entry_size in
      let rest = joined (drop 1 (entry_encoding2 h)) in
      let fits : o + 4 ≤ total (counts vec) =
        omega (arith, held.fits, length-append (le_bytes 4 h.entry_size) rest) in
      let (out, e, w) = message_write_uint32-Wrote vec o size held.ok fits in
      let here : o ≡ o + 0 = omega arith in
      (
        out,
        e,
        Written-replace vec o [] (le_bytes 4 h.entry_size) rest (le_bytes 4 size) out held
            (length-le_bytes 4 size ∙ sym n)
            (subst (λ k. Written vec k (le_bytes 4 size) out) here w),
      )

  element_count-HoldsAt :
      (vec : BufferVec) (o place : ℕ)
      → HoldsAt vec o (joined (entry_encoding2 h))
      → place + 2 ≡ o + length (joined (entry_encoding2 h))
      → (out : BufferVec) × (message_write_uint16 vec place count
          ≡ some (success, out, place + length (le_bytes 2 count)))
        × HoldsAt out o (joined (entry_encoding2 (finished_entry h h.entry_size count)))
  unfolding entry_encoding2
  element_count-HoldsAt vec o place held at =
      let front = joined (take 8 (entry_encoding2 h)) in
      let n = length-le_bytes 2 h.element_count in
      let here : place ≡ o + length front = omega (arith, at, length_elements h) in
      let (out, e, w) =
        message_write_uint16-Wrote vec place count held.ok (omega (arith, at, held.fits)) in
      let new : HoldsAt out o (front ++ (le_bytes 2 count ++ [])) =
        Written-replace vec o front (le_bytes 2 h.element_count) [] (le_bytes 2 count) out
          (subst (λ xs. HoldsAt vec o xs) (split_elements h) held) (length-le_bytes 2 count ∙ sym n)
          (subst (λ k. Written vec k (le_bytes 2 count) out) here w) in
      (
        out,
        e,
        subst (λ xs. HoldsAt out o xs) (sym (split_elements (finished_entry h h.entry_size count)))
            new,
      )

-- What end_entry leaves in the caller's records where it succeeds.
abbrev pub entry_ended : EntryWriter → ElementWriter → BufferVec → ℕ → EntryStep
entry_ended w e bytes size = some (
  success,
  record w {
    buffer = bytes;
    entries_written_count = add_size w.entries_written_count 1;
    entries_written_size = add_size w.entries_written_size size;
    buffer_offset = add_size w.buffer_offset size;
    buffer_count = sub_size w.buffer_count size;
  },
  record e { buffer = bytes },
)

-- Where an entry's version-2 header stands in the buffers and the writer knows its place and that
-- of the number of elements, end_entry puts in the size of the entry, which fits 32 bits, and the
-- number of elements, which fits 16, and a version-2 reader at that place then reads both with
-- all other fields as they stood, into a header with room for its strings.
pub read_entry-end_entry2 :
    (h : EntryConstHeader) (w : EntryWriter) (e : ElementWriter) (o : ℕ) (dest : EntryHeader)
    (info : EntryBufferInfo) (size count remaining count_offset current : ℕ)
    → EntryFits2 h
    → HoldsAt w.buffer o (joined (entry_encoding2 h))
    → w.message_version ≡ 2
    → w.entry_size_offset ≡ o
    → w.element_count_offset + 2 ≡ o + length (joined (entry_encoding2 h))
    → w.entry_header_size + e.elements_written_size ≡ size
    → size < 4294967296
    → e.elements_written_count < 65536
    → EntryHasRoom h dest
    → (bytes : BufferVec) × (out : EntryHeader) × (found : EntryBufferInfo)
      × (messageentry_writer_end_entry w e ≡ entry_ended w e bytes size)
      × (messageentry_reader_read_header_ex
            (reader_at bytes o count remaining count_offset current)
            dest
            info
          ≡ some (success, out, found))
      × EntryCarries2 (finished_entry h size e.elements_written_count) dest out
unfolding messageentry_writer_end_entry write_entry_size messageentry_reader_read_header_ex
read_entry-end_entry2 h w e o dest info size count remaining count_offset current f held two at_size
      at_count sum small few room =
    let n = e.elements_written_count in
    let h1 = finished_entry h size h.element_count in
    let (mid, e1, held1) = entry_size-HoldsAt h size n w.buffer o held in
    let place : w.element_count_offset + 2 ≡ o + length (joined (entry_encoding2 h1)) =
      at_count ∙ ap (λ k. o + k) (sym (finished_entry-length h size h.element_count)) in
    let (bytes, e2, held2) =
      element_count-HoldsAt h1 size n mid o w.element_count_offset held1 place in
    let f' : EntryFits2 (finished_entry h size n) = record {
      size_lt = small;
      type_lt = f.type_lt;
      service = f.service;
      member = f.member;
      request_lt = f.request_lt;
      error_lt = f.error_lt;
      meta = f.meta;
      count_lt = few;
    } in
    let room' : EntryHasRoom (finished_entry h size n) dest = record {
      service = room.service;
      member = room.member;
      meta = room.meta;
    } in
    let reader = reader_at bytes o count remaining count_offset current in
    let (out, at, read, behind, c) =
      read_entry2-HoldsAt (finished_entry h size n) f' reader dest info room' held2 in
    let whole : add_size w.entry_header_size e.elements_written_size % 4294967296 ≡ size =
      omega arith in
    let first : message_write_uint32 w.buffer w.entry_size_offset size
        ≡ some (success, mid, o + length (le_bytes 4 size)) =
      ap (λ k. message_write_uint32 w.buffer k size) at_size ∙ e1 in
    let is_two : (w.message_version == 2) ≡ true = ground arith in
    let same_count : n % 65536 ≡ n = omega arith in
    (bytes, out, _, simp (whole, is_two, first, same_count, e2) refl, read, c)
