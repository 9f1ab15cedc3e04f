-- ===== src/Message/Header/End.antt =====
-- The end of a message of version 4: its size and the number of its entries are put into the header
-- that stands in the buffers, and the header is then read with both.
use robotraconteurlite.Prelude.{
  ℕ, ◌+◌, ◌%◌, ◌≤◌, ◌<◌, ◌≡◌, ap, ◌∙◌, sym, true, false, some, [], ◌++◌, arith, ◌==◌, ltb, length,
  joined, add_size, subst, length-append, take, drop,
}
use mathlib.Core.List.{append-nil, append_assoc}
use robotraconteurlite.Prelude.Magic.{rrac_magic}
use robotraconteurlite.Status.{success}
use robotraconteurlite.Array.{BufferVec}
use robotraconteurlite.Array.Layout.{total, counts}
use robotraconteurlite.Array.Holds.{HoldsAt, Written, Written-replace}
use robotraconteurlite.Array.Numbers.{
  le_bytes, length-le_bytes, copy_from_uint32, copy_from_number-Written,
}
use robotraconteurlite.Message.Numbers.{message_write_padded_uint_x_val, uint32_max}
use robotraconteurlite.Message.Steps.{length-joined}
use robotraconteurlite.Message.Header.{
  MessageHeader, MessageConstHeader, MessageReader, MessageBufferInfo, flags_check,
  flag_multiple_entries,
}
use robotraconteurlite.Message.Header.Read.{size_max, message_reader_read_header}
use robotraconteurlite.Message.Header.Write.{
  MessageWriter, EntryWriter, message_writer_end_message, write_entry_count,
}
use robotraconteurlite.Message.Header.Encoding.{
  encoding4, encoding4_in, routing_bytes, endpoint_bytes, meta_bytes, count_bytes, Version4,
  HasRoom, Carries,
}
use robotraconteurlite.Message.Header.Puts.{joined-++}
use robotraconteurlite.Message.Header.Write4.{count_run-true}
use robotraconteurlite.Message.Header.RoundTrip.{read_header-Version4}

-- The header with the size and the number of entries of the whole message.
abbrev pub finished : MessageConstHeader → ℕ → ℕ → MessageConstHeader
finished h size count = record h { message_size = size; entry_count = count }

module _ (h : MessageConstHeader)
    (counted : flags_check h.message_flags flag_multiple_entries ≡ true) where
  -- The last four bytes are the number of entries.
  split_count :
      joined (encoding4 h)
      ≡ (joined (take 9 (encoding4 h)) ++ le_bytes 1 254) ++ (le_bytes 4 h.entry_count ++ [])
  unfolding encoding4_in count_bytes
  split_count =
      let front = joined (take 9 (encoding4 h)) in
      let last : joined (drop 9 (encoding4 h)) ≡ le_bytes 1 254 ++ le_bytes 4 h.entry_count =
        rw counted (sym (count_run-true h.entry_count)) in
      joined-++ (take 9 (encoding4 h)) (drop 9 (encoding4 h))
      ∙ ap (λ t. front ++ t) last
      ∙ sym (append_assoc front (le_bytes 1 254) (le_bytes 4 h.entry_count))
      ∙ ap (λ t. (front ++ le_bytes 1 254) ++ t) (sym (append-nil (le_bytes 4 h.entry_count)))

module _ (h : MessageConstHeader)
    (counted : flags_check h.message_flags flag_multiple_entries ≡ true) (size count : ℕ) where
  -- The size does not change how long the header is, and neither does the number of entries.
  finished-length :
      length (joined (encoding4 (finished h size count))) ≡ length (joined (encoding4 h))
  unfolding encoding4_in routing_bytes endpoint_bytes meta_bytes
  finished-length =
      let n = length-le_bytes 4 size in
      let n' = length-le_bytes 4 h.message_size in
      let m = length-le_bytes 4 count in
      let m' = length-le_bytes 4 h.entry_count in
      let a = ap length (split_count h counted) in
      let b = ap length (split_count (finished h size count) counted) in
      let front = joined (take 9 (encoding4 h)) in
      let front' = joined (take 9 (encoding4 (finished h size count))) in
      let same : length front' ≡ length front = omega (
        arith,
        length-joined (take 9 (encoding4 h)),
        length-joined (take 9 (encoding4 (finished h size count))),
      ) in
      omega (
        arith,
        length-append (front ++ le_bytes 1 254) (le_bytes 4 h.entry_count ++ []),
        length-append (front' ++ le_bytes 1 254) (le_bytes 4 count ++ []),
        length-append front (le_bytes 1 254),
        length-append front' (le_bytes 1 254),
        length-append (le_bytes 4 h.entry_count) [],
        length-append (le_bytes 4 count) [],
      )

  finished-Version4 :
      Version4 h → size < 4294967296 → count < 4294967296 → Version4 (finished h size count)
  finished-Version4 v4 size_lt count_lt =
      let f = v4.fits in
      record {
        fits = record {
          size_lt = size_lt;
          version_lt = f.version_lt;
          header_size_lt = f.header_size_lt;
          flags_lt = f.flags_lt;
          sender_id = f.sender_id;
          receiver_id = f.receiver_id;
          sender_lt = f.sender_lt;
          receiver_lt = f.receiver_lt;
          priority_lt = f.priority_lt;
          sender_name = f.sender_name;
          receiver_name = f.receiver_name;
          meta = f.meta;
          count_lt = count_lt;
          id_lt = f.id_lt;
          res_id_lt = f.res_id_lt;
        };
        version = v4.version;
        size = v4.size ∙ sym finished-length;
        no_routing = v4.no_routing;
        no_endpoint = v4.no_endpoint;
        no_priority = v4.no_priority;
        no_meta = v4.no_meta;
        no_table = v4.no_table;
        no_count = λ e. absurd (ground (arith, counted, e));
        no_extended = v4.no_extended;
      }

  -- The size is written behind the magic.
  size-HoldsAt :
      (vec : BufferVec) (o : ℕ)
      → HoldsAt vec o (joined (encoding4 h))
      → (out : BufferVec) × (copy_from_uint32 vec (o + 4) size ≡ some (success, out))
        × HoldsAt out o (joined (encoding4 (finished h size h.entry_count)))
        × (counts out ≡ counts vec)
  unfolding encoding4_in copy_from_uint32 routing_bytes endpoint_bytes meta_bytes count_bytes
  size-HoldsAt vec o held =
      let n = length-le_bytes 4 h.message_size in
      let rest = joined (drop 2 (encoding4 h)) in
      let fits : o + 4 + 4 ≤ total (counts vec) = omega (
        arith,
        held.fits,
        length-append rrac_magic (le_bytes 4 h.message_size ++ rest),
        length-append (le_bytes 4 h.message_size) rest,
      ) in
      let (out, e, w) =
        copy_from_number-Written 4 (omega arith) (omega arith) vec (o + 4) size held.ok fits in
      (
        out,
        e,
        Written-replace vec o rrac_magic (le_bytes 4 h.message_size) rest (le_bytes 4 size) out held
            (length-le_bytes 4 size ∙ sym n) w,
        w.lengths,
      )

  -- The number of entries is written over the last four bytes.
  count-HoldsAt :
      (vec : BufferVec) (o place : ℕ)
      → HoldsAt vec o (joined (encoding4 h))
      → place + 4 ≡ o + length (joined (encoding4 h))
      → (out : BufferVec) × (copy_from_uint32 vec place count ≡ some (success, out))
        × HoldsAt out o (joined (encoding4 (finished h h.message_size count)))
  unfolding encoding4_in copy_from_uint32 routing_bytes endpoint_bytes meta_bytes count_bytes
  count-HoldsAt vec o place held at =
      let front = joined (take 9 (encoding4 h)) ++ le_bytes 1 254 in
      let n = length-le_bytes 4 h.entry_count in
      let whole : length (joined (encoding4 h)) ≡ length front + 4 =
        ap length (split_count h counted)
        ∙ omega (
          arith,
          length-append front (le_bytes 4 h.entry_count ++ []),
          length-append (le_bytes 4 h.entry_count) [],
        ) in
      let here : place ≡ o + length front = omega (arith, at, whole) in
      let (out, e, w) =
        copy_from_number-Written 4 (omega arith) (omega arith) vec place count held.ok
          (omega (arith, at, held.fits)) in
      let new : HoldsAt out o (front ++ (le_bytes 4 count ++ [])) =
        Written-replace vec o front (le_bytes 4 h.entry_count) [] (le_bytes 4 count) out
          (subst (λ xs. HoldsAt vec o xs) (split_count h counted) held)
          (length-le_bytes 4 count ∙ sym n)
          (subst (λ k. Written vec k (le_bytes 4 count) out) here w) in
      (
        out,
        e,
        subst (λ xs. HoldsAt out o xs) (sym (split_count (finished h h.message_size count) counted))
            new,
      )

-- Where a version-4 header with a number of entries stands in the buffers, the writer knows the
-- places of its message size and of that number, and the caller's header has the header size of
-- the one that stands there, end_message puts in the size and the number of the entries written,
-- which both fit 32 bits, the size together with the header, and read_header then reads both with
-- all other fields as they stood, into a header with room for its node ids and strings.
pub read_header-end_message :
    (h : MessageConstHeader) (w : MessageWriter) (caller : MessageConstHeader)
    (entries : EntryWriter) (o : ℕ) (dest : MessageHeader) (info : MessageBufferInfo)
    (count version : ℕ)
    → Version4 h
    → flags_check h.message_flags flag_multiple_entries ≡ true
    → HoldsAt w.buffer o (joined (encoding4 h))
    → w.message_version ≡ 4
    → w.message_size_offset ≡ o + 4
    → w.entry_count_offset + 4 ≡ o + h.header_size
    → caller.header_size ≡ h.header_size
    → entries.entries_written_size + h.header_size ≤ uint32_max
    → entries.entries_written_count < 4294967296
    → HasRoom h dest
    → (bytes : BufferVec) × (out : MessageHeader) × (message_writer_end_message w caller entries
        ≡ some (
          success,
          record w { buffer = bytes },
          finished caller
              (entries.entries_written_size + h.header_size)
              entries.entries_written_count,
          record entries { buffer = bytes },
        ))
      × (message_reader_read_header
            (record {
              buffer = bytes;
              buffer_offset = o;
              buffer_count = count;
              message_version = version;
            })
            dest
            info
          ≡ some (
            success,
            out,
            record { buffer = bytes; buffer_offset = o; buffer_count = count; message_version = 4 },
          ))
      × Carries
          (finished h (entries.entries_written_size + h.header_size) entries.entries_written_count)
          out
unfolding message_writer_end_message write_entry_count message_write_padded_uint_x_val
read_header-end_message h w caller entries o dest info count version v4 counted held four at_size
      at_count same small few room =
    let size = entries.entries_written_size + h.header_size in
    let n = entries.entries_written_count in
    let h1 = finished h size h.entry_count in
    let (mid, e1, held1, len1) = size-HoldsAt h counted size n w.buffer o held in
    let place : w.entry_count_offset + 4 ≡ o + length (joined (encoding4 h1)) =
      at_count ∙ ap (λ k. o + k) (v4.size ∙ sym (finished-length h counted size h.entry_count)) in
    let (bytes, e2, held2) =
      count-HoldsAt h1 counted size n mid o w.entry_count_offset held1 place in
    let reader : MessageReader = record {
      buffer = bytes;
      buffer_offset = o;
      buffer_count = count;
      message_version = version;
    } in
    let room' : HasRoom (finished h size n) dest = record {
      sender_id = room.sender_id;
      receiver_id = room.receiver_id;
      sender = room.sender;
      receiver = room.receiver;
      meta = room.meta;
    } in
    let (out, r, c) =
      read_header-Version4 (finished h size n) reader dest info room'
        (finished-Version4 h counted size n v4 (omega arith) few) held2 in
    let whole : add_size entries.entries_written_size caller.header_size ≡ size = omega arith in
    let fits : ltb uint32_max size ≡ false = ground arith in
    let first : copy_from_uint32 w.buffer w.message_size_offset size ≡ some (success, mid) =
      ap (λ k. copy_from_uint32 w.buffer k size) at_size ∙ e1 in
    let counts_at : (w.entry_count_offset == size_max) ≡ false =
      ground (arith, held.fits, held.ok.elements, v4.size) in
    let not_two : (w.message_version == 2) ≡ false = ground arith in
    let is_four : (w.message_version == 4) ≡ true = ground arith in
    let same_count : n % 4294967296 ≡ n = omega arith in
    (bytes, out, simp (whole, fits, first, counts_at, not_two, is_four, same_count, e2), r, c)
