-- ===== src/Message/Header/Write4.antt =====
-- A header of version 4 is planned and written, under the mask of begin_message.
use robotraconteurlite.Prelude.{
  ℕ, ◌+◌, ◌≤◌, ◌<◌, ◌≡◌, refl, ap, ◌∙◌, sym, Bool, true, false, some, List, [], ◌∷◌, ◌++◌, arith,
  ◌==◌, if◌then◌else◌, length, joined, subst, sub_size, length-append, drop, take,
}
use mathlib.Core.List.{append-nil}
use robotraconteurlite.Status.{success}
use robotraconteurlite.Array.{BufferVec}
use robotraconteurlite.Array.Layout.{total, counts, IsVec}
use robotraconteurlite.Array.Holds.{Written, Written-append, Written-nothing}
use robotraconteurlite.Array.Numbers.{le_bytes, length-le_bytes}
use robotraconteurlite.Message.Numbers.{message_write_padded_uint_x, uint32_max}
use robotraconteurlite.Message.Numbers.Codec.{encoded_uint_x}
use robotraconteurlite.Message.Numbers.RoundTrip.{message_write_padded_uint_x-Written}
use robotraconteurlite.Message.Steps.{
  bytes_when, write_all-Puts, write_when-Puts, PutsAll, puts_nothing, ◌and_puts◌, length-joined,
}
use robotraconteurlite.Message.Strings.Laws.{write_prefix4-Puts}
use robotraconteurlite.Message.Header.{
  MessageConstHeader, MessageBufferInfo, flags_check, flag_multiple_entries, flag_routing_info,
  flag_endpoint_info, flag_priority, flag_meta_info, flag_string_table, flag_extended,
}
use robotraconteurlite.Message.Header.Read.{size_max}
use robotraconteurlite.Message.Header.Write.{
  wants_routing, wants_endpoint, wants_priority, wants_meta, wants_entries, write4, write_entries4,
  write_planned4, message_writer_write_header4_ex,
}
use robotraconteurlite.Message.Header.Encoding.{
  encoding4, encoding4_in, routing_bytes, endpoint_bytes, meta_bytes, count_bytes, Version4,
}
use robotraconteurlite.Message.Header.Puts.{
  uint8-Puts, uint16-Puts, uint32-Puts, uint_x-Puts, nodeid-Puts, magic-Puts, joined-++,
}
use robotraconteurlite.Message.Header.Flags.{planned_flags_lem}
use robotraconteurlite.Message.Header.Plan.{
  full_mask, Sendable4, absent_routing, absent_endpoint, absent_priority, absent_meta,
  absent_entries, groups_len, wanted_flags, plan4_lem,
}

-- What stands in the buffers after a header has been written.
abbrev pub sent4 : MessageConstHeader → ℕ → MessageConstHeader
sent4 h size = record h {
  message_size = 0;
  message_version = 4;
  header_size = size;
  message_flags = wanted_flags h;
}

pub wanted_flags_lem :
    (h : MessageConstHeader)
    → (flags_check (wanted_flags h) flag_routing_info ≡ wants_routing h full_mask)
      × (flags_check (wanted_flags h) flag_endpoint_info ≡ wants_endpoint h full_mask)
      × (flags_check (wanted_flags h) flag_priority ≡ wants_priority h full_mask)
      × (flags_check (wanted_flags h) flag_meta_info ≡ wants_meta h full_mask)
      × (flags_check (wanted_flags h) flag_multiple_entries ≡ wants_entries h full_mask)
      × (flags_check (wanted_flags h) flag_string_table ≡ false)
      × (flags_check (wanted_flags h) flag_extended ≡ false)
      × (wanted_flags h < 256)
wanted_flags_lem h =
    planned_flags_lem (wants_routing h full_mask) (wants_endpoint h full_mask)
      (wants_priority h full_mask) (wants_meta h full_mask) (wants_entries h full_mask)

-- The number of entries, where it is written.
abbrev pub count_run : Bool → ℕ → List ℕ
count_run b count = bytes_when b ((le_bytes 1 254 ++ le_bytes 4 count) ∷ []) ++ []

pub count_run-true : (count : ℕ) → le_bytes 1 254 ++ le_bytes 4 count ≡ count_run true count
count_run-true count =
    sym (append-nil (le_bytes 1 254 ++ le_bytes 4 count))
    ∙ sym (append-nil ((le_bytes 1 254 ++ le_bytes 4 count) ++ []))

count-Written :
    (vec : BufferVec) (o count : ℕ) (b : Bool)
    → IsVec 1 vec
    → o + length (count_run b count) ≤ total (counts vec)
    → (out : BufferVec) × (place : ℕ) × ((if b
          then message_write_padded_uint_x vec o count
          else some ((success, vec, o), some size_max))
        ≡ some ((success, out, o + length (count_run b count)), some place))
      × (b ≡ true → place + 4 ≡ o + length (count_run b count))
      × (b ≡ false → place ≡ size_max)
      × Written vec o (count_run b count) out
count-Written vec o count true ok fits =
    let same = count_run-true count in
    let (out, e, w) =
      message_write_padded_uint_x-Written vec o count ok
        (subst (λ xs. o + length xs ≤ total (counts vec)) (sym same) fits) in
    let n : length (count_run true count) ≡ 5 =
      ap length (sym same)
      ∙ omega (
        arith,
        length-append (le_bytes 1 254) (le_bytes 4 count),
        length-le_bytes 1 254,
        length-le_bytes 4 count,
      ) in
    (
      out,
      o + 1,
      e ∙ ap (λ xs. some ((success, out, o + length xs), some (o + 1))) same,
      (λ y. omega (arith, n)),
      (λ y. ground arith),
      subst (λ xs. Written vec o xs out) same w,
    )
count-Written vec o count false ok fits =
    let end : o ≡ o + 0 = omega arith in
    (
      vec,
      size_max,
      ap (λ k. some ((success, vec, k), some size_max)) end,
      (λ y. ground arith),
      (λ y. refl),
      Written-nothing vec o ok (omega arith),
    )

module _ (h : MessageConstHeader) (ok4 : Sendable4 h) (size : ℕ)
    (planned : size ≡ 11 + length (encoded_uint_x size) + groups_len h)
    (small : size ≤ uint32_max) where
  length-encoding4 : length (joined (encoding4 (sent4 h size))) ≡ size
  unfolding encoding4_in groups_len routing_bytes endpoint_bytes meta_bytes count_bytes
  length-encoding4 =
      let (b1, b2, b3, b4, b5, b6, b7, lt) = wanted_flags_lem h in
      length-joined (encoding4 (sent4 h size))
      ∙ rw (b1, b2, b3, b4, b5)
          (omega (
            arith,
            planned,
            length-le_bytes 4 0,
            length-le_bytes 2 4,
            length-le_bytes 1 (wanted_flags h),
          ))

  pub sent4-Version4 : Version4 (sent4 h size)
  sent4-Version4 =
      let (b1, b2, b3, b4, b5, b6, b7, lt) = wanted_flags_lem h in
      record {
        fits = record {
          size_lt = omega arith;
          version_lt = omega arith;
          header_size_lt = omega arith;
          flags_lt = lt;
          sender_id = ok4.sender_id;
          receiver_id = ok4.receiver_id;
          sender_lt = ok4.sender_lt;
          receiver_lt = ok4.receiver_lt;
          priority_lt = ok4.priority_lt;
          sender_name = omega (arith, ok4.names);
          receiver_name = omega (arith, ok4.names);
          meta = omega (arith, ok4.names);
          count_lt = ok4.count_lt;
          id_lt = ok4.id_lt;
          res_id_lt = ok4.res_id_lt;
        };
        version = refl;
        size = sym length-encoding4;
        no_routing = λ e. absent_routing h ok4 (sym b1 ∙ e);
        no_endpoint = λ e. absent_endpoint h ok4 (sym b2 ∙ e);
        no_priority = λ e. absent_priority h ok4 (sym b3 ∙ e);
        no_meta = λ e. absent_meta h ok4 (sym b4 ∙ e);
        no_table = b6;
        no_count = λ e. absent_entries h ok4 (sym b5 ∙ e);
        no_extended = b7;
      }

  write4-Puts : PutsAll (write4 h size (wanted_flags h)) (take 9 (encoding4 (sent4 h size)))
  unfolding write4 encoding4_in routing_bytes endpoint_bytes meta_bytes
  write4-Puts =
      magic-Puts
      and_puts uint32-Puts 0
      and_puts uint16-Puts 4
      and_puts uint_x-Puts size
      and_puts uint8-Puts (wanted_flags h)
      and_puts write_when-Puts _ _ _ (λ e.
        nodeid-Puts h.sender_nodeid ok4.sender_id
        and_puts nodeid-Puts h.receiver_nodeid ok4.receiver_id
        and_puts write_prefix4-Puts h.sender_nodename (omega (arith, ok4.names))
        and_puts write_prefix4-Puts h.receiver_nodename (omega (arith, ok4.names))
        and_puts puts_nothing)
      and_puts write_when-Puts _ _ _ (λ e.
        uint_x-Puts h.sender_endpoint
        and_puts uint_x-Puts h.receiver_endpoint
        and_puts puts_nothing)
      and_puts write_when-Puts _ _ _ (λ e. uint16-Puts h.priority and_puts puts_nothing)
      and_puts write_when-Puts _ _ _ (λ e.
        write_prefix4-Puts h.metadata (omega (arith, ok4.names))
        and_puts uint16-Puts h.message_id
        and_puts uint16-Puts h.message_res_id
        and_puts puts_nothing)
      and_puts puts_nothing

  -- The last field.
  entries-Written :
      (vec : BufferVec) (o : ℕ)
      → IsVec 1 vec
      → o + length (joined (drop 9 (encoding4 (sent4 h size)))) ≤ total (counts vec)
      → (out : BufferVec) × (place : ℕ) × (write_entries4 h (wanted_flags h) vec o
          ≡ some
              ((success, out, o + length (joined (drop 9 (encoding4 (sent4 h size))))), some place))
        × (wants_entries h full_mask ≡ true
            → place + 4 ≡ o + length (joined (drop 9 (encoding4 (sent4 h size)))))
        × (wants_entries h full_mask ≡ false → place ≡ size_max)
        × Written vec o (joined (drop 9 (encoding4 (sent4 h size)))) out
  unfolding write_entries4 encoding4_in count_bytes
  entries-Written vec o ok fits =
      let (b1, b2, b3, b4, b5, b6, b7, lt) = wanted_flags_lem h in
      let (out, place, e, set, unset, w) =
        count-Written vec o h.entry_count (flags_check (wanted_flags h) flag_multiple_entries) ok
          fits in
      (out, place, e, (λ y. set (b5 ∙ y)), (λ y. unset (b5 ∙ y)), w)

  split_encoding4 :
      joined (encoding4 (sent4 h size))
      ≡ joined (take 9 (encoding4 (sent4 h size))) ++ joined (drop 9 (encoding4 (sent4 h size)))
  unfolding encoding4_in
  split_encoding4 =
      joined-++ (take 9 (encoding4 (sent4 h size))) (drop 9 (encoding4 (sent4 h size)))

  -- The planned header is written where it fits in the buffers; its size is found right.
  write_planned4-Written :
      (vec : BufferVec) (o : ℕ) (info : MessageBufferInfo)
      → IsVec 1 vec
      → o + size ≤ total (counts vec)
      → (out : BufferVec) × (place : ℕ) × (write_planned4 h size (wanted_flags h) vec o info
          ≡ some (
            success,
            out,
            o + size,
            record h { header_size = size },
            record {
              start_buffer_offset = o;
              header_size = size;
              entry_count_offset = place;
              entry_start_offset = o + size;
            },
          ))
        × (wants_entries h full_mask ≡ true → place + 4 ≡ o + size)
        × (wants_entries h full_mask ≡ false → place ≡ size_max)
        × Written vec o (joined (encoding4 (sent4 h size))) out
  unfolding write_planned4
  write_planned4-Written vec o info ok fits =
      let front : List (List ℕ) = take 9 (encoding4 (sent4 h size)) in
      let back : List (List ℕ) = drop 9 (encoding4 (sent4 h size)) in
      let n : length (joined front) + length (joined back) ≡ size =
        sym (length-append (joined front) (joined back))
        ∙ ap length (sym split_encoding4)
        ∙ length-encoding4 in
      let (mid, e1, w1) = write_all-Puts write4-Puts vec o ok (omega arith) in
      let (out, place, e2, set, unset, w2) =
        entries-Written mid (o + length (joined front)) w1.holds.ok (rw w1.lengths (omega arith)) in
      let end : o + length (joined front) + length (joined back) ≡ o + size = omega arith in
      let right : (sub_size (o + length (joined front) + length (joined back)) o == size) ≡ true =
        ground (arith, ok.elements) in
      (
        out,
        place,
        simp (e1, e2, right)
            (ap
              (λ k. some (
                success,
                out,
                k,
                record h { header_size = size },
                record {
                  start_buffer_offset = o;
                  header_size = size;
                  entry_count_offset = place;
                  entry_start_offset = k;
                },
              ))
              end),
        (λ y. omega (arith, set y)),
        unset,
        subst (λ xs. Written vec o xs out) (sym split_encoding4)
            (Written-append vec o (joined front) mid (joined back) out w1 w2),
      )

-- The whole writer under the mask of begin_message.
pub write_header4_ex-Written :
    (h : MessageConstHeader)
    → Sendable4 h
    → (size : ℕ) × (size
        ≤ length h.sender_nodename + length h.receiver_nodename + length h.metadata + 100)
      × Version4 (sent4 h size)
      × ((vec : BufferVec) (o : ℕ) (info : MessageBufferInfo)
          → IsVec 1 vec
          → o + size ≤ total (counts vec)
          → (out : BufferVec) × (place : ℕ) × (message_writer_write_header4_ex h full_mask vec o
                info
              ≡ some (
                success,
                out,
                o + size,
                record h { header_size = size },
                record {
                  start_buffer_offset = o;
                  header_size = size;
                  entry_count_offset = place;
                  entry_start_offset = o + size;
                },
              ))
            × (wants_entries h full_mask ≡ true → place + 4 ≡ o + size)
            × (wants_entries h full_mask ≡ false → place ≡ size_max)
            × Written vec o (joined (encoding4 (sent4 h size))) out)
unfolding message_writer_write_header4_ex
write_header4_ex-Written h ok4 =
    let (size, e, planned, short) = plan4_lem h ok4 in
    let small : size ≤ uint32_max = omega (arith, ok4.names) in
    (
      size,
      short,
      sent4-Version4 h ok4 size planned small,
      λ vec o info ok fits.
          let (out, place, e', set, unset, w) =
            write_planned4-Written h ok4 size planned small vec o info ok fits in
          (out, place, simp e e', set, unset, w),
    )
