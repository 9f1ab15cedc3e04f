-- ===== src/Message/Header/Write2.antt =====
-- A header of version 2 is written with its size, and a header that cannot be is refused.
use robotraconteurlite.Prelude.{
  ℕ, ◌+◌, ◌-◌, ◌%◌, ◌≤◌, ◌<◌, ◌≡◌, refl, ap, ◌∙◌, sym, false, some, List, ◌++◌, arith, ltb, length,
  joined, subst, length-append, drop, take,
}
use robotraconteurlite.Status.{success}
use robotraconteurlite.Array.{BufferVec}
use robotraconteurlite.Array.Layout.{total, counts, IsVec}
use robotraconteurlite.Array.Holds.{Written, Written-append}
use robotraconteurlite.Array.Numbers.{le_bytes, length-le_bytes}
use robotraconteurlite.Message.Numbers.{uint16_max}
use robotraconteurlite.Message.Steps.{
  write_all-Puts, PutsAll, length-joined, ◌and_puts◌, puts_nothing,
}
use robotraconteurlite.Message.Strings.{nodeid_size}
use robotraconteurlite.Message.Strings.Laws.{write_prefix2-Puts}
use robotraconteurlite.Message.Header.{MessageConstHeader, MessageBufferInfo, flags_version2compat}
use robotraconteurlite.Message.Header.Write.{
  strings_len, too_long2, header_size2, write2, write_ids2, message_writer_write_header2_ex,
}
use robotraconteurlite.Message.Header.Encoding.{encoding2, Version2}
use robotraconteurlite.Message.Header.Puts.{
  uint16-Puts, uint32-Puts, nodeid-Puts, magic-Puts, joined-++,
}

-- What stands in the buffers after a header has been written: the size of the message is put in
-- when it ends.
abbrev pub sent2 : MessageConstHeader → MessageConstHeader
sent2 h = record h {
  message_size = 0;
  message_version = 2;
  header_size = header_size2 h;
  message_flags = flags_version2compat;
  priority = 0;
}

-- A header that version 2 can carry.
pub record Sendable2 (h : MessageConstHeader) : Type 0 where
  pub sender_id : length h.sender_nodeid ≡ nodeid_size
  pub receiver_id : length h.receiver_nodeid ≡ nodeid_size
  pub sender_lt : h.sender_endpoint < 4294967296
  pub receiver_lt : h.receiver_endpoint < 4294967296
  pub names :
      length h.sender_nodename + length h.receiver_nodename + length h.metadata + 64 ≤ uint16_max
  pub count_16 : h.entry_count < 65536
  pub id_lt : h.message_id < 65536
  pub res_id_lt : h.message_res_id < 65536

module _ (h : MessageConstHeader) (ok2 : Sendable2 h) where
  size2 :
      header_size2 h
      ≡ length h.sender_nodename + length h.receiver_nodename + length h.metadata + 64
  unfolding header_size2 strings_len
  size2 = omega (arith, ok2.names)

  not_too_long2 : too_long2 h ≡ false
  unfolding too_long2 strings_len
  not_too_long2 = ground (arith, ok2.names)

  length-encoding2 : length (joined (encoding2 (sent2 h))) ≡ header_size2 h
  unfolding encoding2
  length-encoding2 =
      let e1 = length-append (le_bytes 2 (length h.sender_nodename)) h.sender_nodename in
      let e2 = length-append (le_bytes 2 (length h.receiver_nodename)) h.receiver_nodename in
      let e3 = length-append (le_bytes 2 (length h.metadata)) h.metadata in
      omega (
        arith,
        length-joined (encoding2 (sent2 h)),
        size2,
        ok2.sender_id,
        ok2.receiver_id,
        length-le_bytes 4 0,
        length-le_bytes 2 2,
        length-le_bytes 2 (header_size2 h),
        length-le_bytes 4 h.sender_endpoint,
        length-le_bytes 4 h.receiver_endpoint,
        length-le_bytes 2 (length h.sender_nodename),
        length-le_bytes 2 (length h.receiver_nodename),
        length-le_bytes 2 (length h.metadata),
        length-le_bytes 2 h.entry_count,
        length-le_bytes 2 h.message_id,
        length-le_bytes 2 h.message_res_id,
      )

  pub sent2-Version2 : Version2 (sent2 h)
  sent2-Version2 = record {
    fits = record {
      size_lt = omega arith;
      version_lt = omega arith;
      header_size_lt = omega (arith, size2, ok2.names);
      flags_lt = omega arith;
      sender_id = ok2.sender_id;
      receiver_id = ok2.receiver_id;
      sender_lt = ok2.sender_lt;
      receiver_lt = ok2.receiver_lt;
      priority_lt = omega arith;
      sender_name = omega (arith, ok2.names);
      receiver_name = omega (arith, ok2.names);
      meta = omega (arith, ok2.names);
      count_lt = omega (arith, ok2.count_16);
      id_lt = ok2.id_lt;
      res_id_lt = ok2.res_id_lt;
    };
    version = refl;
    size = sym length-encoding2;
    size_16 = omega (arith, size2, ok2.names);
    flags = refl;
    priority = refl;
    count_16 = ok2.count_16;
  }

  write2-Puts : PutsAll (write2 h) (take 11 (encoding2 (sent2 h)))
  unfolding write2 encoding2
  write2-Puts =
      magic-Puts
      and_puts uint32-Puts 0
      and_puts uint16-Puts 2
      and_puts uint16-Puts (header_size2 h)
      and_puts nodeid-Puts h.sender_nodeid ok2.sender_id
      and_puts nodeid-Puts h.receiver_nodeid ok2.receiver_id
      and_puts uint32-Puts h.sender_endpoint
      and_puts uint32-Puts h.receiver_endpoint
      and_puts write_prefix2-Puts h.sender_nodename (omega (arith, ok2.names))
      and_puts write_prefix2-Puts h.receiver_nodename (omega (arith, ok2.names))
      and_puts write_prefix2-Puts h.metadata (omega (arith, ok2.names))
      and_puts puts_nothing

  write_ids2-Puts : PutsAll (write_ids2 h) (drop 11 (encoding2 (sent2 h)))
  unfolding write_ids2 encoding2
  write_ids2-Puts =
      let same : h.entry_count % 65536 ≡ h.entry_count = omega (arith, ok2.count_16) in
      rw same (uint16-Puts h.entry_count)
      and_puts uint16-Puts h.message_id
      and_puts uint16-Puts h.message_res_id
      and_puts puts_nothing

  split_encoding2 :
      joined (encoding2 (sent2 h))
      ≡ joined (take 11 (encoding2 (sent2 h))) ++ joined (drop 11 (encoding2 (sent2 h)))
  unfolding encoding2
  split_encoding2 = joined-++ (take 11 (encoding2 (sent2 h))) (drop 11 (encoding2 (sent2 h)))

  length_back : length (joined (drop 11 (encoding2 (sent2 h)))) ≡ 6
  unfolding encoding2
  length_back = omega (
    arith,
    length-joined (drop 11 (encoding2 (sent2 h))),
    length-le_bytes 2 h.entry_count,
    length-le_bytes 2 h.message_id,
    length-le_bytes 2 h.message_res_id,
  )

  -- Where the header fits in the buffers it is written at the offset, and every other byte is kept.
  pub write_header2_ex-Written :
      (vec : BufferVec) (o : ℕ) (info : MessageBufferInfo)
      → IsVec 1 vec
      → o + header_size2 h ≤ total (counts vec)
      → (out : BufferVec) × (place : ℕ) × (message_writer_write_header2_ex h vec o info
          ≡ some (
            success,
            out,
            o + header_size2 h,
            record h { header_size = header_size2 h },
            record {
              start_buffer_offset = o;
              header_size = header_size2 h;
              entry_count_offset = place;
              entry_start_offset = o + header_size2 h;
            },
          ))
        × (place ≡ o + header_size2 h - 6)
        × Written vec o (joined (encoding2 (sent2 h))) out
  unfolding message_writer_write_header2_ex
  write_header2_ex-Written vec o info ok fits =
      let front : List (List ℕ) = take 11 (encoding2 (sent2 h)) in
      let back : List (List ℕ) = drop 11 (encoding2 (sent2 h)) in
      let whole : joined (encoding2 (sent2 h)) ≡ joined front ++ joined back = split_encoding2 in
      let n : length (joined front) + length (joined back) ≡ header_size2 h =
        sym (length-append (joined front) (joined back))
        ∙ ap length (sym whole)
        ∙ length-encoding2 in
      let (mid, e1, w1) = write_all-Puts write2-Puts vec o ok (omega arith) in
      let (out, e2, w2) =
        write_all-Puts write_ids2-Puts mid (o + length (joined front)) w1.holds.ok
          (rw w1.lengths (omega arith)) in
      let end : o + length (joined front) + length (joined back) ≡ o + header_size2 h =
        omega arith in
      let small : ltb uint16_max h.entry_count ≡ false = ground (arith, ok2.count_16) in
      (
        out,
        o + length (joined front),
        simp (not_too_long2, e1, small, e2)
            (ap
              (λ k. some (
                success,
                out,
                k,
                record h { header_size = header_size2 h },
                record {
                  start_buffer_offset = o;
                  header_size = header_size2 h;
                  entry_count_offset = o + length (joined front);
                  entry_start_offset = k;
                },
              ))
              end),
        omega (arith, length_back),
        subst (λ xs. Written vec o xs out) (sym whole)
            (Written-append vec o (joined front) mid (joined back) out w1 w2),
      )
