-- ===== src/Message/Header/Refusals.antt =====
-- Headers that are refused, and the flag that no planned header has.
use robotraconteurlite.Prelude.{
  ℕ, ◌+◌, ◌<◌, ◌≡◌, ◌≢◌, refl, ap, ◌∙◌, true, false, some, arith, ◌==◌, ltb, length, add_size,
  size_mod,
}
use robotraconteurlite.Status.{protocol, out_of_range, success}
use robotraconteurlite.Array.{BufferVec}
use robotraconteurlite.Array.Holds.{HoldsAt}
use robotraconteurlite.Array.Numbers.{le_bytes, length-le_bytes}
use robotraconteurlite.Message.Numbers.{uint16_max, message_read_uint16}
use robotraconteurlite.Message.Numbers.Fields.{message_read_uint16-HoldsAt}
use robotraconteurlite.Message.Header.{
  MessageHeader, MessageConstHeader, MessageReader, MessageBufferInfo, flags_check, flag_unreliable,
}
use robotraconteurlite.Message.Header.Read.{
  message_reader_read_header, message_reader_read_header_ex,
}
use robotraconteurlite.Message.Header.Write.{
  strings_len, too_long2, message_writer_write_header2_ex, plan4, wants_routing, wants_endpoint,
  wants_priority, wants_meta, wants_entries,
}
use robotraconteurlite.Message.Header.Flags.{planned_unreliable}
use robotraconteurlite.Message.Header.Plan.{full_mask, Sendable4, plan4_lem}

-- A message of a version that is neither 2 nor 4 is refused by read_header with PROTOCOL: only
-- the version of the caller's header is set, and the reader stays as it was.
pub read_header_other_version :
    (reader : MessageReader) (dest : MessageHeader) (info : MessageBufferInfo) (v : ℕ)
    → v < 65536
    → v ≢ 2
    → v ≢ 4
    → HoldsAt reader.buffer (reader.buffer_offset + 8) (le_bytes 2 v)
    → message_reader_read_header reader dest info
      ≡ some (protocol, record dest { message_version = v }, reader)
unfolding message_reader_read_header message_reader_read_header_ex
read_header_other_version reader dest info v lt not_two not_four held =
    let at : add_size reader.buffer_offset 8 ≡ reader.buffer_offset + 8 =
      omega (arith, held.fits, held.ok.elements, length-le_bytes 2 v) in
    let r : message_read_uint16 reader.buffer (add_size reader.buffer_offset 8) dest.message_version
        ≡ some (success, reader.buffer_offset + 8 + 2, v) =
      ap (λ k. message_read_uint16 reader.buffer k dest.message_version) at
      ∙ message_read_uint16-HoldsAt reader.buffer (reader.buffer_offset + 8) v dest.message_version
          lt held in
    let two : (v == 2) ≡ false = ground arith in
    let four : (v == 4) ≡ false = ground arith in simp (r, two, four)

-- A header whose three strings take more than 65471 bytes, in a sum that does not wrap, is
-- refused by the version-2 writer with OUT_OF_RANGE before anything is written.
pub write_header2_ex_too_long :
    (h : MessageConstHeader) (vec : BufferVec) (o : ℕ) (info : MessageBufferInfo)
    → uint16_max < length h.sender_nodename + length h.receiver_nodename + length h.metadata + 64
    → length h.sender_nodename + length h.receiver_nodename + length h.metadata + 64 < size_mod
    → message_writer_write_header2_ex h vec o info ≡ some (out_of_range, vec, o, h, info)
unfolding message_writer_write_header2_ex too_long2 strings_len
write_header2_ex_too_long h vec o info long small =
    let far : ltb uint16_max (
          add_size
            (add_size (add_size (length h.sender_nodename) (length h.receiver_nodename))
              (length h.metadata))
            64)
        ≡ true =
      ground (arith, long, small) in
    let refused : too_long2 h ≡ true = ground (arith, far) in simp refused

-- For a header that version 4 can carry, the plan under the mask of begin_message, which has the
-- flag UNRELIABLE, succeeds without that flag.
pub plan4_unreliable :
    (h : MessageConstHeader)
    → Sendable4 h
    → ((plan4 h full_mask).0 ≡ success)
      × (flags_check full_mask flag_unreliable ≡ true)
      × (flags_check (plan4 h full_mask).2 flag_unreliable ≡ false)
plan4_unreliable h ok =
    let (size, e, planned, short) = plan4_lem h ok in
    (
      ap (λ p. p.0) e,
      refl,
      ap (λ p. flags_check p.2 flag_unreliable) e
          ∙ planned_unreliable (wants_routing h full_mask) (wants_endpoint h full_mask)
              (wants_priority h full_mask) (wants_meta h full_mask) (wants_entries h full_mask),
    )
