-- ===== src/Message/Header/Read2.antt =====
-- A header of version 2 that stands in the buffers is read as it is.
use robotraconteurlite.Prelude.{
  ℕ, ◌+◌, ◌<◌, ◌≡◌, refl, ap, ◌∙◌, sym, some, arith, length, joined, add_size, sub_size,
  length-append, drop,
}
use robotraconteurlite.Prelude.Magic.{rrac_magic}
use robotraconteurlite.Status.{success}
use robotraconteurlite.Array.{BufferVec}
use robotraconteurlite.Array.Holds.{HoldsAt}
use robotraconteurlite.Array.Numbers.{le_bytes}
use robotraconteurlite.Message.Steps.{
  run, Reads, done, run-Reads, HoldsAll, HoldsAt-joined, length-joined, ◌and_then◌,
}
use robotraconteurlite.Message.Strings.{HeaderString}
use robotraconteurlite.Message.Strings.Laws.{Received, Room}
use robotraconteurlite.Message.Header.{
  MessageHeader, MessageConstHeader, MessageReader, MessageBufferInfo, flags_version2compat,
}
use robotraconteurlite.Message.Header.Read.{
  HeaderRead, read_start, fields2, strings2, message_reader_read_header2_ex,
}
use robotraconteurlite.Message.Header.Fields.{
  into_uint16, into_uint32, into_copy_uint16, keep_nodeid, keep_prefix2, Placed, prefix-Placed,
  read_end-run, string_step-Placed,
}
use robotraconteurlite.Message.Header.Encoding.{encoding2, Version2, HasRoom, Carries}

-- The caller's header before its strings are read.
abbrev gathered2 : MessageConstHeader → MessageHeader → MessageHeader
gathered2 h dest = record dest {
  message_size = h.message_size;
  message_version = h.message_version;
  header_size = h.header_size;
  sender_nodeid = h.sender_nodeid;
  receiver_nodeid = h.receiver_nodeid;
  sender_endpoint = h.sender_endpoint;
  receiver_endpoint = h.receiver_endpoint;
  entry_count = h.entry_count;
  message_id = h.message_id;
  message_res_id = h.message_res_id;
}

-- What the first pass finds, by the bytes of the header.
record Gathered (vec : BufferVec) (h : MessageConstHeader) (s u : HeaderRead) : Type 0 where
  header : u.header ≡ gathered2 h s.header
  sender : Placed vec h.sender_nodename u.sender_nodename_info
  receiver : Placed vec h.receiver_nodename u.receiver_nodename_info
  meta : Placed vec h.metadata u.meta_info
  start : u.buffer_info.start_buffer_offset ≡ s.buffer_info.start_buffer_offset
  size : u.buffer_info.header_size ≡ h.header_size

module _ (vec : BufferVec) (o : ℕ) (h : MessageConstHeader) (v2 : Version2 h) where
  names_small :
      (length h.sender_nodename < 65536)
      × (length h.receiver_nodename < 65536)
      × (length h.metadata < 65536)
  unfolding encoding2
  names_small =
      let n = length-joined (encoding2 h) in
      let n1 = length-append (le_bytes 2 (length h.sender_nodename)) h.sender_nodename in
      let n2 = length-append (le_bytes 2 (length h.receiver_nodename)) h.receiver_nodename in
      let n3 = length-append (le_bytes 2 (length h.metadata)) h.metadata in
      (
        omega (arith, v2.size, v2.size_16),
        omega (arith, v2.size, v2.size_16),
        omega (arith, v2.size, v2.size_16),
      )

  fields2-Reads :
      (s : HeaderRead)
      → HasRoom h s.header
      → HoldsAll vec o (encoding2 h)
      → (u : HeaderRead) × Reads vec fields2 (o + 4) (drop 1 (encoding2 h)) s u × Gathered vec h s u
  unfolding fields2 encoding2
  fields2-Reads s room
        (
          magic,
          (a1, (a2, (a3, (a4, (a5, (a6, (a7, (a8, (a9, (a10, (a11, (a12, (a13, _))))))))))))),
        ) =
      let f = v2.fits in
      let (n1, n2, n3) = names_small in
      (
        _,
        into_uint32 vec (o + 4) h.message_size _ _ f.size_lt a1
            and_then into_uint16 vec _ h.message_version _ _ f.version_lt a2
            and_then into_copy_uint16 vec _ h.header_size _ _ v2.size_16 a3
            and_then keep_nodeid vec _ h.sender_nodeid _ _ f.sender_id room.sender_id a4
            and_then keep_nodeid vec _ h.receiver_nodeid _ _ f.receiver_id room.receiver_id a5
            and_then into_uint32 vec _ h.sender_endpoint _ _ f.sender_lt a6
            and_then into_uint32 vec _ h.receiver_endpoint _ _ f.receiver_lt a7
            and_then keep_prefix2 vec _ h.sender_nodename _ _ n1 a8
            and_then keep_prefix2 vec _ h.receiver_nodename _ _ n2 a9
            and_then keep_prefix2 vec _ h.metadata _ _ n3 a10
            and_then into_copy_uint16 vec _ h.entry_count _ _ v2.count_16 a11
            and_then into_uint16 vec _ h.message_id _ _ f.id_lt a12
            and_then into_uint16 vec _ h.message_res_id _ _ f.res_id_lt a13
            and_then done,
        record {
          header = refl;
          sender = prefix-Placed vec _ (le_bytes 2 (length h.sender_nodename)) h.sender_nodename a8;
          receiver =
              prefix-Placed vec _ (le_bytes 2 (length h.receiver_nodename)) h.receiver_nodename a9;
          meta = prefix-Placed vec _ (le_bytes 2 (length h.metadata)) h.metadata a10;
          start = refl;
          size = refl;
        },
      )

  -- The second pass.
  strings2-run :
      (p : ℕ) (u : HeaderRead)
      → Placed vec h.sender_nodename u.sender_nodename_info
      → Placed vec h.receiver_nodename u.receiver_nodename_info
      → Placed vec h.metadata u.meta_info
      → Room u.header.sender_nodename (length h.sender_nodename)
      → Room u.header.receiver_nodename (length h.receiver_nodename)
      → Room u.header.metadata (length h.metadata)
      → (x y z : HeaderString) × (run strings2 vec p u
          ≡ some (
            success,
            p,
            record u {
              header = record u.header { sender_nodename = x; receiver_nodename = y; metadata = z };
            },
          ))
        × Received h.sender_nodename x
        × Received h.receiver_nodename y
        × Received h.metadata z
  unfolding strings2
  strings2-run p u p1 p2 p3 r1 r2 r3 =
      let (x, e1, c1) =
        string_step-Placed vec p h.sender_nodename (λ s. s.sender_nodename_info)
          (λ d. d.sender_nodename) (λ t d. record d { sender_nodename = t }) u p1 r1 in
      let u1 : HeaderRead = record u { header = record u.header { sender_nodename = x } } in
      let (y, e2, c2) =
        string_step-Placed vec p h.receiver_nodename (λ s. s.receiver_nodename_info)
          (λ d. d.receiver_nodename) (λ t d. record d { receiver_nodename = t }) u1 p2 r2 in
      let u2 : HeaderRead = record u1 { header = record u1.header { receiver_nodename = y } } in
      let (z, e3, c3) =
        string_step-Placed vec p h.metadata (λ s. s.meta_info) (λ d. d.metadata)
          (λ t d. record d { metadata = t }) u2 p3 r3 in
      (x, y, z, rw (e1, e2, e3) refl, c1, c2, c3)

-- A version-2 header whose bytes stand at the reader's offset is read with every field into a
-- header with room for its strings; the entries start behind its size.
pub read_header2_ex-HoldsAt :
    (h : MessageConstHeader)
    → Version2 h
    → (reader : MessageReader) (dest : MessageHeader) (info : MessageBufferInfo) → HasRoom h dest
    → HoldsAt reader.buffer reader.buffer_offset (joined (encoding2 h))
    → (out : MessageHeader) × (found : MessageBufferInfo) × (message_reader_read_header2_ex reader
          dest info
        ≡ some (success, out, found))
      × Carries h out
      × (found.start_buffer_offset ≡ reader.buffer_offset)
      × (found.header_size ≡ h.header_size)
      × (found.entry_start_offset ≡ reader.buffer_offset + h.header_size)
unfolding message_reader_read_header2_ex encoding2
read_header2_ex-HoldsAt h v2 reader dest info room held =
    let o = reader.buffer_offset in
    let vec = reader.buffer in
    let all = HoldsAt-joined vec o (encoding2 h) held in
    let s : HeaderRead = read_start reader dest info in
    let (u, r, g) = fields2-Reads vec o h v2 s room all in
    let behind : o + 4 + length (joined (drop 1 (encoding2 h))) ≡ o + h.header_size =
      omega (arith, v2.size, length-append rrac_magic (joined (drop 1 (encoding2 h)))) in
    let from : add_size o 4 ≡ o + 4 = omega (arith, held.fits, held.ok.elements, behind, v2.size) in
    let first : run fields2 vec (add_size o 4) s ≡ some (success, o + h.header_size, u) =
      ap (λ k. run fields2 vec k s) from ∙ run-Reads r ∙ ap (λ k. some (success, k, u)) behind in
    let (x, y, z, e, c1, c2, c3) =
      strings2-run vec o h v2 (o + h.header_size) u g.sender g.receiver g.meta
        (rw g.header room.sender) (rw g.header room.receiver) (rw g.header room.meta) in
    let size : sub_size (o + h.header_size) o ≡ u.header.header_size =
      omega (arith, ap (λ d. d.header_size) g.header, held.fits, held.ok.elements, v2.size) in
    let out : MessageHeader = record u.header {
      sender_nodename = x;
      receiver_nodename = y;
      metadata = z;
      message_flags = flags_version2compat;
      priority = 0;
    } in
    (
      out,
      record u.buffer_info { entry_start_offset = o + h.header_size },
      simp first (
          read_end-run reader info strings2
            (λ d. record d { message_flags = flags_version2compat; priority = 0 })
            (o + h.header_size) u
            (record u {
              header = record u.header { sender_nodename = x; receiver_nodename = y; metadata = z };
            })
            size e),
      record {
        size = ap (λ d. d.message_size) g.header;
        version = ap (λ d. d.message_version) g.header;
        header = ap (λ d. d.header_size) g.header;
        flags = sym v2.flags;
        sender_id = ap (λ d. d.sender_nodeid) g.header;
        receiver_id = ap (λ d. d.receiver_nodeid) g.header;
        sender_end = ap (λ d. d.sender_endpoint) g.header;
        receiver_end = ap (λ d. d.receiver_endpoint) g.header;
        priority = sym v2.priority;
        sender = c1;
        receiver = c2;
        meta = c3;
        count = ap (λ d. d.entry_count) g.header;
        id = ap (λ d. d.message_id) g.header;
        res_id = ap (λ d. d.message_res_id) g.header;
      },
      g.start,
      g.size,
      refl,
    )
