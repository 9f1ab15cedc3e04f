-- ===== src/Message/Header/Read4.antt =====
-- A header of version 4 that stands in the buffers is read as it is.
use robotraconteurlite.Prelude.{
  ℕ, ◌+◌, ◌≡◌, refl, ap, ◌∙◌, sym, Bool, true, false, Option, some, List, [], ◌∷◌, arith,
  if◌then◌else◌, length, joined, add_size, sub_size, drop, take, subst, ◌==◌,
}
use robotraconteurlite.Status.{Status, success, protocol}
use robotraconteurlite.Array.{BufferVec}
use robotraconteurlite.Array.Holds.{HoldsAt}
use robotraconteurlite.Message.Numbers.Codec.{encoded_uint_x}
use robotraconteurlite.Message.Steps.{
  run, choose, bytes_when, Reads, done, pass, run-Reads, HoldsAll, HoldsAt-joined, ◌and_then◌,
  length-joined, lengths,
}
use robotraconteurlite.Message.Strings.{HeaderString, StringInfo, no_string}
use robotraconteurlite.Message.Strings.Laws.{Received, Room, place}
use robotraconteurlite.Message.Header.{
  MessageHeader, MessageConstHeader, MessageReader, MessageBufferInfo, flags_check,
  flag_routing_info, flag_endpoint_info, flag_priority, flag_meta_info, flag_multiple_entries,
}
use robotraconteurlite.Message.Header.Read.{
  HeaderRead, read_start, first4, groups4, skip4, strings4, string_sender, string_receiver,
  string_metadata, reset_names, reset_metadata, message_reader_read_header4_ex,
}
use robotraconteurlite.Message.Header.Fields.{
  into_uint8, into_uint16, into_uint32, into_uint_x, Placed, prefix-Placed, string_step-Placed,
  read_end-run,
}
use robotraconteurlite.Message.Header.Groups.{
  routing-run, endpoint-run, priority-run, meta-run, any_count-run, sender_place, receiver_place,
}
use robotraconteurlite.Message.Header.Encoding.{
  encoding4_in, IsCount, routing_bytes, meta_bytes, Version4In, HasRoom, Carries,
}

-- A value that is taken where a flag is set, and is the value without the flag otherwise.
if_same : {A : Type 0} (b : Bool) (x z : A) → (b ≡ false → x ≡ z) → (if b then x else z) ≡ x
if_same true x z h = refl
if_same false x z h = sym (h refl)

not_chosen :
    (vec : BufferVec) (p : ℕ) (s : HeaderRead) (b : Bool)
    → b ≡ false
    → choose b skip4 (λ t. t) vec p s ≡ some (success, p, s)
not_chosen vec p s b e = rw e refl

version_passes :
    (p : ℕ) (s : HeaderRead)
    → s.header.message_version ≡ 4
    → ◌≡◌ {A = Option (Status × ℕ × HeaderRead)}
        (some (if s.header.message_version == 4 then success else protocol, p, s))
        (some (success, p, s))
version_passes p s e = rw e refl

-- What the first pass finds, by the bytes of the header.
record Gathered (vec : BufferVec) (h : MessageConstHeader) (s u : HeaderRead) : Type 0 where
  size : u.header.message_size ≡ h.message_size
  version : u.header.message_version ≡ h.message_version
  header : u.header.header_size ≡ h.header_size
  flags : u.flags ≡ h.message_flags
  sender_id : u.header.sender_nodeid ≡ h.sender_nodeid
  receiver_id : u.header.receiver_nodeid ≡ h.receiver_nodeid
  sender_end : u.header.sender_endpoint ≡ h.sender_endpoint
  receiver_end : u.header.receiver_endpoint ≡ h.receiver_endpoint
  priority : u.header.priority ≡ h.priority
  count : u.header.entry_count ≡ h.entry_count
  id : u.header.message_id ≡ h.message_id
  res_id : u.header.message_res_id ≡ h.message_res_id
  sender_name : u.header.sender_nodename ≡ s.header.sender_nodename
  receiver_name : u.header.receiver_nodename ≡ s.header.receiver_nodename
  metadata : u.header.metadata ≡ s.header.metadata
  sender :
      flags_check h.message_flags flag_routing_info ≡ true
      → Placed vec h.sender_nodename u.sender_nodename_info
  receiver :
      flags_check h.message_flags flag_routing_info ≡ true
      → Placed vec h.receiver_nodename u.receiver_nodename_info
  meta : flags_check h.message_flags flag_meta_info ≡ true → Placed vec h.metadata u.meta_info
  start : u.buffer_info.start_buffer_offset ≡ s.buffer_info.start_buffer_offset
  info_size : u.buffer_info.header_size ≡ h.header_size

module _ (vec : BufferVec) (h : MessageConstHeader) (p : ℕ) where
  Placed-if :
      (b : Bool) (xs : List ℕ) (i j : StringInfo)
      → b ≡ true
      → Placed vec xs i
      → Placed vec xs (if b then i else j)
  Placed-if b xs i j e q = rw e q

  group :
      (b : Bool) (xss : List (List ℕ))
      → b ≡ true
      → HoldsAt vec p (bytes_when b xss)
      → HoldsAll vec p xss
  group b xss e held =
      HoldsAt-joined vec p xss (subst (λ c. HoldsAt vec p (bytes_when c xss)) e held)

  sender_Placed :
      HoldsAll vec p (routing_bytes h)
      → Placed vec h.sender_nodename
          (place (sender_place h p) (encoded_uint_x (length h.sender_nodename)) h.sender_nodename)
  unfolding routing_bytes
  sender_Placed (a1, (a2, (a3, (a4, _)))) =
      prefix-Placed vec (sender_place h p) (encoded_uint_x (length h.sender_nodename))
        h.sender_nodename a3

  receiver_Placed :
      HoldsAll vec p (routing_bytes h)
      → Placed vec h.receiver_nodename (
          place
            (receiver_place h p)
            (encoded_uint_x (length h.receiver_nodename))
            h.receiver_nodename)
  unfolding routing_bytes
  receiver_Placed (a1, (a2, (a3, (a4, _)))) =
      prefix-Placed vec (receiver_place h p) (encoded_uint_x (length h.receiver_nodename))
        h.receiver_nodename a4

  meta_Placed :
      HoldsAll vec p (meta_bytes h)
      → Placed vec h.metadata (place p (encoded_uint_x (length h.metadata)) h.metadata)
  unfolding meta_bytes
  meta_Placed (a1, _) = prefix-Placed vec p (encoded_uint_x (length h.metadata)) h.metadata a1

module _ (vec : BufferVec) (o : ℕ) (h : MessageConstHeader) (counted : List (List ℕ))
    (form : IsCount h counted) (v4 : Version4In h counted) where
  fields4-Reads :
      (s : HeaderRead)
      → HasRoom h s.header
      → HoldsAll vec o (encoding4_in h counted)
      → (m : HeaderRead) × (u : HeaderRead) × (p : ℕ) × Reads vec first4
          (o + 4)
          (take 4 (drop 1 (encoding4_in h counted)))
          s
          m
        × (p ≡ o + 4 + length (joined (take 4 (drop 1 (encoding4_in h counted)))))
        × Reads vec (groups4 h.message_flags) p (drop 5 (encoding4_in h counted)) m u
        × (m.flags ≡ h.message_flags)
        × Gathered vec h s u
  unfolding first4 groups4 encoding4_in
  fields4-Reads s room (magic, (a1, (a2, (a3, (a4, (a5, (a6, (a7, (a8, (a9, _)))))))))) =
      let f = v4.fits in
      let b1 = flags_check h.message_flags flag_routing_info in
      let b2 = flags_check h.message_flags flag_endpoint_info in
      let b3 = flags_check h.message_flags flag_priority in
      let b4 = flags_check h.message_flags flag_meta_info in
      let b5 = flags_check h.message_flags flag_multiple_entries in
      (
        _,
        _,
        _,
        into_uint32 vec (o + 4) h.message_size _ _ f.size_lt a1
            and_then into_uint16 vec _ h.message_version _ _ f.version_lt a2
            and_then pass (version_passes _ _ v4.version) (
                into_uint_x vec _ h.header_size _ _ f.header_size_lt a3
                and_then into_uint8 vec _ h.message_flags _ _ f.flags_lt a4
                and_then done),
        omega (arith, length-joined (take 4 (drop 1 (encoding4_in h counted)))),
        routing-run vec h f _ _ b1 room.sender_id room.receiver_id a5
            and_then endpoint-run vec h f _ _ b2 a6
            and_then priority-run vec h f _ _ b3 a7
            and_then meta-run vec h f _ _ b4 a8
            and_then pass (not_chosen vec _ _ _ v4.no_table) (
                any_count-run vec h f _ _ b5 counted form a9
                and_then pass (not_chosen vec _ _ _ v4.no_extended) done),
        refl,
        record {
          size = refl;
          version = refl;
          header = refl;
          flags = refl;
          sender_id = if_same b1 _ _ (λ e. (v4.no_routing e).0);
          receiver_id = if_same b1 _ _ (λ e. (v4.no_routing e).1);
          sender_end = if_same b2 _ _ (λ e. (v4.no_endpoint e).0);
          receiver_end = if_same b2 _ _ (λ e. (v4.no_endpoint e).1);
          priority = if_same b3 _ _ v4.no_priority;
          count = if_same b5 _ _ v4.no_count;
          id = if_same b4 _ _ (λ e. (v4.no_meta e).1);
          res_id = if_same b4 _ _ (λ e. (v4.no_meta e).2);
          sender_name = refl;
          receiver_name = refl;
          metadata = refl;
          sender =
              λ e. Placed-if vec h o b1 _ _ _ e (sender_Placed vec h _ (group vec h _ b1 _ e a5));
          receiver =
              λ e. Placed-if vec h o b1 _ _ _ e (receiver_Placed vec h _ (group vec h _ b1 _ e a5));
          meta = λ e. Placed-if vec h o b4 _ _ _ e (meta_Placed vec h _ (group vec h _ b4 _ e a8));
          start = refl;
          info_size = refl;
        },
      )

-- The second pass over the names: they are read, or set to NULL where the flag is not set.
names-run :
    (vec : BufferVec) (p : ℕ) (h : MessageConstHeader) (u : HeaderRead) (b : Bool)
    → (b ≡ true → Placed vec h.sender_nodename u.sender_nodename_info)
    → (b ≡ true → Placed vec h.receiver_nodename u.receiver_nodename_info)
    → (b ≡ false → (h.sender_nodename ≡ []) × (h.receiver_nodename ≡ []))
    → Room u.header.sender_nodename (length h.sender_nodename)
    → Room u.header.receiver_nodename (length h.receiver_nodename)
    → (x y : HeaderString) × (choose b (string_sender ∷ string_receiver ∷ []) reset_names vec p u
        ≡ some (
          success,
          p,
          record u { header = record u.header { sender_nodename = x; receiver_nodename = y } },
        ))
      × Received h.sender_nodename x
      × Received h.receiver_nodename y
names-run vec p h u true p1 p2 absent r1 r2 =
    let (x, e1, c1) =
      string_step-Placed vec p h.sender_nodename (λ s. s.sender_nodename_info)
        (λ d. d.sender_nodename) (λ t d. record d { sender_nodename = t }) u (p1 refl) r1 in
    let u1 : HeaderRead = record u { header = record u.header { sender_nodename = x } } in
    let (y, e2, c2) =
      string_step-Placed vec p h.receiver_nodename (λ s. s.receiver_nodename_info)
        (λ d. d.receiver_nodename) (λ t d. record d { receiver_nodename = t }) u1 (p2 refl) r2 in
    (x, y, rw (e1, e2) refl, c1, c2)
names-run vec p h u false p1 p2 absent r1 r2 =
    let (e1, e2) = absent refl in (no_string, no_string, refl, (rw e1 refl, tt), (rw e2 refl, tt))

metadata-run :
    (vec : BufferVec) (p : ℕ) (h : MessageConstHeader) (u : HeaderRead) (b : Bool)
    → (b ≡ true → Placed vec h.metadata u.meta_info)
    → (b ≡ false → h.metadata ≡ [])
    → Room u.header.metadata (length h.metadata)
    → (z : HeaderString) × (choose b (string_metadata ∷ []) reset_metadata vec p u
        ≡ some (success, p, record u { header = record u.header { metadata = z } }))
      × Received h.metadata z
metadata-run vec p h u true p1 absent r1 =
    let (z, e1, c1) =
      string_step-Placed vec p h.metadata (λ s. s.meta_info) (λ d. d.metadata)
        (λ t d. record d { metadata = t }) u (p1 refl) r1 in
    (z, rw e1 refl, c1)
metadata-run vec p h u false p1 absent r1 = (no_string, refl, (rw (absent refl) refl, tt))

-- A version-4 header whose bytes stand at the reader's offset, with or without each of the groups
-- that flags select but without a string table and an extension, its numbers in their shortest
-- form and the number of entries in that or in the five-byte form of the writer, and with the
-- value that a reader sets in each field that is left out, is read with every field into a header
-- with room for its node ids and strings; the entries start behind its size.
pub read_header4_ex-HoldsAt :
    (h : MessageConstHeader) (counted : List (List ℕ))
    → IsCount h counted
    → Version4In h counted
    → (reader : MessageReader) (dest : MessageHeader) (info : MessageBufferInfo) → HasRoom h dest
    → HoldsAt reader.buffer reader.buffer_offset (joined (encoding4_in h counted))
    → (out : MessageHeader) × (found : MessageBufferInfo) × (message_reader_read_header4_ex reader
          dest info
        ≡ some (success, out, found))
      × Carries h out
      × (found.start_buffer_offset ≡ reader.buffer_offset)
      × (found.header_size ≡ h.header_size)
      × (found.entry_start_offset ≡ reader.buffer_offset + h.header_size)
unfolding message_reader_read_header4_ex strings4 encoding4_in
read_header4_ex-HoldsAt h counted form v4 reader dest info room held =
    let o = reader.buffer_offset in
    let vec = reader.buffer in
    let all = HoldsAt-joined vec o (encoding4_in h counted) held in
    let s : HeaderRead = read_start reader dest info in
    let (m, u, p, r1, at, r2, mf, g) = fields4-Reads vec o h counted form v4 s room all in
    let n : length (joined (encoding4_in h counted)) ≡ lengths (encoding4_in h counted) =
      length-joined (encoding4_in h counted) in
    let n1 = length-joined (take 4 (drop 1 (encoding4_in h counted))) in
    let n2 = length-joined (drop 5 (encoding4_in h counted)) in
    let behind : p + length (joined (drop 5 (encoding4_in h counted))) ≡ o + h.header_size =
      omega (arith, at, n, n1, n2, v4.size) in
    let from : add_size o 4 ≡ o + 4 = omega (arith, held.fits, held.ok.elements, n) in
    let first : run first4 vec (add_size o 4) s ≡ some (success, p, m) =
      ap (λ k. run first4 vec k s) from ∙ run-Reads r1 ∙ ap (λ k. some (success, k, m)) (sym at) in
    let second : run (groups4 m.flags) vec p m ≡ some (success, o + h.header_size, u) =
      ap (λ k. run (groups4 k) vec p m) mf ∙ run-Reads r2 ∙ ap (λ k. some (success, k, u)) behind in
    let (x, y, e1, c1, c2) =
      names-run vec (o + h.header_size) h u (flags_check h.message_flags flag_routing_info) g.sender
        g.receiver (λ e. ((v4.no_routing e).2, (v4.no_routing e).3)) (rw g.sender_name room.sender)
        (rw g.receiver_name room.receiver) in
    let u1 : HeaderRead = record u {
      header = record u.header { sender_nodename = x; receiver_nodename = y };
    } in
    let (z, e2, c3) =
      metadata-run vec (o + h.header_size) h u1 (flags_check h.message_flags flag_meta_info) g.meta
        (λ e. (v4.no_meta e).0) (rw g.metadata room.meta) in
    let u2 : HeaderRead = record u1 { header = record u1.header { metadata = z } } in
    let third : run (strings4 u.flags) vec (o + h.header_size) u
        ≡ some (success, o + h.header_size, u2) =
      ap (λ k. run (strings4 k) vec (o + h.header_size) u) g.flags ∙ rw (e1, e2) refl in
    let size : sub_size (o + h.header_size) o ≡ u.header.header_size =
      omega (arith, g.header, held.fits, held.ok.elements, v4.size) in
    (
      record u2.header { message_flags = u.flags },
      record u2.buffer_info { entry_start_offset = o + h.header_size },
      simp (first, second)
          (read_end-run reader info (strings4 u.flags) (λ d. record d { message_flags = u.flags })
            (o + h.header_size) u u2 size third),
      record {
        size = g.size;
        version = g.version;
        header = g.header;
        flags = g.flags;
        sender_id = g.sender_id;
        receiver_id = g.receiver_id;
        sender_end = g.sender_end;
        receiver_end = g.receiver_end;
        priority = g.priority;
        sender = c1;
        receiver = c2;
        meta = c3;
        count = g.count;
        id = g.id;
        res_id = g.res_id;
      },
      g.start,
      g.info_size,
      refl,
    )
