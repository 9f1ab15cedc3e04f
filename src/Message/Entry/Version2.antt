-- ===== src/Message/Entry/Version2.antt =====
-- The header of an entry of version 2 as it stands in the buffers, and reading it.
use robotraconteurlite.Prelude.{
  ℕ, ◌+◌, ◌<◌, ◌≡◌, refl, ap, ◌∙◌, sym, Option, some, List, [], ◌∷◌, arith, length, joined,
  sub_size, add_size,
}
use robotraconteurlite.Status.{Status, success}
use robotraconteurlite.Array.{BufferVec}
use robotraconteurlite.Array.Holds.{HoldsAt}
use robotraconteurlite.Array.Numbers.{le_bytes, length-le_bytes}
use robotraconteurlite.Message.Steps.{
  run, Reads, done, run-Reads, HoldsAll, HoldsAt-joined, length-joined, ◌and_then◌,
}
use robotraconteurlite.Message.Strings.{
  HeaderString, StringInfo, message_read_header_string_with_len_prefix_2,
}
use robotraconteurlite.Message.Strings.Laws.{
  encoded_prefix2, Received, Room, read_header_string-HoldsAt,
}
use robotraconteurlite.Message.Header.Fields.{
  into_uint16, into_uint32, into_copy_uint16, keep_prefix2, Placed, prefix-Placed,
}
use robotraconteurlite.Message.Entry.{
  EntryHeader, EntryConstHeader, EntryBufferInfo, EntryReader, EntryRead, entry_start,
  entry_fields2, entry_strings2, entry_end, entry_string, messageentry_reader_read_header2_ex,
}

unfoldable pub entry_encoding2 : EntryConstHeader → List (List ℕ)
entry_encoding2 h =
    le_bytes 4 h.entry_size
    ∷ le_bytes 2 h.entry_type
    ∷ le_bytes 2 0
    ∷ encoded_prefix2 h.service_path
    ∷ encoded_prefix2 h.member_name
    ∷ le_bytes 4 h.request_id
    ∷ le_bytes 2 h.error
    ∷ encoded_prefix2 h.metadata
    ∷ le_bytes 2 h.element_count
    ∷ []

-- The fields have the sizes of version 2.
pub record EntryFits2 (h : EntryConstHeader) : Type 0 where
  pub size_lt : h.entry_size < 4294967296
  pub type_lt : h.entry_type < 65536
  pub service : length h.service_path < 65536
  pub member : length h.member_name < 65536
  pub request_lt : h.request_id < 4294967296
  pub error_lt : h.error < 65536
  pub meta : length h.metadata < 65536
  pub count_lt : h.element_count < 65536

-- The caller's strings have room for those of the entry.
pub record EntryHasRoom (h : EntryConstHeader) (dest : EntryHeader) : Type 0 where
  pub service : Room dest.service_path (length h.service_path)
  pub member : Room dest.member_name (length h.member_name)
  pub meta : Room dest.metadata (length h.metadata)

-- The fields of version 2 are those of the entry, and the others are the caller's.
pub record EntryCarries2 (h : EntryConstHeader) (dest out : EntryHeader) : Type 0 where
  pub size : out.entry_size ≡ h.entry_size
  pub type : out.entry_type ≡ h.entry_type
  pub service : Received h.service_path out.service_path
  pub member : Received h.member_name out.member_name
  pub request : out.request_id ≡ h.request_id
  pub error : out.error ≡ h.error
  pub meta : Received h.metadata out.metadata
  pub count : out.element_count ≡ h.element_count
  pub flags : out.entry_flags ≡ dest.entry_flags
  pub service_code : out.service_path_code ≡ dest.service_path_code
  pub member_code : out.member_name_code ≡ dest.member_name_code

-- The characters of a placed string are read into a string with room.
entry_string-Placed :
    (vec : BufferVec) (o : ℕ) (xs : List ℕ) (place : StringInfo) (str : HeaderString)
    (put : HeaderString → EntryHeader) (s : EntryRead)
    → Placed vec xs place
    → Room str (length xs)
    → (out : HeaderString) × (entry_string place str put vec o s
        ≡ some (success, o, record s { header = put out }))
      × Received xs out
unfolding message_read_header_string_with_len_prefix_2
entry_string-Placed vec o xs place str put s p room =
    let (out, e, r) = read_header_string-HoldsAt vec place.offset xs str p.holds room in
    (out, rw (p.len, e) refl, r)

-- Two bytes are left out.
skip2 :
    (vec : BufferVec) (o : ℕ) (s : EntryRead)
    → HoldsAt vec o (le_bytes 2 0)
    → ◌≡◌ {A = Option (Status × ℕ × EntryRead)}
        (some (success, add_size o 2, s))
        (some (success, o + length (le_bytes 2 0), s))
skip2 vec o s h =
    let at : add_size o 2 ≡ o + length (le_bytes 2 0) =
      omega (arith, h.fits, h.ok.elements, length-le_bytes 2 0) in
    ap (λ k. some (success, k, s)) at

-- The number of elements stands in the last two bytes.
behind_eight :
    (o a b c d e f g h i : ℕ)
    → i ≡ 2
    → o + a + b + c + d + e + f + g + h + 2
      ≡ o + (a + (b + (c + (d + (e + (f + (g + (h + (i + 0)))))))))
behind_eight o a b c d e f g h i two = omega arith

-- What the first pass finds.
record EntryGathered (vec : BufferVec) (h : EntryConstHeader) (s u : EntryRead) : Type 0 where
  header : u.header ≡ record s.header {
    entry_size = h.entry_size;
    entry_type = h.entry_type;
    request_id = h.request_id;
    error = h.error;
    element_count = h.element_count;
  }
  service : Placed vec h.service_path u.service_path_info
  member : Placed vec h.member_name u.member_name_info
  meta : Placed vec h.metadata u.meta_info

module _ (vec : BufferVec) (o : ℕ) (h : EntryConstHeader) (f : EntryFits2 h) where
  entry_fields2-Reads :
      (s : EntryRead)
      → HoldsAll vec o (entry_encoding2 h)
      → (u : EntryRead) × Reads vec entry_fields2 o (entry_encoding2 h) s u
        × EntryGathered vec h s u
        × (u.element_count_offset + 2 ≡ o + length (joined (entry_encoding2 h)))
  unfolding entry_fields2 entry_encoding2
  entry_fields2-Reads s (a1, (a2, (a3, (a4, (a5, (a6, (a7, (a8, (a9, _))))))))) = (
    _,
    into_uint32 vec o h.entry_size _ _ f.size_lt a1
        and_then into_uint16 vec _ h.entry_type _ _ f.type_lt a2
        and_then skip2 vec _ _ a3
        and_then keep_prefix2 vec _ h.service_path _ _ f.service a4
        and_then keep_prefix2 vec _ h.member_name _ _ f.member a5
        and_then into_uint32 vec _ h.request_id _ _ f.request_lt a6
        and_then into_uint16 vec _ h.error _ _ f.error_lt a7
        and_then keep_prefix2 vec _ h.metadata _ _ f.meta a8
        and_then into_copy_uint16 vec _ h.element_count _ _ f.count_lt a9
        and_then done,
    record {
      header = refl;
      service = prefix-Placed vec _ (le_bytes 2 (length h.service_path)) h.service_path a4;
      member = prefix-Placed vec _ (le_bytes 2 (length h.member_name)) h.member_name a5;
      meta = prefix-Placed vec _ (le_bytes 2 (length h.metadata)) h.metadata a8;
    },
    behind_eight o _ _ _ _ _ _ _ _ _ (length-le_bytes 2 h.element_count)
        ∙ ap (λ k. o + k) (sym (length-joined (entry_encoding2 h))),
  )

  entry_strings2-run :
      (p : ℕ) (u : EntryRead)
      → Placed vec h.service_path u.service_path_info
      → Placed vec h.member_name u.member_name_info
      → Placed vec h.metadata u.meta_info
      → Room u.header.service_path (length h.service_path)
      → Room u.header.member_name (length h.member_name)
      → Room u.header.metadata (length h.metadata)
      → (x y z : HeaderString) × (run entry_strings2 vec p u
          ≡ some (
            success,
            p,
            record u {
              header = record u.header { service_path = x; member_name = y; metadata = z };
            },
          ))
        × Received h.service_path x
        × Received h.member_name y
        × Received h.metadata z
  unfolding entry_strings2
  entry_strings2-run p u p1 p2 p3 r1 r2 r3 =
      let (x, e1, c1) =
        entry_string-Placed vec p h.service_path u.service_path_info u.header.service_path
          (λ t. record u.header { service_path = t }) u p1 r1 in
      let d1 : EntryHeader = record u.header { service_path = x } in
      let u1 : EntryRead = record u { header = d1 } in
      let (y, e2, c2) =
        entry_string-Placed vec p h.member_name u.member_name_info u.header.member_name
          (λ t. record d1 { member_name = t }) u1 p2 r2 in
      let d2 : EntryHeader = record d1 { member_name = y } in
      let u2 : EntryRead = record u1 { header = d2 } in
      let (z, e3, c3) =
        entry_string-Placed vec p h.metadata u.meta_info u.header.metadata
          (λ t. record d2 { metadata = t }) u2 p3 r3 in
      (x, y, z, rw (e1, e2, e3) refl, c1, c2, c3)

-- A version-2 entry header whose bytes stand at the reader's offset is read with every field into
-- a header with room for its strings; the elements start behind its bytes.
pub read_entry2-HoldsAt :
    (h : EntryConstHeader)
    → EntryFits2 h
    → (reader : EntryReader) (dest : EntryHeader) (info : EntryBufferInfo) → EntryHasRoom h dest
    → HoldsAt reader.buffer reader.buffer_offset (joined (entry_encoding2 h))
    → (out : EntryHeader) × (place : ℕ) × (messageentry_reader_read_header2_ex reader dest info
        ≡ some (
          success,
          out,
          record {
            start_buffer_offset = reader.buffer_offset;
            header_size = length (joined (entry_encoding2 h));
            element_count_offset = place;
            element_start_offset = reader.buffer_offset + length (joined (entry_encoding2 h));
            entry_size_offset = reader.buffer_offset;
          },
        ))
      × (place + 2 ≡ reader.buffer_offset + length (joined (entry_encoding2 h)))
      × EntryCarries2 h dest out
unfolding messageentry_reader_read_header2_ex entry_end
read_entry2-HoldsAt h f reader dest info room held =
    let o = reader.buffer_offset in
    let vec = reader.buffer in
    let n = length (joined (entry_encoding2 h)) in
    let (u, r, g, at) =
      entry_fields2-Reads vec o h f (entry_start dest)
        (HoldsAt-joined vec o (entry_encoding2 h) held) in
    let first = run-Reads r in
    let (x, y, z, e, c1, c2, c3) =
      entry_strings2-run vec o h f (o + n) u g.service g.member g.meta (rw g.header room.service)
        (rw g.header room.member) (rw g.header room.meta) in
    let size : sub_size (o + n) o ≡ n = omega (arith, held.fits, held.ok.elements) in
    (
      record u.header { service_path = x; member_name = y; metadata = z },
      u.element_count_offset,
      simp (first, e, size) refl,
      at,
      record {
        size = ap (λ d. d.entry_size) g.header;
        type = ap (λ d. d.entry_type) g.header;
        service = c1;
        member = c2;
        request = ap (λ d. d.request_id) g.header;
        error = ap (λ d. d.error) g.header;
        meta = c3;
        count = ap (λ d. d.element_count) g.header;
        flags = ap (λ d. d.entry_flags) g.header;
        service_code = ap (λ d. d.service_path_code) g.header;
        member_code = ap (λ d. d.member_name_code) g.header;
      },
    )
