-- ===== src/Message/Element/Version2.antt =====
-- The header of an element of version 2 that stands in the buffers is read as it is.
use robotraconteurlite.Prelude.{
  ℕ, ◌+◌, ◌<◌, ◌≡◌, refl, ap, some, List, [], ◌∷◌, arith, length, joined, sub_size,
}
use robotraconteurlite.Status.{success}
use robotraconteurlite.Array.{BufferVec}
use robotraconteurlite.Array.Holds.{HoldsAt}
use robotraconteurlite.Array.Numbers.{le_bytes, length-le_bytes}
use robotraconteurlite.Message.Steps.{
  run, Reads, done, run-Reads, HoldsAll, HoldsAt-joined, ◌and_then◌,
}
use robotraconteurlite.Message.Strings.{
  HeaderString, StringInfo, message_read_header_string_with_len_prefix_2,
}
use robotraconteurlite.Message.Strings.Laws.{
  encoded_prefix2, Received, Room, read_header_string-HoldsAt,
}
use robotraconteurlite.Message.Header.Fields.{
  into_uint16, into_uint32, keep_prefix2, Placed, prefix-Placed,
}
use robotraconteurlite.Message.Element.{ElementReader}
use robotraconteurlite.Message.Element.Header.{
  ElementHeader, ElementConstHeader, ElementBufferInfo, ElementRead, element_start, element_fields2,
  element_strings2, element_string, messageelement_reader_read_header2_ex,
}

unfoldable pub element_encoding2 : ElementConstHeader → List (List ℕ)
element_encoding2 h =
    le_bytes 4 h.element_size
    ∷ encoded_prefix2 h.element_name
    ∷ le_bytes 2 h.element_type
    ∷ encoded_prefix2 h.element_type_name
    ∷ encoded_prefix2 h.metadata
    ∷ le_bytes 4 h.data_count
    ∷ []

-- The fields have the sizes of version 2.
pub record ElementFits2 (h : ElementConstHeader) : Type 0 where
  pub size_lt : h.element_size < 4294967296
  pub name : length h.element_name < 65536
  pub type_lt : h.element_type < 65536
  pub type_name : length h.element_type_name < 65536
  pub meta : length h.metadata < 65536
  pub count_lt : h.data_count < 4294967296

-- The caller's strings have room for those of the element.
pub record ElementHasRoom (h : ElementConstHeader) (dest : ElementHeader) : Type 0 where
  pub name : Room dest.element_name (length h.element_name)
  pub type_name : Room dest.element_type_name (length h.element_type_name)
  pub meta : Room dest.metadata (length h.metadata)

-- The fields of version 2 are those of the element, and the others are the caller's.
pub record ElementCarries2 (h : ElementConstHeader) (dest out : ElementHeader) : Type 0 where
  pub size : out.element_size ≡ h.element_size
  pub name : Received h.element_name out.element_name
  pub type : out.element_type ≡ h.element_type
  pub type_name : Received h.element_type_name out.element_type_name
  pub meta : Received h.metadata out.metadata
  pub count : out.data_count ≡ h.data_count
  pub flags : out.element_flags ≡ dest.element_flags
  pub name_code : out.element_name_code ≡ dest.element_name_code
  pub number : out.element_number ≡ dest.element_number
  pub type_code : out.element_type_name_code ≡ dest.element_type_name_code

element_string-Placed :
    (vec : BufferVec) (o : ℕ) (xs : List ℕ) (place : StringInfo) (str : HeaderString)
    (put : HeaderString → ElementHeader) (s : ElementRead)
    → Placed vec xs place
    → Room str (length xs)
    → (out : HeaderString) × (element_string place str put vec o s
        ≡ some (success, o, record s { header = put out }))
      × Received xs out
unfolding message_read_header_string_with_len_prefix_2
element_string-Placed vec o xs place str put s p room =
    let (out, e, r) = read_header_string-HoldsAt vec place.offset xs str p.holds room in
    (out, rw (p.len, e) refl, r)

-- What the first pass finds.
record ElementGathered (vec : BufferVec) (o : ℕ) (h : ElementConstHeader) (s u : ElementRead)
    : Type 0 where
  header : u.header ≡ record s.header {
    element_size = h.element_size;
    element_type = h.element_type;
    data_count = h.data_count;
  }
  name : Placed vec h.element_name u.elementname_info
  name_at : u.elementname_info.offset ≡ o + 6
  type_name : Placed vec h.element_type_name u.elementtypename_info
  meta : Placed vec h.metadata u.meta_info

module _ (vec : BufferVec) (o : ℕ) (h : ElementConstHeader) (f : ElementFits2 h) where
  name_place :
      o + length (le_bytes 4 h.element_size) + length (le_bytes 2 (length h.element_name)) ≡ o + 6
  name_place =
      omega (arith, length-le_bytes 4 h.element_size, length-le_bytes 2 (length h.element_name))

  element_fields2-Reads :
      (s : ElementRead)
      → HoldsAll vec o (element_encoding2 h)
      → (u : ElementRead) × Reads vec element_fields2 o (element_encoding2 h) s u
        × ElementGathered vec o h s u
  unfolding element_fields2 element_encoding2
  element_fields2-Reads s (a1, (a2, (a3, (a4, (a5, (a6, _)))))) = (
    _,
    into_uint32 vec o h.element_size _ _ f.size_lt a1
        and_then keep_prefix2 vec _ h.element_name _ _ f.name a2
        and_then into_uint16 vec _ h.element_type _ _ f.type_lt a3
        and_then keep_prefix2 vec _ h.element_type_name _ _ f.type_name a4
        and_then keep_prefix2 vec _ h.metadata _ _ f.meta a5
        and_then into_uint32 vec _ h.data_count _ _ f.count_lt a6
        and_then done,
    record {
      header = refl;
      name = prefix-Placed vec _ (le_bytes 2 (length h.element_name)) h.element_name a2;
      name_at = name_place;
      type_name =
          prefix-Placed vec _ (le_bytes 2 (length h.element_type_name)) h.element_type_name a4;
      meta = prefix-Placed vec _ (le_bytes 2 (length h.metadata)) h.metadata a5;
    },
  )

  element_strings2-run :
      (p : ℕ) (u : ElementRead)
      → Placed vec h.element_name u.elementname_info
      → Placed vec h.element_type_name u.elementtypename_info
      → Placed vec h.metadata u.meta_info
      → Room u.header.element_name (length h.element_name)
      → Room u.header.element_type_name (length h.element_type_name)
      → Room u.header.metadata (length h.metadata)
      → (x y z : HeaderString) × (run element_strings2 vec p u
          ≡ some (
            success,
            p,
            record u {
              header = record u.header { element_name = x; element_type_name = y; metadata = z };
            },
          ))
        × Received h.element_name x
        × Received h.element_type_name y
        × Received h.metadata z
  unfolding element_strings2
  element_strings2-run p u p1 p2 p3 r1 r2 r3 =
      let (x, e1, c1) =
        element_string-Placed vec p h.element_name u.elementname_info u.header.element_name
          (λ t. record u.header { element_name = t }) u p1 r1 in
      let d1 : ElementHeader = record u.header { element_name = x } in
      let u1 : ElementRead = record u { header = d1 } in
      let (y, e2, c2) =
        element_string-Placed vec p h.element_type_name u.elementtypename_info
          u.header.element_type_name (λ t. record d1 { element_type_name = t }) u1 p2 r2 in
      let d2 : ElementHeader = record d1 { element_type_name = y } in
      let u2 : ElementRead = record u1 { header = d2 } in
      let (z, e3, c3) =
        element_string-Placed vec p h.metadata u.meta_info u.header.metadata
          (λ t. record d2 { metadata = t }) u2 p3 r3 in
      (x, y, z, rw (e1, e2, e3) refl, c1, c2, c3)

-- A version-2 element header whose bytes stand at the reader's offset is read with every field
-- into a header with room for its strings; the name is found six bytes behind that offset and the
-- data behind the bytes of the header.
pub read_element2-HoldsAt :
    (h : ElementConstHeader) (reader : ElementReader) (dest : ElementHeader)
    (info : ElementBufferInfo)
    → ElementFits2 h
    → ElementHasRoom h dest
    → HoldsAt reader.buffer reader.buffer_offset (joined (element_encoding2 h))
    → (out : ElementHeader) × (found : ElementBufferInfo) × (messageelement_reader_read_header2_ex
          reader dest info
        ≡ some (success, out, found))
      × ElementCarries2 h dest out
      × (found.start_buffer_offset ≡ reader.buffer_offset)
      × (found.element_name_str_offset ≡ reader.buffer_offset + 6)
      × (found.header_size ≡ length (joined (element_encoding2 h)))
      × (found.data_start_offset ≡ reader.buffer_offset + length (joined (element_encoding2 h)))
unfolding messageelement_reader_read_header2_ex
read_element2-HoldsAt h reader dest info f room held =
    let o = reader.buffer_offset in
    let vec = reader.buffer in
    let n = length (joined (element_encoding2 h)) in
    let (u, r, g) =
      element_fields2-Reads vec o h f (element_start dest)
        (HoldsAt-joined vec o (element_encoding2 h) held) in
    let first = run-Reads r in
    let (x, y, z, e, c1, c2, c3) =
      element_strings2-run vec o h f (o + n) u g.name g.type_name g.meta (rw g.header room.name)
        (rw g.header room.type_name) (rw g.header room.meta) in
    let size : sub_size (o + n) o ≡ n = omega (arith, held.fits, held.ok.elements) in
    (
      record u.header { element_name = x; element_type_name = y; metadata = z },
      record {
        start_buffer_offset = o;
        header_size = sub_size (o + n) o;
        data_start_offset = o + n;
        element_name_str_offset = u.elementname_info.offset;
        element_count_offset = u.element_count_offset;
        element_size_offset = o;
      },
      simp (first, e) refl,
      record {
        size = ap (λ d. d.element_size) g.header;
        name = c1;
        type = ap (λ d. d.element_type) g.header;
        type_name = c2;
        meta = c3;
        count = ap (λ d. d.data_count) g.header;
        flags = ap (λ d. d.element_flags) g.header;
        name_code = ap (λ d. d.element_name_code) g.header;
        number = ap (λ d. d.element_number) g.header;
        type_code = ap (λ d. d.element_type_name_code) g.header;
      },
      refl,
      g.name_at,
      size,
      refl,
    )
