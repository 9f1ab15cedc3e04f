-- ===== src/Message/Element/Header.antt =====
-- src/message.c: the header of an element, and reading it in version 2.
use robotraconteurlite.Prelude.{ℕ, Option, some, List, [], ◌∷◌, if◌then◌else◌, ◌>>=◌, sub_size}
use robotraconteurlite.Prelude.Int.{ℤ}
use robotraconteurlite.Status.{Status, success, failed}
use robotraconteurlite.Array.{BufferVec}
use robotraconteurlite.Message.Numbers.{message_read_uint16, message_read_uint32}
use robotraconteurlite.Message.Steps.{Step, run, into}
use robotraconteurlite.Message.Strings.{
  HeaderString, StringInfo, message_read_header_string_with_len_prefix2_1,
  message_read_header_string_with_len_prefix_2,
}
use robotraconteurlite.Message.Header.Read.{keep}
use robotraconteurlite.Message.Element.{ElementReader}

-- `struct robotraconteurlite_messageelement_header` and `..._const_header`, by the type of their
-- strings.
pub record ElementHeaderOf (Str : Type 0) : Type 0 where
  pub element_size : ℕ
  pub element_flags : ℕ
  pub element_name : Str
  pub element_name_code : ℕ
  pub element_number : ℤ
  pub element_type : ℕ
  pub element_type_name : Str
  pub element_type_name_code : ℕ
  pub metadata : Str
  pub data_count : ℕ

abbrev pub ElementHeader : Type 0
ElementHeader = ElementHeaderOf HeaderString

abbrev pub ElementConstHeader : Type 0
ElementConstHeader = ElementHeaderOf (List ℕ)

pub record ElementBufferInfo : Type 0 where
  pub start_buffer_offset : ℕ
  pub header_size : ℕ
  pub data_start_offset : ℕ
  pub element_name_str_offset : ℕ
  pub element_count_offset : ℕ
  pub element_size_offset : ℕ

-- The caller's header and the local variables of the reader.
pub record ElementRead : Type 0 where
  pub header : ElementHeader
  pub elementname_info : StringInfo
  pub elementtypename_info : StringInfo
  pub meta_info : StringInfo
  pub element_count_offset : ℕ

unfoldable pub element_fields2 : List (Step ElementRead)
element_fields2 =
    (λ v o s.
      into (message_read_uint32 v o s.header.element_size)
        (λ x. record s { header = record s.header { element_size = x } }))
    ∷ (λ v o s.
        keep (message_read_header_string_with_len_prefix2_1 v o s.elementname_info)
          (λ i. record s { elementname_info = i }))
    ∷ (λ v o s.
        into (message_read_uint16 v o s.header.element_type)
          (λ x. record s { header = record s.header { element_type = x } }))
    ∷ (λ v o s.
        keep (message_read_header_string_with_len_prefix2_1 v o s.elementtypename_info)
          (λ i. record s { elementtypename_info = i }))
    ∷ (λ v o s.
        keep (message_read_header_string_with_len_prefix2_1 v o s.meta_info)
          (λ i. record s { meta_info = i }))
    ∷ (λ v o s.
        into (message_read_uint32 v o s.header.data_count)
          (λ x. record s { header = record s.header { data_count = x }; element_count_offset = o }))
    ∷ []

abbrev pub element_string :
    StringInfo
    → HeaderString
    → (HeaderString → ElementHeader)
    → BufferVec
    → ℕ
    → ElementRead
    → Option (Status × ℕ × ElementRead)
element_string place str put v o s =
    message_read_header_string_with_len_prefix_2 v place str >>= λ r.
    some (r.0, o, record s { header = put r.1 })

unfoldable pub element_strings2 : List (Step ElementRead)
element_strings2 =
    (λ v o s.
      element_string s.elementname_info s.header.element_name
        (λ x. record s.header { element_name = x }) v o s)
    ∷ (λ v o s.
        element_string s.elementtypename_info s.header.element_type_name
          (λ x. record s.header { element_type_name = x }) v o s)
    ∷ (λ v o s.
        element_string s.meta_info s.header.metadata (λ x. record s.header { metadata = x }) v o s)
    ∷ []

abbrev no_place : StringInfo
no_place = record { offset = 0; str_len = 0 }

abbrev pub element_start : ElementHeader → ElementRead
element_start header = record {
  header = header;
  elementname_info = no_place;
  elementtypename_info = no_place;
  meta_info = no_place;
  element_count_offset = 0;
}

abbrev pub ElementResult : Type 0
ElementResult = Option (Status × ElementHeader × ElementBufferInfo)

unfoldable pub messageelement_reader_read_header2_ex :
    ElementReader → ElementHeader → ElementBufferInfo → ElementResult
messageelement_reader_read_header2_ex reader header info =
    run element_fields2 reader.buffer reader.buffer_offset (element_start header) >>= λ t.
    if failed t.0
    then some (t.0, t.2.header, info)
    else run element_strings2 reader.buffer t.1 t.2 >>= λ u.
        if failed u.0
        then some (u.0, u.2.header, info)
        else some (
          success,
          u.2.header,
          record {
            start_buffer_offset = reader.buffer_offset;
            header_size = sub_size t.1 reader.buffer_offset;
            data_start_offset = t.1;
            element_name_str_offset = u.2.elementname_info.offset;
            element_count_offset = u.2.element_count_offset;
            element_size_offset = reader.buffer_offset;
          },
        )
