-- ===== src/Message/Entry.antt =====
-- The entries of a message in src/message.c: the header of an entry in its two versions, and the
-- reader that goes from one entry to the next.
pub mod Write
pub mod Version2
pub mod RoundTrip
pub mod End
mod Tests
use robotraconteurlite.Prelude.{
  ℕ, not, Option, some, List, [], ◌∷◌, ◌==◌, ltb, if◌then◌else◌, ◌>>=◌, add_size, sub_size,
}
use robotraconteurlite.Status.{Status, success, protocol, no_more, failed}
use robotraconteurlite.NodeId.{zero_nodeid}
use robotraconteurlite.Array.{BufferVec}
use robotraconteurlite.Message.Numbers.{
  message_read_uint8, message_read_uint16, message_read_uint32, message_read_uint_x,
  message_read_count, message_read_count2,
}
use robotraconteurlite.Message.Steps.{Step, run, into, choose}
use robotraconteurlite.Message.Strings.{
  HeaderString, StringInfo, no_string, message_read_header_string_with_len_prefix2_1,
  message_read_header_string_with_len_prefix4_1, message_read_header_string_with_len_prefix_2,
}
use robotraconteurlite.Message.Header.{MessageHeader, MessageReader, flags_check}
use robotraconteurlite.Message.Header.Read.{
  into_copy, keep, skip_size, size_max, message_reader_read_header_ex,
}
use robotraconteurlite.Message.Header.Write.{no_info}

-- `struct robotraconteurlite_messageentry_header` and `..._const_header`, by the type of their strings.
pub record EntryHeaderOf (Str : Type 0) : Type 0 where
  pub entry_size : ℕ
  pub entry_flags : ℕ
  pub entry_type : ℕ
  pub service_path : Str
  pub service_path_code : ℕ
  pub member_name : Str
  pub member_name_code : ℕ
  pub request_id : ℕ
  pub error : ℕ
  pub metadata : Str
  pub element_count : ℕ

abbrev pub EntryHeader : Type 0
EntryHeader = EntryHeaderOf HeaderString

abbrev pub EntryConstHeader : Type 0
EntryConstHeader = EntryHeaderOf (List ℕ)

pub record EntryBufferInfo : Type 0 where
  pub start_buffer_offset : ℕ
  pub header_size : ℕ
  pub element_count_offset : ℕ
  pub element_start_offset : ℕ
  pub entry_size_offset : ℕ

pub record EntryReader : Type 0 where
  pub buffer : BufferVec
  pub buffer_offset : ℕ
  pub buffer_count : ℕ
  pub buffer_remaining : ℕ
  pub entry_count_offset : ℕ
  pub current_entry : ℕ
  pub message_version : ℕ

abbrev pub flag_service_path_str : ℕ
flag_service_path_str = 1

abbrev pub flag_service_path_code : ℕ
flag_service_path_code = 2

abbrev pub flag_member_name_str : ℕ
flag_member_name_str = 4

abbrev pub flag_member_name_code : ℕ
flag_member_name_code = 8

abbrev pub flag_request_id : ℕ
flag_request_id = 16

abbrev pub flag_error : ℕ
flag_error = 32

abbrev pub flag_entry_meta_info : ℕ
flag_entry_meta_info = 64

abbrev pub flag_entry_extended : ℕ
flag_entry_extended = 128

-- The caller's header and the local variables of the readers of an entry's header.
pub record EntryRead : Type 0 where
  pub header : EntryHeader
  pub service_path_info : StringInfo
  pub member_name_info : StringInfo
  pub meta_info : StringInfo
  pub flags : ℕ
  pub element_count_offset : ℕ

abbrev on_header : EntryRead → (ℕ → EntryHeader → EntryHeader) → ℕ → EntryRead
on_header s put x = record s { header = put x s.header }

abbrev put_element_count : EntryRead → ℕ → ℕ → EntryRead
put_element_count s o x = record s {
  header = record s.header { element_count = x };
  element_count_offset = o;
}

abbrev step_entry_type : Step EntryRead
step_entry_type v o s =
    into (message_read_uint16 v o s.header.entry_type)
      (on_header s (λ x h. record h { entry_type = x }))

abbrev step_error : Step EntryRead
step_error v o s =
    into (message_read_uint16 v o s.header.error) (on_header s (λ x h. record h { error = x }))

unfoldable pub entry_fields2 : List (Step EntryRead)
entry_fields2 =
    (λ v o s.
      into (message_read_uint32 v o s.header.entry_size)
        (on_header s (λ x h. record h { entry_size = x })))
    ∷ step_entry_type
    ∷ (λ v o s. some (success, add_size o 2, s))
    ∷ (λ v o s.
        keep (message_read_header_string_with_len_prefix2_1 v o s.service_path_info)
          (λ i. record s { service_path_info = i }))
    ∷ (λ v o s.
        keep (message_read_header_string_with_len_prefix2_1 v o s.member_name_info)
          (λ i. record s { member_name_info = i }))
    ∷ (λ v o s.
        into (message_read_uint32 v o s.header.request_id)
          (on_header s (λ x h. record h { request_id = x })))
    ∷ step_error
    ∷ (λ v o s.
        keep (message_read_header_string_with_len_prefix2_1 v o s.meta_info)
          (λ i. record s { meta_info = i }))
    ∷ (λ v o s. into_copy (message_read_uint16 v o 0) s (put_element_count s o))
    ∷ []

-- Version 4 up to the flags and the type.
pub entry_first4 : List (Step EntryRead)
entry_first4 =
    (λ v o s.
      into (message_read_uint_x v o s.header.entry_size)
        (on_header s (λ x h. record h { entry_size = x })))
    ∷ (λ v o s. into (message_read_uint8 v o s.flags) (λ x. record s { flags = x }))
    ∷ step_entry_type
    ∷ []

pub entry_groups4 : ℕ → List (Step EntryRead)
entry_groups4 flags =
    choose (flags_check flags flag_service_path_str)
      ((λ v o s.
          keep (message_read_header_string_with_len_prefix4_1 v o s.service_path_info)
            (λ i. record s { service_path_info = i }))
        ∷ [])
      (λ s. s)
    ∷ choose (flags_check flags flag_service_path_code)
        ((λ v o s.
            into (message_read_uint_x v o s.header.service_path_code)
              (on_header s (λ x h. record h { service_path_code = x })))
          ∷ [])
        (λ s. on_header s (λ x h. record h { service_path_code = x }) 0)
    ∷ choose (flags_check flags flag_member_name_str)
        ((λ v o s.
            keep (message_read_header_string_with_len_prefix4_1 v o s.member_name_info)
              (λ i. record s { member_name_info = i }))
          ∷ [])
        (λ s. s)
    ∷ choose (flags_check flags flag_member_name_code)
        ((λ v o s.
            into (message_read_uint_x v o s.header.member_name_code)
              (on_header s (λ x h. record h { member_name_code = x })))
          ∷ [])
        (λ s. on_header s (λ x h. record h { member_name_code = x }) 0)
    ∷ choose (flags_check flags flag_request_id)
        ((λ v o s.
            into (message_read_uint_x v o s.header.request_id)
              (on_header s (λ x h. record h { request_id = x })))
          ∷ [])
        (λ s. on_header s (λ x h. record h { request_id = x }) 0)
    ∷ choose (flags_check flags flag_error) (step_error ∷ [])
        (λ s. on_header s (λ x h. record h { error = x }) 0)
    ∷ choose (flags_check flags flag_entry_meta_info)
        ((λ v o s.
            keep (message_read_header_string_with_len_prefix4_1 v o s.meta_info)
              (λ i. record s { meta_info = i }))
          ∷ [])
        (λ s. s)
    ∷ choose (flags_check flags flag_entry_extended) (skip_size ∷ []) (λ s. s)
    ∷ (λ v o s. into (message_read_uint_x v o s.header.element_count) (put_element_count s o))
    ∷ []

abbrev entry_string :
    StringInfo
    → HeaderString
    → (HeaderString → EntryHeader)
    → BufferVec
    → ℕ
    → EntryRead
    → Option (Status × ℕ × EntryRead)
entry_string place str put v o s = message_read_header_string_with_len_prefix_2 v place str >>= λ r.
    some (r.0, o, record s { header = put r.1 })

abbrev string_service_path : Step EntryRead
string_service_path v o s =
    entry_string s.service_path_info s.header.service_path
      (λ x. record s.header { service_path = x }) v o s

abbrev string_member_name : Step EntryRead
string_member_name v o s =
    entry_string s.member_name_info s.header.member_name (λ x. record s.header { member_name = x })
      v o s

abbrev string_entry_metadata : Step EntryRead
string_entry_metadata v o s =
    entry_string s.meta_info s.header.metadata (λ x. record s.header { metadata = x }) v o s

unfoldable pub entry_strings2 : List (Step EntryRead)
entry_strings2 = string_service_path ∷ string_member_name ∷ string_entry_metadata ∷ []

pub entry_strings4 : ℕ → List (Step EntryRead)
entry_strings4 flags =
    choose (flags_check flags flag_service_path_str) (string_service_path ∷ [])
      (λ s. record s { header = record s.header { service_path = no_string } })
    ∷ choose (flags_check flags flag_member_name_str) (string_member_name ∷ [])
        (λ s. record s { header = record s.header { member_name = no_string } })
    ∷ choose (flags_check flags flag_entry_meta_info) (string_entry_metadata ∷ [])
        (λ s. record s { header = record s.header { metadata = no_string } })
    ∷ []

abbrev pub EntryResult : Type 0
EntryResult = Option (Status × EntryHeader × EntryBufferInfo)

abbrev no_place : StringInfo
no_place = record { offset = 0; str_len = 0 }

abbrev entry_start : EntryHeader → EntryRead
entry_start header = record {
  header = header;
  service_path_info = no_place;
  member_name_info = no_place;
  meta_info = no_place;
  flags = 0;
  element_count_offset = 0;
}

-- The strings and `*buffer_info`, from the offset behind the fields.
unfoldable pub entry_end :
    EntryReader → EntryBufferInfo → List (Step EntryRead) → ℕ → EntryRead → EntryResult
entry_end reader info strings o s = run strings reader.buffer o s >>= λ t.
    if failed t.0
    then some (t.0, t.2.header, info)
    else some (
      success,
      t.2.header,
      record {
        start_buffer_offset = reader.buffer_offset;
        header_size = sub_size o reader.buffer_offset;
        element_count_offset = t.2.element_count_offset;
        element_start_offset = o;
        entry_size_offset = reader.buffer_offset;
      },
    )

unfoldable pub messageentry_reader_read_header2_ex :
    EntryReader → EntryHeader → EntryBufferInfo → EntryResult
messageentry_reader_read_header2_ex reader header info =
    run entry_fields2 reader.buffer reader.buffer_offset (entry_start header) >>= λ t.
    if failed t.0
    then some (t.0, t.2.header, info)
    else entry_end reader info entry_strings2 t.1 t.2

pub messageentry_reader_read_header4_ex : EntryReader → EntryHeader → EntryBufferInfo → EntryResult
messageentry_reader_read_header4_ex reader header info =
    run entry_first4 reader.buffer reader.buffer_offset (entry_start header) >>= λ f.
    if failed f.0
    then some (f.0, f.2.header, info)
    else run (entry_groups4 f.2.flags) reader.buffer f.1 f.2 >>= λ t.
        if failed t.0
        then some (t.0, t.2.header, info)
        else entry_end reader info (entry_strings4 t.2.flags) t.1 t.2

unfoldable pub messageentry_reader_read_header_ex :
    EntryReader → EntryHeader → EntryBufferInfo → EntryResult
messageentry_reader_read_header_ex reader header info =
    if reader.message_version == 2
    then messageentry_reader_read_header2_ex reader header info
    else if reader.message_version == 4
    then messageentry_reader_read_header4_ex reader header info
    else some (protocol, header, info)

abbrev zero_header : MessageHeader
zero_header = record {
  message_size = 0;
  message_version = 0;
  header_size = 0;
  message_flags = 0;
  sender_nodeid = zero_nodeid;
  receiver_nodeid = zero_nodeid;
  sender_endpoint = 0;
  receiver_endpoint = 0;
  priority = 0;
  sender_nodename = no_string;
  receiver_nodename = no_string;
  metadata = no_string;
  entry_count = 0;
  message_id = 0;
  message_res_id = 0;
}

-- The last component is `*entry_reader`.
pub message_reader_begin_read_entries : MessageReader → EntryReader → Option (Status × EntryReader)
message_reader_begin_read_entries reader entry_reader =
    message_reader_read_header_ex reader zero_header no_info >>= λ (status, header, info).
    if failed status
    then some (status, entry_reader)
    else (let o = add_size reader.buffer_offset header.header_size in
        message_read_count reader.buffer reader.message_version o 0 >>= λ (read, o2, entry_size).
        if failed read
        then some (read, entry_reader)
        else if ltb reader.buffer_count (add_size o entry_size)
        then some (protocol, entry_reader)
        else some (
          success,
          record {
            buffer = reader.buffer;
            buffer_offset = add_size reader.buffer_offset o;
            buffer_count = entry_size;
            buffer_remaining = sub_size (sub_size reader.buffer_count o) entry_size;
            entry_count_offset = info.entry_count_offset;
            current_entry = 0;
            message_version = reader.message_version;
          },
        ))

-- The step to the entry behind, whose size has been read.
abbrev step_entry : EntryReader → ℕ → ℕ → Status × EntryReader
step_entry reader o entry_size =
    if ltb reader.buffer_remaining entry_size then (protocol, reader) else (
      success,
      record reader {
        buffer_offset = o;
        buffer_count = entry_size;
        buffer_remaining = sub_size reader.buffer_remaining entry_size;
        current_entry = add_size reader.current_entry 1;
      },
    )

pub messageentry_reader_move_next : EntryReader → Option (Status × EntryReader)
messageentry_reader_move_next reader =
    if reader.entry_count_offset == size_max
    then some (no_more, reader)
    else message_read_count2 reader.buffer reader.message_version reader.entry_count_offset 0
      >>= λ (counted, o2, entry_count).
          if failed counted
          then some (counted, reader)
          else if not (ltb (add_size reader.current_entry 1) entry_count)
          then some (no_more, reader)
          else (let o = add_size reader.buffer_offset reader.buffer_count in
              message_read_count reader.buffer reader.message_version o 0
              >>= λ (read, o3, entry_size).
                  if failed read
                  then some (read, reader)
                  else some (step_entry reader o entry_size))
