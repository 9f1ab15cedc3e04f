-- ===== src/Message/Entry/Write.antt =====
-- src/message.c: writing the header of an entry, and the calls that begin and end an entry.
use robotraconteurlite.Prelude.{
  ℕ, ◌%◌, not, Option, none, some, List, [], ◌∷◌, ◌==◌, ltb, if◌then◌else◌, ◌>>=◌, add_size,
  sub_size, length,
}
use robotraconteurlite.Status.{Status, success, protocol, failed}
use robotraconteurlite.Array.{BufferVec}
use robotraconteurlite.Message.Numbers.{
  message_write_uint8, message_write_uint16, message_write_uint32, message_write_uint_x,
  message_write_padded_uint_x, message_write_padded_uint_x_val, uint16_max,
}
use robotraconteurlite.Message.Steps.{Writer, write_all, write_when}
use robotraconteurlite.Message.Strings.{
  message_write_header_string_with_len_prefix2, message_write_header_string_with_len_prefix4,
}
use robotraconteurlite.Message.Header.{flags_check}
use robotraconteurlite.Message.Header.Flags.{set_flag}
use robotraconteurlite.Message.Header.Write.{EntryWriter}
use robotraconteurlite.Message.Entry.{
  EntryConstHeader, EntryBufferInfo, flag_service_path_str, flag_service_path_code,
  flag_member_name_str, flag_member_name_code, flag_request_id, flag_error, flag_entry_meta_info,
}

pub record ElementWriter : Type 0 where
  pub buffer : BufferVec
  pub buffer_offset : ℕ
  pub buffer_count : ℕ
  pub elements_written_count : ℕ
  pub elements_written_size : ℕ
  pub element_size_offset : ℕ
  pub data_count_offset : ℕ
  pub element_header_size : ℕ
  pub message_version : ℕ

-- What the writers return: the status, the buffers, `*offset` and `*buffer_info`.
abbrev pub EntryWrite : Type 0
EntryWrite = Option (Status × BufferVec × ℕ × EntryBufferInfo)

-- Version 2 up to the number of elements.
unfoldable pub entry_write2 : EntryConstHeader → List Writer
entry_write2 header =
    (λ v o. message_write_uint32 v o 0)
    ∷ (λ v o. message_write_uint16 v o header.entry_type)
    ∷ (λ v o. message_write_uint16 v o 0)
    ∷ message_write_header_string_with_len_prefix2 header.service_path
    ∷ message_write_header_string_with_len_prefix2 header.member_name
    ∷ (λ v o. message_write_uint32 v o header.request_id)
    ∷ (λ v o. message_write_uint16 v o header.error)
    ∷ message_write_header_string_with_len_prefix2 header.metadata
    ∷ []

unfoldable pub messageentry_writer_write_header2_ex :
    EntryWriter → ℕ → EntryConstHeader → EntryBufferInfo → EntryWrite
messageentry_writer_write_header2_ex writer offset header info =
    let info = record info { entry_size_offset = offset } in
    write_all (entry_write2 header) writer.buffer offset >>= λ t.
    if failed t.0
    then some (t.0, t.1, t.2, info)
    else message_write_uint16 t.1 t.2 0 >>= λ u.
        let info = record info { element_count_offset = t.2 } in
        if failed u.0
        then some (u.0, u.1, u.2, info)
        else some (
          success,
          u.1,
          u.2,
          record info {
            header_size = sub_size u.2 writer.buffer_offset;
            element_start_offset = u.2;
          },
        )

pub entry_flags : EntryConstHeader → ℕ
entry_flags header = set_flag (ltb 0 (length header.metadata)) flag_entry_meta_info (
    set_flag (not (header.error == 0)) flag_error (
      set_flag (not (header.request_id == 0)) flag_request_id (
        set_flag (ltb 0 (length header.member_name)) flag_member_name_str (
          set_flag (not (header.service_path_code == 0)) flag_service_path_code
            (set_flag (ltb 0 (length header.service_path)) flag_service_path_str 0)))))

-- Version 4 from the flags up to the number of elements.
pub entry_write4 : EntryConstHeader → ℕ → List Writer
entry_write4 header flags =
    (λ v o. message_write_uint8 v o flags)
    ∷ (λ v o. message_write_uint16 v o header.entry_type)
    ∷ write_when (flags_check flags flag_service_path_str)
        (message_write_header_string_with_len_prefix4 header.service_path ∷ [])
    ∷ write_when (flags_check flags flag_service_path_code)
        ((λ v o. message_write_uint_x v o header.service_path_code) ∷ [])
    ∷ write_when (flags_check flags flag_member_name_str)
        (message_write_header_string_with_len_prefix4 header.member_name ∷ [])
    ∷ write_when (flags_check flags flag_member_name_code)
        ((λ v o. message_write_uint_x v o header.member_name_code) ∷ [])
    ∷ write_when (flags_check flags flag_request_id)
        ((λ v o. message_write_uint_x v o header.request_id) ∷ [])
    ∷ write_when (flags_check flags flag_error)
        ((λ v o. message_write_uint16 v o header.error) ∷ [])
    ∷ write_when (flags_check flags flag_entry_meta_info)
        (message_write_header_string_with_len_prefix4 header.metadata ∷ [])
    ∷ []

-- An offset that is set on success only.
abbrev placed : Option ℕ → ℕ → ℕ
placed none old = old
placed (some o) old = o

pub messageentry_writer_write_header4_ex :
    EntryWriter → ℕ → EntryConstHeader → EntryBufferInfo → EntryWrite
messageentry_writer_write_header4_ex writer offset header info =
    message_write_padded_uint_x writer.buffer offset 0 >>= λ r.
    let info = record info { entry_size_offset = placed r.1 info.entry_size_offset } in
    if failed r.0.0
    then some (r.0.0, r.0.1, r.0.2, info)
    else write_all (entry_write4 header (entry_flags header)) r.0.1 r.0.2 >>= λ t.
        if failed t.0
        then some (t.0, t.1, t.2, info)
        else message_write_padded_uint_x t.1 t.2 0 >>= λ u.
            let info = record info {
              element_count_offset = placed u.1 info.element_count_offset;
            } in
            if failed u.0.0
            then some (u.0.0, u.0.1, u.0.2, info)
            else some (
              success,
              u.0.1,
              u.0.2,
              record info {
                header_size = sub_size u.0.2 writer.buffer_offset;
                element_start_offset = u.0.2;
              },
            )

-- What the calls on an entry return: the status, `*entry_writer` and `*element_writer`.
abbrev pub EntryStep : Type 0
EntryStep = Option (Status × EntryWriter × ElementWriter)

abbrev begin_entry_with : EntryWriter → ElementWriter → EntryWrite → EntryStep
begin_entry_with writer element_writer written = written >>= λ (status, buffer, offset, info).
    if failed status
    then some (status, record writer { buffer = buffer }, element_writer)
    else some (
      success,
      record writer {
        buffer = buffer;
        entry_size_offset = info.entry_size_offset;
        element_count_offset = info.element_count_offset;
        entry_header_size = info.header_size;
      },
      record element_writer {
        buffer = buffer;
        buffer_offset = add_size writer.buffer_offset info.header_size;
        buffer_count = sub_size writer.buffer_count info.header_size;
        elements_written_count = 0;
        elements_written_size = 0;
        message_version = writer.message_version;
      },
    )

abbrev pub no_entry_info : EntryBufferInfo
no_entry_info = record {
  start_buffer_offset = 0;
  header_size = 0;
  element_count_offset = 0;
  element_start_offset = 0;
  entry_size_offset = 0;
}

unfoldable pub messageentry_writer_begin_entry :
    EntryWriter → EntryConstHeader → ElementWriter → EntryStep
messageentry_writer_begin_entry writer header element_writer =
    if not (ltb writer.entries_written_count uint16_max)
    then some (protocol, writer, element_writer)
    else if writer.message_version == 2
    then begin_entry_with writer element_writer
        (messageentry_writer_write_header2_ex writer writer.buffer_offset header no_entry_info)
    else if writer.message_version == 4
    then begin_entry_with writer element_writer
        (messageentry_writer_write_header4_ex writer writer.buffer_offset header no_entry_info)
    else some (protocol, writer, element_writer)

-- The size of the entry and the number of its elements are put in.
unfoldable pub write_entry_size : EntryWriter → ℕ → ℕ → Option (Status × BufferVec)
write_entry_size writer size count =
    if writer.message_version == 2
    then (message_write_uint32 writer.buffer writer.entry_size_offset size >>= λ r.
        if failed r.0
        then some (r.0, r.1)
        else message_write_uint16 r.1 writer.element_count_offset (count % 65536) >>= λ t.
            some (t.0, t.1))
    else if writer.message_version == 4
    then (message_write_padded_uint_x_val writer.buffer writer.entry_size_offset size >>= λ r.
        if failed r.0
        then some r
        else message_write_padded_uint_x_val r.1 writer.element_count_offset (count % 4294967296))
    else some (protocol, writer.buffer)

unfoldable pub messageentry_writer_end_entry : EntryWriter → ElementWriter → EntryStep
messageentry_writer_end_entry writer element_writer =
    let size =
      add_size writer.entry_header_size element_writer.elements_written_size % 4294967296 in
    write_entry_size writer size element_writer.elements_written_count >>= λ r.
    let element_writer = record element_writer { buffer = r.1 } in
    if failed r.0
    then some (r.0, record writer { buffer = r.1 }, element_writer)
    else some (
      success,
      record writer {
        buffer = r.1;
        entries_written_count = add_size writer.entries_written_count 1;
        entries_written_size = add_size writer.entries_written_size size;
        buffer_offset = add_size writer.buffer_offset size;
        buffer_count = sub_size writer.buffer_count size;
      },
      element_writer,
    )
