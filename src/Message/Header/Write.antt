-- ===== src/Message/Header/Write.antt =====
-- src/message.c: writing the header of a message, and the calls that begin and end a message.
use robotraconteurlite.Prelude.{
  ℕ, ◌+◌, ◌%◌, Bool, not, ◌&&◌, ◌||◌, Option, none, some, List, [], ◌∷◌, ◌==◌, ltb, if◌then◌else◌,
  ◌>>=◌, add_size, sub_size, length, bit_and, bit_or,
}
use robotraconteurlite.Prelude.Magic.{rrac_magic}
use robotraconteurlite.Status.{Status, success, out_of_range, protocol, internal_error, failed}
use robotraconteurlite.NodeId.{nodeid_isany}
use robotraconteurlite.Array.{BufferVec}
use robotraconteurlite.Array.Numbers.{copy_from_uint32}
use robotraconteurlite.Message.Numbers.{
  message_write_uint8, message_write_uint16, message_write_uint32, message_write_uint_x,
  message_uint_x_size, message_padded_uint_x_size, message_len_plus_uint_x,
  message_write_padded_uint_x, message_write_padded_uint_x_val, uint16_max, uint32_max,
}
use robotraconteurlite.Message.Steps.{Writer, write_all, write_when}
use robotraconteurlite.Message.Strings.{
  nodeid_size, write_run, message_header_string_with_len_prefix_size4,
  message_write_header_string_with_len_prefix2, message_write_header_string_with_len_prefix4,
}
use robotraconteurlite.Message.Header.{
  MessageConstHeader, MessageBufferInfo, flags_check, flag_routing_info, flag_endpoint_info,
  flag_priority, flag_unreliable, flag_meta_info, flag_multiple_entries,
}
use robotraconteurlite.Message.Header.Read.{size_max}

pub record MessageWriter : Type 0 where
  pub buffer : BufferVec
  pub buffer_offset : ℕ
  pub buffer_count : ℕ
  pub message_size_offset : ℕ
  pub entry_count_offset : ℕ
  pub message_version : ℕ

pub record EntryWriter : Type 0 where
  pub buffer : BufferVec
  pub buffer_offset : ℕ
  pub buffer_count : ℕ
  pub entries_written_count : ℕ
  pub entries_written_size : ℕ
  pub entry_size_offset : ℕ
  pub element_count_offset : ℕ
  pub entry_header_size : ℕ
  pub message_version : ℕ

-- What the writers return: the status, the buffers, `*offset`, `*header` and `*buffer_info`.
abbrev pub HeaderWrite : Type 0
HeaderWrite = Option (Status × BufferVec × ℕ × MessageConstHeader × MessageBufferInfo)

module _ (header : MessageConstHeader) where
  -- `str4_len`
  unfoldable pub strings_len : ℕ
  strings_len =
      add_size (add_size (length header.sender_nodename) (length header.receiver_nodename))
        (length header.metadata)

  unfoldable pub too_long2 : Bool
  too_long2 =
      ltb uint16_max (length header.sender_nodename)
      || ltb uint16_max (length header.receiver_nodename)
      || ltb uint16_max (length header.metadata)
      || ltb uint16_max (add_size strings_len 64)

  unfoldable pub header_size2 : ℕ
  header_size2 = add_size strings_len 64 % 65536

  -- Version 2 up to the number of entries, and from there.
  unfoldable pub write2 : List Writer
  write2 =
      write_run 4 rrac_magic
      ∷ (λ v o. message_write_uint32 v o 0)
      ∷ (λ v o. message_write_uint16 v o 2)
      ∷ (λ v o. message_write_uint16 v o header_size2)
      ∷ write_run nodeid_size header.sender_nodeid
      ∷ write_run nodeid_size header.receiver_nodeid
      ∷ (λ v o. message_write_uint32 v o header.sender_endpoint)
      ∷ (λ v o. message_write_uint32 v o header.receiver_endpoint)
      ∷ message_write_header_string_with_len_prefix2 header.sender_nodename
      ∷ message_write_header_string_with_len_prefix2 header.receiver_nodename
      ∷ message_write_header_string_with_len_prefix2 header.metadata
      ∷ []

  unfoldable pub write_ids2 : List Writer
  write_ids2 =
      (λ v o. message_write_uint16 v o (header.entry_count % 65536))
      ∷ (λ v o. message_write_uint16 v o header.message_id)
      ∷ (λ v o. message_write_uint16 v o header.message_res_id)
      ∷ []

  unfoldable pub message_writer_write_header2_ex : BufferVec → ℕ → MessageBufferInfo → HeaderWrite
  message_writer_write_header2_ex buffer offset info =
      if too_long2
      then some (out_of_range, buffer, offset, header, info)
      else (let info = record info { start_buffer_offset = offset } in
          write_all write2 buffer offset >>= λ t.
          if failed t.0
          then some (t.0, t.1, t.2, header, info)
          else if ltb uint16_max header.entry_count
          then some (out_of_range, t.1, t.2, header, record info { entry_count_offset = t.2 })
          else write_all write_ids2 t.1 t.2 >>= λ u.
              if failed u.0
              then some (u.0, u.1, u.2, header, record info { entry_count_offset = t.2 })
              else some (
                success,
                u.1,
                u.2,
                record header { header_size = header_size2 },
                record info {
                  entry_count_offset = t.2;
                  entry_start_offset = u.2;
                  header_size = header_size2;
                },
              ))

-- The size of a header and its flags, as they are found before it is written. No sum of sizes
-- wraps, since the length of every string is checked first.
abbrev pub Planned : Type 0
Planned = Status × ℕ × ℕ

infixl 5 ◌then_size◌
abbrev pub ◌then_size◌ : Status × ℕ → (ℕ → Planned) → Planned
r then_size k = if failed r.0 then (r.0, 0, 0) else k r.1

infixl 5 ◌then_plan◌
abbrev pub ◌then_plan◌ : Planned → (ℕ → ℕ → Planned) → Planned
p then_plan k = if failed p.0 then p else k p.1 p.2

abbrev pub add_len : Status × Option (ℕ × ℕ) → ℕ → ℕ → Planned
add_len (status, none) size flags = (status, 0, 0)
add_len (status, some (total, n)) size flags =
    if failed status
    then (status, 0, 0)
    else if ltb uint32_max (size + n)
    then (out_of_range, 0, 0)
    else (success, size + n, flags)

module _ (header : MessageConstHeader) (mask : ℕ) where
  unfoldable pub wants_routing : Bool
  wants_routing =
      flags_check mask flag_routing_info
      && (not (nodeid_isany header.sender_nodeid)
          || not (nodeid_isany header.receiver_nodeid)
          || not (length header.sender_nodename == 0)
          || not (length header.receiver_nodename == 0))

  unfoldable pub wants_endpoint : Bool
  wants_endpoint =
      flags_check mask flag_endpoint_info
      && (not (header.sender_endpoint == 0) || not (header.receiver_endpoint == 0))

  unfoldable pub wants_priority : Bool
  wants_priority = flags_check mask flag_priority && not (header.priority == 0)

  unfoldable pub wants_meta : Bool
  wants_meta =
      flags_check mask flag_meta_info
      && (not (length header.metadata == 0)
          || not (header.message_id == 0)
          || not (header.message_res_id == 0))

  unfoldable pub wants_entries : Bool
  wants_entries = flags_check mask flag_multiple_entries && not (header.entry_count == 1)

  unfoldable pub plan_routing : ℕ → ℕ → Planned
  plan_routing size flags =
      if wants_routing
      then message_header_string_with_len_prefix_size4 header.sender_nodename then_size (λ m.
        message_header_string_with_len_prefix_size4 header.receiver_nodename
        then_size (λ n. (success, size + 32 + m + n, bit_or flags flag_routing_info)))
      else (success, size, flags)

  unfoldable pub plan_endpoint : ℕ → ℕ → Planned
  plan_endpoint size flags =
      if wants_endpoint
      then message_uint_x_size header.sender_endpoint then_size (λ m.
        message_uint_x_size header.receiver_endpoint
        then_size (λ n. (success, size + m + n, bit_or flags flag_endpoint_info)))
      else (success, size, flags)

  unfoldable pub plan_priority : ℕ → ℕ → Planned
  plan_priority size flags =
      if wants_priority
      then (success, size + 2, bit_or flags flag_priority)
      else (success, size, flags)

  unfoldable pub plan_meta : ℕ → ℕ → Planned
  plan_meta size flags =
      if wants_meta
      then message_header_string_with_len_prefix_size4 header.metadata
        then_size (λ m. (success, size + m + 4, bit_or flags flag_meta_info))
      else (success, size, flags)

  unfoldable pub plan_entries : ℕ → ℕ → Planned
  plan_entries size flags =
      if wants_entries
      then message_padded_uint_x_size header.entry_count
        then_size (λ m. (success, size + m, bit_or flags flag_multiple_entries))
      else (success, size, flags)

  -- The size of the header's own length is added last.
  unfoldable pub plan_size : ℕ → ℕ → Planned
  plan_size size flags =
      if ltb uint32_max size
      then (out_of_range, 0, 0)
      else add_len (message_len_plus_uint_x size) size flags

  unfoldable pub plan4 : Planned
  plan4 =
      plan_routing 11 0
      then_plan plan_endpoint
      then_plan plan_priority
      then_plan plan_meta
      then_plan plan_entries
      then_plan (λ size flags.
          plan_size size (bit_or flags (bit_and (bit_and mask flag_unreliable) flags)))

-- Version 4 up to the number of entries.
unfoldable pub write4 : MessageConstHeader → ℕ → ℕ → List Writer
write4 header size flags =
    write_run 4 rrac_magic
    ∷ (λ v o. message_write_uint32 v o 0)
    ∷ (λ v o. message_write_uint16 v o 4)
    ∷ (λ v o. message_write_uint_x v o size)
    ∷ (λ v o. message_write_uint8 v o flags)
    ∷ write_when (flags_check flags flag_routing_info) (
        write_run nodeid_size header.sender_nodeid
        ∷ write_run nodeid_size header.receiver_nodeid
        ∷ message_write_header_string_with_len_prefix4 header.sender_nodename
        ∷ message_write_header_string_with_len_prefix4 header.receiver_nodename
        ∷ [])
    ∷ write_when (flags_check flags flag_endpoint_info) (
        (λ v o. message_write_uint_x v o header.sender_endpoint)
        ∷ (λ v o. message_write_uint_x v o header.receiver_endpoint)
        ∷ [])
    ∷ write_when (flags_check flags flag_priority)
        ((λ v o. message_write_uint16 v o header.priority) ∷ [])
    ∷ write_when (flags_check flags flag_meta_info) (
        message_write_header_string_with_len_prefix4 header.metadata
        ∷ (λ v o. message_write_uint16 v o header.message_id)
        ∷ (λ v o. message_write_uint16 v o header.message_res_id)
        ∷ [])
    ∷ []

-- The last component is `entry_count_offset`.
unfoldable pub write_entries4 :
    MessageConstHeader → ℕ → BufferVec → ℕ → Option ((Status × BufferVec × ℕ) × Option ℕ)
write_entries4 header flags buffer offset =
    if flags_check flags flag_multiple_entries
    then message_write_padded_uint_x buffer offset header.entry_count
    else some ((success, buffer, offset), some size_max)

abbrev put_count_offset : Option ℕ → MessageBufferInfo → MessageBufferInfo
put_count_offset none info = info
put_count_offset (some o) info = record info { entry_count_offset = o }

-- The planned header is written. The size is at most the largest 32-bit number, as `plan4` has it.
unfoldable pub write_planned4 :
    MessageConstHeader → ℕ → ℕ → BufferVec → ℕ → MessageBufferInfo → HeaderWrite
write_planned4 header size flags buffer offset info =
    let info = record info { start_buffer_offset = offset } in
    write_all (write4 header size flags) buffer offset >>= λ t.
    if failed t.0
    then some (t.0, t.1, t.2, header, info)
    else write_entries4 header flags t.1 t.2 >>= λ u.
        let info = put_count_offset u.1 info in
        if failed u.0.0
        then some (u.0.0, u.0.1, u.0.2, header, info)
        else if not (sub_size u.0.2 offset == size)
        then some (internal_error, u.0.1, u.0.2, header, info)
        else some (
          success,
          u.0.1,
          u.0.2,
          record header { header_size = size },
          record info { entry_start_offset = u.0.2; header_size = size },
        )

unfoldable pub message_writer_write_header4_ex :
    MessageConstHeader → ℕ → BufferVec → ℕ → MessageBufferInfo → HeaderWrite
message_writer_write_header4_ex header mask buffer offset info =
    let p = plan4 header mask in
    if failed p.0
    then some (p.0, buffer, offset, header, info)
    else write_planned4 header p.1 p.2 buffer offset info

-- What the calls on a message return: the status, `*writer`, `*header` and `*entry_writer`. The
-- two writers share their buffer.
abbrev pub MessageResult : Type 0
MessageResult = Option (Status × MessageWriter × MessageConstHeader × EntryWriter)

abbrev pub no_info : MessageBufferInfo
no_info = record {
  start_buffer_offset = 0;
  header_size = 0;
  entry_count_offset = 0;
  entry_start_offset = 0;
}

abbrev begin_with : MessageWriter → EntryWriter → HeaderWrite → MessageResult
begin_with writer entry_writer written = written >>= λ (status, buffer, offset, header, info).
    if failed status
    then some (status, record writer { buffer = buffer }, header, entry_writer)
    else some (
      success,
      record writer {
        buffer = buffer;
        message_size_offset = add_size info.start_buffer_offset 4;
        entry_count_offset = info.entry_count_offset;
      },
      header,
      record entry_writer {
        buffer = buffer;
        buffer_offset = add_size writer.buffer_offset info.header_size;
        buffer_count = sub_size writer.buffer_count info.header_size;
        entries_written_count = 0;
        entries_written_size = 0;
        message_version = writer.message_version;
      },
    )

unfoldable pub message_writer_begin_message_ex :
    MessageWriter → MessageConstHeader → EntryWriter → ℕ → MessageResult
message_writer_begin_message_ex writer header entry_writer mask =
    if writer.message_version == 2
    then begin_with writer entry_writer
        (message_writer_write_header2_ex header writer.buffer writer.buffer_offset no_info)
    else if writer.message_version == 4
    then begin_with writer entry_writer
        (message_writer_write_header4_ex header mask writer.buffer writer.buffer_offset no_info)
    else some (protocol, writer, header, entry_writer)

unfoldable pub message_writer_begin_message :
    MessageWriter → MessageConstHeader → EntryWriter → MessageResult
message_writer_begin_message writer header entry_writer =
    message_writer_begin_message_ex writer header entry_writer 255

-- The number of entries at `entry_count_offset`, where the header has one.
unfoldable pub write_entry_count : MessageWriter → BufferVec → ℕ → Option (Status × BufferVec)
write_entry_count writer buffer count =
    if not (writer.entry_count_offset == size_max)
    then (if writer.message_version == 2
        then (message_write_uint16 buffer writer.entry_count_offset (count % 65536) >>= λ r.
            some (r.0, r.1))
        else if writer.message_version == 4
        then message_write_padded_uint_x_val buffer writer.entry_count_offset (count % 4294967296)
        else some (protocol, buffer))
    else some (if count == 1 then success else protocol, buffer)

unfoldable pub message_writer_end_message :
    MessageWriter → MessageConstHeader → EntryWriter → MessageResult
message_writer_end_message writer header entry_writer =
    let size = add_size entry_writer.entries_written_size header.header_size in
    let count = entry_writer.entries_written_count in
    if ltb uint32_max size
    then some (out_of_range, writer, header, entry_writer)
    else copy_from_uint32 writer.buffer writer.message_size_offset size >>= λ r.
        if failed r.0
        then some
            (r.0, record writer { buffer = r.1 }, header, record entry_writer { buffer = r.1 })
        else write_entry_count writer r.1 count >>= λ c. some (
          c.0,
          record writer { buffer = c.1 },
          (if failed c.0
              then header
              else record header { message_size = size; entry_count = count % 4294967296 }),
          record entry_writer { buffer = c.1 },
        )
