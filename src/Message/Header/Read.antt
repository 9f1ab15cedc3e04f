-- ===== src/Message/Header/Read.antt =====
-- src/message.c: reading the header of a message. The functions keep what they have read in a
-- record; one that fails in the middle leaves the fields read so far in the caller's header.
use robotraconteurlite.Prelude.{
  ℕ, not, Option, some, List, [], ◌∷◌, ◌==◌, if◌then◌else◌, ◌>>=◌, add_size, sub_size, size_mod,
  ◌-◌,
}
use robotraconteurlite.Status.{Status, success, protocol, failed}
use robotraconteurlite.NodeId.{zero_nodeid}
use robotraconteurlite.Message.Numbers.{
  Read, message_read_uint8, message_read_uint16, message_read_uint32, message_read_uint_x,
}
use robotraconteurlite.Message.Steps.{Step, run, into, choose}
use robotraconteurlite.Message.Strings.{
  HeaderString, StringInfo, no_string, message_read_header_string_with_len_prefix2_1,
  message_read_header_string_with_len_prefix4_1, message_read_header_string_with_len_prefix_2,
  message_read_nodeid,
}
use robotraconteurlite.Message.Header.{
  MessageHeader, MessageReader, MessageBufferInfo, flags_check, flag_routing_info,
  flag_endpoint_info, flag_priority, flag_meta_info, flag_string_table, flag_multiple_entries,
  flag_extended, flags_version2compat,
}

abbrev pub size_max : ℕ
size_max = size_mod - 1

-- The caller's header and the local variables of the two readers.
pub record HeaderRead : Type 0 where
  pub header : MessageHeader
  pub sender_nodename_info : StringInfo
  pub receiver_nodename_info : StringInfo
  pub meta_info : StringInfo
  pub flags : ℕ
  pub buffer_info : MessageBufferInfo

-- A number is read into a variable of its own first, and kept on success only.
abbrev pub into_copy : {S : Type 0} → Read → S → (ℕ → S) → Option (Status × ℕ × S)
into_copy r s put = r >>= λ t. some (t.0, t.1, if failed t.0 then s else put t.2)

-- Node ids and places of strings.
abbrev pub keep : {A S : Type 0} → Option (Status × ℕ × A) → (A → S) → Option (Status × ℕ × S)
keep r put = r >>= λ t. some (t.0, t.1, put t.2)

-- The fields that both versions read, as steps.
abbrev pub step_message_size : Step HeaderRead
step_message_size v o s =
    into (message_read_uint32 v o s.header.message_size)
      (λ x. record s { header = record s.header { message_size = x } })

abbrev pub step_message_version : Step HeaderRead
step_message_version v o s =
    into (message_read_uint16 v o s.header.message_version)
      (λ x. record s { header = record s.header { message_version = x } })

-- `header->header_size` and `temp_buffer_info.header_size`.
abbrev pub put_header_size : HeaderRead → ℕ → HeaderRead
put_header_size s x = record s {
  header = record s.header { header_size = x };
  buffer_info = record s.buffer_info { header_size = x };
}

abbrev pub step_sender_nodeid : Step HeaderRead
step_sender_nodeid v o s =
    keep (message_read_nodeid v o s.header.sender_nodeid)
      (λ x. record s { header = record s.header { sender_nodeid = x } })

abbrev pub step_receiver_nodeid : Step HeaderRead
step_receiver_nodeid v o s =
    keep (message_read_nodeid v o s.header.receiver_nodeid)
      (λ x. record s { header = record s.header { receiver_nodeid = x } })

abbrev pub step_message_id : Step HeaderRead
step_message_id v o s =
    into (message_read_uint16 v o s.header.message_id)
      (λ x. record s { header = record s.header { message_id = x } })

abbrev pub step_message_res_id : Step HeaderRead
step_message_res_id v o s =
    into (message_read_uint16 v o s.header.message_res_id)
      (λ x. record s { header = record s.header { message_res_id = x } })

-- `temp_buffer_info.entry_count_offset = o`, which comes before the count is read at `o`.
abbrev pub put_entry_count : HeaderRead → ℕ → ℕ → HeaderRead
put_entry_count s o x = record s {
  header = record s.header { entry_count = x };
  buffer_info = record s.buffer_info { entry_count_offset = o };
}

-- Version 2, from behind the magic to the end of the header.
unfoldable pub fields2 : List (Step HeaderRead)
fields2 =
    step_message_size
    ∷ step_message_version
    ∷ (λ v o s. into_copy (message_read_uint16 v o 0) s (put_header_size s))
    ∷ step_sender_nodeid
    ∷ step_receiver_nodeid
    ∷ (λ v o s.
        into (message_read_uint32 v o s.header.sender_endpoint)
          (λ x. record s { header = record s.header { sender_endpoint = x } }))
    ∷ (λ v o s.
        into (message_read_uint32 v o s.header.receiver_endpoint)
          (λ x. record s { header = record s.header { receiver_endpoint = x } }))
    ∷ (λ v o s.
        keep (message_read_header_string_with_len_prefix2_1 v o s.sender_nodename_info)
          (λ i. record s { sender_nodename_info = i }))
    ∷ (λ v o s.
        keep (message_read_header_string_with_len_prefix2_1 v o s.receiver_nodename_info)
          (λ i. record s { receiver_nodename_info = i }))
    ∷ (λ v o s.
        keep (message_read_header_string_with_len_prefix2_1 v o s.meta_info)
          (λ i. record s { meta_info = i }))
    ∷ (λ v o s. into_copy (message_read_uint16 v o 0) s (put_entry_count s o))
    ∷ step_message_id
    ∷ step_message_res_id
    ∷ []

-- Version 4 up to the flags.
unfoldable pub first4 : List (Step HeaderRead)
first4 =
    step_message_size
    ∷ step_message_version
    ∷ (λ v o s. some (if s.header.message_version == 4 then success else protocol, o, s))
    ∷ (λ v o s. into (message_read_uint_x v o s.header.header_size) (put_header_size s))
    ∷ (λ v o s. into (message_read_uint8 v o s.flags) (λ x. record s { flags = x }))
    ∷ []

unfoldable pub routing4 : List (Step HeaderRead)
routing4 =
    step_sender_nodeid
    ∷ step_receiver_nodeid
    ∷ (λ v o s.
        keep (message_read_header_string_with_len_prefix4_1 v o s.sender_nodename_info)
          (λ i. record s { sender_nodename_info = i }))
    ∷ (λ v o s.
        keep (message_read_header_string_with_len_prefix4_1 v o s.receiver_nodename_info)
          (λ i. record s { receiver_nodename_info = i }))
    ∷ []

unfoldable pub endpoint4 : List (Step HeaderRead)
endpoint4 =
    (λ v o s.
      into (message_read_uint_x v o s.header.sender_endpoint)
        (λ x. record s { header = record s.header { sender_endpoint = x } }))
    ∷ (λ v o s.
        into (message_read_uint_x v o s.header.receiver_endpoint)
          (λ x. record s { header = record s.header { receiver_endpoint = x } }))
    ∷ []

unfoldable pub priority4 : List (Step HeaderRead)
priority4 =
    (λ v o s.
      into (message_read_uint16 v o s.header.priority)
        (λ x. record s { header = record s.header { priority = x } }))
    ∷ []

unfoldable pub meta4 : List (Step HeaderRead)
meta4 =
    (λ v o s.
      keep (message_read_header_string_with_len_prefix4_1 v o s.meta_info)
        (λ i. record s { meta_info = i }))
    ∷ step_message_id
    ∷ step_message_res_id
    ∷ []

-- A size is read, and as many bytes are skipped.
abbrev pub skip_size : {S : Type 0} → Step S
skip_size v o s =
    message_read_uint_x v o 0 >>= λ t. some (t.0, if failed t.0 then t.1 else add_size t.1 t.2, s)

unfoldable pub skip4 : List (Step HeaderRead)
skip4 = skip_size ∷ []

unfoldable pub entry_count4 : List (Step HeaderRead)
entry_count4 =
    (λ v o s. into (message_read_uint_x v o s.header.entry_count) (put_entry_count s o)) ∷ []

-- What is set where the flag of a group is not.
abbrev pub reset_routing : HeaderRead → HeaderRead
reset_routing s = record s {
  header = record s.header { sender_nodeid = zero_nodeid; receiver_nodeid = zero_nodeid };
}

abbrev pub reset_endpoint : HeaderRead → HeaderRead
reset_endpoint s = record s {
  header = record s.header { sender_endpoint = 0; receiver_endpoint = 0 };
}

abbrev pub reset_priority : HeaderRead → HeaderRead
reset_priority s = record s { header = record s.header { priority = 0 } }

abbrev pub reset_ids : HeaderRead → HeaderRead
reset_ids s = record s { header = record s.header { message_id = 0; message_res_id = 0 } }

abbrev pub reset_count : HeaderRead → HeaderRead
reset_count s = put_entry_count s size_max 1

abbrev pub reset_names : HeaderRead → HeaderRead
reset_names s = record s {
  header = record s.header { sender_nodename = no_string; receiver_nodename = no_string };
}

abbrev pub reset_metadata : HeaderRead → HeaderRead
reset_metadata s = record s { header = record s.header { metadata = no_string } }

-- Version 4 behind the flags, a group of fields for each flag.
unfoldable pub groups4 : ℕ → List (Step HeaderRead)
groups4 flags =
    choose (flags_check flags flag_routing_info) routing4 reset_routing
    ∷ choose (flags_check flags flag_endpoint_info) endpoint4 reset_endpoint
    ∷ choose (flags_check flags flag_priority) priority4 reset_priority
    ∷ choose (flags_check flags flag_meta_info) meta4 reset_ids
    ∷ choose (flags_check flags flag_string_table) skip4 (λ s. s)
    ∷ choose (flags_check flags flag_multiple_entries) entry_count4 reset_count
    ∷ choose (flags_check flags flag_extended) skip4 (λ s. s)
    ∷ []

-- The strings, once the size of the header has been found right. They do not move the offset.
abbrev pub string_step :
    (HeaderRead → StringInfo)
    → (MessageHeader → HeaderString)
    → (HeaderString → MessageHeader → MessageHeader)
    → Step HeaderRead
string_step place field put v o s =
    message_read_header_string_with_len_prefix_2 v (place s) (field s.header) >>= λ r.
    some (r.0, o, record s { header = put r.1 s.header })

abbrev pub string_sender : Step HeaderRead
string_sender =
    string_step (λ s. s.sender_nodename_info) (λ h. h.sender_nodename)
      (λ x h. record h { sender_nodename = x })

abbrev pub string_receiver : Step HeaderRead
string_receiver =
    string_step (λ s. s.receiver_nodename_info) (λ h. h.receiver_nodename)
      (λ x h. record h { receiver_nodename = x })

abbrev pub string_metadata : Step HeaderRead
string_metadata =
    string_step (λ s. s.meta_info) (λ h. h.metadata) (λ x h. record h { metadata = x })

unfoldable pub strings2 : List (Step HeaderRead)
strings2 = string_sender ∷ string_receiver ∷ string_metadata ∷ []

unfoldable pub strings4 : ℕ → List (Step HeaderRead)
strings4 flags =
    choose (flags_check flags flag_routing_info) (string_sender ∷ string_receiver ∷ []) reset_names
    ∷ choose (flags_check flags flag_meta_info) (string_metadata ∷ []) reset_metadata
    ∷ []

-- What a reader of a header returns: the status, `*header` and `*buffer_info`.
abbrev pub HeaderResult : Type 0
HeaderResult = Option (Status × MessageHeader × MessageBufferInfo)

abbrev zero_info : StringInfo
zero_info = record { offset = 0; str_len = 0 }

-- The local variables at the start.
abbrev pub read_start : MessageReader → MessageHeader → MessageBufferInfo → HeaderRead
read_start reader header info = record {
  header = header;
  sender_nodename_info = zero_info;
  receiver_nodename_info = zero_info;
  meta_info = zero_info;
  flags = 0;
  buffer_info = record info { start_buffer_offset = reader.buffer_offset };
}

-- The end of both readers: the check of the size at offset `o`, the strings, the last fields.
abbrev pub read_end :
    MessageReader
    → MessageBufferInfo
    → List (Step HeaderRead)
    → (MessageHeader → MessageHeader)
    → ℕ
    → HeaderRead
    → HeaderResult
read_end reader info strings last o s =
    if not (sub_size o reader.buffer_offset == s.header.header_size)
    then some (protocol, s.header, info)
    else run strings reader.buffer o s >>= λ t.
        if failed t.0
        then some (t.0, t.2.header, info)
        else some (success, last t.2.header, record t.2.buffer_info { entry_start_offset = o })

unfoldable pub message_reader_read_header2_ex :
    MessageReader → MessageHeader → MessageBufferInfo → HeaderResult
message_reader_read_header2_ex reader header info =
    run fields2 reader.buffer (add_size reader.buffer_offset 4) (read_start reader header info)
    >>= λ t.
        if failed t.0
        then some (t.0, t.2.header, info)
        else read_end reader info strings2
            (λ h. record h { message_flags = flags_version2compat; priority = 0 }) t.1 t.2

unfoldable pub message_reader_read_header4_ex :
    MessageReader → MessageHeader → MessageBufferInfo → HeaderResult
message_reader_read_header4_ex reader header info =
    run first4 reader.buffer (add_size reader.buffer_offset 4) (read_start reader header info)
    >>= λ f.
        if failed f.0
        then some (f.0, f.2.header, info)
        else run (groups4 f.2.flags) reader.buffer f.1 f.2 >>= λ t.
            if failed t.0
            then some (t.0, t.2.header, info)
            else read_end reader info (strings4 t.2.flags)
                (λ h. record h { message_flags = t.2.flags }) t.1 t.2

unfoldable pub message_reader_read_header_ex :
    MessageReader → MessageHeader → MessageBufferInfo → HeaderResult
message_reader_read_header_ex reader header info =
    message_read_uint16 reader.buffer (add_size reader.buffer_offset 8) header.message_version
    >>= λ r.
        let header' : MessageHeader = record header { message_version = r.2 } in
        if failed r.0
        then some (r.0, header', info)
        else if r.2 == 2
        then message_reader_read_header2_ex reader header' info
        else if r.2 == 4
        then message_reader_read_header4_ex reader header' info
        else some (protocol, header', info)

-- The last components are `*header` and `*reader`. The `buffer_info` given on is not initialised
-- in the source; no result depends on it.
unfoldable pub message_reader_read_header :
    MessageReader
    → MessageHeader
    → MessageBufferInfo
    → Option (Status × MessageHeader × MessageReader)
message_reader_read_header reader header info =
    message_reader_read_header_ex reader header info >>= λ r. some (
      r.0,
      r.1,
      if failed r.0 then reader else record reader { message_version = r.1.message_version },
    )
