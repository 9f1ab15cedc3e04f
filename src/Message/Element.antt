-- ===== src/Message/Element.antt =====
-- The elements of an entry in src/message.c: the reader that goes from one element to the next.
pub mod Walk
pub mod Header
pub mod Version2
mod Tests
use robotraconteurlite.Prelude.{
  ℕ, zero, suc, ◌+◌, Bool, not, Option, none, some, ◌==◌, ltb, if◌then◌else◌, ◌>>=◌, add_size,
  sub_size,
}
use robotraconteurlite.Status.{Status, success, protocol, no_more, failed}
use robotraconteurlite.Array.{BufferVec}
use robotraconteurlite.Message.Numbers.{message_read_count}
use robotraconteurlite.Message.Strings.{no_string}
use robotraconteurlite.Message.Entry.Write.{no_entry_info}
use robotraconteurlite.Message.Entry.{
  EntryHeader, EntryBufferInfo, EntryReader, messageentry_reader_read_header_ex,
}

pub record ElementReader : Type 0 where
  pub buffer : BufferVec
  pub buffer_offset : ℕ
  pub buffer_count : ℕ
  pub buffer_remaining : ℕ
  pub current_element : ℕ
  pub total_elements : ℕ
  pub message_version : ℕ

abbrev pub zero_entry_header : EntryHeader
zero_entry_header = record {
  entry_size = 0;
  entry_flags = 0;
  entry_type = 0;
  service_path = no_string;
  service_path_code = 0;
  member_name = no_string;
  member_name_code = 0;
  request_id = 0;
  error = 0;
  metadata = no_string;
  element_count = 0;
}

-- The first element, whose size is read at the offset behind the entry's header. The last
-- component is `*element_reader`.
pub first_element :
    EntryReader → EntryHeader → EntryBufferInfo → ElementReader → Option (Status × ElementReader)
first_element reader header info element_reader =
    let o = info.element_start_offset in
    message_read_count reader.buffer reader.message_version o 0 >>= λ (read, o2, element_size).
    if failed read
    then some (read, element_reader)
    else if ltb reader.buffer_count (add_size (sub_size o reader.buffer_offset) element_size)
    then some (protocol, element_reader)
    else some (
      success,
      record {
        buffer = reader.buffer;
        buffer_offset = o;
        buffer_count = element_size;
        buffer_remaining = sub_size (sub_size reader.buffer_count info.header_size) element_size;
        current_element = 0;
        total_elements = header.element_count;
        message_version = reader.message_version;
      },
    )

pub messageentry_reader_begin_read_elements :
    EntryReader → ElementReader → Option (Status × ElementReader)
messageentry_reader_begin_read_elements reader element_reader =
    messageentry_reader_read_header_ex reader zero_entry_header no_entry_info
    >>= λ (status, header, info).
        if failed status
        then some (status, element_reader)
        else if header.element_count == 0
        then some (no_more, element_reader)
        else first_element reader header info element_reader

-- The step to the element behind, whose size has been read.
abbrev pub step_element : ElementReader → ℕ → ℕ → Status × ElementReader
step_element reader o element_size =
    if ltb reader.buffer_remaining element_size then (protocol, reader) else (
      success,
      record reader {
        buffer_offset = o;
        buffer_count = element_size;
        buffer_remaining = sub_size reader.buffer_remaining element_size;
        current_element = add_size reader.current_element 1;
      },
    )

pub messageelement_reader_move_next : ElementReader → Option (Status × ElementReader)
messageelement_reader_move_next reader =
    if not (ltb (add_size reader.current_element 1) reader.total_elements)
    then some (no_more, reader)
    else (let o = add_size reader.buffer_offset reader.buffer_count in
        message_read_count reader.buffer reader.message_version o 0 >>= λ (read, o2, element_size).
        if failed read then some (read, reader) else some (step_element reader o element_size))

-- Moving on until a move fails, as the search for an element by its name does: at most `n` moves.
pub move_on : ℕ → ElementReader → Option (Status × ElementReader)
move_on zero reader = some (success, reader)
move_on (suc n) reader =
    messageelement_reader_move_next reader >>= λ t. if failed t.0 then some t else move_on n t.1
