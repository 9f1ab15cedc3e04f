-- ===== src/Message/Entry/Tests.antt =====
-- An entry's header in one buffer, and the theorems at inputs that meet their hypotheses.
use robotraconteurlite.Prelude.{
  ℕ, zero, suc, length, ◌+◌, ◌≡◌, refl, some, List, [], ◌∷◌, arith, joined,
}
use robotraconteurlite.Status.{success}
use robotraconteurlite.Array.{BufferVec}
use robotraconteurlite.Array.Layout.{IsVec}
use robotraconteurlite.Array.Holds.{Written, HoldsAt}
use robotraconteurlite.Message.Strings.{no_string}
use robotraconteurlite.Message.Header.Write.{EntryWriter}
use robotraconteurlite.Message.Entry.{
  EntryHeader, EntryConstHeader, EntryBufferInfo, messageentry_reader_read_header_ex,
}
use robotraconteurlite.Message.Entry.Write.{
  ElementWriter, no_entry_info, messageentry_writer_begin_entry, messageentry_writer_end_entry,
}
use robotraconteurlite.Message.Entry.Version2.{
  entry_encoding2, EntryFits2, EntryHasRoom, EntryCarries2,
}
use robotraconteurlite.Message.Entry.End.{finished_entry, entry_ended, read_entry-end_entry2}
use robotraconteurlite.Message.Entry.RoundTrip.{
  unfinished, entry_begun, reader_at, write_entry2-Written, read_entry-begin_entry2,
}

abbrev zero_bytes : ℕ → List ℕ
zero_bytes zero = []
zero_bytes (suc n) = 0 ∷ zero_bytes n

abbrev space : BufferVec
space = record { bytes = zero_bytes 40; len = 40 } ∷ []

space-IsVec : IsVec 1 space
space-IsVec = omega arith

-- A call of the member "ab" of the service "s".
abbrev call : EntryConstHeader
call = record {
  entry_size = 0;
  entry_flags = 0;
  entry_type = 1121;
  service_path = 115 ∷ [];
  service_path_code = 0;
  member_name = 97 ∷ 98 ∷ [];
  member_name_code = 0;
  request_id = 7;
  error = 0;
  metadata = [];
  element_count = 0;
}

abbrev writer : EntryWriter
writer = record {
  buffer = space;
  buffer_offset = 5;
  buffer_count = 35;
  entries_written_count = 0;
  entries_written_size = 0;
  entry_size_offset = 0;
  element_count_offset = 0;
  entry_header_size = 0;
  message_version = 2;
}

abbrev no_elements : ElementWriter
no_elements = record {
  buffer = [];
  buffer_offset = 0;
  buffer_count = 0;
  elements_written_count = 0;
  elements_written_size = 0;
  element_size_offset = 0;
  data_count_offset = 0;
  element_header_size = 0;
  message_version = 0;
}

-- The caller's header: room for three characters of both names, NULL for the metadata.
abbrev empty : EntryHeader
empty = record {
  entry_size = 0;
  entry_flags = 0;
  entry_type = 0;
  service_path = record { chars = some (0 ∷ 0 ∷ 0 ∷ []); len = 3 };
  service_path_code = 0;
  member_name = record { chars = some (0 ∷ 0 ∷ 0 ∷ []); len = 3 };
  member_name_code = 0;
  request_id = 0;
  error = 0;
  metadata = no_string;
  element_count = 0;
}

call-EntryFits2 : EntryFits2 call
call-EntryFits2 = record {
  size_lt = omega arith;
  type_lt = omega arith;
  service = omega arith;
  member = omega arith;
  request_lt = omega arith;
  error_lt = omega arith;
  meta = omega arith;
  count_lt = omega arith;
}

empty-EntryHasRoom : EntryHasRoom call empty
empty-EntryHasRoom = record {
  service = (omega arith, omega arith, omega arith);
  member = (omega arith, omega arith, omega arith);
  meta = refl;
}

read_entry-begin_entry2_example :
    (bytes : BufferVec) × (place : ℕ) × (out : EntryHeader) × (messageentry_writer_begin_entry
        writer call no_elements
      ≡ entry_begun writer no_elements bytes 25 place)
    × Written space 5 (joined (entry_encoding2 (unfinished call))) bytes
    × (messageentry_reader_read_header_ex (reader_at bytes 5 25 0 1 0) empty no_entry_info
        ≡ some (
          success,
          out,
          record {
            start_buffer_offset = 5;
            header_size = 25;
            element_count_offset = place;
            element_start_offset = 30;
            entry_size_offset = 5;
          },
        ))
    × EntryCarries2 (unfinished call) empty out
read_entry-begin_entry2_example =
    read_entry-begin_entry2 writer call no_elements empty no_entry_info 25 0 1 0 call-EntryFits2
      space-IsVec (omega arith) (omega arith) refl empty-EntryHasRoom

-- The header of the call has been written.
call_written :
    (bytes : BufferVec) × (place : ℕ) × (place + 2 ≡ 5 + length (joined (entry_encoding2 call)))
    × HoldsAt bytes 5 (joined (entry_encoding2 call))
call_written =
    let (bytes, place, e, at, w) =
      write_entry2-Written call call-EntryFits2 writer no_entry_info space-IsVec (omega arith) in
    (bytes, place, at, w.holds)

abbrev full_writer : EntryWriter
full_writer = record writer {
  buffer = call_written.0;
  entry_size_offset = 5;
  element_count_offset = call_written.1;
  entry_header_size = 25;
}

-- Two elements of nine bytes together.
abbrev two_elements : ElementWriter
two_elements = record no_elements {
  buffer = call_written.0;
  elements_written_count = 2;
  elements_written_size = 9;
}

read_entry-end_entry2_example :
    (bytes : BufferVec) × (out : EntryHeader) × (found : EntryBufferInfo)
    × (messageentry_writer_end_entry full_writer two_elements
        ≡ entry_ended full_writer two_elements bytes 34)
    × (messageentry_reader_read_header_ex (reader_at bytes 5 34 0 1 0) empty no_entry_info
        ≡ some (success, out, found))
    × EntryCarries2 (finished_entry call 34 2) empty out
read_entry-end_entry2_example =
    read_entry-end_entry2 call full_writer two_elements 5 empty no_entry_info 34 34 0 1 0
      call-EntryFits2 call_written.3 refl refl call_written.2 refl (omega arith) (omega arith)
      empty-EntryHasRoom
