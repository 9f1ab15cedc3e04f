-- ===== src/Message/Header/Tests.antt =====
-- Headers of both versions in one buffer, and the theorems at inputs that meet their hypotheses.
use robotraconteurlite.Prelude.{
  ℕ, zero, suc, ◌+◌, ◌-◌, ◌≤◌, ◌≡◌, refl, some, List, [], ◌∷◌, arith, length, joined, false, true,
  ap,
}
use robotraconteurlite.Status.{success, protocol, out_of_range}
use robotraconteurlite.NodeId.{zero_nodeid}
use robotraconteurlite.Array.{BufferVec}
use robotraconteurlite.Array.Layout.{IsVec}
use robotraconteurlite.Array.Holds.{Written, HoldsAt}
use robotraconteurlite.Array.Numbers.{le_bytes}
use robotraconteurlite.Message.Numbers.{message_write_uint16}
use robotraconteurlite.Message.Numbers.Fields.{message_write_uint16-Wrote}
use robotraconteurlite.Message.Strings.{no_string}
use robotraconteurlite.Message.Header.{
  MessageHeader, MessageConstHeader, MessageReader, MessageBufferInfo, flags_check, flag_unreliable,
  flag_multiple_entries,
}
use robotraconteurlite.Message.Header.Read.{
  message_reader_read_header, message_reader_read_header2_ex,
}
use robotraconteurlite.Message.Header.Write.{
  MessageWriter, EntryWriter, header_size2, message_writer_begin_message, no_info, strings_len,
  message_writer_end_message, message_writer_write_header2_ex, plan4, wants_entries,
}
use robotraconteurlite.Message.Header.Encoding.{encoding2, encoding4, Version4, HasRoom, Carries}
use robotraconteurlite.Message.Header.Write2.{
  sent2, Sendable2, sent2-Version2, write_header2_ex-Written,
}
use robotraconteurlite.Message.Header.Write4.{sent4, wanted_flags_lem, write_header4_ex-Written}
use robotraconteurlite.Message.Header.Plan.{Sendable4, full_mask}
use robotraconteurlite.Message.Header.RoundTrip.{
  begun, read_header-begin_message2, read_header-begin_message4,
}
use robotraconteurlite.Message.Header.Read2.{read_header2_ex-HoldsAt}
use robotraconteurlite.Message.Header.End.{finished, read_header-end_message}
use robotraconteurlite.Message.Header.Refusals.{
  read_header_other_version, write_header2_ex_too_long, plan4_unreliable,
}

abbrev zero_bytes : ℕ → List ℕ
zero_bytes zero = []
zero_bytes (suc n) = 0 ∷ zero_bytes n

abbrev room : BufferVec
room = record { bytes = zero_bytes 128; len = 128 } ∷ []

room-IsVec : IsVec 1 room
room-IsVec = omega arith

abbrev some_id : List ℕ
some_id = 1 ∷ 2 ∷ 3 ∷ 4 ∷ 5 ∷ 6 ∷ 7 ∷ 8 ∷ 9 ∷ 10 ∷ 11 ∷ 12 ∷ 13 ∷ 14 ∷ 15 ∷ 16 ∷ []

-- From the node "ab" to any node, endpoint 300 to 7.
abbrev request : MessageConstHeader
request = record {
  message_size = 0;
  message_version = 0;
  header_size = 0;
  message_flags = 0;
  sender_nodeid = some_id;
  receiver_nodeid = zero_nodeid;
  sender_endpoint = 300;
  receiver_endpoint = 7;
  priority = 0;
  sender_nodename = 97 ∷ 98 ∷ [];
  receiver_nodename = [];
  metadata = [];
  entry_count = 1;
  message_id = 5;
  message_res_id = 0;
}

abbrev writer : ℕ → MessageWriter
writer version = record {
  buffer = room;
  buffer_offset = 3;
  buffer_count = 125;
  message_size_offset = 0;
  entry_count_offset = 0;
  message_version = version;
}

abbrev entry_writer : EntryWriter
entry_writer = record {
  buffer = [];
  buffer_offset = 0;
  buffer_count = 0;
  entries_written_count = 0;
  entries_written_size = 0;
  entry_size_offset = 0;
  element_count_offset = 0;
  entry_header_size = 0;
  message_version = 0;
}

-- The caller's header: room for five characters of the sender's name, NULL for the other strings.
abbrev dest : MessageHeader
dest = record {
  message_size = 0;
  message_version = 0;
  header_size = 0;
  message_flags = 0;
  sender_nodeid = zero_nodeid;
  receiver_nodeid = zero_nodeid;
  sender_endpoint = 0;
  receiver_endpoint = 0;
  priority = 9;
  sender_nodename = record { chars = some (0 ∷ 0 ∷ 0 ∷ 0 ∷ 0 ∷ []); len = 5 };
  receiver_nodename = no_string;
  metadata = no_string;
  entry_count = 0;
  message_id = 0;
  message_res_id = 0;
}

request-Sendable2 : Sendable2 request
request-Sendable2 = record {
  sender_id = refl;
  receiver_id = refl;
  sender_lt = omega arith;
  receiver_lt = omega arith;
  names = omega arith;
  count_16 = omega arith;
  id_lt = omega arith;
  res_id_lt = omega arith;
}

request-Sendable4 : Sendable4 request
request-Sendable4 = record {
  sender_id = refl;
  receiver_id = refl;
  sender_lt = omega arith;
  receiver_lt = omega arith;
  priority_lt = omega arith;
  names = omega arith;
  count_lt = omega arith;
  id_lt = omega arith;
  res_id_lt = omega arith;
}

dest-HasRoom : HasRoom request dest
dest-HasRoom = record {
  sender_id = omega arith;
  receiver_id = omega arith;
  sender = (omega arith, omega arith, omega arith);
  receiver = refl;
  meta = refl;
}

dest-HasRoom2 : HasRoom (sent2 request) dest
dest-HasRoom2 = record {
  sender_id = omega arith;
  receiver_id = omega arith;
  sender = (omega arith, omega arith, omega arith);
  receiver = refl;
  meta = refl;
}

abbrev reader : BufferVec → ℕ → MessageReader
reader bytes version = record {
  buffer = bytes;
  buffer_offset = 3;
  buffer_count = 125;
  message_version = version;
}

read_header-begin_message4_example :
    (bytes : BufferVec) × (size : ℕ) × (place : ℕ) × (out : MessageHeader)
    × (message_writer_begin_message (writer 4) request entry_writer
        ≡ begun (writer 4) request entry_writer bytes size place 4)
    × Written room 3 (joined (encoding4 (sent4 request size))) bytes
    × (message_reader_read_header (reader bytes 0) dest no_info
        ≡ some (success, out, reader bytes 4))
    × Carries (sent4 request size) out
read_header-begin_message4_example =
    read_header-begin_message4 (writer 4) request entry_writer dest no_info 125 0 request-Sendable4
      room-IsVec (omega arith) refl dest-HasRoom

read_header-begin_message2_example :
    (bytes : BufferVec) × (place : ℕ) × (out : MessageHeader) × (message_writer_begin_message
        (writer 2)
        request
        entry_writer
      ≡ begun (writer 2) request entry_writer bytes (header_size2 request) place 2)
    × Written room 3 (joined (encoding2 (sent2 request))) bytes
    × (message_reader_read_header (reader bytes 0) dest no_info
        ≡ some (success, out, reader bytes 2))
    × Carries (sent2 request) out
unfolding header_size2 strings_len
read_header-begin_message2_example =
    read_header-begin_message2 (writer 2) request entry_writer dest no_info 125 0 request-Sendable2
      room-IsVec (omega arith) refl dest-HasRoom2

-- The request is written in version 4, and in version 4 with room for a number of entries.
abbrev requests : MessageConstHeader
requests = record request { entry_count = 2 }

requests-Sendable4 : Sendable4 requests
requests-Sendable4 = record {
  sender_id = refl;
  receiver_id = refl;
  sender_lt = omega arith;
  receiver_lt = omega arith;
  priority_lt = omega arith;
  names = omega arith;
  count_lt = omega arith;
  id_lt = omega arith;
  res_id_lt = omega arith;
}

requests_size : ℕ
requests_size = (write_header4_ex-Written requests requests-Sendable4).0

requests_sent : MessageConstHeader
requests_sent = sent4 requests requests_size

requests_short : requests_size ≤ 102
unfolding requests_size
requests_short = (write_header4_ex-Written requests requests-Sendable4).1

requests-Version4 : Version4 requests_sent
unfolding requests_sent requests_size
requests-Version4 = (write_header4_ex-Written requests requests-Sendable4).2

requests_written :
    (out : BufferVec) × (place : ℕ) × (place + 4 ≡ 3 + requests_size)
    × HoldsAt out 3 (joined (encoding4 requests_sent))
unfolding requests_sent requests_size wants_entries
requests_written =
    let (out, place, e, set, unset, w) =
      (write_header4_ex-Written requests requests-Sendable4).3 room 3 no_info room-IsVec
        (omega (arith, requests_short)) in
    (out, place, set refl, w.holds)

requests_counted : flags_check requests_sent.message_flags flag_multiple_entries ≡ true
unfolding requests_sent wants_entries
requests_counted = (wanted_flags_lem requests).4

dest-HasRoom4 : HasRoom requests_sent dest
unfolding requests_sent
dest-HasRoom4 = record {
  sender_id = omega arith;
  receiver_id = omega arith;
  sender = (omega arith, omega arith, omega arith);
  receiver = refl;
  meta = refl;
}

read_header-end_message_example :
    (bytes : BufferVec) × (out : MessageHeader) × (message_writer_end_message
        (record (writer 4) {
          buffer = requests_written.0;
          message_size_offset = 7;
          entry_count_offset = requests_written.1;
        })
        requests_sent
        (record entry_writer { entries_written_count = 2; entries_written_size = 40 })
      ≡ some (
        success,
        record (writer 4) {
          buffer = bytes;
          message_size_offset = 7;
          entry_count_offset = requests_written.1;
        },
        finished requests_sent (40 + requests_sent.header_size) 2,
        record entry_writer {
          buffer = bytes;
          entries_written_count = 2;
          entries_written_size = 40;
        },
      ))
    × (message_reader_read_header (reader bytes 0) dest no_info
        ≡ some (success, out, reader bytes 4))
    × Carries (finished requests_sent (40 + requests_sent.header_size) 2) out
unfolding requests_sent
read_header-end_message_example =
    read_header-end_message requests_sent
      (record (writer 4) {
        buffer = requests_written.0;
        message_size_offset = 7;
        entry_count_offset = requests_written.1;
      })
      requests_sent (record entry_writer { entries_written_count = 2; entries_written_size = 40 }) 3
      dest no_info 125 0 requests-Version4 requests_counted requests_written.3 refl refl
      requests_written.2 refl (omega (arith, requests_short)) (omega arith) dest-HasRoom4

third_version :
    (out : BufferVec) × (message_write_uint16 room 11 3
      ≡ some (success, out, 11 + length (le_bytes 2 3)))
    × Written room 11 (le_bytes 2 3) out
third_version = message_write_uint16-Wrote room 11 3 room-IsVec (omega arith)

read_header_other_version_example :
    message_reader_read_header (reader third_version.0 0) dest no_info
    ≡ some (protocol, record dest { message_version = 3 }, reader third_version.0 0)
read_header_other_version_example =
    read_header_other_version (reader third_version.0 0) dest no_info 3 (omega arith)
      (λ e. ground (arith, e)) (λ e. ground (arith, e)) third_version.2.holds

many : ℕ → List ℕ
many zero = []
many (suc n) = 97 ∷ many n

length-many : (n : ℕ) → length (many n) ≡ n
unfolding many
length-many zero = refl
length-many (suc n) = ap suc (length-many n)

abbrev long_request : MessageConstHeader
long_request = record request { metadata = many 65500 }

write_header2_ex_too_long_example :
    message_writer_write_header2_ex long_request room 3 no_info
    ≡ some (out_of_range, room, 3, long_request, no_info)
write_header2_ex_too_long_example =
    write_header2_ex_too_long long_request room 3 no_info (omega (arith, length-many 65500))
      (omega (arith, length-many 65500))

plan4_unreliable_example :
    ((plan4 request full_mask).0 ≡ success)
    × (flags_check full_mask flag_unreliable ≡ true)
    × (flags_check (plan4 request full_mask).2 flag_unreliable ≡ false)
plan4_unreliable_example = plan4_unreliable request request-Sendable4

request2_written :
    (out : BufferVec) × (place : ℕ) × (message_writer_write_header2_ex request room 3 no_info
      ≡ some (
        success,
        out,
        3 + header_size2 request,
        record request { header_size = header_size2 request },
        record {
          start_buffer_offset = 3;
          header_size = header_size2 request;
          entry_count_offset = place;
          entry_start_offset = 3 + header_size2 request;
        },
      ))
    × (place ≡ 3 + header_size2 request - 6)
    × Written room 3 (joined (encoding2 (sent2 request))) out
unfolding header_size2 strings_len
request2_written =
    write_header2_ex-Written request request-Sendable2 room 3 no_info room-IsVec (omega arith)

read_header2_ex-HoldsAt_example :
    (out : MessageHeader) × (found : MessageBufferInfo) × (message_reader_read_header2_ex
        (reader request2_written.0 2)
        dest
        no_info
      ≡ some (success, out, found))
    × Carries (sent2 request) out
    × (found.start_buffer_offset ≡ 3)
    × (found.header_size ≡ header_size2 request)
    × (found.entry_start_offset ≡ 3 + header_size2 request)
read_header2_ex-HoldsAt_example =
    read_header2_ex-HoldsAt (sent2 request) (sent2-Version2 request request-Sendable2)
      (reader request2_written.0 2) dest no_info dest-HasRoom2 request2_written.4.holds
