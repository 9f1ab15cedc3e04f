-- ===== src/Message/Header/Sample.antt =====
-- The header of the message `message4` of test/message_test.c, which another writer of the protocol
-- has made: the number of its entries takes one byte.
use robotraconteurlite.Prelude.{
  ℕ, zero, suc, ◌+◌, ◌≡◌, refl, sym, subst, some, List, [], ◌∷◌, inr, arith, length, joined,
}
use robotraconteurlite.Status.{success}
use robotraconteurlite.NodeId.{zero_nodeid}
use robotraconteurlite.Array.{BufferVec}
use robotraconteurlite.Array.Layout.{IsVec}
use robotraconteurlite.Array.Holds.{HoldsAt}
use robotraconteurlite.Array.Numbers.{le_bytes}
use robotraconteurlite.Message.Numbers.Codec.{encoded_uint_x}
use robotraconteurlite.Message.Strings.{HeaderString}
use robotraconteurlite.Message.Strings.Laws.{write_run-Puts}
use robotraconteurlite.Message.Header.{
  MessageHeader, MessageConstHeader, MessageReader, MessageBufferInfo,
}
use robotraconteurlite.Message.Header.Read.{message_reader_read_header4_ex}
use robotraconteurlite.Message.Header.Write.{no_info}
use robotraconteurlite.Message.Header.Encoding.{
  encoding4_in, routing_bytes, endpoint_bytes, meta_bytes, Version4In, HasRoom, Carries,
}
use robotraconteurlite.Message.Header.Read4.{read_header4_ex-HoldsAt}

abbrev header_bytes : List ℕ
header_bytes =
    82 ∷ 82 ∷ 65 ∷ 67 ∷ 141 ∷ 3 ∷ 0 ∷ 0 ∷ 4 ∷ 0 ∷ 105 ∷ 83 ∷ 216 ∷ 53 ∷ 196 ∷ 29 ∷ 51 ∷ 156 ∷ 71
    ∷ 168 ∷ 132 ∷ 219 ∷ 240 ∷ 10 ∷ 143 ∷ 239 ∷ 210 ∷ 250 ∷ 174 ∷ 120 ∷ 72 ∷ 27 ∷ 194 ∷ 190 ∷ 79 ∷ 38
    ∷ 159 ∷ 239 ∷ 116 ∷ 187 ∷ 110 ∷ 138 ∷ 4 ∷ 63 ∷ 11 ∷ 115 ∷ 101 ∷ 110 ∷ 100 ∷ 101 ∷ 114 ∷ 95 ∷ 110
    ∷ 111 ∷ 100 ∷ 101 ∷ 9 ∷ 114 ∷ 101 ∷ 99 ∷ 118 ∷ 95 ∷ 110 ∷ 111 ∷ 100 ∷ 101 ∷ 254 ∷ 71 ∷ 88 ∷ 55
    ∷ 248 ∷ 254 ∷ 113 ∷ 100 ∷ 49 ∷ 167 ∷ 23 ∷ 101 ∷ 120 ∷ 116 ∷ 101 ∷ 110 ∷ 100 ∷ 101 ∷ 100 ∷ 95
    ∷ 100 ∷ 97 ∷ 116 ∷ 97 ∷ 10 ∷ 98 ∷ 108 ∷ 97 ∷ 104 ∷ 32 ∷ 98 ∷ 108 ∷ 97 ∷ 104 ∷ 10 ∷ 0 ∷ 20 ∷ 0
    ∷ 3 ∷ []

abbrev sample : MessageConstHeader
sample = record {
  message_size = 909;
  message_version = 4;
  header_size = 105;
  message_flags = 83;
  sender_nodeid =
      216 ∷ 53 ∷ 196 ∷ 29 ∷ 51 ∷ 156 ∷ 71 ∷ 168 ∷ 132 ∷ 219 ∷ 240 ∷ 10 ∷ 143 ∷ 239 ∷ 210 ∷ 250 ∷ [];
  receiver_nodeid =
      174 ∷ 120 ∷ 72 ∷ 27 ∷ 194 ∷ 190 ∷ 79 ∷ 38 ∷ 159 ∷ 239 ∷ 116 ∷ 187 ∷ 110 ∷ 138 ∷ 4 ∷ 63 ∷ [];
  sender_endpoint = 4164376647;
  receiver_endpoint = 2805032049;
  priority = 0;
  sender_nodename = 115 ∷ 101 ∷ 110 ∷ 100 ∷ 101 ∷ 114 ∷ 95 ∷ 110 ∷ 111 ∷ 100 ∷ 101 ∷ [];
  receiver_nodename = 114 ∷ 101 ∷ 99 ∷ 118 ∷ 95 ∷ 110 ∷ 111 ∷ 100 ∷ 101 ∷ [];
  metadata =
      101 ∷ 120 ∷ 116 ∷ 101 ∷ 110 ∷ 100 ∷ 101 ∷ 100 ∷ 95 ∷ 100 ∷ 97 ∷ 116 ∷ 97 ∷ 10 ∷ 98 ∷ 108 ∷ 97
      ∷ 104 ∷ 32 ∷ 98 ∷ 108 ∷ 97 ∷ 104 ∷ [];
  entry_count = 3;
  message_id = 10;
  message_res_id = 20;
}

abbrev one_byte : List (List ℕ)
one_byte = encoded_uint_x 3 ∷ []

sample_bytes : joined (encoding4_in sample one_byte) ≡ header_bytes
unfolding encoding4_in routing_bytes endpoint_bytes meta_bytes encoded_uint_x le_bytes
sample_bytes = refl

sample-Version4In : Version4In sample one_byte
sample-Version4In = record {
  fits = record {
    size_lt = omega arith;
    version_lt = omega arith;
    header_size_lt = omega arith;
    flags_lt = omega arith;
    sender_id = refl;
    receiver_id = refl;
    sender_lt = omega arith;
    receiver_lt = omega arith;
    priority_lt = omega arith;
    sender_name = omega arith;
    receiver_name = omega arith;
    meta = omega arith;
    count_lt = omega arith;
    id_lt = omega arith;
    res_id_lt = omega arith;
  };
  version = refl;
  size = subst (λ xs. 105 ≡ length xs) (sym sample_bytes) refl;
  no_routing = λ e. absurd (ground (arith, e));
  no_endpoint = λ e. absurd (ground (arith, e));
  no_priority = λ e. refl;
  no_meta = λ e. absurd (ground (arith, e));
  no_table = refl;
  no_count = λ e. absurd (ground (arith, e));
  no_extended = refl;
}

abbrev zero_bytes : ℕ → List ℕ
zero_bytes zero = []
zero_bytes (suc n) = 0 ∷ zero_bytes n

abbrev space : BufferVec
space = record { bytes = zero_bytes 106; len = 106 } ∷ []

space-IsVec : IsVec 1 space
space-IsVec = omega arith

sample_written : (bytes : BufferVec) × HoldsAt bytes 1 (joined (encoding4_in sample one_byte))
sample_written =
    let (bytes, e, w) =
      write_run-Puts header_bytes (omega arith) space 1 space-IsVec (omega arith) in
    (bytes, subst (λ xs. HoldsAt bytes 1 xs) (sym sample_bytes) w.holds)

abbrev text : ℕ → HeaderString
text n = record { chars = some (zero_bytes n); len = n }

-- The caller's header, with room for 24 characters of each string.
abbrev dest : MessageHeader
dest = record {
  message_size = 0;
  message_version = 4;
  header_size = 0;
  message_flags = 0;
  sender_nodeid = zero_nodeid;
  receiver_nodeid = zero_nodeid;
  sender_endpoint = 0;
  receiver_endpoint = 0;
  priority = 0;
  sender_nodename = text 24;
  receiver_nodename = text 24;
  metadata = text 24;
  entry_count = 0;
  message_id = 0;
  message_res_id = 0;
}

dest-HasRoom : HasRoom sample dest
dest-HasRoom = record {
  sender_id = omega arith;
  receiver_id = omega arith;
  sender = (omega arith, omega arith, omega arith);
  receiver = (omega arith, omega arith, omega arith);
  meta = (omega arith, omega arith, omega arith);
}

abbrev reader : MessageReader
reader = record {
  buffer = sample_written.0;
  buffer_offset = 1;
  buffer_count = 105;
  message_version = 4;
}

read_header4_ex-HoldsAt_example :
    (out : MessageHeader) × (found : MessageBufferInfo) × (message_reader_read_header4_ex reader
        dest no_info
      ≡ some (success, out, found))
    × Carries sample out
    × (found.start_buffer_offset ≡ 1)
    × (found.header_size ≡ 105)
    × (found.entry_start_offset ≡ 1 + 105)
read_header4_ex-HoldsAt_example =
    read_header4_ex-HoldsAt sample one_byte (inr refl) sample-Version4In reader dest no_info
      dest-HasRoom sample_written.1
