-- ===== src/Message/Header.antt =====
-- The header of a message in src/message.c, in its two versions, and the records of message.h that
-- readers and writers of messages keep.
pub mod Read
pub mod Write
pub mod Fields
pub mod Encoding
pub mod Read2
pub mod Puts
pub mod Groups
pub mod Read4
pub mod Flags
pub mod Plan
pub mod Write4
pub mod RoundTrip
pub mod Refusals
pub mod End
mod Sample
mod Tests
pub mod Write2
use robotraconteurlite.Prelude.{ℕ, Bool, not, ◌==◌, List, bit_and}
use robotraconteurlite.Array.{BufferVec}
use robotraconteurlite.Message.Strings.{HeaderString}

-- `struct robotraconteurlite_message_header` and `..._message_const_header`, by the type of their
-- strings.
pub record HeaderOf (Str : Type 0) : Type 0 where
  pub message_size : ℕ
  pub message_version : ℕ
  pub header_size : ℕ
  pub message_flags : ℕ
  pub sender_nodeid : List ℕ
  pub receiver_nodeid : List ℕ
  pub sender_endpoint : ℕ
  pub receiver_endpoint : ℕ
  pub priority : ℕ
  pub sender_nodename : Str
  pub receiver_nodename : Str
  pub metadata : Str
  pub entry_count : ℕ
  pub message_id : ℕ
  pub message_res_id : ℕ

abbrev pub MessageHeader : Type 0
MessageHeader = HeaderOf HeaderString

abbrev pub MessageConstHeader : Type 0
MessageConstHeader = HeaderOf (List ℕ)

pub record MessageReader : Type 0 where
  pub buffer : BufferVec
  pub buffer_offset : ℕ
  pub buffer_count : ℕ
  pub message_version : ℕ

pub record MessageBufferInfo : Type 0 where
  pub start_buffer_offset : ℕ
  pub header_size : ℕ
  pub entry_count_offset : ℕ
  pub entry_start_offset : ℕ

-- `ROBOTRACONTEURLITE_FLAGS_CHECK`
abbrev pub flags_check : ℕ → ℕ → Bool
flags_check flags mask = not (bit_and flags mask == 0)

abbrev pub flag_routing_info : ℕ
flag_routing_info = 1

abbrev pub flag_endpoint_info : ℕ
flag_endpoint_info = 2

abbrev pub flag_priority : ℕ
flag_priority = 4

abbrev pub flag_unreliable : ℕ
flag_unreliable = 8

abbrev pub flag_meta_info : ℕ
flag_meta_info = 16

abbrev pub flag_string_table : ℕ
flag_string_table = 32

abbrev pub flag_multiple_entries : ℕ
flag_multiple_entries = 64

abbrev pub flag_extended : ℕ
flag_extended = 128

abbrev pub flags_version2compat : ℕ
flags_version2compat = 83
