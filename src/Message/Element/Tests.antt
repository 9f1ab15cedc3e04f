-- ===== src/Message/Element/Tests.antt =====
-- A reader of three elements in one buffer, and the theorems at inputs that meet their hypotheses.
use robotraconteurlite.Prelude.{
  ℕ, ◌+◌, ◌<◌, ◌≡◌, refl, some, true, List, [], ◌∷◌, ◌⊎◌, arith, joined, length, length-append,
  zero, suc,
}
use robotraconteurlite.Prelude.Int.{pos}
use robotraconteurlite.Status.{Status, success, no_more, failed}
use robotraconteurlite.Array.{BufferVec}
use robotraconteurlite.Array.Layout.{IsVec}
use robotraconteurlite.Array.Holds.{HoldsAt}
use robotraconteurlite.Array.Numbers.{le_bytes, length-le_bytes}
use robotraconteurlite.Message.Strings.{no_string}
use robotraconteurlite.Message.Strings.Laws.{write_prefix2-Puts}
use robotraconteurlite.Message.Steps.{length-joined, write_all-Puts, ◌and_puts◌, puts_nothing}
use robotraconteurlite.Message.Header.Puts.{uint16-Puts, uint32-Puts}
use robotraconteurlite.Message.Element.{ElementReader, messageelement_reader_move_next, move_on}
use robotraconteurlite.Message.Element.Header.{
  ElementHeader, ElementConstHeader, ElementBufferInfo, messageelement_reader_read_header2_ex,
}
use robotraconteurlite.Message.Element.Version2.{
  element_encoding2, ElementFits2, ElementHasRoom, ElementCarries2, read_element2-HoldsAt,
}
use robotraconteurlite.Message.Element.Walk.{Within, Moved, move_next-Within, move_on-ends}

-- Three elements of five, six and four bytes: only their sizes are told.
abbrev elements : BufferVec
elements =
    record { bytes = 5 ∷ 0 ∷ 0 ∷ 0 ∷ 9 ∷ 6 ∷ 0 ∷ 0 ∷ 0 ∷ 9 ∷ 9 ∷ 4 ∷ 0 ∷ 0 ∷ 0 ∷ []; len = 15 } ∷ []

abbrev first : ElementReader
first = record {
  buffer = elements;
  buffer_offset = 0;
  buffer_count = 5;
  buffer_remaining = 10;
  current_element = 0;
  total_elements = 3;
  message_version = 2;
}

first-Within : Within first
first-Within = record {
  vec = omega arith;
  room = omega arith;
  inside = omega arith;
  at = omega arith;
  few = omega arith;
}

move_next-Within_example :
    (s : Status) × (r : ElementReader) × (messageelement_reader_move_next first ≡ some (s, r))
    × Within r
    × (((s ≡ success) × Moved first r × (0 + 1 < 3)) ⊎ ((failed s ≡ true) × (r ≡ first)))
    × (0 + 1 ≡ 3 → s ≡ no_more)
move_next-Within_example = move_next-Within first first-Within

move_on-ends_example :
    (s : Status) × (r : ElementReader) × (move_on 3 first ≡ some (s, r))
    × (failed s ≡ true)
    × Within r
    × (r.buffer ≡ elements)
move_on-ends_example = move_on-ends 3 first first-Within (omega arith)

abbrev zero_bytes : ℕ → List ℕ
zero_bytes zero = []
zero_bytes (suc n) = 0 ∷ zero_bytes n

abbrev space : BufferVec
space = record { bytes = zero_bytes 32; len = 32 } ∷ []

space-IsVec : IsVec 1 space
space-IsVec = omega arith

-- One number of four bytes with the name "ab".
abbrev number : ElementConstHeader
number = record {
  element_size = 22;
  element_flags = 0;
  element_name = 97 ∷ 98 ∷ [];
  element_name_code = 0;
  element_number = pos 0;
  element_type = 6;
  element_type_name = [];
  element_type_name_code = 0;
  metadata = [];
  data_count = 1;
}

number-ElementFits2 : ElementFits2 number
number-ElementFits2 = record {
  size_lt = omega arith;
  name = omega arith;
  type_lt = omega arith;
  type_name = omega arith;
  meta = omega arith;
  count_lt = omega arith;
}

number-length : length (joined (element_encoding2 number)) ≡ 18
unfolding element_encoding2
number-length = omega (
  arith,
  length-joined (element_encoding2 number),
  length-append (le_bytes 2 2) (97 ∷ 98 ∷ []),
  length-append (le_bytes 2 0) [],
  length-le_bytes 4 22,
  length-le_bytes 2 2,
  length-le_bytes 2 6,
  length-le_bytes 2 0,
  length-le_bytes 4 1,
)

number_written : (bytes : BufferVec) × HoldsAt bytes 3 (joined (element_encoding2 number))
unfolding element_encoding2
number_written =
    let puts =
      uint32-Puts 22
      and_puts write_prefix2-Puts (97 ∷ 98 ∷ []) (omega arith)
      and_puts uint16-Puts 6
      and_puts write_prefix2-Puts [] (omega arith)
      and_puts write_prefix2-Puts [] (omega arith)
      and_puts uint32-Puts 1
      and_puts puts_nothing in
    let (bytes, e, w) = write_all-Puts puts space 3 space-IsVec (omega (arith, number-length)) in
    (bytes, w.holds)

-- The caller's header: room for three characters of the name, NULL for the other strings.
abbrev empty : ElementHeader
empty = record {
  element_size = 0;
  element_flags = 0;
  element_name = record { chars = some (0 ∷ 0 ∷ 0 ∷ []); len = 3 };
  element_name_code = 0;
  element_number = pos 0;
  element_type = 0;
  element_type_name = no_string;
  element_type_name_code = 0;
  metadata = no_string;
  data_count = 0;
}

empty-ElementHasRoom : ElementHasRoom number empty
empty-ElementHasRoom = record {
  name = (omega arith, omega arith, omega arith);
  type_name = refl;
  meta = refl;
}

abbrev no_element_info : ElementBufferInfo
no_element_info = record {
  start_buffer_offset = 0;
  header_size = 0;
  data_start_offset = 0;
  element_name_str_offset = 0;
  element_count_offset = 0;
  element_size_offset = 0;
}

abbrev at_number : ElementReader
at_number = record first {
  buffer = number_written.0;
  buffer_offset = 3;
  buffer_count = 22;
  buffer_remaining = 0;
  total_elements = 1;
}

read_element2-HoldsAt_example :
    (out : ElementHeader) × (found : ElementBufferInfo) × (messageelement_reader_read_header2_ex
        at_number empty no_element_info
      ≡ some (success, out, found))
    × ElementCarries2 number empty out
    × (found.start_buffer_offset ≡ 3)
    × (found.element_name_str_offset ≡ 9)
    × (found.header_size ≡ length (joined (element_encoding2 number)))
    × (found.data_start_offset ≡ 3 + length (joined (element_encoding2 number)))
read_element2-HoldsAt_example =
    read_element2-HoldsAt number at_number empty no_element_info number-ElementFits2
      empty-ElementHasRoom number_written.1
