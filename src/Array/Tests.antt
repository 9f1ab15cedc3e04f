-- ===== src/Array/Tests.antt =====
-- The copies of src/array.c on small vectors, and the theorems at inputs that meet their hypotheses.
use robotraconteurlite.Prelude.{ℕ, ◌-◌, ◌<◌, ◌≡◌, refl, [], ◌∷◌, none, some, arith, size_mod, inr}
use robotraconteurlite.Status.{success, out_of_range}
use robotraconteurlite.Array.{
  Buffer, BufferVec, buffer_copy, buffer_vec_copy_vec, buffer_vec_copy_vec_ex, copy_vec_general,
  buffer_vec_copy_from_mem, buffer_vec_copy_to_mem, copy_vec_loop, seek_len, memcpy, outside,
  buffer_vec_len,
}
use robotraconteurlite.Array.Layout.{IsVec, byte_at}
use robotraconteurlite.Array.Copied.{Copied}
use robotraconteurlite.Array.Laws.{Request, buffer_vec_copy_vec_ex-Copied}
use robotraconteurlite.Array.ByteLoops.{Sized}
use robotraconteurlite.Array.Refusals.{
  BadRequest, buffer_vec_copy_vec-eq-ex, buffer_vec_copy_vec_ex_refuses, buffer_copy_wraps,
}
use robotraconteurlite.Array.ByteCopy.{buffer_vec_copy_vec-Copied}
use robotraconteurlite.Array.RoundTrip.{read-write}

abbrev two_parts : BufferVec
two_parts = record { bytes = 1 ∷ 2 ∷ 3 ∷ []; len = 3 } ∷ record { bytes = 4 ∷ 5 ∷ []; len = 2 } ∷ []

abbrev three_parts : BufferVec
three_parts =
    record { bytes = 10 ∷ []; len = 1 }
    ∷ record { bytes = 11 ∷ 12 ∷ []; len = 2 }
    ∷ record { bytes = 13 ∷ 14 ∷ []; len = 2 }
    ∷ []

abbrev three_after : BufferVec
three_after =
    record { bytes = 10 ∷ []; len = 1 }
    ∷ record { bytes = 2 ∷ 3 ∷ []; len = 2 }
    ∷ record { bytes = 4 ∷ 14 ∷ []; len = 2 }
    ∷ []

copies_across_parts : buffer_vec_copy_vec two_parts 1 three_parts 1 3 ≡ some (success, three_after)
unfolding buffer_vec_copy_vec copy_vec_general copy_vec_loop seek_len memcpy outside buffer_vec_len
copies_across_parts = refl

refuses_too_many :
    buffer_vec_copy_vec two_parts 1 three_parts 1 5 ≡ some (out_of_range, three_parts)
unfolding buffer_vec_copy_vec copy_vec_general copy_vec_loop seek_len memcpy outside buffer_vec_len
refuses_too_many = refl

abbrev word_memory : Buffer
word_memory = record { bytes = 7 ∷ 0 ∷ 9 ∷ 0 ∷ []; len = 2 }

abbrev empty_memory : Buffer
empty_memory = record { bytes = 0 ∷ 0 ∷ 0 ∷ 0 ∷ []; len = 2 }

word_memory-IsVec : IsVec 2 (word_memory ∷ [])
word_memory-IsVec = omega arith

empty_memory-IsVec : IsVec 2 (empty_memory ∷ [])
empty_memory-IsVec = omega arith

three_parts-IsVec : IsVec 1 three_parts
three_parts-IsVec = omega arith

words-Request : Request 2 1 (word_memory ∷ []) 0 2 three_parts 1 4
words-Request = record {
  source_vec = word_memory-IsVec;
  dest_vec = three_parts-IsVec;
  same_bytes = refl;
  some_bytes = omega arith;
  source_in = omega arith;
  dest_in = omega arith;
}

buffer_vec_copy_vec_ex-Copied_example :
    (out : BufferVec) × (buffer_vec_copy_vec_ex (word_memory ∷ []) 0 2 2 three_parts 1 1 4
      ≡ some (success, out))
    × Copied 2 1 (word_memory ∷ []) 0 three_parts 1 4 out
buffer_vec_copy_vec_ex-Copied_example =
    buffer_vec_copy_vec_ex-Copied 2 1 (word_memory ∷ []) 0 2 three_parts 1 4 words-Request

too_long : BadRequest 2 1 (word_memory ∷ []) 0 2 three_parts 2 4
too_long = record {
  source_elements = omega arith;
  dest_elements = omega arith;
  source_sum = omega arith;
  dest_sum = omega arith;
  some_elements = omega arith;
  bad = inr (inr (omega arith));
}

buffer_vec_copy_vec_ex_refuses_example :
    buffer_vec_copy_vec_ex (word_memory ∷ []) 0 2 2 three_parts 2 1 4
    ≡ some (out_of_range, three_parts)
buffer_vec_copy_vec_ex_refuses_example =
    buffer_vec_copy_vec_ex_refuses 2 1 (word_memory ∷ []) 0 2 three_parts 2 4 too_long

across_parts : Request 1 1 two_parts 1 3 three_parts 1 3
across_parts = record {
  source_vec = omega arith;
  dest_vec = omega arith;
  same_bytes = refl;
  some_bytes = omega arith;
  source_in = omega arith;
  dest_in = omega arith;
}

buffer_vec_copy_vec-Copied_example :
    (out : BufferVec) × (buffer_vec_copy_vec two_parts 1 three_parts 1 3 ≡ some (success, out))
    × Copied 1 1 two_parts 1 three_parts 1 3 out
buffer_vec_copy_vec-Copied_example =
    buffer_vec_copy_vec-Copied two_parts 1 three_parts 1 3 across_parts

two_parts-Sized : Sized two_parts
unfolding Sized
two_parts-Sized = (omega arith, (omega arith, tt))

three_parts-Sized : Sized three_parts
unfolding Sized
three_parts-Sized = (omega arith, (omega arith, (omega arith, tt)))

buffer_vec_copy_vec-eq-ex_example :
    buffer_vec_copy_vec two_parts 1 three_parts 1 3
    ≡ buffer_vec_copy_vec_ex two_parts 1 1 3 three_parts 1 1 3
buffer_vec_copy_vec-eq-ex_example =
    buffer_vec_copy_vec-eq-ex 1 1 3 (omega arith) (omega arith) (omega arith) two_parts three_parts
      two_parts-Sized three_parts-Sized

buffer_copy_wraps_example : buffer_copy word_memory 1 word_memory 1 (size_mod - 1) ≡ none
buffer_copy_wraps_example =
    buffer_copy_wraps word_memory 1 word_memory 1 (size_mod - 1) (omega arith) (omega arith)
      (omega arith) (omega arith) (omega arith) (omega arith) (omega arith) (omega arith)
      (omega arith) (omega arith)

read-write_example :
    (written : BufferVec) × (read : BufferVec) × (buffer_vec_copy_from_mem three_parts 1 word_memory
        0 2 2
      ≡ some (success, written))
    × (buffer_vec_copy_to_mem written 1 empty_memory 0 2 2 ≡ some (success, read))
    × ((k : ℕ) → k < 4 → byte_at 2 read k ≡ byte_at 2 (word_memory ∷ []) k)
read-write_example =
    read-write 2 word_memory three_parts empty_memory 1 2 word_memory-IsVec three_parts-IsVec
      empty_memory-IsVec (omega arith) (omega arith) (omega arith) (omega arith)
