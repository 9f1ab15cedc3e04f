-- ===== src/Message/Strings/Laws.antt =====
-- Strings, node ids and other runs of bytes: written, they stand at the offset; where they stand,
-- they are read.
use robotraconteurlite.Prelude.{
  ℕ, ◌+◌, ◌%◌, ◌≤◌, ◌<◌, ◌≡◌, refl, ap, ap₂, true, false, Option, none, some, List, [], ◌∷◌, ◌++◌,
  arith, ltb, ◌==◌, add_size, length, take, length-append, subst, size_mod,
}
use robotraconteurlite.Status.{success}
use robotraconteurlite.Array.{BufferVec, buffer_vec_copy_to_mem}
use robotraconteurlite.Array.Bytes.{memory_of, copy_from_bytes-Written, copy_to_bytes-HoldsAt}
use robotraconteurlite.Array.Holds.{HoldsAt, HoldsAt-left}
use robotraconteurlite.Array.Numbers.{le_bytes, length-le_bytes}
use robotraconteurlite.Message.Numbers.{uint32_max, message_write_uint16, message_write_uint_x}
use robotraconteurlite.Message.Numbers.Fields.{
  message_write_uint16-Wrote, message_read_uint16-HoldsAt,
}
use robotraconteurlite.Message.Numbers.Codec.{
  encoded_uint_x, message_write_uint_x-Wrote, message_read_uint_x-HoldsAt,
}
use robotraconteurlite.Message.Steps.{Puts, then_write-Puts, write_nothing-Puts}
use robotraconteurlite.Message.Strings.{
  HeaderString, StringInfo, write_chars, message_read_header_string,
  message_read_header_string_with_len_prefix2_1, message_read_header_string_with_len_prefix4_1,
  nodeid_size, message_read_nodeid, write_run, message_write_header_string_with_len_prefix2,
  message_write_header_string_with_len_prefix4,
}

abbrev pub encoded_prefix2 : List ℕ → List ℕ
encoded_prefix2 str = le_bytes 2 (length str) ++ str

abbrev pub encoded_prefix4 : List ℕ → List ℕ
encoded_prefix4 str = encoded_uint_x (length str) ++ str

pub write_run-Puts : (xs : List ℕ) → 0 < length xs → Puts (write_run (length xs) xs) xs
unfolding write_run
write_run-Puts xs more vec o ok fits =
    let (out, e, z) = copy_from_bytes-Written vec o xs more ok fits in
    let at : add_size o (length xs) ≡ o + length xs = omega (arith, ok.elements) in
    (out, rw e (ap (λ k. some (success, out, k)) at), z)

write_chars-Puts : (xs : List ℕ) → Puts (write_chars xs) xs
write_chars-Puts [] vec o ok fits = write_nothing-Puts vec o ok fits
write_chars-Puts (x ∷ xs) vec o ok fits =
    let yes : ltb 0 (length (x ∷ xs)) ≡ true = ground arith in
    simp yes (write_run-Puts (x ∷ xs) (omega arith) vec o ok fits)

module _ (str : List ℕ) where
  pub write_prefix2-Puts :
      length str < 65536
      → Puts (λ vec o. message_write_header_string_with_len_prefix2 str vec o) (encoded_prefix2 str)
  unfolding message_write_header_string_with_len_prefix2
  write_prefix2-Puts small vec o ok fits =
      let no : ltb uint32_max (length str) ≡ false = ground arith in
      let same : length str % 65536 ≡ length str = omega arith in
      let n = length-le_bytes 2 (length str) in
      let w =
        then_write-Puts (λ v k. message_write_uint16 v k (length str)) (write_chars str)
          (le_bytes 2 (length str)) str
          (λ v k ok' h. message_write_uint16-Wrote v k (length str) ok' (omega (arith, n)))
          (write_chars-Puts str) in
      simp (no, same) (w vec o ok fits)

  pub write_prefix4-Puts :
      length str ≤ uint32_max
      → Puts (λ vec o. message_write_header_string_with_len_prefix4 str vec o) (encoded_prefix4 str)
  unfolding message_write_header_string_with_len_prefix4
  write_prefix4-Puts small vec o ok fits =
      let no : ltb uint32_max (length str) ≡ false = ground arith in
      let w =
        then_write-Puts (λ v k. message_write_uint_x v k (length str)) (write_chars str)
          (encoded_uint_x (length str)) str
          (λ v k ok' h. message_write_uint_x-Wrote v k (length str) ok' h) (write_chars-Puts str) in
      simp no (w vec o ok fits)

-- Where the characters stand behind a length.
abbrev pub place : ℕ → List ℕ → List ℕ → StringInfo
place o prefix str = record { offset = o + length prefix; str_len = length str }

module _ (vec : BufferVec) (o : ℕ) (str : List ℕ) (info : StringInfo) where
  pub read_prefix2-HoldsAt :
      length str < 65536
      → HoldsAt vec o (encoded_prefix2 str)
      → message_read_header_string_with_len_prefix2_1 vec o info
        ≡ some (success, o + length (encoded_prefix2 str), place o (le_bytes 2 (length str)) str)
  unfolding message_read_header_string_with_len_prefix2_1
  read_prefix2-HoldsAt small h =
      let n = length-le_bytes 2 (length str) in
      let n' = length-append (le_bytes 2 (length str)) str in
      let e =
        message_read_uint16-HoldsAt vec o (length str) 0 small
          (HoldsAt-left vec o (le_bytes 2 (length str)) str h) in
      let at : add_size (o + 2) (length str) ≡ o + length (encoded_prefix2 str) =
        omega (arith, h.fits, h.ok.elements) in
      let at' : o + 2 ≡ o + length (le_bytes 2 (length str)) = omega arith in
      rw e (ap₂ (λ k j. some (success, k, record { offset = j; str_len = length str })) at at')

  pub read_prefix4-HoldsAt :
      length str < 4294967296
      → HoldsAt vec o (encoded_prefix4 str)
      → message_read_header_string_with_len_prefix4_1 vec o info
        ≡ some
            (success, o + length (encoded_prefix4 str), place o (encoded_uint_x (length str)) str)
  unfolding message_read_header_string_with_len_prefix4_1
  read_prefix4-HoldsAt small h =
      let n' = length-append (encoded_uint_x (length str)) str in
      let e =
        message_read_uint_x-HoldsAt vec o (length str) 0 small
          (HoldsAt-left vec o (encoded_uint_x (length str)) str h) in
      let at : add_size (o + length (encoded_uint_x (length str))) (length str)
          ≡ o + length (encoded_prefix4 str) =
        omega (arith, h.fits, h.ok.elements) in
      rw e (ap (λ k. some (success, k, place o (encoded_uint_x (length str)) str)) at)

-- A string into which `n` characters can be read: NULL without a length, or memory with room.
abbrev RoomIn : Option (List ℕ) → ℕ → ℕ → Type 0
RoomIn none len n = len ≡ 0
RoomIn (some bytes) len n = (n ≤ len) × (len ≤ length bytes) × (len < size_mod)

abbrev pub Room : HeaderString → ℕ → Type 0
Room str n = RoomIn str.chars str.len n

-- What is in the memory of a string after reading, where it has memory.
abbrev Front : Option (List ℕ) → List ℕ → Type 0
Front none xs = Unit {0}
Front (some bytes) xs = take (length xs) bytes ≡ xs

abbrev pub Received : List ℕ → HeaderString → Type 0
Received xs str = (str.len ≡ length xs) × Front str.chars xs

module _ (vec : BufferVec) (o : ℕ) (xs : List ℕ) (h : HoldsAt vec o xs) where
  read_into :
      (chars : Option (List ℕ)) (len : ℕ)
      → 0 < length xs
      → RoomIn chars len (length xs)
      → (out : HeaderString) × (message_read_header_string vec o
            (length xs)
            (record { chars = chars; len = len })
          ≡ some (success, out))
        × Received xs out
  unfolding message_read_header_string
  read_into none len more e =
      let no : (length xs == 0) ≡ false = ground arith in
      let yes : (len == 0) ≡ true = ground arith in
      (record { chars = none; len = length xs }, simp (no, yes), (refl, tt))
  read_into (some bytes) len more (room, stored, small) =
      let no : (length xs == 0) ≡ false = ground arith in
      let no' : ltb len (length xs) ≡ false = ground arith in
      let (out, e, same, still) =
        copy_to_bytes-HoldsAt vec o xs more bytes len room stored small h in
      (record { chars = some out; len = length xs }, simp (no, no', e), (refl, same))

Front-empty : (chars : Option (List ℕ)) → Front chars []
Front-empty none = tt
Front-empty (some bytes) = refl

-- Characters that stand at the offset are read into a string with room for them.
pub read_header_string-HoldsAt :
    (vec : BufferVec) (o : ℕ) (xs : List ℕ) (str : HeaderString)
    → HoldsAt vec o xs
    → Room str (length xs)
    → (out : HeaderString) × (message_read_header_string vec o (length xs) str
        ≡ some (success, out))
      × Received xs out
unfolding message_read_header_string
read_header_string-HoldsAt vec o [] str h room =
    (record { chars = str.chars; len = 0 }, refl, (refl, Front-empty str.chars))
read_header_string-HoldsAt vec o (x ∷ xs) str h room =
    read_into vec o (x ∷ xs) h str.chars str.len (omega arith) room

pub read_nodeid-HoldsAt :
    (vec : BufferVec) (o : ℕ) (id val : List ℕ)
    → length id ≡ nodeid_size
    → nodeid_size ≤ length val
    → HoldsAt vec o id
    → message_read_nodeid vec o val ≡ some (success, o + length id, id)
unfolding message_read_nodeid
read_nodeid-HoldsAt vec o id val n room h =
    let (out, e, same, still) =
      copy_to_bytes-HoldsAt vec o id (omega arith) val nodeid_size (omega arith) room (omega arith)
        h in
    let e' : buffer_vec_copy_to_mem vec o (memory_of val nodeid_size) 0 1 nodeid_size
        ≡ some (success, memory_of out nodeid_size ∷ []) =
      subst
        (λ k.
          buffer_vec_copy_to_mem vec o (memory_of val nodeid_size) 0 1 k
          ≡ some (success, memory_of out nodeid_size ∷ []))
        n e in
    let same' : take nodeid_size out ≡ id = subst (λ k. take k out ≡ id) n same in
    let at : add_size o nodeid_size ≡ o + length id = omega (arith, h.fits, h.ok.elements) in
    rw e' (ap₂ (λ k j. some (success, k, j)) at same')
