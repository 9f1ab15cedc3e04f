-- ===== src/Array.antt =====
-- src/array.c and include/robotraconteurlite/array.h: buffers, vectors of buffers, and the
-- functions that copy bytes between them.
-- A buffer owns the bytes that its pointer leads to, so no two buffers overlap. `bytes` may be
-- longer than `len`, as the memory behind a pointer may. Functions that write through `dest`
-- return the new destination beside the status; `none` is an access out of the memory.
pub mod Memory
pub mod Layout
pub mod Copied
pub mod Loop
pub mod CopyBytes
pub mod Laws
pub mod ByteLoops
pub mod Refusals
pub mod ByteCopy
pub mod RoundTrip
pub mod Holds
pub mod Numbers
pub mod Bytes
mod Tests
use robotraconteurlite.Prelude.{
  ℕ, zero, suc, ◌+◌, Bool, true, false, not, ◌&&◌, ◌||◌, Option, none, some, List, [], ◌∷◌, ltb,
  leb, ◌==◌, if◌then◌else◌, ◌>>=◌, add_size, sub_size, mul_size, length, get_elem?, set, take, drop,
  ◌++◌,
}
use robotraconteurlite.Status.{Status, success, out_of_range}

-- `struct robotraconteurlite_buffer`. For the functions that take an element size, `len` counts
-- elements.
pub record Buffer : Type 0 where
  pub bytes : List ℕ
  pub len : ℕ

-- `struct robotraconteurlite_buffer_vec`: `buffer_vec` and `buffer_vec_cnt`.
abbrev pub BufferVec : Type 0
BufferVec = List Buffer

-- `memcpy(&dest[dest_pos], &source[source_pos], count)`.
pub memcpy : List ℕ → ℕ → List ℕ → ℕ → ℕ → Option (List ℕ)
memcpy dest dest_pos source source_pos count =
    if leb (dest_pos + count) (length dest) && leb (source_pos + count) (length source)
    then some (
        take dest_pos dest ++ (take count (drop source_pos source) ++ drop (dest_pos + count) dest))
    else none

-- `!(pos < len) || ((pos + count) > len)`, the range check of every copy.
pub outside : ℕ → ℕ → ℕ → Bool
outside len pos count = not (ltb pos len) || ltb len (add_size pos count)

pub buffer_copy : Buffer → ℕ → Buffer → ℕ → ℕ → Option (Status × Buffer)
unfolding outside
buffer_copy source source_pos dest dest_pos count =
    if count == 0
    then some (success, dest)
    else if outside source.len source_pos count || outside dest.len dest_pos count
    then some (out_of_range, dest)
    else memcpy dest.bytes dest_pos source.bytes source_pos count >>= λ bytes.
        some (success, record dest { bytes = bytes })

pub buffer_copy_ex : Buffer → ℕ → ℕ → ℕ → Buffer → ℕ → ℕ → ℕ → Option (Status × Buffer)
unfolding outside
buffer_copy_ex source source_pos source_elem_size source_count dest dest_pos dest_elem_size
      dest_count =
    if (source_count == 0) && (dest_count == 0)
    then some (success, dest)
    else if not (mul_size source_count source_elem_size == mul_size dest_count dest_elem_size)
    then some (out_of_range, dest)
    else if outside source.len source_pos source_count || outside dest.len dest_pos dest_count
    then some (out_of_range, dest)
    else memcpy dest.bytes (mul_size dest_pos dest_elem_size) source.bytes
        (mul_size source_pos source_elem_size) (mul_size source_count source_elem_size)
      >>= λ bytes. some (success, record dest { bytes = bytes })

vec_len_from : ℕ → BufferVec → ℕ
vec_len_from acc [] = acc
vec_len_from acc (b ∷ bs) = vec_len_from (add_size acc b.len) bs

-- `robotraconteurlite_buffer_vec_len`, and the same loop at the head of the copies.
pub buffer_vec_len : BufferVec → ℕ
unfolding vec_len_from
buffer_vec_len v = vec_len_from 0 v

-- The bytes of a buffer of elements of size `e`: `len * e`.
abbrev pub byte_len : ℕ → Buffer → ℕ
byte_len e b = mul_size b.len e

-- `while (current + vec[i].len * e < pos) { current += vec[i].len * e; i++; }`. The list is
-- `vec[i..)`; a read past its end is undefined.
pub seek : ℕ → BufferVec → ℕ → ℕ → ℕ → Option (ℕ × ℕ)
seek e [] current i pos = none
seek e (b ∷ bs) current i pos =
    if ltb (add_size current (byte_len e b)) pos
    then seek e bs (add_size current (byte_len e b)) (i + 1) pos
    else some (current, i)

-- `(current < pos) ? pos - current : 0`
abbrev start_pos : ℕ → ℕ → ℕ
start_pos current pos = if ltb current pos then sub_size pos current else 0

-- `delta = (source_delta < dest_delta) ? source_delta : dest_delta;
-- delta = (remaining < delta) ? remaining : delta;`
abbrev block_len : ℕ → ℕ → ℕ → ℕ
block_len source_delta dest_delta remaining =
    let least = if ltb source_delta dest_delta then source_delta else dest_delta in
    if ltb remaining least then remaining else least

module _ (source_elem_size dest_elem_size : ℕ) (source : BufferVec) where
  -- The copying loop, on fuel: buffer `si` of the source at byte `sp`, buffer `di` of the
  -- destination at byte `dp`, and `remaining` bytes to copy.
  pub copy_loop : ℕ → ℕ → ℕ → BufferVec → ℕ → ℕ → ℕ → Option BufferVec
  copy_loop zero si sp dest di dp remaining = none
  copy_loop (suc fuel) si sp dest di dp remaining = elim (remaining == 0) [
    | true ↦ some dest
    | false ↦ get_elem? source si >>= λ s. get_elem? dest di >>= λ d.
        let source_delta = sub_size (byte_len source_elem_size s) sp in
        let dest_delta = sub_size (byte_len dest_elem_size d) dp in
        elim (source_delta == 0) [
          | true ↦ copy_loop fuel (si + 1) 0 dest di dp remaining
          | false ↦ elim (dest_delta == 0) [
            | true ↦ copy_loop fuel si sp dest (di + 1) 0 remaining
            | false ↦
                let delta = block_len source_delta dest_delta remaining in
                memcpy d.bytes dp s.bytes sp delta >>= λ bytes.
                copy_loop fuel si (add_size sp delta) (set dest di (record d { bytes = bytes })) di
                  (add_size dp delta) (sub_size remaining delta)
          ]
        ]
  ]

  -- Each round copies a byte at least or steps to the next buffer, so this fuel is enough
  -- (`Array.Loop`).
  pub copy_bytes : ℕ → BufferVec → ℕ → ℕ → Option (Status × BufferVec)
  copy_bytes source_pos dest dest_pos count =
      seek source_elem_size source 0 0 source_pos >>= λ at_source.
      seek dest_elem_size dest 0 0 dest_pos >>= λ at_dest.
      copy_loop (suc (count + length source + length dest)) at_source.1
        (start_pos at_source.0 source_pos) dest at_dest.1 (start_pos at_dest.0 dest_pos) count
      >>= λ out. some (success, out)

abbrev one_buffer : Status × Buffer → Option (Status × BufferVec)
one_buffer r = some (r.0, r.1 ∷ [])

-- `while ((current + vec[i].len) < pos) { current += vec[i].len; i++; }`, on `vec[i..)`.
pub seek_len : BufferVec → ℕ → ℕ → ℕ → Option (ℕ × ℕ)
seek_len [] current i pos = none
seek_len (b ∷ bs) current i pos =
    if ltb (add_size current b.len) pos
    then seek_len bs (add_size current b.len) (i + 1) pos
    else some (current, i)

-- The copying loop of `robotraconteurlite_buffer_vec_copy_vec`, on fuel: buffer `source_i` of the
-- source at byte `source_i_pos`, buffer `dest_i` of the destination at byte `dest_i_pos`.
pub copy_vec_loop : BufferVec → ℕ → ℕ → ℕ → BufferVec → ℕ → ℕ → ℕ → Option BufferVec
copy_vec_loop source zero source_i source_i_pos dest dest_i dest_i_pos count_remaining = none
copy_vec_loop source (suc fuel) source_i source_i_pos dest dest_i dest_i_pos count_remaining =
    elim (count_remaining == 0) [
      | true ↦ some dest
      | false ↦ get_elem? source source_i >>= λ s. get_elem? dest dest_i >>= λ d.
          let source_i_delta = sub_size s.len source_i_pos in
          let dest_i_delta = sub_size d.len dest_i_pos in
          elim (source_i_delta == 0) [
            | true ↦
                copy_vec_loop source fuel (source_i + 1) 0 dest dest_i dest_i_pos count_remaining
            | false ↦ elim (dest_i_delta == 0) [
              | true ↦
                  copy_vec_loop source fuel source_i source_i_pos dest (dest_i + 1) 0
                    count_remaining
              | false ↦
                  let least =
                    if ltb source_i_delta dest_i_delta then source_i_delta else dest_i_delta in
                  let delta = if ltb count_remaining least then count_remaining else least in
                  memcpy d.bytes dest_i_pos s.bytes source_i_pos delta >>= λ bytes.
                  copy_vec_loop source fuel source_i (add_size source_i_pos delta)
                    (set dest dest_i (record d { bytes = bytes })) dest_i
                    (add_size dest_i_pos delta) (sub_size count_remaining delta)
            ]
          ]
    ]

-- The path of `robotraconteurlite_buffer_vec_copy_vec` that is not a single buffer to a single
-- buffer.
pub copy_vec_general : BufferVec → ℕ → BufferVec → ℕ → ℕ → Option (Status × BufferVec)
copy_vec_general source source_pos dest dest_pos count =
    if outside (buffer_vec_len source) source_pos count
      || outside (buffer_vec_len dest) dest_pos count
    then some (out_of_range, dest)
    else seek_len source 0 0 source_pos >>= λ at_source. seek_len dest 0 0 dest_pos >>= λ at_dest.
        copy_vec_loop source (suc (count + length source + length dest)) at_source.1
          (if ltb at_source.0 source_pos then sub_size source_pos at_source.0 else 0) dest at_dest.1
          (if ltb at_dest.0 dest_pos then sub_size dest_pos at_dest.0 else 0) count
        >>= λ out. some (success, out)

pub buffer_vec_copy_vec : BufferVec → ℕ → BufferVec → ℕ → ℕ → Option (Status × BufferVec)
buffer_vec_copy_vec (s ∷ []) source_pos (d ∷ []) dest_pos count =
    buffer_copy s source_pos d dest_pos count >>= one_buffer
buffer_vec_copy_vec source source_pos dest dest_pos count =
    copy_vec_general source source_pos dest dest_pos count

pub copy_vec_ex_general :
    BufferVec → ℕ → ℕ → ℕ → BufferVec → ℕ → ℕ → ℕ → Option (Status × BufferVec)
copy_vec_ex_general source source_pos source_elem_size source_count dest dest_pos dest_elem_size
      dest_count =
    if not (mul_size source_count source_elem_size == mul_size dest_count dest_elem_size)
    then some (out_of_range, dest)
    else if outside (buffer_vec_len source) source_pos source_count
        || outside (buffer_vec_len dest) dest_pos dest_count
    then some (out_of_range, dest)
    else copy_bytes source_elem_size dest_elem_size source (mul_size source_pos source_elem_size)
        dest (mul_size dest_pos dest_elem_size) (mul_size source_count source_elem_size)

pub buffer_vec_copy_vec_ex :
    BufferVec → ℕ → ℕ → ℕ → BufferVec → ℕ → ℕ → ℕ → Option (Status × BufferVec)
buffer_vec_copy_vec_ex (s ∷ []) source_pos source_elem_size source_count (d ∷ []) dest_pos
      dest_elem_size dest_count =
    buffer_copy_ex s source_pos source_elem_size source_count d dest_pos dest_elem_size dest_count
    >>= one_buffer
buffer_vec_copy_vec_ex source source_pos source_elem_size source_count dest dest_pos dest_elem_size
      dest_count =
    copy_vec_ex_general source source_pos source_elem_size source_count dest dest_pos dest_elem_size
      dest_count

-- `robotraconteurlite_buffer_vec_copy_to_mem`: the destination is memory of `dest.len` elements.
pub buffer_vec_copy_to_mem : BufferVec → ℕ → Buffer → ℕ → ℕ → ℕ → Option (Status × BufferVec)
buffer_vec_copy_to_mem source source_pos dest dest_pos dest_elem_size dest_count =
    buffer_vec_copy_vec_ex source source_pos 1 (mul_size dest_count dest_elem_size) (dest ∷ [])
      dest_pos dest_elem_size dest_count

pub buffer_vec_copy_from_mem : BufferVec → ℕ → Buffer → ℕ → ℕ → ℕ → Option (Status × BufferVec)
buffer_vec_copy_from_mem dest dest_pos source source_pos source_elem_size source_count =
    buffer_vec_copy_vec_ex (source ∷ []) source_pos source_elem_size source_count dest dest_pos 1
      (mul_size source_count source_elem_size)
