-- ===== src/Array/Refusals.antt =====
-- The copies of src/array.c on requests that they refuse, the two copies against each other, and
-- the range check where `size_t` wraps.
use robotraconteurlite.Prelude.{
  ℕ, ◌+◌, ◌-◌, ◌≤◌, ◌<◌, ◌≡◌, ◌≢◌, [], ◌∷◌, none, some, arith, length, size_mod, mul_size, ◌⊎◌,
  ◌==◌, true, suc, Option-cases, inl, inr,
}
use robotraconteurlite.Status.{out_of_range}
use robotraconteurlite.Array.{
  Buffer, BufferVec, outside, buffer_copy, buffer_copy_ex, copy_vec_general, buffer_vec_copy_vec,
  copy_vec_ex_general, buffer_vec_copy_vec_ex, memcpy, copy_bytes, seek, start_pos,
}
use robotraconteurlite.Array.ByteLoops.{Sized, seek_len-seek, copy_vec_loop-copy_loop}
use robotraconteurlite.Array.Layout.{total, counts, buffer_vec_len-total}
use robotraconteurlite.Array.Laws.{beyond-outside}

mul_size-one : (a : ℕ) → a < size_mod → mul_size a 1 ≡ a
mul_size-one a h = omega arith

module _ (source_pos dest_pos count : ℕ) (sp_size : source_pos < size_mod)
    (dp_size : dest_pos < size_mod) (count_size : count < size_mod) where
  buffer_copy-eq-ex :
      (s d : Buffer)
      → buffer_copy s source_pos d dest_pos count
        ≡ buffer_copy_ex s source_pos 1 count d dest_pos 1 count
  unfolding buffer_copy buffer_copy_ex
  buffer_copy-eq-ex s d = ground (
    arith,
    mul_size-one source_pos sp_size,
    mul_size-one dest_pos dp_size,
    mul_size-one count count_size,
  )

  general-eq-ex :
      (source dest : BufferVec)
      → Sized source
      → Sized dest
      → copy_vec_general source source_pos dest dest_pos count
        ≡ copy_vec_ex_general source source_pos 1 count dest dest_pos 1 count
  unfolding copy_vec_general copy_vec_ex_general copy_bytes
  general-eq-ex source dest ok ok' =
      let one = mul_size-one source_pos sp_size in
      let one' = mul_size-one dest_pos dp_size in
      let same = mul_size-one count count_size in
      let yes : (count == count) ≡ true = ground arith in
      let found = seek_len-seek source 0 0 source_pos ok in
      let found' = seek_len-seek dest 0 0 dest_pos ok' in
      let loops = λ (i : ℕ) (sp : ℕ) (j : ℕ) (dp : ℕ).
        copy_vec_loop-copy_loop source (suc (count + length source + length dest)) i sp dest j dp
          count ok ok' in
      elim (Option-cases (seek 1 source 0 0 source_pos)) [
        | inl e ↦ simp (one, one', same, yes, found, e)
        | inr (a, e) ↦ elim (Option-cases (seek 1 dest 0 0 dest_pos)) [
          | inl e' ↦ simp (one, one', same, yes, found, found', e, e')
          | inr (b, e') ↦ simp (
            one,
            one',
            same,
            yes,
            found,
            found',
            e,
            e',
            loops a.1 (start_pos a.0 source_pos) b.1 (start_pos b.0 dest_pos),
          )
        ]
      ]

  -- The copy of bytes returns the same as the copy of elements at element size 1, for positions,
  -- counts and lengths of buffers that size_t holds: on the single-buffer path, and on the
  -- general one, where each has its own searches and its own copying loop.
  pub buffer_vec_copy_vec-eq-ex :
      (source dest : BufferVec)
      → Sized source
      → Sized dest
      → buffer_vec_copy_vec source source_pos dest dest_pos count
        ≡ buffer_vec_copy_vec_ex source source_pos 1 count dest dest_pos 1 count
  unfolding buffer_vec_copy_vec buffer_vec_copy_vec_ex
  buffer_vec_copy_vec-eq-ex (s ∷ []) (d ∷ []) ok ok' = rw (buffer_copy-eq-ex s d)
  buffer_vec_copy_vec-eq-ex [] dest ok ok' = general-eq-ex [] dest ok ok'
  buffer_vec_copy_vec-eq-ex (s ∷ []) [] ok ok' = general-eq-ex (s ∷ []) [] ok ok'
  buffer_vec_copy_vec-eq-ex (s ∷ []) (d ∷ d' ∷ ds) ok ok' =
      general-eq-ex (s ∷ []) (d ∷ d' ∷ ds) ok ok'
  buffer_vec_copy_vec-eq-ex (s ∷ s' ∷ ss) dest ok ok' = general-eq-ex (s ∷ s' ∷ ss) dest ok ok'

-- A request that does not fit: the runs differ in bytes, or one leaves its vector. No sum of a
-- position and a count wraps.
pub record BadRequest (se de : ℕ) (source : BufferVec) (source_pos source_count : ℕ)
    (dest : BufferVec) (dest_pos dest_count : ℕ) : Type 0 where
  pub source_elements : total (counts source) < size_mod
  pub dest_elements : total (counts dest) < size_mod
  pub source_sum : source_pos + source_count < size_mod
  pub dest_sum : dest_pos + dest_count < size_mod
  pub some_elements : 0 < source_count
  pub bad :
      (mul_size source_count se ≢ mul_size dest_count de)
      ⊎ (total (counts source) < source_pos + source_count)
      ⊎ (total (counts dest) < dest_pos + dest_count)

module _ (se de : ℕ) (source : BufferVec) (source_pos source_count : ℕ) (dest : BufferVec)
    (dest_pos dest_count : ℕ)
    (r : BadRequest se de source source_pos source_count dest dest_pos dest_count) where
  general_refuses :
      copy_vec_ex_general source source_pos se source_count dest dest_pos de dest_count
      ≡ some (out_of_range, dest)
  unfolding copy_vec_ex_general
  general_refuses = ground (
    arith,
    r.bad,
    buffer_vec_len-total source r.source_elements,
    buffer_vec_len-total dest r.dest_elements,
    beyond-outside (total (counts source)) source_pos source_count,
    beyond-outside (total (counts dest)) dest_pos dest_count,
    r.source_sum,
    r.dest_sum,
  )

single_refuses :
    (se de : ℕ) (s : Buffer) (sp sc : ℕ) (d : Buffer) (dp dc : ℕ)
    → BadRequest se de (s ∷ []) sp sc (d ∷ []) dp dc
    → buffer_copy_ex s sp se sc d dp de dc ≡ some (out_of_range, d)
unfolding buffer_copy_ex
single_refuses se de s sp sc d dp dc r = ground (
  arith,
  r.bad,
  beyond-outside s.len sp sc,
  beyond-outside d.len dp dc,
  r.source_sum,
  r.dest_sum,
  r.some_elements,
)

-- A copy request of at least one element that leaves a vector, or whose two runs differ in bytes,
-- and in which no position plus count wraps, is refused with OUT_OF_RANGE and leaves the
-- destination as it was.
pub buffer_vec_copy_vec_ex_refuses :
    (se de : ℕ) (source : BufferVec) (source_pos source_count : ℕ) (dest : BufferVec)
    (dest_pos dest_count : ℕ)
    → BadRequest se de source source_pos source_count dest dest_pos dest_count
    → buffer_vec_copy_vec_ex source source_pos se source_count dest dest_pos de dest_count
      ≡ some (out_of_range, dest)
unfolding buffer_vec_copy_vec_ex
buffer_vec_copy_vec_ex_refuses se de (s ∷ []) sp sc (d ∷ []) dp dc r =
    rw (single_refuses se de s sp sc d dp dc r)
buffer_vec_copy_vec_ex_refuses se de [] sp sc dest dp dc r =
    general_refuses se de [] sp sc dest dp dc r
buffer_vec_copy_vec_ex_refuses se de (s ∷ []) sp sc [] dp dc r =
    general_refuses se de (s ∷ []) sp sc [] dp dc r
buffer_vec_copy_vec_ex_refuses se de (s ∷ []) sp sc (d ∷ d' ∷ ds) dp dc r =
    general_refuses se de (s ∷ []) sp sc (d ∷ d' ∷ ds) dp dc r
buffer_vec_copy_vec_ex_refuses se de (s ∷ s' ∷ ss) sp sc dest dp dc r =
    general_refuses se de (s ∷ s' ∷ ss) sp sc dest dp dc r

-- Where position plus count passes the largest size_t by so little that the wrapped sum lies
-- within the buffer, on both sides, buffer_copy passes its range check and the memcpy leaves the
-- buffers.
pub buffer_copy_wraps :
    (source : Buffer) (source_pos : ℕ) (dest : Buffer) (dest_pos count : ℕ)
    → length source.bytes < size_mod
    → source_pos < source.len
    → dest_pos < dest.len
    → count < size_mod
    → size_mod ≤ source_pos + count
    → size_mod ≤ dest_pos + count
    → source_pos + count - size_mod ≤ source.len
    → dest_pos + count - size_mod ≤ dest.len
    → source.len < size_mod
    → dest.len < size_mod
    → buffer_copy source source_pos dest dest_pos count ≡ none
unfolding buffer_copy outside memcpy
buffer_copy_wraps source source_pos dest dest_pos count h1 h2 h3 h4 h5 h6 h7 h8 h9 h10 =
    ground arith
