-- ===== src/Array/Laws.antt =====
-- The copies of src/array.c: when the requested runs lie within the vectors they succeed and move
-- exactly those bytes, and otherwise they refuse and change nothing.
use robotraconteurlite.Prelude.{
  ℕ, zero, suc, ◌+◌, ◌-◌, ◌*◌, ◌≤◌, ◌<◌, ◌≡◌, refl, subst, [], ◌∷◌, Option, some, arith, true,
  false, length, get_elem?, ltb, size_mod, mul_size, if◌then◌else◌,
}
use robotraconteurlite.Status.{Status, success}
use robotraconteurlite.Array.{
  Buffer, BufferVec, byte_len, copy_bytes, outside, buffer_copy_ex, buffer_vec_len,
  copy_vec_ex_general, buffer_vec_copy_vec_ex, memcpy,
}
use robotraconteurlite.Array.Memory.{spliced, memcpy-eq-spliced, length-spliced, get_elem?-spliced}
use robotraconteurlite.Array.Layout.{lens, total, counts, IsVec, total-lens, buffer_vec_len-total}
use robotraconteurlite.Array.Copied.{Copied}
use robotraconteurlite.Array.CopyBytes.{copy_bytes-Copied}

pub inside-outside :
    (len pos count : ℕ)
    → 0 < count
    → pos + count ≤ len
    → len < size_mod
    → outside len pos count ≡ false
unfolding outside
inside-outside len pos count h le small = ground arith

pub beyond-outside :
    (len pos count : ℕ) → len < pos + count → pos + count < size_mod → outside len pos count ≡ true
unfolding outside
beyond-outside len pos count h small = ground arith

mul_mono : (a b e : ℕ) → a ≤ b → a * e ≤ b * e
mul_mono a b e h = grind arith

pub mul_small : (a b e : ℕ) → a ≤ b → b * e < size_mod → mul_size a e ≡ a * e
mul_small a b e h small = omega (arith, mul_mono a b e h)

-- A copy from one buffer into another, both taken for vectors.
module _ (se de : ℕ) (s d : Buffer) (from to n : ℕ) (s_stored : byte_len se s ≤ length s.bytes)
    (d_stored : byte_len de d ≤ length d.bytes) (s_run : from + n ≤ byte_len se s)
    (d_run : to + n ≤ byte_len de d) where
  abbrev single_out : Buffer
  single_out = record d { bytes = spliced d.bytes to s.bytes from n }

  single_memcpy : memcpy d.bytes to s.bytes from n ≡ some single_out.bytes
  single_memcpy = memcpy-eq-spliced d.bytes to s.bytes from n (omega arith) (omega arith)

  single_byte :
      (j : ℕ)
      → get_elem? single_out.bytes j ≡ (
          if ltb j to
          then get_elem? d.bytes j
          else if ltb j (to + n)
          then get_elem? s.bytes (from + (j - to))
          else get_elem? d.bytes j)
  single_byte = get_elem?-spliced d.bytes to s.bytes from n (omega arith) (omega arith)

  single-Copied : Copied se de (s ∷ []) from (d ∷ []) to n (single_out ∷ [])
  single-Copied = record {
    moved = λ k lt. ground (arith, single_byte (to + k));
    kept = λ j away. ground (arith, single_byte j);
    shape = refl;
    lengths = refl;
    stored = ground (arith, length-spliced d.bytes to s.bytes from n);
  }

-- What a request has to meet: both vectors set up, both runs of elements within them, both runs of
-- the same number of bytes, and at least one byte.
pub record Request (se de : ℕ) (source : BufferVec) (source_pos source_count : ℕ) (dest : BufferVec)
    (dest_pos dest_count : ℕ) : Type 0 where
  pub source_vec : IsVec se source
  pub dest_vec : IsVec de dest
  pub same_bytes : source_count * se ≡ dest_count * de
  pub some_bytes : 0 < source_count * se
  pub source_in : source_pos + source_count ≤ total (counts source)
  pub dest_in : dest_pos + dest_count ≤ total (counts dest)

scaled_run : (pos count len e : ℕ) → pos + count ≤ len → pos * e + count * e ≤ len * e
scaled_run pos count len e h = omega (arith, mul_mono (pos + count) len e h)

factor_pos : (a e : ℕ) → 0 < a * e → (0 < a) × (0 < e)
factor_pos zero e h = absurd (omega arith)
factor_pos (suc a) zero h = absurd (omega arith)
factor_pos (suc a) (suc e) h = omega arith

module _ (se de : ℕ) (source : BufferVec) (source_pos source_count : ℕ) (dest : BufferVec)
    (dest_pos dest_count : ℕ)
    (r : Request se de source source_pos source_count dest dest_pos dest_count) where
  source_bytes : source_pos * se + source_count * se ≤ total (lens se source)
  source_bytes =
      rw (total-lens se source r.source_vec.sized)
        (scaled_run source_pos source_count _ se r.source_in)

  dest_bytes : dest_pos * de + source_count * se ≤ total (lens de dest)
  dest_bytes =
      rw (total-lens de dest r.dest_vec.sized, r.same_bytes)
        (scaled_run dest_pos dest_count _ de r.dest_in)

  source_fits : total (lens se source) < size_mod
  source_fits = rw (total-lens se source r.source_vec.sized) r.source_vec.sized

  dest_fits : total (lens de dest) < size_mod
  dest_fits = rw (total-lens de dest r.dest_vec.sized) r.dest_vec.sized

  abbrev ByteCopy : Option (Status × BufferVec) → Type 0
  ByteCopy result =
      (out : BufferVec) × (result ≡ some (success, out))
      × Copied se de source (source_pos * se) dest (dest_pos * de) (source_count * se) out

  request_copy_bytes :
      ByteCopy (copy_bytes se de source (source_pos * se) dest (dest_pos * de) (source_count * se))
  request_copy_bytes =
      copy_bytes-Copied se de source r.source_vec.stored source_fits dest r.dest_vec.stored
        dest_fits (source_pos * se) (dest_pos * de) (source_count * se) r.some_bytes source_bytes
        dest_bytes

  -- The sizes that the code multiplies out do not wrap.
  unwrapped :
      (mul_size source_pos se ≡ source_pos * se)
      × (mul_size source_count se ≡ source_count * se)
      × (mul_size dest_pos de ≡ dest_pos * de)
      × (mul_size dest_count de ≡ dest_count * de)
  unwrapped = (
    mul_small source_pos (total (counts source)) se (omega (arith, r.source_in)) r.source_vec.sized,
    mul_small source_count (total (counts source)) se (omega (arith, r.source_in))
        r.source_vec.sized,
    mul_small dest_pos (total (counts dest)) de (omega (arith, r.dest_in)) r.dest_vec.sized,
    mul_small dest_count (total (counts dest)) de (omega (arith, r.dest_in)) r.dest_vec.sized,
  )

  source_inside : outside (buffer_vec_len source) source_pos source_count ≡ false
  source_inside = rw (buffer_vec_len-total source r.source_vec.elements) (
      inside-outside _ source_pos source_count (factor_pos source_count se r.some_bytes).0
        r.source_in r.source_vec.elements)

  dest_inside : outside (buffer_vec_len dest) dest_pos dest_count ≡ false
  dest_inside = rw (buffer_vec_len-total dest r.dest_vec.elements) (
      inside-outside _ dest_pos dest_count
        (factor_pos dest_count de (subst (λ t. 0 < t) r.same_bytes r.some_bytes)).0 r.dest_in
        r.dest_vec.elements)

  general_ex :
      ByteCopy (copy_vec_ex_general source source_pos se source_count dest dest_pos de dest_count)
  unfolding copy_vec_ex_general
  general_ex =
      let done = request_copy_bytes in
      (done.0, ground (arith, unwrapped, r.same_bytes, source_inside, dest_inside, done.1), done.2)

-- The path from one buffer to one buffer.
module _ (se de : ℕ) (s : Buffer) (source_pos source_count : ℕ) (d : Buffer)
    (dest_pos dest_count : ℕ)
    (r : Request se de (s ∷ []) source_pos source_count (d ∷ []) dest_pos dest_count) where
  single_source_run : source_pos * se + source_count * se ≤ byte_len se s
  single_source_run =
      omega
        (arith, source_bytes se de (s ∷ []) source_pos source_count (d ∷ []) dest_pos dest_count r)

  single_dest_run : dest_pos * de + source_count * se ≤ byte_len de d
  single_dest_run =
      omega
        (arith, dest_bytes se de (s ∷ []) source_pos source_count (d ∷ []) dest_pos dest_count r)

  single_source_inside : outside s.len source_pos source_count ≡ false
  single_source_inside =
      inside-outside s.len source_pos source_count (factor_pos source_count se r.some_bytes).0
        (omega (arith, r.source_in)) (omega (arith, r.source_vec.elements))

  single_dest_inside : outside d.len dest_pos dest_count ≡ false
  single_dest_inside =
      inside-outside d.len dest_pos dest_count
        (factor_pos dest_count de (subst (λ t. 0 < t) r.same_bytes r.some_bytes)).0
        (omega (arith, r.dest_in)) (omega (arith, r.dest_vec.elements))

  abbrev single_request_out : Buffer
  single_request_out =
      single_out se de s d (source_pos * se) (dest_pos * de) (source_count * se)
        r.source_vec.stored.0 r.dest_vec.stored.0 single_source_run single_dest_run

  single_ex :
      buffer_copy_ex s source_pos se source_count d dest_pos de dest_count
      ≡ some (success, single_request_out)
  unfolding buffer_copy_ex
  single_ex = ground (
    arith,
    unwrapped se de (s ∷ []) source_pos source_count (d ∷ []) dest_pos dest_count r,
    r.same_bytes,
    factor_pos source_count se r.some_bytes,
    single_source_inside,
    single_dest_inside,
    single_memcpy se de s d (source_pos * se) (dest_pos * de) (source_count * se)
        r.source_vec.stored.0 r.dest_vec.stored.0 single_source_run single_dest_run,
  )

-- A copy request of at least one byte, whose two runs are of the same number of bytes and lie
-- within their vectors, where the memory of both vectors holds their lengths and size_t their
-- sizes in elements and in bytes, succeeds, on the single-buffer path and on the general one, and
-- the destination holds the requested bytes of the source at the requested place, with every
-- other byte and every length unchanged.
pub buffer_vec_copy_vec_ex-Copied :
    (se de : ℕ) (source : BufferVec) (source_pos source_count : ℕ) (dest : BufferVec)
    (dest_pos dest_count : ℕ)
    → Request se de source source_pos source_count dest dest_pos dest_count
    → (out : BufferVec) × (buffer_vec_copy_vec_ex source source_pos se source_count dest dest_pos de
          dest_count
        ≡ some (success, out))
      × Copied se de source (source_pos * se) dest (dest_pos * de) (source_count * se) out
unfolding buffer_vec_copy_vec_ex
buffer_vec_copy_vec_ex-Copied se de (s ∷ []) sp sc (d ∷ []) dp dc r = (
  single_request_out se de s sp sc d dp dc r ∷ [],
  rw (single_ex se de s sp sc d dp dc r),
  single-Copied se de s d (sp * se) (dp * de) (sc * se) r.source_vec.stored.0 r.dest_vec.stored.0
      (single_source_run se de s sp sc d dp dc r) (single_dest_run se de s sp sc d dp dc r),
)
buffer_vec_copy_vec_ex-Copied se de [] sp sc dest dp dc r = general_ex se de [] sp sc dest dp dc r
buffer_vec_copy_vec_ex-Copied se de (s ∷ []) sp sc [] dp dc r =
    general_ex se de (s ∷ []) sp sc [] dp dc r
buffer_vec_copy_vec_ex-Copied se de (s ∷ []) sp sc (d ∷ d' ∷ ds) dp dc r =
    general_ex se de (s ∷ []) sp sc (d ∷ d' ∷ ds) dp dc r
buffer_vec_copy_vec_ex-Copied se de (s ∷ s' ∷ ss) sp sc dest dp dc r =
    general_ex se de (s ∷ s' ∷ ss) sp sc dest dp dc r
