-- ===== src/Array/Loop.antt =====
-- The copying loop of src/array.c: with enough fuel it ends, and it moves exactly the requested
-- run of bytes.
use robotraconteurlite.Prelude.{
  ℕ, zero, suc, ◌+◌, ◌-◌, ◌≤◌, ◌<◌, ◌≡◌, refl, subst, ◌∙◌, List, Option, some, arith, length,
  get_elem?, set, ltb, size_mod, ◌⊎◌, inl, inr, Bool-cases, get_elem?-some, length-set,
}
use robotraconteurlite.Array.{Buffer, BufferVec, byte_len, block_len, copy_loop, memcpy}
use robotraconteurlite.Array.Memory.{spliced, memcpy-eq-spliced, length-spliced, get_elem?-spliced}
use robotraconteurlite.Array.Copied.{Copied, Copied-trans, Copied-zero}
use robotraconteurlite.Array.Layout.{
  lens, total, offset, offset_mono, IsStored, byte_at, length-lens, lt-length_of_offset, offset-suc,
  IsStored-get_elem?, byte_at-offset, lens-set, counts-set, IsStored-set, byte_at-set,
}

module _ (se de : ℕ) (source : BufferVec) (source_stored : IsStored se source) where
  -- One `memcpy` of the loop: `n` bytes from buffer `si` to buffer `di`.
  record Block (si sp : ℕ) (dest : BufferVec) (di dp n : ℕ) : Type 0 where
    s : Buffer
    d : Buffer
    s_at : get_elem? source si ≡ some s
    d_at : get_elem? dest di ≡ some d
    dest_stored : IsStored de dest
    s_fits : sp + n ≤ byte_len se s
    d_fits : dp + n ≤ byte_len de d

  module _ {si sp : ℕ} {dest : BufferVec} {di dp n : ℕ} (b : Block si sp dest di dp n) where
    abbrev block_bytes : List ℕ
    block_bytes = spliced b.d.bytes dp b.s.bytes sp n

    abbrev block_out : BufferVec
    block_out = set dest di (record (b.d) { bytes = block_bytes })

    source_room : sp + n ≤ length b.s.bytes
    source_room = omega (arith, IsStored-get_elem? se source si b.s source_stored b.s_at, b.s_fits)

    dest_room : dp + n ≤ length b.d.bytes
    dest_room = omega (arith, IsStored-get_elem? de dest di b.d b.dest_stored b.d_at, b.d_fits)

    same_length : length block_bytes ≡ length b.d.bytes
    same_length = length-spliced b.d.bytes dp b.s.bytes sp n dest_room source_room

    block_memcpy : memcpy b.d.bytes dp b.s.bytes sp n ≡ some block_bytes
    block_memcpy = memcpy-eq-spliced b.d.bytes dp b.s.bytes sp n dest_room source_room

    -- The byte at position `p` after the copy, by the buffer that holds it.
    dest_byte :
        (q : ℕ)
        → q < byte_len de b.d
        → byte_at de dest (offset (lens de dest) di + q) ≡ get_elem? b.d.bytes q
    dest_byte q h = byte_at-offset de dest di q b.d b.d_at h

    source_byte :
        (q : ℕ)
        → q < byte_len se b.s
        → byte_at se source (offset (lens se source) si + q) ≡ get_elem? b.s.bytes q
    source_byte q h = byte_at-offset se source si q b.s b.s_at h

    block_moved :
        (k : ℕ)
        → k < n
        → byte_at de block_out (offset (lens de dest) di + dp + k)
          ≡ byte_at se source (offset (lens se source) si + sp + k)
    block_moved k lt =
        byte_at-set de b.d block_bytes same_length dest di (offset (lens de dest) di + dp + k)
          b.d_at
        ∙ ground (
          arith,
          b.d_fits,
          b.s_fits,
          get_elem?-spliced b.d.bytes dp b.s.bytes sp n dest_room source_room (dp + k),
          source_byte (sp + k),
        )

    block_kept :
        (j : ℕ)
        → (j < offset (lens de dest) di + dp) ⊎ (offset (lens de dest) di + dp + n ≤ j)
        → byte_at de block_out j ≡ byte_at de dest j
    block_kept j out =
        byte_at-set de b.d block_bytes same_length dest di j b.d_at
        ∙ ground (
          arith,
          get_elem?-spliced b.d.bytes dp b.s.bytes sp n dest_room source_room
              (j - offset (lens de dest) di),
          dest_byte (j - offset (lens de dest) di),
        )

    block-Copied :
        Copied se de source
          (offset (lens se source) si + sp)
          dest
          (offset (lens de dest) di + dp)
          n
          block_out
    block-Copied = record {
      moved = block_moved;
      kept = block_kept;
      shape = lens-set de b.d block_bytes same_length dest di b.d_at;
      lengths = counts-set de b.d block_bytes same_length dest di b.d_at;
      stored = IsStored-set de b.d block_bytes same_length dest di b.d_at b.dest_stored;
    }

  -- What one call of the loop finds, at a position within the total lengths.
  pub record AtLoop (from si sp : ℕ) (dest : BufferVec) (to di dp n : ℕ) : Type 0 where
    pub source_at : from ≡ offset (lens se source) si + sp
    pub dest_at : to ≡ offset (lens de dest) di + dp
    pub dest_stored : IsStored de dest
    pub source_small : total (lens se source) < size_mod
    pub dest_small : total (lens de dest) < size_mod
    pub source_run : from + n ≤ total (lens se source)
    pub dest_run : to + n ≤ total (lens de dest)
    pub source_in : from ≤ offset (lens se source) (suc si)
    pub dest_in : to ≤ offset (lens de dest) (suc di)

  -- While bytes remain both positions are in a buffer.
  current_source :
      (from si sp : ℕ) (dest : BufferVec) (to di dp n : ℕ)
      → AtLoop from si sp dest to di dp n
      → 0 < n
      → (s : Buffer) × (get_elem? source si ≡ some s) × (sp ≤ byte_len se s) × (si < length source)
  current_source from si sp dest to di dp n l pos =
      let inside : si < length source =
        omega
          (arith, lt-length_of_offset (lens se source) si (omega arith), length-lens se source) in
      let (s, e) = get_elem?-some source si inside in
      (s, e, omega (arith, l.source_at, l.source_in, offset-suc se source si s e), inside)

  current_dest :
      (from si sp : ℕ) (dest : BufferVec) (to di dp n : ℕ)
      → AtLoop from si sp dest to di dp n
      → 0 < n
      → (d : Buffer) × (get_elem? dest di ≡ some d) × (dp ≤ byte_len de d) × (di < length dest)
  current_dest from si sp dest to di dp n l pos =
      let inside : di < length dest =
        omega (arith, lt-length_of_offset (lens de dest) di (omega arith), length-lens de dest) in
      let (d, e) = get_elem?-some dest di inside in
      (d, e, omega (arith, l.dest_at, l.dest_in, offset-suc de dest di d e), inside)

  module _ (fuel si sp : ℕ) (dest : BufferVec) (di dp n : ℕ) (s d : Buffer)
      (s_at : get_elem? source si ≡ some s) (d_at : get_elem? dest di ≡ some d) where
    round-source_end :
        byte_len se s ≡ sp
        → copy_loop se de source (suc fuel) si sp dest di dp (suc n)
          ≡ copy_loop se de source fuel (suc si) 0 dest di dp (suc n)
    unfolding copy_loop
    round-source_end e = ground arith

    round-dest_end :
        sp < byte_len se s
        → byte_len de d ≡ dp
        → copy_loop se de source (suc fuel) si sp dest di dp (suc n)
          ≡ copy_loop se de source fuel si sp dest (suc di) 0 (suc n)
    unfolding copy_loop
    round-dest_end h e = ground arith

  -- The round that copies: `m` bytes, at least one.
  round-copy :
      (fuel si sp : ℕ) (dest : BufferVec) (di dp n m : ℕ)
      → n < size_mod
      → (b : Block si sp dest di dp m) → 0 < n
      → sp < byte_len se b.s
      → dp < byte_len de b.d
      → m ≡ block_len (byte_len se b.s - sp) (byte_len de b.d - dp) n
      → copy_loop se de source (suc fuel) si sp dest di dp n
        ≡ copy_loop se de source fuel si (sp + m) (block_out b) di (dp + m) (n - m)
  unfolding copy_loop
  round-copy fuel si sp dest di dp zero m small b pos sh dh e = elim pos [ ]
  round-copy fuel si sp dest di dp (suc n) m small b pos sh dh e =
      ground (arith, b.s_at, b.d_at, block_memcpy b)

  abbrev Copies : ℕ → BufferVec → ℕ → ℕ → Option BufferVec → Type 0
  Copies from dest to n result =
      (out : BufferVec) × (result ≡ some out) × Copied se de source from dest to n out

  -- The rounds keep `AtLoop`.
  AtLoop-source_end :
      (from si sp : ℕ) (dest : BufferVec) (to di dp n : ℕ) (s : Buffer)
      → AtLoop from si sp dest to di dp n
      → get_elem? source si ≡ some s
      → byte_len se s ≡ sp
      → AtLoop from (suc si) 0 dest to di dp n
  AtLoop-source_end from si sp dest to di dp n s l s_at e = record {
    source_at = omega (arith, l.source_at, offset-suc se source si s s_at);
    dest_at = l.dest_at;
    dest_stored = l.dest_stored;
    source_small = l.source_small;
    dest_small = l.dest_small;
    source_run = l.source_run;
    dest_run = l.dest_run;
    dest_in = l.dest_in;
    source_in = omega (arith, l.source_in, offset_mono (lens se source) (suc si));
  }

  AtLoop-dest_end :
      (from si sp : ℕ) (dest : BufferVec) (to di dp n : ℕ) (d : Buffer)
      → AtLoop from si sp dest to di dp n
      → get_elem? dest di ≡ some d
      → byte_len de d ≡ dp
      → AtLoop from si sp dest to (suc di) 0 n
  AtLoop-dest_end from si sp dest to di dp n d l d_at e = record {
    source_at = l.source_at;
    dest_at = omega (arith, l.dest_at, offset-suc de dest di d d_at);
    dest_stored = l.dest_stored;
    source_small = l.source_small;
    dest_small = l.dest_small;
    source_run = l.source_run;
    dest_run = l.dest_run;
    source_in = l.source_in;
    dest_in = omega (arith, l.dest_in, offset_mono (lens de dest) (suc di));
  }

  AtLoop-copy :
      (from si sp : ℕ) (dest : BufferVec) (to di dp n m : ℕ)
      → AtLoop from si sp dest to di dp n
      → m ≤ n
      → (b : Block si sp dest di dp m)
      → AtLoop (from + m) si (sp + m) (block_out b) (to + m) di (dp + m) (n - m)
  AtLoop-copy from si sp dest to di dp n m l le b =
      let c = block-Copied b in
      record {
        source_at = omega (arith, l.source_at);
        dest_at = rw c.shape (omega (arith, l.dest_at));
        dest_stored = c.stored;
        source_small = l.source_small;
        dest_small = rw c.shape l.dest_small;
        source_run = omega (arith, l.source_run);
        dest_run = rw c.shape (omega (arith, l.dest_run));
        source_in = omega (arith, l.source_at, b.s_fits, offset-suc se source si b.s b.s_at);
        dest_in = rw c.shape (omega (arith, l.dest_at, b.d_fits, offset-suc de dest di b.d b.d_at));
      }

  AtLoop-Copied :
      (from si sp : ℕ) (dest : BufferVec) (to di dp n m : ℕ)
      → AtLoop from si sp dest to di dp n
      → (b : Block si sp dest di dp m) → Copied se de source from dest to m (block_out b)
  AtLoop-Copied from si sp dest to di dp n m l b = rw (l.source_at, l.dest_at) (block-Copied b)

  after_copy :
      (fuel from si sp : ℕ) (dest : BufferVec) (to di dp n m : ℕ)
      → AtLoop from si sp dest to di dp n
      → 0 < n
      → (b : Block si sp dest di dp m) → sp < byte_len se b.s
      → dp < byte_len de b.d
      → m ≡ block_len (byte_len se b.s - sp) (byte_len de b.d - dp) n
      → m ≤ n
      → Copies
          (from + m)
          (block_out b)
          (to + m)
          (n - m)
          (copy_loop se de source fuel si (sp + m) (block_out b) di (dp + m) (n - m))
      → Copies from dest to n (copy_loop se de source (suc fuel) si sp dest di dp n)
  after_copy fuel from si sp dest to di dp n m l pos b sh dh e le rest =
      let small : n < size_mod = omega (arith, l.source_run, l.source_small) in
      let all : m + (n - m) ≡ n = omega arith in
      (
        rest.0,
        round-copy fuel si sp dest di dp n m small b pos sh dh e ∙ rest.1,
        subst (λ k. Copied se de source from dest to k rest.0) all
            (Copied-trans se de source from dest to m (block_out b) (n - m) rest.0
              (AtLoop-Copied from si sp dest to di dp n m l b) rest.2),
      )

  -- From any position that `AtLoop` describes, the loop ends within the fuel and has moved the
  -- `n` bytes at `from` of the source to `to` of the destination.
  pub loop-Copies :
      (fuel from si sp : ℕ) (dest : BufferVec) (to di dp n : ℕ)
      → AtLoop from si sp dest to di dp n
      → n + (length source - si) + (length dest - di) < fuel
      → Copies from dest to n (copy_loop se de source fuel si sp dest di dp n)
  loop-Copies zero from si sp dest to di dp n l h = elim h [ ]
  loop-Copies (suc fuel) from si sp dest to di dp zero l h =
      (dest, unfold copy_loop in refl, Copied-zero se de source from dest to l.dest_stored)
  loop-Copies (suc fuel) from si sp dest to di dp (suc n) l h =
      let (s, s_at, s_in, s_lt) = current_source from si sp dest to di dp (suc n) l (omega arith) in
      let (d, d_at, d_in, d_lt) = current_dest from si sp dest to di dp (suc n) l (omega arith) in
      elim (Bool-cases (ltb sp (byte_len se s))) [
        | inr s_end ↦
            let e : byte_len se s ≡ sp = ground arith in
            rw (round-source_end fuel si sp dest di dp n s d s_at d_at e) (
              loop-Copies fuel from (suc si) 0 dest to di dp (suc n)
                (AtLoop-source_end from si sp dest to di dp (suc n) s l s_at e) (omega arith))
        | inl s_more ↦ elim (Bool-cases (ltb dp (byte_len de d))) [
          | inr d_end ↦
              let e : byte_len de d ≡ dp = ground arith in
              rw (round-dest_end fuel si sp dest di dp n s d s_at d_at (ground arith) e) (
                loop-Copies fuel from si sp dest to (suc di) 0 (suc n)
                  (AtLoop-dest_end from si sp dest to di dp (suc n) d l d_at e) (omega arith))
          | inl d_more ↦
              let m : ℕ = block_len (byte_len se s - sp) (byte_len de d - dp) (suc n) in
              let b : Block si sp dest di dp m = record {
                s = s;
                d = d;
                s_at = s_at;
                d_at = d_at;
                dest_stored = l.dest_stored;
                s_fits = ground arith;
                d_fits = ground arith;
              } in
              let m_le : m ≤ suc n = ground arith in
              let m_pos : 0 < m = ground arith in
              after_copy fuel from si sp dest to di dp (suc n) m l (omega arith) b (ground arith)
                (ground arith) refl m_le
                (loop-Copies fuel (from + m) si (sp + m) (block_out b) (to + m) di (dp + m)
                  (suc n - m) (AtLoop-copy from si sp dest to di dp (suc n) m l m_le b)
                  (omega (arith, length-set dest di (record d { bytes = block_bytes b }))))
        ]
      ]
