-- ===== src/Array/CopyBytes.antt =====
-- Both `while` searches and the copying loop of src/array.c together: a run of bytes within both
-- vectors is copied.
use robotraconteurlite.Prelude.{ℕ, suc, ◌+◌, ◌-◌, ◌≤◌, ◌<◌, ◌≡◌, some, arith, length, size_mod}
use robotraconteurlite.Status.{success}
use robotraconteurlite.Array.{BufferVec, seek, copy_loop, copy_bytes, start_pos}
use robotraconteurlite.Array.Layout.{lens, total, offset, IsStored, length_pos, seek-Seeks}
use robotraconteurlite.Array.Copied.{Copied}
use robotraconteurlite.Array.Loop.{AtLoop, loop-Copies}

seek_start :
    (e : ℕ) (v : BufferVec) (pos : ℕ)
    → 0 < length v
    → pos ≤ total (lens e v)
    → total (lens e v) < size_mod
    → (k : ℕ) × (seek e v 0 0 pos ≡ some (offset (lens e v) k, k))
      × (offset (lens e v) k ≤ pos)
      × (pos ≤ offset (lens e v) (suc k))
seek_start e v pos ne h fits =
    let (k, found, low, high) =
      seek-Seeks e v 0 0 pos ne (omega arith) (omega arith) (omega arith) in
    (k, ground arith, omega arith, omega arith)

start_pos-eq : (c pos : ℕ) → c ≤ pos → pos < size_mod → start_pos c pos ≡ pos - c
start_pos-eq c pos h small = ground arith

copy_bytes-eq :
    (se de : ℕ) (source : BufferVec) (from : ℕ) (dest : BufferVec) (to n c i d j : ℕ)
    (out : BufferVec)
    → seek se source 0 0 from ≡ some (c, i)
    → seek de dest 0 0 to ≡ some (d, j)
    → copy_loop se de source
        (suc (n + length source + length dest))
        i
        (start_pos c from)
        dest
        j
        (start_pos d to)
        n
      ≡ some out
    → copy_bytes se de source from dest to n ≡ some (success, out)
unfolding copy_bytes
copy_bytes-eq se de source from dest to n c i d j out at_source at_dest loops =
    rw (at_source, at_dest, loops)

module _ (se de : ℕ) (source : BufferVec) (source_stored : IsStored se source)
    (source_small : total (lens se source) < size_mod) (dest : BufferVec)
    (dest_stored : IsStored de dest) (dest_small : total (lens de dest) < size_mod) (from to n : ℕ)
    (pos : 0 < n) (source_run : from + n ≤ total (lens se source))
    (dest_run : to + n ≤ total (lens de dest)) where
  pub copy_bytes-Copied :
      (out : BufferVec) × (copy_bytes se de source from dest to n ≡ some (success, out))
      × Copied se de source from dest to n out
  copy_bytes-Copied =
      let (i, at_source, s_low, s_high) =
        seek_start se source from (length_pos se source (omega arith)) (omega arith) source_small in
      let (j, at_dest, d_low, d_high) =
        seek_start de dest to (length_pos de dest (omega arith)) (omega arith) dest_small in
      let c = offset (lens se source) i in
      let d = offset (lens de dest) j in
      let s_start = start_pos-eq c from s_low (omega arith) in
      let d_start = start_pos-eq d to d_low (omega arith) in
      let ready : AtLoop se de source source_stored from i (start_pos c from) dest to j
          (start_pos d to) n =
        record {
          source_at = omega (arith, s_start);
          dest_at = omega (arith, d_start);
          dest_stored = dest_stored;
          source_small = source_small;
          dest_small = dest_small;
          source_run = source_run;
          dest_run = dest_run;
          source_in = s_high;
          dest_in = d_high;
        } in
      let done =
        loop-Copies se de source source_stored (suc (n + length source + length dest)) from i
          (start_pos c from) dest to j (start_pos d to) n ready (omega arith) in
      (
        done.0,
        copy_bytes-eq se de source from dest to n c i d j done.0 at_source at_dest done.1,
        done.2,
      )
