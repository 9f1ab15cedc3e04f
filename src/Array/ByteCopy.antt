-- ===== src/Array/ByteCopy.antt =====
-- `buffer_vec_copy_vec` of src/array.c on requests that fit.
use robotraconteurlite.Prelude.{ℕ, ◌*◌, ◌<◌, ◌≡◌, ◌∙◌, subst, some, [], ◌∷◌, arith, size_mod}
use robotraconteurlite.Status.{success}
use robotraconteurlite.Array.{BufferVec, buffer_vec_copy_vec}
use robotraconteurlite.Array.Layout.{total, counts}
use robotraconteurlite.Array.Copied.{Copied}
use robotraconteurlite.Array.Laws.{Request, buffer_vec_copy_vec_ex-Copied}
use robotraconteurlite.Array.ByteLoops.{Sized}
use robotraconteurlite.Array.Refusals.{buffer_vec_copy_vec-eq-ex}

total-Sized : (v : BufferVec) → total (counts v) < size_mod → Sized v
unfolding Sized
total-Sized [] h = tt
total-Sized (b ∷ bs) h = (omega arith, total-Sized bs (omega arith))

-- A request of buffer_vec_copy_vec of at least one byte, whose two runs lie within their vectors,
-- where the memory of both vectors holds their lengths and size_t their sizes, succeeds on both
-- of its paths, and the destination holds the requested bytes of the source at the requested
-- place, with every other byte and every length unchanged.
pub buffer_vec_copy_vec-Copied :
    (source : BufferVec) (source_pos : ℕ) (dest : BufferVec) (dest_pos count : ℕ)
    → Request 1 1 source source_pos count dest dest_pos count
    → (out : BufferVec) × (buffer_vec_copy_vec source source_pos dest dest_pos count
        ≡ some (success, out))
      × Copied 1 1 source source_pos dest dest_pos count out
buffer_vec_copy_vec-Copied source source_pos dest dest_pos count r =
    let (out, e, c) =
      buffer_vec_copy_vec_ex-Copied 1 1 source source_pos count dest dest_pos count r in
    let same =
      buffer_vec_copy_vec-eq-ex source_pos dest_pos count
        (omega (arith, r.source_in, r.source_vec.elements))
        (omega (arith, r.dest_in, r.dest_vec.elements))
        (omega (arith, r.source_in, r.source_vec.elements)) source dest
        (total-Sized source r.source_vec.elements) (total-Sized dest r.dest_vec.elements) in
    let n : count * 1 ≡ count = omega arith in
    let from : source_pos * 1 ≡ source_pos = omega arith in
    let to : dest_pos * 1 ≡ dest_pos = omega arith in
    (
      out,
      same ∙ e,
      subst (λ k. Copied 1 1 source source_pos dest dest_pos k out) n
          (subst (λ k. Copied 1 1 source source_pos dest k (count * 1) out) to
            (subst (λ k. Copied 1 1 source k dest (dest_pos * 1) (count * 1) out) from c)),
    )
