-- ===== src/Array/Holds.antt =====
-- Bytes that stand in a vector of buffers, and what is left of them when others are written.
use robotraconteurlite.Prelude.{
  ℕ, ◌+◌, ◌-◌, ◌≤◌, ◌<◌, ◌≡◌, refl, ap, ◌∙◌, sym, List, [], ◌++◌, arith, Bool-cases, false, length,
  get_elem?, ltb, ◌⊎◌, inl, inr, get_elem?-append, length-append,
}
use robotraconteurlite.Array.{BufferVec}
use robotraconteurlite.Array.Layout.{total, counts, IsVec, byte_at}

-- The bytes `xs` stand in a vector from `pos` on.
pub record HoldsAt (vec : BufferVec) (pos : ℕ) (xs : List ℕ) : Type 0 where
  pub ok : IsVec 1 vec
  pub fits : pos + length xs ≤ total (counts vec)
  pub bytes : (k : ℕ) → k < length xs → byte_at 1 vec (pos + k) ≡ get_elem? xs k

-- `out` is `vec` with the bytes `xs` at `pos`.
pub record Written (vec : BufferVec) (pos : ℕ) (xs : List ℕ) (out : BufferVec) : Type 0 where
  pub holds : HoldsAt out pos xs
  pub kept : (j : ℕ) → (j < pos) ⊎ (pos + length xs ≤ j) → byte_at 1 out j ≡ byte_at 1 vec j
  pub lengths : counts out ≡ counts vec

-- Bytes that stand one after the other.
module _ (vec : BufferVec) (pos : ℕ) (xs ys : List ℕ) where
  pub HoldsAt-left : HoldsAt vec pos (xs ++ ys) → HoldsAt vec pos xs
  HoldsAt-left h = record {
    ok = h.ok;
    fits = omega (arith, h.fits, length-append xs ys);
    bytes = λ k lt.
        h.bytes k (omega (arith, length-append xs ys)) ∙ ground (arith, get_elem?-append xs ys k);
  }

  pub HoldsAt-right : HoldsAt vec pos (xs ++ ys) → HoldsAt vec (pos + length xs) ys
  HoldsAt-right h = record {
    ok = h.ok;
    fits = omega (arith, h.fits, length-append xs ys);
    bytes = λ k lt.
        let at : pos + length xs + k ≡ pos + (length xs + k) = omega arith in
        let back : length xs + k - length xs ≡ k = omega arith in
        let no : ltb (length xs + k) (length xs) ≡ false = ground arith in
        ap (λ j. byte_at 1 vec j) at
        ∙ h.bytes (length xs + k) (omega (arith, length-append xs ys))
        ∙ get_elem?-append xs ys (length xs + k)
        ∙ simp (no, back);
  }

  pub HoldsAt-append :
      HoldsAt vec pos xs → HoldsAt vec (pos + length xs) ys → HoldsAt vec pos (xs ++ ys)
  HoldsAt-append h g = record {
    ok = h.ok;
    fits = omega (arith, g.fits, length-append xs ys);
    bytes = λ k lt. elim (Bool-cases (ltb k (length xs))) [
      | inl first ↦ h.bytes k (ground arith) ∙ sym (get_elem?-append xs ys k ∙ simp first)
      | inr second ↦
          let at : pos + k ≡ pos + length xs + (k - length xs) = ground arith in
          ap (λ j. byte_at 1 vec j) at
          ∙ g.bytes (k - length xs) (ground (arith, length-append xs ys))
          ∙ sym (get_elem?-append xs ys k ∙ simp second)
    ];
  }

-- Bytes that end before those written stay.
pub Written-HoldsAt :
    (vec : BufferVec) (pos : ℕ) (xs : List ℕ) (out : BufferVec) (p : ℕ) (ys : List ℕ)
    → Written vec pos xs out
    → HoldsAt vec p ys
    → p + length ys ≤ pos
    → HoldsAt out p ys
Written-HoldsAt vec pos xs out p ys w h le = record {
  ok = w.holds.ok;
  fits = rw w.lengths h.fits;
  bytes = λ k lt. w.kept (p + k) (inl (omega arith)) ∙ h.bytes k lt;
}

pub Written-append :
    (vec : BufferVec) (pos : ℕ) (xs : List ℕ) (mid : BufferVec) (ys : List ℕ) (out : BufferVec)
    → Written vec pos xs mid
    → Written mid (pos + length xs) ys out
    → Written vec pos (xs ++ ys) out
Written-append vec pos xs mid ys out w z = record {
  holds =
      HoldsAt-append out pos xs ys
        (Written-HoldsAt mid (pos + length xs) ys out pos xs z w.holds (omega arith)) z.holds;
  kept = λ j h.
      let n = length-append xs ys in
      elim h [
        | inl before ↦ z.kept j (inl (omega arith)) ∙ w.kept j (inl before)
        | inr after ↦ z.kept j (inr (omega (arith, n))) ∙ w.kept j (inr (omega (arith, n)))
      ];
  lengths = z.lengths ∙ w.lengths;
}

-- Bytes that begin behind those written stay.
pub Written-HoldsAt_after :
    (vec : BufferVec) (pos : ℕ) (xs : List ℕ) (out : BufferVec) (p : ℕ) (ys : List ℕ)
    → Written vec pos xs out
    → HoldsAt vec p ys
    → pos + length xs ≤ p
    → HoldsAt out p ys
Written-HoldsAt_after vec pos xs out p ys w h le = record {
  ok = w.holds.ok;
  fits = rw w.lengths h.fits;
  bytes = λ k lt. w.kept (p + k) (inr (omega arith)) ∙ h.bytes k lt;
}

pub Written-nothing :
    (vec : BufferVec) (pos : ℕ) → IsVec 1 vec → pos ≤ total (counts vec) → Written vec pos [] vec
Written-nothing vec pos ok fits = record {
  holds = record { ok = ok; fits = omega arith; bytes = λ k lt. absurd (omega arith) };
  kept = λ j h. refl;
  lengths = refl;
}

-- Bytes in the middle are replaced by as many others.
pub Written-replace :
    (vec : BufferVec) (pos : ℕ) (xs ys zs new : List ℕ) (out : BufferVec)
    → HoldsAt vec pos (xs ++ (ys ++ zs))
    → length new ≡ length ys
    → Written vec (pos + length xs) new out
    → HoldsAt out pos (xs ++ (new ++ zs))
Written-replace vec pos xs ys zs new out h n w =
    let tail = HoldsAt-right vec pos xs (ys ++ zs) h in
    let rest : HoldsAt vec (pos + length xs + length new) zs =
      rw n (HoldsAt-right vec (pos + length xs) ys zs tail) in
    HoldsAt-append out pos xs (new ++ zs)
      (Written-HoldsAt vec (pos + length xs) new out pos xs w (HoldsAt-left vec pos xs (ys ++ zs) h)
        (omega arith))
      (HoldsAt-append out (pos + length xs) new zs w.holds (
        Written-HoldsAt_after vec (pos + length xs) new out (pos + length xs + length new) zs w rest
          (omega arith)))
