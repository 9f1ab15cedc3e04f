-- ===== src/Message/Element/Walk.antt =====
-- Going from element to element: every move stays within the bytes of the entry, and moving on ends
-- after at most as many moves as there are elements.
use robotraconteurlite.Prelude.{
  ℕ, zero, suc, ◌+◌, ◌≤◌, ◌<◌, ◌≡◌, refl, ap, ◌∙◌, true, false, some, arith, ltb, add_size,
  sub_size, size_mod, Bool-cases, ◌⊎◌, inl, inr,
}
use robotraconteurlite.Status.{Status, success, no_more, protocol, failed}
use robotraconteurlite.Array.Layout.{total, counts, IsVec}
use robotraconteurlite.Message.Numbers.Total.{message_read_count-Returns}
use robotraconteurlite.Message.Element.{
  ElementReader, messageelement_reader_move_next, step_element, move_on,
}

-- The current element and what remains of the entry lie within the buffers, and the reader stands
-- at one of its elements.
pub record Within (r : ElementReader) : Type 0 where
  pub vec : IsVec 1 r.buffer
  pub room : total (counts r.buffer) + 16 < size_mod
  pub inside : r.buffer_offset + r.buffer_count + r.buffer_remaining ≤ total (counts r.buffer)
  pub at : r.current_element < r.total_elements
  pub few : r.total_elements < size_mod

-- A move to the element behind.
pub record Moved (r r' : ElementReader) : Type 0 where
  pub buffer : r'.buffer ≡ r.buffer
  pub behind : r'.buffer_offset ≡ r.buffer_offset + r.buffer_count
  pub left : r'.buffer_count + r'.buffer_remaining ≡ r.buffer_remaining
  pub next : r'.current_element ≡ r.current_element + 1
  pub elements : r'.total_elements ≡ r.total_elements

module _ (r : ElementReader) (w : Within r) where
  next_step_Within :
      (size : ℕ)
      → r.current_element + 1 < r.total_elements
      → size ≤ r.buffer_remaining
      → (r' : ElementReader) × (step_element r (add_size r.buffer_offset r.buffer_count) size
          ≡ (success, r'))
        × Moved r r'
        × Within r'
  next_step_Within size more enough =
      let no : ltb r.buffer_remaining size ≡ false = ground arith in
      let here : add_size r.buffer_offset r.buffer_count ≡ r.buffer_offset + r.buffer_count =
        omega (arith, w.inside, w.room) in
      let left : size + sub_size r.buffer_remaining size ≡ r.buffer_remaining =
        omega (arith, w.inside, w.room) in
      let next : add_size r.current_element 1 ≡ r.current_element + 1 = omega (arith, w.few) in
      (
        record r {
          buffer_offset = add_size r.buffer_offset r.buffer_count;
          buffer_count = size;
          buffer_remaining = sub_size r.buffer_remaining size;
          current_element = add_size r.current_element 1;
        },
        simp no,
        record { buffer = refl; behind = here; left = left; next = next; elements = refl },
        record {
          vec = w.vec;
          room = w.room;
          inside = omega (arith, w.inside);
          at = omega arith;
          few = w.few;
        },
      )

  -- A move of a reader within its entry returns. It either stands at the next element, directly
  -- behind the current one and within what remained of the entry, or reports a failure with the
  -- reader as it was; at the last element that is NO_MORE.
  pub move_next-Within :
      (s : Status) × (r' : ElementReader) × (messageelement_reader_move_next r ≡ some (s, r'))
      × Within r'
      × (((s ≡ success) × Moved r r' × (r.current_element + 1 < r.total_elements))
          ⊎ ((failed s ≡ true) × (r' ≡ r)))
      × (r.current_element + 1 ≡ r.total_elements → s ≡ no_more)
  unfolding messageelement_reader_move_next
  move_next-Within = elim (Bool-cases (ltb (add_size r.current_element 1) r.total_elements)) [
    | inr last ↦ (no_more, r, simp last, w, inr (refl, refl), λ e. refl)
    | inl more ↦
        let more' : r.current_element + 1 < r.total_elements = ground (arith, w.few, w.at) in
        let o = add_size r.buffer_offset r.buffer_count in
        let (s, o2, size, e, le) =
          message_read_count-Returns r.buffer w.vec w.room o 0 (omega (arith, w.inside, w.room))
            r.message_version in
        elim (Bool-cases (failed s)) [
          | inl bad ↦ (s, r, simp (more, e, bad), w, inr (bad, refl), λ last. absurd (omega arith))
          | inr good ↦ elim (Bool-cases (ltb r.buffer_remaining size)) [
            | inl far ↦ (
              protocol,
              r,
              simp (more, e, good, far),
              w,
              inr (refl, refl),
              λ last. absurd (omega arith),
            )
            | inr near ↦
                let (r', e', moved, w') = next_step_Within size more' (ground arith) in
                (
                  success,
                  r',
                  simp (more, e, good) (ap some e'),
                  w',
                  inl (refl, moved, more'),
                  λ last. absurd (omega arith),
                )
          ]
        ]
  ]

-- Moving a reader that stands at an element within its entry from element to element until a move
-- fails ends after at most as many moves as elements are left, with the reader still within the
-- entry and its buffers the same.
pub move_on-ends :
    (n : ℕ) (r : ElementReader)
    → Within r
    → r.total_elements ≤ r.current_element + n
    → (s : Status) × (r' : ElementReader) × (move_on n r ≡ some (s, r'))
      × (failed s ≡ true)
      × Within r'
      × (r'.buffer ≡ r.buffer)
unfolding move_on
move_on-ends zero r w enough = absurd (omega (arith, w.at))
move_on-ends (suc n) r w enough =
    let (s, r', e, w', what, last) = move_next-Within r w in
    elim what [
      | inl (ok, moved, more) ↦
          let (s2, r2, e2, bad, w2, same) =
            move_on-ends n r' w' (omega (arith, moved.next, moved.elements)) in
          (s2, r2, simp (e, ok) e2, bad, w2, same ∙ moved.buffer)
      | inr (bad, stay) ↦ (s, r', simp (e, bad), bad, w', ap (λ t. t.buffer) stay)
    ]
