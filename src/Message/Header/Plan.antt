-- ===== src/Message/Header/Plan.antt =====
-- The size and the flags that are planned for a version-4 header under the mask of begin_message:
-- the size is that of the bytes, and a group is left out only where its fields have the values
-- that a reader sets.
use robotraconteurlite.Prelude.{
  ℕ, ◌+◌, ◌≤◌, ◌<◌, ◌≡◌, refl, ap, ◌∙◌, sym, Bool, true, false, List, [], ◌∷◌, arith, ltb, ◌==◌,
  length, length-append, joined, Bool-cases, inl, inr, bit_or, bit_and,
}
use robotraconteurlite.Status.{success}
use robotraconteurlite.Array.Numbers.{le_bytes, length-le_bytes}
use robotraconteurlite.Message.Numbers.{message_uint_x_size, message_padded_uint_x_size, uint32_max}
use robotraconteurlite.Message.Numbers.Codec.{
  encoded_uint_x, message_uint_x_size-length, encoded_uint_x_short,
}
use robotraconteurlite.Message.Numbers.RoundTrip.{message_len_plus_uint_x_lem}
use robotraconteurlite.Message.Steps.{bytes_when, lengths, length-joined}
use robotraconteurlite.Message.Strings.{message_header_string_with_len_prefix_size4, nodeid_size}
use robotraconteurlite.Message.Strings.Laws.{encoded_prefix4}
use robotraconteurlite.Message.Header.{
  MessageConstHeader, flag_routing_info, flag_endpoint_info, flag_priority, flag_meta_info,
  flag_multiple_entries, flag_unreliable,
}
use robotraconteurlite.NodeId.{nodeid_isany, zero_nodeid, nodeid_isany_lem}
use robotraconteurlite.Message.Header.Write.{
  wants_routing, wants_endpoint, wants_priority, wants_meta, wants_entries, plan_routing,
  plan_endpoint, plan_priority, plan_meta, plan_entries, plan_size, plan4, Planned, ◌then_plan◌,
}
use robotraconteurlite.Message.Header.Encoding.{
  routing_bytes, endpoint_bytes, meta_bytes, count_bytes,
}
use robotraconteurlite.Message.Header.Flags.{set_flag, planned_flags}

-- The mask of `robotraconteurlite_message_writer_begin_message`.
abbrev pub full_mask : ℕ
full_mask = 255

empty : (xs : List ℕ) → (length xs == 0) ≡ true → xs ≡ []
empty [] h = refl
empty (x ∷ xs) h = ground arith

-- A header that version 4 can carry.
pub record Sendable4 (h : MessageConstHeader) : Type 0 where
  pub sender_id : length h.sender_nodeid ≡ nodeid_size
  pub receiver_id : length h.receiver_nodeid ≡ nodeid_size
  pub sender_lt : h.sender_endpoint < 4294967296
  pub receiver_lt : h.receiver_endpoint < 4294967296
  pub priority_lt : h.priority < 65536
  pub names :
      length h.sender_nodename + length h.receiver_nodename + length h.metadata + 100 ≤ uint32_max
  pub count_lt : h.entry_count < 4294967296
  pub id_lt : h.message_id < 65536
  pub res_id_lt : h.message_res_id < 65536

prefix_size :
    (str : List ℕ)
    → length str ≤ uint32_max
    → message_header_string_with_len_prefix_size4 str ≡ (success, length (encoded_prefix4 str))
unfolding message_header_string_with_len_prefix_size4
prefix_size str small =
    let no : ltb uint32_max (length str) ≡ false = ground arith in
    let n = ap (λ r. r.1) (message_uint_x_size-length (length str)) in
    let e : (message_uint_x_size (length str)).1 + length str ≡ length (encoded_prefix4 str) =
      omega (arith, n, length-append (encoded_uint_x (length str)) str) in
    simp no (ap (λ k. (success, k)) e)

bytes_when_short : (b : Bool) (xss : List (List ℕ)) → length (bytes_when b xss) ≤ lengths xss
bytes_when_short true xss = omega (arith, length-joined xss)
bytes_when_short false xss = omega arith

module _ (h : MessageConstHeader) where
  -- The bytes of the groups.
  unfoldable pub groups_len : ℕ
  groups_len =
      length (bytes_when (wants_routing h full_mask) (routing_bytes h))
      + length (bytes_when (wants_endpoint h full_mask) (endpoint_bytes h))
      + length (bytes_when (wants_priority h full_mask) (le_bytes 2 h.priority ∷ []))
      + length (bytes_when (wants_meta h full_mask) (meta_bytes h))
      + length (bytes_when (wants_entries h full_mask) (count_bytes h))

  abbrev pub wanted_flags : ℕ
  wanted_flags =
      planned_flags (wants_routing h full_mask) (wants_endpoint h full_mask)
        (wants_priority h full_mask) (wants_meta h full_mask) (wants_entries h full_mask)

-- One planning step after another that succeeds.
planned :
    {p q : Planned} {s f : ℕ} (k : ℕ → ℕ → Planned)
    → p ≡ (success, s, f)
    → k s f ≡ q
    → (p then_plan k) ≡ q
planned k e e' = ap (λ t. t then_plan k) e ∙ e'

module _ (h : MessageConstHeader) (ok : Sendable4 h) where
  pub absent_routing :
      wants_routing h full_mask ≡ false
      → (h.sender_nodeid ≡ zero_nodeid)
        × (h.receiver_nodeid ≡ zero_nodeid)
        × (h.sender_nodename ≡ [])
        × (h.receiver_nodename ≡ [])
  unfolding wants_routing
  absent_routing e =
      let e1 : nodeid_isany h.sender_nodeid ≡ true = ground arith in
      let e2 : nodeid_isany h.receiver_nodeid ≡ true = ground arith in
      (
        nodeid_isany_lem h.sender_nodeid e1,
        nodeid_isany_lem h.receiver_nodeid e2,
        empty h.sender_nodename (ground arith),
        empty h.receiver_nodename (ground arith),
      )

  pub absent_endpoint :
      wants_endpoint h full_mask ≡ false → (h.sender_endpoint ≡ 0) × (h.receiver_endpoint ≡ 0)
  unfolding wants_endpoint
  absent_endpoint e = (ground arith, ground arith)

  pub absent_priority : wants_priority h full_mask ≡ false → h.priority ≡ 0
  unfolding wants_priority
  absent_priority e = ground arith

  pub absent_meta :
      wants_meta h full_mask ≡ false
      → (h.metadata ≡ []) × (h.message_id ≡ 0) × (h.message_res_id ≡ 0)
  unfolding wants_meta
  absent_meta e = (empty h.metadata (ground arith), ground arith, ground arith)

  pub absent_entries : wants_entries h full_mask ≡ false → h.entry_count ≡ 1
  unfolding wants_entries
  absent_entries e = ground arith

  as_it_is : (n : ℕ) → n ≡ n + 0
  as_it_is n = omega arith

  module _ (size flags : ℕ) where
    plan_routing_lem : plan_routing h full_mask size flags ≡ (
      success,
      size + length (bytes_when (wants_routing h full_mask) (routing_bytes h)),
      set_flag (wants_routing h full_mask) flag_routing_info flags,
    )
    unfolding plan_routing routing_bytes
    plan_routing_lem = elim (Bool-cases (wants_routing h full_mask)) [
      | inl y ↦
          let e1 = prefix_size h.sender_nodename (omega (arith, ok.names)) in
          let e2 = prefix_size h.receiver_nodename (omega (arith, ok.names)) in
          let n : size
                + 32
                + length (encoded_prefix4 h.sender_nodename)
                + length (encoded_prefix4 h.receiver_nodename)
              ≡ size + length (joined (routing_bytes h)) =
            omega (arith, length-joined (routing_bytes h), ok.sender_id, ok.receiver_id) in
          simp (y, e1, e2) (ap (λ k. (success, k, bit_or flags flag_routing_info)) n)
      | inr n ↦ simp n (ap (λ k. (success, k, flags)) (as_it_is size))
    ]

    plan_endpoint_lem : plan_endpoint h full_mask size flags ≡ (
      success,
      size + length (bytes_when (wants_endpoint h full_mask) (endpoint_bytes h)),
      set_flag (wants_endpoint h full_mask) flag_endpoint_info flags,
    )
    unfolding plan_endpoint endpoint_bytes
    plan_endpoint_lem = elim (Bool-cases (wants_endpoint h full_mask)) [
      | inl y ↦
          let e1 = message_uint_x_size-length h.sender_endpoint in
          let e2 = message_uint_x_size-length h.receiver_endpoint in
          let n : size
                + length (encoded_uint_x h.sender_endpoint)
                + length (encoded_uint_x h.receiver_endpoint)
              ≡ size + length (joined (endpoint_bytes h)) =
            omega (arith, length-joined (endpoint_bytes h)) in
          simp (y, e1, e2) (ap (λ k. (success, k, bit_or flags flag_endpoint_info)) n)
      | inr n ↦ simp n (ap (λ k. (success, k, flags)) (as_it_is size))
    ]

    plan_priority_lem : plan_priority h full_mask size flags ≡ (
      success,
      size + length (bytes_when (wants_priority h full_mask) (le_bytes 2 h.priority ∷ [])),
      set_flag (wants_priority h full_mask) flag_priority flags,
    )
    unfolding plan_priority
    plan_priority_lem = elim (Bool-cases (wants_priority h full_mask)) [
      | inl y ↦
          let n : size + 2 ≡ size + length (joined (le_bytes 2 h.priority ∷ [])) =
            omega
              (arith, length-joined (le_bytes 2 h.priority ∷ []), length-le_bytes 2 h.priority) in
          simp y (ap (λ k. (success, k, bit_or flags flag_priority)) n)
      | inr n ↦ simp n (ap (λ k. (success, k, flags)) (as_it_is size))
    ]

    plan_meta_lem : plan_meta h full_mask size flags ≡ (
      success,
      size + length (bytes_when (wants_meta h full_mask) (meta_bytes h)),
      set_flag (wants_meta h full_mask) flag_meta_info flags,
    )
    unfolding plan_meta meta_bytes
    plan_meta_lem = elim (Bool-cases (wants_meta h full_mask)) [
      | inl y ↦
          let e = prefix_size h.metadata (omega (arith, ok.names)) in
          let n : size + length (encoded_prefix4 h.metadata) + 4
              ≡ size + length (joined (meta_bytes h)) =
            omega (
              arith,
              length-joined (meta_bytes h),
              length-le_bytes 2 h.message_id,
              length-le_bytes 2 h.message_res_id,
            ) in
          simp (y, e) (ap (λ k. (success, k, bit_or flags flag_meta_info)) n)
      | inr n ↦ simp n (ap (λ k. (success, k, flags)) (as_it_is size))
    ]

    plan_entries_lem : plan_entries h full_mask size flags ≡ (
      success,
      size + length (bytes_when (wants_entries h full_mask) (count_bytes h)),
      set_flag (wants_entries h full_mask) flag_multiple_entries flags,
    )
    unfolding plan_entries count_bytes message_padded_uint_x_size
    plan_entries_lem = elim (Bool-cases (wants_entries h full_mask)) [
      | inl y ↦
          let n : size + 5 ≡ size + length (joined (count_bytes h)) = omega (
            arith,
            length-joined (count_bytes h),
            length-append (le_bytes 1 254) (le_bytes 4 h.entry_count),
            length-le_bytes 1 254,
            length-le_bytes 4 h.entry_count,
          ) in
          simp y (ap (λ k. (success, k, bit_or flags flag_multiple_entries)) n)
      | inr n ↦ simp n (ap (λ k. (success, k, flags)) (as_it_is size))
    ]

  groups_short :
      16 + groups_len h
      ≤ length h.sender_nodename + length h.receiver_nodename + length h.metadata + 100
  unfolding groups_len routing_bytes endpoint_bytes meta_bytes count_bytes
  groups_short =
      let r = bytes_when_short (wants_routing h full_mask) (routing_bytes h) in
      let e = bytes_when_short (wants_endpoint h full_mask) (endpoint_bytes h) in
      let p = bytes_when_short (wants_priority h full_mask) (le_bytes 2 h.priority ∷ []) in
      let m = bytes_when_short (wants_meta h full_mask) (meta_bytes h) in
      let n = bytes_when_short (wants_entries h full_mask) (count_bytes h) in
      let r1 = length-append (encoded_uint_x (length h.sender_nodename)) h.sender_nodename in
      let r2 = length-append (encoded_uint_x (length h.receiver_nodename)) h.receiver_nodename in
      let m1 = length-append (encoded_uint_x (length h.metadata)) h.metadata in
      omega (
        arith,
        ok.sender_id,
        ok.receiver_id,
        encoded_uint_x_short (length h.sender_nodename),
        encoded_uint_x_short (length h.receiver_nodename),
        encoded_uint_x_short (length h.metadata),
        encoded_uint_x_short h.sender_endpoint,
        encoded_uint_x_short h.receiver_endpoint,
        length-le_bytes 2 h.priority,
        length-le_bytes 2 h.message_id,
        length-le_bytes 2 h.message_res_id,
        length-append (le_bytes 1 254) (le_bytes 4 h.entry_count),
        length-le_bytes 1 254,
        length-le_bytes 4 h.entry_count,
      )

  -- The size is planned from the groups.
  plan_size_lem :
      (size flags : ℕ)
      → size + 5 ≤ uint32_max
      → (n : ℕ) × (plan_size h full_mask size flags ≡ (success, size + n, flags))
        × (length (encoded_uint_x (size + n)) ≡ n)
  unfolding plan_size
  plan_size_lem size flags small = elim (message_len_plus_uint_x_lem size) [
    | inl (bound, (n, e1, e2)) ↦
        let len : length (encoded_uint_x (size + n)) ≡ n =
          ap (λ r. r.1) (sym (message_uint_x_size-length (size + n)) ∙ e2) in
        let no : ltb uint32_max size ≡ false = ground arith in
        let no' : ltb uint32_max (size + n) ≡ false =
          ground (arith, encoded_uint_x_short (size + n)) in
        (n, simp (no, e1, no'), len)
    | inr (far, e) ↦ absurd (omega arith)
  ]

  -- The plan: 11 bytes of fixed fields, the number that says the size, and the groups.
  pub plan4_lem :
      (size : ℕ) × (plan4 h full_mask ≡ (success, size, wanted_flags h))
      × (size ≡ 11 + length (encoded_uint_x size) + groups_len h)
      × (size ≤ length h.sender_nodename + length h.receiver_nodename + length h.metadata + 100)
  unfolding plan4 groups_len
  plan4_lem =
      let s1 = 11 + length (bytes_when (wants_routing h full_mask) (routing_bytes h)) in
      let f1 = set_flag (wants_routing h full_mask) flag_routing_info 0 in
      let s2 = s1 + length (bytes_when (wants_endpoint h full_mask) (endpoint_bytes h)) in
      let f2 = set_flag (wants_endpoint h full_mask) flag_endpoint_info f1 in
      let s3 = s2 + length (bytes_when (wants_priority h full_mask) (le_bytes 2 h.priority ∷ [])) in
      let f3 = set_flag (wants_priority h full_mask) flag_priority f2 in
      let s4 = s3 + length (bytes_when (wants_meta h full_mask) (meta_bytes h)) in
      let f4 = set_flag (wants_meta h full_mask) flag_meta_info f3 in
      let s5 = s4 + length (bytes_when (wants_entries h full_mask) (count_bytes h)) in
      let f5 = set_flag (wants_entries h full_mask) flag_multiple_entries f4 in
      let (n, e, len) = plan_size_lem s5 (wanted_flags h) (omega (arith, groups_short, ok.names)) in
      let e2 =
        planned (plan_endpoint h full_mask) (plan_routing_lem 11 0) (plan_endpoint_lem s1 f1) in
      let e3 = planned (plan_priority h full_mask) e2 (plan_priority_lem s2 f2) in
      let e4 = planned (plan_meta h full_mask) e3 (plan_meta_lem s3 f3) in
      let e5 = planned (plan_entries h full_mask) e4 (plan_entries_lem s4 f4) in
      (
        s5 + n,
        planned
            (λ size flags.
              plan_size h full_mask size
                (bit_or flags (bit_and (bit_and full_mask flag_unreliable) flags)))
            e5 e,
        omega (arith, len),
        omega (arith, groups_short, len, encoded_uint_x_short (s5 + n)),
      )
