-- ===== src/Message/Header/Groups.antt =====
-- The groups of fields of a version-4 header, each under its flag: what a reader has read after
-- each of them.
use robotraconteurlite.Prelude.{
  ℕ, ◌+◌, ◌≤◌, ◌≡◌, refl, ap, Bool, some, List, subst, inl, inr, [], ◌∷◌, ◌++◌, arith,
  if◌then◌else◌, length, length-append,
}
use robotraconteurlite.Status.{success}
use robotraconteurlite.NodeId.{zero_nodeid}
use robotraconteurlite.Array.{BufferVec}
use robotraconteurlite.Array.Holds.{HoldsAt}
use robotraconteurlite.Array.Numbers.{le_bytes, length-le_bytes}
use robotraconteurlite.Message.Numbers.Codec.{encoded_uint_x, read_five}
use robotraconteurlite.Message.Steps.{choose, bytes_when, done, ◌and_then◌}
use robotraconteurlite.Message.Strings.{nodeid_size}
use robotraconteurlite.Message.Strings.Laws.{place, encoded_prefix4}
use robotraconteurlite.Message.Header.{MessageConstHeader}
use robotraconteurlite.Message.Header.Read.{
  HeaderRead, size_max, put_entry_count, routing4, endpoint4, priority4, meta4, entry_count4,
  reset_routing, reset_endpoint, reset_priority, reset_ids, reset_count,
}
use robotraconteurlite.Message.Header.Encoding.{
  Fits, routing_bytes, endpoint_bytes, meta_bytes, count_bytes, IsCount,
}
use robotraconteurlite.Message.Header.Fields.{
  into_uint16, into_uint_x, keep_nodeid, keep_prefix4, choose-bytes_when,
}

-- Where the strings of the groups stand.
abbrev pub sender_place : MessageConstHeader → ℕ → ℕ
sender_place h p = p + length h.sender_nodeid + length h.receiver_nodeid

abbrev pub receiver_place : MessageConstHeader → ℕ → ℕ
receiver_place h p = sender_place h p + length (encoded_prefix4 h.sender_nodename)

module _ (h : MessageConstHeader) (p : ℕ) (s : HeaderRead) (b : Bool) where
  abbrev pub after_routing : HeaderRead
  after_routing = record s {
    header = record s.header {
      sender_nodeid = if b then h.sender_nodeid else zero_nodeid;
      receiver_nodeid = if b then h.receiver_nodeid else zero_nodeid;
    };
    sender_nodename_info =
        if b
        then place (sender_place h p) (encoded_uint_x (length h.sender_nodename)) h.sender_nodename
        else s.sender_nodename_info;
    receiver_nodename_info =
        if b
        then place (receiver_place h p) (encoded_uint_x (length h.receiver_nodename))
            h.receiver_nodename
        else s.receiver_nodename_info;
  }

  abbrev pub after_endpoint : HeaderRead
  after_endpoint = record s {
    header = record s.header {
      sender_endpoint = if b then h.sender_endpoint else 0;
      receiver_endpoint = if b then h.receiver_endpoint else 0;
    };
  }

  abbrev pub after_priority : HeaderRead
  after_priority = record s { header = record s.header { priority = if b then h.priority else 0 } }

  abbrev pub after_meta : HeaderRead
  after_meta = record s {
    header = record s.header {
      message_id = if b then h.message_id else 0;
      message_res_id = if b then h.message_res_id else 0;
    };
    meta_info = if b then place p (encoded_uint_x (length h.metadata)) h.metadata else s.meta_info;
  }

  abbrev pub after_count : HeaderRead
  after_count = put_entry_count s (if b then p else size_max) (if b then h.entry_count else 1)

module _ (vec : BufferVec) (h : MessageConstHeader) (f : Fits h) (p : ℕ) (s : HeaderRead)
    (b : Bool) where
  pub routing-run :
      nodeid_size ≤ length s.header.sender_nodeid
      → nodeid_size ≤ length s.header.receiver_nodeid
      → HoldsAt vec p (bytes_when b (routing_bytes h))
      → choose b routing4 reset_routing vec p s
        ≡ some (success, p + length (bytes_when b (routing_bytes h)), after_routing h p s b)
  unfolding routing4 routing_bytes
  routing-run n1 n2 held =
      choose-bytes_when vec p b routing4 reset_routing (routing_bytes h) s (after_routing h p s)
        (λ e (a1, (a2, (a3, (a4, _)))).
          keep_nodeid vec p h.sender_nodeid _ _ f.sender_id n1 a1
          and_then keep_nodeid vec _ h.receiver_nodeid _ _ f.receiver_id n2 a2
          and_then keep_prefix4 vec _ h.sender_nodename _ _ f.sender_name a3
          and_then keep_prefix4 vec _ h.receiver_nodename _ _ f.receiver_name a4
          and_then done)
        refl held

  pub endpoint-run :
      HoldsAt vec p (bytes_when b (endpoint_bytes h))
      → choose b endpoint4 reset_endpoint vec p s
        ≡ some (success, p + length (bytes_when b (endpoint_bytes h)), after_endpoint h p s b)
  unfolding endpoint4 endpoint_bytes
  endpoint-run held =
      choose-bytes_when vec p b endpoint4 reset_endpoint (endpoint_bytes h) s (after_endpoint h p s)
        (λ e (a1, (a2, _)).
          into_uint_x vec p h.sender_endpoint _ _ f.sender_lt a1
          and_then into_uint_x vec _ h.receiver_endpoint _ _ f.receiver_lt a2
          and_then done)
        refl held

  pub priority-run :
      HoldsAt vec p (bytes_when b (le_bytes 2 h.priority ∷ []))
      → choose b priority4 reset_priority vec p s
        ≡ some (
          success,
          p + length (bytes_when b (le_bytes 2 h.priority ∷ [])),
          after_priority h p s b,
        )
  unfolding priority4
  priority-run held =
      choose-bytes_when vec p b priority4 reset_priority (le_bytes 2 h.priority ∷ []) s
        (after_priority h p s)
        (λ e (a1, _). into_uint16 vec p h.priority _ _ f.priority_lt a1 and_then done) refl held

  pub meta-run :
      HoldsAt vec p (bytes_when b (meta_bytes h))
      → choose b meta4 reset_ids vec p s
        ≡ some (success, p + length (bytes_when b (meta_bytes h)), after_meta h p s b)
  unfolding meta4 meta_bytes
  meta-run held =
      choose-bytes_when vec p b meta4 reset_ids (meta_bytes h) s (after_meta h p s)
        (λ e (a1, (a2, (a3, _))).
          keep_prefix4 vec p h.metadata _ _ f.meta a1
          and_then into_uint16 vec _ h.message_id _ _ f.id_lt a2
          and_then into_uint16 vec _ h.message_res_id _ _ f.res_id_lt a3
          and_then done)
        refl held

  count-run :
      HoldsAt vec p (bytes_when b (count_bytes h))
      → choose b entry_count4 reset_count vec p s
        ≡ some (success, p + length (bytes_when b (count_bytes h)), after_count h p s b)
  unfolding entry_count4 count_bytes
  count-run held =
      let n = length-append (le_bytes 1 254) (le_bytes 4 h.entry_count) in
      let behind : p + 5 ≡ p + length (le_bytes 1 254 ++ le_bytes 4 h.entry_count) =
        omega (arith, length-le_bytes 1 254, length-le_bytes 4 h.entry_count) in
      choose-bytes_when vec p b entry_count4 reset_count (count_bytes h) s (after_count h p s)
        (λ e (a1, _).
          (rw (read_five vec p h.entry_count s.header.entry_count f.count_lt a1)
            (ap (λ k. some (success, k, put_entry_count s p h.entry_count)) behind))
          and_then done)
        refl held

  short_count-run :
      HoldsAt vec p (bytes_when b (encoded_uint_x h.entry_count ∷ []))
      → choose b entry_count4 reset_count vec p s
        ≡ some (
          success,
          p + length (bytes_when b (encoded_uint_x h.entry_count ∷ [])),
          after_count h p s b,
        )
  unfolding entry_count4
  short_count-run held =
      choose-bytes_when vec p b entry_count4 reset_count (encoded_uint_x h.entry_count ∷ []) s
        (after_count h p s)
        (λ e (a1, _). into_uint_x vec p h.entry_count _ _ f.count_lt a1 and_then done) refl held

  -- The number of entries in either form.
  pub any_count-run :
      (counted : List (List ℕ))
      → IsCount h counted
      → HoldsAt vec p (bytes_when b counted)
      → choose b entry_count4 reset_count vec p s
        ≡ some (success, p + length (bytes_when b counted), after_count h p s b)
  any_count-run counted form held = elim form [
    | inl e ↦ rw e (count-run (subst (λ xs. HoldsAt vec p (bytes_when b xs)) e held))
    | inr e ↦ rw e (short_count-run (subst (λ xs. HoldsAt vec p (bytes_when b xs)) e held))
  ]
