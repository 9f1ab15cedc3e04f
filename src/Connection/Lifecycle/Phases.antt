-- ===== src/Connection/Lifecycle/Phases.antt =====
-- The life of a connection as an abstract state machine, and the control step of the TCP transport as
-- a step of it.
use robotraconteurlite.Prelude.{
  ◌≡◌, refl, ap, ◌∙◌, sym, subst, true, false, ◌||◌, arith, ◌==◌, if◌then◌else◌, Bool-cases, ◌⊎◌,
  inl, inr,
}
use robotraconteurlite.Prelude.Int.{ℤ}
use robotraconteurlite.Status.{Status, success, consumed, failed}
use robotraconteurlite.NodeId.{nodeid_reset}
use robotraconteurlite.Connection.Types.{
  Connection, StatusFlags, Socket, set_state, only_idle, only_closed,
}
use robotraconteurlite.Connection.Lifecycle.{
  connection_reset, impl_process_control, after_close_requested, tcp_transport, tcp_process_control,
  check_client_socket,
}

-- A connection is free, in use, asked to close, closed with the node still to be told, or closed
-- and told.
pub data Phase : Type 0 where
  free in_use closing closed_unseen closed_seen : Phase

abbrev pub phase_of : StatusFlags → Phase
phase_of s =
    if s.idle
    then free
    else if s.closed_consumed
    then closed_seen
    else if s.closed
    then closed_unseen
    else if s.close_requested || s.closing
    then closing
    else in_use

abbrev pub phase : Connection → Phase
phase c = phase_of c.connection_state

-- CLOSED_CONSUMED goes with CLOSED, and an idle connection has neither.
pub record PhaseInv (c : Connection) : Type 0 where
  pub seen :
      c.connection_state.closed_consumed ≡ true
      → (c.connection_state.closed ≡ true) × (c.connection_state.idle ≡ false)
  pub unused : c.connection_state.idle ≡ true → c.connection_state.closed ≡ false

-- The next phase by a control step of the transport.
abbrev pub after_control : Phase → Phase
after_control free = free
after_control in_use = in_use
after_control closing = closed_unseen
after_control closed_unseen = closed_unseen
after_control closed_seen = free

-- The next phase by a request to close.
abbrev pub after_request : Phase → Phase
after_request in_use = closing
after_request p = p

-- Two connections with the same flags for the phase.
pub record SamePhase (c d : Connection) : Type 0 where
  pub same_idle : d.connection_state.idle ≡ c.connection_state.idle
  pub same_closed : d.connection_state.closed ≡ c.connection_state.closed
  pub same_consumed : d.connection_state.closed_consumed ≡ c.connection_state.closed_consumed
  pub same_requested : d.connection_state.close_requested ≡ c.connection_state.close_requested
  pub same_closing : d.connection_state.closing ≡ c.connection_state.closing

SamePhase-phase : (c d : Connection) → SamePhase c d → PhaseInv c → (phase d ≡ phase c) × PhaseInv d
SamePhase-phase c d s v = (
  simp (s.same_idle, s.same_closed, s.same_consumed, s.same_requested, s.same_closing),
  record {
    seen = λ e. ground (arith, v.seen, s.same_idle, s.same_closed, s.same_consumed);
    unused = λ e. ground (arith, v.unused, s.same_idle, s.same_closed);
  },
)

-- What `impl_process_control` returns on a TCP connection, by its phase.
module _ (c : Connection) (v : PhaseInv c) (tcp : c.transport_type ≡ tcp_transport) where
  control_free : phase c ≡ free → impl_process_control c tcp_transport false ≡ (consumed, false, c)
  unfolding impl_process_control
  control_free e = ground (arith, v.seen, v.unused)

  control_unseen :
      phase c ≡ closed_unseen → impl_process_control c tcp_transport false ≡ (consumed, false, c)
  unfolding impl_process_control
  control_unseen e = ground (arith, v.seen, v.unused)

  control_in_use :
      phase c ≡ in_use → impl_process_control c tcp_transport false ≡ (success, false, c)
  unfolding impl_process_control
  control_in_use e = ground (arith, v.seen, v.unused)

  control_closing :
      phase c ≡ closing → impl_process_control c tcp_transport false ≡ (success, true, c)
  unfolding impl_process_control
  control_closing e = ground (arith, v.seen, v.unused)

  control_seen :
      phase c ≡ closed_seen
      → impl_process_control c tcp_transport false
        ≡ (consumed, false, (connection_reset (set_state c only_idle)).1)
  unfolding impl_process_control connection_reset nodeid_reset
  control_seen e =
      let flag : c.connection_state.closed_consumed ≡ true = ground (arith, v.seen, v.unused) in
      let here : (c.transport_type == tcp_transport) ≡ true = ground arith in simp (here, flag)

control_step :
    (socket_close : Socket → Status × Socket) (handshake : Connection → Status × Connection)
    (complete : ℤ → Status) (c d : Connection) (rv : Status)
    → failed rv ≡ true
    → impl_process_control c tcp_transport false ≡ (rv, false, d)
    → tcp_process_control socket_close handshake complete c ≡ (rv, d)
unfolding tcp_process_control
control_step socket_close handshake complete c d rv f e = simp (e, f)

-- The connection after the socket of a client has been asked has the flags of the one before.
check_client_socket-SamePhase :
    (complete : ℤ → Status) (rv : Status) (c : Connection)
    → SamePhase c (check_client_socket complete rv c).1
unfolding check_client_socket
check_client_socket-SamePhase complete rv c = record {
  same_idle = ground arith;
  same_closed = ground arith;
  same_consumed = ground arith;
  same_requested = ground arith;
  same_closing = ground arith;
}

SamePhase-trans : (c d e : Connection) → SamePhase c d → SamePhase d e → SamePhase c e
SamePhase-trans c d e s t = record {
  same_idle = t.same_idle ∙ s.same_idle;
  same_closed = t.same_closed ∙ s.same_closed;
  same_consumed = t.same_consumed ∙ s.same_consumed;
  same_requested = t.same_requested ∙ s.same_requested;
  same_closing = t.same_closing ∙ s.same_closing;
}

module _ (socket_close : Socket → Status × Socket) (handshake : Connection → Status × Connection)
    (complete : ℤ → Status) (keeps : (c : Connection) → SamePhase c (handshake c).1)
    (c : Connection) (v : PhaseInv c) (tcp : c.transport_type ≡ tcp_transport) where
  abbrev pub stepped : Connection
  stepped = (tcp_process_control socket_close handshake complete c).1

  control_handshake :
      phase c ≡ in_use
      → tcp_process_control socket_close handshake complete c ≡ (
          if failed (handshake c).0
          then handshake c
          else check_client_socket complete (handshake c).0 (handshake c).1)
  unfolding tcp_process_control
  control_handshake e = simp (control_in_use c v tcp e)

  in_use-SamePhase : phase c ≡ in_use → SamePhase c stepped
  in_use-SamePhase e = elim (Bool-cases (failed (handshake c).0)) [
    | inl bad ↦
        let same : stepped ≡ (handshake c).1 = ap (λ r. r.1) (control_handshake e) ∙ simp bad in
        subst (SamePhase c) (sym same) (keeps c)
    | inr good ↦
        let same : stepped ≡ (check_client_socket complete (handshake c).0 (handshake c).1).1 =
          ap (λ r. r.1) (control_handshake e) ∙ simp good in
        subst (SamePhase c) (sym same) (
          SamePhase-trans c (handshake c).1
            (check_client_socket complete (handshake c).0 (handshake c).1).1 (keeps c)
            (check_client_socket-SamePhase complete (handshake c).0 (handshake c).1))
  ]

  pub control_close :
      phase c ≡ closing
      → tcp_process_control socket_close handshake complete c
        ≡ (success, record c { sock = (socket_close c.sock).1; connection_state = only_closed })
  unfolding tcp_process_control after_close_requested
  control_close e = simp (control_closing c v tcp e)

  closing-stepped : phase c ≡ closing → stepped.connection_state ≡ only_closed
  closing-stepped e = ap (λ r. r.1.connection_state) (control_close e)

  seen-stepped : phase c ≡ closed_seen → stepped.connection_state ≡ only_idle
  unfolding connection_reset nodeid_reset
  seen-stepped e =
      ap (λ r. r.1.connection_state)
        (control_step socket_close handshake complete c (connection_reset (set_state c only_idle)).1
          consumed refl (control_seen c v tcp e))

  Phase-cases :
      (phase c ≡ free)
      ⊎ (phase c ≡ in_use)
      ⊎ (phase c ≡ closing)
      ⊎ (phase c ≡ closed_unseen)
      ⊎ (phase c ≡ closed_seen)
  Phase-cases = ground arith

  -- The control step of the TCP transport on one of its connections with flags in order makes the
  -- step of the abstract machine free, in_use, closing, closed_unseen, closed_seen, and keeps the
  -- flags in order, whatever the socket functions return, for a handshake that leaves the flags
  -- of the phase alone.
  pub tcp_process_control-phase : (phase stepped ≡ after_control (phase c)) × PhaseInv stepped
  tcp_process_control-phase = elim Phase-cases [
    | inl e ↦
        unchanged
          (control_step socket_close handshake complete c c consumed refl (control_free c v tcp e))
          (simp e)
    | inr (inl e) ↦
        let (same, w) = SamePhase-phase c stepped (in_use-SamePhase e) v in (same ∙ simp e, w)
    | inr (inr (inl e)) ↦
        (ap phase_of (closing-stepped e) ∙ simp e, wholesale (inl (closing-stepped e)))
    | inr (inr (inr (inl e))) ↦
        unchanged
          (control_step socket_close handshake complete c c consumed refl
            (control_unseen c v tcp e))
          (simp e)
    | inr (inr (inr (inr e))) ↦
        (ap phase_of (seen-stepped e) ∙ simp e, wholesale (inr (seen-stepped e)))
  ]
    where
      unchanged :
          tcp_process_control socket_close handshake complete c ≡ (consumed, c)
          → phase c ≡ after_control (phase c)
          → (phase stepped ≡ after_control (phase c)) × PhaseInv stepped
      unchanged e f =
          let same : c ≡ stepped = sym (ap (λ r. r.1) e) in
          (ap phase (sym same) ∙ f, subst PhaseInv same v)

      wholesale :
          (stepped.connection_state ≡ only_closed) ⊎ (stepped.connection_state ≡ only_idle)
          → PhaseInv stepped
      wholesale e = record { seen = λ h. ground (arith, e); unused = λ h. ground (arith, e) }
