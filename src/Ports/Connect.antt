-- ===== src/Ports/Connect.antt =====
-- Connections between ports of src/port.c: the source and the destination.
use luajack.Prelude.{
  subst, ℕ, ◌≡◌, refl, sym, ap, ◌∙◌, ◌⊎◌, inl, inr, Bool, true, false, not, none, some,
  if◌then◌else◌, Option-cases,
}
use luajack.Ports.{
  Error, raised, Ends, pair, no_ends, both_output, both_input, unknown_port, judge, check_ports,
  disconnected, connect, connected, connect_ends, disconnect, disconnect_ends,
}
use luajack.Ports.Api.{
  Name, Jack, IsDirected, IsServer, tracked, tracked-connect, tracked-disconnect,
  tracked-port_disconnect, Rc, ok, eexist, failure,
}

-- What the directions say, `in1` and `in2` being whether the ports are inputs.
abbrev directed : Bool → Bool → Name → Name → Ends
directed true true name1 name2 = no_ends both_input
directed true false name1 name2 = pair name2 name1
directed false true name1 name2 = pair name1 name2
directed false false name1 name2 = no_ends both_output

directed_swap :
    (a b : Bool) (name1 name2 : Name) → directed a b name1 name2 ≡ directed b a name2 name1
directed_swap true true name1 name2 = refl
directed_swap true false name1 name2 = refl
directed_swap false true name1 name2 = refl
directed_swap false false name1 name2 = refl

judge_lem :
    (in1 out1 in2 out2 : Bool) (name1 name2 : Name)
    → out1 ≡ not in1
    → out2 ≡ not in2
    → judge (
        if out1
        then (some name1, if in2 then some name2 else none)
        else (if out2 then some name2 else none, some name1))
      ≡ directed in1 in2 name1 name2
judge_lem true out1 true out2 name1 name2 h1 h2 = rw (h1, h2) refl
judge_lem true out1 false out2 name1 name2 h1 h2 = rw (h1, h2) refl
judge_lem false out1 true out2 name1 name2 h1 h2 = rw h1 refl
judge_lem false out1 false out2 name1 name2 h1 h2 = rw h1 refl

module _ (k : Jack) (directions : IsDirected k) where
  abbrev is_in : k.J → ℕ → Bool
  is_in j p = (k.port_flags j p).is_input

  both_known :
      (j : k.J) (name1 name2 : Name) (p1 p2 : ℕ)
      → k.port_by_name j name1 ≡ some p1
      → k.port_by_name j name2 ≡ some p2
      → check_ports k j name1 name2 ≡ directed (is_in j p1) (is_in j p2) name1 name2
  unfolding check_ports
  both_known j name1 name2 p1 p2 h1 h2 =
      rw (h1, h2)
        (judge_lem (is_in j p1) (k.port_flags j p1).is_output (is_in j p2)
          (k.port_flags j p2).is_output name1 name2 (directions.one_way j p1)
          (directions.one_way j p2))

  either_order :
      (j : k.J) (name1 name2 : Name) (p1 p2 : ℕ)
      → k.port_by_name j name1 ≡ some p1
      → k.port_by_name j name2 ≡ some p2
      → check_ports k j name1 name2 ≡ check_ports k j name2 name1
  either_order j name1 name2 p1 p2 h1 h2 =
      both_known j name1 name2 p1 p2 h1 h2
      ∙ (directed_swap (is_in j p1) (is_in j p2) name1 name2
          ∙ sym (both_known j name2 name1 p2 p1 h2 h1))

  -- Connecting and disconnecting two ports that JACK knows does the same, errors included, whichever
  -- of the two is named first.
  pub connect_either_order :
      (j : k.J) (name1 name2 : Name) (p1 p2 : ℕ)
      → k.port_by_name j name1 ≡ some p1
      → k.port_by_name j name2 ≡ some p2
      → (connect k j name1 name2 ≡ connect k j name2 name1)
        × (disconnect k j name1 name2 ≡ disconnect k j name2 name1)
  unfolding connect disconnect
  connect_either_order j name1 name2 p1 p2 h1 h2 =
      let same = either_order j name1 name2 p1 p2 h1 h2 in
      (ap (λ e. connect_ends k e j) same, ap (λ e. disconnect_ends k e j) same)

  abbrev pub IsInput : k.J → Name → Type 0
  IsInput j name = (p : ℕ) × (k.port_by_name j name ≡ some p) × ((k.port_flags j p).is_input ≡ true)

  abbrev pub IsOutput : k.J → Name → Type 0
  IsOutput j name =
      (p : ℕ) × (k.port_by_name j name ≡ some p) × ((k.port_flags j p).is_output ≡ true)

  -- An error, or two of the ports named with their directions.
  abbrev Sound : k.J → Name → Name → Ends → Type 0
  Sound j name1 name2 e =
      ((err : Error) × (e ≡ no_ends err))
      ⊎ ((src : Name) × (dst : Name) × IsOutput j src
          × IsInput j dst
          × (((src ≡ name1) × (dst ≡ name2)) ⊎ ((src ≡ name2) × (dst ≡ name1)))
          × (e ≡ pair src dst))

  directed-Sound :
      (j : k.J) (name1 name2 : Name) (p1 p2 : ℕ)
      → k.port_by_name j name1 ≡ some p1
      → k.port_by_name j name2 ≡ some p2
      → (in1 in2 : Bool) → is_in j p1 ≡ in1
      → is_in j p2 ≡ in2
      → Sound j name1 name2 (directed in1 in2 name1 name2)
  directed-Sound j name1 name2 p1 p2 h1 h2 true true i1 i2 = inl (_, refl)
  directed-Sound j name1 name2 p1 p2 h1 h2 true false i1 i2 = inr (
    name2,
    name1,
    (p2, h2, directions.one_way j p2 ∙ ap not i2),
    (p1, h1, i1),
    inr (refl, refl),
    refl,
  )
  directed-Sound j name1 name2 p1 p2 h1 h2 false true i1 i2 = inr (
    name1,
    name2,
    (p1, h1, directions.one_way j p1 ∙ ap not i1),
    (p2, h2, i2),
    inl (refl, refl),
    refl,
  )
  directed-Sound j name1 name2 p1 p2 h1 h2 false false i1 i2 = inl (_, refl)

  check_ports-Sound :
      (j : k.J) (name1 name2 : Name) → Sound j name1 name2 (check_ports k j name1 name2)
  unfolding check_ports
  check_ports-Sound j name1 name2 = elim (Option-cases (k.port_by_name j name1)) [
    | inl gone ↦ inl (unknown_port, rw gone refl)
    | inr (p1, h1) ↦ elim (Option-cases (k.port_by_name j name2)) [
      | inl gone ↦ inl (unknown_port, rw (h1, gone) refl)
      | inr (p2, h2) ↦
          subst (Sound j name1 name2) (sym (both_known j name1 name2 p1 p2 h1 h2))
            (directed-Sound j name1 name2 p1 p2 h1 h2 (is_in j p1) (is_in j p2) refl refl)
    ]
  ]

  -- Connecting two names is an error before JACK is asked to connect, or JACK is asked once, to connect
  -- an output port, as the source, to an input port, as the destination, and these are the two that
  -- were named.
  pub connect_directed :
      (j : k.J) (name1 name2 : Name)
      → ((err : Error) × (connect k j name1 name2 ≡ (raised err, j)))
        ⊎ ((src : Name) × (dst : Name) × IsOutput j src
            × IsInput j dst
            × (((src ≡ name1) × (dst ≡ name2)) ⊎ ((src ≡ name2) × (dst ≡ name1)))
            × (connect k j name1 name2 ≡ connected k (k.connect j src dst)))
  unfolding connect
  connect_directed j name1 name2 = elim (check_ports-Sound j name1 name2) [
    | inl (err, e) ↦ inl (err, ap (λ x. connect_ends k x j) e)
    | inr (src, dst, out, in_, named, e) ↦
        inr (src, dst, out, in_, named, ap (λ x. connect_ends k x j) e)
  ]

connected_state : (k : Jack) (r : Rc × k.J) → (connected k r).1 ≡ r.1
connected_state k (ok, j) = refl
connected_state k (eexist, j) = refl
connected_state k (failure, j) = refl

pub disconnected_state : (k : Jack) (r : Rc × k.J) → (disconnected k r).1 ≡ r.1
disconnected_state k (ok, j) = refl
disconnected_state k (eexist, j) = refl
disconnected_state k (failure, j) = refl

-- Connections do not change which ports are registered.
module _ (k : Jack) (server : IsServer k) where
  connect_ends_keeps_ports :
      (e : Ends) (j : k.J) (q : ℕ)
      → tracked k server (connect_ends k e j).1 q ≡ tracked k server j q
  connect_ends_keeps_ports (pair src dst) j q =
      ap (λ z. tracked k server z q) (connected_state k (k.connect j src dst))
      ∙ tracked-connect k server j src dst q
  connect_ends_keeps_ports (no_ends e) j q = refl

  disconnect_ends_keeps_ports :
      (e : Ends) (j : k.J) (q : ℕ)
      → tracked k server (disconnect_ends k e j).1 q ≡ tracked k server j q
  disconnect_ends_keeps_ports (pair src dst) j q =
      ap (λ z. tracked k server z q) (disconnected_state k (k.disconnect j src dst))
      ∙ tracked-disconnect k server j src dst q
  disconnect_ends_keeps_ports (no_ends e) j q = refl

  pub connect_keeps_ports :
      (j : k.J) (name1 name2 : Name) (q : ℕ)
      → tracked k server (connect k j name1 name2).1 q ≡ tracked k server j q
  unfolding connect
  connect_keeps_ports j name1 name2 q = connect_ends_keeps_ports (check_ports k j name1 name2) j q

  pub disconnect_keeps_ports :
      (j : k.J) (name1 name2 : Name) (q : ℕ)
      → tracked k server (disconnect k j name1 name2).1 q ≡ tracked k server j q
  unfolding disconnect
  disconnect_keeps_ports j name1 name2 q =
      disconnect_ends_keeps_ports (check_ports k j name1 name2) j q

  pub port_disconnect_keeps_ports :
      (j : k.J) (p q : ℕ)
      → tracked k server (disconnected k (k.port_disconnect j p)).1 q ≡ tracked k server j q
  port_disconnect_keeps_ports j p q =
      ap (λ z. tracked k server z q) (disconnected_state k (k.port_disconnect j p))
      ∙ tracked-port_disconnect k server j p q
