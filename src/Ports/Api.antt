-- ===== src/Ports/Api.antt =====
-- What src/port.c uses of JACK (jack/jack.h). The state is that of the server and of the connection to
-- it; a port is the number of its handle, a name a list of bytes.
use luajack.Prelude.{
  ap, ap₂, ◌∙◌, refl, ◌&&◌, Bool-cases, inl, inr, ℕ, ◌≡◌, Bool, true, false, not, Option, none,
  some, List, ◌==◌, if◌then◌else◌,
}

abbrev pub Name : Type 0
Name = List ℕ

-- The bits of JackPortFlags.
pub record JackFlags : Type 0 where
  pub is_input : Bool
  pub is_output : Bool
  pub is_physical : Bool
  pub can_monitor : Bool
  pub is_terminal : Bool

-- What jack_connect and its like return: 0, EEXIST or another error.
pub data Rc : Type 0 where
  ok eexist failure : Rc

pub record Jack : Type 1 where
  pub J : Type 0
  -- JACK_DEFAULT_AUDIO_TYPE, JACK_DEFAULT_MIDI_TYPE
  pub audio_type : Name
  pub midi_type : Name
  -- jack_port_register (name, type, flags, buffer size), jack_port_unregister
  -- (whether it succeeds)
  pub port_register : J → Name → Name → JackFlags → ℕ → Option ℕ × J
  pub port_unregister : J → ℕ → Bool × J
  pub port_by_name : J → Name → Option ℕ
  pub port_name : J → ℕ → Option Name
  pub port_flags : J → ℕ → JackFlags
  pub port_type : J → ℕ → Name
  pub connect : J → Name → Name → Rc × J
  pub disconnect : J → Name → Name → Rc × J
  pub port_disconnect : J → ℕ → Rc × J
  pub get_ports : J → Option Name → Option Name → JackFlags → Option (List Name)

module _ (k : Jack) where
  open k use {J}

  -- A port is an input or an output, and not both.
  pub record IsDirected : Type 0 where
    pub one_way : (j : J) (p : ℕ) → (k.port_flags j p).is_output ≡ not (k.port_flags j p).is_input

  pub record IsServer : Type 0 where
    -- whether the port is registered by this program, and whether JACK refused to unregister it
    pub owned : J → ℕ → Bool
    pub refused : J → ℕ → Bool
    -- the handle of a new port is that of no registered port
    pub register_some :
        (j : J) (name type : Name) (flags : JackFlags) (size p : ℕ)
        → let r = k.port_register j name type flags size in
          r.0 ≡ some p
          → (owned j p ≡ false)
            × ((q : ℕ)
                → (owned r.1 q ≡ (if q == p then true else owned j q))
                  × (refused r.1 q ≡ (if q == p then false else refused j q)))
    pub register_none :
        (j : J) (name type : Name) (flags : JackFlags) (size : ℕ)
        → let r = k.port_register j name type flags size in
          r.0 ≡ none → (q : ℕ) → (owned r.1 q ≡ owned j q) × (refused r.1 q ≡ refused j q)
    pub unregister_done :
        (j : J) (p q : ℕ)
        → let r = k.port_unregister j p in
          r.0 ≡ true
          → (owned r.1 q ≡ (if q == p then false else owned j q)) × (refused r.1 q ≡ refused j q)
    pub unregister_refused :
        (j : J) (p q : ℕ)
        → let r = k.port_unregister j p in
          r.0 ≡ false
          → (owned r.1 q ≡ owned j q) × (refused r.1 q ≡ (if q == p then true else refused j q))
    pub connect_lem :
        (j : J) (src dst : Name) (q : ℕ)
        → let r = k.connect j src dst in (owned r.1 q ≡ owned j q) × (refused r.1 q ≡ refused j q)
    pub disconnect_lem :
        (j : J) (src dst : Name) (q : ℕ)
        → let r = k.disconnect j src dst in
          (owned r.1 q ≡ owned j q) × (refused r.1 q ≡ refused j q)
    pub port_disconnect_lem :
        (j : J) (p q : ℕ)
        → let r = k.port_disconnect j p in (owned r.1 q ≡ owned j q) × (refused r.1 q ≡ refused j q)

and_false : (o : Bool) → (o && false) ≡ false
and_false true = refl
and_false false = refl

both_same : (o o2 r r2 : Bool) → o2 ≡ o → r2 ≡ r → (o2 && not r2) ≡ (o && not r)
both_same o o2 r r2 e f = ap₂ (λ x y. x && not y) e f

added :
    (b o o2 r r2 : Bool)
    → o2 ≡ (if b then true else o)
    → r2 ≡ (if b then false else r)
    → (o2 && not r2) ≡ (if b then true else o && not r)
added true o o2 r r2 e f = ap₂ (λ x y. x && not y) e f
added false o o2 r r2 e f = ap₂ (λ x y. x && not y) e f

taken :
    (b o o2 r r2 : Bool)
    → o2 ≡ (if b then false else o)
    → r2 ≡ r
    → (o2 && not r2) ≡ (if b then false else o && not r)
taken true o o2 r r2 e f = ap₂ (λ x y. x && not y) e f
taken false o o2 r r2 e f = ap₂ (λ x y. x && not y) e f

kept_by_jack :
    (b o o2 r r2 : Bool)
    → o2 ≡ o
    → r2 ≡ (if b then true else r)
    → (o2 && not r2) ≡ (if b then false else o && not r)
kept_by_jack true o o2 r r2 e f = ap₂ (λ x y. x && not y) e f ∙ and_false o
kept_by_jack false o o2 r r2 e f = ap₂ (λ x y. x && not y) e f

module _ (k : Jack) (server : IsServer k) where
  open k use {J}
  open server use {owned, refused}

  -- The ports of this program that JACK has not refused to unregister.
  abbrev pub tracked : J → ℕ → Bool
  tracked j q = owned j q && not (refused j q)

  pub tracked-register_none :
      (j : J) (name type : Name) (flags : JackFlags) (size : ℕ)
      → let r = k.port_register j name type flags size in
        r.0 ≡ none → (q : ℕ) → tracked r.1 q ≡ tracked j q
  tracked-register_none j name type flags size h q =
      let (o, r) = server.register_none j name type flags size h q in both_same _ _ _ _ o r

  pub tracked-register_some :
      (j : J) (name type : Name) (flags : JackFlags) (size p : ℕ)
      → let r = k.port_register j name type flags size in
        r.0 ≡ some p
        → (tracked j p ≡ false) × ((q : ℕ) → tracked r.1 q ≡ (if q == p then true else tracked j q))
  tracked-register_some j name type flags size p h =
      let (new, all) = server.register_some j name type flags size p h in
      (ap (λ b. b && not (refused j p)) new, λ q. added (q == p) _ _ _ _ (all q).0 (all q).1)

  -- Whether or not JACK unregisters a port, it is no longer one of those.
  pub tracked-unregister :
      (j : J) (p q : ℕ)
      → tracked (k.port_unregister j p).1 q ≡ (if q == p then false else tracked j q)
  tracked-unregister j p q = elim (Bool-cases (k.port_unregister j p).0) [
    | inl done ↦ let (o, r) = server.unregister_done j p q done in taken (q == p) _ _ _ _ o r
    | inr kept ↦
        let (o, r) = server.unregister_refused j p q kept in kept_by_jack (q == p) _ _ _ _ o r
  ]

  pub tracked-connect :
      (j : J) (src dst : Name) (q : ℕ) → tracked (k.connect j src dst).1 q ≡ tracked j q
  tracked-connect j src dst q = let (o, r) = server.connect_lem j src dst q in both_same _ _ _ _ o r

  pub tracked-disconnect :
      (j : J) (src dst : Name) (q : ℕ) → tracked (k.disconnect j src dst).1 q ≡ tracked j q
  tracked-disconnect j src dst q =
      let (o, r) = server.disconnect_lem j src dst q in both_same _ _ _ _ o r

  pub tracked-port_disconnect :
      (j : J) (p q : ℕ) → tracked (k.port_disconnect j p).1 q ≡ tracked j q
  tracked-port_disconnect j p q =
      let (o, r) = server.port_disconnect_lem j p q in both_same _ _ _ _ o r
