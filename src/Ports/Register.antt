-- ===== src/Ports/Register.antt =====
-- src/port.c: the ports of scripts, by reference. The result of Malloc, and what luajack_checkcreate,
-- cud_check and the checks of the arguments give, are arguments.
pub mod Lifetime
pub mod Session
use luajack.Prelude.{
  set, ℕ, Bool, true, false, Option, none, some, List, [], ◌∷◌, ◌==◌, ◌&&◌, ◌||◌, if◌then◌else◌,
}
use luajack.Database.{
  Database, Checked, found, bad_argument, invalid_reference, xud_new, xud_check, cancel_valid,
}
use luajack.Database.Api.{Tree}
use luajack.Ports.{
  Error, Outcome, value, raised, PortFlags, FlagName, port_pushflags, connect, disconnect,
  disconnected, not_registered, no_userdata, not_integer, bad_reference, not_allowed, bad_option,
  unexpected_error,
}
use luajack.Ports.Api.{Jack, JackFlags, Name}

-- `struct luajack_pud_s`, without the buffer.
pub record Entry : Type 0 where
  pub port : ℕ
  pub cud : ℕ
  pub flags : PortFlags
  pub samplesize : ℕ

-- The table of options; a missing or wrong string or integer is `none`.
pub record Options : Type 0 where
  pub physical : Bool
  pub monitor : Bool
  pub terminal : Bool
  pub port_type : Option Name
  pub buffer_size : Option ℕ

abbrev with_options : Option Options → PortFlags → PortFlags
with_options none f = f
with_options (some o) f = record f {
  jack = record f.jack {
    is_physical = f.jack.is_physical || o.physical;
    can_monitor = f.jack.can_monitor || o.monitor;
    is_terminal = f.jack.is_terminal || o.terminal;
  };
}

-- The type and the buffer size of a port that is neither audio nor MIDI.
abbrev custom_size : Name → Option ℕ → Option (Name × ℕ)
custom_size type none = none
custom_size type (some size) = some (type, size)

abbrev custom_type : Option Options → Option (Name × ℕ)
custom_type none = none
custom_type (some o) = elim o.port_type [ none ↦ none | some type ↦ custom_size type o.buffer_size ]

module _ (t : Tree) (k : Jack) where
  -- The database of pud.c with the fields of its entries, by address, and JACK.
  pub record Ports : Type 0 where
    pub db : Database t
    pub entry : ℕ → Entry
    pub jack : k.J

  abbrev port_type : PortFlags → Option Options → Option (Name × ℕ)
  port_type f opts =
      if f.is_audio
      then some (k.audio_type, 0)
      else if f.is_midi
      then some (k.midi_type, 0)
      else custom_type opts

  abbrev new_pud : Entry → Option ℕ × Database t → Ports → Outcome ℕ × Ports
  new_pud e (none, db) st =
      (raised no_userdata, record st { db = db; jack = (k.port_unregister st.jack e.port).1 })
  new_pud e (some a, db) st = (value a, record st { db = db; entry = set a e st.entry })

  abbrev made_port : ℕ → PortFlags → ℕ → Option ℕ → Option ℕ × k.J → Ports → Outcome ℕ × Ports
  made_port client flags size addr (none, j) st = (raised not_registered, record st { jack = j })
  made_port client flags size addr (some p, j) st =
      new_pud (record { port = p; cud = client; flags = flags; samplesize = size })
        (xud_new t addr st.db) (record st { jack = j })

  abbrev typed_port :
      ℕ → Name → PortFlags → Option (Name × ℕ) → Option ℕ → Ports → Outcome ℕ × Ports
  typed_port client name flags none addr st = (raised bad_option, st)
  typed_port client name flags (some (type, size)) addr st =
      made_port client flags size addr (k.port_register st.jack name type flags.jack size) st

  -- PortRegister. `flags` are those of input_audio_port and its like.
  unfoldable pub port_register :
      PortFlags → Bool → Checked → Name → Option Options → Option ℕ → Ports → Outcome ℕ × Ports
  port_register flags false client name opts addr st = (raised not_allowed, st)
  port_register flags true bad_argument name opts addr st = (raised not_integer, st)
  port_register flags true invalid_reference name opts addr st = (raised bad_reference, st)
  port_register flags true (found client) name opts addr st =
      typed_port client name (with_options opts flags) (port_type flags opts) addr st

  -- The code that jack_port_unregister returns is not looked at.
  unfoldable pub port_close : ℕ → Ports → Ports
  port_close a st = record st {
    db = cancel_valid t a st.db;
    jack = (k.port_unregister st.jack (st.entry a).port).1;
  }

  -- The loop over the entries that pud_first and pud_next give one after the other.
  unfoldable pub port_close_all : ℕ → List ℕ → Ports → Ports
  port_close_all client [] st = st
  port_close_all client (a ∷ rest) st =
      let closed = if st.db.valid a && ((st.entry a).cud == client) then port_close a st else st in
      port_close_all client rest closed

  -- A function called with the reference of a port.
  abbrev on_checked :
      {A : Type 0} → (ℕ → Ports → Outcome A × Ports) → Checked → Ports → Outcome A × Ports
  on_checked f (found a) st = f a st
  on_checked f bad_argument st = (raised not_integer, st)
  on_checked f invalid_reference st = (raised bad_reference, st)

  pub on_pud : {A : Type 0} → (ℕ → Ports → Outcome A × Ports) → Option ℕ → Ports → Outcome A × Ports
  on_pud f key st = on_checked f (xud_check t key st.db) st

  pub port_unregister : ℕ → Ports → Outcome Unit × Ports
  port_unregister a st = (value tt, port_close a st)

  -- PortFlags: the bits of JACK are read again.
  pub port_flags : ℕ → Ports → Outcome (List FlagName) × Ports
  port_flags a st =
      let e = st.entry a in
      let flags = record e.flags { jack = k.port_flags st.jack e.port } in
      (
        value (port_pushflags flags),
        record st { entry = set a (record e { flags = flags }) st.entry },
      )

  abbrev in_jack : Outcome Unit × k.J → Ports → Outcome Unit × Ports
  in_jack r st = (r.0, record st { jack = r.1 })

  abbrev named_connect : Option Name → Name → Ports → Outcome Unit × Ports
  named_connect none name2 st = (raised unexpected_error, st)
  named_connect (some name1) name2 st = in_jack (connect k st.jack name1 name2) st

  pub port_connect : Name → ℕ → Ports → Outcome Unit × Ports
  port_connect name2 a st = named_connect (k.port_name st.jack (st.entry a).port) name2 st

  abbrev named_disconnect : Option Name → Name → Ports → Outcome Unit × Ports
  named_disconnect none name2 st = (raised unexpected_error, st)
  named_disconnect (some name1) name2 st = in_jack (disconnect k st.jack name1 name2) st

  pub port_disconnect : Option Name → ℕ → Ports → Outcome Unit × Ports
  port_disconnect none a st =
      in_jack (disconnected k (k.port_disconnect st.jack (st.entry a).port)) st
  port_disconnect (some name2) a st =
      named_disconnect (k.port_name st.jack (st.entry a).port) name2 st
