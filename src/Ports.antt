-- ===== src/Ports.antt =====
-- src/port.c: the registration of ports, and the functions of scripts that look at ports and connect
-- them. JACK is the parameter `Api.Jack`. Arguments are those that Lua's checks let through.
pub mod Api
pub mod Connect
pub mod Register
pub mod Pairing
pub mod Model
pub mod Sample
mod Tests
use luajack.Prelude.{
  ℕ, ◌+◌, Bool, true, false, Option, none, some, List, [], ◌∷◌, ◌++◌, ◌==◌, ◌&&◌, ◌||◌,
  if◌then◌else◌,
}
use Api.{Name, JackFlags, Rc, ok, eexist, failure, Jack}
use luajack.Database.{
  Database, Checked, found, bad_argument, invalid_reference, xud_new, xud_check, cancel_valid,
}
use luajack.Database.Api.{Tree}

pub data Error : Type 0 where
  unknown_port both_output both_input connection_exists jack_error : Error
  not_registered no_userdata not_integer bad_reference bad_direction unexpected_error not_allowed
        bad_option :
      Error

pub data Outcome (A : Type 0) : Type 0 where
  value : A → Outcome A
  raised : Error → Outcome A

-- `pud->flags`: the bits of JACK, and those under LuaJackPortFlagsMask.
pub record PortFlags : Type 0 where
  pub jack : JackFlags
  pub is_audio : Bool
  pub is_midi : Bool
  pub is_custom : Bool

-- A name that port_pushflags pushes; each constructor stands for the string it is spelled as.
pub data FlagName : Type 0 where
  input output audio midi custom is_physical can_monitor is_terminal : FlagName

abbrev pub add : Bool → FlagName → List FlagName → List FlagName
add true name names = name ∷ names
add false name names = names

-- The names between the separators of the string, which are also the fields of the table.
pub port_pushflags : PortFlags → List FlagName
port_pushflags f = add f.jack.is_input input (
    add f.jack.is_output output (
      add f.is_audio audio (
        add f.is_midi midi (
          add f.is_custom custom (
            add f.jack.is_physical is_physical
              (add f.jack.can_monitor can_monitor (add f.jack.is_terminal is_terminal [])))))))

-- strncmp(a, b, strlen(a)) == 0
abbrev pub is_prefix : Name → Name → Bool
is_prefix [] b = true
is_prefix (x ∷ a) [] = false
is_prefix (x ∷ a) (y ∷ b) = (x == y) && is_prefix a b

-- What CheckPorts finds: the source and the destination, or an error.
pub data Ends : Type 0 where
  pair : Name → Name → Ends
  no_ends : Error → Ends

-- *src and *dst
abbrev pub ends : JackFlags → JackFlags → Name → Name → Option Name × Option Name
ends f1 f2 name1 name2 =
    if f1.is_output
    then (some name1, if f2.is_input then some name2 else none)
    else (if f2.is_output then some name2 else none, some name1)

abbrev pub judge : Option Name × Option Name → Ends
judge (src, none) = no_ends both_output
judge (none, some dst) = no_ends both_input
judge (some src, some dst) = pair src dst

module _ (k : Jack) where
  open k use {J}

  abbrev pub check_both : Name → Name → Option ℕ → Option ℕ → J → Ends
  check_both name1 name2 none p2 j = no_ends unknown_port
  check_both name1 name2 (some p1) none j = no_ends unknown_port
  check_both name1 name2 (some p1) (some p2) j =
      judge (ends (k.port_flags j p1) (k.port_flags j p2) name1 name2)

  pub check_ports : J → Name → Name → Ends
  check_ports j name1 name2 =
      check_both name1 name2 (k.port_by_name j name1) (k.port_by_name j name2) j

  abbrev pub connected : Rc × J → Outcome Unit × J
  connected (ok, j) = (value tt, j)
  connected (eexist, j) = (raised connection_exists, j)
  connected (failure, j) = (raised jack_error, j)

  abbrev pub connect_ends : Ends → J → Outcome Unit × J
  connect_ends (pair src dst) j = connected (k.connect j src dst)
  connect_ends (no_ends e) j = (raised e, j)

  -- Connect_
  pub connect : J → Name → Name → Outcome Unit × J
  connect j name1 name2 = connect_ends (check_ports j name1 name2) j

  -- Any code but 0 is an error of the same kind for jack_disconnect and jack_port_disconnect.
  abbrev pub disconnected : Rc × J → Outcome Unit × J
  disconnected (ok, j) = (value tt, j)
  disconnected (rc, j) = (raised jack_error, j)

  abbrev pub disconnect_ends : Ends → J → Outcome Unit × J
  disconnect_ends (pair src dst) j = disconnected (k.disconnect j src dst)
  disconnect_ends (no_ends e) j = (raised e, j)

  -- Disconnect_
  pub disconnect : J → Name → Name → Outcome Unit × J
  disconnect j name1 name2 = disconnect_ends (check_ports j name1 name2) j

  abbrev disconnect_found : Option ℕ → J → Outcome Unit × J
  disconnect_found none j = (raised unknown_port, j)
  disconnect_found (some p) j = disconnected (k.port_disconnect j p)

  -- DisconnectAll_ with a name; with a port it is `disconnected (k.port_disconnect j port)`.
  pub disconnect_all : J → Name → Outcome Unit × J
  disconnect_all j name = disconnect_found (k.port_by_name j name) j

  pub portname_disconnect : J → Name → Option Name → Outcome Unit × J
  portname_disconnect j name1 none = disconnect_all j name1
  portname_disconnect j name1 (some name2) = disconnect j name1 name2

  -- PortnameFlags: the second result is "unknown port" for `none`.
  abbrev named_flags : Option ℕ → J → Option PortFlags
  named_flags none j = none
  named_flags (some p) j =
      let type = k.port_type j p in
      let audio = is_prefix type k.audio_type in
      let midi = is_prefix type k.midi_type in
      some (record {
        jack = k.port_flags j p;
        is_audio = audio;
        is_midi = if audio then false else midi;
        is_custom = if audio then false else if midi then false else true;
      })

  pub portname_flags : J → Name → Option PortFlags
  portname_flags j name = named_flags (k.port_by_name j name) j

  -- The direction of the filter of GetPorts: "input" or "output" or a beginning of these.
  abbrev pub direction : Option Name → Option (Bool × Bool)
  direction none = some (false, false)
  direction (some dir) =
      if is_prefix dir (105 ∷ 110 ∷ 112 ∷ 117 ∷ 116 ∷ [])
      then some (true, false)
      else if is_prefix dir (111 ∷ 117 ∷ 116 ∷ 112 ∷ 117 ∷ 116 ∷ [])
      then some (false, true)
      else none

  abbrev names_or_empty : Option (List Name) → List Name
  names_or_empty none = []
  names_or_empty (some names) = names

  abbrev get_directed :
      J
      → Option Name
      → Option Name
      → Bool
      → Bool
      → Bool
      → Option (Bool × Bool)
      → Outcome (List Name)
  get_directed j name type physical monitor terminal none = raised bad_direction
  get_directed j name type physical monitor terminal (some (is_in, is_out)) = value (
      names_or_empty (
        k.get_ports j name type (record {
          is_input = is_in;
          is_output = is_out;
          is_physical = physical;
          can_monitor = monitor;
          is_terminal = terminal;
        })))

  -- GetPorts with the fields of its filter; without a filter they are absent.
  pub get_ports :
      J → Option Name → Option Name → Option Name → Bool → Bool → Bool → Outcome (List Name)
  get_ports j name type dir physical monitor terminal =
      get_directed j name type physical monitor terminal (direction dir)
