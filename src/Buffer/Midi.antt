-- ===== src/Buffer/Midi.antt =====
-- src/buffer.c: MIDI ports. The buffer and its events are JACK's (jack/midiport.h).
pub mod Copy
use luajack.Prelude.{
  ℕ, zero, suc, ◌+◌, ◌-◌, ◌%◌, ◌^◌, Bool, Option, none, some, List, length, ltb, leb, ◌==◌,
  if◌then◌else◌, to_u32,
}
use luajack.Buffer.{
  Pud, Outcome, returned, raised, IntArg, integer, opt_u32, check, or_raise, avail, smaller, Kind,
  no_buffer, not_output, not_input, out_of_range, bad_argument, invalid_source, source_not_input,
  target_not_output, already_retrieved, no_port_buffer, empty_data, is_midi,
}

-- jack_midi_event_t
pub record MidiEvent : Type 0 where
  pub time : ℕ
  pub buffer : List ℕ

pub record MidiPort : Type 1 where
  pub B : Type 0
  -- jack_midi_clear_buffer, jack_midi_get_event_count, jack_midi_get_lost_event_count
  pub clear_buffer : B → B
  pub event_count : B → ℕ
  pub lost_event_count : B → ℕ
  pub max_event_size : B → ℕ
  -- jack_midi_event_get; `none` is an error
  pub event_get : B → ℕ → Option MidiEvent
  -- jack_midi_event_reserve: what the buffer is once data is copied to the place reserved
  pub event_reserve : B → ℕ → ℕ → Option (List ℕ → B)
  -- jack_midi_event_write; `none` is an error
  pub event_write : B → MidiEvent → Option B

-- luaL_checkinteger, converted to 32 bits
abbrev check_u32 : IntArg → Option ℕ
check_u32 (integer z) = some (to_u32 z)
check_u32 arg = none

-- The last argument of `write`: luaL_checklstring.
pub data DataArg : Type 0 where
  bytes : List ℕ → DataArg
  not_string : DataArg

module _ (m : MidiPort) where
  open m use {B}

  -- An unsigned subtraction of the sizes of a nframes_t and of a size_t.
  pub midi_space : B → ℕ
  midi_space b = (m.max_event_size b + (2 ^ 64 - 12)) % 2 ^ 64

  -- The values that `get_buffer` returns: the space of an output port, or the counts of an input port.
  pub data Retrieved : Type 0 where
    space : ℕ → Retrieved
    events : ℕ → ℕ → Retrieved

  abbrev take_given : Option B → Pud B → Outcome (Pud B) Retrieved
  take_given none p = raised no_port_buffer (record p { nframes = p.period })
  take_given (some b) p =
      if p.output
      then returned (space (midi_space (m.clear_buffer b)))
          (record p { buf = some (m.clear_buffer b); nframes = p.period; bufp = 0 })
      else returned (events (m.event_count b) (m.lost_event_count b))
          (record p { buf = some b; nframes = m.event_count b; bufp = 0 })

  abbrev retrieve : Option B → Option B → Pud B → Outcome (Pud B) Retrieved
  retrieve (some b) given p = raised already_retrieved p
  retrieve none given p = take_given given p

  -- GetBuffer, for a MIDI port.
  pub get_midi_buffer : Option B → Pud B → Outcome (Pud B) Retrieved
  get_midi_buffer given pud = retrieve pud.buf given pud

  abbrev reserved : Pud B → List ℕ → Option (List ℕ → B) → Outcome (Pud B) (Option ℕ)
  reserved pud d none = returned none pud
  reserved pud d (some put) =
      returned (some (midi_space (put d))) (record pud { buf = some (put d) })

  abbrev write_event : B → ℕ → DataArg → Pud B → Outcome (Pud B) (Option ℕ)
  write_event b time not_string pud = raised bad_argument pud
  write_event b time (bytes d) pud =
      if length d == 0
      then raised empty_data pud
      else if ltb (midi_space b) (length d)
      then returned none pud
      else reserved pud d (m.event_reserve b time (length d))

  -- `none` where no value is returned.
  pub midi_write : IntArg → DataArg → Pud B → Outcome (Pud B) (Option ℕ)
  midi_write time arg pud = or_raise pud.buf no_buffer pud (λ b.
      check pud.output not_output pud
        (or_raise (check_u32 time) bad_argument pud (λ t. write_event b t arg pud)))

  -- The position goes on whatever the index asked for.
  pub midi_read : IntArg → Pud B → Outcome (Pud B) (Option MidiEvent)
  midi_read index pud = or_raise pud.buf no_buffer pud (λ b. check pud.input not_input pud (
      or_raise (opt_u32 index pud.bufp) bad_argument pud (λ i.
        if avail pud == 0
        then returned none pud
        else returned (m.event_get b i) (record pud { bufp = suc pud.bufp }))))

  abbrev seek_event : IntArg → Pud B → Outcome (Pud B) (ℕ × ℕ)
  seek_event (integer z) pud =
      let p : Pud B = record pud { bufp = to_u32 z } in
      check (leb (to_u32 z) pud.nframes) out_of_range pud (returned (p.bufp, avail p) p)
  seek_event arg pud = returned (pud.bufp, avail pud) pud

  pub midi_seek : IntArg → Pud B → Outcome (Pud B) (ℕ × ℕ)
  midi_seek arg pud =
      or_raise pud.buf no_buffer pud (λ b. check pud.input not_input pud (seek_event arg pud))

  abbrev written : (B → ℕ → ℕ × (B × ℕ)) → Option B → B → ℕ → ℕ → ℕ × (B × ℕ)
  written rest none target at i = (i, (target, at))
  written rest (some b) target at i = rest b (suc at)

  abbrev copy_next : (B → ℕ → ℕ × (B × ℕ)) → Option MidiEvent → B → ℕ → ℕ → ℕ × (B × ℕ)
  copy_next rest none target at i = (i, (target, at))
  copy_next rest (some e) target at i = written rest (m.event_write target e) target at i

  -- The loop of MidiCopy, with `n` events to go: the events copied, the target, the source's position.
  pub copy_events : ℕ → B → B → ℕ → ℕ → ℕ × (B × ℕ)
  copy_events zero source target at i = (i, (target, at))
  copy_events (suc n) source target at i =
      copy_next (λ b k. copy_events n source b k (suc i)) (m.event_get source at) target at i

  abbrev copied : Pud B → Pud B → ℕ × (B × ℕ) → Outcome (Pud B × Pud B) ℕ
  copied target source (n, (b, at)) =
      returned n (record target { buf = some b }, record source { bufp = at })

  pub midi_copy : IntArg → Pud B → Pud B → Outcome (Pud B × Pud B) ℕ
  midi_copy count target source =
      let both : Pud B × Pud B = (target, source) in
      check (is_midi source.kind) invalid_source both (
        check source.input source_not_input both (
          check target.output target_not_output both (
            or_raise target.buf no_buffer both (λ b. or_raise source.buf no_buffer both (λ c.
              if avail source == 0
              then returned 0 both
              else or_raise (opt_u32 count (avail source)) bad_argument both (λ n.
                copied target source
                  (copy_events (smaller n (avail source)) c b source.bufp 0)))))))
