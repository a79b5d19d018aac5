-- ===== src/Buffer/Tests.antt =====
-- Tests of src/buffer.c with numbers as samples, and the theorems at concrete inputs.
use luajack.Prelude.{
  ℕ, ◌+◌, ◌≡◌, refl, Bool, true, false, Option, none, some, List, [], ◌∷◌, ◌++◌, length, leb,
  get_elem?, if◌then◌else◌, arith, pos, negsuc,
}
use luajack.Buffer.{
  Pud, returned, raised, audio, midi, absent, integer, not_output, no_buffer, out_of_range,
  invalid_sample, not_in_process, audio_write, audio_copy, audio_seek, port_function,
}
use luajack.Buffer.Custom.{sample, wrong_size, custom_write, put_samples}
use luajack.Buffer.Memory.{numbers}
use luajack.Buffer.Audio.{
  out_port, in_port, reads, audio_write_lem, reads_in_order, copy_from_start,
}
use luajack.Buffer.Session.{
  Step, on, copy, AllValid, get, write, write_custom, clear, read, seek, drop_all, calls,
  calls_stay_inside,
}
use luajack.Buffer.Midi.{MidiEvent, MidiPort, midi_copy}
use luajack.Buffer.Midi.Copy.{IsMidiPort, Copied, events_port, target_port, midi_copy_lem}

abbrev new_port : Pud (List ℕ)
new_port = record {
  kind = audio;
  input = false;
  output = true;
  in_process = true;
  period = 4;
  buf = none;
  nframes = 0;
  bufp = 0;
}

abbrev samples : List ℕ
samples = 1 ∷ 2 ∷ 3 ∷ 4 ∷ []

-- Only the two numbers at the front are written.
abbrev write_args : List (Option ℕ)
write_args = some 8 ∷ some 9 ∷ none ∷ some 7 ∷ []

write_stops : numbers write_args ≡ 8 ∷ 9 ∷ []
write_stops = refl

write_needs_buffer : audio_write write_args new_port ≡ raised no_buffer new_port
unfolding audio_write
write_needs_buffer = refl

write_needs_output :
    audio_write write_args (record (in_port new_port samples 0) { output = false })
    ≡ raised not_output (record (in_port new_port samples 0) { output = false })
unfolding audio_write
write_needs_output = refl

only_in_process :
    port_function (audio_write write_args) (record new_port { in_process = false })
    ≡ raised not_in_process (record new_port { in_process = false })
unfolding port_function
only_in_process = refl

-- A sample of the wrong size is an error after the samples before it are written.
wrong_size_is_late :
    custom_write (sample 5 ∷ wrong_size ∷ []) (out_port new_port samples 1)
    ≡ raised invalid_sample (out_port new_port (1 ∷ 5 ∷ 3 ∷ 4 ∷ []) 2)
unfolding custom_write put_samples
wrong_size_is_late = refl

-- A negative position is a large one.
seek_negative :
    audio_seek (integer (negsuc 0)) (out_port new_port samples 1)
    ≡ raised out_of_range (out_port new_port samples 1)
unfolding audio_seek
seek_negative = refl

audio_write_lem_example :
    audio_write write_args (out_port new_port samples 1)
    ≡ returned 2
        (record (out_port new_port samples 1) { buf = some (1 ∷ 8 ∷ 9 ∷ 4 ∷ []); bufp = 3 })
audio_write_lem_example = audio_write_lem write_args new_port samples 1 (omega arith)

reads_in_order_example : reads (2 ∷ 5 ∷ 1 ∷ []) (in_port new_port samples 1) ≡ some (2 ∷ 3 ∷ 4 ∷ [])
reads_in_order_example =
    reads_in_order (2 ∷ 5 ∷ 1 ∷ []) new_port samples 1
      (omega arith, (omega arith, (omega arith, tt))) (omega arith)

copy_from_start_example :
    audio_copy absent (out_port new_port (0 ∷ 0 ∷ 0 ∷ 0 ∷ []) 2) (in_port new_port samples 1)
    ≡ returned 2 (
      record (out_port new_port (0 ∷ 0 ∷ 0 ∷ 0 ∷ []) 2) {
        buf = some (1 ∷ 2 ∷ 0 ∷ 0 ∷ []);
        bufp = 4;
      },
      in_port new_port samples 3,
    )
copy_from_start_example =
    copy_from_start new_port new_port (0 ∷ 0 ∷ 0 ∷ 0 ∷ []) samples 2 1 (omega arith) (omega arith)

-- Calls on an output port and an input port, with a copy whose count is more than is left.
abbrev script : List (Step ℕ)
script =
    on 0 (get 4 (some samples))
    ∷ on 0 (write write_args)
    ∷ on 0 (seek (integer (pos 3)))
    ∷ on 1 (get 4 (some samples))
    ∷ copy (integer (pos 9)) 0 1
    ∷ on 0 (clear 0 (integer (negsuc 0)))
    ∷ on 0 (write_custom (sample 1 ∷ []))
    ∷ on 0 drop_all
    ∷ on 0 (get 2 (some (6 ∷ 7 ∷ [])))
    ∷ on 1 (read (λ n. true) absent)
    ∷ []

abbrev two_ports : List (Pud (List ℕ))
two_ports = new_port ∷ record new_port { input = true; output = false } ∷ []

calls_stay_inside_example :
    (ps : List (Pud (List ℕ))) × ((calls script two_ports ≡ some ps) × AllValid ps)
calls_stay_inside_example =
    calls_stay_inside script two_ports
      (
        (refl, omega arith),
        (tt, (tt, ((refl, omega arith), (tt, (tt, (tt, (tt, ((refl, omega arith), (tt, tt))))))))),
      )
      (tt, (tt, tt))

-- A MIDI buffer that holds three events.
abbrev event_lists : MidiPort
event_lists = record {
  B = List MidiEvent;
  clear_buffer = λ b. [];
  event_count = λ b. length b;
  lost_event_count = λ b. 0;
  max_event_size = λ b. 64;
  event_get = get_elem?;
  event_reserve = λ b t n.
      if leb 3 (length b) then none else some (λ d. b ++ (record { time = t; buffer = d } ∷ []));
  event_write = λ b e. if leb 3 (length b) then none else some (b ++ (e ∷ []));
}

written_appends :
    (full : Bool) (b c : List MidiEvent) (e : MidiEvent)
    → (if full then none else some (b ++ (e ∷ []))) ≡ some c
    → c ≡ b ++ (e ∷ [])
written_appends true b c e h = cc
written_appends false b c e h = cc

abbrev event_lists-IsMidiPort : IsMidiPort event_lists
event_lists-IsMidiPort = record {
  events = λ b. b;
  get_lem = λ b i. refl;
  write_lem = λ b c e h. written_appends (leb 3 (length b)) b c e h;
}

abbrev note : ℕ → MidiEvent
note n = record { time = n; buffer = n ∷ [] }

abbrev midi_port : Pud (List MidiEvent)
midi_port = record {
  kind = midi;
  input = false;
  output = false;
  in_process = true;
  period = 4;
  buf = none;
  nframes = 0;
  bufp = 0;
}

midi_copy_lem_example :
    (k : ℕ) × (result : List MidiEvent) × ((midi_copy event_lists absent
          (target_port event_lists event_lists-IsMidiPort midi_port (note 0 ∷ []))
          (events_port event_lists event_lists-IsMidiPort midi_port
            (note 1 ∷ note 2 ∷ note 3 ∷ note 4 ∷ [])
            1)
        ≡ returned k (
          target_port event_lists event_lists-IsMidiPort midi_port result,
          events_port event_lists event_lists-IsMidiPort midi_port
              (note 1 ∷ note 2 ∷ note 3 ∷ note 4 ∷ [])
              (1 + k),
        ))
      × Copied event_lists event_lists-IsMidiPort 3 1
          (note 1 ∷ note 2 ∷ note 3 ∷ note 4 ∷ [])
          (note 0 ∷ [])
          k
          result)
midi_copy_lem_example =
    midi_copy_lem event_lists event_lists-IsMidiPort midi_port midi_port (note 0 ∷ [])
      (note 1 ∷ note 2 ∷ note 3 ∷ note 4 ∷ []) 1 (omega arith)
