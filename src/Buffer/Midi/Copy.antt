-- ===== src/Buffer/Midi/Copy.antt =====
-- MidiCopy of src/buffer.c: which events arrive in the target.
use luajack.Prelude.{
  ℕ, zero, suc, ◌+◌, ◌-◌, ◌≤◌, ◌<◌, ◌≡◌, refl, sym, ap, ap₂, ◌∙◌, true, none, some, List, [], ◌∷◌,
  ◌++◌, length, take, drop, get_elem?, ◌⊎◌, inl, inr, arith, le→leb, ne→==, Option-cases,
  append-nil, append_assoc,
}
use luajack.Buffer.{Pud, Outcome, returned, absent, midi, smaller}
use luajack.Buffer.Memory.{sample_at}
use luajack.Buffer.Midi.{MidiEvent, MidiPort, copy_events, midi_copy}

module _ (m : MidiPort) where
  open m use {B, event_get, event_write}

  -- jack/midiport.h: the events of a buffer are numbered in order, and a write appends one.
  pub record IsMidiPort : Type 0 where
    pub events : B → List MidiEvent
    pub get_lem : (b : B) (i : ℕ) → event_get b i ≡ get_elem? (events b) i
    pub write_lem :
        (b c : B) (e : MidiEvent) → event_write b e ≡ some c → events c ≡ events b ++ (e ∷ [])

module _ (m : MidiPort) (doc : IsMidiPort m) where
  open m use {B, event_get, event_write}
  open doc use {events, get_lem, write_lem}

  -- All `n` events from the position `at` on were copied, or the target refused the next one.
  pub record Copied (n at : ℕ) (source target : B) (k : ℕ) (result : B) : Type 0 where
    pub within : k ≤ n
    pub arrived : events result ≡ events target ++ take k (drop at (events source))
    pub stopped :
        (k ≡ n)
        ⊎ ((e : MidiEvent) × ((get_elem? (events source) (at + k) ≡ some e)
              × (event_write result e ≡ none)))

  abbrev Result : ℕ → ℕ → B → B → ℕ → ℕ × (B × ℕ) → Type 0
  Result n at source target i r =
      (k : ℕ) × ((r.0 ≡ i + k) × ((r.1.1 ≡ at + k) × Copied n at source target k r.1.0))

  nothing_copied :
      (n at : ℕ) (source target : B) (i : ℕ) (e : MidiEvent)
      → get_elem? (events source) at ≡ some e
      → event_write target e ≡ none
      → Result (suc n) at source target i (i, (target, at))
  nothing_copied n at source target i e found refused = (
    0,
    (
      omega arith,
      (
        omega arith,
        record {
          within = omega arith;
          arrived = sym (append-nil (events target));
          stopped = inr (
            e,
            (
              ap (get_elem? (events source)) (let z : at + 0 ≡ at = omega arith in z) ∙ found,
              refused,
            ),
          );
        },
      ),
    ),
  )

  one_more :
      (n at : ℕ) (source target next : B) (i : ℕ) (e : MidiEvent) (r : ℕ × (B × ℕ))
      → drop at (events source) ≡ e ∷ drop (suc at) (events source)
      → events next ≡ events target ++ (e ∷ [])
      → Result n (suc at) source next (suc i) r
      → Result (suc n) at source target i r
  one_more n at source target next i e r front appended (k, (count, (pos, copied))) = (
    suc k,
    (
      omega arith,
      (
        omega arith,
        record {
          within = omega (arith, copied.within);
          arrived =
              copied.arrived
              ∙ rw
                  (
                    appended,
                    front,
                    append_assoc (events target) (e ∷ []) (take k (drop (suc at) (events source))),
                  )
                  refl;
          stopped = elim copied.stopped [
            | inl all ↦ inl (ap suc all)
            | inr (f, (found, refused)) ↦ inr (
              f,
              (
                ap (get_elem? (events source)) (let z : at + suc k ≡ suc at + k = omega arith in z)
                    ∙ found,
                refused,
              ),
            )
          ];
        },
      ),
    ),
  )

  copy_events_lem :
      (n at : ℕ) (source target : B) (i : ℕ)
      → at + n ≤ length (events source)
      → Result n at source target i (copy_events m n source target at i)
  unfolding copy_events
  copy_events_lem zero at source target i h = (
    0,
    (
      omega arith,
      (
        omega arith,
        record {
          within = omega arith;
          arrived = sym (append-nil (events target));
          stopped = inl refl;
        },
      ),
    ),
  )
  copy_events_lem (suc n) at source target i h =
      let (e, (found, front)) = sample_at (events source) at (omega arith) in
      rw (get_lem source at, found)
        (elim (Option-cases (event_write target e)) [
          | inl refused ↦ rw refused (nothing_copied n at source target i e found refused)
          | inr (next, ok) ↦ rw ok (
              one_more n at source target next i e _ front (write_lem target next e ok)
                (copy_events_lem n (suc at) source next (suc i) (omega arith)))
        ])

  -- A MIDI input port with the buffer `b` at the event `at`.
  abbrev pub events_port : Pud B → B → ℕ → Pud B
  events_port pud b at = record pud {
    kind = midi;
    input = true;
    buf = some b;
    nframes = length (events b);
    bufp = at;
  }

  abbrev pub target_port : Pud B → B → Pud B
  target_port pud b = record pud { output = true; buf = some b }

  abbrev returned_copy : ℕ → Pud B → B → Pud B → B → ℕ → Outcome (Pud B × Pud B) ℕ
  returned_copy n target result source c p =
      returned n (target_port target result, events_port source c p)

  copied_to :
      (target source : Pud B) (c result : B) (n k p q : ℕ)
      → n ≡ k
      → p ≡ q
      → returned_copy n target result source c p ≡ returned_copy k target result source c q
  copied_to target source c result n k p q e f =
      ap₂ (λ i j. returned_copy i target result source c j) e f

  smaller_same : (a : ℕ) → smaller a a ≡ a
  smaller_same a = ground arith

  -- `copy` without a count, from a MIDI input port with events left to an output port, appends the
  -- source's events from its position on to the target's, moves the position by their number and
  -- returns it; it stops before all are copied only where JACK refuses to write the next one.
  pub midi_copy_lem :
      (target source : Pud B) (b c : B) (at : ℕ)
      → at < length (events c)
      → (k : ℕ) × (result : B) × ((midi_copy m absent
              (target_port target b)
              (events_port source c at)
            ≡ returned k (target_port target result, events_port source c (at + k)))
          × Copied (length (events c) - at) at c b k result)
  unfolding midi_copy
  midi_copy_lem target source b c at h =
      let left = length (events c) - at in
      let (k, (count, (pos, copied))) = copy_events_lem left at c b 0 (omega arith) in
      (
        k,
        (copy_events m left c b at 0).1.0,
        (
          rw
              (
                le→leb at (length (events c)) (omega arith),
                ne→== left 0 (omega arith),
                smaller_same left,
              )
              (copied_to target source c (copy_events m left c b at 0).1.0 _ _ _ _
                (omega (arith, count)) pos),
          copied,
        ),
      )
