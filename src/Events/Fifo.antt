-- ===== src/Events/Fifo.antt =====
-- The event queue of src/evt.c is first-in first-out, its counter tells its length, and the pipe
-- holds a byte for each event.
use luajack.Prelude.{
  ℕ, suc, zero, none, Option, sym, ◌%◌, ◌^◌, ◌<◌, ◌≡◌, refl, ap, ◌∙◌, some, List, [], ◌∷◌, ◌++◌,
  length, length-append, arith,
}
use luajack.Events.{
  Evt, Block, evt_block, session_block, string_block, free_session, free_string, evt_free, EvtQueue,
  evt_insert, evt_remove, remove_nolock, remove_first, evt_free_all, syncpipe_write, syncpipe_read,
}
use luajack.Events.Api.{Simpleq, IsFifo, head, tail, Pipe, IsPipe, count}

-- What evt_free does over a list of events, the first one first.
unfoldable pub free_each : List Evt → List Block → List Block
free_each [] freed = freed
free_each (e ∷ es) freed = free_each es (evt_free e freed)

-- The blocks that an event stands for: its strings, its session event, and itself.
abbrev strings : Option (List ℕ) → List Block
strings none = []
strings (some t) = string_block t ∷ []

abbrev sessions : Option ℕ → List Block
sessions none = []
sessions (some a) = session_block a ∷ []

abbrev pub blocks : Evt → List Block
blocks e =
    strings e.arg1 ++ (strings e.arg2 ++ (sessions e.session_event ++ (evt_block e.addr ∷ [])))

abbrev pub all_blocks : List Evt → List Block
all_blocks [] = []
all_blocks (e ∷ es) = blocks e ++ all_blocks es

-- The blocks of a list taken back one after the other.
abbrev pub release_each : List Block → List Block → List Block
release_each [] freed = freed
release_each (b ∷ bs) freed = release_each bs (b ∷ freed)

release_each-append :
    (cs bs freed : List Block)
    → release_each (cs ++ bs) freed ≡ release_each bs (release_each cs freed)
release_each-append [] bs freed = refl
release_each-append (c ∷ cs) bs freed = release_each-append cs bs (c ∷ freed)

parts-release :
    (u v : Option (List ℕ)) (w : Option ℕ) (a : ℕ) (freed : List Block)
    → evt_block a ∷ free_session w (free_string v (free_string u freed))
      ≡ release_each (strings u ++ (strings v ++ (sessions w ++ (evt_block a ∷ [])))) freed
parts-release none none none a freed = refl
parts-release none none (some c) a freed = refl
parts-release none (some t) none a freed = refl
parts-release none (some t) (some c) a freed = refl
parts-release (some t) none none a freed = refl
parts-release (some t) none (some c) a freed = refl
parts-release (some t) (some u) none a freed = refl
parts-release (some t) (some u) (some c) a freed = refl

-- `evt_free` frees the blocks of its event.
pub free-blocks : (e : Evt) (freed : List Block) → evt_free e freed ≡ release_each (blocks e) freed
unfolding evt_free
free-blocks e freed = parts-release e.arg1 e.arg2 e.session_event e.addr freed

pub free_each-blocks :
    (es : List Evt) (freed : List Block) → free_each es freed ≡ release_each (all_blocks es) freed
unfolding free_each
free_each-blocks [] freed = refl
free_each-blocks (e ∷ es) freed =
    rw (free-blocks e freed, free_each-blocks es (release_each (blocks e) freed))
      (sym (release_each-append (blocks e) (all_blocks es) freed))

module _ (s : Simpleq Evt) (pipe : Pipe) (fifo : IsFifo s) (isp : IsPipe pipe) where
  open fifo use {items}
  open isp use {pending}

  abbrev pub events : EvtQueue s pipe → List Evt
  events q = items q.head

  pub record IsValid (q : EvtQueue s pipe) : Type 0 where
    pub counted : q.counter ≡ length (events q) % 2 ^ 32
    pub in_step : pending q.evtpipe ≡ length (events q)

  -- An event goes to the end of the queue, and the counter, an unsigned int, goes up by one.
  pub insert-events :
      (e : Evt) (q : EvtQueue s pipe) → events (evt_insert s pipe e q) ≡ events q ++ (e ∷ [])
  unfolding evt_insert
  insert-events e q = fifo.insert_lem q.head e

  remove_first_lem :
      (q : EvtQueue s pipe) (es : List Evt)
      → events q ≡ es
      → let r = remove_first s pipe (head es) q in (r.0 ≡ head es) × (events r.1 ≡ tail es)
  remove_first_lem q [] h = (refl, h)
  remove_first_lem q (e ∷ es) h = (refl, fifo.remove_lem q.head ∙ ap tail h)

  -- `evt_remove` returns the oldest event and leaves the others; NULL, and nothing else, when there
  -- is none.
  pub remove_lem :
      (q : EvtQueue s pipe)
      → let r = evt_remove s pipe q in (r.0 ≡ head (events q)) × (events r.1 ≡ tail (events q))
  unfolding evt_remove remove_nolock
  remove_lem q = rw (fifo.first_lem q.head) (remove_first_lem q (events q) refl)

  -- A queue whose counter is its length modulo 2^32, with a byte in the pipe for each event, stays so
  -- under `evt_insert`, if the byte for the new event went into the pipe.
  pub insert-IsValid :
      (e : Evt) (q : EvtQueue s pipe)
      → IsValid q
      → (pipe.write q.evtpipe).0 ≡ count 1
      → IsValid (evt_insert s pipe e q)
  unfolding evt_insert syncpipe_write
  insert-IsValid e q v w = record {
    counted =
        omega (arith, v.counted, ap length (insert-events e q), length-append (events q) (e ∷ []));
    in_step = omega (
      arith,
      v.in_step,
      isp.write_one q.evtpipe w,
      ap length (insert-events e q),
      length-append (events q) (e ∷ []),
    );
  }

  remove_first-IsValid :
      (q : EvtQueue s pipe) (es : List Evt)
      → events q ≡ es
      → IsValid q
      → length (events q) < 2 ^ 32
      → IsValid (remove_first s pipe (head es) q).1
  unfolding syncpipe_read
  remove_first-IsValid q [] h v small = v
  remove_first-IsValid q (e ∷ es) h v small =
      let shorter : length (items (s.remove_head q.head)) ≡ length es =
        ap length (fifo.remove_lem q.head ∙ ap tail h) in
      let was : length (events q) ≡ suc (length es) = ap length h in
      let r = isp.read_one q.evtpipe (omega (arith, v.in_step)) in
      record { counted = omega (arith, v.counted); in_step = omega (arith, v.in_step, r.1) }

  -- A queue of fewer than 2^32 events, whose counter is its length, with a byte in the pipe for each
  -- event, stays so under `evt_remove`.
  pub remove-IsValid :
      (q : EvtQueue s pipe)
      → IsValid q
      → length (events q) < 2 ^ 32
      → IsValid (evt_remove s pipe q).1
  unfolding evt_remove remove_nolock
  remove-IsValid q v small =
      rw (fifo.first_lem q.head) (remove_first-IsValid q (events q) refl v small)

  removed :
      (q : EvtQueue s pipe) (es : List Evt)
      → events q ≡ es
      → remove_nolock s pipe q ≡ remove_first s pipe (head es) q
  unfolding remove_nolock
  removed q es h = rw (fifo.first_lem q.head, h) refl

  free_all-go :
      (fuel : ℕ) (es : List Evt) (q : EvtQueue s pipe) (freed : List Block)
      → events q ≡ es
      → length es < fuel
      → (q' : EvtQueue s pipe) × (evt_free_all s pipe fuel q freed ≡ some (q', free_each es freed))
        × (events q' ≡ [])
  unfolding evt_free_all free_each
  free_all-go zero es q freed h lt = elim lt [ ]
  free_all-go (suc fuel) [] q freed h lt = (q, rw (removed q [] h) refl, h)
  free_all-go (suc fuel) (e ∷ es) q freed h lt =
      let rest =
        free_all-go fuel es (remove_first s pipe (some e) q).1 (evt_free e freed)
          (fifo.remove_lem q.head ∙ ap tail h) (omega arith) in
      (rest.0, rw (removed q (e ∷ es) h) rest.1, rest.2)

  -- With fuel above the number of events, the loop of `evt_free_all` ends with an empty queue, and what it has
  -- freed is, of each event from the oldest on, its two strings if it has them, its session event if
  -- it has one, and its own block, each once and nothing else.
  pub free_all_lem :
      (fuel : ℕ) (q : EvtQueue s pipe) (freed : List Block)
      → length (events q) < fuel
      → (q' : EvtQueue s pipe) × (evt_free_all s pipe fuel q freed
          ≡ some (q', release_each (all_blocks (events q)) freed))
        × (events q' ≡ [])
  free_all_lem fuel q freed lt =
      let r = free_all-go fuel (events q) q freed refl lt in
      (r.0, r.1 ∙ ap (λ z. some (r.0, z)) (free_each-blocks (events q) freed), r.2)
