-- ===== src/Callback/Dispatch/Loop.antt =====
-- The loop of `callback_flush` in src/callback.c: which events it takes, in what order.
use luajack.Prelude.{
  ℕ, zero, suc, ◌+◌, ◌^◌, ◌≤◌, ◌<◌, ◌≡◌, refl, sym, ap, ◌∙◌, true, false, Option, none, some, List,
  [], ◌∷◌, ◌++◌, append-nil, append_assoc, length, drop, arith, mod-eq_of_lt,
}
use luajack.Events.Api.{Simpleq, IsFifo, Pipe, IsPipe, head, tail}
use luajack.Events.{Evt, evt_free, EvtQueue, evt_remove, evt_count}
use luajack.Events.Fifo.{events, remove_lem, free_each, IsValid}
use luajack.Callback.Dispatch.{
  LuaCall, call_args, happen, Turn, Flush, Outcome, returned, raised, state_of, dispatch,
  next_event, go_on, flush_loop, callback_flush,
}
use luajack.Callback.Dispatch.Delivery.{queue-dispatch, IsQuiet, dispatch_quiet}
use luajack.Callback.Dispatch.Arrivals.{arrived, flushed, drop_rest, happen_lem, arrive_lem}

-- The events, with the call that each asks for.
abbrev pub Asks : List Evt → List LuaCall → Type 0
Asks [] [] = Unit {0}
Asks [] (c ∷ cs) = ⊥
Asks (e ∷ es) [] = ⊥
Asks (e ∷ es) (c ∷ cs) = (call_args e.type e ≡ some c) × Asks es cs

-- The calls in the order made, put before those already logged, the latest first.
abbrev pub log : List LuaCall → List LuaCall → List LuaCall
log [] logged = logged
log (c ∷ cs) logged = log cs (c ∷ logged)

module _ (s : Simpleq Evt) (pipe : Pipe) where
  -- The events that the turns from `i` on bring, for `n` turns, and how often a callback_flush within
  -- them takes one.
  abbrev pub arrivals_of : ℕ → (ℕ → Turn s pipe) → ℕ → List Evt
  arrivals_of zero turn i = []
  arrivals_of (suc n) turn i = arrived s pipe (turn i).meanwhile ++ arrivals_of n turn (suc i)

  abbrev pub flushes_of : ℕ → (ℕ → Turn s pipe) → ℕ → ℕ
  flushes_of zero turn i = 0
  flushes_of (suc n) turn i = flushed s pipe (turn i).meanwhile + flushes_of n turn (suc i)

module _ (s : Simpleq Evt) (pipe : Pipe) (fifo : IsFifo s) (isp : IsPipe pipe) where
  abbrev waiting : Flush s pipe → List Evt
  waiting st = events s pipe fifo isp st.queue

  -- After `m` turns, `k` events are taken from the front of those that waited and those that arrived:
  -- one in each turn, and those that a callback_flush within took.
  abbrev Takes : ℕ → (ℕ → Turn s pipe) → ℕ → List Evt → Outcome s pipe → Type 0
  Takes n turn i es out =
      (m : ℕ) × (k : ℕ) × (m ≤ n)
      × (m ≤ k)
      × (k ≤ m + flushes_of s pipe m turn i)
      × (waiting (state_of s pipe out) ≡ drop k (es ++ arrivals_of s pipe m turn i))

  after_turn :
      (n : ℕ) (turn : ℕ → Turn s pipe) (i : ℕ) (es : List Evt) (e : Evt) (out : Outcome s pipe)
      → waiting (state_of s pipe out) ≡ es
      → ((st : Flush s pipe) (new : List Evt)
          → waiting st ≡ new
          → Takes n turn (suc i) new (flush_loop s pipe n turn (suc i) st))
      → Takes
          (suc n)
          turn
          i
          (e ∷ es)
          (go_on s pipe (flush_loop s pipe n turn (suc i)) (turn i).meanwhile out)
  after_turn n turn i es e (returned st) h rest =
      let ms = (turn i).meanwhile in
      let (j, few, short, left) = happen_lem s pipe fifo isp ms es st h in
      let (m, k, le, more, most, r) = rest (happen s pipe ms st) _ left in
      (
        suc m,
        suc (j + k),
        omega arith,
        omega arith,
        omega arith,
        r ∙ drop_rest j k es (arrived s pipe ms) (arrivals_of s pipe m turn (suc i)) short,
      )
  after_turn n turn i es e (raised st) h rest =
      let (j, few, short, left) = happen_lem s pipe fifo isp (turn i).meanwhile es st h in
      (
        1,
        suc j,
        omega arith,
        omega arith,
        omega arith,
        left ∙ ap (λ z. drop j (es ++ z)) (sym (append-nil (arrived s pipe (turn i).meanwhile))),
      )

  take_next :
      (n : ℕ) (turn : ℕ → Turn s pipe) (i : ℕ) (es : List Evt) (st : Flush s pipe)
      (r : Option Evt × EvtQueue s pipe)
      → waiting st ≡ es
      → r.0 ≡ head es
      → events s pipe fifo isp r.1 ≡ tail es
      → ((st : Flush s pipe) (new : List Evt)
          → waiting st ≡ new
          → Takes n turn (suc i) new (flush_loop s pipe n turn (suc i) st))
      → Takes (suc n) turn i es (next_event s pipe (flush_loop s pipe n turn (suc i)) (turn i) r st)
  take_next n turn i es st (none, q) h e0 e1 rest =
      (0, 0, omega arith, omega arith, omega arith, h ∙ sym (append-nil es))
  take_next n turn i [] st (some x, q) h e0 e1 rest = cc
  take_next n turn i (e ∷ es) st (some x, q) h e0 e1 rest =
      after_turn n turn i es e (dispatch s pipe (turn i) x (record st { queue = q }))
        (ap (events s pipe fifo isp) (queue-dispatch s pipe (turn i) x (record st { queue = q }))
          ∙ e1)
        rest

  loop-Takes :
      (n : ℕ) (turn : ℕ → Turn s pipe) (i : ℕ) (st : Flush s pipe) (es : List Evt)
      → waiting st ≡ es
      → Takes n turn i es (flush_loop s pipe n turn i st)
  unfolding flush_loop
  loop-Takes zero turn i st es h =
      (0, 0, omega arith, omega arith, omega arith, h ∙ sym (append-nil es))
  loop-Takes (suc n) turn i st es h =
      let r = remove_lem s pipe fifo isp st.queue in
      take_next n turn i es st (evt_remove s pipe st.queue) h (r.0 ∙ ap head h) (r.1 ∙ ap tail h)
        (λ st2 new h2. loop-Takes n turn (suc i) st2 new h2)

  counts :
      (st : Flush s pipe)
      → IsValid s pipe fifo isp st.queue
      → length (waiting st) < 2 ^ 32
      → evt_count s pipe st.queue ≡ length (waiting st)
  unfolding evt_count
  counts st v small = v.counted ∙ mod-eq_of_lt small

  -- Whatever scripts and other threads do meanwhile, `callback_flush` in the main thread takes at most
  -- as many events as waited when it was called, one in each turn; a callback_flush that a script's
  -- function runs through jack.sleep may take more. All are taken from the front: what is left, also
  -- where a Lua error ends the loop early, is what waited at first and then what arrived in the turns
  -- made, in order, without as many of the oldest as were taken.
  pub flush_takes :
      (turn : ℕ → Turn s pipe) (st : Flush s pipe)
      → IsValid s pipe fifo isp st.queue
      → length (waiting st) < 2 ^ 32
      → (out : Outcome s pipe) × (callback_flush s pipe true false turn st ≡ some out)
        × ((m : ℕ) × (k : ℕ) × (m ≤ length (waiting st))
            × (m ≤ k)
            × (k ≤ m + flushes_of s pipe m turn 0)
            × (waiting (state_of s pipe out) ≡ drop k (waiting st ++ arrivals_of s pipe m turn 0)))
  unfolding callback_flush
  flush_takes turn st v small = (
    flush_loop s pipe (evt_count s pipe st.queue) turn 0 st,
    refl,
    rw (counts st v small) (loop-Takes (length (waiting st)) turn 0 st (waiting st) refl),
  )

  abbrev Delivers :
      List Evt
      → List Evt
      → List LuaCall
      → (ℕ → Turn s pipe)
      → ℕ
      → Flush s pipe
      → Outcome s pipe
      → Type 0
  Delivers es rest cs turn i st out =
      (st' : Flush s pipe) × (out ≡ returned st')
      × (waiting st' ≡ rest ++ arrivals_of s pipe (length es) turn i)
      × (st'.freed ≡ free_each es st.freed)
      × (st'.calls ≡ log cs st.calls)

  loop-Delivers :
      (es rest : List Evt) (cs : List LuaCall) (turn : ℕ → Turn s pipe) (i : ℕ) (st : Flush s pipe)
      → ((n : ℕ) → IsQuiet s pipe (turn n))
      → Asks es cs
      → waiting st ≡ es ++ rest
      → Delivers es rest cs turn i st (flush_loop s pipe (length es) turn i st)
  unfolding flush_loop free_each
  loop-Delivers [] rest [] turn i st quiet asks h =
      (st, refl, h ∙ sym (append-nil rest), refl, refl)
  loop-Delivers [] rest (c ∷ cs) turn i st quiet asks h = elim asks [ ]
  loop-Delivers (e ∷ es) rest [] turn i st quiet asks h = elim asks [ ]
  loop-Delivers (e ∷ es) rest (c ∷ cs) turn i st quiet asks h =
      let q = evt_remove s pipe st.queue in
      let r = remove_lem s pipe fifo isp st.queue in
      let ms = (turn i).meanwhile in
      let new = arrived s pipe ms in
      let go_on_with : Flush s pipe → Outcome s pipe = flush_loop s pipe (length es) turn (suc i) in
      let st2 : Flush s pipe = record {
        queue = q.1;
        freed = evt_free e st.freed;
        calls = c ∷ st.calls;
      } in
      let step : next_event s pipe go_on_with (turn i) q st ≡ go_on_with (happen s pipe ms st2) =
        ap (λ z. next_event s pipe go_on_with (turn i) (z, q.1) st) (r.0 ∙ ap head h)
        ∙ ap (go_on s pipe go_on_with ms)
            (dispatch_quiet s pipe (turn i) e (record st { queue = q.1 }) c (quiet i) asks.0) in
      let a = arrive_lem s pipe fifo isp ms st2 (quiet i).alone in
      let left : waiting (happen s pipe ms st2) ≡ es ++ (rest ++ new) =
        a.0 ∙ ap (λ z. z ++ new) (r.1 ∙ ap tail h) ∙ append_assoc es rest new in
      let (st', out, w, f, l) =
        loop-Delivers es (rest ++ new) cs turn (suc i) (happen s pipe ms st2) quiet asks.1 left in
      (
        st',
        step ∙ out,
        w ∙ append_assoc rest new (arrivals_of s pipe (length es) turn (suc i)),
        f ∙ ap (free_each es) a.1,
        l ∙ ap (log cs) a.2,
      )

  -- Where the clients are open, the process is not exiting, no call fails and no function of a script
  -- calls jack.sleep, `callback_flush` makes the call that each waiting event asks for, in the order of the events; it frees each event once,
  -- and what is left in the queue are the events that arrived meanwhile, in order.
  pub flush_delivers :
      (turn : ℕ → Turn s pipe) (cs : List LuaCall) (st : Flush s pipe)
      → IsValid s pipe fifo isp st.queue
      → length (waiting st) < 2 ^ 32
      → ((n : ℕ) → IsQuiet s pipe (turn n))
      → Asks (waiting st) cs
      → (st' : Flush s pipe) × (callback_flush s pipe true false turn st ≡ some (returned st'))
        × (waiting st' ≡ arrivals_of s pipe (length (waiting st)) turn 0)
        × (st'.freed ≡ free_each (waiting st) st.freed)
        × (st'.calls ≡ log cs st.calls)
  unfolding callback_flush
  flush_delivers turn cs st v small quiet asks =
      let (st', out, w, f, l) =
        loop-Delivers (waiting st) [] cs turn 0 st quiet asks (sym (append-nil (waiting st))) in
      (
        st',
        ap (λ n. some (flush_loop s pipe n turn 0 st)) (counts st v small) ∙ ap some out,
        w,
        f,
        l,
      )
