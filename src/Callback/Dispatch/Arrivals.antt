-- ===== src/Callback/Dispatch/Arrivals.antt =====
-- What happens to the queue of src/evt.c while an event is dispatched by `callback_flush` of src/callback.c.
use luajack.Prelude.{
  ℕ, suc, ◌+◌, ◌≤◌, ◌≡◌, refl, sym, ap, ◌∙◌, Option, none, some, List, [], ◌∷◌, ◌++◌, append-nil,
  append_assoc, length, drop, drop-append_le, drop-drop, arith,
}
use luajack.Events.Api.{Simpleq, IsFifo, Pipe, IsPipe, tail}
use luajack.Events.{Evt, EvtQueue, evt_insert, evt_remove}
use luajack.Events.Fifo.{events, insert-events, remove_lem}
use luajack.Callback.Dispatch.{Meanwhile, arrives, flushes, take_one, happen, Flush}
use luajack.Callback.Dispatch.Delivery.{NoFlush}

module _ (s : Simpleq Evt) (pipe : Pipe) where
  abbrev pub arrived : List (Meanwhile s pipe) → List Evt
  arrived [] = []
  arrived (arrives e ∷ ms) = e ∷ arrived ms
  arrived (flushes ∷ ms) = arrived ms

  abbrev pub flushed : List (Meanwhile s pipe) → ℕ
  flushed [] = 0
  flushed (arrives e ∷ ms) = flushed ms
  flushed (flushes ∷ ms) = suc (flushed ms)

pub drop_rest :
    (j k : ℕ) (es new rest : List Evt)
    → j ≤ length (es ++ new)
    → drop k (drop j (es ++ new) ++ rest) ≡ drop (j + k) (es ++ (new ++ rest))
drop_rest j k es new rest h =
    ap (drop k) (sym (drop-append_le j (es ++ new) rest h))
    ∙ (drop-drop j k ((es ++ new) ++ rest) ∙ ap (drop (j + k)) (append_assoc es new rest))

module _ (s : Simpleq Evt) (pipe : Pipe) (fifo : IsFifo s) (isp : IsPipe pipe) where
  abbrev waiting : Flush s pipe → List Evt
  waiting st = events s pipe fifo isp st.queue

  take_one_waiting :
      (r : Option Evt × EvtQueue s pipe) (st : Flush s pipe)
      → waiting (take_one s pipe r st) ≡ events s pipe fifo isp r.1
  take_one_waiting (none, q) st = refl
  take_one_waiting (some e, q) st = refl

  -- Some of the events are taken from the front of those that waited and those that arrived.
  abbrev pub Happens : List (Meanwhile s pipe) → List Evt → List Evt → Type 0
  Happens ms es left =
      (j : ℕ) × (j ≤ flushed s pipe ms)
      × (j ≤ length (es ++ arrived s pipe ms))
      × (left ≡ drop j (es ++ arrived s pipe ms))

  pub happen_lem :
      (ms : List (Meanwhile s pipe)) (es : List Evt) (st : Flush s pipe)
      → waiting st ≡ es
      → Happens ms es (waiting (happen s pipe ms st))
  unfolding happen
  happen_lem [] es st h = (0, omega arith, omega arith, h ∙ sym (append-nil es))
  happen_lem (arrives e ∷ ms) es st h =
      let (j, few, short, left) =
        happen_lem ms (es ++ (e ∷ [])) (record st { queue = evt_insert s pipe e st.queue })
          (insert-events s pipe fifo isp e st.queue ∙ ap (λ z. z ++ (e ∷ [])) h) in
      let same = append_assoc es (e ∷ []) (arrived s pipe ms) in
      (j, few, omega (arith, ap length same), left ∙ ap (drop j) same)
  happen_lem (flushes ∷ ms) [] st h =
      let r = remove_lem s pipe fifo isp st.queue in
      let (j, few, short, left) =
        happen_lem ms [] (take_one s pipe (evt_remove s pipe st.queue) st)
          (take_one_waiting (evt_remove s pipe st.queue) st ∙ (r.1 ∙ ap tail h)) in
      (j, omega arith, short, left)
  happen_lem (flushes ∷ ms) (e ∷ es) st h =
      let r = remove_lem s pipe fifo isp st.queue in
      let (j, few, short, left) =
        happen_lem ms es (take_one s pipe (evt_remove s pipe st.queue) st)
          (take_one_waiting (evt_remove s pipe st.queue) st ∙ (r.1 ∙ ap tail h)) in
      (suc j, omega arith, omega arith, left)

  pub arrive_lem :
      (ms : List (Meanwhile s pipe)) (st : Flush s pipe)
      → NoFlush s pipe ms
      → (waiting (happen s pipe ms st) ≡ waiting st ++ arrived s pipe ms)
        × ((happen s pipe ms st).freed ≡ st.freed)
        × ((happen s pipe ms st).calls ≡ st.calls)
  unfolding happen
  arrive_lem [] st alone = (sym (append-nil (waiting st)), refl, refl)
  arrive_lem (arrives e ∷ ms) st alone =
      let a = arrive_lem ms (record st { queue = evt_insert s pipe e st.queue }) alone in
      (
        a.0
            ∙ ap (λ z. z ++ arrived s pipe ms) (insert-events s pipe fifo isp e st.queue)
            ∙ append_assoc (waiting st) (e ∷ []) (arrived s pipe ms),
        a.1,
        a.2,
      )
  arrive_lem (flushes ∷ ms) st alone = elim alone [ ]
