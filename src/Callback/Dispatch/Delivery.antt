-- ===== src/Callback/Dispatch/Delivery.antt =====
-- What `callback_flush` of src/callback.c does with the events that wait.
use luajack.Prelude.{
  List, [], ◌∷◌, ◌≡◌, ◌≢◌, refl, ap, ◌∙◌, inl, inr, true, false, Option, none, some, Bool-cases,
  if_both,
}
use luajack.Objects.{Cud}
use luajack.Events.Api.{Simpleq, Pipe}
use luajack.Events.{Evt, EvtType, unset, ct_session, ct_sample_rate, evt_free}
use luajack.Callback.Dispatch.{
  LuaCall, call_args, Meanwhile, arrives, flushes, Turn, Flush, Outcome, returned, raised, state_of,
  dispatch, lua_function, switch, free_after, reply, exec, is_valid,
}

module _ (s : Simpleq Evt) (pipe : Pipe) where
  reply_accepted :
      (type : EvtType) (turn : Turn s pipe) (out : Outcome s pipe)
      → turn.reply_ok ≡ true
      → reply s pipe type turn out ≡ out
  reply_accepted ct_session turn (returned st) h = rw h refl
  reply_accepted ct_session turn (raised st) h = refl
  reply_accepted _ turn out h = refl

  -- The function and the evt_free after it.
  called_frees_once :
      (type : EvtType) (turn : Turn s pipe) (evt : Evt) (st : Flush s pipe) (call : LuaCall)
      → turn.exiting ≡ false
      → turn.reply_ok ≡ true
      → call_args type evt ≡ some call
      → (state_of s pipe (free_after s pipe evt (lua_function s pipe type turn evt st))).freed
        ≡ evt_free evt st.freed
  unfolding lua_function
  called_frees_once type turn evt st call live replied args =
      rw (args, reply_accepted type turn (exec s pipe turn evt (some call) st) replied, live)
        (elim (Bool-cases turn.is_function) [
          | inl f ↦ rw f (elim (Bool-cases turn.call_ok) [ inl c ↦ rw c refl | inr c ↦ rw c refl ])
          | inr f ↦ rw f refl
        ])

  switch_frees_once :
      (turn : Turn s pipe) (type : EvtType) (evt : Evt) (st : Flush s pipe) (call : LuaCall)
      → turn.exiting ≡ false
      → turn.reply_ok ≡ true
      → call_args type evt ≡ some call
      → (state_of s pipe (switch s pipe type turn evt st)).freed ≡ evt_free evt st.freed
  unfolding lua_function
  switch_frees_once turn unset evt st call live replied args = refl
  switch_frees_once turn ct_sample_rate evt st call live replied args =
      called_frees_once ct_sample_rate turn evt st call live replied args
  switch_frees_once turn type evt st call live replied args =
      called_frees_once type turn evt st call live replied args

  switch_exiting :
      (type : EvtType) (turn : Turn s pipe) (evt : Evt) (st : Flush s pipe)
      → turn.exiting ≡ true
      → type ≢ unset
      → switch s pipe type turn evt st
        ≡ returned (record st { freed = evt_free evt (evt_free evt st.freed) })
  unfolding lua_function
  switch_exiting unset turn evt st ex typed = absurd (typed refl)
  switch_exiting ct_sample_rate turn evt st ex typed = rw ex refl
  switch_exiting _ turn evt st ex typed = rw ex refl

  -- An event that is dispatched while the process is not exiting, whose arguments can be pushed and
  -- whose results are accepted, is freed exactly once: whether its client is gone, its callback is no
  -- function, or the call returns or raises an error.
  pub dispatch_frees_once :
      (turn : Turn s pipe) (evt : Evt) (st : Flush s pipe) (call : LuaCall)
      → turn.exiting ≡ false
      → turn.reply_ok ≡ true
      → call_args evt.type evt ≡ some call
      → (state_of s pipe (dispatch s pipe turn evt st)).freed ≡ evt_free evt st.freed
  unfolding dispatch
  dispatch_frees_once turn evt st call live replied args =
      elim (Bool-cases (is_valid s pipe turn.client)) [
        | inl valid ↦ rw valid (switch_frees_once turn evt.type evt st call live replied args)
        | inr gone ↦ rw gone refl
      ]

  -- When the process starts exiting while events are dispatched, the event of a valid client is freed
  -- twice: once by the BEGIN of its `Lua_...` function, and again after the switch.
  pub dispatch_exiting :
      (turn : Turn s pipe) (evt : Evt) (st : Flush s pipe) (cud : Cud)
      → turn.client ≡ some cud
      → cud.marks.valid ≡ true
      → turn.exiting ≡ true
      → evt.type ≢ unset
      → dispatch s pipe turn evt st
        ≡ returned (record st { freed = evt_free evt (evt_free evt st.freed) })
  unfolding dispatch
  dispatch_exiting turn evt st cud found valid ex typed =
      let there : is_valid s pipe turn.client ≡ true = ap (is_valid s pipe) found ∙ valid in
      rw there (switch_exiting evt.type turn evt st ex typed)

  -- The dispatch of one event touches no other: the queue is as it was.
  queue-reply :
      (type : EvtType) (turn : Turn s pipe) (out : Outcome s pipe)
      → (state_of s pipe (reply s pipe type turn out)).queue ≡ (state_of s pipe out).queue
  queue-reply ct_session turn (returned st) = elim (Bool-cases turn.reply_ok) [
    | inl r ↦ rw r refl
    | inr r ↦ rw r refl
  ]
  queue-reply ct_session turn (raised st) = refl
  queue-reply _ turn out = refl

  queue-exec :
      (turn : Turn s pipe) (evt : Evt) (call : Option LuaCall) (st : Flush s pipe)
      → (state_of s pipe (exec s pipe turn evt call st)).queue ≡ st.queue
  queue-exec turn evt none st = refl
  queue-exec turn evt (some call) st = elim (Bool-cases turn.call_ok) [
    | inl c ↦ rw c refl
    | inr c ↦ rw c refl
  ]

  queue-lua_function :
      (type : EvtType) (turn : Turn s pipe) (evt : Evt) (st : Flush s pipe)
      → (state_of s pipe (lua_function s pipe type turn evt st)).queue ≡ st.queue
  unfolding lua_function
  queue-lua_function type turn evt st =
      if_both (λ o. (state_of s pipe o).queue ≡ st.queue) turn.exiting refl
        (if_both (λ o. (state_of s pipe o).queue ≡ st.queue) turn.is_function
          (queue-reply type turn (exec s pipe turn evt (call_args type evt) st)
            ∙ queue-exec turn evt (call_args type evt) st)
          refl)

  queue-free_after :
      (evt : Evt) (out : Outcome s pipe)
      → (state_of s pipe (free_after s pipe evt out)).queue ≡ (state_of s pipe out).queue
  queue-free_after evt (returned st) = refl
  queue-free_after evt (raised st) = refl

  queue-switch :
      (type : EvtType) (turn : Turn s pipe) (evt : Evt) (st : Flush s pipe)
      → (state_of s pipe (switch s pipe type turn evt st)).queue ≡ st.queue
  queue-switch unset turn evt st = refl
  queue-switch ct_sample_rate turn evt st =
      queue-free_after evt (lua_function s pipe ct_sample_rate turn evt st)
      ∙ queue-lua_function ct_sample_rate turn evt st
  queue-switch type turn evt st =
      queue-free_after evt (lua_function s pipe type turn evt st)
      ∙ queue-lua_function type turn evt st

  pub queue-dispatch :
      (turn : Turn s pipe) (evt : Evt) (st : Flush s pipe)
      → (state_of s pipe (dispatch s pipe turn evt st)).queue ≡ st.queue
  unfolding dispatch
  queue-dispatch turn evt st = elim (Bool-cases (is_valid s pipe turn.client)) [
    | inl valid ↦ rw valid (queue-switch evt.type turn evt st)
    | inr gone ↦ rw gone refl
  ]

  -- Nothing is taken from the queue by a callback_flush within a script's function.
  abbrev pub NoFlush : List (Meanwhile s pipe) → Type 0
  NoFlush [] = Unit
  NoFlush (arrives e ∷ ms) = NoFlush ms
  NoFlush (flushes ∷ ms) = ⊥

  -- A turn in which nothing goes wrong, and whose function does not call jack.sleep.
  pub record IsQuiet (turn : Turn s pipe) : Type 0 where
    pub valid : is_valid s pipe turn.client ≡ true
    pub live : turn.exiting ≡ false
    pub function : turn.is_function ≡ true
    pub call : turn.call_ok ≡ true
    pub reply : turn.reply_ok ≡ true
    pub alone : NoFlush turn.meanwhile

  lua_function_quiet :
      (type : EvtType) (turn : Turn s pipe) (evt : Evt) (st : Flush s pipe) (call : LuaCall)
      → IsQuiet turn
      → call_args type evt ≡ some call
      → lua_function s pipe type turn evt st ≡ returned (record st { calls = call ∷ st.calls })
  unfolding lua_function
  lua_function_quiet type turn evt st call q args =
      rw (args, reply_accepted type turn (exec s pipe turn evt (some call) st) q.reply)
        (rw q.live (rw q.function (rw q.call refl)))

  switch_quiet :
      (type : EvtType) (turn : Turn s pipe) (evt : Evt) (st : Flush s pipe) (call : LuaCall)
      → IsQuiet turn
      → call_args type evt ≡ some call
      → switch s pipe type turn evt st
        ≡ returned (record st { calls = call ∷ st.calls; freed = evt_free evt st.freed })
  unfolding call_args
  switch_quiet unset turn evt st call q args = cc
  switch_quiet ct_sample_rate turn evt st call q args =
      ap (free_after s pipe evt) (lua_function_quiet ct_sample_rate turn evt st call q args)
  switch_quiet type turn evt st call q args =
      ap (free_after s pipe evt) (lua_function_quiet type turn evt st call q args)

  pub dispatch_quiet :
      (turn : Turn s pipe) (evt : Evt) (st : Flush s pipe) (call : LuaCall)
      → IsQuiet turn
      → call_args evt.type evt ≡ some call
      → dispatch s pipe turn evt st
        ≡ returned (record st { calls = call ∷ st.calls; freed = evt_free evt st.freed })
  unfolding dispatch
  dispatch_quiet turn evt st call q args =
      rw q.valid (switch_quiet evt.type turn evt st call q args)
