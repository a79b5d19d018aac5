-- ===== src/Buffer/Session.antt =====
-- Any sequence of calls of src/buffer.c on the audio and custom ports of a client, over its periods.
use luajack.Prelude.{
  zero, suc, get_elem?, subst, some_inj, ℕ, ◌≡◌, refl, Bool, Option, none, some, List, [], ◌∷◌,
}
use luajack.Buffer.{
  Pud, Outcome, returned, raised, overrun, IntArg, audio_copy, audio_write, audio_clear, audio_read,
  audio_seek, get_buffer, buffer_drop,
}
use luajack.Buffer.Custom.{CustomArg, custom_read, custom_write}
use luajack.Buffer.Copying.{BothSafe, audio_copy-BothSafe}
use luajack.Buffer.Safety.{
  Fits, IsValid, Safe, audio_write-Safe, audio_clear-Safe, audio_read-Safe, custom_read-Safe,
  audio_seek-Safe, custom_write-Safe, get_buffer-Safe,
}

-- A call with its arguments. `get` has the period's number of frames and what jack_port_get_buffer
-- gives; `drop_all` is the end of the process callback.
pub data Call (S : Type 0) : Type 0 where
  get : ℕ → Option (List S) → Call S
  write : List (Option S) → Call S
  write_custom : List (CustomArg S) → Call S
  clear : S → IntArg → Call S
  read : (ℕ → Bool) → IntArg → Call S
  read_custom : (ℕ → Bool) → IntArg → Call S
  seek : IntArg → Call S
  drop_all : Call S

-- A call on the port with the given index, or the copy from one audio port to another: the count, the
-- target and the source. Where there is no such port the script has no reference to call it with.
pub data Step (S : Type 0) : Type 0 where
  on : ℕ → Call S → Step S
  copy : IntArg → ℕ → ℕ → Step S

-- The state after a call that returns or raises an error; `none` after an access outside the buffer.
abbrev after : {P A : Type 0} → Outcome P A → Option P
after (returned a p) = some p
after (raised e p) = some p
after overrun = none

abbrev pub Given : {S : Type 0} → Call S → Type 0
Given (get n given) = Fits given n 0
Given call = Unit

abbrev pub GivenAt : {S : Type 0} → Step S → Type 0
GivenAt (on i c) = Given c
GivenAt (copy count to from) = Unit

-- The buffers that JACK gives have as many samples as the period has frames.
abbrev pub AllGiven : {S : Type 0} → List (Step S) → Type 0
AllGiven [] = Unit
AllGiven (s ∷ ss) = GivenAt s × AllGiven ss

abbrev pub AllValid : {S : Type 0} → List (Pud (List S)) → Type 0
AllValid [] = Unit
AllValid (p ∷ ps) = IsValid p × AllValid ps

abbrev followed : {P A : Type 0} → Option P → (P → Option A) → Option A
followed none k = none
followed (some p) k = k p

module _ {S : Type 0} where
  pub call : Call S → Pud (List S) → Option (Pud (List S))
  call (get n given) pud = after (get_buffer given (record pud { period = n }))
  call (write args) pud = after (audio_write args pud)
  call (write_custom args) pud = after (custom_write args pud)
  call (clear v arg) pud = after (audio_clear v arg pud)
  call (read grows arg) pud = after (audio_read grows arg pud)
  call (read_custom grows arg) pud = after (custom_read grows arg pud)
  call (seek arg) pud = after (audio_seek arg pud)
  call drop_all pud = some (buffer_drop pud)

  abbrev on_port :
      ℕ
      → (Pud (List S) → Option (Pud (List S)))
      → List (Pud (List S))
      → Option (List (Pud (List S)))
  on_port i f [] = some []
  on_port zero f (p ∷ ps) = followed (f p) (λ q. some (q ∷ ps))
  on_port (suc i) f (p ∷ ps) = followed (on_port i f ps) (λ qs. some (p ∷ qs))

  abbrev set_port : ℕ → Pud (List S) → List (Pud (List S)) → List (Pud (List S))
  set_port i q [] = []
  set_port zero q (p ∷ ps) = q ∷ ps
  set_port (suc i) q (p ∷ ps) = p ∷ set_port i q ps

  -- The two ports after a copy. They are different ones where it does anything, as a port is not both
  -- an input and an output.
  abbrev set_both :
      ℕ
      → ℕ
      → Option (Pud (List S) × Pud (List S))
      → List (Pud (List S))
      → Option (List (Pud (List S)))
  set_both to from none ps = none
  set_both to from (some (target, source)) ps = some (set_port from source (set_port to target ps))

  abbrev copy_ports :
      IntArg
      → ℕ
      → ℕ
      → Option (Pud (List S))
      → Option (Pud (List S))
      → List (Pud (List S))
      → Option (List (Pud (List S)))
  copy_ports count to from none source ps = some ps
  copy_ports count to from (some target) none ps = some ps
  copy_ports count to from (some target) (some source) ps =
      set_both to from (after (audio_copy count target source)) ps

  pub step : Step S → List (Pud (List S)) → Option (List (Pud (List S)))
  step (on i c) ps = on_port i (call c) ps
  step (copy count to from) ps = copy_ports count to from (get_elem? ps to) (get_elem? ps from) ps

  pub calls : List (Step S) → List (Pud (List S)) → Option (List (Pud (List S)))
  calls [] ps = some ps
  calls (s ∷ ss) ps = followed (step s ps) (calls ss)

  after-Safe :
      {A : Type 0} (out : Outcome (Pud (List S)) A)
      → Safe out
      → (p : Pud (List S)) × ((after out ≡ some p) × IsValid p)
  after-Safe (returned a p) safe = (p, (refl, safe))
  after-Safe (raised e p) safe = (p, (refl, safe))
  after-Safe overrun safe = absurd safe

  call-Safe :
      (c : Call S) (pud : Pud (List S))
      → Given c
      → IsValid pud
      → (p : Pud (List S)) × ((call c pud ≡ some p) × IsValid p)
  unfolding call buffer_drop
  call-Safe (get n given) pud fits valid =
      after-Safe _ (get_buffer-Safe given (record pud { period = n }) fits valid)
  call-Safe (write args) pud fits valid = after-Safe _ (audio_write-Safe args pud valid)
  call-Safe (write_custom args) pud fits valid = after-Safe _ (custom_write-Safe args pud valid)
  call-Safe (clear v arg) pud fits valid = after-Safe _ (audio_clear-Safe v arg pud valid)
  call-Safe (read grows arg) pud fits valid = after-Safe _ (audio_read-Safe grows arg pud valid)
  call-Safe (read_custom grows arg) pud fits valid =
      after-Safe _ (custom_read-Safe grows arg pud valid)
  call-Safe (seek arg) pud fits valid = after-Safe _ (audio_seek-Safe arg pud valid)
  call-Safe drop_all pud fits valid = (buffer_drop pud, (refl, tt))

  -- The ports are there after it, and valid.
  abbrev Reaches : Option (List (Pud (List S))) → Type 0
  Reaches o = (qs : List (Pud (List S))) × ((o ≡ some qs) × AllValid qs)

  on_port-Reaches :
      (i : ℕ) (f : Pud (List S) → Option (Pud (List S))) (ps : List (Pud (List S)))
      → ((p : Pud (List S)) → IsValid p → (q : Pud (List S)) × ((f p ≡ some q) × IsValid q))
      → AllValid ps
      → Reaches (on_port i f ps)
  on_port-Reaches i f [] h valid = ([], (refl, tt))
  on_port-Reaches zero f (p ∷ ps) h (v, valid) =
      let (q, (reached, qv)) = h p v in (q ∷ ps, (rw reached refl, (qv, valid)))
  on_port-Reaches (suc i) f (p ∷ ps) h (v, valid) =
      let (qs, (reached, qvs)) = on_port-Reaches i f ps h valid in
      (p ∷ qs, (rw reached refl, (v, qvs)))

  set_port-AllValid :
      (i : ℕ) (q : Pud (List S)) (ps : List (Pud (List S)))
      → IsValid q
      → AllValid ps
      → AllValid (set_port i q ps)
  set_port-AllValid i q [] qv valid = tt
  set_port-AllValid zero q (p ∷ ps) qv (v, valid) = (qv, valid)
  set_port-AllValid (suc i) q (p ∷ ps) qv (v, valid) = (v, set_port-AllValid i q ps qv valid)

  get_elem-IsValid :
      (i : ℕ) (ps : List (Pud (List S))) (p : Pud (List S))
      → AllValid ps
      → get_elem? ps i ≡ some p
      → IsValid p
  get_elem-IsValid i [] p valid h = cc
  get_elem-IsValid zero (q ∷ ps) p (v, valid) h = subst IsValid (some_inj q p h) v
  get_elem-IsValid (suc i) (q ∷ ps) p (v, valid) h = get_elem-IsValid i ps p valid h

  set_both-Reaches :
      (to from : ℕ) (out : Outcome (Pud (List S) × Pud (List S)) ℕ) (ps : List (Pud (List S)))
      → BothSafe out
      → AllValid ps
      → Reaches (set_both to from (after out) ps)
  set_both-Reaches to from (returned n (target, source)) ps (tv, sv) valid =
      (_, (refl, set_port-AllValid from source _ sv (set_port-AllValid to target ps tv valid)))
  set_both-Reaches to from (raised e (target, source)) ps (tv, sv) valid =
      (_, (refl, set_port-AllValid from source _ sv (set_port-AllValid to target ps tv valid)))
  set_both-Reaches to from overrun ps safe valid = absurd safe

  copy_ports-Reaches :
      (count : IntArg) (to from : ℕ) (target source : Option (Pud (List S)))
      (ps : List (Pud (List S)))
      → ((p : Pud (List S)) → target ≡ some p → IsValid p)
      → ((p : Pud (List S)) → source ≡ some p → IsValid p)
      → AllValid ps
      → Reaches (copy_ports count to from target source ps)
  copy_ports-Reaches count to from none source ps tv sv valid = (ps, (refl, valid))
  copy_ports-Reaches count to from (some target) none ps tv sv valid = (ps, (refl, valid))
  copy_ports-Reaches count to from (some target) (some source) ps tv sv valid =
      set_both-Reaches to from (audio_copy count target source) ps
        (audio_copy-BothSafe count target source (tv target refl) (sv source refl)) valid

  step-Reaches :
      (s : Step S) (ps : List (Pud (List S))) → GivenAt s → AllValid ps → Reaches (step s ps)
  unfolding step
  step-Reaches (on i c) ps given valid =
      on_port-Reaches i (call c) ps (λ p v. call-Safe c p given v) valid
  step-Reaches (copy count to from) ps given valid =
      copy_ports-Reaches count to from (get_elem? ps to) (get_elem? ps from) ps
        (λ p h. get_elem-IsValid to ps p valid h) (λ p h. get_elem-IsValid from ps p valid h) valid

  -- Whatever is called on the audio and custom ports of a client, copies from one port to another
  -- included, in any order and over any number of periods, no sample outside the ports' buffers is
  -- accessed and the positions stay within them, if they are within them at first and JACK gives
  -- buffers as long as the period. A call that raises an error does not end the sequence.
  pub calls_stay_inside :
      (ss : List (Step S)) (ps : List (Pud (List S)))
      → AllGiven ss
      → AllValid ps
      → (qs : List (Pud (List S))) × ((calls ss ps ≡ some qs) × AllValid qs)
  unfolding calls
  calls_stay_inside [] ps fits valid = (ps, (refl, valid))
  calls_stay_inside (s ∷ ss) ps (fit, fits) valid =
      let (qs, (reached, qvs)) = step-Reaches s ps fit valid in
      rw reached (calls_stay_inside ss qs fits qvs)
