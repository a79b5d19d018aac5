-- ===== src/Clients/Count.antt =====
-- The number of active clients, against the clients that JACK has active.
use luajack.Prelude.{
  differ, if_true, if_false, ℕ, suc, ◌≡◌, refl, sym, ap, ◌∙◌, Bool, true, false, List, [], ◌∷◌,
  length, ltb, ◌==◌, if◌then◌else◌, arith, ne→==, lt→ltb, Bool-cases, inl, inr, ◌↔◌,
}
use luajack.Clients.{activate, deactivate, client_close, checkcreate}

-- The calls in the main thread, each with the client's key and whether JACK's call succeeds.
pub data Call : Type 0 where
  activated : ℕ → Bool → Call
  deactivated : ℕ → Bool → Call
  closed : ℕ → Bool → Call

abbrev pub count : Call → ℕ → ℕ
count (activated k ok) n = (activate true ok n).1
count (deactivated k ok) n = (deactivate true ok n).1
count (closed k ok) n = client_close true ok n

abbrev pub mem : ℕ → List ℕ → Bool
mem k [] = false
mem k (x ∷ xs) = if k == x then true else mem k xs

abbrev pub without : ℕ → List ℕ → List ℕ
without k [] = []
without k (x ∷ xs) = if k == x then xs else x ∷ without k xs

-- JACK's active clients after a call: jack_activate does nothing for a client that is active, and a
-- client that is closed is not active, whether or not it could be deactivated.
abbrev pub active : Call → List ℕ → List ℕ
active (activated k ok) ks = if ok then (if mem k ks then ks else k ∷ ks) else ks
active (deactivated k ok) ks = if ok then without k ks else ks
active (closed k ok) ks = without k ks

abbrev pub counts : List Call → ℕ → ℕ
counts [] n = n
counts (c ∷ cs) n = counts cs (count c n)

abbrev pub actives : List Call → List ℕ → List ℕ
actives [] ks = ks
actives (c ∷ cs) ks = actives cs (active c ks)

-- Only clients that are not active are activated, only active clients are deactivated and closed, and
-- jack_deactivate does not fail for a client that is closed.
abbrev pub IsOrderly : List Call → List ℕ → Type 0
IsOrderly [] ks = Unit
IsOrderly (activated k ok ∷ cs) ks = (mem k ks ≡ false) × IsOrderly cs (active (activated k ok) ks)
IsOrderly (deactivated k ok ∷ cs) ks =
    (mem k ks ≡ true) × IsOrderly cs (active (deactivated k ok) ks)
IsOrderly (closed k ok ∷ cs) ks =
    (ok ≡ true) × ((mem k ks ≡ true) × IsOrderly cs (active (closed k ok) ks))

length-without : (k : ℕ) (ks : List ℕ) → mem k ks ≡ true → suc (length (without k ks)) ≡ length ks
length-without k [] h = cc
length-without k (x ∷ xs) h = elim (Bool-cases (k == x)) [
  | inl same ↦ rw same refl
  | inr other ↦ rw other (
      ap suc (length-without k xs (let e : mem k (x ∷ xs) ≡ mem k xs = rw other refl in sym e ∙ h)))
]

-- `deactivate` in the main thread takes one client off the number where JACK does.
deactivate_lem :
    (ok : Bool) (k : ℕ) (ks : List ℕ)
    → mem k ks ≡ true
    → (deactivate true ok (length ks)).1 ≡ length (if ok then without k ks else ks)
unfolding deactivate
deactivate_lem true k ks h =
    rw (ne→== (length ks) 0 (omega (arith, length-without k ks h)))
      (omega (arith, length-without k ks h))
deactivate_lem false k ks h =
    rw (ne→== (length ks) 0 (omega (arith, length-without k ks h)))
      (omega (arith, length-without k ks h))

-- While only clients that are not active are activated, only active clients are deactivated and
-- closed, and jack_deactivate does not fail for a client that is closed, the number of active clients
-- is that of the clients that JACK has active, whatever other calls of JACK fail.
pub counts_lem :
    (cs : List Call) (ks : List ℕ)
    → IsOrderly cs ks
    → counts cs (length ks) ≡ length (actives cs ks)
unfolding activate client_close
counts_lem [] ks h = refl
counts_lem (activated k true ∷ cs) ks (m, h) =
    ap (λ l. counts cs (length l)) (sym (if_false (mem k ks) ks (k ∷ ks) m)) ∙ counts_lem cs _ h
counts_lem (activated k false ∷ cs) ks (m, h) = ap (counts cs) (omega arith) ∙ counts_lem cs ks h
counts_lem (deactivated k ok ∷ cs) ks (m, h) =
    ap (counts cs) (deactivate_lem ok k ks m) ∙ counts_lem cs _ h
counts_lem (closed k ok ∷ cs) ks (fine, (m, h)) =
    ap (counts cs) (deactivate_lem ok k ks m ∙ ap length (if_true ok _ _ fine)) ∙ counts_lem cs _ h

none_active : (ks : List ℕ) → ((if ltb 0 (length ks) then false else true) ≡ true) ↔ (ks ≡ [])
none_active [] = (λ h. refl, λ h. refl)
none_active (k ∷ ks) = rw (lt→ltb 0 (suc (length ks)) (omega arith)) (λ h. cc, λ h. cc)

-- While only clients that are not active are activated, only active clients are deactivated and
-- closed, and jack_deactivate does not fail for a client that is closed, `luajack_checkcreate` lets the main thread
-- create an object exactly when JACK has no active client, whatever other calls of JACK fail.
pub create_when_inactive :
    (cs : List Call) (ks : List ℕ)
    → IsOrderly cs ks
    → (checkcreate true (counts cs (length ks)) ≡ true) ↔ (actives cs ks ≡ [])
unfolding checkcreate
create_when_inactive cs ks h = rw (counts_lem cs ks h) (none_active (actives cs ks))

not_there : (k a : ℕ) → mem k (a ∷ []) ≡ false → (k == a) ≡ false
not_there k a h = elim (Bool-cases (k == a)) [
  | inl same ↦ absurd (differ (let e : mem k (a ∷ []) ≡ true = rw same refl in sym e ∙ h))
  | inr other ↦ other
]

-- If one client is active and another one, which is not, is closed, and jack_deactivate reports
-- success for it, then the number of active clients is 0 and objects may be created, although JACK has
-- an active client.
pub close_inactive_miscounts :
    (cs : List Call) (ks : List ℕ) (a k : ℕ)
    → IsOrderly cs ks
    → actives cs ks ≡ a ∷ []
    → mem k (a ∷ []) ≡ false
    → (checkcreate true (client_close true true (counts cs (length ks))) ≡ true)
      × (actives (closed k true ∷ []) (actives cs ks) ≡ a ∷ [])
unfolding checkcreate client_close deactivate
close_inactive_miscounts cs ks a k h one other =
    (rw (counts_lem cs ks h, one) refl, rw (one, not_there k a other) refl)
