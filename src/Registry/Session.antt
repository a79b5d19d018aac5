-- ===== src/Registry/Session.antt =====
-- Registrations in any order, against a table from callbacks to functions.
use luajack.Prelude.{
  if_true, ℕ, ◌≡◌, refl, sym, ap, ◌∙◌, Bool, true, false, Option, none, some, List, [], ◌∷◌,
  if◌then◌else◌, Bool-cases, inl, inr, ◌⊎◌, none-some,
}
use luajack.Registry.{Registered, set_callback, unregister, unregister_all, listed}
use luajack.Registry.Api.{LuaRegistry, IsRegistry, Slots}
use luajack.Registry.Table.{function_of, deref, IsLinked, unregister-IsLinked, register-IsLinked}
use luajack.Registry.Functions.{unregister-function_of, register-function_of}
use luajack.Registry.Accounts.{IsAccounted, unregister-IsAccounted, register-IsAccounted}

module _ (r : LuaRegistry) (s : Slots) where
  -- A script's call for one callback, with its argument and whether JACK accepts it; or the release of
  -- the callbacks listed, when the client is closed.
  pub data Call : Type 0 where
    set : s.K → Option r.Fn → Bool → Call
    release : List s.K → Call

  abbrev pub call : Call → Registered r s → Registered r s
  call (set k arg ok) st = (set_callback r s k arg ok st).1
  call (release ks) st = unregister_all r s ks st

  abbrev pub calls : List Call → Registered r s → Registered r s
  calls [] st = st
  calls (c ∷ cs) st = calls cs (call c st)

  -- The specification: the functions in place.
  abbrev pub Functions : Type 0
  Functions = s.K → Option r.Fn

  abbrev pub replace : Call → Functions → Functions
  replace (set k none ok) t j = t j
  replace (set k (some f) ok) t j = if s.same j k then (if ok then some f else none) else t j
  replace (release ks) t j = if listed r s j ks then none else t j

  abbrev pub replaces : List Call → Functions → Functions
  replaces [] t = t
  replaces (c ∷ cs) t = replaces cs (replace c t)

module _ (r : LuaRegistry) (doc : IsRegistry r) (s : Slots) where
  abbrev functions : Registered r s → Functions r s
  functions st k = function_of r s k st

  pub unregister_all-IsLinked :
      (ks : List s.K) (st : Registered r s)
      → IsLinked r s st
      → IsLinked r s (unregister_all r s ks st)
  unfolding unregister_all
  unregister_all-IsLinked [] st linked = linked
  unregister_all-IsLinked (k ∷ ks) st linked =
      unregister_all-IsLinked ks (unregister r s k st) (unregister-IsLinked r doc s k st linked)

  if_if :
      {A : Type 0} (a b : Bool) (x y : A)
      → (if a then x else (if b then x else y)) ≡ (if (if b then true else a) then x else y)
  if_if true true x y = refl
  if_if true false x y = refl
  if_if false true x y = refl
  if_if false false x y = refl

  pub unregister_all-function_of :
      (ks : List s.K) (j : s.K) (st : Registered r s)
      → IsLinked r s st
      → function_of r s j (unregister_all r s ks st)
        ≡ (if listed r s j ks then none else function_of r s j st)
  unfolding unregister_all
  unregister_all-function_of [] j st linked = refl
  unregister_all-function_of (k ∷ ks) j st linked =
      unregister_all-function_of ks j (unregister r s k st)
        (unregister-IsLinked r doc s k st linked)
      ∙ (ap (λ x. if listed r s j ks then none else x)
            (unregister-function_of r doc s j k st linked)
          ∙ if_if (listed r s j ks) (s.same j k) none (function_of r s j st))

  call-IsLinked :
      (c : Call r s) (st : Registered r s) → IsLinked r s st → IsLinked r s (call r s c st)
  unfolding set_callback
  call-IsLinked (set k none ok) st linked = linked
  call-IsLinked (set k (some f) ok) st linked = register-IsLinked r doc s k f ok st linked
  call-IsLinked (release ks) st linked = unregister_all-IsLinked ks st linked

  calls-IsLinked :
      (cs : List (Call r s)) (st : Registered r s)
      → IsLinked r s st
      → IsLinked r s (calls r s cs st)
  calls-IsLinked [] st linked = linked
  calls-IsLinked (c ∷ cs) st linked = calls-IsLinked cs (call r s c st) (call-IsLinked c st linked)

  call-replace :
      (c : Call r s) (j : s.K) (st : Registered r s)
      → IsLinked r s st
      → function_of r s j (call r s c st) ≡ replace r s c (functions st) j
  unfolding set_callback
  call-replace (set k none ok) j st linked = refl
  call-replace (set k (some f) ok) j st linked = register-function_of r doc s j k f ok st linked
  call-replace (release ks) j st linked = unregister_all-function_of ks j st linked

  -- Two tables that agree still agree after the same calls.
  replaces_ext :
      (cs : List (Call r s)) (t u : Functions r s)
      → ((j : s.K) → t j ≡ u j)
      → (j : s.K) → replaces r s cs t j ≡ replaces r s cs u j
  replaces_ext [] t u h j = h j
  replaces_ext (set k none ok ∷ cs) t u h j = replaces_ext cs _ _ h j
  replaces_ext (set k (some f) ok ∷ cs) t u h j =
      replaces_ext cs _ _
        (λ i. ap (λ x. if s.same i k then (if ok then some f else none) else x) (h i)) j
  replaces_ext (release ks ∷ cs) t u h j =
      replaces_ext cs _ _ (λ i. ap (λ x. if listed r s i ks then none else x) (h i)) j

  -- Whatever scripts register and release, in any order and with any refusal of JACK, each callback's
  -- reference finds the function that was set for it last: a refused registration leaves none, also
  -- where there was one before, and an argument that is no function changes nothing.
  pub calls_refine :
      (cs : List (Call r s)) (st : Registered r s)
      → IsLinked r s st
      → (j : s.K)
      → function_of r s j (calls r s cs st) ≡ replaces r s cs (λ k. function_of r s k st) j
  calls_refine [] st linked j = refl
  calls_refine (c ∷ cs) st linked j =
      calls_refine cs (call r s c st) (call-IsLinked c st linked) j
      ∙ replaces_ext cs _ _ (λ i. call-replace c i st linked) j

  unregister_all-IsAccounted :
      (base : r.R) (ks : List s.K) (st : Registered r s)
      → IsAccounted r s base st
      → IsAccounted r s base (unregister_all r s ks st)
  unfolding unregister_all
  unregister_all-IsAccounted base [] st acc = acc
  unregister_all-IsAccounted base (k ∷ ks) st acc =
      unregister_all-IsAccounted base ks (unregister r s k st)
        (unregister-IsAccounted r doc s base k st acc)

  call-IsAccounted :
      (base : r.R) (c : Call r s) (st : Registered r s)
      → IsAccounted r s base st
      → IsAccounted r s base (call r s c st)
  unfolding set_callback
  call-IsAccounted base (set k none ok) st acc = acc
  call-IsAccounted base (set k (some f) ok) st acc = register-IsAccounted r doc s base k f ok st acc
  call-IsAccounted base (release ks) st acc = unregister_all-IsAccounted base ks st acc

  calls-IsAccounted :
      (base : r.R) (cs : List (Call r s)) (st : Registered r s)
      → IsAccounted r s base st
      → IsAccounted r s base (calls r s cs st)
  calls-IsAccounted base [] st acc = acc
  calls-IsAccounted base (c ∷ cs) st acc =
      calls-IsAccounted base cs (call r s c st) (call-IsAccounted base c st acc)

  -- After any calls and the release of the callbacks `ks`, the registry holds no reference but those
  -- that it held before the calls and those of callbacks that are not among `ks`.
  pub release_leaves :
      (cs : List (Call r s)) (ks : List s.K) (st : Registered r s) (i : ℕ) (h : r.Fn)
      → IsLinked r s st
      → r.rawgeti (unregister_all r s ks (calls r s cs st)).registry i ≡ some h
      → (r.rawgeti st.registry i ≡ some h)
        ⊎ ((k : s.K) × (listed r s k ks ≡ false)
            × (s.look k (unregister_all r s ks (calls r s cs st)).client ≡ some i))
  release_leaves cs ks st i h linked there =
      let mid = calls r s cs st in
      let mid_linked = calls-IsLinked cs st linked in
      let acc =
        unregister_all-IsAccounted st.registry ks mid
          (calls-IsAccounted st.registry cs st (λ n f e. inl e)) in
      elim (acc i h there) [
        | inl old ↦ inl old
        | inr (k, held) ↦ elim (Bool-cases (listed r s k ks)) [
          | inl yes_listed ↦
              let (f, found) = (unregister_all-IsLinked ks mid mid_linked).live k i held in
              let gone : function_of r s k (unregister_all r s ks mid) ≡ none =
                unregister_all-function_of ks k mid mid_linked ∙ if_true _ none _ yes_listed in
              absurd (
                none-some f
                  (sym gone ∙ (ap (deref r s (unregister_all r s ks mid).registry) held ∙ found)))
          | inr not_listed ↦ inr (k, not_listed, held)
        ]
      ]
