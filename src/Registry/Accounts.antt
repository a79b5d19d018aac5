-- ===== src/Registry/Accounts.antt =====
-- The references that registrations leave in the registry.
use luajack.Prelude.{
  if_true, if_false, differ, none-some, some_inj, ℕ, ◌≡◌, refl, sym, ap, ◌∙◌, Bool, true, false,
  Option, none, some, ◌==◌, Bool-cases, inl, inr, ◌⊎◌, eq→==, ==_iff,
}
use luajack.Registry.{Registered, register, unregister, unref_slot, store_ref}
use luajack.Registry.Api.{LuaRegistry, IsRegistry, Slots}

module _ (r : LuaRegistry) (s : Slots) where
  -- Every reference in the registry was in it at first, or is held by the client.
  abbrev pub IsAccounted : r.R → Registered r s → Type 0
  IsAccounted base st =
      (i : ℕ) (h : r.Fn)
      → r.rawgeti st.registry i ≡ some h
      → (r.rawgeti base i ≡ some h) ⊎ ((k : s.K) × (s.look k st.client ≡ some i))

module _ (r : LuaRegistry) (doc : IsRegistry r) (s : Slots) (base : r.R) where
  open doc use {ref_fresh, ref_lem, unref_lem}
  open s use {K, look, put, same, same_refl, same_eq, look-put}

  abbrev Owned : ℕ → r.Fn → s.C → Type 0
  Owned i h c = (r.rawgeti base i ≡ some h) ⊎ ((k : K) × (look k c ≡ some i))

  -- What is left after a release was there before, under another reference.
  left_by_unref :
      (g : r.R) (k i : ℕ) (h : r.Fn)
      → r.rawgeti (r.unref g k) i ≡ some h
      → ((i == k) ≡ false) × (r.rawgeti g i ≡ some h)
  left_by_unref g k i h e = elim (Bool-cases (i == k)) [
    | inl gone ↦ absurd (none-some h (sym (if_true _ _ _ gone) ∙ (sym (unref_lem g k i) ∙ e)))
    | inr kept ↦ (kept, sym (if_false _ _ _ kept) ∙ (sym (unref_lem g k i) ∙ e))
  ]

  put_none-Owned :
      (k : K) (i n : ℕ) (h : r.Fn) (c : s.C)
      → look k c ≡ some n
      → (i == n) ≡ false
      → Owned i h c
      → Owned i h (put k none c)
  put_none-Owned k i n h c held other (inl old) = inl old
  put_none-Owned k i n h c held other (inr (j, e)) = elim (Bool-cases (same j k)) [
    | inl equal ↦ absurd (
        differ (
          sym (eq→== i n (some_inj i n (sym e ∙ (ap (λ z. look z c) (same_eq j k equal) ∙ held))))
          ∙ other))
    | inr apart ↦ inr (j, look-put j k none c ∙ (if_false _ _ _ apart ∙ e))
  ]

  unref_slot-IsAccounted :
      (k : K) (o : Option ℕ) (st : Registered r s)
      → look k st.client ≡ o
      → IsAccounted r s base st
      → IsAccounted r s base (unref_slot r s k o st)
  unref_slot-IsAccounted k none st held acc = acc
  unref_slot-IsAccounted k (some n) st held acc = λ i h e.
      let (other, was) = left_by_unref st.registry n i h e in
      put_none-Owned k i n h st.client held other (acc i h was)

  pub unregister-IsAccounted :
      (k : K) (st : Registered r s)
      → IsAccounted r s base st
      → IsAccounted r s base (unregister r s k st)
  unfolding unregister
  unregister-IsAccounted k st acc = unref_slot-IsAccounted k (look k st.client) st refl acc

  unref_slot-look :
      (k : K) (o : Option ℕ) (st : Registered r s)
      → look k st.client ≡ o
      → look k (unref_slot r s k o st).client ≡ none
  unref_slot-look k none st held = held
  unref_slot-look k (some n) st held = look-put k k none st.client ∙ if_true _ _ _ (same_refl k)

  pub unregister-look : (k : K) (st : Registered r s) → look k (unregister r s k st).client ≡ none
  unfolding unregister
  unregister-look k st = unref_slot-look k (look k st.client) st refl

  put-Owned :
      (k : K) (i n : ℕ) (h : r.Fn) (c : s.C)
      → look k c ≡ none
      → Owned i h c
      → Owned i h (put k (some n) c)
  put-Owned k i n h c free (inl old) = inl old
  put-Owned k i n h c free (inr (j, e)) = elim (Bool-cases (same j k)) [
    | inl equal ↦
        absurd (none-some i (sym free ∙ (ap (λ z. look z c) (sym (same_eq j k equal)) ∙ e)))
    | inr apart ↦ inr (j, look-put j k (some n) c ∙ (if_false _ _ _ apart ∙ e))
  ]

  stored-IsAccounted :
      (k : K) (f : r.Fn) (st : Registered r s)
      → look k st.client ≡ none
      → IsAccounted r s base st
      → IsAccounted r s base (store_ref r s k (r.ref st.registry f) st)
  stored-IsAccounted k f st free acc = λ i h e. elim (Bool-cases (i == (r.ref st.registry f).0)) [
    | inl new ↦ inr (
      k,
      look-put k k _ st.client ∙ (if_true _ _ _ (same_refl k) ∙ ap some (sym ((==_iff i _).0 new))),
    )
    | inr old ↦
        put-Owned k i _ h st.client free
          (acc i h (sym (if_false _ _ _ old) ∙ (sym (ref_lem st.registry f i) ∙ e)))
  ]

  pub register-IsAccounted :
      (k : K) (f : r.Fn) (ok : Bool) (st : Registered r s)
      → IsAccounted r s base st
      → IsAccounted r s base (register r s k f ok st).1
  unfolding register
  register-IsAccounted k f true st acc =
      stored-IsAccounted k f _ (unregister-look k st) (unregister-IsAccounted k st acc)
  register-IsAccounted k f false st acc =
      unregister-IsAccounted k _
        (stored-IsAccounted k f _ (unregister-look k st) (unregister-IsAccounted k st acc))
