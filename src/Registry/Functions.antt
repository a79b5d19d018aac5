-- ===== src/Registry/Functions.antt =====
-- Which function each callback has after Register and Unregister.
use luajack.Prelude.{
  if_true, if_false, ℕ, ◌≡◌, refl, sym, ap, ◌∙◌, Bool, true, false, Option, none, some, ◌==◌,
  if◌then◌else◌, Bool-cases, inl, inr, eq→==, ==_iff,
}
use luajack.Registry.{Registered, register, unregister, unref_slot, store_ref}
use luajack.Registry.Api.{LuaRegistry, IsRegistry, Slots}
use luajack.Registry.Table.{
  function_of, deref, IsLinked, other_ref, unregister-IsLinked, stored-IsLinked, not_fresh,
}

module _ (r : LuaRegistry) (doc : IsRegistry r) (s : Slots) where
  open doc use {ref_fresh, ref_lem, unref_lem}
  open s use {K, look, put, same, same_refl, same_eq, look-put}

  -- What a reference of another callback finds is not changed by a release.
  deref-unref :
      (g : r.R) (i : ℕ) (o : Option ℕ)
      → ((n : ℕ) → o ≡ some n → (n == i) ≡ false)
      → deref r s (r.unref g i) o ≡ deref r s g o
  deref-unref g i none other = refl
  deref-unref g i (some n) other = unref_lem g i n ∙ if_false _ _ _ (other n refl)

  unref_slot-function_of :
      (j k : K) (o : Option ℕ) (st : Registered r s)
      → look k st.client ≡ o
      → IsLinked r s st
      → function_of r s j (unref_slot r s k o st)
        ≡ (if same j k then none else function_of r s j st)
  unref_slot-function_of j k none st held linked = elim (Bool-cases (same j k)) [
    | inl equal ↦
        ap (deref r s st.registry) (ap (λ z. look z st.client) (same_eq j k equal) ∙ held)
        ∙ sym (if_true _ _ _ equal)
    | inr other ↦ sym (if_false _ _ _ other)
  ]
  unref_slot-function_of j k (some i) st held linked = elim (Bool-cases (same j k)) [
    | inl equal ↦
        ap (deref r s (r.unref st.registry i)) (look-put j k none st.client ∙ if_true _ _ _ equal)
        ∙ sym (if_true _ _ _ equal)
    | inr other ↦
        ap (deref r s (r.unref st.registry i)) (look-put j k none st.client ∙ if_false _ _ _ other)
        ∙ (deref-unref st.registry i (look j st.client)
              (λ n e. other_ref r doc s st j k n i linked e held other)
            ∙ sym (if_false _ _ _ other))
  ]

  pub unregister-function_of :
      (j k : K) (st : Registered r s)
      → IsLinked r s st
      → function_of r s j (unregister r s k st) ≡ (if same j k then none else function_of r s j st)
  unfolding unregister
  unregister-function_of j k st linked =
      unref_slot-function_of j k (look k st.client) st refl linked

  deref-ref :
      (g : r.R) (f : r.Fn) (o : Option ℕ)
      → ¬ (o ≡ some (r.ref g f).0)
      → deref r s (r.ref g f).1 o ≡ deref r s g o
  deref-ref g f none other = refl
  deref-ref g f (some n) other = elim (Bool-cases (n == (r.ref g f).0)) [
    | inl new ↦ absurd (other (ap some ((==_iff n _).0 new)))
    | inr old ↦ ref_lem g f n ∙ if_false _ _ _ old
  ]

  stored-function_of :
      (j k : K) (f : r.Fn) (st : Registered r s)
      → IsLinked r s st
      → function_of r s j (store_ref r s k (r.ref st.registry f) st)
        ≡ (if same j k then some f else function_of r s j st)
  stored-function_of j k f st linked = elim (Bool-cases (same j k)) [
    | inl equal ↦
        ap (deref r s (r.ref st.registry f).1)
          (look-put j k (some (r.ref st.registry f).0) st.client ∙ if_true _ _ _ equal)
        ∙ (ref_lem st.registry f (r.ref st.registry f).0
            ∙ (if_true _ _ (r.rawgeti st.registry (r.ref st.registry f).0)
                  (eq→== (r.ref st.registry f).0 _ refl)
                ∙ sym (if_true _ _ _ equal)))
    | inr other ↦
        ap (deref r s (r.ref st.registry f).1)
          (look-put j k (some (r.ref st.registry f).0) st.client ∙ if_false _ _ _ other)
        ∙ (deref-ref st.registry f (look j st.client) (not_fresh r doc s j f st linked)
            ∙ sym (if_false _ _ _ other))
  ]

  absorb :
      {A : Type 0} (b : Bool) (x y z w : A)
      → w ≡ (if b then y else z)
      → (if b then x else w) ≡ (if b then x else z)
  absorb true x y z w e = refl
  absorb false x y z w e = e

  -- After Register the callback has the function, or no function if JACK refuses; the others are as
  -- they were.
  pub register-function_of :
      (j k : K) (f : r.Fn) (ok : Bool) (st : Registered r s)
      → IsLinked r s st
      → function_of r s j (register r s k f ok st).1
        ≡ (if same j k then (if ok then some f else none) else function_of r s j st)
  unfolding register
  register-function_of j k f true st linked =
      stored-function_of j k f (unregister r s k st) (unregister-IsLinked r doc s k st linked)
      ∙ absorb (same j k) _ _ _ _ (unregister-function_of j k st linked)
  register-function_of j k f false st linked =
      unregister-function_of j k _ (
        stored-IsLinked r doc s k f (unregister r s k st) (unregister-IsLinked r doc s k st linked))
      ∙ absorb (same j k) _ _ _ _ (
          stored-function_of j k f (unregister r s k st) (unregister-IsLinked r doc s k st linked)
          ∙ absorb (same j k) _ _ _ _ (unregister-function_of j k st linked))
