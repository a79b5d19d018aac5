-- ===== src/Registry/Table.antt =====
-- The client's references as a table from callbacks to functions.
use luajack.Prelude.{
  if_true, if_false, differ, none-some, some_inj, ◌⊎◌, subst, ℕ, ◌≡◌, refl, sym, ap, ◌∙◌, Bool,
  true, false, Option, none, some, ◌==◌, Bool-cases, inl, inr, ==_iff, eq→==,
}
use luajack.Registry.{Registered, register, unregister, unref_slot, store_ref}
use luajack.Registry.Api.{LuaRegistry, IsRegistry, Slots}

module _ (r : LuaRegistry) (s : Slots) where
  abbrev pub deref : r.R → Option ℕ → Option r.Fn
  deref g none = none
  deref g (some i) = r.rawgeti g i

  -- The function that JACK's call of a callback would find.
  abbrev pub function_of : s.K → Registered r s → Option r.Fn
  function_of k st = deref st.registry (s.look k st.client)

  -- Every reference held is to a function, and no two callbacks hold the same.
  pub record IsLinked (st : Registered r s) : Type 0 where
    pub live :
        (k : s.K) (i : ℕ)
        → s.look k st.client ≡ some i
        → (f : r.Fn) × (r.rawgeti st.registry i ≡ some f)
    pub apart :
        (j k : s.K) (i : ℕ)
        → s.look j st.client ≡ some i
        → s.look k st.client ≡ some i
        → s.same j k ≡ true

module _ (r : LuaRegistry) (doc : IsRegistry r) (s : Slots) where
  open doc use {ref_fresh, ref_lem, unref_lem}
  open s use {K, look, put, same, same_refl, same_eq, look-put}

  -- A reference held after a field was cleared was held in another field before.
  pub held_other :
      (j k : K) (n : ℕ) (c : s.C)
      → look j (put k none c) ≡ some n
      → (same j k ≡ false) × (look j c ≡ some n)
  held_other j k n c e = elim (Bool-cases (same j k)) [
    | inl yes_same ↦
        absurd (none-some n (sym (if_true _ none _ yes_same) ∙ (sym (look-put j k none c) ∙ e)))
    | inr other ↦ (other, sym (if_false _ none _ other) ∙ (sym (look-put j k none c) ∙ e))
  ]

  pub other_ref :
      (st : Registered r s) (j k : K) (n i : ℕ)
      → IsLinked r s st
      → look j st.client ≡ some n
      → look k st.client ≡ some i
      → same j k ≡ false
      → (n == i) ≡ false
  other_ref st j k n i linked hj hk other = elim (Bool-cases (n == i)) [
    | inl equal ↦
        absurd
          (differ (sym (linked.apart j k n hj (hk ∙ ap some (sym ((==_iff n i).0 equal)))) ∙ other))
    | inr distinct ↦ distinct
  ]

  cleared-IsLinked :
      (k : K) (i : ℕ) (st : Registered r s)
      → look k st.client ≡ some i
      → IsLinked r s st
      → IsLinked r s (record { registry = r.unref st.registry i; client = put k none st.client })
  cleared-IsLinked k i st held linked = record {
    live = λ j n e.
        let (other, was) = held_other j k n st.client e in
        let (f, there) = linked.live j n was in
        (
          f,
          unref_lem st.registry i n
              ∙ (if_false _ _ _ (other_ref st j k n i linked was held other) ∙ there),
        );
    apart = λ j l n e f.
        linked.apart j l n (held_other j k n st.client e).1 (held_other l k n st.client f).1;
  }

  unref_slot-IsLinked :
      (k : K) (o : Option ℕ) (st : Registered r s)
      → look k st.client ≡ o
      → IsLinked r s st
      → IsLinked r s (unref_slot r s k o st)
  unref_slot-IsLinked k none st held linked = linked
  unref_slot-IsLinked k (some i) st held linked = cleared-IsLinked k i st held linked

  pub unregister-IsLinked :
      (k : K) (st : Registered r s) → IsLinked r s st → IsLinked r s (unregister r s k st)
  unfolding unregister
  unregister-IsLinked k st linked = unref_slot-IsLinked k (look k st.client) st refl linked

  -- The reference held after a store is the new one, or one that was held before.
  pub stored_ref :
      (j k : K) (n i : ℕ) (c : s.C)
      → look j (put k (some i) c) ≡ some n
      → ((same j k ≡ true) × (n ≡ i)) ⊎ ((same j k ≡ false) × (look j c ≡ some n))
  stored_ref j k n i c e = elim (Bool-cases (same j k)) [
    | inl equal ↦ inl (
      equal,
      some_inj n i (sym (sym (if_true _ (some i) _ equal) ∙ (sym (look-put j k (some i) c) ∙ e))),
    )
    | inr other ↦
        inr (other, sym (if_false _ (some i) _ other) ∙ (sym (look-put j k (some i) c) ∙ e))
  ]

  pub not_fresh :
      (k : K) (f : r.Fn) (st : Registered r s)
      → IsLinked r s st
      → ¬ (look k st.client ≡ some (r.ref st.registry f).0)
  not_fresh k f st linked e =
      let (h, there) = linked.live k _ e in none-some h (sym (ref_fresh st.registry f) ∙ there)

  pub ref_there :
      (g : r.R) (f : r.Fn) (n : ℕ)
      → (h : r.Fn) × (r.rawgeti g n ≡ some h)
      → (h : r.Fn) × (r.rawgeti (r.ref g f).1 n ≡ some h)
  ref_there g f n (h, there) = elim (Bool-cases (n == (r.ref g f).0)) [
    | inl new ↦ (f, ref_lem g f n ∙ if_true _ _ _ new)
    | inr old ↦ (h, ref_lem g f n ∙ (if_false _ _ _ old ∙ there))
  ]

  pub stored-IsLinked :
      (k : K) (f : r.Fn) (st : Registered r s)
      → IsLinked r s st
      → IsLinked r s (store_ref r s k (r.ref st.registry f) st)
  stored-IsLinked k f st linked = record {
    live = λ j n e. elim (stored_ref j k n _ st.client e) [
      | inl (equal, new) ↦ (f, ref_lem st.registry f n ∙ if_true _ _ _ (eq→== _ _ new))
      | inr (other, was) ↦ ref_there st.registry f n (linked.live j n was)
    ];
    apart = λ j l n e h. elim (stored_ref j k n _ st.client e) [
      | inl (equal, new) ↦ elim (stored_ref l k n _ st.client h) [
        | inl (equal2, new2) ↦
            subst (λ z. same z l ≡ true) (sym (same_eq j k equal))
              (subst (λ z. same k z ≡ true) (sym (same_eq l k equal2)) (same_refl k))
        | inr (other2, was2) ↦ absurd (not_fresh l f st linked (was2 ∙ ap some new))
      ]
      | inr (other, was) ↦ elim (stored_ref l k n _ st.client h) [
        | inl (equal2, new2) ↦ absurd (not_fresh j f st linked (was ∙ ap some new2))
        | inr (other2, was2) ↦ linked.apart j l n was was2
      ]
    ];
  }

  pub register-IsLinked :
      (k : K) (f : r.Fn) (ok : Bool) (st : Registered r s)
      → IsLinked r s st
      → IsLinked r s (register r s k f ok st).1
  unfolding register
  register-IsLinked k f true st linked =
      stored-IsLinked k f (unregister r s k st) (unregister-IsLinked k st linked)
  register-IsLinked k f false st linked =
      unregister-IsLinked k _
        (stored-IsLinked k f (unregister r s k st) (unregister-IsLinked k st linked))
