-- ===== src/Ports/Register/Session.antt =====
-- Sequences of the calls that register, use and close ports.
use luajack.Prelude.{
  if_both, eq→==, subst, ℕ, ◌≡◌, refl, sym, ap, ◌∙◌, inl, inr, Bool, true, false, Option, List, [],
  ◌∷◌, ◌==◌, ◌&&◌, if◌then◌else◌, Bool-cases, if_true,
}
use luajack.Database.{Checked}
use luajack.Database.Api.{Tree, IsTree, member}
use luajack.Database.Marks.{IsFresh, cancel_lem, cancelled_before}
use luajack.Database.Loops.{rounds, rounds_leave}
use luajack.Ports.{PortFlags}
use luajack.Ports.Api.{Jack, IsServer, Name}
use luajack.Ports.Register.{
  Options, Ports, port_register, port_close, port_close_all, on_pud, port_unregister, port_flags,
  port_connect, port_disconnect,
}
use luajack.Ports.Register.Lifetime.{
  IsSound, port_close_all-IsSound, port_close-IsSound, port_register-IsSound, on_pud-IsSound,
  named_connect-IsSound, port_disconnect-IsSound, port_flags-IsSound,
}

pub data Op : Type 0 where
  register : PortFlags → Bool → Checked → Name → Option Options → Option ℕ → Op
  unregister flags : Option ℕ → Op
  connect_to : Name → Option ℕ → Op
  disconnect_from : Option Name → Option ℕ → Op
  close_all : ℕ → List ℕ → Op

module _ (t : Tree) (k : Jack) where
  abbrev pub do_op : Op → Ports t k → Ports t k
  do_op (register fl allowed client name opts addr) st =
      (port_register t k fl allowed client name opts addr st).1
  do_op (unregister key) st = (on_pud t k (port_unregister t k) key st).1
  do_op (flags key) st = (on_pud t k (port_flags t k) key st).1
  do_op (connect_to name key) st = (on_pud t k (port_connect t k name) key st).1
  do_op (disconnect_from name key) st = (on_pud t k (port_disconnect t k name) key st).1
  do_op (close_all client visited) st = port_close_all t k client visited st

  abbrev pub do_ops : List Op → Ports t k → Ports t k
  do_ops [] st = st
  do_ops (o ∷ os) st = do_ops os (do_op o st)

module _ (t : Tree) (doc : IsTree t) (k : Jack) (server : IsServer k) where
  -- Malloc, where it is called, gives NULL or a block that is not that of an entry.
  abbrev pub FreshFor : Op → Ports t k → Type 0
  FreshFor (register fl allowed client name opts addr) st = IsFresh t doc addr st.db
  FreshFor _ st = Unit

  abbrev pub AllFresh : List Op → Ports t k → Type 0
  AllFresh [] st = Unit
  AllFresh (o ∷ os) st = FreshFor o st × AllFresh os (do_op t k o st)

  do_op-IsSound :
      (o : Op) (st : Ports t k)
      → FreshFor o st
      → IsSound t doc k server st
      → IsSound t doc k server (do_op t k o st)
  unfolding port_unregister port_connect
  do_op-IsSound (register fl allowed client name opts addr) st fresh sound =
      port_register-IsSound t doc k server fl allowed client name opts addr st fresh sound
  do_op-IsSound (unregister key) st fresh sound =
      on_pud-IsSound t doc k server (port_unregister t k) key st
        (λ a v. port_close-IsSound t doc k server a st v sound) sound
  do_op-IsSound (flags key) st fresh sound =
      on_pud-IsSound t doc k server (port_flags t k) key st
        (λ a v. port_flags-IsSound t doc k server a st sound) sound
  do_op-IsSound (connect_to name key) st fresh sound =
      on_pud-IsSound t doc k server (port_connect t k name) key st
        (λ a v. named_connect-IsSound t doc k server _ name st sound) sound
  do_op-IsSound (disconnect_from name key) st fresh sound =
      on_pud-IsSound t doc k server (port_disconnect t k name) key st
        (λ a v. port_disconnect-IsSound t doc k server name a st sound) sound
  do_op-IsSound (close_all client visited) st fresh sound =
      port_close_all-IsSound t doc k server client visited st sound

  -- Through every sequence of registrations (whatever JACK answers, and Malloc NULL or a block that no
  -- entry has), of calls with any references, and of closures of clients: each valid reference is that
  -- of a port registered in JACK, no two are of the same port, and each registered port has a valid
  -- reference, so none is lost, unless JACK refused to unregister it.
  pub do_ops-IsSound :
      (os : List Op) (st : Ports t k)
      → AllFresh os st
      → IsSound t doc k server st
      → IsSound t doc k server (do_ops t k os st)
  do_ops-IsSound [] st fresh sound = sound
  do_ops-IsSound (o ∷ os) st (fresh, later) sound =
      do_ops-IsSound os (do_op t k o st) later (do_op-IsSound o st fresh sound)

module _ (t : Tree) (k : Jack) where
  -- A round of the loop of port_close_all.
  abbrev close_one : ℕ → ℕ → Ports t k → Ports t k
  close_one client a st =
      if st.db.valid a && ((st.entry a).cud == client) then port_close t k a st else st

  close_one_entry : (client a : ℕ) (st : Ports t k) → (close_one client a st).entry ≡ st.entry
  unfolding port_close
  close_one_entry client a st =
      if_both (λ (z : Ports t k). z.entry ≡ st.entry)
        (st.db.valid a && ((st.entry a).cud == client)) refl refl

  close_one_before :
      (client a i : ℕ) (st : Ports t k)
      → (close_one client a st).db.valid i ≡ true
      → st.db.valid i ≡ true
  unfolding port_close
  close_one_before client a i st =
      if_both (λ (z : Ports t k). z.db.valid i ≡ true → st.db.valid i ≡ true)
        (st.db.valid a && ((st.entry a).cud == client)) (cancelled_before t a i st.db) (λ v. v)

  close_one_closes :
      (client a : ℕ) (st : Ports t k)
      → ((st.entry a).cud == client) ≡ true
      → (close_one client a st).db.valid a ≡ false
  unfolding port_close
  close_one_closes client a st own = elim (Bool-cases (st.db.valid a)) [
    | inl here ↦
        rw (here, own)
          (cancel_lem t a a st.db ∙ if_true (a == a) false (st.db.valid a) (eq→== a a refl))
    | inr not_here ↦ rw not_here not_here
  ]

  all_rounds :
      (client : ℕ) (visited : List ℕ) (st : Ports t k)
      → port_close_all t k client visited st
        ≡ rounds
            (λ s. s.db.valid)
            (λ s a. (s.entry a).cud)
            client
            (close_one client)
            (λ a i s. ap (λ f. (f i).cud) (close_one_entry client a s))
            (close_one_before client)
            (close_one_closes client)
            visited
            st
  unfolding port_close_all
  all_rounds client [] st = refl
  all_rounds client (a ∷ rest) st = all_rounds client rest (close_one client a st)

  -- After port_close_all over all valid entries, what is still valid is another client's.
  pub port_close_all_leaves :
      (client : ℕ) (visited : List ℕ) (i : ℕ) (st : Ports t k)
      → ((a : ℕ) → st.db.valid a ≡ true → member a visited ≡ true)
      → let after = port_close_all t k client visited st in
        after.db.valid i ≡ true → ((after.entry i).cud == client) ≡ false
  port_close_all_leaves client visited i st all =
      subst (λ (z : Ports t k). z.db.valid i ≡ true → ((z.entry i).cud == client) ≡ false)
        (sym (all_rounds client visited st))
        (rounds_leave (λ s. s.db.valid) (λ s a. (s.entry a).cud) client (close_one client)
          (λ a i s. ap (λ f. (f i).cud) (close_one_entry client a s)) (close_one_before client)
          (close_one_closes client) visited i st all)
