-- ===== src/Ports/Register/Lifetime.antt =====
-- The ports registered in JACK are those of the valid references, through every sequence of calls.
use luajack.Prelude.{
  ==_iff, ◌↔◌, ℕ, ◌≡◌, refl, sym, ap, ◌∙◌, inl, inr, Bool, true, false, Option, none, some, List,
  [], ◌∷◌, ◌==◌, ◌&&◌, if◌then◌else◌, if_both, Bool-cases, if_true, if_false, differ,
}
use luajack.Database.{Database, Checked, found, bad_argument, invalid_reference, xud_check}
use luajack.Database.Api.{Tree, IsTree}
use luajack.Database.Marks.{IsNew, IsFresh, xud_new-IsNew, cancel_lem, cancel_tree, found_valid}
use luajack.Ports.{Outcome, PortFlags, connect, disconnect, disconnected}
use luajack.Ports.Api.{
  Jack, IsServer, Name, tracked, tracked-unregister, tracked-register_none, tracked-register_some,
}
use luajack.Ports.Register.{
  Entry, Options, Ports, new_pud, made_port, typed_port, port_register, port_close, port_close_all,
  on_checked, on_pud, port_flags, in_jack, named_connect, named_disconnect, port_disconnect,
}
use luajack.Ports.Connect.{connect_keeps_ports, disconnect_keeps_ports, port_disconnect_keeps_ports}
use luajack.Ports.Pairing.{
  IsPaired, close-IsPaired, new-IsPaired, same-IsPaired, with_port, with_one, without,
  without_other, with_one_cases, without-with_one,
}

port_if : (b : Bool) (x y : Entry) → (if b then x else y).port ≡ (if b then x.port else y.port)
port_if true x y = refl
port_if false x y = refl

module _ (t : Tree) (doc : IsTree t) (k : Jack) (server : IsServer k) where
  abbrev pub port_of : Ports t k → ℕ → ℕ
  port_of st a = (st.entry a).port

  -- Every valid entry is in the tree, and has a registered port of its own; every registered port has a
  -- valid entry, unless JACK refused to unregister it.
  pub record IsSound (st : Ports t k) : Type 0 where
    pub paired : IsPaired st.db.valid (port_of st) (tracked k server st.jack)
    pub kept : (a : ℕ) → st.db.valid a ≡ true → t.find st.db.tree a ≡ true

  -- The same entries and ports.
  same-IsSound :
      (st : Ports t k) (entry : ℕ → Entry) (jack : k.J)
      → ((a : ℕ) → (entry a).port ≡ (st.entry a).port)
      → ((q : ℕ) → tracked k server jack q ≡ tracked k server st.jack q)
      → IsSound st
      → IsSound (record st { entry = entry; jack = jack })
  same-IsSound st entry jack e o sound = record {
    paired =
        same-IsPaired st.db.valid st.db.valid (port_of st) (λ a. (entry a).port)
          (tracked k server st.jack) (tracked k server jack) (λ a. refl) e o sound.paired;
    kept = sound.kept;
  }

  pub port_close-IsSound :
      (a : ℕ) (st : Ports t k) → st.db.valid a ≡ true → IsSound st → IsSound (port_close t k a st)
  unfolding port_close
  port_close-IsSound a st here sound = record {
    paired =
        same-IsPaired (without a st.db.valid) _ (port_of st) _
          (without (port_of st a) (tracked k server st.jack)) _ (λ i. cancel_lem t a i st.db)
          (λ i. refl) (tracked-unregister k server st.jack (port_of st a))
          (close-IsPaired st.db.valid (port_of st) (tracked k server st.jack) a here sound.paired);
    kept = λ i v.
        ap (λ tree. t.find tree i) (cancel_tree t a st.db)
        ∙ sound.kept i (without_other a i st.db.valid (sym (cancel_lem t a i st.db) ∙ v)).1;
  }

  -- An address without an entry is that of no valid one.
  unfound :
      (st : Ports t k) (a : ℕ) → t.find st.db.tree a ≡ false → IsSound st → st.db.valid a ≡ false
  unfound st a gone sound = elim (Bool-cases (st.db.valid a)) [
    | inl here ↦ absurd (differ (sym (sound.kept a here) ∙ gone))
    | inr not_here ↦ not_here
  ]

  pub port_close_all-IsSound :
      (client : ℕ) (visited : List ℕ) (st : Ports t k)
      → IsSound st
      → IsSound (port_close_all t k client visited st)
  unfolding port_close_all
  port_close_all-IsSound client [] st sound = sound
  port_close_all-IsSound client (a ∷ rest) st sound =
      port_close_all-IsSound client rest _ (elim (Bool-cases (st.db.valid a)) [
        | inl here ↦
            if_both IsSound (st.db.valid a && ((st.entry a).cud == client))
              (port_close-IsSound a st here sound) sound
        | inr not_here ↦ rw not_here sound
      ])

  -- The last step of the registration: JACK has given the port `e.port`.
  new_pud-IsSound :
      (e : Entry) (u : Option ℕ × Database t) (j : k.J) (st : Ports t k)
      → tracked k server st.jack e.port ≡ false
      → ((q : ℕ) → tracked k server j q ≡ with_one e.port (tracked k server st.jack) q)
      → IsNew t doc st.db u
      → IsSound st
      → IsSound (new_pud t k e u (record st { jack = j })).1
  new_pud-IsSound e (none, db) j st unknown o made sound = record {
    paired =
        same-IsPaired st.db.valid db.valid (port_of st) (port_of st) (tracked k server st.jack)
          (tracked k server (k.port_unregister j e.port).1) (λ i. ap (λ f. f i) made.1) (λ i. refl)
          (λ q.
            tracked-unregister k server j e.port q
            ∙ (ap (λ b. if q == e.port then false else b) (o q)
                ∙ without-with_one e.port q (tracked k server st.jack) unknown))
          sound.paired;
    kept = λ i v. ap (λ tree. t.find tree i) made.0 ∙ sound.kept i (sym (ap (λ f. f i) made.1) ∙ v);
  }
  new_pud-IsSound e (some a, db) j st unknown o made sound = record {
    paired =
        same-IsPaired (with_one a st.db.valid) db.valid (with_port a e.port (port_of st)) _
          (with_one e.port (tracked k server st.jack)) (tracked k server j) made.2
          (λ i. port_if (i == a) e (st.entry i)) o
          (new-IsPaired st.db.valid (port_of st) (tracked k server st.jack) a e.port
            (unfound st a made.0 sound) unknown sound.paired);
    kept = λ i v. made.1 i ∙ elim (with_one_cases a i st.db.valid (sym (made.2 i) ∙ v)) [
      | inl (i_new, i_same) ↦ if_true (i == a) true (t.find st.db.tree i) i_same
      | inr (i_other, i_old) ↦
          if_false (i == a) true (t.find st.db.tree i) i_other ∙ sound.kept i i_old
    ];
  }

  made_port-IsSound :
      (client : ℕ) (flags : PortFlags) (size : ℕ) (addr : Option ℕ) (r : Option ℕ × k.J)
      (st : Ports t k)
      → (r.0 ≡ none → (q : ℕ) → tracked k server r.1 q ≡ tracked k server st.jack q)
      → ((p : ℕ)
          → r.0 ≡ some p
          → (tracked k server st.jack p ≡ false)
            × ((q : ℕ) → tracked k server r.1 q ≡ with_one p (tracked k server st.jack) q))
      → IsFresh t doc addr st.db
      → IsSound st
      → IsSound (made_port t k client flags size addr r st).1
  made_port-IsSound client flags size addr (none, j) st given_none given fresh sound =
      same-IsSound st st.entry j (λ a. refl) (given_none refl) sound
  made_port-IsSound client flags size addr (some p, j) st given_none given fresh sound =
      let (unknown, o) = given p refl in
      new_pud-IsSound _ _ j st unknown o (xud_new-IsNew t doc addr st.db fresh) sound

  typed_port-IsSound :
      (client : ℕ) (name : Name) (flags : PortFlags) (typed : Option (Name × ℕ)) (addr : Option ℕ)
      (st : Ports t k)
      → IsFresh t doc addr st.db
      → IsSound st
      → IsSound (typed_port t k client name flags typed addr st).1
  typed_port-IsSound client name flags none addr st fresh sound = sound
  typed_port-IsSound client name flags (some (type, size)) addr st fresh sound =
      made_port-IsSound client flags size addr _ st
        (tracked-register_none k server st.jack name type flags.jack size)
        (tracked-register_some k server st.jack name type flags.jack size) fresh sound

  pub port_register-IsSound :
      (flags : PortFlags) (allowed : Bool) (client : Checked) (name : Name) (opts : Option Options)
      (addr : Option ℕ) (st : Ports t k)
      → IsFresh t doc addr st.db
      → IsSound st
      → IsSound (port_register t k flags allowed client name opts addr st).1
  unfolding port_register
  port_register-IsSound flags false client name opts addr st fresh sound = sound
  port_register-IsSound flags true bad_argument name opts addr st fresh sound = sound
  port_register-IsSound flags true invalid_reference name opts addr st fresh sound = sound
  port_register-IsSound flags true (found client) name opts addr st fresh sound =
      typed_port-IsSound client name _ _ addr st fresh sound

  on_checked-IsSound :
      {A : Type 0} (f : ℕ → Ports t k → Outcome A × Ports t k) (c : Checked) (st : Ports t k)
      → ((a : ℕ) → c ≡ found a → IsSound (f a st).1)
      → IsSound st
      → IsSound (on_checked t k f c st).1
  on_checked-IsSound f (found a) st h sound = h a refl
  on_checked-IsSound f bad_argument st h sound = sound
  on_checked-IsSound f invalid_reference st h sound = sound

  pub on_pud-IsSound :
      {A : Type 0} (f : ℕ → Ports t k → Outcome A × Ports t k) (key : Option ℕ) (st : Ports t k)
      → ((a : ℕ) → st.db.valid a ≡ true → IsSound (f a st).1)
      → IsSound st
      → IsSound (on_pud t k f key st).1
  unfolding on_pud
  on_pud-IsSound f key st h sound =
      on_checked-IsSound f (xud_check t key st.db) st (λ a e. h a (found_valid t key a st.db e))
        sound

  in_jack-IsSound :
      (r : Outcome Unit × k.J) (st : Ports t k)
      → ((q : ℕ) → tracked k server r.1 q ≡ tracked k server st.jack q)
      → IsSound st
      → IsSound (in_jack t k r st).1
  in_jack-IsSound r st keeps sound = same-IsSound st st.entry r.1 (λ a. refl) keeps sound

  pub named_connect-IsSound :
      (name1 : Option Name) (name2 : Name) (st : Ports t k)
      → IsSound st
      → IsSound (named_connect t k name1 name2 st).1
  named_connect-IsSound none name2 st sound = sound
  named_connect-IsSound (some name1) name2 st sound =
      in_jack-IsSound (connect k st.jack name1 name2) st
        (connect_keeps_ports k server st.jack name1 name2) sound

  named_disconnect-IsSound :
      (name1 : Option Name) (name2 : Name) (st : Ports t k)
      → IsSound st
      → IsSound (named_disconnect t k name1 name2 st).1
  named_disconnect-IsSound none name2 st sound = sound
  named_disconnect-IsSound (some name1) name2 st sound =
      in_jack-IsSound (disconnect k st.jack name1 name2) st
        (disconnect_keeps_ports k server st.jack name1 name2) sound

  pub port_disconnect-IsSound :
      (name2 : Option Name) (a : ℕ) (st : Ports t k)
      → IsSound st
      → IsSound (port_disconnect t k name2 a st).1
  unfolding port_disconnect
  port_disconnect-IsSound none a st sound =
      in_jack-IsSound (disconnected k (k.port_disconnect st.jack (port_of st a))) st
        (port_disconnect_keeps_ports k server st.jack (port_of st a)) sound
  port_disconnect-IsSound (some name2) a st sound =
      named_disconnect-IsSound (k.port_name st.jack (port_of st a)) name2 st sound

  same_port :
      (b : Bool) (i a : ℕ) (st : Ports t k)
      → (b ≡ true) ↔ (i ≡ a)
      → (if b then port_of st a else port_of st i) ≡ port_of st i
  same_port true i a st same = ap (port_of st) (sym (same.0 refl))
  same_port false i a st same = refl

  pub port_flags-IsSound : (a : ℕ) (st : Ports t k) → IsSound st → IsSound (port_flags t k a st).1
  unfolding port_flags
  port_flags-IsSound a st sound =
      same-IsSound st _ st.jack
        (λ i. port_if (i == a) _ (st.entry i) ∙ same_port (i == a) i a st (==_iff i a)) (λ q. refl)
        sound
