-- ===== src/Rbuf/Closing.antt =====
-- The release of a client's ringbuffers by rbuf_free_all of src/rbuf.c.
use luajack.Prelude.{
  ℕ, ◌≡◌, refl, sym, ap, ◌∙◌, subst, inl, inr, Bool, true, false, List, [], ◌∷◌, ◌==◌, ◌&&◌,
  if◌then◌else◌, if_both, Bool-cases, if_true, eq→==,
}
use luajack.Ring.Api.{Ringbuffer}
use luajack.Events.Api.{Pipe}
use luajack.Database.Api.{Tree, member}
use luajack.Database.Marks.{cancel_lem, cancelled_before}
use luajack.Database.Loops.{rounds, rounds_leave}
use luajack.Rbuf.{Outcome, value, error, crashed, followed_by, Rbufs, rbuf_free, rbuf_free_all}

module _ (t : Tree) (j : Ringbuffer) (pipe : Pipe) where
  -- A round of the loop.
  abbrev free_one : ℕ → ℕ → Rbufs t j pipe → Rbufs t j pipe
  free_one client a st =
      if st.db.valid a && (st.cud a == client) then (rbuf_free t j pipe a st).1 else st

  free_one_cud : (client a : ℕ) (st : Rbufs t j pipe) → (free_one client a st).cud ≡ st.cud
  unfolding rbuf_free
  free_one_cud client a st =
      if_both (λ (z : Rbufs t j pipe). z.cud ≡ st.cud) (st.db.valid a && (st.cud a == client)) refl
        refl

  free_one_before :
      (client a i : ℕ) (st : Rbufs t j pipe)
      → (free_one client a st).db.valid i ≡ true
      → st.db.valid i ≡ true
  unfolding rbuf_free
  free_one_before client a i st =
      if_both (λ (z : Rbufs t j pipe). z.db.valid i ≡ true → st.db.valid i ≡ true)
        (st.db.valid a && (st.cud a == client)) (cancelled_before t a i st.db) (λ v. v)

  free_one_frees :
      (client a : ℕ) (st : Rbufs t j pipe)
      → (st.cud a == client) ≡ true
      → (free_one client a st).db.valid a ≡ false
  unfolding rbuf_free
  free_one_frees client a st own = elim (Bool-cases (st.db.valid a)) [
    | inl here ↦
        rw (here, own)
          (cancel_lem t a a st.db ∙ if_true (a == a) false (st.db.valid a) (eq→== a a refl))
    | inr not_here ↦ rw not_here not_here
  ]

  followed_by_state :
      (o : Outcome Unit) (next : Outcome Unit × Rbufs t j pipe)
      → (followed_by t j pipe o next).1 ≡ next.1
  followed_by_state (value u) next = refl
  followed_by_state (error e) next = refl
  followed_by_state crashed next = refl

  if_ap :
      (b : Bool) (x y : Outcome Unit × Rbufs t j pipe)
      → (if b then x else y).1 ≡ (if b then x.1 else y.1)
  if_ap true x y = refl
  if_ap false x y = refl

  all_rounds :
      (client : ℕ) (visited : List ℕ) (st : Rbufs t j pipe)
      → (rbuf_free_all t j pipe client visited st).1
        ≡ rounds
            (λ s. s.db.valid)
            (λ s. s.cud)
            client
            (free_one client)
            (λ a i s. ap (λ f. f i) (free_one_cud client a s))
            (free_one_before client)
            (free_one_frees client)
            visited
            st
  unfolding rbuf_free_all
  all_rounds client [] st = refl
  all_rounds client (a ∷ rest) st =
      let freed =
        if st.db.valid a && (st.cud a == client) then rbuf_free t j pipe a st else (value tt, st) in
      followed_by_state freed.0 (rbuf_free_all t j pipe client rest freed.1)
      ∙ ap (λ z. (rbuf_free_all t j pipe client rest z).1)
          (if_ap (st.db.valid a && (st.cud a == client)) (rbuf_free t j pipe a st) (value tt, st))
      ∙ all_rounds client rest (free_one client a st)

  -- After rbuf_free_all over all valid entries, what is still valid is another client's.
  pub rbuf_free_all_leaves :
      (client : ℕ) (visited : List ℕ) (i : ℕ) (st : Rbufs t j pipe)
      → ((a : ℕ) → st.db.valid a ≡ true → member a visited ≡ true)
      → let after = (rbuf_free_all t j pipe client visited st).1 in
        after.db.valid i ≡ true → (after.cud i == client) ≡ false
  rbuf_free_all_leaves client visited i st all =
      subst (λ (z : Rbufs t j pipe). z.db.valid i ≡ true → (z.cud i == client) ≡ false)
        (sym (all_rounds client visited st))
        (rounds_leave (λ s. s.db.valid) (λ s. s.cud) client (free_one client)
          (λ a i s. ap (λ f. f i) (free_one_cud client a s)) (free_one_before client)
          (free_one_frees client) visited i st all)
