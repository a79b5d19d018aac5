-- ===== src/Rbuf/Reference.antt =====
-- The reference that a script gets for a new ringbuffer.
use luajack.Prelude.{
  ℕ, ◌^◌, ◌≤◌, ◌<◌, ◌≡◌, refl, sym, ap, ◌∙◌, Bool, Option, none, some, ltb, if◌then◌else◌, ℤ,
  of_i32, arith, ◌==◌, ne→==, eq→==, ℕ-cases, inl, inr, le→ltb, lt→ltb,
}
use luajack.Ring.{ringbuffer_new}
use luajack.Ring.Api.{Ringbuffer}
use luajack.Events.Api.{Pipe}
use luajack.Database.{Database, Checked, found, xud_new, xud_check}
use luajack.Database.Api.{Tree, IsTree}
use luajack.Database.References.{new_is_found, new_answer}
use luajack.Buffer.{to_size}
use luajack.Rbuf.{Outcome, value, Rbufs, int_of, rbuf_new, rud_check, new_rud, new_piped, new_pipe}

-- An address below 2^31 is the same as an int; another one below 2^63 is not.
int_of-low : (a : ℕ) → a < 2 ^ 31 → to_size (int_of a) ≡ a
unfolding int_of of_i32
int_of-low a h = ground arith

int_of-high : (a : ℕ) → 2 ^ 31 ≤ a → a < 2 ^ 63 → ¬ (to_size (int_of a) ≡ a)
unfolding int_of of_i32
int_of-high a low high e = ground arith

module _ (t : Tree) (j : Ringbuffer) (pipe : Pipe) where
  -- Where rbuf_new returns an integer, it is that of the address of the new entry.
  New : Outcome ℤ × Rbufs t j pipe → Option ℕ × Database t → ℤ → Type 0
  New r u z = (a : ℕ) × (u.0 ≡ some a) × (z ≡ int_of a) × (r.1.db ≡ u.1)

  new_rud_lem :
      (client : ℕ) (ring : Option j.Rb) (fd : Option pipe.P) (u : Option ℕ × Database t)
      (st : Rbufs t j pipe) (z : ℤ)
      → (new_rud t j pipe client ring fd u st).0 ≡ value z
      → New (new_rud t j pipe client ring fd u st) u z
  unfolding New
  new_rud_lem client ring fd (none, db) st z h = cc
  new_rud_lem client none fd (some a, db) st z h = cc
  new_rud_lem client (some rb) fd (some a, db) st z h = (a, refl, cc, refl)

  new_piped_lem :
      (client : ℕ) (ring : Option j.Rb) (addr : Option ℕ) (fd : Option (Option pipe.P))
      (st : Rbufs t j pipe) (z : ℤ)
      → (new_piped t j pipe client ring addr fd st).0 ≡ value z
      → New (new_piped t j pipe client ring addr fd st) (xud_new t addr st.db) z
  new_piped_lem client ring addr none st z h = cc
  new_piped_lem client ring addr (some fd) st z h = new_rud_lem client ring fd _ _ z h

module _ (t : Tree) (doc : IsTree t) (j : Ringbuffer) (pipe : Pipe) where
  found_low :
      (a z : ℕ) (was : Checked)
      → a < 2 ^ 63
      → z ≡ to_size (int_of a)
      → (if z == a then found z else was) ≡ (if ltb a (2 ^ 31) then found a else was)
  found_low a z was h e = elim (ℕ-cases (2 ^ 31) a) [
    | inl high ↦
        rw (ne→== z a (λ same. int_of-high a high h (sym e ∙ same)), le→ltb a (2 ^ 31) high) refl
    | inr low ↦
        let same : z ≡ a = e ∙ int_of-low a low in
        rw (eq→== z a same, lt→ltb a (2 ^ 31) low) (ap found same)
  ]

  -- When rbuf_new makes a ringbuffer at an address below 2^63, the integer that the script gets is
  -- accepted by rud_check, and stands for the new ringbuffer, if the address is below 2^31; otherwise
  -- rud_check makes of this integer what it made of it before.
  pub new_reference :
      (client sz : ℕ) (mlock usepipe : Bool) (made : Option pipe.P) (a : ℕ) (st : Rbufs t j pipe)
      (z : ℤ)
      → a < 2 ^ 63
      → let r = rbuf_new t j pipe client sz mlock usepipe made (some a) st in
        r.0 ≡ value z
        → rud_check t j pipe (some z) r.1
          ≡ (if ltb a (2 ^ 31) then found a else rud_check t j pipe (some z) st)
  unfolding New rbuf_new rud_check
  new_reference client sz mlock usepipe made a st z small h =
      let u = xud_new t (some a) st.db in
      let made_lem =
        new_piped_lem t j pipe client (ringbuffer_new j sz mlock) (some a)
          (new_pipe t j pipe usepipe made) st z h in
      let (b, answer, is_int, db) = made_lem in
      let same = new_answer t doc a b st.db answer in
      let key : to_size z ≡ to_size (int_of a) = ap to_size (is_int ∙ ap int_of (sym same)) in
      ap (xud_check t (some (to_size z))) db
      ∙ (new_is_found t doc a (to_size z) st.db (answer ∙ ap some (sym same))
          ∙ found_low a (to_size z) (xud_check t (some (to_size z)) st.db) small key)
