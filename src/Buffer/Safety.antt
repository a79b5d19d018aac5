-- ===== src/Buffer/Safety.antt =====
-- The functions of src/buffer.c for audio and custom ports, one after the other in any order: the
-- position stays in the buffer and no memory outside of it is accessed.
use luajack.Prelude.{
  ℕ, suc, ◌+◌, ◌≤◌, ◌≡◌, refl, sym, subst, Bool, Option, none, some, List, [], ◌∷◌, length, take,
  ltb, ◌==◌, inl, inr, arith, ℕ-cases, lt→ltb, le→leb, lt→leb, ◌-◌, le→ltb, if_both, length-take,
  length-replicate,
}
use luajack.Buffer.{
  Pud, Outcome, returned, raised, overrun, Error, not_output, not_input, no_buffer, stack_full,
  bad_argument, IntArg, absent, integer, not_integer, smaller, avail, set, audio_write, audio_clear,
  audio_read, audio_seek, get_buffer, opt_u32, check, or_raise, pushed, read_some, seek_to, to_size,
  stored, retrieve,
}
use luajack.Buffer.Custom.{
  CustomArg, sample, wrong_size, not_string, custom_read, custom_write, put_samples,
}
use luajack.Buffer.Memory.{
  store_all, fill_lem, push_samples_lem, length-overwrite, smaller_le, length-set, numbers,
  overwrite,
}

-- What the buffer's fields say of the memory.
abbrev pub Fits : {S : Type 0} → Option (List S) → ℕ → ℕ → Type 0
Fits none n p = Unit
Fits (some b) n p = (length b ≡ n) × (p ≤ n)

abbrev pub IsValid : {S : Type 0} → Pud (List S) → Type 0
IsValid pud = Fits pud.buf pud.nframes pud.bufp

-- The outcome is no access outside the buffer, and the port's state is valid.
abbrev pub Safe : {S A : Type 0} → Outcome (Pud (List S)) A → Type 0
Safe (returned a pud) = IsValid pud
Safe (raised e pud) = IsValid pud
Safe overrun = ⊥

pub bufp-avail :
    {B : Type 0} (pud : Pud B) → pud.bufp ≤ pud.nframes → pud.bufp + avail pud ≡ pud.nframes
bufp-avail pud h = ground arith

module _ {S A : Type 0} where
  pub check-Safe :
      (c : Bool) (e : Error) (pud : Pud (List S)) (k : Outcome (Pud (List S)) A)
      → IsValid pud
      → Safe k
      → Safe (check c e pud k)
  check-Safe c e pud k valid safe = if_both Safe c safe valid

  pub or_raise-Safe :
      {B : Type 0} (o : Option B) (e : Error) (pud : Pud (List S))
      (k : B → Outcome (Pud (List S)) A)
      → IsValid pud
      → ((b : B) → Safe (k b))
      → Safe (or_raise o e pud k)
  or_raise-Safe none e pud k valid safe = valid
  or_raise-Safe (some b) e pud k valid safe = safe b

  -- The functions that need the buffer.
  pub buffer-Safe :
      (o : Option (List S)) (pud : Pud (List S)) (k : List S → Outcome (Pud (List S)) A)
      → Fits o pud.nframes pud.bufp
      → IsValid pud
      → ((b : List S) → o ≡ some b → length b ≡ pud.nframes → pud.bufp ≤ pud.nframes → Safe (k b))
      → Safe (or_raise o no_buffer pud k)
  buffer-Safe none pud k fits valid safe = valid
  buffer-Safe (some b) pud k (len, le) valid safe = safe b refl len le

module _ {S : Type 0} where
  stored-Safe :
      (pud : Pud (List S)) (vs b : List S) (n : ℕ)
      → length vs ≡ n
      → length b ≡ pud.nframes
      → pud.bufp + n ≤ pud.nframes
      → Safe (stored pud (some (overwrite pud.bufp vs b, n)))
  stored-Safe pud vs b n vl bl h = (
    let e : length (overwrite pud.bufp vs b) ≡ pud.nframes =
          omega (arith, length-overwrite pud.bufp vs b (omega arith)) in
        e,
    h,
  )

  pub audio_write-Safe :
      (args : List (Option S)) (pud : Pud (List S)) → IsValid pud → Safe (audio_write args pud)
  unfolding audio_write
  audio_write-Safe args pud valid = buffer-Safe pud.buf pud _ valid valid (λ b found len le.
      check-Safe pud.output not_output pud _ valid (
        let vs : List S = take (avail pud) (numbers args) in
        subst (λ r. Safe (stored pud r))
          (sym (store_all args b pud.bufp (avail pud) (omega (arith, bufp-avail pud le))))
          (stored-Safe pud vs b (length vs) refl len
            (omega (arith, bufp-avail pud le, length-take (avail pud) (numbers args))))))

  pub audio_clear-Safe :
      (v : S) (arg : IntArg) (pud : Pud (List S)) → IsValid pud → Safe (audio_clear v arg pud)
  unfolding audio_clear
  audio_clear-Safe v arg pud valid = buffer-Safe pud.buf pud _ valid valid (λ b found len le.
      check-Safe pud.output not_output pud _ valid (
        or_raise-Safe (opt_u32 arg (avail pud)) bad_argument pud _ valid (λ n.
          let room : pud.bufp + smaller n (avail pud) ≤ pud.nframes =
            omega (arith, bufp-avail pud le, (smaller_le n (avail pud)).1) in
          subst (λ r. Safe (stored pud r))
            (sym (fill_lem v b pud.bufp (smaller n (avail pud)) (omega arith)))
            (stored-Safe pud _ b _ (length-replicate (smaller n (avail pud)) v) len room))))

  pub read_some-Safe :
      (grows : ℕ → Bool) (count : ℕ) (b : List S) (pud : Pud (List S))
      → pud.buf ≡ some b
      → IsValid pud
      → length b ≡ pud.nframes
      → pud.bufp ≤ pud.nframes
      → Safe (read_some grows count b pud)
  read_some-Safe grows count b pud found valid len le = if_both Safe (avail pud == 0) valid (
      check-Safe (grows (smaller count (avail pud))) stack_full pud _ valid (
        let room : pud.bufp + smaller count (avail pud) ≤ pud.nframes =
          omega (arith, bufp-avail pud le, (smaller_le count (avail pud)).1) in
        subst (λ r. Safe (pushed pud (smaller count (avail pud)) r))
          (sym (push_samples_lem (smaller count (avail pud)) pud.bufp b (omega arith)))
          (subst (λ o. Fits o pud.nframes (pud.bufp + smaller count (avail pud))) (sym found)
            (len, room))))

  pub audio_read-Safe :
      (grows : ℕ → Bool) (arg : IntArg) (pud : Pud (List S))
      → IsValid pud
      → Safe (audio_read grows arg pud)
  unfolding audio_read
  audio_read-Safe grows arg pud valid = or_raise-Safe (opt_u32 arg 1) bad_argument pud _ valid (λ n.
      buffer-Safe pud.buf pud _ valid valid (λ b found len le.
        check-Safe pud.input not_input pud _ valid
          (read_some-Safe grows n b pud found valid len le)))

  pub custom_read-Safe :
      (grows : ℕ → Bool) (arg : IntArg) (pud : Pud (List S))
      → IsValid pud
      → Safe (custom_read grows arg pud)
  unfolding custom_read
  custom_read-Safe grows arg pud valid =
      or_raise-Safe (opt_u32 arg 1) bad_argument pud _ valid (λ n.
        buffer-Safe pud.buf pud _ valid valid
          (λ b found len le. read_some-Safe grows n b pud found valid len le))

  seek_to-Safe :
      (arg : IntArg) (b : List S) (pud : Pud (List S))
      → pud.buf ≡ some b
      → IsValid pud
      → length b ≡ pud.nframes
      → Safe (seek_to arg pud)
  seek_to-Safe absent b pud found valid len = valid
  seek_to-Safe not_integer b pud found valid len = valid
  seek_to-Safe (integer z) b pud found valid len = elim (ℕ-cases (to_size z) pud.nframes) [
    | inl le ↦
        rw (le→leb _ _ le) (subst (λ o. Fits o pud.nframes (to_size z)) (sym found) (len, le))
    | inr gt ↦ rw (lt→leb _ _ gt) valid
  ]

  pub audio_seek-Safe :
      (arg : IntArg) (pud : Pud (List S)) → IsValid pud → Safe (audio_seek arg pud)
  unfolding audio_seek
  audio_seek-Safe arg pud valid =
      buffer-Safe pud.buf pud _ valid valid
        (λ b found len le. seek_to-Safe arg b pud found valid len)

  put_samples-Safe :
      (args : List (CustomArg S)) (space n : ℕ) (b : List S) (pud : Pud (List S))
      → pud.buf ≡ some b
      → length b ≡ pud.nframes
      → pud.bufp + (space - n) ≤ pud.nframes
      → Safe (put_samples args space n b pud)
  unfolding put_samples
  put_samples-Safe [] space n b pud found len h =
      subst (λ o. Fits o pud.nframes pud.bufp) (sym found) (len, omega arith)
  put_samples-Safe (not_string ∷ args) space n b pud found len h =
      subst (λ o. Fits o pud.nframes pud.bufp) (sym found) (len, omega arith)
  put_samples-Safe (wrong_size ∷ args) space n b pud found len h =
      let valid : IsValid pud =
        subst (λ o. Fits o pud.nframes pud.bufp) (sym found) (len, omega arith) in
      if_both Safe (ltb n space) valid valid
  put_samples-Safe (sample v ∷ args) space n b pud found len h =
      let valid : IsValid pud =
        subst (λ o. Fits o pud.nframes pud.bufp) (sym found) (len, omega arith) in
      elim (ℕ-cases space n) [
        | inl full ↦ rw (le→ltb _ _ full) valid
        | inr room ↦
            rw (lt→ltb _ _ room, lt→ltb pud.bufp (length b) (omega arith))
              (put_samples-Safe args space (suc n) (set b pud.bufp v) _ refl
                (let e : length (set b pud.bufp v) ≡ pud.nframes =
                    omega (arith, length-set b pud.bufp v) in
                  e)
                (omega arith))
      ]

  pub custom_write-Safe :
      (args : List (CustomArg S)) (pud : Pud (List S)) → IsValid pud → Safe (custom_write args pud)
  unfolding custom_write
  custom_write-Safe args pud valid = buffer-Safe pud.buf pud _ valid valid (λ b found len le.
      check-Safe pud.output not_output pud _ valid
        (put_samples-Safe args (avail pud) 0 b pud found len (omega (arith, bufp-avail pud le))))

  retrieve-Safe :
      (o given : Option (List S)) (pud : Pud (List S))
      → Fits given pud.period 0
      → pud.buf ≡ o
      → IsValid pud
      → Safe (retrieve o given pud)
  retrieve-Safe (some b) given pud fits found valid = valid
  retrieve-Safe none none pud fits found valid =
      subst (λ o. Fits o pud.period pud.bufp) (sym found) tt
  retrieve-Safe none (some b) pud fits found valid = fits

  pub get_buffer-Safe :
      (given : Option (List S)) (pud : Pud (List S))
      → Fits given pud.period 0
      → IsValid pud
      → Safe (get_buffer given pud)
  unfolding get_buffer
  get_buffer-Safe given pud fits valid = retrieve-Safe pud.buf given pud fits refl valid
