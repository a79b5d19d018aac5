-- ===== src/Errors/First.antt =====
-- Which error the main thread raises.
use luajack.Prelude.{
  if_true, if_false, ℕ, ◌+◌, ◌≤◌, ◌≡◌, refl, sym, ap, ◌∙◌, Bool, true, false, Option, none, some,
  List, [], ◌∷◌, ◌++◌, length, take, drop, if◌then◌else◌, arith, le→ltb, take_all, take-append,
  append_assoc, ne→==,
}
use luajack.Events.Api.{Pipe}
use luajack.Errors.{
  Status, Report, registered, with_text, rendered, errorv, checkerror, raises, c_string, blit,
  store_text, errmsg_len,
}

-- No byte of a text is zero.
abbrev pub NoZero : List ℕ → Type 0
NoZero [] = Unit
NoZero (x ∷ xs) = ¬ (x ≡ 0) × NoZero xs

c_string-append : (text rest : List ℕ) → NoZero text → c_string (text ++ (0 ∷ rest)) ≡ text
c_string-append [] rest h = refl
c_string-append (x ∷ xs) rest (nz, h) = rw (ne→== x 0 nz) (ap (◌∷◌ x) (c_string-append xs rest h))

NoZero-append : (text : List ℕ) → NoZero text → NoZero (text ++ (10 ∷ []))
NoZero-append [] h = ((λ e. absurd (omega arith)), tt)
NoZero-append (x ∷ xs) (nz, h) = (nz, NoZero-append xs h)

-- The string that the two writes of a short text leave.
stored_text :
    (text mem : List ℕ)
    → length text ≤ 253
    → NoZero text
    → (new : List ℕ) × ((store_text (some text) mem ≡ some new)
        × (c_string new ≡ text ++ (10 ∷ [])))
stored_text text mem short h =
    let tail = drop (length (text ++ (0 ∷ []))) mem in
    let kept : take (length text) ((text ++ (0 ∷ [])) ++ tail) ≡ text =
      ap (take (length text)) (append_assoc text (0 ∷ []) tail)
      ∙ take-append (length text) text (0 ∷ tail) refl in
    (
      blit (length text) (10 ∷ 0 ∷ []) ((text ++ (0 ∷ [])) ++ tail),
      (
        rw (le→ltb errmsg_len (length text + 2) (omega arith), take_all 253 text short)
            (ap (λ i. some (blit (length text) (10 ∷ 0 ∷ []) ((text ++ (0 ∷ [])) ++ drop i mem)))
              (omega arith)),
        rw kept (
            ap c_string (
              sym (
                append_assoc text (10 ∷ [])
                  (0 ∷ drop (length text + 2) ((text ++ (0 ∷ [])) ++ tail))))
            ∙ c_string-append (text ++ (10 ∷ [])) _ (NoZero-append text h)),
      ),
    )

if_same : {A : Type 0} (b : Bool) {x y : A} → x ≡ y → (if b then x else y) ≡ y
if_same true e = e
if_same false e = refl

module _ (pipe : Pipe) where
  abbrev and_then :
      Option (Status pipe) → (Status pipe → Option (Status pipe)) → Option (Status pipe)
  and_then none k = none
  and_then (some st) k = k st

  abbrev pub reports : List Report → Status pipe → Option (Status pipe)
  reports [] st = some st
  reports (r ∷ rs) st = and_then (errorv pipe r st) (reports rs)

  later_ignored :
      (rs : List Report) (st : Status pipe) → st.exiting ≡ true → reports rs st ≡ some st
  unfolding errorv
  later_ignored [] st h = refl
  later_ignored (r ∷ rs) st h =
      ap (λ o. and_then o (reports rs)) (if_same r.lock_free (if_true st.exiting _ _ h))
      ∙ later_ignored rs st h

  -- The first error that is registered is the one that the main thread raises, with a newline behind
  -- its text, whatever is reported after it in any thread, if its text has at most 253 bytes, none of
  -- them zero.
  pub first_error_raised :
      (code : Bool) (text : List ℕ) (rs : List Report) (st : Status pipe)
      → st.exiting ≡ false
      → length text ≤ 253
      → NoZero text
      → (st2 : Status pipe) × ((reports
              (record { lock_free = true; code = code; format = rendered (some text) } ∷ rs)
              st
            ≡ some st2)
          × (checkerror pipe st2 ≡ raises (text ++ (10 ∷ []))))
  unfolding errorv checkerror
  first_error_raised code text rs st running short h =
      let (new, (stored, string)) = stored_text text st.text short h in
      (
        registered pipe code true new st,
        (
          ap (λ o. and_then o (reports rs))
                (if_false st.exiting _ _ running ∙ ap (λ m. with_text pipe code m st) stored)
              ∙ later_ignored rs (registered pipe code true new st) refl,
          ap raises string,
        ),
      )
