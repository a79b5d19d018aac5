-- ===== src/Errors/Tests.antt =====
-- The registration of errors over a pipe of three bytes, and its theorems at concrete inputs.
use luajack.Prelude.{◌≡◌, refl, true, false, none, some, List, [], ◌∷◌, replicate, arith}
use luajack.Events.Model.{small_pipe}
use luajack.Errors.{Status, Report, rendered, null, checkerror, errorv, raises, returns}
use luajack.Errors.First.{reports, first_error_raised}

abbrev running : Status small_pipe
running = record {
  exiting = false;
  code = false;
  errmsg = false;
  text = replicate 256 0;
  errpipe = 0;
}

nothing_yet : checkerror small_pipe running ≡ returns
unfolding checkerror
nothing_yet = refl

abbrev later : List Report
later =
    record { lock_free = true; code = false; format = null }
    ∷ record { lock_free = false; code = true; format = rendered none }
    ∷ []

first_error_raised_example :
    (st : Status small_pipe) × ((reports small_pipe
          (record { lock_free = true; code = true; format = rendered (some (72 ∷ 105 ∷ [])) }
            ∷ later)
          running
        ≡ some st)
      × (checkerror small_pipe st ≡ raises (72 ∷ 105 ∷ 10 ∷ [])))
first_error_raised_example =
    first_error_raised small_pipe true (72 ∷ 105 ∷ []) later running refl (omega arith)
      ((λ e. absurd (omega arith)), ((λ e. absurd (omega arith)), tt))

-- A text of 300 bytes is written past the end of luajack_errmsg.
long_error :
    reports small_pipe
      (record { lock_free = true; code = true; format = rendered (some (replicate 300 65)) }
        ∷ later)
      running
    ≡ none
unfolding errorv
long_error = refl
