-- ===== src/Errors.antt =====
-- The registration of errors in src/main.c: luajack_error in any thread, and luajack_checkerror in the
-- main thread. What vsnprintf renders and whether the lock is free are arguments. Texts are bytes, and
-- memory is a list of them.
pub mod First
mod Tests
use luajack.Prelude.{
  ℕ, ◌+◌, Bool, true, false, Option, none, some, List, [], ◌∷◌, ◌++◌, length, take, drop, ltb, ◌==◌,
  if◌then◌else◌,
}
use luajack.Events.Api.{Pipe}
use luajack.Events.{syncpipe_write}

abbrev pub errmsg_len : ℕ
errmsg_len = 256

-- The format and its arguments: NULL, or the text, whole, that vsnprintf makes of them, `none` for its
-- error.
pub data Format : Type 0 where
  null : Format
  rendered : Option (List ℕ) → Format

-- A call of luajack_errorv_: whether the lock is free, the code, the text.
pub record Report : Type 0 where
  pub lock_free : Bool
  pub code : Bool
  pub format : Format

-- What luajack_checkerror does.
pub data Checked : Type 0 where
  returns : Checked
  raises : List ℕ → Checked
  exits : Bool → Checked

-- The memory with `bytes` written from the position `at` on.
abbrev pub blit : ℕ → List ℕ → List ℕ → List ℕ
blit at bytes mem = take at mem ++ (bytes ++ drop (at + length bytes) mem)

-- The text up to the terminating zero.
abbrev pub c_string : List ℕ → List ℕ
c_string [] = []
c_string (x ∷ xs) = if x == 0 then [] else x ∷ c_string xs

-- vsnprintf of at most LUAJACK_ERRMSG_LEN-2 bytes with the zero, then the newline and a zero at the
-- length that vsnprintf returns; `none` is a write past the end.
abbrev pub store_text : Option (List ℕ) → List ℕ → Option (List ℕ)
store_text none mem = some (blit 0 (0 ∷ []) mem)
store_text (some text) mem =
    if ltb errmsg_len (length text + 2)
    then none
    else some (blit (length text) (10 ∷ 0 ∷ []) (blit 0 (take 253 text ++ (0 ∷ [])) mem))

module _ (pipe : Pipe) where
  -- The flags of luajack_exit_status, luajack_errmsg, and the pipe that wakes the main thread.
  pub record Status : Type 0 where
    pub exiting : Bool
    pub code : Bool
    pub errmsg : Bool
    pub text : List ℕ
    pub errpipe : pipe.P

  abbrev pub registered : Bool → Bool → List ℕ → Status → Status
  registered code errmsg text st = record {
    exiting = true;
    code = code;
    errmsg = errmsg;
    text = text;
    errpipe = (syncpipe_write pipe st.errpipe).1;
  }

  abbrev pub with_text : Bool → Option (List ℕ) → Status → Option Status
  with_text code none st = none
  with_text code (some text) st = some (registered code true text st)

  abbrev store_report : Bool → Format → Status → Option Status
  store_report code null st = some (registered code false (blit 0 (0 ∷ []) st.text) st)
  store_report code (rendered t) st = with_text code (store_text t st.text) st

  -- luajack_errorv_; `none` is a write outside of luajack_errmsg.
  pub errorv : Report → Status → Option Status
  errorv r st =
      if r.lock_free
      then (if st.exiting then some st else store_report r.code r.format st)
      else some st

  pub checkerror : Status → Checked
  checkerror st =
      if st.exiting
      then (if st.errmsg then raises (c_string st.text) else exits st.code)
      else returns
