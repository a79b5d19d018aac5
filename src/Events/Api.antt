-- ===== src/Events/Api.antt =====
-- What src/evt.c and src/syncpipe.c use of others: the SIMPLEQ macros of src/queue.h (a copy of the
-- BSD queue header) and the non-blocking pipe of the operating system.
use luajack.Prelude.{ℕ, ◌+◌, ◌<◌, ◌≡◌, Option, List, [], ◌∷◌, ◌++◌, none, some}

-- A queue of pointers, for which the values pointed to stand.
pub record Simpleq (A : Type 0) : Type 1 where
  pub Q : Type 0
  pub first : Q → Option A
  pub insert_tail : Q → A → Q
  pub remove_head : Q → Q

abbrev pub head {ℓ} : {A : Type ℓ} → List A → Option A
head [] = none
head (x ∷ xs) = some x

abbrev pub tail {ℓ} : {A : Type ℓ} → List A → List A
tail [] = []
tail (x ∷ xs) = xs

module _ {A : Type 0} (s : Simpleq A) where
  open s use {Q, first, insert_tail, remove_head}

  pub record IsFifo : Type 0 where
    -- the elements, oldest first
    pub items : Q → List A
    pub first_lem : (q : Q) → first q ≡ head (items q)
    pub insert_lem : (q : Q) (a : A) → items (insert_tail q a) ≡ items q ++ (a ∷ [])
    pub remove_lem : (q : Q) → items (remove_head q) ≡ tail (items q)

-- What read(2) and write(2) of one byte return: the count, or -1 with EAGAIN or another errno.
pub data Io : Type 0 where
  count : ℕ → Io
  again fault : Io

pub record Pipe : Type 1 where
  pub P : Type 0
  pub write : P → Io × P
  pub read : P → Io × P

module _ (p : Pipe) where
  open p use {P, write, read}

  pub record IsPipe : Type 0 where
    -- the bytes written and not yet read
    pub pending : P → ℕ
    pub write_one : (s : P) → (write s).0 ≡ count 1 → pending (write s).1 ≡ pending s + 1
    -- a write blocks only where unread bytes fill the pipe
    pub write_again :
        (s : P) → (write s).0 ≡ again → (0 < pending s) × (pending (write s).1 ≡ pending s)
    pub read_one :
        (s : P) → 0 < pending s → ((read s).0 ≡ count 1) × (pending (read s).1 + 1 ≡ pending s)
    pub read_again : (s : P) → pending s ≡ 0 → ((read s).0 ≡ again) × (pending (read s).1 ≡ 0)
