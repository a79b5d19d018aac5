-- ===== src/Ring/Api.antt =====
-- The lock-free ringbuffer of the JACK library (jack/ringbuffer.h), which src/ringbuffer.c wraps and
-- which is not part of the repository: its calls are fields, and what JACK documents of them is
-- stated over the bytes that wait to be read.
use luajack.Prelude.{ℕ, ◌+◌, ◌≤◌, ◌≡◌, ◌⊎◌, List, [], ◌++◌, Option, some, length, take, drop}

pub record Ringbuffer : Type 1 where
  pub Rb : Type 0
  -- jack_ringbuffer_create, jack_ringbuffer_mlock, jack_ringbuffer_reset
  pub create : ℕ → Option Rb
  pub mlock : Rb → Rb
  pub reset : Rb → Rb
  pub write_space : Rb → ℕ
  pub read_space : Rb → ℕ
  -- jack_ringbuffer_write: the number of bytes written, and the ringbuffer
  pub write : Rb → List ℕ → ℕ × Rb
  -- jack_ringbuffer_peek: the bytes copied out; their number is the returned count
  pub peek : Rb → ℕ → List ℕ
  pub read_advance : Rb → ℕ → Rb
  -- jack_ringbuffer_get_write_vector: the lengths of the two writable parts
  pub write_vector : Rb → ℕ × ℕ
  -- memcpy to the start of the first and of the second writable part
  pub store : Rb → List ℕ → List ℕ → Rb
  pub write_advance : Rb → ℕ → Rb
  -- jack_ringbuffer_get_read_vector: the bytes of the two readable parts
  pub read_vector : Rb → List ℕ × List ℕ

module _ (j : Ringbuffer) where
  open j use {
    Rb, create, mlock, reset, write_space, read_space, write, peek, read_advance, write_vector,
    store, write_advance, read_vector,
  }

  pub record Documented : Type 0 where
    -- the bytes written and not yet read, oldest first
    pub contents : Rb → List ℕ
    pub create_empty : (n : ℕ) (rb : Rb) → create n ≡ some rb → contents rb ≡ []
    pub mlock_keeps : (rb : Rb) → contents (mlock rb) ≡ contents rb
    pub reset_empty : (rb : Rb) → contents (reset rb) ≡ []
    pub read_space_lem : (rb : Rb) → read_space rb ≡ length (contents rb)
    pub write_count : (rb : Rb) (d : List ℕ) → length d ≤ write_space rb → (write rb d).0 ≡ length d
    pub write_contents :
        (rb : Rb) (d : List ℕ)
        → length d ≤ write_space rb
        → contents (write rb d).1 ≡ contents rb ++ d
    pub write_space_left :
        (rb : Rb) (d : List ℕ)
        → length d ≤ write_space rb
        → write_space (write rb d).1 + length d ≡ write_space rb
    pub peek_lem : (rb : Rb) (n : ℕ) → peek rb n ≡ take n (contents rb)
    pub read_advance_contents :
        (rb : Rb) (n : ℕ)
        → n ≤ length (contents rb)
        → contents (read_advance rb n) ≡ drop n (contents rb)
    pub read_advance_space :
        (rb : Rb) (n : ℕ)
        → n ≤ length (contents rb)
        → write_space (read_advance rb n) ≡ write_space rb + n
    pub write_vector_lem : (rb : Rb) → (write_vector rb).0 + (write_vector rb).1 ≡ write_space rb
    -- the first part is filled before the second is used
    pub store_contents :
        (rb : Rb) (a b : List ℕ) (n : ℕ)
        → length a ≤ (write_vector rb).0
        → length b ≤ (write_vector rb).1
        → (length a ≡ (write_vector rb).0) ⊎ (b ≡ [])
        → length a + length b ≡ n
        → contents (write_advance (store rb a b) n) ≡ contents rb ++ (a ++ b)
    pub store_space :
        (rb : Rb) (a b : List ℕ) (n : ℕ)
        → n ≤ write_space rb
        → write_space (write_advance (store rb a b) n) + n ≡ write_space rb
    pub read_vector_lem : (rb : Rb) → (read_vector rb).0 ++ (read_vector rb).1 ≡ contents rb
