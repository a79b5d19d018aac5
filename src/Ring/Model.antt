-- ===== src/Ring/Model.antt =====
-- A ringbuffer with the behaviour that jack/ringbuffer.h documents, for tests: its capacity, the
-- bytes that wait, and the bytes stored but not yet advanced over. The first writable part ends in
-- the middle of the free space, so that both ways through the writable and readable parts run.
use luajack.Prelude.{
  ℕ, ◌+◌, ◌-◌, ◌/◌, refl, sym, ap, Option, none, some, List, [], ◌++◌, length, take, drop, arith,
  length-take, take-append-drop, take_all,
}
use luajack.Ring.Api.{Ringbuffer, Documented}

pub record ListRing : Type 0 where
  pub waiting : List ℕ
  pub stored : List ℕ
  pub free : ℕ

abbrev pub list_ring : Ringbuffer
list_ring = record {
  Rb = ListRing;
  create = λ n. some (record { waiting = []; stored = []; free = n });
  mlock = λ r. r;
  reset = λ r. record { waiting = []; stored = []; free = r.free + length r.waiting };
  write_space = λ r. r.free;
  read_space = λ r. length r.waiting;
  write = λ r d. (
    length (take r.free d),
    record r { waiting = r.waiting ++ take r.free d; free = r.free - length (take r.free d) },
  );
  peek = λ r n. take n r.waiting;
  read_advance = λ r n. record r { waiting = drop n r.waiting; free = r.free + n };
  write_vector = λ r. (r.free / 2, r.free - r.free / 2);
  store = λ r a b. record r { stored = a ++ b };
  write_advance = λ r n. record r { waiting = r.waiting ++ r.stored; free = r.free - n };
  read_vector = λ r. (take 10 r.waiting, drop 10 r.waiting);
}

abbrev waiting_of : Option ListRing → List ℕ
waiting_of none = []
waiting_of (some r) = r.waiting

abbrev pub list_ring-Documented : Documented list_ring
list_ring-Documented = record {
  contents = λ r. r.waiting;
  create_empty = λ n rb e. sym (ap waiting_of e);
  mlock_keeps = λ rb. refl;
  reset_empty = λ rb. refl;
  read_space_lem = λ rb. refl;
  write_count = λ rb d h. ap length (take_all rb.free d h);
  write_contents = λ rb d h. ap (◌++◌ rb.waiting) (take_all rb.free d h);
  write_space_left = λ rb d h. omega (arith, length-take rb.free d);
  peek_lem = λ rb n. refl;
  read_advance_contents = λ rb n h. refl;
  read_advance_space = λ rb n h. refl;
  write_vector_lem = λ rb. omega arith;
  store_contents = λ rb a b n ha hb f e. refl;
  store_space = λ rb a b n h. omega arith;
  read_vector_lem = λ rb. take-append-drop 10 rb.waiting;
}
