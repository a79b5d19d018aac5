-- ===== src/Clients/Tests.antt =====
-- The counting of active clients and the closure of a client at concrete inputs.
use luajack.Prelude.{ℕ, none, ◌==◌, ◌&&◌, if_true, ◌≡◌, refl, true, false, List, [], ◌∷◌, ◌↔◌}
use luajack.Clients.{activate, deactivate, checkcreate}
use luajack.Clients.Close.{Session, Visited, VisitsAll, close_client, closed_client_is_gone}
use luajack.Database.Api.{member}
use luajack.Database.Model.{key_list, key_list-IsTree}
use luajack.Ring.Model.{list_ring}
use luajack.Events.Model.{small_pipe}
use luajack.Registry.Model.{value_list}
use luajack.Ports.Model.{port_list, port_list-IsServer}
use luajack.Ports.Register.Lifetime.{IsSound}
use luajack.Ports.Sample.{two_ports, two_ports_kept, two_ports-IsSound}
use luajack.Clients.Count.{
  Call, activated, deactivated, closed, counts, actives, create_when_inactive,
}

-- Two clients are activated, one more in vain; both are closed or deactivated.
abbrev calls : List Call
calls =
    activated 1 true
    ∷ activated 2 false
    ∷ activated 3 true
    ∷ closed 1 true
    ∷ deactivated 3 false
    ∷ deactivated 3 true
    ∷ []

create_when_inactive_example : (checkcreate true (counts calls 0) ≡ true) ↔ (actives calls [] ≡ [])
create_when_inactive_example =
    create_when_inactive calls [] (refl, (refl, (refl, (refl, (refl, (refl, (refl, tt)))))))

-- A client that is activated twice counts twice, and can be deactivated once.
activated_twice : counts (activated 1 true ∷ activated 1 true ∷ deactivated 1 true ∷ []) 0 ≡ 1
unfolding activate deactivate
activated_twice = refl

-- The client at 5 has a thread, a ringbuffer and the port at 10; the port at 20 is another client's.
abbrev session : Session key_list list_ring small_pipe port_list value_list value_list
session = record {
  active = 1;
  clients = record { tree = 5 ∷ 6 ∷ []; valid = λ a. true; freed = [] };
  tuds = record { db = record { tree = 40 ∷ []; valid = λ a. a == 40; freed = [] }; cud = λ a. 5 };
  rbufs = record {
    db = record { tree = 50 ∷ []; valid = λ a. a == 50; freed = [] };
    chan = λ a. none;
    cud = λ a. 5;
    pipes = 0;
  };
  ports = two_ports;
  callbacks = record {
    registry = [];
    client = record {
      sample_rate = none;
      xrun = none;
      graph_order = none;
      freewheel = none;
      client_registration = none;
      port_registration = none;
      port_rename = none;
      port_connect = none;
      shutdown = none;
      latency = none;
      session = none;
    };
  };
  has_process = false;
  real_time = record {
    registry = [];
    client = record { process = none; buffer_size = none; sync = none; timebase = none };
  };
}

abbrev seen : Visited key_list list_ring small_pipe port_list value_list value_list
seen = record { threads = 40 ∷ []; ringbuffers = 50 ∷ []; ports = 10 ∷ 20 ∷ [] }

one_valid : (a x : ℕ) → (a == x) ≡ true → member a (x ∷ []) ≡ true
one_valid a x v = if_true (a == x) true false v

seen-VisitsAll :
    VisitsAll key_list key_list-IsTree list_ring small_pipe port_list port_list-IsServer value_list
      value_list seen session
seen-VisitsAll = record {
  threads = λ a v. one_valid a 40 v;
  ringbuffers = λ a v. one_valid a 50 v;
  ports = two_ports_kept;
}

closed_client_is_gone_example :
    let after =
      close_client key_list list_ring small_pipe port_list value_list value_list true true seen 5
        session in
    (after.clients.valid 5 ≡ false)
    × ((after.tuds.db.valid 40 && (after.tuds.cud 40 == 5)) ≡ false)
    × ((after.rbufs.db.valid 40 && (after.rbufs.cud 40 == 5)) ≡ false)
    × ((after.ports.db.valid 40 && ((after.ports.entry 40).cud == 5)) ≡ false)
    × IsSound key_list key_list-IsTree port_list port_list-IsServer after.ports
closed_client_is_gone_example =
    closed_client_is_gone key_list key_list-IsTree list_ring small_pipe port_list port_list-IsServer
      value_list value_list true true seen 5 40 session seen-VisitsAll two_ports-IsSound
