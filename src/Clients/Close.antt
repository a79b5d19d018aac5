-- ===== src/Clients/Close.antt =====
-- The closure of a client by a script: client_close of src/client.c, which calls thread.c, rbuf.c,
-- port.c, callback.c and process.c one after the other.
use luajack.Prelude.{ℕ, ◌≡◌, refl, ◌∙◌, Bool, true, false, List, ◌==◌, ◌&&◌, if_true, eq→==}
use luajack.Clients.{deactivate}
use luajack.Database.{Database, cancel_valid}
use luajack.Database.Api.{Tree, IsTree, member}
use luajack.Database.Marks.{cancel_lem}
use luajack.Threads.All.{Tuds, thread_free_all, thread_free_all_leaves}
use luajack.Ring.Api.{Ringbuffer}
use luajack.Events.Api.{Pipe}
use luajack.Rbuf.{Rbufs, rbuf_free_all}
use luajack.Rbuf.Closing.{rbuf_free_all_leaves}
use luajack.Ports.Api.{Jack, IsServer}
use luajack.Ports.Register.{Ports, port_close_all}
use luajack.Ports.Register.Lifetime.{IsSound, port_close_all-IsSound}
use luajack.Ports.Register.Session.{port_close_all_leaves}
use luajack.Registry.{Registered}
use luajack.Registry.Api.{LuaRegistry}
use luajack.Callback.Register.{client_slots, callback_unregister}
use luajack.Realtime.Register.{process_slots, process_unregister}

module _ (t : Tree) (j : Ringbuffer) (pipe : Pipe) (k : Jack) (main process : LuaRegistry) where
  -- The databases, the number of active clients, and the references of the client that is closed in the
  -- registry of the main state and in that of its process state, if it has one.
  pub record Session : Type 0 where
    pub active : ℕ
    pub clients : Database t
    pub tuds : Tuds t
    pub rbufs : Rbufs t j pipe
    pub ports : Ports t k
    pub callbacks : Registered main client_slots
    pub has_process : Bool
    pub real_time : Registered process process_slots

  -- The entries that the loops of the three databases visit.
  pub record Visited : Type 0 where
    pub threads : List ℕ
    pub ringbuffers : List ℕ
    pub ports : List ℕ

  -- client_close called by a script (`L` is not NULL), in the main thread or not, with whether
  -- jack_deactivate succeeds.
  pub close_client : Bool → Bool → Visited → ℕ → Session → Session
  close_client is_main ok seen client s = record {
    active = (deactivate is_main ok s.active).1;
    clients = cancel_valid t client s.clients;
    tuds = thread_free_all t client seen.threads s.tuds;
    rbufs = (rbuf_free_all t j pipe client seen.ringbuffers s.rbufs).1;
    ports = port_close_all t k client seen.ports s.ports;
    callbacks = callback_unregister main s.callbacks;
    has_process = s.has_process;
    real_time = process_unregister process s.has_process s.real_time;
  }

module _ (t : Tree) (doc : IsTree t) (j : Ringbuffer) (pipe : Pipe) (k : Jack) (server : IsServer k)
    (main process : LuaRegistry) where
  -- Every valid entry is visited.
  pub record VisitsAll (seen : Visited t j pipe k main process)
      (s : Session t j pipe k main process) : Type 0 where
    pub threads : (a : ℕ) → s.tuds.db.valid a ≡ true → member a seen.threads ≡ true
    pub ringbuffers : (a : ℕ) → s.rbufs.db.valid a ≡ true → member a seen.ringbuffers ≡ true
    pub ports : (a : ℕ) → s.ports.db.valid a ≡ true → member a seen.ports ≡ true

  not_own : (valid own : Bool) → (valid ≡ true → own ≡ false) → (valid && own) ≡ false
  not_own true own h = h refl
  not_own false own h = refl

  -- After a client is closed, by loops that visit all valid entries, its reference is not valid; no
  -- entry `i` of a thread, ringbuffer or port is both valid and the client's; and the ports registered
  -- in JACK are still those of the valid references, so none of the client's is left, except those
  -- that JACK refused to unregister.
  pub closed_client_is_gone :
      (is_main ok : Bool) (seen : Visited t j pipe k main process) (client i : ℕ)
      (s : Session t j pipe k main process)
      → VisitsAll seen s
      → IsSound t doc k server s.ports
      → let after = close_client t j pipe k main process is_main ok seen client s in
        (after.clients.valid client ≡ false)
        × ((after.tuds.db.valid i && (after.tuds.cud i == client)) ≡ false)
        × ((after.rbufs.db.valid i && (after.rbufs.cud i == client)) ≡ false)
        × ((after.ports.db.valid i && ((after.ports.entry i).cud == client)) ≡ false)
        × IsSound t doc k server after.ports
  unfolding close_client
  closed_client_is_gone is_main ok seen client i s all sound = (
    cancel_lem t client client s.clients
        ∙ if_true (client == client) false (s.clients.valid client) (eq→== client client refl),
    not_own _ _ (thread_free_all_leaves t client seen.threads i s.tuds all.threads),
    not_own _ _ (rbuf_free_all_leaves t j pipe client seen.ringbuffers i s.rbufs all.ringbuffers),
    not_own _ _ (port_close_all_leaves t k client seen.ports i s.ports all.ports),
    port_close_all-IsSound t doc k server client seen.ports s.ports sound,
  )
