-- ===== src/Clients.antt =====
-- The activation of clients in src/client.c, with the number of active clients. Whether the caller is
-- the main thread and whether JACK's call succeeds are arguments. The number, a size_t, does not reach
-- its bound.
pub mod Count
pub mod Close
mod Tests
use luajack.Prelude.{ℕ, suc, ◌-◌, Bool, true, false, ◌==◌, ltb, if◌then◌else◌}

-- Activate_ and Deactivate_: whether 0 is returned, and luajack_active_clients.
pub activate : Bool → Bool → ℕ → Bool × ℕ
activate main ok active =
    if main then (if ok then (true, suc active) else (false, suc active - 1)) else (false, active)

pub deactivate : Bool → Bool → ℕ → Bool × ℕ
deactivate main ok active =
    if main
    then (if active == 0
        then (false, active)
        else if ok
        then (true, active - 1)
        else (false, suc (active - 1)))
    else (false, active)

-- What client_close does to the number; it does not look at what Deactivate_ returns.
pub client_close : Bool → Bool → ℕ → ℕ
client_close main ok active = (deactivate main ok active).1

-- luajack_checkcreate: whether objects may be created.
pub checkcreate : Bool → ℕ → Bool
checkcreate main active = if main then (if ltb 0 active then false else true) else false
