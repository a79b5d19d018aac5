-- ===== src/Lib.antt =====
-- LuaJack (Lua bindings for the JACK audio connection kit): a model of its C sources, and what they
-- do.
--
-- Scripts run in one main Lua state. JACK calls the library from threads of its own: what is not
-- real-time is queued as an event (src/evt.c) and dispatched later in the main thread
-- (src/callback.c). Lua states and C modules in other threads exchange messages over ringbuffers
-- (src/ringbuffer.c).
--
-- - Prelude: tests, lists over native numbers, C and Lua integers.
-- - Objects: the objects of src/structs.h.
-- - Ring: src/ringbuffer.c, function by function under the names of the source. The ringbuffer of
--   JACK is the parameter `Ring.Api.Ringbuffer`, with what jack/ringbuffer.h documents in
--   `Documented`, over the bytes that wait; `Ring.Model` has these laws. `Ring.Header` gives hdr_t the
--   eight bytes of a little-endian machine. `Ring.Mailbox` is the specification: the messages that
--   wait and the free bytes. `Ring.Refine`, `Ring.CInterface`,
--   `Ring.RoundTrip` and `Ring.Run` compare.
-- - Events: src/evt.c and src/syncpipe.c. `Events.Api` states what is used of the SIMPLEQ macros and
--   of a pipe. A function under the lock is one step. The loop of evt_free_all has fuel; more than the
--   number of events is enough.
-- - Callback: src/callback.c. The functions that JACK calls are `on_...`; the allocator's answers are
--   arguments, and `none` as their result is a write through NULL. `Callback.Dispatch` holds
--   callback_flush: `Turn` says for each event removed what cud_search finds, what lua_pcall returns,
--   which events arrive meanwhile, and how often a callback_flush that the script's function runs
--   through jack.sleep takes an event. What that one calls is not recorded.
-- - Buffer: src/buffer.c. A buffer is the list of its samples, over any type of samples; an access
--   outside of it is an outcome of its own. `Buffer` has the audio ports, `Buffer.Custom` the custom
--   ports and `Buffer.Midi` the MIDI ports, over the functions of jack/midiport.h as the parameter
--   `MidiPort`, with what they document in `Buffer.Midi.Copy.IsMidiPort`.
-- - Database: src/cud.c, src/pud.c, src/rud.c and src/tud.c, which are alike (`xud` stands for each).
--   The red-black tree of src/tree.h is the parameter `Tree`, with laws in `Database.Api.IsTree`. The
--   loop of xud_free_all has fuel; one more than the number of entries is enough. Of the zeroing of a
--   new block the model has what it does to the mark of an entry at that address. `Database.Loops` is
--   what the loops that close a client's objects have in common.
-- - Clients: the count of active clients in src/client.c, and luajack_checkcreate of src/internal.h.
--   `Clients.Close` is client_close, over the parts whose functions it calls.
-- - Errors: luajack_errorv_ and luajack_checkerror of src/main.c, with luajack_errmsg as its bytes.
-- - Registry: the macros Register and Unregister of src/callback.c and src/process.c, over the registry
--   of a Lua state as the parameter `LuaRegistry`, with what Lua documents in `IsRegistry`, and over the
--   client's fields as the interface `Slots`, which `Callback.Register` and `Realtime.Register` fill.
-- - Realtime: src/process.c. The script's calls in a process callback are those of `Buffer.Session`, on
--   the audio and custom ports of the client; those on its MIDI ports are left out.
-- - Threads: ThreadFunc, ThreadCreate_, thread_signal and thread_free of src/thread.c, each as the steps
--   of the thread that runs it, so a sequence of steps is an interleaving; `Threads.Reach` is what they
--   can come to. The cancellation of a thread that was never created, which POSIX leaves undefined, is a
--   state of its own, `undefined`. `Threads.All` is the loop of thread_free_all.
-- - Rbuf: src/rbuf.c over `Ring`, `Database` and the pipes of `Events`. `Channel` is a ringbuffer with
--   its pipe; `Rbufs` the database with the channels by address; `Rbuf.CApi` has the ringbuffer
--   functions of src/luajack.c. The entries that the loop of rbuf_free_all visits are an argument.
-- - Ports: src/port.c over JACK as the parameter `Ports.Api.Jack`, with what jack/jack.h documents in
--   `IsDirected` and `IsServer`; jack_port_unregister may be refused. `Ports` has the functions on
--   names, `Ports.Register` those on references, over `Database`. `Ports.Pairing` is the one-to-one
--   relation of entries and ports. The flags are the bits that the code names; the entries that the
--   loop of port_close_all visits are an argument.
-- - Transport: the positions of src/transport.c as Lua tables. The numbers of type double and float are
--   the parameter `Floats`.
--
-- Numbers are natural numbers, with the wrap-around of their C types written out where it can occur.
-- Not modelled: what only passes arguments to JACK, Lua or the operating system, and floating-point
-- arithmetic.
pub mod Prelude
pub mod Objects
pub mod Ring
pub mod Events
pub mod Callback
pub mod Buffer
pub mod Database
pub mod Clients
pub mod Errors
pub mod Registry
pub mod Realtime
pub mod Threads
pub mod Rbuf
pub mod Ports
pub mod Transport
