-- ===== src/Supervisor.antt =====
-- borsa/src/router/streaming/supervisor_sm.rs: the state machine that starts, preempts and backs off
-- the streams of several providers. Its driver (controller.rs) feeds it events and carries out its
-- actions. `Symbol` and `Instrument` are types of another crate: symbols are compared by an instance
-- of `Eq`, and `symbol_of` is the match on `inst.id()` (`none` for a prediction market). A sender of a
-- oneshot channel is the number that names it, and `Instant::now()` is an argument. A vector index
-- out of range is a panic: `none`.
pub mod State
pub mod Starts
pub mod Machine
