-- ===== src/History.antt =====
-- borsa/src/router/history.rs: the history of an instrument from several providers.
pub mod Interval
pub mod Attribution
pub mod Results
pub mod Final
pub mod Requests
