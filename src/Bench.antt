-- ===== src/Bench.antt =====
-- bench.h, bench_event.h and bench_event.c: the load generator. Each worker thread keeps connections to
-- the server and sends requests on them, round by round; the main thread counts and starts the rounds.
pub mod Window
pub mod Average
pub mod Seconds
pub mod Worker
pub mod Round
pub mod Rounds
pub mod Main
pub mod Plan
pub mod Schedule
pub mod Order
pub mod Results
