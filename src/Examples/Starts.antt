-- ===== src/Examples/Starts.antt =====
-- The main thread of the load generator, with two workers and two modules of one entry each.
use rt_csp.Base.{
  ℕ, zero, suc, ◌^◌, ◌<◌, ◌≢◌, refl, true, Option, none, some, List, [], ◌∷◌, get_or, arith,
}
use rt_csp.Bench.Main.{
  Thread, Result, Main, no_result, loop_event, main_notify_byte, thread_connected, thread_ready,
  begin_requests, go_on, send_recv_call, rebind_stdin_event,
}
use rt_csp.Bench.Order.{IsModules, Reach, starts, tells}
use rt_csp.Bench.Order.Progress.{Reach-running}
use rt_csp.Bench.Results.{IsSum, main_notify_byte-IsSum}

abbrev two_modules : List ℕ
two_modules = 1 ∷ 1 ∷ []

two_modules-IsModules : IsModules two_modules
two_modules-IsModules = record { some_there = omega arith; few = omega arith; filled = inside }
  where
    inside : (m : ℕ) → m < 2 → (0 < get_or two_modules m 0) × (get_or two_modules m 0 < 2 ^ 32)
    inside zero h = (omega arith, omega arith)
    inside (suc zero) h = (omega arith, omega arith)
    inside (suc (suc m)) h = absurd (omega arith)

abbrev nothing : ℕ × ℕ → Result
nothing at = no_result

abbrev join : List Thread → List Thread
join ts = ts

abbrev begin : Main
begin = loop_event 2 nothing

abbrev or_begin : Option Main → Main
or_begin none = begin
or_begin (some s) = s

abbrev letter : ℕ → Main → Main
letter chr s = or_begin (main_notify_byte two_modules join true chr s)

-- Both workers have their connections.
abbrev first_round : Main
first_round = letter b'c' (letter b'c' begin)

-- One worker is ready.
abbrev half_round : Main
half_round = letter b'n' first_round

abbrev second_round : Main
second_round = letter b'n' half_round

half_round-Reach : Reach two_modules join 2 nothing 3 half_round
unfolding loop_event main_notify_byte thread_connected thread_ready begin_requests
    rebind_stdin_event
half_round-Reach = tells (tells (tells (starts refl) refl refl) refl refl) refl refl

Reach-running_example : main_notify_byte two_modules join true b'n' half_round ≢ none
unfolding loop_event main_notify_byte thread_connected thread_ready begin_requests
    rebind_stdin_event
Reach-running_example =
    Reach-running (omega arith) two_modules-IsModules (omega arith) refl half_round-Reach

main_notify_byte-IsSum_example : IsSum (second_round.results (0, 0)) half_round.threads
unfolding loop_event main_notify_byte thread_connected thread_ready begin_requests
    rebind_stdin_event go_on send_recv_call
main_notify_byte-IsSum_example =
    main_notify_byte-IsSum two_modules join true half_round second_round two_modules-IsModules
      (omega arith) refl (omega arith) (omega arith) refl refl
