-- ===== src/Control/Stopping.antt =====
-- server.c: how the service is stopped.
use rt_csp.Base.{
  ℕ, zero, suc, ◌+◌, ◌-◌, ◌^◌, ◌<◌, ◌≤◌, ◌≡◌, refl, ◌∙◌, ap, Bool, true, false, ◌&&◌, Option, none,
  some, [], ◌∷◌, ◌==◌, if◌then◌else◌, Bool-cases, inl, inr, pos, arith,
}
use rt_csp.Control.{
  Credentials, Answers, is_negative, forked, strnprint, server_start, sigint, sigkill, Polled,
  stop_loop, Stop, stopped, server_stop,
}

-- The process is there each time it is asked for, so many times from the `k`-th on.
abbrev pub all_alive : (ℕ → Bool) → ℕ → ℕ → Bool
all_alive alive k zero = true
all_alive alive k (suc n) = alive k && all_alive alive (suc k) n

-- How the loop ends that has `d` columns left.
abbrev Ended : (ℕ → Bool) → ℕ → ℕ → ℕ → Option Polled → Type 0
Ended alive cols polls d o =
    (r : Polled) × (o ≡ some r)
    × (r.killed ≡ all_alive alive polls d)
    × (r.i + 9 ≤ cols)
    × (polls ≤ r.polls)
    × (r.polls + (cols - (r.i + 9)) ≡ polls + d)

stop_loop-Ended :
    (alive : ℕ → Bool) (cols d fuel polls i : ℕ)
    → cols ≡ i + 9 + suc d
    → d < fuel
    → Ended alive cols polls (suc d) (stop_loop fuel alive cols polls i)
unfolding stop_loop
stop_loop-Ended alive cols d zero polls i e h = absurd (omega arith)
stop_loop-Ended alive cols zero (suc fuel) polls i e h = elim (Bool-cases (alive polls)) [
  | inr gone ↦ rw gone (
    record { polls = polls; i = i; killed = false },
    refl,
    refl,
    omega arith,
    omega arith,
    omega arith,
  )
  | inl there ↦
      let last : (cols == suc i + 9) ≡ true = ground arith in
      rw (there, last)
        (
          record { polls = suc polls; i = suc i; killed = true },
          refl,
          refl,
          omega arith,
          omega arith,
          omega arith,
        )
]
stop_loop-Ended alive cols (suc d) (suc fuel) polls i e h = elim (Bool-cases (alive polls)) [
  | inr gone ↦ rw gone (
    record { polls = polls; i = i; killed = false },
    refl,
    refl,
    omega arith,
    omega arith,
    omega arith,
  )
  | inl there ↦
      let more : (cols == suc i + 9) ≡ false = ground arith in
      let ih = stop_loop-Ended alive cols d fuel (suc polls) (suc i) (omega arith) (omega arith) in
      rw (there, more) (ih.0, ih.1, ih.2, ih.3, omega (arith, ih.4), omega (arith, ih.5))
]

strnprint-left : (cols i : ℕ) → cols < 2 ^ 31 → i + 9 ≤ cols → strnprint cols i ≡ cols - (i + 9)
unfolding strnprint
strnprint-left cols i small h = omega arith

-- What is to become of a process with a terminal of so many columns.
pub record IsStopped (alive : ℕ → Bool) (cols pid : ℕ) (r : Stop) : Type 0 where
  pub signals :
      r.signals
      ≡ (pid, sigint) ∷ (if all_alive alive 1 (cols - 30) then (pid, sigkill) ∷ [] else [])
  pub removed : r.pidfile ≡ none
  pub filled : r.dots ≡ cols - 30
  pub succeeds : r.ret ≡ 1

server_stop-IsStopped :
    (fuel cols pid : ℕ) (alive : ℕ → Bool)
    → 30 < cols
    → cols < 2 ^ 31
    → cols ≤ fuel + 30
    → alive 0 ≡ true
    → (r : Stop) × (server_stop fuel alive cols (some pid) ≡ some r) × IsStopped alive cols pid r
unfolding server_stop stopped
server_stop-IsStopped fuel cols pid alive wide small enough there =
    let v = stop_loop-Ended alive cols (cols - 31) fuel 1 21 (omega arith) (omega arith) in
    let d : suc (cols - 31) ≡ cols - 30 = omega arith in
    let killed : (v.0).killed ≡ all_alive alive 1 (cols - 30) = v.2 ∙ ap (all_alive alive 1) d in
    (
      stopped cols pid v.0,
      rw (there, v.1) refl,
      record {
        signals = rw killed refl;
        removed = refl;
        filled = rw (strnprint-left cols (v.0).i small v.3) (omega (arith, v.4, v.5));
        succeeds = refl;
      },
    )

-- A service that was started, by a process that could bind, listen, fork and write the file, and that is
-- running when it is to be stopped, on a terminal with more than 30 columns: the process that was
-- started, and no other, gets SIGINT, and SIGKILL exactly if it is still there each of the next
-- `cols - 30` times, the file is removed, and the dots fill the line. Fuel of `cols - 30` is enough.
pub server_start-server_stop :
    (a : Answers) (c : Credentials) (file : Option ℕ) (fuel cols pid : ℕ) (alive : ℕ → Bool)
    → is_negative a.socket ≡ false
    → is_negative a.bind ≡ false
    → is_negative a.listen ≡ false
    → a.fork ≡ pos (suc pid)
    → a.fopen ≡ true
    → 30 < cols
    → cols < 2 ^ 31
    → cols ≤ fuel + 30
    → alive 0 ≡ true
    → (r : Stop) × (server_stop fuel alive cols (server_start a c file).pidfile ≡ some r)
      × IsStopped alive cols (suc pid) r
unfolding server_start forked
server_start-server_stop a c file fuel cols pid alive s b l parent written wide small enough there =
    rw (s, b, l, parent, written)
      (server_stop-IsStopped fuel cols (suc pid) alive wide small enough there)
