-- ===== src/Conn/Lock.antt =====
-- The read-write lock of conn.c, over two mutexes, with any number of threads.
use rt_csp.Base.{
  ℕ, ◌+◌, ◌-◌, ◌≤◌, ◌≡◌, refl, ◌≢◌, ◌⊎◌, Bool, true, false, some, List, arith, ◌==◌, if◌then◌else◌,
  get_elem?, set, replicate, tally, tally-set, tally-replicate,
}

-- Where a thread stands. `entering` holds `mx_reader` in `begin_read_lock` and, being the first
-- reader, waits for `mx_writer`; `entered` holds `mx_reader` and is about to release it; `leaving`
-- holds `mx_reader` in `end_read_lock`.
pub data Pc : Type 0 where
  idle entering entered reading leaving writing : Pc

pub record Lock : Type 0 where
  pub readers : ℕ
  pub mx_reader : Bool
  pub mx_writer : Bool
  pub threads : List Pc

unfoldable pub initial : ℕ → Lock
initial n = record { readers = 0; mx_reader = false; mx_writer = false; threads = replicate n idle }

-- Thread `i` goes on at `pc`.
abbrev goto : Lock → ℕ → Pc → Lock
goto s i pc = record s { threads = set s.threads i pc }

-- One atomic step of thread `i`: a call of `pthread_mutex_lock` on a mutex that is free, with what
-- follows it up to the next such call, or a release. A thread whose mutex is taken has no step.
pub data Step (s : Lock) (u : Lock) : Type 0 where
  -- begin_read_lock: takes mx_reader; `++readers` is not 1
  join :
      (i : ℕ)
      → get_elem? s.threads i ≡ some idle
      → s.mx_reader ≡ false
      → s.readers ≢ 0
      → u ≡ record (goto s i entered) { mx_reader = true; readers = s.readers + 1 }
      → Step s u
  -- begin_read_lock: takes mx_reader; `++readers` is 1, so mx_writer is wanted
  open_reading :
      (i : ℕ)
      → get_elem? s.threads i ≡ some idle
      → s.mx_reader ≡ false
      → s.readers ≡ 0
      → u ≡ record (goto s i entering) { mx_reader = true; readers = s.readers + 1 }
      → Step s u
  -- the first reader gets mx_writer
  get_writer :
      (i : ℕ)
      → get_elem? s.threads i ≡ some entering
      → s.mx_writer ≡ false
      → u ≡ record (goto s i entered) { mx_writer = true }
      → Step s u
  -- releases mx_reader at the end of begin_read_lock
  begun :
      (i : ℕ)
      → get_elem? s.threads i ≡ some entered
      → u ≡ record (goto s i reading) { mx_reader = false }
      → Step s u
  -- end_read_lock: takes mx_reader; `--readers`, and if it is 0 releases mx_writer
  leave :
      (i : ℕ)
      → get_elem? s.threads i ≡ some reading
      → s.mx_reader ≡ false
      → u ≡ record (goto s i leaving) {
        mx_reader = true;
        readers = s.readers - 1;
        mx_writer = (if s.readers - 1 == 0 then false else s.mx_writer);
      }
      → Step s u
  -- releases mx_reader at the end of end_read_lock
  left_reading :
      (i : ℕ)
      → get_elem? s.threads i ≡ some leaving
      → u ≡ record (goto s i idle) { mx_reader = false }
      → Step s u
  begin_write :
      (i : ℕ)
      → get_elem? s.threads i ≡ some idle
      → s.mx_writer ≡ false
      → u ≡ record (goto s i writing) { mx_writer = true }
      → Step s u
  end_write :
      (i : ℕ)
      → get_elem? s.threads i ≡ some writing
      → u ≡ record (goto s i idle) { mx_writer = false }
      → Step s u

pub data Reach (n : ℕ) : Lock → Type 0 where
  here : {s : Lock} → s ≡ initial n → Reach n s
  next : {s u : Lock} → Reach n s → Step s u → Reach n u

-- 1 at one place of a thread, 0 elsewhere.
abbrev pub at_entering : Pc → ℕ
at_entering entering = 1
at_entering _ = 0

abbrev pub at_entered : Pc → ℕ
at_entered entered = 1
at_entered _ = 0

abbrev pub at_reading : Pc → ℕ
at_reading reading = 1
at_reading _ = 0

abbrev pub at_leaving : Pc → ℕ
at_leaving leaving = 1
at_leaving _ = 0

abbrev pub at_writing : Pc → ℕ
at_writing writing = 1
at_writing _ = 0

-- 1 if the readers together hold `mx_writer`.
abbrev pub readers_hold : ℕ → ℕ → ℕ
readers_hold n waiting = if n == 0 then 0 else 1 - waiting

abbrev pub bit : Bool → ℕ
bit true = 1
bit false = 0

-- Each mutex is held by one thread or by the readers together, and `readers` counts the threads
-- between the two updates of it.
pub record IsLock (s : Lock) : Type 0 where
  pub held :
      tally at_entering s.threads + tally at_entered s.threads + tally at_leaving s.threads
      ≡ bit s.mx_reader
  pub counted :
      s.readers
      ≡ tally at_entering s.threads + tally at_entered s.threads + tally at_reading s.threads
  pub alone : (tally at_entering s.threads ≡ 0) ⊎ (s.readers ≡ 1)
  pub owned :
      tally at_writing s.threads + readers_hold s.readers (tally at_entering s.threads)
      ≡ bit s.mx_writer

-- How the five tallies change when thread `i` goes from `a` to `b`.
abbrev Moves : List Pc → ℕ → Pc → Pc → Type 0
Moves xs i a b =
    (tally at_entering (set xs i b) + at_entering a ≡ tally at_entering xs + at_entering b)
    × (tally at_entered (set xs i b) + at_entered a ≡ tally at_entered xs + at_entered b)
    × (tally at_reading (set xs i b) + at_reading a ≡ tally at_reading xs + at_reading b)
    × (tally at_leaving (set xs i b) + at_leaving a ≡ tally at_leaving xs + at_leaving b)
    × (tally at_writing (set xs i b) + at_writing a ≡ tally at_writing xs + at_writing b)

moves : (xs : List Pc) (i : ℕ) (a b : Pc) → get_elem? xs i ≡ some a → Moves xs i a b
moves xs i a b e = (
  tally-set at_entering xs i a b e,
  tally-set at_entered xs i a b e,
  tally-set at_reading xs i a b e,
  tally-set at_leaving xs i a b e,
  tally-set at_writing xs i a b e,
)

initial-IsLock : (n : ℕ) → IsLock (initial n)
unfolding initial
initial-IsLock n = ground (
  arith,
  tally-replicate at_entering n idle refl,
  tally-replicate at_entered n idle refl,
  tally-replicate at_reading n idle refl,
  tally-replicate at_leaving n idle refl,
  tally-replicate at_writing n idle refl,
)

-- Every step keeps the invariant.
Step-IsLock : {s u : Lock} → Step s u → IsLock s → IsLock u
Step-IsLock {s} (join i at free some_readers e) v =
    rw e (ground (arith, moves s.threads i idle entered at))
Step-IsLock {s} (open_reading i at free no_readers e) v =
    rw e (ground (arith, moves s.threads i idle entering at))
Step-IsLock {s} (get_writer i at free e) v =
    rw e (ground (arith, moves s.threads i entering entered at))
Step-IsLock {s} (begun i at e) v = rw e (ground (arith, moves s.threads i entered reading at))
Step-IsLock {s} (leave i at free e) v = rw e (ground (arith, moves s.threads i reading leaving at))
Step-IsLock {s} (left_reading i at e) v = rw e (ground (arith, moves s.threads i leaving idle at))
Step-IsLock {s} (begin_write i at free e) v =
    rw e (ground (arith, moves s.threads i idle writing at))
Step-IsLock {s} (end_write i at e) v = rw e (ground (arith, moves s.threads i writing idle at))

Reach-IsLock : {n : ℕ} {s : Lock} → Reach n s → IsLock s
Reach-IsLock {n} (here e) = rw e (initial-IsLock n)
Reach-IsLock (next r st) = Step-IsLock st (Reach-IsLock r)

-- In every state that any number of threads can reach, at most one thread is in a write section, and
-- while one is no thread is in a read section; the counter of readers is right when nobody is
-- inside the lock's own code.
pub Reach-exclusive :
    (n : ℕ) (s : Lock)
    → Reach n s
    → (tally at_writing s.threads ≤ 1)
      × ((tally at_writing s.threads ≡ 0) ⊎ (tally at_reading s.threads ≡ 0))
      × (s.mx_reader ≡ false → s.readers ≡ tally at_reading s.threads)
Reach-exclusive n s r = let v = Reach-IsLock r in ground (arith, v)
