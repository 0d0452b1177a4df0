-- ===== src/Bench/Seconds.antt =====
-- `timeout_req_handler`, second after second.
use rt_csp.Base.{
  ℕ, zero, suc, ◌+◌, ◌-◌, ◌%◌, ◌^◌, ◌<◌, ◌≤◌, ◌≡◌, refl, ap, sym, ◌∙◌, List, [], ◌∷◌, ◌++◌, map,
  append_assoc, append-nil, ltb, if◌then◌else◌, length, length-append, length-set, get_or, drop,
  take, replicate, arith,
}
use rt_csp.Queue.Fifo.{rest}
use rt_csp.Bench.Window.{
  avg_seconds, uint_max, max, Series, Stats, new_series, reset, record_second, timeout_req_handler,
}
use rt_csp.Bench.Average.{oldest_first, oldest_first-next, sum, sum-append}

-- The last ten of the counts so far, with zeros for the seconds before the first.
abbrev pub latest : List ℕ → List ℕ
latest ns = drop (length ns) (replicate avg_seconds 0 ++ ns)

abbrev pub least : List ℕ → ℕ
least [] = uint_max
least (n ∷ ns) = if ltb n (least ns) then n else least ns

abbrev pub greatest : List ℕ → ℕ
greatest [] = 0
greatest (n ∷ ns) = max n (greatest ns)

-- The counts are of type `unsigned int`.
abbrev pub AllUint : List ℕ → Type 0
AllUint [] = Unit {0}
AllUint (n ∷ ns) = (n ≤ uint_max) × AllUint ns

drop-append_one :
    (xs : List ℕ) (k n : ℕ)
    → k < length xs
    → drop (suc k) (xs ++ n ∷ []) ≡ rest (drop k xs) ++ n ∷ []
drop-append_one [] k n h = absurd (omega arith)
drop-append_one (x ∷ xs) zero n h = refl
drop-append_one (x ∷ xs) (suc k) n h = drop-append_one xs k n (omega arith)

latest-append : (ns : List ℕ) (n : ℕ) → latest (ns ++ n ∷ []) ≡ rest (latest ns) ++ n ∷ []
latest-append ns n =
    let k : length (ns ++ n ∷ []) ≡ suc (length ns) = omega (arith, length-append ns (n ∷ [])) in
    ap (λ k. drop k (replicate avg_seconds 0 ++ (ns ++ n ∷ []))) k
    ∙ ap (drop (suc (length ns))) (sym (append_assoc (replicate avg_seconds 0) ns (n ∷ [])))
    ∙ drop-append_one (replicate avg_seconds 0 ++ ns) (length ns) n
        (omega (arith, length-append (replicate avg_seconds 0) ns))

least-append :
    (ns : List ℕ) (n : ℕ)
    → n ≤ uint_max
    → least (ns ++ n ∷ []) ≡ (if ltb (least ns) n then least ns else n)
least-append [] n h = ground arith
least-append (m ∷ ns) n h = ground (arith, least-append ns n h)

greatest-append : (ns : List ℕ) (n : ℕ) → greatest (ns ++ n ∷ []) ≡ max (greatest ns) n
greatest-append [] n = ground arith
greatest-append (m ∷ ns) n = ground (arith, greatest-append ns n)

abbrev head_or : List ℕ → ℕ
head_or [] = 0
head_or (x ∷ xs) = x

sum-rest : (xs : List ℕ) → sum (rest xs) + head_or xs ≡ sum xs
sum-rest [] = refl
sum-rest (x ∷ xs) = omega arith

get_or-oldest_first :
    (xs : List ℕ) (i : ℕ) → i < length xs → get_or xs i 0 ≡ head_or (oldest_first xs i)
get_or-oldest_first xs i h = go xs (take i xs) i h
  where
    go : (xs ys : List ℕ) (i : ℕ) → i < length xs → get_or xs i 0 ≡ head_or (drop i xs ++ ys)
    go [] ys i h = absurd (omega arith)
    go (x ∷ xs) ys zero h = refl
    go (x ∷ xs) ys (suc i) h = go xs ys i (omega arith)

AllUint-head : (ns : List ℕ) → AllUint ns → head_or ns ≤ uint_max
AllUint-head [] h = omega arith
AllUint-head (n ∷ ns) h = h.0

AllUint-rest_append :
    (ns : List ℕ) (n : ℕ) → n ≤ uint_max → AllUint ns → AllUint (rest ns ++ n ∷ [])
AllUint-rest_append [] n h v = (h, tt)
AllUint-rest_append (m ∷ ns) n h v = go ns v.1
  where
    go : (ns : List ℕ) → AllUint ns → AllUint (ns ++ n ∷ [])
    go [] w = (h, tt)
    go (m ∷ ns) w = (w.0, go ns w.1)

-- What a series says about the counts so far; `i` is the index of the oldest.
record IsSeries (s : Series) (i : ℕ) (ns : List ℕ) : Type 0 where
  size : length s.second_requests ≡ avg_seconds
  inside : i < avg_seconds
  window : oldest_first s.second_requests i ≡ latest ns
  bounded : AllUint (latest ns)
  summed : s.sum_requests ≡ sum (latest ns) % 2 ^ 32
  smallest : s.min_requests ≡ least ns
  largest : s.max_requests ≡ greatest ns

new_series-IsSeries : IsSeries new_series 0 []
unfolding new_series
new_series-IsSeries = record {
  size = refl;
  inside = omega arith;
  window = refl;
  bounded = omega arith;
  summed = refl;
  smallest = refl;
  largest = refl;
}

-- The sum in unsigned arithmetic, when `old` leaves it and `n` joins it.
sum_turned :
    (s old left n : ℕ)
    → s ≡ (left + old) % 2 ^ 32
    → old ≤ uint_max
    → ((s + 2 ^ 32 - old) % 2 ^ 32 + n) % 2 ^ 32 ≡ (left + n) % 2 ^ 32
sum_turned s old left n e h = omega arith

record_second-IsSeries :
    (s : Series) (i n : ℕ) (ns : List ℕ)
    → IsSeries s i ns
    → n ≤ uint_max
    → IsSeries (record_second i n s) ((i + 1) % avg_seconds) (ns ++ n ∷ [])
unfolding record_second
record_second-IsSeries s i n ns v h =
    let e = latest-append ns n in
    let old =
      get_or-oldest_first s.second_requests i (omega (arith, v.size, v.inside))
      ∙ ap head_or v.window in
    record {
      size = length-set s.second_requests i n ∙ v.size;
      inside = omega arith;
      window =
          oldest_first-next s.second_requests i n v.size v.inside
          ∙ ap (λ ms. rest ms ++ n ∷ []) v.window
          ∙ sym e;
      bounded = rw e (AllUint-rest_append (latest ns) n h v.bounded);
      summed =
          rw (old, e)
            (sum_turned s.sum_requests (head_or (latest ns)) (sum (rest (latest ns))) n
                (v.summed ∙ ap (λ k. k % 2 ^ 32) (sym (sum-rest (latest ns))))
                (AllUint-head (latest ns) v.bounded)
              ∙ ap (λ k. k % 2 ^ 32) (omega (arith, sum-append (rest (latest ns)) (n ∷ []))));
      smallest = rw v.smallest (sym (least-append ns n h));
      largest = rw v.largest (sym (greatest-append ns n));
    }

-- Seconds in which so many requests are counted, all and those that succeeded: the workers add to the
-- two counters, and then the timer fires.
pub run_seconds : Stats → List (ℕ × ℕ) → Stats
run_seconds s [] = s
run_seconds s ((n, m) ∷ counts) =
    run_seconds (timeout_req_handler (record s { requests = n; ok_requests = m })) counts

-- What is known of the three numbers that are shown.
abbrev pub Shows : Series → List ℕ → Type 0
Shows s ns =
    (s.sum_requests ≡ sum (latest ns) % 2 ^ 32)
    × (s.min_requests ≡ least ns)
    × (s.max_requests ≡ greatest ns)

run_seconds-IsSeries :
    (s : Stats) (ns ms : List ℕ) (counts : List (ℕ × ℕ))
    → IsSeries s.all s.current_request_index ns
    → IsSeries s.ok s.current_request_index ms
    → AllUint (map (λ c. c.0) counts)
    → AllUint (map (λ c. c.1) counts)
    → Shows (run_seconds s counts).all (ns ++ map (λ c. c.0) counts)
      × Shows (run_seconds s counts).ok (ms ++ map (λ c. c.1) counts)
unfolding run_seconds timeout_req_handler
run_seconds-IsSeries s ns ms [] v w h k =
    rw (append-nil ns, append-nil ms)
      ((v.summed, v.smallest, v.largest), (w.summed, w.smallest, w.largest))
run_seconds-IsSeries s ns ms ((n, m) ∷ counts) v w h k =
    let r =
      run_seconds-IsSeries (timeout_req_handler (record s { requests = n; ok_requests = m }))
        (ns ++ n ∷ []) (ms ++ m ∷ []) counts
        (record_second-IsSeries s.all s.current_request_index n ns v h.0)
        (record_second-IsSeries s.ok s.current_request_index m ms w k.0) h.1 k.1 in
    rw
      (
        ← append_assoc ns (n ∷ []) (map (λ c. c.0) counts),
        ← append_assoc ms (m ∷ []) (map (λ c. c.1) counts),
      )
      r

-- From the reset at the end of a round on, after any number of seconds, with any counts of the type
-- `unsigned int`: the sums are those of the last ten seconds, modulo 2^32, with zeros for the seconds
-- that are not there yet, and the minimum and the maximum are those of all seconds.
pub timeout_req_handler-latest :
    (s : Stats) (counts : List (ℕ × ℕ))
    → AllUint (map (λ c. c.0) counts)
    → AllUint (map (λ c. c.1) counts)
    → Shows (run_seconds (reset s) counts).all (map (λ c. c.0) counts)
      × Shows (run_seconds (reset s) counts).ok (map (λ c. c.1) counts)
unfolding reset
timeout_req_handler-latest s counts h k =
    run_seconds-IsSeries (reset s) [] [] counts new_series-IsSeries new_series-IsSeries h k
