-- ===== src/Bench/Window.antt =====
-- The statistics of the last seconds in bench_event.c: the fields of `main_thread_t` about them,
-- their reset in `send_recv_call`, and `timeout_req_handler`.
use rt_csp.Base.{ℕ, ◌+◌, ◌-◌, ◌%◌, ◌^◌, List, ◌==◌, ltb, if◌then◌else◌, get_or, set, replicate}

-- AVG_SECONDS
abbrev pub avg_seconds : ℕ
avg_seconds = 10

-- UINT_MAX
abbrev pub uint_max : ℕ
uint_max = 2 ^ 32 - 1

abbrev pub max : ℕ → ℕ → ℕ
max a b = if ltb b a then a else b

-- The fields for one of the two kinds of requests: all of them, or those that succeeded.
pub record Series : Type 0 where
  pub second_requests : List ℕ
  pub sum_requests : ℕ
  pub min_requests : ℕ
  pub max_requests : ℕ

pub record Stats : Type 0 where
  pub all : Series
  pub ok : Series
  pub current_request_index : ℕ
  pub requests : ℕ
  pub ok_requests : ℕ
  pub seconds : ℕ

unfoldable pub new_series : Series
new_series = record {
  second_requests = replicate avg_seconds 0;
  sum_requests = 0;
  min_requests = uint_max;
  max_requests = 0;
}

-- The reset at the end of `send_recv_call`. The seconds run on.
unfoldable pub reset : Stats → Stats
unfolding new_series
reset s = record s {
  all = new_series;
  ok = new_series;
  current_request_index = 0;
  requests = 0;
  ok_requests = 0;
}

-- One second's count `n` in place of the one at index `i`, in unsigned arithmetic.
unfoldable pub record_second : ℕ → ℕ → Series → Series
record_second i n s = record {
  second_requests = set s.second_requests i n;
  sum_requests = ((s.sum_requests + 2 ^ 32 - get_or s.second_requests i 0) % 2 ^ 32 + n) % 2 ^ 32;
  min_requests = (if ltb s.min_requests n then s.min_requests else n);
  max_requests = max s.max_requests n;
}

unfoldable pub timeout_req_handler : Stats → Stats
unfolding record_second
timeout_req_handler s = record {
  all = record_second s.current_request_index s.requests s.all;
  ok = record_second s.current_request_index s.ok_requests s.ok;
  current_request_index = (s.current_request_index + 1) % avg_seconds;
  requests = 0;
  ok_requests = 0;
  seconds = (s.seconds + 1) % 2 ^ 32;
}

-- The number that the sums are divided by for the averages that are shown.
unfoldable pub average_count : Stats → ℕ
average_count s =
    if get_or (s.all).second_requests s.current_request_index 0 == 0
    then s.current_request_index + 1
    else avg_seconds
