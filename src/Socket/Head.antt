-- ===== src/Socket/Head.antt =====
-- The head of a packet, written by `socket_send` and read by `recv_data_len`.
use rt_csp.Base.{ℕ, ◌/◌, ◌%◌, ◌^◌, ◌<◌, ◌≤◌, ◌≡◌, ◌≢◌, ap, ◌∙◌, arith, pos, [], ◌∷◌, false, ◌==◌}
use rt_csp.Socket.{bytes, head_value, recv_data_len, head_bytes}

head_value-head_bytes : (n : ℕ) → n < 2 ^ 24 → head_value (head_bytes n) ≡ n
unfolding head_value head_bytes
head_value-head_bytes n h = omega arith

ne_test : (a b : ℕ) → a ≢ b → (a == b) ≡ false
ne_test a b h = ground arith

high_zero : (n : ℕ) → n < 2 ^ 24 → n / 2 ^ 24 % 256 ≡ 0
high_zero n h = omega arith

high_set : (n : ℕ) → n < 2 ^ 31 → 2 ^ 24 ≤ n → n / 2 ^ 24 % 256 ≢ 0
high_set n small h = omega arith

legal :
    (a b c d : ℕ)
    → a ≡ 0
    → recv_data_len (bytes (a ∷ b ∷ c ∷ d ∷ [])) ≡ pos (head_value (a ∷ b ∷ c ∷ d ∷ []))
unfolding recv_data_len
legal a b c d e = ground arith

pub recv_data_len-small : (n : ℕ) → n < 2 ^ 24 → recv_data_len (bytes (head_bytes n)) ≡ pos n
unfolding head_bytes
recv_data_len-small n h = legal _ _ _ _ (high_zero n h) ∙ ap pos (head_value-head_bytes n h)

-- The head that is sent for a body is read back as its length if that is below 2^24; for every longer
-- body whose length is an `int` the receiver takes the head to be illegitimate, as the end of the
-- connection.
pub recv_data_len-head_bytes :
    (n : ℕ)
    → n < 2 ^ 31
    → (n < 2 ^ 24 → recv_data_len (bytes (head_bytes n)) ≡ pos n)
      × (2 ^ 24 ≤ n → recv_data_len (bytes (head_bytes n)) ≡ pos 0)
unfolding recv_data_len head_bytes
recv_data_len-head_bytes n small =
    (λ h. recv_data_len-small n h, λ h. rw (ne_test _ _ (high_set n small h)))
