-- ===== src/Udp/Sequence.antt =====
-- The sequence numbers of a session's datagrams.
use corshub.Prelude.{ℕ, zero, suc, ◌+◌, ◌%◌, ◌^◌, ◌<◌, ◌≡◌, ◌∙◌, arith}
use corshub.Udp.{next_seq}

-- The number of the datagram after `n` others of a session.
unfoldable pub seq_after : ℕ → ℕ → ℕ
seq_after zero seq = (next_seq seq).0
seq_after (suc n) seq = seq_after n (next_seq seq).1

-- The datagrams of a session are numbered from where it stands, one by one, modulo 2^32.
seq_after-mod : (n seq : ℕ) → seq < 2 ^ 32 → seq_after n seq ≡ (seq + n) % 2 ^ 32
unfolding seq_after next_seq
seq_after-mod zero seq h = omega arith
seq_after-mod (suc n) seq h = seq_after-mod n ((seq + 1) % 2 ^ 32) (omega arith) ∙ omega arith
