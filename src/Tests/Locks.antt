-- ===== src/Tests/Locks.antt =====
-- Goroutines that ask a `SafeDB` for locks, step by step.
use uniswapv3_tick_state.Prelude.{ℕ, ◌≡◌, refl}
use uniswapv3_tick_state.Bytes.{bytes_eqb}
use uniswapv3_tick_state.Samples.Memory.{byte_addresses}
use uniswapv3_tick_state.SafeDb.{shared, exclusive, find_lock}
use uniswapv3_tick_state.SafeDb.System.{
  System, pick, look_miss, check_hit, create, lock, r_lock, write, Reach, start, later,
}
use uniswapv3_tick_state.SafeDb.Exclusion.{Stays, here, next, writer_alone, reader_steady}

abbrev pools : ℕ → ℕ
pools a = 0

-- Two goroutines find no lock for the pool 7; the first creates it, and the second finds it.
race : (s : System ℕ ℕ) × Reach byte_addresses pools s
unfolding find_lock bytes_eqb
race = (
  _,
  later
      (later
        (later
          (later (later start (pick 0 (look_miss exclusive 7 refl)))
            (pick 1 (look_miss exclusive 7 refl)))
          (pick 0 (create exclusive 7 refl)))
        (pick 1 (check_hit exclusive 7 0 refl)))
      (pick 1 (lock 7 0 refl refl)),
)

writer_alone_example : ◌≡◌ {A = ℕ} 1 1
unfolding race bytes_eqb
writer_alone_example =
    writer_alone byte_addresses pools race.0 1 1 0 0 exclusive 7 7 race.1 refl refl refl

-- One goroutine reads the pool 7.
reading : (s : System ℕ ℕ) × Reach byte_addresses pools s
unfolding find_lock bytes_eqb
reading = (
  _,
  later (later (later start (pick 0 (look_miss shared 7 refl))) (pick 0 (create shared 7 refl)))
      (pick 0 (r_lock 7 0 refl)),
)

-- Another writes the pool 8 meanwhile.
others : (u : System ℕ ℕ) × Stays byte_addresses 0 7 0 reading.0 u
unfolding reading find_lock bytes_eqb
others = (
  _,
  next
      (next
        (next (next here refl (pick 1 (look_miss exclusive 8 refl))) refl
          (pick 1 (create exclusive 8 refl)))
        refl (pick 1 (lock 8 1 refl refl)))
      refl (pick 1 (write 8 1 5)),
)

reader_steady_example : others.0.mem.pools 7 ≡ reading.0.mem.pools 7
reader_steady_example =
    reader_steady byte_addresses pools reading.0 0 0 7 others.0 reading.1 others.1
