-- ===== src/Tests/Dump.antt =====
-- Two databases in memory, one of which once had another value.
use uniswapv3_tick_state.Prelude.{◌≡◌, refl, [], ◌∷◌, arith}
use uniswapv3_tick_state.Bytes.{bytes_eqb, bytes_ltb}
use uniswapv3_tick_state.DumpRocksDb.{dump}
use uniswapv3_tick_state.DumpRocksDb.Text.{dump-injective}
use uniswapv3_tick_state.Samples.Memory.{Entries, memory, memory-EngineLaws, sorted, insert, remove}

abbrev once : Entries
once = (1 ∷ 255 ∷ [], 7 ∷ []) ∷ ([], 16 ∷ []) ∷ []

abbrev twice : Entries
twice = ([], 16 ∷ []) ∷ (1 ∷ 255 ∷ [], 7 ∷ []) ∷ ([], 3 ∷ []) ∷ []

dump-injective_example : memory-EngineLaws.find once [] ≡ memory-EngineLaws.find twice []
unfolding dump sorted insert remove bytes_ltb bytes_eqb
dump-injective_example =
    dump-injective memory memory memory-EngineLaws memory-EngineLaws once twice
      (tt, (omega arith, tt), ((omega arith, (omega arith, tt)), (omega arith, tt), tt))
      (tt, (omega arith, tt), ((omega arith, (omega arith, tt)), (omega arith, tt), tt)) refl []
