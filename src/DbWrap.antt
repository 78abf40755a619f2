-- ===== src/DbWrap.antt =====
-- db_wrap.go: `rocksDBWrap`, the methods of the interface `DB` over the keys of the engine.
pub mod Contents
mod Puts
mod TickPuts
mod Range
mod Listing
mod Collect
mod Deletes
pub mod Reads
pub mod Writes
pub mod Refines
pub mod Pools
use uniswapv3_tick_state.Prelude.{
  ℕ, ◌%◌, Bool, Option, none, some, List, [], ◌∷◌, ◌++◌, ◌==◌, ℤ, pos, to_int32, if◌then◌else◌,
}
use uniswapv3_tick_state.Result.{Result, ok, err, panic, bind, Action, pure, lift, ◌>>=◌}
use uniswapv3_tick_state.Bytes.{Bytes}
use uniswapv3_tick_state.Address.{AddressType, addr_eqb}
use uniswapv3_tick_state.Engine.{Engine, BatchOp}
use uniswapv3_tick_state.RocksDb.{BytesEntry, get, set, get_range, write_batch}
use uniswapv3_tick_state.TickKey.{
  height_key, min_tick, max_tick, int32_to_bytes, bytes_to_int32, uint64_to_bytes, bytes_to_uint64,
  bytes_to_tick_state_key, get_tick, get_address, get_tick_state_key, make_current_tick_key,
  make_tick_spacing_key, make_pool_height_key,
}
use uniswapv3_tick_state.Types.{
  TickState, PoolState, PoolGlobalState, new_tick_state, marshal_binary, unmarshal_binary, to_int64,
  big_int64, big_uint64,
}
use uniswapv3_tick_state.Db.{Db}

-- `if bytes == nil { return 0, nil }` and the decoder otherwise
unfoldable pub decode_or : {A : Type 0} → A → (Bytes → Result A) → Option Bytes → Result A
decode_or zero decode none = ok zero
decode_or zero decode (some b) = decode b

-- the tail of `GetTickState`
unfoldable pub decode_tick_state : ℤ → Option Bytes → Result (Option TickState)
decode_tick_state tick none = ok none
decode_tick_state tick (some b) = bind (unmarshal_binary (new_tick_state tick) b) (λ t. ok (some t))

module _ (t : AddressType) where
  open t use {Address}

  -- `TickStateCollector`: the map from an address to its tick states
  abbrev pub Collection : Type 0
  Collection = List (Address × List TickState)

  -- `Add`: an address that is missing gets an empty list first
  unfoldable pub add : Address → TickState → Collection → Collection
  add addr ts [] = (addr, ts ∷ []) ∷ []
  add addr ts ((a, l) ∷ c) =
      if addr_eqb t a addr then (a, l ++ ts ∷ []) ∷ c else (a, l) ∷ add addr ts c

  -- collection[addr], which is nil for a missing address
  unfoldable pub collected : Address → Collection → List TickState
  collected addr [] = []
  collected addr ((a, l) ∷ c) = if addr_eqb t a addr then l else collected addr c

  -- the loop of `GetRange` over the entries
  unfoldable pub collect_entries : List BytesEntry → Collection → Result Collection
  collect_entries [] c = ok c
  collect_entries (entry ∷ entries) c = bind (bytes_to_tick_state_key entry.key) λ key.
      bind (get_tick key) λ tick.
        bind (unmarshal_binary (new_tick_state tick) entry.val)
          λ ts. collect_entries entries (add (get_address t key) ts c)

  -- the batch of `SetPoolState`
  unfoldable pub tick_puts : Address → List TickState → List BatchOp
  tick_puts addr [] = []
  tick_puts addr (ts ∷ rest) =
      BatchOp.put (get_tick_state_key t addr ts.tick) (marshal_binary ts) ∷ tick_puts addr rest

  module _ (e : Engine) where
    unfoldable pub set_tick_state : Address → TickState → Action e.State (Unit {0})
    unfolding set
    set_tick_state addr ts = set e (get_tick_state_key t addr ts.tick) (marshal_binary ts)

    unfoldable pub get_tick_state : Address → ℤ → Action e.State (Option TickState)
    unfolding get decode_tick_state
    get_tick_state addr tick = do
      bytes ← get e (get_tick_state_key t addr tick)
      lift (decode_tick_state tick bytes)

    -- `rocksDBWrap.GetRange`
    unfoldable pub get_collection : Bytes → Bytes → Action e.State Collection
    unfolding get_range collect_entries
    get_collection from to = do entries ← get_range e from to; lift (collect_entries entries [])

    unfoldable pub get_tick_states : Address → Action e.State (List TickState)
    unfolding get_collection collected
    get_tick_states addr = do
      by_addr ←
          get_collection (get_tick_state_key t addr min_tick) (get_tick_state_key t addr max_tick)
      pure (collected addr by_addr)

    unfoldable pub set_finish_height : ℕ → Action e.State (Unit {0})
    unfolding set uint64_to_bytes
    set_finish_height height = set e height_key (uint64_to_bytes height)

    unfoldable pub get_finish_height : Action e.State ℕ
    unfolding get decode_or
    get_finish_height = do bytes ← get e height_key; lift (decode_or 0 bytes_to_uint64 bytes)

    unfoldable pub set_current_tick : Address → ℤ → Action e.State (Unit {0})
    unfolding set
    set_current_tick addr tick = set e (make_current_tick_key t addr) (int32_to_bytes tick)

    unfoldable pub get_current_tick : Address → Action e.State ℤ
    unfolding get decode_or
    get_current_tick addr = do
      bytes ← get e (make_current_tick_key t addr)
      lift (decode_or (pos 0) bytes_to_int32 bytes)

    unfoldable pub set_tick_spacing : Address → ℤ → Action e.State (Unit {0})
    unfolding set
    set_tick_spacing addr spacing = set e (make_tick_spacing_key t addr) (int32_to_bytes spacing)

    unfoldable pub get_tick_spacing : Address → Action e.State ℤ
    unfolding get decode_or
    get_tick_spacing addr = do
      bytes ← get e (make_tick_spacing_key t addr)
      lift (decode_or (pos 0) bytes_to_int32 bytes)

    unfoldable pub set_height : Address → ℕ → Action e.State (Unit {0})
    unfolding set
    set_height addr height = set e (make_pool_height_key t addr) (uint64_to_bytes height)

    unfoldable pub get_height : Address → Action e.State ℕ
    unfolding get decode_or
    get_height addr = do
      bytes ← get e (make_pool_height_key t addr)
      lift (decode_or 0 bytes_to_uint64 bytes)

    -- the rest of `GetPoolState` after the test on the height
    unfoldable pub read_pool_state : Address → ℕ → Action e.State (Option PoolState)
    unfolding get_tick_spacing get_current_tick get_tick_states
    read_pool_state addr height = do
      tick_spacing ← get_tick_spacing addr
      tick ← get_current_tick addr
      tick_states ← get_tick_states addr
      pure (
          some (record {
            token0 = none;
            token1 = none;
            global = record { height = to_int64 height; tick_spacing = tick_spacing; tick = tick };
            tick_states = tick_states;
          }))

    unfoldable pub get_pool_state : Address → Action e.State (Option PoolState)
    unfolding get_height read_pool_state
    get_pool_state addr = do
      height ← get_height addr
      if height == 0 then pure none else read_pool_state addr height

    unfoldable pub set_pool_state : Address → PoolState → Action e.State (Unit {0})
    unfolding write_batch tick_puts
    set_pool_state addr p = write_batch e (
        BatchOp.put (make_pool_height_key t addr) (uint64_to_bytes (big_uint64 p.global.height))
        ∷ BatchOp.put (make_current_tick_key t addr)
            (int32_to_bytes (to_int32 (big_int64 p.global.tick)))
        ∷ BatchOp.put (make_tick_spacing_key t addr)
            (int32_to_bytes (to_int32 (big_int64 p.global.tick_spacing)))
        ∷ tick_puts addr p.tick_states)

    unfoldable pub delete_pool_state : Address → Action e.State (Unit {0})
    unfolding write_batch
    delete_pool_state addr = write_batch e (
        BatchOp.delete (make_pool_height_key t addr)
        ∷ BatchOp.delete (make_tick_spacing_key t addr)
        ∷ BatchOp.delete (make_current_tick_key t addr)
        ∷ BatchOp.delete_range (get_tick_state_key t addr min_tick)
            (get_tick_state_key t addr max_tick)
        ∷ [])

    -- `NewDB`: the wrapper as a value of the interface
    abbrev pub new_db : Db Address
    new_db = record {
      State = e.State;
      set_finish_height = set_finish_height;
      get_finish_height = get_finish_height;
      set_tick_state = set_tick_state;
      get_tick_state = get_tick_state;
      get_tick_states = get_tick_states;
      set_current_tick = set_current_tick;
      get_current_tick = get_current_tick;
      set_tick_spacing = set_tick_spacing;
      get_tick_spacing = get_tick_spacing;
      set_height = set_height;
      get_height = get_height;
      get_pool_state = get_pool_state;
      set_pool_state = set_pool_state;
      delete_pool_state = delete_pool_state;
    }
