-- ===== src/DbWrap/Refines.antt =====
-- Over a sound engine, `rocksDBWrap` keeps the contract of `DB`.
use uniswapv3_tick_state.Address.{AddressType}
use uniswapv3_tick_state.Engine.{Engine}
use uniswapv3_tick_state.Engine.Laws.{EngineLaws}
use uniswapv3_tick_state.Db.Contract.{DbLaws}
use uniswapv3_tick_state.DbWrap.{new_db}
use uniswapv3_tick_state.DbWrap.Contents.{view_of, IsWellFormed}
use uniswapv3_tick_state.DbWrap.Reads
use uniswapv3_tick_state.DbWrap.Writes

-- Over an engine that keeps its documented laws, every method of the wrapper keeps the contract of
-- the interface DB: each read answers what the view says and leaves the state, and each write ends
-- well, keeps the contents well formed and changes the view as stated.
unfoldable pub new_db-DbLaws : (t : AddressType) (e : Engine) → EngineLaws e → DbLaws t (new_db t e)
new_db-DbLaws t e laws = record {
  IsWf = λ s. IsWellFormed t (laws.find s);
  view = λ s. view_of t (laws.find s);
  get_finish_height_lem = Reads.get_finish_height_lem t e laws;
  get_height_lem = Reads.get_height_lem t e laws;
  get_current_tick_lem = Reads.get_current_tick_lem t e laws;
  get_tick_spacing_lem = Reads.get_tick_spacing_lem t e laws;
  get_tick_state_lem = Reads.get_tick_state_lem t e laws;
  get_tick_states_lem = Reads.get_tick_states_lem t e laws;
  get_pool_state_lem = Reads.get_pool_state_lem t e laws;
  set_finish_height_lem = Writes.set_finish_height_lem t e laws;
  set_height_lem = Writes.set_height_lem t e laws;
  set_current_tick_lem = Writes.set_current_tick_lem t e laws;
  set_tick_spacing_lem = Writes.set_tick_spacing_lem t e laws;
  set_tick_state_lem = Writes.set_tick_state_lem t e laws;
  set_pool_state_lem = Writes.set_pool_state_lem t e laws;
  delete_pool_state_lem = Writes.delete_pool_state_lem t e laws;
}
