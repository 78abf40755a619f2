-- ===== src/Dispatcher/System/Orders.antt =====
-- The order of the heights, in every interleaving of the dispatcher's goroutines.
use mathlib.Core.Path.{subst}
use uniswapv3_tick_state.Prelude.{
  ℕ, suc, ◌+◌, ◌≤◌, ◌<◌, ◌≡◌, refl, ap, ◌∙◌, [], ◌∷◌, ◌++◌, u64_mod, arith,
}
use uniswapv3_tick_state.Dispatcher.Heights.{heights, heights-append}
use uniswapv3_tick_state.Dispatcher.System.{
  Loop, TaskDispatcher, started, Move, head_event, subscription_error, eth_header, stop, sleep,
  begin_range, put_input, interrupted, end_range, Moves, here, then_move, IsAt, Inv,
}

module _ (from_height : ℕ) where
  pub at :
      {d : TaskDispatcher} (inv : Inv from_height d) {loop : Loop}
      → d.loop ≡ loop
      → IsAt (from_height + inv.many) d.fin_input loop
  at {d} inv e = subst (IsAt (from_height + inv.many) d.fin_input) e inv.at_next

  pub Move-Inv : (d e : TaskDispatcher) → Inv from_height d → Move d e → Inv from_height e
  Move-Inv d _ inv (head_event (eth_header number) room) = record {
    many = inv.many;
    in_order = inv.in_order;
    at_next = inv.at_next;
    room = room;
  }
  Move-Inv d _ inv (head_event subscription_error fits) = inv
  Move-Inv d _ inv stop = record {
    many = inv.many;
    in_order = inv.in_order;
    at_next = inv.at_next;
    room = inv.room;
  }
  Move-Inv d _ inv (sleep height e low) = inv
  Move-Inv d _ inv (begin_range height e le) =
      let now = at inv e in
      record {
        many = inv.many;
        in_order = inv.in_order;
        at_next = (now.0, omega arith, inv.room, now.1);
        room = inv.room;
      }
  Move-Inv d _ inv (put_input i to e le going) =
      let now = at inv e in
      let next : i ≡ from_height + inv.many = now.0 in
      let room : suc to < u64_mod = now.2 in
      record {
        many = inv.many + 1;
        in_order =
            ap (λ hs. hs ++ i ∷ []) inv.in_order
            ∙ ap (λ k. heights from_height inv.many ++ k ∷ []) next
            ∙ heights-append from_height inv.many 1;
        at_next = (omega arith, omega arith, room, now.3);
        room = inv.room;
      }
  Move-Inv d _ inv (interrupted i to e le halted) =
      let now = at inv e in
      record { many = inv.many; in_order = inv.in_order; at_next = (now.0, refl); room = inv.room }
  Move-Inv d _ inv (end_range i to e lt) =
      let now = at inv e in
      let next : i ≡ from_height + inv.many = now.0 in
      let le : i ≤ suc to = now.1 in
      let room : suc to < u64_mod = now.2 in
      record {
        many = inv.many;
        in_order = inv.in_order;
        at_next = (omega arith, now.3);
        room = inv.room;
      }

  pub Moves-Inv :
      (block_number : ℕ) (d : TaskDispatcher)
      → suc block_number < u64_mod
      → Moves (started block_number from_height) d
      → Inv from_height d
  Moves-Inv block_number d room here = record {
    many = 0;
    in_order = refl;
    at_next = (omega arith, refl);
    room = room;
  }
  Moves-Inv block_number f room (then_move {e} moves move) =
      Move-Inv e f (Moves-Inv block_number e room moves) move

  -- Whatever headers arrive, also lower ones and in bursts, whatever errors the subscription has, and
  -- whenever Stop is called: the receiver is given consecutive heights from the first on, in order,
  -- each once and without a gap, and the loop stands at the next one; it closes the receiver just where
  -- it returns.
  pub puts-in_order :
      (block_number : ℕ) (d : TaskDispatcher)
      → suc block_number < u64_mod
      → Moves (started block_number from_height) d
      → (n : ℕ) × (d.puts ≡ heights from_height n) × IsAt (from_height + n) d.fin_input d.loop
  puts-in_order block_number d room moves =
      let inv = Moves-Inv block_number d room moves in (inv.many, inv.in_order, inv.at_next)
