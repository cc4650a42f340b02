-- ===== src/Eterra/Capture/Scores.antt =====
-- The score bookkeeping of pallets/eterra/src/lib.rs: placing cards and capturing them keeps each
-- player's score equal to five, plus the cards owned, less the cards placed.
use eterra_polkadot_sdk_solo.Prelude.{
  ℕ, suc, ◌+◌, ◌≤◌, ◌<◌, ◌≡◌, true, none, some, arith, inl, inr, Option-cases, [], ◌∷◌, List,
}
use eterra_polkadot_sdk_solo.Prelude.Int.{ℤ}
use eterra_polkadot_sdk_solo.Eterra.Types.{
  player_one, player_two, Card, with_possession, Game, Move,
}
use eterra_polkadot_sdk_solo.Eterra.Capture.{
  player_of, neighbor_cell, is_opponent_owned, flip_card, beats, capture_step, Direction,
  capture_loop, apply_capture_logic, place_card_on_board, directions,
}
use eterra_polkadot_sdk_solo.Eterra.Capture.Owners.{owned, owned-update, owned-le, weight, holds}

-- The two scores and the cards on the board, after the players have placed `p0` and `p1` cards,
-- neither of them more than five.
pub record IsBalanced (p0 p1 : ℕ) (g : Game) : Type 0 where
  pub first : g.scores.0 + p0 ≡ 5 + owned player_one g.board
  pub second : g.scores.1 + p1 ≡ 5 + owned player_two g.board
  pub cards : owned player_one g.board + owned player_two g.board ≡ p0 + p1
  pub few_first : p0 ≤ 5
  pub few_second : p1 ≤ 5

neighbor_cell_in :
    (x y : ℕ) (dx dy : ℤ) (xi yi : ℕ)
    → neighbor_cell x y dx dy ≡ some (xi, yi)
    → (xi < 4) × (yi < 4)
unfolding neighbor_cell
neighbor_cell_in x y dx dy xi yi e = ground arith

flip_card-IsBalanced :
    (p0 p1 ix xi yi : ℕ) (c : Card) (g : Game)
    → ix < 2
    → xi < 4
    → yi < 4
    → g.board xi yi ≡ some c
    → is_opponent_owned c.possession ix ≡ true
    → IsBalanced p0 p1 g
    → IsBalanced p0 p1 (flip_card g ix xi yi c)
unfolding flip_card is_opponent_owned weight holds
flip_card-IsBalanced p0 p1 ix xi yi c g hix hx hy e opp v =
    let o = some (with_possession c (player_of ix)) in
    ground (
      arith,
      owned-update player_one g.board xi yi o hx hy,
      owned-update player_two g.board xi yi o hx hy,
      owned-le g.board,
    )

capture_step-IsBalanced :
    (p0 p1 ix : ℕ) (mv : Move) (d : Direction) (g : Game)
    → ix < 2
    → IsBalanced p0 p1 g
    → IsBalanced p0 p1 (capture_step mv ix d g)
unfolding capture_step beats
capture_step-IsBalanced p0 p1 ix mv (dx, dy, r) g hix v =
    elim (Option-cases (neighbor_cell mv.place_index_x mv.place_index_y dx dy)) [
      | inl outside ↦ rw (outside, capture_step) v
      | inr ((xi, yi), cell) ↦ elim (Option-cases (g.board xi yi)) [
        | inl empty ↦ ground arith
        | inr (c, full) ↦ ground (
          arith,
          neighbor_cell_in mv.place_index_x mv.place_index_y dx dy xi yi cell,
          flip_card-IsBalanced p0 p1 ix xi yi c g hix,
        )
      ]
    ]

-- The captures after a placement keep the account of the scores, whatever the board.
pub apply_capture_logic-IsBalanced :
    (p0 p1 ix : ℕ) (mv : Move) (g : Game)
    → ix < 2
    → IsBalanced p0 p1 g
    → IsBalanced p0 p1 (apply_capture_logic g mv ix)
unfolding apply_capture_logic
apply_capture_logic-IsBalanced p0 p1 ix mv g hix v = loop (directions mv) g v
  where
    step :
        (d : Direction) (h : Game) → IsBalanced p0 p1 h → IsBalanced p0 p1 (capture_step mv ix d h)
    step d h w = capture_step-IsBalanced p0 p1 ix mv d h hix w

    loop :
        (ds : List Direction) (h : Game)
        → IsBalanced p0 p1 h
        → IsBalanced p0 p1 (capture_loop ds mv ix h)
    loop [] h w = w
    loop (d ∷ ds) h w = loop ds (capture_step mv ix d h) (step d h w)

-- A card put on an empty cell by player 0 counts as one more placed, and one more owned.
pub place-IsBalanced_first :
    (p0 p1 : ℕ) (mv : Move) (g : Game)
    → mv.place_index_x < 4
    → mv.place_index_y < 4
    → g.board mv.place_index_x mv.place_index_y ≡ none
    → p0 < 5
    → IsBalanced p0 p1 g
    → IsBalanced (suc p0) p1 (place_card_on_board g mv 0)
unfolding place_card_on_board weight holds
place-IsBalanced_first p0 p1 mv g hx hy e few v =
    let o = some (with_possession mv.place_card player_one) in
    let x = mv.place_index_x in
    let y = mv.place_index_y in
    ground (
      arith,
      owned-update player_one g.board x y o hx hy,
      owned-update player_two g.board x y o hx hy,
    )

pub place-IsBalanced_second :
    (p0 p1 : ℕ) (mv : Move) (g : Game)
    → mv.place_index_x < 4
    → mv.place_index_y < 4
    → g.board mv.place_index_x mv.place_index_y ≡ none
    → p1 < 5
    → IsBalanced p0 p1 g
    → IsBalanced p0 (suc p1) (place_card_on_board g mv 1)
unfolding place_card_on_board weight holds
place-IsBalanced_second p0 p1 mv g hx hy e few v =
    let o = some (with_possession mv.place_card player_two) in
    let x = mv.place_index_x in
    let y = mv.place_index_y in
    ground (
      arith,
      owned-update player_one g.board x y o hx hy,
      owned-update player_two g.board x y o hx hy,
    )
