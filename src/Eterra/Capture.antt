-- ===== src/Eterra/Capture.antt =====
-- `place_card_on_board` and `apply_capture_logic` of pallets/eterra/src/lib.rs: the loop over the
-- four directions, each of which reads the board that the ones before it left.
pub mod Owners
pub mod Rule
pub mod Scores
pub mod Fits
use eterra_polkadot_sdk_solo.Prelude.{
  ℕ, zero, suc, ◌+◌, ◌-◌, ◌==◌, ltb, if◌then◌else◌, Bool, true, false, Option, none, some, List, [],
  ◌∷◌, update₂, saturating_add, u8_max,
}
use eterra_polkadot_sdk_solo.Prelude.Int.{ℤ, pos, negsuc, ◌+ℤ◌}
use eterra_polkadot_sdk_solo.Eterra.Types.{
  Player, player_one, player_two, Card, with_possession, Board, Game, Move,
}

-- `match player_ix { 0 => PlayerOne, _ => PlayerTwo }`
abbrev pub player_of : ℕ → Player
player_of ix = if ix == 0 then player_one else player_two

unfoldable pub place_card_on_board : Game → Move → ℕ → Game
unfolding with_possession
place_card_on_board g mv ix = record g {
  board =
      update₂ g.board mv.place_index_x mv.place_index_y
        (some (with_possession mv.place_card (player_of ix)));
}

abbrev pub Direction : Type 0
Direction = ℤ × ℤ × ℕ

abbrev pub directions : Move → List Direction
directions mv =
    (pos 0, negsuc 0, mv.place_card.top)
    ∷ (pos 1, pos 0, mv.place_card.right)
    ∷ (pos 0, pos 1, mv.place_card.bottom)
    ∷ (negsuc 0, pos 0, mv.place_card.left)
    ∷ []

-- An index of the grid, unless `n < 0 || n >= 4`.
abbrev pub grid_index : ℤ → Option ℕ
grid_index (pos n) = if ltb n 4 then some n else none
grid_index (negsuc n) = none

unfoldable pub neighbor_cell : ℕ → ℕ → ℤ → ℤ → Option (ℕ × ℕ)
neighbor_cell x y dx dy = elim (grid_index (pos x +ℤ dx)) [
  | none ↦ none
  | some nx ↦ elim (grid_index (pos y +ℤ dy)) [ none ↦ none | some ny ↦ some (nx, ny) ]
]

unfoldable pub is_opponent_owned : Option Player → ℕ → Bool
is_opponent_owned (some player_one) ix = ix == 1
is_opponent_owned (some player_two) ix = ix == 0
is_opponent_owned none ix = false

-- The neighbor's edge that faces the placed card.
unfoldable pub opp_rank : ℤ → ℤ → Card → ℕ
opp_rank (pos zero) (negsuc zero) c = c.bottom
opp_rank (pos (suc zero)) (pos zero) c = c.left
opp_rank (pos zero) (pos (suc zero)) c = c.top
opp_rank (negsuc zero) (pos zero) c = c.right
opp_rank _ _ c = 0

abbrev pub take_point : Option Player → ℕ × ℕ → ℕ × ℕ
take_point (some player_one) s = (s.0 - 1, s.1)
take_point (some player_two) s = (s.0, s.1 - 1)
take_point none s = s

abbrev pub give_point : ℕ → ℕ × ℕ → ℕ × ℕ
give_point ix s =
    if ix == 0 then (saturating_add u8_max s.0 1, s.1) else (s.0, saturating_add u8_max s.1 1)

unfoldable pub flip_card : Game → ℕ → ℕ → ℕ → Card → Game
unfolding with_possession
flip_card g ix xi yi c = record g {
  scores = give_point ix (take_point c.possession g.scores);
  board = update₂ g.board xi yi (some (with_possession c (player_of ix)));
}

-- The tests on a neighbor: the opponent's, and strictly beaten.
unfoldable pub beats : ℕ → ℤ → ℤ → ℕ → Card → Bool
beats ix dx dy my_rank c =
    if is_opponent_owned c.possession ix then ltb (opp_rank dx dy c) my_rank else false

-- One round of the loop.
unfoldable pub capture_step : Move → ℕ → Direction → Game → Game
capture_step mv ix (dx, dy, my_rank) g =
    elim (neighbor_cell mv.place_index_x mv.place_index_y dx dy) [
      | none ↦ g
      | some (xi, yi) ↦ elim (g.board xi yi) [
        | none ↦ g
        | some c ↦ if beats ix dx dy my_rank c then flip_card g ix xi yi c else g
      ]
    ]

unfoldable pub capture_loop : List Direction → Move → ℕ → Game → Game
capture_loop [] mv ix g = g
capture_loop (d ∷ ds) mv ix g = capture_loop ds mv ix (capture_step mv ix d g)

unfoldable pub apply_capture_logic : Game → Move → ℕ → Game
unfolding capture_loop
apply_capture_logic g mv ix = capture_loop (directions mv) mv ix g
