-- ===== src/AiAdapter/Simulation.antt =====
-- The move of crates/eterra-card-ai-adapter/src/lib.rs as a simulation of the move of
-- pallets/eterra/src/lib.rs: what the search sees of a game follows the game.
use eterra_polkadot_sdk_solo.Prelude.{
  ℕ, ◌≤◌, ◌<◌, ◌≡◌, refl, ◌∙◌, true, Option, none, some, is_some, List, [], ◌∷◌, set, update₂,
  arith,
}
use mathlib.Core.Option
use eterra_polkadot_sdk_solo.Eterra.Types.{
  Card, with_possession, Board, Game, GameState, matchmaking, playing, finished, Move, next_turn,
  next_turn_in, advance, HandEntry,
}
use eterra_polkadot_sdk_solo.Eterra.Capture.{
  Direction, directions, place_card_on_board, flip_card, capture_step, capture_loop,
  apply_capture_logic,
}
use eterra_polkadot_sdk_solo.Eterra.Store.{Env}
use eterra_polkadot_sdk_solo.Eterra.Create.{new_game}
use eterra_polkadot_sdk_solo.Eterra.Ai.{resolve_move, map_card_to_ai, map_hand, state_of}
use eterra_polkadot_sdk_solo.Eterra.Course.{
  Course, opening, first_moves, second_moves, skips, Course-Scored, Course-scores,
}
use eterra_polkadot_sdk_solo.AiAdapter.Types.{Slot, Hand, State, Action}
use eterra_polkadot_sdk_solo.AiAdapter.Adapter.{
  placed_card, dirs, apply_direction, apply_directions, take_over,
}
use eterra_polkadot_sdk_solo.AiAdapter.Mirror.{points, Agrees, apply_directions-Agrees}

-- Every card on the board has an owner.
abbrev pub AllOwned : Board → Type 0
AllOwned b = (i j : ℕ) (c : Card) → b i j ≡ some c → is_some c.possession ≡ true

place-AllOwned :
    (mv : Move) (ix : ℕ) (g : Game)
    → AllOwned g.board
    → AllOwned (place_card_on_board g mv ix).board
unfolding place_card_on_board with_possession
place-AllOwned mv ix g v i j c e = ground (arith, v i j c)

capture_step-AllOwned :
    (mv : Move) (ix : ℕ) (d : Direction) (g : Game)
    → AllOwned g.board
    → AllOwned (capture_step mv ix d g).board
unfolding capture_step flip_card with_possession
capture_step-AllOwned mv ix (dx, dy, r) g v i j c e = ground (arith, v i j c)

capture_loop-AllOwned :
    (ds : List Direction) (mv : Move) (ix : ℕ) (g : Game)
    → AllOwned g.board
    → AllOwned (capture_loop ds mv ix g).board
unfolding capture_loop
capture_loop-AllOwned [] mv ix g v = v
capture_loop-AllOwned (d ∷ ds) mv ix g v =
    capture_loop-AllOwned ds mv ix _ (capture_step-AllOwned mv ix d g v)

next_turn_in-board : (st : GameState) (g : Game) → (next_turn_in st g).board ≡ g.board
unfolding next_turn_in advance
next_turn_in-board matchmaking g = refl
next_turn_in-board playing g = refl
next_turn_in-board (finished w) g = refl

next_turn-board : (g : Game) → (next_turn g).board ≡ g.board
unfolding next_turn
next_turn-board g = next_turn_in-board g.state g

resolve_move-AllOwned :
    (env : Env) (mv : Move) (ix : ℕ) (g : Game)
    → AllOwned g.board
    → AllOwned (resolve_move env mv ix g).board
unfolding resolve_move apply_capture_logic
resolve_move-AllOwned env mv ix g v =
    rw next_turn-board (capture_loop-AllOwned (directions mv) mv ix _ (place-AllOwned mv ix g v))

pub Course-AllOwned : {p0 p1 : ℕ} {g : Game} → Course p0 p1 g → AllOwned g.board
unfolding new_game
Course-AllOwned (opening env players turn lt short) = λ i j c e. cc
Course-AllOwned (first_moves {g = g} c env mv left turn hx hy empty) =
    resolve_move-AllOwned env mv 0 g (Course-AllOwned c)
Course-AllOwned (second_moves {g = g} c env mv left turn hx hy empty) =
    resolve_move-AllOwned env mv 1 g (Course-AllOwned c)
Course-AllOwned (skips {g = g} c block left) = rw next_turn-board (Course-AllOwned c)

-- In a course, the player to move has between one and ten points.
pub mover-points :
    {p0 p1 : ℕ} {g : Game}
    → Course p0 p1 g
    → g.round < g.max_rounds
    → (1 ≤ points g.player_turn g.scores) × (points g.player_turn g.scores ≤ 10)
mover-points c left =
    let v = Course-Scored c in let (a, b, total, cards, f, s) = Course-scores c in ground (arith, v)

-- What the search sees of a game, with the hands of the two players.
pub record Shows (s : State) (g : Game) (hand0 hand1 : Hand) : Type 0 where
  pub board : (i j : ℕ) → s.board i j ≡ g.board i j
  pub scores : s.scores ≡ g.scores
  pub turn : s.player_turn ≡ g.player_turn
  pub round : s.round ≡ g.round
  pub max_rounds : s.max_rounds ≡ g.max_rounds
  pub hands : s.hands ≡ hand0 ∷ hand1 ∷ []

map_card-id : (o : Option Card) → Option.map map_card_to_ai o ≡ o
unfolding map_card_to_ai
map_card-id none = refl
map_card-id (some c) = refl

-- The state that the game pallet builds for the search shows the game.
pub state_of-Shows :
    (g : Game) (e0 e1 : List HandEntry) → Shows (state_of g e0 e1) g (map_hand 5 e0) (map_hand 5 e1)
unfolding state_of
state_of-Shows g e0 e1 = record {
  board = λ i j. map_card-id (g.board i j);
  scores = refl;
  turn = refl;
  round = refl;
  max_rounds = refl;
  hands = refl;
}

-- The move of the pallet that an action stands for.
abbrev pub move_for : Slot → Action → Move
move_for he a = record {
  place_index_x = a.x;
  place_index_y = a.y;
  place_card = record {
    top = he.north;
    right = he.east;
    bottom = he.south;
    left = he.west;
    possession = none;
  };
}

abbrev pub used_in : Hand → Action → Slot → Hand
used_in hand a he = set hand a.hand_index (record he { used = true })

-- The two placements and captures agree.
pub captures-Agrees :
    (he : Slot) (a : Action) (s : State) (g : Game)
    → g.player_turn < 2
    → ((i j : ℕ) → s.board i j ≡ g.board i j)
    → s.scores ≡ g.scores
    → AllOwned g.board
    → 1 ≤ points g.player_turn g.scores
    → points g.player_turn g.scores ≤ 10
    → Agrees g.player_turn
        (apply_directions g.player_turn a.x a.y
          (dirs (placed_card g.player_turn he))
          (record s { board = update₂ s.board a.x a.y (some (placed_card g.player_turn he)) }))
        (apply_capture_logic
          (place_card_on_board g (move_for he a) g.player_turn)
          (move_for he a)
          g.player_turn)
unfolding apply_capture_logic place_card_on_board placed_card with_possession
captures-Agrees he a s g hix same scores all low high =
    apply_directions-Agrees (directions (move_for he a)) (move_for he a) g.player_turn _ _ hix
      record {
        board = λ i j. ground (arith, same i j);
        scores = scores;
        owned = λ i j c e. ground (arith, all i j c);
        low = low;
        high = omega arith;
      }

apply_direction-keeps :
    (turn x y : ℕ) (d : Direction) (s : State)
    → let t = apply_direction turn x y d s in
      (t.player_turn ≡ s.player_turn)
      × (t.round ≡ s.round)
      × (t.max_rounds ≡ s.max_rounds)
      × (t.hands ≡ s.hands)
unfolding apply_direction take_over
apply_direction-keeps turn x y (dx, dy, r) s = ground arith

pub apply_directions-keeps :
    (turn x y : ℕ) (ds : List Direction) (s : State)
    → let t = apply_directions turn x y ds s in
      (t.player_turn ≡ s.player_turn)
      × (t.round ≡ s.round)
      × (t.max_rounds ≡ s.max_rounds)
      × (t.hands ≡ s.hands)
unfolding apply_directions
apply_directions-keeps turn x y [] s = (refl, refl, refl, refl)
apply_directions-keeps turn x y (d ∷ ds) s =
    let (a, b, c, e) = apply_directions-keeps turn x y ds (apply_direction turn x y d s) in
    let (a', b', c', e') = apply_direction-keeps turn x y d s in (a ∙ a', b ∙ b', c ∙ c', e ∙ e')
