-- ===== src/Eterra/Course.antt =====
-- The course of one game as a state machine: the moves that `play`, `play_from_hand` and the AI make
-- and the turns that `force_finish_turn` skips (pallets/eterra/src/lib.rs), while rounds are left.
use eterra_polkadot_sdk_solo.Prelude.{
  ℕ, suc, ◌+◌, ◌≤◌, ◌<◌, ◌≡◌, refl, none, List, arith, ◌==◌, if◌then◌else◌, ap, ◌∙◌,
}
use eterra_polkadot_sdk_solo.Eterra.Types.{
  AccountId, player_one, player_two, Game, playing, Move, next_turn, next_turn_in, advance,
}
use eterra_polkadot_sdk_solo.Eterra.Capture.{apply_capture_logic, place_card_on_board}
use eterra_polkadot_sdk_solo.Eterra.Capture.Owners.{owned, weight}
use eterra_polkadot_sdk_solo.Prelude.Sums.{sum_below}
use eterra_polkadot_sdk_solo.Eterra.Capture.Rule.{apply_capture_logic-keeps}
use eterra_polkadot_sdk_solo.Eterra.Capture.Scores.{
  IsBalanced, apply_capture_logic-IsBalanced, place-IsBalanced_first, place-IsBalanced_second,
}
use eterra_polkadot_sdk_solo.Eterra.Store.{Env}
use eterra_polkadot_sdk_solo.Eterra.Ai.{resolve_move}
use eterra_polkadot_sdk_solo.Eterra.Create.{new_game}

-- `Course p0 p1 g`: the players have placed p0 and p1 cards, and the game stands at g.
pub data Course : ℕ → ℕ → Game → Type 0 where
  opening :
      (env : Env) (players : List AccountId) (turn : ℕ)
      → turn < 2
      → env.max_rounds ≤ 5
      → Course 0 0 (new_game env players turn)
  first_moves :
      {p0 p1 : ℕ} {g : Game}
      → Course p0 p1 g
      → (env : Env) (mv : Move) → g.round < g.max_rounds
      → g.player_turn ≡ 0
      → mv.place_index_x < 4
      → mv.place_index_y < 4
      → g.board mv.place_index_x mv.place_index_y ≡ none
      → Course (suc p0) p1 (resolve_move env mv 0 g)
  second_moves :
      {p0 p1 : ℕ} {g : Game}
      → Course p0 p1 g
      → (env : Env) (mv : Move) → g.round < g.max_rounds
      → g.player_turn ≡ 1
      → mv.place_index_x < 4
      → mv.place_index_y < 4
      → g.board mv.place_index_x mv.place_index_y ≡ none
      → Course p0 (suc p1) (resolve_move env mv 1 g)
  skips :
      {p0 p1 : ℕ} {g : Game}
      → Course p0 p1 g
      → (block : ℕ) → g.round < g.max_rounds
      → Course p0 p1 (record (next_turn g) { last_played_block = block })

-- What every course keeps.
pub record Scored (p0 p1 : ℕ) (g : Game) : Type 0 where
  pub balanced : IsBalanced p0 p1 g
  pub state : g.state ≡ playing
  pub turn : g.player_turn < 2
  pub first_few : p0 ≤ g.round + g.player_turn
  pub second_few : p1 ≤ g.round
  pub rounds : g.round ≤ g.max_rounds
  pub short : g.max_rounds ≤ 5

-- A turn of a game that goes on: the other player, and one round more after the second player.
pub next_turn_playing :
    (g : Game)
    → g.state ≡ playing
    → g.player_turn < 2
    → g.round < 5
    → next_turn g ≡ record g {
      player_turn = if g.player_turn == 0 then 1 else 0;
      round = if g.player_turn == 0 then g.round else suc g.round;
    }
unfolding next_turn next_turn_in advance
next_turn_playing g on turn few = rw (on, next_turn_in) (ground arith)

pass-Scored :
    (p0 p1 : ℕ) (h : Game)
    → IsBalanced p0 p1 h
    → h.state ≡ playing
    → h.player_turn < 2
    → h.round < h.max_rounds
    → h.max_rounds ≤ 5
    → p0 ≤ h.round + 1
    → p1 ≤ h.round + h.player_turn
    → Scored p0 p1 (next_turn h)
pass-Scored p0 p1 h b on turn left short few0 few1 =
    rw (next_turn_playing h on turn (omega arith)) (record {
      balanced = record {
        first = b.first;
        second = b.second;
        cards = b.cards;
        few_first = b.few_first;
        few_second = b.few_second;
      };
      state = on;
      turn = ground arith;
      first_few = ground arith;
      second_few = ground arith;
      rounds = ground arith;
      short = short;
    })

-- The position after a placement and its captures, before the turn passes.
unfoldable pub resolved : Env → Move → ℕ → Game → Game
resolved env mv ix g = record (apply_capture_logic (place_card_on_board g mv ix) mv ix) {
  last_played_block = env.block_number;
}

pub resolved_fields :
    (env : Env) (mv : Move) (ix : ℕ) (g : Game)
    → let h = resolved env mv ix g in
      (h.state ≡ g.state)
      × (h.player_turn ≡ g.player_turn)
      × (h.round ≡ g.round)
      × (h.max_rounds ≡ g.max_rounds)
unfolding resolved place_card_on_board
resolved_fields env mv ix g =
    let k = apply_capture_logic-keeps (place_card_on_board g mv ix) mv ix in
    (ap (λ h. h.state) k, ap (λ h. h.player_turn) k, ap (λ h. h.round) k, ap (λ h. h.max_rounds) k)

resolved-IsBalanced :
    (env : Env) (mv : Move) (ix p0 p1 : ℕ) (g : Game)
    → ix < 2
    → IsBalanced p0 p1 (place_card_on_board g mv ix)
    → IsBalanced p0 p1 (resolved env mv ix g)
unfolding resolved
resolved-IsBalanced env mv ix p0 p1 g hix b =
    let c = apply_capture_logic-IsBalanced p0 p1 ix mv (place_card_on_board g mv ix) hix b in
    record {
      first = c.first;
      second = c.second;
      cards = c.cards;
      few_first = c.few_first;
      few_second = c.few_second;
    }

stamped-Scored :
    (p0 p1 : ℕ) (g : Game) (block : ℕ)
    → Scored p0 p1 g
    → Scored p0 p1 (record g { last_played_block = block })
stamped-Scored p0 p1 g block v = record {
  balanced = record {
    first = v.balanced.first;
    second = v.balanced.second;
    cards = v.balanced.cards;
    few_first = v.balanced.few_first;
    few_second = v.balanced.few_second;
  };
  state = v.state;
  turn = v.turn;
  first_few = v.first_few;
  second_few = v.second_few;
  rounds = v.rounds;
  short = v.short;
}

opening-IsBalanced :
    (env : Env) (players : List AccountId) (turn : ℕ) → IsBalanced 0 0 (new_game env players turn)
unfolding new_game owned weight sum_below
opening-IsBalanced env players turn = omega arith

pub Course-Scored : {p0 p1 : ℕ} {g : Game} → Course p0 p1 g → Scored p0 p1 g
unfolding resolve_move resolved new_game
Course-Scored (opening env players turn lt short) = record {
  balanced = opening-IsBalanced env players turn;
  state = refl;
  turn = lt;
  first_few = omega arith;
  second_few = omega arith;
  rounds = omega arith;
  short = short;
}
Course-Scored (first_moves {p0} {p1} {g} c env mv left turn hx hy empty) =
    let v = Course-Scored c in
    let (on, t, r, m) = resolved_fields env mv 0 g in
    pass-Scored (suc p0) p1 (resolved env mv 0 g)
      (resolved-IsBalanced env mv 0 (suc p0) p1 g (omega arith)
        (place-IsBalanced_first p0 p1 mv g hx hy empty (omega arith) v.balanced))
      (on ∙ v.state) (omega arith) (omega arith) (omega arith) (omega arith) (omega arith)
Course-Scored (second_moves {p0} {p1} {g} c env mv left turn hx hy empty) =
    let v = Course-Scored c in
    let (on, t, r, m) = resolved_fields env mv 1 g in
    pass-Scored p0 (suc p1) (resolved env mv 1 g)
      (resolved-IsBalanced env mv 1 p0 (suc p1) g (omega arith)
        (place-IsBalanced_second p0 p1 mv g hx hy empty (omega arith) v.balanced))
      (on ∙ v.state) (omega arith) (omega arith) (omega arith) (omega arith) (omega arith)
Course-Scored (skips {p0} {p1} {g} c block left) =
    let v = Course-Scored c in
    stamped-Scored p0 p1 (next_turn g) block
      (pass-Scored p0 p1 g v.balanced v.state v.turn left v.short (omega arith) (omega arith))

-- In a game of at most five rounds that starts with either player, whatever the players place on
-- empty cells and whichever turns are skipped while rounds are left: each player's score is five,
-- plus the cards owned, less the cards placed; the scores add up to ten; the board holds the cards
-- placed; and neither player has placed more than five.
pub Course-scores :
    {p0 p1 : ℕ} {g : Game}
    → Course p0 p1 g
    → (g.scores.0 + p0 ≡ 5 + owned player_one g.board)
      × (g.scores.1 + p1 ≡ 5 + owned player_two g.board)
      × (g.scores.0 + g.scores.1 ≡ 10)
      × (owned player_one g.board + owned player_two g.board ≡ p0 + p1)
      × (p0 ≤ 5)
      × (p1 ≤ 5)
Course-scores c = let v = (Course-Scored c).balanced in omega arith
