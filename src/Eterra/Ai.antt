-- ===== src/Eterra/Ai.antt =====
-- The AI's turn in pallets/eterra/src/lib.rs: `map_card_to_ai`, `build_ai_state`,
-- `maybe_ai_take_turn`, and the step that every placement shares.
use eterra_polkadot_sdk_solo.Prelude.{
  ℕ, zero, suc, ◌==◌, ltb, if◌then◌else◌, true, Option, none, some, is_some, List, [], ◌∷◌,
  get_elem?, set, update₂,
}
use mathlib.Core.Option
use eterra_polkadot_sdk_solo.Prelude.Results.{Result, ok, ◌>>=◌, or_panic}
use eterra_polkadot_sdk_solo.AiAdapter.Types.{Slot, Hand, State, Action}
use eterra_polkadot_sdk_solo.MonteCarlo.{suggest}
use eterra_polkadot_sdk_solo.MonteCarlo.Adapter.{card_game}
use eterra_polkadot_sdk_solo.Eterra.Types.{
  AccountId, GameId, Card, new_card, Game, next_turn, HandEntry, Move, new_turn, move_played, Error,
}
use eterra_polkadot_sdk_solo.Eterra.Capture.{place_card_on_board, apply_capture_logic}
use eterra_polkadot_sdk_solo.Eterra.Store.{
  Store, Env, deposit_event, put_game, is_pve, get_current_player_index, is_game_won, end_game,
}

unfoldable pub map_card_to_ai : Card → Card
map_card_to_ai c = record {
  top = c.top;
  right = c.right;
  bottom = c.bottom;
  left = c.left;
  possession = c.possession;
}

unfoldable pub slot_of : HandEntry → Slot
slot_of h = record { north = h.north; east = h.east; south = h.south; west = h.west; used = h.used }

-- The array that `map_hand` starts from holds used slots.
abbrev pub filler : Slot
filler = record { north = 1; east = 1; south = 1; west = 1; used = true }

unfoldable pub map_hand : ℕ → List HandEntry → Hand
unfolding slot_of
map_hand zero h = []
map_hand (suc n) [] = filler ∷ map_hand n []
map_hand (suc n) (e ∷ h) = slot_of e ∷ map_hand n h

unfoldable pub state_of : Game → List HandEntry → List HandEntry → State
unfolding map_hand map_card_to_ai
state_of g hand0 hand1 = record {
  board = λ x y. Option.map map_card_to_ai (g.board x y);
  scores = g.scores;
  player_turn = g.player_turn;
  round = g.round;
  max_rounds = g.max_rounds;
  hands = map_hand 5 hand0 ∷ map_hand 5 hand1 ∷ [];
}

unfoldable pub build_ai_state : GameId → Game → Store → Option State
unfolding state_of
build_ai_state id g s = elim (get_elem? g.players 0) [
  | none ↦ none
  | some p0 ↦ elim (get_elem? g.players 1) [
    | none ↦ none
    | some p1 ↦ elim (s.hands_of_game id p0) [
      | none ↦ none
      | some hand0 ↦ elim (s.hands_of_game id p1) [
        | none ↦ none
        | some hand1 ↦ some (state_of g hand0 hand1)
      ]
    ]
  ]
]

-- The card of a hand entry, put at (x, y).
unfoldable pub move_of : HandEntry → ℕ → ℕ → Move
unfolding new_card
move_of h x y = record {
  place_index_x = x;
  place_index_y = y;
  place_card = new_card h.north h.east h.south h.west;
}

-- Place the card, capture, note the block, pass the turn: what `play`, `play_from_hand` and the AI
-- do alike.
unfoldable pub resolve_move : Env → Move → ℕ → Game → Game
resolve_move env mv ix g =
    next_turn (record (apply_capture_logic (place_card_on_board g mv ix) mv ix) {
      last_played_block = env.block_number;
    })

unfoldable pub use_slot : List HandEntry → ℕ → HandEntry → List HandEntry
use_slot hand i h = set hand i (record h { used = true })

unfoldable pub put_hand : GameId → AccountId → List HandEntry → Store → Store
put_hand id acct hand s = record s { hands_of_game = update₂ s.hands_of_game id acct (some hand) }

-- The AI places entry `h`, number `i` of its hand.
unfoldable pub ai_place :
    Env → GameId → Game → List HandEntry → HandEntry → Action → Store → Result Error Store
unfolding move_of use_slot put_hand deposit_event put_game
ai_place env id g hand h a s = do
  ix ← get_current_player_index g env.ai_account
  let g' = resolve_move env (move_of h a.x a.y) ix g
  let s1 = put_hand id env.ai_account (use_slot hand a.hand_index h) s
  next_player ← or_panic (get_elem? g'.players g'.player_turn)
  let s2 = put_game id g' (deposit_event (new_turn id next_player) s1)
  won ← is_game_won id g' s2
  elim won [
    | some winner ↦ end_game id winner s2
    | none ↦ ok (deposit_event (move_played id env.ai_account a.x a.y) s2)
  ]

-- The nested tests on what the search has suggested.
unfoldable pub ai_play : Env → GameId → Game → Action → Store → Result Error Store
ai_play env id g a s = elim (s.hands_of_game id env.ai_account) [
  | none ↦ ok s
  | some hand ↦ elim (get_elem? hand a.hand_index) [
    | none ↦ ok s
    | some h ↦
        if h.used
        then ok s
        else (if ltb a.x 4
            then (if ltb a.y 4
                then (if is_some (g.board a.x a.y) then ok s else ai_place env id g hand h a s)
                else ok s)
            else ok s)
  ]
]

-- `if let Some(action)` on what the search has suggested.
unfoldable pub ai_follow : Env → GameId → Game → Option Action → Store → Result Error Store
unfolding ai_play
ai_follow env id g none s = ok s
ai_follow env id g (some a) s = ai_play env id g a s

unfoldable pub maybe_ai_take_turn : Env → GameId → Game → Store → Result Error Store
maybe_ai_take_turn env id g s =
    if is_pve (s.game_modes id)
    then (do
      turn_acc ← or_panic (get_elem? g.players g.player_turn)
      if turn_acc == env.ai_account
          then elim (build_ai_state id g s) [
            | none ↦ ok s
            | some state ↦
                or_panic (suggest card_game env.search state env.ai_difficulty env.nonce)
                >>= λ found. ai_follow env id g found.0 s
          ]
          else ok s)
    else ok s

-- What the calls do at their end: in a PvE game the AI plays on the stored game.
unfoldable pub let_ai_play : Env → GameId → Store → Result Error Store
let_ai_play env id s =
    if is_pve (s.game_modes id)
    then elim (s.game_storage id) [ none ↦ ok s | some g ↦ maybe_ai_take_turn env id g s ]
    else ok s
