-- ===== src/AiAdapter/Adapter.antt =====
-- The operations of crates/eterra-card-ai-adapter/src/lib.rs: the moves of a position, the position
-- after a move, and the score. `none` is a panic (an index out of range).
-- The loop over the directions reads and captures with the same matches as the game pallet's, so
-- it is written with `neighbor_cell`, `opp_rank`, `take_point` and `give_point` of the pallet's model.
use eterra_polkadot_sdk_solo.Prelude.{
  ℕ, ◌+◌, ◌%◌, ◌==◌, leb, ltb, if◌then◌else◌, Bool, true, Option, none, some, is_some, List, [],
  ◌∷◌, ◌++◌, length, get_elem?, set, update₂, saturating_add, u8_max,
}
use eterra_polkadot_sdk_solo.Prelude.Int.{ℤ, pos, negsuc, sub_ℕ}
use eterra_polkadot_sdk_solo.Prelude.Panics.{◌>>=◌, ◌>>◌, in_range}
use eterra_polkadot_sdk_solo.Eterra.Types.{Card, with_possession}
use eterra_polkadot_sdk_solo.Eterra.Capture.{
  player_of, Direction, neighbor_cell, opp_rank, take_point, give_point,
}
use eterra_polkadot_sdk_solo.AiAdapter.Types.{Slot, Hand, State, Action}

-- The write to `out[k]`, and the early return once `k == MAX`: from there on nothing is written.
unfoldable pub push_action : ℕ → List Action → Action → List Action
push_action max out a = if ltb (length out) max then out ++ a ∷ [] else out

-- The loop over the entries of the hand, at one empty cell.
unfoldable pub list_entries : ℕ → ℕ → ℕ → ℕ → Hand → List Action → List Action
unfolding push_action
list_entries max x y idx [] out = out
list_entries max x y idx (he ∷ entries) out =
    list_entries max x y (idx + 1) entries
      (if he.used then out else push_action max out (record { hand_index = idx; x = x; y = y }))

unfoldable pub list_cell : ℕ → State → ℕ → ℕ → List Action → Option (List Action)
unfolding list_entries
list_cell max s x y out =
    if is_some (s.board x y)
    then some out
    else get_elem? s.hands s.player_turn >>= λ hand. some (list_entries max x y 0 hand out)

unfoldable pub list_row : ℕ → State → ℕ → List ℕ → List Action → Option (List Action)
unfolding list_cell
list_row max s x [] out = some out
list_row max s x (y ∷ ys) out = list_cell max s x y out >>= list_row max s x ys

unfoldable pub list_rows : ℕ → State → List ℕ → List Action → Option (List Action)
unfolding list_row
list_rows max s [] out = some out
list_rows max s (x ∷ xs) out = list_row max s x (0 ∷ 1 ∷ 2 ∷ 3 ∷ []) out >>= list_rows max s xs

unfoldable pub list_actions_pure : ℕ → State → Option (List Action)
unfolding list_rows
list_actions_pure max s =
    if leb s.max_rounds s.round then some [] else list_rows max s (0 ∷ 1 ∷ 2 ∷ 3 ∷ []) []

-- `placed`
unfoldable pub placed_card : ℕ → Slot → Card
placed_card turn he = record {
  top = he.north;
  right = he.east;
  bottom = he.south;
  left = he.west;
  possession = some (player_of turn);
}

abbrev pub dirs : Card → List Direction
dirs c =
    (pos 0, negsuc 0, c.top)
    ∷ (pos 1, pos 0, c.right)
    ∷ (pos 0, pos 1, c.bottom)
    ∷ (negsuc 0, pos 0, c.left)
    ∷ []

unfoldable pub take_over : ℕ → ℕ → ℕ → Card → State → State
unfolding with_possession
take_over turn xi yi opp g = record g {
  scores = give_point turn (take_point opp.possession g.scores);
  board = update₂ g.board xi yi (some (with_possession opp (player_of turn)));
}

-- One round of the loop. A beaten neighbor is taken, whoever owns it.
unfoldable pub apply_direction : ℕ → ℕ → ℕ → Direction → State → State
unfolding take_over
apply_direction turn x y (dx, dy, rank) g = elim (neighbor_cell x y dx dy) [
  | none ↦ g
  | some (xi, yi) ↦ elim (g.board xi yi) [
    | none ↦ g
    | some opp ↦ if ltb (opp_rank dx dy opp) rank then take_over turn xi yi opp g else g
  ]
]

unfoldable pub apply_directions : ℕ → ℕ → ℕ → List Direction → State → State
unfolding apply_direction
apply_directions turn x y [] g = g
apply_directions turn x y (d ∷ ds) g = apply_directions turn x y ds (apply_direction turn x y d g)

-- The entry is used, and the turn passes; the round grows when it comes back to player 0.
unfoldable pub finish : ℕ → Hand → Slot → State → State
finish idx hand he g = record g {
  hands = set g.hands g.player_turn (set hand idx (record he { used = true }));
  player_turn = if g.player_turn == 0 then 1 else 0;
  round = if g.player_turn == 0 then g.round else saturating_add u8_max g.round 1;
}

unfoldable pub apply_pure : State → Action → Option State
unfolding placed_card apply_directions finish
apply_pure s a = do
  hand ← get_elem? s.hands s.player_turn
  he ← get_elem? hand a.hand_index
  in_range (ltb a.x 4)
  in_range (ltb a.y 4)
  let placed = placed_card s.player_turn he
  let g = record s { board = update₂ s.board a.x a.y (some placed) }
  some (finish a.hand_index hand he (apply_directions s.player_turn a.x a.y (dirs placed) g))

unfoldable pub is_terminal : State → Bool
is_terminal s = leb s.max_rounds s.round

unfoldable pub score : State → ℕ → ℤ
score s for_player =
    if for_player == 0 then sub_ℕ s.scores.0 s.scores.1 else sub_ℕ s.scores.1 s.scores.0

-- `None` where no move is left; `buf[idx]` is one of those that were listed.
unfoldable pub random_action : State → ℕ → Option (Option Action)
unfolding list_actions_pure
random_action s seed = do
  actions ← list_actions_pure 128 s
  if length actions == 0 then some none else some (get_elem? actions (seed % length actions))
