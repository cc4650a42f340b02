-- ===== src/Eterra/Capture/Rule.antt =====
-- The capture rule of pallets/eterra/src/lib.rs stated cell by cell, and the loop of
-- `apply_capture_logic` proved to implement it.
use eterra_polkadot_sdk_solo.Prelude.{
  ℕ, ◌+◌, ◌<◌, ◌≡◌, refl, ◌==◌, ltb, if◌then◌else◌, Bool, false, ◌&&◌, ◌||◌, Option, none, some,
  arith, ◌∙◌, inl, inr, Option-cases,
}
use eterra_polkadot_sdk_solo.Prelude.Int.{ℤ, pos, negsuc}
use eterra_polkadot_sdk_solo.Eterra.Types.{Card, with_possession, Board, Game, Move}
use eterra_polkadot_sdk_solo.Eterra.Capture.{
  player_of, neighbor_cell, is_opponent_owned, opp_rank, flip_card, beats, capture_step,
  capture_loop, apply_capture_logic,
}

-- What happens to the card of one cell, given the test on its facing edge.
turned : ℕ → (Card → Bool) → Option Card → Option Card
turned ix test none = none
turned ix test (some c) =
    if is_opponent_owned c.possession ix && test c
    then some (with_possession c (player_of ix))
    else some c

-- Is (i, j) the cell that a direction points at?
hits : Option (ℕ × ℕ) → ℕ → ℕ → Bool
hits none i j = false
hits (some (xi, yi)) i j = (i == xi) && (j == yi)

step_at :
    (mv : Move) (ix r : ℕ) (dx dy : ℤ) (g : Game) (i j : ℕ) (o : Option (ℕ × ℕ))
    → neighbor_cell mv.place_index_x mv.place_index_y dx dy ≡ o
    → (capture_step mv ix (dx, dy, r) g).board i j ≡ (
        if hits o i j then turned ix (λ c. ltb (opp_rank dx dy c) r) (g.board i j) else g.board i j)
unfolding capture_step hits
step_at mv ix r dx dy g i j none e = ground arith
step_at mv ix r dx dy g i j (some (xi, yi)) e = elim (Option-cases (g.board xi yi)) [
  | inl empty ↦ unfold turned in ground arith
  | inr (c, full) ↦ unfold turned flip_card beats in ground arith
]

-- The placed card's edge beats the edge of `c`, at (i, j), that faces it.
unfoldable pub beaten_at : Move → ℕ → ℕ → Card → Bool
beaten_at mv i j c =
    let x = mv.place_index_x in
    let y = mv.place_index_y in
    ((i == x) && (j + 1 == y) && ltb c.bottom mv.place_card.top)
    || ((i == x + 1) && (j == y) && ltb c.left mv.place_card.right)
    || ((i == x) && (j == y + 1) && ltb c.top mv.place_card.bottom)
    || ((i + 1 == x) && (j == y) && ltb c.right mv.place_card.left)

-- The rule: an opponent's card that stands next to the placed one, and whose facing edge is
-- strictly lower, changes hands. Nothing else does.
unfoldable pub captured : Move → ℕ → Board → Board
unfolding with_possession beaten_at is_opponent_owned
captured mv ix b i j = elim (b i j) [
  | none ↦ none
  | some c ↦
      if is_opponent_owned c.possession ix && beaten_at mv i j c
      then some (with_possession c (player_of ix))
      else some c
]

hits_above :
    (x y i j : ℕ)
    → i < 4
    → j < 4
    → hits (neighbor_cell x y (pos 0) (negsuc 0)) i j ≡ ((i == x) && (j + 1 == y))
unfolding hits neighbor_cell
hits_above x y i j hi hj = ground arith

hits_right :
    (x y i j : ℕ)
    → i < 4
    → j < 4
    → hits (neighbor_cell x y (pos 1) (pos 0)) i j ≡ ((i == x + 1) && (j == y))
unfolding hits neighbor_cell
hits_right x y i j hi hj = ground arith

hits_below :
    (x y i j : ℕ)
    → i < 4
    → j < 4
    → hits (neighbor_cell x y (pos 0) (pos 1)) i j ≡ ((i == x) && (j == y + 1))
unfolding hits neighbor_cell
hits_below x y i j hi hj = ground arith

hits_left :
    (x y i j : ℕ)
    → i < 4
    → j < 4
    → hits (neighbor_cell x y (negsuc 0) (pos 0)) i j ≡ ((i + 1 == x) && (j == y))
unfolding hits neighbor_cell
hits_left x y i j hi hj = ground arith

-- The four steps together, on one cell.
turned_once :
    (mv : Move) (ix i j : ℕ) (o : Option Card)
    → let x = mv.place_index_x in
      let y = mv.place_index_y in
      let m = mv.place_card in
      let up = (if (i == x) && (j + 1 == y) then turned ix (λ c. ltb c.bottom m.top) o else o) in
      let ri = (if (i == x + 1) && (j == y) then turned ix (λ c. ltb c.left m.right) up else up) in
      let dn = (if (i == x) && (j == y + 1) then turned ix (λ c. ltb c.top m.bottom) ri else ri) in
      (if (i + 1 == x) && (j == y) then turned ix (λ c. ltb c.right m.left) dn else dn)
      ≡ captured mv ix (λ _ _. o) i j
unfolding captured turned
turned_once mv ix i j none = ground arith
turned_once mv ix i j (some c) = ground arith

module _ (mv : Move) (ix r : ℕ) (g : Game) (i j : ℕ) (hi : i < 4) (hj : j < 4) where
  step_above : (capture_step mv ix (pos 0, negsuc 0, r) g).board i j ≡ (
      if (i == mv.place_index_x) && (j + 1 == mv.place_index_y)
      then turned ix (λ c. ltb c.bottom r) (g.board i j)
      else g.board i j)
  unfolding opp_rank
  step_above =
      rw (← hits_above mv.place_index_x mv.place_index_y i j hi hj)
        (step_at mv ix r (pos 0) (negsuc 0) g i j _ refl)

  step_right : (capture_step mv ix (pos 1, pos 0, r) g).board i j ≡ (
      if (i == mv.place_index_x + 1) && (j == mv.place_index_y)
      then turned ix (λ c. ltb c.left r) (g.board i j)
      else g.board i j)
  unfolding opp_rank
  step_right =
      rw (← hits_right mv.place_index_x mv.place_index_y i j hi hj)
        (step_at mv ix r (pos 1) (pos 0) g i j _ refl)

  step_below : (capture_step mv ix (pos 0, pos 1, r) g).board i j ≡ (
      if (i == mv.place_index_x) && (j == mv.place_index_y + 1)
      then turned ix (λ c. ltb c.top r) (g.board i j)
      else g.board i j)
  unfolding opp_rank
  step_below =
      rw (← hits_below mv.place_index_x mv.place_index_y i j hi hj)
        (step_at mv ix r (pos 0) (pos 1) g i j _ refl)

  step_left : (capture_step mv ix (negsuc 0, pos 0, r) g).board i j ≡ (
      if (i + 1 == mv.place_index_x) && (j == mv.place_index_y)
      then turned ix (λ c. ltb c.right r) (g.board i j)
      else g.board i j)
  unfolding opp_rank
  step_left =
      rw (← hits_left mv.place_index_x mv.place_index_y i j hi hj)
        (step_at mv ix r (negsuc 0) (pos 0) g i j _ refl)

-- On every cell of the grid, the four rounds of the loop leave what the rule says: an opponent's
-- card beside the placed one with a strictly lower facing edge has changed hands, and every other
-- cell is as before.
pub apply_capture_logic-board :
    (g : Game) (mv : Move) (ix i j : ℕ)
    → i < 4
    → j < 4
    → (apply_capture_logic g mv ix).board i j ≡ captured mv ix g.board i j
unfolding apply_capture_logic capture_loop captured
apply_capture_logic-board g mv ix i j hi hj =
    step_left mv ix _ _ i j hi hj
    ∙ rw
        (
          step_below mv ix _ _ i j hi hj,
          step_right mv ix _ _ i j hi hj,
          step_above mv ix mv.place_card.top g i j hi hj,
        )
        (turned_once mv ix i j (g.board i j))

-- The loop changes the board and the scores, and no other field.
step_keeps :
    (g : Game) (mv : Move) (ix : ℕ) (d : ℤ × ℤ × ℕ)
    → capture_step mv ix d g ≡ record g {
      board = (capture_step mv ix d g).board;
      scores = (capture_step mv ix d g).scores;
    }
unfolding capture_step flip_card
step_keeps g mv ix d = ground arith

-- The game after one, two and three rounds.
abbrev after_above : Game → Move → ℕ → Game
after_above g mv ix = capture_step mv ix (pos 0, negsuc 0, mv.place_card.top) g

abbrev after_right : Game → Move → ℕ → Game
after_right g mv ix = capture_step mv ix (pos 1, pos 0, mv.place_card.right) (after_above g mv ix)

abbrev after_below : Game → Move → ℕ → Game
after_below g mv ix = capture_step mv ix (pos 0, pos 1, mv.place_card.bottom) (after_right g mv ix)

pub apply_capture_logic-keeps :
    (g : Game) (mv : Move) (ix : ℕ)
    → let g' = apply_capture_logic g mv ix in g' ≡ record g { board = g'.board; scores = g'.scores }
unfolding apply_capture_logic capture_loop
apply_capture_logic-keeps g mv ix = ground (
  arith,
  step_keeps g mv ix (pos 0, negsuc 0, mv.place_card.top),
  step_keeps (after_above g mv ix) mv ix (pos 1, pos 0, mv.place_card.right),
  step_keeps (after_right g mv ix) mv ix (pos 0, pos 1, mv.place_card.bottom),
  step_keeps (after_below g mv ix) mv ix (negsuc 0, pos 0, mv.place_card.left),
)
