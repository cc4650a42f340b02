-- ===== src/Eterra/Capture/Fits.antt =====
-- The scores of a game stay bytes under the captures of pallets/eterra/src/lib.rs.
use eterra_polkadot_sdk_solo.Prelude.{
  ℕ, ◌≤◌, inl, inr, Option-cases, Bool-cases, List, [], ◌∷◌, arith,
}
use eterra_polkadot_sdk_solo.Eterra.Types.{Game, Move, Player, player_one, player_two}
use eterra_polkadot_sdk_solo.Eterra.Capture.{
  Direction, neighbor_cell, beats, take_point, give_point, flip_card, capture_step, capture_loop,
  directions, apply_capture_logic,
}
use mathlib.Core.Option.{Option, none, some}

-- The scores are of type `u8`.
abbrev pub ScoresFit : Game → Type 0
ScoresFit g = (g.scores.0 ≤ 255) × (g.scores.1 ≤ 255)

points_fit :
    (ix : ℕ) (p : Option Player) (a b : ℕ)
    → a ≤ 255
    → b ≤ 255
    → let s = give_point ix (take_point p (a, b)) in (s.0 ≤ 255) × (s.1 ≤ 255)
points_fit ix none a b low high = ground (arith, low, high)
points_fit ix (some player_one) a b low high = ground (arith, low, high)
points_fit ix (some player_two) a b low high = ground (arith, low, high)

capture_step-ScoresFit :
    (mv : Move) (ix : ℕ) (d : Direction) (g : Game)
    → ScoresFit g
    → ScoresFit (capture_step mv ix d g)
unfolding capture_step flip_card
capture_step-ScoresFit mv ix (dx, dy, rank) g (low, high) =
    elim (Option-cases (neighbor_cell mv.place_index_x mv.place_index_y dx dy)) [
      | inl outside ↦ rw (outside, capture_step) (low, high)
      | inr ((xi, yi), inside) ↦ elim (Option-cases (g.board xi yi)) [
        | inl empty ↦ rw (inside, capture_step, empty) (low, high)
        | inr (c, there) ↦ elim (Bool-cases (beats ix dx dy rank c)) [
          | inl won ↦
              rw (inside, capture_step, there, won)
                (points_fit ix c.possession g.scores.0 g.scores.1 low high)
          | inr lost ↦ rw (inside, capture_step, there, lost) (low, high)
        ]
      ]
    ]

capture_loop-ScoresFit :
    (ds : List Direction) (mv : Move) (ix : ℕ) (g : Game)
    → ScoresFit g
    → ScoresFit (capture_loop ds mv ix g)
unfolding capture_loop
capture_loop-ScoresFit [] mv ix g f = f
capture_loop-ScoresFit (d ∷ ds) mv ix g f =
    capture_loop-ScoresFit ds mv ix (capture_step mv ix d g) (capture_step-ScoresFit mv ix d g f)

pub apply_capture_logic-ScoresFit :
    (g : Game) (mv : Move) (ix : ℕ) → ScoresFit g → ScoresFit (apply_capture_logic g mv ix)
unfolding apply_capture_logic
apply_capture_logic-ScoresFit g mv ix f = capture_loop-ScoresFit (directions mv) mv ix g f
