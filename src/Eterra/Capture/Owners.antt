-- ===== src/Eterra/Capture/Owners.antt =====
-- How many cards of the board belong to a player, and how a write to one cell moves that count.
use eterra_polkadot_sdk_solo.Prelude.{
  ℕ, ◌+◌, ◌≤◌, ◌<◌, ◌≡◌, Option, none, some, arith, update₂, ap, ◌≢◌,
}
use eterra_polkadot_sdk_solo.Prelude.Sums.{sum_below, sum_below_change, sum_below_ext}
use eterra_polkadot_sdk_solo.Eterra.Types.{Player, player_one, player_two, Card, Board}

unfoldable pub holds : Player → Option Player → ℕ
holds player_one (some player_one) = 1
holds player_two (some player_two) = 1
holds p q = 0

unfoldable pub weight : Player → Option Card → ℕ
unfolding holds
weight p none = 0
weight p (some c) = holds p c.possession

-- The number of cards on the 4 × 4 board that `p` owns.
unfoldable pub owned : Player → Board → ℕ
owned p b = sum_below 4 (λ i. sum_below 4 (λ j. weight p (b i j)))

update₂_hit : (b : Board) (x y : ℕ) (v : Option Card) → update₂ b x y v x y ≡ v
update₂_hit b x y v = ground arith

update₂_row : (b : Board) (x y i j : ℕ) (v : Option Card) → i ≢ x → update₂ b x y v i j ≡ b i j
update₂_row b x y i j v h = ground arith

update₂_col : (b : Board) (x y j : ℕ) (v : Option Card) → j ≢ y → update₂ b x y v x j ≡ b x j
update₂_col b x y j v h = ground arith

abbrev row : Player → Board → ℕ → ℕ
row p b i = sum_below 4 (λ j. weight p (b i j))

row-update :
    (p : Player) (b : Board) (x y : ℕ) (v : Option Card)
    → y < 4
    → row p (update₂ b x y v) x + weight p (b x y) ≡ row p b x + weight p v
row-update p b x y v hy = omega (
  arith,
  sum_below_change 4 y (λ j. weight p (update₂ b x y v x j)) (λ j. weight p (b x j)) hy
      (λ j h. ap (weight p) (update₂_col b x y j v h)),
  ap (weight p) (update₂_hit b x y v),
)

-- Writing `v` to a cell adds the weight of `v` and takes away that of what stood there.
pub owned-update :
    (p : Player) (b : Board) (x y : ℕ) (v : Option Card)
    → x < 4
    → y < 4
    → owned p (update₂ b x y v) + weight p (b x y) ≡ owned p b + weight p v
unfolding owned
owned-update p b x y v hx hy = omega (
  arith,
  row-update p b x y v hy,
  sum_below_change 4 x (row p (update₂ b x y v)) (row p b) hx
      (λ i h. sum_below_ext 4 _ _ (λ j q. ap (weight p) (update₂_row b x y i j v h))),
)

-- At most one of the two players owns a card.
weights-le : (o : Option Card) → weight player_one o + weight player_two o ≤ 1
unfolding weight holds
weights-le none = omega arith
weights-le (some c) = ground arith

rows-le : (b : Board) (i : ℕ) → row player_one b i + row player_two b i ≤ 4
unfolding sum_below
rows-le b i =
    omega (arith, weights-le (b i 0), weights-le (b i 1), weights-le (b i 2), weights-le (b i 3))

-- The board has sixteen cells.
pub owned-le : (b : Board) → owned player_one b + owned player_two b ≤ 16
unfolding owned sum_below
owned-le b = omega (arith, rows-le b 0, rows-le b 1, rows-le b 2, rows-le b 3)
