-- ===== src/MonteCarlo.antt =====
-- The Monte-Carlo search, pallets/eterra-monte-carlo-ai/src/lib.rs, over any game adapter.
-- `none` is a panic of the adapter, or of the `unwrap` of a listed action. The nonce of the
-- pseudo-random numbers is passed along.
pub mod Call
pub mod Unchecked
pub mod Laws
pub mod Playouts
pub mod Maximum
pub mod Budget
pub mod Search
pub mod Adapter
pub mod CardGame
pub mod AiHands
pub mod AiTurn
pub mod Examples
use eterra_polkadot_sdk_solo.Prelude.{
  ℕ, zero, suc, ◌+◌, ◌-◌, ◌*◌, ◌/◌, ◌%◌, ◌==◌, ltb, if◌then◌else◌, Bool, true, false, Option, none,
  some, List, [], ◌∷◌, length, get_elem?, u32_mod,
}
use Prim.Native.Nat.{bit_xor}
use eterra_polkadot_sdk_solo.Prelude.Int.{ℤ, pos, negsuc, ◌+ℤ◌, ltℤ, div_ℤ}
use eterra_polkadot_sdk_solo.Prelude.Panics.{◌>>=◌}

-- `list_actions` gives the filled part of the buffer, whose size is the first argument.
pub record GameAdapter (State Action Player : Type 0) : Type 0 where
  pub list_actions : ℕ → State → Option (List Action)
  pub apply : State → Action → Option State
  pub is_terminal : State → Bool
  pub current_player : State → Player
  pub score : State → Player → ℤ
  pub random_action : State → ℕ → Option (Option Action)

pub record Config : Type 0 where
  pub base_iterations : ℕ
  pub max_playout_depth : ℕ
  pub randomness_seed : ℕ

abbrev pub u64_mod : ℕ
u64_mod = 18446744073709551616

-- `i64::MIN`
abbrev pub i64_min : ℤ
i64_min = negsuc 9223372036854775807

abbrev pub max : ℕ → ℕ → ℕ
max a b = if ltb a b then b else a

unfoldable pub scaled_iterations : Config → ℕ → ℕ
scaled_iterations config difficulty =
    ((max config.base_iterations 1 * (50 + 2 * difficulty)) % u32_mod) / 100

unfoldable pub sims_per_action : Config → ℕ → ℕ → ℕ
unfolding scaled_iterations
sims_per_action config difficulty n = max (max (scaled_iterations config difficulty) n / n) 1

-- `z ^ (z >> 30)` is written with a quotient by 2 ^ 30.
abbrev pub scramble : ℕ → ℕ
scramble mix =
    let z = (mix + 0x9E3779B97F4A7C15) % u64_mod in
    let z1 = (bit_xor z (z / 1073741824) * 0xBF58476D1CE4E5B9) % u64_mod in
    let z2 = (bit_xor z1 (z1 / 134217728) * 0x94D049BB133111EB) % u64_mod in
    bit_xor z2 (z2 / 2147483648)

-- The number and the next nonce.
unfoldable pub prng_u64 : Config → ℕ → ℕ → ℕ × ℕ
prng_u64 config salt nonce =
    (scramble (bit_xor (bit_xor config.randomness_seed nonce) salt), (nonce + 1) % u64_mod)

module _ {State Action Player : Type 0} (game : GameAdapter State Action Player)
    (config : Config) where
  -- The loop, with the number of rounds that `depth` leaves.
  unfoldable pub playout_loop : ℕ → State → ℕ → Option State
  playout_loop zero s seed = some s
  playout_loop (suc left) s seed =
      if game.is_terminal s
      then some s
      else game.random_action s seed >>= λ chosen. elim chosen [
        | none ↦ some s
        | some a ↦ game.apply s a >>= λ t. playout_loop left t ((seed + 0x9E3779B9) % u64_mod)
      ]

  unfoldable pub random_playout : State → Player → ℕ → Option ℤ
  unfolding playout_loop
  random_playout start me seed = do
    s ← playout_loop config.max_playout_depth start seed
    some (game.score s me)

  -- The playouts of one action, from number `j` on: their sum and the next nonce. A sum of fewer
  -- than 2 ^ 32 scores of type `i32` fits an `i64`, so it is not wrapped.
  unfoldable pub simulate : State → Action → Player → ℕ → ℕ → ℕ → ℤ → ℕ → Option (ℤ × ℕ)
  unfolding random_playout prng_u64
  simulate state action me i zero j accum nonce = some (accum, nonce)
  simulate state action me i (suc left) j accum nonce = do
    let p = prng_u64 config (i * u32_mod + j) nonce
    s1 ← game.apply state action
    outcome ← random_playout s1 me p.0
    simulate state action me i left (j + 1) (accum +ℤ outcome) p.1

  -- The loop over the actions, from number `i` on.
  unfoldable pub choose : State → Player → ℕ → ℕ → List Action → ℕ → ℤ → ℕ → Option (ℕ × ℕ)
  unfolding simulate
  choose state me sims i [] best_idx best_score nonce = some (best_idx, nonce)
  choose state me sims i (action ∷ actions) best_idx best_score nonce = do
    (accum, next) ← simulate state action me i sims 0 (pos 0) nonce
    let avg = div_ℤ accum sims
    if ltℤ best_score avg
        then choose state me sims (i + 1) actions i avg next
        else choose state me sims (i + 1) actions best_idx best_score next

  unfoldable pub suggest : State → ℕ → ℕ → Option (Option Action × ℕ)
  unfolding choose sims_per_action
  suggest state difficulty nonce =
      if game.is_terminal state
      then some (none, nonce)
      else game.list_actions 128 state >>= λ actions.
          if length actions == 0
          then some (none, nonce)
          else choose state (game.current_player state)
              (sims_per_action config difficulty (length actions)) 0 actions 0 i64_min nonce
            >>= λ best. some (get_elem? actions best.0, best.1)
