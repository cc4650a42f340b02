-- ===== src/MonteCarlo/Adapter.antt =====
-- The `GameAdapter` that crates/eterra-card-ai-adapter/src/lib.rs implements.
use eterra_polkadot_sdk_solo.Prelude.{ℕ}
use eterra_polkadot_sdk_solo.AiAdapter.Types.{State, Action}
use eterra_polkadot_sdk_solo.AiAdapter.Adapter.{
  list_actions_pure, apply_pure, is_terminal, score, random_action,
}
use eterra_polkadot_sdk_solo.MonteCarlo.{GameAdapter}

-- The `impl` of the trait. A player is the number of a hand.
unfoldable pub card_game : GameAdapter State Action ℕ
unfolding is_terminal score random_action
card_game = record {
  list_actions = list_actions_pure;
  apply = apply_pure;
  is_terminal = is_terminal;
  current_player = λ s. s.player_turn;
  score = score;
  random_action = random_action;
}
