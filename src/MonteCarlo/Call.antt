-- ===== src/MonteCarlo/Call.antt =====
-- The call of pallets/eterra-monte-carlo-ai/src/lib.rs, `suggest_move`.
use eterra_polkadot_sdk_solo.Prelude.{ℕ, List, ◌∷◌}
use eterra_polkadot_sdk_solo.Prelude.Results.{
  Result, Origin, ensure_signed, ok, ok_or, or_panic, ◌>>=◌,
}
use eterra_polkadot_sdk_solo.MonteCarlo.{GameAdapter, Config, scaled_iterations, suggest}

pub data Event (Action : Type 0) : Type 0 where
  suggested : ℕ → ℕ → ℕ → Action → Event Action

pub data Error : Type 0 where
  no_legal_moves : Error

-- The storage, and the events, newest first.
pub record Store (Action : Type 0) : Type 0 where
  pub nonce : ℕ
  pub events : List (Event Action)

-- The hash of a state is a parameter.
unfoldable pub suggest_move :
    {State Action Player : Type 0}
    → GameAdapter State Action Player
    → Config
    → (State → ℕ)
    → Origin
    → State
    → ℕ
    → Store Action
    → Result Error (Store Action)
unfolding suggest
suggest_move game config hash_of origin state difficulty s = do
  who ← ensure_signed origin
  r ← or_panic (suggest game config state difficulty s.nonce)
  action ← ok_or r.0 no_legal_moves
  ok (record {
    nonce = r.1;
    events =
        suggested (hash_of state) difficulty (scaled_iterations config difficulty) action
        ∷ s.events;
  })
