-- ===== src/DailySlots/Reels.antt =====
-- The reels of pallets/eterra-daily-slots/src/lib.rs: their weights and the weighted selection.
use eterra_polkadot_sdk_solo.Prelude.{
  ℕ, zero, suc, ◌+◌, ◌/◌, ◌%◌, ◌==◌, ltb, leb, if◌then◌else◌, not, Option, none, some, List, [],
  ◌∷◌, length, update, u32_mod,
}
use eterra_polkadot_sdk_solo.Prelude.Results.{
  Result, ok, Origin, ensure_root, ensure, ok_or, ◌>>=◌, ◌>>◌,
}
use eterra_polkadot_sdk_solo.DailySlots.Types.{Error, invalid_configuration, Entry, Store, Env}

-- `sum::<u32>()` and `acc += *weight` wrap around.
unfoldable pub total_weight : List Entry → ℕ → ℕ
total_weight [] acc = acc
total_weight (e ∷ es) acc = total_weight es ((acc + e.1) % u32_mod)

-- The `find_map`: the first symbol at which the accumulated weight exceeds the threshold.
unfoldable pub select : ℕ → List Entry → ℕ → Option ℕ
select threshold [] acc = none
select threshold (e ∷ es) acc =
    let sum = (acc + e.1) % u32_mod in
    let rest = select threshold es sum in if ltb threshold sum then some e.0 else rest

module _ {B : Type 0} where
  -- One round of the loop over the reels.
  unfoldable pub spin_reel : Env B → ℕ → ℕ → Store B → Result Error ℕ
  unfolding select total_weight
  spin_reel env who reel s = do
    weights ← ok_or (s.reel_weights reel) invalid_configuration
    let window = env.block_number / 3600
    let hash = env.reel_hash env.now_secs who reel env.block_number window
    let total = total_weight weights 0
    ensure (ltb 0 total) invalid_configuration
    ok_or (select (hash % total) weights 0) invalid_configuration

  -- The loop, over the next `left` reels from `reel` on.
  unfoldable pub spin : Env B → ℕ → ℕ → ℕ → Store B → Result Error (List ℕ)
  unfolding spin_reel
  spin env who zero reel s = ok []
  spin env who (suc left) reel s = do
    symbol ← spin_reel env who reel s
    later ← spin env who left (reel + 1) s
    ok (symbol ∷ later)

  unfoldable pub update_reel_weights : Env B → ℕ → List Entry → Store B → Result Error (Store B)
  update_reel_weights env reel weights s = do
    ensure (not (length weights == 0)) invalid_configuration
    ensure (leb (length weights) env.max_weight_entries) invalid_configuration
    ok (record s { reel_weights = update s.reel_weights reel (some weights) })

  unfoldable pub set_reel_weights :
      Env B → Origin → ℕ → List Entry → Store B → Result Error (Store B)
  unfolding update_reel_weights
  set_reel_weights env origin reel weights s = do
    ensure_root origin
    update_reel_weights env reel weights s

  unfoldable pub update_all : Env B → List (ℕ × List Entry) → Store B → Result Error (Store B)
  unfolding update_reel_weights
  update_all env [] s = ok s
  update_all env (r ∷ rs) s = update_reel_weights env r.0 r.1 s >>= update_all env rs

  unfoldable pub set_all_reel_weights :
      Env B → Origin → List (ℕ × List Entry) → Store B → Result Error (Store B)
  unfolding update_all
  set_all_reel_weights env origin all_weights s = do
    ensure_root origin
    update_all env all_weights s
