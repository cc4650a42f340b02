-- ===== src/DailySlots/Drawing.antt =====
-- The weekly drawing and the hook of pallets/eterra-daily-slots/src/lib.rs.
use eterra_polkadot_sdk_solo.Prelude.{
  ℕ, ◌+◌, ◌-◌, ◌/◌, ◌%◌, ◌==◌, ltb, leb, if◌then◌else◌, Bool, ◌&&◌, not, is_some, Option, none,
  some, List, [], ◌∷◌, length, update, u32_mod,
}
use eterra_polkadot_sdk_solo.Prelude.Panics.{◌>>=◌}
use eterra_polkadot_sdk_solo.DailySlots.Types.{Entry, weekly_winner, Store, Env}

-- The loop over the tickets, which adds up with wrap-around.
unfoldable pub find_winner : ℕ → List (ℕ × ℕ) → ℕ → Option ℕ
find_winner pick [] cum = none
find_winner pick (e ∷ es) cum =
    let sum = (cum + e.1) % u32_mod in
    let rest = find_winner pick es sum in if ltb pick sum then some e.0 else rest

-- The weights of the first block.
abbrev pub default_weights : List (ℕ × List Entry)
default_weights =
    (0, (0, 5) ∷ (1, 3) ∷ (2, 2) ∷ [])
    ∷ (1, (0, 1) ∷ (1, 1) ∷ (2, 8) ∷ [])
    ∷ (2, (0, 4) ∷ (1, 4) ∷ (2, 2) ∷ [])
    ∷ []

-- Sunday, from 18:00 on.
unfoldable pub is_drawing_time : ℕ → Bool
is_drawing_time now = ((now / 86400 + 4) % 7 == 0) && leb 64800 (now % 86400)

module _ {B : Type 0} where
  -- Without tickets it fails, and changes nothing.
  unfoldable pub perform_weekly_drawing : Env B → Store B → Store B
  unfolding find_winner
  perform_weekly_drawing env s =
      if s.total_tickets == 0
      then s
      else (let pick = env.drawing_byte env.now_secs env.block_number % s.total_tickets in
          record s {
            events = elim (find_winner pick s.tickets_per_user 0) [
              | none ↦ s.events
              | some acct ↦ weekly_winner acct ∷ s.events
            ];
            tickets_per_user = [];
            total_tickets = 0;
            last_drawing_time = env.now_secs;
          })

  -- `none` is the panic of `expect`.
  unfoldable pub put_defaults : Env B → List (ℕ × List Entry) → Store B → Option (Store B)
  put_defaults env [] s = some s
  put_defaults env (r ∷ rs) s =
      if is_some (s.reel_weights r.0)
      then put_defaults env rs s
      else (if leb (length r.1) env.max_weight_entries
          then put_defaults env rs
              (record s { reel_weights = update s.reel_weights r.0 (some r.1) })
          else none)

  unfoldable pub on_initialize : Env B → Store B → Option (Store B)
  unfolding perform_weekly_drawing put_defaults is_drawing_time
  on_initialize env s =
      (if env.block_number == 1 then put_defaults env default_weights s else some s) >>= λ t. some (
        if is_drawing_time env.now_secs && not (ltb (env.now_secs - t.last_drawing_time) 86400)
        then perform_weekly_drawing env t
        else t)
