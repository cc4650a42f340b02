-- ===== src/Runtime/Calls.antt =====
-- The calls of the runtime, `mod runtime` of runtime/src/lib.rs, and each pallet's dispatch of its own.
use eterra_polkadot_sdk_solo.Prelude.{ℕ, List}
use eterra_polkadot_sdk_solo.Prelude.Results.{Result, Origin}
use eterra_polkadot_sdk_solo.Eterra.Types.{GameMode, Move}
use eterra_polkadot_sdk_solo.Eterra.Safety.Reach
use eterra_polkadot_sdk_solo.AiAdapter.Types.{State}
use eterra_polkadot_sdk_solo.DailySlots.Types.{Entry}
use eterra_polkadot_sdk_solo.DailySlots.Reels.{set_reel_weights, set_all_reel_weights}
use eterra_polkadot_sdk_solo.DailySlots.Roll.{roll}
use eterra_polkadot_sdk_solo.Tcg.Packs.{mint_pack, generate_slot, accept_slot, transfer_card}
use eterra_polkadot_sdk_solo.Matchmaker.{Hooks, Config, join_queue, leave_queue, process_queue}
use eterra_polkadot_sdk_solo.Gamer.{set_gamer_tag, set_avatar, grant_experience, redeem_levels}
use eterra_polkadot_sdk_solo.DailySlots.Types as Slots
use eterra_polkadot_sdk_solo.Tcg.Types as Packs
use eterra_polkadot_sdk_solo.SimpleTcg.History as Cards
use eterra_polkadot_sdk_solo.Template.History as Template
use eterra_polkadot_sdk_solo.Matchmaker as Queue
use eterra_polkadot_sdk_solo.Gamer as Profiles

-- `pallet_eterra::Call`
pub data EterraCall : Type 0 where
  creates_game : List ℕ → GameMode → EterraCall
  plays : ℕ → Move → EterraCall
  submits_hand : ℕ → List ℕ → EterraCall
  plays_from_hand : ℕ → ℕ → ℕ → ℕ → EterraCall
  force_finishes_turn : ℕ → EterraCall
  sets_current_hand sets_preset_hand : List ℕ → EterraCall

-- `pallet_eterra_tcg::Call`
pub data TcgCall : Type 0 where
  mints_pack generates_slot accepts_slot : TcgCall
  transfers_card : ℕ → ℕ → TcgCall

-- `pallet_eterra_daily_slots::Call`
pub data SlotsCall : Type 0 where
  rolls : SlotsCall
  sets_reel_weights : ℕ → List Entry → SlotsCall
  sets_all_reel_weights : List (ℕ × List Entry) → SlotsCall

-- `pallet_eterra_simple_matchmaker::Call`
pub data MatchmakerCall : Type 0 where
  joins_queue leaves_queue processes_queue : MatchmakerCall

-- `pallet_eterra_gamer::Call`
pub data GamerCall : Type 0 where
  sets_gamer_tag sets_avatar : List ℕ → GamerCall
  grants_experience : ℕ → ℕ → GamerCall
  redeems_levels : GamerCall

-- The calls of the pallets of the repository but for the faucet.
pub data OtherCall : Type 0 where
  template_module : Template.Call → OtherCall
  eterra : EterraCall → OtherCall
  eterra_tcg : TcgCall → OtherCall
  eterra_daily_slots : SlotsCall → OtherCall
  eterra_simple_tcg : Cards.Call → OtherCall
  eterra_monte_carlo_ai : State → ℕ → OtherCall
  eterra_simple_match_maker : MatchmakerCall → OtherCall
  eterra_gamer : GamerCall → OtherCall

unfoldable pub game_call : EterraCall → Reach.Call
game_call (creates_game players mode) = Reach.creates players mode
game_call (plays id mv) = Reach.plays id mv
game_call (submits_hand id ids) = Reach.submits id ids
game_call (plays_from_hand id i x y) = Reach.plays_from_hand id i x y
game_call (force_finishes_turn id) = Reach.force_finishes id
game_call (sets_current_hand ids) = Reach.sets_current_hand ids
game_call (sets_preset_hand ids) = Reach.sets_preset_hand ids

unfoldable pub dispatch_tcg :
    Packs.Env → Origin → TcgCall → Packs.Store → Result Packs.Error Packs.Store
dispatch_tcg env origin mints_pack s = mint_pack env origin s
dispatch_tcg env origin generates_slot s = generate_slot env origin s
dispatch_tcg env origin accepts_slot s = accept_slot env origin s
dispatch_tcg env origin (transfers_card id to) s = transfer_card origin id to s

unfoldable pub dispatch_matchmaker :
    {G : Type 0}
    → Hooks G
    → Config
    → Origin
    → MatchmakerCall
    → Queue.Store G
    → Result Queue.Error (Queue.Store G)
dispatch_matchmaker hooks config origin joins_queue s = join_queue hooks config origin s
dispatch_matchmaker hooks config origin leaves_queue s = leave_queue origin s
dispatch_matchmaker hooks config origin processes_queue s = process_queue hooks config origin s

module _ {B : Type 0} where
  unfoldable pub dispatch_slots :
      Slots.Env B → Origin → SlotsCall → Slots.Store B → Result Slots.Error (Slots.Store B)
  dispatch_slots env origin rolls s = roll env origin s
  dispatch_slots env origin (sets_reel_weights reel weights) s =
      set_reel_weights env origin reel weights s
  dispatch_slots env origin (sets_all_reel_weights all_weights) s =
      set_all_reel_weights env origin all_weights s

  unfoldable pub dispatch_gamer :
      Profiles.Env B
      → Origin
      → GamerCall
      → Profiles.Store B
      → Result Profiles.Error (Profiles.Store B)
  dispatch_gamer env origin (sets_gamer_tag tag) s = set_gamer_tag env origin tag s
  dispatch_gamer env origin (sets_avatar cid) s = set_avatar env origin cid s
  dispatch_gamer env origin (grants_experience to amount) s =
      grant_experience env origin to amount s
  dispatch_gamer env origin redeems_levels s = redeem_levels origin s
