-- ===== src/Runtime/Chain.antt =====
-- The chain: the storage of the pallets that runtime/src/lib.rs composes, over the same balances, what
-- a call and the hook of a block do to it, and the storages that blocks lead to.
use eterra_polkadot_sdk_solo.Prelude.{
  ℕ, suc, ◌+◌, ◌≤◌, ◌<◌, ◌≡◌, ◌==◌, if◌then◌else◌, Option, none, some, [], u32_mod,
}
use eterra_polkadot_sdk_solo.Prelude.Results.{
  Result, ok, err, bad_origin, passed_on, panic, Origin, signed, root, unsigned,
}
use eterra_polkadot_sdk_solo.MonteCarlo.Adapter.{card_game}
use eterra_polkadot_sdk_solo.MonteCarlo.Call.{suggest_move}
use eterra_polkadot_sdk_solo.DailySlots.Drawing.{on_initialize}
use eterra_polkadot_sdk_solo.Faucet.{claim, build}
use eterra_polkadot_sdk_solo.Bridge.{game_hooks}
use eterra_polkadot_sdk_solo.Runtime.Config.{
  Outside, search_config, queue_config, game_env, pack_env, card_env, slots_env, faucet_env,
  gamer_env,
}
use eterra_polkadot_sdk_solo.Runtime.Fees.{RuntimeCall, eterra_faucet, claims, other_pallet}
use eterra_polkadot_sdk_solo.Runtime.Calls.{
  SlotsCall, rolls, sets_reel_weights, sets_all_reel_weights, MatchmakerCall, joins_queue,
  leaves_queue, processes_queue, OtherCall, template_module, eterra, eterra_tcg, eterra_daily_slots,
  eterra_simple_tcg, eterra_monte_carlo_ai, eterra_simple_match_maker, eterra_gamer, game_call,
  dispatch_tcg, dispatch_matchmaker, dispatch_slots, dispatch_gamer,
}
use eterra_polkadot_sdk_solo.Eterra.Types as Game
use eterra_polkadot_sdk_solo.Eterra.Store as Games
use eterra_polkadot_sdk_solo.Eterra.Safety.Reach
use eterra_polkadot_sdk_solo.Matchmaker
use eterra_polkadot_sdk_solo.Matchmaker.History as Queue
use eterra_polkadot_sdk_solo.SimpleTcg.Store as Cards
use eterra_polkadot_sdk_solo.SimpleTcg.History as Market
use eterra_polkadot_sdk_solo.Tcg.Types as Packs
use eterra_polkadot_sdk_solo.Tcg.History as Minting
use eterra_polkadot_sdk_solo.DailySlots.Types as Slots
use eterra_polkadot_sdk_solo.DailySlots.History as Rolling
use eterra_polkadot_sdk_solo.MonteCarlo.Call as Search
use eterra_polkadot_sdk_solo.Faucet
use eterra_polkadot_sdk_solo.Gamer
use eterra_polkadot_sdk_solo.Template
use eterra_polkadot_sdk_solo.Template.History as Storing

-- One field for each pallet; the matchmaker's holds the game pallet's as its `games`. A pallet over
-- balances gets them before a call, from `balances`. What the search stores, a nonce, is with what
-- comes from outside, since the AI's turns move it too.
pub record Storage (B : Type 0) : Type 0 where
  pub template : Template.Store
  pub queue : Matchmaker.Store Games.Store
  pub packs : Packs.Store
  pub slots : Slots.Store B
  pub cards : Cards.Store B
  pub faucet : Faucet.Store B
  pub gamers : Gamer.Store B
  pub balances : B

-- `RuntimeError`
pub data RuntimeError : Type 0 where
  in_template : Template.Error → RuntimeError
  in_eterra : Game.Error → RuntimeError
  in_tcg : Packs.Error → RuntimeError
  in_slots : Slots.Error → RuntimeError
  in_simple_tcg : Cards.Error → RuntimeError
  in_faucet : Faucet.Error → RuntimeError
  in_search : Search.Error → RuntimeError
  in_matchmaker : Matchmaker.Error → RuntimeError
  in_gamer : Gamer.Error → RuntimeError

-- The result of a pallet as one of the runtime: its errors, and its storage, each put in its place.
unfoldable pub lifted :
    {E A C : Type 0} → (E → RuntimeError) → (A → C) → Result E A → Result RuntimeError C
lifted wrap put (ok a) = ok (put a)
lifted wrap put (err e) = err (wrap e)
lifted wrap put bad_origin = bad_origin
lifted wrap put passed_on = passed_on
lifted wrap put panic = panic

-- What a call adds to a number of joins of the queue.
abbrev pub queued : MatchmakerCall → ℕ → ℕ
queued joins_queue n = suc n
queued leaves_queue n = n
queued processes_queue n = n

abbrev pub joins_after : RuntimeCall OtherCall → ℕ → ℕ
joins_after (other_pallet (eterra_simple_match_maker c)) n = queued c n
joins_after _ n = n

-- How many rolls of an account a call is.
abbrev pub rolled_by : Origin → ℕ → ℕ
rolled_by (signed who) a = if a == who then 1 else 0
rolled_by root a = 0
rolled_by unsigned a = 0

abbrev pub rolls_by : Origin → SlotsCall → ℕ → ℕ
rolls_by origin rolls a = rolled_by origin a
rolls_by origin (sets_reel_weights reel weights) a = 0
rolls_by origin (sets_all_reel_weights all_weights) a = 0

abbrev pub rolls_of : Origin → RuntimeCall OtherCall → ℕ → ℕ
rolls_of origin (other_pallet (eterra_daily_slots c)) a = rolls_by origin c a
rolls_of _ _ a = 0

-- The rolls of each account in the window of a later block, with those that are new.
abbrev pub counted_after : ℕ → ℕ → (ℕ → ℕ) → (ℕ → ℕ) → ℕ → ℕ
counted_after block now rolled new a = Rolling.carried block now (rolled a) + new a

module _ {B : Type 0} where
  unfoldable pub put_games : Storage B → Games.Store → Storage B
  put_games s g = record s { queue = record s.queue { games = g } }

  unfoldable pub put_slots : Storage B → Slots.Store B → Storage B
  put_slots s t = record s { slots = t; balances = t.balances }

  unfoldable pub put_cards : Storage B → Cards.Store B → Storage B
  put_cards s t = record s { cards = t; balances = t.balances }

  unfoldable pub dispatch_other :
      Outside B → Origin → OtherCall → Storage B → Result RuntimeError (Storage B)
  unfolding put_games put_slots put_cards
  dispatch_other o origin (template_module c) s =
      lifted in_template (λ t. record s { template = t }) (Storing.dispatch origin c s.template)
  dispatch_other o origin (eterra c) s =
      lifted in_eterra (put_games s)
        (Reach.dispatch (game_env o s.cards.cards) origin (game_call c) s.queue.games)
  dispatch_other o origin (eterra_tcg c) s =
      lifted in_tcg (λ t. record s { packs = t }) (dispatch_tcg (pack_env o) origin c s.packs)
  dispatch_other o origin (eterra_daily_slots c) s =
      lifted in_slots (put_slots s)
        (dispatch_slots (slots_env o) origin c (record s.slots { balances = s.balances }))
  dispatch_other o origin (eterra_simple_tcg c) s =
      lifted in_simple_tcg (put_cards s)
        (Market.dispatch (card_env o) origin c (record s.cards { balances = s.balances }))
  dispatch_other o origin (eterra_monte_carlo_ai state difficulty) s =
      lifted in_search (λ t. s)
        (suggest_move card_game search_config o.state_hash origin state difficulty
          (record { nonce = o.nonce; events = [] }))
  dispatch_other o origin (eterra_simple_match_maker c) s =
      lifted in_matchmaker (λ t. record s { queue = t })
        (dispatch_matchmaker (game_hooks (game_env o s.cards.cards)) queue_config origin c s.queue)
  dispatch_other o origin (eterra_gamer c) s =
      lifted in_gamer (λ t. record s { gamers = t; balances = t.balances })
        (dispatch_gamer (gamer_env o) origin c (record s.gamers { balances = s.balances }))

  unfoldable pub dispatch :
      Outside B → Origin → RuntimeCall OtherCall → Storage B → Result RuntimeError (Storage B)
  unfolding dispatch_other
  dispatch o origin (eterra_faucet (claims dest)) s =
      lifted in_faucet (λ t. record s { faucet = t; balances = t.balances })
        (claim (faucet_env o) origin dest (record s.faucet { balances = s.balances }))
  dispatch o origin (other_pallet c) s = dispatch_other o origin c s

  -- The slot machine's is the only hook of a block among the pallets.
  unfoldable pub begin_block : Outside B → Storage B → Option (Storage B)
  unfolding put_slots
  begin_block o s = elim (on_initialize (slots_env o) (record s.slots { balances = s.balances })) [
    | none ↦ none
    | some t ↦ some (put_slots s t)
  ]

  -- The storage at the start, with the balances, and with the faucet as it is configured.
  unfoldable pub genesis : Faucet.GenesisConfig → B → Storage B
  unfolding build Market.genesis Queue.genesis
  genesis config b = record {
    template = Storing.genesis;
    queue = Queue.genesis Reach.genesis;
    packs = Minting.genesis;
    slots = Rolling.genesis b;
    cards = Market.genesis b;
    faucet = build config (record {
      faucet_account = none;
      payout_amount = 0;
      last_claim = λ _. none;
      events = [];
      balances = b;
    });
    gamers = record {
      gamer_tag = λ _. none;
      avatar_cid = λ _. none;
      experience = λ _. 0;
      level = λ _. 0;
      events = [];
      balances = b;
    };
    balances = b;
  }

  -- The storage that blocks of calls that succeed lead to, while ids of cards are left, with the
  -- number of joins of the queue, the number of rolls of each account in the window of the block,
  -- and the block number; the rest of the runtime changes the balances in between.
  pub data Chain : ℕ → (ℕ → ℕ) → ℕ → Storage B → Type 0 where
    starts :
        (block : ℕ) (config : Faucet.GenesisConfig) (b : B)
        → Chain 0 (λ a. 0) block (genesis config b)
    calls :
        {joins : ℕ} {rolled : ℕ → ℕ} {block : ℕ} {s t : Storage B}
        → Chain joins rolled block s
        → (o : Outside B) (origin : Origin) (c : RuntimeCall OtherCall) → block ≤ o.block_number
        → s.cards.next_card_id + 1 < u32_mod
        → s.packs.next_card_id + 5 < u32_mod
        → dispatch o origin c s ≡ ok t
        → Chain
            (joins_after c joins)
            (counted_after block o.block_number rolled (rolls_of origin c))
            o.block_number
            t
    begins :
        {joins : ℕ} {rolled : ℕ → ℕ} {block : ℕ} {s t : Storage B}
        → Chain joins rolled block s
        → (o : Outside B) → block ≤ o.block_number
        → begin_block o s ≡ some t
        → Chain joins (counted_after block o.block_number rolled (λ a. 0)) o.block_number t
    pays :
        {joins : ℕ} {rolled : ℕ → ℕ} {block : ℕ} {s : Storage B}
        → Chain joins rolled block s
        → (b : B) → Chain joins rolled block (record s { balances = b })
