-- ===== src/Runtime/Invariant.antt =====
-- The invariant of the chain's storage, runtime/src/lib.rs, and the places where a pallet's storage is put back.
use eterra_polkadot_sdk_solo.Prelude.{ℕ, ◌+◌, ◌≤◌, ◌<◌, ◌≡◌, subst, u32_mod}
use eterra_polkadot_sdk_solo.Prelude.Results.{ok, Origin}
use eterra_polkadot_sdk_solo.Prelude.Ensures.{Ensures}
use eterra_polkadot_sdk_solo.Eterra.Store.{Env}
use eterra_polkadot_sdk_solo.Eterra.Invariant
use eterra_polkadot_sdk_solo.Matchmaker.Lockout.{Stands}
use eterra_polkadot_sdk_solo.Runtime.Config.{Outside, card_env, slots_env}
use eterra_polkadot_sdk_solo.Runtime.Chain.{Storage, put_games, put_slots, put_cards, counted_after}
use eterra_polkadot_sdk_solo.SimpleTcg.Index
use eterra_polkadot_sdk_solo.Tcg.Frozen.{Frozen}
use eterra_polkadot_sdk_solo.Matchmaker.History.{with_games}
use eterra_polkadot_sdk_solo.Template
use eterra_polkadot_sdk_solo.Faucet
use eterra_polkadot_sdk_solo.Gamer
use eterra_polkadot_sdk_solo.SimpleTcg.Store as Cards
use eterra_polkadot_sdk_solo.Faucet.{GenesisConfig}
use eterra_polkadot_sdk_solo.SimpleTcg.History as Market
use eterra_polkadot_sdk_solo.Eterra.Store as Games
use eterra_polkadot_sdk_solo.Tcg.Types as Packs
use eterra_polkadot_sdk_solo.Matchmaker
use eterra_polkadot_sdk_solo.DailySlots.Types as Slots
use eterra_polkadot_sdk_solo.DailySlots.History as Rolling
use eterra_polkadot_sdk_solo.Runtime.Levels.{IsLow}
use eterra_polkadot_sdk_solo.Runtime.Keeps.{Rolls, Rolls-balances, Rolls-later, Rolls-step}

module _ {B : Type 0} where
  -- The games are well-formed; at most one account waits, after `joins` joins; the lists of cards
  -- agree with the cards; the packs of the other card pallet stand still; the rolls of every account
  -- in the window, `rolled`, its results and the tickets are accounted for; and levels are low.
  pub record Sound (joins : ℕ) (rolled : ℕ → ℕ) (block : ℕ) (s : Storage B) : Type 0 where
    pub games : Invariant.Inv s.queue.games
    pub waits : Stands 1024 joins s.queue
    pub cards : Index.Inv s.cards
    pub packs : Frozen 5 s.packs
    pub rolls : Rolls rolled block s.slots
    pub levels : IsLow s.gamers

module _ {B : Type 0} {joins : ℕ} {rolled : ℕ → ℕ} where
  -- A call or a block that leaves the slot machine alone.
  pub later-Sound :
      (o : Outside B) (block : ℕ) (s : Storage B)
      → block ≤ o.block_number
      → Sound joins rolled block s
      → Sound joins (counted_after block o.block_number rolled (λ a. 0)) o.block_number s
  later-Sound o block s later v = record {
    games = v.games;
    waits = v.waits;
    cards = v.cards;
    packs = v.packs;
    rolls = Rolls-later o rolled block s.slots later v.rolls;
    levels = v.levels;
  }

  -- Pallets without an invariant here, the balances, and profiles with low levels.
  pub beside-Sound :
      (block : ℕ) (s : Storage B) (template : Template.Store) (faucet : Faucet.Store B)
      (gamers : Gamer.Store B) (b : B)
      → IsLow gamers
      → Sound joins rolled block s
      → Sound joins rolled block
          (record s { template = template; faucet = faucet; gamers = gamers; balances = b })
  beside-Sound block s template faucet gamers b low v = record {
    games = v.games;
    waits = v.waits;
    cards = v.cards;
    packs = v.packs;
    rolls = v.rolls;
    levels = low;
  }

  pub put_games-Sound :
      (block : ℕ) (s : Storage B) (g : Games.Store)
      → Invariant.Inv g
      → Sound joins rolled block s
      → Sound joins rolled block (put_games s g)
  unfolding put_games
  put_games-Sound block s g i v = record {
    games = i;
    waits = record {
      quiet = with_games g s.queue v.waits.quiet;
      head = v.waits.head;
      tail = v.waits.tail;
      few = v.waits.few;
    };
    cards = v.cards;
    packs = v.packs;
    rolls = v.rolls;
    levels = v.levels;
  }

  pub put_slots-Sound :
      (o : Outside B) (new : ℕ → ℕ) (block : ℕ) (s : Storage B) (t : Slots.Store B)
      → block ≤ o.block_number
      → ((a : ℕ)
          → Rolling.Step (slots_env o) a (new a) (record s.slots { balances = s.balances }) t)
      → Sound joins rolled block s
      → Sound joins (counted_after block o.block_number rolled new) o.block_number (put_slots s t)
  unfolding put_slots
  put_slots-Sound o new block s t later step v = record {
    games = v.games;
    waits = v.waits;
    cards = v.cards;
    packs = v.packs;
    rolls =
        Rolls-step o rolled new block _ t later
          (Rolls-balances rolled block s.slots s.balances v.rolls) step;
    levels = v.levels;
  }

  pub put_cards-Sound :
      (o : Outside B) (origin : Origin) (c : Market.Call) (block : ℕ) (s : Storage B)
      (t : Cards.Store B)
      → s.cards.next_card_id + 1 < u32_mod
      → Market.dispatch (card_env o) origin c (record s.cards { balances = s.balances }) ≡ ok t
      → Sound joins rolled block s
      → Sound joins rolled block (put_cards s t)
  unfolding put_cards
  put_cards-Sound o origin c block s t ids e v = record {
    games = v.games;
    waits = v.waits;
    cards = subst (Ensures Index.Inv) e (
        Market.dispatch-Ensures (card_env o) origin c _ ids (record {
          owned = v.cards.owned;
          listed = v.cards.listed;
          unpriced = v.cards.unpriced;
          fresh = v.cards.fresh;
        }));
    packs = v.packs;
    rolls = v.rolls;
    levels = v.levels;
  }

  pub put_packs-Sound :
      (block : ℕ) (s : Storage B) (t : Packs.Store)
      → Frozen 5 t
      → Sound joins rolled block s
      → Sound joins rolled block (record s { packs = t })
  put_packs-Sound block s t frozen v = record {
    games = v.games;
    waits = v.waits;
    cards = v.cards;
    packs = frozen;
    rolls = v.rolls;
    levels = v.levels;
  }

  pub put_queue-Sound :
      (block n : ℕ) (s : Storage B) (t : Matchmaker.Store Games.Store)
      → Invariant.Inv t.games
      → Stands 1024 n t
      → Sound joins rolled block s
      → Sound n rolled block (record s { queue = t })
  put_queue-Sound block n s t well stands v = record {
    games = well;
    waits = stands;
    cards = v.cards;
    packs = v.packs;
    rolls = v.rolls;
    levels = v.levels;
  }
