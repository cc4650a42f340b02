-- ===== src/Lib.antt =====
-- Eterra: a verification library for the pallets of the Eterra chain.
--
-- The program. `pallets/eterra` is a card game for two players on a 4 x 4 board, played by signed
-- calls; `pallets/eterra-simple-matchmaker` pairs waiting accounts and asks the game pallet for a game;
-- `pallets/eterra-simple-tcg` keeps the cards that hands are made of; `pallets/eterra-gamer` keeps
-- players' profiles; `pallets/eterra-monte-carlo-ai` is a search that suggests moves over any game adapter,
-- `crates/eterra-card-ai-adapter` the adapter for the card game, and the game pallet lets its AI play what
-- the search suggests; `pallets/eterra-daily-slots` is a slot machine with tickets for a weekly drawing,
-- `pallets/eterra-faucet` pays out a fixed amount,
-- `pallets/eterra-tcg` mints packs of cards whose values their owners generate, and `pallets/template`
-- holds a number. `runtime/src` puts the pallets together, and `node/src` starts a chain of them.
--
-- The files.
--   Prelude          names passed on from the libraries; tests, lists, storage maps, sums, and the
--                    result of a call: a value, an error of the pallet, a bad origin, an error passed
--                    on from another pallet, or a panic.
--   SimpleTcg        pallets/eterra-simple-tcg/src/lib.rs: the storage and the helpers (Store), the calls
--                    (Calls), counting in lists (Counts), the agreement of cards and indices (Index),
--                    the calls that keep it (Safety), the histories of calls (History) and a card that
--                    is offered and withdrawn (Offers).
--   AiAdapter        crates/eterra-card-ai-adapter/src/lib.rs: its data (Types), the listing of moves and
--                    the move (Adapter), its captures beside the game pallet's (Mirror, Simulation,
--                    Refinement) and what is listed (Entries, Listing).
--   MonteCarlo       pallets/eterra-monte-carlo-ai/src/lib.rs: the search over a game adapter; below it, the
--                    call (Call), what it asks of an adapter (Laws), the playouts (Playouts, Budget), the maximum
--                    (Maximum), the search (Search), the card game as an adapter (Adapter, CardGame), the AI's
--                    turn with this search (AiHands, AiTurn) and the states that callers make
--                    up (Unchecked).
--   DailySlots       pallets/eterra-daily-slots/src/lib.rs: the storage (Types), the weights and the selection
--                    (Reels, Selection), `roll` (Roll, Rolled, Outcome), the drawing (Drawing, Winner), the
--                    other calls (Quiet), the tickets (Tickets) and the histories of calls (History).
--   Faucet           pallets/eterra-faucet/src/lib.rs; below it, how claims end (Claims).
--   Tcg              pallets/eterra-tcg/src/lib.rs: the data (Types), cards (Cards), the calls (Packs), what
--                    the calls keep (Frozen, Calls, Steps, History) and `generate_slot` on the active card (Again).
--   Gamer            pallets/eterra-gamer/src/lib.rs; below it, the redemption of experience (Levels).
--   Eterra/Types     pallets/eterra/src/types (card, board, game) and the types of
--                    pallets/eterra/src/lib.rs.
--   Eterra/Recent    the bounded lists of recent games.
--   Eterra/Store     the storage items of the pallet, one field each, and its small helpers.
--   Eterra/Capture   `place_card_on_board` and `apply_capture_logic`; below it, the rule cell by cell, the
--                    account of the scores and their range (Fits).
--   Eterra/Ai        `build_ai_state` and `maybe_ai_take_turn`.
--   Eterra/Hands     `set_current_hand`, `set_preset_hand`, `submit_hand`, the AI's hands.
--   Eterra/Create    `create_game` and `do_create_pvp_game`.
--   Eterra/Play      `play`, `play_from_hand` and `force_finish_turn`.
--   Eterra/Invariant, Eterra/Safety   the invariant of the storage and the calls that keep it.
--   Eterra/Course    one game as a state machine.
--   Eterra/Turns     the turns that a game gives to each of its players.
--   Eterra/Finished  the end of a game.
--   Eterra/Created   what a creation leaves in the storage.
--   Matchmaker       pallets/eterra-simple-matchmaker/src/lib.rs: `join_queue`, `leave_queue`,
--                    `process_queue`, `pop_live`, `do_process`; below it, the pop, the loop, the pairing,
--                    what the matching keeps of the games (Keeps) and the histories of calls.
--   Bridge           the matchmaker on the game pallet, as runtime/src/lib.rs connects them.
--   Template         pallets/template/src/lib.rs; below it, the histories of calls (History).
--   Runtime          runtime/src: the constants and the configuration of the pallets in lib.rs
--                    (Constants, Config), their calls (Calls), the chain that they make up (Chain) with
--                    its invariants (Keeps, Levels, Invariant, Sound) and panics (Calm, Panics), and
--                    the fees of configs/mod.rs (Fees).
--   Node/ChainSpec   node/src/chain_spec.rs and `load_spec` of node/src/command.rs; below it, what the
--                    faucet of such a chain pays out (Payouts).
--   Examples, below each part
--                    concrete runs.
--
-- How the code is read. A call is a function from the storage to a result with the new storage;
-- an error leaves the storage as it was, as FRAME rolls a failed call back. An index out of
-- range, and an `expect`, are a panic; but the `expect` on the list of recent games is discharged
-- in the model, where such a list carries the bound on its length (`BoundedGames`), and the hash
-- functions give a `Digest`, which has at least one byte, so that an index modulo its length is
-- in range. Numbers are natural numbers, with `% 2 ^ w` or saturation where the code wraps or
-- saturates. A `mutate` of FRAME writes back its own copy when its closure returns, which is kept
-- in `join_queue`. Account ids, card ids and hashes are numbers.
--
-- Fuel. The loop of `do_process` runs on one more unit of fuel than there are live accounts; each
-- round that goes on takes two of them off. `pop_live` runs over the capacity, as in the code.
-- The redemption of levels runs on 100 units, one more than there are levels.
--
-- A playout of the search runs down the number of rounds that its depth leaves, as the code counts up.
--
-- Parameters. The game pallet's AI runs the search of MonteCarlo on the adapter for the card
-- game, and a panic of the search is one of the call. The settings of the search, the nonce that
-- it is at (which goes on with every search, so any nonce is allowed at any turn), the hash
-- functions, the block number, the card pallet's storage and the configured constants are fields
-- of `Env`; what the matchmaker asks of the game pallet is the record `Hooks`; the currency, the
-- hash function and the formatted name that the card pallet uses are fields of its `Env`; so are
-- the currency and the issuers of experience for the profiles, the currency of the faucet, and
-- the hashes, the time, the currency and the order of the ticket map's keys for the slot machine.
-- A game adapter is the record `GameAdapter`; in it, and in the card adapter, `none` is a panic.
--
-- What a call of the runtime finds outside of the pallets (the balances pallet, the time, the
-- hashes, the nonce that the search is at) is the record `Outside`, of which each step of a chain
-- has its own. The adapter that charges fees, the keys that are derived from a seed, the balances
-- that a genesis configuration endows and the files that chain specifications are read from are
-- parameters too.
--
-- Not modelled: the start-up of the node, its commands, its service and its RPC, and the runtime
-- APIs, which hand everything on to libraries that are not in the repository; the system pallets of
-- the runtime, of which only the balances are read, and change between calls in any way; weights
-- and benchmarks.
pub mod AiAdapter
pub mod Bridge
pub mod DailySlots
pub mod Eterra
pub mod Faucet
pub mod Gamer
pub mod Matchmaker
pub mod MonteCarlo
pub mod Node
pub mod Prelude
pub mod Runtime
pub mod SimpleTcg
pub mod Tcg
pub mod Template
