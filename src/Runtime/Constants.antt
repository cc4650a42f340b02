-- ===== src/Runtime/Constants.antt =====
-- The constants of runtime/src/lib.rs and runtime/src/configs/mod.rs that the pallets and the node read.
use eterra_polkadot_sdk_solo.Prelude.{ℕ, ◌*◌, ◌/◌}

abbrev pub unit : ℕ
unit = 1000000000000

abbrev pub milli_unit : ℕ
milli_unit = 1000000000

abbrev pub existential_deposit : ℕ
existential_deposit = milli_unit

abbrev pub milli_secs_per_block : ℕ
milli_secs_per_block = 6000

abbrev pub minutes : ℕ
minutes = 60000 / milli_secs_per_block

abbrev pub hours : ℕ
hours = minutes * 60

abbrev pub days : ℕ
days = hours * 24

abbrev pub eterra_num_players : ℕ
eterra_num_players = 2

abbrev pub eterra_max_rounds : ℕ
eterra_max_rounds = 5

abbrev pub max_roll_history_length : ℕ
max_roll_history_length = 100

abbrev pub eterra_blocks_to_play_limit : ℕ
eterra_blocks_to_play_limit = 6

abbrev pub max_slot_length : ℕ
max_slot_length = 3

abbrev pub max_options_per_slot : ℕ
max_options_per_slot = 10

abbrev pub max_rolls_per_round : ℕ
max_rolls_per_round = 3

abbrev pub max_weight_entries : ℕ
max_weight_entries = 100

abbrev pub players_per_match_const : ℕ
players_per_match_const = 2

abbrev pub queue_capacity_const : ℕ
queue_capacity_const = 1024

abbrev pub reward_per_win_amount : ℕ
reward_per_win_amount = 100 * unit

abbrev pub gamer_tag_max_len : ℕ
gamer_tag_max_len = 32

abbrev pub avatar_cid_max_len : ℕ
avatar_cid_max_len = 96

abbrev pub gamer_change_fee : ℕ
gamer_change_fee = 100
