-- ===== src/SimpleTcg/Store.antt =====
-- The storage of pallets/eterra-simple-tcg/src/lib.rs, and its internal helpers.
use eterra_polkadot_sdk_solo.Prelude.{
  ℕ, ◌+◌, ◌%◌, ◌==◌, leb, if◌then◌else◌, true, false, Option, none, some, List, [], ◌∷◌, ◌++◌,
  length, get_elem?, update, u32_mod,
}
use eterra_polkadot_sdk_solo.Prelude.Results.{Result, ok, passed_on, ensure, ok_or, ◌>>=◌, ◌>>◌}
use eterra_polkadot_sdk_solo.SimpleTcg.Types.{CardInfo, base, common}

abbrev pub CardId : Type 0
CardId = ℕ

-- `OwnedLimit`
abbrev pub owned_limit : ℕ
owned_limit = 600

pub data Event : Type 0 where
  card_minted : ℕ → CardId → Event
  card_transferred : ℕ → ℕ → CardId → Event
  card_listed : ℕ → CardId → ℕ → Event
  card_unlisted : ℕ → CardId → Event
  card_bought : ℕ → ℕ → CardId → ℕ → Event

pub data Error : Type 0 where
  no_such_card not_card_owner owned_list_full card_not_finalized not_for_sale not_owner : Error

pub data ExistenceRequirement : Type 0 where
  keep_alive allow_death : ExistenceRequirement

-- One field for each storage item, the events, newest first, and the currency's storage.
pub record Store (B : Type 0) : Type 0 where
  pub next_card_id : ℕ
  pub cards : CardId → Option CardInfo
  pub owned_cards : ℕ → List CardId
  pub card_prices : CardId → Option ℕ
  pub listed_by_owner : ℕ → List CardId
  pub events : List Event
  pub balances : B

-- The configuration: the currency, whose transfer fails or gives its new storage, the fee, the
-- faucet, and the block number; `hash_of` on (block, owner, seed, card id); and the formatted name.
pub record Env (B : Type 0) : Type 0 where
  pub transfer : ℕ → ℕ → ℕ → ExistenceRequirement → B → Option B
  pub mint_fee : ℕ
  pub faucet_account : ℕ
  pub block_number : ℕ
  pub seed : ℕ
  pub hash_of : ℕ → ℕ → ℕ → CardId → List ℕ
  pub name_of : CardId → List ℕ

-- `Vec::swap_remove`: the last of the entries that follow takes the place of the one removed.
unfoldable pub pull_last : CardId → List CardId → CardId × List CardId
pull_last x [] = (x, [])
pull_last x (y ∷ ys) = let (l, r) = pull_last y ys in (l, x ∷ r)

unfoldable pub fill_gap : List CardId → List CardId
unfolding pull_last
fill_gap [] = []
fill_gap (x ∷ xs) = let (l, r) = pull_last x xs in l ∷ r

-- `if let Some(pos) = v.iter().position(|&id| id == card_id) { v.swap_remove(pos); }`
unfoldable pub swap_remove : List CardId → CardId → List CardId
unfolding fill_gap
swap_remove [] id = []
swap_remove (x ∷ xs) id = let rest = swap_remove xs id in if x == id then fill_gap xs else x ∷ rest

-- `try_push`, after the test on the limit.
unfoldable pub push : List CardId → CardId → Result Error (List CardId)
push list id = do
  ensure (if leb owned_limit (length list) then false else true) owned_list_full
  ok (list ++ id ∷ [])

-- `to_stat`, on a byte of the hash, or 0 where there is none.
unfoldable pub to_stat : List ℕ → ℕ → ℕ
to_stat bytes i = (elim (get_elem? bytes i) [ none ↦ 0 | some b ↦ b ]) % 9 + 1

module _ {B : Type 0} where
  unfoldable pub deposit_event : Event → Store B → Store B
  deposit_event e s = record s { events = e ∷ s.events }

  unfoldable pub put_card : CardId → CardInfo → Store B → Store B
  put_card id info s = record s { cards = update s.cards id (some info) }

  unfoldable pub put_owned : ℕ → List CardId → Store B → Store B
  put_owned a list s = record s { owned_cards = update s.owned_cards a list }

  unfoldable pub put_listed : ℕ → List CardId → Store B → Store B
  put_listed a list s = record s { listed_by_owner = update s.listed_by_owner a list }

  unfoldable pub put_price : CardId → Option ℕ → Store B → Store B
  put_price id price s = record s { card_prices = update s.card_prices id price }

  unfoldable pub new_card_info : Env B → ℕ → CardId → CardInfo
  unfolding to_stat
  new_card_info env owner id =
      let bytes = env.hash_of env.block_number owner env.seed id in
      record {
        owner = owner;
        finalized = true;
        slot_values =
            some (to_stat bytes 0 ∷ to_stat bytes 1 ∷ to_stat bytes 2 ∷ to_stat bytes 3 ∷ []);
        name = env.name_of id;
        north = to_stat bytes 0;
        east = to_stat bytes 1;
        south = to_stat bytes 2;
        west = to_stat bytes 3;
        card_id = id;
        minted_at = env.block_number;
        price = 0;
        edition = base;
        rarity = common;
      }

  -- The currency's error is passed on, as `NameTooLong` below.
  unfoldable pub pay : Env B → ℕ → ℕ → ℕ → ExistenceRequirement → Store B → Result Error (Store B)
  pay env from to amount requirement s = elim (env.transfer from to amount requirement s.balances) [
    | none ↦ passed_on
    | some b ↦ ok (record s { balances = b })
  ]

  -- `BoundedVec::try_from` on the name.
  unfoldable pub check_name : Env B → CardId → Result Error (Unit {0})
  check_name env id = if leb (length (env.name_of id)) 64 then ok tt else passed_on

  unfoldable pub create_new_card : Env B → ℕ → Store B → Result Error (CardId × Store B)
  unfolding put_card put_owned check_name
  create_new_card env owner s = do
    paid ← pay env owner env.faucet_account env.mint_fee keep_alive s
    let id = paid.next_card_id
    check_name env id
    let s1 = put_card id (new_card_info env owner id) paid
    list ← push (s1.owned_cards owner) id
    let s2 = put_owned owner list s1
    ok (id, record s2 { next_card_id = (id + 1) % u32_mod })

  unfoldable pub unlist : CardId → ℕ → Store B → Store B
  unfolding put_price put_listed deposit_event
  unlist id owner s =
      let s1 = put_price id none s in
      deposit_event (card_unlisted owner id)
        (put_listed owner (swap_remove (s1.listed_by_owner owner) id) s1)

  unfoldable pub do_transfer : ℕ → ℕ → CardId → Store B → Result Error (Store B)
  unfolding put_card put_owned
  do_transfer from to id s = do
    info ← ok_or (s.cards id) no_such_card
    ensure (info.owner == from) not_card_owner
    let s1 = put_card id (record info { owner = to }) s
    let s2 = put_owned from (swap_remove (s1.owned_cards from) id) s1
    list ← push (s2.owned_cards to) id
    ok (put_owned to list s2)
