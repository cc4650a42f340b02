-- ===== src/SimpleTcg/Offers.antt =====
-- Putting a card up for sale and withdrawing it again: `set_price` and `remove_price` of
-- pallets/eterra-simple-tcg/src/lib.rs.
use mathlib.Core.Path.{fun_ext}
use native.Mathlib.Decide.{ℕ_discrete}
use eterra_polkadot_sdk_solo.Prelude.{
  ℕ, ◌<◌, ◌≡◌, refl, sym, ap, ◌∙◌, ◌==◌, leb, true, false, none, some, List, [], ◌∷◌, ◌++◌, length,
  contains, update, arith, inl, inr, Bool-cases, ==_refl, ==_ne, ==_of_eq,
}
use eterra_polkadot_sdk_solo.Prelude.Results.{ok, signed, ◌>>=◌}
use eterra_polkadot_sdk_solo.SimpleTcg.Types.{CardInfo}
use eterra_polkadot_sdk_solo.SimpleTcg.Store.{
  CardId, Store, card_listed, card_unlisted, deposit_event, put_price, put_listed, push, fill_gap,
  swap_remove, unlist, owned_limit,
}
use eterra_polkadot_sdk_solo.SimpleTcg.Calls.{set_price, remove_price}
use eterra_polkadot_sdk_solo.SimpleTcg.Counts.{contains-count}
use eterra_polkadot_sdk_solo.SimpleTcg.History.{Reach, Reach-index}

-- The last entry is removed where it stands nowhere else.
swap_remove-append :
    (l : List CardId) (id : CardId) → contains l id ≡ false → swap_remove (l ++ id ∷ []) id ≡ l
unfolding swap_remove
swap_remove-append [] id e = rw (==_refl id, fill_gap) refl
swap_remove-append (x ∷ l) id e = ground (arith, swap_remove-append l id)

-- A write and then a write of what stood there.
update-restore {ℓ} :
    {V : Type ℓ} (f : ℕ → V) (k : ℕ) (v w : V) → f k ≡ w → update (update f k v) k w ≡ f
update-restore f k v w e = fun_ext λ j. elim (ℕ_discrete j k) [
  | yes same ↦ rw (==_of_eq j k same) (sym e ∙ ap f (sym same))
  | no other ↦ rw (==_ne j k other) refl
]

module _ {B : Type 0} where
  unlisted_before :
      {s : Store B}
      → Reach s
      → (who : ℕ) (id : CardId) → s.card_prices id ≡ none
      → contains (s.listed_by_owner who) id ≡ false
  unlisted_before {s} r who id e = elim (Bool-cases (contains (s.listed_by_owner who) id)) [
    | inr absent ↦ absent
    | inl there ↦ absurd (
        ground
          (arith, contains-count id (s.listed_by_owner who) there, (Reach-index r who id).1, e))
  ]

  -- The storage while the card is up for sale.
  abbrev put_up : ℕ → CardId → ℕ → Store B → Store B
  put_up who id price s = record s {
    card_prices = update s.card_prices id (some price);
    listed_by_owner = update s.listed_by_owner who (s.listed_by_owner who ++ id ∷ []);
    events = card_listed who id price ∷ s.events;
  }

  set_price-offers :
      (who : ℕ) (id : CardId) (price : ℕ) (info : CardInfo) (s : Store B)
      → s.cards id ≡ some info
      → info.owner ≡ who
      → contains (s.listed_by_owner who) id ≡ false
      → length (s.listed_by_owner who) < owned_limit
      → set_price (signed who) id price s ≡ ok (put_up who id price s)
  unfolding set_price push
  set_price-offers who id price info s stored own absent room =
      let mine : (info.owner == who) ≡ true = ==_of_eq info.owner who own in
      let few : leb owned_limit (length (s.listed_by_owner who)) ≡ false = ground (arith, room) in
      rw (stored, mine, absent, few) refl

  unlist-put_up :
      (who : ℕ) (id : CardId) (price : ℕ) (s : Store B)
      → s.card_prices id ≡ none
      → contains (s.listed_by_owner who) id ≡ false
      → unlist id who (put_up who id price s)
        ≡ record s { events = card_unlisted who id ∷ card_listed who id price ∷ s.events }
  unfolding unlist put_price put_listed deposit_event
  unlist-put_up who id price s free absent =
      let grown = update s.listed_by_owner who (s.listed_by_owner who ++ id ∷ []) in
      let prices = update-restore s.card_prices id (some price) none free in
      let back : swap_remove (grown who) id ≡ s.listed_by_owner who =
        rw (==_refl who) (swap_remove-append (s.listed_by_owner who) id absent) in
      let lists : update grown who (swap_remove (grown who) id) ≡ s.listed_by_owner =
        ap (update grown who) back
        ∙ update-restore s.listed_by_owner who (s.listed_by_owner who ++ id ∷ [])
            (s.listed_by_owner who) refl in
      λ i. record s {
        card_prices = prices i;
        listed_by_owner = lists i;
        events = card_unlisted who id ∷ card_listed who id price ∷ s.events;
      }

  remove_price-withdraws :
      (who : ℕ) (id : CardId) (price : ℕ) (info : CardInfo) (s : Store B)
      → s.cards id ≡ some info
      → info.owner ≡ who
      → s.card_prices id ≡ none
      → contains (s.listed_by_owner who) id ≡ false
      → remove_price (signed who) id (put_up who id price s)
        ≡ ok (record s { events = card_unlisted who id ∷ card_listed who id price ∷ s.events })
  unfolding remove_price
  remove_price-withdraws who id price info s stored own free absent =
      let mine : (info.owner == who) ≡ true = ==_of_eq info.owner who own in
      rw (stored, mine, ==_refl id) (ap ok (unlist-put_up who id price s free absent))

  -- In every storage that calls lead to while card ids are left: where the owner of a card without a
  -- price has fewer than 600 offers, the owner can put it up for sale at any price and then withdraw
  -- it, and the storage is as before, list for list, but for the two events.
  pub set_price-remove_price :
      {s : Store B}
      → Reach s
      → (who : ℕ) (id : CardId) (price : ℕ) (info : CardInfo) → s.cards id ≡ some info
      → info.owner ≡ who
      → s.card_prices id ≡ none
      → length (s.listed_by_owner who) < owned_limit
      → (set_price (signed who) id price s >>= remove_price (signed who) id)
        ≡ ok (record s { events = card_unlisted who id ∷ card_listed who id price ∷ s.events })
  set_price-remove_price {s} r who id price info stored own free room =
      let absent = unlisted_before r who id free in
      rw (set_price-offers who id price info s stored own absent room)
        (remove_price-withdraws who id price info s stored own free absent)
