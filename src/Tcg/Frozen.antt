-- ===== src/Tcg/Frozen.antt =====
-- What no call of pallets/eterra-tcg/src/lib.rs changes, where packs have two cards or more: only the
-- first card of a pack is ever finalized.
use mathlib.Core.Option.{some-injective}
use native.Mathlib.Nat.{mod-add-mod, mod-eq_of_lt}
use eterra_polkadot_sdk_solo.Prelude.{
  ℕ, zero, suc, ◌+◌, ◌%◌, ◌≤◌, ◌<◌, ◌≡◌, ◌≢◌, refl, sym, ap, ◌∙◌, subst, ◌==◌, ==_ne, ltb, is_some,
  Bool, true, false, ◌&&◌, inl, inr, Bool-cases, Option-cases, Option, none, some, List, [], ◌∷◌,
  ◌++◌, length, update, arith, u32_mod,
}
use eterra_polkadot_sdk_solo.Prelude.Maps.{update-cases}
use eterra_polkadot_sdk_solo.Prelude.Each.{All}
use eterra_polkadot_sdk_solo.Prelude.Results.{ok}
use eterra_polkadot_sdk_solo.Prelude.Ensures.{ensure-eq-ok, ok_injective}
use eterra_polkadot_sdk_solo.Tcg.Types.{max_packs_reached, CardInfo, Pack, Store}
use eterra_polkadot_sdk_solo.Tcg.Cards.{
  create_new_card, create_cards, is_final, all_final, finalize, internal_finalize_card,
}

-- `n` consecutive ids.
unfoldable pub range : ℕ → ℕ → List ℕ
range b zero = []
range b (suc n) = b ∷ range (b + 1) n

-- A pack as it was minted, with its `k` ids from a multiple of `k` on.
pub record IsFrozen (k next : ℕ) (pack : Pack) : Type 0 where
  pub base : ℕ
  pub aligned : base % k ≡ 0
  pub minted : base + k ≤ next
  pub ids : pack.card_ids ≡ range base k
  pub open_ : pack.completed ≡ false

abbrev pub Exist : ℕ → (ℕ → Option CardInfo) → Type 0
Exist next cards = (id : ℕ) → id < next → is_some (cards id) ≡ true

-- A finalized card is the first one of its pack.
abbrev pub Heads : ℕ → (ℕ → Option CardInfo) → Type 0
Heads k cards = (id : ℕ) (c : CardInfo) → cards id ≡ some c → c.finalized ≡ true → id % k ≡ 0

pub record Frozen (k : ℕ) (s : Store) : Type 0 where
  pub aligned : s.next_card_id % k ≡ 0
  pub exist : Exist s.next_card_id s.cards
  pub heads : Heads k s.cards
  pub active : (p i : ℕ) → s.active_card p ≡ some i → i ≡ 0
  pub packs : (p : ℕ) → All (IsFrozen k s.next_card_id) (s.player_packs p)

-- What the loop of `mint_pack` does.
pub record Made (k n : ℕ) (ids : List ℕ) (s : Store) (r : List ℕ × Store) : Type 0 where
  pub ids_after : r.0 ≡ ids ++ range s.next_card_id n
  pub next : r.1.next_card_id ≡ s.next_card_id + n
  pub exist : Exist s.next_card_id s.cards → Exist (s.next_card_id + n) r.1.cards
  pub heads : Heads k s.cards → Heads k r.1.cards
  pub packs : r.1.player_packs ≡ s.player_packs
  pub active : r.1.active_card ≡ s.active_card
  pub attempts : r.1.card_attempts ≡ s.card_attempts

append_one : (ids : List ℕ) (a : ℕ) (later : List ℕ) → (ids ++ a ∷ []) ++ later ≡ ids ++ a ∷ later
append_one [] a later = refl
append_one (x ∷ ids) a later = ap (λ l. x ∷ l) (append_one ids a later)

append_none : (ids : List ℕ) → ids ≡ ids ++ []
append_none [] = refl
append_none (x ∷ ids) = ap (λ l. x ∷ l) (append_none ids)

created-Exist :
    (owner : ℕ) (s : Store)
    → Exist s.next_card_id s.cards
    → Exist (s.next_card_id + 1) (create_new_card owner s).1.cards
unfolding create_new_card
created-Exist owner s v id lt =
    update-cases (λ o. is_some o ≡ true) s.cards s.next_card_id _ id (λ same. refl)
      (λ other. v id (omega (arith, lt, other)))

created-Heads :
    (k owner : ℕ) (s : Store) → Heads k s.cards → Heads k (create_new_card owner s).1.cards
unfolding create_new_card
created-Heads k owner s v id =
    update-cases (λ o. (c : CardInfo) → o ≡ some c → c.finalized ≡ true → id % k ≡ 0) s.cards
      s.next_card_id _ id
      (λ same c e f. absurd (differ (ap (λ z. z.finalized) (some-injective _ c e) ∙ f)))
      (λ other. v id)
  where
    differ : false ≢ true
    differ q = cc

pub create_cards-Made :
    (k n owner : ℕ) (ids : List ℕ) (s : Store) (r : List ℕ × Store)
    → s.next_card_id + n < u32_mod
    → create_cards n owner ids s ≡ ok r
    → Made k n ids s r
unfolding create_cards create_new_card range
create_cards-Made k zero owner ids s r small e = subst (Made k 0 ids s) (ok_injective e) (record {
  ids_after = append_none ids;
  next = omega arith;
  exist = λ v id lt. v id (omega (arith, lt));
  heads = λ v. v;
  packs = refl;
  active = refl;
  attempts = refl;
})
create_cards-Made k (suc n) owner ids s r small e =
    let (few, q) =
      ensure-eq-ok (ltb (length ids) 16) max_packs_reached
        (create_cards n owner (ids ++ s.next_card_id ∷ []) (create_new_card owner s).1) e in
    let step : (s.next_card_id + 1) % u32_mod ≡ s.next_card_id + 1 = omega (arith, small) in
    let later =
      create_cards-Made k n owner (ids ++ s.next_card_id ∷ []) (create_new_card owner s).1 r
        (omega (arith, step, small)) q in
    record {
      ids_after =
          later.ids_after
          ∙ append_one ids s.next_card_id (range ((s.next_card_id + 1) % u32_mod) n)
          ∙ ap (λ a. ids ++ s.next_card_id ∷ range a n) step;
      next = omega (arith, later.next, step);
      exist = λ v id lt.
          later.exist (λ j lj. created-Exist owner s v j (omega (arith, lj, step))) id
            (omega (arith, lt, step));
      heads = λ v. later.heads (created-Heads k owner s v);
      packs = later.packs;
      active = later.active;
      attempts = later.attempts;
    }

finalize-Exist :
    (id : ℕ) (cards : ℕ → Option CardInfo) (next : ℕ)
    → Exist next cards
    → Exist next (update cards id (finalize (cards id)))
unfolding finalize
finalize-Exist id cards next v j lt =
    update-cases (λ o. is_some o ≡ true) cards id _ j
      (λ same. kept (cards id) (subst (λ i. is_some (cards i) ≡ true) same (v j lt)))
      (λ other. v j lt)
  where
    kept : (o : Option CardInfo) → is_some o ≡ true → is_some (finalize o) ≡ true
    kept none e = e
    kept (some c) e = refl

finalize-Heads :
    (k id : ℕ) (cards : ℕ → Option CardInfo)
    → id % k ≡ 0
    → Heads k cards
    → Heads k (update cards id (finalize (cards id)))
finalize-Heads k id cards head v j =
    update-cases (λ o. (c : CardInfo) → o ≡ some c → c.finalized ≡ true → j % k ≡ 0) cards id _ j
      (λ same c e f. rw same head) (λ other. v j)

-- The id after a multiple of `k` is none.
next_is_none : (k b : ℕ) → 2 ≤ k → b % k ≡ 0 → (b + 1) % k ≢ 0
next_is_none k b two e q = absurd (omega (arith, two, one, sym q, sum))
  where
    sum : (b + 1) % k ≡ (b % k + 1) % k
    sum = sym (mod-add-mod b k 1)

    one : (b % k + 1) % k ≡ 1
    one = rw e (mod-eq_of_lt two)

pub range-two : (b k : ℕ) → 2 ≤ k → (rest : List ℕ) × (range b k ≡ b ∷ (b + 1) ∷ rest)
unfolding range
range-two b zero two = absurd (omega (arith, two))
range-two b (suc zero) two = absurd (omega (arith, two))
range-two b (suc (suc n)) two = (range (b + 1 + 1) n, refl)

second_open :
    (k next b : ℕ) (cards : ℕ → Option CardInfo)
    → 2 ≤ k
    → b % k ≡ 0
    → b + k ≤ next
    → Exist next cards
    → Heads k cards
    → is_final (cards (b + 1)) ≡ false
unfolding is_final
second_open k next b cards two aligned minted exist heads = elim (Option-cases (cards (b + 1))) [
  | inl missing ↦
      absurd (differ (sym (ap is_some missing) ∙ exist (b + 1) (omega (arith, two, minted))))
  | inr (c, there) ↦ elim (Bool-cases c.finalized) [
    | inl final ↦ absurd (next_is_none k b two aligned (heads (b + 1) c there final))
    | inr open_ ↦ rw (there, open_) refl
  ]
]
  where
    differ : false ≢ true
    differ q = cc

-- The second card of the pack is not finalized, so the pack stays open.
all_final-open :
    (k next : ℕ) (cards : ℕ → Option CardInfo) (pack : Pack) (f : IsFrozen k next pack)
    → 2 ≤ k
    → Exist next cards
    → Heads k cards
    → all_final (update cards f.base (finalize (cards f.base))) pack.card_ids ≡ false
unfolding all_final
all_final-open k next cards pack f two exist heads =
    let (rest, split) = range-two f.base k two in
    let other : (f.base + 1 == f.base) ≡ false =
      ==_ne (f.base + 1) f.base (λ q. absurd (omega (arith, q))) in
    let open_ = second_open k next f.base cards two f.aligned f.minted exist heads in
    rw (f.ids, split, other, open_)
      (and_false (is_final (update cards f.base (finalize (cards f.base)) f.base)))
  where
    and_false : (b : Bool) → (b && false) ≡ false
    and_false true = refl
    and_false false = refl

module _ (k : ℕ) (two : 2 ≤ k) (s : Store) (v : Frozen k s) where
  -- The pack whose first card is finalized is left as it is.
  pub internal_finalize_card-Frozen :
      (pack : Pack) (f : IsFrozen k s.next_card_id pack)
      → let r = internal_finalize_card f.base pack s in
        (r.0 ≡ pack) × Frozen k r.1 × (r.1.player_packs ≡ s.player_packs)
  unfolding internal_finalize_card
  internal_finalize_card-Frozen pack f = (
    rw (all_final-open k s.next_card_id s.cards pack f two v.exist v.heads) refl,
    record {
      aligned = v.aligned;
      exist = finalize-Exist f.base s.cards s.next_card_id v.exist;
      heads = finalize-Heads k f.base s.cards f.aligned v.heads;
      active = v.active;
      packs = v.packs;
    },
    refl,
  )
