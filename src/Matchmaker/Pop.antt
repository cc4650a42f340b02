-- ===== src/Matchmaker/Pop.antt =====
-- `pop_live` of pallets/eterra-simple-matchmaker/src/lib.rs: what a pop does to the queue, and that
-- it finds an account whenever the ring still has one that is queued.
use eterra_polkadot_sdk_solo.Prelude.{
  ℕ, zero, suc, ◌+◌, ◌-◌, ◌%◌, ◌≤◌, ◌<◌, ◌≡◌, ◌≢◌, refl, ◌==◌, true, false, Option, none, some,
  update, arith, inl, inr, Option-cases, Bool-cases, u32_mod, leb, leb→le,
}
use eterra_polkadot_sdk_solo.Matchmaker.{AccountId, Store, dequeue, take, pop_loop, pop_live}

next_slot : (h n : ℕ) → h + suc n < u32_mod → (h + 1) % u32_mod ≡ h + 1
next_slot h n small = omega arith

pub slot_below : (i capacity : ℕ) → i < capacity → i % capacity ≡ i
slot_below i capacity lt = grind arith

slot_above : (i capacity : ℕ) → i < capacity → (i + capacity) % capacity ≡ i
slot_above i capacity lt = grind arith

module _ {G : Type 0} where
  -- `y` has been popped from `s`, and `t` is what is left. No entry of another queued account has
  -- left the ring.
  pub record Popped (h : ℕ) (y : AccountId) (s t : Store G) : Type 0 where
    pub was : s.in_queue y ≡ true
    pub queue : t.in_queue ≡ update s.in_queue y false
    pub live : t.live_size ≡ s.live_size - 1
    pub tail : t.tail ≡ s.tail
    pub games : t.games ≡ s.games
    pub head : t.head ≤ h
    pub keeps :
        (j : ℕ) (z : AccountId)
        → s.ring j ≡ some z
        → s.in_queue z ≡ true
        → z ≢ y
        → t.ring j ≡ some z

  take-keeps :
      (idx j acc z : ℕ) (s : Store G)
      → s.ring idx ≡ some acc
      → s.in_queue acc ≡ false
      → s.ring j ≡ some z
      → s.in_queue z ≡ true
      → (take idx s).ring j ≡ some z
  unfolding take
  take-keeps idx j acc z s e out f q = ground arith

  Popped-now :
      (h idx y : ℕ) (s : Store G)
      → s.ring idx ≡ some y
      → s.in_queue y ≡ true
      → Popped h y s (dequeue y h (take idx s))
  unfolding dequeue take
  Popped-now h idx y s e q = record {
    was = q;
    queue = refl;
    live = refl;
    tail = refl;
    games = refl;
    head = omega arith;
    keeps = λ j z f p ne. ground arith;
  }

  Popped-later :
      (h idx acc y : ℕ) (s t : Store G)
      → s.ring idx ≡ some acc
      → s.in_queue acc ≡ false
      → Popped h y (take idx s) t
      → Popped h y s t
  unfolding take
  Popped-later h idx acc y s t e out p = record {
    was = p.was;
    queue = p.queue;
    live = p.live;
    tail = p.tail;
    games = p.games;
    head = p.head;
    keeps = λ j z f q ne. p.keeps j z (take-keeps idx j acc z s e out f q) q ne;
  }

  pub Popped-head : (h k y : ℕ) (s t : Store G) → h ≤ k → Popped h y s t → Popped k y s t
  Popped-head h k y s t le p = record {
    was = p.was;
    queue = p.queue;
    live = p.live;
    tail = p.tail;
    games = p.games;
    head = omega arith;
    keeps = p.keeps;
  }

  not_here :
      (h p capacity x : ℕ) (s : Store G)
      → h ≤ p
      → s.ring (p % capacity) ≡ some x
      → s.ring (h % capacity) ≡ none
      → h + 1 ≤ p
  not_here h p capacity x s lo e empty = elim (Bool-cases (h == p)) [
    | inl same ↦ absurd (ground (arith, same))
    | inr other ↦ ground (arith, other)
  ]

  not_gone :
      (h p capacity x acc : ℕ) (s : Store G)
      → h ≤ p
      → s.ring (p % capacity) ≡ some x
      → s.in_queue x ≡ true
      → s.ring (h % capacity) ≡ some acc
      → s.in_queue acc ≡ false
      → h + 1 ≤ p
  not_gone h p capacity x acc s lo e q full gone = elim (Bool-cases (h == p)) [
    | inl same ↦ absurd (ground (arith, same))
    | inr other ↦ ground (arith, other)
  ]

  abbrev pub Pops : ℕ → Store G → Option AccountId × Store G → Type 0
  Pops h s r = (y : AccountId) × (t : Store G) × (r ≡ (some y, t)) × Popped h y s t

  -- The loop meets the queued entry at position `p` of its way round the ring, or one before it.
  pop_loop-Pops :
      (n capacity h p x : ℕ) (s : Store G)
      → h ≤ p
      → p < h + n
      → h + n < u32_mod
      → s.ring (p % capacity) ≡ some x
      → s.in_queue x ≡ true
      → Pops (h + n) s (pop_loop n capacity h s)
  unfolding pop_loop
  pop_loop-Pops zero capacity h p x s lo hi small e q = absurd (omega arith)
  pop_loop-Pops (suc n) capacity h p x s lo hi small e q =
      elim (Option-cases (s.ring (h % capacity))) [
        | inl empty ↦
            let (y, t, r, d) =
              pop_loop-Pops n capacity (h + 1) p x s (not_here h p capacity x s lo e empty)
                (omega arith) (omega arith) e q in
            (
              y,
              t,
              rw (empty, pop_loop, next_slot h n small) r,
              Popped-head (h + 1 + n) (h + suc n) y s t (omega arith) d,
            )
        | inr (acc, full) ↦ elim (Bool-cases (s.in_queue acc)) [
          | inl queued ↦ (
            acc,
            dequeue acc (h + 1) (take (h % capacity) s),
            rw (full, pop_loop, queued, next_slot h n small) refl,
            Popped-head (h + 1) (h + suc n) acc s _ (omega arith)
                (Popped-now (h + 1) (h % capacity) acc s full queued),
          )
          | inr gone ↦
              let s1 = take (h % capacity) s in
              let (y, t, r, d) =
                pop_loop-Pops n capacity (h + 1) p x s1
                  (not_gone h p capacity x acc s lo e q full gone) (omega arith) (omega arith)
                  (take-keeps (h % capacity) (p % capacity) acc x s full gone e q)
                  (unfold take in q) in
              (
                y,
                t,
                rw (full, pop_loop, gone, next_slot h n small) r,
                Popped-later (h + suc n) (h % capacity) acc y s t full gone
                    (Popped-head (h + 1 + n) (h + suc n) y s1 t (omega arith) d),
              )
        ]
      ]

  -- With a head of at most the capacity, and a capacity of less than half the range of a `u32`,
  -- `pop_live` finds an account whenever a slot of the ring holds a queued one. The account that
  -- is found was queued and is no longer, the live size is one less, the tail and the games are as
  -- before, the head has moved by at most the capacity, and every entry of another queued account
  -- is still in its slot.
  pub pop_live-Pops :
      (capacity i x : ℕ) (s : Store G)
      → i < capacity
      → s.head ≤ capacity
      → capacity + capacity < u32_mod
      → s.ring i ≡ some x
      → s.in_queue x ≡ true
      → Pops (s.head + capacity) s (pop_live capacity s)
  unfolding pop_live
  pop_live-Pops capacity i x s lt low small e q = elim (Bool-cases (leb s.head i)) [
    | inl ahead ↦
        pop_loop-Pops capacity capacity s.head i x s (leb→le s.head i ahead) (omega arith)
          (omega arith) (rw (slot_below i capacity lt) e) q
    | inr behind ↦
        pop_loop-Pops capacity capacity s.head (i + capacity) x s (omega arith) (ground arith)
          (omega arith) (rw (slot_above i capacity lt) e) q
  ]
