-- ===== src/Matchmaker/Process.antt =====
-- `do_process` of pallets/eterra-simple-matchmaker/src/lib.rs: its loop ends, and it pairs two waiting
-- accounts.
use eterra_polkadot_sdk_solo.Prelude.{
  ℕ, zero, suc, ◌+◌, ◌-◌, ◌%◌, ◌<◌, ◌≡◌, ◌≢◌, refl, ap, ◌∙◌, sym, ◌==◌, true, false, ◌||◌, Option,
  none, some, update, arith, ◌⊎◌, inl, inr, Option-cases, Bool-cases, u32_mod, ltb, ==_ne, subst,
}
use eterra_polkadot_sdk_solo.Prelude.Results.{ok}
use eterra_polkadot_sdk_solo.Matchmaker.{
  AccountId, Hooks, Store, dequeue, take, pop_loop, pop_live, deposit_event, start_match, first_pop,
  second_pop, process_loop, do_process, processing_started, processing_completed,
}
use eterra_polkadot_sdk_solo.Matchmaker.Pop.{Popped, pop_live-Pops}

module _ {G : Type 0} where
  -- A pop that finds an account takes one off the live size.
  abbrev Counts : ℕ → Option AccountId × Store G → Type 0
  Counts n (none, t) = t.live_size ≡ n
  Counts n (some y, t) = t.live_size ≡ n - 1

  pop_loop-Counts : (n capacity h : ℕ) (s : Store G) → Counts s.live_size (pop_loop n capacity h s)
  unfolding pop_loop dequeue take
  pop_loop-Counts zero capacity h s = refl
  pop_loop-Counts (suc n) capacity h s = elim (Option-cases (s.ring (h % capacity))) [
    | inl empty ↦ rw (empty, pop_loop) (pop_loop-Counts n capacity _ s)
    | inr (acc, full) ↦ elim (Bool-cases (s.in_queue acc)) [
      | inl queued ↦ rw (full, pop_loop, queued) refl
      | inr gone ↦ rw (full, pop_loop, gone) (pop_loop-Counts n capacity _ (take (h % capacity) s))
    ]
  ]

  pop_live-Counts : (capacity : ℕ) (s : Store G) → Counts s.live_size (pop_live capacity s)
  unfolding pop_live
  pop_live-Counts capacity s = pop_loop-Counts capacity capacity s.head s

  second_pop-live :
      (hooks : Hooks G) (capacity a n : ℕ) (r : Option AccountId × Store G)
      → Counts n r
      → (second_pop hooks capacity a r).0 ≡ true
      → (second_pop hooks capacity a r).1.live_size ≡ n - 1
  unfolding second_pop start_match deposit_event
  second_pop-live hooks capacity a n (none, t) c e = cc
  second_pop-live hooks capacity a n (some b, t) c e = ground arith

  first_pop-live :
      (hooks : Hooks G) (capacity n : ℕ) (r : Option AccountId × Store G)
      → Counts n r
      → (first_pop hooks capacity r).0 ≡ true
      → (first_pop hooks capacity r).1.live_size ≡ n - 2
  unfolding first_pop
  first_pop-live hooks capacity n (none, t) c e = cc
  first_pop-live hooks capacity n (some a, t) c e = omega (
    arith,
    second_pop-live hooks capacity a t.live_size (pop_live capacity t) (pop_live-Counts capacity t)
        e,
  )

  -- With more fuel than live accounts the loop ends.
  pub process_loop-total :
      (hooks : Hooks G) (fuel capacity : ℕ) (s : Store G)
      → s.live_size < fuel
      → (t : Store G) × (process_loop hooks fuel capacity s ≡ some t)
  unfolding process_loop
  process_loop-total hooks zero capacity s h = elim h [ ]
  process_loop-total hooks (suc fuel) capacity s h =
      let r = first_pop hooks capacity (pop_live capacity s) in
      elim (Bool-cases (ltb s.live_size 2)) [
        | inl few ↦ (s, rw (few, process_loop) refl)
        | inr many ↦ elim (Bool-cases r.0) [
          | inl more ↦
              let less =
                first_pop-live hooks capacity s.live_size (pop_live capacity s)
                  (pop_live-Counts capacity s) more in
              let (t, e) =
                process_loop-total hooks fuel capacity r.1 (ground (arith, less, many)) in
              (t, rw (many, process_loop, more) e)
          | inr done ↦ (r.1, rw (many, process_loop, done) refl)
        ]
      ]

  -- `do_process` succeeds on every queue: its loop never runs out of fuel.
  pub do_process-total :
      (hooks : Hooks G) (capacity : ℕ) (s : Store G)
      → (t : Store G) × (do_process hooks capacity s ≡ ok t)
  unfolding do_process deposit_event
  do_process-total hooks capacity s =
      let started = deposit_event (processing_started s.live_size s.head s.tail) s in
      let (t, e) = process_loop-total hooks (suc s.live_size) capacity started (omega arith) in
      (deposit_event (processing_completed t.live_size t.head t.tail) t, rw (e, do_process) refl)

  -- Two accounts wait, each in a slot of the ring.
  pub record TwoWait (capacity v w : ℕ) (s : Store G) : Type 0 where
    pub distinct : v ≢ w
    pub live : s.live_size ≡ 2
    pub queue : (a : AccountId) → s.in_queue a ≡ ((a == v) || (a == w))
    pub slot_v : ℕ
    pub slot_w : ℕ
    pub at_v : s.ring slot_v ≡ some v
    pub at_w : s.ring slot_w ≡ some w
    pub below_v : slot_v < capacity
    pub below_w : slot_w < capacity
    pub low : s.head ≡ 0

  -- They have been matched, in the one order or the other.
  pub record Paired (v w : ℕ) (hooks : Hooks G) (s t : Store G) : Type 0 where
    pub live : t.live_size ≡ 0
    pub queue : (a : AccountId) → t.in_queue a ≡ false
    pub games :
        (t.games ≡ hooks.create_from_matchmaking v w s.games)
        ⊎ (t.games ≡ hooks.create_from_matchmaking w v s.games)

  still_queued :
      (y z : ℕ) (s s1 : Store G)
      → y ≢ z
      → ((a : AccountId) → s.in_queue a ≡ ((a == y) || (a == z)))
      → s1.in_queue ≡ update s.in_queue y false
      → s1.in_queue z ≡ true
  still_queued y z s s1 ne queue e = rw e (ground (arith, queue z))

  other_left :
      (x y z : ℕ) (s s1 : Store G)
      → ((a : AccountId) → s.in_queue a ≡ ((a == y) || (a == z)))
      → s1.in_queue ≡ update s.in_queue y false
      → s1.in_queue x ≡ true
      → x ≡ z
  other_left x y z s s1 queue e was =
      let h : update s.in_queue y false x ≡ true = ap (λ f. f x) (sym e) ∙ was in
      ground (arith, queue x, h)

  emptied :
      (a y z : ℕ) (s s1 t : Store G)
      → ((a : AccountId) → s.in_queue a ≡ ((a == y) || (a == z)))
      → s1.in_queue ≡ update s.in_queue y false
      → t.in_queue ≡ update s1.in_queue z false
      → t.in_queue a ≡ false
  emptied a y z s s1 t queue e f = rw (f, e) (ground (arith, queue a))

  -- The second pop, after `y` has been popped and `z` is left.
  pub second_pop-Paired :
      (hooks : Hooks G) (capacity y z i : ℕ) (s s1 : Store G)
      → y ≢ z
      → s.live_size ≡ 2
      → ((a : AccountId) → s.in_queue a ≡ ((a == y) || (a == z)))
      → s.ring i ≡ some z
      → i < capacity
      → capacity + capacity < u32_mod
      → Popped capacity y s s1
      → let r = second_pop hooks capacity y (pop_live capacity s1) in
        (r.0 ≡ true)
        × (r.1.live_size ≡ 0)
        × ((a : AccountId) → r.1.in_queue a ≡ false)
        × (r.1.games ≡ hooks.create_from_matchmaking y z s.games)
  unfolding second_pop start_match deposit_event
  second_pop-Paired hooks capacity y z i s s1 ne live queue at lt small p =
      let (x, t, e, d) = pop_live-Pops capacity i z s1 lt p.head small kept queued in
      let same : x ≡ z = other_left x y z s s1 queue p.queue d.was in
      rw (e, second_pop, same, ==_ne y z ne)
        (
          refl,
          omega (arith, live, p.live, d.live),
          λ a.
              emptied a y z s s1 t queue p.queue
                (subst (λ q. t.in_queue ≡ update s1.in_queue q false) same d.queue),
          ap (hooks.create_from_matchmaking y z) (d.games ∙ p.games),
        )
    where
      queued : s1.in_queue z ≡ true
      queued = still_queued y z s s1 ne queue p.queue

      kept : s1.ring i ≡ some z
      kept = p.keeps i z at (rw (queue z) (ground arith)) (λ e. ne (sym e))
