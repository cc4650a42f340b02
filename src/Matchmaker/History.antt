-- ===== src/Matchmaker/History.antt =====
-- The histories of calls to pallets/eterra-simple-matchmaker/src/lib.rs, from the empty queue.
use eterra_polkadot_sdk_solo.Prelude.{
  ℕ, suc, ◌+◌, ◌%◌, ◌<◌, ◌≡◌, refl, sym, ap, ◌∙◌, true, false, none, arith, subst, u32_mod, ltb, [],
}
use eterra_polkadot_sdk_solo.Prelude.Results.{ok, Origin, signed}
use eterra_polkadot_sdk_solo.Matchmaker.{
  AccountId, Hooks, Config, Store, ring_size, enqueue, join_queue, leave_queue, process_queue,
}
use eterra_polkadot_sdk_solo.Matchmaker.Process.{Paired, do_process-total}
use eterra_polkadot_sdk_solo.Matchmaker.Lockout.{
  IsWaiting, Quiet, idle, waiting, Stands, Joined, join_queue-Joined,
}
use eterra_polkadot_sdk_solo.Matchmaker.Rounds.{ring_size-zero}
use eterra_polkadot_sdk_solo.Matchmaker.Steps.{
  room_left, second_matched, join_queue-Stands, leave_queue-Stands, process_queue-Stands,
}

signed_injective : {a b : AccountId} → signed a ≡ signed b → a ≡ b
signed_injective e = cc

module _ {G : Type 0} where
  unfoldable pub genesis : G → Store G
  genesis games = record {
    head = 0;
    tail = 0;
    ring = λ i. none;
    in_queue = λ a. false;
    live_size = 0;
    events = [];
    games = games;
  }

-- The stores that calls lead to, with the number of joins that succeeded. The other calls of the chain
-- change the game pallet's storage.
pub data Reach {G : Type 0} (hooks : Hooks G) (config : Config) : ℕ → Store G → Type 0 where
  start : (games : G) → Reach hooks config 0 (genesis games)
  join :
      {n : ℕ} {s t : Store G} (origin : Origin)
      → Reach hooks config n s
      → join_queue hooks config origin s ≡ ok t
      → Reach hooks config (suc n) t
  leave :
      {n : ℕ} {s t : Store G} (origin : Origin)
      → Reach hooks config n s
      → leave_queue origin s ≡ ok t
      → Reach hooks config n t
  process :
      {n : ℕ} {s t : Store G} (origin : Origin)
      → Reach hooks config n s
      → process_queue hooks config origin s ≡ ok t
      → Reach hooks config n t
  elsewhere :
      {n : ℕ} {s : Store G} (games : G)
      → Reach hooks config n s
      → Reach hooks config n (record s { games = games })

module _ {G : Type 0} where
  pub genesis-Stands : (capacity : ℕ) (games : G) → Stands capacity 0 (genesis games)
  unfolding genesis
  genesis-Stands capacity games = record {
    quiet = idle record { live = refl; queue = λ a. refl };
    head = refl;
    tail = refl;
    few = omega arith;
  }

  pub with_games : (games : G) (s : Store G) → Quiet s → Quiet (record s { games = games })
  with_games games s (idle q) = idle record { live = q.live; queue = q.queue }
  with_games games s (waiting w q) =
      waiting w record { live = q.live; queue = q.queue; slot = q.slot; at = q.at; below = q.below }

  -- With a ring of less than half the range of a `u32`, after any history, at most one account
  -- waits, its entry is in the ring, the head is still 0, and the tail is the number of the joins
  -- that succeeded, which is at most the capacity.
  pub Reach-Stands :
      (hooks : Hooks G) (config : Config)
      → config.queue_capacity + config.queue_capacity < u32_mod
      → {n : ℕ} {s : Store G} → Reach hooks config n s
      → Stands config.queue_capacity n s
  Reach-Stands hooks config small (start games) = genesis-Stands config.queue_capacity games
  Reach-Stands hooks config small (join origin r e) =
      join_queue-Stands hooks config _ origin _ _ small (Reach-Stands hooks config small r) e
  Reach-Stands hooks config small (leave origin r e) =
      leave_queue-Stands hooks config _ origin _ _ (Reach-Stands hooks config small r) e
  Reach-Stands hooks config small (process origin r e) =
      process_queue-Stands hooks config _ origin _ _ (Reach-Stands hooks config small r) e
  Reach-Stands hooks config small (elsewhere games r) =
      let st = Reach-Stands hooks config small r in
      record { quiet = with_games games _ st.quiet; head = st.head; tail = st.tail; few = st.few }

  -- With a ring of less than half the range of a `u32`, once as many joins have succeeded as the
  -- ring has slots, no further join ever succeeds.
  pub join_queue-full :
      (hooks : Hooks G) (config : Config)
      → config.queue_capacity + config.queue_capacity < u32_mod
      → {s : Store G} → Reach hooks config config.queue_capacity s
      → (origin : Origin) (t : Store G) → ¬ (join_queue hooks config origin s ≡ ok t)
  join_queue-full hooks config small r origin t e =
      let st = Reach-Stands hooks config small r in
      let (who, o, j) = join_queue-Joined hooks config origin _ t e in
      absurd (omega (arith, room_left hooks config who _ _ t small st j))

  waits_alone : (w : AccountId) (s : Store G) → Quiet s → s.in_queue w ≡ true → IsWaiting w s
  waits_alone w s (idle q) was = absurd (ground (arith, q.queue w))
  waits_alone w s (waiting v q) was = subst (λ a. IsWaiting a s) (ground (arith, q.queue w)) q

  -- With a ring of less than half the range of a `u32`, after any history, while another account
  -- waits, a join that succeeds leaves nobody waiting and has asked the game pallet for one game
  -- of the two, in the one order or the other.
  pub join_queue-matches :
      (hooks : Hooks G) (config : Config)
      → config.queue_capacity + config.queue_capacity < u32_mod
      → {n : ℕ} {s : Store G} → Reach hooks config n s
      → (w : AccountId) → s.in_queue w ≡ true
      → (who : AccountId) (t : Store G) → join_queue hooks config (signed who) s ≡ ok t
      → Paired w who hooks s t
  join_queue-matches hooks config small {n} {s} r w waits who t e =
      let st = Reach-Stands hooks config small r in
      let (x, o, j) = join_queue-Joined hooks config (signed who) s t e in
      let lt = room_left hooks config x n s t small st j in
      second_matched hooks config who w n s t lt small st.head st.tail
        (waits_alone w s st.quiet waits)
        (subst (λ y. Joined hooks config y s t) (signed_injective (sym o)) j)

  -- With a ring of at least two slots and of less than half the range of a `u32`, while fewer
  -- joins have succeeded than it has slots, a join of an account that has a hand and does not wait
  -- succeeds.
  pub join_queue-succeeds :
      (hooks : Hooks G) (config : Config)
      → config.queue_capacity + config.queue_capacity < u32_mod
      → 1 < config.queue_capacity
      → {n : ℕ} {s : Store G} → Reach hooks config n s
      → n < config.queue_capacity
      → (who : AccountId) → s.in_queue who ≡ false
      → hooks.has_current_hand s.games who ≡ true
      → (t : Store G) × (join_queue hooks config (signed who) s ≡ ok t)
  unfolding join_queue
  join_queue-succeeds hooks config small two {n} {s} r lt who fresh hand =
      let st = Reach-Stands hooks config small r in
      let (u, e) = do_process-total hooks config.queue_capacity (enqueue config who s) in
      let ring : ring_size s.head s.tail ≡ n =
        ap (ring_size s.head) st.tail
        ∙ ap (λ h. ring_size h n) st.head
        ∙ ring_size-zero n (omega arith) in
      let room : ltb (ring_size s.head s.tail) config.queue_capacity ≡ true =
        ap (λ k. ltb k config.queue_capacity) ring ∙ ground (arith, lt) in
      let big : ltb 1 config.queue_capacity ≡ true = ground (arith, two) in
      (
        record u { head = s.head; tail = (s.tail + 1) % u32_mod },
        rw (big, fresh, hand, room, e) refl,
      )
