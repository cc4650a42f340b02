-- ===== src/Matchmaker/Lockout.antt =====
-- The queue of pallets/eterra-simple-matchmaker/src/lib.rs between two calls, and what a join checks
-- and stores. `join_queue` writes the head back as it was before the matching, and the tail one up.
use eterra_polkadot_sdk_solo.Prelude.{
  ℕ, ◌+◌, ◌%◌, ◌≤◌, ◌<◌, ◌≡◌, sym, ◌==◌, if◌then◌else◌, true, false, ltb→lt, some, arith, u32_mod,
  ltb, update,
}
use eterra_polkadot_sdk_solo.Prelude.Results.{ok, Origin, signed}
use eterra_polkadot_sdk_solo.Matchmaker.{
  AccountId, Hooks, Config, Store, bad_capacity, already_queued, no_preset_hand, queue_full,
  ring_size, deposit_event, do_process, enqueue, join_queue,
}
use eterra_polkadot_sdk_solo.Prelude.Ensures.{ensure-eq-ok, signed-eq-ok, >>=-eq-ok, ok_injective}

module _ {G : Type 0} where
  -- Nobody waits.
  pub record IsIdle (s : Store G) : Type 0 where
    pub live : s.live_size ≡ 0
    pub queue : (a : AccountId) → s.in_queue a ≡ false

  -- Just `w` waits, and is in a slot of the ring that has been written.
  pub record IsWaiting (w : AccountId) (s : Store G) : Type 0 where
    pub live : s.live_size ≡ 1
    pub queue : (a : AccountId) → s.in_queue a ≡ (a == w)
    pub slot : ℕ
    pub at : s.ring slot ≡ some w
    pub below : slot < s.tail

  pub data Quiet (s : Store G) : Type 0 where
    idle : IsIdle s → Quiet s
    waiting : (w : AccountId) → IsWaiting w s → Quiet s

  -- The queue after `n` joins.
  pub record Stands (capacity n : ℕ) (s : Store G) : Type 0 where
    pub quiet : Quiet s
    pub head : s.head ≡ 0
    pub tail : s.tail ≡ n
    pub few : n ≤ capacity

  pub Quiet-live : (s : Store G) → Quiet s → s.live_size < 2
  Quiet-live s (idle q) = omega (arith, q.live)
  Quiet-live s (waiting w q) = omega (arith, q.live)

  -- What `join_queue` has checked and done when it succeeds.
  pub record Joined (hooks : Hooks G) (config : Config) (who : AccountId) (s t : Store G)
      : Type 0 where
    pub fresh : s.in_queue who ≡ false
    pub room : ring_size s.head s.tail < config.queue_capacity
    pub after : Store G
    pub processed : do_process hooks config.queue_capacity (enqueue config who s) ≡ ok after
    pub result : t ≡ record after { head = s.head; tail = (s.tail + 1) % u32_mod }

  pub join_queue-Joined :
      (hooks : Hooks G) (config : Config) (origin : Origin) (s t : Store G)
      → join_queue hooks config origin s ≡ ok t
      → (who : AccountId) × (origin ≡ signed who) × Joined hooks config who s t
  unfolding join_queue
  join_queue-Joined hooks config origin s t e =
      let (who, o, e1) = signed-eq-ok origin _ e in
      let (_, e2) = ensure-eq-ok (ltb 1 config.queue_capacity) bad_capacity _ e1 in
      let (fresh, e3) = ensure-eq-ok (if s.in_queue who then false else true) already_queued _ e2 in
      let (_, e4) = ensure-eq-ok (hooks.has_current_hand s.games who) no_preset_hand _ e3 in
      let (room, e5) =
        ensure-eq-ok (ltb (ring_size s.head s.tail) config.queue_capacity) queue_full _ e4 in
      let (after, p, r) =
        >>=-eq-ok (do_process hooks config.queue_capacity (enqueue config who s)) _ e5 in
      (
        who,
        o,
        record {
          fresh = ground (arith, fresh);
          room = ltb→lt _ _ room;
          after = after;
          processed = p;
          result = ok_injective (sym r);
        },
      )

  -- What `enqueue` stores, whether or not it signals that two are ready.
  pub record Enqueued (config : Config) (who : AccountId) (s t : Store G) : Type 0 where
    pub head : t.head ≡ s.head
    pub tail : t.tail ≡ s.tail
    pub ring : t.ring ≡ update s.ring (s.tail % config.queue_capacity) (some who)
    pub queue : t.in_queue ≡ update s.in_queue who true
    pub live : s.live_size < 2 → t.live_size ≡ s.live_size + 1
    pub games : t.games ≡ s.games

  pub enqueue-Enqueued :
      (config : Config) (who : AccountId) (s : Store G)
      → Enqueued config who s (enqueue config who s)
  unfolding enqueue deposit_event
  enqueue-Enqueued config who s = record {
    head = ground arith;
    tail = ground arith;
    ring = ground arith;
    queue = ground arith;
    live = ground arith;
    games = ground arith;
  }
