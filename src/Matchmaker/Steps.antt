-- ===== src/Matchmaker/Steps.antt =====
-- The calls of pallets/eterra-simple-matchmaker/src/lib.rs on a queue in which at most one waits.
use eterra_polkadot_sdk_solo.Prelude.{
  ℕ, suc, ◌+◌, ◌-◌, ◌%◌, ◌<◌, ◌≡◌, ◌≢◌, sym, ap, ◌∙◌, true, false, arith, subst, ◌⊎◌, u32_mod, ltb,
  update,
}
use eterra_polkadot_sdk_solo.Prelude.Results.{ok, Origin}
use eterra_polkadot_sdk_solo.Prelude.Ensures.{ensure-eq-ok, signed-eq-ok, ok_injective}
use eterra_polkadot_sdk_solo.Matchmaker.{
  Hooks, Config, Store, left, not_queued, bad_capacity, ring_size, deposit_event, enqueue,
  join_queue, leave_queue, process_queue, processing_started,
}
use eterra_polkadot_sdk_solo.Matchmaker.Pop.{slot_below}
use eterra_polkadot_sdk_solo.Matchmaker.Process.{TwoWait, Paired}
use eterra_polkadot_sdk_solo.Matchmaker.Lockout.{
  IsIdle, IsWaiting, Quiet, idle, waiting, Stands, Quiet-live, Joined, join_queue-Joined,
  enqueue-Enqueued,
}
use eterra_polkadot_sdk_solo.Matchmaker.Rounds.{
  ring_size-zero, Same, do_process-few, do_process-pair,
}

module _ {G : Type 0} where
  Same-Quiet : (s t : Store G) → Quiet s → Same s t → Quiet t
  Same-Quiet s t (idle q) d =
      idle record { live = d.live ∙ q.live; queue = λ a. rw d.queue (q.queue a) }
  Same-Quiet s t (waiting w q) d = waiting w record {
    live = d.live ∙ q.live;
    queue = λ a. rw d.queue (q.queue a);
    slot = q.slot;
    at = rw d.ring q.at;
    below = rw d.tail q.below;
  }

  module _ (hooks : Hooks G) (config : Config) where
    -- The first of two to join waits.
    pub first_waits :
        (who n : ℕ) (s t : Store G)
        → n < config.queue_capacity
        → config.queue_capacity + config.queue_capacity < u32_mod
        → s.tail ≡ n
        → IsIdle s
        → Joined hooks config who s t
        → IsWaiting who t
    first_waits who n s t lt small tail q j =
        let en = enqueue-Enqueued config who s in
        let live : (enqueue config who s).live_size ≡ 1 =
          omega (arith, en.live (omega (arith, q.live)), q.live) in
        let (u, e, d) =
          do_process-few hooks config.queue_capacity (enqueue config who s) (omega (arith, live)) in
        let same : j.after ≡ u = ok_injective (sym j.processed ∙ e) in
        rw (j.result, same)
          record {
            live = d.live ∙ live;
            queue = λ a. rw (d.queue, en.queue) (ground (arith, q.queue a));
            slot = n;
            at = rw (d.ring, en.ring, tail, slot_below n config.queue_capacity lt) (ground arith);
            below = rw tail (omega arith);
          }

    -- The second is matched with the first at once.
    pub second_matched :
        (who w n : ℕ) (s t : Store G)
        → n < config.queue_capacity
        → config.queue_capacity + config.queue_capacity < u32_mod
        → s.head ≡ 0
        → s.tail ≡ n
        → IsWaiting w s
        → Joined hooks config who s t
        → Paired w who hooks s t
    second_matched who w n s t lt small head tail q j =
        let en = enqueue-Enqueued config who s in
        let ne : w ≢ who = λ same. ground (arith, q.queue who, j.fresh, same) in
        let two : TwoWait config.queue_capacity w who (enqueue config who s) = record {
          distinct = ne;
          live = omega (arith, en.live (omega (arith, q.live)), q.live);
          queue = λ a. rw en.queue (ground (arith, q.queue a));
          slot_v = q.slot;
          slot_w = n;
          at_v =
              rw (en.ring, tail, slot_below n config.queue_capacity lt)
                (ground (arith, q.at, q.below, tail));
          at_w = rw (en.ring, tail, slot_below n config.queue_capacity lt) (ground arith);
          below_v = omega (arith, q.below);
          below_w = lt;
          low = en.head ∙ head;
        } in
        let (u, e, d) =
          do_process-pair hooks config.queue_capacity w who (enqueue config who s) small two in
        let same : j.after ≡ u = ok_injective (sym j.processed ∙ e) in
        rw (j.result, same)
          record {
            live = d.live;
            queue = d.queue;
            games =
                subst
                  (λ g.
                    (u.games ≡ hooks.create_from_matchmaking w who g)
                    ⊎ (u.games ≡ hooks.create_from_matchmaking who w g))
                  en.games d.games;
          }

    join_queue-Quiet :
        (who n : ℕ) (s t : Store G)
        → n < config.queue_capacity
        → config.queue_capacity + config.queue_capacity < u32_mod
        → s.head ≡ 0
        → s.tail ≡ n
        → Quiet s
        → Joined hooks config who s t
        → Quiet t
    join_queue-Quiet who n s t lt small head tail (idle q) j =
        waiting who (first_waits who n s t lt small tail q j)
    join_queue-Quiet who n s t lt small head tail (waiting w q) j =
        let p = second_matched who w n s t lt small head tail q j in
        idle record { live = p.live; queue = p.queue }

    pub room_left :
        (who n : ℕ) (s t : Store G)
        → config.queue_capacity + config.queue_capacity < u32_mod
        → Stands config.queue_capacity n s
        → Joined hooks config who s t
        → n < config.queue_capacity
    room_left who n s t small st j =
        subst (λ k. k < config.queue_capacity)
          (ap (ring_size s.head) st.tail
            ∙ ap (λ h. ring_size h n) st.head
            ∙ ring_size-zero n (omega (arith, st.few)))
          j.room

    pub join_queue-Stands :
        (n : ℕ) (origin : Origin) (s t : Store G)
        → config.queue_capacity + config.queue_capacity < u32_mod
        → Stands config.queue_capacity n s
        → join_queue hooks config origin s ≡ ok t
        → Stands config.queue_capacity (suc n) t
    join_queue-Stands n origin s t small st e =
        let (who, o, j) = join_queue-Joined hooks config origin s t e in
        let lt = room_left who n s t small st j in
        record {
          quiet = join_queue-Quiet who n s t lt small st.head st.tail st.quiet j;
          head = ap (λ u. u.head) j.result ∙ st.head;
          tail = ap (λ u. u.tail) j.result ∙ ap (λ k. (k + 1) % u32_mod) st.tail ∙ omega arith;
          few = omega arith;
        }

    pub leave_queue-Stands :
        (n : ℕ) (origin : Origin) (s t : Store G)
        → Stands config.queue_capacity n s
        → leave_queue origin s ≡ ok t
        → Stands config.queue_capacity n t
    unfolding leave_queue deposit_event
    leave_queue-Stands n origin s t st e =
        let (who, o, e1) = signed-eq-ok origin _ e in
        let (was, e2) = ensure-eq-ok (s.in_queue who) not_queued _ e1 in
        rw (sym (ok_injective e2)) record {
          quiet = left_alone who s st.quiet was;
          head = st.head;
          tail = st.tail;
          few = st.few;
        }
      where
        left_alone :
            (who : ℕ) (s : Store G)
            → Quiet s
            → s.in_queue who ≡ true
            → Quiet (
                deposit_event (left who) (record s {
                  in_queue = update s.in_queue who false;
                  live_size = s.live_size - 1;
                }))
        left_alone who s (idle q) was = absurd (ground (arith, q.queue who))
        left_alone who s (waiting w q) was = idle record {
          live = omega (arith, q.live);
          queue = λ a. ground (arith, q.queue a, q.queue who);
        }

    pub process_queue-Stands :
        (n : ℕ) (origin : Origin) (s t : Store G)
        → Stands config.queue_capacity n s
        → process_queue hooks config origin s ≡ ok t
        → Stands config.queue_capacity n t
    unfolding process_queue deposit_event
    process_queue-Stands n origin s t st e =
        let (_, e1) = ensure-eq-ok (ltb 1 config.queue_capacity) bad_capacity _ e in
        let s1 = deposit_event (processing_started s.live_size s.head s.tail) s in
        let (u, e2, d) = do_process-few hooks config.queue_capacity s1 (Quiet-live s st.quiet) in
        let same : t ≡ u = ok_injective (sym e1 ∙ e2) in
        rw same record {
          quiet = Same-Quiet s u st.quiet record {
            head = d.head;
            tail = d.tail;
            ring = d.ring;
            queue = d.queue;
            live = d.live;
            games = d.games;
          };
          head = d.head ∙ st.head;
          tail = d.tail ∙ st.tail;
          few = st.few;
        }
