-- ===== src/Gateway/Results.antt =====
-- Every request that is queued has one result in the end, and no more.
use ai_fs.Prelude.{ℕ, ◌+◌, ◌≤◌, ◌≡◌, refl, if◌then◌else◌, ltb, none, length, arith}
use ai_fs.Prelude.Dict.{nat_eq}
use ai_fs.Prelude.Sums.{sum-replicate}
use ai_fs.Gateway.Pipeline.{
  waiting, Gateway, new_gateway, conn_queue_cap, dispatch_queue_cap, Run, here, then_event,
}
use ai_fs.Gateway.Places.{of_conn, of_forward, in_flight, answers, IsPlaced, happen-IsPlaced}

module _ {F : Type 0} where
  new_gateway-IsPlaced : (m n : ℕ) → IsPlaced {F = F} (new_gateway m n)
  unfolding new_gateway
  new_gateway-IsPlaced m n = record {
    once = λ id. ground (
      arith,
      sum-replicate (of_conn {F = F} id) (if ltb m 1 then 32 else m) waiting refl,
      sum-replicate (of_forward {F = F} id) (if ltb n 1 then 32 else n) none refl,
    );
    conn_room = omega arith;
    dispatch_room = omega arith;
  }

  -- Whatever happens in the gateway, in whatever order, a request that was queued either is on its
  -- way, at one place, and has no result, or has one result and is nowhere else; a request that was
  -- not has none. The queues keep to their capacities.
  pub one_result :
      (m n : ℕ) (g : Gateway F)
      → Run (new_gateway m n) g
      → ((id : ℕ) → in_flight id g + answers id g ≡ (if ltb id g.accepted then 1 else 0))
        × (length g.conn_jobs ≤ conn_queue_cap)
        × (length g.dispatch_jobs ≤ dispatch_queue_cap)
  one_result m n g run = let v = go run in (v.once, v.conn_room, v.dispatch_room)
    where
      go : {h : Gateway F} → Run (new_gateway m n) h → IsPlaced h
      go here = new_gateway-IsPlaced m n
      go (then_event {h = before} {i = after} run e q) = happen-IsPlaced e before after (go run) q
