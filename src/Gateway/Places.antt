-- ===== src/Gateway/Places.antt =====
-- Every request that is queued stands at one place, up to its one result.
use ai_fs.Prelude.{
  ℕ, String, ◌+◌, ◌≤◌, ◌≡◌, refl, if◌then◌else◌, ltb, Option, none, some, List, [], ◌∷◌, length,
  length-append, get_elem?, arith,
}
use ai_fs.Prelude.Dict.{◌==◌, nat_eq}
use ai_fs.Prelude.Sums.{sum, sum-append, sum-set}
use ai_fs.Models.{WorkerInfo, ChatResponse}
use ai_fs.Gateway.Pipeline.{
  ClientJob, DispatchJob, JobResult, ConnWorker, waiting, picking, placing, Gateway, conn_queue_cap,
  dispatch_queue_cap, enqueue, conn_receive, picked, place, give_up, dispatch_receive, forwarded,
  Event, request_comes, conn_receives, picks, places, gives_up, dispatch_receives, forwards, happen,
}

abbrev pub of_job : ℕ → ClientJob → ℕ
of_job id job = if job.id == id then 1 else 0

abbrev pub of_result : ℕ → JobResult → ℕ
of_result id r = if r.id == id then 1 else 0

module _ {F : Type 0} where
  abbrev pub of_dispatch : ℕ → DispatchJob F → ℕ
  of_dispatch id job = if job.id == id then 1 else 0

  abbrev pub of_conn : ℕ → ConnWorker F → ℕ
  of_conn id waiting = 0
  of_conn id (picking job) = if job.id == id then 1 else 0
  of_conn id (placing job) = if job.id == id then 1 else 0

  abbrev pub of_forward : ℕ → Option (DispatchJob F) → ℕ
  of_forward id none = 0
  of_forward id (some job) = if job.id == id then 1 else 0

  -- How often request `id` stands in the gateway before its result.
  abbrev pub in_flight : ℕ → Gateway F → ℕ
  in_flight id g =
      sum (of_job id) g.conn_jobs
      + sum (of_conn id) g.conn_workers
      + sum (of_dispatch id) g.dispatch_jobs
      + sum (of_forward id) g.dispatch_workers

  abbrev pub answers : ℕ → Gateway F → ℕ
  answers id g = sum (of_result id) g.results

  abbrev pub is_accepted : ℕ → Gateway F → ℕ
  is_accepted id g = if ltb id g.accepted then 1 else 0

  pub record IsPlaced (g : Gateway F) : Type 0 where
    pub once : (id : ℕ) → in_flight id g + answers id g ≡ is_accepted id g
    pub conn_room : length g.conn_jobs ≤ conn_queue_cap
    pub dispatch_room : length g.dispatch_jobs ≤ dispatch_queue_cap

  enqueue-IsPlaced :
      (prompt : String) (g g' : Gateway F) → IsPlaced g → enqueue prompt g ≡ some g' → IsPlaced g'
  unfolding enqueue
  enqueue-IsPlaced prompt g g' v h =
      let job : ClientJob = record { id = g.accepted; prompt = prompt } in
      record {
        once = λ id. ground (arith, v.once id, sum-append (of_job id) g.conn_jobs (job ∷ []));
        conn_room = ground (arith, v.conn_room, length-append g.conn_jobs (job ∷ []));
        dispatch_room = ground (arith, v.dispatch_room);
      }

  conn_receive-IsPlaced :
      (k : ℕ) (g g' : Gateway F) (w : Option (ConnWorker F)) (jobs : List ClientJob)
      → IsPlaced g
      → get_elem? g.conn_workers k ≡ w
      → g.conn_jobs ≡ jobs
      → conn_receive k g ≡ some g'
      → IsPlaced g'
  unfolding conn_receive
  conn_receive-IsPlaced k g g' none jobs v e q h = ground arith
  conn_receive-IsPlaced k g g' (some (picking j)) jobs v e q h = ground arith
  conn_receive-IsPlaced k g g' (some (placing j)) jobs v e q h = ground arith
  conn_receive-IsPlaced k g g' (some waiting) [] v e q h = ground arith
  conn_receive-IsPlaced k g g' (some waiting) (job ∷ jobs) v e q h = record {
    once = λ id.
        ground (arith, v.once id, sum-set (of_conn id) g.conn_workers k waiting (picking job) e);
    conn_room = ground (arith, v.conn_room);
    dispatch_room = ground (arith, v.dispatch_room);
  }

  picked-IsPlaced :
      (k : ℕ) (answer : Option (WorkerInfo F)) (g g' : Gateway F) (w : Option (ConnWorker F))
      → IsPlaced g
      → get_elem? g.conn_workers k ≡ w
      → picked k answer g ≡ some g'
      → IsPlaced g'
  unfolding picked
  picked-IsPlaced k answer g g' none v e h = ground arith
  picked-IsPlaced k answer g g' (some waiting) v e h = ground arith
  picked-IsPlaced k answer g g' (some (placing j)) v e h = ground arith
  picked-IsPlaced k none g g' (some (picking job)) v e h = record {
    once = λ id.
        ground (arith, v.once id, sum-set (of_conn id) g.conn_workers k (picking job) waiting e);
    conn_room = ground (arith, v.conn_room);
    dispatch_room = ground (arith, v.dispatch_room);
  }
  picked-IsPlaced k (some worker) g g' (some (picking job)) v e h = record {
    once = λ id. ground (
      arith,
      v.once id,
      sum-set (of_conn id) g.conn_workers k (picking job)
          (placing (record { id = job.id; prompt = job.prompt; worker = worker })) e,
    );
    conn_room = ground (arith, v.conn_room);
    dispatch_room = ground (arith, v.dispatch_room);
  }

  place-IsPlaced :
      (k : ℕ) (g g' : Gateway F) (w : Option (ConnWorker F))
      → IsPlaced g
      → get_elem? g.conn_workers k ≡ w
      → place k g ≡ some g'
      → IsPlaced g'
  unfolding place
  place-IsPlaced k g g' none v e h = ground arith
  place-IsPlaced k g g' (some waiting) v e h = ground arith
  place-IsPlaced k g g' (some (picking j)) v e h = ground arith
  place-IsPlaced k g g' (some (placing job)) v e h = record {
    once = λ id. ground (
      arith,
      v.once id,
      sum-set (of_conn id) g.conn_workers k (placing job) waiting e,
      sum-append (of_dispatch id) g.dispatch_jobs (job ∷ []),
    );
    conn_room = ground (arith, v.conn_room);
    dispatch_room = ground (arith, v.dispatch_room, length-append g.dispatch_jobs (job ∷ []));
  }

  give_up-IsPlaced :
      (k : ℕ) (g g' : Gateway F) (w : Option (ConnWorker F))
      → IsPlaced g
      → get_elem? g.conn_workers k ≡ w
      → give_up k g ≡ some g'
      → IsPlaced g'
  unfolding give_up
  give_up-IsPlaced k g g' none v e h = ground arith
  give_up-IsPlaced k g g' (some waiting) v e h = ground arith
  give_up-IsPlaced k g g' (some (picking j)) v e h = ground arith
  give_up-IsPlaced k g g' (some (placing job)) v e h = record {
    once = λ id.
        ground (arith, v.once id, sum-set (of_conn id) g.conn_workers k (placing job) waiting e);
    conn_room = ground (arith, v.conn_room);
    dispatch_room = ground (arith, v.dispatch_room);
  }

  dispatch_receive-IsPlaced :
      (k : ℕ) (g g' : Gateway F) (w : Option (Option (DispatchJob F))) (jobs : List (DispatchJob F))
      → IsPlaced g
      → get_elem? g.dispatch_workers k ≡ w
      → g.dispatch_jobs ≡ jobs
      → dispatch_receive k g ≡ some g'
      → IsPlaced g'
  unfolding dispatch_receive
  dispatch_receive-IsPlaced k g g' none jobs v e q h = ground arith
  dispatch_receive-IsPlaced k g g' (some (some j)) jobs v e q h = ground arith
  dispatch_receive-IsPlaced k g g' (some none) [] v e q h = ground arith
  dispatch_receive-IsPlaced k g g' (some none) (job ∷ jobs) v e q h = record {
    once = λ id.
        ground (arith, v.once id, sum-set (of_forward id) g.dispatch_workers k none (some job) e);
    conn_room = ground (arith, v.conn_room);
    dispatch_room = ground (arith, v.dispatch_room);
  }

  forwarded-IsPlaced :
      (k : ℕ) (answer : Option ChatResponse) (g g' : Gateway F)
      (w : Option (Option (DispatchJob F)))
      → IsPlaced g
      → get_elem? g.dispatch_workers k ≡ w
      → forwarded k answer g ≡ some g'
      → IsPlaced g'
  unfolding forwarded
  forwarded-IsPlaced k answer g g' none v e h = ground arith
  forwarded-IsPlaced k answer g g' (some none) v e h = ground arith
  forwarded-IsPlaced k answer g g' (some (some job)) v e h = record {
    once = λ id.
        ground (arith, v.once id, sum-set (of_forward id) g.dispatch_workers k (some job) none e);
    conn_room = ground (arith, v.conn_room);
    dispatch_room = ground (arith, v.dispatch_room);
  }

  pub happen-IsPlaced :
      (e : Event F) (g g' : Gateway F) → IsPlaced g → happen e g ≡ some g' → IsPlaced g'
  unfolding happen
  happen-IsPlaced (request_comes prompt) g g' v h = enqueue-IsPlaced prompt g g' v h
  happen-IsPlaced (conn_receives k) g g' v h =
      conn_receive-IsPlaced k g g' (get_elem? g.conn_workers k) g.conn_jobs v refl refl h
  happen-IsPlaced (picks k answer) g g' v h =
      picked-IsPlaced k answer g g' (get_elem? g.conn_workers k) v refl h
  happen-IsPlaced (places k) g g' v h = place-IsPlaced k g g' (get_elem? g.conn_workers k) v refl h
  happen-IsPlaced (gives_up k) g g' v h =
      give_up-IsPlaced k g g' (get_elem? g.conn_workers k) v refl h
  happen-IsPlaced (dispatch_receives k) g g' v h =
      dispatch_receive-IsPlaced k g g' (get_elem? g.dispatch_workers k) g.dispatch_jobs v refl refl
        h
  happen-IsPlaced (forwards k answer) g g' v h =
      forwarded-IsPlaced k answer g g' (get_elem? g.dispatch_workers k) v refl h
