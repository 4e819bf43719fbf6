-- ===== src/Gateway/Work.antt =====
-- How much work is left in the gateway: each event but the arrival of a request lowers it.
use ai_fs.Prelude.{
  ℕ, ◌+◌, ◌*◌, ◌<◌, ◌≡◌, refl, Option, none, some, List, [], ◌∷◌, length, length-append, get_elem?,
  arith,
}
use ai_fs.Prelude.Dict.{nat_eq}
use ai_fs.Prelude.Sums.{sum, sum-set}
use ai_fs.Models.{WorkerInfo, ChatResponse}
use ai_fs.Gateway.Pipeline.{
  ClientJob, DispatchJob, ConnWorker, waiting, picking, placing, Gateway, conn_receive, picked,
  place, give_up, dispatch_receive, forwarded, Event, request_comes, conn_receives, picks, places,
  gives_up, dispatch_receives, forwards, happen,
}

module _ {F : Type 0} where
  -- How many events a worker's job still needs, at most.
  abbrev pub conn_work : ConnWorker F → ℕ
  conn_work waiting = 0
  conn_work (picking job) = 4
  conn_work (placing job) = 3

  abbrev pub forward_work : Option (DispatchJob F) → ℕ
  forward_work none = 0
  forward_work (some job) = 1

  abbrev pub work : Gateway F → ℕ
  work g =
      5 * length g.conn_jobs
      + sum conn_work g.conn_workers
      + 2 * length g.dispatch_jobs
      + sum forward_work g.dispatch_workers

  -- All that happens but the arrival of a request.
  abbrev pub IsInternal : Event F → Type 0
  IsInternal (request_comes prompt) = ⊥
  IsInternal _ = Unit {0}

  conn_receive_works :
      (k : ℕ) (g g' : Gateway F) (w : Option (ConnWorker F)) (jobs : List ClientJob)
      → get_elem? g.conn_workers k ≡ w
      → g.conn_jobs ≡ jobs
      → conn_receive k g ≡ some g'
      → work g' < work g
  unfolding conn_receive
  conn_receive_works k g g' none jobs e q h = ground arith
  conn_receive_works k g g' (some (picking j)) jobs e q h = ground arith
  conn_receive_works k g g' (some (placing j)) jobs e q h = ground arith
  conn_receive_works k g g' (some waiting) [] e q h = ground arith
  conn_receive_works k g g' (some waiting) (job ∷ jobs) e q h =
      ground (arith, sum-set conn_work g.conn_workers k waiting (picking job) e)

  picked_works :
      (k : ℕ) (answer : Option (WorkerInfo F)) (g g' : Gateway F) (w : Option (ConnWorker F))
      → get_elem? g.conn_workers k ≡ w
      → picked k answer g ≡ some g'
      → work g' < work g
  unfolding picked
  picked_works k answer g g' none e h = ground arith
  picked_works k answer g g' (some waiting) e h = ground arith
  picked_works k answer g g' (some (placing j)) e h = ground arith
  picked_works k none g g' (some (picking job)) e h =
      ground (arith, sum-set conn_work g.conn_workers k (picking job) waiting e)
  picked_works k (some worker) g g' (some (picking job)) e h = ground (
    arith,
    sum-set conn_work g.conn_workers k (picking job)
        (placing (record { id = job.id; prompt = job.prompt; worker = worker })) e,
  )

  place_works :
      (k : ℕ) (g g' : Gateway F) (w : Option (ConnWorker F))
      → get_elem? g.conn_workers k ≡ w
      → place k g ≡ some g'
      → work g' < work g
  unfolding place
  place_works k g g' none e h = ground arith
  place_works k g g' (some waiting) e h = ground arith
  place_works k g g' (some (picking j)) e h = ground arith
  place_works k g g' (some (placing job)) e h = ground (
    arith,
    sum-set conn_work g.conn_workers k (placing job) waiting e,
    length-append g.dispatch_jobs (job ∷ []),
  )

  give_up_works :
      (k : ℕ) (g g' : Gateway F) (w : Option (ConnWorker F))
      → get_elem? g.conn_workers k ≡ w
      → give_up k g ≡ some g'
      → work g' < work g
  unfolding give_up
  give_up_works k g g' none e h = ground arith
  give_up_works k g g' (some waiting) e h = ground arith
  give_up_works k g g' (some (picking j)) e h = ground arith
  give_up_works k g g' (some (placing job)) e h =
      ground (arith, sum-set conn_work g.conn_workers k (placing job) waiting e)

  dispatch_receive_works :
      (k : ℕ) (g g' : Gateway F) (w : Option (Option (DispatchJob F))) (jobs : List (DispatchJob F))
      → get_elem? g.dispatch_workers k ≡ w
      → g.dispatch_jobs ≡ jobs
      → dispatch_receive k g ≡ some g'
      → work g' < work g
  unfolding dispatch_receive
  dispatch_receive_works k g g' none jobs e q h = ground arith
  dispatch_receive_works k g g' (some (some j)) jobs e q h = ground arith
  dispatch_receive_works k g g' (some none) [] e q h = ground arith
  dispatch_receive_works k g g' (some none) (job ∷ jobs) e q h =
      ground (arith, sum-set forward_work g.dispatch_workers k none (some job) e)

  forwarded_works :
      (k : ℕ) (answer : Option ChatResponse) (g g' : Gateway F)
      (w : Option (Option (DispatchJob F)))
      → get_elem? g.dispatch_workers k ≡ w
      → forwarded k answer g ≡ some g'
      → work g' < work g
  unfolding forwarded
  forwarded_works k answer g g' none e h = ground arith
  forwarded_works k answer g g' (some none) e h = ground arith
  forwarded_works k answer g g' (some (some job)) e h =
      ground (arith, sum-set forward_work g.dispatch_workers k (some job) none e)

  pub happen_works :
      (e : Event F) (g g' : Gateway F) → IsInternal e → happen e g ≡ some g' → work g' < work g
  unfolding happen
  happen_works (request_comes prompt) g g' i h = absurd i
  happen_works (conn_receives k) g g' i h =
      conn_receive_works k g g' (get_elem? g.conn_workers k) g.conn_jobs refl refl h
  happen_works (picks k answer) g g' i h =
      picked_works k answer g g' (get_elem? g.conn_workers k) refl h
  happen_works (places k) g g' i h = place_works k g g' (get_elem? g.conn_workers k) refl h
  happen_works (gives_up k) g g' i h = give_up_works k g g' (get_elem? g.conn_workers k) refl h
  happen_works (dispatch_receives k) g g' i h =
      dispatch_receive_works k g g' (get_elem? g.dispatch_workers k) g.dispatch_jobs refl refl h
  happen_works (forwards k answer) g g' i h =
      forwarded_works k answer g g' (get_elem? g.dispatch_workers k) refl h
