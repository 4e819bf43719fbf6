-- ===== src/Gateway/Pipeline.antt =====
-- gateway/gateway.go: the queues of the gateway, and the goroutines that serve them. What the
-- controller and a worker answer comes with the event.
use ai_fs.Prelude.{
  ℕ, ◌+◌, ◌≡◌, String, ltb, if◌then◌else◌, Option, none, some, List, [], ◌∷◌, ◌++◌, length,
  get_elem?, set, replicate,
}
use ai_fs.Models.{WorkerInfo, ChatResponse}

abbrev pub conn_queue_cap : ℕ
conn_queue_cap = 256

abbrev pub dispatch_queue_cap : ℕ
dispatch_queue_cap = 1024

-- `id` stands for the job's own result channel.
pub record ClientJob : Type 0 where
  pub id : ℕ
  pub prompt : String

pub record DispatchJob (F : Type 0) : Type 0 where
  pub id : ℕ
  pub prompt : String
  pub worker : WorkerInfo F

-- `none` is an error.
pub record JobResult : Type 0 where
  pub id : ℕ
  pub resp : Option ChatResponse

-- Where a goroutine `connWorker` stands.
pub data ConnWorker (F : Type 0) : Type 0 where
  waiting : ConnWorker F  -- for a job
  picking : ClientJob → ConnWorker F  -- in `pickWorker`
  placing : DispatchJob F → ConnWorker F  -- in the `select` for the second queue

-- `accepted` counts the requests that have been queued; `results` are the results sent.
pub record Gateway (F : Type 0) : Type 0 where
  pub accepted : ℕ
  pub conn_jobs : List ClientJob
  pub conn_workers : List (ConnWorker F)
  pub dispatch_jobs : List (DispatchJob F)
  pub dispatch_workers : List (Option (DispatchJob F))
  pub results : List JobResult

module _ {F : Type 0} where
  unfoldable pub new_gateway : (conn_pool_size dispatch_pool_size : ℕ) → Gateway F
  new_gateway conn_pool_size dispatch_pool_size = record {
    accepted = 0;
    conn_jobs = [];
    conn_workers = replicate (if ltb conn_pool_size 1 then 32 else conn_pool_size) waiting;
    dispatch_jobs = [];
    dispatch_workers = replicate (if ltb dispatch_pool_size 1 then 32 else dispatch_pool_size) none;
    results = [];
  }

  -- `HandleChat` queues a request. A full queue blocks it, until it gives up with 503.
  unfoldable pub enqueue : (prompt : String) → Gateway F → Option (Gateway F)
  enqueue prompt g =
      if ltb (length g.conn_jobs) conn_queue_cap
      then some (record g {
        accepted = g.accepted + 1;
        conn_jobs = g.conn_jobs ++ (record { id = g.accepted; prompt = prompt } ∷ []);
      })
      else none

  -- Worker `k` of the first layer receives a job.
  unfoldable pub conn_receive : (k : ℕ) → Gateway F → Option (Gateway F)
  conn_receive k g = elim (get_elem? g.conn_workers k) [
    | none ↦ none
    | some w ↦ elim w [
      | picking job ↦ none
      | placing job ↦ none
      | waiting ↦ elim g.conn_jobs [
        | [] ↦ none
        | job ∷ jobs ↦
            some (record g { conn_jobs = jobs; conn_workers = set g.conn_workers k (picking job) })
      ]
    ]
  ]

  -- `pickWorker` returns; an error is the job's result.
  unfoldable pub picked : (k : ℕ) → Option (WorkerInfo F) → Gateway F → Option (Gateway F)
  picked k answer g = elim (get_elem? g.conn_workers k) [
    | none ↦ none
    | some w ↦ elim w [
      | waiting ↦ none
      | placing job ↦ none
      | picking job ↦ some (elim answer [
        | none ↦ record g {
          conn_workers = set g.conn_workers k waiting;
          results = record { id = job.id; resp = none } ∷ g.results;
        }
        | some worker ↦ record g {
          conn_workers =
              set g.conn_workers k
                (placing (record { id = job.id; prompt = job.prompt; worker = worker }));
        }
      ])
    ]
  ]

  -- The job goes into the second queue, if there is room.
  unfoldable pub place : (k : ℕ) → Gateway F → Option (Gateway F)
  place k g = elim (get_elem? g.conn_workers k) [
    | none ↦ none
    | some w ↦ elim w [
      | waiting ↦ none
      | picking job ↦ none
      | placing job ↦
          if ltb (length g.dispatch_jobs) dispatch_queue_cap
          then some (record g {
            conn_workers = set g.conn_workers k waiting;
            dispatch_jobs = g.dispatch_jobs ++ (job ∷ []);
          })
          else none
    ]
  ]

  -- The `select` times out: "dispatch queue full".
  unfoldable pub give_up : (k : ℕ) → Gateway F → Option (Gateway F)
  give_up k g = elim (get_elem? g.conn_workers k) [
    | none ↦ none
    | some w ↦ elim w [
      | waiting ↦ none
      | picking job ↦ none
      | placing job ↦ some (record g {
        conn_workers = set g.conn_workers k waiting;
        results = record { id = job.id; resp = none } ∷ g.results;
      })
    ]
  ]

  unfoldable pub dispatch_receive : (k : ℕ) → Gateway F → Option (Gateway F)
  dispatch_receive k g = elim (get_elem? g.dispatch_workers k) [
    | none ↦ none
    | some w ↦ elim w [
      | some job ↦ none
      | none ↦ elim g.dispatch_jobs [
        | [] ↦ none
        | job ∷ jobs ↦ some (record g {
          dispatch_jobs = jobs;
          dispatch_workers = set g.dispatch_workers k (some job);
        })
      ]
    ]
  ]

  -- `forwardToWorker` returns.
  unfoldable pub forwarded : (k : ℕ) → Option ChatResponse → Gateway F → Option (Gateway F)
  forwarded k answer g = elim (get_elem? g.dispatch_workers k) [
    | none ↦ none
    | some w ↦ elim w [
      | none ↦ none
      | some job ↦ some (record g {
        dispatch_workers = set g.dispatch_workers k none;
        results = record { id = job.id; resp = answer } ∷ g.results;
      })
    ]
  ]

-- The status with which `HandleChat` ends, with the result that it waited for.
unfoldable pub chat_status : Option ChatResponse → ℕ
chat_status none = 502
chat_status (some resp) = 200

-- What may happen in the gateway. `none` as the result says that it cannot happen now.
pub data Event (F : Type 0) : Type 0 where
  request_comes : (prompt : String) → Event F
  conn_receives : (k : ℕ) → Event F
  picks : (k : ℕ) → Option (WorkerInfo F) → Event F
  places : (k : ℕ) → Event F
  gives_up : (k : ℕ) → Event F
  dispatch_receives : (k : ℕ) → Event F
  forwards : (k : ℕ) → Option ChatResponse → Event F

unfoldable pub happen : {F : Type 0} → Event F → Gateway F → Option (Gateway F)
unfolding enqueue conn_receive picked place give_up dispatch_receive forwarded
happen (request_comes prompt) g = enqueue prompt g
happen (conn_receives k) g = conn_receive k g
happen (picks k answer) g = picked k answer g
happen (places k) g = place k g
happen (gives_up k) g = give_up k g
happen (dispatch_receives k) g = dispatch_receive k g
happen (forwards k answer) g = forwarded k answer g

pub data Run {F : Type 0} (g : Gateway F) : Gateway F → Type 0 where
  here : Run g g
  then_event : {h i : Gateway F} → Run g h → (e : Event F) → happen e h ≡ some i → Run g i
