-- ===== src/Worker/Pool.antt =====
-- worker/pool.go: the queue of a worker, the goroutines of its GPUs, and the calls of `Submit`.
use ai_fs.Prelude.{
  ℕ, ◌+◌, ◌≡◌, String, Bool, if◌then◌else◌, ltb, Option, none, some, List, [], ◌∷◌, ◌++◌, length,
  get_elem?, set, replicate,
}
use ai_fs.Prelude.Dict.{◌==◌, nat_eq, string_eq}
use ai_fs.Models.{ChatResponse}
use ai_fs.Worker.Backend.{Generated}

abbrev pub default_queue_cap : ℕ
default_queue_cap = 1024

-- The number stands for the task's ID and for its own channel `Done`.
pub record Task : Type 0 where
  pub id : ℕ
  pub prompt : String

pub record TaskResult : Type 0 where
  pub task : Task
  pub response : ChatResponse
  pub ok : Bool

-- Where a call of `Submit` stands: at its first `select`, at its second, or at its end.
pub data Submit : Type 0 where
  offering : Task → Submit
  awaiting : Task → Submit
  returned : Task → Option ChatResponse → Submit

-- `results` are those that were sent.
pub record Pool : Type 0 where
  pub worker_id : String
  pub seq : ℕ
  pub submits : List Submit
  pub queue : List Task
  pub gpus : List (Option Task)
  pub results : List TaskResult

unfoldable pub new_pool : (worker_id : String) (gpu_count : ℕ) → Pool
new_pool worker_id gpu_count = record {
  worker_id = worker_id;
  seq = 0;
  submits = [];
  queue = [];
  gpus = replicate (if ltb gpu_count 1 then 1 else gpu_count) none;
  results = [];
}

-- A call of `Submit` takes its number.
unfoldable pub submit : (prompt : String) → Pool → Pool
submit prompt p = record p {
  seq = p.seq + 1;
  submits = p.submits ++ (offering (record { id = p.seq + 1; prompt = prompt }) ∷ []);
}

-- Its task goes into the queue, if there is room.
unfoldable pub task_queued : (k : ℕ) → Pool → Option Pool
task_queued k p = elim (get_elem? p.submits k) [
  | none ↦ none
  | some s ↦ elim s [
    | awaiting task ↦ none
    | returned task result ↦ none
    | offering task ↦
        if ltb (length p.queue) default_queue_cap
        then some
            (record p { submits = set p.submits k (awaiting task); queue = p.queue ++ (task ∷ []) })
        else none
  ]
]

-- The time for a place in the queue is over, or the context is done.
unfoldable pub give_up : (k : ℕ) → Pool → Option Pool
give_up k p = elim (get_elem? p.submits k) [
  | none ↦ none
  | some s ↦ elim s [
    | offering task ↦ some (record p { submits = set p.submits k (returned task none) })
    | awaiting task ↦ some (record p { submits = set p.submits k (returned task none) })
    | returned task result ↦ none
  ]
]

-- The first result of a task.
unfoldable pub result_of : (id : ℕ) → List TaskResult → Option TaskResult
result_of id [] = none
result_of id (r ∷ rs) = let rest = result_of id rs in if r.task.id == id then some r else rest

unfoldable pub task_done : (k : ℕ) → Pool → Option Pool
unfolding result_of
task_done k p = elim (get_elem? p.submits k) [
  | none ↦ none
  | some s ↦ elim s [
    | offering task ↦ none
    | returned task result ↦ none
    | awaiting task ↦ elim (result_of task.id p.results) [
      | none ↦ none
      | some r ↦ some (record p {
        submits = set p.submits k (returned task (if r.ok then some r.response else none));
      })
    ]
  ]
]

-- The goroutine of a GPU receives a task.
unfoldable pub task_starts : (gpu_id : ℕ) → Pool → Option Pool
task_starts gpu_id p = elim (get_elem? p.gpus gpu_id) [
  | none ↦ none
  | some slot ↦ elim slot [
    | some busy ↦ none
    | none ↦ elim p.queue [
      | [] ↦ none
      | task ∷ tasks ↦ some (record p { queue = tasks; gpus = set p.gpus gpu_id (some task) })
    ]
  ]
]

unfoldable pub stamp : (worker_id : String) (gpu_id : ℕ) → ChatResponse → ChatResponse
stamp worker_id gpu_id resp = record resp {
  worker_id = if resp.worker_id == "" then worker_id else resp.worker_id;
  gpu_id = gpu_id;
}

-- The backend, as what a call returns, which may differ from one time to the next.
module _ (generate : (now : ℕ) (prompt : String) → Generated) where
  unfoldable pub task_ends : (gpu_id now : ℕ) → Pool → Option Pool
  unfolding stamp
  task_ends gpu_id now p = elim (get_elem? p.gpus gpu_id) [
    | none ↦ none
    | some slot ↦ elim slot [
      | none ↦ none
      | some task ↦
          let answer = generate now task.prompt in
          some (record p {
            gpus = set p.gpus gpu_id none;
            results =
                record {
                  task = task;
                  response = stamp p.worker_id gpu_id answer.response;
                  ok = answer.ok;
                }
                ∷ p.results;
          })
    ]
  ]

  -- What may happen in the pool, in any order.
  pub data Step (p p' : Pool) : Type 0 where
    submits : (prompt : String) → p' ≡ submit prompt p → Step p p'
    queues : (k : ℕ) → task_queued k p ≡ some p' → Step p p'
    gives_up : (k : ℕ) → give_up k p ≡ some p' → Step p p'
    is_done : (k : ℕ) → task_done k p ≡ some p' → Step p p'
    starts : (gpu_id : ℕ) → task_starts gpu_id p ≡ some p' → Step p p'
    ends : (gpu_id now : ℕ) → task_ends gpu_id now p ≡ some p' → Step p p'

  pub data Run (p : Pool) : Pool → Type 0 where
    here : Run p p
    then_step : {q r : Pool} → Run p q → Step q r → Run p r
