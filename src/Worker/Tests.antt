-- ===== src/Worker/Tests.antt =====
-- A task on its way through a pool of one GPU.
use ai_fs.Prelude.{ℕ, ◌≡◌, refl, String, true, none, some, [], ◌∷◌}
use ai_fs.Models.{ChatResponse}
use ai_fs.Worker.Backend.{Generated, mock_generate}
use ai_fs.Worker.Pool.{
  Task, Pool, offering, awaiting, returned, new_pool, submit, task_queued, task_starts, task_ends,
  task_done, result_of, stamp, Run, here, then_step, submits, queues, starts, ends, is_done,
}
use ai_fs.Worker.Owners.{IsAnswer}
use ai_fs.Worker.Answers.{gpus_of, submit_answers_own_prompt}

abbrev mock : (now : ℕ) (prompt : String) → Generated
mock now prompt = mock_generate (λ s. s) "" true prompt

abbrev task : Task
task = record { id = 1; prompt = "hi" }

abbrev answer : ChatResponse
answer = record { reply = "hi"; worker_id = "w"; gpu_id = 0 }

abbrev p1 : Pool
p1 = record {
  worker_id = "w";
  seq = 1;
  submits = offering task ∷ [];
  queue = [];
  gpus = none ∷ [];
  results = [];
}

abbrev p2 : Pool
p2 = record p1 { submits = awaiting task ∷ []; queue = task ∷ [] }

abbrev p3 : Pool
p3 = record p2 { queue = []; gpus = some task ∷ [] }

abbrev p4 : Pool
p4 = record p3 {
  gpus = none ∷ [];
  results = record { task = task; response = answer; ok = true } ∷ [];
}

abbrev p5 : Pool
p5 = record p4 { submits = returned task (some answer) ∷ [] }

submitted : p1 ≡ submit "hi" (new_pool "w" 1)
unfolding submit new_pool
submitted = refl

queued : task_queued 0 p1 ≡ some p2
unfolding task_queued
queued = refl

started : task_starts 0 p2 ≡ some p3
unfolding task_starts
started = refl

ended : task_ends mock 0 7 p3 ≡ some p4
unfolding task_ends stamp mock_generate
ended = refl

finished : task_done 0 p4 ≡ some p5
unfolding task_done result_of
finished = refl

second-Run : Run mock (new_pool "w" 1) p2
second-Run = then_step (then_step here (submits "hi" submitted)) (queues 0 queued)

third-Run : Run mock (new_pool "w" 1) p3
third-Run = then_step second-Run (starts 0 started)

fourth-Run : Run mock (new_pool "w" 1) p4
fourth-Run = then_step third-Run (ends 0 7 ended)

fifth-Run : Run mock (new_pool "w" 1) p5
fifth-Run = then_step fourth-Run (is_done 0 finished)

submit_answers_own_prompt_example : ◌≡◌ {A = ℕ} 1 1 × IsAnswer mock "w" (gpus_of 1) "hi" true answer
submit_answers_own_prompt_example =
    submit_answers_own_prompt mock "w" 1 p5 0 task answer fifth-Run refl
