-- ===== src/Worker/Answers.antt =====
-- A call of `Submit` is answered for its own prompt.
use ai_fs.Prelude.{
  lt-length_of_get_elem?, ◌≢◌, ℕ, zero, suc, ◌+◌, ◌<◌, ◌≡◌, refl, sym, ◌∙◌, ap, subst, ◌⊎◌, inl,
  inr, String, Bool, true, false, if◌then◌else◌, ltb, Option, none, some, List, [], ◌∷◌, ◌++◌,
  length, get_elem?, set, arith, Among, length-append, length-set, get_elem?-set_cases, replicate,
  length-replicate, Bool-cases, Option-cases,
}
use ai_fs.Prelude.Dict.{◌==◌, nat_eq}
use ai_fs.Models.{ChatResponse}
use ai_fs.Worker.Backend.{Generated}
use ai_fs.Worker.Pool.{
  Task, TaskResult, Submit, offering, awaiting, returned, Pool, new_pool, submit, task_queued,
  give_up, result_of, task_done, task_starts, task_ends, stamp, Step, submits, queues, gives_up,
  is_done, starts, ends, Run, here, then_step,
}
use ai_fs.Worker.Owners.{
  task_of, Known, Known-append, Known-set, IsAnswer, IsGiven, IsOwned, marks-IsOwned, queue-IsOwned,
}

some_inj : {A : Type 0} {a b : A} → some a ≡ some b → b ≡ a
some_inj e = cc

-- What stands in a list that has grown by one.
last_of :
    {A : Type 0} (xs : List A) (x : A) (k : ℕ) (y : A)
    → get_elem? (xs ++ (x ∷ [])) k ≡ some y
    → (get_elem? xs k ≡ some y) ⊎ ((y ≡ x) × (k ≡ length xs))
last_of [] x zero y e = inr (ground arith, refl)
last_of [] x (suc k) y e = ground arith
last_of (z ∷ zs) x zero y e = inl e
last_of (z ∷ zs) x (suc k) y e = elim (last_of zs x k y e) [
  | inl f ↦ inl f
  | inr (q, at) ↦ inr (q, ap suc at)
]

module _ (generate : (now : ℕ) (prompt : String) → Generated) (worker_id : String)
    (gpu_count : ℕ) where
  abbrev Owned : Pool → Type 0
  Owned = IsOwned generate worker_id gpu_count

  marks :
      (p : Pool) (k : ℕ) (old new : Submit)
      → Owned p
      → get_elem? p.submits k ≡ some old
      → task_of new ≡ task_of old
      → IsGiven generate worker_id gpu_count new
      → Owned (record p { submits = set p.submits k new })
  marks = marks-IsOwned generate worker_id gpu_count

  queued_lem :
      (k : ℕ) (p p' : Pool) (call : Option Submit)
      → Owned p
      → get_elem? p.submits k ≡ call
      → task_queued k p ≡ some p'
      → Owned p'
  unfolding task_queued
  queued_lem k p p' none v e h = ground arith
  queued_lem k p p' (some (awaiting task)) v e h = ground arith
  queued_lem k p p' (some (returned task result)) v e h = ground arith
  queued_lem k p p' (some (offering task)) v e h =
      let marked = record p { submits = set p.submits k (awaiting task) } in
      let q : record marked { queue = p.queue ++ (task ∷ []) } ≡ p' = ground arith in
      let known : Known p.submits task =
        (k, v.numbered k (offering task) e, (offering task, e, refl)) in
      subst Owned q (
        queue-IsOwned generate worker_id gpu_count marked task
          (marks p k (offering task) (awaiting task) v e refl tt)
          (Known-set p.submits k (offering task) (awaiting task) task e refl known))

  give_up_lem :
      (k : ℕ) (p p' : Pool) (call : Option Submit)
      → Owned p
      → get_elem? p.submits k ≡ call
      → give_up k p ≡ some p'
      → Owned p'
  unfolding give_up
  give_up_lem k p p' none v e h = ground arith
  give_up_lem k p p' (some (awaiting task)) v e h =
      let q : record p { submits = set p.submits k (returned task none) } ≡ p' = ground arith in
      subst Owned q (marks p k (awaiting task) (returned task none) v e refl tt)
  give_up_lem k p p' (some (returned task result)) v e h = ground arith
  give_up_lem k p p' (some (offering task)) v e h =
      let q : record p { submits = set p.submits k (returned task none) } ≡ p' = ground arith in
      subst Owned q (marks p k (offering task) (returned task none) v e refl tt)

  result_of_lem :
      (id : ℕ) (rs : List TaskResult) (r : TaskResult)
      → result_of id rs ≡ some r
      → Among r rs × (r.task.id ≡ id)
  unfolding result_of
  result_of_lem id [] r h = ground arith
  result_of_lem id (x ∷ rs) r h = elim (Bool-cases (x.task.id == id)) [
    | inl t ↦ let q : x ≡ r = ground arith in (inl q, ground arith)
    | inr f ↦
        let rest : result_of id rs ≡ some r = ground arith in
        let (m, i) = result_of_lem id rs r rest in (inr m, i)
  ]

  -- The call that waits for a task is the one that a result of its number belongs to.
  same_task :
      (p : Pool) (k : ℕ) (task : Task) (r : TaskResult)
      → Owned p
      → get_elem? p.submits k ≡ some (awaiting task)
      → Known p.submits r.task
      → r.task.id ≡ task.id
      → r.task ≡ task
  same_task p k task r v e (j, i, (s, f, t)) q =
      let number = v.numbered k (awaiting task) e in
      let here : j ≡ k = omega arith in
      let is_awaiting : some s ≡ some (awaiting task) = sym f ∙ ap (get_elem? p.submits) here ∙ e in
      let s_is : s ≡ awaiting task = ground arith in sym t ∙ ap task_of s_is

  result-IsGiven :
      (task : Task) (ok : Bool) (resp : ChatResponse)
      → IsAnswer generate worker_id gpu_count task.prompt ok resp
      → IsGiven generate worker_id gpu_count (returned task (if ok then some resp else none))
  result-IsGiven task true resp a = a
  result-IsGiven task false resp a = tt

  done_lem :
      (k : ℕ) (p p' : Pool) (call : Option Submit)
      → Owned p
      → get_elem? p.submits k ≡ call
      → task_done k p ≡ some p'
      → Owned p'
  unfolding task_done
  done_lem k p p' none v e h = ground arith
  done_lem k p p' (some (offering task)) v e h = ground arith
  done_lem k p p' (some (returned task result)) v e h = ground arith
  done_lem k p p' (some (awaiting task)) v e h = elim (Option-cases (result_of task.id p.results)) [
    | inl nothing ↦ ground arith
    | inr (r, got) ↦
        let (m, i) = result_of_lem task.id p.results r got in
        let mine = same_task p k task r v e (v.owned_result r m) i in
        let given = result-IsGiven task r.ok r.response (
          subst (λ t. IsAnswer generate worker_id gpu_count t.prompt r.ok r.response) mine
            (v.answered r m)) in
        let end = returned task (if r.ok then some r.response else none) in
        let q : record p { submits = set p.submits k end } ≡ p' = ground arith in
        subst Owned q (marks p k (awaiting task) end v e refl given)
  ]

  starts_lem :
      (g : ℕ) (p p' : Pool) (slot : Option (Option Task)) (tasks : List Task)
      → Owned p
      → get_elem? p.gpus g ≡ slot
      → p.queue ≡ tasks
      → task_starts g p ≡ some p'
      → Owned p'
  unfolding task_starts
  starts_lem g p p' none tasks v e q h = ground arith
  starts_lem g p p' (some (some busy)) tasks v e q h = ground arith
  starts_lem g p p' (some none) [] v e q h = ground arith
  starts_lem g p p' (some none) (task ∷ tasks) v e q h =
      let same : record p { queue = tasks; gpus = set p.gpus g (some task) } ≡ p' = ground arith in
      let among =
        λ (t : Task) (m : Among t (task ∷ tasks)). v.queued t (subst (Among t) (sym q) m) in
      subst Owned same (record {
        same_worker = v.same_worker;
        same_gpus = length-set p.gpus g (some task) ∙ v.same_gpus;
        counted = v.counted;
        numbered = v.numbered;
        given = v.given;
        queued = λ t m. among t (inr m);
        running = λ j t f. elim (get_elem?-set_cases p.gpus g j (some task) (some t) f) [
          | inl new ↦ among t (inl (some_inj new))
          | inr old ↦ v.running j t old
        ];
        owned_result = v.owned_result;
        answered = v.answered;
      })

  ends_lem :
      (g now : ℕ) (p p' : Pool) (slot : Option (Option Task))
      → Owned p
      → get_elem? p.gpus g ≡ slot
      → task_ends generate g now p ≡ some p'
      → Owned p'
  unfolding task_ends
  ends_lem g now p p' none v e h = ground arith
  ends_lem g now p p' (some none) v e h = ground arith
  ends_lem g now p p' (some (some task)) v e h =
      let answer = generate now task.prompt in
      let r : TaskResult = record {
        task = task;
        response = stamp p.worker_id g answer.response;
        ok = answer.ok;
      } in
      let same : record p { gpus = set p.gpus g none; results = r ∷ p.results } ≡ p' =
        ground arith in
      let on_gpu = lt-length_of_get_elem? p.gpus g (some task) e in
      subst Owned same (record {
        same_worker = v.same_worker;
        same_gpus = length-set p.gpus g none ∙ v.same_gpus;
        counted = v.counted;
        numbered = v.numbered;
        given = v.given;
        queued = v.queued;
        running = λ j t f. elim (get_elem?-set_cases p.gpus g j none (some t) f) [
          | inl new ↦ ground arith
          | inr old ↦ v.running j t old
        ];
        owned_result = λ x m. elim m [
          | inl q ↦ subst (λ y. Known p.submits y.task) q (v.running g task e)
          | inr m' ↦ v.owned_result x m'
        ];
        answered = λ x m. elim m [
          | inl q ↦
              subst (λ y. IsAnswer generate worker_id gpu_count y.task.prompt y.ok y.response) q
                (record {
                  now = now;
                  gpu_id = g;
                  on_gpu = subst (λ n. g < n) v.same_gpus on_gpu;
                  outcome = refl;
                  stamped = ap (λ w. stamp w g answer.response) v.same_worker;
                })
          | inr m' ↦ v.answered x m'
        ];
      })

  submit_lem : (prompt : String) (p : Pool) → Owned p → Owned (submit prompt p)
  unfolding submit
  submit_lem prompt p v =
      let task : Task = record { id = p.seq + 1; prompt = prompt } in
      let more = offering task ∷ [] in
      record {
        same_worker = v.same_worker;
        same_gpus = v.same_gpus;
        counted = omega (arith, v.counted, length-append p.submits more);
        numbered = λ k s f. elim (last_of p.submits (offering task) k s f) [
          | inl old ↦ v.numbered k s old
          | inr (q, at) ↦ grind (arith, q, at, v.counted)
        ];
        given = λ k s f. elim (last_of p.submits (offering task) k s f) [
          | inl old ↦ v.given k s old
          | inr (q, at) ↦ subst (IsGiven generate worker_id gpu_count) (sym q) tt
        ];
        queued = λ t m. Known-append p.submits more t (v.queued t m);
        running = λ g t f. Known-append p.submits more t (v.running g t f);
        owned_result = λ r m. Known-append p.submits more r.task (v.owned_result r m);
        answered = v.answered;
      }

  step_lem : (p p' : Pool) → Owned p → Step generate p p' → Owned p'
  step_lem p p' v (submits prompt q) = subst Owned (sym q) (submit_lem prompt p v)
  step_lem p p' v (queues k h) = queued_lem k p p' (get_elem? p.submits k) v refl h
  step_lem p p' v (gives_up k h) = give_up_lem k p p' (get_elem? p.submits k) v refl h
  step_lem p p' v (is_done k h) = done_lem k p p' (get_elem? p.submits k) v refl h
  step_lem p p' v (starts g h) = starts_lem g p p' (get_elem? p.gpus g) p.queue v refl refl h
  step_lem p p' v (ends g now h) = ends_lem g now p p' (get_elem? p.gpus g) v refl h

-- The pool has a GPU at least.
abbrev pub gpus_of : ℕ → ℕ
gpus_of gpu_count = if ltb gpu_count 1 then 1 else gpu_count

module _ (generate : (now : ℕ) (prompt : String) → Generated) (worker_id : String)
    (gpu_count : ℕ) where
  no_task :
      (n k : ℕ) (slot : Option Task) (t : Task)
      → slot ≡ none
      → get_elem? (replicate n slot) k ≢ some (some t)
  no_task zero k slot t q e = ground arith
  no_task (suc n) zero slot t q e = ground arith
  no_task (suc n) (suc k) slot t q e = no_task n k slot t q e

  new_pool-IsOwned : IsOwned generate worker_id (gpus_of gpu_count) (new_pool worker_id gpu_count)
  unfolding new_pool
  new_pool-IsOwned =
      let slot : Option Task = none in
      record {
        same_worker = refl;
        same_gpus = length-replicate (gpus_of gpu_count) slot;
        counted = refl;
        numbered = λ k s f. ground arith;
        given = λ k s f. ground arith;
        queued = λ t m. elim m [ ];
        running = λ g t f. absurd (no_task (gpus_of gpu_count) g slot t refl f);
        owned_result = λ r m. elim m [ ];
        answered = λ r m. elim m [ ];
      }

  -- Whatever happens in the pool, in whatever order: where a call of `Submit` has returned a
  -- response, the backend gave it for the prompt of that call, without an error, and it has the
  -- number of a GPU of the pool and, if the backend named no worker, the worker's own name.
  pub submit_answers_own_prompt :
      (p : Pool) (k : ℕ) (task : Task) (resp : ChatResponse)
      → Run generate (new_pool worker_id gpu_count) p
      → get_elem? p.submits k ≡ some (returned task (some resp))
      → (task.id ≡ suc k) × IsAnswer generate worker_id (gpus_of gpu_count) task.prompt true resp
  submit_answers_own_prompt p k task resp run e =
      let v = go run in
      (v.numbered k (returned task (some resp)) e, v.given k (returned task (some resp)) e)
    where
      go :
          {q : Pool}
          → Run generate (new_pool worker_id gpu_count) q
          → IsOwned generate worker_id (gpus_of gpu_count) q
      go here = new_pool-IsOwned
      go (then_step {q = before} {r = after} run step) =
          step_lem generate worker_id (gpus_of gpu_count) before after (go run) step
