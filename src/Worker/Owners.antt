-- ===== src/Worker/Owners.antt =====
-- Every task in the pool is that of the call of `Submit` with its number.
use ai_fs.Prelude.{
  lt-length_of_get_elem?, ℕ, suc, ◌<◌, ◌≡◌, sym, ◌∙◌, subst, ◌⊎◌, inl, inr, String, Bool, true,
  none, some, List, [], ◌∷◌, ◌++◌, length, get_elem?, set, arith, ℕ_discrete, Among, length-set,
  get_elem?-append_left, get_elem?-set_self, get_elem?-set_ne, get_elem?-set_cases,
}
use ai_fs.Models.{ChatResponse}
use ai_fs.Worker.Backend.{Generated}
use ai_fs.Worker.Pool.{Task, TaskResult, Submit, offering, awaiting, returned, Pool, stamp}

abbrev pub task_of : Submit → Task
task_of (offering task) = task
task_of (awaiting task) = task
task_of (returned task result) = task

-- Call `k` has the number `k + 1`, and the task is its.
abbrev pub Known : List Submit → Task → Type 0
Known calls task =
    (k : ℕ) × (task.id ≡ suc k) × ((s : Submit) × (get_elem? calls k ≡ some s) × (task_of s ≡ task))

pub Known-append :
    (calls more : List Submit) (task : Task) → Known calls task → Known (calls ++ more) task
Known-append calls more task (k, i, (s, e, t)) =
    (k, i, (s, get_elem?-append_left calls more k (lt-length_of_get_elem? calls k s e) ∙ e, t))

-- A call goes on with its task.
pub Known-set :
    (calls : List Submit) (k : ℕ) (old new : Submit) (task : Task)
    → get_elem? calls k ≡ some old
    → task_of new ≡ task_of old
    → Known calls task
    → Known (set calls k new) task
Known-set calls k old new task e same (j, i, (s, f, t)) = elim (ℕ_discrete k j) [
  | yes q ↦ (
    j,
    i,
    (
      new,
      subst (λ x. get_elem? (set calls k new) x ≡ some new) q
          (get_elem?-set_self calls k new (lt-length_of_get_elem? calls k old e)),
      grind (arith, q),
    ),
  )
  | no d ↦ (j, i, (s, get_elem?-set_ne calls new d ∙ f, t))
]

pub Among-append :
    {A : Type 0} (a x : A) (xs : List A) → Among a (xs ++ (x ∷ [])) → Among a xs ⊎ (x ≡ a)
Among-append a x [] (inl e) = inr e
Among-append a x [] (inr m) = inl m
Among-append a x (y ∷ ys) (inl e) = inl (inl e)
Among-append a x (y ∷ ys) (inr m) = elim (Among-append a x ys m) [
  | inl n ↦ inl (inr n)
  | inr e ↦ inr e
]

module _ (generate : (now : ℕ) (prompt : String) → Generated) (worker_id : String)
    (gpu_count : ℕ) where
  -- The backend answered the prompt, and a GPU of the pool put its number and the worker's name on.
  pub record IsAnswer (prompt : String) (ok : Bool) (resp : ChatResponse) : Type 0 where
    pub now : ℕ
    pub gpu_id : ℕ
    pub on_gpu : gpu_id < gpu_count
    pub outcome : (generate now prompt).ok ≡ ok
    pub stamped : resp ≡ stamp worker_id gpu_id (generate now prompt).response

  abbrev pub IsGiven : Submit → Type 0
  IsGiven (offering task) = Unit {0}
  IsGiven (awaiting task) = Unit {0}
  IsGiven (returned task none) = Unit {0}
  IsGiven (returned task (some resp)) = IsAnswer task.prompt true resp

  pub record IsOwned (p : Pool) : Type 0 where
    pub same_worker : p.worker_id ≡ worker_id
    pub same_gpus : length p.gpus ≡ gpu_count
    pub counted : length p.submits ≡ p.seq
    pub numbered : (k : ℕ) (s : Submit) → get_elem? p.submits k ≡ some s → (task_of s).id ≡ suc k
    pub given : (k : ℕ) (s : Submit) → get_elem? p.submits k ≡ some s → IsGiven s
    pub queued : (t : Task) → Among t p.queue → Known p.submits t
    pub running : (g : ℕ) (t : Task) → get_elem? p.gpus g ≡ some (some t) → Known p.submits t
    pub owned_result : (r : TaskResult) → Among r p.results → Known p.submits r.task
    pub answered : (r : TaskResult) → Among r p.results → IsAnswer r.task.prompt r.ok r.response

  -- A call goes on.
  pub marks-IsOwned :
      (p : Pool) (k : ℕ) (old new : Submit)
      → IsOwned p
      → get_elem? p.submits k ≡ some old
      → task_of new ≡ task_of old
      → IsGiven new
      → IsOwned (record p { submits = set p.submits k new })
  marks-IsOwned p k old new v e same ok = record {
    same_worker = v.same_worker;
    same_gpus = v.same_gpus;
    counted = length-set p.submits k new ∙ v.counted;
    numbered = λ j s f. elim (ℕ_discrete k j) [
      | yes q ↦
          let here =
            get_elem?-set_self p.submits k new (lt-length_of_get_elem? p.submits k old e) in
          let numbered_old = v.numbered k old e in grind (arith, q, here, same, numbered_old)
      | no d ↦ v.numbered j s (sym (get_elem?-set_ne p.submits new d) ∙ f)
    ];
    given = λ j s f. elim (get_elem?-set_cases p.submits k j new s f) [
      | inl q ↦ subst IsGiven (sym q) ok
      | inr f' ↦ v.given j s f'
    ];
    queued = λ t m. Known-set p.submits k old new t e same (v.queued t m);
    running = λ g t f. Known-set p.submits k old new t e same (v.running g t f);
    owned_result = λ r m. Known-set p.submits k old new r.task e same (v.owned_result r m);
    answered = v.answered;
  }

  pub queue-IsOwned :
      (p : Pool) (task : Task)
      → IsOwned p
      → Known p.submits task
      → IsOwned (record p { queue = p.queue ++ (task ∷ []) })
  queue-IsOwned p task v known = record {
    same_worker = v.same_worker;
    same_gpus = v.same_gpus;
    counted = v.counted;
    numbered = v.numbered;
    given = v.given;
    queued = λ t m. elim (Among-append t task p.queue m) [
      | inl m' ↦ v.queued t m'
      | inr q ↦ subst (Known p.submits) q known
    ];
    running = v.running;
    owned_result = v.owned_result;
    answered = v.answered;
  }
