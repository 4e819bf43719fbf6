-- ===== src/Controlplane/Scheduling.antt =====
-- controlplane/controller/controller.go: the choice of a worker by its load. Utilizations are
-- float64, of which the code uses the order and two constants: they are a parameter.
use ai_fs.Prelude.{
  ◌≡◌, String, Bool, true, false, not, ◌&&◌, ◌||◌, if◌then◌else◌, Option, none, some, List, [], ◌∷◌,
}
use ai_fs.Prelude.Dict.{Dict, ◌==◌, string_eq, lookup}
use ai_fs.Models.{WorkerInfo, GpuInfo, worker_offline, worker_busy}

-- The floats that the scheduler sees, which are no NaN (JSON has none): `lt` is `<`.
pub record Floats (F : Type 0) : Type 0 where
  pub lt : F → F → Bool
  pub zero : F
  pub thousand : F
  pub lt_irrefl : (a : F) → lt a a ≡ false
  pub lt_trans : (a b c : F) → lt a b ≡ true → lt b c ≡ true → lt a c ≡ true
  pub le_trans : (a b c : F) → lt b a ≡ false → lt c b ≡ false → lt c a ≡ false

-- `map[string]struct{}`
abbrev pub Set : Type 0
Set = Dict String (Unit {0})

unfoldable pub contains : String → Set → Bool
contains id seen = elim (lookup id seen) [ none ↦ false | some _ ↦ true ]

module _ {F : Type 0} (floats : Floats F) where
  open floats use {lt}

  unfoldable pub max_util : List (GpuInfo F) → F → F
  max_util [] most = most
  max_util (g ∷ gs) most = max_util gs (if lt most g.utilization then g.utilization else most)

  unfoldable pub worker_load_score : WorkerInfo F → F
  unfolding max_util
  worker_load_score w =
      if w.status == worker_busy then floats.thousand else max_util w.gpus floats.zero

  -- The two `continue`s of the loop.
  unfoldable pub is_eligible : Set → (require_seen : Bool) → WorkerInfo F → Bool
  unfolding contains
  is_eligible seen require_seen w =
      (not require_seen || contains w.id seen) && not (w.status == worker_offline)

  -- The loop; `best` is `none` while `found` is false, and carries `bestScore`.
  unfoldable pub pick_from :
      Set → Bool → Option (WorkerInfo F × F) → List (WorkerInfo F) → Option (WorkerInfo F × F)
  pick_from seen require_seen best [] = best
  pick_from seen require_seen best (w ∷ ws) =
      pick_from seen require_seen
        (if is_eligible seen require_seen w
          then (elim best [
            | none ↦ some (w, worker_load_score w)
            | some (b, score) ↦
                if lt (worker_load_score w) score
                then some (w, worker_load_score w)
                else some (b, score)
          ])
          else best)
        ws

  unfoldable pub pick_lowest_load_worker :
      List (WorkerInfo F) → Set → (require_seen : Bool) → Option (WorkerInfo F)
  unfolding pick_from
  pick_lowest_load_worker workers seen require_seen =
      elim (pick_from seen require_seen none workers) [ none ↦ none | some (w, _) ↦ some w ]

  -- `PickBestWorker`, once the workers are listed: first among the workers that were heard of, then
  -- among all.
  unfoldable pub pick_best : List (WorkerInfo F) → Set → Option (WorkerInfo F)
  pick_best workers seen = elim (pick_lowest_load_worker workers seen true) [
    | some best ↦ some best
    | none ↦ pick_lowest_load_worker workers [] false
  ]
