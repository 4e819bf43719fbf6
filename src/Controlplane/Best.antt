-- ===== src/Controlplane/Best.antt =====
-- The worker that the controller hands to the gateway has the lowest load.
use ai_fs.Prelude.{
  Among, ◌≡◌, refl, subst, ◌⊎◌, inl, inr, Bool, true, false, Bool-cases, Option, none, some,
  Option-cases, List, [], ◌∷◌, arith,
}
use ai_fs.Models.{WorkerInfo}
use ai_fs.Controlplane.Scheduling.{
  Floats, Set, is_eligible, worker_load_score, pick_from, pick_lowest_load_worker, pick_best,
}

module _ {F : Type 0} (floats : Floats F) (seen : Set) (require_seen : Bool) where
  open floats use {lt}

  abbrev Good : WorkerInfo F → Type 0
  Good w = is_eligible floats seen require_seen w ≡ true

  abbrev score : WorkerInfo F → F
  score = worker_load_score floats

  lt_asymm : (a b : F) → lt a b ≡ true → lt b a ≡ false
  lt_asymm a b h = elim (Bool-cases (lt b a)) [
    | inl k ↦ ground (arith, floats.lt_trans a b a h k, floats.lt_irrefl a)
    | inr k ↦ k
  ]

  -- No worker of the list that is good has a lower score than `w`.
  abbrev pub IsLowest : List (WorkerInfo F) → WorkerInfo F → Type 0
  IsLowest [] w = Unit {0}
  IsLowest (v ∷ vs) w = (Good v → lt (score v) (score w) ≡ false) × IsLowest vs w

  -- The loop from a best worker `b` on.
  record Found (b : WorkerInfo F) (ws : List (WorkerInfo F)) : Type 0 where
    found : WorkerInfo F
    result : pick_from floats seen require_seen (some (b, score b)) ws ≡ some (found, score found)
    beats : lt (score b) (score found) ≡ false
    place : (b ≡ found) ⊎ (Among found ws × Good found)
    lowest : IsLowest ws found

  later :
      {v : WorkerInfo F} (w : WorkerInfo F) (ws : List (WorkerInfo F))
      → (w ≡ v) ⊎ (Among v ws × Good v)
      → Good w
      → Among v (w ∷ ws) × Good v
  later w ws (inl e) g = (inl e, subst Good e g)
  later w ws (inr (m, g')) g = (inr m, g')

  pick_from-Found : (b : WorkerInfo F) (ws : List (WorkerInfo F)) → Found b ws
  unfolding pick_from
  pick_from-Found b [] = record {
    found = b;
    result = refl;
    beats = floats.lt_irrefl (score b);
    place = inl refl;
    lowest = tt;
  }
  pick_from-Found b (w ∷ ws) = elim (Bool-cases (is_eligible floats seen require_seen w)) [
    | inl good ↦ elim (Bool-cases (lt (score w) (score b))) [
      | inl less ↦
          let f = pick_from-Found w ws in
          record {
            found = f.found;
            result = rw (good, less) f.result;
            beats =
                floats.le_trans (score f.found) (score w) (score b) f.beats
                  (lt_asymm (score w) (score b) less);
            place = inr (later w ws f.place good);
            lowest = ((λ g. f.beats), f.lowest);
          }
      | inr not_less ↦
          let f = pick_from-Found b ws in
          record {
            found = f.found;
            result = rw (good, not_less) f.result;
            beats = f.beats;
            place = further w ws f.place;
            lowest = (
              (λ g. floats.le_trans (score f.found) (score b) (score w) f.beats not_less),
              f.lowest,
            );
          }
    ]
    | inr bad ↦
        let f = pick_from-Found b ws in
        record {
          found = f.found;
          result = rw bad f.result;
          beats = f.beats;
          place = further w ws f.place;
          lowest = ((λ g. ground arith), f.lowest);
        }
  ]
    where
      further :
          {v : WorkerInfo F} (w : WorkerInfo F) (ws : List (WorkerInfo F))
          → (b ≡ v) ⊎ (Among v ws × Good v)
          → (b ≡ v) ⊎ (Among v (w ∷ ws) × Good v)
      further w ws (inl e) = inl e
      further w ws (inr (m, g)) = inr (inr m, g)

  -- What a search of the list gives: a good worker of the list with the lowest score of the good
  -- ones, or nothing if the list has no good worker.
  abbrev pub Lowest : List (WorkerInfo F) → Option (WorkerInfo F) → Type 0
  Lowest ws none = (w : WorkerInfo F) → Among w ws → is_eligible floats seen require_seen w ≡ false
  Lowest ws (some w) = Among w ws × Good w × IsLowest ws w

  skip :
      (w : WorkerInfo F) (ws : List (WorkerInfo F)) (r : Option (WorkerInfo F))
      → is_eligible floats seen require_seen w ≡ false
      → Lowest ws r
      → Lowest (w ∷ ws) r
  skip w ws none bad l = λ v m. elim m [
    | inl e ↦ subst (λ u. is_eligible floats seen require_seen u ≡ false) e bad
    | inr m' ↦ l v m'
  ]
  skip w ws (some v) bad (m, g, l) = (inr m, g, ((λ good. ground arith), l))

  skipped :
      (w : WorkerInfo F) (ws : List (WorkerInfo F))
      → is_eligible floats seen require_seen w ≡ false
      → pick_lowest_load_worker floats ws seen require_seen
        ≡ pick_lowest_load_worker floats (w ∷ ws) seen require_seen
  unfolding pick_lowest_load_worker pick_from
  skipped w ws bad = ground arith

  started :
      (w : WorkerInfo F) (ws : List (WorkerInfo F)) (f : Found w ws)
      → Good w
      → some f.found ≡ pick_lowest_load_worker floats (w ∷ ws) seen require_seen
  unfolding pick_lowest_load_worker pick_from
  started w ws f good = ground (arith, f.result)

  -- The search returns a worker of the list that is eligible (not offline, and heard of if that is
  -- asked for), and no eligible worker of the list has a lower load. It returns none only if no
  -- worker of the list is eligible.
  pub pick_lowest_load_worker-Lowest :
      (ws : List (WorkerInfo F)) → Lowest ws (pick_lowest_load_worker floats ws seen require_seen)
  unfolding pick_lowest_load_worker pick_from
  pick_lowest_load_worker-Lowest [] = λ w m. absurd m
  pick_lowest_load_worker-Lowest (w ∷ ws) =
      elim (Bool-cases (is_eligible floats seen require_seen w)) [
        | inl good ↦
            let f = pick_from-Found w ws in
            subst (Lowest (w ∷ ws)) (started w ws f good)
              (let (m, g) = later w ws f.place good in (m, g, ((λ g'. f.beats), f.lowest)))
        | inr bad ↦ subst (Lowest (w ∷ ws)) (skipped w ws bad) (
            skip w ws (pick_lowest_load_worker floats ws seen require_seen) bad
              (pick_lowest_load_worker-Lowest ws))
      ]

-- PickBestWorker prefers the workers that were heard of: if one of them is not offline, the result
-- is one with the lowest load among those. If there is none, it is one with the lowest load among
-- all that are not offline, or none if all are offline.
pub pick_best_cases :
    {F : Type 0} (floats : Floats F) (ws : List (WorkerInfo F)) (seen : Set)
    → ((w : WorkerInfo F) × (pick_best floats ws seen ≡ some w)
        × Lowest floats seen true ws (some w))
      ⊎ (Lowest floats seen true ws none × Lowest floats [] false ws (pick_best floats ws seen))
unfolding pick_best
pick_best_cases floats ws seen =
    let first = pick_lowest_load_worker-Lowest floats seen true ws in
    let second = pick_lowest_load_worker-Lowest floats [] false ws in
    elim (Option-cases (pick_lowest_load_worker floats ws seen true)) [
      | inr (w, e) ↦ inl (w, ground arith, subst (Lowest floats seen true ws) e first)
      | inl e ↦ inr (
        subst (Lowest floats seen true ws) e first,
        subst (Lowest floats [] false ws) (ground arith) second,
      )
    ]
