-- ===== src/Gateway/Progress.antt =====
-- The gateway never stands still while a request is on its way, and its work comes to an end.
use ai_fs.Prelude.{
  ℕ, zero, suc, ◌+◌, ◌≤◌, ◌<◌, ◌≡◌, ◌≢◌, refl, ◌⊎◌, inl, inr, if◌then◌else◌, ltb, Option, none,
  some, List, [], ◌∷◌, length, length-set, length-replicate, get_elem?, arith, dec_lt,
}
use ai_fs.Prelude.Dict.{nat_eq}
use ai_fs.Prelude.Sums.{sum, sum-pos, sum-le, sum-le-length}
use ai_fs.Gateway.Pipeline.{
  ClientJob, DispatchJob, ConnWorker, waiting, picking, placing, Gateway, new_gateway, enqueue,
  conn_receive, picked, place, give_up, dispatch_receive, forwarded, Event, request_comes,
  conn_receives, picks, places, gives_up, dispatch_receives, forwards, happen, Run, here,
  then_event,
}
use ai_fs.Gateway.Places.{in_flight, answers, of_job, of_conn, of_dispatch, of_forward}
use ai_fs.Gateway.Results.{one_result}
use ai_fs.Gateway.Work.{conn_work, forward_work, work, IsInternal, happen_works}

module _ {F : Type 0} where
  -- There is a goroutine in both layers.
  abbrev pub IsStaffed : Gateway F → Type 0
  IsStaffed g = (0 < length g.conn_workers) × (0 < length g.dispatch_workers)

  -- Something may happen next.
  abbrev pub Goes : Gateway F → Type 0
  Goes g = (e : Event F) × IsInternal e × (happen e g ≢ none)

  conn-Goes :
      (g : Gateway F) (k : ℕ) (w : ConnWorker F)
      → get_elem? g.conn_workers k ≡ some w
      → 0 < conn_work w
      → Goes g
  unfolding happen picked give_up
  conn-Goes g k waiting e h = absurd (omega arith)
  conn-Goes g k (picking job) e h = (picks k none, tt, λ q. ground arith)
  conn-Goes g k (placing job) e h = (gives_up k, tt, λ q. ground arith)

  forward-Goes :
      (g : Gateway F) (k : ℕ) (w : Option (DispatchJob F))
      → get_elem? g.dispatch_workers k ≡ some w
      → 0 < forward_work w
      → Goes g
  unfolding happen forwarded
  forward-Goes g k none e h = absurd (omega arith)
  forward-Goes g k (some job) e h = (forwards k none, tt, λ q. ground arith)

  -- A first worker with no job takes one.
  first_receives :
      (g : Gateway F) (w : ConnWorker F) (ws : List (ConnWorker F)) (job : ClientJob)
      (jobs : List ClientJob)
      → g.conn_workers ≡ w ∷ ws
      → conn_work w ≡ 0
      → g.conn_jobs ≡ job ∷ jobs
      → Goes g
  unfolding happen conn_receive
  first_receives g waiting ws job jobs e z q = (conn_receives 0, tt, λ r. ground arith)
  first_receives g (picking j) ws job jobs e z q = absurd (omega arith)
  first_receives g (placing j) ws job jobs e z q = absurd (omega arith)

  first_dispatches :
      (g : Gateway F) (w : Option (DispatchJob F)) (ws : List (Option (DispatchJob F)))
      (job : DispatchJob F) (jobs : List (DispatchJob F))
      → g.dispatch_workers ≡ w ∷ ws
      → forward_work w ≡ 0
      → g.dispatch_jobs ≡ job ∷ jobs
      → Goes g
  unfolding happen dispatch_receive
  first_dispatches g none ws job jobs e z q = (dispatch_receives 0, tt, λ r. ground arith)
  first_dispatches g (some j) ws job jobs e z q = absurd (omega arith)

  conn_queue-Goes :
      (g : Gateway F) (ws : List (ConnWorker F)) (jobs : List ClientJob)
      → g.conn_workers ≡ ws
      → g.conn_jobs ≡ jobs
      → 0 < length ws
      → 0 < length jobs
      → sum conn_work ws ≡ 0
      → Goes g
  conn_queue-Goes g [] jobs e q l m z = absurd (omega arith)
  conn_queue-Goes g (w ∷ ws) [] e q l m z = absurd (omega arith)
  conn_queue-Goes g (w ∷ ws) (job ∷ jobs) e q l m z =
      first_receives g w ws job jobs e (omega arith) q

  dispatch_queue-Goes :
      (g : Gateway F) (ws : List (Option (DispatchJob F))) (jobs : List (DispatchJob F))
      → g.dispatch_workers ≡ ws
      → g.dispatch_jobs ≡ jobs
      → 0 < length ws
      → 0 < length jobs
      → sum forward_work ws ≡ 0
      → Goes g
  dispatch_queue-Goes g [] jobs e q l m z = absurd (omega arith)
  dispatch_queue-Goes g (w ∷ ws) [] e q l m z = absurd (omega arith)
  dispatch_queue-Goes g (w ∷ ws) (job ∷ jobs) e q l m z =
      first_dispatches g w ws job jobs e (omega arith) q

  pub work-Goes : (g : Gateway F) → IsStaffed g → 0 < work g → Goes g
  work-Goes g (c, d) h = elim (dec_lt 0 (sum conn_work g.conn_workers)) [
    | yes p ↦ let (k, (w, e, q)) = sum-pos conn_work g.conn_workers p in conn-Goes g k w e q
    | no p ↦ elim (dec_lt 0 (sum forward_work g.dispatch_workers)) [
      | yes q ↦
          let (k, (w, e, r)) = sum-pos forward_work g.dispatch_workers q in forward-Goes g k w e r
      | no q ↦ elim (dec_lt 0 (length g.conn_jobs)) [
        | yes r ↦ conn_queue-Goes g g.conn_workers g.conn_jobs refl refl c r (omega arith)
        | no r ↦
            dispatch_queue-Goes g g.dispatch_workers g.dispatch_jobs refl refl d (omega arith)
              (omega arith)
      ]
    ]
  ]

  -- The goroutines stay.
  happen_staff :
      (e : Event F) (g g' : Gateway F) → happen e g ≡ some g' → IsStaffed g → IsStaffed g'
  unfolding happen enqueue conn_receive picked place give_up dispatch_receive forwarded
  happen_staff (request_comes prompt) g g' h s = grind (arith, length-set)
  happen_staff (conn_receives k) g g' h s = grind (arith, length-set)
  happen_staff (picks k answer) g g' h s = grind (arith, length-set)
  happen_staff (places k) g g' h s = grind (arith, length-set)
  happen_staff (gives_up k) g g' h s = grind (arith, length-set)
  happen_staff (dispatch_receives k) g g' h s = grind (arith, length-set)
  happen_staff (forwards k answer) g g' h s = grind (arith, length-set)

  module _ (id : ℕ) where
    conn-le : (w : ConnWorker F) → of_conn id w ≤ conn_work w
    conn-le waiting = omega arith
    conn-le (picking job) = ground arith
    conn-le (placing job) = ground arith

    forward-le : (w : Option (DispatchJob F)) → of_forward id w ≤ forward_work w
    forward-le none = omega arith
    forward-le (some job) = ground arith

    in_flight-le-work : (g : Gateway F) → in_flight id g ≤ work g
    in_flight-le-work g = omega (
      arith,
      sum-le-length (of_job id) g.conn_jobs (λ j. ground arith),
      sum-le (of_conn id) conn_work g.conn_workers conn-le,
      sum-le-length (of_dispatch id) g.dispatch_jobs (λ j. ground arith),
      sum-le (of_forward id) forward_work g.dispatch_workers forward-le,
    )

  -- `k` events after `g`, and no request comes.
  pub data Settles (g : Gateway F) : ℕ → Gateway F → Type 0 where
    now : Settles g zero g
    later :
        {k : ℕ} {h i : Gateway F}
        → Settles g k h
        → (e : Event F) → IsInternal e
        → happen e h ≡ some i
        → Settles g (suc k) i

  Settles-work : {g h : Gateway F} {k : ℕ} → Settles g k h → k + work h ≤ work g
  Settles-work now = omega arith
  Settles-work (later {h} {i} s e inner q) =
      omega (arith, Settles-work s, happen_works e h i inner q)

  Settles-Run : {start g h : Gateway F} {k : ℕ} → Run start g → Settles g k h → Run start h
  Settles-Run run now = run
  Settles-Run run (later s e inner q) = then_event (Settles-Run run s) e q

  Run-IsStaffed : {g h : Gateway F} → Run g h → IsStaffed g → IsStaffed h
  Run-IsStaffed here s = s
  Run-IsStaffed (then_event {h} {i} run e q) s = happen_staff e h i q (Run-IsStaffed run s)

  new_gateway-IsStaffed : (m n : ℕ) → (g : Gateway F) → g ≡ new_gateway m n → IsStaffed g
  unfolding new_gateway
  new_gateway-IsStaffed m n g e =
      let w : ConnWorker F = waiting in
      let d : Option (DispatchJob F) = none in
      grind (
        arith,
        length-replicate (if ltb m 1 then 32 else m) w,
        length-replicate (if ltb n 1 then 32 else n) d,
      )

  -- From any state that the gateway comes to, once no more requests come, only so many events can
  -- follow as there is work left. After each of them another can happen, unless all requests that
  -- were ever queued have their result, each exactly one.
  pub requests_answered :
      (m n k : ℕ) (g h : Gateway F)
      → Run (new_gateway m n) g
      → Settles g k h
      → (k + work h ≤ work g)
        × (Goes h ⊎ ((id : ℕ) → answers id h ≡ (if ltb id h.accepted then 1 else 0)))
  requests_answered m n k g h run s =
      let run' = Settles-Run run s in
      let staff = Run-IsStaffed run' (new_gateway-IsStaffed m n (new_gateway m n) refl) in
      (
        Settles-work s,
        elim (dec_lt 0 (work h)) [
          | yes p ↦ inl (work-Goes h staff p)
          | no p ↦ inr (λ id. omega (arith, (one_result m n h run').0 id, in_flight-le-work id h))
        ],
      )
