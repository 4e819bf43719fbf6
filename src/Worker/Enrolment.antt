-- ===== src/Worker/Enrolment.antt =====
-- A worker that comes up, and the controller that it registers with.
use Prim.Native.String.{◌++◌ as concat}
use ai_fs.Prelude.{
  ℕ, ◌≡◌, ◌≢◌, refl, sym, ap, ◌∙◌, subst, inl, inr, String, true, ltb, if◌then◌else◌, Option,
  Option-cases, none, some, List, arith,
}
use ai_fs.Prelude.Dict.{◌==◌, nat_eq, string_eq, lookup}
use ai_fs.Models.{WorkerInfo, worker_idle, ensure_id}
use ai_fs.Controlplane.Scheduling.{Floats, Set, contains}
use ai_fs.Controlplane.Registry.{Kv, Json, Controller, workers_index_key, register_worker}
use ai_fs.Controlplane.Registration.{record_key, register_worker_puts, register_worker_seen}
use ai_fs.Controlplane.Handlers.{
  Posted, invalid_json, posted, Answer, failed, registered, alive, best, listed, decode_worker,
  handle_register, serve,
}
use ai_fs.Worker.Backend.{Round, wait_for_backend}
use ai_fs.Worker.Pool.{Pool, new_pool}
use ai_fs.Worker.Launch.{Engine, Flags, build_backend, post_json, register_at, running, launch}

-- What the controller makes of a body, and the status that it answers.
abbrev pub posted_body : {F : Type 0} → Json (WorkerInfo F) → (body : String) → Posted F
posted_body json body = elim (json.unmarshal body) [ none ↦ invalid_json | some info ↦ posted info ]

abbrev pub status_of : {F : Type 0} → Answer F → ℕ
status_of (failed status) = status
status_of (registered _) = 200
status_of (alive _) = 200
status_of (best _) = 200
status_of (listed _) = 200

-- A record without a status is taken as idle.
abbrev pub with_status : {F : Type 0} → WorkerInfo F → WorkerInfo F
with_status info = if info.status == "" then record info { status = worker_idle } else info

pub posted_body-marshal :
    {F : Type 0} (json : Json (WorkerInfo F)) (info : WorkerInfo F)
    → posted_body json (json.marshal info) ≡ posted info
posted_body-marshal {F} json info =
    ap (λ (o : Option (WorkerInfo F)). elim o [ none ↦ invalid_json | some x ↦ posted x ])
      (json.unmarshal-marshal info)

module _ {F : Type 0} (format : String → ℕ → String) where
  ensured_again :
      (info : WorkerInfo F) → ensure_id format (ensure_id format info) ≡ ensure_id format info
  unfolding ensure_id
  ensured_again info = ground arith

  decoded_lem :
      (info known : WorkerInfo F)
      → decode_worker format (posted info) ≡ some known
      → known ≡ ensure_id format (with_status info)
  unfolding decode_worker
  decoded_lem info known h = ground arith

  module _ {W : Type 0} (cluster : Kv W) (worker_json : Json (WorkerInfo F))
      (ids_json : Json (List String)) (ids_of : Set → List String) (floats : Floats F) where
    -- What a registration has done: the worker's record was put under its ID and answered with OK,
    -- the worker counts as seen and now is its last heartbeat, and the index of the seen workers was
    -- put and answered with OK.
    abbrev pub IsEnrolled : (now : ℕ) → WorkerInfo F → (before after : Controller W) → Type 0
    IsEnrolled now known before after =
        ((cluster.put (record_key known.id) (worker_json.marshal known) before.kv).1 ≡ true)
        × (contains known.id after.seen ≡ true)
        × (lookup known.id after.lastseen ≡ some now)
        × ((w : W) × (cluster.put workers_index_key (ids_json.marshal (ids_of after.seen)) w
              ≡ (after.kv, true)))

    registered-IsEnrolled :
        (others : Controller W → Controller W) (now : ℕ) (known : WorkerInfo F) (c : Controller W)
        → ensure_id format known ≡ known
        → (register_worker format cluster worker_json ids_json ids_of others now known c).1 ≡ true
        → IsEnrolled now known c
            (register_worker format cluster worker_json ids_json ids_of others now known c).0
    registered-IsEnrolled others now known c same done =
        let after =
          (register_worker format cluster worker_json ids_json ids_of others now known c).0 in
        let (stored, saved) =
          register_worker_puts format cluster worker_json ids_json ids_of others now known c done in
        let seen =
          register_worker_seen format cluster worker_json ids_json ids_of others now known c done in
        subst (λ w. IsEnrolled now w c after) same (stored, seen.0, seen.1, saved)

    handle_register_lem :
        (others : Controller W → Controller W) (now : ℕ) (body : Posted F) (known : WorkerInfo F)
        (c : Controller W)
        → decode_worker format body ≡ some known
        → ltb
            (status_of
              (handle_register format cluster worker_json ids_json ids_of others now body c).1)
            300
          ≡ true
        → ((register_worker format cluster worker_json ids_json ids_of others now known c).1 ≡ true)
          × ((handle_register format cluster worker_json ids_json ids_of others now body c).0
              ≡ (register_worker format cluster worker_json ids_json ids_of others now known c).0)
    unfolding handle_register
    handle_register_lem others now body known c e h = ground arith

    refused_status :
        (others : Controller W → Controller W) (now : ℕ) (body : Posted F) (c : Controller W)
        → decode_worker format body ≡ none
        → ltb
            (status_of
              (handle_register format cluster worker_json ids_json ids_of others now body c).1)
            300
          ≢ true
    unfolding handle_register
    refused_status others now body c e h = ground arith

    -- The controller's handler answers a registration with success only if it made it.
    handled-IsEnrolled :
        (others : Controller W → Controller W) (now : ℕ) (info : WorkerInfo F) (c : Controller W)
        → ltb
            (status_of
              (handle_register format cluster worker_json ids_json ids_of others now
                (posted info)
                c).1)
            300
          ≡ true
        → IsEnrolled now
            (ensure_id format (with_status info))
            c
            (handle_register format cluster worker_json ids_json ids_of others now
              (posted info)
              c).0
    handled-IsEnrolled others now info c h =
        elim (Option-cases (decode_worker format (posted info))) [
          | inl e ↦ absurd (refused_status others now (posted info) c e h)
          | inr (known, e) ↦
              let same = decoded_lem info known e in
              let again =
                ap (ensure_id format) same ∙ ensured_again (with_status info) ∙ sym same in
              let (done, after) = handle_register_lem others now (posted info) known c e h in
              subst
                (λ w.
                  IsEnrolled now w c
                    (handle_register format cluster worker_json ids_json ids_of others now
                      (posted info) c).0)
                same
                (subst (IsEnrolled now known c) (sym after)
                  (registered-IsEnrolled others now known c again done))
        ]

    -- The request of a registration, at a controller that serves the address.
    register_accepted :
        (post : (url body : String) → Option ℕ) (base : String)
        (others : Controller W → Controller W) (now : ℕ) (info : WorkerInfo F) (c : Controller W)
        → post (concat base "/workers/register") (worker_json.marshal info)
          ≡ some (
              status_of
                (handle_register format cluster worker_json ids_json ids_of others now
                  (posted info)
                  c).1)
        → register_at worker_json post base info ≡ true
        → ltb
            (status_of
              (handle_register format cluster worker_json ids_json ids_of others now
                (posted info)
                c).1)
            300
          ≡ true
    unfolding register_at post_json
    register_accepted post base others now info c served h = ground arith

    serve_register :
        (others : ℕ → Controller W → Controller W) (now : ℕ) (body : Posted F) (c : Controller W)
        → serve format cluster worker_json ids_json ids_of floats others now "POST"
            "/workers/register" body c
          ≡ handle_register format cluster worker_json ids_json ids_of (others 0) now body c
    unfolding serve
    serve_register others now body c = refl

    launch_lem :
        (tenth : F) (trim_right : String → String) (post : (url body : String) → Option ℕ)
        (rounds : List Round) (flags : Flags) (info : WorkerInfo F) (engine : Engine) (pool : Pool)
        → launch format tenth trim_right worker_json post rounds flags ≡ running info engine pool
        → (pool ≡ new_pool info.id flags.gpus)
          × (build_backend trim_right flags.backend flags.vllm_url flags.model flags.max_tokens
                info.id
              ≡ some engine)
          × (wait_for_backend rounds ≡ some true)
          × (register_at worker_json post flags.controller_url info ≡ true)
    unfolding launch
    launch_lem tenth trim_right post rounds flags info engine pool up = ground arith

    -- If a worker comes up, at a controller whose `ServeHTTP` answers its posts, whatever other
    -- operations of the controller do meanwhile, then its pool is that of its own ID and of the flag's
    -- number of GPUs, and it was given the engine that the flags name. The cluster has answered OK to
    -- the put of its record under its ID; when the registration ends the worker is among those that
    -- count as seen, with the present time as its last heartbeat, and the cluster has answered OK to
    -- the put of their IDs as the index. An empty ID is filled in, and an empty status sent as idle.
    pub launched-IsEnrolled :
        (tenth : F) (trim_right : String → String) (post : (url body : String) → Option ℕ)
        (rounds : List Round) (flags : Flags) (others : ℕ → Controller W → Controller W) (now : ℕ)
        (c : Controller W) (info : WorkerInfo F) (engine : Engine) (pool : Pool)
        → ((body : String)
            → post (concat flags.controller_url "/workers/register") body
              ≡ some (
                  status_of
                    (serve format cluster worker_json ids_json ids_of floats others now "POST"
                      "/workers/register"
                      (posted_body worker_json body)
                      c).1))
        → launch format tenth trim_right worker_json post rounds flags ≡ running info engine pool
        → (pool ≡ new_pool info.id flags.gpus)
          × (build_backend trim_right flags.backend flags.vllm_url flags.model flags.max_tokens
                info.id
              ≡ some engine)
          × (wait_for_backend rounds ≡ some true)
          × IsEnrolled now
              (ensure_id format (with_status info))
              c
              (serve format cluster worker_json ids_json ids_of floats others now "POST"
                "/workers/register"
                (posted info)
                c).0
    launched-IsEnrolled tenth trim_right post rounds flags others now c info engine pool served up =
        let (own, built, ready, sent) =
          launch_lem tenth trim_right post rounds flags info engine pool up in
        let enrol = serve_register others now (posted info) c in
        let body = worker_json.marshal info in
        let read = posted_body-marshal worker_json info in
        let answered =
          served body
          ∙ ap
              (λ b. some (
                status_of
                  (serve format cluster worker_json ids_json ids_of floats others now "POST"
                    "/workers/register" b c).1))
              read
          ∙ ap (λ r. some (status_of r.1)) enrol in
        let taken =
          register_accepted post flags.controller_url (others 0) now info c answered sent in
        (
          own,
          built,
          ready,
          subst (λ r. IsEnrolled now (ensure_id format (with_status info)) c r.0) (sym enrol)
              (handled-IsEnrolled (others 0) now info c taken),
        )
