-- ===== src/Worker/LaunchTests.antt =====
-- A worker with the mock backend comes up at a concrete controller.
use ai_fs.Prelude.{
  ℕ, ◌≡◌, refl, ap, not, ltb, leb, ◌||◌, none, String, true, false, Option, some, List, [], ◌∷◌,
}
use ai_fs.Prelude.Dict.{◌==◌, nat_eq, string_eq, lookup, insert}
use ai_fs.Kvraft.Common.{Tables}
use ai_fs.Kvraft.StateMachine.{apply_command, apply_to_state_machine, recorded, put_handler}
use ai_fs.Kvraft.Http.{http_command, http_response_from_err}
use ai_fs.Kvraft.Handlers.{put_append_command}
use ai_fs.Controlplane.Served.{served_cluster}
use ai_fs.Controlplane.KvClient.{
  Client, client_put, execute, try_servers, other_steps, next_addr, prepare_request, is_retry,
  put_result,
}
use ai_fs.Models.{WorkerInfo, worker_idle, ensure_id}
use ai_fs.Controlplane.Documents.{address, keys, percents, worker_documents, id_documents}
use ai_fs.Controlplane.Registry.{Kv, Controller, register_worker, save_index, heartbeat}
use ai_fs.Controlplane.Handlers.{posted, decode_worker, handle_register, serve}
use ai_fs.Worker.Backend.{Round, wait_for_backend}
use ai_fs.Worker.Pool.{new_pool}
use ai_fs.Worker.Launch.{
  mock_engine, Flags, build_backend, worker_info, post_json, register_at, running, launch,
}
use ai_fs.Worker.Enrolment.{
  posted_body, posted_body-marshal, status_of, with_status, IsEnrolled, launched-IsEnrolled,
}

abbrev flags : Flags
flags = record {
  controller_url = "http://c";
  ip = "10.0.0.1";
  port = 9100;
  status = worker_idle;
  gpus = 1;
  backend = "mock";
  vllm_url = "";
  model = "";
  max_tokens = 256;
}

abbrev trim : String → String
trim s = s

abbrev rounds : List Round
rounds =
    record { healthy = false; expired = false } ∷ record { healthy = true; expired = false } ∷ []

-- The second of two servers leads.
abbrev cluster : Kv (Client × Tables)
cluster = served_cluster (λ addr. addr == "b")

abbrev controller : Controller (Client × Tables)
controller = record {
  kv = (
    record { addrs = "a" ∷ "b" ∷ []; curr = 0; client_id = 9; seq_id = 4 },
    record { kv_store = []; record_map = [] },
  );
  seen = [];
  lastseen = [];
}

-- A heartbeat of another worker comes while the record is put.
abbrev waiting : ℕ → Controller (Client × Tables) → Controller (Client × Tables)
waiting n c =
    (heartbeat address cluster worker_documents id_documents keys 11
      (record { id = "y"; ip = "10.0.0.2"; port = 80; gpus = []; status = worker_idle }) c).0

abbrev post : (url body : String) → Option ℕ
post url body = some (
    status_of
      (serve address cluster worker_documents id_documents keys percents waiting 12 "POST"
        "/workers/register" (posted_body worker_documents body) controller).1)

abbrev info : WorkerInfo ℕ
info = worker_info address 10 flags

answered : post "http://c/workers/register" (worker_documents.marshal info) ≡ some 200
unfolding serve handle_register decode_worker register_worker save_index heartbeat client_put
    execute try_servers other_steps next_addr prepare_request is_retry put_result http_command
    http_response_from_err put_append_command apply_command apply_to_state_machine recorded
    put_handler lookup insert worker_info ensure_id
answered =
    ap
      (λ b. some (
        status_of
          (serve address cluster worker_documents id_documents keys percents waiting 12 "POST"
            "/workers/register" b controller).1))
      (posted_body-marshal worker_documents info)

sent : register_at worker_documents post "http://c" info ≡ true
unfolding register_at post_json
sent =
    ap
      (λ (o : Option ℕ). elim o [
        | none ↦ false
        | some status ↦ not (ltb status 200 || leb 300 status)
      ])
      answered

up :
    launch address 10 trim worker_documents post rounds flags
    ≡ running info (mock_engine "10.0.0.1") (new_pool "10.0.0.1" 1)
unfolding launch build_backend wait_for_backend worker_info ensure_id
up = rw sent refl

launched-IsEnrolled_example :
    (new_pool "10.0.0.1" 1 ≡ new_pool info.id 1)
    × (build_backend trim "mock" "" "" 256 info.id ≡ some (mock_engine "10.0.0.1"))
    × (wait_for_backend rounds ≡ some true)
    × IsEnrolled address cluster worker_documents id_documents keys percents 12
        (ensure_id address (with_status info))
        controller
        (serve address cluster worker_documents id_documents keys percents waiting 12 "POST"
          "/workers/register"
          (posted info)
          controller).0
launched-IsEnrolled_example =
    launched-IsEnrolled address cluster worker_documents id_documents keys percents 10 trim post
      rounds flags waiting 12 controller info (mock_engine "10.0.0.1") (new_pool "10.0.0.1" 1)
      (λ body. refl) up
