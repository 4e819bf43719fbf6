-- ===== src/Gateway/ServiceTests.antt =====
-- The gateway's calls at a concrete controller and a concrete worker.
use ai_fs.Prelude.{ℕ, ◌≡◌, ◌≢◌, refl, String, true, Option, some, [], arith}
use ai_fs.Prelude.Dict.{Dict, string_eq}
use ai_fs.Prelude.Web.{HttpReply}
use ai_fs.Models.{WorkerInfo, ChatResponse, worker_idle}
use ai_fs.Controlplane.Documents.{
  address, keys, percents, reliable, worker_documents, id_documents, request_documents,
  response_documents,
}
use ai_fs.Controlplane.Registry.{Controller, check_heartbeats, register_worker, pick_best_worker}
use ai_fs.Controlplane.Handlers.{handle_best}
use ai_fs.Worker.Server.{write_answer, serve_http}
use ai_fs.Gateway.Prompt.{read_body}
use ai_fs.Gateway.Calls.{pick_worker, forward_to_worker}
use ai_fs.Gateway.Service.{best_reply, gateway_picks_best, forward_reaches_pool}

abbrev node : WorkerInfo ℕ
node = record { id = "z"; ip = "10.0.0.1"; port = 80; gpus = []; status = worker_idle }

abbrev ready : Controller (Dict String String)
ready =
    (register_worker address reliable worker_documents id_documents keys (λ c. c) 12 node
      (record { kv = []; seen = []; lastseen = [] })).0

-- While the workers are loaded, a tick of the check comes, which finds nothing.
abbrev waiting : ℕ → Controller (Dict String String) → Controller (Dict String String)
waiting n c = check_heartbeats address reliable worker_documents id_documents keys 6 12 c

abbrev controller_get : String → Option HttpReply
controller_get url =
    best_reply worker_documents
      (handle_best address reliable worker_documents id_documents keys percents waiting ready).1

gateway_picks_best_example :
    pick_worker controller_get worker_documents "http://c"
    ≡ (pick_best_worker address reliable worker_documents id_documents keys percents waiting
        ready).1
gateway_picks_best_example =
    gateway_picks_best address reliable worker_documents id_documents keys percents waiting ready
      controller_get "http://c" refl

abbrev echo : String → Option ChatResponse
echo prompt = some (record { reply = prompt; worker_id = "z"; gpu_id = 1 })

abbrev worker_post : (url body : String) → Option HttpReply
worker_post url body =
    write_answer response_documents
      (serve_http echo true "/v1/chat/completions" (read_body request_documents (some body)))

hi_not_empty : ◌≢◌ {A = String} "hi" ""
hi_not_empty e = grind (arith, string_eq.same_key "hi" "")

forward_reaches_pool_example :
    forward_to_worker address worker_post request_documents response_documents node "hi" ≡ echo "hi"
forward_reaches_pool_example =
    forward_reaches_pool address request_documents response_documents worker_post echo node "hi"
      hi_not_empty (λ body. refl)
