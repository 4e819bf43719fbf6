-- ===== src/Controlplane/Tests.antt =====
-- Small runs of the client and of the choice of a worker, on which the theorems are applied.
use ai_fs.Prelude.{
  refl, not, ◌&&◌, ℕ, zero, suc, ◌<◌, ◌≤◌, ◌≡◌, ◌⊎◌, String, true, false, if◌then◌else◌, Option,
  some, none, List, [], ◌∷◌, arith, Returns,
}
use ai_fs.Prelude.Dict.{Dict, ◌==◌, string_eq, nat_eq, insert, lookup}
use ai_fs.Models.{WorkerInfo, worker_idle, worker_busy}
use ai_fs.Kvraft.StateMachine.{
  recorded, text_at, apply_command, apply_to_state_machine, put_handler,
}
use ai_fs.Kvraft.Handlers.{put_append_command}
use ai_fs.Controlplane.Served.{answer, after, acknowledged_put_stored}
use ai_fs.Kvraft.Common.{Tables, ok, err_wrong_leader}
use ai_fs.Kvraft.Http.{HttpRequest, HttpResponse, http_command, http_response_from_err}
use ai_fs.Controlplane.KvClient.{
  is_retry, Client, operation, prepare_request, execute, client_put, put_result, try_servers,
  other_steps, next_addr, Elsewhere, takes_address, takes_number,
}
use ai_fs.Controlplane.Turns.{Turns, all_takes, asks_in_turn, one_leader_is_enough}
use ai_fs.Controlplane.Scheduling.{Set, contains, pick_lowest_load_worker, pick_best}
use ai_fs.Controlplane.Registry.{Controller, heartbeat, check_heartbeats}
use ai_fs.Controlplane.Registration.{
  record_key, is_stale, check_heartbeats-contains, heartbeat_keeps_records,
}
use ai_fs.Controlplane.Documents.{
  percents, keys, address, reliable, text_of, worker_documents, id_documents,
}
use ai_fs.Controlplane.Best.{Lowest, pick_lowest_load_worker-Lowest, pick_best_cases}

-- The first server is down, the second follows, the third leads.
abbrev cluster : String → HttpRequest → Option HttpResponse
cluster addr req =
    if addr == "a"
    then none
    else if addr == "b"
    then some (record { ok = false; value = ""; err = err_wrong_leader })
    else some (record { ok = true; value = "v"; err = ok })

abbrev caller : Client
caller = record { addrs = "a" ∷ "b" ∷ "c" ∷ []; curr = 0; client_id = 9; seq_id = 4 }

-- Another operation takes a number before the first try, and an address before the last one.
abbrev overlapping : ℕ → List Elsewhere
overlapping zero = takes_address ∷ []
overlapping (suc zero) = []
overlapping (suc (suc n)) = takes_number ∷ []

asks_in_turn_example :
    Returns
      (λ r.
        Turns cluster overlapping caller.addrs
          (prepare_request (operation "get" "k" "") caller).1
          0
          3
          r.1
          r.2
        × (4 < (prepare_request (operation "get" "k" "") caller).1.seq_id)
        × ((prepare_request (operation "get" "k" "") caller).1.seq_id ≤ r.0.seq_id))
      (execute cluster overlapping (operation "get" "k" "") caller)
asks_in_turn_example =
    asks_in_turn cluster overlapping (operation "get" "k" "") caller (omega arith)

-- The leader is not asked, since the other operation has taken its address.
leader_left_out :
    execute cluster overlapping (operation "get" "k" "") caller
    ≡ some (
      record { addrs = "a" ∷ "b" ∷ "c" ∷ []; curr = 1; client_id = 9; seq_id = 6 },
      none,
      "a" ∷ "b" ∷ "a" ∷ [],
    )
unfolding execute try_servers other_steps next_addr prepare_request is_retry
leader_left_out = refl

third_leads : is_retry (cluster "c" (prepare_request (operation "get" "k" "") caller).1) ≡ false
unfolding is_retry
third_leads = refl

-- Others only take numbers.
abbrev numbering : ℕ → List Elsewhere
numbering n = takes_number ∷ []

one_leader_is_enough_example :
    Returns
      (λ r. (is_retry r.1 ≡ false) ⊎ (0 < all_takes cluster numbering 3))
      (execute cluster numbering (operation "get" "k" "") caller)
one_leader_is_enough_example =
    one_leader_is_enough cluster numbering (operation "get" "k" "") caller 2 "c" (omega arith) refl
      third_leads

abbrev tables : Tables
tables = record { kv_store = ("k", "1") ∷ []; record_map = [] }

-- The position after a put under other steps, where the third server leads.
abbrev after_put : Client
after_put = record { addrs = "a" ∷ "b" ∷ "c" ∷ []; curr = 0; client_id = 9; seq_id = 8 }

put_is_ok :
    client_put (answer (λ addr. addr == "c") tables) numbering "k" "2" caller
    ≡ some (after_put, true)
unfolding client_put execute try_servers other_steps next_addr prepare_request is_retry put_result
    http_command http_response_from_err put_append_command apply_command apply_to_state_machine
    recorded put_handler lookup insert
put_is_ok = refl

acknowledged_put_stored_example :
    (text_at "k"
        (after (λ addr. addr == "c") numbering (operation "put" "k" "2") caller tables).kv_store
      ≡ "2")
    × ((j : String)
        → ("k" == j) ≡ false
        → text_at j
            (after (λ addr. addr == "c") numbering (operation "put" "k" "2") caller tables).kv_store
          ≡ text_at j tables.kv_store)
unfolding recorded lookup
acknowledged_put_stored_example =
    acknowledged_put_stored (λ addr. addr == "c") numbering "k" "2" caller (after_put) tables refl
      put_is_ok

abbrev worker : String → String → ℕ → WorkerInfo ℕ
worker id status utilization = record {
  id = id;
  ip = "10.0.0.1";
  port = 80;
  gpus = record { id = 0; model = "g"; memory_mb = 8; utilization = utilization } ∷ [];
  status = status;
}

abbrev workers : List (WorkerInfo ℕ)
workers = worker "x" worker_idle 40 ∷ worker "y" worker_busy 0 ∷ worker "z" worker_idle 10 ∷ []

abbrev heard : Set
heard = ("x", tt) ∷ ("y", tt) ∷ []

pick_lowest_load_worker-Lowest_example :
    Lowest percents heard true workers (pick_lowest_load_worker percents workers heard true)
pick_lowest_load_worker-Lowest_example = pick_lowest_load_worker-Lowest percents heard true workers

pick_best_cases_example :
    ((w : WorkerInfo ℕ) × (pick_best percents workers heard ≡ some w)
      × Lowest percents heard true workers (some w))
    ⊎ (Lowest percents heard true workers none
        × Lowest percents [] false workers (pick_best percents workers heard))
pick_best_cases_example = pick_best_cases percents workers heard

-- A controller that has heard of two workers, of one of them long ago.
abbrev watching : Controller (Dict String String)
watching = record { kv = []; seen = heard; lastseen = ("x", 1) ∷ ("y", 9) ∷ [] }

check_heartbeats-contains_example :
    contains "x"
      (check_heartbeats address reliable worker_documents id_documents keys 6 10 watching).seen
    ≡ (contains "x" heard && not (is_stale 6 10 "x" watching.lastseen))
check_heartbeats-contains_example =
    check_heartbeats-contains address reliable worker_documents id_documents keys 6 10 "x" watching

x_is_dropped :
    contains "x"
      (check_heartbeats address reliable worker_documents id_documents keys 6 10 watching).seen
    ≡ false
unfolding contains lookup
x_is_dropped = check_heartbeats-contains_example

abbrev beaten : Controller (Dict String String)
beaten =
    (heartbeat address reliable worker_documents id_documents keys 11 (worker "x" worker_busy 90)
      watching).0

heartbeat_keeps_records_example :
    ((id : String) → text_of (record_key id) beaten.kv ≡ text_of (record_key id) [])
    × (contains "x" beaten.seen ≡ true)
    × (lookup "x" beaten.lastseen ≡ some 11)
unfolding heartbeat
heartbeat_keeps_records_example =
    heartbeat_keeps_records address reliable worker_documents id_documents keys 11
      (worker "x" worker_busy 90) watching refl
