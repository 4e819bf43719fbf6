-- ===== src/Gateway/Tests.antt =====
-- A request on its way through the gateway.
use ai_fs.Prelude.{
  ◌≢◌, true, ℕ, ◌+◌, ◌≤◌, ◌≡◌, ◌⊎◌, refl, String, some, none, [], ◌∷◌, ltb, if◌then◌else◌,
}
use ai_fs.Models.{ChatRequest}
use ai_fs.Gateway.Prompt.{
  prompt_from_request, request, refused as refused_with, accepted as accepted_with, check_chat,
}
use ai_fs.Gateway.Prompt.Latest.{Latest, Silent, checked_prompt}
use ai_fs.Gateway.Pipeline.{
  Gateway, ConnWorker, waiting, new_gateway, conn_queue_cap, dispatch_queue_cap, request_comes,
  conn_receives, picks, happen, Run, here, then_event,
}
use ai_fs.Gateway.Places.{in_flight, answers}
use ai_fs.Gateway.Results.{one_result}
use ai_fs.Gateway.Work.{work}
use ai_fs.Gateway.Progress.{Settles, now, later, Goes, requests_answered}

abbrev queued : Gateway ℕ
queued = record {
  accepted = 1;
  conn_jobs = record { id = 0; prompt = "hello" } ∷ [];
  conn_workers = waiting ∷ [];
  dispatch_jobs = [];
  dispatch_workers = none ∷ [];
  results = [];
}

abbrev taken : Gateway ℕ
taken = record queued {
  conn_jobs = [];
  conn_workers = ConnWorker.picking (record { id = 0; prompt = "hello" }) ∷ [];
}

-- No worker could be picked.
abbrev refused : Gateway ℕ
refused = record taken {
  conn_workers = waiting ∷ [];
  results = record { id = 0; resp = none } ∷ [];
}

came : happen (request_comes "hello") (new_gateway 1 1) ≡ some queued
unfolding happen new_gateway
came = refl

received : happen (conn_receives 0) queued ≡ some taken
unfolding happen
received = refl

not_picked : happen (picks 0 none) taken ≡ some refused
unfolding happen
not_picked = refl

queued-Run : Run (new_gateway 1 1) queued
queued-Run = then_event here (request_comes "hello") came

refused-Run : Run (new_gateway 1 1) refused
refused-Run =
    then_event (then_event queued-Run (conn_receives 0) received) (picks 0 none) not_picked

one_result_example :
    ((id : ℕ) → in_flight id refused + answers id refused ≡ (if ltb id 1 then 1 else 0))
    × (0 ≤ conn_queue_cap)
    × (0 ≤ dispatch_queue_cap)
one_result_example = one_result 1 1 refused refused-Run

settling : Settles queued 2 refused
settling = later (later now (conn_receives 0) tt received) (picks 0 none) tt not_picked

requests_answered_example :
    (2 + work refused ≤ work queued)
    × (Goes refused ⊎ ((id : ℕ) → answers id refused ≡ (if ltb id 1 then 1 else 0)))
requests_answered_example = requests_answered 1 1 2 queued refused queued-Run settling

abbrev two_texts : ChatRequest
two_texts = record {
  prompt = "";
  model = "m";
  messages =
      record { role = "user"; content = "first" }
      ∷ record { role = "user"; content = "second" }
      ∷ record { role = "assistant"; content = "answer" }
      ∷ [];
  max_tokens = 16;
}

takes_second : check_chat true (request two_texts) ≡ some (accepted_with "second")
unfolding check_chat prompt_from_request
takes_second = refl

checked_prompt_example :
    ((text : String) × (check_chat true (request two_texts) ≡ some (accepted_with text))
      × (text ≢ "")
      × (("" ≡ text) ⊎ (◌≡◌ {A = String} "" "" × Latest two_texts.messages 3 text)))
    ⊎ ((check_chat true (request two_texts) ≡ some (refused_with 400))
        × ◌≡◌ {A = String} "" ""
        × Silent two_texts.messages 0 3)
checked_prompt_example = checked_prompt two_texts
