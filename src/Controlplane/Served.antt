-- ===== src/Controlplane/Served.antt =====
-- The cluster as the controller sees it, put together from the client of it and the state machine of
-- its servers. Any of the servers may lead: the others answer with ErrWrongLeader, and a leader
-- applies the command at once.
use ai_fs.Prelude.{
  subst, sym, ◌||◌, ℕ, ◌+◌, ◌≡◌, refl, String, Bool, true, false, if◌then◌else◌, Bool-cases, inl,
  inr, ◌⊎◌, ap, ◌∙◌, List, Option, Option-cases, none, some, [], arith,
}
use ai_fs.Prelude.Dict.{◌==◌, nat_eq, string_eq, lookup-insert, lookup-insert_self}
use ai_fs.Kvraft.Common.{ok, err_time_out, err_wrong_leader, Tables}
use ai_fs.Kvraft.StateMachine.{
  apply_command, apply_to_state_machine, recorded, put_handler, text_at,
}
use ai_fs.Kvraft.Handlers.{put_append_command}
use ai_fs.Kvraft.Http.{HttpRequest, HttpResponse, http_command, bad_request, http_response_from_err}
use ai_fs.Controlplane.KvClient.{
  Elsewhere, put_result, is_retry, execute, Client, operation, prepare_request, client_put,
  client_get,
}
use ai_fs.Controlplane.Registry.{Kv}

abbrev pub answer : (leads : String → Bool) → Tables → String → HttpRequest → Option HttpResponse
answer leads t addr req =
    if leads addr
    then (elim (http_command req) [
      | none ↦ some bad_request
      | some (cmd, with_value) ↦
          let reply = (apply_command cmd t).1 in
          some (http_response_from_err reply.err (if with_value then reply.value else ""))
    ])
    else some (http_response_from_err err_wrong_leader "")

-- The tables after a request that a leader has taken.
abbrev pub served : HttpRequest → Tables → Tables
served req t = elim (http_command req) [
  | none ↦ t
  | some (cmd, with_value) ↦ (apply_command cmd t).0
]

text_at-served :
    (key value : String) (client_id seq_id : ℕ) (t : Tables) (j : String)
    → (key == j) ≡ false
    → text_at j
        (served
          (record { op = "put"; key = key; value = value; client_id = client_id; seq_id = seq_id })
          t).kv_store
      ≡ text_at j t.kv_store
unfolding http_command apply_command apply_to_state_machine recorded put_handler text_at
text_at-served key value client_id seq_id t j h =
    ground (arith, lookup-insert key j value t.kv_store)

-- The tables after an operation of the client: `taken` if an answer was final.
abbrev pub settled :
    Option (Client × Option HttpResponse × List String) → (before taken : Tables) → Tables
settled none before taken = before
settled (some (_, resp, _)) before taken = if is_retry resp then before else taken

settled_cases :
    (r : Option (Client × Option HttpResponse × List String)) (before taken : Tables)
    → (settled r before taken ≡ before) ⊎ (settled r before taken ≡ taken)
settled_cases none before taken = inl refl
settled_cases (some (_, resp, _)) before taken = elim (Bool-cases (is_retry resp)) [
  | inl failed ↦ inl (rw failed refl)
  | inr final ↦ inr (rw final refl)
]

-- `others` are the steps of the client's other operations before each try.
abbrev pub after :
    (leads : String → Bool) (others : ℕ → List Elsewhere) → HttpRequest → Client → Tables → Tables
after leads others op c t =
    settled (execute (answer leads t) others op c) t (served (prepare_request op c).1 t)

pub text_at-after :
    (leads : String → Bool) (others : ℕ → List Elsewhere) (key value : String) (c : Client)
    (t : Tables) (j : String)
    → (key == j) ≡ false
    → text_at j (after leads others (operation "put" key value) c t).kv_store ≡ text_at j t.kv_store
unfolding prepare_request
text_at-after leads others key value c t j h =
    let req = (prepare_request (operation "put" key value) c).1 in
    let run = execute (answer leads t) others (operation "put" key value) c in
    let kept = text_at-served key value c.client_id (c.seq_id + 1) t j h in
    elim (settled_cases run t (served req t)) [
      | inl same ↦ ap (λ s. text_at j s.kv_store) same
      | inr taken ↦ ap (λ s. text_at j s.kv_store) taken ∙ kept
    ]

-- A put with a number that its client's record does not cover is stored.
text_at-served_self :
    (key value : String) (client_id seq_id : ℕ) (t : Tables)
    → recorded client_id seq_id t.record_map ≡ none
    → text_at key
        (served
          (record { op = "put"; key = key; value = value; client_id = client_id; seq_id = seq_id })
          t).kv_store
      ≡ value
unfolding http_command apply_command apply_to_state_machine put_handler text_at put_append_command
text_at-served_self key value client_id seq_id t new =
    ground (arith, lookup-insert_self key value t.kv_store)

same_final : (err : String) → err ≡ ok → (err == err_wrong_leader || err == err_time_out) ≡ false
same_final err e = subst (λ x. (x == err_wrong_leader || x == err_time_out) ≡ false) (sym e) refl

ok_final : (resp : Option HttpResponse) → put_result resp ≡ true → is_retry resp ≡ false
unfolding put_result is_retry
ok_final none h = ground arith
ok_final (some resp) h = same_final resp.err ((string_eq.same_key resp.err ok).0 h)

-- An answer with OK is final.
put_done :
    (do_once : String → HttpRequest → Option HttpResponse) (others : ℕ → List Elsewhere)
    (key value : String) (c c' : Client) (before taken : Tables)
    → client_put do_once others key value c ≡ some (c', true)
    → settled (execute do_once others (operation "put" key value) c) before taken ≡ taken
unfolding client_put put_result is_retry
put_done do_once others key value c c' before taken h =
    elim (Option-cases (execute do_once others (operation "put" key value) c)) [
      | inl stuck ↦ ground arith
      | inr ((c'', none, asked), e) ↦ ground arith
      | inr ((c'', some resp, asked), e) ↦
          let final = ok_final (some resp) (ground arith) in ground arith
    ]

pub acknowledged_put_stored :
    (leads : String → Bool) (others : ℕ → List Elsewhere) (key value : String) (c c' : Client)
    (t : Tables)
    → recorded c.client_id (c.seq_id + 1) t.record_map ≡ none
    → client_put (answer leads t) others key value c ≡ some (c', true)
    → (text_at key (after leads others (operation "put" key value) c t).kv_store ≡ value)
      × ((j : String)
          → (key == j) ≡ false
          → text_at j (after leads others (operation "put" key value) c t).kv_store
            ≡ text_at j t.kv_store)
unfolding prepare_request
acknowledged_put_stored leads others key value c c' t new done =
    let req = (prepare_request (operation "put" key value) c).1 in
    (
      ap (λ s. text_at key s.kv_store)
            (put_done (answer leads t) others key value c c' t (served req t) done)
          ∙ text_at-served_self key value c.client_id (c.seq_id + 1) t new,
      λ j apart. text_at-after leads others key value c t j apart,
    )

-- A panic of the client is a call that fails.
abbrev pub called : {A : Type 0} (failed : A) → Client → Option (Client × A) → Client × A
called failed c result = elim result [ none ↦ (c, failed) | some r ↦ r ]

-- No other operation of the client is under way.
abbrev pub alone : ℕ → List Elsewhere
alone n = []

abbrev pub served_cluster : (leads : String → Bool) → Kv (Client × Tables)
served_cluster leads = record {
  put = λ key value (c, t).
      let (c', done) = called false c (client_put (answer leads t) alone key value c) in
      ((c', after leads alone (operation "put" key value) c t), done);
  get = λ key (c, t).
      let (c', found) = called none c (client_get (answer leads t) alone key c) in
      ((c', after leads alone (operation "get" key "") c t), found);
  stored = λ (c, t) key. text_at key t.kv_store;
  put_apart = λ key value (c, t) j _ apart. text_at-after leads alone key value c t j apart;
}
