-- ===== src/Kvraft/Clerk.antt =====
-- kvraft/client.go: the RPC client, which retries until it has an answer. The answers of the
-- servers that it asks, one after the other, are an argument: `none` where `Call` returns false.
use ai_fs.Prelude.{
  ℕ, ◌+◌, ◌%◌, ◌≡◌, ◌⊎◌, String, ◌||◌, if◌then◌else◌, Option, none, some, List, [], ◌∷◌,
}
use ai_fs.Prelude.Dict.{◌==◌, string_eq}
use ai_fs.Kvraft.Common.{ok, err_no_key, err_wrong_leader, err_time_out}
use ai_fs.Kvraft.Handlers.{Reply, GetArgs, PutAppendArgs}

pub record Clerk : Type 0 where
  pub servers : ℕ
  pub curr_leader : ℕ
  pub client_id : ℕ
  pub seq_id : ℕ

unfoldable pub make_clerk : (servers client_id : ℕ) → Clerk
make_clerk servers client_id = record {
  servers = servers;
  curr_leader = 0;
  client_id = client_id;
  seq_id = 0;
}

-- The number of an operation, and the clerk that has counted it.
unfoldable pub take_number : Clerk → Clerk × ℕ
take_number ck = (record ck { seq_id = ck.seq_id + 1 }, ck.seq_id)

unfoldable pub next_leader : Clerk → Clerk
next_leader ck = record ck { curr_leader = (ck.curr_leader + 1) % ck.servers }

-- One round of the loop of `Get`: the clerk, and the result if the loop ends.
unfoldable pub get_round : Option Reply → Clerk → Clerk × Option String
unfolding next_leader
get_round none ck = (next_leader ck, none)
get_round (some reply) ck =
    if reply.err == err_wrong_leader || reply.err == err_time_out
    then (next_leader ck, none)
    else if reply.err == err_no_key
    then (ck, some "")
    else if reply.err == ok
    then (ck, some reply.value)
    else (ck, none)

-- The loop over the answers that come: no result while no round ends it.
module _ {A : Type 0} (round : Option Reply → Clerk → Clerk × Option A) where
  unfoldable pub rounds : List (Option Reply) → Clerk → Clerk × Option A
  rounds [] ck = (ck, none)
  rounds (answer ∷ answers) ck =
      let (ck', result) = round answer ck in
      let rest = rounds answers ck' in elim result [ some value ↦ (ck', some value) | none ↦ rest ]

-- `Get`, with the arguments of all its calls.
unfoldable pub clerk_get :
    (key : String) → List (Option Reply) → Clerk → GetArgs × Clerk × Option String
unfolding take_number rounds get_round
clerk_get key answers ck =
    let (ck', number) = take_number ck in
    let (ck'', result) = rounds get_round answers ck' in
    (record { key = key; seq_id = number; client_id = ck.client_id }, ck'', result)

-- One round of the loop of `PutAppend`. Its reply has no value, which is left empty here.
unfoldable pub put_round : Option Reply → Clerk → Clerk × Option (Unit {0})
unfolding next_leader
put_round none ck = (next_leader ck, none)
put_round (some reply) ck =
    if reply.err == err_wrong_leader || reply.err == err_time_out
    then (next_leader ck, none)
    else if reply.err == ok
    then (ck, some tt)
    else (ck, none)

-- `PutAppend`, with the arguments of all its calls.
unfoldable pub clerk_put_append :
    (key value op : String)
    → List (Option Reply)
    → Clerk
    → PutAppendArgs × Clerk × Option (Unit {0})
unfolding take_number rounds put_round
clerk_put_append key value op answers ck =
    let (ck', number) = take_number ck in
    let (ck'', result) = rounds put_round answers ck' in
    (
      record { key = key; value = value; op = op; seq_id = number; client_id = ck.client_id },
      ck'',
      result,
    )

-- A call that fails, or an answer of a server that does not lead or was too slow.
abbrev pub IsRefused : Option Reply → Type 0
IsRefused none = Unit {0}
IsRefused (some reply) = (reply.err ≡ err_wrong_leader) ⊎ (reply.err ≡ err_time_out)

abbrev pub AllRefused : List (Option Reply) → Type 0
AllRefused [] = Unit {0}
AllRefused (answer ∷ answers) = IsRefused answer × AllRefused answers
