-- ===== src/Kvraft/Retries.antt =====
-- The retries of the RPC client.
use native.Mathlib.Nat.{mod-lt, mod-eq_of_lt, mod-add-mod}
use ai_fs.Prelude.{
  ℕ, suc, ◌+◌, ◌%◌, ◌<◌, ◌≡◌, refl, ap, ◌∙◌, inl, inr, String, Option, none, some, List, [], ◌∷◌,
  ◌++◌, length, arith,
}
use ai_fs.Prelude.Dict.{string_eq}
use ai_fs.Kvraft.Common.{ok}
use ai_fs.Kvraft.Handlers.{Reply}
use ai_fs.Kvraft.Clerk.{
  Clerk, next_leader, get_round, put_round, rounds, clerk_get, clerk_put_append, IsRefused,
  AllRefused,
}

get_round_refused :
    (answer : Option Reply) (ck : Clerk)
    → IsRefused answer
    → get_round answer ck ≡ (next_leader ck, none)
unfolding get_round
get_round_refused none ck h = refl
get_round_refused (some reply) ck (inl e) = rw (get_round, e) refl
get_round_refused (some reply) ck (inr e) = rw (get_round, e) refl

get_round_ok :
    (reply : Reply) (ck : Clerk)
    → reply.err ≡ ok
    → get_round (some reply) ck ≡ (ck, some reply.value)
unfolding get_round
get_round_ok reply ck e = rw (get_round, e) refl

abbrev pub moved : ℕ → Clerk → Clerk
moved k ck = record ck { curr_leader = (ck.curr_leader + k) % ck.servers }

moved_next : (k : ℕ) (ck : Clerk) → moved k (next_leader ck) ≡ moved (suc k) ck
unfolding next_leader
moved_next k ck =
    ap (λ p. record ck { curr_leader = p })
      (mod-add-mod (ck.curr_leader + 1) ck.servers k ∙ ap (λ n. n % ck.servers) (omega arith))

put_round_refused :
    (answer : Option Reply) (ck : Clerk)
    → IsRefused answer
    → put_round answer ck ≡ (next_leader ck, none)
unfolding put_round
put_round_refused none ck h = refl
put_round_refused (some reply) ck (inl e) = rw (put_round, e) refl
put_round_refused (some reply) ck (inr e) = rw (put_round, e) refl

put_round_ok :
    (reply : Reply) (ck : Clerk) → reply.err ≡ ok → put_round (some reply) ck ≡ (ck, some tt)
unfolding put_round
put_round_ok reply ck e = rw (put_round, e) refl

-- A loop whose rounds pass over refusals and end at an OK.
module _ {A : Type 0} (round : Option Reply → Clerk → Clerk × Option A) (value : Reply → A)
    (passes : (answer : Option Reply) (ck : Clerk)
      → IsRefused answer
      → round answer ck ≡ (next_leader ck, none))
    (stops : (reply : Reply) (ck : Clerk)
      → reply.err ≡ ok
      → round (some reply) ck ≡ (ck, some (value reply))) where
  rounds_lem :
      (answers : List (Option Reply)) (reply : Reply) (rest : List (Option Reply)) (ck : Clerk)
      → ck.curr_leader < ck.servers
      → AllRefused answers
      → reply.err ≡ ok
      → rounds round (answers ++ (some reply ∷ rest)) ck
        ≡ (moved (length answers) ck, some (value reply))
  unfolding rounds next_leader
  rounds_lem [] reply rest ck lt h e =
      let none_added : ck.curr_leader + 0 ≡ ck.curr_leader = omega arith in
      let same = ap (λ n. n % ck.servers) none_added ∙ mod-eq_of_lt lt in
      let place : (ck.curr_leader + 0) % ck.servers ≡ ck.curr_leader = same in
      ground (arith, stops reply ck e)
  rounds_lem (answer ∷ answers) reply rest ck lt (r, h) e =
      let ih =
        rounds_lem answers reply rest (next_leader ck) (mod-lt (ck.curr_leader + 1) (omega arith)) h
          e in
      rw (rounds, passes answer ck r)
        (ap (λ p. rounds round (answers ++ (some reply ∷ rest)) p.0) (passes answer ck r)
          ∙ ih
          ∙ ap (λ c. (c, some (value reply))) (moved_next (length answers) ck))

-- If the answers to a `Get` are refusals (a failed call, ErrWrongLeader or ErrTimeOut) and then OK,
-- the clerk returns the value of that OK. All its calls have one number, which it has not used
-- before, and it has moved on by one server for each refusal.
pub clerk_get_returns :
    (key : String) (answers : List (Option Reply)) (reply : Reply) (rest : List (Option Reply))
    (ck : Clerk)
    → ck.curr_leader < ck.servers
    → AllRefused answers
    → reply.err ≡ ok
    → clerk_get key (answers ++ (some reply ∷ rest)) ck ≡ (
      record { key = key; seq_id = ck.seq_id; client_id = ck.client_id },
      record (moved (length answers) ck) { seq_id = ck.seq_id + 1 },
      some reply.value,
    )
unfolding clerk_get
clerk_get_returns key answers reply rest ck lt h e =
    let all =
      rounds_lem get_round (λ r. r.value) get_round_refused get_round_ok answers reply rest
        (record ck { seq_id = ck.seq_id + 1 }) lt h e in
    rw all refl

-- If the answers to a `PutAppend` are refusals and then OK, the clerk returns, and needs no further
-- answer. All its calls have one number, which it has not used before, and it has moved on by one
-- server for each refusal.
pub clerk_put_append_returns :
    (key value op : String) (answers : List (Option Reply)) (reply : Reply)
    (rest : List (Option Reply)) (ck : Clerk)
    → ck.curr_leader < ck.servers
    → AllRefused answers
    → reply.err ≡ ok
    → clerk_put_append key value op (answers ++ (some reply ∷ rest)) ck ≡ (
      record { key = key; value = value; op = op; seq_id = ck.seq_id; client_id = ck.client_id },
      record (moved (length answers) ck) { seq_id = ck.seq_id + 1 },
      some tt,
    )
unfolding clerk_put_append
clerk_put_append_returns key value op answers reply rest ck lt h e =
    let all =
      rounds_lem put_round (λ r. tt) put_round_refused put_round_ok answers reply rest
        (record ck { seq_id = ck.seq_id + 1 }) lt h e in
    rw all refl
