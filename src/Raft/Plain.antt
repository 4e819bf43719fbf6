-- ===== src/Raft/Plain.antt =====
-- A concrete encoding of a peer's state, with which the examples are run.
use ai_fs.Prelude.{ℕ, zero, suc, ◌≡◌, ◌≢◌, refl, Option, some, none, List, [], ◌∷◌, ◌>>=◌}
use ai_fs.Raft.Persister.{Bytes}
use ai_fs.Raft.State.{LogEntry, Codec, Persistent}

unfoldable pub encode_option : Option ℕ → ℕ
encode_option none = 0
encode_option (some c) = suc c

decode_option : ℕ → Option ℕ
decode_option zero = none
decode_option (suc c) = some c

unfoldable pub encode_logs : List (LogEntry ℕ) → Bytes
encode_logs [] = []
encode_logs (e ∷ es) = e.term ∷ encode_option e.command ∷ encode_logs es

decode_logs : Bytes → Option (List (LogEntry ℕ))
decode_logs [] = some []
decode_logs (t ∷ []) = none
decode_logs (t ∷ c ∷ bs) = do
  es ← decode_logs bs
  some (record { term = t; command = decode_option c } ∷ es)

decode-encode_option : (o : Option ℕ) → decode_option (encode_option o) ≡ o
unfolding decode_option encode_option
decode-encode_option none = refl
decode-encode_option (some c) = refl

decode-encode_logs : (es : List (LogEntry ℕ)) → decode_logs (encode_logs es) ≡ some es
unfolding decode_logs encode_logs
decode-encode_logs [] = refl
decode-encode_logs (e ∷ es) = rw (decode-encode_logs es, decode-encode_option)

unfoldable pub encode_state : Persistent ℕ → Bytes
encode_state p =
    p.curr_term
    ∷ encode_option p.voted_for
    ∷ p.last_included_index
    ∷ p.last_included_term
    ∷ encode_logs p.logs

pub decode_state : Bytes → Option (Persistent ℕ)
decode_state (t ∷ v ∷ i ∷ l ∷ bs) = do
  es ← decode_logs bs
  some (record {
    curr_term = t;
    voted_for = decode_option v;
    logs = es;
    last_included_index = i;
    last_included_term = l;
  })
decode_state _ = none

pub decode-encode_state : (p : Persistent ℕ) → decode_state (encode_state p) ≡ some p
unfolding decode_state encode_state
decode-encode_state p = rw (decode-encode_logs p.logs, decode-encode_option)

pub encode_state-ne-nil : (p : Persistent ℕ) → encode_state p ≢ []
unfolding encode_state
encode_state-ne-nil p h = cc

abbrev pub plain : Codec (Persistent ℕ)
plain = record {
  encode = encode_state;
  decode = decode_state;
  decode-encode = decode-encode_state;
  encode-ne-nil = encode_state-ne-nil;
}
