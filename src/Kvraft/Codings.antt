-- ===== src/Kvraft/Codings.antt =====
-- Concrete encodings of commands, of the state of a peer and of the tables, with which the
-- encodings that the service takes as arguments are instantiated.
use ai_fs.Prelude.{ℕ, ◌≡◌, ◌≢◌, refl, Option, none, some, List, [], ◌∷◌, ◌++◌, arith}
use ai_fs.Prelude.Coding.{Coding, numbers, texts, pairs, lists, options, by_way}
use ai_fs.Raft.State.{Codec, Persistent, LogEntry}
use ai_fs.Kvraft.Common.{Op, LastOpRecord, Tables}

-- A whole message, after a first byte of its own.
module _ {A : Type 0} (a : Coding A) where
  encode : A → List ℕ
  encode x = 1 ∷ (a.put x ++ [])

  decode : List ℕ → Option A
  decode [] = none
  decode (_ ∷ ns) = elim (a.get ns) [ none ↦ none | some (x, _) ↦ some x ]

  decode-encode : (x : A) → decode (encode x) ≡ some x
  unfolding decode encode
  decode-encode x = ground (arith, a.get-put x [])

  encode-ne-nil : (x : A) → encode x ≢ []
  unfolding encode
  encode-ne-nil x h = cc

  pub codec_of : Codec A
  codec_of = record {
    encode = encode;
    decode = decode;
    decode-encode = decode-encode;
    encode-ne-nil = encode-ne-nil;
  }

ops : Coding Op
ops =
    by_way (pairs texts (pairs texts (pairs texts (pairs numbers numbers))))
      (λ o. (o.op, (o.key, (o.value, (o.seq_id, o.client_id)))))
      (λ (op, (key, (value, (seq_id, client_id)))).
        some (record { op = op; key = key; value = value; seq_id = seq_id; client_id = client_id }))
      (λ o. refl)

entries : Coding (LogEntry Op)
entries =
    by_way (pairs numbers (options ops)) (λ e. (e.term, e.command))
      (λ (t, c). some (record { term = t; command = c })) (λ e. refl)

states : Coding (Persistent Op)
states =
    by_way (pairs numbers (pairs (options numbers) (pairs (lists entries) (pairs numbers numbers))))
      (λ p. (p.curr_term, (p.voted_for, (p.logs, (p.last_included_index, p.last_included_term)))))
      (λ (t, (v, (es, (i, l)))). some (record {
        curr_term = t;
        voted_for = v;
        logs = es;
        last_included_index = i;
        last_included_term = l;
      }))
      (λ p. refl)

op_records : Coding LastOpRecord
op_records =
    by_way (pairs numbers (pairs texts texts))
      (λ r. (r.last_seq_id, (r.last_reply.err, r.last_reply.value)))
      (λ (n, (e, v)). some (record { last_seq_id = n; last_reply = record { err = e; value = v } }))
      (λ r. refl)

all_tables : Coding Tables
all_tables =
    by_way (pairs (lists (pairs texts texts)) (lists (pairs numbers op_records)))
      (λ t. (t.kv_store, t.record_map)) (λ (s, r). some (record { kv_store = s; record_map = r }))
      (λ t. refl)

pub state_codec : Codec (Persistent Op)
state_codec = codec_of states

pub tables_codec : Codec Tables
tables_codec = codec_of all_tables
