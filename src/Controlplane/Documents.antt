-- ===== src/Controlplane/Documents.antt =====
-- A concrete encoding of data as texts, and a concrete cluster, with which the arguments of the
-- registry are instantiated.
use Prim.Native.Char.{char, code}
use Prim.Native.String as Text
use ai_fs.Prelude.{
  ltb, ℕ, zero, suc, ◌+◌, ◌≡◌, refl, String, true, false, if◌then◌else◌, Option, none, some, List,
  [], ◌∷◌, ◌++◌, arith,
}
use ai_fs.Prelude.Dict.{Dict, ◌==◌, nat_eq, string_eq, lookup, insert, lookup-insert}
use ai_fs.Prelude.Coding.{Coding, numbers, texts, pairs, lists, by_way}
use ai_fs.Models.{WorkerInfo, GpuInfo, ChatMessage, ChatRequest, ChatResponse}
use ai_fs.Controlplane.Scheduling.{Floats, Set}
use ai_fs.Controlplane.Registry.{Kv, Json}

-- A number as so many letters a before a letter b.
marks : ℕ → String → String
marks zero s = Text.◌∷◌ (char 98 tt) s
marks (suc n) s = Text.◌∷◌ (char 97 tt) (marks n s)

spell : List ℕ → String
spell [] = Text.[]
spell (n ∷ ns) = marks n (spell ns)

count : ℕ → String → List ℕ
count k Text.[] = []
count k (Text.◌∷◌ c s) = if code c == 98 then k ∷ count 0 s else count (k + 1) s

count-marks : (n k : ℕ) (s : String) → count k (marks n s) ≡ (k + n) ∷ count 0 s
unfolding count marks
count-marks zero k s = ground arith
count-marks (suc n) k s = ground (arith, count-marks n (k + 1) s)

count-spell : (ns : List ℕ) → count 0 (spell ns) ≡ ns
unfolding count spell
count-spell [] = refl
count-spell (n ∷ ns) = ground (arith, count-marks n 0 (spell ns), count-spell ns)

module _ {A : Type 0} (a : Coding A) where
  marshal : A → String
  marshal x = Text.◌∷◌ (char 97 tt) (spell (a.put x ++ []))

  unmarshal : String → Option A
  unmarshal Text.[] = none
  unmarshal (Text.◌∷◌ c s) = elim (a.get (count 0 s)) [ none ↦ none | some (x, _) ↦ some x ]

  unmarshal-marshal : (x : A) → unmarshal (marshal x) ≡ some x
  unfolding unmarshal marshal
  unmarshal-marshal x = ground (arith, count-spell (a.put x ++ []), a.get-put x [])

  pub json_of : Json A
  json_of = record {
    marshal = marshal;
    unmarshal = unmarshal;
    unmarshal-marshal = unmarshal-marshal;
  }

gpu_infos : Coding (GpuInfo ℕ)
gpu_infos =
    by_way (pairs numbers (pairs texts (pairs numbers numbers)))
      (λ g. (g.id, (g.model, (g.memory_mb, g.utilization))))
      (λ (id, (model, (memory_mb, utilization))).
        some (record { id = id; model = model; memory_mb = memory_mb; utilization = utilization }))
      (λ g. refl)

worker_infos : Coding (WorkerInfo ℕ)
worker_infos =
    by_way (pairs texts (pairs texts (pairs numbers (pairs (lists gpu_infos) texts))))
      (λ w. (w.id, (w.ip, (w.port, (w.gpus, w.status)))))
      (λ (id, (ip, (port, (gpus, status)))).
        some (record { id = id; ip = ip; port = port; gpus = gpus; status = status }))
      (λ w. refl)

pub worker_documents : Json (WorkerInfo ℕ)
worker_documents = json_of worker_infos

messages : Coding ChatMessage
messages =
    by_way (pairs texts texts) (λ m. (m.role, m.content))
      (λ (role, content). some (record { role = role; content = content })) (λ m. refl)

requests : Coding ChatRequest
requests =
    by_way (pairs texts (pairs texts (pairs (lists messages) numbers)))
      (λ r. (r.prompt, (r.model, (r.messages, r.max_tokens))))
      (λ (prompt, (model, (ms, max_tokens))).
        some (record { prompt = prompt; model = model; messages = ms; max_tokens = max_tokens }))
      (λ r. refl)

responses : Coding ChatResponse
responses =
    by_way (pairs texts (pairs texts numbers)) (λ r. (r.reply, (r.worker_id, r.gpu_id)))
      (λ (reply, (worker_id, gpu_id)).
        some (record { reply = reply; worker_id = worker_id; gpu_id = gpu_id }))
      (λ r. refl)

pub request_documents : Json ChatRequest
request_documents = json_of requests

pub response_documents : Json ChatResponse
response_documents = json_of responses

pub id_documents : Json (List String)
id_documents = json_of (lists texts)

abbrev pub text_of : String → Dict String String → String
text_of key w = elim (lookup key w) [ none ↦ "" | some v ↦ v ]

pub text_of-insert :
    (key value : String) (w : Dict String String) (j : String)
    → text_of j (insert key value w) ≡ (if key == j then value else text_of j w)
text_of-insert key value w j = ground (arith, lookup-insert key j value w)

pub text_of-insert_apart :
    (key value : String) (w : Dict String String) (j : String)
    → (key == j) ≡ false
    → text_of j (insert key value w) ≡ text_of j w
text_of-insert_apart key value w j h = ground (arith, text_of-insert key value w j)

-- A cluster that always answers.
abbrev pub reliable : Kv (Dict String String)
reliable = record {
  put = λ key value w. (insert key value w, true);
  get = λ key w. (w, some (text_of key w));
  stored = λ w key. text_of key w;
  put_apart = λ key value w j h apart. text_of-insert_apart key value w j apart;
}

pub ltb_irrefl : (a : ℕ) → ltb a a ≡ false
ltb_irrefl a = ground arith

pub ltb_trans : (a b : ℕ) (c : ℕ) → ltb a b ≡ true → ltb b c ≡ true → ltb a c ≡ true
ltb_trans a b c h k = ground arith

pub ltb_trans_not : (a b c : ℕ) → ltb b a ≡ false → ltb c b ≡ false → ltb c a ≡ false
ltb_trans_not a b c h k = ground arith

-- Utilizations in percent.
abbrev pub percents : Floats ℕ
percents = record {
  lt = ltb;
  zero = 0;
  thousand = 100000;
  lt_irrefl = ltb_irrefl;
  lt_trans = ltb_trans;
  le_trans = ltb_trans_not;
}

abbrev pub keys : Set → List String
keys [] = []
keys ((id, _) ∷ rest) = id ∷ keys rest

abbrev pub address : String → ℕ → String
address ip port = ip
