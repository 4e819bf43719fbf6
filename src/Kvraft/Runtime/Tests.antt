-- ===== src/Kvraft/Runtime/Tests.antt =====
-- A concrete network, with which a cluster of two servers comes up.
use ai_fs.Prelude.{
  ℕ, ◌≡◌, refl, sym, ap, ◌∙◌, String, Bool, true, false, ◌||◌, if◌then◌else◌, Option, none, some,
  List, [], ◌∷◌, get_elem?, Among, arith,
}
use mathlib.Core.Option.{some-injective}
use ai_fs.Prelude.Dict.{◌==◌, string_eq}
use ai_fs.Prelude.Coding.{numbers, pairs}
use ai_fs.Controlplane.Registry.{Json}
use ai_fs.Controlplane.Documents.{json_of}
use ai_fs.Raft.Cluster.{new_cluster}
use ai_fs.Kvraft.Common.{KvServer}
use ai_fs.Kvraft.Applier.{kill}
use ai_fs.Kvraft.Codings.{state_codec, tables_codec}
use ai_fs.Kvraft.Runtime.{Labrpc, Runtime, bring_up, shutdown}
use ai_fs.Kvraft.Runtime.Rise.{brings_up_cluster}

record Net : Type 0 where
  has : String → Bool
  on : String → Bool
  to : String → Option ℕ

abbrev with_end : String → Net → Net
with_end e net = record net {
  has = λ f. (e == f) || net.has f;
  on = λ f. if e == f then false else net.on f;
}

abbrev switched : String → Bool → Net → Net
switched e b net = record net { on = λ f. if e == f then b else net.on f }

abbrev led_to : String → ℕ → Net → Net
led_to e i net = record net { to = λ f. if e == f then some i else net.to f }

abbrev made : String → Net → Option Net
made e net = if net.has e then none else some (with_end e net)

made_total : (e : String) (net : Net) → net.has e ≡ false → (net' : Net) × (made e net ≡ some net')
made_total e net h = (with_end e net, ground arith)

has-made :
    (e f : String) (net net' : Net) → made e net ≡ some net' → net'.has f ≡ ((e == f) || net.has f)
has-made e f net net' h = ground arith

to-made :
    (e f : String) (net net' : Net)
    → made e net ≡ some net'
    → (e == f) ≡ false
    → net'.to f ≡ net.to f
to-made e f net net' h other = ground arith

abbrev network : Labrpc Net
network = record {
  make_network = record { has = λ _. false; on = λ _. false; to = λ _. none };
  make_end = made;
  connect = led_to;
  add_server = λ i kv net. net;
  enable = switched;
  cleanup = λ net. net;
  has_end = λ e net. net.has e;
  is_enabled = λ e net. net.on e;
  target = λ e net. net.to e;
  has_end-make_network = λ e. refl;
  make_end_total = made_total;
  has_end-make_end = has-made;
  target-make_end = to-made;
  has_end-connect = λ e f i net. refl;
  target-connect = λ e f i net. refl;
  has_end-add_server = λ i kv f net. refl;
  target-add_server = λ i kv f net. refl;
  is_enabled-enable = λ e f b net. refl;
  target-enable = λ e f b net. refl;
}

abbrev documents : Json (ℕ × ℕ)
documents = json_of (pairs numbers numbers)

abbrev name : ℕ → ℕ → String
name a b = documents.marshal (a, b)

names_differ : (a b c d : ℕ) → name a b ≡ name c d → (a ≡ c) × (b ≡ d)
names_differ a b c d e =
    let same =
      some-injective (a, b) (c, d)
        (sym (documents.unmarshal-marshal (a, b))
          ∙ ap documents.unmarshal e
          ∙ documents.unmarshal-marshal (c, d)) in
    (ap (λ p. p.0) same, ap (λ p. p.1) same)

abbrev addresses : List String
addresses = ":8001" ∷ ":8002" ∷ []

brings_up_cluster_example :
    (c : Runtime Net) × (bring_up network name state_codec tables_codec 0 (some 1000) 2 addresses
      ≡ some (some c))
    × (network.is_enabled (name 0 1) c.net ≡ true)
    × (network.target (name 0 1) c.net ≡ some 1)
    × ((server : KvServer) × (get_elem? c.kv 0 ≡ some (some server))
        × (server.rf ≡ (new_cluster state_codec 2 0).peer 0)
        × ((c' : Runtime Net) × (killed : List KvServer) × (shutdown network c ≡ some (c', killed))
            × (get_elem? c'.kv 0 ≡ some none)
            × Among (kill server) killed))
brings_up_cluster_example =
    brings_up_cluster network name names_differ state_codec tables_codec 0 (some 1000) 2 0 1
      addresses refl (omega arith) (omega arith)
