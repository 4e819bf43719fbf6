-- ===== src/Kvraft/Runtime/Rise.antt =====
-- `NewCluster` brings up every server with its ends.
use ai_fs.Prelude.{
  ℕ, zero, suc, ◌+◌, ◌<◌, ◌≡◌, refl, sym, ap, ◌∙◌, subst, inl, inr, String, true, Bool-cases,
  Option, none, some, List, length, length-set, length-replicate, replicate, get_elem?, Among,
  get_elem?_total, get_elem?-set_self, get_elem?-set_ne, set, arith,
}
use ai_fs.Prelude.Dict.{◌==◌, nat_eq, string_eq}
use ai_fs.Raft.Persister.{make_persister}
use ai_fs.Raft.State.{Codec, Persistent}
use ai_fs.Raft.Cluster.{new_cluster}
use ai_fs.Kvraft.Common.{Op, Tables, KvServer}
use ai_fs.Kvraft.Applier.{start_kv_server, kill}
use ai_fs.Kvraft.Runtime.{
  Labrpc, Runtime, enable_rows, connect_all, start_server, start_servers, bring_up, shutdown,
}
use ai_fs.Kvraft.Runtime.Shutdown.{shutdown_kills}
use ai_fs.Kvraft.Runtime.Wired.{IsWired, row-IsWired, next-IsWired}
use ai_fs.Kvraft.Runtime.Enabled.{target-enable_rows, rows_enabled}

module _ {N : Type 0} (labrpc : Labrpc N) (format : ℕ → ℕ → String)
    (distinct : (a b c d : ℕ) → format a b ≡ format c d → (a ≡ c) × (b ≡ d)) where
  module _ (raft_codec : Codec (Persistent Op)) (codec : Codec Tables) (now : ℕ)
      (max_raft_state : Option ℕ) where
    -- The cluster once the servers before `i` are up.
    record IsUp (n i : ℕ) (c : Runtime N) : Type 0 where
      size : c.n ≡ n
      room : length c.kv ≡ n
      fronts : length c.http ≡ n
      listed : length c.http_addrs ≡ n
      wired : IsWired labrpc format distinct n i 0 c.net
      served :
          (k : ℕ)
          → k < i
          → get_elem? c.kv k
            ≡ some (some (start_kv_server raft_codec codec now n k make_persister max_raft_state))

    set_served :
        (n i k : ℕ) (servers : List (Option KvServer))
        → length servers ≡ n
        → i < n
        → k < i + 1
        → ((k : ℕ)
            → k < i
            → get_elem? servers k
              ≡ some
                  (some (start_kv_server raft_codec codec now n k make_persister max_raft_state)))
        → get_elem?
            (set servers i
              (some (start_kv_server raft_codec codec now n i make_persister max_raft_state)))
            k
          ≡ some (some (start_kv_server raft_codec codec now n k make_persister max_raft_state))
    set_served n i k servers room lt high before =
        let server =
          some (start_kv_server raft_codec codec now n i make_persister max_raft_state) in
        elim (Bool-cases (i == k)) [
          | inl same ↦
              let at = (nat_eq.same_key i k).0 same in
              subst
                (λ x.
                  get_elem? (set servers i server) x
                  ≡ some (
                      some
                        (start_kv_server raft_codec codec now n x make_persister max_raft_state)))
                at (get_elem?-set_self servers i server (omega arith))
          | inr other ↦
              get_elem?-set_ne servers server (λ e. ground (arith, nat_eq.same_key i k))
              ∙ before k (ground (arith, nat_eq.same_key i k))
        ]

    server-IsUp :
        (n i : ℕ) (c : Runtime N)
        → i < n
        → IsUp n i c
        → (c' : Runtime N) × (start_server labrpc format raft_codec codec now max_raft_state i c
            ≡ some c')
          × IsUp n (i + 1) c'
    unfolding start_server
    server-IsUp n i c lt up =
        let (net, run, w) =
          row-IsWired labrpc format distinct n i c.n 0 c.net (omega (arith, up.size)) up.wired in
        let (addr, a) = get_elem?_total c.http_addrs i (omega (arith, up.listed)) in
        let server = start_kv_server raft_codec codec now c.n i make_persister max_raft_state in
        let own : start_kv_server raft_codec codec now n i make_persister max_raft_state ≡ server =
          ap (λ m. start_kv_server raft_codec codec now m i make_persister max_raft_state)
            (sym up.size) in
        let w' = next-IsWired labrpc format distinct n i net w in
        (
          record c {
            net = labrpc.add_server i server net;
            kv = set c.kv i (some server);
            http = set c.http i (some addr);
            saved = set c.saved i (some make_persister);
          },
          rw (run, a) refl,
          record {
            size = up.size;
            room = length-set c.kv i (some server) ∙ up.room;
            fronts = length-set c.http i (some addr) ∙ up.fronts;
            listed = up.listed;
            wired = record {
              made =
                  λ a b lt'. labrpc.has_end-add_server i server (format a b) net ∙ w'.made a b lt';
              aimed = λ a b lt' before.
                  labrpc.target-add_server i server (format a b) net ∙ w'.aimed a b lt' before;
            };
            served = λ k high.
                subst
                  (λ s.
                    get_elem? (set c.kv i (some s)) k
                    ≡ some (
                        some
                          (start_kv_server raft_codec codec now n k make_persister max_raft_state)))
                  own (set_served n i k c.kv up.room lt high up.served);
          },
        )

    servers-IsUp :
        (n left i : ℕ) (c : Runtime N)
        → i + left ≡ n
        → IsUp n i c
        → (c' : Runtime N) × (start_servers labrpc format raft_codec codec now max_raft_state left i
              c
            ≡ some c')
          × IsUp n n c'
    unfolding start_servers
    servers-IsUp n zero i c at up = (c, refl, subst (λ x. IsUp n x c) (omega arith) up)
    servers-IsUp n (suc left) i c at up =
        let (mid, e, up') = server-IsUp n i c (omega arith) up in
        let (c', run, done) = servers-IsUp n left (i + 1) mid (omega arith) up' in
        (c', rw (e, start_servers) run, done)

    start_kv_server_rf :
        (n k : ℕ)
        → (start_kv_server raft_codec codec now n k make_persister max_raft_state).rf
          ≡ (new_cluster raft_codec n now).peer k
    unfolding start_kv_server make_persister
    start_kv_server_rf n k = refl

    -- If `Sprintf` gives the ends of different pairs different names, then `NewCluster` with as many
    -- addresses as servers does not stop on an end that is there already: it comes up, each server
    -- has an enabled end to each server, and the Raft peer of each is the new peer of a cluster of
    -- this size. `Shutdown` of that cluster kills this server and leaves none in its place.
    pub brings_up_cluster :
        (n a b : ℕ) (http_addrs : List String)
        → length http_addrs ≡ n
        → a < n
        → b < n
        → (c : Runtime N) × (bring_up labrpc format raft_codec codec now max_raft_state n http_addrs
            ≡ some (some c))
          × (labrpc.is_enabled (format a b) c.net ≡ true)
          × (labrpc.target (format a b) c.net ≡ some b)
          × ((server : KvServer) × (get_elem? c.kv a ≡ some (some server))
              × (server.rf ≡ (new_cluster raft_codec n now).peer a)
              × ((c' : Runtime N) × (killed : List KvServer) × (shutdown labrpc c
                    ≡ some (c', killed))
                  × (get_elem? c'.kv a ≡ some none)
                  × Among (kill server) killed))
    unfolding bring_up connect_all
    brings_up_cluster n a b http_addrs sized lt_a lt_b =
        let fresh : Runtime N = record {
          net = labrpc.make_network;
          n = n;
          kv = replicate n none;
          http = replicate n none;
          saved = replicate n none;
          http_addrs = http_addrs;
        } in
        let start : IsUp n 0 fresh = record {
          size = refl;
          room = length-replicate n none;
          fronts = length-replicate n none;
          listed = sized;
          wired = record {
            made = λ a b lt. labrpc.has_end-make_network (format a b) ∙ ground arith;
            aimed = λ a b lt before. ground arith;
          };
          served = λ k high. absurd (omega arith);
        } in
        let (c, run, up) = servers-IsUp n n 0 fresh (omega arith) start in
        let size : c.n ≡ n = up.size in
        let risen : Runtime N = record c { net = enable_rows labrpc format c.n c.n 0 c.net } in
        (
          risen,
          ground (arith, run),
          rows_enabled labrpc format c.n c.n 0 a b c.net (omega arith) (omega arith) (omega arith),
          target-enable_rows labrpc format (format a b) c.n c.n 0 c.net
              ∙ up.wired.aimed a b lt_b (ground arith),
          (
            start_kv_server raft_codec codec now n a make_persister max_raft_state,
            up.served a lt_a,
            start_kv_server_rf n a,
            shutdown_kills labrpc a n
                (start_kv_server raft_codec codec now n a make_persister max_raft_state) risen lt_a
                up.size up.room up.fronts (up.served a lt_a),
          ),
        )
