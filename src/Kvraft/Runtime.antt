-- ===== src/Kvraft/Runtime.antt =====
-- kvraft/runtime/cluster.go: how a cluster of servers comes up in one process. The simulated network
-- is a library of its own, and `fmt.Sprintf("raft-%d-to-%d", …)` is outside.
pub mod Wired
pub mod Enabled
pub mod Rise
pub mod Shutdown
mod Tests
use ai_fs.Prelude.{
  ℕ, zero, suc, ◌+◌, ◌≡◌, String, Bool, true, false, ◌&&◌, ◌||◌, not, if◌then◌else◌, Option, none,
  some, List, [], ◌∷◌, ◌++◌, length, replicate, get_elem?, set, ◌>>=◌,
}
use ai_fs.Prelude.Dict.{◌==◌, nat_eq, string_eq}
use ai_fs.Raft.Persister.{Persister, make_persister}
use ai_fs.Raft.State.{Codec, Persistent}
use ai_fs.Kvraft.Common.{Op, Tables, KvServer}
use ai_fs.Kvraft.Applier.{start_kv_server, kill}

-- The network as its users see it: an end has a name, is enabled or not, and leads to a server.
-- An end that is there already is not made again: the program stops, `none`.
pub record Labrpc (N : Type 0) : Type 0 where
  pub make_network : N
  pub make_end : String → N → Option N
  pub connect : String → (server : ℕ) → N → N
  pub add_server : ℕ → KvServer → N → N
  pub enable : String → Bool → N → N
  pub cleanup : N → N
  pub has_end : String → N → Bool
  pub is_enabled : String → N → Bool
  pub target : String → N → Option ℕ
  pub has_end-make_network : (e : String) → has_end e make_network ≡ false
  pub make_end_total :
      (e : String) (net : N) → has_end e net ≡ false → (net' : N) × (make_end e net ≡ some net')
  pub has_end-make_end :
      (e f : String) (net net' : N)
      → make_end e net ≡ some net'
      → has_end f net' ≡ ((e == f) || has_end f net)
  pub target-make_end :
      (e f : String) (net net' : N)
      → make_end e net ≡ some net'
      → (e == f) ≡ false
      → target f net' ≡ target f net
  pub has_end-connect :
      (e f : String) (server : ℕ) (net : N) → has_end f (connect e server net) ≡ has_end f net
  pub target-connect :
      (e f : String) (server : ℕ) (net : N)
      → target f (connect e server net) ≡ (if e == f then some server else target f net)
  pub has_end-add_server :
      (i : ℕ) (kv : KvServer) (f : String) (net : N)
      → has_end f (add_server i kv net) ≡ has_end f net
  pub target-add_server :
      (i : ℕ) (kv : KvServer) (f : String) (net : N) → target f (add_server i kv net) ≡ target f net
  pub is_enabled-enable :
      (e f : String) (b : Bool) (net : N)
      → is_enabled f (enable e b net) ≡ (if e == f then b else is_enabled f net)
  pub target-enable : (e f : String) (b : Bool) (net : N) → target f (enable e b net) ≡ target f net

-- `nil` is `none`. An HTTP server is what it listens on.
pub record Runtime (N : Type 0) : Type 0 where
  pub net : N
  pub n : ℕ
  pub kv : List (Option KvServer)
  pub http : List (Option String)
  pub saved : List (Option Persister)
  pub http_addrs : List String

module _ {N : Type 0} (labrpc : Labrpc N) (format : ℕ → ℕ → String) where
  -- The first loop of `startServer`, from end `j` on.
  unfoldable pub start_ends : (i left j : ℕ) → N → Option N
  start_ends i zero j net = some net
  start_ends i (suc left) j net = do
    net' ← labrpc.make_end (format i j) net
    start_ends i left (j + 1) (labrpc.connect (format i j) j net')

  -- The inner loop of `connectAll`, from server `j` on.
  unfoldable pub enable_row : (i left j : ℕ) → N → N
  enable_row i zero j net = net
  enable_row i (suc left) j net =
      enable_row i left (j + 1)
        (labrpc.enable (format j i) true (labrpc.enable (format i j) true net))

  -- The outer one, from server `i` on.
  unfoldable pub enable_rows : (n left i : ℕ) → N → N
  unfolding enable_row
  enable_rows n zero i net = net
  enable_rows n (suc left) i net = enable_rows n left (i + 1) (enable_row i n 0 net)

  unfoldable pub connect_all : Runtime N → Runtime N
  unfolding enable_rows
  connect_all c = record c { net = enable_rows c.n c.n 0 c.net }

  module _ (raft_codec : Codec (Persistent Op)) (codec : Codec Tables) (now : ℕ)
      (max_raft_state : Option ℕ) where
    -- It returns no error. An address beyond the list is a panic.
    unfoldable pub start_server : (i : ℕ) → Runtime N → Option (Runtime N)
    unfolding start_ends
    start_server i c = do
      net ← start_ends i c.n 0 c.net
      let server = start_kv_server raft_codec codec now c.n i make_persister max_raft_state
      addr ← get_elem? c.http_addrs i
      some (record c {
        net = labrpc.add_server i server net;
        kv = set c.kv i (some server);
        http = set c.http i (some addr);
        saved = set c.saved i (some make_persister);
      })

    -- The loop over the servers, from `i` on.
    unfoldable pub start_servers : (left i : ℕ) → Runtime N → Option (Runtime N)
    unfolding start_server
    start_servers zero i c = some c
    start_servers (suc left) i c = do c' ← start_server i c; start_servers left (i + 1) c'

    -- `NewCluster`: `none` is a stop of the program, and `some none` an error.
    unfoldable pub bring_up : (n : ℕ) → List String → Option (Option (Runtime N))
    unfolding start_servers connect_all
    bring_up n http_addrs = if not (length http_addrs == n) then some none else (do
      c ← start_servers n 0 (record {
        net = labrpc.make_network;
        n = n;
        kv = replicate n none;
        http = replicate n none;
        saved = replicate n none;
        http_addrs = http_addrs;
      })
      some (some (connect_all c)))

module _ {N : Type 0} where
  -- A round of the loop of `Shutdown`, with the servers that it kills. An index out of range is a
  -- panic.
  unfoldable pub stop_server : (i : ℕ) → Runtime N → Option (Runtime N × List KvServer)
  stop_server i c = do
    front ← get_elem? c.http i
    server ← get_elem? c.kv i
    some (
      record c { http = set c.http i none; kv = set c.kv i none },
      elim server [ none ↦ [] | some kv ↦ kill kv ∷ [] ],
    )

  unfoldable pub stop_servers : (left i : ℕ) → Runtime N → Option (Runtime N × List KvServer)
  unfolding stop_server
  stop_servers zero i c = some (c, [])
  stop_servers (suc left) i c = do
    stopped ← stop_server i c
    rest ← stop_servers left (i + 1) stopped.0
    some (rest.0, stopped.1 ++ rest.1)

  unfoldable pub shutdown : Labrpc N → Runtime N → Option (Runtime N × List KvServer)
  unfolding stop_servers
  shutdown labrpc c = do
    stopped ← stop_servers c.n 0 c
    some (record (stopped.0) { net = labrpc.cleanup stopped.0.net }, stopped.1)
