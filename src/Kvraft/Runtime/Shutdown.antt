-- ===== src/Kvraft/Runtime/Shutdown.antt =====
-- `Shutdown` kills every server that is up.
use mathlib.Core.Option.{some-injective}
use ai_fs.Prelude.{
  ℕ, zero, suc, ◌+◌, ◌≤◌, ◌<◌, ◌≡◌, refl, sym, ap, ◌∙◌, subst, inl, inr, Bool-cases, Option, none,
  some, List, [], ◌∷◌, ◌++◌, Among, length, length-set, get_elem?, get_elem?_total,
  get_elem?-set_self, get_elem?-set_ne, set, arith,
}
use ai_fs.Prelude.Dict.{◌==◌, nat_eq}
use ai_fs.Kvraft.Common.{KvServer}
use ai_fs.Kvraft.Applier.{kill}
use ai_fs.Kvraft.Runtime.{Labrpc, Runtime, stop_server, stop_servers, shutdown}

Among-append_right : (x : KvServer) (xs ys : List KvServer) → Among x ys → Among x (xs ++ ys)
Among-append_right x [] ys m = m
Among-append_right x (y ∷ xs) ys m = inr (Among-append_right x xs ys m)

module _ {N : Type 0} where
  -- What a stop of the servers from `i` on leaves of server `a`.
  record IsStopped (a i : ℕ) (c c' : Runtime N) (killed : List KvServer) : Type 0 where
    before : a < i → get_elem? c'.kv a ≡ get_elem? c.kv a
    gone : i ≤ a → get_elem? c'.kv a ≡ some none
    dead :
        (server : KvServer)
        → i ≤ a
        → get_elem? c.kv a ≡ some (some server)
        → Among (kill server) killed

  stop_servers-IsStopped :
      (a n left i : ℕ) (c : Runtime N)
      → a < n
      → i + left ≡ n
      → length c.kv ≡ n
      → length c.http ≡ n
      → (c' : Runtime N) × (killed : List KvServer) × (stop_servers left i c ≡ some (c', killed))
        × IsStopped a i c c' killed
  unfolding stop_servers stop_server
  stop_servers-IsStopped a n zero i c lt at room fronts = (
    c,
    [],
    refl,
    record {
      before = λ _. refl;
      gone = λ h. absurd (omega arith);
      dead = λ s h e. absurd (omega arith);
    },
  )
  stop_servers-IsStopped a n (suc left) i c lt at room fronts =
      let (front, f) = get_elem?_total c.http i (omega arith) in
      let (server, e) = get_elem?_total c.kv i (omega arith) in
      let mid : Runtime N = record c { http = set c.http i none; kv = set c.kv i none } in
      let (c', killed, run, stopped) =
        stop_servers-IsStopped a n left (i + 1) mid lt (omega arith) (length-set c.kv i none ∙ room)
          (length-set c.http i none ∙ fronts) in
      let own : List KvServer = elim server [ none ↦ [] | some kv ↦ kill kv ∷ [] ] in
      (
        c',
        own ++ killed,
        rw (f, e, run) refl,
        record {
          before =
              λ h. stopped.before (omega arith) ∙ get_elem?-set_ne c.kv none (λ same. omega arith);
          gone = λ h. elim (Bool-cases (i == a)) [
            | inl same ↦
                let eq = (nat_eq.same_key i a).0 same in
                stopped.before (omega arith)
                ∙ subst (λ x. get_elem? (set c.kv i none) x ≡ some none) eq
                    (get_elem?-set_self c.kv i none (omega arith))
            | inr other ↦ stopped.gone (ground (arith, nat_eq.same_key i a))
          ];
          dead = λ s h found. elim (Bool-cases (i == a)) [
            | inl same ↦
                let eq = (nat_eq.same_key i a).0 same in
                let up : server ≡ some s =
                  some-injective server (some s) (sym e ∙ ap (get_elem? c.kv) eq ∙ found) in
                subst
                  (λ (o : Option KvServer).
                    Among (kill s) ((elim o [ none ↦ [] | some kv ↦ kill kv ∷ [] ]) ++ killed))
                  (sym up) (inl refl)
            | inr other ↦ Among-append_right (kill s) own killed (
                stopped.dead s (ground (arith, nat_eq.same_key i a))
                  (get_elem?-set_ne c.kv none (λ eq. ground (arith, nat_eq.same_key i a)) ∙ found))
          ];
        },
      )

  -- `Shutdown` does not panic, leaves no server, and has killed each that was up.
  pub shutdown_kills :
      (labrpc : Labrpc N) (a n : ℕ) (server : KvServer) (c : Runtime N)
      → a < n
      → c.n ≡ n
      → length c.kv ≡ n
      → length c.http ≡ n
      → get_elem? c.kv a ≡ some (some server)
      → (c' : Runtime N) × (killed : List KvServer) × (shutdown labrpc c ≡ some (c', killed))
        × (get_elem? c'.kv a ≡ some none)
        × Among (kill server) killed
  unfolding shutdown
  shutdown_kills labrpc a n server c lt size room fronts found =
      let (c', killed, run, stopped) =
        stop_servers-IsStopped a n c.n 0 c lt (omega arith) room fronts in
      (
        record c' { net = labrpc.cleanup c'.net },
        killed,
        rw run refl,
        stopped.gone (omega arith),
        stopped.dead server (omega arith) found,
      )
