-- ===== src/Controlplane/Turns.antt =====
-- Which servers an operation of the client asks, and which answer it takes, while other operations
-- use the client too.
use native.Mathlib.Nat.{mod-lt, mod-eq_of_lt, mod-add-mod, mod-eq-sub-mod}
use ai_fs.Prelude.{
  ◌-◌, sym, ap, ◌∙◌, subst, dec_lt, lt-length_of_get_elem?, ℕ, zero, suc, ◌+◌, ◌%◌, ◌<◌, ◌≤◌, ◌≡◌,
  refl, ◌⊎◌, inl, inr, String, true, false, Bool-cases, Option, none, some, List, [], ◌∷◌, length,
  get_elem?, get_elem?_total, Returns, arith,
}
use ai_fs.Kvraft.Http.{HttpRequest, HttpResponse}
use ai_fs.Controlplane.KvClient.{
  Client, Elsewhere, takes_address, takes_number, other_steps, next_addr, prepare_request, is_retry,
  try_servers, execute,
}

Returns-map :
    {A : Type 0} {P Q : A → Type 0} (r : Option A)
    → ((a : A) → P a → Q a)
    → Returns P r
    → Returns Q r
Returns-map none f p = p
Returns-map (some a) f p = f a p

-- How many addresses other operations take.
abbrev pub takes : List Elsewhere → ℕ
takes [] = 0
takes (takes_address ∷ steps) = suc (takes steps)
takes (takes_number ∷ steps) = takes steps

next_addr_lem :
    (c : Client)
    → c.curr < length c.addrs
    → (addr : String) × (get_elem? c.addrs c.curr ≡ some addr)
      × (next_addr c ≡ some (record c { curr = (c.curr + 1) % length c.addrs }, addr))
unfolding next_addr
next_addr_lem c h = let (addr, e) = get_elem?_total c.addrs c.curr h in (addr, e, ground arith)

-- The position is past the addresses that were taken.
record Passed (steps : List Elsewhere) (c c' : Client) : Type 0 where
  addrs : c'.addrs ≡ c.addrs
  curr : c'.curr ≡ (c.curr + takes steps) % length c.addrs
  seq_id : c.seq_id ≤ c'.seq_id

other_steps_lem :
    (steps : List Elsewhere) (c : Client)
    → c.curr < length c.addrs
    → (c' : Client) × (other_steps steps c ≡ some c') × Passed steps c c'
unfolding other_steps
other_steps_lem [] c h = (
  c,
  refl,
  record {
    addrs = refl;
    curr = sym (ap (λ m. m % length c.addrs) (omega arith) ∙ mod-eq_of_lt h);
    seq_id = omega arith;
  },
)
other_steps_lem (takes_number ∷ steps) c h =
    let (c', run, p) = other_steps_lem steps (record c { seq_id = c.seq_id + 1 }) h in
    (c', run, record { addrs = p.addrs; curr = p.curr; seq_id = omega (arith, p.seq_id) })
other_steps_lem (takes_address ∷ steps) c h =
    let (addr, e, n) = next_addr_lem c h in
    let mid : Client = record c { curr = (c.curr + 1) % length c.addrs } in
    let (c', run, p) = other_steps_lem steps mid (mod-lt (c.curr + 1) (omega arith)) in
    (
      c',
      rw (n, other_steps) run,
      record {
        addrs = p.addrs;
        curr =
            p.curr
            ∙ mod-add-mod (c.curr + 1) (length c.addrs) (takes steps)
            ∙ ap (λ m. m % length c.addrs) (omega arith);
        seq_id = p.seq_id;
      },
    )

module _ (do_once : String → HttpRequest → Option HttpResponse) (others : ℕ → List Elsewhere) where
  -- The servers asked, `tries` at most: `i` is the position before the steps of the others, and each
  -- try takes the one after those that the others took. Each but the last has failed, and the last
  -- one's answer is the result; if all have failed there is none.
  abbrev pub Turns :
      List String → HttpRequest → (i tries : ℕ) → Option HttpResponse → List String → Type 0
  Turns addrs req i zero resp [] = resp ≡ none
  Turns addrs req i zero resp (a ∷ asked) = ⊥
  Turns addrs req i (suc tries) resp [] = ⊥
  Turns addrs req i (suc tries) resp (a ∷ asked) =
      let own = (i + takes (others tries)) % length addrs in
      (get_elem? addrs own ≡ some a)
      × (((is_retry (do_once a req) ≡ true)
            × Turns addrs req ((own + 1) % length addrs) tries resp asked)
          ⊎ ((is_retry (do_once a req) ≡ false) × (resp ≡ do_once a req) × (asked ≡ [])))

  -- The addresses that others take during the last `tries` tries.
  abbrev pub all_takes : (tries : ℕ) → ℕ
  all_takes zero = 0
  all_takes (suc tries) = takes (others tries) + all_takes tries

  abbrev Tried : HttpRequest → ℕ → Client → Client × Option HttpResponse × List String → Type 0
  Tried req tries c (c', resp, asked) =
      Turns c.addrs req c.curr tries resp asked × (c.seq_id ≤ c'.seq_id)

  -- One more server was asked, and failed.
  Tried-retry :
      (tries : ℕ) (req : HttpRequest) (c b : Client) (addr : String)
      → Passed (others tries) c b
      → get_elem? b.addrs b.curr ≡ some addr
      → is_retry (do_once addr req) ≡ true
      → (r : Client × Option HttpResponse × List String)
      → Tried req tries (record b { curr = (b.curr + 1) % length b.addrs }) r
      → Tried req (suc tries) c (r.0, r.1, addr ∷ r.2)
  Tried-retry tries req c b addr p at failed r (turns, least) =
      let same =
        subst
          (λ hs.
            (get_elem? hs b.curr ≡ some addr)
            × Turns hs req ((b.curr + 1) % length hs) tries r.1 r.2)
          p.addrs (at, turns) in
      let own =
        subst
          (λ k.
            (get_elem? c.addrs k ≡ some addr)
            × Turns c.addrs req ((k + 1) % length c.addrs) tries r.1 r.2)
          p.curr same in
      ((own.0, inl (failed, own.1)), omega (arith, p.seq_id, least))

  Returns-asked :
      (P Q : Client × Option HttpResponse × List String → Type 0) (addr : String)
      (m : Option (Client × Option HttpResponse × List String))
      → ((r : Client × Option HttpResponse × List String) → P r → Q (r.0, r.1, addr ∷ r.2))
      → Returns P m
      → Returns Q (elim m [ none ↦ none | some (c, resp, asked) ↦ some (c, resp, addr ∷ asked) ])
  Returns-asked P Q addr none f h = h
  Returns-asked P Q addr (some r) f h = f r h

  try_servers-Turns :
      (tries : ℕ) (req : HttpRequest) (c : Client)
      → c.curr < length c.addrs
      → Returns (Tried req tries c) (try_servers do_once others tries req c)
  unfolding try_servers
  try_servers-Turns zero req c h = (refl, omega arith)
  try_servers-Turns (suc tries) req c h =
      let (b, run, p) = other_steps_lem (others tries) c h in
      let within : b.curr < length b.addrs =
        rw (p.addrs, p.curr) (mod-lt (c.curr + takes (others tries)) (omega arith)) in
      let (addr, at, next) = next_addr_lem b within in
      let c' : Client = record b { curr = (b.curr + 1) % length b.addrs } in
      let rest = try_servers-Turns tries req c' (mod-lt (b.curr + 1) (omega arith)) in
      elim (Bool-cases (is_retry (do_once addr req))) [
        | inl failed ↦
            rw (try_servers, run, next, failed)
              (Returns-asked _ (Tried req (suc tries) c) addr
                (try_servers do_once others tries req c')
                (Tried-retry tries req c b addr p at failed) rest)
        | inr took ↦
            let own = subst (λ hs. get_elem? hs b.curr ≡ some addr) p.addrs at in
            rw (try_servers, run, next, took)
              (
                (subst (λ k. get_elem? c.addrs k ≡ some addr) p.curr own, inr (took, refl, refl)),
                p.seq_id,
              )
      ]

  -- An operation of a client whose position is a server's does not panic, whatever other operations
  -- do to the client before each of its tries. It asks a server for each try, at most as many as
  -- there are, and all under one new number, which no later operation gets: each time the server at
  -- the position that the others have left. It takes the first answer that is neither a failure nor
  -- an ErrWrongLeader or ErrTimeOut, and has none if all tries have failed.
  pub asks_in_turn :
      (req : HttpRequest) (c : Client)
      → c.curr < length c.addrs
      → Returns
          (λ r.
            Turns c.addrs (prepare_request req c).1 c.curr (length c.addrs) r.1 r.2
            × (c.seq_id < (prepare_request req c).1.seq_id)
            × ((prepare_request req c).1.seq_id ≤ r.0.seq_id))
          (execute do_once others req c)
  unfolding execute prepare_request
  asks_in_turn req c h =
      let tried =
        try_servers-Turns (length c.addrs) (prepare_request req c).1 (prepare_request req c).0 h in
      let new : c.seq_id < c.seq_id + 1 = omega arith in ground (arith, tried, new)

  -- Where others take no address, the server at `d` places from `i` is asked, if no other server's
  -- answer was taken before.
  Turns-reach :
      (addrs : List String) (req : HttpRequest) (tries d i : ℕ) (a : String)
      (resp : Option HttpResponse) (asked : List String)
      → d < tries
      → i < length addrs
      → all_takes tries ≡ 0
      → get_elem? addrs ((i + d) % length addrs) ≡ some a
      → is_retry (do_once a req) ≡ false
      → Turns addrs req i tries resp asked
      → is_retry resp ≡ false
  Turns-reach addrs req zero d i a resp asked lt h u e f t = absurd (omega arith)
  Turns-reach addrs req (suc tries) d i a resp [] lt h u e f t = absurd t
  Turns-reach addrs req (suc tries) d i a resp (x ∷ asked) lt h u e f (at, inr (took, same, _)) =
      ground (arith, took, same)
  Turns-reach addrs req (suc tries) zero i a resp (x ∷ asked) lt h u e f (at, inl (failed, t)) =
      let alone : i + 0 ≡ i + takes (others tries) = omega (arith, u) in
      let found = sym (ap (λ n. get_elem? addrs (n % length addrs)) alone) ∙ e in
      ground (arith, failed, f)
  Turns-reach addrs req (suc tries) (suc d) i a resp (x ∷ asked) lt h u e f (at, inl (failed, t)) =
      let own = (i + takes (others tries)) % length addrs in
      let next = (own + 1) % length addrs in
      let step : (own + 1) % length addrs ≡ (i + 1) % length addrs =
        mod-add-mod (i + takes (others tries)) (length addrs) 1
        ∙ ap (λ n. n % length addrs) (omega (arith, u)) in
      let place : (next + d) % length addrs ≡ (i + suc d) % length addrs =
        ap (λ n. (n + d) % length addrs) step
        ∙ mod-add-mod (i + 1) (length addrs) d
        ∙ ap (λ n. n % length addrs) (omega arith) in
      Turns-reach addrs req tries d next a resp asked (omega arith) (mod-lt (own + 1) (omega arith))
        (omega (arith, u)) (ap (get_elem? addrs) place ∙ e) f t

  -- How far server `j` of `n` is from server `i`.
  distance : (i j n : ℕ) → i < n → j < n → (d : ℕ) × (d < n) × ((i + d) % n ≡ j)
  distance i j n h k = elim (dec_lt j i) [
    | yes before ↦ (
      j + n - i,
      omega arith,
      ap (λ m. m % n) (omega arith)
          ∙ mod-eq-sub-mod {n = j + n} {m = n} (omega arith)
          ∙ ap (λ m. m % n) (omega arith)
          ∙ mod-eq_of_lt k,
    )
    | no after ↦ (j - i, omega arith, ap (λ m. m % n) (omega arith) ∙ mod-eq_of_lt k)
  ]

  alone_or_not : (n : ℕ) (P : Type 0) → (all_takes n ≡ 0 → P) → P ⊎ (0 < all_takes n)
  alone_or_not n P f = elim (dec_lt 0 (all_takes n)) [
    | yes more ↦ inr more
    | no none_taken ↦ inl (f (omega arith))
  ]

  -- One server of the list, anywhere in it, gives an answer to the request that is not a failure nor
  -- an ErrWrongLeader nor an ErrTimeOut. Then the operation returns such an answer, unless another
  -- operation takes an address of the client between its tries.
  pub one_leader_is_enough :
      (req : HttpRequest) (c : Client) (j : ℕ) (a : String)
      → c.curr < length c.addrs
      → get_elem? c.addrs j ≡ some a
      → is_retry (do_once a (prepare_request req c).1) ≡ false
      → Returns
          (λ r. (is_retry r.1 ≡ false) ⊎ (0 < all_takes (length c.addrs)))
          (execute do_once others req c)
  one_leader_is_enough req c j a h e f =
      let tries = length c.addrs in
      let (d, lt, at) = distance c.curr j tries h (lt-length_of_get_elem? c.addrs j a e) in
      let there = ap (get_elem? c.addrs) at ∙ e in
      Returns-map (execute do_once others req c)
        (λ r t. alone_or_not tries (is_retry r.1 ≡ false) (λ u.
          Turns-reach c.addrs (prepare_request req c).1 tries d c.curr a r.1 r.2 lt h u there f
            t.0))
        (asks_in_turn req c h)
