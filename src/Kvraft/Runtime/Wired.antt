-- ===== src/Kvraft/Runtime/Wired.antt =====
-- Every end of the network is made once, and leads to its server.
use ai_fs.Prelude.{
  ℕ, zero, suc, ◌+◌, ◌<◌, ◌≡◌, refl, sym, ap, ◌∙◌, subst, inl, inr, String, Bool, true, false, ◌&&◌,
  ◌||◌, ltb, Bool-cases, some, arith,
}
use ai_fs.Prelude.Dict.{◌==◌, nat_eq, string_eq}
use ai_fs.Kvraft.Runtime.{Labrpc, start_ends}

module _ {N : Type 0} (labrpc : Labrpc N) (format : ℕ → ℕ → String)
    (distinct : (a b c d : ℕ) → format a b ≡ format c d → (a ≡ c) × (b ≡ d)) where
  same_name : (a b c d : ℕ) → (format a b == format c d) ≡ ((a == c) && (b == d))
  same_name a b c d = elim (Bool-cases (format a b == format c d)) [
    | inl same ↦
        let (p, q) = distinct a b c d ((string_eq.same_key (format a b) (format c d)).0 same) in
        ground (arith, nat_eq.same_key a c, nat_eq.same_key b d)
    | inr other ↦ elim (Bool-cases ((a == c) && (b == d))) [
      | inl e ↦
          let p : a ≡ c = (nat_eq.same_key a c).0 (ground arith) in
          let q : b ≡ d = (nat_eq.same_key b d).0 (ground arith) in
          let same =
            (string_eq.same_key (format a b) (format c d)).1
              (ap (λ x. format x b) p ∙ ap (format c) q) in
          absurd (ground arith)
      | inr e ↦ other ∙ sym e
    ]
  ]

  -- Before server `i`, or for it before end `j`.
  abbrev pub is_before : (i j a b : ℕ) → Bool
  is_before i j a b = ltb a i || ((a == i) && ltb b j)

  -- The ends made so far, and where they lead.
  pub record IsWired (n i j : ℕ) (net : N) : Type 0 where
    pub made : (a b : ℕ) → b < n → labrpc.has_end (format a b) net ≡ is_before i j a b
    pub aimed :
        (a b : ℕ) → b < n → is_before i j a b ≡ true → labrpc.target (format a b) net ≡ some b

  end-aimed :
      (n i j a b : ℕ) (net net' : N)
      → b < n
      → IsWired n i j net
      → labrpc.make_end (format i j) net ≡ some net'
      → is_before i (j + 1) a b ≡ true
      → labrpc.target (format a b) (labrpc.connect (format i j) j net') ≡ some b
  end-aimed n i j a b net net' lt w e before =
      labrpc.target-connect (format i j) (format a b) j net'
      ∙ elim (Bool-cases (format i j == format a b)) [
        | inl same ↦
            let (p, q) = distinct i j a b ((string_eq.same_key (format i j) (format a b)).0 same) in
            rw same (ap some q)
        | inr other ↦
            let apart : ((i == a) && (j == b)) ≡ false = sym (same_name i j a b) ∙ other in
            let old : is_before i j a b ≡ true =
              ground (arith, nat_eq.same_key i a, nat_eq.same_key j b, nat_eq.same_key a i) in
            rw other (
              labrpc.target-make_end (format i j) (format a b) net net' e other
              ∙ w.aimed a b lt old)
      ]

  end-IsWired :
      (n i j : ℕ) (net net' : N)
      → j < n
      → IsWired n i j net
      → labrpc.make_end (format i j) net ≡ some net'
      → IsWired n i (j + 1) (labrpc.connect (format i j) j net')
  end-IsWired n i j net net' h w e = record {
    made = λ a b lt.
        labrpc.has_end-connect (format i j) (format a b) j net'
        ∙ labrpc.has_end-make_end (format i j) (format a b) net net' e
        ∙ ap (λ x. x || labrpc.has_end (format a b) net) (same_name i j a b)
        ∙ ap (λ x. ((i == a) && (j == b)) || x) (w.made a b lt)
        ∙ ground (arith, nat_eq.same_key i a, nat_eq.same_key j b, nat_eq.same_key a i);
    aimed = λ a b lt before. end-aimed n i j a b net net' lt w e before;
  }

  pub row-IsWired :
      (n i left j : ℕ) (net : N)
      → j + left ≡ n
      → IsWired n i j net
      → (net' : N) × (start_ends labrpc format i left j net ≡ some net') × IsWired n i n net'
  unfolding start_ends
  row-IsWired n i zero j net at w = (net, refl, subst (λ x. IsWired n i x net) (omega arith) w)
  row-IsWired n i (suc left) j net at w =
      let lt : j < n = omega arith in
      let fresh : labrpc.has_end (format i j) net ≡ false =
        w.made i j lt ∙ ground (arith, nat_eq.same_key i i) in
      let (mid, e) = labrpc.make_end_total (format i j) net fresh in
      let (net', run, w') =
        row-IsWired n i left (j + 1) (labrpc.connect (format i j) j mid) (omega arith)
          (end-IsWired n i j net mid lt w e) in
      (net', rw (e, start_ends) run, w')

  -- The next server has no end yet.
  pub next-IsWired : (n i : ℕ) (net : N) → IsWired n i n net → IsWired n (i + 1) 0 net
  next-IsWired n i net w =
      let same : (a b : ℕ) → b < n → is_before (i + 1) 0 a b ≡ is_before i n a b =
        λ a b lt. ground (arith, nat_eq.same_key a i) in
      record {
        made = λ a b lt. w.made a b lt ∙ sym (same a b lt);
        aimed = λ a b lt before. w.aimed a b lt (sym (same a b lt) ∙ before);
      }
