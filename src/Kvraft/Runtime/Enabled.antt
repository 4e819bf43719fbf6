-- ===== src/Kvraft/Runtime/Enabled.antt =====
-- `connectAll` enables every end, and moves none.
use ai_fs.Prelude.{
  ℕ, zero, suc, ◌+◌, ◌≤◌, ◌<◌, ◌≡◌, refl, ap, ◌∙◌, subst, inl, inr, String, true, Bool-cases, arith,
}
use ai_fs.Prelude.Dict.{◌==◌, nat_eq, string_eq}
use ai_fs.Kvraft.Runtime.{Labrpc, enable_row, enable_rows}

module _ {N : Type 0} (labrpc : Labrpc N) (format : ℕ → ℕ → String) where
  target-enable_row :
      (f : String) (i left j : ℕ) (net : N)
      → labrpc.target f (enable_row labrpc format i left j net) ≡ labrpc.target f net
  unfolding enable_row
  target-enable_row f i zero j net = refl
  target-enable_row f i (suc left) j net =
      target-enable_row f i left (j + 1) _
      ∙ labrpc.target-enable (format j i) f true _
      ∙ labrpc.target-enable (format i j) f true net

  pub target-enable_rows :
      (f : String) (n left i : ℕ) (net : N)
      → labrpc.target f (enable_rows labrpc format n left i net) ≡ labrpc.target f net
  unfolding enable_rows
  target-enable_rows f n zero i net = refl
  target-enable_rows f n (suc left) i net =
      target-enable_rows f n left (i + 1) _ ∙ target-enable_row f i n 0 net

  -- What is enabled stays so.
  stays_enabled :
      (e f : String) (net : N)
      → labrpc.is_enabled f net ≡ true
      → labrpc.is_enabled f (labrpc.enable e true net) ≡ true
  stays_enabled e f net h = ground (arith, labrpc.is_enabled-enable e f true net)

  row_stays :
      (f : String) (i left j : ℕ) (net : N)
      → labrpc.is_enabled f net ≡ true
      → labrpc.is_enabled f (enable_row labrpc format i left j net) ≡ true
  unfolding enable_row
  row_stays f i zero j net h = h
  row_stays f i (suc left) j net h =
      row_stays f i left (j + 1) _
        (stays_enabled (format j i) f _ (stays_enabled (format i j) f net h))

  rows_stay :
      (f : String) (n left i : ℕ) (net : N)
      → labrpc.is_enabled f net ≡ true
      → labrpc.is_enabled f (enable_rows labrpc format n left i net) ≡ true
  unfolding enable_rows
  rows_stay f n zero i net h = h
  rows_stay f n (suc left) i net h = rows_stay f n left (i + 1) _ (row_stays f i n 0 net h)

  row_enabled :
      (i left j b : ℕ) (net : N)
      → j ≤ b
      → b < j + left
      → labrpc.is_enabled (format i b) (enable_row labrpc format i left j net) ≡ true
  unfolding enable_row
  row_enabled i zero j b net low high = absurd (omega arith)
  row_enabled i (suc left) j b net low high = elim (Bool-cases (j == b)) [
    | inl same ↦
        let at = (nat_eq.same_key j b).0 same in
        let on =
          labrpc.is_enabled-enable (format i j) (format i b) true net
          ∙ ground (arith, (string_eq.same_key (format i j) (format i b)).1 (ap (format i) at)) in
        row_stays (format i b) i left (j + 1) _ (stays_enabled (format j i) (format i b) _ on)
    | inr other ↦ row_enabled i left (j + 1) b _ (ground (arith, nat_eq.same_key j b)) (omega arith)
  ]

  pub rows_enabled :
      (n left i a b : ℕ) (net : N)
      → i ≤ a
      → a < i + left
      → b < n
      → labrpc.is_enabled (format a b) (enable_rows labrpc format n left i net) ≡ true
  unfolding enable_rows
  rows_enabled n zero i a b net low high lt = absurd (omega arith)
  rows_enabled n (suc left) i a b net low high lt = elim (Bool-cases (i == a)) [
    | inl same ↦
        let at = (nat_eq.same_key i a).0 same in
        rows_stay (format a b) n left (i + 1) _ (
          subst (λ x. labrpc.is_enabled (format x b) (enable_row labrpc format i n 0 net) ≡ true) at
            (row_enabled i n 0 b net (omega arith) (omega arith)))
    | inr other ↦
        rows_enabled n left (i + 1) a b _ (ground (arith, nat_eq.same_key i a)) (omega arith) lt
  ]
