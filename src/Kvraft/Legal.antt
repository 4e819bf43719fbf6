-- ===== src/Kvraft/Legal.antt =====
-- The sequential model of the tests accepts what the state machine answers.
use Prim.Native.String.{◌++◌ as concat}
use mathlib.Core.List.{append-nil, append_assoc}
use ai_fs.Prelude.{
  String, ◌≡◌, refl, sym, ap, ◌∙◌, subst, if◌then◌else◌, true, false, Option, none, some,
  Bool-cases, Option-cases, inl, inr, List, [], ◌∷◌, ◌++◌, map, Among, arith, ◌⊎◌,
}
use ai_fs.Prelude.Dict.{
  ==_refl, Dict, ◌==◌, string_eq, nat_eq, lookup, insert, lookup-insert, lookup-insert_self,
  lookup-delete,
}
use ai_fs.Models.Kv.{KvInput, KvOutput, init, step, part_at, by_key, partition}
use ai_fs.Kvraft.Common.{Op, OpReply, Store}
use ai_fs.Kvraft.StateMachine.{
  apply_to_state_machine, text_at, get_handler, put_handler, append_handler,
}

-- An operation of a history, as far as the model reads it.
abbrev pub Served : Type 0
Served = KvInput × KvOutput

-- How a command is recorded, with the reply to it.
abbrev pub served : Op → OpReply → Served
served cmd reply = (
  record {
    op = if cmd.op == "Get" then 0 else if cmd.op == "Put" then 1 else 2;
    key = cmd.key;
    value = cmd.value;
  },
  record { value = reply.value },
)

-- What a client sees of the commands, one after the other.
pub history : List Op → Store → List Served
history [] store = []
history (cmd ∷ cmds) store =
    let (store', reply) = apply_to_state_machine cmd store in served cmd reply ∷ history cmds store'

-- The commands that the model knows.
abbrev pub IsKnown : List Op → Type 0
IsKnown [] = Unit {0}
IsKnown (cmd ∷ cmds) = ((cmd.op ≡ "Get") ⊎ ((cmd.op ≡ "Put") ⊎ (cmd.op ≡ "Append"))) × IsKnown cmds

-- Each step from the state is possible in the model.
abbrev pub IsLegal : (state : String) → List Served → Type 0
IsLegal state [] = Unit {0}
IsLegal state ((inp, out) ∷ vs) =
    ((step state inp out).0 ≡ true) × IsLegal (step state inp out).1 vs

-- The operations of one key.
pub of_key : String → List Served → List Served
of_key k [] = []
of_key k (v ∷ vs) = let rest = of_key k vs in if v.0.key == k then v ∷ rest else rest

-- Another key's command leaves the text.
text_other :
    (cmd : Op) (k : String) (store : Store)
    → (cmd.key == k) ≡ false
    → text_at k (apply_to_state_machine cmd store).0 ≡ text_at k store
unfolding text_at apply_to_state_machine
text_other cmd k store h = ground (
  arith,
  lookup-insert cmd.key k cmd.value store,
  lookup-insert cmd.key k (concat (text_at cmd.key store) cmd.value) store,
  lookup-delete cmd.key k store,
)

text_insert : (k v : String) (store : Store) → text_at k (insert k v store) ≡ v
unfolding text_at
text_insert k v store = rw (text_at, lookup-insert_self) refl

-- A command is a legal step of its key.
text_own :
    (cmd : Op) (store : Store)
    → (cmd.op ≡ "Get") ⊎ ((cmd.op ≡ "Put") ⊎ (cmd.op ≡ "Append"))
    → (let reply = (apply_to_state_machine cmd store).1 in
        let after = step (text_at cmd.key store) (served cmd reply).0 (served cmd reply).1 in
        (after.0 ≡ true) × (after.1 ≡ text_at cmd.key (apply_to_state_machine cmd store).0))
unfolding text_at apply_to_state_machine step get_handler put_handler append_handler
text_own cmd store (inl get) = rw get (elim (Option-cases (lookup cmd.key store)) [
  | inl e ↦ rw (get_handler, text_at, e) (refl, refl)
  | inr (v, e) ↦ rw (get_handler, text_at, e) (==_refl v, refl)
])
text_own cmd store (inr (inl put)) = rw put (refl, sym (text_insert cmd.key cmd.value store))
text_own cmd store (inr (inr append)) =
    rw append (refl, sym (text_insert cmd.key (concat (text_at cmd.key store) cmd.value) store))

of_key-IsLegal :
    (k : String) (cmds : List Op) (store : Store)
    → IsKnown cmds
    → IsLegal (text_at k store) (of_key k (history cmds store))
unfolding of_key history
of_key-IsLegal k [] store h = tt
of_key-IsLegal k (cmd ∷ cmds) store (known, h) =
    let (store', reply) = apply_to_state_machine cmd store in
    let rest = of_key-IsLegal k cmds store' h in
    elim (Bool-cases (cmd.key == k)) [
      | inr other ↦ rw other (
          subst (λ t. IsLegal t (of_key k (history cmds store'))) (text_other cmd k store other)
            rest)
      | inl same ↦
          let at : cmd.key ≡ k = (string_eq.same_key cmd.key k).0 same in
          let (legal, after) = text_own cmd store known in
          rw same (
            subst
              (λ x. IsLegal (text_at x store) (served cmd reply ∷ of_key k (history cmds store')))
              at
              (
                legal,
                subst (λ t. IsLegal t (of_key k (history cmds store')))
                    (ap (λ x. text_at x store') (sym at) ∙ sym after) rest,
              ))
    ]

module _ (range_keys : Dict String (List Served) → List String)
    (sort_strings : List String → List String) where
  part_insert :
      (key k : String) (x : List Served) (m : Dict String (List Served))
      → part_at (λ v. v.0) k (insert key x m) ≡ (if key == k then x else part_at (λ v. v.0) k m)
  part_insert key k x m = ground (arith, lookup-insert key k x m)

  -- The operations under a key are those of before and then the key's of the history.
  by_key-part :
      (k : String) (vs : List Served) (m : Dict String (List Served))
      → part_at (λ v. v.0) k (by_key (λ v. v.0) vs m) ≡ part_at (λ v. v.0) k m ++ of_key k vs
  unfolding by_key of_key
  by_key-part k [] m = sym (append-nil (part_at (λ v. v.0) k m))
  by_key-part k (v ∷ vs) m =
      let key = v.0.key in
      let before = part_at (λ v. v.0) key m in
      by_key-part k vs _
      ∙ ap (λ x. x ++ of_key k vs) (part_insert key k (before ++ (v ∷ [])) m)
      ∙ elim (Bool-cases (key == k)) [
        | inl same ↦ rw same (
            append_assoc before (v ∷ []) (of_key k vs)
            ∙ ap (λ x. part_at (λ v. v.0) x m ++ (v ∷ of_key k vs))
                ((string_eq.same_key key k).0 same))
        | inr other ↦ rw other refl
      ]

  Among-map :
      (f : String → List Served) (k : String) (ks : List String)
      → Among k ks
      → Among (f k) (map f ks)
  Among-map f k [] m = absurd m
  Among-map f k (x ∷ ks) (inl same) = inl (ap f same)
  Among-map f k (x ∷ ks) (inr m) = inr (Among-map f k ks m)

  Among-of_map :
      (f : String → List Served) (part : List Served) (ks : List String)
      → Among part (map f ks)
      → (k : String) × (f k ≡ part)
  Among-of_map f part [] m = absurd m
  Among-of_map f part (x ∷ ks) (inl same) = (x, same)
  Among-of_map f part (x ∷ ks) (inr m) = Among-of_map f part ks m

  Among-of_key : (v : Served) (vs : List Served) → Among v vs → Among v (of_key v.0.key vs)
  unfolding of_key
  Among-of_key v [] m = absurd m
  Among-of_key v (x ∷ vs) (inl same) =
      let own : (x.0.key == v.0.key) ≡ true =
        (string_eq.same_key x.0.key v.0.key).1 (ap (λ y. y.0.key) same) in
      rw own (inl same)
  Among-of_key v (x ∷ vs) (inr m) = elim (Bool-cases (x.0.key == v.0.key)) [
    | inl own ↦ rw own (inr (Among-of_key v vs m))
    | inr other ↦ rw other (Among-of_key v vs m)
  ]

  -- A key with operations stands in the map.
  part_at-lookup :
      (v : Served) (k : String) (m : Dict String (List Served))
      → Among v (part_at (λ v. v.0) k m)
      → (vs : List Served) × (lookup k m ≡ some vs)
  part_at-lookup v k m h = elim (Option-cases (lookup k m)) [
    | inl e ↦
        absurd
          (subst (λ (o : Option (List Served)). Among v (elim o [ none ↦ [] | some vs ↦ vs ])) e h)
    | inr found ↦ found
  ]

  part_lem :
      (k : String) (vs : List Served) → part_at (λ v. v.0) k (by_key (λ v. v.0) vs []) ≡ of_key k vs
  unfolding lookup
  part_lem k vs = by_key-part k vs []

  -- If the order of a map's keys misses no key and sorting loses none, then the parts into which the
  -- tests' model divides the history of the service hold each of its operations, and each part is
  -- legal in the model of one key: whatever the commands are, as long as the model knows them.
  pub model_accepts_service :
      ((m : Dict String (List Served)) (k : String) (vs : List Served)
        → lookup k m ≡ some vs
        → Among k (range_keys m))
      → ((ks : List String) (k : String) → Among k ks → Among k (sort_strings ks))
      → (cmds : List Op) → IsKnown cmds
      → (let vs = history cmds [] in
          let parts = partition (λ v. v.0) range_keys sort_strings vs in
          ((part : List Served) → Among part parts → IsLegal init part)
          × ((v : Served) → Among v vs → (part : List Served) × Among part parts × Among v part))
  unfolding partition text_at lookup
  model_accepts_service ranges sorts cmds known =
      let vs = history cmds [] in
      let m = by_key (λ v. v.0) vs [] in
      let f = λ (k : String). part_at (λ v. v.0) k m in
      (
        λ part among.
            let (k, same) = Among-of_map f part (sort_strings (range_keys m)) among in
            subst (IsLegal init) (sym (part_lem k vs) ∙ same) (of_key-IsLegal k cmds [] known),
        λ v among.
            let k = v.0.key in
            let own = subst (Among v) (sym (part_lem k vs)) (Among-of_key v vs among) in
            let (xs, found) = part_at-lookup v k m own in
            (
              f k,
              Among-map f k (sort_strings (range_keys m))
                  (sorts (range_keys m) k (ranges m k xs found)),
              own,
            ),
      )
