-- ===== src/Gateway/Prompt/Latest.antt =====
-- The prompt of a request is its own, or the latest text of a user.
use ai_fs.Prelude.{
  ℕ, zero, suc, ◌≤◌, ◌<◌, ◌≡◌, ◌≢◌, refl, subst, ◌∙◌, ◌⊎◌, inl, inr, String, true, false,
  Bool-cases, some, List, length, get_elem?, get_elem?_total, arith, ℕ_discrete,
}
use ai_fs.Prelude.Dict.{◌==◌, string_eq}
use ai_fs.Models.{ChatMessage, ChatRequest}
use ai_fs.Gateway.Prompt.{
  is_user_text, last_user_text, prompt_from_request, request, refused, accepted, check_chat,
}

-- Among the messages from `low` on and below `high`, none is a text of a user.
abbrev pub Silent : List ChatMessage → (low high : ℕ) → Type 0
Silent messages low high =
    (j : ℕ) (m : ChatMessage)
    → low ≤ j
    → j < high
    → get_elem? messages j ≡ some m
    → is_user_text m ≡ false

-- Message `i` is a text of a user, with that content, and no later one is.
pub record Latest (messages : List ChatMessage) (high : ℕ) (text : String) : Type 0 where
  pub i : ℕ
  pub message : ChatMessage
  pub below : i < high
  pub at : get_elem? messages i ≡ some message
  pub of_user : is_user_text message ≡ true
  pub content : message.content ≡ text
  pub silent : Silent messages (suc i) high

abbrev LatestOrNone : List ChatMessage → ℕ → String → Type 0
LatestOrNone messages high text =
    Latest messages high text ⊎ ((text ≡ "") × Silent messages zero high)

later-Silent :
    (messages : List ChatMessage) (m : ChatMessage) (low i : ℕ)
    → get_elem? messages i ≡ some m
    → is_user_text m ≡ false
    → Silent messages low i
    → Silent messages low (suc i)
later-Silent messages m low i e f s j x l h q = elim (ℕ_discrete j i) [
  | yes same ↦ grind (arith, same)
  | no other ↦ s j x l (omega arith) q
]

silent_next :
    (messages : List ChatMessage) (m : ChatMessage) (i : ℕ) (text : String)
    → get_elem? messages i ≡ some m
    → is_user_text m ≡ false
    → LatestOrNone messages i text
    → LatestOrNone messages (suc i) text
silent_next messages m i text e f (inl l) = inl (record {
  i = l.i;
  message = l.message;
  below = omega (arith, l.below);
  at = l.at;
  of_user = l.of_user;
  content = l.content;
  silent = later-Silent messages m (suc l.i) i e f l.silent;
})
silent_next messages m i text e f (inr (empty, s)) =
    inr (empty, later-Silent messages m zero i e f s)

user_next :
    (messages : List ChatMessage) (m : ChatMessage) (i : ℕ)
    → get_elem? messages i ≡ some m
    → is_user_text m ≡ true
    → Latest messages (suc i) m.content
user_next messages m i e u = record {
  i = i;
  message = m;
  below = omega arith;
  at = e;
  of_user = u;
  content = refl;
  silent = λ j x low high q. absurd (omega arith);
}

user_found :
    (messages : List ChatMessage) (m : ChatMessage) (i : ℕ)
    → get_elem? messages i ≡ some m
    → is_user_text m ≡ true
    → last_user_text messages (suc i) ≡ some m.content
unfolding last_user_text
user_found messages m i e u = ground arith

passed_over :
    (messages : List ChatMessage) (m : ChatMessage) (i : ℕ)
    → get_elem? messages i ≡ some m
    → is_user_text m ≡ false
    → last_user_text messages (suc i) ≡ last_user_text messages i
unfolding last_user_text
passed_over messages m i e f = ground arith

last_user_text_cases :
    (messages : List ChatMessage) (left : ℕ)
    → left ≤ length messages
    → (text : String) × (last_user_text messages left ≡ some text) × LatestOrNone messages left text
unfolding last_user_text
last_user_text_cases messages zero h =
    ("", refl, inr (refl, λ j m low high q. absurd (omega arith)))
last_user_text_cases messages (suc i) h =
    let (text, found, cases) = last_user_text_cases messages i (omega arith) in
    let (m, e) = get_elem?_total messages i (omega arith) in
    elim (Bool-cases (is_user_text m)) [
      | inl u ↦ (m.content, user_found messages m i e u, inl (user_next messages m i e u))
      | inr f ↦
          (text, passed_over messages m i e f ∙ found, silent_next messages m i text e f cases)
    ]

nonempty : (text : String) → (text == "") ≡ false → text ≢ ""
nonempty text f e = grind (arith, string_eq.same_key text "")

is_user_text-nonempty : (m : ChatMessage) → is_user_text m ≡ true → (m.content == "") ≡ false
is_user_text-nonempty m u = ground arith

own_prompt :
    (req : ChatRequest)
    → (req.prompt == "") ≡ false
    → check_chat true (request req) ≡ some (accepted req.prompt)
unfolding check_chat prompt_from_request
own_prompt req f = ground arith

latest_text :
    (req : ChatRequest) (text : String)
    → (req.prompt == "") ≡ true
    → last_user_text req.messages (length req.messages) ≡ some text
    → (text == "") ≡ false
    → check_chat true (request req) ≡ some (accepted text)
unfolding check_chat prompt_from_request
latest_text req text t found f = ground arith

no_text :
    (req : ChatRequest)
    → (req.prompt == "") ≡ true
    → last_user_text req.messages (length req.messages) ≡ some ""
    → check_chat true (request req) ≡ some (refused 400)
unfolding check_chat prompt_from_request
no_text req t found = ground arith

-- A request of method POST whose body is a request: the text that is queued is the request's own
-- prompt, or if it has none the content of the latest message of a user that has content, and is
-- not empty. Without such a text the answer is 400. Nothing panics.
pub checked_prompt :
    (req : ChatRequest)
    → ((text : String) × (check_chat true (request req) ≡ some (accepted text))
        × (text ≢ "")
        × ((req.prompt ≡ text)
            ⊎ ((req.prompt ≡ "") × Latest req.messages (length req.messages) text)))
      ⊎ ((check_chat true (request req) ≡ some (refused 400))
          × (req.prompt ≡ "")
          × Silent req.messages zero (length req.messages))
checked_prompt req = elim (Bool-cases (req.prompt == "")) [
  | inr f ↦ inl (req.prompt, own_prompt req f, nonempty req.prompt f, inl refl)
  | inl t ↦
      let no_own = (string_eq.same_key req.prompt "").0 t in
      let (text, found, cases) =
        last_user_text_cases req.messages (length req.messages) (omega arith) in
      elim cases [
        | inl l ↦
            let f =
              subst (λ x. (x == "") ≡ false) l.content
                (is_user_text-nonempty l.message l.of_user) in
            inl (text, latest_text req text t found f, nonempty text f, inr (no_own, l))
        | inr (empty, s) ↦ inr (
          no_text req t
              (subst (λ x. last_user_text req.messages (length req.messages) ≡ some x) empty found),
          no_own,
          s,
        )
      ]
]
