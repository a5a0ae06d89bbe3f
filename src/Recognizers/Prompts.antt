-- ===== src/Recognizers/Prompts.antt =====
-- recognizers/llm.go: which prompt is recorded of a conversation.
use casdoor_aiguard.Common.Text.{Str, ◌==◌, codes, eq_iff}
use casdoor_aiguard.Common.{
  Option, none, some, List, [], ◌∷◌, ◌++◌, ◌≡◌, ◌≢◌, refl, arith, inl, inr, All, Bool-cases,
  if◌then◌else◌, ap,
}
use casdoor_aiguard.Json.{Json}
use casdoor_aiguard.Recognizers.Llm.{LlmMessage, last_user, last_user_prompt, message_text}

abbrev IsOther : LlmMessage → Type 0
IsOther m = m.role ≢ codes "user"

-- The last message of the user.
data Last (ms : List LlmMessage) : Option LlmMessage → Type 0 where
  is_last :
      (before : List LlmMessage) (m : LlmMessage) (after : List LlmMessage)
      → ms ≡ before ++ m ∷ after
      → m.role ≡ codes "user"
      → All (λ q. q.role ≢ codes "user") after
      → Last ms (some m)
  no_user : All (λ q. q.role ≢ codes "user") ms → Last ms none

last_user-Last : (ms : List LlmMessage) → Last ms (last_user ms)
unfolding last_user
last_user-Last [] = no_user tt
last_user-Last (m ∷ ms) = go (last_user ms) (last_user-Last ms)
  where
    go :
        (o : Option LlmMessage)
        → Last ms o
        → Last
            (m ∷ ms)
            (elim o [ some u ↦ some u | none ↦ if m.role == codes "user" then some m else none ])
    go _ (is_last before u after e r h) = is_last (m ∷ before) u after (ap (◌∷◌ m) e) r h
    go _ (no_user h) = elim (Bool-cases (m.role == codes "user")) [
      | inl e ↦ rw e (is_last [] m ms refl ((eq_iff m.role (codes "user")).0 e) h)
      | inr e ↦ rw e (no_user ((λ q. ground (arith, eq_iff m.role (codes "user"))), h))
    ]

-- The prompt of a conversation.
pub data IsPrompt (raw_text : Json → Str) (ms : List LlmMessage) : Str → Type 0 where
  asked :
      (before : List LlmMessage) (m : LlmMessage) (after : List LlmMessage)
      → ms ≡ before ++ m ∷ after
      → m.role ≡ codes "user"
      → All (λ q. q.role ≢ codes "user") after
      → IsPrompt raw_text ms (message_text raw_text m.content)
  silent : All (λ q. q.role ≢ codes "user") ms → IsPrompt raw_text ms []

-- The prompt of a conversation is the text of its last message of the user, and empty if there is
-- none.
pub last_user_prompt-IsPrompt :
    (raw_text : Json → Str) (ms : List LlmMessage)
    → IsPrompt raw_text ms (last_user_prompt raw_text ms)
unfolding last_user_prompt
last_user_prompt-IsPrompt raw_text ms = go (last_user ms) (last_user-Last ms)
  where
    go :
        (o : Option LlmMessage)
        → Last ms o
        → IsPrompt raw_text ms (elim o [ some m ↦ message_text raw_text m.content | none ↦ [] ])
    go _ (is_last before m after e r h) = asked before m after e r h
    go _ (no_user h) = silent h
