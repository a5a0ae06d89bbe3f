-- ===== src/Recognizers/Registry.antt =====
-- recognizers/registry.go, Recognize: which recognizer answers.
use casdoor_aiguard.Common.Text.{Str}
use casdoor_aiguard.Common.{
  Option, none, some, List, [], ◌∷◌, ◌++◌, ◌≡◌, refl, All, ap, Option-cases, inl, inr,
}
use casdoor_aiguard.Http.{Request}
use casdoor_aiguard.Intent.{Intent}
use casdoor_aiguard.Recognizers.{Recognizer, recognize_first}

module _ (host : Str) (req : Request) (body : Str) where
  abbrev pub Passes : Recognizer → Type 0
  Passes q = q.recognize host req body ≡ none

  -- What a list of recognizers makes of a request.
  pub data Reads (recs : List Recognizer) : Option (Intent × Str) → Type 0 where
    read :
        (before : List Recognizer) (r : Recognizer) (after : List Recognizer) (intent : Intent)
        → recs ≡ before ++ r ∷ after
        → All Passes before
        → r.recognize host req body ≡ some intent
        → Reads recs (some (record intent { destination = host }, r.name))
    unread : All Passes recs → Reads recs none

  Reads-cons :
      (q : Recognizer) (recs : List Recognizer) (out : Option (Intent × Str))
      → Passes q
      → Reads recs out
      → Reads (q ∷ recs) out
  Reads-cons q recs _ p (read before r after intent e h f) =
      read (q ∷ before) r after intent (ap (◌∷◌ q) e) (p, h) f
  Reads-cons q recs _ p (unread h) = unread (p, h)

  -- The first recognizer that recognizes the request gives the intent, with the host as its
  -- destination, and its name; nothing is recognized exactly if none of them does.
  pub recognize_first-Reads :
      (recs : List Recognizer) → Reads recs (recognize_first recs host req body)
  unfolding recognize_first
  recognize_first-Reads [] = unread tt
  recognize_first-Reads (q ∷ recs) = elim (Option-cases (q.recognize host req body)) [
    | inl e ↦ rw (e, recognize_first) (Reads-cons q recs _ e (recognize_first-Reads recs))
    | inr (intent, e) ↦ rw (e, recognize_first) (read [] q recs intent refl tt e)
  ]
