-- ===== src/Pdp/Laws.antt =====
-- casdoorclient/client.go: when the client lets an intent through, and how long a token is kept.
use casdoor_aiguard.Common.{
  ℕ, ◌<◌, true, not, ◌&&◌, some, [], ◌≡◌, ◌≢◌, refl, sym, ap, ◌⊎◌, inl, inr, arith, Bool-cases, ltb,
  ◌↔◌,
}
use casdoor_aiguard.Common.Text.{Str, ◌==◌, codes, eq_iff}
use casdoor_aiguard.Intent.{Intent}
use casdoor_aiguard.Pdp.{
  decision_allow, decision_deny, Client, TokenResponse, Result, ok, err, EnforceAnswer, Network,
  store_token, get_access_token, decide_on_unreachable, enforce_call, read_answer, ask, pdp_decide,
}
use casdoor_aiguard.Settings.{Settings, CasdoorSettings}

module _ (net : Network) (s : Settings) (intent : Intent) (source : Str) where
  -- Casdoor was asked about this intent, with a token, and answered yes.
  pub record SaidYes (c : Client) : Type 0 where
    pub token : Str
    pub answer : EnforceAnswer
    pub configured : s.casdoor.endpoint ≢ []
    pub granted : (get_access_token net s.casdoor c).0 ≡ ok token
    pub answered : net.enforce (enforce_call net s.casdoor token intent source) ≡ ok answer
    pub status : answer.status ≡ codes "ok"
    pub verdict : answer.verdict ≡ some true

  read_answer_closed :
      (r : Result EnforceAnswer)
      → s.intercept.fail_closed_on_pdp_error ≡ true
      → (read_answer s r).0 ≡ decision_allow
      → (a : EnforceAnswer) × (r ≡ ok a) × (a.status ≡ codes "ok") × (a.verdict ≡ some true)
  unfolding read_answer
  read_answer_closed (err e) f h = cc
  read_answer_closed (ok a) f h = (
    a,
    refl,
    ground (arith, eq_iff a.status (codes "ok")),
    ground (arith, eq_iff a.status (codes "ok")),
  )

  ask_closed :
      (c : Client) (t : Result Str × Client)
      → t ≡ get_access_token net s.casdoor c
      → s.casdoor.endpoint ≢ []
      → s.intercept.fail_closed_on_pdp_error ≡ true
      → (ask net s intent source t).0.0 ≡ decision_allow
      → SaidYes c
  unfolding ask decide_on_unreachable
  ask_closed c (err e, c') q n f h = absurd (ground arith)
  ask_closed c (ok token, c') q n f h =
      let (a, answered, status, verdict) = read_answer_closed _ f h in
      record {
        token = token;
        answer = a;
        configured = n;
        granted = sym (ap (λ r. r.0) q);
        answered = answered;
        status = status;
        verdict = verdict;
      }

  closed_of_allow :
      (c : Client)
      → s.intercept.fail_closed_on_pdp_error ≡ true
      → (pdp_decide net s intent source c).0.0 ≡ decision_allow
      → SaidYes c
  unfolding pdp_decide decide_on_unreachable
  closed_of_allow c f h = elim (Bool-cases (s.casdoor.endpoint == [])) [
    | inl e ↦ absurd (ground arith)
    | inr e ↦
        ask_closed c (get_access_token net s.casdoor c) refl
          (λ q. ground (arith, eq_iff s.casdoor.endpoint [])) f (rw (e, pdp_decide) at h)
  ]

  ask_yes :
      (c : Client) (t : Result Str × Client) (token : Str)
      → t.0 ≡ ok token
      → (read_answer s (net.enforce (enforce_call net s.casdoor token intent source))).0
        ≡ decision_allow
      → (ask net s intent source t).0.0 ≡ decision_allow
  unfolding ask
  ask_yes c (err e, c') token q h = cc
  ask_yes c (ok t, c') token q h = ground arith

  allow_of_SaidYes :
      (c : Client) → SaidYes c → (pdp_decide net s intent source c).0.0 ≡ decision_allow
  unfolding pdp_decide
  allow_of_SaidYes c y = elim (Bool-cases (s.casdoor.endpoint == [])) [
    | inl e ↦ absurd (y.configured ((eq_iff _ _).0 e))
    | inr e ↦ rw e (
        ask_yes c (get_access_token net s.casdoor c) y.token y.granted (
          rw y.answered (
            unfold read_answer in
            ground (arith, y.status, y.verdict, eq_iff y.answer.status (codes "ok")))))
  ]

-- With fail-closed set, the client's verdict is allow exactly when Casdoor is configured, granted a
-- token, answered the enforce call for this very triple with status "ok", and its data is true.
-- Every failure on the way, and every other answer, is a deny.
pub pdp_decide-fail_closed :
    (net : Network) (s : Settings) (intent : Intent) (source : Str) (c : Client)
    → s.intercept.fail_closed_on_pdp_error ≡ true
    → ((pdp_decide net s intent source c).0.0 ≡ decision_allow) ↔ SaidYes net s intent source c
pdp_decide-fail_closed net s intent source c f =
    (closed_of_allow net s intent source c f, allow_of_SaidYes net s intent source c)

read_answer_two :
    (s : Settings) (r : Result EnforceAnswer)
    → ((read_answer s r).0 ≡ decision_allow) ⊎ ((read_answer s r).0 ≡ decision_deny)
unfolding read_answer decide_on_unreachable
read_answer_two s (err e) = ground arith
read_answer_two s (ok a) = ground arith

ask_two :
    (net : Network) (s : Settings) (intent : Intent) (source : Str) (t : Result Str × Client)
    → ((ask net s intent source t).0.0 ≡ decision_allow)
      ⊎ ((ask net s intent source t).0.0 ≡ decision_deny)
unfolding ask decide_on_unreachable
ask_two net s intent source (err e, c) = ground arith
ask_two net s intent source (ok t, c) =
    read_answer_two s (net.enforce (enforce_call net s.casdoor t intent source))

-- The client never hands on "step-up" or "error": its verdict is allow or deny.
pub pdp_decide_two :
    (net : Network) (s : Settings) (intent : Intent) (source : Str) (c : Client)
    → ((pdp_decide net s intent source c).0.0 ≡ decision_allow)
      ⊎ ((pdp_decide net s intent source c).0.0 ≡ decision_deny)
unfolding pdp_decide decide_on_unreachable
pdp_decide_two net s intent source c =
    ground (arith, ask_two net s intent source (get_access_token net s.casdoor c))

store_token_ok :
    (now : ℕ) (c : Client) (r : Result TokenResponse) (t : Str)
    → (store_token now c r).0 ≡ ok t
    → (t ≢ []) × ((store_token now c r).1.access_token ≡ t)
unfolding store_token
store_token_ok now c (err e) t h = cc
store_token_ok now c (ok tr) t h = elim (Bool-cases (tr.access_token == [])) [
  | inl e ↦ absurd (ground arith)
  | inr e ↦ (λ q. ground (arith, eq_iff tr.access_token []), ground arith)
]

get_access_token_ok :
    (net : Network) (cfg : CasdoorSettings) (c : Client) (t : Str)
    → (get_access_token net cfg c).0 ≡ ok t
    → (t ≢ []) × ((get_access_token net cfg c).1.access_token ≡ t)
unfolding get_access_token
get_access_token_ok net cfg c t h =
    elim (Bool-cases (not (c.access_token == []) && ltb net.now c.expires_at)) [
      | inl e ↦ (λ q. ground (arith, eq_iff c.access_token []), rw e (ground arith))
      | inr e ↦
          rw e (store_token_ok net.now c (net.request_token cfg) t (rw (e, get_access_token) at h))
    ]

-- A token that was granted is not empty, and until it runs out it is used again: a later call gives
-- the same token and the same client, whatever Casdoor would answer to a new request by then.
pub get_access_token_cached :
    (net later : Network) (cfg cfg' : CasdoorSettings) (c : Client) (t : Str)
    → (get_access_token net cfg c).0 ≡ ok t
    → later.now < (get_access_token net cfg c).1.expires_at
    → (t ≢ [])
      × (get_access_token later cfg' (get_access_token net cfg c).1
          ≡ (ok t, (get_access_token net cfg c).1))
get_access_token_cached net later cfg cfg' c t h fresh =
    let (ne, same) = get_access_token_ok net cfg c t h in
    (ne, again later cfg' (get_access_token net cfg c).1 t ne same fresh)
  where
    again :
        (l : Network) (g : CasdoorSettings) (d : Client) (u : Str)
        → u ≢ []
        → d.access_token ≡ u
        → l.now < d.expires_at
        → get_access_token l g d ≡ (ok u, d)
    again l g d u n q f = unfold get_access_token in ground (arith, eq_iff d.access_token [])
