-- ===== src/Pdp.antt =====
-- casdoorclient/client.go: asking Casdoor for a verdict. The two HTTP exchanges are given as
-- functions from what is sent to what comes back, the clock as a number of nanoseconds.
pub mod Laws
use casdoor_aiguard.Common.{
  ℕ, ◌+◌, ◌-◌, ◌*◌, ◌^◌, ◌%◌, Bool, true, false, not, ◌&&◌, Option, none, some, List, [], ◌∷◌, ◌++◌,
  ltb, if◌then◌else◌,
}
use casdoor_aiguard.Common.Int.{ℤ, is_positive, pos_part}
use casdoor_aiguard.Common.Text.{Str, ◌==◌, codes}
use casdoor_aiguard.Intent.{Intent}
use casdoor_aiguard.Settings.{Settings, CasdoorSettings}

pub data Decision : Type 0 where
  decision_allow decision_deny decision_step_up decision_error : Decision

-- `Client`: the cached token, and when it runs out.
pub record Client : Type 0 where
  pub access_token : Str
  pub expires_at : ℕ

abbrev pub new_client : Client
new_client = record { access_token = []; expires_at = 0 }

pub record TokenResponse : Type 0 where
  pub access_token : Str
  pub expires_in : ℤ
  pub error : Str

-- An error's text, or a value.
pub data Result {ℓ} (A : Type ℓ) : Type ℓ where
  ok : A → Result A
  err : Str → Result A

-- The enforce request: its URL, bearer token and triple.
pub record EnforceCall : Type 0 where
  pub url : Str
  pub token : Str
  pub sub : Str
  pub obj : Str
  pub act : Str

-- The decoded answer; `data` is none where it is no boolean.
pub record EnforceAnswer : Type 0 where
  pub status : Str
  pub verdict : Option Bool
  pub msg : Str

-- What the client reaches outside the program.
pub record Network : Type 0 where
  pub now : ℕ
  pub enforce_path : Str
  pub request_token : CasdoorSettings → Result TokenResponse
  pub enforce : EnforceCall → Result EnforceAnswer

-- `time.Now().Add(d)` for a `time.Duration` d of 64 bits, given modulo 2^64, in nanoseconds; a time
-- before the origin is the origin.
unfoldable pub add_duration : ℕ → ℕ → ℕ
add_duration now d = if ltb d (2 ^ 63) then now + d else now - (2 ^ 64 - d)

-- `time.Now().Add(time.Duration(expiresIn-30) * time.Second)`, with an hour for a lifetime that is not
-- positive; the product wraps.
unfoldable pub expiry : ℕ → ℤ → ℕ
unfolding add_duration
expiry now expires_in =
    let lifetime = if is_positive expires_in then pos_part expires_in else 3600 in
    add_duration now ((lifetime * 1000000000 + (2 ^ 64 - 30000000000)) % 2 ^ 64)

-- What `getAccessToken` makes of the token response.
unfoldable pub store_token : ℕ → Client → Result TokenResponse → Result Str × Client
unfolding ◌==◌ expiry
store_token now c (err e) = (err e, c)
store_token now c (ok tr) =
    if tr.access_token == []
    then (err (codes "casdoor token request failed: " ++ tr.error), c)
    else (
      ok tr.access_token,
      record { access_token = tr.access_token; expires_at = expiry now tr.expires_in },
    )

-- `getAccessToken`
unfoldable pub get_access_token : Network → CasdoorSettings → Client → Result Str × Client
unfolding store_token ◌==◌
get_access_token net cfg c =
    if not (c.access_token == []) && ltb net.now c.expires_at
    then (ok c.access_token, c)
    else store_token net.now c (net.request_token cfg)

-- `decideOnUnreachable`
unfoldable pub decide_on_unreachable : Settings → Str → Decision × Str
decide_on_unreachable s reason =
    if s.intercept.fail_closed_on_pdp_error
    then (decision_deny, codes "fail-closed: " ++ reason)
    else (decision_allow, codes "fail-open: " ++ reason)

abbrev pub or_else : Str → Str → Str
or_else s fallback = if s == [] then fallback else s

-- The object of the triple: "host", or "host#tool".
unfoldable pub enforce_object : Intent → Str
unfolding ◌==◌
enforce_object intent =
    if not (intent.tool_name == [])
    then intent.destination ++ (codes "#" ++ intent.tool_name)
    else intent.destination

unfoldable pub enforce_call : Network → CasdoorSettings → Str → Intent → Str → EnforceCall
unfolding enforce_object ◌==◌
enforce_call net cfg token intent source = record {
  url =
      cfg.endpoint
      ++ (net.enforce_path
          ++ (codes "?owner=" ++ (cfg.organization ++ (codes "&application=" ++ cfg.application))));
  token = token;
  sub = or_else source (codes "unknown-agent");
  obj = enforce_object intent;
  act = intent.category;
}

-- What `Decide` makes of Casdoor's answer.
unfoldable pub read_answer : Settings → Result EnforceAnswer → Decision × Str
unfolding decide_on_unreachable ◌==◌
read_answer s (err e) = decide_on_unreachable s e
read_answer s (ok a) =
    if not (a.status == codes "ok") then decide_on_unreachable s a.msg else elim a.verdict [
      | some v ↦
          if v
          then (decision_allow, codes "casdoor:allow")
          else (decision_deny, codes "casdoor:deny")
      | none ↦ (decision_deny, codes "casdoor:deny")
    ]

unfoldable pub ask :
    Network → Settings → Intent → Str → Result Str × Client → (Decision × Str) × Client
unfolding read_answer enforce_call
ask net s intent source (err e, c) = (decide_on_unreachable s e, c)
ask net s intent source (ok token, c) =
    (read_answer s (net.enforce (enforce_call net s.casdoor token intent source)), c)

-- `func (c *Client) Decide`
unfoldable pub pdp_decide : Network → Settings → Intent → Str → Client → (Decision × Str) × Client
unfolding ask get_access_token ◌==◌
pdp_decide net s intent source c =
    if s.casdoor.endpoint == []
    then (decide_on_unreachable s (codes "casdoor endpoint not configured"), c)
    else ask net s intent source (get_access_token net s.casdoor c)
