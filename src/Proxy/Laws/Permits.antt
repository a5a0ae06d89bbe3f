-- ===== src/Proxy/Laws/Permits.antt =====
-- proxy/decision.go, `Decide`: the reasons for which a request is let through.
use casdoor_aiguard.Common.{
  true, false, ◌||◌, Option, none, some, List, ◌≡◌, ◌≢◌, refl, sym, ◌∙◌, ◌⊎◌, inl, inr, ◌↔◌, arith,
  Bool-cases, if◌then◌else◌,
}
use casdoor_aiguard.Common.Text.{Str, ◌==◌, eq_iff, Str-discrete}
use casdoor_aiguard.Intent.{Intent}
use casdoor_aiguard.Pdp.{Client, Network, Decision, decision_allow, pdp_decide}
use casdoor_aiguard.Policy.{
  Policy, Action, action_allow, action_deny, action_step_up, evaluate, is_recognizer_enabled,
}
use casdoor_aiguard.Proxy.Decision.{
  Exchange, build, step_up_stub, source_of, by_pdp, by_action, on_recognized, decide, pdp_action,
}
use casdoor_aiguard.Recognizers.{Recognizer, recognize_first}
use casdoor_aiguard.Settings.{Settings}

module _ (net : Network) (s : Settings) (p : Policy) (x : Exchange) (c : Client) where
  -- The reasons for which a request may pass, by what was recognized in it.
  pub data Permits : Option (Intent × Str) → Type 0 where
    unrecognized : s.intercept.passthrough_unrecognized ≡ true → Permits none
    disabled :
        (intent : Intent) (name : Str)
        → is_recognizer_enabled p name ≡ false
        → Permits (some (intent, name))
    by_rule :
        (intent : Intent) (name : Str)
        → is_recognizer_enabled p name ≡ true
        → (evaluate p intent x.host).0 ≡ action_allow
        → Permits (some (intent, name))
    by_step_up :
        (intent : Intent) (name : Str)
        → is_recognizer_enabled p name ≡ true
        → (evaluate p intent x.host).0 ≡ action_step_up
        → s.intercept.step_up_default_action ≡ action_allow
        → Permits (some (intent, name))
    by_casdoor :
        (intent : Intent) (name : Str)
        → is_recognizer_enabled p name ≡ true
        → (evaluate p intent x.host).0 ≢ action_allow
        → (evaluate p intent x.host).0 ≢ action_deny
        → (evaluate p intent x.host).0 ≢ action_step_up
        → (pdp_decide net s intent (source_of x.source) c).0.0 ≡ decision_allow
        → Permits (some (intent, name))

  -- The action of the branch on the policy's ruling, as one expression.
  by_action_lem :
      (intent : Intent) (name : Str) (out : Action × Str)
      → (by_action net s x name intent out c).0.action ≡ (
          if out.0 == action_allow || out.0 == action_deny
          then out.0
          else if out.0 == action_step_up
          then step_up_stub s
          else pdp_action (pdp_decide net s intent (source_of x.source) c).0.0)
  unfolding by_action build by_pdp
  by_action_lem intent name out = ground arith

  pdp_action_allow : (d : Decision) → pdp_action d ≡ action_allow → d ≡ decision_allow
  unfolding pdp_action
  pdp_action_allow decision_allow h = refl
  pdp_action_allow d h = cc

  step_up_stub_allow :
      step_up_stub s ≡ action_allow → s.intercept.step_up_default_action ≡ action_allow
  unfolding step_up_stub
  step_up_stub_allow h = ground (
    arith,
    eq_iff s.intercept.step_up_default_action action_allow,
    eq_iff s.intercept.step_up_default_action action_deny,
  )

  Permits-of_action :
      (intent : Intent) (name : Str)
      → is_recognizer_enabled p name ≡ true
      → (by_action net s x name intent (evaluate p intent x.host) c).0.action ≡ action_allow
      → Permits (some (intent, name))
  Permits-of_action intent name on h =
      let a = (evaluate p intent x.host).0 in
      let q = sym (by_action_lem intent name (evaluate p intent x.host)) ∙ h in
      elim (Str-discrete a action_allow) [
        | yes e ↦ by_rule intent name on e
        | no na ↦ elim (Str-discrete a action_step_up) [
          | yes e ↦ by_step_up intent name on e (
              step_up_stub_allow (
                ground
                  (arith, eq_iff a action_allow, eq_iff a action_deny, eq_iff a action_step_up)))
          | no ns ↦ elim (Str-discrete a action_deny) [
            | yes e ↦ absurd (ground (arith, eq_iff a action_deny))
            | no nd ↦ by_casdoor intent name on na nd ns (
                pdp_action_allow _ (
                  ground
                    (arith, eq_iff a action_allow, eq_iff a action_deny, eq_iff a action_step_up)))
          ]
        ]
      ]

  action_of_Permits :
      (o : Option (Intent × Str))
      → Permits o
      → (on_recognized net s p x o c).0.action ≡ action_allow
  unfolding on_recognized build
  action_of_Permits none (unrecognized e) = rw e
  action_of_Permits (some (intent, name)) (disabled i n e) = rw e
  action_of_Permits (some (intent, name)) (by_rule i n on e) = rw on (
      by_action_lem intent name (evaluate p intent x.host)
      ∙ ground (arith, eq_iff (evaluate p intent x.host).0 action_allow))
  action_of_Permits (some (intent, name)) (by_step_up i n on e d) = rw on (
      by_action_lem intent name (evaluate p intent x.host)
      ∙ unfold step_up_stub in
        ground (
          arith,
          eq_iff (evaluate p intent x.host).0 action_allow,
          eq_iff (evaluate p intent x.host).0 action_deny,
          eq_iff (evaluate p intent x.host).0 action_step_up,
          eq_iff s.intercept.step_up_default_action action_allow,
        ))
  action_of_Permits (some (intent, name)) (by_casdoor i n on na nd ns d) = rw on (
      by_action_lem intent name (evaluate p intent x.host)
      ∙ unfold pdp_action in
        ground (
          arith,
          eq_iff (evaluate p intent x.host).0 action_allow,
          eq_iff (evaluate p intent x.host).0 action_deny,
          eq_iff (evaluate p intent x.host).0 action_step_up,
        ))

  Permits-of_on_recognized :
      (o : Option (Intent × Str))
      → (on_recognized net s p x o c).0.action ≡ action_allow
      → Permits o
  unfolding on_recognized build
  Permits-of_on_recognized none h = unrecognized (ground arith)
  Permits-of_on_recognized (some (intent, name)) h =
      elim (Bool-cases (is_recognizer_enabled p name)) [
        | inl on ↦ Permits-of_action intent name on (rw (on, on_recognized) at h)
        | inr off ↦ disabled intent name off
      ]

  action_two :
      (o : Option (Intent × Str))
      → ((on_recognized net s p x o c).0.action ≡ action_allow)
        ⊎ ((on_recognized net s p x o c).0.action ≡ action_deny)
  unfolding on_recognized build step_up_stub pdp_action
  action_two none = ground arith
  action_two (some (intent, name)) = ground (
    arith,
    by_action_lem intent name (evaluate p intent x.host),
    eq_iff (evaluate p intent x.host).0 action_allow,
    eq_iff (evaluate p intent x.host).0 action_deny,
    eq_iff s.intercept.step_up_default_action action_allow,
    eq_iff s.intercept.step_up_default_action action_deny,
  )

-- `Decide` lets a request through exactly when one of these holds: nothing is recognized in it and
-- unrecognized traffic passes; its recognizer is switched off; the policy's ruling is "allow"; the
-- ruling is "step-up" and pending step-ups default to allow; or the ruling is none of allow, deny
-- and step-up, and Casdoor's client says allow. Otherwise its action is "deny": there is no third.
pub decide-allow_iff :
    (registry : List Recognizer) (net : Network) (s : Settings) (p : Policy) (x : Exchange)
    (c : Client)
    → (((decide registry net s p x c).0.action ≡ action_allow)
        ↔ Permits net s p x c (recognize_first registry x.host x.request x.body))
      × (((decide registry net s p x c).0.action ≡ action_allow)
          ⊎ ((decide registry net s p x c).0.action ≡ action_deny))
unfolding decide
decide-allow_iff registry net s p x c =
    let o = recognize_first registry x.host x.request x.body in
    (
      (Permits-of_on_recognized net s p x c o, action_of_Permits net s p x c o),
      action_two net s p x c o,
    )
