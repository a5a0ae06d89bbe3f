-- ===== src/Recognizers/Payments.antt =====
-- recognizers/payment.go: when a request is taken for a payment.
use casdoor_aiguard.Common.Text.{Str, ◌==◌, codes, has_infix, eq_iff}
use casdoor_aiguard.Common.{
  true, false, not, ◌&&◌, Option, none, some, [], ◌≡◌, ◌≢◌, refl, arith, ◌⊎◌, inl, inr, Bool-cases,
  Option-cases, ◌∙◌, sym,
}
use casdoor_aiguard.Float.{float_le, float_zero}
use casdoor_aiguard.Http.{Request, method_post}
use casdoor_aiguard.Intent.{Intent}
use casdoor_aiguard.Json.{Json}
use casdoor_aiguard.Recognizers.Payment.{
  PaymentRequestBody, decode_payment, payment_intent, recipient_of, recognize_payment,
}

module _ (unmarshal : Str → Option Json) (req : Request) (body : Str) where
  -- A POST to a payments or charges path, with an amount that is not zero or less.
  pub record IsPayment (p : PaymentRequestBody) : Type 0 where
    pub post : req.method ≡ method_post
    pub path :
        (has_infix (codes "/payments") req.url.path ≡ true)
        ⊎ (has_infix (codes "/charges") req.url.path ≡ true)
    pub decoded : decode_payment (unmarshal body) ≡ some p
    pub amount : float_le p.amount float_zero ≡ false

  -- The intent of a payment: its recipient is the payee where none is named.
  pub record Pays (p : PaymentRequestBody) (intent : Intent) : Type 0 where
    pub category : intent.category ≡ codes "payment"
    pub amount : intent.amount ≡ p.amount
    pub currency : intent.currency ≡ p.currency
    pub recipient :
        ((p.recipient ≢ []) × (intent.recipient ≡ p.recipient))
        ⊎ ((p.recipient ≡ []) × (intent.recipient ≡ p.payee))

  pub data Answers : Option Intent → Type 0 where
    payment :
        (p : PaymentRequestBody) (intent : Intent)
        → IsPayment p
        → Pays p intent
        → Answers (some intent)
    no_payment : ((p : PaymentRequestBody) → ¬ IsPayment p) → Answers none

  recipient_cases :
      (p : PaymentRequestBody)
      → ((p.recipient ≢ []) × (recipient_of p ≡ p.recipient))
        ⊎ ((p.recipient ≡ []) × (recipient_of p ≡ p.payee))
  unfolding recipient_of
  recipient_cases p = elim (Bool-cases (p.recipient == [])) [
    | inl e ↦ inr ((eq_iff p.recipient []).0 e, rw e)
    | inr e ↦ inl ((λ q. ground (arith, eq_iff p.recipient [])), rw e)
  ]

  some_same : {A : Type 0} {a b : A} → some a ≡ some b → a ≡ b
  some_same e = cc

  -- The payment recognizer recognizes a request exactly if it is a POST whose path holds /payments or
  -- /charges and whose body has an amount that is not zero or less; the intent is a payment of that
  -- amount in its currency, to the recipient, or to the payee if no recipient is named.
  pub recognize_payment-Answers : (host : Str) → Answers (recognize_payment unmarshal host req body)
  unfolding recognize_payment payment_intent
  recognize_payment-Answers host = elim (Bool-cases (req.method == method_post)) [
    | inr e ↦ rw e (no_payment (λ p c. ground (arith, eq_iff req.method method_post, c.post)))
    | inl e ↦
        elim (Bool-cases (
          not (has_infix (codes "/payments") req.url.path)
          && not (has_infix (codes "/charges") req.url.path))) [
            | inl q ↦ rw (e, q) (no_payment (λ p c. ground (arith, c.path, q)))
            | inr q ↦ elim (Option-cases (decode_payment (unmarshal body))) [
              | inl d ↦ rw (e, q, d) (no_payment (λ p c. cc (d, c.decoded)))
              | inr (p, d) ↦ elim (Bool-cases (float_le p.amount float_zero)) [
                | inl z ↦ rw (e, q, d, z) (no_payment (free p d z))
                | inr z ↦
                    rw (e, q, d, z)
                      (payment p _ (is_payment e q p d z) (record {
                        category = refl;
                        amount = refl;
                        currency = refl;
                        recipient = recipient_cases p;
                      }))
              ]
            ]
          ]
  ]
    where
      free :
          (p : PaymentRequestBody)
          → decode_payment (unmarshal body) ≡ some p
          → float_le p.amount float_zero ≡ true
          → (p' : PaymentRequestBody) → ¬ IsPayment p'
      free p d z p' c =
          let same : p' ≡ p = some_same (sym c.decoded ∙ d) in
          let less : float_le p.amount float_zero ≡ false = rw (← same) c.amount in cc (z, less)

      is_payment :
          (req.method == method_post) ≡ true
          → (not (has_infix (codes "/payments") req.url.path)
              && not (has_infix (codes "/charges") req.url.path))
            ≡ false
          → (p : PaymentRequestBody) → decode_payment (unmarshal body) ≡ some p
          → float_le p.amount float_zero ≡ false
          → IsPayment p
      is_payment e q p d z = record {
        post = (eq_iff req.method method_post).0 e;
        path = ground (arith, q);
        decoded = d;
        amount = z;
      }
