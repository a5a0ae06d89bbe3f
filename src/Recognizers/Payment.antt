-- ===== src/Recognizers/Payment.antt =====
-- recognizers/payment.go: the payment recognizer.
use casdoor_aiguard.Common.{not, ◌&&◌, Option, none, some, [], if◌then◌else◌}
use casdoor_aiguard.Common.Text.{Str, ◌==◌, has_infix, codes}
use casdoor_aiguard.Float.{Float64, float_le, float_zero}
use casdoor_aiguard.Http.{Request, method_post}
use casdoor_aiguard.Intent.{Intent}
use casdoor_aiguard.Json.{Json, number, string, end, field}
use casdoor_aiguard.Recognizers.Decode.{set_string, set_number, decode_field, as_object}
use casdoor_aiguard.Recognizers.Mcp.{◌>>=◌, bare_intent}

pub record PaymentRequestBody : Type 0 where
  pub amount : Float64
  pub currency : Str
  pub recipient : Str
  pub payee : Str

-- `json.Unmarshal(body, &payload)`
unfoldable pub decode_payment : Option Json → Option PaymentRequestBody
unfolding decode_field as_object set_string set_number
decode_payment v = do
  fs ← as_object v
  amount ← decode_field (codes "amount") set_number float_zero fs
  currency ← decode_field (codes "currency") set_string [] fs
  recipient ← decode_field (codes "recipient") set_string [] fs
  payee ← decode_field (codes "payee") set_string [] fs
  some (record { amount = amount; currency = currency; recipient = recipient; payee = payee })

unfoldable pub recipient_of : PaymentRequestBody → Str
unfolding ◌==◌
recipient_of p = if p.recipient == [] then p.payee else p.recipient

unfoldable pub payment_intent : Str → PaymentRequestBody → Option Intent
payment_intent path p =
    if float_le p.amount float_zero
    then none
    else some (record (bare_intent (codes "payment") (codes "process_payment")) {
      amount = p.amount;
      currency = p.currency;
      recipient = recipient_of p;
      raw = field (codes "amount") (number p.amount) (
          field (codes "currency") (string p.currency) (
            field (codes "recipient") (string (recipient_of p))
              (field (codes "path") (string path) end)));
    })

-- `func (r *PaymentRecognizer) Recognize`
unfoldable pub recognize_payment : (Str → Option Json) → Str → Request → Str → Option Intent
unfolding ◌==◌
recognize_payment unmarshal host req body =
    if not (req.method == method_post)
    then none
    else if not (has_infix (codes "/payments") req.url.path)
        && not (has_infix (codes "/charges") req.url.path)
    then none
    else (do p ← decode_payment (unmarshal body); payment_intent req.url.path p)
