-- ===== src/Event/Capture.antt =====
-- proxy/http_handler.go's `captureBuffer`: what is kept of a response that streams by in chunks.
use casdoor_aiguard.Common.{
  ℕ, ◌-◌, Bool, true, false, List, [], ◌∷◌, ◌++◌, ◌≡◌, refl, ltb, length, take, if◌then◌else◌,
  arith, length-append, append_assoc, append-nil, length-take, take-append, take_all, take-nil, sym,
}
use casdoor_aiguard.Common.Text.{Str}
use casdoor_aiguard.Event.{truncated_mark, truncate_at}
use mathlib.Core.List.{flatten}

pub record CaptureBuffer : Type 0 where
  pub buf : Str
  pub limit : ℕ
  pub truncated : Bool

abbrev pub empty_capture : ℕ → CaptureBuffer
empty_capture limit = record { buf = []; limit = limit; truncated = false }

-- `Write`; it always reports all of `p` as written
unfoldable pub capture_write : CaptureBuffer → Str → CaptureBuffer
capture_write c p =
    let remaining = c.limit - length c.buf in
    if ltb 0 remaining
    then if ltb remaining (length p)
      then record c { buf = c.buf ++ take remaining p; truncated = true }
      else record c { buf = c.buf ++ p }
    else if ltb 0 (length p)
    then record c { truncated = true }
    else c

-- `String`
unfoldable pub capture_string : CaptureBuffer → Str
capture_string c = if c.truncated then c.buf ++ truncated_mark else c.buf

unfoldable pub capture_all : CaptureBuffer → List Str → CaptureBuffer
unfolding capture_write
capture_all c [] = c
capture_all c (p ∷ ps) = capture_all (capture_write c p) ps

take_none : (n : ℕ) (s : Str) → n ≡ 0 → take n s ≡ []
take_none n s e = rw e

-- The buffer after the bytes `seen` have gone by.
record Holds (limit : ℕ) (seen : Str) (c : CaptureBuffer) : Type 0 where
  limit_is : c.limit ≡ limit
  kept : c.buf ≡ take limit seen
  marked : c.truncated ≡ ltb limit (length seen)

room : (limit : ℕ) (seen : Str) → limit - length (take limit seen) ≡ limit - length seen
room limit seen = omega (arith, length-take limit seen)

capture_write-Holds :
    (limit : ℕ) (seen p : Str) (c : CaptureBuffer)
    → Holds limit seen c
    → Holds limit (seen ++ p) (capture_write c p)
unfolding capture_write
capture_write-Holds limit seen p c h =
    let e1 = h.limit_is in
    let e2 = h.kept in
    let e3 = h.marked in
    let free : c.limit - length c.buf ≡ limit - length seen = rw (e1, e2) (room limit seen) in
    record {
      limit_is = ground (arith, e1);
      kept = ground (
        arith,
        e2,
        free,
        take-append limit seen p,
        take_all (limit - length seen) p,
        take_none (limit - length seen) p,
        append-nil (take limit seen),
      );
      marked = ground (arith, e3, free, length-append seen p);
    }

capture_all-Holds :
    (limit : ℕ) (seen : Str) (ps : List Str) (c : CaptureBuffer)
    → Holds limit seen c
    → Holds limit (seen ++ flatten ps) (capture_all c ps)
unfolding capture_all flatten
capture_all-Holds limit seen [] c h = rw (append-nil seen) h
capture_all-Holds limit seen (p ∷ ps) c h = rw (← append_assoc seen p (flatten ps)) (
    capture_all-Holds limit (seen ++ p) ps (capture_write c p)
      (capture_write-Holds limit seen p c h))

-- However a body is cut into chunks, what the capture buffer holds of it in the end is the cut that
-- `truncateBody` makes of the whole: the first bytes up to the limit, and the mark if there are more.
pub capture_string-capture_all :
    (limit : ℕ) (ps : List Str)
    → capture_string (capture_all (empty_capture limit) ps) ≡ truncate_at limit (flatten ps)
unfolding capture_string truncate_at
capture_string-capture_all limit ps =
    let start : Holds limit [] (empty_capture limit) = record {
      limit_is = refl;
      kept = sym (take-nil limit);
      marked = ground arith;
    } in
    let h = capture_all-Holds limit [] ps (empty_capture limit) start in
    ground (arith, h.kept, h.marked, take_all limit (flatten ps))
