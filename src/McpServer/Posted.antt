-- ===== src/McpServer/Posted.antt =====
-- mcpserver/mcpserver.go, the reporter's queue: what becomes of the records that are offered.
use casdoor_aiguard.Common.{
  ℕ, ◌≤◌, ◌<◌, ◌⊎◌, true, List, [], ◌∷◌, ◌++◌, ◌≡◌, refl, sym, ap, subst, ◌∙◌, arith, ltb, length,
  length-append, append-nil, append_assoc, Bool-cases, inl, inr,
}
use casdoor_aiguard.McpServer.Protocol.{Report}
use casdoor_aiguard.McpServer.Reporter.{
  Reporter, Runs, drain, drain_queue, offer, offered, posted, queue_depth, started,
}

-- The first list is the second with some of its records left out.
pub data IsSubsequence : List Report → List Report → Type 0 where
  empty : IsSubsequence [] []
  left_out :
      {xs rs : List Report} → (r : Report) → IsSubsequence xs rs → IsSubsequence xs (rs ++ r ∷ [])
  kept :
      {xs rs : List Report}
      → (r : Report) → IsSubsequence xs rs
      → IsSubsequence (xs ++ r ∷ []) (rs ++ r ∷ [])

-- What is not dropped.
abbrev accepted : Reporter → List Report
accepted p = p.taken ++ p.queue

drain_queue-taken : (queue taken : List Report) → (drain_queue queue taken).taken ≡ taken ++ queue
unfolding drain_queue
drain_queue-taken [] taken = sym (append-nil taken)
drain_queue-taken (r ∷ rs) taken =
    drain_queue-taken rs (taken ++ r ∷ []) ∙ append_assoc taken (r ∷ []) rs

drain_queue_empty : (queue taken : List Report) → (drain_queue queue taken).queue ≡ []
unfolding drain_queue
drain_queue_empty [] taken = refl
drain_queue_empty (r ∷ rs) taken = drain_queue_empty rs (taken ++ r ∷ [])

drain_queue-Runs :
    (rs queue taken : List Report)
    → Runs rs (record { queue = queue; taken = taken })
    → Runs rs (drain_queue queue taken)
unfolding drain_queue
drain_queue-Runs rs [] taken run = run
drain_queue-Runs rs (r ∷ queue) taken run =
    drain_queue-Runs rs queue (taken ++ r ∷ []) (posted r run)

ltb-true : {a b : ℕ} → a < b → ltb a b ≡ true
ltb-true lt = ground arith

offer-fits :
    (r : Report) (p : Reporter)
    → length p.queue < queue_depth
    → (offer r p ≡ record p { queue = p.queue ++ r ∷ [] })
unfolding offer
offer-fits r p lt = rw (ltb-true lt)

offer-drops : (r : Report) (p : Reporter) → ¬ (length p.queue < queue_depth) → offer r p ≡ p
unfolding offer
offer-drops r p ge = elim (Bool-cases (ltb (length p.queue) queue_depth)) [
  | inl e ↦ absurd (ge (ground arith))
  | inr e ↦ rw e
]

room : (p : Reporter) → (length p.queue < queue_depth) ⊎ (¬ (length p.queue < queue_depth))
room p = elim (Bool-cases (ltb (length p.queue) queue_depth)) [
  | inl e ↦ inl (ground arith)
  | inr e ↦ inr (λ lt. ground arith)
]

-- The buffer is never larger than it may be.
Runs-queue : {rs : List Report} → {p : Reporter} → Runs rs p → length p.queue ≤ queue_depth
Runs-queue started = omega arith
Runs-queue (offered {p = p} r run) = elim (room p) [
  | inl lt ↦ rw (offer-fits r p lt) (omega (arith, length-append p.queue (r ∷ [])))
  | inr ge ↦ rw (offer-drops r p ge) (Runs-queue run)
]
Runs-queue (posted r run) = let rest = Runs-queue run in omega arith

Runs-accepted :
    {rs : List Report} → {p : Reporter} → Runs rs p → IsSubsequence (p.taken ++ p.queue) rs
Runs-accepted started = empty
Runs-accepted (offered {rs = rs} {p = p} r run) = elim (room p) [
  | inl lt ↦ rw (offer-fits r p lt) (
      subst (λ l. IsSubsequence l (rs ++ r ∷ [])) (append_assoc p.taken p.queue (r ∷ []))
        (kept r (Runs-accepted run)))
  | inr ge ↦ rw (offer-drops r p ge) (left_out r (Runs-accepted run))
]
Runs-accepted (posted {rs = rs} {queue = queue} {taken = taken} r run) =
    subst (λ l. IsSubsequence l rs) (sym (append_assoc taken (r ∷ []) queue)) (Runs-accepted run)

-- As long as no more is offered than fits, nothing is dropped.
Runs-all :
    {rs : List Report}
    → {p : Reporter} → Runs rs p
    → length rs ≤ queue_depth
    → p.taken ++ p.queue ≡ rs
Runs-all started le = refl
Runs-all (offered {rs = rs} {p = p} r run) le =
    let fewer : length rs < queue_depth = omega (arith, length-append rs (r ∷ [])) in
    let before = Runs-all run (omega arith) in
    rw (offer-fits r p (omega (arith, length-append p.taken p.queue, ap length before)))
      (sym (append_assoc p.taken p.queue (r ∷ [])) ∙ ap (λ l. l ++ r ∷ []) before)
Runs-all (posted {queue = queue} {taken = taken} r run) le =
    append_assoc taken (r ∷ []) queue ∙ Runs-all run le

-- However the session and the reporter take turns, the queue never holds more than 256 records; the
-- drain at the end is a run of the reporter, and behind it the queue is empty and the records that
-- were taken out to be posted are those that were offered, in their order, with some left out.
pub drain-IsSubsequence :
    {rs : List Report}
    → {p : Reporter} → Runs rs p
    → (length p.queue ≤ queue_depth)
      × Runs rs (drain p)
      × ((drain p).queue ≡ [])
      × IsSubsequence (drain p).taken rs
unfolding drain
drain-IsSubsequence {rs = rs} {p = p} run = (
  Runs-queue run,
  drain_queue-Runs rs p.queue p.taken run,
  drain_queue_empty p.queue p.taken,
  subst (λ l. IsSubsequence l rs) (sym (drain_queue-taken p.queue p.taken)) (Runs-accepted run),
)

pub drain-taken :
    {rs : List Report} → {p : Reporter} → Runs rs p → length rs ≤ queue_depth → (drain p).taken ≡ rs
unfolding drain
drain-taken {p = p} run le = drain_queue-taken p.queue p.taken ∙ Runs-all run le
