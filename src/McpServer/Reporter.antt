-- ===== src/McpServer/Reporter.antt =====
-- mcpserver/mcpserver.go, the queue between `report` and the goroutine of `startReporter`.
use casdoor_aiguard.Common.{ℕ, List, [], ◌∷◌, ◌++◌, if◌then◌else◌, ltb, length}
use casdoor_aiguard.McpServer.Protocol.{Report}

abbrev pub queue_depth : ℕ
queue_depth = 256

-- The channel's buffer, and what the goroutine has taken out of it to post, the oldest first.
pub record Reporter : Type 0 where
  pub queue : List Report
  pub taken : List Report

abbrev pub idle : Reporter
idle = record { queue = []; taken = [] }

-- The `select` of `report`
unfoldable pub offer : Report → Reporter → Reporter
offer r p = if ltb (length p.queue) queue_depth then record p { queue = p.queue ++ r ∷ [] } else p

-- The two goroutines, in any interleaving: the records that the session has offered, and the reporter,
-- which passes over a post that fails.
pub data Runs : List Report → Reporter → Type 0 where
  started : Runs [] idle
  offered :
      {rs : List Report}
      → {p : Reporter} → (r : Report) → Runs rs p
      → Runs (rs ++ r ∷ []) (offer r p)
  posted :
      {rs queue taken : List Report}
      → (r : Report) → Runs rs (record { queue = r ∷ queue; taken = taken })
      → Runs rs (record { queue = queue; taken = taken ++ r ∷ [] })

-- `close(s.queue)` and `s.reporting.Wait()`: the loop runs until the queue is empty.
unfoldable pub drain_queue : List Report → List Report → Reporter
drain_queue [] taken = record { queue = []; taken = taken }
drain_queue (r ∷ rs) taken = drain_queue rs (taken ++ r ∷ [])

unfoldable pub drain : Reporter → Reporter
unfolding drain_queue
drain p = drain_queue p.queue p.taken
