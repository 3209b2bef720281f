-- ===== src/Worker/Queue/Recovery.antt =====
-- `recover_pending_messages` collects every page of a scan, in order.
use deploy_hub.Prelude.{
  ℕ, zero, suc, ◌≤◌, String, ◌==◌, eq_iff, ◌≡◌, ◌≢◌, ap, ◌∙◌, some, List, [], ◌++◌, append_assoc,
  arith, false,
}
use deploy_hub.Action.{ok}
use deploy_hub.Worker.Queue.{Entry, Page, recover_from, recover_pending_messages}

-- A scan from the call number `n` at a cursor: the calls that follow one another until one answers
-- the cursor 0-0, how many they are, and the entries of their pages.
pub data Scan (claim : ℕ → String → Page) : ℕ → String → ℕ → List Entry → Type 0 where
  last :
      {n : ℕ} {start : String} {page : List Entry}
      → claim n start ≡ ok ("0-0", page)
      → Scan claim n start 1 page
  more :
      {n : ℕ} {start : String} {next : String} {page rest : List Entry} {k : ℕ}
      → claim n start ≡ ok (next, page)
      → next ≢ "0-0"
      → Scan claim (suc n) next k rest
      → Scan claim n start (suc k) (page ++ rest)

not_done : {next : String} → next ≢ "0-0" → (next == "0-0") ≡ false
not_done {next} h = ground (arith, eq_iff next "0-0")

recover_from-Scan :
    (claim : ℕ → String → Page) {n : ℕ} {start : String} {k : ℕ} {found : List Entry} (fuel : ℕ)
    (sofar : List Entry)
    → Scan claim n start k found
    → k ≤ fuel
    → recover_from claim fuel n start sofar ≡ some (ok (sofar ++ found))
unfolding recover_from
recover_from-Scan claim zero sofar (last h) le = absurd (omega arith)
recover_from-Scan claim (suc f) sofar (last h) le = rw (h, recover_from)
recover_from-Scan claim zero sofar (more h ne s) le = absurd (omega arith)
recover_from-Scan claim (suc f) sofar (more {page = page} {rest = rest} h ne s) le =
    rw (h, recover_from)
      (rw (not_done ne) (
        recover_from-Scan claim f (sofar ++ page) s (omega arith)
        ∙ ap (λ l. some (ok l)) (append_assoc sofar page rest)))

-- If the answers of XAUTOCLAIM from 0-0 make a scan of `k` calls, then `k` rounds of the loop are
-- enough: it returns the entries of all pages, each once and in order.
pub recover-Scan :
    (claim : ℕ → String → Page) (k fuel : ℕ) (found : List Entry)
    → Scan claim 0 "0-0" k found
    → k ≤ fuel
    → recover_pending_messages claim fuel ≡ some (ok found)
unfolding recover_pending_messages
recover-Scan claim k fuel found s le = recover_from-Scan claim fuel [] s le
