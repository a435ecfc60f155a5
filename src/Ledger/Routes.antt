-- ===== src/Ledger/Routes.antt =====
-- The export and the routing of backend/internal/ledger/handler.go, and the flag that admits one
-- full-chain scan at a time.
use kite_rail.Prelude.{
  ℕ, ◌+◌, ◌-◌, ◌≤◌, ◌≡◌, refl, Bool, true, false, not, ◌||◌, Option, none, some, List, [], ◌∷◌,
  take, arith, ◌==◌, if◌then◌else◌,
}
use kite_rail.Prelude.Text.{Text, codes, text_eq}
use kite_rail.Prelude.Http.{is_get, query_get}
use kite_rail.Ledger.Entry.{LedgerEntry}
use kite_rail.Ledger.Verify.{select_after}
use kite_rail.Ledger.Handler.{
  Request, Reply, failure, exported, parse_after, acquire_full_scan, handle_query, handle_head,
  handle_verify,
}

-- The lines that reach the client before the read fails, if it does.
unfoldable pub export_lines : Option ℕ → ℕ → List LedgerEntry → List LedgerEntry
export_lines none after rows = select_after after rows
export_lines (some k) after rows = take k (select_after after rows)

unfoldable pub handle_export : Bool → Option ℕ → Request → List LedgerEntry → Reply
unfolding export_lines
handle_export full_scan fault r rows =
    if not (is_get r.method)
    then failure 405
    else elim (parse_after (query_get (codes "after_seq") r.params)) [
      | none ↦ failure 400
      | some after ↦
          if not (acquire_full_scan full_scan).0
          then failure 429
          else exported (export_lines fault after rows)
    ]

abbrev is_fault : Option ℕ → Bool
is_fault none = false
is_fault (some k) = true

module _ (sha256 : Text → Text) where
  -- The path is what follows the API's prefix.
  unfoldable pub serve_http : Bool → Option ℕ → Request → List LedgerEntry → Reply
  serve_http full_scan fault r rows =
      let is = text_eq r.path in
      if is (codes "/verify") || is (codes "/verify/")
      then handle_verify sha256 full_scan fault r rows
      else if is (codes "/head") || is (codes "/head/")
      then handle_head (is_fault fault) r rows
      else if is (codes "/export") || is (codes "/export/")
      then handle_export full_scan fault r rows
      else if is [] || is (codes "/")
      then handle_query (is_fault fault) r rows
      else failure 404

-- Requests for a scan arrive, and scans that run come to their end.
pub data ScanEvent : Type 0 where
  arrive leave : ScanEvent

-- The flag `fullScan`, with the number of scans that run.
pub record Gate : Type 0 where
  pub full_scan : Bool
  pub running : ℕ

unfoldable pub gate_step : ScanEvent → Gate → Gate
unfolding acquire_full_scan
gate_step arrive g =
    let (admitted, flag) = acquire_full_scan g.full_scan in
    record { full_scan = flag; running = if admitted then g.running + 1 else g.running }
gate_step leave g =
    if g.running == 0 then g else record { full_scan = false; running = g.running - 1 }

unfoldable pub gate_run : List ScanEvent → Gate → Gate
gate_run [] g = g
gate_run (e ∷ es) g = gate_run es (gate_step e g)

abbrev pub idle_gate : Gate
idle_gate = record { full_scan = false; running = 0 }

-- The flag is up exactly while one scan runs.
record IsExclusive (g : Gate) : Type 0 where
  one : g.running ≤ 1
  raised : g.full_scan ≡ (g.running == 1)

gate_step-IsExclusive : (e : ScanEvent) (g : Gate) → IsExclusive g → IsExclusive (gate_step e g)
unfolding gate_step
gate_step-IsExclusive arrive g h = ground arith
gate_step-IsExclusive leave g h = ground arith

gate_run-IsExclusive :
    (es : List ScanEvent) (g : Gate) → IsExclusive g → IsExclusive (gate_run es g)
unfolding gate_run
gate_run-IsExclusive [] g h = h
gate_run-IsExclusive (e ∷ es) g h =
    gate_run-IsExclusive es (gate_step e g) (gate_step-IsExclusive e g h)

-- However requests for a scan and the ends of scans are interleaved, at most one verification or
-- export runs at a time, and the flag is up exactly while one does.
pub gate_run_one :
    (es : List ScanEvent)
    → let g = gate_run es idle_gate in (g.running ≤ 1) × (g.full_scan ≡ (g.running == 1))
gate_run_one es =
    let kept = gate_run-IsExclusive es idle_gate (record { one = omega arith; raised = refl }) in
    (kept.one, kept.raised)
