-- ===== src/Execute/Fetch/Depth.antt =====
-- pilot-cpu/cpu_execute.c, `fetch_data_`: the function calls itself at most once.
use hexheld_emu.Execute.{ExecuteExterns, PilotExecuteState}
use hexheld_emu.Execute.Fetch.{fetch_depth}
use hexheld_emu.Prelude.{suc, ℕ, ◌≡◌}
use hexheld_emu.Types.{DataBusSpecifier}

module _ (ext : ExecuteExterns) where
  -- A fetch at depth `suc d` is the same as one at depth 1.
  abbrev Flat : ℕ → PilotExecuteState → DataBusSpecifier → Type 0
  Flat d s src = fetch_depth ext (suc d) s src ≡ fetch_depth ext 1 s src
