-- ===== src/Quantity/Units.antt =====
-- Requests in whole cores and gigabytes (`whole_units_for_requests` of src/workload.rs).
use kube_shim.Prelude.{ℕ, ◌*◌, ◌+◌, ◌≤◌, ◌<◌, Option, arith}
use kube_shim.Quantity.{whole_units_for_requests, unwrap_or}

-- A request is rounded up and by less than one unit: the cores are enough for the CPU request (of
-- one core, where there is none) and one core less is not, and the gigabytes are enough for the
-- memory request (of one gigabyte, where there is none) and one gigabyte less is not.
pub whole_units_for_requests-least :
    (cpu_millicores memory_mb : Option ℕ)
    → let units = whole_units_for_requests cpu_millicores memory_mb in
      let cpu = unwrap_or cpu_millicores 1000 in
      let memory = unwrap_or memory_mb 1024 in
      (cpu ≤ units.0 * 1000)
      × (units.0 * 1000 < cpu + 1000)
      × (memory ≤ units.1 * 1024)
      × (units.1 * 1024 < memory + 1024)
unfolding whole_units_for_requests
whole_units_for_requests-least cpu_millicores memory_mb =
    (omega arith, omega arith, omega arith, omega arith)
