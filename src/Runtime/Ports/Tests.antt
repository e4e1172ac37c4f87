-- ===== src/Runtime/Ports/Tests.antt =====
-- Reservations with port 8080 taken, and the theorems about them there.
use optaic_trading.Prelude.{◌≡◌, refl, true, not, nat_beq, ok, err}
use optaic_trading.Runtime.Ports.{
  Network, PortManager, missing, is_port_available, load_ports, open_manager, reserve_from,
  reserve_preferred, reserve_new, reserve_found, find_free_port_in_range, scan, reserve_port,
  assign, port_out_of_range,
}
use optaic_trading.Runtime.Ports.Reserve.{Reserving, reserve_port-Reserving}
use optaic_trading.Runtime.Ports.Restart.{opened, reserved, restart_same, reserve_stable}

-- Port 8080 is taken, and the system assigns port 50000.
abbrev busy : Network
busy = record { binds = λ now port. not (nat_beq port 8080); assigned = λ now. 50000 }

abbrev start : PortManager
start = open_manager missing

reserve_port-Reserving_example : Reserving busy 1 8080 start (reserve_port busy 0 1 8080 start)
reserve_port-Reserving_example = reserve_port-Reserving busy 0 1 8080 start

-- A preferred port above 65535 is not reserved.
too_high : reserve_port busy 0 1 70000 start ≡ err (port_out_of_range 70000)
unfolding reserve_port reserve_from open_manager load_ports is_port_available reserve_preferred
    reserve_new reserve_found find_free_port_in_range scan
too_high = refl

abbrev after : PortManager
after = assign 1 8081 start

-- Port 8081 is taken in place of 8080.
took_8081 : reserve_port busy 0 1 8080 start ≡ ok (8081, after)
unfolding reserve_port reserve_from open_manager load_ports is_port_available reserve_preferred
    reserve_new reserve_found find_free_port_in_range scan
took_8081 = refl

restart_same_example : (open_manager after.file).ports ≡ after.ports
restart_same_example =
    restart_same (reserved busy 0 1 8080 (8081, after) took_8081 (opened missing))

free_8081 : is_port_available busy 7 8081 ≡ ok true
unfolding is_port_available
free_8081 = refl

reserve_stable_example :
    reserve_port busy 7 1 9090 (open_manager after.file) ≡ ok (8081, open_manager after.file)
reserve_stable_example =
    reserve_stable busy 0 7 1 8080 9090 start (8081, after) (opened missing) took_8081 free_8081
