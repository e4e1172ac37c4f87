-- ===== src/Runtime/Ports.antt =====
-- optaic/runtime/ports.py: the ports of the services, chosen among the free ones and kept in
-- DATA_DIR/state/ports.json. The sockets of the system are a parameter; a service name, which the
-- code compares and uses as a key alone, is a number. The bind host is one for all calls.
pub mod Reserve
pub mod Restart
pub mod Tests
use optaic_trading.Prelude.{
  ℕ, zero, suc, ◌+◌, ◌-◌, Bool, true, false, Option, none, some, List, [], ◌∷◌, if◌then◌else◌,
  contains, ltb, Result, ok, err, ◌>>=◌,
}
use optaic_trading.Prelude.Dict.{Dict, keys, get, put, delete}

-- Whether the system lets a port be bound at a moment, and the port it assigns on its own choice.
-- Each use of a socket takes a moment, so that other programs may come between. The system is taken
-- to have a port to assign.
pub record Network : Type 0 where
  pub binds : ℕ → ℕ → Bool
  pub assigned : ℕ → ℕ

-- OverflowError, which a socket raises on a port above 65535 and the test does not catch
pub data PortError : Type 0 where
  port_out_of_range : ℕ → PortError

abbrev pub last_port : ℕ
last_port = 65535

unfoldable pub is_port_available : Network → ℕ → ℕ → Result PortError Bool
is_port_available net now port =
    if ltb last_port port then err (port_out_of_range port) else ok (net.binds now port)

-- The loop over `range`, with the number of ports that are left; the moment after it is returned.
unfoldable pub scan : Network → ℕ → ℕ → ℕ → Result PortError (Option ℕ × ℕ)
unfolding is_port_available
scan net zero now port = ok (none, now)
scan net (suc left) now port =
    let rest = scan net left (suc now) (suc port) in
    is_port_available net now port >>= λ free. if free then ok (some port, suc now) else rest

unfoldable pub find_free_port_in_range : Network → ℕ → ℕ → ℕ → Result PortError (Option ℕ × ℕ)
unfolding scan
find_free_port_in_range net now start end = scan net (end + 1 - start) now start

unfoldable pub find_any_free_port : Network → ℕ → ℕ
find_any_free_port net now = net.assigned now

-- What ports.json holds: nothing, text that is no payload, or the ports of a payload.
pub data File : Type 0 where
  missing malformed : File
  payload : Dict ℕ → File

pub record PortManager : Type 0 where
  pub ports : Dict ℕ
  pub file : File

abbrev pub port_range_size : ℕ
port_range_size = 50

unfoldable pub load_ports : File → Dict ℕ
load_ports missing = []
load_ports malformed = []
load_ports (payload ports) = ports

-- `PortManager(data_dir)`
unfoldable pub open_manager : File → PortManager
unfolding load_ports
open_manager file = record { ports = load_ports file; file = file }

-- `self._ports[name] = port` and `self._save_ports()`
unfoldable pub assign : ℕ → ℕ → PortManager → PortManager
assign name port manager = record {
  ports = put name port manager.ports;
  file = payload (put name port manager.ports);
}

-- What follows the scan: its port, or one that the system assigns
unfoldable pub reserve_found : Network → ℕ → PortManager → Option ℕ × ℕ → ℕ × PortManager
unfolding assign find_any_free_port
reserve_found net name manager (some port, later) = (port, assign name port manager)
reserve_found net name manager (none, later) =
    (find_any_free_port net later, assign name (find_any_free_port net later) manager)

unfoldable pub reserve_new : Network → ℕ → ℕ → ℕ → PortManager → Result PortError (ℕ × PortManager)
reserve_new net now name preferred_port manager =
    find_free_port_in_range net now preferred_port (preferred_port + port_range_size) >>= λ found.
    ok (reserve_found net name manager found)

-- Behind the test of a previous port
unfoldable pub reserve_preferred :
    Network → ℕ → ℕ → ℕ → PortManager → Result PortError (ℕ × PortManager)
unfolding is_port_available assign
reserve_preferred net now name preferred_port manager =
    is_port_available net now preferred_port >>= λ free.
    if free
    then ok (preferred_port, assign name preferred_port manager)
    else reserve_new net (suc now) name preferred_port manager

-- The previous port of the service is the last argument.
unfoldable pub reserve_from :
    Network → ℕ → ℕ → ℕ → PortManager → Option ℕ → Result PortError (ℕ × PortManager)
unfolding is_port_available
reserve_from net now name preferred_port manager none =
    reserve_preferred net now name preferred_port manager
reserve_from net now name preferred_port manager (some previous_port) =
    is_port_available net now previous_port >>= λ free.
    if free
    then ok (previous_port, manager)
    else reserve_preferred net (suc now) name preferred_port manager

-- A call that raises has assigned nothing: the manager stays as it was.
unfoldable pub reserve_port : Network → ℕ → ℕ → ℕ → PortManager → Result PortError (ℕ × PortManager)
reserve_port net now name preferred_port manager =
    reserve_from net now name preferred_port manager (get name manager.ports)

unfoldable pub release_port : ℕ → PortManager → PortManager
release_port name manager =
    if contains name (keys manager.ports)
    then record { ports = delete name manager.ports; file = payload (delete name manager.ports) }
    else manager

unfoldable pub get_port : ℕ → PortManager → Option ℕ
get_port name manager = get name manager.ports
