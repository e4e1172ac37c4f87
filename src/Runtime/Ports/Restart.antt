-- ===== src/Runtime/Ports/Restart.antt =====
-- The reservations and their file: what survives a restart.
use optaic_trading.Prelude.{
  ℕ, suc, ◌+◌, ◌≡◌, inl, inr, true, Option, none, some, refl, Bool-cases, ap, ◌∙◌, contains, Bool,
  false, Result, ok, err, ◌>>=◌, if◌then◌else◌, subst,
}
use optaic_trading.Prelude.Dict.{get, keys}
use optaic_trading.Runtime.Ports.{
  Network, PortManager, PortError, File, load_ports, open_manager, is_port_available, assign,
  reserve_preferred, reserve_found, reserve_new, reserve_from, reserve_port, release_port, get_port,
  find_free_port_in_range,
}
use optaic_trading.Runtime.Ports.Reserve.{reserve_port-IsReserved}

-- The file holds the reservations.
pub IsSaved : PortManager → Type 0
IsSaved manager = load_ports manager.file ≡ manager.ports

pub open_manager-IsSaved : (file : File) → IsSaved (open_manager file)
unfolding IsSaved open_manager
open_manager-IsSaved file = refl

assign-IsSaved : (name port : ℕ) (manager : PortManager) → IsSaved (assign name port manager)
unfolding IsSaved assign load_ports
assign-IsSaved name port manager = refl

reserve_found-IsSaved :
    (net : Network) (name : ℕ) (manager : PortManager) (found : Option ℕ × ℕ)
    → IsSaved (reserve_found net name manager found).1
unfolding reserve_found
reserve_found-IsSaved net name manager (some port, later) = assign-IsSaved name port manager
reserve_found-IsSaved net name manager (none, later) = assign-IsSaved name _ manager

-- A call that returns leaves the reservations in the file.
abbrev Saving : Result PortError (ℕ × PortManager) → Type 0
Saving (ok result) = IsSaved result.1
Saving (err error) = Unit

tested_kept :
    (tested : Result PortError Bool) (here : ℕ × PortManager)
    (other : Result PortError (ℕ × PortManager))
    → IsSaved here.1
    → Saving other
    → Saving (tested >>= λ free. if free then ok here else other)
tested_kept (err error) here other saved later = tt
tested_kept (ok true) here other saved later = saved
tested_kept (ok false) here other saved later = later

found-Saving :
    (net : Network) (name : ℕ) (manager : PortManager) (found : Result PortError (Option ℕ × ℕ))
    → Saving (found >>= λ result. ok (reserve_found net name manager result))
found-Saving net name manager (err error) = tt
found-Saving net name manager (ok result) = reserve_found-IsSaved net name manager result

reserve_preferred-Saving :
    (net : Network) (now name preferred_port : ℕ) (manager : PortManager)
    → Saving (reserve_preferred net now name preferred_port manager)
unfolding reserve_preferred reserve_new
reserve_preferred-Saving net now name preferred_port manager =
    tested_kept (is_port_available net now preferred_port)
      (preferred_port, assign name preferred_port manager)
      (reserve_new net (suc now) name preferred_port manager)
      (assign-IsSaved name preferred_port manager)
      (found-Saving net name manager
        (find_free_port_in_range net (suc now) preferred_port (preferred_port + 50)))

reserve_from-Saving :
    (net : Network) (now name preferred_port : ℕ) (manager : PortManager) (known : Option ℕ)
    → IsSaved manager
    → Saving (reserve_from net now name preferred_port manager known)
unfolding reserve_from
reserve_from-Saving net now name preferred_port manager none saved =
    reserve_preferred-Saving net now name preferred_port manager
reserve_from-Saving net now name preferred_port manager (some port) saved =
    tested_kept (is_port_available net now port) (port, manager) _ saved
      (reserve_preferred-Saving net (suc now) name preferred_port manager)

reserve_port-IsSaved :
    (net : Network) (now name preferred_port : ℕ) (manager : PortManager) (result : ℕ × PortManager)
    → reserve_port net now name preferred_port manager ≡ ok result
    → IsSaved manager
    → IsSaved result.1
unfolding reserve_port
reserve_port-IsSaved net now name preferred_port manager result e saved =
    subst Saving e
      (reserve_from-Saving net now name preferred_port manager (get name manager.ports) saved)

release_port-IsSaved :
    (name : ℕ) (manager : PortManager) → IsSaved manager → IsSaved (release_port name manager)
unfolding release_port IsSaved load_ports
release_port-IsSaved name manager saved = elim (Bool-cases (contains name (keys manager.ports))) [
  | inl known ↦ rw known refl
  | inr unknown ↦ rw unknown saved
]

-- The managers that a process can have: one that is opened, and what the calls make of it. A call
-- that raises leaves the manager.
pub data Managed : PortManager → Type 0 where
  opened : (file : File) → Managed (open_manager file)
  reserved :
      {manager : PortManager} (net : Network) (now name preferred_port : ℕ)
      (result : ℕ × PortManager)
      → reserve_port net now name preferred_port manager ≡ ok result
      → Managed manager
      → Managed result.1
  released :
      {manager : PortManager} (name : ℕ) → Managed manager → Managed (release_port name manager)

-- Whatever was reserved and released since the start, the file holds the reservations of the
-- process: a process that starts again has the same.
pub restart_same :
    {manager : PortManager} → Managed manager → (open_manager manager.file).ports ≡ manager.ports
unfolding open_manager IsSaved
restart_same (opened file) = open_manager-IsSaved file
restart_same (reserved net now name preferred_port result e m) =
    reserve_port-IsSaved net now name preferred_port _ result e (restart_same m)
restart_same (released name m) = release_port-IsSaved name _ (restart_same m)

reserve_known :
    (net : Network) (now name preferred_port port : ℕ) (manager : PortManager)
    → get name manager.ports ≡ some port
    → is_port_available net now port ≡ ok true
    → reserve_port net now name preferred_port manager ≡ ok (port, manager)
unfolding reserve_port reserve_from
reserve_known net now name preferred_port port manager known is_free =
    ap (reserve_from net now name preferred_port manager) known ∙ rw is_free refl

-- A port that a service reserved is the port that it gets after a restart, with whatever preferred
-- port, if that port is available then.
pub reserve_stable :
    (net : Network) (now later name preferred_port other_port : ℕ) (manager : PortManager)
    (result : ℕ × PortManager)
    → Managed manager
    → reserve_port net now name preferred_port manager ≡ ok result
    → is_port_available net later result.0 ≡ ok true
    → reserve_port net later name other_port (open_manager result.1.file)
      ≡ ok (result.0, open_manager result.1.file)
unfolding get_port
reserve_stable net now later name preferred_port other_port manager result m e is_free =
    let again : get name (open_manager result.1.file).ports ≡ some result.0 =
      ap (get {V = ℕ} name) (restart_same (reserved net now name preferred_port result e m))
      ∙ (reserve_port-IsReserved net now name preferred_port manager result e).reserved in
    reserve_known net later name other_port result.0 (open_manager result.1.file) again is_free
