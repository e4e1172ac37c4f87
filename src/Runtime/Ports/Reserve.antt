-- ===== src/Runtime/Ports/Reserve.antt =====
-- Which port `reserve_port` returns, and what it stores.
use optaic_trading.Prelude.{
  ℕ, zero, suc, ◌+◌, ◌-◌, ◌≤◌, ◌<◌, ◌≡◌, ◌⊎◌, inl, inr, true, false, Option, none, some, nat_beq,
  arith, refl, Bool, Bool-cases, ltb, Result, ok, err, ◌>>=◌, if◌then◌else◌, subst,
}
use optaic_trading.Prelude.Dict.{get, get-put}
use optaic_trading.Runtime.Ports.{
  Network, PortManager, PortError, port_out_of_range, is_port_available, scan,
  find_free_port_in_range, find_any_free_port, assign, reserve_preferred, reserve_found,
  reserve_new, reserve_from, reserve_port, get_port,
}

-- A port of a range of `left` ports from `first` on that was free when it was tried.
pub record WasFree (net : Network) (first left port : ℕ) : Type 0 where
  pub moment : ℕ
  pub free : net.binds moment port ≡ true
  pub from : first ≤ port
  pub to : port < first + left

-- Every port of the range was taken when it was tried.
pub AllTaken : Network → ℕ → ℕ → Type 0
AllTaken net first left =
    (port : ℕ) → first ≤ port → port < first + left → (moment : ℕ) × (net.binds moment port ≡ false)

-- What the test of a port finds.
pub data Tested (net : Network) (now port : ℕ) : Result PortError Bool → Type 0 where
  too_high : 65536 ≤ port → Tested net now port (err (port_out_of_range port))
  tested_free : net.binds now port ≡ true → Tested net now port (ok true)
  tested_taken : net.binds now port ≡ false → Tested net now port (ok false)

pub is_port_available-Tested :
    (net : Network) (now port : ℕ) → Tested net now port (is_port_available net now port)
unfolding is_port_available
is_port_available-Tested net now port = elim (Bool-cases (ltb 65535 port)) [
  | inl high ↦ simp (high) (too_high (ground arith))
  | inr low ↦ elim (Bool-cases (net.binds now port)) [
    | inl is_free ↦ simp (low, is_free) (tested_free is_free)
    | inr is_taken ↦ simp (low, is_taken) (tested_taken is_taken)
  ]
]

-- What the scan of a range finds.
data Scanned (net : Network) (left first : ℕ) : Result PortError (Option ℕ × ℕ) → Type 0 where
  found_port :
      (port later : ℕ)
      → WasFree net first left port
      → Scanned net left first (ok (some port, later))
  found_none : (later : ℕ) → AllTaken net first left → Scanned net left first (ok (none, later))
  found_high :
      (port : ℕ)
      → 65536 ≤ port
      → first ≤ port
      → port < first + left
      → Scanned net left first (err (port_out_of_range port))

Scanned-more :
    (net : Network) (left now first : ℕ) (rest : Result PortError (Option ℕ × ℕ))
    → net.binds now first ≡ false
    → Scanned net left (suc first) rest
    → Scanned net (suc left) first rest
unfolding AllTaken
Scanned-more net left now first _ is_taken (found_port port later was) =
    found_port port later (record {
      moment = was.moment;
      free = was.free;
      from = omega (arith, was.from);
      to = omega (arith, was.to);
    })
Scanned-more net left now first _ is_taken (found_none later taken) =
    found_none later λ port from to. elim (Bool-cases (nat_beq port first)) [
      | inl same ↦ let here : port ≡ first = ground arith in (now, rw here is_taken)
      | inr other ↦ taken port (ground arith) (omega arith)
    ]
Scanned-more net left now first _ is_taken (found_high port high from to) =
    found_high port high (omega arith) (omega arith)

scan_on :
    (net : Network) (left now first : ℕ) (tested : Result PortError Bool)
    (rest : Result PortError (Option ℕ × ℕ))
    → Tested net now first tested
    → Scanned net left (suc first) rest
    → Scanned net
        (suc left)
        first
        (tested >>= λ free. if free then ok (some first, suc now) else rest)
scan_on net left now first _ rest (too_high high) later =
    found_high first high (omega arith) (omega arith)
scan_on net left now first _ rest (tested_free is_free) later =
    found_port first (suc now)
      (record { moment = now; free = is_free; from = omega arith; to = omega arith })
scan_on net left now first _ rest (tested_taken is_taken) later =
    Scanned-more net left now first rest is_taken later

scan-Scanned :
    (net : Network) (left now first : ℕ) → Scanned net left first (scan net left now first)
unfolding scan AllTaken
scan-Scanned net zero now first = found_none now λ port from to. absurd (omega arith)
scan-Scanned net (suc left) now first =
    scan_on net left now first (is_port_available net now first)
      (scan net left (suc now) (suc first)) (is_port_available-Tested net now first)
      (scan-Scanned net left (suc now) (suc first))

-- Where a port that is returned comes from.
pub data Source (net : Network) (name preferred_port : ℕ) (manager : PortManager) (port : ℕ)
    : Type 0 where
  previous :
      (moment : ℕ)
      → get name manager.ports ≡ some port
      → net.binds moment port ≡ true
      → Source net name preferred_port manager port
  in_range : WasFree net preferred_port 51 port → Source net name preferred_port manager port
  from_system :
      (moment : ℕ)
      → net.assigned moment ≡ port
      → AllTaken net preferred_port 51
      → Source net name preferred_port manager port

-- What a call returns: the port, where it comes from, and that it is the reservation after it.
pub record IsReserved (net : Network) (name preferred_port : ℕ) (before : PortManager)
    (result : ℕ × PortManager) : Type 0 where
  pub source : Source net name preferred_port before result.0
  pub reserved : get_port name result.1 ≡ some result.0
  pub others : (j : ℕ) → nat_beq j name ≡ false → get_port j result.1 ≡ get_port j before

assign-IsReserved :
    (net : Network) (name preferred_port port : ℕ) (before : PortManager)
    → Source net name preferred_port before port
    → IsReserved net name preferred_port before (port, assign name port before)
unfolding assign get_port
assign-IsReserved net name preferred_port port before source = record {
  source = source;
  reserved = ground (arith, get-put {V = ℕ} name name port before.ports);
  others = λ j other. ground (arith, get-put {V = ℕ} j name port before.ports);
}

-- What a call does: it returns as IsReserved says, or it raises on a port above 65535 that it tried,
-- the previous one or one of the range.
pub data Reserving (net : Network) (name preferred_port : ℕ) (before : PortManager)
    : Result PortError (ℕ × PortManager) → Type 0 where
  returns :
      (result : ℕ × PortManager)
      → IsReserved net name preferred_port before result
      → Reserving net name preferred_port before (ok result)
  raises :
      (port : ℕ)
      → 65536 ≤ port
      → (get name before.ports ≡ some port)
        ⊎ ((preferred_port ≤ port) × (port ≤ preferred_port + 50))
      → Reserving net name preferred_port before (err (port_out_of_range port))

module _ (net : Network) (name preferred_port : ℕ) (before : PortManager) where
  found-Reserving :
      (found : Result PortError (Option ℕ × ℕ))
      → Scanned net 51 preferred_port found
      → Reserving net name preferred_port before
          (found >>= λ result. ok (reserve_found net name before result))
  unfolding reserve_found find_any_free_port
  found-Reserving _ (found_port port later was) =
      returns _ (assign-IsReserved net name preferred_port port before (in_range was))
  found-Reserving _ (found_none later taken) = returns _ (
      assign-IsReserved net name preferred_port (net.assigned later) before
        (from_system later refl taken))
  found-Reserving _ (found_high port high from to) = raises port high (inr (from, omega arith))

  reserve_new-Reserving :
      (now : ℕ)
      → Reserving net name preferred_port before (reserve_new net now name preferred_port before)
  unfolding reserve_new find_free_port_in_range
  reserve_new-Reserving now =
      let many : preferred_port + 50 + 1 - preferred_port ≡ 51 = omega arith in
      rw many
        (found-Reserving (scan net 51 now preferred_port) (scan-Scanned net 51 now preferred_port))

  preferred_on :
      (now : ℕ) (tested : Result PortError Bool) (other : Result PortError (ℕ × PortManager))
      → Tested net now preferred_port tested
      → Reserving net name preferred_port before other
      → Reserving net name preferred_port before (
          tested >>= λ free.
          if free then ok (preferred_port, assign name preferred_port before) else other)
  preferred_on now _ other (too_high high) later =
      raises preferred_port high (inr (omega arith, omega arith))
  preferred_on now _ other (tested_free is_free) later = returns _ (
      assign-IsReserved net name preferred_port preferred_port before
        (in_range (record { moment = now; free = is_free; from = omega arith; to = omega arith })))
  preferred_on now _ other (tested_taken is_taken) later = later

  reserve_preferred-Reserving :
      (now : ℕ)
      → Reserving net name preferred_port before
          (reserve_preferred net now name preferred_port before)
  unfolding reserve_preferred
  reserve_preferred-Reserving now =
      preferred_on now (is_port_available net now preferred_port) _
        (is_port_available-Tested net now preferred_port) (reserve_new-Reserving (suc now))

  previous_on :
      (now port : ℕ) (tested : Result PortError Bool) (other : Result PortError (ℕ × PortManager))
      → get name before.ports ≡ some port
      → Tested net now port tested
      → Reserving net name preferred_port before other
      → Reserving net name preferred_port before
          (tested >>= λ free. if free then ok (port, before) else other)
  unfolding get_port
  previous_on now port _ other e (too_high high) later = raises port high (inl e)
  previous_on now port _ other e (tested_free is_free) later =
      returns _
        (record { source = previous now e is_free; reserved = e; others = λ j different. refl })
  previous_on now port _ other e (tested_taken is_taken) later = later

  reserve_from-Reserving :
      (now : ℕ) (known : Option ℕ)
      → get name before.ports ≡ known
      → Reserving net name preferred_port before
          (reserve_from net now name preferred_port before known)
  unfolding reserve_from
  reserve_from-Reserving now none e = reserve_preferred-Reserving now
  reserve_from-Reserving now (some port) e =
      previous_on now port (is_port_available net now port) _ e
        (is_port_available-Tested net now port) (reserve_preferred-Reserving (suc now))

-- The port that is reserved is the previous one of the service, found free; or one of the 51 ports
-- from the preferred one on, found free; or one of the system's, where all of those were found
-- taken. It is the reservation of the service afterwards, and no other reservation changes. Where
-- the system always has a port to assign, a call raises only on a port above 65535, and that port
-- is the previous one or one of the 51.
pub reserve_port-Reserving :
    (net : Network) (now name preferred_port : ℕ) (before : PortManager)
    → Reserving net name preferred_port before (reserve_port net now name preferred_port before)
unfolding reserve_port
reserve_port-Reserving net now name preferred_port before =
    reserve_from-Reserving net name preferred_port before now (get name before.ports) refl

Reserving-ok :
    (net : Network) (name preferred_port : ℕ) (before : PortManager) (result : ℕ × PortManager)
    {outcome : Result PortError (ℕ × PortManager)}
    → Reserving net name preferred_port before outcome
    → outcome ≡ ok result
    → IsReserved net name preferred_port before result
Reserving-ok net name preferred_port before result (returns found is) e =
    let same : found ≡ result = cc in subst (IsReserved net name preferred_port before) same is
Reserving-ok net name preferred_port before result (raises port high tried) e = cc

-- What a call that returns reserves.
pub reserve_port-IsReserved :
    (net : Network) (now name preferred_port : ℕ) (before : PortManager) (result : ℕ × PortManager)
    → reserve_port net now name preferred_port before ≡ ok result
    → IsReserved net name preferred_port before result
reserve_port-IsReserved net now name preferred_port before result =
    Reserving-ok net name preferred_port before result
      (reserve_port-Reserving net now name preferred_port before)
