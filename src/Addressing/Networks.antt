-- ===== src/Addressing/Networks.antt =====
-- What addressing.py uses of Python's ipaddress: networks and the generator of their subnets.
use Prim.Native.Nat.{◌^◌}
use netlab.Prelude.{ℕ, ◌+◌, ◌-◌, ◌*◌, ◌&&◌, Option, none, some, ltb, leb, if◌then◌else◌}

-- 32 address bits for IPv4, 128 for IPv6
pub record Net : Type 0 where
  pub bits : ℕ
  pub address : ℕ
  pub prefixlen : ℕ

abbrev pub size : Net → ℕ
size n = 2 ^ (n.bits - n.prefixlen)

-- A generator made by n.subnets(new_prefix=plen), with the number of subnets it has yielded.
pub record Subnets : Type 0 where
  pub base : Net
  pub plen : ℕ
  pub yielded : ℕ

unfoldable pub subnets_of : Net → ℕ → Subnets
subnets_of n plen = record { base = n; plen = plen; yielded = 0 }

abbrev pub nth : Subnets → ℕ → Net
nth g i = record {
  bits = g.base.bits;
  address = g.base.address + i * 2 ^ (g.base.bits - g.plen);
  prefixlen = g.plen;
}

-- next(generator): a subnet, StopIteration, or the ValueError of a bad prefix length
pub data Next : Type 0 where
  yields : Net → Subnets → Next
  stops : Next
  raises : Next

unfoldable pub next_subnet : Subnets → Next
next_subnet g =
    if leb g.base.prefixlen g.plen && leb g.plen g.base.bits
    then (if ltb g.yielded (2 ^ (g.plen - g.base.prefixlen))
        then yields (nth g g.yielded) (record g { yielded = g.yielded + 1 })
        else stops)
    else raises

unfoldable pub host_of : Net → ℕ → Option (ℕ × ℕ)
host_of n host = if ltb host (size n) then some (n.address + host, n.prefixlen) else none
