-- ===== src/Net/Arp.antt =====
-- The cache of kernel/net/net_arp.c and the tests on addresses of include/northstar/net_types.h. An
-- address is the number whose bytes, the highest first, are its `bytes`; an entry holds the address of its
-- device, 0 being null. The cache is a list of its entries. `net_arp_lookup` is given somewhere to write.
pub mod Cache
mod Tests
use Prim.Native.Nat.{bit_and, bit_or}
use northstar_os.Base.{
  ℕ, zero, suc, ◌+◌, ◌-◌, ◌/◌, ◌^◌, Bool, true, false, not, ◌&&◌, ◌||◌, Option, none, some, List,
  [], ◌∷◌, map, get_elem?, set, replicate, ltb, leb, ◌==◌, if◌then◌else◌,
}
use northstar_os.Base.Words.{sub32}

pub data EntryState : Type 0 where
  empty pending valid : EntryState

-- `net_arp_entry`
pub record Entry : Type 0 where
  pub state : EntryState
  pub device : ℕ
  pub protocol_address : ℕ
  pub hardware_address : ℕ
  pub age : ℕ
  pub last_request_age : ℕ

abbrev pub is_empty : EntryState → Bool
is_empty empty = true
is_empty pending = false
is_empty valid = false

-- `net_ipv4_addr_is_unicast`, `net_mac_addr_is_multicast`
abbrev pub is_unicast : ℕ → Bool
is_unicast address =
    not (address / 2 ^ 24 == 0) && not (address / 2 ^ 24 == 127) && ltb (address / 2 ^ 24) 224

abbrev pub is_multicast_mac : ℕ → Bool
is_multicast_mac address = not (bit_and (address / 2 ^ 40) 1 == 0)

-- The test of `find_entry` on an entry, and the index of the one that it finds.
abbrev pub occupies : ℕ → ℕ → Entry → Bool
occupies device address e =
    not (is_empty e.state) && (e.device == device) && (e.protocol_address == address)

pub find_entry : ℕ → ℕ → List Entry → Option ℕ
find_entry device address [] = none
find_entry device address (e ∷ rest) = elim (find_entry device address rest) [
  | none ↦ if occupies device address e then some 0 else none
  | some i ↦ if occupies device address e then some 0 else some (suc i)
]

-- The loop of `allocate_entry` from the index `i` on, `oldest` being the oldest entry so far.
pub allocate_from : ℕ → ℕ → ℕ → List Entry → ℕ
allocate_from i oldest age [] = oldest
allocate_from i oldest age (e ∷ rest) =
    let later =
      allocate_from (suc i) (if ltb age e.age then i else oldest)
        (if ltb age e.age then e.age else age) rest in
    if is_empty e.state then i else later

abbrev pub allocate_entry : List Entry → ℕ
allocate_entry [] = 0
allocate_entry (e ∷ rest) = allocate_from 0 0 e.age (e ∷ rest)

-- The entry that `cache_protocol_address` writes to.
abbrev pub slot_of : ℕ → ℕ → List Entry → ℕ
slot_of device address cache = elim (find_entry device address cache) [
  | none ↦ allocate_entry cache
  | some i ↦ i
]

abbrev pub resolved : ℕ → ℕ → ℕ → Entry
resolved device protocol_address hardware_address = record {
  state = valid;
  device = device;
  protocol_address = protocol_address;
  hardware_address = hardware_address;
  age = 0;
  last_request_age = 0;
}

abbrev pub unusable : ℕ → ℕ → Bool
unusable protocol_address hardware_address =
    not (is_unicast protocol_address)
    || (hardware_address == 0)
    || is_multicast_mac hardware_address

-- `cache_protocol_address`, but for the notification of IPv4.
pub cache_protocol_address : ℕ → ℕ → ℕ → List Entry → List Entry
cache_protocol_address device protocol_address hardware_address cache =
    if unusable protocol_address hardware_address
    then cache
    else set cache (slot_of device protocol_address cache)
        (resolved device protocol_address hardware_address)

abbrev pub hardware_if_valid : Entry → Option ℕ
hardware_if_valid e = elim e.state [ valid ↦ some e.hardware_address | _ ↦ none ]

-- `net_device` with its `ipv4`: the fields that the lookup uses. `address` is that of the structure.
pub record NetDevice : Type 0 where
  pub address : ℕ
  pub registered : Bool
  pub configured : Bool
  pub ipv4_address : ℕ
  pub netmask : ℕ
  pub mac_address : ℕ

-- ff:ff:ff:ff:ff:ff
abbrev pub broadcast_mac : ℕ
broadcast_mac = 2 ^ 48 - 1

-- `net_ipv4_addr_is_limited_broadcast`, `net_ipv4_addr_is_multicast`
abbrev pub is_limited_broadcast : ℕ → Bool
is_limited_broadcast address = address == 2 ^ 32 - 1

abbrev pub is_multicast : ℕ → Bool
is_multicast address = leb 224 (address / 2 ^ 24) && leb (address / 2 ^ 24) 239

-- `ipv4_multicast_mac`: 01:00:5e and the low 23 bits.
abbrev pub ipv4_multicast_mac : ℕ → ℕ
ipv4_multicast_mac address = 0x01005e000000 + bit_and address 0x7fffff

-- `is_directed_broadcast`; `~mask` is taken at 32 bits.
pub is_directed_broadcast : NetDevice → ℕ → Bool
is_directed_broadcast device address =
    device.configured
    && not (leb (2 ^ 32 - 1 - device.netmask) 1)
    && (address
        == bit_or (bit_and device.ipv4_address device.netmask) (2 ^ 32 - 1 - device.netmask))

-- The device's own address.
abbrev pub is_own : NetDevice → ℕ → Bool
is_own device address = device.configured && (address == device.ipv4_address)

-- The end of `net_arp_lookup`, on the cache.
pub lookup_cached : ℕ → ℕ → List Entry → Option ℕ
lookup_cached device address cache = elim (find_entry device address cache) [
  | none ↦ none
  | some i ↦ elim (get_elem? cache i) [ none ↦ none | some e ↦ hardware_if_valid e ]
]

-- `net_arp_lookup`; none is a null device or the answer false.
pub arp_lookup : Option NetDevice → ℕ → List Entry → Option ℕ
arp_lookup none address cache = none
arp_lookup (some device) address cache =
    if not device.registered
    then none
    else if is_limited_broadcast address || is_directed_broadcast device address
    then some broadcast_mac
    else if is_multicast address
    then some (ipv4_multicast_mac address)
    else if is_own device address
    then some device.mac_address
    else lookup_cached device.address address cache

-- `net_arp_reset` on an entry; the addresses stay.
abbrev pub reset_entry : Entry → Entry
reset_entry e = record e { state = empty; device = 0; age = 0; last_request_age = 0 }

abbrev pub arp_reset : List Entry → List Entry
arp_reset cache = map reset_entry cache

abbrev pub saturating_add32 : ℕ → ℕ → ℕ
saturating_add32 value increment =
    if ltb (2 ^ 32 - 1 - value) increment then 2 ^ 32 - 1 else value + increment

-- NET_ARP_CACHE_TTL_TICKS, NET_ARP_PENDING_TTL_TICKS and NET_ARP_REQUEST_RETRY_TICKS
abbrev pub expired : Entry → Bool
expired e = elim e.state [ valid ↦ leb 300 e.age | pending ↦ leb 5 e.age | empty ↦ false ]

abbrev pub is_pending : EntryState → Bool
is_pending pending = true
is_pending valid = false
is_pending empty = false

-- The round of `net_arp_tick` for an entry; `request` tells whether `net_arp_request` answers OK or AGAIN
-- for a device and an address.
abbrev pub aged : (ℕ → ℕ → Bool) → Entry → Entry
aged request e =
    if expired e
    then record e { state = empty; device = 0 }
    else if is_pending e.state
        && leb 1 (sub32 e.age e.last_request_age)
        && request e.device e.protocol_address
    then record e { last_request_age = e.age }
    else e

abbrev pub tick_entry : (ℕ → ℕ → Bool) → ℕ → Entry → Entry
tick_entry request elapsed e =
    if is_empty e.state then e else aged request (record e { age = saturating_add32 e.age elapsed })

abbrev pub arp_tick : (ℕ → ℕ → Bool) → ℕ → List Entry → List Entry
arp_tick request elapsed cache = map (tick_entry request elapsed) cache
