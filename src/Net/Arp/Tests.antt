-- ===== src/Net/Arp/Tests.antt =====
-- Runs of the cache of kernel/net/net_arp.c with two entries.
use northstar_os.Base.{
  ℕ, zero, suc, ◌-◌, ◌^◌, ◌≡◌, ◌≢◌, refl, true, false, none, some, List, [], ◌∷◌, get_elem?,
}
use northstar_os.Net.Arp.{
  empty, Entry, occupies, find_entry, allocate_from, cache_protocol_address, lookup_cached,
  NetDevice, arp_lookup, is_directed_broadcast, arp_tick,
}
use northstar_os.Net.Arp.Cache.{
  OneEach, cache_protocol_address-OneEach, lookup-cache_protocol_address,
}

-- No entry.
abbrev vacant : Entry
vacant = record {
  state = empty;
  device = 0;
  protocol_address = 0;
  hardware_address = 0;
  age = 0;
  last_request_age = 0;
}

abbrev vacant_cache : List Entry
vacant_cache = vacant ∷ vacant ∷ []

-- 10.0.0.2 at 02:00:00:00:00:07.
abbrev host : ℕ
host = 167772162

abbrev host_mac : ℕ
host_mac = 2199023255559

-- 10.0.0.15 on 10.0.0.0/24.
abbrev interface : NetDevice
interface = record {
  address = 1;
  registered = true;
  configured = true;
  ipv4_address = 167772175;
  netmask = 4294967040;
  mac_address = 2199023255562;
}

ages_run :
    (arp_lookup
        (some interface)
        host
        (arp_tick (λ d a. false) 299 (cache_protocol_address 1 host host_mac vacant_cache))
      ≡ some host_mac)
    × (arp_lookup
          (some interface)
          host
          (arp_tick (λ d a. false) 300 (cache_protocol_address 1 host host_mac vacant_cache))
        ≡ none)
unfolding cache_protocol_address find_entry allocate_from lookup_cached arp_lookup
    is_directed_broadcast
ages_run = (refl, refl)

vacant-OneEach : OneEach vacant_cache
vacant-OneEach = record { one = λ d a i j e f g h o q. absurd (free d a i e g o) }
  where
    free : (d a i : ℕ) (e : Entry) → get_elem? vacant_cache i ≡ some e → occupies d a e ≡ true → ⊥
    free d a zero e g o = cc
    free d a (suc zero) e g o = cc
    free d a (suc (suc i)) e g o = cc

not_empty : vacant_cache ≢ []
not_empty = λ e. cc

stored_example : OneEach (cache_protocol_address 1 host host_mac vacant_cache)
stored_example =
    cache_protocol_address-OneEach 1 host host_mac vacant_cache not_empty vacant-OneEach

-- 10.0.0.255 and 224.0.0.1.
special_run :
    (arp_lookup (some interface) 167772415 vacant_cache ≡ some (2 ^ 48 - 1))
    × (arp_lookup (some interface) 3758096385 vacant_cache ≡ some 0x01005e000001)
    × (arp_lookup (some interface) 167772175 vacant_cache ≡ some 2199023255562)
    × (arp_lookup none host vacant_cache ≡ none)
unfolding find_entry lookup_cached arp_lookup is_directed_broadcast
special_run = (refl, refl, refl, refl)

cached_example :
    arp_lookup (some interface) host (cache_protocol_address 1 host host_mac vacant_cache)
    ≡ some host_mac
unfolding is_directed_broadcast
cached_example =
    lookup-cache_protocol_address interface host host_mac vacant_cache not_empty vacant-OneEach refl
      refl
