-- ===== src/Net/Arp/Cache.antt =====
-- The cache of kernel/net/net_arp.c has one entry for an address, which is the last one stored.
use northstar_os.Base.{
  ℕ, zero, suc, ◌+◌, ◌<◌, ◌≤◌, ◌≡◌, ◌≢◌, refl, sym, ap, ◌∙◌, ◌⊎◌, inl, inr, Bool, true, false,
  Option, none, some, List, [], ◌∷◌, length, get_elem?, set, get_elem?-set_self, get_elem?-set_ne,
  ltb, ◌==◌, if◌then◌else◌, if_intro, Bool-cases, arith,
}
use mathlib.Core.Path.{subst}
use northstar_os.Net.Arp.{
  Entry, is_empty, occupies, find_entry, allocate_from, allocate_entry, slot_of, resolved, unusable,
  cache_protocol_address, hardware_if_valid, lookup_cached, NetDevice, arp_lookup,
  is_limited_broadcast, is_multicast, is_directed_broadcast, is_own, broadcast_mac,
}

-- The entry that is found occupies the address, and if none is found then none does.
abbrev pub FindCases : ℕ → ℕ → List Entry → Option ℕ → Type 0
FindCases device address cache none =
    (i : ℕ) (e : Entry) → get_elem? cache i ≡ some e → occupies device address e ≡ false
FindCases device address cache (some i) =
    (i < length cache)
    × ((e : Entry) × (get_elem? cache i ≡ some e) × (occupies device address e ≡ true))

find_entry-FindCases :
    (device address : ℕ) (cache : List Entry)
    → FindCases device address cache (find_entry device address cache)
unfolding find_entry
find_entry-FindCases device address [] = λ i e h. absurd (cc)
find_entry-FindCases device address (e ∷ rest) =
    behind (find_entry device address rest) (find_entry-FindCases device address rest)
  where
    behind :
        (o : Option ℕ)
        → FindCases device address rest o
        → FindCases device address (e ∷ rest) (elim o [
          | none ↦ if occupies device address e then some 0 else none
          | some i ↦ if occupies device address e then some 0 else some (suc i)
        ])
    behind none f =
        if_intro (FindCases device address (e ∷ rest)) (occupies device address e) _ _
          (λ here. (omega arith, (e, refl, here))) (λ other. nowhere other f)
      where
        nowhere :
            occupies device address e ≡ false
            → ((i : ℕ) (x : Entry) → get_elem? rest i ≡ some x → occupies device address x ≡ false)
            → (i : ℕ) (x : Entry) → get_elem? (e ∷ rest) i ≡ some x
            → occupies device address x ≡ false
        nowhere other f zero x h =
            let same : e ≡ x = cc in subst (λ y. occupies device address y ≡ false) same other
        nowhere other f (suc i) x h = f i x h
    behind (some i) (l, (x, h, o)) =
        if_intro (FindCases device address (e ∷ rest)) (occupies device address e) _ _
          (λ here. (omega arith, (e, refl, here))) (λ other. (omega arith, (x, h, o)))

allocate_from-bound :
    (i oldest age total : ℕ) (cache : List Entry)
    → oldest < total
    → i + length cache ≤ total
    → allocate_from i oldest age cache < total
unfolding allocate_from
allocate_from-bound i oldest age total [] l r = l
allocate_from-bound i oldest age total (e ∷ rest) l r =
    if_intro (λ n. n < total) (is_empty e.state) _ _ (λ _. omega arith)
      (λ _.
        allocate_from-bound (suc i) _ _ total rest
          (if_intro (λ n. n < total) (ltb age e.age) _ _ (λ _. omega arith) (λ _. l)) (omega arith))

-- The slot that an address gets, and that no other entry occupies the address.
record Slot (device address : ℕ) (cache : List Entry) (k : ℕ) : Type 0 where
  inside : k < length cache
  others :
      (j : ℕ) (e : Entry) → j ≢ k → get_elem? cache j ≡ some e → occupies device address e ≡ false

-- No two entries are for the same device and address.
pub record OneEach (cache : List Entry) : Type 0 where
  pub one :
      (device address i j : ℕ) (e f : Entry)
      → get_elem? cache i ≡ some e
      → get_elem? cache j ≡ some f
      → occupies device address e ≡ true
      → occupies device address f ≡ true
      → i ≡ j

slot_of-Slot :
    (device address : ℕ) (cache : List Entry)
    → OneEach cache
    → cache ≢ []
    → Slot device address cache (slot_of device address cache)
slot_of-Slot device address cache u ne =
    split (find_entry device address cache) (find_entry-FindCases device address cache)
  where
    room : (c : List Entry) → c ≢ [] → allocate_entry c < length c
    room [] h = absurd (h refl)
    room (e ∷ rest) h =
        allocate_from-bound 0 0 e.age (length (e ∷ rest)) (e ∷ rest) (omega arith) (omega arith)

    split :
        (o : Option ℕ)
        → FindCases device address cache o
        → Slot device address cache (elim o [ none ↦ allocate_entry cache | some i ↦ i ])
    split none f = record { inside = room cache ne; others = λ j e _ h. f j e h }
    split (some i) (l, (x, h, o)) = record {
      inside = l;
      others = λ j e apart g. elim (Bool-cases (occupies device address e)) [
        | inl both ↦ absurd (apart (u.one device address j i e x g h both o))
        | inr single ↦ single
      ];
    }

-- The entries after a write to one of them.
entry_of_set :
    (cache : List Entry) (k j : ℕ) (new f : Entry)
    → k < length cache
    → get_elem? (set cache k new) j ≡ some f
    → ((j ≡ k) × (new ≡ f)) ⊎ ((j ≢ k) × (get_elem? cache j ≡ some f))
entry_of_set cache k j new f l h = elim (Bool-cases (j == k)) [
  | inl here ↦
      let e : j ≡ k = ground (arith, here) in
      let q : some new ≡ some f =
        sym (get_elem?-set_self cache k new l) ∙ ap (get_elem? (set cache k new)) (sym e) ∙ h in
      inl (e, cc)
  | inr apart ↦
      let ne : j ≢ k = ground (arith, apart) in
      inr (ne, sym (get_elem?-set_ne cache new (λ x. ne (sym x))) ∙ h)
]

-- Who occupies an address of the new entry's is for that address.
resolved-occupies :
    (device address hardware d a : ℕ)
    → occupies d a (resolved device address hardware) ≡ true
    → (d ≡ device) × (a ≡ address)
resolved-occupies device address hardware d a h = (ground (arith, h), ground (arith, h))

-- A cache with an entry at most for each device and address is one again after an address has been cached.
pub cache_protocol_address-OneEach :
    (device address hardware : ℕ) (cache : List Entry)
    → cache ≢ []
    → OneEach cache
    → OneEach (cache_protocol_address device address hardware cache)
unfolding cache_protocol_address
cache_protocol_address-OneEach device address hardware cache ne u =
    if_intro OneEach (unusable address hardware) _ _ (λ _. u)
      (λ _. record {
        one = λ d a i j e f g h o q. same d a i j e f o q (place i e g) (place j f h);
      })
  where
    k : ℕ
    k = slot_of device address cache

    slot : Slot device address cache k
    slot = slot_of-Slot device address cache u ne

    place :
        (j : ℕ) (f : Entry)
        → get_elem? (set cache k (resolved device address hardware)) j ≡ some f
        → ((j ≡ k) × (resolved device address hardware ≡ f))
          ⊎ ((j ≢ k) × (get_elem? cache j ≡ some f))
    place j f h = entry_of_set cache k j (resolved device address hardware) f slot.inside h

    clash :
        (d a j : ℕ) (e f : Entry)
        → occupies d a e ≡ true
        → resolved device address hardware ≡ e
        → j ≢ k
        → get_elem? cache j ≡ some f
        → occupies d a f ≡ true
        → ⊥
    clash d a j e f o n apart g q =
        let (x, y) =
          resolved-occupies device address hardware d a
            (subst (λ z. occupies d a z ≡ true) (sym n) o) in
        let free : occupies device address f ≡ false = slot.others j f apart g in
        let both : occupies device address f ≡ true = rw (sym x, sym y) q in
        let r : true ≡ false = sym both ∙ free in cc

    same :
        (d a i j : ℕ) (e f : Entry)
        → occupies d a e ≡ true
        → occupies d a f ≡ true
        → ((i ≡ k) × (resolved device address hardware ≡ e))
          ⊎ ((i ≢ k) × (get_elem? cache i ≡ some e))
        → ((j ≡ k) × (resolved device address hardware ≡ f))
          ⊎ ((j ≢ k) × (get_elem? cache j ≡ some f))
        → i ≡ j
    same d a i j e f o q (inl (x, n)) (inl (y, n')) = x ∙ sym y
    same d a i j e f o q (inl (x, n)) (inr (y, g)) = absurd (clash d a j e f o n y g q)
    same d a i j e f o q (inr (x, g)) (inl (y, n)) = absurd (clash d a i f e q n x g o)
    same d a i j e f o q (inr (x, g)) (inr (y, h)) = u.one d a i j e f g h o q

-- What has been cached is what the cache gives.
cached-lookup :
    (device address hardware : ℕ) (cache : List Entry)
    → cache ≢ []
    → OneEach cache
    → unusable address hardware ≡ false
    → lookup_cached device address (cache_protocol_address device address hardware cache)
      ≡ some hardware
unfolding cache_protocol_address lookup_cached
cached-lookup device address hardware cache ne u fine =
    rw fine (found (find_entry device address after) (find_entry-FindCases device address after))
  where
    k : ℕ
    k = slot_of device address cache

    slot : Slot device address cache k
    slot = slot_of-Slot device address cache u ne

    new : Entry
    new = resolved device address hardware

    after : List Entry
    after = set cache k new

    found :
        (o : Option ℕ)
        → FindCases device address after o
        → (elim o [
          | none ↦ none
          | some i ↦ elim (get_elem? after i) [ none ↦ none | some e ↦ hardware_if_valid e ]
        ])
          ≡ some hardware
    found none f =
        let free : occupies device address new ≡ false =
          f k new (get_elem?-set_self cache k new slot.inside) in
        absurd (ground (arith, free))
    found (some i) (l, (x, h, o)) = elim (entry_of_set cache k i new x slot.inside h) [
      | inl (e, n) ↦ let q : get_elem? after i ≡ some new = h ∙ ap some (sym n) in rw q refl
      | inr (apart, g) ↦
          let free = slot.others i x apart g in let r : true ≡ false = sym o ∙ free in absurd (cc)
    ]

-- From a cache that is not empty and has an entry at most for each device and address, after a unicast
-- address has been cached for a registered device, with a hardware address that is neither zero nor
-- multicast, the lookup of that address gives the hardware address, except that it gives the broadcast
-- address where the address is the device's directed broadcast, and else the device's own hardware address
-- where the address is the device's own.
pub lookup-cache_protocol_address :
    (device : NetDevice) (address hardware : ℕ) (cache : List Entry)
    → cache ≢ []
    → OneEach cache
    → device.registered ≡ true
    → unusable address hardware ≡ false
    → arp_lookup
        (some device)
        address
        (cache_protocol_address device.address address hardware cache)
      ≡ some (
          if is_directed_broadcast device address
          then broadcast_mac
          else if is_own device address
          then device.mac_address
          else hardware)
unfolding arp_lookup
lookup-cache_protocol_address device address hardware cache ne u on fine =
    let limited : is_limited_broadcast address ≡ false = ground (arith, fine) in
    let multicast : is_multicast address ≡ false = ground (arith, fine) in
    let given = cached-lookup device.address address hardware cache ne u fine in
    let reached : arp_lookup (some device) address after ≡ (
        if is_directed_broadcast device address
        then some broadcast_mac
        else if is_own device address
        then some device.mac_address
        else some hardware) =
      simp (on, limited, multicast, given) in
    reached ∙ moved (is_directed_broadcast device address) (is_own device address)
  where
    after : List Entry
    after = cache_protocol_address device.address address hardware cache

    moved :
        (a b : Bool)
        → ◌≡◌ {A = Option ℕ}
            (if a then some broadcast_mac else if b then some device.mac_address else some hardware)
            (some (if a then broadcast_mac else if b then device.mac_address else hardware))
    moved true b = refl
    moved false true = refl
    moved false false = refl
