-- ===== src/Core/String/Copying.antt =====
-- What the copying functions of kernel/core/string.c leave in memory.
use northstar_os.Base.{
  ℕ, zero, suc, ◌+◌, ◌-◌, ◌≤◌, ◌<◌, ◌≡◌, ◌≢◌, refl, ap, ◌∙◌, ◌⊎◌, inl, inr, true, false, ltb, ◌==◌,
  if_intro, Bool-cases, arith,
}
use northstar_os.Core.String.{Memory, store, copy_up, memcpy, copy_down, memmove}

store_same : (memory : Memory) (address value : ℕ) → store memory address value address ≡ value
store_same memory address value = ground arith

store_other :
    (memory : Memory) (address value other : ℕ)
    → other ≢ address
    → store memory address value other ≡ memory other
store_other memory address value other h = ground (arith, h)

-- The bytes outside of `n` from `to` on are as they were.
abbrev pub Outside : Memory → Memory → ℕ → ℕ → Type 0
Outside old new to n = (a : ℕ) → (a < to) ⊎ (to + n ≤ a) → new a ≡ old a

-- The bytes from `to` on are those that were from `from` on.
pub record Moved (old new : Memory) (to from n : ℕ) : Type 0 where
  pub bytes : (i : ℕ) → i < n → new (to + i) ≡ old (from + i)
  pub others : Outside old new to n

copy_up-Moved :
    (to from n i : ℕ) (memory : Memory)
    → (to ≤ from) ⊎ (from + i + n ≤ to + i)
    → ((j : ℕ) → j < n → copy_up to from i n memory (to + i + j) ≡ memory (from + i + j))
      × Outside memory (copy_up to from i n memory) (to + i) n
unfolding copy_up
copy_up-Moved to from zero i memory h = (λ j l. absurd (omega arith), λ a o. refl)
copy_up-Moved to from (suc n) i memory h =
    let next = store memory (to + i) (memory (from + i)) in
    let (bytes, others) = copy_up-Moved to from n (i + 1) next (narrow h) in
    (
      λ j l. byte j l (Bool-cases (j == 0)) bytes others,
      λ a o. others a (wider a o) ∙ store_other memory (to + i) _ a (apart a o),
    )
  where
    narrow :
        (to ≤ from) ⊎ (from + i + suc n ≤ to + i)
        → (to ≤ from) ⊎ (from + (i + 1) + n ≤ to + (i + 1))
    narrow (inl l) = inl l
    narrow (inr l) = inr (omega arith)

    wider :
        (a : ℕ) → (a < to + i) ⊎ (to + i + suc n ≤ a) → (a < to + (i + 1)) ⊎ (to + (i + 1) + n ≤ a)
    wider a (inl l) = inl (omega arith)
    wider a (inr l) = inr (omega arith)

    apart : (a : ℕ) → (a < to + i) ⊎ (to + i + suc n ≤ a) → a ≢ to + i
    apart a (inl l) = omega arith
    apart a (inr l) = omega arith

    unread :
        (j : ℕ) → (to ≤ from) ⊎ (from + i + suc n ≤ to + i) → j < n → from + (i + 1) + j ≢ to + i
    unread j (inl l) r = omega arith
    unread j (inr l) r = omega arith

    byte :
        (j : ℕ)
        → j < suc n
        → ((j == 0) ≡ true) ⊎ ((j == 0) ≡ false)
        → ((k : ℕ)
            → k < n
            → copy_up to from
                (i + 1)
                n
                (store memory (to + i) (memory (from + i)))
                (to + (i + 1) + k)
              ≡ store memory (to + i) (memory (from + i)) (from + (i + 1) + k))
        → Outside
            (store memory (to + i) (memory (from + i)))
            (copy_up to from (i + 1) n (store memory (to + i) (memory (from + i))))
            (to + (i + 1))
            n
        → copy_up to from (i + 1) n (store memory (to + i) (memory (from + i))) (to + i + j)
          ≡ memory (from + i + j)
    byte j l (inl first) bytes others =
        let z : j ≡ 0 = ground (arith, first) in
        others (to + i + j) (inl (omega arith))
        ∙ ap (store memory (to + i) (memory (from + i))) {x = to + i + j} {y = to + i} (omega arith)
        ∙ store_same memory (to + i) _
        ∙ ap memory (omega arith)
    byte j l (inr later) bytes others =
        let z : j ≢ 0 = ground (arith, later) in
        ap (copy_up to from (i + 1) n (store memory (to + i) (memory (from + i)))) {x = to + i + j}
          {y = to + (i + 1) + (j - 1)} (omega arith)
        ∙ bytes (j - 1) (omega arith)
        ∙ store_other memory (to + i) _ _ (unread (j - 1) h (omega arith))
        ∙ ap memory (omega arith)

copy_down-Moved :
    (to from n : ℕ) (memory : Memory)
    → from ≤ to
    → Moved memory (copy_down to from n memory) to from n
unfolding copy_down
copy_down-Moved to from zero memory h = record {
  bytes = λ i l. absurd (omega arith);
  others = λ a o. refl;
}
copy_down-Moved to from (suc n) memory h =
    let m = copy_down-Moved to from n (store memory (to + n) (memory (from + n))) h in
    record {
      bytes = λ i l. byte i l (Bool-cases (i == n)) m;
      others = λ a o. m.others a (nearer a o) ∙ store_other memory (to + n) _ a (apart a o);
    }
  where
    nearer : (a : ℕ) → (a < to) ⊎ (to + suc n ≤ a) → (a < to) ⊎ (to + n ≤ a)
    nearer a (inl l) = inl l
    nearer a (inr l) = inr (omega arith)

    apart : (a : ℕ) → (a < to) ⊎ (to + suc n ≤ a) → a ≢ to + n
    apart a (inl l) = omega arith
    apart a (inr l) = omega arith

    byte :
        (i : ℕ)
        → i < suc n
        → ((i == n) ≡ true) ⊎ ((i == n) ≡ false)
        → Moved
            (store memory (to + n) (memory (from + n)))
            (copy_down to from n (store memory (to + n) (memory (from + n))))
            to
            from
            n
        → copy_down to from n (store memory (to + n) (memory (from + n))) (to + i)
          ≡ memory (from + i)
    byte i l (inl last) m =
        let e : i ≡ n = ground (arith, last) in
        m.others (to + i) (inr (omega arith))
        ∙ ap (store memory (to + n) (memory (from + n))) {x = to + i} {y = to + n} (omega arith)
        ∙ store_same memory (to + n) _
        ∙ ap memory (omega arith)
    byte i l (inr lower) m =
        let e : i ≢ n = ground (arith, lower) in
        m.bytes i (omega arith) ∙ store_other memory (to + n) _ (from + i) (omega arith)

-- `memcpy` moves the bytes if the two ranges do not overlap, and also if the destination is not behind
-- the source; it changes no other byte.
pub memcpy-Moved :
    (to from count : ℕ) (memory : Memory)
    → (to ≤ from) ⊎ (from + count ≤ to)
    → Moved memory (memcpy to from count memory) to from count
unfolding memcpy
memcpy-Moved to from count memory h =
    let (bytes, others) = copy_up-Moved to from count 0 memory (started h) in
    record {
      bytes = λ i l.
          ap (copy_up to from 0 count memory) {x = to + i} {y = to + 0 + i} (omega arith)
          ∙ bytes i l
          ∙ ap memory (omega arith);
      others = λ a o. others a (placed a o);
    }
  where
    started : (to ≤ from) ⊎ (from + count ≤ to) → (to ≤ from) ⊎ (from + 0 + count ≤ to + 0)
    started (inl l) = inl l
    started (inr l) = inr (omega arith)

    placed : (a : ℕ) → (a < to) ⊎ (to + count ≤ a) → (a < to + 0) ⊎ (to + 0 + count ≤ a)
    placed a (inl l) = inl (omega arith)
    placed a (inr l) = inr (omega arith)

-- `memmove` moves the bytes however the two ranges overlap, and changes no other byte.
pub memmove-Moved :
    (to from count : ℕ) (memory : Memory)
    → Moved memory (memmove to from count memory) to from count
unfolding memmove
memmove-Moved to from count memory =
    if_intro (λ new. Moved memory new to from count) (ltb to from) _ _
      (λ up. memcpy-Moved to from count memory (inl (ground (arith, up))))
      (λ down. copy_down-Moved to from count memory (ground (arith, down)))
