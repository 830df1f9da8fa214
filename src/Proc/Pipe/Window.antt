-- ===== src/Proc/Pipe/Window.antt =====
-- The bytes of a ring buffer such as that of kernel/proc/pipe.c, by their positions.
use northstar_os.Base.{
  ℕ, zero, suc, ◌+◌, ◌-◌, ◌*◌, ◌%◌, ◌≤◌, ◌<◌, ◌≡◌, refl, sym, ap, ap₂, ◌∙◌, ◌≢◌, List, [], ◌∷◌,
  ◌++◌, length, get_or, set, take, drop, get_or-set_ne, arith, inl, inr, leb, Bool-cases,
}
use native.Mathlib.Nat.{mod-eq_of_lt, mod-eq-sub-mod, mod-mod, mod-add-mod}

-- The `n` bytes from the position `s` on.
abbrev pub window : List ℕ → ℕ → ℕ → ℕ → List ℕ
window buffer capacity s zero = []
window buffer capacity s (suc n) = get_or buffer (s % capacity) 0 ∷ window buffer capacity (s + 1) n

module _ (buffer : List ℕ) (capacity : ℕ) where
  pub length-window : (n s : ℕ) → length (window buffer capacity s n) ≡ n
  length-window zero s = refl
  length-window (suc n) s = ap suc (length-window n (s + 1))

  pub window_mod : (n s : ℕ) → window buffer capacity (s % capacity) n ≡ window buffer capacity s n
  window_mod zero s = refl
  window_mod (suc n) s = ap₂ ◌∷◌ (ap (λ i. get_or buffer i 0) (mod-mod s capacity)) (
      sym (window_mod n (s % capacity + 1))
      ∙ ap (λ i. window buffer capacity i n) (mod-add-mod s capacity 1)
      ∙ window_mod n (s + 1))

  pub window_append :
      (m n s : ℕ)
      → window buffer capacity s (m + n)
        ≡ window buffer capacity s m ++ window buffer capacity (s + m) n
  window_append zero n s = ap₂ (window buffer capacity) (omega arith) (omega arith)
  window_append (suc m) n s =
      ap (window buffer capacity s) {x = suc m + n} {y = suc (m + n)} (omega arith)
      ∙ ap (λ l. get_or buffer (s % capacity) 0 ∷ l)
          (window_append m n (s + 1)
            ∙ ap (λ i. window buffer capacity (s + 1) m ++ window buffer capacity i n)
                (omega arith))

  pub take-window :
      (n m s : ℕ) → n ≤ m → take n (window buffer capacity s m) ≡ window buffer capacity s n
  take-window zero m s h = refl
  take-window (suc n) zero s h = absurd (omega arith)
  take-window (suc n) (suc m) s h =
      ap (λ l. get_or buffer (s % capacity) 0 ∷ l) (take-window n m (s + 1) (omega arith))

  pub drop-window :
      (n m s : ℕ)
      → n ≤ m
      → drop n (window buffer capacity s m) ≡ window buffer capacity (s + n) (m - n)
  drop-window zero m s h = ap₂ (window buffer capacity) (omega arith) (omega arith)
  drop-window (suc n) zero s h = absurd (omega arith)
  drop-window (suc n) (suc m) s h =
      drop-window n m (s + 1) (omega arith)
      ∙ ap₂ (window buffer capacity) (omega arith) (omega arith)

-- Positions within one round of the ring are apart.
mod-apart :
    (capacity i j : ℕ) → i < j → j < i + capacity → j < 2 * capacity → i % capacity ≢ j % capacity
mod-apart capacity i j h w r e = elim (Bool-cases (leb capacity j)) [
  | inl over ↦
      let c : capacity ≤ j = ground (arith, over) in
      let ej : j % capacity ≡ j - capacity = mod-eq-sub-mod c ∙ mod-eq_of_lt (omega arith) in
      elim (Bool-cases (leb capacity i)) [
        | inl over' ↦
            let ci : capacity ≤ i = ground (arith, over') in
            let ei : i % capacity ≡ i - capacity = mod-eq-sub-mod ci ∙ mod-eq_of_lt (omega arith) in
            omega arith
        | inr under' ↦
            let ci : i < capacity = ground (arith, under') in
            let ei : i % capacity ≡ i = mod-eq_of_lt ci in omega arith
      ]
  | inr under ↦
      let c : j < capacity = ground (arith, under) in
      let ej : j % capacity ≡ j = mod-eq_of_lt c in
      let ei : i % capacity ≡ i = mod-eq_of_lt (omega arith) in omega arith
]

-- A write behind the bytes leaves them as they are.
pub window-set :
    (buffer : List ℕ) (capacity n s j x : ℕ)
    → s + n ≤ j
    → j < s + capacity
    → j < 2 * capacity
    → window (set buffer (j % capacity) x) capacity s n ≡ window buffer capacity s n
window-set buffer capacity zero s j x h w r = refl
window-set buffer capacity (suc n) s j x h w r =
    ap₂ ◌∷◌ (get_or-set_ne buffer x 0 (λ e. mod-apart capacity s j (omega arith) w r (sym e)))
      (window-set buffer capacity n (s + 1) j x (omega arith) (omega arith) r)
