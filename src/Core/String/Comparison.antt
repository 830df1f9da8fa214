-- ===== src/Core/String/Comparison.antt =====
-- What the comparing and measuring functions of kernel/core/string.c answer.
use northstar_os.Base.{
  ℕ, zero, suc, ◌+◌, ◌≤◌, ◌<◌, ◌≡◌, ◌≢◌, refl, sym, ap, ◌∙◌, ◌↔◌, inl, inr, false, not, some, ◌==◌,
  if_intro, Bool-cases, arith,
}
use northstar_os.Base.Errno.{zero_result}
use northstar_os.Core.String.{
  Memory, int_sub, compare_up, memcmp, length_up, strnlen, strlen_up, strlen,
}

int_sub-zero : (a b : ℕ) → int_sub a b ≡ zero_result → a ≡ b
int_sub-zero a b e = ground (arith, e)

compare_up-agrees :
    (memory : Memory) (a b n i : ℕ)
    → (compare_up memory a b i n ≡ zero_result)
      ↔ ((j : ℕ) → i ≤ j → j < i + n → memory (a + j) ≡ memory (b + j))
unfolding compare_up
compare_up-agrees memory a b zero i = (λ _ j l r. absurd (omega arith), λ _. refl)
compare_up-agrees memory a b (suc n) i =
    let (to, back) = compare_up-agrees memory a b n (i + 1) in
    if_intro
      (λ r. (r ≡ zero_result) ↔ ((j : ℕ) → i ≤ j → j < i + suc n → memory (a + j) ≡ memory (b + j)))
      (not (memory (a + i) == memory (b + i))) _ _
      (λ differ. (
        λ e. absurd (let same = int_sub-zero _ _ e in ground (arith, differ, same)),
        λ f. absurd (
            let same : memory (a + i) ≡ memory (b + i) = f i (omega arith) (omega arith) in
            ground (arith, differ, same)),
      ))
      (λ same. (
        λ e j l r. at_or_later j l r same (to e),
        λ f. back (λ j l r. f j (omega arith) (omega arith)),
      ))
  where
    at_or_later :
        (j : ℕ)
        → i ≤ j
        → j < i + suc n
        → not (memory (a + i) == memory (b + i)) ≡ false
        → ((k : ℕ) → i + 1 ≤ k → k < i + 1 + n → memory (a + k) ≡ memory (b + k))
        → memory (a + j) ≡ memory (b + j)
    at_or_later j l r same later = elim (Bool-cases (j == i)) [
      | inl first ↦
          let e : j ≡ i = ground (arith, first) in
          let q : memory (a + i) ≡ memory (b + i) = ground (arith, same) in
          ap (λ k. memory (a + k)) e ∙ q ∙ ap (λ k. memory (b + k)) (sym e)
      | inr other ↦ let ne : j ≢ i = ground (arith, other) in later j (omega arith) (omega arith)
    ]

-- `memcmp` answers zero exactly where all bytes agree.
pub memcmp-agrees :
    (memory : Memory) (a b count : ℕ)
    → (memcmp memory a b count ≡ zero_result)
      ↔ ((i : ℕ) → i < count → memory (a + i) ≡ memory (b + i))
unfolding memcmp
memcmp-agrees memory a b count =
    let (to, back) = compare_up-agrees memory a b count 0 in
    (λ e i l. to e i (omega arith) (omega arith), λ f. back (λ j l r. f j (omega arith)))

-- The first zero byte from `i` on, or `i + n` where none of `n` bytes is zero.
record FirstZero (memory : Memory) (string i n result : ℕ) : Type 0 where
  above : i ≤ result
  bounded : result ≤ i + n
  no_zero : (j : ℕ) → i ≤ j → j < result → memory (string + j) ≢ 0
  ends : result < i + n → memory (string + result) ≡ 0

length_up-FirstZero :
    (memory : Memory) (string n i : ℕ) → FirstZero memory string i n (length_up memory string i n)
unfolding length_up
length_up-FirstZero memory string zero i = record {
  above = omega arith;
  bounded = omega arith;
  no_zero = λ j l r. absurd (omega arith);
  ends = λ l. absurd (omega arith);
}
length_up-FirstZero memory string (suc n) i =
    let rest = length_up-FirstZero memory string n (i + 1) in
    if_intro (FirstZero memory string i (suc n)) (not (memory (string + i) == 0)) _ _
      (λ nonzero. record {
        above = omega (arith, rest.above);
        bounded = omega (arith, rest.bounded);
        no_zero = λ j l r. elim (Bool-cases (j == i)) [
          | inl first ↦
              let e : j ≡ i = ground (arith, first) in
              λ z.
                let q : memory (string + i) ≡ 0 = ap (λ k. memory (string + k)) (sym e) ∙ z in
                ground (arith, nonzero, q)
          | inr other ↦ let ne : j ≢ i = ground (arith, other) in rest.no_zero j (omega arith) r
        ];
        ends = λ l. rest.ends (omega arith);
      })
      (λ is_zero. record {
        above = omega arith;
        bounded = omega arith;
        no_zero = λ j l r. absurd (omega arith);
        ends = λ _. ground (arith, is_zero);
      })

-- `strnlen` answers the number of bytes before the first zero byte, or the maximum if none of so many
-- bytes is zero.
pub strnlen-first_zero :
    (memory : Memory) (string maximum : ℕ)
    → (strnlen memory string maximum ≤ maximum)
      × ((j : ℕ) → j < strnlen memory string maximum → memory (string + j) ≢ 0)
      × (strnlen memory string maximum < maximum
          → memory (string + strnlen memory string maximum) ≡ 0)
unfolding strnlen
strnlen-first_zero memory string maximum =
    let f = length_up-FirstZero memory string maximum 0 in
    (omega (arith, f.bounded), λ j l. f.no_zero j (omega arith) l, λ l. f.ends (omega arith))

strlen_up-length_up :
    (memory : Memory) (string fuel i m : ℕ)
    → i ≤ m
    → m < i + fuel
    → memory (string + m) ≡ 0
    → strlen_up fuel memory string i ≡ some (length_up memory string i fuel)
unfolding strlen_up length_up
strlen_up-length_up memory string zero i m l r z = absurd (omega arith)
strlen_up-length_up memory string (suc fuel) i m l r z =
    elim (Bool-cases (memory (string + i) == 0)) [
      | inl here ↦ rw here refl
      | inr later ↦
          let ne : i ≢ m = λ e.
            let q : memory (string + i) ≡ 0 = ap (λ k. memory (string + k)) e ∙ z in
            ground (arith, later, q) in
          rw later (strlen_up-length_up memory string fuel (i + 1) m (omega arith) (omega arith) z)
    ]

-- The loop of `strlen` ends on a string with a zero byte, within as many rounds as that byte is away, and
-- its answer is that of `strnlen` with a maximum beyond it.
pub strlen-strnlen :
    (memory : Memory) (string fuel m : ℕ)
    → m < fuel
    → memory (string + m) ≡ 0
    → strlen fuel memory string ≡ some (strnlen memory string fuel)
unfolding strlen strnlen
strlen-strnlen memory string fuel m l z =
    strlen_up-length_up memory string fuel 0 m (omega arith) (omega arith) z
