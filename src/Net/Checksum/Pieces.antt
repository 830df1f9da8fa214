-- ===== src/Net/Checksum/Pieces.antt =====
-- How a message is cut into pieces does not matter to kernel/net/net_checksum.c, and what the folding
-- of its sum yields.
use northstar_os.Base.{
  ℕ, ◌-◌, ◌%◌, ◌^◌, ◌<◌, ◌≡◌, refl, sym, ap, ◌∙◌, true, false, List, [], ◌∷◌, ◌++◌, arith,
  if◌then◌else◌, Bool-cases, inl, inr,
}
use northstar_os.Base.Words.{add32}
use northstar_os.Net.Checksum.{
  State, checksum_init, word, add_word, update_words, update, fold_sum, final_sum, finalize,
  compute,
}

-- States that differ at most in a byte that is not in use.
pub record Same (s t : State) : Type 0 where
  pub sums : s.sum ≡ t.sum
  pub kept : s.has_odd_byte ≡ t.has_odd_byte
  pub bytes : s.has_odd_byte ≡ true → s.odd_byte ≡ t.odd_byte

-- One byte, by itself.
abbrev feed_byte : State → ℕ → State
feed_byte s b =
    if s.has_odd_byte
    then add_word s s.odd_byte b
    else record { sum = s.sum; odd_byte = b; has_odd_byte = true }

feed : State → List ℕ → State
feed s [] = s
feed s (b ∷ rest) = feed (feed_byte s b) rest

feed-append : (xs ys : List ℕ) (s : State) → feed s (xs ++ ys) ≡ feed (feed s xs) ys
unfolding feed
feed-append [] ys s = refl
feed-append (x ∷ xs) ys s = feed-append xs ys _

Same-refl : (s : State) → Same s s
Same-refl s = record { sums = refl; kept = refl; bytes = λ h. refl }

Same-trans : (r s t : State) → Same r s → Same s t → Same r t
Same-trans r s t a b = record {
  sums = a.sums ∙ b.sums;
  kept = a.kept ∙ b.kept;
  bytes = λ h. a.bytes h ∙ b.bytes (sym a.kept ∙ h);
}

Same-sym : (s t : State) → Same s t → Same t s
Same-sym s t a = record {
  sums = sym a.sums;
  kept = sym a.kept;
  bytes = λ h. sym (a.bytes (a.kept ∙ h));
}

feed_byte-Same : (s t : State) (b : ℕ) → Same s t → Same (feed_byte s b) (feed_byte t b)
feed_byte-Same s t b a = elim (Bool-cases s.has_odd_byte) [
  | inl odd ↦
      rw (odd, sym a.kept ∙ odd)
        (record { sums = rw (a.sums, a.bytes odd) refl; kept = refl; bytes = λ h. absurd (cc) })
  | inr even ↦
      rw (even, sym a.kept ∙ even) (record { sums = a.sums; kept = refl; bytes = λ h. refl })
]

feed-Same : (bs : List ℕ) (s t : State) → Same s t → Same (feed s bs) (feed t bs)
unfolding feed
feed-Same [] s t a = a
feed-Same (b ∷ bs) s t a = feed-Same bs _ _ (feed_byte-Same s t b a)

-- The loop over words is the loop over bytes.
update_words-Same :
    (bs : List ℕ) (sum odd : ℕ)
    → Same
        (update_words (record { sum = sum; odd_byte = odd; has_odd_byte = false }) bs)
        (feed (record { sum = sum; odd_byte = odd; has_odd_byte = false }) bs)
unfolding update_words feed
update_words-Same [] sum odd = Same-refl _
update_words-Same (b ∷ []) sum odd = Same-refl _
update_words-Same (high ∷ low ∷ rest) sum odd =
    Same-trans _ _ _ (update_words-Same rest (add32 sum (word high low)) odd)
      (feed-Same rest _ _ (record { sums = refl; kept = refl; bytes = λ h. absurd (cc) }))

update-Same : (bs : List ℕ) (s : State) → Same (update s bs) (feed s bs)
unfolding update feed
update-Same [] s = Same-refl s
update-Same (b ∷ bs) s = elim (Bool-cases s.has_odd_byte) [
  | inl odd ↦ rw odd (update_words-Same bs _ _)
  | inr even ↦ rw even (update_words-Same (b ∷ bs) s.sum s.odd_byte)
]

finalize-Same : (s t : State) → Same s t → finalize s ≡ finalize t
unfolding finalize
finalize-Same s t a = ap (λ x. (2 ^ 32 - 1 - fold_sum 2 x) % 2 ^ 16) sums
  where
    sums : final_sum s ≡ final_sum t
    sums = elim (Bool-cases s.has_odd_byte) [
      | inl odd ↦ rw (odd, sym a.kept ∙ odd, a.sums, a.bytes odd) refl
      | inr even ↦ rw (even, sym a.kept ∙ even) a.sums
    ]

-- Updating a checksum piece by piece yields the checksum of the whole message, wherever it is cut.
pub compute-append :
    (xs ys : List ℕ) → finalize (update (update checksum_init xs) ys) ≡ compute (xs ++ ys)
unfolding compute
compute-append xs ys = finalize-Same _ _ (
    Same-trans _ _ _ (update-Same ys _) (
      Same-trans _ _ _ (feed-Same ys _ _ (update-Same xs checksum_init)) (
        rw (← feed-append xs ys checksum_init)
          (Same-sym _ _ (update-Same (xs ++ ys) checksum_init)))))

-- Two rounds of folding bring a sum of 32 bits below 16 bits, and keep it modulo 65535.
pub fold_sum-folds :
    (sum : ℕ) → sum < 2 ^ 32 → (fold_sum 2 sum < 2 ^ 16) × (fold_sum 2 sum % 65535 ≡ sum % 65535)
unfolding fold_sum
fold_sum-folds sum h = (ground arith, ground arith)
