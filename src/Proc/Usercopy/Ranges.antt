-- ===== src/Proc/Usercopy/Ranges.antt =====
-- Which user ranges kernel/proc/usercopy.c accepts, where all callbacks are there.
use northstar_os.Base.{
  ℕ, ◌+◌, ◌^◌, ◌<◌, ◌≡◌, ◌≢◌, refl, sym, ◌∙◌, ◌⊎◌, ◌↔◌, inl, inr, Bool, true, false, not, ◌||◌,
  Option, some, List, ◌==◌, if_intro, arith,
}
use northstar_os.Base.Errno.{ℤ, zero_result, efault}
use northstar_os.Proc.Usercopy.{UserMemoryOps, bounds_overflow, user_range_check}

-- The callbacks, all of them there.
abbrev pub given :
    {U : Type 0}
    → (U → ℕ → ℕ → Bool → Bool)
    → (U → ℕ → ℕ → Option (List ℕ))
    → (U → ℕ → List ℕ → Option U)
    → UserMemoryOps U
given range_valid from_user to_user = record {
  range_valid = some range_valid;
  copy_from_user = some from_user;
  copy_to_user = some to_user;
}

module _ {U : Type 0} (rv : U → ℕ → ℕ → Bool → Bool) (cf : U → ℕ → ℕ → Option (List ℕ))
    (ct : U → ℕ → List ℕ → Option U) (user : U) where
  -- The check accepts a range exactly if there is a process, the range does not wrap, and it is empty or
  -- does not start at the null address and the memory callback accepts it.
  pub user_range_check-accepts :
      (has_space : Bool) (a n : ℕ) (write : Bool)
      → a < 2 ^ 64
      → (user_range_check (given rv cf ct) has_space user a n write ≡ zero_result) ↔ (
          (has_space ≡ true)
          × (a + n < 2 ^ 64)
          × ((n ≡ 0) ⊎ ((a ≢ 0) × (rv user a n write ≡ true))))
  unfolding user_range_check
  user_range_check-accepts has_space a n write w =
      if_intro Claim (not has_space || bounds_overflow a n) _ _
        (λ bad. (
          (λ (e : efault ≡ zero_result). absurd (cc)),
          λ (s, fits, _). absurd (ground (arith, bad, s, fits)),
        ))
        (λ good.
          if_intro Claim (n == 0) _ _
            (λ empty. (
              λ _. (ground (arith, good), ground (arith, good), inl (ground (arith, empty))),
              λ _. refl,
            ))
            (λ full.
              if_intro Claim (a == 0) _ _
                (λ null. (
                  (λ (e : efault ≡ zero_result). absurd (cc)),
                  λ (s, fits, c). absurd (no_null c (ground (arith, null)) (ground (arith, full))),
                ))
                (λ somewhere.
                  if_intro Claim (rv user a n write) _ _
                    (λ accepted. (
                      λ _. (
                        ground (arith, good),
                        ground (arith, good),
                        inr (ground (arith, somewhere), accepted),
                      ),
                      λ _. refl,
                    ))
                    (λ refused. (
                      (λ (e : efault ≡ zero_result). absurd (cc)),
                      λ (s, fits, c). absurd (not_accepted c refused (ground (arith, full))),
                    )))))
    where
      Claim : ℤ → Type 0
      Claim r = (r ≡ zero_result) ↔ (
          (has_space ≡ true)
          × (a + n < 2 ^ 64)
          × ((n ≡ 0) ⊎ ((a ≢ 0) × (rv user a n write ≡ true))))

      no_null : (n ≡ 0) ⊎ ((a ≢ 0) × (rv user a n write ≡ true)) → a ≡ 0 → n ≢ 0 → ⊥
      no_null (inl e) z f = f e
      no_null (inr (ne, e)) z f = ne z

      not_accepted :
          (n ≡ 0) ⊎ ((a ≢ 0) × (rv user a n write ≡ true)) → rv user a n write ≡ false → n ≢ 0 → ⊥
      not_accepted (inl e) z f = f e
      not_accepted (inr (ne, e)) z f = let q : true ≡ false = sym e ∙ z in cc
