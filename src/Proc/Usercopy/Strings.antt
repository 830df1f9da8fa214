-- ===== src/Proc/Usercopy/Strings.antt =====
-- The strings that kernel/proc/usercopy.c copies from the user, where all callbacks are there.
use northstar_os.Base.{
  ℕ, zero, suc, ◌+◌, ◌-◌, ◌^◌, ◌≤◌, ◌<◌, ◌≡◌, ◌≢◌, refl, sym, ap, ◌∙◌, ◌⊎◌, inl, inr, Bool, true,
  false, not, ◌||◌, Option, none, some, List, [], ◌∷◌, length, set, get_or, length-set,
  get_or-set_self, get_or-set_ne, ◌==◌, if◌then◌else◌, if_intro, Bool-cases, arith,
}
use mathlib.Core.Path.{subst}
use northstar_os.Base.Words.{add64}
use northstar_os.Base.Errno.{ℤ, zero_result, efault, einval, enametoolong}
use northstar_os.Proc.Usercopy.{
  bounds_overflow, user_range_check, copied, is_ok, copy_from_user, StringResult, string_byte,
  string_loop, copy_user_string,
}
use northstar_os.Proc.Usercopy.Ranges.{given}

module _ {U : Type 0} (rv : U → ℕ → ℕ → Bool → Bool) (cf : U → ℕ → ℕ → Option (List ℕ))
    (ct : U → ℕ → List ℕ → Option U) (user : U) where
  -- A byte that may be read.
  abbrev pub Allowed : ℕ → Type 0
  Allowed a = (a ≢ 0) × (rv user a 1 false ≡ true)

  module _ (mem : ℕ → ℕ)
      (reads : (a : ℕ) → (cf user a 1 ≡ none) ⊎ (cf user a 1 ≡ some (mem a ∷ []))) where
    -- What a copy of one byte comes to.
    abbrev ByteCases : ℕ → ℤ × List ℕ → Type 0
    ByteCases a r = (r ≡ (efault, [])) ⊎ ((r ≡ (zero_result, mem a ∷ [])) × Allowed a)

    byte_cases :
        (has_space : Bool) (a : ℕ)
        → a < 2 ^ 64
        → ByteCases a (copy_from_user (given rv cf ct) has_space true user a 1)
    unfolding copy_from_user user_range_check
    byte_cases has_space a w =
        if_intro Claim (not has_space || bounds_overflow a 1) _ _ (λ _. inl refl)
          (λ _.
            if_intro Claim (a == 0) _ _ (λ _. inl refl)
              (λ somewhere.
                if_intro Claim (rv user a 1 false) _ _
                  (λ accepted. copies (ground (arith, somewhere), accepted) (reads a))
                  (λ _. inl refl)))
      where
        Claim : ℤ → Type 0
        Claim r =
            ByteCases a
              (if not (is_ok r) || false then (r, []) else copied (given rv cf ct) user a 1)

        copies :
            Allowed a
            → (cf user a 1 ≡ none) ⊎ (cf user a 1 ≡ some (mem a ∷ []))
            → ByteCases a (copied (given rv cf ct) user a 1)
        copies ok (inl e) = inl (rw e refl)
        copies ok (inr e) = inr (rw e refl, ok)

    -- The first `offset` bytes of the destination are the user's, which may be read and are not zero.
    record Prefix (source capacity offset : ℕ) (destination : List ℕ) : Type 0 where
      sized : length destination ≡ capacity
      bytes : (i : ℕ) → i < offset → get_or destination i 0 ≡ mem (add64 source i)
      no_zero : (i : ℕ) → i < offset → mem (add64 source i) ≢ 0
      allowed : (i : ℕ) → i < offset → Allowed (add64 source i)

    -- The destination holds the user's string, of `n` bytes and the zero behind them.
    pub record Copied (source capacity n : ℕ) (destination : List ℕ) : Type 0 where
      pub short : n < capacity
      pub bytes :
          (i : ℕ)
          → i < n
          → (get_or destination i 0 ≡ mem (add64 source i)) × (mem (add64 source i) ≢ 0)
      pub ends : (get_or destination n 0 ≡ 0) × (mem (add64 source n) ≡ 0)
      pub allowed : (i : ℕ) → i ≤ n → Allowed (add64 source i)

    -- It holds as many bytes as there is room for, and a zero.
    pub record Truncated (source capacity : ℕ) (destination : List ℕ) : Type 0 where
      pub bytes : (i : ℕ) → i < capacity → mem (add64 source i) ≢ 0
      pub fits : (i : ℕ) → i < capacity - 1 → get_or destination i 0 ≡ mem (add64 source i)
      pub ends : get_or destination (capacity - 1) 0 ≡ 0

    pub data StringCases (source capacity : ℕ) : StringResult → Type 0 where
      refuses :
          (error : ℤ) (destination : List ℕ)
          → (error ≡ efault) ⊎ (error ≡ einval)
          → StringCases source capacity
              (record { status = error; destination = destination; stored_length = none })
      copies :
          (n : ℕ) (destination : List ℕ)
          → Copied source capacity n destination
          → StringCases source capacity
              (record { status = zero_result; destination = destination; stored_length = some n })
      too_long :
          (destination : List ℕ)
          → Truncated source capacity destination
          → StringCases source capacity
              (record { status = enametoolong; destination = destination; stored_length = none })

    -- One byte more.
    stored :
        (source capacity offset value : ℕ) (destination : List ℕ)
        → offset < capacity
        → length destination ≡ capacity
        → ((i : ℕ) → i < offset → get_or destination i 0 ≡ mem (add64 source i))
        → value ≡ mem (add64 source offset)
        → (i : ℕ) → i < offset + 1
        → get_or (set destination offset value) i 0 ≡ mem (add64 source i)
    stored source capacity offset value destination l s b e i r = elim (Bool-cases (i == offset)) [
      | inl last ↦
          let q : i ≡ offset = ground (arith, last) in
          ap (λ j. get_or (set destination offset value) j 0) q
          ∙ get_or-set_self destination offset value 0 (omega arith)
          ∙ e
          ∙ ap (λ j. mem (add64 source j)) (sym q)
      | inr earlier ↦
          let ne : i ≢ offset = ground (arith, earlier) in
          get_or-set_ne destination value 0 (λ x. ne (sym x)) ∙ b i (omega arith)
    ]

    -- A property of the last of the indices, and of those before it.
    up_to :
        (P : ℕ → Type 0) (offset : ℕ)
        → ((i : ℕ) → i < offset → P i)
        → P offset
        → (i : ℕ) → i < offset + 1
        → P i
    up_to P offset f last i l = elim (Bool-cases (i == offset)) [
      | inl e ↦ let q : offset ≡ i = ground (arith, e) in subst P q last
      | inr e ↦ let ne : i ≢ offset = ground (arith, e) in f i (omega arith)
    ]

    string_loop-StringCases :
        (has_space : Bool) (source capacity n offset : ℕ) (destination : List ℕ)
        → 0 < capacity
        → offset + n ≡ capacity
        → Prefix source capacity offset destination
        → StringCases source capacity
            (string_loop (given rv cf ct) has_space user source offset n destination)
    unfolding string_loop
    string_loop-StringCases has_space source capacity zero offset destination z e p =
        too_long _ (record {
          bytes = λ i l. p.no_zero i (omega arith);
          fits = λ i l. get_or-set_ne destination 0 0 (omega arith) ∙ p.bytes i (omega arith);
          ends =
              ap (λ j. get_or (set destination (offset - 1) 0) j 0) {x = capacity - 1}
                {y = offset - 1} (omega arith)
              ∙ get_or-set_self destination (offset - 1) 0 0 (omega (arith, p.sized));
        })
    string_loop-StringCases has_space source capacity (suc n) offset destination z e p =
        one (copy_from_user (given rv cf ct) has_space true user (add64 source offset) 1)
          (byte_cases has_space (add64 source offset) (omega arith))
          (λ next q.
            string_loop-StringCases has_space source capacity n (offset + 1) next z (omega arith) q)
      where
        value : ℕ
        value = mem (add64 source offset)

        here :
            (i : ℕ)
            → i < offset + 1
            → get_or (set destination offset value) i 0 ≡ mem (add64 source i)
        here = stored source capacity offset value destination (omega arith) p.sized p.bytes refl

        one :
            (r : ℤ × List ℕ)
            → ByteCases (add64 source offset) r
            → ((next : List ℕ)
                → Prefix source capacity (offset + 1) next
                → StringCases source capacity
                    (string_loop (given rv cf ct) has_space user source (offset + 1) n next))
            → StringCases source capacity (
                string_byte destination offset r
                  (λ next. string_loop (given rv cf ct) has_space user source (offset + 1) n next))
        one r (inl failed) rest =
            subst
              (λ x. StringCases source capacity (
                string_byte destination offset x
                  (λ next. string_loop (given rv cf ct) has_space user source (offset + 1) n next)))
              (sym failed) (refuses efault destination (inl refl))
        one r (inr (got, ok)) rest =
            subst
              (λ x. StringCases source capacity (
                string_byte destination offset x
                  (λ next. string_loop (given rv cf ct) has_space user source (offset + 1) n next)))
              (sym got)
              (if_intro (StringCases source capacity) (value == 0) _ _
                (λ ends.
                  let zero_byte : value ≡ 0 = ground (arith, ends) in
                  copies offset _ (record {
                    short = omega arith;
                    bytes = λ i l. (here i (omega arith), p.no_zero i l);
                    ends = (here offset (omega arith) ∙ zero_byte, zero_byte);
                    allowed = λ i l.
                        up_to (λ j. Allowed (add64 source j)) offset p.allowed ok i (omega arith);
                  }))
                (λ goes_on.
                  let nonzero : value ≢ 0 = ground (arith, goes_on) in
                  rest _ (record {
                    sized = length-set destination offset value ∙ p.sized;
                    bytes = here;
                    no_zero = up_to (λ j. mem (add64 source j) ≢ 0) offset p.no_zero nonzero;
                    allowed = up_to (λ j. Allowed (add64 source j)) offset p.allowed ok;
                  })))

    -- Into a destination of the capacity, where a copy of one byte fails or gives the byte of the user's
    -- memory: success means that the destination holds the user's string up to and with its zero byte, that
    -- its length is stored, and that each byte was let through by the memory callback and is not at the null
    -- address; a name that is too long fills the destination, which still ends in a zero byte; on any other
    -- error, EFAULT or EINVAL, no length is stored.
    pub copy_user_string-StringCases :
        (has_space : Bool) (destination : List ℕ) (capacity source : ℕ)
        → length destination ≡ capacity
        → StringCases source capacity
            (copy_user_string (given rv cf ct) has_space true user destination capacity source)
    unfolding copy_user_string
    copy_user_string-StringCases has_space destination capacity source s =
        if_intro (StringCases source capacity) (not true || (capacity == 0) || (source == 0)) _ _
          (λ _. refuses einval destination (inr refl))
          (λ fine.
            string_loop-StringCases has_space source capacity capacity 0 destination
              (ground (arith, fine)) (omega arith)
              (record {
                sized = s;
                bytes = λ i l. absurd (omega arith);
                no_zero = λ i l. absurd (omega arith);
                allowed = λ i l. absurd (omega arith);
              }))
