-- ===== src/Proc/Elf/Images.antt =====
-- `ns_elf64_plan` (kernel/proc/elf_loader.c) as a whole: what it promises of an accepted image.
use Prim.Native.Nat.{bit_and}
use northstar_os.Base.{
  ℕ, ◌+◌, ◌-◌, ◌^◌, ◌≤◌, ◌<◌, ◌≡◌, refl, ◌≢◌, true, not, ◌&&◌, Option, none, some, List, [], ◌∷◌,
  ◌⊎◌, inl, inr, arith, ltb, leb, ◌==◌, if◌then◌else◌, Bool-cases, length,
}
use northstar_os.Base.Words.{add64}
use northstar_os.Proc.Elf.{
  ElfError, alignment, truncated, Source, Config, Segment, Image, Ehdr, has, valid_config, Partial,
  plan_loop, finish, entry_found, plan_from, plan, source_read, check_ehdr, add_overflows,
  nothing_planned, bias_of, decode_ehdr,
}
use northstar_os.Proc.Elf.Segments.{Sound}
use northstar_os.Proc.Elf.Plan.{Each, AllApart, mapped, Within, Planned, Goes, plan_loop-Goes}

-- One of the segments is executable and holds the address.
abbrev pub Executable : ℕ → List Segment → Type 0
Executable point [] = ⊥
Executable point (s ∷ ss) =
    ((has s.flags 4 ≡ true) × (s.address ≤ point) × (point < s.address + s.memory_size))
    ⊎ Executable point ss

-- A segment's own soundness, the bounds of its pages in the image, and the separation of every two.
pub record Accepted (source : Source) (c : Config) (image : Image) : Type 0 where
  pub counted : image.segment_count ≡ length image.segments
  pub some_segment : image.segment_count ≢ 0
  pub few : image.segment_count ≤ c.max_segments
  pub sound : Each (Sound source c) image.segments
  pub apart : AllApart image.segments
  pub small : mapped image.segments ≤ c.max_image_size
  pub within : Each (Within image.image_start image.image_end) image.segments
  pub enters : Executable image.entry_point image.segments

abbrev pub Promise : Source → Config → ElfError ⊎ Image → Type 0
Promise source c (inl error) = Unit {0}
Promise source c (inr image) = Accepted source c image

entry_found-Executable :
    (source : Source) (c : Config) (point : ℕ) (ss : List Segment)
    → c.user_max < 2 ^ 64
    → Each (Sound source c) ss
    → entry_found point ss ≡ true
    → Executable point ss
unfolding entry_found
entry_found-Executable source c point [] h v e = absurd (ground (arith, e))
entry_found-Executable source c point (s ∷ ss) h (v, vs) e =
    elim (Bool-cases
      (has s.flags 4 && leb s.address point && ltb point (add64 s.address s.memory_size))) [
        | inl here ↦ inl (ground (arith, here), ground (arith, here), ground (arith, here, v.stops))
        | inr later ↦ inr (entry_found-Executable source c point ss h vs (ground (arith, later, e)))
      ]

module _ (source : Source) (c : Config) (hb : c.dynamic_bias < 2 ^ 64) (hm : c.user_max < 2 ^ 64)
    (hp : c.page_size < 2 ^ 64) where
  nothing-Planned : Planned source c (nothing_planned c)
  nothing-Planned = record {
    counted = refl;
    few = omega arith;
    sound = tt;
    apart = tt;
    total = unfold mapped in refl;
    small = omega arith;
    within = tt;
  }

  finish-Promise :
      (eh : Ehdr) (bias : ℕ) (p : Partial)
      → Planned source c p
      → Promise source c (finish eh bias p)
  unfolding finish
  finish-Promise eh bias p v = elim (Bool-cases (p.count == 0)) [
    | inl empty ↦ rw empty tt
    | inr some_ ↦ elim (Bool-cases (add_overflows eh.entry_ bias)) [
      | inl wraps ↦ rw (some_, wraps) tt
      | inr fine ↦ elim (Bool-cases (entry_found (add64 eh.entry_ bias) p.segments)) [
        | inl found ↦
            rw (some_, fine, found)
              (record {
                counted = v.counted;
                some_segment = ground (arith, some_);
                few = v.few;
                sound = v.sound;
                apart = v.apart;
                small = omega (arith, v.total, v.small);
                within = v.within;
                enters = entry_found-Executable source c _ p.segments hm v.sound found;
              })
        | inr missing ↦ rw (some_, fine, missing) tt
      ]
    ]
  ]

  plan_from-Promise : (eh : Ehdr) → valid_config c ≡ true → Promise source c (plan_from source c eh)
  unfolding plan_from
  plan_from-Promise eh hc = by_check (check_ehdr source c eh)
    where
      bias_width : bias_of c eh < 2 ^ 64
      bias_width = ground arith

      by_loop :
          (r : ElfError ⊎ Partial)
          → Goes source c (bias_of c eh) bias_width hm hp hc r
          → Promise source c (elim r [ inl error ↦ inl error | inr p ↦ finish eh (bias_of c eh) p ])
      by_loop (inl error) g = tt
      by_loop (inr p) g = finish-Promise eh (bias_of c eh) p g

      by_check :
          (o : Option ElfError)
          → Promise source c (elim o [
            | some error ↦ inl error
            | none ↦
                if not (bit_and (bias_of c eh) (c.page_size - 1) == 0)
                then inl alignment
                else elim (plan_loop source c eh (bias_of c eh) 0 eh.phnum (nothing_planned c)) [
                  | inl error ↦ inl error
                  | inr p ↦ finish eh (bias_of c eh) p
                ]
          ])
      by_check (some error) = tt
      by_check none = elim (Bool-cases (bit_and (bias_of c eh) (c.page_size - 1) == 0)) [
        | inl page ↦ rw page (
            by_loop _ (
              plan_loop-Goes source c (bias_of c eh) bias_width hm hp hc eh eh.phnum 0
                (nothing_planned c) nothing-Planned))
        | inr odd ↦ rw odd tt
      ]

  -- Where the plan accepts a file, its segments lie in the user's range and in the file, are not
  -- both writable and executable unless the configuration allows it, and share no byte and no page;
  -- their pages lie in the image's bounds and are no more than the limit; and the entry point is in
  -- an executable segment.
  pub plan-Promise : Promise source c (plan source c)
  unfolding plan
  plan-Promise = elim (Bool-cases (valid_config c)) [
    | inl valid ↦ rw valid (by_read valid (source_read source 0 64))
    | inr bad ↦ rw bad tt
  ]
    where
      by_read :
          valid_config c ≡ true
          → (r : ElfError ⊎ List ℕ)
          → Promise source c (elim r [
            | inl error ↦ inl truncated
            | inr bytes ↦ plan_from source c (decode_ehdr bytes)
          ])
      by_read valid (inl error) = tt
      by_read valid (inr bytes) = plan_from-Promise (decode_ehdr bytes) valid
