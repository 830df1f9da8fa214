-- ===== src/Mm/Pmm/Boot/Initial.antt =====
-- `ns_pmm_init` of kernel/mm/pmm.c builds a consistent allocator from any memory map.
use northstar_os.Base.{
  ℕ, zero, suc, ◌+◌, ◌*◌, ◌/◌, ◌%◌, ◌^◌, ◌<◌, ◌≡◌, refl, sym, ap, ◌∙◌, ◌≢◌, inl, inr, true, not,
  ◌||◌, List, [], ◌∷◌, arith, leb, ◌==◌, Bool-cases, length, replicate, get_or, length-replicate,
}
use northstar_os.Base.Tables.{all_below, all_below_sound}
use northstar_os.Mm.Bitmap.{
  bitmap_get, bitmap_clear, test_bit, IsBytes, Fits, clear-Fits, get-clear_fit,
}
use northstar_os.Mm.Pmm.{Pmm, page_size}
use northstar_os.Mm.Pmm.Invariant.{Inv, free_below, free_below-clear}
use northstar_os.Mm.Pmm.Reserve.{reserve_range_unlocked}
use northstar_os.Mm.Pmm.Reserve.Ranges.{reserve_range-Covers, reserve_range-skips}
use northstar_os.Mm.Pmm.Boot.{
  Entry, blank, ready, mark_frame_free_initial, expose, expose_entry, expose_entries,
  withdraw_entry, withdraw_entries, reserve_all, entry_enabled,
}

-- A bitmap of ones.
IsBytes-ones : (n : ℕ) → IsBytes (replicate n 255)
IsBytes-ones zero = tt
IsBytes-ones (suc n) = (omega arith, IsBytes-ones n)

get_or-ones : (n i : ℕ) → i < n → ◌≡◌ {A = ℕ} (get_or (replicate n 255) i 0) 255
get_or-ones zero i h = absurd (omega arith)
get_or-ones (suc n) zero h = refl
get_or-ones (suc n) (suc i) h = get_or-ones n i (omega arith)

all_bits : all_below 8 (λ j. test_bit 255 j) ≡ true
unfolding all_below
all_bits = refl

pub get-ones : (frames f : ℕ) → f < frames → bitmap_get (replicate ((frames + 7) / 8) 255) f ≡ true
unfolding bitmap_get
get-ones frames f h =
    rw (get_or-ones ((frames + 7) / 8) (f / 8) (omega arith))
      (all_below_sound 8 (λ j. test_bit 255 j) (f % 8) (omega arith) all_bits)

none_free :
    (bitmap : List ℕ) (n : ℕ)
    → ((f : ℕ) → f < n → bitmap_get bitmap f ≡ true)
    → free_below bitmap n ≡ 0
unfolding free_below
none_free bitmap zero h = refl
none_free bitmap (suc n) h = ground (arith, h n, none_free bitmap n (λ f l. h f (omega arith)))

Fits-ones : (frames : ℕ) → Fits frames (replicate ((frames + 7) / 8) 255)
Fits-ones frames = record {
  bytes = IsBytes-ones ((frames + 7) / 8);
  size = length-replicate ((frames + 7) / 8) 255;
}

-- The state between two steps of the initialisation, over memory up to `limit`.
pub record Phase (limit : ℕ) (p : Pmm) : Type 0 where
  pub consistent : Inv p
  pub frames : p.frame_count * page_size ≡ limit
  pub managed : p.managed_limit ≡ limit
  pub width : limit < 2 ^ 64

pub blank-Phase :
    (limit : ℕ) → limit < 2 ^ 64 → limit % page_size ≡ 0 → limit ≢ 0 → Phase limit (blank limit)
unfolding blank
blank-Phase limit h a nz = record {
  consistent = record {
    allocated_fits = Fits-ones (limit / page_size);
    reserved_fits = Fits-ones (limit / page_size);
    reserved_allocated = λ f l r. r;
    counted = sym (none_free _ (limit / page_size) (get-ones (limit / page_size)));
    sized = refl;
    nonempty = omega arith;
    bounded = omega arith;
  };
  frames = omega arith;
  managed = refl;
  width = h;
}

pub mark_frame_free-Phase :
    (limit : ℕ) (p : Pmm) (frame : ℕ)
    → Phase limit p
    → Phase limit (mark_frame_free_initial p frame)
unfolding mark_frame_free_initial
mark_frame_free-Phase limit p frame ph =
    elim (Bool-cases (leb p.frame_count frame || not (bitmap_get p.reserved_bitmap frame))) [
      | inl stays ↦ rw stays ph
      | inr freed ↦ rw freed (record {
        consistent = cleared (ground (arith, freed)) (ground (arith, freed));
        frames = ph.frames;
        managed = ph.managed;
        width = ph.width;
      })
    ]
  where
    open ph use {consistent as v}

    cleared :
        frame < p.frame_count
        → bitmap_get p.reserved_bitmap frame ≡ true
        → Inv (record p {
          reserved_bitmap = bitmap_clear p.reserved_bitmap frame;
          allocated_bitmap = bitmap_clear p.allocated_bitmap frame;
          usable_frames = p.usable_frames + 1;
          free_frames = p.free_frames + 1;
        })
    cleared l r = record {
      allocated_fits = clear-Fits frame v.allocated_fits;
      reserved_fits = clear-Fits frame v.reserved_fits;
      reserved_allocated = λ f lt s. ground (
        arith,
        get-clear_fit frame f v.reserved_fits l,
        get-clear_fit frame f v.allocated_fits l,
        v.reserved_allocated f lt,
        s,
      );
      counted = omega (
        arith,
        v.counted,
        free_below-clear p.allocated_bitmap p.frame_count frame p.frame_count v.allocated_fits l l
            (v.reserved_allocated frame l r),
      );
      sized = v.sized;
      nonempty = v.nonempty;
      bounded = v.bounded;
    }

pub expose-Phase :
    (limit : ℕ) (rounds address : ℕ) (p : Pmm)
    → Phase limit p
    → Phase limit (expose p address rounds)
unfolding expose
expose-Phase limit zero address p ph = ph
expose-Phase limit (suc rounds) address p ph =
    expose-Phase limit rounds _ _ (mark_frame_free-Phase limit p _ ph)

pub expose_entry-Phase :
    (limit : ℕ) (p : Pmm) (e : Entry) → Phase limit p → Phase limit (expose_entry p e)
unfolding expose_entry
expose_entry-Phase limit p e ph =
    elim (Bool-cases (not (entry_enabled e) || not (e.kind == 1) || (e.length == 0))) [
      | inl skipped ↦ rw skipped ph
      | inr usable ↦ rw usable (expose-Phase limit _ _ p ph)
    ]

pub expose_entries-Phase :
    (limit : ℕ) (es : List Entry) (p : Pmm) → Phase limit p → Phase limit (expose_entries p es)
unfolding expose_entries
expose_entries-Phase limit [] p ph = ph
expose_entries-Phase limit (e ∷ es) p ph =
    expose_entries-Phase limit es _ (expose_entry-Phase limit p e ph)

pub reserve-Phase :
    (limit : ℕ) (p : Pmm) (base length : ℕ)
    → base < 2 ^ 64
    → length < 2 ^ 64
    → Phase limit p
    → Phase limit (reserve_range_unlocked p base length)
reserve-Phase limit p base length hb hl ph =
    elim (Bool-cases ((length == 0) || leb p.managed_limit base)) [
      | inl skipped ↦ rw (reserve_range-skips p base length skipped) ph
      | inr taken ↦ covered (ground (arith, taken)) (ground (arith, taken))
    ]
  where
    open ph use {managed as m}

    covered :
        length ≢ 0 → base < p.managed_limit → Phase limit (reserve_range_unlocked p base length)
    covered nz lt =
        let c =
          reserve_range-Covers p base length ph.consistent (m ∙ sym ph.frames)
            (omega (arith, ph.width, m)) hb hl nz lt in
        record {
          consistent = c.consistent;
          frames = ap (λ n. n * page_size) c.frames_kept ∙ ph.frames;
          managed = c.limit_kept ∙ m;
          width = ph.width;
        }

-- The entries' and the ranges' numbers are those of `uint64_t` fields.
abbrev pub Wide : List Entry → Type 0
Wide [] = Unit {0}
Wide (e ∷ es) = (e.base < 2 ^ 64) × (e.length < 2 ^ 64) × Wide es

abbrev pub WideRanges : List (ℕ × ℕ) → Type 0
WideRanges [] = Unit {0}
WideRanges ((base, length) ∷ rs) = (base < 2 ^ 64) × (length < 2 ^ 64) × WideRanges rs

pub withdraw_entries-Phase :
    (limit : ℕ) (es : List Entry) (p : Pmm)
    → Wide es
    → Phase limit p
    → Phase limit (withdraw_entries p es)
unfolding withdraw_entries withdraw_entry
withdraw_entries-Phase limit [] p w ph = ph
withdraw_entries-Phase limit (e ∷ es) p (hb, hl, w) ph = withdraw_entries-Phase limit es _ w first
  where
    first : Phase limit (withdraw_entry p e)
    first = elim (Bool-cases (not (entry_enabled e) || (e.kind == 1))) [
      | inl skipped ↦ rw skipped ph
      | inr taken ↦ rw taken (reserve-Phase limit p e.base e.length hb hl ph)
    ]

pub reserve_all-Phase :
    (limit : ℕ) (rs : List (ℕ × ℕ)) (p : Pmm)
    → WideRanges rs
    → Phase limit p
    → Phase limit (reserve_all p rs)
unfolding reserve_all
reserve_all-Phase limit [] p w ph = ph
reserve_all-Phase limit ((base, length) ∷ rs) p (hb, hl, w) ph =
    reserve_all-Phase limit rs _ w (reserve-Phase limit p base length hb hl ph)

pub ready-Phase : (limit : ℕ) (p : Pmm) → Phase limit p → Phase limit (ready p)
unfolding ready
ready-Phase limit p ph = record {
  consistent = record {
    allocated_fits = v.allocated_fits;
    reserved_fits = v.reserved_fits;
    reserved_allocated = v.reserved_allocated;
    counted = v.counted;
    sized = v.sized;
    nonempty = v.nonempty;
    bounded = v.bounded;
  };
  frames = ph.frames;
  managed = ph.managed;
  width = ph.width;
}
  where
    open ph use {consistent as v}
