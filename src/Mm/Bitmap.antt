-- ===== src/Mm/Bitmap.antt =====
-- The bitmaps of kernel/mm/pmm.c: one bit for each page frame, eight to a `uint8_t`, and what the
-- three bit operations do to every frame.
use Prim.Native.Nat.{bit_and, bit_or}
use native.Mathlib.Decide.{ℕ_discrete}
use northstar_os.Base.{
  ℕ, zero, suc, ◌+◌, ◌-◌, ◌/◌, ◌%◌, ◌^◌, ◌<◌, ◌≡◌, refl, sym, ◌∙◌, Bool, true, false, not, ◌&&◌,
  List, [], ◌∷◌, arith, ltb, ◌==◌, if◌then◌else◌, length, set, get_or, length-set, ltb→lt,
  get_or-set_self, get_or-set_ne,
}
use northstar_os.Base.Tables.{all_below, all_below_sound}

-- `(byte & (1u << bit)) != 0`
abbrev pub test_bit : ℕ → ℕ → Bool
test_bit byte bit = not (bit_and byte (2 ^ bit) == 0)

-- `byte | (1u << bit)` and `byte & (uint8_t)~(1u << bit)`
abbrev pub with_bit : ℕ → ℕ → ℕ
with_bit byte bit = bit_or byte (2 ^ bit)

abbrev pub without_bit : ℕ → ℕ → ℕ
without_bit byte bit = bit_and byte (255 - 2 ^ bit)

-- `bitmap_get`; a read out of range, which the callers rule out, is 0.
unfoldable pub bitmap_get : List ℕ → ℕ → Bool
bitmap_get bitmap frame = test_bit (get_or bitmap (frame / 8) 0) (frame % 8)

-- `bitmap_set`
unfoldable pub bitmap_set : List ℕ → ℕ → List ℕ
bitmap_set bitmap frame =
    set bitmap (frame / 8) (with_bit (get_or bitmap (frame / 8) 0) (frame % 8))

-- `bitmap_clear`
unfoldable pub bitmap_clear : List ℕ → ℕ → List ℕ
bitmap_clear bitmap frame =
    set bitmap (frame / 8) (without_bit (get_or bitmap (frame / 8) 0) (frame % 8))

and_left : (a b : Bool) → (a && b) ≡ true → a ≡ true
and_left a b h = ground arith

and_right : (a b : Bool) → (a && b) ≡ true → b ≡ true
and_right a b h = ground arith

-- Every byte, and every two bits of it.
same_bit : Bool → Bool → Bool
same_bit true b = b
same_bit false b = not b

same_bit_sound : (a b : Bool) → same_bit a b ≡ true → a ≡ b
unfolding same_bit
same_bit_sound true b h = sym h
same_bit_sound false b h = ground arith

table : (ℕ → ℕ → ℕ → Bool) → Bool
table p = all_below 256 (λ byte. all_below 8 (λ k. all_below 8 (λ j. p byte k j)))

table_sound :
    (p : ℕ → ℕ → ℕ → Bool) (byte k j : ℕ)
    → table p ≡ true
    → byte < 256
    → k < 8
    → j < 8
    → p byte k j ≡ true
unfolding table
table_sound p byte k j h hb hk hj =
    all_below_sound 8 (λ j'. p byte k j') j hj
      (all_below_sound 8 (λ k'. all_below 8 (λ j'. p byte k' j')) k hk
        (all_below_sound 256 (λ b. all_below 8 (λ k'. all_below 8 (λ j'. p b k' j'))) byte hb h))

abbrev set_case : ℕ → ℕ → ℕ → Bool
set_case byte k j =
    same_bit (test_bit (with_bit byte k) j) (if k == j then true else test_bit byte j)
    && ltb (with_bit byte k) 256

abbrev clear_case : ℕ → ℕ → ℕ → Bool
clear_case byte k j =
    same_bit (test_bit (without_bit byte k) j) (if k == j then false else test_bit byte j)
    && ltb (without_bit byte k) 256

set_table : table set_case ≡ true
unfolding table all_below same_bit
set_table = refl

clear_table : table clear_case ≡ true
unfolding table all_below same_bit
clear_table = refl

test_bit-with_bit :
    (byte k j : ℕ)
    → byte < 256
    → k < 8
    → j < 8
    → test_bit (with_bit byte k) j ≡ (if k == j then true else test_bit byte j)
test_bit-with_bit byte k j hb hk hj =
    same_bit_sound _ _ (and_left _ _ (table_sound set_case byte k j set_table hb hk hj))

test_bit-without_bit :
    (byte k j : ℕ)
    → byte < 256
    → k < 8
    → j < 8
    → test_bit (without_bit byte k) j ≡ (if k == j then false else test_bit byte j)
test_bit-without_bit byte k j hb hk hj =
    same_bit_sound _ _ (and_left _ _ (table_sound clear_case byte k j clear_table hb hk hj))

with_bit-lt : (byte k : ℕ) → byte < 256 → k < 8 → with_bit byte k < 256
with_bit-lt byte k hb hk =
    ltb→lt _ _ (and_right _ _ (table_sound set_case byte k 0 set_table hb hk (omega arith)))

without_bit-lt : (byte k : ℕ) → byte < 256 → k < 8 → without_bit byte k < 256
without_bit-lt byte k hb hk =
    ltb→lt _ _ (and_right _ _ (table_sound clear_case byte k 0 clear_table hb hk (omega arith)))

-- The content of a `uint8_t` array.
abbrev pub IsBytes : List ℕ → Type 0
IsBytes [] = Unit {0}
IsBytes (b ∷ bs) = (b < 256) × IsBytes bs

get_or-lt : (bs : List ℕ) (i : ℕ) → IsBytes bs → get_or bs i 0 < 256
get_or-lt [] i h = omega arith
get_or-lt (b ∷ bs) zero h = h.0
get_or-lt (b ∷ bs) (suc i) h = get_or-lt bs i h.1

set-IsBytes : (bs : List ℕ) (i v : ℕ) → v < 256 → IsBytes bs → IsBytes (set bs i v)
set-IsBytes [] i v l h = tt
set-IsBytes (b ∷ bs) zero v l h = (l, h.1)
set-IsBytes (b ∷ bs) (suc i) v l h = (h.0, set-IsBytes bs i v l h.1)

-- What one of the two updates makes of every frame's bit.
update_law :
    (bitmap : List ℕ) (frame other value : ℕ) (result : Bool)
    → frame / 8 < length bitmap
    → test_bit value (other % 8) ≡ (
        if frame % 8 == other % 8
        then result
        else test_bit (get_or bitmap (frame / 8) 0) (other % 8))
    → test_bit (get_or (set bitmap (frame / 8) value) (other / 8) 0) (other % 8)
      ≡ (if frame == other then result else test_bit (get_or bitmap (other / 8) 0) (other % 8))
update_law bitmap frame other value result h e = elim (ℕ_discrete (frame / 8) (other / 8)) [
  | yes same ↦ rw (← same, get_or-set_self bitmap (frame / 8) value 0 h, e) (ground arith)
  | no differ ↦ rw (get_or-set_ne bitmap value 0 differ) (ground arith)
]

pub get-set :
    (bitmap : List ℕ) (frame other : ℕ)
    → IsBytes bitmap
    → frame / 8 < length bitmap
    → bitmap_get (bitmap_set bitmap frame) other
      ≡ (if frame == other then true else bitmap_get bitmap other)
unfolding bitmap_get bitmap_set
get-set bitmap frame other b h =
    update_law bitmap frame other _ true h
      (test_bit-with_bit _ _ _ (get_or-lt bitmap (frame / 8) b) (omega arith) (omega arith))

pub get-clear :
    (bitmap : List ℕ) (frame other : ℕ)
    → IsBytes bitmap
    → frame / 8 < length bitmap
    → bitmap_get (bitmap_clear bitmap frame) other
      ≡ (if frame == other then false else bitmap_get bitmap other)
unfolding bitmap_get bitmap_clear
get-clear bitmap frame other b h =
    update_law bitmap frame other _ false h
      (test_bit-without_bit _ _ _ (get_or-lt bitmap (frame / 8) b) (omega arith) (omega arith))

-- A bitmap of the right size for `frames` frames.
pub record Fits (frames : ℕ) (bitmap : List ℕ) : Type 0 where
  pub bytes : IsBytes bitmap
  pub size : length bitmap ≡ (frames + 7) / 8

pub set-Fits :
    {frames : ℕ} {bitmap : List ℕ} (frame : ℕ)
    → Fits frames bitmap
    → Fits frames (bitmap_set bitmap frame)
unfolding bitmap_set
set-Fits {bitmap = bitmap} frame f = record {
  bytes =
      set-IsBytes bitmap _ _ (with_bit-lt _ _ (get_or-lt bitmap _ f.bytes) (omega arith)) f.bytes;
  size = length-set bitmap _ _ ∙ f.size;
}

pub clear-Fits :
    {frames : ℕ} {bitmap : List ℕ} (frame : ℕ)
    → Fits frames bitmap
    → Fits frames (bitmap_clear bitmap frame)
unfolding bitmap_clear
clear-Fits {bitmap = bitmap} frame f = record {
  bytes =
      set-IsBytes bitmap _ _ (without_bit-lt _ _ (get_or-lt bitmap _ f.bytes) (omega arith))
        f.bytes;
  size = length-set bitmap _ _ ∙ f.size;
}

-- The two laws for the frames that a bitmap covers.
pub get-set_fit :
    {frames : ℕ} {bitmap : List ℕ} (frame other : ℕ)
    → Fits frames bitmap
    → frame < frames
    → bitmap_get (bitmap_set bitmap frame) other
      ≡ (if frame == other then true else bitmap_get bitmap other)
get-set_fit {bitmap = bitmap} frame other f h =
    get-set bitmap frame other f.bytes (omega (arith, f.size))

pub get-clear_fit :
    {frames : ℕ} {bitmap : List ℕ} (frame other : ℕ)
    → Fits frames bitmap
    → frame < frames
    → bitmap_get (bitmap_clear bitmap frame) other
      ≡ (if frame == other then false else bitmap_get bitmap other)
get-clear_fit {bitmap = bitmap} frame other f h =
    get-clear bitmap frame other f.bytes (omega (arith, f.size))
