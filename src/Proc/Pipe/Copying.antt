-- ===== src/Proc/Pipe/Copying.antt =====
-- The copying loops of kernel/proc/pipe.c, and the queue of bytes that a pipe holds.
use northstar_os.Base.{
  ℕ, zero, suc, ◌+◌, ◌%◌, ◌^◌, ◌≤◌, ◌<◌, ◌≡◌, refl, sym, ap, ap₂, ◌∙◌, List, [], ◌∷◌, ◌++◌,
  append_assoc, append-nil, length, get_or, set, length-set, get_or-set_self, arith,
}
use native.Mathlib.Nat.{mod-lt}
use northstar_os.Base.Words.{add64}
use northstar_os.Proc.Pipe.{Pipe, copy_out, copy_in}
use northstar_os.Proc.Pipe.Window.{window, length-window, window_append, window-set}
use northstar_os.Proc.Pipe.Queue.{Queue}

-- A valid pipe.
pub record Valid (p : Pipe) : Type 0 where
  pub sized : length p.buffer ≡ p.capacity
  pub head_inside : p.head < p.capacity
  pub used_fits : p.used ≤ p.capacity
  pub addressable : p.capacity < 2 ^ 63

-- Its queue.
abbrev pub contents : Pipe → List ℕ
contents p = window p.buffer p.capacity p.head p.used

abbrev pub queue : Pipe → Queue
queue p = record {
  bytes = contents p;
  capacity = p.capacity;
  readers = p.readers;
  writers = p.writers;
}

pub length-contents : (p : Pipe) → length (contents p) ≡ p.used
length-contents p = length-window p.buffer p.capacity p.used p.head

-- The copying loop of a read reads a window.
pub copy_out-window :
    (p : Pipe) (n index : ℕ)
    → p.head + index + n < 2 ^ 64
    → copy_out p index n ≡ window p.buffer p.capacity (p.head + index) n
unfolding copy_out
copy_out-window p zero index h = refl
copy_out-window p (suc n) index h =
    ap₂ ◌∷◌ (ap (λ (i : ℕ). get_or p.buffer (i % p.capacity) 0) (omega arith)) (
      copy_out-window p n (index + 1) (omega arith)
      ∙ ap (λ i. window p.buffer p.capacity i n) (omega arith))

pub length-copy_in :
    (p : Pipe) (xs buffer : List ℕ) (index : ℕ) → length (copy_in p buffer index xs) ≡ length buffer
unfolding copy_in
length-copy_in p [] buffer index = refl
length-copy_in p (x ∷ xs) buffer index = length-copy_in p xs _ (index + 1) ∙ length-set buffer _ x

-- One byte more behind the window.
window-set_last :
    (buffer : List ℕ) (capacity n s x : ℕ)
    → length buffer ≡ capacity
    → n < capacity
    → s < capacity
    → window (set buffer ((s + n) % capacity) x) capacity s (n + 1)
      ≡ window buffer capacity s n ++ (x ∷ [])
window-set_last buffer capacity n s x e l h =
    window_append _ capacity n 1 s
    ∙ ap₂ ◌++◌ (window-set buffer capacity n s (s + n) x (omega arith) (omega arith) (omega arith))
        (ap (λ y. y ∷ [])
          (get_or-set_self buffer ((s + n) % capacity) x 0
            (omega (arith, mod-lt (s + n) {m = capacity} (omega arith)))))

-- The copying loop of a write appends to the window.
pub copy_in-window :
    (p : Pipe) (xs buffer : List ℕ) (index : ℕ)
    → length buffer ≡ p.capacity
    → p.head < p.capacity
    → p.capacity < 2 ^ 63
    → p.used + index + length xs ≤ p.capacity
    → window (copy_in p buffer index xs) p.capacity p.head (p.used + index + length xs)
      ≡ window buffer p.capacity p.head (p.used + index) ++ xs
unfolding copy_in
copy_in-window p [] buffer index e h w r =
    ap (window buffer p.capacity p.head) {x = p.used + index + 0} (omega arith) ∙ sym (append-nil _)
copy_in-window p (x ∷ xs) buffer index e h w r =
    ap (window _ p.capacity p.head) {x = p.used + index + suc (length xs)}
      {y = p.used + (index + 1) + length xs} (omega arith)
    ∙ copy_in-window p xs _ (index + 1) (length-set buffer _ x ∙ e) h w (omega arith)
    ∙ ap (λ l. l ++ xs)
        (ap (window _ p.capacity p.head) {x = p.used + (index + 1)} {y = p.used + index + 1}
            (omega arith)
          ∙ ap
              (λ (i : ℕ).
                window (set buffer (i % p.capacity) x) p.capacity p.head (p.used + index + 1))
              {x = add64 (add64 p.head p.used) index} {y = p.head + (p.used + index)} (omega arith)
          ∙ window-set_last buffer p.capacity (p.used + index) p.head x e (omega arith) h)
    ∙ append_assoc (window buffer p.capacity p.head (p.used + index)) (x ∷ []) xs
