-- ===== src/Proc/Elf/Load/Rollback.antt =====
-- What `ns_elf64_load` (kernel/proc/elf_loader.c) leaves mapped.
use northstar_os.Base.{
  ℕ, zero, suc, ◌+◌, ◌≡◌, refl, ap, ◌∙◌, Bool, true, false, not, Option, none, some, List, [], ◌∷◌,
  ◌⊎◌, inl, inr, ltb, Bool-cases,
}
use northstar_os.Proc.Elf.{
  ElfError, map, copy, protect, Source, Config, Segment, Image, plan, source_read,
}
use northstar_os.Proc.Elf.Load.{
  Mapper, chain, answer, beside, chunk_of, undo, report, load_planned, copy_loop, zero_rest, fill,
  map_all, protect_all, rollback, load_image, load,
}

-- The ranges of the segments, the first one on top.
abbrev pub onto : List Segment → List (ℕ × ℕ) → List (ℕ × ℕ)
onto [] live = live
onto (s ∷ ss) live = (s.map_address, s.map_size) ∷ onto ss live

-- The segments in the order in which they are mapped.
abbrev pub stacked : List Segment → List Segment → List Segment
stacked [] mapped = mapped
stacked (s ∷ ss) mapped = stacked ss (s ∷ mapped)

-- What the callbacks promise of the ranges that are mapped, `live` of the address space: a mapping
-- that succeeds adds one, and `unmap` takes the latest one away; nothing else changes them.
pub record Tracks {S : Type 0} (m : Mapper S) (live : S → List (ℕ × ℕ)) : Type 0 where
  pub map_ok :
      (s : S) (a l f : ℕ)
      → (m.map_pages s a l f).0 ≡ true
      → live (m.map_pages s a l f).1 ≡ (a, l) ∷ live s
  pub map_fails :
      (s : S) (a l f : ℕ) → (m.map_pages s a l f).0 ≡ false → live (m.map_pages s a l f).1 ≡ live s
  pub writes : (s : S) (a : ℕ) (b : List ℕ) → live (m.write s a b).1 ≡ live s
  pub zeroes : (s : S) (a l : ℕ) → live (m.zero_fill s a l).1 ≡ live s
  pub protects : (s : S) (a l f : ℕ) → live (m.protect_pages s a l f).1 ≡ live s
  pub unmaps : (s : S) (a l : ℕ) (r : List (ℕ × ℕ)) → live s ≡ (a, l) ∷ r → live (m.unmap s a l) ≡ r

module _ {S : Type 0} (source : Source) (m : Mapper S) (live : S → List (ℕ × ℕ))
    (t : Tracks m live) where
  chain_keeps :
      (l : List (ℕ × ℕ)) (r : Option ElfError × S) (next : S → Option ElfError × S)
      → live r.1 ≡ l
      → ((s : S) → live s ≡ l → live (next s).1 ≡ l)
      → live (chain r next).1 ≡ l
  unfolding chain
  chain_keeps l (some error, s) next h f = h
  chain_keeps l (none, s) next h f = f s h

  answer_keeps : (error : ElfError) (r : Bool × S) → live (answer error r).1 ≡ live r.1
  unfolding answer
  answer_keeps error (true, s) = refl
  answer_keeps error (false, s) = refl

  copy_loop_keeps :
      (l : List (ℕ × ℕ)) (segment : Segment) (rounds copied : ℕ) (s : S)
      → live s ≡ l
      → live (copy_loop source m segment copied rounds s).1 ≡ l
  unfolding copy_loop
  copy_loop_keeps l segment zero copied s h = h
  copy_loop_keeps l segment (suc rounds) copied s h =
      elim (Bool-cases (not (ltb copied segment.file_size))) [
        | inl done ↦ rw done h
        | inr more ↦ rw more (
            by_read (λ s'. copy_loop_keeps l segment rounds (copied + chunk_of segment copied) s')
              (source_read source (segment.file_offset + copied) (chunk_of segment copied)))
      ]
    where
      by_read :
          ((s' : S)
            → live s' ≡ l
            → live (copy_loop source m segment (copied + chunk_of segment copied) rounds s').1 ≡ l)
          → (r : ElfError ⊎ List ℕ)
          → live
              (elim r as (λ x. Option ElfError × S) [
                | inl error ↦ (some error, s)
                | inr bytes ↦
                    chain (answer copy (m.write s (segment.address + copied) bytes)) (λ after.
                      copy_loop source m segment (copied + chunk_of segment copied) rounds after)
              ]).1
            ≡ l
      by_read go (inl error) = h
      by_read go (inr bytes) = chain_keeps l _ _ (answer_keeps copy _ ∙ t.writes s _ bytes ∙ h) go

  zero_rest_keeps :
      (l : List (ℕ × ℕ)) (segment : Segment) (s : S)
      → live s ≡ l
      → live (zero_rest source m segment s).1 ≡ l
  unfolding zero_rest
  zero_rest_keeps l segment s h = elim (Bool-cases (ltb segment.file_size segment.memory_size)) [
    | inl some_ ↦ rw some_ (answer_keeps copy _ ∙ t.zeroes s _ _ ∙ h)
    | inr none_ ↦ rw none_ h
  ]

  fill_keeps :
      (l : List (ℕ × ℕ)) (segment : Segment) (s : S)
      → live s ≡ l
      → live (fill source m segment s).1 ≡ l
  unfolding fill
  fill_keeps l segment s h =
      chain_keeps l _ _ (copy_loop_keeps l segment segment.file_size 0 s h)
        (zero_rest_keeps l segment)

  protect_all_keeps :
      (l : List (ℕ × ℕ)) (ss : List Segment) (s : S)
      → live s ≡ l
      → live (protect_all source m ss s).1 ≡ l
  unfolding protect_all
  protect_all_keeps l [] s h = h
  protect_all_keeps l (g ∷ ss) s h =
      chain_keeps l _ _ (answer_keeps protect _ ∙ t.protects s _ _ _ ∙ h)
        (λ s' h'. protect_all_keeps l ss s' h')

  rollback_all :
      (mapped : List Segment) (s : S) (l : List (ℕ × ℕ))
      → live s ≡ onto mapped l
      → live (rollback source m mapped s) ≡ l
  unfolding rollback
  rollback_all [] s l h = h
  rollback_all (g ∷ rest) s l h =
      rollback_all rest _ l (t.unmaps s g.map_address g.map_size (onto rest l) h)

  -- The list of mapped segments describes what is mapped, and without an error it has them all.
  abbrev Described : List (ℕ × ℕ) → List Segment → Option ElfError × (List Segment × S) → Type 0
  Described l all (some error, (mapped, s)) = live s ≡ onto mapped l
  Described l all (none, (mapped, s)) = (live s ≡ onto mapped l) × (mapped ≡ all)

  abbrev Settled : List (ℕ × ℕ) → List Segment → Option ElfError × S → Type 0
  Settled l all (some error, s) = live s ≡ l
  Settled l all (none, s) = live s ≡ onto all l

  chain-Described :
      (l : List (ℕ × ℕ)) (before all : List Segment) (r : Option ElfError × (List Segment × S))
      (next : List Segment × S → Option ElfError × (List Segment × S))
      → Described l before r
      → ((s : S) → live s ≡ onto before l → Described l all (next (before, s)))
      → Described l all (chain r next)
  unfolding chain
  chain-Described l before all (some error, (mapped, s)) next h f = h
  chain-Described l before all (none, (mapped, s)) next (h, e) f =
      rw e (f s (h ∙ ap (λ x. onto x l) e))

  beside-Described :
      (l : List (ℕ × ℕ)) (mapped : List Segment) (r : Option ElfError × S)
      → live r.1 ≡ onto mapped l
      → Described l mapped (beside mapped r)
  unfolding beside
  beside-Described l mapped (some error, s) h = h
  beside-Described l mapped (none, s) h = (h, refl)

  -- One segment, from the answer to its mapping.
  map_step-Described :
      (l : List (ℕ × ℕ)) (g : Segment) (mapped all : List Segment) (s : S)
      (go : List Segment × S → Option ElfError × (List Segment × S))
      → live s ≡ onto mapped l
      → ((s' : S) → live s' ≡ onto (g ∷ mapped) l → Described l all (go (g ∷ mapped, s')))
      → (r : Bool × S) → (r.0 ≡ true → live r.1 ≡ (g.map_address, g.map_size) ∷ live s)
      → (r.0 ≡ false → live r.1 ≡ live s)
      → Described l all (
          chain
            (beside mapped (answer map r))
            (λ now. chain (beside (g ∷ mapped) (fill source m g now.1)) go))
  unfolding chain beside answer
  map_step-Described l g mapped all s go h f (true, s') yes_ no_ =
      let now : live s' ≡ onto (g ∷ mapped) l =
        yes_ refl ∙ ap (λ x. (g.map_address, g.map_size) ∷ x) h in
      chain-Described l (g ∷ mapped) all _ go
        (beside-Described l (g ∷ mapped) _ (fill_keeps (onto (g ∷ mapped) l) g s' now)) f
  map_step-Described l g mapped all s go h f (false, s') yes_ no_ = no_ refl ∙ h

  map_all-Described :
      (l : List (ℕ × ℕ)) (ss mapped : List Segment) (s : S)
      → live s ≡ onto mapped l
      → Described l (stacked ss mapped) (map_all source m ss mapped s)
  unfolding map_all
  map_all-Described l [] mapped s h = (h, refl)
  map_all-Described l (g ∷ rest) mapped s h =
      map_step-Described l g mapped (stacked rest (g ∷ mapped)) s _ h
        (λ s' h'. map_all-Described l rest (g ∷ mapped) s' h') _ (t.map_ok s _ _ _)
        (t.map_fails s _ _ _)

  undo_restores :
      (l : List (ℕ × ℕ)) (all : List Segment) (r : Option ElfError × (List Segment × S))
      → Described l all r
      → Settled l all (undo source m r)
  unfolding undo
  undo_restores l all (some error, (mapped, s)) h = rollback_all mapped s l h
  undo_restores l all (none, (mapped, s)) (h, e) = h ∙ ap (λ x. onto x l) e

  load_image-Settled :
      (l : List (ℕ × ℕ)) (image : Image) (s : S)
      → live s ≡ l
      → Settled l (stacked image.segments []) (load_image source m image s)
  unfolding load_image
  load_image-Settled l image s h = undo_restores l _ _ (
      chain-Described l (stacked image.segments []) (stacked image.segments []) _ _
        (map_all-Described l image.segments [] s h)
        (λ s' h'. beside-Described l _ _ (protect_all_keeps _ image.segments s' h')))

  -- What a load leaves mapped, by its result.
  abbrev pub Loaded : List (ℕ × ℕ) → (ElfError ⊎ Image) × S → Type 0
  Loaded l (inl error, s) = live s ≡ l
  Loaded l (inr image, s) = live s ≡ onto (stacked image.segments []) l

  report-Loaded :
      (l : List (ℕ × ℕ)) (image : Image) (r : Option ElfError × S)
      → Settled l (stacked image.segments []) r
      → Loaded l (report source m image r)
  unfolding report
  report-Loaded l image (some error, s) h = h
  report-Loaded l image (none, s) h = h

  load_planned-Loaded : (r : ElfError ⊎ Image) (s : S) → Loaded (live s) (load_planned source m r s)
  unfolding load_planned
  load_planned-Loaded (inl error) s = refl
  load_planned-Loaded (inr image) s =
      report-Loaded (live s) image _ (load_image-Settled (live s) image s refl)

  -- Where the callbacks keep their promises, a load that fails, at whatever point, leaves mapped
  -- what was mapped before it; one that succeeds leaves the pages of every segment of the plan
  -- mapped in addition.
  pub load-Loaded : (c : Config) (s : S) → Loaded (live s) (load source m c s)
  unfolding load
  load-Loaded c s = load_planned-Loaded (plan source c) s
