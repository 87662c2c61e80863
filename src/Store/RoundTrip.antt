-- ===== src/Store/RoundTrip.antt =====
-- A register that is stored into an identifier's memory, and loaded from there.
use mathlib.Core.Path.{subst}
use gensimd.Common.{
  ℕ, ◌<◌, ◌≡◌, refl, sym, ap, ◌∙◌, true, List, [], ◌∷◌, ◌++◌, Option, none, some, ok, ice, arith,
  get_elem?, length,
}
use gensimd.Region.{Region}
use gensimd.Reg.{Register}
use gensimd.Function.{Function, Identifier, Location, Alias, Storer, memory, aliases_of}
use gensimd.Storage.{find_region, fetch, save, op_data_type}
use gensimd.Storage.Aliases.{check_lem, get_elem?-set}
use gensimd.Storage.Invariant.{Inv, AllGood}
use gensimd.Storage.Adding.{clear_of, Admits, link, link-Inv, add_alias_lem, owned_by}
use gensimd.Storage.Initialized.{set_initialized_lem}
use gensimd.Load.{load}
use gensimd.Load.Hit.{load_hit_lem, same_start-overlap, memory_good}
use gensimd.Alloc.Total.{put}
use gensimd.Store.{
  unassign_register, store_to_register, store_mem, store, store_and_spill, store_to_memory,
}

-- No alias of the storer has a region that shares no byte with any of theirs.
find_region-clear :
    (ident : Identifier) (regions : List Region) (rgn : Region) (as' : List Alias)
    → 0 < rgn.size
    → AllGood ident regions as'
    → clear_of rgn as' ≡ true
    → find_region rgn as' ≡ ok none
find_region-clear ident regions rgn [] p g c = refl
find_region-clear ident regions rgn (a ∷ as') p g c =
    let fit = g.0 in
    let meet = same_start-overlap rgn (Alias.region a) p fit.positive in
    ground (arith, meet, find_region-clear ident regions rgn as' p g.2)

get_elem?-last : (as' : List Alias) (a : Alias) → get_elem? (as' ++ a ∷ []) (length as') ≡ some a
get_elem?-last [] a = refl
get_elem?-last (b ∷ as') a = get_elem?-last as' a

module _ (f : Function) (loc : Option Location) (m : ℕ) (aliases : List Alias)
    (regions : List Region) (i : ℕ) (r : Register) (chunk : Region) (v : Inv f)
    (mem : f.storage m ≡ memory aliases regions) (held : get_elem? f.registers i ≡ some r)
    (unused : r.parent ≡ none) (positive : 0 < chunk.size)
    (apart_from : clear_of chunk aliases ≡ true) where
  fetch-clear : fetch m chunk f ≡ ok (none, f)
  unfolding fetch
  fetch-clear = ground (
    arith,
    mem,
    check_lem m f (v.clear m),
    find_region-clear (f.identifiers m) regions chunk aliases positive
        (memory_good f m aliases regions v mem) apart_from,
  )

  module _ (admits : Admits (f.identifiers m) (memory aliases regions) r chunk) where
    -- From such a state, storing a register without parent by way of memory, as for a value that is
    -- being spilled, is an internal error: the operand type of the move is that of its parent.
    pub store_and_spill_error : store_and_spill loc m i chunk f ≡ ice
    unfolding store_and_spill store_mem store_to_memory save op_data_type
    store_and_spill_error =
        ground (
          arith,
          mem,
          held,
          unused,
          fetch-clear,
          set_initialized_lem regions chunk positive admits.1,
        )

    abbrev new : Alias
    new = record { dst = i; region = chunk }

    apart_there : clear_of chunk (aliases_of (f.storage m)) ≡ true
    apart_there = ap (λ (s : Storer). clear_of chunk (aliases_of s)) mem ∙ apart_from

    Admits-there : Admits (f.identifiers m) (f.storage m) r chunk
    Admits-there = subst (λ (s : Storer). Admits (f.identifiers m) s r chunk) (sym mem) admits

    -- A register that caches nothing becomes an alias itself.
    store-link : store loc m i chunk f ≡ ok ([], link f m new r)
    unfolding store store_mem store_to_register unassign_register
    store-link = ground (
      arith,
      mem,
      held,
      unused,
      fetch-clear,
      add_alias_lem f m new r v held unused apart_there Admits-there,
    )

    storage-link : (link f m new r).storage m ≡ memory (aliases ++ new ∷ []) regions
    storage-link = ground (arith, mem)

    -- From a state that meets the invariant, storing a register without parent into a non-empty region of
    -- an identifier's memory, one that fits, is wholly initialized or wholly not, and is clear of the
    -- aliases, writes no instruction; a load of that region then gives this register, again without an
    -- instruction, in a state that meets the invariant.
    pub store-load :
        (store loc m i chunk f ≡ ok ([], link f m new r))
        × (load loc m chunk (link f m new r)
            ≡ ok (([], i), put (link f m new r) i (record (owned_by m r) { in_use = true })))
        × Inv (put (link f m new r) i (record (owned_by m r) { in_use = true }))
    store-load =
        let hit =
          load_hit_lem (link f m new r) loc m (aliases ++ new ∷ []) regions (length aliases) new
            (owned_by m r) (link-Inv f m new r v held unused apart_there Admits-there) storage-link
            (get_elem?-last aliases new) positive
            (ground (arith, get_elem?-set f.registers i i (owned_by m r) r held)) in
        (store-link, hit.0, hit.1)
