-- ===== src/Checks/Storage.antt =====
-- The theorems on storage and allocation, applied to a state where R8 caches a dirty parameter.
use gensimd.Common.{ℕ, ◌≡◌, refl, true, false, [], ◌∷◌, none, Returns, ok, arith}
use gensimd.Common.Int.{pos, ◌+ℤ◌}
use gensimd.Reg.{data_reg, exclude_reg}
use gensimd.State.{reg_mem}
use gensimd.Function.{ident_size}
use gensimd.Storage.Scalars.{scalar_fits}
use gensimd.Storage.Adding.{add_alias-Inv, link, owned_by}
use gensimd.Store.{store}
use gensimd.Store.RoundTrip.{store-load}
use gensimd.Storage.{add_alias, remove_alias, save, spill_register, is_dead}
use gensimd.Storage.Save.{Fits, save_lem}
use gensimd.Storage.Invariant.{Inv, remove_alias-Inv}
use gensimd.Storage.Release.{Spilled, spill_register_lem}
use gensimd.Storage.Dropping.{remove_aliases}
use gensimd.Storage.Dropped.{AliasesRemoved, remove_aliases_lem}
use gensimd.Alloc.Flush.{Flushed, spill_registers_lem, spill_non_block_registers_lem}
use gensimd.Alloc.{
  skip_excluded, skip_block_local, spill_registers, spill_non_block_registers, eligible, alloc_reg,
}
use gensimd.Load.{load}
use gensimd.Load.Hit.{load_hit_lem}
use gensimd.Alloc.Total.{put, Allocated, alloc_reg_lem}
use gensimd.Checks.State.{r8, in_r8, x0, x, whole, state, state-Inv, x_fits}

-- R8 has to be spilled.
alloc_reg_lem_example : Allocated state none data_reg 8 (alloc_reg none data_reg 8 state)
unfolding eligible exclude_reg is_dead
alloc_reg_lem_example =
    alloc_reg_lem state none data_reg 8 state-Inv (λ m. (false, refl)) 0 r8 refl refl

spill_register_lem_example : Spilled state 0 0 r8 false false (spill_register none 0 0 false state)
unfolding is_dead
spill_register_lem_example =
    spill_register_lem state 0 0 r8 state-Inv refl refl none false false (λ _. refl) refl

remove_alias-Inv_example : Returns (remove_alias 0 0 state) (λ res. (res.0 ≡ true) × Inv res.1)
remove_alias-Inv_example = remove_alias-Inv state 0 0 r8 state-Inv refl refl

save_lem_example :
    save 0 whole 0 state ≡ ok (reg_mem "MOVQ" "R8" "x" (pos 8 +ℤ pos 0) "FP" ∷ [], state)
unfolding x_fits
save_lem_example = save_lem 0 0 whole state r8 refl refl x_fits

spill_registers_lem_example : Flushed skip_excluded state 2 (spill_registers none state)
unfolding is_dead
spill_registers_lem_example = spill_registers_lem state none state-Inv (λ m. (false, refl))

spill_non_block_registers_lem_example :
    Flushed skip_block_local state 2 (spill_non_block_registers none state)
unfolding is_dead
spill_non_block_registers_lem_example =
    spill_non_block_registers_lem state none state-Inv (λ m. (false, refl))

-- X0 comes to cache another identifier.
add_alias-Inv_example :
    Returns
      (add_alias 1 record { dst = 1; region = whole } state)
      (λ res. (res.0 ≡ true) × Inv res.1)
add_alias-Inv_example =
    add_alias-Inv state 1 record { dst = 1; region = whole } x0 state-Inv refl refl refl
      (x_fits, tt)

load_hit_lem_example :
    (load none 0 whole state ≡ ok (([], 0), put state 0 (record r8 { in_use = true })))
    × Inv (put state 0 (record r8 { in_use = true }))
load_hit_lem_example =
    load_hit_lem state none 0 (in_r8 ∷ []) [] 0 in_r8 r8 state-Inv refl refl (omega arith) refl

scalar_fits_example :
    (size : ℕ) × (ident_size x ≡ ok size) × Fits x (record { offset = 0; size = size })
scalar_fits_example = scalar_fits x refl

-- X0 comes to cache the memory of another identifier, and is loaded from there.
store-load_example :
    (store none 1 1 whole state ≡ ok ([], link state 1 (record { dst = 1; region = whole }) x0))
    × (load none 1 whole (link state 1 (record { dst = 1; region = whole }) x0)
        ≡ ok (
          ([], 1),
          put
              (link state 1 (record { dst = 1; region = whole }) x0)
              1
              (record (owned_by 1 x0) { in_use = true }),
        ))
    × Inv (
        put
          (link state 1 (record { dst = 1; region = whole }) x0)
          1
          (record (owned_by 1 x0) { in_use = true }))
store-load_example =
    store-load state none 1 [] [] 1 x0 whole state-Inv refl refl refl (omega arith) refl
      (x_fits, tt)

remove_aliases_lem_example : AliasesRemoved state 0 (remove_aliases 0 state)
remove_aliases_lem_example = remove_aliases_lem state 0 state-Inv
