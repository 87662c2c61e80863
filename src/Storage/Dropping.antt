-- ===== src/Storage/Dropping.antt =====
-- codegen/storage.go: removeAliases and isLoaded.
use gensimd.Common.{ℕ, Bool, true, false, not, List, [], ◌∷◌, Option, none, some}
use gensimd.Region.{Region}
use gensimd.Reg.{Register}
use gensimd.Function.{Alias}
use gensimd.State.{M, pure, ◌>>=◌, ◌>>◌, ice_when, get_reg, put_reg}
use gensimd.Storage.{check, fetch, get_aliases, put_aliases, is_parent}

-- The loop: each register of an alias is left clean and without parent.
unfoldable pub drop_each : ℕ → List Alias → M (Unit {0})
drop_each m [] = pure tt
drop_each m (a ∷ as') = do
  r ← get_reg (Alias.dst a)
  ice_when (not (is_parent (Register.parent r) m))
  put_reg (Alias.dst a) (record r { parent = none; dirty = false })
  drop_each m as'

abbrev pub any_alias : List Alias → Bool
any_alias [] = false
any_alias (a ∷ as') = true

unfoldable pub remove_aliases : ℕ → M Bool
unfolding check drop_each
remove_aliases m = do
  check m
  aliases ← get_aliases m
  drop_each m aliases
  put_aliases m []
  pure (any_alias aliases)

abbrev is_found : Option ℕ → Bool
is_found none = false
is_found (some i) = true

unfoldable pub is_loaded : ℕ → Region → M Bool
unfolding check fetch
is_loaded m rgn = do check m; found ← fetch m rgn; pure (is_found found)
