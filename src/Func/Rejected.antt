-- ===== src/Func/Rejected.antt =====
-- Func: the functions that it refuses.
use gensimd.Common.{Bool, true, false, not, ◌&&◌, ◌||◌, List, [], ◌∷◌}
use gensimd.Types.{GoType}
use gensimd.Function.{Function}
use gensimd.Phi.Edges.{blocks_match}
use gensimd.Blocks.{supported_param}
use gensimd.Blocks.Rejected.{any_block}
use gensimd.Func.{SsaLocal, SsaFunction}

unfoldable pub all_supported : List GoType → Bool
unfolding supported_param
all_supported [] = true
all_supported (t ∷ ts) = supported_param t && all_supported ts

abbrev pub any_heap : List SsaLocal → Bool
any_heap [] = false
any_heap (l ∷ ls) = l.heap || any_heap ls

abbrev pub one_result : List GoType → Bool
one_result [] = false
one_result (t ∷ []) = true
one_result (t ∷ u ∷ rest) = false

-- What makes a function one that Func refuses.
unfoldable pub refused : SsaFunction → Bool
unfolding all_supported any_block
refused s =
    not (all_supported s.params)
    || (not (one_result s.results)
        || (any_heap s.locals || (not (blocks_match s.phis) || any_block s.blocks)))
