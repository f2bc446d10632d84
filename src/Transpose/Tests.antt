-- ===== src/Transpose/Tests.antt =====
-- An array that counts up, and one of zeros.
use cmu_15213_csapp3e_lab.Base.{◌≡◌, ◌⊎◌, refl, true, false, some, none, ltb, arith}
use cmu_15213_csapp3e_lab.Transpose.Large.{trans_64_64, transpose_submit}
use cmu_15213_csapp3e_lab.Transpose.Large.Whole.{is_size, trans_64_64_lem, transpose_submit_lem}
use cmu_15213_csapp3e_lab.Transpose.Turns.{Turned}
use cmu_15213_csapp3e_lab.Transpose.Blocks.{overrun, trans_61_67_lem}
use cmu_15213_csapp3e_lab.Transpose.{Ints, entry, is_transpose, trans_61_67}

abbrev counting : Ints
counting = λ q. q

abbrev zeros : Ints
zeros = λ q. 0

trans_61_67_lem_example : Turned 61 67 counting overrun zeros (trans_61_67 61 67 counting zeros)
trans_61_67_lem_example = trans_61_67_lem counting zeros

-- the first int behind the end of `B`
written_behind : entry 67 (trans_61_67 61 67 counting zeros) 61 0 ≡ 61
unfolding entry
written_behind = trans_61_67_lem counting zeros 61 0 (omega arith)

trans_64_64_lem_example :
    Turned 64 64 counting (λ r c. ltb r 64) zeros (trans_64_64 64 64 counting zeros)
trans_64_64_lem_example = trans_64_64_lem 64 counting refl (omega arith) zeros

transpose_submit_lem_example :
    ((is_size 64 64 ≡ true)
      × ((c : Ints) × (transpose_submit 64 64 counting zeros ≡ some c)
          × (is_transpose 64 64 counting c ≡ true)))
    ⊎ ((is_size 64 64 ≡ false) × (transpose_submit 64 64 counting zeros ≡ none))
transpose_submit_lem_example = transpose_submit_lem 64 64 counting zeros
