-- ===== src/Net/Checksum/Tests.antt =====
-- Sums of kernel/net/net_checksum.c.
use northstar_os.Base.{ℕ, ◌%◌, ◌^◌, ◌<◌, ◌≡◌, refl, true, List, [], ◌∷◌, arith}
use northstar_os.Net.Checksum.{
  checksum_init, update, update_words, fold_sum, finalize, compute, checksum_is_valid,
}
use northstar_os.Net.Checksum.Pieces.{compute-append, fold_sum-folds}

-- A header of twenty bytes with its checksum, 0xb861.
abbrev ip_header : List ℕ
ip_header =
    0x45 ∷ 0 ∷ 0 ∷ 0x73 ∷ 0 ∷ 0 ∷ 0x40 ∷ 0 ∷ 0x40 ∷ 0x11 ∷ 0xb8 ∷ 0x61 ∷ 0xc0 ∷ 0xa8 ∷ 0 ∷ 1 ∷ 0xc0
    ∷ 0xa8 ∷ 0 ∷ 0xc7 ∷ []

header_checks : checksum_is_valid ip_header ≡ true
unfolding checksum_is_valid compute finalize fold_sum update update_words
header_checks = refl

compute-append_example :
    finalize (update (update checksum_init (1 ∷ 2 ∷ 3 ∷ [])) (4 ∷ 5 ∷ []))
    ≡ compute (1 ∷ 2 ∷ 3 ∷ 4 ∷ 5 ∷ [])
compute-append_example = compute-append (1 ∷ 2 ∷ 3 ∷ []) (4 ∷ 5 ∷ [])

fold_sum-folds_example :
    (fold_sum 2 0xffffffff < 2 ^ 16) × (fold_sum 2 0xffffffff % 65535 ≡ 0xffffffff % 65535)
fold_sum-folds_example = fold_sum-folds 0xffffffff (omega arith)
