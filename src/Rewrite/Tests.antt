-- ===== src/Rewrite/Tests.antt =====
-- MSS, a timestamp and a window scale, as in a SYN.
use l4_loadbalancer.Base.{ℕ, ◌≡◌, refl, true, false, List, [], ◌∷◌, length}
use l4_loadbalancer.Rewrite.Options.{has_timestamp, strip_timestamp_lem}
use l4_loadbalancer.Rewrite.{strip_timestamp}

abbrev syn_options : List ℕ
syn_options = 2 ∷ 4 ∷ 5 ∷ 0xb4 ∷ 8 ∷ 10 ∷ 1 ∷ 2 ∷ 3 ∷ 4 ∷ 0 ∷ 0 ∷ 0 ∷ 0 ∷ 1 ∷ 3 ∷ 3 ∷ 7 ∷ []

stripped :
    strip_timestamp syn_options
    ≡ (2 ∷ 4 ∷ 5 ∷ 0xb4 ∷ 1 ∷ 1 ∷ 1 ∷ 1 ∷ 1 ∷ 1 ∷ 1 ∷ 1 ∷ 1 ∷ 1 ∷ 1 ∷ 3 ∷ 3 ∷ 7 ∷ [], true)
unfolding strip_timestamp
stripped = refl

had_one : has_timestamp syn_options ≡ true
had_one = refl

strip_timestamp_lem_example :
    (length (strip_timestamp syn_options).0 ≡ 18)
    × (has_timestamp (strip_timestamp syn_options).0 ≡ false)
strip_timestamp_lem_example = strip_timestamp_lem syn_options
