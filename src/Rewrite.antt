-- ===== src/Rewrite.antt =====
-- src/forward/nat_forwarder.cpp: `strip_timestamp`, on the bytes of the TCP options.
pub mod Options
pub mod Nat
pub mod Fields
pub mod Frame
mod Tests
use l4_loadbalancer.Base.{
  ℕ, zero, suc, ◌+◌, Bool, true, false, ◌||◌, ◌==◌, ltb, if◌then◌else◌, List, [], ◌∷◌, ◌++◌, length,
  take, drop, replicate,
}

abbrev pub tcpopt_eol : ℕ
tcpopt_eol = 0

abbrev pub tcpopt_nop : ℕ
tcpopt_nop = 1

abbrev pub tcpopt_timestamp : ℕ
tcpopt_timestamp = 8

-- The bytes from the first option on, with every timestamp option overwritten by NOPs, and whether
-- there was one. Each round moves on by a byte at least.
unfoldable pub strip_from : ℕ → List ℕ → List ℕ × Bool
strip_from zero opts = (opts, false)
strip_from (suc fuel) [] = ([], false)
strip_from (suc fuel) (kind ∷ []) =
    let (rest, changed) = strip_from fuel [] in
    if kind == tcpopt_eol
    then (kind ∷ [], false)
    else (if kind == tcpopt_nop then (kind ∷ rest, changed) else (kind ∷ [], false))
strip_from (suc fuel) (kind ∷ len ∷ opts) =
    let here = kind ∷ len ∷ opts in
    let (after_nop, nop_changed) = strip_from fuel (len ∷ opts) in
    let (rest, changed) = strip_from fuel (drop len here) in
    if kind == tcpopt_eol
    then (here, false)
    else (if kind == tcpopt_nop
        then (kind ∷ after_nop, nop_changed)
        else (if ltb len 2 || ltb (length here) len
            then (here, false)
            else (if kind == tcpopt_timestamp
                then (replicate len tcpopt_nop ++ rest, true)
                else (take len here ++ rest, changed))))

unfoldable pub strip_timestamp : List ℕ → List ℕ × Bool
unfolding strip_from
strip_timestamp opts = strip_from (length opts) opts
