-- ===== src/Checksum/Update/Tcp.antt =====
-- The checksum work of `nat_rewrite` (src/forward/nat_forwarder.cpp) on a TCP segment and on a UDP
-- datagram: four incremental updates against a full computation over the rewritten packet.
use l4_loadbalancer.Base.{
  ℕ, ◌+◌, ◌-◌, ◌/◌, ◌%◌, ◌^◌, ◌≤◌, ◌<◌, ◌≡◌, List, ◌++◌, arith, length, ◌∙◌, sym, ap, ==-false,
}
use l4_loadbalancer.Checksum.{
  htons, calculate_pseudo_header_sum, recalculate_tcp_checksum, recalculate_udp_checksum,
  incremental_update, update_tcp_checksum_ip, update_tcp_checksum_port, update_udp_checksum_ip,
  update_udp_checksum_port, avoid_zero,
}
use l4_loadbalancer.Checksum.Closed.{
  total, IsBytes, total-le, sum_words-total, not16-fold, checksum_of,
}
use l4_loadbalancer.Checksum.Update.Step.{
  word_bytes, incremental_update_lem, incremental_update-StandsFor, StandsFor,
}

-- The two halves of an address, added.
abbrev halves : ℕ → ℕ
halves ip = ip / 2 ^ 16 + ip % 2 ^ 16

-- The plain sum of the pseudo header and of a segment that starts with two ports.
abbrev packet_sum : ℕ → ℕ → ℕ → ℕ → ℕ → ℕ → ℕ → ℕ
packet_sum src dst proto len sp dp rest =
    halves src + halves dst + htons proto + htons len + (sp + dp + rest)

-- Ports, then the other bytes of the header (the checksum field is 0) and the payload.
abbrev pub with_ports : ℕ → ℕ → List ℕ → List ℕ
with_ports sp dp rest = word_bytes sp ++ (word_bytes dp ++ rest)

htons-lt : (x : ℕ) → htons x < 2 ^ 16
unfolding htons
htons-lt x = omega arith

pseudo-sum :
    (src dst proto len : ℕ)
    → src < 2 ^ 32
    → dst < 2 ^ 32
    → calculate_pseudo_header_sum src dst proto len
      ≡ halves src + halves dst + htons proto + htons len
unfolding calculate_pseudo_header_sum
pseudo-sum src dst proto len hs hd = omega (arith, htons-lt proto, htons-lt len)

tcp_port_step :
    (k old new : ℕ)
    → 0 < k
    → old < 2 ^ 16
    → new < 2 ^ 16
    → update_tcp_checksum_port (checksum_of (k + old)) old new ≡ checksum_of (k + new)
unfolding update_tcp_checksum_port
tcp_port_step k old new pos ho hn =
    incremental_update_lem (k + old) old new ho hn (omega arith) (omega arith)
    ∙ ap checksum_of (omega arith)

tcp_ip_step :
    (k old new : ℕ)
    → 0 < k
    → old < 2 ^ 32
    → new < 2 ^ 32
    → update_tcp_checksum_ip (checksum_of (k + halves old)) old new ≡ checksum_of (k + halves new)
unfolding update_tcp_checksum_ip update_tcp_checksum_port
tcp_ip_step k old new pos ho hn =
    ap (λ c. incremental_update c (old % 2 ^ 16) (new % 2 ^ 16))
      (ap (λ (s : ℕ). incremental_update (checksum_of s) (old / 2 ^ 16) (new / 2 ^ 16))
          (omega arith)
        ∙ tcp_port_step (k + old % 2 ^ 16) (old / 2 ^ 16) (new / 2 ^ 16) (omega arith) (omega arith)
            (omega arith))
    ∙ (ap (λ (s : ℕ). incremental_update (checksum_of s) (old % 2 ^ 16) (new % 2 ^ 16))
          (omega arith)
        ∙ (tcp_port_step (k + new / 2 ^ 16) (old % 2 ^ 16) (new % 2 ^ 16) (omega arith)
              (omega arith) (omega arith)
            ∙ ap checksum_of (omega arith)))

avoid_zero-pos : (c : ℕ) → 0 < avoid_zero c
unfolding avoid_zero
avoid_zero-pos c = ground arith

avoid_zero-StandsFor : (s : ℕ) → StandsFor (avoid_zero (checksum_of s)) s
unfolding avoid_zero
avoid_zero-StandsFor s = ground arith

udp_port_step :
    (k old new : ℕ)
    → 0 < k
    → old < 2 ^ 16
    → new < 2 ^ 16
    → update_udp_checksum_port (avoid_zero (checksum_of (k + old))) old new
      ≡ avoid_zero (checksum_of (k + new))
unfolding update_udp_checksum_port
udp_port_step k old new pos ho hn =
    rw (==-false c 0 (λ e. omega (arith, avoid_zero-pos (checksum_of (k + old))))) (
      (incremental_update-StandsFor c (k + old) old new (avoid_zero-StandsFor (k + old))
        (omega arith) ho hn (omega arith) (omega arith)).1
      ∙ ap (λ (s : ℕ). avoid_zero (checksum_of s)) (omega arith))
  where
    c : ℕ
    c = avoid_zero (checksum_of (k + old))

udp_ip_step :
    (k old new : ℕ)
    → 0 < k
    → old < 2 ^ 32
    → new < 2 ^ 32
    → update_udp_checksum_ip (avoid_zero (checksum_of (k + halves old))) old new
      ≡ avoid_zero (checksum_of (k + halves new))
unfolding update_udp_checksum_ip
udp_ip_step k old new pos ho hn =
    rw (==-false c 0 (λ e. omega (arith, avoid_zero-pos (checksum_of (k + halves old))))) (
      (incremental_update-StandsFor _ (k + halves old - old / 2 ^ 16 + new / 2 ^ 16) (old % 2 ^ 16)
        (new % 2 ^ 16)
        (incremental_update-StandsFor c (k + halves old) (old / 2 ^ 16) (new / 2 ^ 16)
          (avoid_zero-StandsFor (k + halves old)) (omega arith) (omega arith) (omega arith)
          (omega arith) (omega arith))
        (omega arith) (omega arith) (omega arith) (omega arith) (omega arith)).1
      ∙ ap (λ (s : ℕ). avoid_zero (checksum_of s)) (omega arith))
  where
    c : ℕ
    c = avoid_zero (checksum_of (k + halves old))

module _ (rest : List ℕ) (bytes : IsBytes rest) (proto len : ℕ) (some_proto : 0 < proto)
    (small_proto : proto < 256) (fits : len < 2 ^ 16) (short : length rest + 4 ≤ 2 ^ 16) where
  htons_proto : 0 < htons proto
  unfolding htons
  htons_proto = omega arith

  recalculate-tcp :
      (src dst sp dp : ℕ)
      → src < 2 ^ 32
      → dst < 2 ^ 32
      → sp < 2 ^ 16
      → dp < 2 ^ 16
      → recalculate_tcp_checksum src dst proto (with_ports sp dp rest) len
        ≡ checksum_of (packet_sum src dst proto len sp dp (total rest))
  unfolding recalculate_tcp_checksum
  recalculate-tcp src dst sp dp hs hd hsp hdp =
      rw
        (
          mod_len,
          pseudo-sum src dst proto len hs hd,
          sum_words-total (with_ports sp dp rest)
              (halves src + halves dst + htons proto + htons len) bound,
        )
        (not16-fold _ bound ∙ ap checksum_of (omega arith))
    where
      mod_len : len % 2 ^ 16 ≡ len
      mod_len = omega arith

      bound :
          halves src + halves dst + htons proto + htons len + total (with_ports sp dp rest) < 2 ^ 32
      bound = omega (arith, htons-lt proto, htons-lt len, total-le rest bytes)

  -- The four incremental updates of the NAT rewrite leave in the TCP header the checksum that a
  -- full computation over the rewritten segment gives: for a segment of at most 65536 bytes whose
  -- checksum a full computation gave, and for all old and new addresses and ports.
  pub tcp_nat_checksum :
      (src dst sp dp src' dst' sp' dp' : ℕ)
      → src < 2 ^ 32
      → dst < 2 ^ 32
      → sp < 2 ^ 16
      → dp < 2 ^ 16
      → src' < 2 ^ 32
      → dst' < 2 ^ 32
      → sp' < 2 ^ 16
      → dp' < 2 ^ 16
      → update_tcp_checksum_port
          (update_tcp_checksum_port
            (update_tcp_checksum_ip
              (update_tcp_checksum_ip
                (recalculate_tcp_checksum src dst proto (with_ports sp dp rest) len)
                src
                src')
              dst
              dst')
            sp
            sp')
          dp
          dp'
        ≡ recalculate_tcp_checksum src' dst' proto (with_ports sp' dp' rest) len
  tcp_nat_checksum src dst sp dp src' dst' sp' dp' h1 h2 h3 h4 h5 h6 h7 h8 =
      ap (λ c. tcp_port (tcp_port (tcp_ip (tcp_ip c src src') dst dst') sp sp') dp dp')
        (recalculate-tcp src dst sp dp h1 h2 h3 h4 ∙ ap checksum_of (omega arith))
      ∙ (ap (λ c. tcp_port (tcp_port (tcp_ip c dst dst') sp sp') dp dp')
            (tcp_ip_step (halves dst + k + (sp + dp)) src src' (omega (arith, pos)) h1 h5
              ∙ ap checksum_of (omega arith))
          ∙ (ap (λ c. tcp_port (tcp_port c sp sp') dp dp')
                (tcp_ip_step (halves src' + k + (sp + dp)) dst dst' (omega (arith, pos)) h2 h6
                  ∙ ap checksum_of (omega arith))
              ∙ (ap (λ c. tcp_port c dp dp')
                    (tcp_port_step (halves src' + halves dst' + k + dp) sp sp' (omega (arith, pos))
                        h3 h7
                      ∙ ap checksum_of (omega arith))
                  ∙ (tcp_port_step (halves src' + halves dst' + k + sp') dp dp' (omega (arith, pos))
                        h4 h8
                      ∙ (ap checksum_of (omega arith)
                          ∙ sym (recalculate-tcp src' dst' sp' dp' h5 h6 h7 h8))))))
    where
      tcp_ip : ℕ → ℕ → ℕ → ℕ
      tcp_ip = update_tcp_checksum_ip

      tcp_port : ℕ → ℕ → ℕ → ℕ
      tcp_port = update_tcp_checksum_port

      k : ℕ
      k = htons proto + htons len + total rest

      pos : 0 < k
      pos = omega (arith, htons_proto)

  recalculate-udp :
      (src dst sp dp : ℕ)
      → src < 2 ^ 32
      → dst < 2 ^ 32
      → sp < 2 ^ 16
      → dp < 2 ^ 16
      → recalculate_udp_checksum src dst proto (with_ports sp dp rest) len
        ≡ avoid_zero (checksum_of (packet_sum src dst proto len sp dp (total rest)))
  unfolding recalculate_udp_checksum
  recalculate-udp src dst sp dp hs hd hsp hdp =
      rw
        (
          pseudo-sum src dst proto len hs hd,
          sum_words-total (with_ports sp dp rest)
              (halves src + halves dst + htons proto + htons len) bound,
        )
        (ap avoid_zero (not16-fold _ bound ∙ ap checksum_of (omega arith)))
    where
      bound :
          halves src + halves dst + htons proto + htons len + total (with_ports sp dp rest) < 2 ^ 32
      bound = omega (arith, htons-lt proto, htons-lt len, total-le rest bytes)

  -- The four incremental updates of the NAT rewrite leave in the UDP header the checksum that a
  -- full computation over the rewritten datagram gives: for a datagram of at most 65536 bytes whose
  -- checksum a full computation gave, and for all old and new addresses and ports.
  pub udp_nat_checksum :
      (src dst sp dp src' dst' sp' dp' : ℕ)
      → src < 2 ^ 32
      → dst < 2 ^ 32
      → sp < 2 ^ 16
      → dp < 2 ^ 16
      → src' < 2 ^ 32
      → dst' < 2 ^ 32
      → sp' < 2 ^ 16
      → dp' < 2 ^ 16
      → update_udp_checksum_port
          (update_udp_checksum_port
            (update_udp_checksum_ip
              (update_udp_checksum_ip
                (recalculate_udp_checksum src dst proto (with_ports sp dp rest) len)
                src
                src')
              dst
              dst')
            sp
            sp')
          dp
          dp'
        ≡ recalculate_udp_checksum src' dst' proto (with_ports sp' dp' rest) len
  udp_nat_checksum src dst sp dp src' dst' sp' dp' h1 h2 h3 h4 h5 h6 h7 h8 =
      ap (λ c. udp_port (udp_port (udp_ip (udp_ip c src src') dst dst') sp sp') dp dp')
        (recalculate-udp src dst sp dp h1 h2 h3 h4 ∙ ap field_of (omega arith))
      ∙ (ap (λ c. udp_port (udp_port (udp_ip c dst dst') sp sp') dp dp')
            (udp_ip_step (halves dst + k + (sp + dp)) src src' (omega (arith, pos)) h1 h5
              ∙ ap field_of (omega arith))
          ∙ (ap (λ c. udp_port (udp_port c sp sp') dp dp')
                (udp_ip_step (halves src' + k + (sp + dp)) dst dst' (omega (arith, pos)) h2 h6
                  ∙ ap field_of (omega arith))
              ∙ (ap (λ c. udp_port c dp dp')
                    (udp_port_step (halves src' + halves dst' + k + dp) sp sp' (omega (arith, pos))
                        h3 h7
                      ∙ ap field_of (omega arith))
                  ∙ (udp_port_step (halves src' + halves dst' + k + sp') dp dp' (omega (arith, pos))
                        h4 h8
                      ∙ (ap field_of (omega arith)
                          ∙ sym (recalculate-udp src' dst' sp' dp' h5 h6 h7 h8))))))
    where
      udp_ip : ℕ → ℕ → ℕ → ℕ
      udp_ip = update_udp_checksum_ip

      udp_port : ℕ → ℕ → ℕ → ℕ
      udp_port = update_udp_checksum_port

      field_of : ℕ → ℕ
      field_of s = avoid_zero (checksum_of s)

      k : ℕ
      k = htons proto + htons len + total rest

      pos : 0 < k
      pos = omega (arith, htons_proto)
