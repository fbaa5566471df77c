-- ===== src/Receiver.antt =====
-- include/dataplane/receiver.h and src/dataplane/receiver.cpp: the thread of pipeline mode that puts each
-- frame into the ring of the worker that owns it.
pub mod Dispatch
pub mod Ports
pub mod Agree
mod Tests
use l4_loadbalancer.Base.{
  ℕ, zero, suc, ◌+◌, ◌-◌, ◌%◌, ◌^◌, Bool, true, false, not, ◌&&◌, ◌||◌, ◌==◌, ltb, leb,
  if◌then◌else◌, List, [], ◌∷◌, ◌++◌, map, length, take, drop, bit_and,
}
use l4_loadbalancer.Checksum.{htons}
use l4_loadbalancer.Config.{ForwardMode, nat_port_min, nat_port_max}
use l4_loadbalancer.Header.{
  Memory, le16, le32, ethernet_size, ipv4_size, is_ipv4, get_header_len, get_fragment, get_protocol,
}
use l4_loadbalancer.Processor.Create.{is_nat}
use l4_loadbalancer.Processor.{Stat, ByteStat, stat_index, byte_stat_index, stat_add}
use l4_loadbalancer.Session.{update}
use l4_loadbalancer.Steering.{Hashes, Steering, fwd_owner, ret_owner}
use l4_loadbalancer.Types.{FiveTuple}
use l4_loadbalancer.WorkerLoop.{Packet, total_len, BusyMeter, busy_loop}

abbrev pub max_pipeline_workers : ℕ
max_pipeline_workers = 16

-- `st_` is passed where it is used.
pub record Dispatcher : Type 0 where
  pub fullnat : Bool
  pub lips : List ℕ

-- `std::sort`.
abbrev pub insert : ℕ → List ℕ → List ℕ
insert x [] = x ∷ []
insert x (y ∷ ys) = let rest = insert x ys in if leb x y then x ∷ y ∷ ys else y ∷ rest

abbrev pub sort : List ℕ → List ℕ
sort [] = []
sort (x ∷ xs) = insert x (sort xs)

unfoldable pub init : ForwardMode → List ℕ → Dispatcher
init mode local_ips = record { fullnat = is_nat mode; lips = sort local_ips }

abbrev pub any_equal : List ℕ → ℕ → Bool
any_equal [] ip = false
any_equal (l ∷ ls) ip = l == ip || any_equal ls ip

unfoldable pub has_lip : Dispatcher → ℕ → Bool
has_lip d ip = any_equal d.lips ip

-- The header of an IP packet in a frame, and whether the ports can be read.
abbrev pub ip_at : ℕ
ip_at = ethernet_size

unfoldable pub has_ports : Memory → ℕ → Bool
unfolding get_header_len get_fragment
has_ports mem len =
    let ihl = get_header_len mem ip_at in
    let protocol = get_protocol mem ip_at in
    (protocol == 6 || protocol == 17)
    && (bit_and (get_fragment mem ip_at) 0x3FFF == 0
        && (leb ipv4_size ihl && leb (ethernet_size + ihl + 4) len))

unfoldable pub frame_tuple : Memory → FiveTuple
unfolding get_header_len
frame_tuple mem =
    let l4 = ethernet_size + get_header_len mem ip_at in
    record {
      src_ip = le32 mem (ip_at + 12);
      dst_ip = le32 mem (ip_at + 16);
      src_port = le16 mem l4;
      dst_port = le16 mem (l4 + 2);
      protocol = get_protocol mem ip_at;
    }

-- A packet from a real server to a SNAT port.
unfoldable pub is_return : Dispatcher → FiveTuple → Bool
unfolding has_lip htons
is_return d t =
    let port = htons t.dst_port in
    d.fullnat && (leb nat_port_min port && (leb port nat_port_max && has_lip d t.dst_ip))

-- rte_jhash_2words is a parameter, as the hashes of Steering are.
module _ (hashes : Hashes) (jhash_2words : ℕ → ℕ → ℕ → ℕ) (s : Steering) where
  unfoldable pub target : Dispatcher → Memory → ℕ → ℕ
  unfolding is_ipv4 has_ports frame_tuple is_return fwd_owner ret_owner
  target d mem len =
      let t = frame_tuple mem in
      if s.workers == 1
      then 0
      else (if ltb len (ethernet_size + ipv4_size)
          then 0
          else (if not (is_ipv4 mem)
              then 0
              else (if not (has_ports mem len)
                  then jhash_2words t.src_ip t.dst_ip 0 % s.workers % 2 ^ 16
                  else (if is_return d t then ret_owner hashes s t else fwd_owner hashes s t))))

  -- The loop over the packets of a burst. The length of a group is its `counts`.
  unfoldable pub sort_into : Dispatcher → (ℕ → List Packet) → List Packet → ℕ → List Packet
  unfolding target
  sort_into d groups [] = groups
  sort_into d groups (m ∷ ms) =
      let to = target d m.mbuf.mem m.mbuf.data_len in
      sort_into d (update groups to (groups to ++ (m ∷ []))) ms

-- `queued` are the packets put into the rings, with the worker, and `freed` those that went back to the
-- pool, all the oldest first.
pub record Receiver : Type 0 where
  pub stats : ℕ → ℕ
  pub byte_stats : ℕ → ℕ
  pub meter : BusyMeter
  pub busy_tsc : ℕ
  pub queued : List (ℕ × Packet)
  pub freed : List Packet

unfoldable pub count_stat : Receiver → Stat → ℕ → Receiver
count_stat r id n =
    let i = stat_index id in record r { stats = update r.stats i (stat_add (r.stats i) n) }

unfoldable pub count_bytes : Receiver → ByteStat → ℕ → Receiver
count_bytes r id n =
    let i = byte_stat_index id in
    record r { byte_stats = update r.byte_stats i (stat_add (r.byte_stats i) n) }

-- How many packets of a burst rte_ring_sp_enqueue_burst takes for a worker, after what was queued.
abbrev pub EnqueueBurst : Type 0
EnqueueBurst = List (ℕ × Packet) → ℕ → List Packet → ℕ

abbrev pub tagged : ℕ → List Packet → List (ℕ × Packet)
tagged w [] = []
tagged w (m ∷ ms) = (w, m) ∷ tagged w ms

-- One group, in one call.
unfoldable pub enqueue_group : EnqueueBurst → Receiver → ℕ → List Packet → Receiver
unfolding count_stat
enqueue_group enqueue r w group =
    let done = enqueue r.queued w group in
    let put = record r { queued = r.queued ++ tagged w (take done group) } in
    let failed = count_stat put Stat.drop_rx_ring (length group - done) in
    if length group == 0
    then r
    else (if ltb done (length group)
        then record failed { freed = r.freed ++ drop done group }
        else put)

-- The workers below a bound, in order.
unfoldable pub enqueue_groups : EnqueueBurst → Receiver → (ℕ → List Packet) → ℕ → Receiver
unfolding enqueue_group
enqueue_groups enqueue r groups zero = r
enqueue_groups enqueue r groups (suc n) =
    enqueue_group enqueue (enqueue_groups enqueue r groups n) n (groups n)

-- A round of `receiver_loop` has work if a queue gave packets.
abbrev pub has_work : List (List Packet) → Bool
has_work [] = false
has_work (bufs ∷ queues) = not (length bufs == 0) || has_work queues

module _ (hashes : Hashes) (jhash_2words : ℕ → ℕ → ℕ → ℕ) (s : Steering) (enqueue : EnqueueBurst)
    (num_workers : ℕ) where
  -- `bufs` is what rte_eth_rx_burst returned.
  unfoldable pub dispatch_rx_queue : Dispatcher → Receiver → List Packet → Receiver
  unfolding sort_into enqueue_groups count_stat count_bytes
  dispatch_rx_queue d r bufs =
      let counted =
        count_bytes (count_stat r Stat.rx (length bufs)) ByteStat.bytes_rx (total_len bufs) in
      let groups = sort_into hashes jhash_2words s d (λ w. []) bufs in
      if length bufs == 0 then r else enqueue_groups enqueue counted groups num_workers

  unfoldable pub dispatch_queues : Dispatcher → Receiver → List (List Packet) → Receiver
  unfolding dispatch_rx_queue
  dispatch_queues d r [] = r
  dispatch_queues d r (bufs ∷ queues) = dispatch_queues d (dispatch_rx_queue d r bufs) queues

  -- A round of `receiver_loop`: the bursts of the queues, and the clock.
  unfoldable pub receiver_round : Dispatcher → Receiver → List (List Packet) → ℕ → Receiver
  unfolding dispatch_queues busy_loop
  receiver_round d r queues now =
      let after = dispatch_queues d r queues in
      let b = busy_loop after.meter after.busy_tsc (has_work queues) now in
      record after { meter = b.0; busy_tsc = b.1 }
