-- ===== src/Config/Validate.antt =====
-- `Config::validate` of src/common/config.cpp: what is checked after the file is read, and the defaults
-- that are filled in. The warning about the gateway is only logged.
use l4_loadbalancer.Base.{
  ℕ, Bool, true, false, ◌&&◌, ◌||◌, ◌==◌, ltb, leb, if◌then◌else◌, Option, none, some, List, [],
  ◌∷◌, length, get_or, map,
}
use l4_loadbalancer.Config.{
  ForwardMode, ServiceConf, LbConfig, max_services, max_rs_per_service, max_local_ips, nat_port_min,
  hc_port_max,
}

-- The messages of the log.
pub data ConfigError : Type 0 where
  no_service too_many_services no_real_server too_many_real_servers duplicate_service : ConfigError
  too_many_local_ips no_hc_src hc_src_is_vip reserved_port : ConfigError

-- An element of `keys`: the address, the port and the protocol.
abbrev pub ConfKey : Type 0
ConfKey = ℕ × ℕ × ℕ

abbrev pub conf_key : ServiceConf → ConfKey
conf_key c = (c.vip, c.port, c.proto)

abbrev pub same_key : ConfKey → ConfKey → Bool
same_key (a, b, c) (x, y, z) = a == x && (b == y && c == z)

abbrev pub has_key : ConfKey → List ConfKey → Bool
has_key k [] = false
has_key k (x ∷ xs) = same_key x k || has_key k xs

abbrev pub has_ip : ℕ → List ℕ → Bool
has_ip ip [] = false
has_ip ip (x ∷ xs) = x == ip || has_ip ip xs

-- The first loop over the services, with the keys seen.
unfoldable pub check_services : List ConfKey → List ServiceConf → Option ConfigError
check_services seen [] = none
check_services seen (c ∷ cs) =
    let rest = check_services (conf_key c ∷ seen) cs in
    if length c.rs == 0
    then some no_real_server
    else (if ltb max_rs_per_service (length c.rs)
        then some too_many_real_servers
        else (if has_key (conf_key c) seen then some duplicate_service else rest))

abbrev pub conf_vips : List ServiceConf → List ℕ
conf_vips cs = map (λ c. c.vip) cs

abbrev pub is_dr : ForwardMode → Bool
is_dr ForwardMode.nat = false
is_dr ForwardMode.dr = true

-- Without a local address, FULLNAT takes the first VIP.
abbrev pub first_vip_for : ForwardMode → LbConfig → LbConfig
first_vip_for ForwardMode.nat c = record c { local_ips = get_or (conf_vips c.services) 0 0 ∷ [] }
first_vip_for ForwardMode.dr c = c

unfoldable pub default_local_ip : LbConfig → LbConfig
default_local_ip c = if length c.local_ips == 0 then first_vip_for c.mode c else c

unfoldable pub default_hc_src : LbConfig → LbConfig
default_hc_src c =
    if c.hc_src == 0 && leb 1 (length c.local_ips)
    then record c { hc_src = get_or c.local_ips 0 0 }
    else c

-- `locals`.
abbrev pub own_ips : LbConfig → List ℕ
own_ips c = if c.hc_src == 0 then c.local_ips else c.hc_src ∷ c.local_ips

-- The second loop over the services.
unfoldable pub check_ports : List ℕ → List ServiceConf → Option ConfigError
check_ports locals [] = none
check_ports locals (c ∷ cs) =
    let rest = check_ports locals cs in
    if has_ip c.vip locals && (leb nat_port_min c.port && leb c.port hc_port_max)
    then some reserved_port
    else rest

-- From the second default on.
unfoldable pub check_network : LbConfig → Option ConfigError × LbConfig
unfolding check_ports
check_network c =
    if c.health.enabled && c.hc_src == 0
    then (some no_hc_src, c)
    else (if is_dr c.mode && has_ip c.hc_src (conf_vips c.services)
        then (some hc_src_is_vip, c)
        else (check_ports (own_ips c) c.services, c))

unfoldable pub check_locals : LbConfig → Option ConfigError × LbConfig
unfolding default_hc_src check_network
check_locals c =
    if ltb max_local_ips (length c.local_ips)
    then (some too_many_local_ips, c)
    else check_network (default_hc_src c)

-- `true` is `none`; the second component is `lb_` afterwards.
unfoldable pub validate : LbConfig → Option ConfigError × LbConfig
unfolding check_services default_local_ip check_locals
validate c =
    if length c.services == 0
    then (some no_service, c)
    else (if ltb max_services (length c.services)
        then (some too_many_services, c)
        else (elim (check_services [] c.services) [
          | none ↦ check_locals (default_local_ip c)
          | some e ↦ (some e, c)
        ]))
