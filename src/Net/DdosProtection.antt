-- ===== src/Net/DdosProtection.antt =====
-- zNet/ddosProtection.go: the limits on connections, packets and traffic. The maps of the code are
-- `zMap.TypedMap`s and enter as parameters; a call is taken as one step. An address, or the subject of a
-- limit, is a number, a time and a duration are in nanoseconds, and a limit that is negative is 0.
pub mod Times
pub mod Limit
pub mod Ban
use z_engine.Common.{
  ltb, leb, if◌then◌else◌, length, keep_if, ℕ, ◌+◌, Bool, true, false, Option, none, some, List, [],
  ◌∷◌, ◌++◌,
}
use z_engine.Common.TypedMap.{TypedMap}

-- `now.Sub(t) < window`.
abbrev pub is_recent : (now window t : ℕ) → Bool
is_recent now window t = ltb now (t + window)

-- `addAndCheck`, on the times of a record.
unfoldable pub add_and_check : (now window max_count : ℕ) → List ℕ → List ℕ × Bool
add_and_check now window max_count times =
    let valid = keep_if (is_recent now window) times in
    if leb max_count (length valid) then (valid, false) else (valid ++ (now ∷ []), true)

-- The loop of `cleanupIPRecords` over the times of a record.
pub has_recent : (now window : ℕ) → List ℕ → Bool
has_recent now window [] = false
has_recent now window (t ∷ ts) =
    let rest = has_recent now window ts in if is_recent now window t then true else rest

abbrev pub or_new : Option (List ℕ) → List ℕ
or_new none = []
or_new (some times) = times

module _ (records : TypedMap (List ℕ)) where
  open records use {Map, empty, load, store, delete, range}

  -- `ConnectionLimiter`, and `PacketLimiter`.
  pub record Limiter : Type 0 where
    pub entries : Map
    pub max_count : ℕ
    pub time_window : ℕ
    pub last_cleanup : ℕ

  -- `NewConnectionLimiter` and `NewPacketLimiter`.
  unfoldable pub new_limiter : (max_count time_window : ℕ) → Limiter
  new_limiter max_count time_window = record {
    entries = empty;
    max_count = max_count;
    time_window = time_window;
    last_cleanup = 0;
  }

  delete_idle : (now window : ℕ) → List (ℕ × List ℕ) → Map → Map
  unfolding has_recent
  delete_idle now window [] m = m
  delete_idle now window ((ip, times) ∷ rest) m =
      delete_idle now window rest (if has_recent now window times then m else delete m ip)

  -- `cleanupIPRecords`.
  unfoldable pub cleanup_ip_records : (now window : ℕ) → Map → Map
  unfolding delete_idle
  cleanup_ip_records now window m = delete_idle now window (range m) m

  -- `maybeCleanupIPRecords`.
  unfoldable pub maybe_cleanup : ℕ → Limiter → Limiter
  unfolding cleanup_ip_records
  maybe_cleanup now l =
      if ltb (l.last_cleanup + l.time_window) now
      then record l { entries = cleanup_ip_records now l.time_window l.entries; last_cleanup = now }
      else l

  -- `AllowConnection` and `AllowPacket` of the limiters.
  unfoldable pub allow : (ip now : ℕ) → Limiter → Limiter × Bool
  unfolding maybe_cleanup add_and_check
  allow ip now l =
      let m = maybe_cleanup now l in
      let (times, is_allowed) =
        add_and_check now m.time_window m.max_count (or_new (load m.entries ip)) in
      (record m { entries = store m.entries ip times }, is_allowed)

module _ (bans : TypedMap ℕ) where
  open bans use {Map, load, store, delete}

  -- `IPBlacklist`.
  pub record IpBlacklist : Type 0 where
    pub blacklisted_ips : Map
    pub ban_duration : ℕ

  is_banned_since : (ip now : ℕ) → Option ℕ → IpBlacklist → IpBlacklist × Bool
  is_banned_since ip now none b = (b, false)
  is_banned_since ip now (some t) b =
      if ltb (t + b.ban_duration) now
      then (record b { blacklisted_ips = delete b.blacklisted_ips ip }, false)
      else (b, true)

  -- `IsBlacklisted`.
  unfoldable pub is_blacklisted : (ip now : ℕ) → IpBlacklist → IpBlacklist × Bool
  unfolding is_banned_since
  is_blacklisted ip now b = is_banned_since ip now (load b.blacklisted_ips ip) b

  -- `BlacklistIP`.
  unfoldable pub blacklist_ip : (ip now : ℕ) → IpBlacklist → IpBlacklist
  blacklist_ip ip now b = record b { blacklisted_ips = store b.blacklisted_ips ip now }

abbrev or_no_bytes : Option ℕ → ℕ
or_no_bytes none = 0
or_no_bytes (some n) = n

module _ (traffic : TypedMap ℕ) where
  open traffic use {Map, load, store, delete, range}

  -- `TrafficLimiter`.
  pub record TrafficLimiter : Type 0 where
    pub ip_traffic : Map
    pub max_bytes : ℕ
    pub traffic_window : ℕ
    pub last_reset : ℕ

  pub delete_all : List (ℕ × ℕ) → Map → Map
  delete_all [] m = m
  delete_all ((ip, n) ∷ rest) m = delete_all rest (delete m ip)

  pub reset_traffic : ℕ → TrafficLimiter → TrafficLimiter
  unfolding delete_all
  reset_traffic now l =
      if ltb (l.last_reset + l.traffic_window) now
      then record l { ip_traffic = delete_all (range l.ip_traffic) l.ip_traffic; last_reset = now }
      else l

  -- `AllowTraffic`; the sum of bytes is taken not to overflow.
  unfoldable pub allow_traffic : (ip now bytes : ℕ) → TrafficLimiter → TrafficLimiter × Bool
  unfolding reset_traffic
  allow_traffic ip now bytes l =
      let r = reset_traffic now l in
      let sent = or_no_bytes (load r.ip_traffic ip) + bytes in
      if ltb r.max_bytes sent
      then (
        record r { ip_traffic = store r.ip_traffic ip (or_no_bytes (load r.ip_traffic ip)) },
        false,
      )
      else (record r { ip_traffic = store r.ip_traffic ip sent }, true)

module _ (records : TypedMap (List ℕ)) (times : TypedMap ℕ) where
  -- `DDoSProtection`.
  pub record DdosProtection : Type 0 where
    pub connection_limiter : Limiter records
    pub packet_limiter : Limiter records
    pub ip_blacklist : IpBlacklist times
    pub traffic_limiter : TrafficLimiter times
    pub whitelist : ℕ → Bool

  after_connection : (ip now : ℕ) → Limiter records × Bool → DdosProtection → DdosProtection × Bool
  after_connection ip now (l, true) d = (record d { connection_limiter = l }, true)
  after_connection ip now (l, false) d = (
    record d { connection_limiter = l; ip_blacklist = blacklist_ip times ip now d.ip_blacklist },
    false,
  )

  connection_from : (ip now : ℕ) → IpBlacklist times × Bool → DdosProtection → DdosProtection × Bool
  unfolding after_connection
  connection_from ip now (b, true) d = (record d { ip_blacklist = b }, false)
  connection_from ip now (b, false) d =
      after_connection ip now (allow records ip now d.connection_limiter)
        (record d { ip_blacklist = b })

  -- `AllowConnection`.
  unfoldable pub allow_connection : (ip now : ℕ) → DdosProtection → DdosProtection × Bool
  unfolding connection_from
  allow_connection ip now d =
      if d.whitelist ip
      then (d, true)
      else connection_from ip now (is_blacklisted times ip now d.ip_blacklist) d

  packet_from :
      (subject now : ℕ) → IpBlacklist times × Bool → DdosProtection → DdosProtection × Bool
  packet_from subject now (b, true) d = (record d { ip_blacklist = b }, false)
  packet_from subject now (b, false) d =
      let (l, is_allowed) = allow records subject now d.packet_limiter in
      (record d { ip_blacklist = b; packet_limiter = l }, is_allowed)

  -- `AllowPacketFrom`; `AllowPacket` has the address as the subject.
  unfoldable pub allow_packet_from : (subject ip now : ℕ) → DdosProtection → DdosProtection × Bool
  unfolding packet_from
  allow_packet_from subject ip now d =
      if d.whitelist ip
      then (d, true)
      else packet_from subject now (is_blacklisted times ip now d.ip_blacklist) d

  traffic_from :
      (subject now bytes : ℕ) → IpBlacklist times × Bool → DdosProtection → DdosProtection × Bool
  traffic_from subject now bytes (b, true) d = (record d { ip_blacklist = b }, false)
  traffic_from subject now bytes (b, false) d =
      let (l, is_allowed) = allow_traffic times subject now bytes d.traffic_limiter in
      (record d { ip_blacklist = b; traffic_limiter = l }, is_allowed)

  -- `AllowTrafficFrom`; `AllowTraffic` has the address as the subject.
  unfoldable pub allow_traffic_from :
      (subject ip now bytes : ℕ) → DdosProtection → DdosProtection × Bool
  unfolding traffic_from
  allow_traffic_from subject ip now bytes d =
      if d.whitelist ip
      then (d, true)
      else traffic_from subject now bytes (is_blacklisted times ip now d.ip_blacklist) d
