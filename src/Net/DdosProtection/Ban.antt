-- ===== src/Net/DdosProtection/Ban.antt =====
-- A ban of zNet/ddosProtection.go lasts for its duration.
use z_engine.Common.{
  ltb, leb, ==_iff, ==-refl, Bool-cases, ℕ, ◌+◌, ◌≤◌, ◌≡◌, refl, sym, ap, ◌∙◌, subst, inl, inr,
  Bool, true, false, Option, none, some, List, [], ◌∷◌, arith,
}
use z_engine.Common.TypedMap.{TypedMap}
use z_engine.Net.DdosProtection.{
  Limiter, allow, IpBlacklist, is_banned_since, is_blacklisted, blacklist_ip, DdosProtection,
  after_connection, connection_from, allow_connection, packet_from, allow_packet_from, traffic_from,
  allow_traffic_from,
}

module _ (records : TypedMap (List ℕ)) (times : TypedMap ℕ) where
  open times use {Map, load, store, delete, load-store, load-delete}

  -- A call at a time.
  pub data Call : Type 0 where
    connection : (ip now : ℕ) → Call
    packet : (subject ip now : ℕ) → Call
    traffic_of : (subject ip now bytes : ℕ) → Call
    ban : (ip now : ℕ) → Call

  unfoldable pub act : Call → DdosProtection records times → DdosProtection records times
  act (connection ip now) d = (allow_connection records times ip now d).0
  act (packet subject ip now) d = (allow_packet_from records times subject ip now d).0
  act (traffic_of subject ip now bytes) d =
      (allow_traffic_from records times subject ip now bytes d).0
  act (ban ip now) d = record d { ip_blacklist = blacklist_ip times ip now d.ip_blacklist }

  unfoldable pub run : List Call → DdosProtection records times → DdosProtection records times
  run [] d = d
  run (c ∷ cs) d = run cs (act c d)

  abbrev pub time_of : Call → ℕ
  time_of (connection ip now) = now
  time_of (packet subject ip now) = now
  time_of (traffic_of subject ip now bytes) = now
  time_of (ban ip now) = now

  -- The times lie between two others.
  abbrev pub IsWithin : (from until : ℕ) → List Call → Type 0
  IsWithin from until [] = Unit
  IsWithin from until (c ∷ cs) = (from ≤ time_of c) × (time_of c ≤ until) × IsWithin from until cs

  abbrev since : ℕ → Option ℕ → Bool
  since t none = false
  since t (some u) = leb t u

  -- The address is banned, since the time or later, and is not on the whitelist.
  pub record Banned (ip from duration : ℕ) (d : DdosProtection records times) : Type 0 where
    pub banned : since from (load d.ip_blacklist.blacklisted_ips ip) ≡ true
    pub lasts : d.ip_blacklist.ban_duration ≡ duration
    pub listed : d.whitelist ip ≡ false

  is_banned_since-true :
      (ip now from : ℕ) (o : Option ℕ) (b : IpBlacklist times)
      → since from o ≡ true
      → now ≤ from + b.ban_duration
      → is_banned_since times ip now o b ≡ (b, true)
  unfolding is_banned_since
  is_banned_since-true ip now from none b s h = ground arith
  is_banned_since-true ip now from (some t) b s h =
      let e : ltb (t + b.ban_duration) now ≡ false = ground arith in rw e refl

  -- The check of another address leaves the ban.
  is_banned_since-keeps :
      (ip j now from duration : ℕ) (o : Option ℕ) (b : IpBlacklist times)
      → load b.blacklisted_ips j ≡ o
      → now ≤ from + duration
      → b.ban_duration ≡ duration
      → since from (load b.blacklisted_ips ip) ≡ true
      → (since from (load (is_banned_since times j now o b).0.blacklisted_ips ip) ≡ true)
        × ((is_banned_since times j now o b).0.ban_duration ≡ duration)
  unfolding is_banned_since
  is_banned_since-keeps ip j now from duration none b l h e s = (s, e)
  is_banned_since-keeps ip j now from duration (some t) b l h e s =
      ground (arith, l, s, e, load-delete b.blacklisted_ips j ip, ==_iff j ip)

  module _ (ip from duration : ℕ) where
    -- The blacklist has the ban.
    abbrev Keeps : IpBlacklist times → Type 0
    Keeps b = (since from (load b.blacklisted_ips ip) ≡ true) × (b.ban_duration ≡ duration)

    blacklist_ip-Keeps :
        (j now : ℕ) (b : IpBlacklist times)
        → from ≤ now
        → Keeps b
        → Keeps (blacklist_ip times j now b)
    unfolding blacklist_ip
    blacklist_ip-Keeps j now b h k =
        ground (arith, h, k.0, k.1, load-store b.blacklisted_ips j now ip)

    after_connection-Banned :
        (j now : ℕ) (r : Limiter records × Bool) (d : DdosProtection records times)
        → from ≤ now
        → Keeps d.ip_blacklist
        → d.whitelist ip ≡ false
        → Banned ip from duration (after_connection records times j now r d).0
    unfolding after_connection
    after_connection-Banned j now (l, true) d h k w = record {
      banned = k.0;
      lasts = k.1;
      listed = w;
    }
    after_connection-Banned j now (l, false) d h k w =
        let (a, b) = blacklist_ip-Keeps j now d.ip_blacklist h k in
        record { banned = a; lasts = b; listed = w }

    connection_from-Banned :
        (j now : ℕ) (r : IpBlacklist times × Bool) (d : DdosProtection records times)
        → from ≤ now
        → Keeps r.0
        → d.whitelist ip ≡ false
        → Banned ip from duration (connection_from records times j now r d).0
    unfolding connection_from
    connection_from-Banned j now (b, true) d h k w = record {
      banned = k.0;
      lasts = k.1;
      listed = w;
    }
    connection_from-Banned j now (b, false) d h k w =
        after_connection-Banned j now (allow records j now d.connection_limiter)
          (record d { ip_blacklist = b }) h k w

    packet_from-Banned :
        (subject now : ℕ) (r : IpBlacklist times × Bool) (d : DdosProtection records times)
        → Keeps r.0
        → d.whitelist ip ≡ false
        → Banned ip from duration (packet_from records times subject now r d).0
    unfolding packet_from
    packet_from-Banned subject now (b, true) d k w = record {
      banned = k.0;
      lasts = k.1;
      listed = w;
    }
    packet_from-Banned subject now (b, false) d k w = record {
      banned = k.0;
      lasts = k.1;
      listed = w;
    }

    traffic_from-Banned :
        (subject now bytes : ℕ) (r : IpBlacklist times × Bool) (d : DdosProtection records times)
        → Keeps r.0
        → d.whitelist ip ≡ false
        → Banned ip from duration (traffic_from records times subject now bytes r d).0
    unfolding traffic_from
    traffic_from-Banned subject now bytes (b, true) d k w = record {
      banned = k.0;
      lasts = k.1;
      listed = w;
    }
    traffic_from-Banned subject now bytes (b, false) d k w = record {
      banned = k.0;
      lasts = k.1;
      listed = w;
    }

    is_blacklisted-Keeps :
        (j now : ℕ) (d : DdosProtection records times)
        → now ≤ from + duration
        → Banned ip from duration d
        → Keeps (is_blacklisted times j now d.ip_blacklist).0
    unfolding is_blacklisted
    is_blacklisted-Keeps j now d h v =
        is_banned_since-keeps ip j now from duration (load d.ip_blacklist.blacklisted_ips j)
          d.ip_blacklist refl h v.lasts v.banned

    act-Banned :
        (c : Call) (d : DdosProtection records times)
        → from ≤ time_of c
        → time_of c ≤ from + duration
        → Banned ip from duration d
        → Banned ip from duration (act c d)
    unfolding act allow_connection allow_packet_from allow_traffic_from
    act-Banned (connection j now) d a b v = elim (Bool-cases (d.whitelist j)) [
      | inl t ↦ rw (act, t) v
      | inr t ↦
          rw (act, t)
            (connection_from-Banned j now (is_blacklisted times j now d.ip_blacklist) d a
              (is_blacklisted-Keeps j now d b v) v.listed)
    ]
    act-Banned (packet subject j now) d a b v = elim (Bool-cases (d.whitelist j)) [
      | inl t ↦ rw (act, t) v
      | inr t ↦
          rw (act, t)
            (packet_from-Banned subject now (is_blacklisted times j now d.ip_blacklist) d
              (is_blacklisted-Keeps j now d b v) v.listed)
    ]
    act-Banned (traffic_of subject j now bytes) d a b v = elim (Bool-cases (d.whitelist j)) [
      | inl t ↦ rw (act, t) v
      | inr t ↦
          rw (act, t)
            (traffic_from-Banned subject now bytes (is_blacklisted times j now d.ip_blacklist) d
              (is_blacklisted-Keeps j now d b v) v.listed)
    ]
    act-Banned (ban j now) d a b v =
        let (x, y) = blacklist_ip-Keeps j now d.ip_blacklist a (v.banned, v.lasts) in
        record { banned = x; lasts = y; listed = v.listed }

    run-Banned :
        (calls : List Call) (d : DdosProtection records times)
        → IsWithin from (from + duration) calls
        → Banned ip from duration d
        → Banned ip from duration (run calls d)
    unfolding run
    run-Banned [] d h v = v
    run-Banned (c ∷ cs) d h v = run-Banned cs (act c d) h.2 (act-Banned c d h.0 h.1 v)

    Banned-refuses :
        (subject now bytes : ℕ) (d : DdosProtection records times)
        → now ≤ from + duration
        → Banned ip from duration d
        → ((allow_connection records times ip now d).1 ≡ false)
          × ((allow_packet_from records times subject ip now d).1 ≡ false)
          × ((allow_traffic_from records times subject ip now bytes d).1 ≡ false)
    unfolding allow_connection allow_packet_from allow_traffic_from is_blacklisted connection_from
        packet_from traffic_from
    Banned-refuses subject now bytes d h v =
        let e =
          is_banned_since-true ip now from (load d.ip_blacklist.blacklisted_ips ip) d.ip_blacklist
            v.banned (omega (arith, h, v.lasts)) in
        let w = v.listed in (rw (w, e) refl, rw (w, e) refl, rw (w, e) refl)

  -- A connection beyond the limit bans its address.
  after_connection-bans :
      (ip now duration : ℕ) (r : Limiter records × Bool) (d : DdosProtection records times)
      → (after_connection records times ip now r d).1 ≡ false
      → d.ip_blacklist.ban_duration ≡ duration
      → d.whitelist ip ≡ false
      → Banned ip now duration (after_connection records times ip now r d).0
  unfolding after_connection blacklist_ip
  after_connection-bans ip now duration (l, true) d h e w = ground arith
  after_connection-bans ip now duration (l, false) d h e w = record {
    banned = ground (arith, load-store d.ip_blacklist.blacklisted_ips ip now ip, ==-refl ip);
    lasts = e;
    listed = w;
  }

  allow_connection-bans :
      (ip now : ℕ) (d : DdosProtection records times)
      → d.whitelist ip ≡ false
      → load d.ip_blacklist.blacklisted_ips ip ≡ none
      → (allow_connection records times ip now d).1 ≡ false
      → Banned ip now d.ip_blacklist.ban_duration (allow_connection records times ip now d).0
  allow_connection-bans ip now d w n h =
      let q = after_connection records times ip now (allow records ip now d.connection_limiter) d in
      let e : allow_connection records times ip now d ≡ q =
        unfold allow_connection is_blacklisted is_banned_since connection_from in rw (w, n) refl in
      subst (λ x. Banned ip now d.ip_blacklist.ban_duration x.0) (sym e)
        (after_connection-bans ip now d.ip_blacklist.ban_duration
          (allow records ip now d.connection_limiter) d (sym (ap (λ x. x.1) e) ∙ h) refl w)

  -- An address that is neither on the whitelist nor banned and whose connection is refused stays refused
  -- for the duration of a ban: connections, packets and traffic from it, at any time up to the end
  -- of the ban, and after any calls between the refusal and that end.
  pub refused_for_duration :
      (d : DdosProtection records times) (ip from subject now bytes : ℕ) (calls : List Call)
      → d.whitelist ip ≡ false
      → load d.ip_blacklist.blacklisted_ips ip ≡ none
      → (allow_connection records times ip from d).1 ≡ false
      → IsWithin from (from + d.ip_blacklist.ban_duration) calls
      → now ≤ from + d.ip_blacklist.ban_duration
      → (let e = run calls (allow_connection records times ip from d).0 in
          ((allow_connection records times ip now e).1 ≡ false)
          × ((allow_packet_from records times subject ip now e).1 ≡ false)
          × ((allow_traffic_from records times subject ip now bytes e).1 ≡ false))
  refused_for_duration d ip from subject now bytes calls w n r h t =
      let e = (allow_connection records times ip from d).0 in
      Banned-refuses ip from d.ip_blacklist.ban_duration subject now bytes (run calls e) t (
        run-Banned ip from d.ip_blacklist.ban_duration calls e h
          (allow_connection-bans ip from d w n r))
