-- ===== src/Net/DdosProtection/Limit.antt =====
-- The limiters of zNet/ddosProtection.go count the calls that they allowed within their window.
use mathlib.Core.List.{append-nil}
use z_engine.Common.{
  ltb, ◌==◌, if◌then◌else◌, ==_iff, ==-refl, Bool-cases, length, ℕ, ◌+◌, ◌≤◌, ◌≡◌, refl, sym, ap,
  ◌∙◌, subst, inl, inr, Bool, true, false, some, List, [], ◌∷◌, ◌++◌, arith,
}
use z_engine.Common.TypedMap.{TypedMap, lookup, Distinct}
use z_engine.Net.DdosProtection.{
  add_and_check, has_recent, or_new, Limiter, new_limiter, delete_idle, cleanup_ip_records,
  maybe_cleanup, allow,
}
use z_engine.Net.DdosProtection.Times.{
  recent, recent-recent, recent-append, has_recent-recent, times_in, times_in-append,
  add_and_check-allows, add_and_check-recent,
}

module _ (records : TypedMap (List ℕ)) where
  open records use {
    Map, load, store, delete, range, load-store, load-delete, lookup-range, range-Distinct,
    load-empty,
  }

  -- What the map has for an address, as far as it counts.
  abbrev pub counted : (now window ip : ℕ) → Map → List ℕ
  counted now window ip m = recent now window (or_new (load m ip))

  delete_one-counted :
      (now window ip j : ℕ) (times : List ℕ) (m : Map)
      → load m j ≡ some times
      → counted now window ip (if has_recent now window times then m else delete m j)
        ≡ counted now window ip m
  delete_one-counted now window ip j times m h = elim (Bool-cases (has_recent now window times)) [
    | inl t ↦ rw t refl
    | inr t ↦
        rw (t, load-delete m j ip)
          (elim (Bool-cases (j == ip)) [
            | inr u ↦ rw u refl
            | inl u ↦
                let e : j ≡ ip = ground (arith, ==_iff j ip) in
                rw u (
                  sym (
                    ap (λ i. counted now window i m) (sym e)
                    ∙ ap (λ o. recent now window (or_new o)) h
                    ∙ has_recent-recent now window times t))
          ])
  ]

  delete_idle-counted :
      (now window ip : ℕ) (es : List (ℕ × List ℕ)) (m : Map)
      → Distinct es
      → ((j : ℕ) (ts : List ℕ) → lookup j es ≡ some ts → load m j ≡ some ts)
      → counted now window ip (delete_idle records now window es m) ≡ counted now window ip m
  unfolding delete_idle
  delete_idle-counted now window ip [] m d h = refl
  delete_idle-counted now window ip ((j, times) ∷ rest) m d h =
      delete_idle-counted now window ip rest (if has_recent now window times then m else delete m j)
        d.1 (λ k ts l. ground (arith, h k ts, l, d.0, load-delete m j k, ==_iff j k))
      ∙ delete_one-counted now window ip j times m (h j times (simp (==-refl j) refl))

  maybe_cleanup-counted :
      (now ip : ℕ) (l : Limiter records)
      → counted now l.time_window ip (maybe_cleanup records now l).entries
        ≡ counted now l.time_window ip l.entries
  unfolding maybe_cleanup cleanup_ip_records
  maybe_cleanup-counted now ip l = elim (Bool-cases (ltb (l.last_cleanup + l.time_window) now)) [
    | inl t ↦ rw t (
        delete_idle-counted now l.time_window ip (range l.entries) l.entries
          (range-Distinct l.entries) (λ j ts e. sym (lookup-range l.entries j) ∙ e))
    | inr t ↦ rw t refl
  ]

  -- A limiter, with the calls that it allowed.
  pub record Limited : Type 0 where
    pub limiter : Limiter records
    pub allowed : List (ℕ × ℕ)

  abbrev add_allowed : (ip now : ℕ) → Limiter records × Bool → List (ℕ × ℕ) → Limited
  add_allowed ip now (l, true) log = record { limiter = l; allowed = log ++ ((ip, now) ∷ []) }
  add_allowed ip now (l, false) log = record { limiter = l; allowed = log }

  unfoldable pub call : (ip now : ℕ) → Limited → Limited
  call ip now s = add_allowed ip now (allow records ip now s.limiter) s.allowed

  -- Calls by their addresses and times.
  unfoldable pub run : List (ℕ × ℕ) → Limited → Limited
  run [] s = s
  run ((ip, now) ∷ rest) s = run rest (call ip now s)

  -- The times do not decrease, from `t` up to `u`.
  abbrev pub IsTimed : (t u : ℕ) → List (ℕ × ℕ) → Type 0
  IsTimed t u [] = t ≤ u
  IsTimed t u ((ip, now) ∷ rest) = (t ≤ now) × IsTimed now u rest

  -- At the time the records have what counts of the allowed calls.
  pub record Counts (t max_count window : ℕ) (s : Limited) : Type 0 where
    pub agrees :
        (ip : ℕ) → counted t window ip s.limiter.entries ≡ recent t window (times_in ip s.allowed)
    pub limit : s.limiter.max_count ≡ max_count
    pub frame : s.limiter.time_window ≡ window

  later-Counts :
      (t u max_count window : ℕ) (s : Limited)
      → t ≤ u
      → Counts t max_count window s
      → Counts u max_count window s
  later-Counts t u max_count window s h v = record {
    agrees = λ ip.
        sym (recent-recent t u window (or_new (load s.limiter.entries ip)) h)
        ∙ ap (recent u window) (v.agrees ip)
        ∙ recent-recent t u window (times_in ip s.allowed) h;
    limit = v.limit;
    frame = v.frame;
  }

  maybe_cleanup-limits :
      (now : ℕ) (l : Limiter records)
      → ((maybe_cleanup records now l).max_count ≡ l.max_count)
        × ((maybe_cleanup records now l).time_window ≡ l.time_window)
  unfolding maybe_cleanup
  maybe_cleanup-limits now l = ground arith

  module _ (ip now : ℕ) (l : Limiter records) where
    -- The check on the times that the record of the address has.
    abbrev checked : List ℕ × Bool
    checked =
        add_and_check now l.time_window l.max_count
          (or_new (load (maybe_cleanup records now l).entries ip))

    allow_parts :
        ((allow records ip now l).1 ≡ checked.1)
        × ((allow records ip now l).0.entries
            ≡ store (maybe_cleanup records now l).entries ip checked.0)
        × ((allow records ip now l).0.max_count ≡ l.max_count)
        × ((allow records ip now l).0.time_window ≡ l.time_window)
    unfolding allow
    allow_parts =
        let (a, b) = maybe_cleanup-limits now l in (simp (a, b) refl, simp (a, b) refl, a, b)

    -- What counts for an address grows by the call, if it was allowed.
    allow-counted :
        (j : ℕ)
        → counted now l.time_window j (allow records ip now l).0.entries
          ≡ counted now l.time_window j l.entries
            ++ (if ip == j
                then (if checked.1 then recent now l.time_window (now ∷ []) else [])
                else [])
    allow-counted j =
        let before = maybe_cleanup-counted now j l in
        rw (allow_parts.1, load-store (maybe_cleanup records now l).entries ip checked.0 j)
          (elim (Bool-cases (ip == j)) [
            | inr t ↦ rw t (before ∙ sym (append-nil (counted now l.time_window j l.entries)))
            | inl t ↦
                let e : ip ≡ j = ground (arith, ==_iff ip j) in
                rw t (
                  add_and_check-recent now l.time_window l.max_count
                    (or_new (load (maybe_cleanup records now l).entries ip))
                  ∙ ap (λ c. c ++ (if checked.1 then recent now l.time_window (now ∷ []) else []))
                      (ap (λ i. counted now l.time_window i (maybe_cleanup records now l).entries) e
                        ∙ before))
          ])

    allow-counted_in :
        (window : ℕ)
        → l.time_window ≡ window
        → (j : ℕ)
        → counted now window j (allow records ip now l).0.entries
          ≡ counted now window j l.entries
            ++ (if ip == j
                then (if (allow records ip now l).1 then recent now window (now ∷ []) else [])
                else [])
    allow-counted_in window e j =
        subst
          (λ w.
            counted now w j (allow records ip now l).0.entries
            ≡ counted now w j l.entries
              ++ (if ip == j
                  then (if (allow records ip now l).1 then recent now w (now ∷ []) else [])
                  else []))
          e (rw (allow_parts.0) (allow-counted j))

    allow-allows :
        (allow records ip now l).1
        ≡ ltb (length (counted now l.time_window ip l.entries)) l.max_count
    allow-allows =
        allow_parts.0
        ∙ add_and_check-allows now l.time_window l.max_count
            (or_new (load (maybe_cleanup records now l).entries ip))
        ∙ ap (λ c. ltb (length c) l.max_count) (maybe_cleanup-counted now ip l)

  add_allowed-Counts :
      (now max_count window ip : ℕ) (l : Limiter records) (is_allowed : Bool) (log : List (ℕ × ℕ))
      → ((j : ℕ)
          → counted now window j l.entries
            ≡ recent now window (times_in j log)
              ++ (if ip == j
                  then (if is_allowed then recent now window (now ∷ []) else [])
                  else []))
      → l.max_count ≡ max_count
      → l.time_window ≡ window
      → Counts now max_count window (add_allowed ip now (l, is_allowed) log)
  add_allowed-Counts now max_count window ip l true log h a b = record {
    agrees = λ j.
        h j
        ∙ sym (
            ap (recent now window) (times_in-append j ip now log)
            ∙ recent-append now window (times_in j log) (if ip == j then now ∷ [] else [])
            ∙ ap (λ c. recent now window (times_in j log) ++ c) (recent_if j));
    limit = a;
    frame = b;
  }
    where
      recent_if :
          (j : ℕ)
          → recent now window (if ip == j then now ∷ [] else [])
            ≡ (if ip == j then recent now window (now ∷ []) else [])
      recent_if j = elim (Bool-cases (ip == j)) [ inl t ↦ rw t refl | inr t ↦ rw t refl ]
  add_allowed-Counts now max_count window ip l false log h a b = record {
    agrees = λ j. h j ∙ elim (Bool-cases (ip == j)) [
      | inl t ↦ rw t (append-nil (recent now window (times_in j log)))
      | inr t ↦ rw t (append-nil (recent now window (times_in j log)))
    ];
    limit = a;
    frame = b;
  }

  call-Counts :
      (t now max_count window ip : ℕ) (s : Limited)
      → t ≤ now
      → Counts t max_count window s
      → Counts now max_count window (call ip now s)
  unfolding call
  call-Counts t now max_count window ip s h v =
      let w = later-Counts t now max_count window s h v in
      let (c, e, a, b) = allow_parts ip now s.limiter in
      add_allowed-Counts now max_count window ip (allow records ip now s.limiter).0
        (allow records ip now s.limiter).1 s.allowed
        (λ j.
          allow-counted_in ip now s.limiter window v.frame j
          ∙ ap
              (λ c.
                c
                ++ (if ip == j
                    then (if (allow records ip now s.limiter).1
                        then recent now window (now ∷ [])
                        else [])
                    else []))
              (w.agrees j))
        (a ∙ v.limit) (b ∙ v.frame)

  run-Counts :
      (calls : List (ℕ × ℕ)) (t u max_count window : ℕ) (s : Limited)
      → IsTimed t u calls
      → Counts t max_count window s
      → Counts u max_count window (run calls s)
  unfolding run
  run-Counts [] t u max_count window s h v = later-Counts t u max_count window s h v
  run-Counts ((ip, now) ∷ rest) t u max_count window s h v =
      run-Counts rest now u max_count window (call ip now s) h.1
        (call-Counts t now max_count window ip s h.0 v)

  unfoldable pub new_limited : (max_count time_window : ℕ) → Limited
  new_limited max_count time_window = record {
    limiter = new_limiter records max_count time_window;
    allowed = [];
  }

  -- After calls at times that do not decrease, a limiter allows a call exactly where it has allowed fewer
  -- than its limit for the address in the window that ends with the call: neither the cleanup of
  -- the records nor the calls for other addresses make a difference.
  pub run-allow :
      (max_count window : ℕ) (calls : List (ℕ × ℕ)) (ip now : ℕ)
      → IsTimed 0 now calls
      → (let s = run calls (new_limited max_count window) in
          (allow records ip now s.limiter).1
          ≡ ltb (length (recent now window (times_in ip s.allowed))) max_count)
  run-allow max_count window calls ip now h =
      let s = run calls (new_limited max_count window) in
      let v = run-Counts calls 0 now max_count window (new_limited max_count window) h (
        unfold new_limited new_limiter in
        record {
          agrees = λ j. ap (λ o. recent 0 window (or_new o)) (load-empty j);
          limit = refl;
          frame = refl;
        }) in
      allow-allows ip now s.limiter
      ∙ ap (λ w. ltb (length (counted now w ip s.limiter.entries)) s.limiter.max_count) v.frame
      ∙ ap (λ c. ltb (length c) s.limiter.max_count) (v.agrees ip)
      ∙ ap (λ m. ltb (length (recent now window (times_in ip s.allowed))) m) v.limit
