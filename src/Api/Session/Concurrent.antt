-- ===== src/Api/Session/Concurrent.antt =====
-- Logins of src/web/api.rs that run at the same time: one that the throttle lets in is verified
-- later, and its failure goes on record only then.
pub mod Burst
use netix_republisher.Prelude.{
  Bool, Bool-cases, List, String, [], ap, arith, false, if◌then◌else◌, inl, inr, keep, length,
  length-append, length-keep-le, nat_eq, refl, string_eq, suc, sym, true, ℕ, ◌++◌, ◌+◌, ◌<◌, ◌==◌,
  ◌∙◌, ◌∷◌, ◌≡◌, ◌≤◌,
}
use netix_republisher.Auth.{
  Argon2, Auth, IpAddr, create_session, ip_beq_iff, ip_eq, login_max_failures, record_failure,
  throttled, verify_password, within,
}
use netix_republisher.Auth.Throttle.{
  NotAfter, ThrottleHistory, asks, fails, failures_of, keep-append, recent_failures, throttle_run,
  throttled_history,
}
use netix_republisher.Api.Session.{Reply, grant, with_auth, judge}
use netix_republisher.State.{World}
use netix_republisher.Api.Session.Attempts.{
  failures-throttle_step, length-keep-within, throttled-failures,
}

-- How many of the addresses are this one.
abbrev count : IpAddr → List IpAddr → ℕ
count ip [] = 0
count ip (i ∷ p) = let n = count ip p in if i == ip then suc n else n

count-le : (ip : IpAddr) (p : List IpAddr) → count ip p ≤ length p
count-le ip [] = omega arith
count-le ip (i ∷ p) = ground (arith, count-le ip p)

count-middle :
    (ip i : IpAddr) (before after : List IpAddr)
    → count ip (before ++ i ∷ after) ≡ count ip (i ∷ before ++ after)
count-middle ip i [] after = refl
count-middle ip i (b ∷ before) after = ground (arith, count-middle ip i before after)

length-middle :
    (i : IpAddr) (before after : List IpAddr)
    → length (before ++ i ∷ after) ≡ suc (length (before ++ after))
length-middle i [] after = refl
length-middle i (b ∷ before) after = omega (arith, length-middle i before after)

-- What the end of a login adds to the history.
abbrev pub noted : IpAddr → ℕ → Reply → ThrottleHistory → ThrottleHistory
noted ip at reply h = if reply.status == 401 then (at, fails ip) ∷ h else h

module _ {I : Type 0} (argon : Argon2) (is_header_value : String → Bool) (limit : ℕ) where
  -- The addresses whose logins are verified at the moment, at most `limit`, what was asked of the
  -- throttle and told it, and the world. `meanwhile` is whatever else happens.
  pub data Logins : List IpAddr → ThrottleHistory → World I → Type 0 where
    begin : (w : World I) → w.auth.failures ≡ [] → Logins [] [] w
    turned_away :
        {p : List IpAddr} {h : ThrottleHistory} {w : World I} (at : ℕ) (ip : IpAddr)
        → NotAfter at h
        → (throttled ip at w.auth).0 ≡ true
        → Logins p h w
        → Logins p ((at, asks ip) ∷ h) (with_auth w (throttled ip at w.auth).1)
    let_in :
        {p : List IpAddr} {h : ThrottleHistory} {w : World I} (at : ℕ) (ip : IpAddr)
        → NotAfter at h
        → (throttled ip at w.auth).0 ≡ false
        → length p < limit
        → Logins p h w
        → Logins (ip ∷ p) ((at, asks ip) ∷ h) (with_auth w (throttled ip at w.auth).1)
    judged :
        {h : ThrottleHistory} {w : World I} (before after : List IpAddr) (at : ℕ) (ip : IpAddr)
        (password token : String)
        → NotAfter at h
        → Logins (before ++ ip ∷ after) h w
        → Logins
            (before ++ after)
            (noted ip at (judge argon is_header_value ip password token at w).0 h)
            (judge argon is_header_value ip password token at w).1
    meanwhile :
        {p : List IpAddr} {h : ThrottleHistory} {w : World I} (v : World I)
        → v.auth.failures ≡ w.auth.failures
        → Logins p h w
        → Logins p h v

  pub record Inv (auth : Auth) (p : List IpAddr) (h : ThrottleHistory) (w : World I) : Type 0 where
    pub room : length p ≤ limit
    pub table : w.auth.failures ≡ (throttle_run h auth).failures
    pub few :
        (now : ℕ) (ip : IpAddr)
        → NotAfter now h
        → length (recent_failures now ip h) + count ip p < login_max_failures + limit

  module _ (auth : Auth) (empty : auth.failures ≡ []) where
    asks-Inv :
        (p : List IpAddr) (h : ThrottleHistory) (w : World I) (at : ℕ) (ip : IpAddr)
        → Inv auth p h w
        → Inv auth p ((at, asks ip) ∷ h) (with_auth w (throttled ip at w.auth).1)
    asks-Inv p h w at ip v = record {
      room = v.room;
      table = failures-throttle_step (at, asks ip) w.auth (throttle_run h auth) v.table;
      few = λ now i (le, past). v.few now i past;
    }

    let_in-Inv :
        (p : List IpAddr) (h : ThrottleHistory) (w : World I) (at : ℕ) (ip : IpAddr)
        → NotAfter at h
        → (throttled ip at w.auth).0 ≡ false
        → length p < limit
        → Inv auth p h w
        → Inv auth (ip ∷ p) ((at, asks ip) ∷ h) (with_auth w (throttled ip at w.auth).1)
    let_in-Inv p h w at ip past calm fits v =
        let same =
          throttled-failures ip at w.auth (throttle_run h auth) v.table
          ∙ throttled_history at ip h auth empty past in
        record {
          room = fits;
          table = failures-throttle_step (at, asks ip) w.auth (throttle_run h auth) v.table;
          few = λ now i (le, later). ground (
            arith,
            v.few now i later,
            same,
            calm,
            fits,
            ip_beq_iff ip i,
            count-le i p,
            length-keep-within at now (failures_of i h) le,
          );
        }

    passed-Inv :
        (h : ThrottleHistory) (w v : World I) (before after : List IpAddr) (ip : IpAddr)
        → v.auth.failures ≡ w.auth.failures
        → Inv auth (before ++ ip ∷ after) h w
        → Inv auth (before ++ after) h v
    passed-Inv h w v before after ip same i = record {
      room = omega (arith, i.room, length-middle ip before after);
      table = same ∙ i.table;
      few = λ now j past. ground (arith, i.few now j past, count-middle j ip before after);
    }

    missed-Inv :
        (h : ThrottleHistory) (w : World I) (before after : List IpAddr) (at : ℕ) (ip : IpAddr)
        → Inv auth (before ++ ip ∷ after) h w
        → Inv auth
            (before ++ after)
            ((at, fails ip) ∷ h)
            (with_auth w (record_failure ip at w.auth))
    missed-Inv h w before after at ip i = record {
      room = omega (arith, i.room, length-middle ip before after);
      table = failures-throttle_step (at, fails ip) w.auth (throttle_run h auth) i.table;
      few = λ now j (le, past). ground (
        arith,
        i.few now j past,
        count-middle j ip before after,
        ip_beq_iff ip j,
        ap length (keep-append (within now) (failures_of j h) (at ∷ [])),
        length-append (recent_failures now j h) (keep (within now) (at ∷ [])),
        length-keep-le (within now) (at ∷ []),
      );
    }

    judged-Inv :
        (h : ThrottleHistory) (w : World I) (before after : List IpAddr) (at : ℕ) (ip : IpAddr)
        (password token : String)
        → Inv auth (before ++ ip ∷ after) h w
        → Inv auth
            (before ++ after)
            (noted ip at (judge argon is_header_value ip password token at w).0 h)
            (judge argon is_header_value ip password token at w).1
    unfolding judge grant create_session
    judged-Inv h w before after at ip password token v =
        elim (Bool-cases (verify_password argon w.auth password)) [
          | inl right ↦ rw right (passed-Inv h w _ before after ip refl v)
          | inr wrong ↦ rw wrong (missed-Inv h w before after at ip v)
        ]

    pub Logins-Inv :
        {p : List IpAddr} {h : ThrottleHistory} {w : World I} → Logins p h w → Inv auth p h w
    Logins-Inv (begin w e) = record {
      room = omega arith;
      table = e ∙ sym empty;
      few = λ now ip past. omega arith;
    }
    Logins-Inv (turned_away {p} {h} {w} at ip past hot r) = asks-Inv p h w at ip (Logins-Inv r)
    Logins-Inv (let_in {p} {h} {w} at ip past calm fits r) =
        let_in-Inv p h w at ip past calm fits (Logins-Inv r)
    Logins-Inv (judged {h} {w} before after at ip password token past r) =
        judged-Inv h w before after at ip password token (Logins-Inv r)
    Logins-Inv (meanwhile v same r) = record {
      room = (Logins-Inv r).room;
      table = same ∙ (Logins-Inv r).table;
      few = (Logins-Inv r).few;
    }

    -- Where at most `limit` logins are verified at the same time, an address has been told fewer
    -- than 10 + `limit` times in the last 60 seconds that its password is wrong, however logins
    -- follow each other and whatever else happens that leaves the failures alone. The run starts
    -- with no failure on record.
    pub Logins_lem :
        {p : List IpAddr} {h : ThrottleHistory} {w : World I}
        → (now : ℕ) (ip : IpAddr) → NotAfter now h
        → Logins p h w
        → length (recent_failures now ip h) < login_max_failures + limit
    Logins_lem now ip past r = omega (arith, (Logins-Inv r).few now ip past)
