-- ===== src/Api/Session/Concurrent/Burst.antt =====
-- How many wrong passwords a burst of logins gets judged.
use netix_republisher.Prelude.{
  Bool, List, String, [], ap, arith, false, keep, length, length-append, none, refl, subst, suc,
  true, zero, ℕ, ◌+◌, ◌<◌, ◌∙◌, ◌∷◌, ◌≡◌, ◌≤◌,
}
use netix_republisher.Auth.{
  Argon2, IpAddr, ip_beq_iff, login_max_failures, record_failure, throttled, verify_password,
  within,
}
use netix_republisher.Auth.Throttle.{
  NotAfter, ThrottleHistory, asks, fails, failures_of, keep-append, recent_failures, throttle_run,
  throttled_history,
}
use netix_republisher.Api.Session.{Reply, refusal, with_auth, judge}
use netix_republisher.Api.Session.Concurrent.{Logins, noted, Logins-Inv}
use netix_republisher.Auth.Startup.{fresh_auth}
use netix_republisher.State.{World}
use netix_republisher.Api.Session.Attempts.{throttled-failures}

repeat : ℕ → IpAddr → List IpAddr → List IpAddr
repeat zero ip p = p
repeat (suc n) ip p = ip ∷ repeat n ip p

length-repeat : (n : ℕ) (ip : IpAddr) (p : List IpAddr) → length (repeat n ip p) ≡ n + length p
unfolding repeat
length-repeat zero ip p = omega arith
length-repeat (suc n) ip p = omega (arith, length-repeat n ip p)

module _ (I : Type 0) (argon : Argon2) (is_header_value : String → Bool) (limit : ℕ) (at : ℕ)
    (ip : IpAddr) (password token : String) where
  -- At this moment `n` wrong passwords of the address are on record, its logins `p` are verified,
  -- and the password is wrong.
  record Stage (p : List IpAddr) (n : ℕ) : Type 0 where
    history : ThrottleHistory
    world : World I
    logins : Logins argon is_header_value limit p history world
    now : NotAfter at history
    missed : length (recent_failures at ip history) ≡ n
    wrong : verify_password argon world.auth password ≡ false

  module _ (p : List IpAddr) (n : ℕ) where
    calm : n < login_max_failures → (s : Stage p n) → (throttled ip at s.world.auth).0 ≡ false
    unfolding fresh_auth
    calm few s =
        let auth = fresh_auth true true none in
        let same =
          throttled-failures ip at s.world.auth (throttle_run s.history auth)
            (Logins-Inv argon is_header_value limit auth refl s.logins).table
          ∙ throttled_history at ip s.history auth refl s.now in
        ground (arith, same, s.missed, few)

    enter : n < login_max_failures → length p < limit → Stage p n → Stage (ip ∷ p) n
    unfolding throttled verify_password
    enter few fits s = record {
      history = (at, asks ip) ∷ s.history;
      world = with_auth s.world (throttled ip at s.world.auth).1;
      logins = Logins.let_in at ip s.now (calm few s) fits s.logins;
      now = (omega arith, s.now);
      missed = s.missed;
      wrong = ground (arith, s.wrong);
    }

    judge-wrong :
        (s : Stage (ip ∷ p) n)
        → judge argon is_header_value ip password token at s.world
          ≡ (refusal 401 "invalid password", with_auth s.world (record_failure ip at s.world.auth))
    unfolding judge
    judge-wrong s = rw s.wrong refl

    miss : Stage (ip ∷ p) n → Stage p (suc n)
    unfolding record_failure verify_password
    miss s = record {
      history = (at, fails ip) ∷ s.history;
      world = with_auth s.world (record_failure ip at s.world.auth);
      logins =
          subst
            (λ (r : Reply × World I).
              Logins argon is_header_value limit p (noted ip at r.0 s.history) r.1)
            (judge-wrong s) (Logins.judged [] p at ip password token s.now s.logins);
      now = (omega arith, s.now);
      missed = ground (
        arith,
        s.missed,
        (ip_beq_iff ip ip).1 refl,
        ap length (keep-append (within at) (failures_of ip s.history) (at ∷ [])),
        length-append (recent_failures at ip s.history) (keep (within at) (at ∷ [])),
      );
      wrong = s.wrong;
    }

  crowd : (n m : ℕ) → n < login_max_failures → m ≤ limit → Stage [] n → Stage (repeat m ip []) n
  unfolding repeat
  crowd n zero few fits s = s
  crowd n (suc m) few fits s =
      enter (repeat m ip []) n few (omega (arith, length-repeat m ip []))
        (crowd n m few (omega arith) s)

  burst : (n m : ℕ) → Stage (repeat m ip []) n → Stage [] (m + n)
  unfolding repeat
  burst n zero s = subst (Stage []) (omega arith) s
  burst n (suc m) s = subst (Stage []) (omega arith) (burst (suc n) m (miss (repeat m ip []) n s))

  module _ (w : World I) (fresh : w.auth.failures ≡ [])
      (bad : verify_password argon w.auth password ≡ false) (some_room : 1 ≤ limit) where
    -- Logins that come one after the other.
    singles : (n : ℕ) → n ≤ login_max_failures → Stage [] n
    singles zero few = record {
      history = [];
      world = w;
      logins = Logins.begin w fresh;
      now = tt;
      missed = refl;
      wrong = bad;
    }
    singles (suc n) few = miss [] n (enter [] n (omega arith) some_room (singles n (omega arith)))

    -- From no failure on record and with a wrong password, where up to `limit` logins, one at
    -- least, are verified at the same time, there is a run of logins of one address, all within one
    -- moment, in which it is told 9 + `limit` times that its password is wrong.
    pub Logins-burst :
        (h : ThrottleHistory) × (v : World I) × Logins argon is_header_value limit [] h v
        × (length (recent_failures at ip h) ≡ 9 + limit)
    Logins-burst =
        let s =
          burst 9 limit (crowd 9 limit (omega arith) (omega arith) (singles 9 (omega arith))) in
        (s.history, s.world, s.logins, s.missed ∙ omega arith)
