-- ===== src/Api/Session/Attempts.antt =====
-- How many wrong passwords an address may try: sequences of logins against the throttle.
use netix_republisher.Prelude.{
  All, Bool, Bool-cases, List, String, [], ap, arith, false, if◌then◌else◌, inl, inr, keep, length,
  length-append, length-concat, nat_beq_iff, nat_eq, refl, string_eq, sym, true, ℕ, ◌<◌, ◌==◌, ◌∙◌,
  ◌∷◌, ◌≡◌, ◌≤◌,
}
use netix_republisher.Auth.{
  Argon2, Auth, IpAddr, create_session, ip_beq_iff, ip_eq, login_max_failures, record_failure,
  throttled, within,
}
use netix_republisher.Api.Session.{Reply, grant, login, judge}
use netix_republisher.Auth.Throttle.{
  NotAfter, ThrottleCall, ThrottleHistory, asks, fails, failures_of, keep-append, recent_failures,
  throttle_run, throttle_step, throttled_history,
}
use netix_republisher.State.{World}

pub record LoginCall : Type 0 where
  pub at : ℕ
  pub ip : IpAddr
  pub password : String
  pub token : String

-- Every call is no earlier than those before it; the latest is the first of the list.
abbrev pub IsOrdered : List LoginCall → Type 0
IsOrdered [] = Unit
IsOrdered (c ∷ cs) = All (λ (d : LoginCall). d.at ≤ c.at) cs × IsOrdered cs

-- What a login asks of the throttle, and tells it where its reply is 401.
abbrev pub note : LoginCall → Reply → ThrottleHistory → ThrottleHistory
note c reply h =
    if reply.status == 401
    then (c.at, fails c.ip) ∷ (c.at, asks c.ip) ∷ h
    else (c.at, asks c.ip) ∷ h

pub failures-throttle_step :
    (c : ℕ × ThrottleCall) (a b : Auth)
    → a.failures ≡ b.failures
    → (throttle_step c a).failures ≡ (throttle_step c b).failures
unfolding record_failure throttled
failures-throttle_step (at, fails ip) a b h = ground (arith, h)
failures-throttle_step (at, asks ip) a b h = ground (arith, h)

-- A window that ends later holds no more of the past.
pub length-keep-within :
    (at now : ℕ) (xs : List ℕ)
    → at ≤ now
    → length (keep (within now) xs) ≤ length (keep (within at) xs)
length-keep-within at now [] le = omega arith
length-keep-within at now (x ∷ xs) le = ground (arith, length-keep-within at now xs le)

run-note :
    (c : LoginCall) (reply : Reply) (h : ThrottleHistory) (auth : Auth)
    → throttle_run (note c reply h) auth ≡ throttle_run (note c reply []) (throttle_run h auth)
run-note c reply h auth = ground arith

-- Running the notes from equal tables ends in equal tables.
failures-note :
    (c : LoginCall) (reply : Reply) (a b : Auth)
    → a.failures ≡ b.failures
    → (throttle_run (note c reply []) a).failures ≡ (throttle_run (note c reply []) b).failures
failures-note c reply a b h =
    let asked = failures-throttle_step (c.at, asks c.ip) a b h in
    let failed =
      failures-throttle_step (c.at, fails c.ip) (throttle_step (c.at, asks c.ip) a)
        (throttle_step (c.at, asks c.ip) b) asked in
    ground (arith, asked, failed)

length-fails :
    (at now : ℕ) (i ip : IpAddr) (h : ThrottleHistory)
    → at ≤ now
    → length (recent_failures at i h) < login_max_failures
    → length (recent_failures now ip h) ≤ login_max_failures
    → length (recent_failures now ip ((at, fails i) ∷ h)) ≤ login_max_failures
length-fails at now i ip h le below bound =
    let past = failures_of ip h in
    ground (
      arith,
      below,
      bound,
      ip_beq_iff i ip,
      ap length (keep-append (within now) past (at ∷ [])),
      length-concat (keep (within now) past) at,
      length-append (keep (within now) past) [],
      length-keep-within at now past le,
    )

-- A note keeps the bound, where a wrong password is only judged below it.
length-note :
    (c : LoginCall) (reply : Reply) (h : ThrottleHistory) (now : ℕ) (ip : IpAddr)
    → c.at ≤ now
    → (reply.status ≡ 401 → length (recent_failures c.at c.ip h) < login_max_failures)
    → length (recent_failures now ip h) ≤ login_max_failures
    → length (recent_failures now ip (note c reply h)) ≤ login_max_failures
length-note c reply h now ip le below bound = elim (Bool-cases (reply.status == 401)) [
  | inl wrong ↦
      rw wrong
        (length-fails c.at now c.ip ip h le (below ((nat_beq_iff reply.status 401).0 wrong)) bound)
  | inr other ↦ rw other bound
]

pub throttled-failures :
    (ip : IpAddr) (at : ℕ) (a b : Auth)
    → a.failures ≡ b.failures
    → (throttled ip at a).0 ≡ (throttled ip at b).0
unfolding throttled
throttled-failures ip at a b h = ground (arith, h)

module _ {I : Type 0} (argon : Argon2) (is_header_value : String → Bool) where
  abbrev pub login_call : LoginCall → World I → Reply × World I
  login_call c w = login argon is_header_value c.ip c.password c.token c.at w

  abbrev pub login_run : List LoginCall → World I → ThrottleHistory × World I
  login_run [] w = ([], w)
  login_run (c ∷ cs) w =
      let (h, w') = login_run cs w in let (reply, w'') = login_call c w' in (note c reply h, w'')

  module _ (c : LoginCall) (w : World I) (required : w.auth.required ≡ true) where
    failures-login_call :
        (login_call c w).1.auth.failures
        ≡ (throttle_run (note c (login_call c w).0 []) w.auth).failures
    unfolding login judge grant create_session
    failures-login_call = ground (arith, required)

    required-login_call : (login_call c w).1.auth.required ≡ true
    unfolding login judge grant create_session throttled record_failure
    required-login_call = ground (arith, required)

    calm-login_call : (login_call c w).0.status ≡ 401 → (throttled c.ip c.at w.auth).0 ≡ false
    unfolding login judge grant
    calm-login_call h = ground (arith, required, h)

  module _ (w : World I) (required : w.auth.required ≡ true) where
    required-login_run : (cs : List LoginCall) → (login_run cs w).1.auth.required ≡ true
    required-login_run [] = required
    required-login_run (c ∷ cs) = required-login_call c (login_run cs w).1 (required-login_run cs)

    failures-login_run :
        (cs : List LoginCall)
        → (login_run cs w).1.auth.failures ≡ (throttle_run (login_run cs w).0 w.auth).failures
    failures-login_run [] = refl
    failures-login_run (c ∷ cs) =
        let (h, w') = login_run cs w in
        let reply = (login_call c w').0 in
        failures-login_call c w' (required-login_run cs)
        ∙ failures-note c reply w'.auth (throttle_run h w.auth) (failures-login_run cs)
        ∙ sym (ap (λ (a : Auth). a.failures) (run-note c reply h w.auth))

    past-login_run :
        (now : ℕ) (cs : List LoginCall)
        → All (λ (c : LoginCall). c.at ≤ now) cs
        → NotAfter now (login_run cs w).0
    past-login_run now [] past = tt
    past-login_run now (c ∷ cs) (le, past) =
        let h = past-login_run now cs past in ground (arith, h, le)

    -- Where a login is required, and in any sequence of logins that run one after the other in the
    -- order of their times, whatever the addresses and the passwords, an address has been told at
    -- most ten times in the last 60 seconds that its password is wrong. The sequence starts with
    -- no failure on record.
    pub login_run_lem :
        (cs : List LoginCall) (now : ℕ) (ip : IpAddr)
        → w.auth.failures ≡ []
        → IsOrdered cs
        → All (λ (c : LoginCall). c.at ≤ now) cs
        → length (recent_failures now ip (login_run cs w).0) ≤ login_max_failures
    login_run_lem [] now ip empty ordered past = omega arith
    login_run_lem (c ∷ cs) now ip empty (sorted, ordered) (le, past) =
        let (h, w') = login_run cs w in
        let same =
          throttled-failures c.ip c.at w'.auth (throttle_run h w.auth) (failures-login_run cs)
          ∙ throttled_history c.at c.ip h w.auth empty (past-login_run c.at cs sorted) in
        length-note c (login_call c w').0 h now ip le
          (λ wrong. ground (arith, same, calm-login_call c w' (required-login_run cs) wrong))
          (login_run_lem cs now ip empty ordered past)
