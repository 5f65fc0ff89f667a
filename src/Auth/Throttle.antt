-- ===== src/Auth/Throttle.antt =====
-- The throttle of src/web/auth.rs against the history of calls.
use netix_republisher.Prelude.{
  All, Bool, List, Option, Option-cases, [], and_then, arith, if◌then◌else◌, inl, inr, keep, leb,
  length, nat_eq, none, refl, some, string_eq, unwrap_or, ℕ, ◌++◌, ◌==◌, ◌∷◌, ◌≡◌, ◌≤◌,
}
use netix_republisher.Dict.{
  IsMap, insert, insert-IsMap, lookup, lookup-insert, lookup-retain_mut, retain_mut-IsMap,
}
use netix_republisher.Auth.{
  Auth, IpAddr, ip_beq_iff, ip_eq, login_max_failures, prune, record_failure, throttled, within,
}

pub data ThrottleCall : Type 0 where
  fails asks : IpAddr → ThrottleCall

-- Calls with their times, the latest first.
abbrev pub ThrottleHistory : Type 0
ThrottleHistory = List (ℕ × ThrottleCall)

abbrev pub throttle_step : ℕ × ThrottleCall → Auth → Auth
throttle_step (at, fails ip) auth = record_failure ip at auth
throttle_step (at, asks ip) auth = (throttled ip at auth).1

abbrev pub throttle_run : ThrottleHistory → Auth → Auth
throttle_run [] auth = auth
throttle_run (c ∷ h) auth = throttle_step c (throttle_run h auth)

-- The times at which an address failed, the earliest first.
abbrev pub failures_of : IpAddr → ThrottleHistory → List ℕ
failures_of ip [] = []
failures_of ip ((at, fails i) ∷ h) =
    if i == ip then failures_of ip h ++ at ∷ [] else failures_of ip h
failures_of ip ((at, asks i) ∷ h) = failures_of ip h

-- Those in the window that ends at `now`.
abbrev pub recent_failures : ℕ → IpAddr → ThrottleHistory → List ℕ
recent_failures now ip h = keep (within now) (failures_of ip h)

abbrev pub NotAfter : ℕ → ThrottleHistory → Type 0
NotAfter now h = All (λ (c : ℕ × ThrottleCall). c.0 ≤ now) h

abbrev attempts_of : IpAddr → Auth → List ℕ
attempts_of ip auth = unwrap_or (lookup ip auth.failures) []

record Agrees (now : ℕ) (h : ThrottleHistory) (auth : Auth) : Type 0 where
  is_map : IsMap auth.failures
  same :
      (ip : IpAddr) (later : ℕ)
      → now ≤ later
      → keep (within later) (attempts_of ip auth) ≡ recent_failures later ip h

-- What a later window holds, an earlier one held.
keep-within :
    (at later : ℕ) (xs : List ℕ)
    → at ≤ later
    → keep (within later) (keep (within at) xs) ≡ keep (within later) xs
keep-within at later [] le = refl
keep-within at later (x ∷ xs) le = ground (arith, keep-within at later xs le)

pub keep-append : (p : ℕ → Bool) (xs ys : List ℕ) → keep p (xs ++ ys) ≡ keep p xs ++ keep p ys
keep-append p [] ys = refl
keep-append p (x ∷ xs) ys = ground (arith, keep-append p xs ys)

-- Pruning an entry loses nothing of a later window.
keep-prune :
    (at later : ℕ) (o : Option (List ℕ))
    → at ≤ later
    → keep (within later) (unwrap_or (and_then o (prune at)) [])
      ≡ keep (within later) (unwrap_or o [])
keep-prune at later none le = refl
keep-prune at later (some xs) le = ground (arith, keep-within at later xs le)

module _ (at now : ℕ) (past : at ≤ now) (ip : IpAddr) (h : ThrottleHistory) (auth : Auth)
    (a : Agrees now h auth) where
  -- The entry of an address after an insertion.
  keep-inserted :
      (entry : List ℕ) (i : IpAddr) (later : ℕ)
      → keep (within later) (unwrap_or (lookup i (insert ip entry auth.failures)) [])
        ≡ (if ip == i then keep (within later) entry else keep (within later) (attempts_of i auth))
  keep-inserted entry i later = ground (arith, lookup-insert ip i entry auth.failures)

  fails-Agrees : Agrees now ((at, fails ip) ∷ h) (record_failure ip at auth)
  unfolding record_failure
  fails-Agrees =
      let entry = attempts_of ip auth ++ at ∷ [] in
      let grown = insert ip entry auth.failures in
      let is_map = insert-IsMap ip entry auth.failures a.is_map in
      record {
        is_map = retain_mut-IsMap (prune at) grown is_map;
        same = λ i later le. rw (lookup-retain_mut (prune at) i grown is_map) (
            rw (keep-prune at later (lookup i grown) (omega arith)) (
              rw (keep-inserted entry i later) (
                ground (
                  arith,
                  keep-append (within later) (attempts_of ip auth) (at ∷ []),
                  keep-append (within later) (failures_of i h) (at ∷ []),
                  ip_beq_iff ip i,
                  a.same i later le,
                ))));
      }

  asks-Agrees : Agrees now ((at, asks ip) ∷ h) (throttled ip at auth).1
  unfolding throttled
  asks-Agrees = elim (Option-cases (lookup ip auth.failures)) [
    | inl e ↦ rw (e, throttled) (record { is_map = a.is_map; same = a.same })
    | inr (attempts, e) ↦
        let recent = keep (within at) attempts in
        rw (e, throttled)
          (record {
            is_map = insert-IsMap ip recent auth.failures a.is_map;
            same = λ i later le. rw (keep-inserted recent i later) (
                ground
                  (arith, e, ip_beq_iff ip i, keep-within at later attempts, a.same i later le));
          })
  ]

throttle_step-Agrees :
    (now : ℕ) (c : ℕ × ThrottleCall) (h : ThrottleHistory) (auth : Auth)
    → c.0 ≤ now
    → Agrees now h auth
    → Agrees now (c ∷ h) (throttle_step c auth)
throttle_step-Agrees now (at, fails ip) h auth le a = fails-Agrees at now le ip h auth a
throttle_step-Agrees now (at, asks ip) h auth le a = asks-Agrees at now le ip h auth a

throttle_run-Agrees :
    (now : ℕ) (h : ThrottleHistory) (auth : Auth)
    → auth.failures ≡ []
    → NotAfter now h
    → Agrees now h (throttle_run h auth)
throttle_run-Agrees now [] auth empty past = record {
  is_map = rw empty tt;
  same = λ ip later le. unfold lookup in rw empty;
}
throttle_run-Agrees now (c ∷ h) auth empty (le, past) =
    throttle_step-Agrees now c h (throttle_run h auth) le
      (throttle_run-Agrees now h auth empty past)

-- After any calls that start from an empty table, and none of which is later than `now`, an
-- address is throttled at `now` exactly if it failed ten times or more in the last 60 seconds.
-- Other addresses, and the questions asked, make no difference.
pub throttled_history :
    (now : ℕ) (ip : IpAddr) (h : ThrottleHistory) (auth : Auth)
    → auth.failures ≡ []
    → NotAfter now h
    → (throttled ip now (throttle_run h auth)).0
      ≡ leb login_max_failures (length (recent_failures now ip h))
unfolding throttled
throttled_history now ip h auth empty past =
    ground (arith, (throttle_run-Agrees now h auth empty past).same ip now)
