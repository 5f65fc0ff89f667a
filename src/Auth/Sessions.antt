-- ===== src/Auth/Sessions.antt =====
-- Sessions of src/web/auth.rs against the history of calls. Every call comes with the reading of
-- the clock that it takes.
use netix_republisher.Prelude.{
  All, Bool, List, Option, String, [], and_then, arith, eq_iff, false, if◌then◌else◌, ltb, nat_eq,
  none, refl, some, string_eq, ℕ, ◌+◌, ◌==◌, ◌∷◌, ◌≡◌, ◌≤◌,
}
use netix_republisher.Dict.{
  IsMap, insert-IsMap, lookup, lookup-insert, lookup-remove, lookup-retain_mut, remove-IsMap,
  retain_mut, retain_mut-IsMap,
}
use netix_republisher.Auth.{Auth, check_session, create_session, ip_eq, remove_session, session_ttl}

pub data SessionCall : Type 0 where
  create check remove_token : String → SessionCall

-- Calls with their times, the latest first.
abbrev pub SessionHistory : Type 0
SessionHistory = List (ℕ × SessionCall)

abbrev pub session_step : ℕ × SessionCall → Auth → Auth
session_step (at, create token) auth = create_session token at auth
session_step (at, check token) auth = (check_session token at auth).1
session_step (at, remove_token token) auth = remove_session token auth

abbrev pub session_run : SessionHistory → Auth → Auth
session_run [] auth = auth
session_run (c ∷ h) auth = session_step c (session_run h auth)

-- What the history promises: a token is granted by its last creation, for a day, unless it was
-- removed after that.
abbrev pub granted_until : String → SessionHistory → Option ℕ
granted_until token [] = none
granted_until token ((at, create k) ∷ h) =
    if k == token then some (at + session_ttl) else granted_until token h
granted_until token ((at, check k) ∷ h) = granted_until token h
granted_until token ((at, remove_token k) ∷ h) = if k == token then none else granted_until token h

abbrev pub is_live : ℕ → Option ℕ → Bool
is_live now none = false
is_live now (some expiry) = ltb now expiry

abbrev pub NotAfter : ℕ → SessionHistory → Type 0
NotAfter now h = All (λ (c : ℕ × SessionCall). c.0 ≤ now) h

-- The table and the history agree on every token, from now on.
record Agrees (now : ℕ) (h : SessionHistory) (auth : Auth) : Type 0 where
  is_map : IsMap auth.sessions
  same :
      (token : String) (later : ℕ)
      → now ≤ later
      → is_live later (lookup token auth.sessions) ≡ is_live later (granted_until token h)

abbrev unexpired : ℕ → ℕ → Option ℕ
unexpired now expiry = if ltb now expiry then some expiry else none

is_live-unexpired :
    (at later : ℕ) (o : Option ℕ)
    → at ≤ later
    → is_live later (and_then o (unexpired at)) ≡ is_live later o
is_live-unexpired at later none h = refl
is_live-unexpired at later (some e) h = ground arith

module _ (at now : ℕ) (past : at ≤ now) (token : String) (h : SessionHistory) (auth : Auth)
    (a : Agrees now h auth) where
  create-Agrees : Agrees now ((at, create token) ∷ h) (create_session token at auth)
  unfolding create_session
  create-Agrees = record {
    is_map =
        insert-IsMap token (at + session_ttl) (retain_mut (unexpired at) auth.sessions)
          (retain_mut-IsMap (unexpired at) auth.sessions a.is_map);
    same = λ k later le. ground (
      arith,
      lookup-insert token k (at + session_ttl) (retain_mut (unexpired at) auth.sessions),
      lookup-retain_mut (unexpired at) k auth.sessions a.is_map,
      is_live-unexpired at later (lookup k auth.sessions),
      a.same k later le,
    );
  }

  check-Agrees : Agrees now ((at, check token) ∷ h) (check_session token at auth).1
  unfolding check_session
  check-Agrees = record {
    is_map = ground (arith, remove-IsMap token auth.sessions a.is_map);
    same = λ k later le.
        ground (arith, a.same k later le, lookup-remove token k auth.sessions, eq_iff token k);
  }

  remove-Agrees : Agrees now ((at, remove_token token) ∷ h) (remove_session token auth)
  unfolding remove_session
  remove-Agrees = record {
    is_map = remove-IsMap token auth.sessions a.is_map;
    same = λ k later le. ground (arith, a.same k later le, lookup-remove token k auth.sessions);
  }

session_step-Agrees :
    (now : ℕ) (c : ℕ × SessionCall) (h : SessionHistory) (auth : Auth)
    → c.0 ≤ now
    → Agrees now h auth
    → Agrees now (c ∷ h) (session_step c auth)
session_step-Agrees now (at, create token) h auth le a = create-Agrees at now le token h auth a
session_step-Agrees now (at, check token) h auth le a = check-Agrees at now le token h auth a
session_step-Agrees now (at, remove_token token) h auth le a =
    remove-Agrees at now le token h auth a

session_run-Agrees :
    (now : ℕ) (h : SessionHistory) (auth : Auth)
    → auth.sessions ≡ []
    → NotAfter now h
    → Agrees now h (session_run h auth)
session_run-Agrees now [] auth empty past = record {
  is_map = rw empty tt;
  same = λ token later le. unfold lookup in rw empty;
}
session_run-Agrees now (c ∷ h) auth empty (le, past) =
    session_step-Agrees now c h (session_run h auth) le (session_run-Agrees now h auth empty past)

-- After any calls that start from an empty table, and none of which is later than `now`, a check
-- at `now` accepts a token exactly if its last creation is less than a day old and it was not
-- removed after that.
pub check_session_history :
    (now : ℕ) (token : String) (h : SessionHistory) (auth : Auth)
    → auth.sessions ≡ []
    → NotAfter now h
    → (check_session token now (session_run h auth)).0 ≡ is_live now (granted_until token h)
unfolding check_session
check_session_history now token h auth empty past =
    ground (arith, (session_run-Agrees now h auth empty past).same token now)
