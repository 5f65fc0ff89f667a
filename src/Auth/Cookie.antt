-- ===== src/Auth/Cookie.antt =====
-- The session cookie of src/web/auth.rs: what is set comes back as what is read.
use Prim.Native.String.{char_at}
use text.Mathlib.TextLemmas.{nil-append, cons-append, append_assoc as text_append_assoc}
use netix_republisher.Prelude.{
  All, All-append, Char, List, String, [], ap, arith, if◌then◌else◌, map, none, refl, some, ◌++◌,
  ◌∙◌, ◌∷◌, ◌≡◌,
}
use netix_republisher.Text.{
  is_whitespace, join, split, split_once, trim, trim_end, trim_start, ◌<>◌,
}
use netix_republisher.Auth.{
  Auth, find_session, session_cookie, session_cookie_name, session_from_cookie_header, session_pair,
}
use netix_republisher.Text.Parts.{
  IsSolid, IsSolid-append, Lacks, Lacks-append, split-Lacks, split-append, split_once-append,
  trim-IsSolid,
}

abbrev pub first_part : List String → String
first_part [] = ""
first_part (p ∷ ps) = p

-- What a browser keeps of a `Set-Cookie` value: the part before the first semicolon.
pub cookie_pair : String → String
cookie_pair set_cookie = first_part (split b';' set_cookie)

-- The `Cookie` header of a browser with these pairs.
pub cookie_header : List String → String
cookie_header pairs = join "; " pairs

session_text : String → String
session_text token = session_cookie_name <> "=" <> token

session_text-Lacks : (token : String) → Lacks b';' token → Lacks b';' (session_text token)
unfolding session_text
session_text-Lacks token h =
    Lacks-append b';' session_cookie_name ("=" <> token) (ground arith)
      (Lacks-append b';' "=" token (ground arith) h)

session_text-IsSolid : (token : String) → IsSolid token → IsSolid (session_text token)
unfolding session_text is_whitespace
session_text-IsSolid token h =
    IsSolid-append session_cookie_name ("=" <> token) (ground arith)
      (IsSolid-append "=" token (ground arith) h)

abbrev semicolon : Char
semicolon = char_at ";" 0

cookie_pair-session_cookie :
    (auth : Auth) (token : String)
    → Lacks b';' token
    → cookie_pair (session_cookie auth token) ≡ session_text token
unfolding cookie_pair session_cookie session_text
cookie_pair-session_cookie auth token h =
    let suffix : String = if auth.cookie_secure then "; Secure" else "" in
    let rest = " Path=/; HttpOnly; SameSite=Strict" <> suffix in
    let attributes : "; Path=/; HttpOnly; SameSite=Strict" <> suffix ≡ String.◌∷◌ semicolon rest =
      cons-append semicolon " Path=/; HttpOnly; SameSite=Strict" suffix in
    rw attributes (
      rw (← text_append_assoc "=" token) (
        rw (← text_append_assoc session_cookie_name ("=" <> token)) (
          rw (
            split-append b';' semicolon (session_text token) rest (session_text-Lacks token h)
              refl))))

abbrev equals_sign : Char
equals_sign = char_at "=" 0

split_once-session_text :
    (token : String) → split_once b'=' (session_text token) ≡ some (session_cookie_name, token)
unfolding session_text
split_once-session_text token =
    let sign : "=" <> token ≡ String.◌∷◌ equals_sign token =
      cons-append equals_sign "" token ∙ ap (String.◌∷◌ equals_sign) (nil-append token) in
    rw sign (split_once-append b'=' equals_sign session_cookie_name token (ground arith) refl)

session_pair-session_text :
    (token : String) → IsSolid token → session_pair (session_text token) ≡ some token
unfolding session_pair
session_pair-session_text token h =
    rw (session_pair, trim-IsSolid (session_text token) (session_text-IsSolid token h))
      (rw (split_once-session_text token) refl)

trim-blank : (p : String) → trim (" " <> p) ≡ trim p
unfolding trim trim_start
trim-blank p = rw (cons-append, nil-append) refl

-- A blank in front of a pair makes no difference.
session_pair-blank : (p : String) → session_pair (" " <> p) ≡ session_pair p
unfolding session_pair
session_pair-blank p = rw (session_pair, trim-blank p)

abbrev blank_before : String → String
blank_before p = " " <> p

-- The parts of a header behind the first one begin with a blank.
split-blank :
    (p : String) (ps : List String)
    → All (Lacks b';') (p ∷ ps)
    → split b';' (" " <> join "; " (p ∷ ps)) ≡ map blank_before (p ∷ ps)
unfolding join
split-blank p [] (h, _) = split-Lacks b';' (" " <> p) (Lacks-append b';' " " p (ground arith) h)
split-blank p (q ∷ ps) (h, hs) =
    let later = join "; " (q ∷ ps) in
    let cut : "; " <> later ≡ String.◌∷◌ semicolon (" " <> later) =
      cons-append semicolon " " later in
    rw cut (
      rw (← text_append_assoc " " p) (
        split-append b';' semicolon (" " <> p) (" " <> later)
          (Lacks-append b';' " " p (ground arith) h) refl
        ∙ ap (◌∷◌ (" " <> p)) (split-blank q ps hs)))

find_session-blank : (ps : List String) → find_session (map blank_before ps) ≡ find_session ps
unfolding find_session
find_session-blank [] = refl
find_session-blank (p ∷ ps) = rw (session_pair-blank p, find_session-blank ps)

split-header :
    (p : String) (ps : List String)
    → All (Lacks b';') (p ∷ ps)
    → split b';' (cookie_header (p ∷ ps)) ≡ p ∷ map blank_before ps
unfolding join cookie_header
split-header p [] (h, _) = split-Lacks b';' p h
split-header p (q ∷ ps) (h, hs) =
    let later = join "; " (q ∷ ps) in
    let cut : "; " <> later ≡ String.◌∷◌ semicolon (" " <> later) =
      cons-append semicolon " " later in
    rw cut (split-append b';' semicolon p (" " <> later) h refl ∙ ap (◌∷◌ p) (split-blank q ps hs))

find_session-append :
    (before after : List String) (token : String)
    → All (λ p. session_pair p ≡ none) before
    → IsSolid token
    → find_session (before ++ session_text token ∷ after) ≡ some token
unfolding find_session
find_session-append [] after token h solid = rw (session_pair-session_text token solid)
find_session-append (p ∷ ps) after token (miss, h) solid =
    rw miss (find_session-append ps after token h solid)

All-append_cons :
    (before after : List String) (p : String)
    → All (Lacks b';') before
    → Lacks b';' p
    → All (Lacks b';') after
    → All (Lacks b';') (before ++ p ∷ after)
All-append_cons before after p h k l = All-append (Lacks b';') before (p ∷ after) h (k, l)

find_session-header :
    (pairs : List String)
    → All (Lacks b';') pairs
    → find_session (split b';' (cookie_header pairs)) ≡ find_session pairs
unfolding find_session
find_session-header [] h =
    unfold cookie_header join split session_pair trim trim_start trim_end split_once in refl
find_session-header (p ∷ ps) h = rw (split-header p ps h, find_session-blank ps)

-- The token of a session cookie is read back from the header that a browser sends, among the
-- cookies of other names before it and any cookies after it.
pub cookie_round_trip :
    (auth : Auth) (token : String) (before after : List String)
    → Lacks b';' token
    → IsSolid token
    → All (Lacks b';') before
    → All (Lacks b';') after
    → All (λ p. session_pair p ≡ none) before
    → session_from_cookie_header
        (cookie_header (before ++ cookie_pair (session_cookie auth token) ∷ after))
      ≡ some token
unfolding session_from_cookie_header
cookie_round_trip auth token before after lacks solid h k miss =
    rw (cookie_pair-session_cookie auth token lacks) (
      rw
        (find_session-header (before ++ session_text token ∷ after)
          (All-append_cons before after (session_text token) h (session_text-Lacks token lacks) k))
        (find_session-append before after token miss solid))
