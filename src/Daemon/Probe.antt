-- ===== src/Daemon/Probe.antt =====
-- When the health probe of the daemon finds it well.
use Prim.Native.String.{char_at}
use netix_republisher.Prelude.{
  Bool-cases, Char, List, Option, Option-cases, String, [], ap, arith, code, if◌then◌else◌, inl,
  inr, is_some, none, refl, some, subst, sym, true, unwrap_or, ℕ, ◌↔◌, ◌∙◌, ◌∷◌, ◌≡◌, ◌≤◌, ◌⊎◌,
}
use netix_republisher.Auth.Startup.{Environment}
use netix_republisher.Daemon.{
  ExitCode, Loopback, failure, healthcheck, is_healthy, last_part, max_u16, probe_open, probe_port,
  probe_request, success,
}
use netix_republisher.Text.{decimal, onto_first, parse_unsigned, split, strip_prefix, ◌<>◌}
use netix_republisher.Text.Parts.{Lacks, split-Lacks, split-append}
use netix_republisher.Text.Prefix.{strip_prefix_iff}
use text.Mathlib.TextLemmas.{nil-append, cons-append}
use netix_republisher.Text.Decimal.{decimal-Lacks, parse_unsigned-decimal}

-- Two parts or more, of which this is the last.
EndsIn : String → List String → Type 0
EndsIn t [] = ⊥
EndsIn t (p ∷ []) = ⊥
EndsIn t (p ∷ q ∷ parts) = last_part (q ∷ parts) ≡ t

onto_first-EndsIn :
    (c : Char) (t : String) (parts : List String) → EndsIn t parts → EndsIn t (onto_first c parts)
unfolding EndsIn
onto_first-EndsIn c t [] h = h
onto_first-EndsIn c t (p ∷ []) h = h
onto_first-EndsIn c t (p ∷ q ∷ parts) h = h

empty-EndsIn : (t : String) (parts : List String) → EndsIn t parts → EndsIn t ("" ∷ parts)
unfolding EndsIn last_part
empty-EndsIn t [] h = absurd h
empty-EndsIn t (p ∷ []) h = absurd h
empty-EndsIn t (p ∷ q ∷ parts) h = h

split-EndsIn :
    (sep : ℕ) (c : Char) (s t : String)
    → Lacks sep t
    → code c ≡ sep
    → EndsIn t (split sep (s <> String.◌∷◌ c t))
unfolding split EndsIn last_part
split-EndsIn sep c String.[] t h e =
    subst (EndsIn t) (sym (split-append sep c "" t tt e ∙ ap (◌∷◌ "") (split-Lacks sep t h))) refl
split-EndsIn sep c (String.◌∷◌ d s) t h e =
    let rest = split-EndsIn sep c s t h e in
    rw cons-append (
      ground (
        arith,
        onto_first-EndsIn d t (split sep (s <> String.◌∷◌ c t)) rest,
        empty-EndsIn t (split sep (s <> String.◌∷◌ c t)) rest,
      ))

last_part-EndsIn : (t : String) (parts : List String) → EndsIn t parts → last_part parts ≡ t
unfolding EndsIn last_part
last_part-EndsIn t [] h = absurd h
last_part-EndsIn t (p ∷ []) h = absurd h
last_part-EndsIn t (p ∷ q ∷ parts) h = h

abbrev colon : Char
colon = char_at ":" 0

-- The port of an address that ends in a colon and a number.
probe_port-decimal :
    (env : Environment) (host : String) (port : ℕ)
    → port ≤ max_u16
    → env "REPUBLISHER_BIND" ≡ some (host <> ":" <> decimal port)
    → probe_port env ≡ some port
unfolding probe_port
probe_port-decimal env host port small bound =
    let digits = decimal port in
    let shape : ":" <> digits ≡ String.◌∷◌ colon digits =
      cons-append colon "" digits ∙ ap (String.◌∷◌ colon) (nil-append digits) in
    let last =
      ap last_part (ap (λ s. split b':' (host <> s)) shape)
      ∙ last_part-EndsIn digits _
          (split-EndsIn b':' colon host digits (decimal-Lacks port b':' (omega arith)) refl) in
    ap (λ o. parse_unsigned max_u16 (last_part (split b':' (unwrap_or o "0.0.0.0:8080")))) bound
    ∙ ap (parse_unsigned max_u16) last
    ∙ parse_unsigned-decimal max_u16 port small

-- A response with status 200, in either version of the protocol.
abbrev pub IsOk : String → Type 0
IsOk response =
    (rest : String) × ((response ≡ "HTTP/1.0 200" <> rest) ⊎ (response ≡ "HTTP/1.1 200" <> rest))

is_healthy_iff : (response : String) → (is_healthy response ≡ true) ↔ IsOk response
unfolding is_healthy
is_healthy_iff response =
    let one = strip_prefix_iff "HTTP/1.0 200" response in
    let two = strip_prefix_iff "HTTP/1.1 200" response in
    (
      λ h. elim (Option-cases (strip_prefix "HTTP/1.0 200" response)) [
        | inl lost ↦ elim (Option-cases (strip_prefix "HTTP/1.1 200" response)) [
          | inl missing ↦ ground (arith, h, lost, missing)
          | inr (rest, e) ↦ (rest, inr ((two rest).0 e))
        ]
        | inr (rest, e) ↦ (rest, inl ((one rest).0 e))
      ],
      λ (rest, h). elim h [
        | inl e ↦ ground (arith, (one rest).1 e)
        | inr e ↦ ground (arith, (two rest).1 e)
      ],
    )

probe_open_iff :
    (env : Environment) (loopback : Loopback) (port : ℕ)
    → (probe_open env loopback port ≡ success) ↔ (
        (is_some (env "REPUBLISHER_TLS_CERT") ≡ true)
        ⊎ ((response : String) × (loopback.exchange port probe_request ≡ some response)
            × IsOk response))
unfolding probe_open
probe_open_iff env loopback port = elim (Option-cases (loopback.exchange port probe_request)) [
  | inl silent ↦ (
    λ h. inl (ground (arith, h, silent)),
    λ h. elim h [
      | inl tls ↦ ground (arith, tls)
      | inr (response, told, well) ↦ ground (arith, silent, told)
    ],
  )
  | inr (response, told) ↦ (
    λ h. elim (Bool-cases (is_some (env "REPUBLISHER_TLS_CERT"))) [
      | inl tls ↦ inl tls
      | inr plain ↦
          inr (response, told, (is_healthy_iff response).0 (ground (arith, h, plain, told)))
    ],
    λ h. elim h [
      | inl tls ↦ ground (arith, tls)
      | inr (r, told', well) ↦ ground (arith, told', (is_healthy_iff r).1 well)
    ],
  )
]

module _ (env : Environment) (loopback : Loopback) (host : String) (port : ℕ) where
  -- Where the environment names a host, whatever it is, and a port in decimal, the probe finds the
  -- daemon well exactly if the port takes a connection on the loopback interface and, unless TLS is
  -- configured, answers the probe's request with status 200.
  pub healthcheck_iff :
      port ≤ max_u16
      → env "REPUBLISHER_BIND" ≡ some (host <> ":" <> decimal port)
      → (healthcheck env loopback ≡ success) ↔ (
          (loopback.connects port ≡ true)
          × ((is_some (env "REPUBLISHER_TLS_CERT") ≡ true)
              ⊎ ((response : String) × (loopback.exchange port probe_request ≡ some response)
                  × IsOk response)))
  unfolding healthcheck
  healthcheck_iff small bound =
      let next : Option ℕ → ExitCode = λ o. elim o [
        | none ↦ failure
        | some p ↦ if loopback.connects p then probe_open env loopback p else failure
      ] in
      let runs : healthcheck env loopback ≡ next (some port) =
        ap next (probe_port-decimal env host port small bound) in
      let opened = probe_open_iff env loopback port in
      (
        λ h. (ground (arith, h, runs), opened.0 (ground (arith, h, runs))),
        λ (up, h). ground (arith, runs, up, opened.1 h),
      )
