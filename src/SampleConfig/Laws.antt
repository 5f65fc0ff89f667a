-- ===== src/SampleConfig/Laws.antt =====
-- Which interface the sample configuration binds.
use netix_republisher.Prelude.{
  All, Bool-cases, List, Option, String, [], ap, arith, false, inl, inr, nat_eq, none, refl, some,
  string_eq, true, unwrap_or, ◌++◌, ◌∙◌, ◌∷◌, ◌≡◌, ◌⊎◌,
}
use netix_republisher.Api.Reads.{Interface}
use netix_republisher.Config.{Addressing, AppConfig, MqttConfig}
use netix_republisher.Json.{Json, str}
use netix_republisher.SampleConfig.{
  find_bridge, fixed_connection, is_bridge, preferred_interface, sample_config, sample_connection,
}
use netix_republisher.Dict.{insert, lookup, lookup-insert}

-- None of the interfaces is a bridge.
abbrev pub NoBridge : List Interface → Type 0
NoBridge interfaces = All (λ i. is_bridge i ≡ false) interfaces

-- The field for the interfaces of a machine: none where there is no interface, the address of the
-- first bridge where there is one, and of the first interface otherwise.
abbrev pub IsChosen : List Interface → Option Json → Type 0
IsChosen interfaces chosen =
    ((interfaces ≡ []) × (chosen ≡ none))
    ⊎ ((before : List Interface) × (bridge : Interface) × (after : List Interface) × (interfaces
          ≡ before ++ bridge ∷ after)
        × NoBridge before
        × (is_bridge bridge ≡ true)
        × (chosen ≡ some (str bridge.1)))
    ⊎ ((first : Interface) × (rest : List Interface) × (interfaces ≡ first ∷ rest)
        × NoBridge (first ∷ rest)
        × (chosen ≡ some (str first.1)))

-- The first bridge, with what stands around it, or none.
Found : List Interface → Type 0
Found interfaces =
    ((before : List Interface) × (bridge : Interface) × (after : List Interface) × (interfaces
        ≡ before ++ bridge ∷ after)
      × NoBridge before
      × (is_bridge bridge ≡ true)
      × (find_bridge interfaces ≡ some bridge))
    ⊎ (NoBridge interfaces × (find_bridge interfaces ≡ none))

find_bridge-Found : (interfaces : List Interface) → Found interfaces
unfolding Found find_bridge
find_bridge-Found [] = inr (tt, refl)
find_bridge-Found (i ∷ interfaces) = elim (Bool-cases (is_bridge i)) [
  | inl yes_bridge ↦ inl ([], i, interfaces, refl, tt, yes_bridge, ground (arith, yes_bridge))
  | inr plain ↦ elim (find_bridge-Found interfaces) [
    | inl (before, bridge, after, shape, none_before, h, found) ↦ inl (
      i ∷ before,
      bridge,
      after,
      ap (◌∷◌ i) shape,
      (plain, none_before),
      h,
      ground (arith, plain, found),
    )
    | inr (no_bridge, lost) ↦ inr ((plain, no_bridge), ground (arith, plain, lost))
  ]
]

lookup-interface :
    (interfaces : List Interface) (name addr : String)
    → preferred_interface interfaces ≡ some (name, addr)
    → lookup "interface" (sample_connection interfaces) ≡ some (str addr)
unfolding sample_connection
lookup-interface interfaces name addr h =
    let next : Option Interface → Addressing = λ o. elim o [
      | none ↦ fixed_connection
      | some (n, a) ↦ insert "interface" (str a) fixed_connection
    ] in
    ap (λ o. lookup "interface" (next o)) h
    ∙ lookup-insert "interface" "interface" (str addr) fixed_connection

sample_connection-IsChosen :
    (interfaces : List Interface)
    → IsChosen interfaces (lookup "interface" (sample_connection interfaces))
unfolding preferred_interface sample_connection lookup insert Found
sample_connection-IsChosen [] = inl (refl, refl)
sample_connection-IsChosen (first ∷ rest) = elim (find_bridge-Found (first ∷ rest)) [
  | inl (before, (name, addr), after, shape, none_before, h, found) ↦ inr (
      inl (
        before,
        (name, addr),
        after,
        shape,
        none_before,
        h,
        lookup-interface (first ∷ rest) name addr (ap (λ o. some (unwrap_or o first)) found),
      ))
  | inr (no_bridge, lost) ↦ inr (
      inr (
        first,
        rest,
        refl,
        no_bridge,
        lookup-interface (first ∷ rest) first.0 first.1 (ap (λ o. some (unwrap_or o first)) lost),
      ))
]

-- Whatever the defaults, the sample configuration has a BACnet connection; its field `interface` is
-- the address of the machine's first bridge, of its first interface where it has no bridge, and
-- absent where it has no interface.
pub sample_config-IsChosen :
    (default_config : AppConfig) (default_mqtt : MqttConfig) (interfaces : List Interface)
    → let connections = (sample_config default_config default_mqtt interfaces).connections in
      (connection : Addressing) × (lookup "bacnet" connections ≡ some connection)
      × IsChosen interfaces (lookup "interface" connection)
unfolding sample_config
sample_config-IsChosen default_config default_mqtt interfaces = (
  sample_connection interfaces,
  lookup-insert "bacnet" "bacnet" (sample_connection interfaces) default_config.connections,
  sample_connection-IsChosen interfaces,
)
