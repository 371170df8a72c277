-- ===== src/Backends/Groups/Tunnels.antt =====
-- src/backends/shared/groups.ts, `mapS2sTunnels`.
use ftd_metrics_exporter.Prelude.{
  ◌+◌, ◌≡◌, refl, String, false, List, [], ◌∷◌, Option, none, some, length, All, arith,
}
use ftd_metrics_exporter.Prelude.Text.{is_empty}
use ftd_metrics_exporter.Prelude.Json.{Json, arr, obj, Fields, items}
use ftd_metrics_exporter.Backends.Fields.{read_required_string}
use ftd_metrics_exporter.Backends.Groups.{
  ParseError, GroupMapResult, S2sTunnelStats, parse_error, refused,
}

module _ (device_uid : String) where
  abbrev pub tunnel : Option String → Option String → Option String → Option S2sTunnelStats
  tunnel (some id) (some name) (some state) =
      some (record { tunnel_id = id; tunnel_name = name; tunnel_state = state })
  tunnel _ _ _ = none

  -- A tunnel, or the message of the error that skips it.
  unfoldable pub map_entry : Json → Option S2sTunnelStats × String
  map_entry (obj entry) = (
    tunnel (read_required_string entry "tunnelId") (read_required_string entry "tunnelName")
        (read_required_string entry "tunnelState"),
    "tunnel entry missing a required field",
  )
  map_entry _ = (none, "tunnel entry is not an object")

  unfoldable pub map_entries : List Json → List S2sTunnelStats × List ParseError
  map_entries [] = ([], [])
  map_entries (entry ∷ rest) =
      let (tunnels, errors) = map_entries rest in
      let (found, message) = map_entry entry in
      elim found [
        | none ↦ (tunnels, parse_error device_uid "s2sTunnels" message ∷ errors)
        | some t ↦ (t ∷ tunnels, errors)
      ]

  unfoldable pub map_s2s_tunnels : Option Json → GroupMapResult (List S2sTunnelStats)
  map_s2s_tunnels none = record { value = none; parse_errors = [] }
  map_s2s_tunnels (some (arr raw)) = record {
    value = some (map_entries (items raw)).0;
    parse_errors = (map_entries (items raw)).1;
  }
  map_s2s_tunnels (some _) =
      refused device_uid "s2sTunnels" "s2sVpnTunnelHealthMetrics is not an array"

-- The three labels of a tunnel are not empty.
abbrev pub IsNamed : S2sTunnelStats → Type 0
IsNamed t =
    (is_empty t.tunnel_id ≡ false)
    × (is_empty t.tunnel_name ≡ false)
    × (is_empty t.tunnel_state ≡ false)

abbrev IsPresent : Option String → Type 0
IsPresent none = Unit
IsPresent (some s) = is_empty s ≡ false

read_required_string-IsPresent :
    (fields : Fields) (key : String) → IsPresent (read_required_string fields key)
unfolding read_required_string
read_required_string-IsPresent fields key = ground arith

abbrev IsNamedEntry : Option S2sTunnelStats → Type 0
IsNamedEntry none = Unit
IsNamedEntry (some t) = IsNamed t

module _ (device_uid : String) where
  map_entry-IsNamed : (entry : Json) → IsNamedEntry (map_entry device_uid entry).0
  unfolding map_entry
  map_entry-IsNamed (obj e) = ground (
    arith,
    read_required_string-IsPresent e "tunnelId",
    read_required_string-IsPresent e "tunnelName",
    read_required_string-IsPresent e "tunnelState",
  )
  map_entry-IsNamed _ = tt

  -- Every entry of the array gives a tunnel or an error, not both, and every tunnel has an id, a name
  -- and a state that are not empty: no entry is lost without a diagnostic.
  pub map_entries-IsNamed :
      (raw : List Json)
      → All IsNamed (map_entries device_uid raw).0
        × (length (map_entries device_uid raw).0 + length (map_entries device_uid raw).1
            ≡ length raw)
  unfolding map_entries
  map_entries-IsNamed [] = (tt, refl)
  map_entries-IsNamed (r ∷ rs) = ground (arith, map_entries-IsNamed rs, map_entry-IsNamed r)
