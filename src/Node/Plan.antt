-- ===== src/Node/Plan.antt =====
-- services/node-agent/viswall_node_agent/netcfg.py: `plan_changes`, one helper for each group of steps.
pub mod Steps
pub mod Matches
pub mod Commands
use Prim.Native.String.{compare}
use Prim.Native.Nat.{Ordering}
use viswall.Prelude.{
  ℕ, Bool, true, false, not, ◌&&◌, ◌||◌, Option, none, some, List, [], ◌∷◌, ◌++◌, map, String,
  if◌then◌else◌, ltb, ◌==◌, str_eq, truthy, truthy_num, opt_eq, opt_num_eq, mem_str, select, ◌⊎◌,
  inl, inr,
}
use viswall.Prelude.Dict.{Dict, get, put}
use viswall.Node.{
  LiveAddress, LiveInterface, InterfaceConfig, PrefixOf, prefixlen, PlannedStep, concat, decimal,
  decimal_or_none, address, stale_address, gateway, mtu, link, note,
}

-- The `ValueError`s of `plan_changes`, with the interface's name.
pub data PlanError : Type 0 where
  duplicate_names : PlanError
  unknown_interface no_netmask no_address : String → PlanError

abbrev pub Address : Type 0
Address = String × ℕ

abbrev pub same_address : Address → Address → Bool
same_address (a, p) (b, q) = str_eq a b && p == q

-- Python's order on pairs
abbrev address_before : Address → Address → Bool
address_before (a, p) (b, q) = elim (compare a b) [
  | Ordering.lt ↦ true
  | Ordering.eq ↦ ltb p q
  | Ordering.gt ↦ false
]

-- A set as its sorted list of elements.
abbrev pub add_address : Address → List Address → List Address
add_address a [] = a ∷ []
add_address a (x ∷ xs) =
    if same_address a x
    then x ∷ xs
    else if address_before a x
    then a ∷ x ∷ xs
    else x ∷ add_address a xs

abbrev pub mem_address : Address → List Address → Bool
mem_address a [] = false
mem_address a (x ∷ xs) = if same_address a x then true else mem_address a xs

-- `current_addrs`
unfoldable pub ipv4_addresses : List LiveAddress → List Address
ipv4_addresses [] = []
ipv4_addresses (a ∷ rest) =
    let known = ipv4_addresses rest in
    if str_eq a.family "inet" then add_address (a.address, a.prefixlen) known else known

abbrev pub is_static : InterfaceConfig → Bool
is_static cfg = str_eq cfg.config_type "static"

abbrev pub manage_address : InterfaceConfig → Bool
manage_address cfg = cfg.enabled && is_static cfg

unfoldable pub desired_address : PrefixOf → InterfaceConfig → PlanError ⊎ Option Address
desired_address prefix_of cfg =
    if manage_address cfg
    then elim (truthy cfg.ip_address) [
      | some ip ↦ elim (truthy_num (prefixlen prefix_of cfg)) [
        | none ↦ inl (no_netmask cfg.name)
        | some p ↦ inr (some (ip, p))
      ]
      | none ↦ elim (truthy cfg.gateway) [ none ↦ inr none | some g ↦ inl (no_address cfg.name) ]
    ]
    else inr none

abbrev pub cidr : Address → String
cidr (a, p) = concat (a ∷ "/" ∷ decimal p ∷ [])

abbrev pub set_step : String → Address → PlannedStep
set_step name a = record {
  interface = name;
  action = address;
  detail = concat ("set address " ∷ cidr a ∷ []);
  argv = "addr" ∷ "replace" ∷ cidr a ∷ "dev" ∷ name ∷ [];
}

abbrev pub stale_step : (name suffix : String) → Address → PlannedStep
stale_step name suffix a = record {
  interface = name;
  action = stale_address;
  detail = concat ("remove address " ∷ cidr a ∷ suffix ∷ []);
  argv = "addr" ∷ "del" ∷ cidr a ∷ "dev" ∷ name ∷ [];
}

unfoldable pub address_steps : InterfaceConfig → Option Address → List Address → List PlannedStep
address_steps cfg (some a) current =
    (if mem_address a current then [] else set_step cfg.name a ∷ [])
    ++ map (stale_step cfg.name "") (select (λ x. not (same_address a x)) current)
address_steps cfg none current =
    if is_static cfg && not cfg.enabled
    then map (stale_step cfg.name " (interface disabled)") current
    else []

unfoldable pub mtu_steps : InterfaceConfig → LiveInterface → List PlannedStep
mtu_steps cfg current = elim cfg.mtu [
  | none ↦ []
  | some n ↦
      if opt_num_eq current.mtu n
      then []
      else record {
        interface = cfg.name;
        action = mtu;
        detail =
            concat ("set mtu " ∷ decimal n ∷ " (current " ∷ decimal_or_none current.mtu ∷ ")" ∷ []);
        argv = "link" ∷ "set" ∷ "dev" ∷ cfg.name ∷ "mtu" ∷ decimal n ∷ [];
      }
        ∷ []
]

abbrev link_step : (name detail state : String) → PlannedStep
link_step name detail state = record {
  interface = name;
  action = link;
  detail = detail;
  argv = "link" ∷ "set" ∷ "dev" ∷ name ∷ state ∷ [];
}

unfoldable pub link_steps : InterfaceConfig → LiveInterface → List PlannedStep
link_steps cfg current =
    if cfg.enabled && not current.up
    then link_step cfg.name "bring interface up" "up" ∷ []
    else if not cfg.enabled && current.up
    then link_step cfg.name "bring interface down" "down" ∷ []
    else []

abbrev set_gateway : (name via : String) → PlannedStep
set_gateway name via = record {
  interface = name;
  action = gateway;
  detail = concat ("set default route via " ∷ via ∷ []);
  argv = "route" ∷ "replace" ∷ "default" ∷ "via" ∷ via ∷ "dev" ∷ name ∷ [];
}

abbrev remove_gateway : String → PlannedStep
remove_gateway name = record {
  interface = name;
  action = gateway;
  detail = "remove default route";
  argv = "route" ∷ "del" ∷ "default" ∷ [];
}

abbrev dhcp_note : String → PlannedStep
dhcp_note name = record {
  interface = name;
  action = note;
  detail = "dhcp4 enabled in netplan; takes effect at next boot or netplan apply";
  argv = [];
}

abbrev pub route_steps :
    (default_iface default_gw : Option String) (name : String) → Option String → List PlannedStep
route_steps default_iface default_gw name (some via) =
    if not (opt_eq default_iface name) || not (opt_eq default_gw via)
    then set_gateway name via ∷ []
    else []
route_steps default_iface default_gw name none =
    if opt_eq default_iface name then remove_gateway name ∷ [] else []

unfoldable pub gateway_steps :
    (default_iface default_gw : Option String) → InterfaceConfig → List PlannedStep
gateway_steps default_iface default_gw cfg =
    if manage_address cfg
    then route_steps default_iface default_gw cfg.name (truthy cfg.gateway)
    else []

unfoldable pub note_steps : InterfaceConfig → List PlannedStep
note_steps cfg =
    if str_eq cfg.config_type "dhcp" && cfg.enabled then dhcp_note cfg.name ∷ [] else []

-- The steps of one interface that exists, in the loop's order.
unfoldable pub steps_for :
    (default_iface default_gw : Option String)
    → InterfaceConfig
    → LiveInterface
    → Option Address
    → List PlannedStep
steps_for default_iface default_gw cfg current desired =
    address_steps cfg desired (ipv4_addresses current.addresses)
    ++ (mtu_steps cfg current
        ++ (link_steps cfg current
            ++ (gateway_steps default_iface default_gw cfg ++ note_steps cfg)))

-- `live_map`: of two interfaces with one name the last is kept.
unfoldable pub index_live : Dict LiveInterface → List LiveInterface → Dict LiveInterface
index_live known [] = known
index_live known (i ∷ live) = index_live (put known i.name i) live

abbrev pub has_duplicate : List String → Bool
has_duplicate [] = false
has_duplicate (n ∷ ns) = mem_str n ns || has_duplicate ns

module _ (prefix_of : PrefixOf) (live_map : Dict LiveInterface)
    (default_iface default_gw : Option String) where
  -- The body of the loop for one interface.
  unfoldable pub plan_interface : InterfaceConfig → PlanError ⊎ List PlannedStep
  plan_interface cfg = elim (get live_map cfg.name) [
    | none ↦ inl (unknown_interface cfg.name)
    | some current ↦ elim (desired_address prefix_of cfg) [
      | inl e ↦ inl e
      | inr desired ↦ inr (steps_for default_iface default_gw cfg current desired)
    ]
  ]

  abbrev pub and_then :
      PlanError ⊎ List PlannedStep → PlanError ⊎ List PlannedStep → PlanError ⊎ List PlannedStep
  and_then (inl e) rest = inl e
  and_then (inr steps) (inl e) = inl e
  and_then (inr steps) (inr more) = inr (steps ++ more)

  unfoldable pub plan_interfaces : List InterfaceConfig → PlanError ⊎ List PlannedStep
  plan_interfaces [] = inr []
  plan_interfaces (cfg ∷ rest) = and_then (plan_interface cfg) (plan_interfaces rest)

unfoldable pub plan_changes :
    PrefixOf
    → List LiveInterface
    → (default_iface default_gw : Option String) → List InterfaceConfig
    → PlanError ⊎ List PlannedStep
plan_changes prefix_of live default_iface default_gw desired =
    if has_duplicate (map (λ cfg. cfg.name) desired)
    then inl duplicate_names
    else plan_interfaces prefix_of (index_live [] live) default_iface default_gw desired
