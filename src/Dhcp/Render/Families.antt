-- ===== src/Dhcp/Render/Families.antt =====
-- services/dhcp-service/dhcp_agent.py: what the document of the DHCPv4 server depends on.
use viswall.Prelude.{
  Bool, true, false, ◌≡◌, refl, ap, ◌∙◌, List, [], ◌∷◌, String, map, if◌then◌else◌, select, truthy,
  Bool-cases, inl, inr,
}
use viswall.Prelude.Json.{Value}
use viswall.Dhcp.Payloads.{
  Subnet, ServerConfig, of_family, is_pool, is_reservation, is_option, is_subnet,
}
use viswall.Dhcp.Render.{
  build_option_data_v4, build_reservations_v4, pools_of, build_subnet4, with_interface,
  interface_names, ha_parameters, render_dhcp4_config,
}

select-select : {A : Type 0} (p : A → Bool) (xs : List A) → select p (select p xs) ≡ select p xs
select-select p [] = refl
select-select p (x ∷ xs) = elim (Bool-cases (p x)) [
  | inl e ↦ rw e (rw e (ap (λ ys. x ∷ ys) (select-select p xs)))
  | inr e ↦ rw e (select-select p xs)
]

-- A subnet without what is disabled or of the other family.
abbrev pub only_v4 : Subnet → Subnet
only_v4 s = record s {
  pools = select (is_pool "v4") pools;
  reservations = select (is_reservation "v4") reservations;
  options = select (is_option "v4") options;
}
  where
    open s use {pools, reservations, options}

abbrev is_v4 : Subnet → Bool
is_v4 s = of_family "v4" s.type

abbrev pub v4_part : ServerConfig → ServerConfig
v4_part c = record c { subnets = map only_v4 (select is_v4 subnets) }
  where
    open c use {subnets}

build_subnet4-only_v4 : (s : Subnet) → build_subnet4 (only_v4 s) ≡ build_subnet4 s
unfolding build_subnet4 build_option_data_v4 build_reservations_v4 pools_of
build_subnet4-only_v4 s =
    rw
      (
        select-select (is_pool "v4") s.pools,
        select-select (is_reservation "v4") s.reservations,
        select-select (is_option "v4") s.options,
      )
      refl

first_subnet :
    (b : Bool) (s t : Subnet) (xs ys : List Subnet)
    → build_subnet4 s ≡ build_subnet4 t
    → map build_subnet4 xs ≡ map build_subnet4 ys
    → map build_subnet4 (if b then s ∷ xs else xs) ≡ map build_subnet4 (if b then t ∷ ys else ys)
first_subnet true s t xs ys e h =
    ap (λ (v : Value). v ∷ map build_subnet4 xs) e
    ∙ ap (λ (vs : List Value). build_subnet4 t ∷ vs) h
first_subnet false s t xs ys e h = h

select_first :
    (s : Subnet) (ss : List Subnet) → is_v4 s ≡ true → select is_v4 (s ∷ ss) ≡ s ∷ select is_v4 ss
select_first s ss e = rw e refl

subnets-v4_part :
    (ss : List Subnet)
    → map build_subnet4 (select (is_subnet "v4") (map only_v4 (select is_v4 ss)))
      ≡ map build_subnet4 (select (is_subnet "v4") ss)
subnets-v4_part [] = refl
subnets-v4_part (s ∷ ss) = elim (Bool-cases (is_v4 s)) [
  | inl e ↦
      ap (λ (xs : List Subnet). map build_subnet4 (select (is_subnet "v4") (map only_v4 xs)))
        (select_first s ss e)
      ∙ first_subnet (is_subnet "v4" s) (only_v4 s) s
          (select (is_subnet "v4") (map only_v4 (select is_v4 ss))) (select (is_subnet "v4") ss)
          (build_subnet4-only_v4 s) (subnets-v4_part ss)
  | inr e ↦ elim (Bool-cases s.enabled) [
    | inl d ↦ rw (e, d) (subnets-v4_part ss)
    | inr d ↦ rw (e, d) (subnets-v4_part ss)
  ]
]

interface_names-v4_part :
    (ss : List Subnet)
    → interface_names "v4" (map only_v4 (select is_v4 ss)) ≡ interface_names "v4" ss
unfolding interface_names
interface_names-v4_part [] = refl
interface_names-v4_part (s ∷ ss) = elim (Bool-cases (is_v4 s)) [
  | inl e ↦ rw e (rw e (ap (with_interface (truthy s.interface)) (interface_names-v4_part ss)))
  | inr e ↦ rw e (interface_names-v4_part ss)
]

-- The document of the DHCPv4 server is the same without the subnets, pools, reservations and options of the other
-- family, and without the pools and reservations that are disabled.
pub render_dhcp4_config-v4_part :
    (leases : String) (c : ServerConfig)
    → render_dhcp4_config leases (v4_part c) ≡ render_dhcp4_config leases c
unfolding render_dhcp4_config ha_parameters
render_dhcp4_config-v4_part leases c =
    rw (interface_names-v4_part c.subnets, subnets-v4_part c.subnets) refl
