-- ===== src/Lib.antt =====
-- Viswall: models of the firewall simulator and of the host agents, with their proofs.
--
-- Parts and files.
--   Prelude      shared names, Boolean tests, dictionaries with text keys (Dict), the stable sort
--                of `list.sort(key=...)` and of `sorted` (Sort), classes of characters (Chars),
--                decoded JSON values (Json), parts of texts (Texts), texts without a newline (Lines).
--   Simulator    shared/firewall_simulator.py.
--     Packet     NetworkPacket, FirewallRule and `matches`, one helper for each group of checks.
--     Engine     FirewallSimulator; `simulate_packet` with its loop as `evaluate` and the loop's
--                body as `visit`; children Rules, Verdict and Nat.
--     Suite      TestCase, run_single_test and run_test_suite; child Deploy.
--     Multi      MultiFirewallSimulation: the search for a path, the hops, the tests across
--                firewalls; children Ends (the search ends), Path (what it returns) and Hops.
--     Cases      TestSuiteLibrary. Scenarios holds runs and instances.
--   Firewall     services/firewall-service/viswall_firewall_agent.
--     Qos        qos.py: `_normalize_classes`; children Valid and Commands (the arguments of tc).
--                Setup is TrafficControlManager: a tc call is a function from the earlier commands
--                and the arguments to an exit, the state is the list of commands that ran; children
--                Plan, Apply and Outcome.
--     Nft        nft.py. Rules: FirewallRule, NATRule and the validators. Convert: the line of a
--                rule and the targets of NAT; children Lines and Targets. Sections: which rules
--                have a section of their own, the meters and the user rules; children Order and
--                Meters. AntiSpoof, InputChain and NatChains: the parts of the rule set. Render:
--                `generate_ruleset`; child Chains. Blacklist: the elements of the blacklist sets.
--                The file itself: `apply_ruleset`, on the configuration file, its last good copy
--                and the live table; children Steps and Swap. The nft program is the record `Nft`,
--                and the steps that raise an OSError are the record `Faults`.
--     Routing    routing.py: the values of entries. Desired: `_desired`. Live: rows of `ip -j`.
--                Reconcile: what is deleted and added. Commands: the arguments of ip. Apply:
--                RoutingManager and `apply_routing`; children Delta, Due and Settles. Main: table main.
--                Single: the operations on one object and `setup_load_balancing`.
--     Deploy     api.py. Entries: a payload's rules as rules of the renderer. The file itself:
--                `deploy_firewall_config`, which composes Nft, Routing and Qos; child Answers.
--                Rollback: `_rollback_direct`; how its commands end is the record `Machine`;
--                child Ran.
--     Snapshots  snapshots.py: `snapshot_state`, whose pruning can raise; children Pruned
--                and Kept.
--   Gateway      services/api-gateway/utils/firewall_dispatch.py. Dispatch: rows and payloads. Rows
--                and Routes put the payloads into the agent's Entries and Routing.
--                Tunnels: the columns of a VPN tunnel that shared/schemas.py accepts, and the request
--                that the VPN agent reads; child Arrives.
--   Node         services/node-agent/viswall_node_agent: netcfg.py and the data of payloads.py.
--     Plan       `plan_changes`; children Steps and Matches (when a plan is empty) and Commands.
--     Guard      `guard_plan` and `check_wan_guardrails`; children Safe and Default.
--     Netplan    `render_netplan`. Apply holds the data of an apply and its live mode; its children
--                Try (the health probes and `apply_try_mode`) and Interfaces (`apply_interfaces`).
--     Snapshots  `_prune_snapshots`, whose removals ignore errors.
--   Dhcp         services/dhcp-service/dhcp_agent.py. Payloads: the payload of an apply. Render: the
--                documents of the two Kea servers; child Families. Apply: `apply_config`, on the two
--                files and the commands that ran; children Ran and Applied. Leases: `_parse_leases`,
--                `list_leases` and `release_lease`; children Splits and Released.
--   Vpn          services/vpn-service/viswall_vpn_agent/wg_client.py. Config: the validators and
--                `render_config`; child Lines. Service: WgClientManager with the file, its backup
--                and its unit; how its commands, copies and writes end is the record `Host`;
--                child Applied.
--   Dns          services/dns-service/viswall_dns_agent. Render: payloads.py and render.py.
--                Configs: `write_configs` of agent.py, where `Paths` tells how a write ends; child
--                Named.
--
-- Parameters. `ipaddress` is `net`, from an address and a network to whether the address lies in
-- it, or `none` for an exception. What the firewall agent takes from Python's texts, regular-
-- expression classes and `ipaddress` are the records `Python` of Routing and of Nft, and for the
-- VPN agent that of Vpn.Config. The tc program is `tc`, the ip program `run`; `prefix_of` is the
-- prefix length of a netmask that was validated. The DHCP agent's commands, json and ipaddress are
-- the record `Agent`, its texts and the csv module the record `Python` of Dhcp.Leases; the tools and
-- writes of a snapshot are the record `Host`. What the node agent reads from the host, and how
-- `netplan try` and the probes' commands end, are records.
--
-- Fuel. The search for a path takes one element off its queue in each round; its fuel is one more
-- than the number of neighbours that the topology lists, and Multi.Ends proves that it is enough.
-- The decimal text of a number has one more than the number as fuel, and takes one for each digit.
--
-- Left out. Clock readings and the conversions to JSON. Log lines and messages are data that show
-- what the f-strings show. Orders, ports, rates and identifiers are natural numbers.
--
-- Not modelled: the handlers of the gateway and its database (services/api-gateway,
-- shared/models.py, the rest of schemas.py), which are calls of SQLAlchemy and FastAPI; the mail
-- agents, the keys of the DNS agent, the status of the VPN agent and its former version; the HTTP
-- routes of the agents; the SDKs and the command line,
-- which wrap HTTP calls; migrations, scripts and deployment. Of the node agent: the reading of ip
-- and netplan files and the validators of the payloads.
-- Of the firewall agent: a start of the ip program that raises, which leaves `apply_routing`.
pub mod Node
pub mod Prelude
pub mod Simulator
pub mod Firewall
pub mod Dhcp
pub mod Dns
pub mod Vpn
pub mod Gateway
