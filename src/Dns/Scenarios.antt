-- ===== src/Dns/Scenarios.antt =====
-- A run of the name server's agent, and its theorem at it.
use viswall.Prelude.{true, false, ◌≡◌, refl, none, some, [], ◌∷◌, if◌then◌else◌, str_eq}
use viswall.Prelude.Texts.{concat}
use viswall.Dns.Render.{Zone, ServerConfig, Python, render_options_text, render_zone_block}
use viswall.Dns.Configs.{
  Files, Paths, whole, broken, bad_zone, not_written, zone_blocks, write_configs,
}
use viswall.Dns.Configs.Named.{Written, write_configs-Written}

abbrev python : Python
python = record { upper = λ s. s; is_version_6 = λ s. none }

abbrev paths : Paths
paths = record {
  zone_file = λ z. concat ("zones/" ∷ z.name ∷ ".db" ∷ []);
  signed_file = λ z. concat ("zones/" ∷ z.name ∷ ".signed" ∷ []);
  options_file = "named.conf.options";
  local_file = "named.conf.local";
  signature = λ text. "; signed\n";
  disk = λ f path. whole;
}

-- A slave zone without the address of its master.
abbrev orphan : Zone
orphan = record {
  id = 2;
  name = "example.net";
  zone_type = "slave";
  enabled = true;
  serial = 1;
  refresh = 2;
  retry = 3;
  expire = 4;
  minimum_ttl = 5;
  master_server_address = none;
  transfer_tsig_key_id = none;
  dnssec_enabled = false;
  records = [];
  dnssec_keys = [];
}

-- Nobody may ask.
abbrev config : ServerConfig
config = record {
  server_id = 1;
  listening_addresses = [];
  is_recursive = false;
  forwarders = [];
  allow_query = [];
  allow_transfer = "127.0.0.1" ∷ [];
  also_notify = [];
  tsig_keys = [];
  zones = orphan ∷ [];
}

abbrev files : Files
files = record { written = []; options = some "old"; local = some "old" }

raised_early : write_configs python paths config files ≡ (bad_zone, files)
unfolding write_configs zone_blocks render_zone_block
raised_early = refl

write_configs-Written_example :
    Written python paths config files (write_configs python paths config files)
write_configs-Written_example = write_configs-Written python paths config files

-- Where the file of the zones cannot be written, the options are new and the zones are old.
abbrev full : Paths
full = record paths {
  disk = λ f path. if str_eq path "named.conf.local" then broken none else whole;
}

half_written :
    write_configs python full (record config { zones = [] }) files
    ≡ (not_written, record files { options = some (render_options_text python config) })
unfolding write_configs zone_blocks render_options_text
half_written = refl

-- An empty list of addresses leaves no list at all.
no_list :
    render_options_text python config
    ≡ "// Generated by Viswall DNS agent — options + rndc controls\ninclude \"/etc/bind/rndc.key\";\ncontrols { inet 127.0.0.1 port 953 allow { 127.0.0.1; } keys { rndc-key; }; };\noptions {\n    directory \"/var/cache/bind\";\n    recursion no;\n    dnssec-validation no;\n    allow-query ;\n    allow-transfer { 127.0.0.1; };\n};\n"
unfolding render_options_text
no_list = refl
