-- ===== src/Dns/Configs.antt =====
-- services/dns-service/viswall_dns_agent/agent.py: `DNSAgent.write_configs`, on the files that it writes.
-- Where the files are, the last line of a signed file, and how a write ends are parameters.
pub mod Named
use viswall.Prelude.{
  ℕ, Bool, true, false, ◌≡◌, refl, sym, ap, subst, ◌∙◌, Option, none, some, List, [], ◌∷◌, ◌++◌,
  String, if◌then◌else◌, str_eq, ◌==◌, Bool-cases, inl, inr,
}
use viswall.Prelude.Texts.{concat}
use viswall.Dns.Render.{
  TsigKey, Zone, ServerConfig, Python, render_zone_text, render_options_text, render_zone_block,
  render_local_text,
}

-- The texts that were written to zone files, the latest last, and the two files of named.
pub record Files : Type 0 where
  pub written : List (String × String)
  pub options : Option String
  pub local : Option String

-- How the mkdir and the write of a file end: with the text in it, or with an `OSError` or a `ValueError`, as for a
-- name that is too long, that leaves the file as it was or with another text.
pub data Write : Type 0 where
  whole : Write
  broken : (left : Option String) → Write

pub record Paths : Type 0 where
  pub zone_file : Zone → String
  pub signed_file : Zone → String
  pub options_file : String
  pub local_file : String
  pub signature : (text : String) → String
  pub disk : Files → (path : String) → Write

-- How a part of the run ends: with a result, with the `ValueError` of a zone that cannot be rendered, or with the
-- exception of a write.
pub data End (A : Type 0) : Type 0 where
  ended : A → End A
  bad_zone : End A
  not_written : End A

-- `key_map.get(id)`: the last active key with the id.
abbrev pub active_name : List TsigKey → ℕ → Option String → Option String
active_name [] id found = found
active_name (k ∷ keys) id found =
    active_name keys id (if k.is_active then (if k.id == id then some k.name else found) else found)

abbrev pub key_name : List TsigKey → Option ℕ → Option String
key_name keys none = none
key_name keys (some id) = active_name keys id none

-- The text of a file after a write.
abbrev pub left_over : (old left : Option String) → Option String
left_over old none = old
left_over old (some text) = some text

abbrev pub write : Write → (path text : String) → Files → Bool × Files
write whole path text f = (true, record f { written = f.written ++ (path, text) ∷ [] })
write (broken none) path text f = (false, f)
write (broken (some left)) path text f =
    (false, record f { written = f.written ++ (path, left) ∷ [] })

abbrev pub write_options : Write → (text : String) → Files → Bool × Files
write_options whole text f = (true, record f { options = some text })
write_options (broken left) text f = (false, record f { options = left_over f.options left })

abbrev pub write_local : Write → (text : String) → Files → Bool × Files
write_local whole text f = (true, record f { local = some text })
write_local (broken left) text f = (false, record f { local = left_over f.local left })

-- A write that raises leaves the run.
abbrev pub if_written : {A : Type 0} → Bool × Files → (Files → End A × Files) → End A × Files
if_written (false, f) next = (not_written, f)
if_written (true, f) next = next f

abbrev pub both : Bool × Files → (Files → Bool × Files) → Bool × Files
both (false, f) next = (false, f)
both (true, f) next = next f

module _ (py : Python) (paths : Paths) where
  unfoldable pub write_zone_file : Zone → Files → Bool × Files
  write_zone_file z f =
      let path = paths.zone_file z in write (paths.disk f path) path (render_zone_text py z false) f

  unfoldable pub write_signed_zone_file : Zone → Files → Bool × Files
  write_signed_zone_file z f =
      let text = render_zone_text py z true in
      let path = paths.signed_file z in
      write (paths.disk f path) path (concat (text ∷ paths.signature text ∷ [])) f

  abbrev pub file_of : Zone → String
  file_of z = if z.dnssec_enabled then paths.signed_file z else paths.zone_file z

  -- A slave zone has no file written.
  abbrev pub write_files : Zone → Files → Bool × Files
  write_files z f =
      if str_eq z.zone_type "slave"
      then (true, f)
      else if z.dnssec_enabled
      then both (write_zone_file z f) (write_signed_zone_file z)
      else write_zone_file z f

  abbrev pub add_block : String → End (List String) × Files → End (List String) × Files
  add_block block (ended blocks, f) = (ended (block ∷ blocks), f)
  add_block block (bad_zone, f) = (bad_zone, f)
  add_block block (not_written, f) = (not_written, f)

  abbrev pub go_on :
      Option String → (Files → End (List String) × Files) → Files → End (List String) × Files
  go_on none next f = (bad_zone, f)
  go_on (some block) next f = add_block block (next f)

  -- The loop over the zones, which an exception leaves.
  unfoldable pub zone_blocks : List TsigKey → List Zone → Files → End (List String) × Files
  zone_blocks keys [] f = (ended [], f)
  zone_blocks keys (z ∷ zones) f =
      let block = render_zone_block z (file_of z) (key_name keys z.transfer_tsig_key_id) in
      if z.enabled
      then if_written (write_files z f) (go_on block (zone_blocks keys zones))
      else zone_blocks keys zones f

  abbrev pub done : Files → End Unit × Files
  done f = (ended tt, f)

  -- The two files of named.
  abbrev pub finish : ServerConfig → End (List String) × Files → End Unit × Files
  finish c (bad_zone, f) = (bad_zone, f)
  finish c (not_written, f) = (not_written, f)
  finish c (ended blocks, f) =
      if_written (write_options (paths.disk f paths.options_file) (render_options_text py c) f)
        (λ g.
          if_written (write_local (paths.disk g paths.local_file) (render_local_text c blocks) g)
            done)

  -- How `write_configs` ends, and the files.
  unfoldable pub write_configs : ServerConfig → Files → End Unit × Files
  write_configs c f = finish c (zone_blocks c.tsig_keys c.zones f)
